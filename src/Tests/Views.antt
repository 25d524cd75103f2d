-- ===== src/Tests/Views.antt =====
-- Tests of the buffers of a message in net-probe/src/mitm_trace.cpp.
use nx_reverse.Base.{◌≡◌, refl, true, none, some, [], ◌∷◌, get_elem?}
use nx_reverse.Probe.Views.{
  ParsedRequest, get_view, head_view, get_first_request_input_view, get_request_input_view_at,
  get_first_response_output_view, or_view, input_views, get_request_input_view_at_lem,
}

-- An empty exchange buffer behind a static and a buffer.
abbrev request : ParsedRequest
request = record {
  send_buffers = record { address = 0x1000; size = 16 } ∷ [];
  send_statics = record { address = 0x2000; size = 28 } ∷ [];
  exch_buffers = record { address = 0; size = 0 } ∷ [];
  recv_buffers = [];
}

-- The first of two send buffers is empty.
abbrev hidden : ParsedRequest
hidden = record request {
  send_buffers = record { address = 0; size = 0 } ∷ record { address = 0x3000; size = 8 } ∷ [];
}

hidden_first :
    get_first_request_input_view hidden
    ≡ some record { address = 0x2000; size = 28; is_pointer_static = true }
unfolding get_first_request_input_view head_view get_view or_view
hidden_first = refl

no_output : get_first_response_output_view request none ≡ none
unfolding get_first_response_output_view head_view get_view or_view
no_output = refl

get_request_input_view_at_lem_example :
    get_request_input_view_at hidden 1 ≡ get_elem? (input_views hidden) 1
get_request_input_view_at_lem_example = get_request_input_view_at_lem hidden 1
