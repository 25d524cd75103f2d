-- ===== src/Probe/Views.antt =====
-- The buffers of a message that the probe decodes (net-probe/src/mitm_trace.cpp). A descriptor is
-- what the HIPC library reads from it: an address and a size.
use nx_reverse.Base.{
  ℕ, zero, suc, ◌+◌, ◌≡◌, refl, ap, ◌∙◌, Bool, true, false, ◌||◌, Bool-cases, inl, inr, ==_iff,
  Option, none, some, List, [], ◌∷◌, ◌++◌, get_elem?, ◌==◌, if◌then◌else◌, arith,
}

pub record Descriptor : Type 0 where
  pub address : ℕ
  pub size : ℕ

-- What the out parameters of a view get.
pub record View : Type 0 where
  pub address : ℕ
  pub size : ℕ
  pub is_pointer_static : Bool

-- The descriptors of a `HipcParsedRequest`, as many as its counts say.
pub record ParsedRequest : Type 0 where
  pub send_buffers : List Descriptor
  pub send_statics : List Descriptor
  pub exch_buffers : List Descriptor
  pub recv_buffers : List Descriptor

-- `GetBufferView` and `GetStaticView`: the view of a descriptor that is not empty.
unfoldable pub get_view : Bool → Descriptor → Option View
get_view is_static d =
    if d.address == 0 || d.size == 0
    then none
    else some record { address = d.address; size = d.size; is_pointer_static = is_static }

-- A view that is there, and else another attempt.
unfoldable pub or_view : Option View → Option View → Option View
or_view (some v) other = some v
or_view none other = other

-- The view of the first descriptor of a kind.
unfoldable pub head_view : Bool → List Descriptor → Option View
head_view is_static [] = none
head_view is_static (d ∷ ds) = get_view is_static d

unfoldable pub get_first_request_input_view : ParsedRequest → Option View
get_first_request_input_view r =
    or_view (head_view false r.send_buffers)
      (or_view (head_view true r.send_statics) (head_view false r.exch_buffers))

-- `GetFirstResponseOutputView`, with the statics of a response if there is one.
unfoldable pub get_first_response_output_view :
    ParsedRequest → Option (List Descriptor) → Option View
get_first_response_output_view r none =
    or_view (head_view false r.recv_buffers) (head_view false r.exch_buffers)
get_first_response_output_view r (some statics) =
    or_view (head_view false r.recv_buffers)
      (or_view (head_view false r.exch_buffers) (head_view true statics))

-- A search that goes on, with how many views it has passed, or is over.
pub data Search : Type 0 where
  passed : ℕ → Search
  found : View → Search

-- `try_match` in `GetRequestInputViewAt`.
unfoldable pub try_match : ℕ → Option View → ℕ → Search
try_match ordinal none current = passed current
try_match ordinal (some v) current = if current == ordinal then found v else passed (suc current)

-- The search after what was found so far.
unfoldable pub resume : Search → (ℕ → Search) → Search
resume (found v) further = found v
resume (passed current) further = further current

-- One of its three loops.
unfoldable pub search_views : ℕ → Bool → List Descriptor → ℕ → Search
search_views ordinal is_static [] current = passed current
search_views ordinal is_static (d ∷ ds) current =
    resume (try_match ordinal (get_view is_static d) current) (search_views ordinal is_static ds)

abbrev pub view_found : Search → Option View
view_found (found v) = some v
view_found (passed current) = none

unfoldable pub get_request_input_view_at : ParsedRequest → ℕ → Option View
get_request_input_view_at r ordinal = view_found (
    resume
      (resume (search_views ordinal false r.send_buffers 0)
        (search_views ordinal true r.send_statics))
      (search_views ordinal false r.exch_buffers))

-- The views that are there, in the order of the descriptors.
abbrev pub add_view : Option View → List View → List View
add_view none vs = vs
add_view (some v) vs = v ∷ vs

abbrev pub views_of : Bool → List Descriptor → List View
views_of is_static [] = []
views_of is_static (d ∷ ds) = add_view (get_view is_static d) (views_of is_static ds)

-- The buffer at an address, if neither the address nor the size is 0.
abbrev pub buffer_at : Bool → ℕ → ℕ → List View
buffer_at is_static zero size = []
buffer_at is_static (suc a) zero = []
buffer_at is_static (suc a) (suc n) =
    record { address = suc a; size = suc n; is_pointer_static = is_static } ∷ []

abbrev pub buffers_of : Bool → List Descriptor → List View
buffers_of is_static [] = []
buffers_of is_static (d ∷ ds) = buffer_at is_static d.address d.size ++ buffers_of is_static ds

-- The buffers of a request that count, in the order of their kinds.
abbrev pub input_views : ParsedRequest → List View
input_views r =
    (buffers_of false r.send_buffers ++ buffers_of true r.send_statics)
    ++ buffers_of false r.exch_buffers

add_view-buffer_at :
    (is_static : Bool) (address size : ℕ) (vs : List View)
    → add_view (get_view is_static record { address = address; size = size }) vs
      ≡ buffer_at is_static address size ++ vs
unfolding get_view
add_view-buffer_at is_static zero size vs = refl
add_view-buffer_at is_static (suc a) zero vs =
    let there : (suc a == 0) ≡ false = ground arith in rw there refl
add_view-buffer_at is_static (suc a) (suc n) vs =
    let there : (suc a == 0) ≡ false = ground arith in
    let some_size : (suc n == 0) ≡ false = ground arith in rw (there, some_size) refl

views_of-buffers_of :
    (is_static : Bool) (ds : List Descriptor) → views_of is_static ds ≡ buffers_of is_static ds
views_of-buffers_of is_static [] = refl
views_of-buffers_of is_static (d ∷ ds) =
    add_view-buffer_at is_static d.address d.size (views_of is_static ds)
    ∙ ap (λ vs. buffer_at is_static d.address d.size ++ vs) (views_of-buffers_of is_static ds)

-- The search over views that are all there.
abbrev seek : ℕ → List View → ℕ → Search
seek ordinal [] current = passed current
seek ordinal (v ∷ vs) current =
    let rest = seek ordinal vs (suc current) in if current == ordinal then found v else rest

seek-append :
    (ordinal : ℕ) (vs more : List View) (current : ℕ)
    → resume (seek ordinal vs current) (seek ordinal more) ≡ seek ordinal (vs ++ more) current
unfolding resume
seek-append ordinal [] more current = refl
seek-append ordinal (v ∷ vs) more current = elim (Bool-cases (current == ordinal)) [
  | inl e ↦ rw e refl
  | inr e ↦ rw e (seek-append ordinal vs more (suc current))
]

add-seek :
    (ordinal : ℕ) (o : Option View) (vs : List View) (current : ℕ) (further : ℕ → Search)
    → ((c : ℕ) → further c ≡ seek ordinal vs c)
    → resume (try_match ordinal o current) further ≡ seek ordinal (add_view o vs) current
unfolding resume try_match
add-seek ordinal none vs current further h = h current
add-seek ordinal (some v) vs current further h = elim (Bool-cases (current == ordinal)) [
  | inl e ↦ rw e refl
  | inr e ↦ rw e (h (suc current))
]

search_views-seek :
    (ordinal : ℕ) (is_static : Bool) (ds : List Descriptor) (current : ℕ)
    → search_views ordinal is_static ds current ≡ seek ordinal (views_of is_static ds) current
unfolding search_views
search_views-seek ordinal is_static [] current = refl
search_views-seek ordinal is_static (d ∷ ds) current =
    add-seek ordinal (get_view is_static d) (views_of is_static ds) current _
      (search_views-seek ordinal is_static ds)

seek-get :
    (k ordinal current : ℕ) (vs : List View)
    → current + k ≡ ordinal
    → view_found (seek ordinal vs current) ≡ get_elem? vs k
seek-get k ordinal current [] e = refl
seek-get zero ordinal current (v ∷ vs) e = rw ((==_iff current ordinal).1 (omega (arith, e))) refl
seek-get (suc k) ordinal current (v ∷ vs) e = elim (Bool-cases (current == ordinal)) [
  | inl same ↦ absurd (omega (arith, e, (==_iff current ordinal).0 same))
  | inr other ↦ rw other (seek-get k ordinal (suc current) vs (omega (arith, e)))
]

resume-same : (x : Search) (f g : ℕ → Search) → ((c : ℕ) → f c ≡ g c) → resume x f ≡ resume x g
unfolding resume
resume-same (found v) f g h = refl
resume-same (passed c) f g h = h c

resume-seek :
    (ordinal : ℕ) (x : Search) (is_static : Bool) (ds : List Descriptor) (vs : List View)
    → x ≡ seek ordinal vs 0
    → resume x (search_views ordinal is_static ds) ≡ seek ordinal (vs ++ views_of is_static ds) 0
resume-seek ordinal x is_static ds vs e =
    resume-same x _ (seek ordinal (views_of is_static ds)) (search_views-seek ordinal is_static ds)
    ∙ ap (λ y. resume y (seek ordinal (views_of is_static ds))) e
    ∙ seek-append ordinal vs (views_of is_static ds) 0

get_request_input_view_at-views_of :
    (r : ParsedRequest) (ordinal : ℕ)
    → get_request_input_view_at r ordinal
      ≡ get_elem?
          ((views_of false r.send_buffers ++ views_of true r.send_statics)
            ++ views_of false r.exch_buffers)
          ordinal
unfolding get_request_input_view_at
get_request_input_view_at-views_of r ordinal =
    ap view_found (
      resume-seek ordinal _ false r.exch_buffers
        (views_of false r.send_buffers ++ views_of true r.send_statics)
        (resume-seek ordinal _ true r.send_statics (views_of false r.send_buffers)
          (search_views-seek ordinal false r.send_buffers 0)))
    ∙ seek-get ordinal ordinal 0 _ (omega arith)

-- `GetRequestInputViewAt` finds the buffer at the ordinal among the send buffers, the send statics
-- and the exchange buffers in this order, of which those without an address or a size do not count,
-- and finds none if there are not so many.
pub get_request_input_view_at_lem :
    (r : ParsedRequest) (ordinal : ℕ)
    → get_request_input_view_at r ordinal ≡ get_elem? (input_views r) ordinal
get_request_input_view_at_lem r ordinal =
    let sent = views_of-buffers_of false r.send_buffers in
    let statics = views_of-buffers_of true r.send_statics in
    let exchanged = views_of-buffers_of false r.exch_buffers in
    get_request_input_view_at-views_of r ordinal ∙ rw (sent, statics, exchanged) refl

-- A kind has no view that counts behind a first descriptor that does not.
abbrev pub IsHeaded : Bool → List Descriptor → Type 0
IsHeaded is_static ds = head_view is_static ds ≡ none → views_of is_static ds ≡ []
