-- ===== src/Tests/Trace.antt =====
-- Tests of the services, the binary records and the hexadecimal text of
-- net-probe/src/mitm_trace.cpp.
use nx_reverse.Base.{
  ◌-◌, ◌/◌, ◌≡◌, ◌≢◌, refl, arith, false, some, List, [], ◌∷◌, Bytes, codes, take, equal,
  starts_with,
}
use nx_reverse.Probe.Trace.{
  unknown, bsd_s, known_services, code_among, get_trace_service_code, get_trace_family,
  get_trace_sink, TraceSource, BinaryTraceRecord, chunk_header, emit_from,
  emit_binary_payload_records, hex_encode, hex_from,
}
use nx_reverse.Probe.Trace.Chunks.{AreChunks, joined, emit_binary_payload_records_chunks}
use nx_reverse.Probe.Trace.Hex.{hex_decode, hex_decode-hex_encode}

bsd_code : get_trace_service_code (some (codes "bsd:s")) ≡ bsd_s
unfolding get_trace_service_code known_services code_among equal
bsd_code = refl

bsd_known : get_trace_service_code (some (codes "bsd:s")) ≢ unknown
bsd_known e = cc (bsd_code, e)

abbrev source : TraceSource
source = record {
  service_name = some (codes "bsd:s");
  magic = 0x42544757;
  run_tick = 1;
  timestamp_ns = 2;
  program_id = 3;
  process_id = 4;
  session_id = 5;
  object_id = 6;
  request_id = 7;
  command_id = 11;
  phase = 1;
  direction = 1;
  buffer_index = 0;
  is_pointer_static = false;
}

abbrev buffer : Bytes
buffer = 1 ∷ 2 ∷ 3 ∷ []

abbrev records : List BinaryTraceRecord
records = emit_from source 3 3 0 buffer

emitted :
    emit_binary_payload_records source buffer
    ≡ some (codes "sdmc:/nxrv/probe/probe-mitm-bsd.bin", records)
unfolding emit_binary_payload_records get_trace_sink get_trace_family starts_with
emitted = refl

emit_binary_payload_records_chunks_example : AreChunks 3 0 records × (joined records ≡ buffer)
emit_binary_payload_records_chunks_example =
    emit_binary_payload_records_chunks source buffer (codes "sdmc:/nxrv/probe/probe-mitm-bsd.bin")
      records (omega arith) emitted

-- The last chunk alone is marked as the last.
two_chunks :
    (emit_from source 1537 1537 1536 (9 ∷ []))
    ≡ record { header = chunk_header source 1537 1536 1; payload = 9 ∷ [] } ∷ []
unfolding emit_from
two_chunks = refl

hex_text : hex_encode 5 (0x0a ∷ 0xf1 ∷ 0x22 ∷ []) ≡ codes "0af1"
unfolding hex_from
hex_text = refl

hex_decode-hex_encode_example :
    hex_decode (hex_encode 5 (0x0a ∷ 0xf1 ∷ 0x22 ∷ []))
    ≡ take ((5 - 1) / 2) (0x0a ∷ 0xf1 ∷ 0x22 ∷ [])
hex_decode-hex_encode_example =
    hex_decode-hex_encode 5 (0x0a ∷ 0xf1 ∷ 0x22 ∷ [])
      (omega arith, (omega arith, (omega arith, tt)))
