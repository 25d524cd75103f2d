-- ===== src/Probe/Trace.antt =====
-- The services and the binary records of net-probe/src/mitm_trace.cpp. A null pointer to a name is
-- `none`.
pub mod Services
pub mod Chunks
pub mod Hex
use Prim.Native.Nat.{min}
use nx_reverse.Base.{
  ℕ, zero, suc, ◌+◌, ◌-◌, ◌/◌, ◌%◌, ◌^◌, Bool, true, false, not, ◌&&◌, ◌||◌, Option, none, some,
  List, [], ◌∷◌, Bytes, codes, equal, starts_with, length, get_or, take, drop, ltb, ◌==◌,
  if◌then◌else◌, is_empty,
}

pub data TraceFamily : Type 0 where
  broadcast nifm bsd ssl notif : TraceFamily

pub data TraceServiceCode : Type 0 where
  unknown nifm_u nifm_s bsd_u bsd_s bsd_a ssl_plain ssl_s notif_s : TraceServiceCode

-- The values of the enumeration.
unfoldable pub code_value : TraceServiceCode → ℕ
code_value unknown = 0
code_value nifm_u = 0x101
code_value nifm_s = 0x102
code_value bsd_u = 0x201
code_value bsd_s = 0x202
code_value bsd_a = 0x203
code_value ssl_plain = 0x301
code_value ssl_s = 0x302
code_value notif_s = 0x401

-- The comparisons of `GetTraceServiceCode`, in their order.
unfoldable pub known_services : List (Bytes × TraceServiceCode)
known_services =
    (codes "nifm:u", nifm_u)
    ∷ (codes "nifm:s", nifm_s)
    ∷ (codes "bsd:u", bsd_u)
    ∷ (codes "bsd:s", bsd_s)
    ∷ (codes "bsd:a", bsd_a)
    ∷ (codes "ssl", ssl_plain)
    ∷ (codes "ssl:s", ssl_s)
    ∷ (codes "notif:s", notif_s)
    ∷ []

unfoldable pub code_among : Bytes → List (Bytes × TraceServiceCode) → TraceServiceCode
code_among name [] = unknown
code_among name ((known, code) ∷ services) =
    if equal name known then code else code_among name services

-- `GetTraceServiceCode`
unfoldable pub get_trace_service_code : Option Bytes → TraceServiceCode
get_trace_service_code none = unknown
get_trace_service_code (some name) = code_among name known_services

-- `GetTraceFamilyForServiceName`, on a name that is not null.
unfoldable pub get_trace_family : Bytes → TraceFamily
get_trace_family name =
    if starts_with name (codes "nifm:")
    then nifm
    else if starts_with name (codes "bsd:")
    then bsd
    else if starts_with name (codes "ssl")
    then ssl
    else if equal name (codes "notif:s")
    then notif
    else broadcast

-- `GetTraceSinkConfig`: the path of the binary trace of a family.
unfoldable pub get_trace_sink : TraceFamily → Option Bytes
get_trace_sink broadcast = none
get_trace_sink nifm = some (codes "sdmc:/nxrv/probe/probe-mitm-nifm.bin")
get_trace_sink bsd = some (codes "sdmc:/nxrv/probe/probe-mitm-bsd.bin")
get_trace_sink ssl = some (codes "sdmc:/nxrv/probe/probe-mitm-ssl.bin")
get_trace_sink notif = some (codes "sdmc:/nxrv/probe/probe-mitm-notif.bin")

-- The fields of `BinaryTraceRecordHeader`, each below the bound of its type.
pub record BinaryTraceRecordHeader : Type 0 where
  pub magic : ℕ
  pub version : ℕ
  pub header_size : ℕ
  pub run_tick : ℕ
  pub timestamp_ns : ℕ
  pub request_id : ℕ
  pub session_id : ℕ
  pub program_id : ℕ
  pub process_id : ℕ
  pub object_id : ℕ
  pub service_code : ℕ
  pub command_id : ℕ
  pub phase : ℕ
  pub buffer_direction : ℕ
  pub buffer_index : ℕ
  pub flags : ℕ
  pub payload_offset : ℕ
  pub payload_size : ℕ
  pub total_buffer_size : ℕ

-- A record as it is appended: the header, and the payload behind it.
pub record BinaryTraceRecord : Type 0 where
  pub header : BinaryTraceRecordHeader
  pub payload : Bytes

-- The other arguments of `EmitBinaryPayloadRecords`, `BinaryTraceMagic`, which the Atmosphère
-- headers compute, and `g_run_tick`.
pub record TraceSource : Type 0 where
  pub service_name : Option Bytes
  pub magic : ℕ
  pub run_tick : ℕ
  pub timestamp_ns : ℕ
  pub program_id : ℕ
  pub process_id : ℕ
  pub session_id : ℕ
  pub object_id : ℕ
  pub request_id : ℕ
  pub command_id : ℕ
  pub phase : ℕ
  pub direction : ℕ
  pub buffer_index : ℕ
  pub is_pointer_static : Bool

abbrev pub binary_payload_chunk_bytes : ℕ
binary_payload_chunk_bytes = 1536

module _ (source : TraceSource) (size : ℕ) where
  -- The flags are three different bits, so that setting them adds them up.
  unfoldable pub chunk_flags : ℕ → ℕ → ℕ
  chunk_flags offset chunk_size =
      (if offset == 0 then 1 else 0)
      + (if ltb (offset + chunk_size) size then 0 else 2)
      + (if source.is_pointer_static then 4 else 0)

  unfoldable pub chunk_header : ℕ → ℕ → BinaryTraceRecordHeader
  chunk_header offset chunk_size = record {
    magic = source.magic;
    version = 1;
    header_size = 80;
    run_tick = source.run_tick;
    timestamp_ns = source.timestamp_ns;
    request_id = source.request_id;
    session_id = source.session_id;
    program_id = source.program_id;
    process_id = source.process_id;
    object_id = source.object_id;
    service_code = code_value (get_trace_service_code source.service_name);
    command_id = source.command_id % 2 ^ 16;
    phase = source.phase;
    buffer_direction = source.direction;
    buffer_index = source.buffer_index;
    flags = chunk_flags offset chunk_size;
    payload_offset = offset % 2 ^ 32;
    payload_size = chunk_size % 2 ^ 32;
    total_buffer_size = size % 2 ^ 32;
  }

  -- The loop from `offset` on, over the bytes that are there; each round takes one at least.
  unfoldable pub emit_from : ℕ → ℕ → Bytes → List BinaryTraceRecord
  emit_from zero offset bytes = []
  emit_from (suc fuel) offset bytes =
      let chunk_size = min binary_payload_chunk_bytes (size - offset) in
      let rest =
        emit_from fuel (offset + binary_payload_chunk_bytes)
          (drop binary_payload_chunk_bytes bytes) in
      if ltb offset size
      then record { header = chunk_header offset chunk_size; payload = take chunk_size bytes }
        ∷ rest
      else []

-- `EmitBinaryPayloadRecords`: the path and the records that are appended to it.
unfoldable pub emit_binary_payload_records :
    TraceSource → Bytes → Option (Bytes × List BinaryTraceRecord)
emit_binary_payload_records source bytes = elim source.service_name [
  | none ↦ none
  | some name ↦ if is_empty bytes then none else elim (get_trace_sink (get_trace_family name)) [
    | none ↦ none
    | some path ↦ some (path, emit_from source (length bytes) (length bytes) 0 bytes)
  ]
]

-- `Hex[n]`
abbrev pub hex_digit : ℕ → ℕ
hex_digit n = get_or (codes "0123456789abcdef") n 0

-- `HexEncode`, on an output of `out_size` bytes that is there: the text in front of the terminator.
unfoldable pub hex_from : ℕ → ℕ → Bytes → Bytes
hex_from out_size cursor [] = []
hex_from out_size cursor (b ∷ bytes) =
    let rest = hex_from out_size (cursor + 2) bytes in
    if ltb (cursor + 2) out_size then hex_digit (b / 16 % 16) ∷ hex_digit (b % 16) ∷ rest else []

abbrev pub hex_encode : ℕ → Bytes → Bytes
hex_encode out_size bytes = hex_from out_size 0 bytes
