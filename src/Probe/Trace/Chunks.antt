-- ===== src/Probe/Trace/Chunks.antt =====
-- The records of a buffer in net-probe/src/mitm_trace.cpp put the buffer together again.
use mathlib.Core.Path.{subst}
use Prim.Native.Nat.{min}
use nx_reverse.Base.{
  ℕ, zero, suc, ◌+◌, ◌-◌, ◌/◌, ◌%◌, ◌^◌, ◌<◌, ◌≤◌, ◌≡◌, inl, inr, refl, arith, true, false, Option,
  none, some, List, [], ◌∷◌, ◌++◌, Bytes, length, length-take, length-drop, take, drop,
  take-append-drop, take-length, append-nil, ltb, ◌==◌, if◌then◌else◌, is_empty, Bool-cases,
}
use nx_reverse.Probe.Trace.{
  TraceSource, BinaryTraceRecord, get_trace_family, get_trace_sink, chunk_flags, chunk_header,
  emit_from, emit_binary_payload_records,
}

-- The payloads one after the other.
abbrev pub joined : List BinaryTraceRecord → Bytes
joined [] = []
joined (r ∷ rs) = r.payload ++ joined rs

-- The records from `offset` on of a buffer of `size` bytes: each says where its payload lies, how
-- long it is and how long the buffer is, the first and the last are marked, and the last ends the
-- buffer.
abbrev pub AreChunks : ℕ → ℕ → List BinaryTraceRecord → Type 0
AreChunks size offset [] = offset ≡ size
AreChunks size offset (r ∷ rs) =
    (r.header.payload_offset ≡ offset)
    × (r.header.payload_size ≡ length r.payload)
    × (0 < length r.payload)
    × (length r.payload ≤ 1536)
    × (r.header.total_buffer_size ≡ size)
    × (r.header.flags % 2 ≡ (if offset == 0 then 1 else 0))
    × (r.header.flags / 2 % 2 ≡ (if is_empty rs then 1 else 0))
    × AreChunks size (offset + length r.payload) rs

module _ (source : TraceSource) (size : ℕ) (word : size < 2 ^ 32) where
  emit_from_end :
      (fuel offset : ℕ) (bytes : Bytes)
      → size ≤ offset
      → emit_from source size fuel offset bytes ≡ []
  unfolding emit_from
  emit_from_end zero offset bytes h = refl
  emit_from_end (suc fuel) offset bytes h =
      let done : ltb offset size ≡ false = ground arith in rw done refl

  emit_from_more :
      (fuel offset : ℕ) (bytes : Bytes)
      → offset < size
      → 0 < fuel
      → is_empty (emit_from source size fuel offset bytes) ≡ false
  unfolding emit_from
  emit_from_more zero offset bytes h f = absurd (omega arith)
  emit_from_more (suc fuel) offset bytes h f =
      let go : ltb offset size ≡ true = ground arith in rw go refl

  -- The header's fields of a round.
  header_lem :
      (offset chunk : ℕ)
      → offset + chunk ≤ size
      → ((chunk_header source size offset chunk).payload_offset ≡ offset)
        × ((chunk_header source size offset chunk).payload_size ≡ chunk)
        × ((chunk_header source size offset chunk).total_buffer_size ≡ size)
        × ((chunk_header source size offset chunk).flags % 2 ≡ (if offset == 0 then 1 else 0))
        × ((chunk_header source size offset chunk).flags / 2 % 2
            ≡ (if ltb (offset + chunk) size then 0 else 1))
  unfolding chunk_header chunk_flags
  header_lem offset chunk fits = (omega arith, omega arith, omega arith, ground arith, ground arith)

  lt_of : (a b : ℕ) → ltb a b ≡ true → a < b
  lt_of a b h = ground arith

  le_of : (a b : ℕ) → ltb a b ≡ false → b ≤ a
  le_of a b h = ground arith

  no_bytes : (bytes : Bytes) → length bytes ≡ 0 → [] ≡ bytes
  no_bytes [] h = refl
  no_bytes (b ∷ bytes) h = absurd (omega arith)

  emit_from_chunks :
      (fuel offset : ℕ) (bytes : Bytes)
      → offset + length bytes ≡ size
      → length bytes ≤ fuel
      → AreChunks size offset (emit_from source size fuel offset bytes)
        × (joined (emit_from source size fuel offset bytes) ≡ bytes)
  unfolding emit_from
  emit_from_chunks zero offset [] at_end enough = (omega arith, refl)
  emit_from_chunks zero offset (b ∷ bytes) at_end enough = absurd (omega arith)
  emit_from_chunks (suc fuel) offset bytes at_end enough = elim (Bool-cases (ltb offset size)) [
    | inr done ↦
        let past = le_of offset size done in rw done (omega arith, no_bytes bytes (omega arith))
    | inl more ↦ elim (Bool-cases (ltb (offset + 1536) size)) [
      | inl long ↦
          let later = lt_of (offset + 1536) size long in
          let whole : min 1536 (size - offset) ≡ 1536 = omega arith in
          let taken : length (take 1536 bytes) ≡ 1536 = omega (arith, length-take 1536 bytes) in
          let left : length (drop 1536 bytes) ≡ length bytes - 1536 = length-drop 1536 bytes in
          let (at_offset, of_size, total, first, last) = header_lem offset 1536 (omega arith) in
          let (chunks, parts) =
            emit_from_chunks fuel (offset + 1536) (drop 1536 bytes) (omega arith) (omega arith) in
          let behind = emit_from_more fuel (offset + 1536) (drop 1536 bytes) later (omega arith) in
          rw (more, whole, taken, behind, parts)
            (
              (at_offset, of_size, omega arith, omega arith, total, first, rw long at last, chunks),
              take-append-drop 1536 bytes,
            )
      | inr short ↦
          let soon = lt_of offset size more in
          let past = le_of (offset + 1536) size short in
          let rest : min 1536 (size - offset) ≡ length bytes = omega arith in
          let taken : take (length bytes) bytes ≡ bytes = take-length (length bytes) bytes refl in
          let (at_offset, of_size, total, first, last) =
            header_lem offset (length bytes) (omega arith) in
          let over : ltb (offset + length bytes) size ≡ false = ground arith in
          let behind = emit_from_end fuel (offset + 1536) (drop 1536 bytes) past in
          rw (more, rest, taken, behind)
            (
              (at_offset, of_size, omega arith, omega arith, total, first, rw over at last, at_end),
              append-nil bytes,
            )
    ]
  ]

-- The records that are appended for a buffer of less than 2 ^ 32 bytes are its chunks, from the first
-- byte to the last, and their payloads are the buffer.
pub emit_binary_payload_records_chunks :
    (source : TraceSource) (bytes path : Bytes) (records : List BinaryTraceRecord)
    → length bytes < 2 ^ 32
    → emit_binary_payload_records source bytes ≡ some (path, records)
    → AreChunks (length bytes) 0 records × (joined records ≡ bytes)
unfolding emit_binary_payload_records
emit_binary_payload_records_chunks source bytes path records word h = named source.service_name h
  where
    given :
        (o : Option Bytes)
        → ◌≡◌ {A = Option (Bytes × List BinaryTraceRecord)}
            (elim o [
              | none ↦ none
              | some p ↦ some (p, emit_from source (length bytes) (length bytes) 0 bytes)
            ])
            (some (path, records))
        → AreChunks (length bytes) 0 records × (joined records ≡ bytes)
    given none k = cc
    given (some p) k =
        let same : emit_from source (length bytes) (length bytes) 0 bytes ≡ records = cc in
        subst (λ rs. AreChunks (length bytes) 0 rs × (joined rs ≡ bytes)) same
          (emit_from_chunks source (length bytes) word (length bytes) 0 bytes (omega arith)
            (omega arith))

    never : ◌≡◌ {A = Option (Bytes × List BinaryTraceRecord)} none (some (path, records)) → ⊥
    never k = cc

    named :
        (o : Option Bytes)
        → ◌≡◌ {A = Option (Bytes × List BinaryTraceRecord)}
            (elim o [
              | none ↦ none
              | some name ↦
                  (if is_empty bytes then none else elim (get_trace_sink (get_trace_family name)) [
                    | none ↦ none
                    | some p ↦ some (p, emit_from source (length bytes) (length bytes) 0 bytes)
                  ])
            ])
            (some (path, records))
        → AreChunks (length bytes) 0 records × (joined records ≡ bytes)
    named none k = cc
    named (some name) k = elim (Bool-cases (is_empty bytes)) [
      | inl empty ↦ absurd (never (rw empty at k))
      | inr some_bytes ↦ given _ (rw some_bytes at k)
    ]
