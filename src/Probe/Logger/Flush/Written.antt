-- ===== src/Probe/Logger/Flush/Written.antt =====
-- The lines and the blobs among the writes of net-probe/src/logger.cpp.
use nx_reverse.Base.{
  ℕ, zero, suc, ◌+◌, ◌<◌, ◌≡◌, refl, sym, ◌∙◌, Bool-cases, inl, inr, codes, ap, arith, true, false,
  List, [], ◌∷◌, ◌++◌, map, Bytes, get_or, append_assoc, append-nil, ◌==◌, if◌then◌else◌,
}
use nx_reverse.Probe.Logger.{
  QueuedLine, QueuedBlob, BlobQueueKind, generic, nifm, bsd, ssl, get_blob_queue_label,
}
use nx_reverse.Probe.Logger.Flush.{
  Batch, Write, warning, line, blob, emit_drop_warning, emit_blob_warnings,
  emit_pending_drop_warnings, write_blobs, write_batch,
}

abbrev pub lines_of : List Write → List QueuedLine
lines_of [] = []
lines_of (warning label n ∷ ws) = lines_of ws
lines_of (line l ∷ ws) = l ∷ lines_of ws
lines_of (blob i b ∷ ws) = lines_of ws

-- The blobs of the kind at an index.
abbrev pub blobs_of : ℕ → List Write → List QueuedBlob
blobs_of k [] = []
blobs_of k (warning label n ∷ ws) = blobs_of k ws
blobs_of k (line l ∷ ws) = blobs_of k ws
blobs_of k (blob i b ∷ ws) = (if i == k then b ∷ [] else []) ++ blobs_of k ws

pub lines_of-append : (vs ws : List Write) → lines_of (vs ++ ws) ≡ lines_of vs ++ lines_of ws
lines_of-append [] ws = refl
lines_of-append (warning label n ∷ vs) ws = lines_of-append vs ws
lines_of-append (line l ∷ vs) ws = ap (◌∷◌ l) (lines_of-append vs ws)
lines_of-append (blob i b ∷ vs) ws = lines_of-append vs ws

pub blobs_of-append :
    (k : ℕ) (vs ws : List Write) → blobs_of k (vs ++ ws) ≡ blobs_of k vs ++ blobs_of k ws
blobs_of-append k [] ws = refl
blobs_of-append k (warning label n ∷ vs) ws = blobs_of-append k vs ws
blobs_of-append k (line l ∷ vs) ws = blobs_of-append k vs ws
blobs_of-append k (blob i b ∷ vs) ws = rw (blobs_of-append k vs ws, append_assoc) refl

-- Writes that have neither lines nor blobs.
abbrev IsSilent : List Write → Type 0
IsSilent ws = (lines_of ws ≡ []) × ((k : ℕ) → blobs_of k ws ≡ [])

IsSilent-append : (vs ws : List Write) → IsSilent vs → IsSilent ws → IsSilent (vs ++ ws)
IsSilent-append vs ws hv hw =
    (rw (lines_of-append vs ws, hv.0) (hw.0), λ k. rw (blobs_of-append k vs ws, hv.1 k) (hw.1 k))

emit_drop_warning-IsSilent : (label : Bytes) (n : ℕ) → IsSilent (emit_drop_warning label n)
unfolding emit_drop_warning
emit_drop_warning-IsSilent label n = elim (Bool-cases (n == 0)) [
  | inl none_lost ↦ rw none_lost (refl, λ k. refl)
  | inr some_lost ↦ rw some_lost (refl, λ k. refl)
]

emit_blob_warnings-IsSilent :
    (kinds : List BlobQueueKind) (ns : List ℕ) → IsSilent (emit_blob_warnings kinds ns)
unfolding emit_blob_warnings
emit_blob_warnings-IsSilent [] ns = (refl, λ k. refl)
emit_blob_warnings-IsSilent (kind ∷ kinds) [] = (refl, λ k. refl)
emit_blob_warnings-IsSilent (kind ∷ kinds) (n ∷ ns) =
    IsSilent-append (emit_drop_warning (get_blob_queue_label kind) n) (emit_blob_warnings kinds ns)
      (emit_drop_warning-IsSilent (get_blob_queue_label kind) n)
      (emit_blob_warnings-IsSilent kinds ns)

-- The warnings have neither lines nor blobs.
pub warnings-IsSilent : (batch : Batch) → IsSilent (emit_pending_drop_warnings batch)
unfolding emit_pending_drop_warnings
warnings-IsSilent batch =
    let kinds = generic ∷ nifm ∷ bsd ∷ ssl ∷ [] in
    IsSilent-append (emit_drop_warning (codes "text") batch.dropped_lines)
      (emit_blob_warnings kinds batch.dropped_blobs)
      (emit_drop_warning-IsSilent (codes "text") batch.dropped_lines)
      (emit_blob_warnings-IsSilent kinds batch.dropped_blobs)

lines_of-lines : (ls : List QueuedLine) → lines_of (map line ls) ≡ ls
lines_of-lines [] = refl
lines_of-lines (l ∷ ls) = ap (◌∷◌ l) (lines_of-lines ls)

blobs_of-lines : (k : ℕ) (ls : List QueuedLine) → blobs_of k (map line ls) ≡ []
blobs_of-lines k [] = refl
blobs_of-lines k (l ∷ ls) = blobs_of-lines k ls

lines_of-blobs : (i : ℕ) (bs : List QueuedBlob) → lines_of (map (blob i) bs) ≡ []
lines_of-blobs i [] = refl
lines_of-blobs i (b ∷ bs) = lines_of-blobs i bs

blobs_of-blobs :
    (k i : ℕ) (bs : List QueuedBlob) → blobs_of k (map (blob i) bs) ≡ (if i == k then bs else [])
blobs_of-blobs k i [] = ground arith
blobs_of-blobs k i (b ∷ bs) = ground (arith, blobs_of-blobs k i bs)

lines_of-write_blobs : (i : ℕ) (bss : List (List QueuedBlob)) → lines_of (write_blobs i bss) ≡ []
unfolding write_blobs
lines_of-write_blobs i [] = refl
lines_of-write_blobs i (bs ∷ bss) =
    rw (lines_of-append (map (blob i) bs) (write_blobs (suc i) bss), lines_of-blobs i bs)
      (lines_of-write_blobs (suc i) bss)

blobs_of-write_blobs_below :
    (k i : ℕ) (bss : List (List QueuedBlob)) → k < i → blobs_of k (write_blobs i bss) ≡ []
unfolding write_blobs
blobs_of-write_blobs_below k i [] h = refl
blobs_of-write_blobs_below k i (bs ∷ bss) h =
    let other : (i == k) ≡ false = ground arith in
    rw (blobs_of-append k (map (blob i) bs) (write_blobs (suc i) bss), blobs_of-blobs k i bs, other)
      (blobs_of-write_blobs_below k (suc i) bss (omega arith))

blobs_of-write_blobs :
    (k i : ℕ) (bss : List (List QueuedBlob))
    → blobs_of (i + k) (write_blobs i bss) ≡ get_or bss k []
unfolding write_blobs
blobs_of-write_blobs k i [] = refl
blobs_of-write_blobs zero i (bs ∷ bss) =
    let here : i + 0 ≡ i = omega arith in
    let same : (i == i) ≡ true = ground arith in
    rw
      (
        here,
        blobs_of-append i (map (blob i) bs) (write_blobs (suc i) bss),
        blobs_of-blobs i i bs,
        same,
        blobs_of-write_blobs_below i (suc i) bss (omega arith),
      )
      (append-nil bs)
blobs_of-write_blobs (suc k) i (bs ∷ bss) =
    let other : (i == i + suc k) ≡ false = ground arith in
    let e : i + suc k ≡ suc i + k = omega arith in
    rw
      (
        blobs_of-append (i + suc k) (map (blob i) bs) (write_blobs (suc i) bss),
        blobs_of-blobs (i + suc k) i bs,
        other,
        e,
      )
      (blobs_of-write_blobs k (suc i) bss)

-- A round writes the lines of its batch and, of each kind, the blobs of its batch.
pub lines_of-write_batch : (batch : Batch) → lines_of (write_batch batch) ≡ batch.lines
lines_of-write_batch batch =
    rw
      (
        lines_of-append (emit_pending_drop_warnings batch)
            (map line batch.lines ++ write_blobs 0 batch.blobs),
        (warnings-IsSilent batch).0,
        lines_of-append (map line batch.lines) (write_blobs 0 batch.blobs),
        lines_of-lines batch.lines,
        lines_of-write_blobs 0 batch.blobs,
      )
      (append-nil batch.lines)

pub blobs_of-write_batch :
    (k : ℕ) (batch : Batch) → blobs_of k (write_batch batch) ≡ get_or batch.blobs k []
blobs_of-write_batch k batch =
    let e : 0 + k ≡ k = omega arith in
    rw
      (
        blobs_of-append k (emit_pending_drop_warnings batch)
            (map line batch.lines ++ write_blobs 0 batch.blobs),
        (warnings-IsSilent batch).1 k,
        blobs_of-append k (map line batch.lines) (write_blobs 0 batch.blobs),
        blobs_of-lines k batch.lines,
      )
      (ap (λ i. blobs_of i (write_blobs 0 batch.blobs)) (sym e)
        ∙ blobs_of-write_blobs k 0 batch.blobs)
