-- ===== src/Probe/Paths/Segments.antt =====
-- The command segments of an object path, which net-probe/src/mitm_trace.cpp counts.
use mathlib.Core.Bool.{true≢false}
use nx_reverse.Base.Decimal.{decimal, decimal-IsDigit}
use nx_reverse.Probe.Paths.{child_path}
use nx_reverse.Base.{
  IsDigit, All-map, All-append, take, ℕ, zero, suc, ◌+◌, ◌≤◌, ◌≡◌, ◌≢◌, refl, sym, ap, ◌∙◌,
  Bool-cases, inl, inr, ==_iff, &&_iff, arith, true, false, ◌&&◌, [], ◌∷◌, ◌++◌, Bytes, codes,
  starts_with, length, ◌==◌, if◌then◌else◌, All,
}

abbrev segment : Bytes
segment = codes ".cmd"

-- `CountCmdSegments`: from the cursor on, with the number of characters that it still passes over.
unfoldable pub count_cmd_segments_from : ℕ → Bytes → ℕ
count_cmd_segments_from skip [] = 0
count_cmd_segments_from zero (c ∷ text) =
    let behind = count_cmd_segments_from 3 text in
    let next = count_cmd_segments_from 0 text in
    if starts_with (c ∷ text) (codes ".cmd") then suc behind else next
count_cmd_segments_from (suc skip) (c ∷ text) = count_cmd_segments_from skip text

unfoldable pub count_cmd_segments : Bytes → ℕ
count_cmd_segments object_path = count_cmd_segments_from 0 object_path

-- Another segment behind a text does not make one begin inside it.
starts-before :
    (c : ℕ) (text more : Bytes)
    → starts_with ((c ∷ text) ++ (segment ++ more)) segment ≡ starts_with (c ∷ text) segment
unfolding starts_with
starts-before c [] more = refl
starts-before c (d ∷ []) more = refl
starts-before c (d ∷ e ∷ []) more = refl
starts-before c (d ∷ e ∷ f ∷ text) more = refl

three_behind : (c : ℕ) (text : Bytes) → starts_with (c ∷ text) segment ≡ true → 3 ≤ length text
unfolding starts_with
three_behind c [] h = absurd (true≢false (sym ((&&_iff (c == 46) false).0 h).1))
three_behind c (d ∷ []) h =
    absurd (
      true≢false (sym ((&&_iff (d == 99) false).0 ((&&_iff (c == 46) (d == 99 && false)).0 h).1).1))
three_behind c (d ∷ e ∷ []) h = absurd (
    true≢false (
      sym
        ((&&_iff (e == 109) false).0
          ((&&_iff (d == 99) (e == 109 && false)).0
            ((&&_iff (c == 46) (d == 99 && (e == 109 && false))).0 h).1).1).1))
three_behind c (d ∷ e ∷ f ∷ text) h = omega arith

segment_first :
    (more : Bytes)
    → count_cmd_segments_from 0 (segment ++ more) ≡ suc (count_cmd_segments_from 0 more)
unfolding count_cmd_segments_from starts_with
segment_first more = refl

segments-append :
    (skip : ℕ) (text more : Bytes)
    → skip ≤ length text
    → count_cmd_segments_from skip (text ++ (segment ++ more))
      ≡ suc (count_cmd_segments_from skip text + count_cmd_segments_from 0 more)
unfolding count_cmd_segments_from
segments-append zero [] more few = omega (arith, segment_first more)
segments-append (suc skip) [] more few = absurd (omega (arith, few))
segments-append (suc skip) (c ∷ text) more few = segments-append skip text more (omega (arith, few))
segments-append zero (c ∷ text) more few = elim (Bool-cases (starts_with (c ∷ text) segment)) [
  | inl e ↦
      rw (starts-before c text more, e)
        (omega (arith, segments-append 3 text more (three_behind c text e)))
  | inr e ↦ rw (starts-before c text more, e) (segments-append 0 text more (omega arith))
]

no_segment : (text : Bytes) → All (λ c. c ≢ 46) text → count_cmd_segments_from 0 text ≡ 0
unfolding count_cmd_segments_from starts_with
no_segment [] _ = refl
no_segment (c ∷ text) (other, others) = elim (Bool-cases (c == 46)) [
  | inl e ↦ absurd (other ((==_iff c 46).0 e))
  | inr e ↦ rw e (no_segment text others)
]

digit-no_dot : (c : ℕ) → IsDigit c → c ≢ 46
digit-no_dot c h e = omega (arith, h, e)

decimal-no_dots : (n : ℕ) → All (λ c. c ≢ 46) (decimal n)
decimal-no_dots n = All-map IsDigit (λ c. c ≢ 46) (decimal n) digit-no_dot (decimal-IsDigit n)

child-no_dots :
    (command i : ℕ) → All (λ c. c ≢ 46) (decimal command ++ (b'[' ∷ (decimal i ++ (b']' ∷ []))))
child-no_dots command i =
    All-append (λ c. c ≢ 46) (decimal command) _ (decimal-no_dots command)
      (
        (λ e. omega (arith, e)),
        All-append (λ c. c ≢ 46) (decimal i) _ (decimal-no_dots i) ((λ e. omega (arith, e)), tt),
      )

take_fits : (n : ℕ) (text : Bytes) → length text ≤ n → take n text ≡ text
take_fits zero [] few = refl
take_fits zero (c ∷ text) few = absurd (omega (arith, few))
take_fits (suc n) [] few = refl
take_fits (suc n) (c ∷ text) few = ap (λ t. c ∷ t) (take_fits n text (omega (arith, few)))

-- The path of an object that a command returns has one command segment more than the path of the
-- object that was asked, unless it is cut to the 95 characters that are kept.
pub count_cmd_segments-child_path :
    (session parent command : ℕ) (parent_path : Bytes) (i : ℕ)
    → length
        (parent_path ++ (codes ".cmd" ++ (decimal command ++ (b'[' ∷ (decimal i ++ (b']' ∷ []))))))
      ≤ 95
    → count_cmd_segments (child_path session parent command parent_path i)
      ≡ suc (count_cmd_segments parent_path)
unfolding count_cmd_segments child_path
count_cmd_segments-child_path session parent command parent_path i fits =
    let tail = decimal command ++ (b'[' ∷ (decimal i ++ (b']' ∷ []))) in
    ap (count_cmd_segments_from 0) (take_fits 95 (parent_path ++ (segment ++ tail)) fits)
    ∙ omega (
      arith,
      segments-append 0 parent_path tail (omega arith),
      no_segment tail (child-no_dots command i),
    )
