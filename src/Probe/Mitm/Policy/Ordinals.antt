-- ===== src/Probe/Mitm/Policy/Ordinals.antt =====
-- The root sessions of the toolbox forwarder, which net-probe/src/mitm_service.cpp tells apart by
-- the order of their queries.
use nx_reverse.Base.{
  ◌∙◌, Bytes, ℕ, zero, suc, ◌+◌, ◌<◌, ◌^◌, ◌≡◌, ◌≢◌, refl, ap, ==_iff, Bool-cases, inl, inr, arith,
  Bool, true, false, List, [], ◌∷◌, ◌==◌, if◌then◌else◌, replicate,
}
use nx_reverse.Probe.Mitm.{
  Programs, BuildConfig, MitmProcessInfo, MitmState, ToolboxForwarderBsdMitmMode, increment,
  no_session, first_only, second_only, both,
}
use nx_reverse.Probe.Mitm.Policy.{
  is_self_program, allows_ordinal, count_ordinal, should_mitm_for_service, note_if,
  note_bsd_system_mitm_pending, record_decision, should_mitm_bsd_system, forwarder_session,
}

-- The answers to the sessions with the ordinals after `k`.
abbrev allowed_after : ToolboxForwarderBsdMitmMode → ℕ → ℕ → List Bool
allowed_after mode k zero = []
allowed_after mode k (suc n) = allows_ordinal mode (suc k) ∷ allowed_after mode (suc k) n

-- The answers to the first n sessions of a forwarder: none is admitted, the first, the second, or
-- all.
abbrev pub answers_of : ToolboxForwarderBsdMitmMode → ℕ → List Bool
answers_of no_session n = replicate n false
answers_of both n = replicate n true
answers_of first_only zero = []
answers_of first_only (suc n) = true ∷ replicate n false
answers_of second_only zero = []
answers_of second_only (suc zero) = false ∷ []
answers_of second_only (suc (suc n)) = false ∷ true ∷ replicate n false

-- The ordinals behind the admitted one.
allowed_after-same :
    (mode : ToolboxForwarderBsdMitmMode) (answer : Bool) (k n : ℕ)
    → ((j : ℕ) → k < j → allows_ordinal mode j ≡ answer)
    → allowed_after mode k n ≡ replicate n answer
allowed_after-same mode answer k zero h = refl
allowed_after-same mode answer k (suc n) h =
    let rest = allowed_after-same mode answer (suc k) n (λ j l. h j (omega (arith, l))) in
    rw (h (suc k) (omega arith), rest) refl

allowed_after-answers_of :
    (mode : ToolboxForwarderBsdMitmMode) (n : ℕ) → allowed_after mode 0 n ≡ answers_of mode n
allowed_after-answers_of no_session n = allowed_after-same no_session false 0 n (λ j l. refl)
allowed_after-answers_of both n = allowed_after-same both true 0 n (λ j l. refl)
allowed_after-answers_of first_only zero = refl
allowed_after-answers_of first_only (suc n) =
    ap (◌∷◌ true) (allowed_after-same first_only false 1 n (λ j l. ground arith))
allowed_after-answers_of second_only zero = refl
allowed_after-answers_of second_only (suc zero) = refl
allowed_after-answers_of second_only (suc (suc n)) =
    ap (λ bs. false ∷ true ∷ bs) (allowed_after-same second_only false 2 n (λ j l. ground arith))

-- What the ordinal of a client goes on from.
abbrev seen_of : MitmProcessInfo → MitmState → ℕ
seen_of client s = if s.ordinal_pid == client.process_id then s.ordinal_count else 0

-- An answer and the ordinal that it leaves.
record Numbered (answer : Bool) (pid count : ℕ) (r : Bool × MitmState) : Type 0 where
  pub answered : r.0 ≡ answer
  pub same_pid : r.1.ordinal_pid ≡ pid
  pub same_count : r.1.ordinal_count ≡ count

if-Numbered :
    {pid count : ℕ} (allow : Bool) (x y : Bool × MitmState)
    → Numbered true pid count x
    → Numbered false pid count y
    → Numbered allow pid count (if allow then x else y)
if-Numbered true x y h _ = h
if-Numbered false x y _ h = h

taken-Numbered :
    (service : Bytes) (client : MitmProcessInfo) (t : MitmState)
    → is_self_program client ≡ false
    → Numbered true t.ordinal_pid t.ordinal_count
        (note_if (should_mitm_for_service service client t))
unfolding note_if should_mitm_for_service note_bsd_system_mitm_pending record_decision
taken-Numbered service client t other =
    rw other record { answered = refl; same_pid = refl; same_count = refl }

module _ (programs : Programs) (config : BuildConfig) where
  -- The same client asks a number of times.
  unfoldable pub ask : ℕ → MitmProcessInfo → MitmState → List Bool × MitmState
  ask zero client s = ([], s)
  ask (suc n) client s =
      let (answer, t) = should_mitm_bsd_system programs config client s in
      let (answers, last) = ask n client t in (answer ∷ answers, last)

  -- One query of the forwarder.
  asked-Numbered :
      (client : MitmProcessInfo) (s : MitmState)
      → client.program_id ≡ programs.toolbox_forwarder
      → config.allow_bsd_system_toolbox_forwarder ≡ true
      → is_self_program client ≡ false
      → Numbered
          (allows_ordinal config.toolbox_forwarder_bsd_mitm (increment (seen_of client s)))
          client.process_id
          (increment (seen_of client s))
          (should_mitm_bsd_system programs config client s)
  unfolding should_mitm_bsd_system forwarder_session count_ordinal record_decision
  asked-Numbered client s same on other =
      rw (other, (==_iff client.program_id programs.toolbox_forwarder).1 same, on)
        (if-Numbered
          (allows_ordinal config.toolbox_forwarder_bsd_mitm (increment (seen_of client s))) _ _
          (taken-Numbered _ client _ other)
          (record { answered = refl; same_pid = refl; same_count = refl }))

  ask_from :
      (n k : ℕ) (client : MitmProcessInfo) (s : MitmState)
      → client.program_id ≡ programs.toolbox_forwarder
      → config.allow_bsd_system_toolbox_forwarder ≡ true
      → is_self_program client ≡ false
      → k + n < 2 ^ 32
      → seen_of client s ≡ k
      → (ask n client s).0 ≡ allowed_after config.toolbox_forwarder_bsd_mitm k n
  unfolding ask
  ask_from zero k client s same on other fits seen = refl
  ask_from (suc n) k client s same on other fits seen =
      let t = should_mitm_bsd_system programs config client s in
      let r = asked-Numbered client s same on other in
      let counted : increment (seen_of client s) ≡ suc k = omega (arith, fits, seen) in
      let next : seen_of client t.1 ≡ suc k =
        rw ((==_iff t.1.ordinal_pid client.process_id).1 r.same_pid) (r.same_count ∙ counted) in
      let answer = r.answered ∙ ap (allows_ordinal config.toolbox_forwarder_bsd_mitm) counted in
      let rest = ask_from n (suc k) client t.1 same on other (omega (arith, fits)) next in cc

  -- When the toolbox forwarder's sessions are admitted at all, and the last client that was counted
  -- is another process, the next n sessions of one of its processes, for fewer than 2^32 sessions, are
  -- answered as the mode says: none is admitted, only the first, only the second, or all.
  pub ask_answers :
      (n : ℕ) (client : MitmProcessInfo) (s : MitmState)
      → client.program_id ≡ programs.toolbox_forwarder
      → config.allow_bsd_system_toolbox_forwarder ≡ true
      → is_self_program client ≡ false
      → n < 2 ^ 32
      → s.ordinal_pid ≢ client.process_id
      → (ask n client s).0 ≡ answers_of config.toolbox_forwarder_bsd_mitm n
  ask_answers n client s same on other fits fresh =
      ask_from n 0 client s same on other (omega (arith, fits))
        (elim (Bool-cases (s.ordinal_pid == client.process_id)) [
          | inl e ↦ absurd (fresh ((==_iff s.ordinal_pid client.process_id).0 e))
          | inr e ↦ rw e refl
        ])
      ∙ allowed_after-answers_of config.toolbox_forwarder_bsd_mitm n
