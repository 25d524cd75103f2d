-- ===== src/Probe/Mitm/Servers/Held.antt =====
-- What the service manager holds for the process of net-probe/src/mitm_service.cpp, as its calls
-- tell.
use nx_reverse.Base.{
  ℕ, zero, suc, ◌≡◌, refl, sym, ap, ◌∙◌, inl, inr, Bool-cases, Bool, true, false, ◌&&◌, List, [],
  ◌∷◌, ◌++◌, append_assoc, length, map, ◌==◌, if◌then◌else◌,
}
use nx_reverse.Probe.Mitm.Servers.{
  SmCall, registered, asked, uninstalled, register_targets, uninstall_owned_mitm_registrations,
}

-- A target is not registered, or is, or is left behind: `HasMitm` failed or did not know it, or
-- `UninstallMitm` failed, when it should have been uninstalled.
pub data Hold : Type 0 where
  free held left_behind : Hold

-- After `HasMitm` with a result and an answer.
abbrev pub after_asked : ℕ → Bool → Hold → Hold
after_asked rc has h = if rc == 0 && has then h else left_behind

-- After `UninstallMitm` with a result.
abbrev pub after_uninstalled : ℕ → Hold
after_uninstalled rc = if rc == 0 then free else left_behind

abbrev pub change_at : ℕ → (Hold → Hold) → List Hold → List Hold
change_at i f [] = []
change_at zero f (h ∷ hs) = f h ∷ hs
change_at (suc i) f (h ∷ hs) = h ∷ change_at i f hs

-- The targets after the calls.
abbrev pub held_after : List SmCall → List Hold → List Hold
held_after [] hs = hs
held_after (registered i ∷ calls) hs = held_after calls (change_at i (λ _. held) hs)
held_after (asked i rc has ∷ calls) hs = held_after calls (change_at i (after_asked rc has) hs)
held_after (uninstalled i rc ∷ calls) hs =
    held_after calls (change_at i (λ _. after_uninstalled rc) hs)

abbrev pub is_held : Hold → Bool
is_held held = true
is_held _ = false

pub held_after-append :
    (calls more : List SmCall) (hs : List Hold)
    → held_after (calls ++ more) hs ≡ held_after more (held_after calls hs)
held_after-append [] more hs = refl
held_after-append (registered i ∷ calls) more hs = held_after-append calls more _
held_after-append (asked i rc has ∷ calls) more hs = held_after-append calls more _
held_after-append (uninstalled i rc ∷ calls) more hs = held_after-append calls more _

change_behind :
    (before : List Hold) (f : Hold → Hold) (h : Hold) (after : List Hold)
    → change_at (length before) f (before ++ h ∷ after) ≡ before ++ f h ∷ after
change_behind [] f h after = refl
change_behind (b ∷ before) f h after = ap (λ hs. b ∷ hs) (change_behind before f h after)

length-snoc : (before : List Hold) (h : Hold) → suc (length before) ≡ length (before ++ h ∷ [])
length-snoc [] h = refl
length-snoc (b ∷ before) h = ap suc (length-snoc before h)

-- A part of the calls that goes on behind the next entry of the table.
behind :
    (before : List Hold) (h : Hold) (holds after : List Hold) (calls : List SmCall)
    → held_after calls ((before ++ h ∷ []) ++ holds) ≡ (before ++ h ∷ []) ++ after
    → held_after calls (before ++ h ∷ holds) ≡ before ++ h ∷ after
behind before h holds after calls e =
    ap (held_after calls) (sym (append_assoc before (h ∷ []) holds))
    ∙ e
    ∙ append_assoc before (h ∷ []) after

-- One change of that entry.
changed :
    (before : List Hold) (i : ℕ) (f : Hold → Hold) (h : Hold) (holds : List Hold)
    → i ≡ length before
    → change_at i f (before ++ h ∷ holds) ≡ before ++ f h ∷ holds
changed before i f h holds at =
    ap (λ n. change_at n f (before ++ h ∷ holds)) at ∙ change_behind before f h holds

-- The table after the registrations of the enabled targets.
abbrev pub enrolled : (ℕ → ℕ) → ℕ → List Bool → List Hold → List Hold
enrolled register i (false ∷ enabled) (h ∷ hs) = h ∷ enrolled register (suc i) enabled hs
enrolled register i (true ∷ enabled) (h ∷ hs) =
    let rest = enrolled register (suc i) enabled hs in (if register i == 0 then held else h) ∷ rest
enrolled register i _ hs = hs

-- A target that is held after the process has tried to uninstall it.
abbrev pub given_up : ℕ × Bool → ℕ → Hold → Hold
given_up (rc, has) uninstall_rc held =
    if rc == 0 && has then after_uninstalled uninstall_rc else left_behind
given_up answer uninstall_rc h = h

abbrev pub dismissed : (ℕ → ℕ × Bool) → (ℕ → ℕ) → ℕ → List Hold → List Hold
dismissed has uninstall i [] = []
dismissed has uninstall i (h ∷ hs) =
    given_up (has i) (uninstall i) h ∷ dismissed has uninstall (suc i) hs

pub enrolled-held :
    (register : ℕ → ℕ) (enabled : List Bool) (holds before : List Hold) (i : ℕ)
    → i ≡ length before
    → held_after (register_targets register i enabled (map is_held holds)).calls (before ++ holds)
      ≡ before ++ enrolled register i enabled holds
unfolding register_targets
enrolled-held register [] holds before i e = refl
enrolled-held register (false ∷ enabled) [] before i e = refl
enrolled-held register (true ∷ enabled) [] before i e = refl
enrolled-held register (false ∷ enabled) (h ∷ holds) before i e =
    behind before h holds _ (register_targets register (suc i) enabled (map is_held holds)).calls (
      enrolled-held register enabled holds (before ++ h ∷ []) (suc i)
        (ap suc e ∙ length-snoc before h))
enrolled-held register (true ∷ enabled) (h ∷ holds) before i e =
    let calls = (register_targets register (suc i) enabled (map is_held holds)).calls in
    elim (Bool-cases (register i == 0)) [
      | inl done ↦ rw done (
          ap (held_after calls) (changed before i (λ _. held) h holds e)
          ∙ behind before held holds _ calls (
              enrolled-held register enabled holds (before ++ held ∷ []) (suc i)
                (ap suc e ∙ length-snoc before held)))
      | inr failed ↦ rw failed (
          behind before h holds _ calls (
            enrolled-held register enabled holds (before ++ h ∷ []) (suc i)
              (ap suc e ∙ length-snoc before h)))
    ]

pub enrolled-owned :
    (register : ℕ → ℕ) (i : ℕ) (enabled : List Bool) (holds : List Hold)
    → map is_held (enrolled register i enabled holds)
      ≡ (register_targets register i enabled (map is_held holds)).owned
unfolding register_targets
enrolled-owned register i [] holds = refl
enrolled-owned register i (false ∷ enabled) [] = refl
enrolled-owned register i (true ∷ enabled) [] = refl
enrolled-owned register i (false ∷ enabled) (h ∷ holds) =
    ap (λ bs. is_held h ∷ bs) (enrolled-owned register (suc i) enabled holds)
enrolled-owned register i (true ∷ enabled) (h ∷ holds) = elim (Bool-cases (register i == 0)) [
  | inl done ↦ rw done (ap (λ bs. true ∷ bs) (enrolled-owned register (suc i) enabled holds))
  | inr failed ↦
      rw failed (ap (λ bs. is_held h ∷ bs) (enrolled-owned register (suc i) enabled holds))
]

module _ (has : ℕ → ℕ × Bool) (uninstall : ℕ → ℕ) where
  pub dismissed-held :
      (holds before : List Hold) (i : ℕ)
      → i ≡ length before
      → held_after
          (uninstall_owned_mitm_registrations has uninstall i (map is_held holds)).1
          (before ++ holds)
        ≡ before ++ dismissed has uninstall i holds
  unfolding uninstall_owned_mitm_registrations
  dismissed-held [] before i e = refl
  dismissed-held (free ∷ holds) before i e =
      behind before free holds _
        (uninstall_owned_mitm_registrations has uninstall (suc i) (map is_held holds)).1
        (dismissed-held holds (before ++ free ∷ []) (suc i) (ap suc e ∙ length-snoc before free))
  dismissed-held (left_behind ∷ holds) before i e =
      behind before left_behind holds _
        (uninstall_owned_mitm_registrations has uninstall (suc i) (map is_held holds)).1
        (dismissed-held holds (before ++ left_behind ∷ []) (suc i)
          (ap suc e ∙ length-snoc before left_behind))
  dismissed-held (held ∷ holds) before i e =
      let calls =
        (uninstall_owned_mitm_registrations has uninstall (suc i) (map is_held holds)).1 in
      let rest = λ (h : Hold).
        behind before h holds _ calls
          (dismissed-held holds (before ++ h ∷ []) (suc i) (ap suc e ∙ length-snoc before h)) in
      let asking = changed before i (after_asked (has i).0 (has i).1) held holds e in
      elim (Bool-cases ((has i).0 == 0 && (has i).1)) [
        | inl known ↦
            let still : after_asked (has i).0 (has i).1 held ≡ held = rw known refl in
            let table = asking ∙ ap (λ h. before ++ h ∷ holds) still in
            rw known (
              ap (λ t. held_after calls (change_at i (λ _. after_uninstalled (uninstall i)) t))
                table
              ∙ ap (held_after calls)
                  (changed before i (λ _. after_uninstalled (uninstall i)) held holds e)
              ∙ rest (after_uninstalled (uninstall i)))
        | inr unknown ↦
            let lost : after_asked (has i).0 (has i).1 held ≡ left_behind = rw unknown refl in
            let table = asking ∙ ap (λ h. before ++ h ∷ holds) lost in
            rw unknown (ap (held_after calls) table ∙ rest left_behind)
      ]

  pub dismissed-owned :
      (i : ℕ) (holds : List Hold)
      → map is_held (dismissed has uninstall i holds)
        ≡ (uninstall_owned_mitm_registrations has uninstall i (map is_held holds)).0
  unfolding uninstall_owned_mitm_registrations
  dismissed-owned i [] = refl
  dismissed-owned i (free ∷ holds) = ap (λ bs. false ∷ bs) (dismissed-owned (suc i) holds)
  dismissed-owned i (left_behind ∷ holds) = ap (λ bs. false ∷ bs) (dismissed-owned (suc i) holds)
  dismissed-owned i (held ∷ holds) = elim (Bool-cases ((has i).0 == 0 && (has i).1)) [
    | inl known ↦ elim (Bool-cases (uninstall i == 0)) [
      | inl gone ↦ rw (known, gone) (ap (λ bs. false ∷ bs) (dismissed-owned (suc i) holds))
      | inr still ↦ rw (known, still) (ap (λ bs. false ∷ bs) (dismissed-owned (suc i) holds))
    ]
    | inr unknown ↦ rw unknown (ap (λ bs. false ∷ bs) (dismissed-owned (suc i) holds))
  ]
