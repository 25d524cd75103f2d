-- ===== src/Probe/Paths/Returned.antt =====
-- The objects that a response returns in net-probe/src/mitm_trace.cpp.
use mathlib.Core.Path.{subst}
use nx_reverse.Base.Decimal.{decimal}
use nx_reverse.Base.{
  ℕ, suc, ◌+◌, ◌≡◌, ◌≢◌, inl, inr, arith, false, some, List, [], ◌∷◌, ◌++◌, Bytes, length, ◌==◌,
  take, codes, Bool-cases,
}
use nx_reverse.Probe.{DomainPathEntry}
use nx_reverse.Probe.Paths.{
  child_path, remember_children, remember_returned_domain_objects, remember_domain_path,
  get_tracked_domain_path, get_relative_domain_path,
}
use nx_reverse.Probe.Paths.Known.{Holds, get_tracked_domain_path-remember}
use nx_reverse.Probe.Invariant.{ArePaths}
use nx_reverse.Probe.Invariant.Steps.{remember_domain_path-ArePaths}

child_path_some :
    (session parent command : ℕ) (parent_path : Bytes) (i : ℕ)
    → child_path session parent command parent_path i ≢ []
unfolding child_path
child_path_some session parent command [] i e = cc
child_path_some session parent command (c ∷ parent_path) i e = cc

module _ (session parent command : ℕ) (parent_path : Bytes) where
  remember_children-ArePaths :
      (i : ℕ) (children : List (ℕ × ℕ)) (es : List DomainPathEntry)
      → ArePaths es
      → ArePaths (remember_children session parent command parent_path i children es)
  unfolding remember_children
  remember_children-ArePaths i [] es h = h
  remember_children-ArePaths i ((now, child) ∷ children) es h = elim (Bool-cases (child == 0)) [
    | inl skip ↦ rw skip (remember_children-ArePaths (suc i) children es h)
    | inr keep ↦ rw keep (
        remember_children-ArePaths (suc i) children
          (remember_domain_path now session child (child_path session parent command parent_path i)
            parent command es)
          (remember_domain_path-ArePaths now session child
            (child_path session parent command parent_path i) parent command es h))
  ]

  remember_children-last :
      (i : ℕ) (children : List (ℕ × ℕ)) (now child : ℕ) (es : List DomainPathEntry)
      → ArePaths es
      → child ≢ 0
      → (e : DomainPathEntry) × (get_tracked_domain_path session child (
            remember_children session parent command parent_path i
              (children ++ (now, child) ∷ [])
              es)
          ≡ some e)
        × Holds
            (child_path session parent command parent_path (length children + i))
            parent
            command
            e
  unfolding remember_children
  remember_children-last i [] now child es h some_child =
      let keep : (child == 0) ≡ false = ground arith in
      let at_i : 0 + i ≡ i = omega arith in
      rw (keep, at_i)
        (get_tracked_domain_path-remember now session child
          (child_path session parent command parent_path i) parent command es h some_child
          (child_path_some session parent command parent_path i))
  remember_children-last i ((now', child') ∷ children) now child es h some_child =
      let at_i : suc (length children) + i ≡ length children + suc i = omega arith in
      elim (Bool-cases (child' == 0)) [
        | inl skip ↦
            rw (skip, at_i) (remember_children-last (suc i) children now child es h some_child)
        | inr keep ↦
            rw (keep, at_i)
              (remember_children-last (suc i) children now child
                (remember_domain_path now' session child'
                  (child_path session parent command parent_path i) parent command es)
                (remember_domain_path-ArePaths now' session child'
                  (child_path session parent command parent_path i) parent command es h)
                some_child)
      ]

-- The objects of a response keep the table as it must be. The last of them, where its id is not 0, is
-- found afterwards with its parent, the command and the path `<parent>.cmd<command>[<place>]`, cut to
-- 95 bytes, in which `<parent>` is the parent's path before the call and `<place>` how many objects
-- come before.
pub remember_returned_domain_objects-last :
    (session parent command : ℕ) (children : List (ℕ × ℕ)) (now child : ℕ)
    (es : List DomainPathEntry)
    → ArePaths es
    → child ≢ 0
    → ArePaths (
        remember_returned_domain_objects session parent command
          (some (children ++ (now, child) ∷ []))
          es)
      × ((e : DomainPathEntry) × (get_tracked_domain_path session child (
              remember_returned_domain_objects session parent command
                (some (children ++ (now, child) ∷ []))
                es)
            ≡ some e)
          × Holds
              (take 95 (
                get_relative_domain_path 96 session parent es
                ++ (codes ".cmd"
                    ++ (decimal command ++ (b'[' ∷ (decimal (length children) ++ (b']' ∷ [])))))))
              parent
              command
              e)
unfolding remember_returned_domain_objects child_path
remember_returned_domain_objects-last session parent command children now child es h some_child =
    let parent_path = get_relative_domain_path 96 session parent es in
    let place : length children + 0 ≡ length children = omega arith in
    (
      remember_children-ArePaths session parent command parent_path 0
          (children ++ (now, child) ∷ []) es h,
      subst
          (λ n.
            (e : DomainPathEntry) × (get_tracked_domain_path session child (
                remember_children session parent command parent_path 0
                  (children ++ (now, child) ∷ []) es)
              ≡ some e)
            × Holds (child_path session parent command parent_path n) parent command e)
          place
          (remember_children-last session parent command parent_path 0 children now child es h
            some_child),
    )
