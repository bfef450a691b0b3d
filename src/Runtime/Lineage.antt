-- ===== src/Runtime/Lineage.antt =====
-- What the walk of capability_has_revoked_ancestor of kernel/krust/src/ipc/object_lookup.rs looks for.
use vertex_os.Base.{
  ℕ, zero, suc, ◌≡◌, ◌≢◌, ◌∙◌, refl, sym, ap, subst, inl, inr, Bool, true, false, Option, none,
  some, ◌==◌, ==→eq, eq→==, Bool-cases, Option-cases,
}
use vertex_os.Capability.{Capability}
use vertex_os.Runtime.{
  RuntimeState, cap_id_revoked, find_cap_parent, next_parent, has_revoked_ancestor,
}
use vertex_os.Runtime.Syscalls.{capability_has_revoked_ancestor}

-- The capability with the identifier, or one above it by the parents that are known, is revoked; 0
-- is the identifier of none.
pub data RevokedFrom (s : RuntimeState) : ℕ → Type 0 where
  revoked_here : (id : ℕ) → id ≢ 0 → cap_id_revoked id s ≡ true → RevokedFrom s id
  revoked_above :
      (id parent : ℕ)
      → id ≢ 0
      → find_cap_parent id s ≡ some parent
      → RevokedFrom s parent
      → RevokedFrom s id

zero-RevokedFrom : (s : RuntimeState) (id : ℕ) → id ≡ 0 → RevokedFrom s id → ⊥
zero-RevokedFrom s id e (revoked_here _ nonzero _) = nonzero e
zero-RevokedFrom s id e (revoked_above _ _ nonzero _ _) = nonzero e

next_parent-some :
    (id parent : ℕ) (s : RuntimeState)
    → find_cap_parent id s ≡ some parent
    → next_parent id s ≡ parent
unfolding next_parent
next_parent-some id parent s e = rw (e, next_parent) refl

next_parent-none : (id : ℕ) (s : RuntimeState) → find_cap_parent id s ≡ none → next_parent id s ≡ 0
unfolding next_parent
next_parent-none id s e = rw (e, next_parent) refl

next_parent-RevokedFrom :
    (id : ℕ) (s : RuntimeState) → id ≢ 0 → RevokedFrom s (next_parent id s) → RevokedFrom s id
next_parent-RevokedFrom id s nonzero r = elim (Option-cases (find_cap_parent id s)) [
  | inl e ↦ absurd (zero-RevokedFrom s (next_parent id s) (next_parent-none id s e) r)
  | inr (p, e) ↦ revoked_above id p nonzero e (subst (RevokedFrom s) (next_parent-some id p s e) r)
]

false_not_true : some false ≡ some true → ⊥
false_not_true e = cc

walk-stop :
    (fuel id : ℕ) (s : RuntimeState)
    → id == 0 ≡ true
    → has_revoked_ancestor (suc fuel) id s ≡ some false
unfolding has_revoked_ancestor
walk-stop fuel id s e = rw (e, has_revoked_ancestor) refl

walk-revoked :
    (fuel id : ℕ) (s : RuntimeState)
    → id == 0 ≡ false
    → cap_id_revoked id s ≡ true
    → has_revoked_ancestor (suc fuel) id s ≡ some true
unfolding has_revoked_ancestor
walk-revoked fuel id s e r = rw (e, r, has_revoked_ancestor) refl

walk-next :
    (fuel id : ℕ) (s : RuntimeState)
    → id == 0 ≡ false
    → cap_id_revoked id s ≡ false
    → has_revoked_ancestor (suc fuel) id s ≡ has_revoked_ancestor fuel (next_parent id s) s
unfolding has_revoked_ancestor
walk-next fuel id s e r = rw (e, r, has_revoked_ancestor) refl

true_not_false : true ≡ false → ⊥
true_not_false e = cc

nonzero_of : (id : ℕ) → id == 0 ≡ false → id ≢ 0
nonzero_of id e z = true_not_false (sym (eq→== id 0 z) ∙ e)

walk_true :
    (fuel id : ℕ) (s : RuntimeState) → has_revoked_ancestor fuel id s ≡ some true → RevokedFrom s id
unfolding has_revoked_ancestor
walk_true zero id s h = absurd (none_some h)
  where
    none_some : ◌≡◌ {A = Option Bool} none (some true) → ⊥
    none_some e = cc
walk_true (suc fuel) id s h = elim (Bool-cases (id == 0)) [
  | inl e ↦ absurd (false_not_true (sym (walk-stop fuel id s e) ∙ h))
  | inr e ↦ elim (Bool-cases (cap_id_revoked id s)) [
    | inl r ↦ revoked_here id (nonzero_of id e) r
    | inr r ↦
        next_parent-RevokedFrom id s (nonzero_of id e)
          (walk_true fuel (next_parent id s) s (sym (walk-next fuel id s e r) ∙ h))
  ]
]

walk_false :
    (fuel id : ℕ) (s : RuntimeState)
    → RevokedFrom s id
    → has_revoked_ancestor fuel id s ≡ some false
    → ⊥
unfolding has_revoked_ancestor
walk_false zero id s r h = none_some h
  where
    none_some : ◌≡◌ {A = Option Bool} none (some false) → ⊥
    none_some e = cc
walk_false (suc fuel) id s (revoked_here _ nonzero r) h = elim (Bool-cases (id == 0)) [
  | inl e ↦ nonzero (==→eq id 0 e)
  | inr e ↦ false_not_true (sym h ∙ walk-revoked fuel id s e r)
]
walk_false (suc fuel) id s (revoked_above _ parent nonzero f above) h =
    let onward : has_revoked_ancestor fuel parent s ≡ some false → ⊥ =
      walk_false fuel parent s above in
    elim (Bool-cases (id == 0)) [
      | inl e ↦ nonzero (==→eq id 0 e)
      | inr e ↦ elim (Bool-cases (cap_id_revoked id s)) [
        | inl r ↦ false_not_true (sym h ∙ walk-revoked fuel id s e r)
        | inr r ↦ onward (
            ap (λ (n : ℕ). has_revoked_ancestor fuel n s) (sym (next_parent-some id parent s f))
            ∙ (sym (walk-next fuel id s e r) ∙ h))
      ]
    ]

pub capability_has_revoked_ancestor-true :
    (c : Capability) (s : RuntimeState)
    → capability_has_revoked_ancestor c s ≡ some true
    → RevokedFrom s c.parent_cap_id
unfolding capability_has_revoked_ancestor
capability_has_revoked_ancestor-true c s h = walk_true (suc c.parent_cap_id) c.parent_cap_id s h

pub capability_has_revoked_ancestor-false :
    (c : Capability) (s : RuntimeState)
    → capability_has_revoked_ancestor c s ≡ some false
    → RevokedFrom s c.parent_cap_id
    → ⊥
unfolding capability_has_revoked_ancestor
capability_has_revoked_ancestor-false c s h r =
    walk_false (suc c.parent_cap_id) c.parent_cap_id s r h
