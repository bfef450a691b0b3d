-- ===== src/Runtime/Pass.antt =====
-- One run of the loop over the lineage in revoke_cap_id, and the runs together:
-- ipc/runtime_state.rs.
use vertex_os.Base.{
  ℕ, ◌<◌, ◌≡◌, ◌≢◌, refl, subst, ◌⊎◌, inl, inr, Bool, true, false, ◌||◌, Option, none, some, List,
  [], ◌∷◌, All, Bool-cases, arith,
}
use vertex_os.Ids.{IpcError}
use vertex_os.Runtime.{
  CapabilityLineage, RuntimeState, Outcome, done, fails, cap_id_revoked, parent_revoked,
  add_revoked_cap, revoke_children,
}
use vertex_os.Runtime.Growth.{
  Fits, Grows, RevokedAre, Grows-refl, Grows-trans, Added, AddCase, known, full, added,
  add_revoked_cap-AddCase,
}

-- The property passes from the parent of an entry to its child.
abbrev pub Inherits : (ℕ → Type 0) → Option CapabilityLineage → Type 0
Inherits P none = Unit
Inherits P (some entry) =
    entry.parent_cap_id ≢ 0 → entry.cap_id ≢ 0 → P entry.parent_cap_id → P entry.cap_id

-- The child of a revoked parent is revoked.
abbrev pub Revokes : RuntimeState → Option CapabilityLineage → Type 0
Revokes s slot = Inherits (λ id. cap_id_revoked id s ≡ true) slot

-- What a run that returns leaves: it added identifiers that inherit, or it added none and every
-- entry that it read was closed.
pub record Passed (P : ℕ → Type 0) (entries : List (Option CapabilityLineage)) (before now : Bool)
    (s s' : RuntimeState) : Type 0 where
  pub grows : Grows s s'
  pub sound : RevokedAre P s'
  pub progress : now ≡ true → (before ≡ true) ⊎ (s.revoked_cap_count < s'.revoked_cap_count)
  pub closed : now ≡ false → (before ≡ false) × (s' ≡ s) × All (Revokes s) entries

-- A run ends with an outcome that passed, or with an error.
pub data PassCase (P : ℕ → Type 0) (entries : List (Option CapabilityLineage)) (before : Bool)
    (s : RuntimeState) : Outcome Bool → Type 0 where
  passed :
      (now : Bool) (s' : RuntimeState)
      → Passed P entries before now s s'
      → PassCase P entries before s (done now s')
  failed : (e : IpcError) (s' : RuntimeState) → PassCase P entries before s (fails e s')

-- An entry that adds nothing, before the others.
passed_over :
    (P : ℕ → Type 0) (slot : Option CapabilityLineage) (entries : List (Option CapabilityLineage))
    (before : Bool) (s : RuntimeState) (o : Outcome Bool)
    → Revokes s slot
    → PassCase P entries before s o
    → PassCase P (slot ∷ entries) before s o
passed_over P slot entries before s o here (passed now s' p) = passed now s' (record {
  grows = p.grows;
  sound = p.sound;
  progress = p.progress;
  closed = λ e. let (b, same, rest) = p.closed e in (b, same, (here, rest));
})
passed_over P slot entries before s o here (failed e s') = failed e s'

-- An entry that adds its child, before the others.
passed_addition :
    (P : ℕ → Type 0) (slot : Option CapabilityLineage) (entries : List (Option CapabilityLineage))
    (before : Bool) (x : ℕ) (s t : RuntimeState) (o : Outcome Bool)
    → Added x s t
    → PassCase P entries (before || true) t o
    → PassCase P (slot ∷ entries) before s o
passed_addition P slot entries before x s t o a (passed now s' p) = passed now s' (record {
  grows = Grows-trans s t s' a.grows p.grows;
  sound = p.sound;
  progress = λ e. inr (omega (arith, a.more, p.grows.counted));
  closed = λ e. let (b, same, rest) = p.closed e in absurd (ground (arith, b));
})
passed_addition P slot entries before x s t o a (failed e s') = failed e s'

-- What an addition means for the entry that asked for it.
after_add :
    (P : ℕ → Type 0) (entry : CapabilityLineage) (entries : List (Option CapabilityLineage))
    (before : Bool) (s : RuntimeState) (o : Outcome Bool)
    → parent_revoked entry s ≡ true
    → Inherits P (some entry)
    → RevokedAre P s
    → ((now : Bool) (t : RuntimeState)
        → Fits t
        → RevokedAre P t
        → PassCase P entries now t (revoke_children entries now t))
    → Fits s
    → AddCase entry.cap_id s o
    → PassCase P
        (some entry ∷ entries)
        before
        s
        (elim o [ fails e t ↦ fails e t | done b t ↦ revoke_children entries (before || b) t ])
after_add P entry entries before s o p inherits old rest h (full e) = failed _ s
after_add P entry entries before s o p inherits old rest h (known k) =
    let here : Revokes s (some entry) = λ a b c. elim k [ inl e ↦ absurd (b e) | inr r ↦ r ] in
    let same : before || false ≡ before = ground arith in
    passed_over P (some entry) entries before s _ here (rw same (rest before s h old))
after_add P entry entries before s o p inherits old rest h (added t nonzero a) =
    let parent : entry.parent_cap_id ≢ 0 = ground (arith, p) in
    let revoked : cap_id_revoked entry.parent_cap_id s ≡ true = ground (arith, p) in
    let mine : P entry.cap_id = inherits parent nonzero (old entry.parent_cap_id revoked) in
    let now : RevokedAre P t =
      λ y r. elim (a.only y r) [ inl e ↦ subst P e mine | inr e ↦ old y e ] in
    passed_addition P (some entry) entries before entry.cap_id s t _ a
      (rest (before || true) t a.grows.fits now)

pub revoke_children-PassCase :
    (P : ℕ → Type 0) (entries : List (Option CapabilityLineage)) (before : Bool) (s : RuntimeState)
    → All (Inherits P) entries
    → Fits s
    → RevokedAre P s
    → PassCase P entries before s (revoke_children entries before s)
unfolding revoke_children
revoke_children-PassCase P [] before s inherits h old = passed before s (record {
  grows = Grows-refl s h;
  sound = old;
  progress = λ e. inl e;
  closed = λ e. (e, refl, tt);
})
revoke_children-PassCase P (none ∷ entries) before s (_, inherits) h old =
    passed_over P none entries before s _ tt
      (revoke_children-PassCase P entries before s inherits h old)
revoke_children-PassCase P (some entry ∷ entries) before s (here, inherits) h old =
    elim (Bool-cases (parent_revoked entry s)) [
      | inl p ↦
          rw (p, revoke_children)
            (after_add P entry entries before s (add_revoked_cap entry.cap_id s) p here old
              (λ now t f r. revoke_children-PassCase P entries now t inherits f r) h
              (add_revoked_cap-AddCase entry.cap_id s h))
      | inr p ↦
          rw (p, revoke_children)
            (passed_over P (some entry) entries before s _ (λ a b c. absurd (ground arith))
              (revoke_children-PassCase P entries before s inherits h old))
    ]
