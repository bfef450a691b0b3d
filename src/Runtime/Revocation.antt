-- ===== src/Runtime/Revocation.antt =====
-- What a revocation revokes: revoke_cap_id of ipc/runtime_state.rs.
use vertex_os.Base.{
  ℕ, zero, suc, ◌+◌, ◌<◌, ◌≡◌, ◌≢◌, ◌↔◌, refl, sym, ap, subst, ◌∙◌, inl, inr, Bool, true, false,
  ◌==◌, if◌then◌else◌, Option, none, some, List, length, get_elem?, All, All-get, All-of-get, arith,
}
use vertex_os.Ids.{IpcError, bad_capability}
use vertex_os.Runtime.{
  CapabilityLineage, RuntimeState, Outcome, done, fails, lineage, cap_id_revoked, add_revoked_cap,
  revoke_children, revoke_descendants, revoke_cap_id, max_revoked_caps, mark_all_revoked_caps,
  mark_when_ok,
}
use vertex_os.Runtime.Growth.{
  Fits, Grows, RevokedAre, Grows-refl, Grows-trans, AddCase, known, full, added,
  add_revoked_cap-AddCase,
}
use vertex_os.Runtime.Pass.{Inherits, Revokes, PassCase, passed, failed, revoke_children-PassCase}

-- A run of the outer loop ends: with a table that is closed, or with an error.
data RunCase (P : ℕ → Type 0) (s : RuntimeState) : Option (Outcome (Unit {0})) → Type 0 where
  ran :
      (s' : RuntimeState)
      → Grows s s'
      → RevokedAre P s'
      → All (Revokes s') (lineage s')
      → RunCase P s (some (done tt s'))
  stopped : (e : IpcError) (s' : RuntimeState) → RunCase P s (some (fails e s'))

RunCase-after :
    (P : ℕ → Type 0) (s t : RuntimeState) (o : Option (Outcome (Unit {0})))
    → Grows s t
    → RunCase P t o
    → RunCase P s o
RunCase-after P s t o g (ran s' h p c) = ran s' (Grows-trans s t s' g h) p c
RunCase-after P s t o g (stopped e s') = stopped e s'

revoke_descendants-RunCase :
    (P : ℕ → Type 0) (fuel : ℕ) (s : RuntimeState)
    → length s.revoked_caps < s.revoked_cap_count + fuel
    → All (Inherits P) (lineage s)
    → Fits s
    → RevokedAre P s
    → RunCase P s (revoke_descendants fuel s)
unfolding revoke_descendants
revoke_descendants-RunCase P zero s enough inherits h old = absurd (omega arith)
revoke_descendants-RunCase P (suc fuel) s enough inherits h old =
    go (revoke_children (lineage s) false s) refl
      (revoke_children-PassCase P (lineage s) false s inherits h old)
      (revoke_descendants-RunCase P fuel)
  where
    go :
        (o : Outcome Bool)
        → revoke_children (lineage s) false s ≡ o
        → PassCase P (lineage s) false s o
        → ((t : RuntimeState)
            → length t.revoked_caps < t.revoked_cap_count + fuel
            → All (Inherits P) (lineage t)
            → Fits t
            → RevokedAre P t
            → RunCase P t (revoke_descendants fuel t))
        → RunCase P s (revoke_descendants (suc fuel) s)
    go o e (failed er s') again = rw (e, revoke_descendants) (stopped er s')
    go o e (passed false s' p) again =
        let (_, same, closed) = p.closed refl in
        rw (e, revoke_descendants)
          (ran s' p.grows p.sound
            (subst (λ (t : RuntimeState). All (Revokes t) (lineage t)) (sym same) closed))
    go o e (passed true s' p) again =
        let more : s.revoked_cap_count < s'.revoked_cap_count = elim (p.progress refl) [
          | inl f ↦ cc
          | inr more ↦ more
        ] in
        rw (e, revoke_descendants)
          (RunCase-after P s s' _ p.grows (
            again s' (omega (arith, more, p.grows.size))
              (subst (All (Inherits P)) (sym p.grows.same_lineage) inherits) p.grows.fits p.sound))

-- What a revocation of `root` is to revoke: what was revoked, the root, and the child of every
-- lineage entry whose parent is to be revoked. 0 stands for no capability.
pub data Condemned (s : RuntimeState) (root : ℕ) : ℕ → Type 0 where
  was_revoked : (id : ℕ) → cap_id_revoked id s ≡ true → Condemned s root id
  is_root : Condemned s root root
  child :
      (index : ℕ) (entry : CapabilityLineage)
      → get_elem? (lineage s) index ≡ some (some entry)
      → entry.parent_cap_id ≢ 0
      → entry.cap_id ≢ 0
      → Condemned s root entry.parent_cap_id
      → Condemned s root entry.cap_id

Condemned-Inherits : (s : RuntimeState) (root : ℕ) → All (Inherits (Condemned s root)) (lineage s)
Condemned-Inherits s root = All-of-get (Inherits (Condemned s root)) (lineage s) step
  where
    step :
        (i : ℕ) (slot : Option CapabilityLineage)
        → get_elem? (lineage s) i ≡ some slot
        → Inherits (Condemned s root) slot
    step i none h = tt
    step i (some entry) h = λ a b c. child i entry h a b c

-- All that is condemned is revoked in a closed table.
Condemned-revoked :
    (s s' : RuntimeState) (root : ℕ)
    → Grows s s'
    → cap_id_revoked root s' ≡ true
    → All (Revokes s') (lineage s')
    → (id : ℕ) → Condemned s root id
    → cap_id_revoked id s' ≡ true
Condemned-revoked s s' root g r closed id (was_revoked _ h) = g.keeps id h
Condemned-revoked s s' root g r closed id is_root = r
Condemned-revoked s s' root g r closed id (child i entry h a b c) =
    All-get (Revokes s') (lineage s') i (some entry) closed
      (ap (λ (l : List (Option CapabilityLineage)). get_elem? l i) g.same_lineage ∙ h) a b
      (Condemned-revoked s s' root g r closed entry.parent_cap_id c)

-- How `revoke_cap_id` ends.
data RevokeCase (root : ℕ) (s : RuntimeState) : Option (Outcome (Unit {0})) → Type 0 where
  revoked :
      (t : RuntimeState)
      → ((id : ℕ) → (cap_id_revoked id t ≡ true) ↔ Condemned s root id)
      → RevokeCase root s (some (done tt (mark_all_revoked_caps t)))
  refused : (e : IpcError) (s' : RuntimeState) → RevokeCase root s (some (fails e s'))

-- From the state in which the root is revoked.
revoke-rest :
    (root : ℕ) (s t : RuntimeState) (o : Option (Outcome (Unit {0})))
    → Grows s t
    → cap_id_revoked root t ≡ true
    → RunCase (Condemned s root) t o
    → RevokeCase root s (elim o [ none ↦ none | some outcome ↦ some (mark_when_ok outcome) ])
unfolding mark_when_ok
revoke-rest root s t o g r (stopped e s') = refused e s'
revoke-rest root s t o g r (ran s' h sound closed) = revoked s' (λ id.
    (sound id, Condemned-revoked s s' root (Grows-trans s t s' g h) (h.keeps root r) closed id))

revoke-from :
    (root : ℕ) (s t : RuntimeState)
    → length s.revoked_caps ≡ max_revoked_caps
    → Grows s t
    → cap_id_revoked root t ≡ true
    → RevokedAre (Condemned s root) t
    → RevokeCase root s (elim (revoke_descendants (max_revoked_caps + 1) t) [
      | none ↦ none
      | some outcome ↦ some (mark_when_ok outcome)
    ])
revoke-from root s t size g r only =
    revoke-rest root s t (revoke_descendants (max_revoked_caps + 1) t) g r (
      revoke_descendants-RunCase (Condemned s root) (max_revoked_caps + 1) t
        (omega (arith, size, g.size))
        (subst (All (Inherits (Condemned s root))) (sym g.same_lineage) (Condemned-Inherits s root))
        g.fits only)

revoke-added :
    (root : ℕ) (s : RuntimeState) (o : Outcome Bool)
    → root ≢ 0
    → length s.revoked_caps ≡ max_revoked_caps
    → Fits s
    → AddCase root s o
    → RevokeCase root s (elim o [
      | fails e t ↦ some (fails e t)
      | done _ t ↦ elim (revoke_descendants (max_revoked_caps + 1) t) [
        | none ↦ none
        | some outcome ↦ some (mark_when_ok outcome)
      ]
    ])
revoke-added root s o nonzero size h (full e) = refused bad_capability s
revoke-added root s o nonzero size h (known (inl e)) = absurd (nonzero e)
revoke-added root s o nonzero size h (known (inr r)) =
    revoke-from root s s size (Grows-refl s h) r (λ y e. was_revoked y e)
revoke-added root s o nonzero size h (added t _ a) =
    revoke-from root s t size a.grows a.revoked (λ y e. elim (a.only y e) [
      | inl same ↦ subst (Condemned s root) same is_root
      | inr old ↦ was_revoked y old
    ])

revoke_cap_id-RevokeCase :
    (root : ℕ) (s : RuntimeState)
    → length s.revoked_caps ≡ max_revoked_caps
    → Fits s
    → RevokeCase root s (revoke_cap_id root s)
unfolding revoke_cap_id
revoke_cap_id-RevokeCase root s size h = go (root == 0) refl
  where
    go :
        (zero_root : Bool)
        → (root == 0) ≡ zero_root
        → RevokeCase root s (
            if zero_root then some (fails bad_capability s) else elim (add_revoked_cap root s) [
              | fails e t ↦ some (fails e t)
              | done _ t ↦ elim (revoke_descendants (max_revoked_caps + 1) t) [
                | none ↦ none
                | some outcome ↦ some (mark_when_ok outcome)
              ]
            ])
    go true e = refused bad_capability s
    go false e =
        revoke-added root s (add_revoked_cap root s) (ground arith) size h
          (add_revoked_cap-AddCase root s h)

-- Where the table of revoked identifiers has its 1024 slots and a count within them, a revocation
-- returns: its fuel of 1025 rounds is enough.
pub revoke_cap_id_returns :
    (root : ℕ) (s : RuntimeState)
    → length s.revoked_caps ≡ max_revoked_caps
    → Fits s
    → (outcome : Outcome (Unit {0})) × (revoke_cap_id root s ≡ some outcome)
revoke_cap_id_returns root s size h = go _ (revoke_cap_id-RevokeCase root s size h)
  where
    go :
        (o : Option (Outcome (Unit {0})))
        → RevokeCase root s o
        → (outcome : Outcome (Unit {0})) × (o ≡ some outcome)
    go o (revoked t iff) = (_, refl)
    go o (refused e t) = (_, refl)

revoked-mark_all_revoked_caps :
    (id : ℕ) (t : RuntimeState) → cap_id_revoked id (mark_all_revoked_caps t) ≡ cap_id_revoked id t
unfolding cap_id_revoked mark_all_revoked_caps
revoked-mark_all_revoked_caps id t = refl

-- Where the table of revoked identifiers has its 1024 slots and a count within them, and the
-- revocation of `root` returns without an error: an identifier is revoked afterwards exactly when it
-- was revoked before, is `root`, or descends from one of these by the entries of the lineage.
pub revoke_cap_id-revokes_Condemned :
    (root : ℕ) (s s' : RuntimeState)
    → length s.revoked_caps ≡ max_revoked_caps
    → Fits s
    → revoke_cap_id root s ≡ some (done tt s')
    → (id : ℕ) → (cap_id_revoked id s' ≡ true) ↔ Condemned s root id
revoke_cap_id-revokes_Condemned root s s' size h e id =
    go _ (revoke_cap_id-RevokeCase root s size h) e
  where
    same_state :
        {t u : RuntimeState}
        → ◌≡◌ {A = Option (Outcome (Unit {0}))} (some (done tt t)) (some (done tt u))
        → t ≡ u
    same_state e = cc

    go :
        (o : Option (Outcome (Unit {0})))
        → RevokeCase root s o
        → o ≡ some (done tt s')
        → (cap_id_revoked id s' ≡ true) ↔ Condemned s root id
    go o (refused e t) same = cc
    go o (revoked t iff) same =
        subst (λ (u : RuntimeState). (cap_id_revoked id u ≡ true) ↔ Condemned s root id)
          (same_state same)
          (subst (λ (b : Bool). (b ≡ true) ↔ Condemned s root id)
            (sym (revoked-mark_all_revoked_caps id t)) (iff id))
