-- ===== src/Scheduler/Authority.antt =====
-- What the authority of a receiver depends on: process_has_live_endpoint_cap of
-- kernel/krust/src/ipc/scheduler.rs and capability_has_revoked_ancestor of ipc/object_lookup.rs.
use vertex_os.Base.{
  ℕ, zero, suc, ◌≡◌, ◌∙◌, refl, sym, ap, inl, inr, Bool, true, false, not, Option, none, some, List,
  [], ◌∷◌, ◌==◌, find_map, get_elem?, set, take, Bool-cases, Option-cases, arith,
}
use vertex_os.Ids.{KernelObjectId}
use vertex_os.Capability.{Capability}
use vertex_os.ObjectTable.Find.{get_endpoint}
use vertex_os.Process.{Process}
use vertex_os.Runtime.{
  RuntimeState, cap_id_revoked, cap_parent_from_lineage, parent_in_process, find_cap_parent,
  next_parent, has_revoked_ancestor,
}
use vertex_os.Runtime.Ancestors.{IsDescending, has_revoked_ancestor_returns}
use vertex_os.Runtime.Syscalls.{capability_has_revoked_ancestor}
use vertex_os.Scheduler.Waiters.{
  right_receive, waits_for, names_endpoint, has_right, any_live_cap, process_has_live_endpoint_cap,
  should_cancel,
}

find_map-set :
    {A : Type 0} {B : Type 0} (f : A → Option B) (n i : ℕ) (xs : List A) (x y : A)
    → get_elem? xs i ≡ some x
    → f y ≡ f x
    → find_map f (take n (set xs i y)) ≡ find_map f (take n xs)
find_map-set f zero i xs x y at same = refl
find_map-set f (suc n) i [] x y at same = refl
find_map-set f (suc n) zero (z ∷ xs) x y at same = rw (same ∙ ap f (sym (entry at))) refl
  where
    entry : {A : Type 0} {a b : A} → some a ≡ some b → a ≡ b
    entry e = cc
find_map-set f (suc n) (suc i) (z ∷ xs) x y at same = elim (Option-cases (f z)) [
  | inl e ↦ rw (e, find_map) (find_map-set f n i xs x y at same)
  | inr (_, e) ↦ rw (e, find_map) refl
]

-- The parents of capabilities are those that they were, with other slots of processes.
abbrev pub SameParents : RuntimeState → List (Option Process) → Type 0
SameParents s slots =
    (id : ℕ)
    → find_cap_parent id (record s { processes = record s.processes { processes = slots } })
      ≡ find_cap_parent id s

pub set-SameParents :
    (s : RuntimeState) (i : ℕ) (p q : Process)
    → get_elem? s.processes.processes i ≡ some (some p)
    → ((id : ℕ) → parent_in_process id (some q) ≡ parent_in_process id (some p))
    → SameParents s (set s.processes.processes i (some q))
unfolding find_cap_parent cap_parent_from_lineage
set-SameParents s i p q at same id = elim (Option-cases (cap_parent_from_lineage id s)) [
  | inl e ↦
      rw (e, find_cap_parent)
        (find_map-set (parent_in_process id) s.processes.count i s.processes.processes (some p)
          (some q) at (same id))
  | inr (_, e) ↦ rw (e, find_cap_parent) refl
]

module _ (s : RuntimeState) (slots : List (Option Process)) (same : SameParents s slots) where
  abbrev later : RuntimeState
  later = record s { processes = record s.processes { processes = slots } }

  next_parent-same : (id : ℕ) → next_parent id later ≡ next_parent id s
  unfolding next_parent
  next_parent-same id =
      ap (λ (o : Option ℕ). elim o as (λ x. ℕ) [ none ↦ 0 | some p ↦ p ]) (same id)

  has_revoked_ancestor-same :
      (fuel parent : ℕ)
      → has_revoked_ancestor fuel parent later ≡ has_revoked_ancestor fuel parent s
  unfolding has_revoked_ancestor cap_id_revoked
  has_revoked_ancestor-same zero parent = refl
  has_revoked_ancestor-same (suc fuel) parent = elim (Bool-cases (parent == 0)) [
    | inl e ↦ rw (e, has_revoked_ancestor) refl
    | inr e ↦ elim (Bool-cases (cap_id_revoked parent s)) [
      | inl r ↦ rw (e, r, has_revoked_ancestor) refl
      | inr r ↦
          rw (e, r, has_revoked_ancestor)
            (has_revoked_ancestor-same fuel (next_parent parent later)
              ∙ ap (λ (n : ℕ). has_revoked_ancestor fuel n s) (next_parent-same parent))
    ]
  ]

  ancestors-same :
      (c : Capability)
      → capability_has_revoked_ancestor c later ≡ capability_has_revoked_ancestor c s
  unfolding capability_has_revoked_ancestor
  ancestors-same c = has_revoked_ancestor-same (suc c.parent_cap_id) c.parent_cap_id

  names_endpoint-same :
      (endpoint : KernelObjectId) (cap_id : ℕ) (c : Capability)
      → names_endpoint endpoint cap_id c later ≡ names_endpoint endpoint cap_id c s
  unfolding names_endpoint cap_id_revoked
  names_endpoint-same endpoint cap_id c = refl

  has_right-same : (right : ℕ) (c : Capability) → has_right right c later ≡ has_right right c s
  unfolding has_right
  has_right-same right c = refl

  any_live_cap-same :
      (endpoint : KernelObjectId) (cap_id right : ℕ) (caps : List (Option Capability))
      → any_live_cap endpoint cap_id right caps later ≡ any_live_cap endpoint cap_id right caps s
  unfolding any_live_cap
  any_live_cap-same endpoint cap_id right [] = refl
  any_live_cap-same endpoint cap_id right (none ∷ caps) =
      any_live_cap-same endpoint cap_id right caps
  any_live_cap-same endpoint cap_id right (some c ∷ caps) =
      let rest = any_live_cap-same endpoint cap_id right caps in
      let names = names_endpoint-same endpoint cap_id c in
      elim (Bool-cases (names_endpoint endpoint cap_id c s)) [
        | inr e ↦ rw (names ∙ e, any_live_cap) rest
        | inl e ↦ elim (Option-cases (capability_has_revoked_ancestor c s)) [
          | inl w ↦ rw (names ∙ e, ancestors-same c ∙ w, w, any_live_cap) refl
          | inr (true, w) ↦ rw (names ∙ e, ancestors-same c ∙ w, w, any_live_cap) rest
          | inr (false, w) ↦ elim (Bool-cases (has_right right c s)) [
            | inl f ↦
                rw (names ∙ e, ancestors-same c ∙ w, w, has_right-same right c ∙ f, any_live_cap)
                  refl
            | inr f ↦
                rw (names ∙ e, ancestors-same c ∙ w, w, has_right-same right c ∙ f, any_live_cap)
                  rest
          ]
        ]
      ]

  pub should_cancel-same : (p : Process) → should_cancel p later ≡ should_cancel p s
  unfolding should_cancel process_has_live_endpoint_cap
  should_cancel-same p = elim (Option-cases (waits_for p.state)) [
    | inl e ↦ rw (e, should_cancel) refl
    | inr ((endpoint, cap_id), e) ↦ elim (Option-cases (get_endpoint endpoint s.objects)) [
      | inl g ↦ rw (e, g, should_cancel) refl
      | inr (_, g) ↦
          rw (e, g, any_live_cap-same endpoint cap_id right_receive p.caps.caps, should_cancel) refl
    ]
  ]

-- The search for a live capability ends.
any_live_cap_returns :
    (s : RuntimeState) (endpoint : KernelObjectId) (cap_id right : ℕ)
    (caps : List (Option Capability))
    → IsDescending s
    → (b : Bool) × (any_live_cap endpoint cap_id right caps s ≡ some b)
unfolding any_live_cap capability_has_revoked_ancestor
any_live_cap_returns s endpoint cap_id right [] d = (false, refl)
any_live_cap_returns s endpoint cap_id right (none ∷ caps) d =
    any_live_cap_returns s endpoint cap_id right caps d
any_live_cap_returns s endpoint cap_id right (some c ∷ caps) d =
    let (b, rest) = any_live_cap_returns s endpoint cap_id right caps d in
    elim (Bool-cases (names_endpoint endpoint cap_id c s)) [
      | inr e ↦ (b, rw (e, any_live_cap) rest)
      | inl e ↦
          let (walked, w) =
            has_revoked_ancestor_returns (suc c.parent_cap_id) c.parent_cap_id s d (omega arith) in
          elim (Bool-cases walked) [
            | inl r ↦ (b, rw (e, w ∙ ap some r, any_live_cap) rest)
            | inr r ↦ elim (Bool-cases (has_right right c s)) [
              | inl f ↦ (true, rw (e, w ∙ ap some r, f, any_live_cap) refl)
              | inr f ↦ (b, rw (e, w ∙ ap some r, f, any_live_cap) rest)
            ]
          ]
    ]

pub should_cancel_returns :
    (s : RuntimeState) (p : Process) → IsDescending s → (b : Bool) × (should_cancel p s ≡ some b)
unfolding should_cancel process_has_live_endpoint_cap
should_cancel_returns s p d = elim (Option-cases (waits_for p.state)) [
  | inl e ↦ (false, rw (e, should_cancel) refl)
  | inr ((endpoint, cap_id), e) ↦ elim (Option-cases (get_endpoint endpoint s.objects)) [
    | inl g ↦ (true, rw (e, g, should_cancel) refl)
    | inr (_, g) ↦
        let (b, h) = any_live_cap_returns s endpoint cap_id right_receive p.caps.caps d in
        (not b, rw (e, g, h, should_cancel) refl)
  ]
]
