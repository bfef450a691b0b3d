-- ===== src/Runtime/Ancestors.antt =====
-- The walk over the ancestors of a capability ends: capability_has_revoked_ancestor and
-- lookup_capability of kernel/krust/src/ipc/object_lookup.rs.
use vertex_os.Base.{
  ℕ, zero, suc, ◌<◌, ◌≡◌, ◌≢◌, ◌∙◌, refl, sym, inl, inr, Bool, true, false, ◌||◌, Option, none,
  some, List, [], ◌∷◌, ◌==◌, if◌then◌else◌, find_map, All, Bool-cases, Option-cases, Result, err,
  arith,
}
use vertex_os.Ids.{IpcError, bad_capability}
use vertex_os.Capability.{Capability, CapabilitySpace, parent_if_id, find_cap_parent_in_space}
use vertex_os.Process.{Process, live}
use vertex_os.Runtime.{
  CapabilityLineage, RuntimeState, lineage, cap_id_revoked, parent_if, cap_parent_from_lineage,
  parent_in_process, find_cap_parent, next_parent, has_revoked_ancestor,
}
use vertex_os.Runtime.Syscalls.{
  capability_has_revoked_ancestor, checked, checked_capability, current_cap, lookup_capability,
}

-- An entry whose parent was made before its child.
abbrev pub EntryDescends : Option CapabilityLineage → Type 0
EntryDescends none = Unit
EntryDescends (some entry) = entry.parent_cap_id < entry.cap_id

abbrev pub CapDescends : Option Capability → Type 0
CapDescends none = Unit
CapDescends (some held) = held.parent_cap_id < held.id

abbrev pub ProcessDescends : Option Process → Type 0
ProcessDescends none = Unit
ProcessDescends (some process) =
    All CapDescends process.caps.caps × All CapDescends process.initial_caps.caps

-- Every parent was made before its child, in the lineage and in the slots of the live processes.
pub record IsDescending (s : RuntimeState) : Type 0 where
  pub entries : All EntryDescends (lineage s)
  pub slots : All ProcessDescends (live s.processes)

-- What a search finds has what every entry gives to its answer.
find_map-All :
    {A : Type 0} {B : Type 0} (f : A → Option B) (P : A → Type 0) (Q : B → Type 0)
    → ((x : A) (b : B) → P x → f x ≡ some b → Q b)
    → (xs : List A) (b : B) → All P xs
    → find_map f xs ≡ some b
    → Q b
find_map-All f P Q gives [] b all h = absurd (none_some h)
  where
    none_some : none ≡ some b → ⊥
    none_some e = cc
find_map-All f P Q gives (x ∷ xs) b (here, rest) h = elim (Option-cases (f x)) [
  | inl e ↦ find_map-All f P Q gives xs b rest (sym (rw (e, find_map) refl) ∙ h)
  | inr (c, e) ↦ gives x b here (e ∙ (sym (rw (e, find_map) refl) ∙ h))
]

parent_if-lt :
    (id : ℕ) (slot : Option CapabilityLineage) (parent : ℕ)
    → EntryDescends slot
    → parent_if id slot ≡ some parent
    → parent < id
unfolding parent_if
parent_if-lt id none parent d h = cc
parent_if-lt id (some entry) parent d h = ground arith

parent_if_id-lt :
    (id : ℕ) (slot : Option Capability) (parent : ℕ)
    → CapDescends slot
    → parent_if_id id slot ≡ some parent
    → parent < id
unfolding parent_if_id
parent_if_id-lt id none parent d h = cc
parent_if_id-lt id (some held) parent d h = ground arith

in_space-lt :
    (id : ℕ) (space : CapabilitySpace) (parent : ℕ)
    → All CapDescends space.caps
    → find_cap_parent_in_space id space ≡ some parent
    → parent < id
unfolding find_cap_parent_in_space
in_space-lt id space parent d h =
    find_map-All (parent_if_id id) CapDescends (λ p. p < id) (parent_if_id-lt id) space.caps parent
      d h

parent_in_process-lt :
    (id : ℕ) (slot : Option Process) (parent : ℕ)
    → ProcessDescends slot
    → parent_in_process id slot ≡ some parent
    → parent < id
unfolding parent_in_process
parent_in_process-lt id none parent d h = cc
parent_in_process-lt id (some process) parent (caps, initial) h =
    elim (Option-cases (find_cap_parent_in_space id process.caps)) [
      | inl e ↦
          in_space-lt id process.initial_caps parent initial
            (sym (rw (e, parent_in_process) refl) ∙ h)
      | inr (p, e) ↦
          in_space-lt id process.caps parent caps (e ∙ (sym (rw (e, parent_in_process) refl) ∙ h))
    ]

find_cap_parent-lt :
    (id : ℕ) (s : RuntimeState) (parent : ℕ)
    → IsDescending s
    → find_cap_parent id s ≡ some parent
    → parent < id
unfolding find_cap_parent cap_parent_from_lineage
find_cap_parent-lt id s parent d h = elim (Option-cases (cap_parent_from_lineage id s)) [
  | inl e ↦
      find_map-All (parent_in_process id) ProcessDescends (λ p. p < id) (parent_in_process-lt id)
        (live s.processes) parent d.slots (sym (rw (e, find_cap_parent) refl) ∙ h)
  | inr (p, e) ↦
      find_map-All (parent_if id) EntryDescends (λ q. q < id) (parent_if-lt id) (lineage s) parent
        d.entries (e ∙ (sym (rw (e, find_cap_parent) refl) ∙ h))
]

next_parent-lt : (id : ℕ) (s : RuntimeState) → IsDescending s → id ≢ 0 → next_parent id s < id
unfolding next_parent
next_parent-lt id s d nonzero = elim (Option-cases (find_cap_parent id s)) [
  | inl e ↦ rw (e, next_parent) (ground arith)
  | inr (p, e) ↦ rw (e, next_parent) (find_cap_parent-lt id s p d e)
]

pub has_revoked_ancestor_returns :
    (fuel parent : ℕ) (s : RuntimeState)
    → IsDescending s
    → parent < fuel
    → (b : Bool) × (has_revoked_ancestor fuel parent s ≡ some b)
unfolding has_revoked_ancestor
has_revoked_ancestor_returns zero parent s d h = absurd (omega arith)
has_revoked_ancestor_returns (suc fuel) parent s d h = elim (Bool-cases (parent == 0)) [
  | inl e ↦ (false, rw (e, has_revoked_ancestor) refl)
  | inr e ↦ elim (Bool-cases (cap_id_revoked parent s)) [
    | inl r ↦ (true, rw (e, r, has_revoked_ancestor) refl)
    | inr r ↦
        let below : next_parent parent s < parent = next_parent-lt parent s d (ground arith) in
        let (b, rest) =
          has_revoked_ancestor_returns fuel (next_parent parent s) s d (omega arith) in
        (b, rw (e, r, has_revoked_ancestor) rest)
  ]
]

checked_capability_returns :
    (held : Capability) (right : ℕ) (s : RuntimeState)
    → IsDescending s
    → (result : Result IpcError Capability) × (checked_capability held right s ≡ some result)
unfolding checked_capability capability_has_revoked_ancestor
checked_capability_returns held right s d =
    elim (Bool-cases (held.revoked || cap_id_revoked held.id s)) [
      | inl e ↦ (err bad_capability, rw (e, checked_capability) refl)
      | inr e ↦
          let (b, walked) =
            has_revoked_ancestor_returns (suc held.parent_cap_id) held.parent_cap_id s d
              (omega arith) in
          (
            (if b then err bad_capability else checked held right s),
            rw (e, walked, checked_capability) refl,
          )
    ]

-- Where every parent was made before its child, in the lineage and in the slots of the live
-- processes, a lookup of a capability returns: the rounds that its walk over the ancestors gets are
-- enough.
pub lookup_capability_returns :
    (slot right : ℕ) (s : RuntimeState)
    → IsDescending s
    → (result : Result IpcError Capability) × (lookup_capability slot right s ≡ some result)
unfolding lookup_capability
lookup_capability_returns slot right s d = elim (Option-cases (current_cap slot s)) [
  | inl e ↦ (err bad_capability, rw (e, lookup_capability) refl)
  | inr (held, e) ↦
      let (result, h) = checked_capability_returns held right s d in
      (result, rw (e, lookup_capability) h)
]
