-- ===== src/Runtime.antt =====
-- The capabilities of the running system: new identifiers, their lineage and their revocation, of
-- kernel/krust/src/ipc/runtime_state.rs and ipc/object_lookup.rs. A runtime state is modelled with
-- its processes and with the tables of lineage and revocation. A step that may fail keeps the
-- state that the program leaves behind when it returns the error.
pub mod Growth
pub mod Pass
pub mod Revocation
pub mod Syscalls
pub mod Transfer
pub mod Transferred
pub mod Release
pub mod Dropped
pub mod Ancestors
pub mod Lineage
pub mod Written
pub mod Attenuation
pub mod Unusable
pub mod Moved
mod Tests
use vertex_os.Base.{
  get_elem?, ℕ, suc, zero, ◌+◌, ◌-◌, Bool, true, false, not, ◌&&◌, ◌||◌, Option, none, some, List,
  [], ◌∷◌, map, Result, ok, err, ◌==◌, if◌then◌else◌, length, ltb, set, take, replicate, any,
  find_map, bit_and,
}
use Prim.Native.String.{String}
use vertex_os.Ids.{ProcessId, KernelObjectId, IpcError, bad_capability, u64_max, saturating_add}
use vertex_os.Capability.{Capability, CapabilitySpace, mark_revoked, find_cap_parent_in_space}
use vertex_os.ObjectTable.Table.{ObjectTable, new_table}
use vertex_os.Process.{Process, ProcessTable, live, new_processes}

abbrev pub max_cap_lineage : ℕ
max_cap_lineage = 1024

abbrev pub max_revoked_caps : ℕ
max_revoked_caps = max_cap_lineage

pub record CapabilityLineage : Type 0 where
  pub cap_id : ℕ
  pub parent_cap_id : ℕ

pub record RuntimeState : Type 0 where
  pub processes : ProcessTable
  pub objects : ObjectTable
  pub generation_id : String
  pub next_cap_id : ℕ
  pub revoked_caps : List ℕ
  pub revoked_cap_count : ℕ
  pub cap_lineage : List (Option CapabilityLineage)
  pub cap_lineage_count : ℕ

-- The fields of `RuntimeState::new()` that are modelled.
unfoldable pub new_runtime : RuntimeState
unfolding new_processes new_table
new_runtime = record {
  processes = new_processes;
  objects = new_table;
  generation_id = "";
  next_cap_id = 1;
  revoked_caps = replicate max_revoked_caps 0;
  revoked_cap_count = 0;
  cap_lineage = replicate max_cap_lineage none;
  cap_lineage_count = 0;
}

-- The entries that the loops look at, `cap_lineage[..cap_lineage_count]`.
abbrev pub lineage : RuntimeState → List (Option CapabilityLineage)
lineage s = take s.cap_lineage_count s.cap_lineage

-- `revoked_caps[..revoked_cap_count]`
abbrev pub revoked_ids : RuntimeState → List ℕ
revoked_ids s = take s.revoked_cap_count s.revoked_caps

-- What a step returns, with the state that it leaves.
pub data Outcome (A : Type 0) : Type 0 where
  done : A → RuntimeState → Outcome A
  fails : IpcError → RuntimeState → Outcome A

unfoldable pub cap_id_revoked : ℕ → RuntimeState → Bool
cap_id_revoked cap_id s = any (λ id. id == cap_id) (revoked_ids s)

unfoldable pub can_allocate_capability : RuntimeState → Bool
can_allocate_capability s =
    not (s.next_cap_id == 0)
    && (not (s.next_cap_id == u64_max) && ltb s.cap_lineage_count (length s.cap_lineage))

unfoldable pub record_cap_lineage : ℕ → ℕ → RuntimeState → Outcome (Unit {0})
record_cap_lineage cap_id parent_cap_id s =
    if s.cap_lineage_count == length s.cap_lineage
    then fails bad_capability s
    else done tt (record s {
      cap_lineage =
          set s.cap_lineage s.cap_lineage_count
            (some (record { cap_id = cap_id; parent_cap_id = parent_cap_id }));
      cap_lineage_count = s.cap_lineage_count + 1;
    })

unfoldable pub new_capability :
    KernelObjectId → ℕ → ProcessId → ℕ → ProcessId → RuntimeState → Outcome Capability
unfolding record_cap_lineage
new_capability object rights owner_process parent_cap_id delegated_by s =
    if s.next_cap_id == 0 || s.next_cap_id == u64_max
    then fails bad_capability s
    else elim (record_cap_lineage s.next_cap_id parent_cap_id s) [
      | fails e recorded ↦ fails e recorded
      | done _ recorded ↦
          done
            (record {
              id = s.next_cap_id;
              object = object;
              rights = rights;
              owner_process = owner_process;
              parent_cap_id = parent_cap_id;
              generation_id = recorded.generation_id;
              delegated_by = delegated_by;
              revoked = false;
            })
            (record recorded { next_cap_id = recorded.next_cap_id + 1 })
    ]

-- The last entry of the lineage is that of the capability.
abbrev pub is_last_lineage : ℕ → RuntimeState → Bool
is_last_lineage cap_id s = elim (get_elem? s.cap_lineage (s.cap_lineage_count - 1)) [
  | none ↦ false
  | some none ↦ false
  | some (some entry) ↦ entry.cap_id == cap_id
]

unfoldable pub rollback_last_capability : Capability → RuntimeState → RuntimeState
rollback_last_capability cap s =
    let next_id = if s.next_cap_id == saturating_add cap.id 1 then cap.id else s.next_cap_id in
    if ltb 0 s.cap_lineage_count && is_last_lineage cap.id s
    then record s {
      next_cap_id = next_id;
      cap_lineage_count = s.cap_lineage_count - 1;
      cap_lineage = set s.cap_lineage (s.cap_lineage_count - 1) none;
    }
    else record s { next_cap_id = next_id }

unfoldable pub add_revoked_cap : ℕ → RuntimeState → Outcome Bool
unfolding cap_id_revoked
add_revoked_cap cap_id s =
    if cap_id == 0 || cap_id_revoked cap_id s
    then done false s
    else if s.revoked_cap_count == length s.revoked_caps
    then fails bad_capability s
    else done true (record s {
      revoked_caps = set s.revoked_caps s.revoked_cap_count cap_id;
      revoked_cap_count = s.revoked_cap_count + 1;
    })

-- The parent of an entry is revoked.
abbrev pub parent_revoked : CapabilityLineage → RuntimeState → Bool
parent_revoked entry s = not (entry.parent_cap_id == 0) && cap_id_revoked entry.parent_cap_id s

-- One run of the inner loop over the entries that are left: whether it added an identifier.
unfoldable pub revoke_children :
    List (Option CapabilityLineage) → Bool → RuntimeState → Outcome Bool
unfolding add_revoked_cap
revoke_children [] changed s = done changed s
revoke_children (none ∷ entries) changed s = revoke_children entries changed s
revoke_children (some entry ∷ entries) changed s = elim (parent_revoked entry s) [
  | false ↦ revoke_children entries changed s
  | true ↦ elim (add_revoked_cap entry.cap_id s) [
    | fails e failed ↦ fails e failed
    | done added next ↦ revoke_children entries (changed || added) next
  ]
]

-- The outer loop, `while changed`; none is a run that is out of fuel.
unfoldable pub revoke_descendants : ℕ → RuntimeState → Option (Outcome (Unit {0}))
unfolding revoke_children
revoke_descendants zero s = none
revoke_descendants (suc fuel) s = elim (revoke_children (lineage s) false s) [
  | fails e failed ↦ some (fails e failed)
  | done false next ↦ some (done tt next)
  | done true next ↦ revoke_descendants fuel next
]

unfoldable pub mark_process : ℕ → Option Process → Option Process
mark_process cap_id none = none
mark_process cap_id (some process) = some (record process {
  caps = mark_revoked cap_id process.caps;
  initial_caps = mark_revoked cap_id process.initial_caps;
})

-- The slots with the first `n` marked.
unfoldable pub mark_slots : ℕ → ℕ → List (Option Process) → List (Option Process)
unfolding mark_process
mark_slots cap_id n [] = []
mark_slots cap_id zero (slot ∷ slots) = slot ∷ slots
mark_slots cap_id (suc n) (slot ∷ slots) = mark_process cap_id slot ∷ mark_slots cap_id n slots

unfoldable pub mark_cap_revoked : ℕ → ProcessTable → ProcessTable
unfolding mark_slots
mark_cap_revoked cap_id t = record t { processes = mark_slots cap_id t.count t.processes }

unfoldable pub mark_all : List ℕ → ProcessTable → ProcessTable
unfolding mark_cap_revoked
mark_all [] t = t
mark_all (cap_id ∷ ids) t = mark_all ids (mark_cap_revoked cap_id t)

unfoldable pub mark_all_revoked_caps : RuntimeState → RuntimeState
unfolding mark_all
mark_all_revoked_caps s = record s { processes = mark_all (revoked_ids s) s.processes }

-- After the loop.
unfoldable pub mark_when_ok : Outcome (Unit {0}) → Outcome (Unit {0})
unfolding mark_all_revoked_caps
mark_when_ok (fails e s) = fails e s
mark_when_ok (done _ s) = done tt (mark_all_revoked_caps s)

unfoldable pub revoke_cap_id : ℕ → RuntimeState → Option (Outcome (Unit {0}))
unfolding add_revoked_cap revoke_descendants mark_when_ok
revoke_cap_id cap_id s =
    if cap_id == 0 then some (fails bad_capability s) else elim (add_revoked_cap cap_id s) [
      | fails e failed ↦ some (fails e failed)
      | done _ added ↦ elim (revoke_descendants (max_revoked_caps + 1) added) [
        | none ↦ none
        | some outcome ↦ some (mark_when_ok outcome)
      ]
    ]

unfoldable pub parent_if : ℕ → Option CapabilityLineage → Option ℕ
parent_if cap_id none = none
parent_if cap_id (some entry) = if entry.cap_id == cap_id then some entry.parent_cap_id else none

unfoldable pub cap_parent_from_lineage : ℕ → RuntimeState → Option ℕ
unfolding parent_if
cap_parent_from_lineage cap_id s = find_map (parent_if cap_id) (lineage s)

unfoldable pub parent_in_process : ℕ → Option Process → Option ℕ
parent_in_process cap_id none = none
parent_in_process cap_id (some process) = elim (find_cap_parent_in_space cap_id process.caps) [
  | some parent ↦ some parent
  | none ↦ find_cap_parent_in_space cap_id process.initial_caps
]

unfoldable pub find_cap_parent : ℕ → RuntimeState → Option ℕ
unfolding cap_parent_from_lineage parent_in_process
find_cap_parent cap_id s = elim (cap_parent_from_lineage cap_id s) [
  | some parent ↦ some parent
  | none ↦ find_map (parent_in_process cap_id) (live s.processes)
]

-- `find_cap_parent(runtime, parent).unwrap_or(0)`
unfoldable pub next_parent : ℕ → RuntimeState → ℕ
unfolding find_cap_parent
next_parent parent s = elim (find_cap_parent parent s) [ none ↦ 0 | some p ↦ p ]

-- The loop of `capability_has_revoked_ancestor`, from a parent; none is a run that is out of fuel.
unfoldable pub has_revoked_ancestor : ℕ → ℕ → RuntimeState → Option Bool
unfolding cap_id_revoked next_parent
has_revoked_ancestor zero parent s = none
has_revoked_ancestor (suc fuel) parent s = elim (parent == 0) [
  | true ↦ some false
  | false ↦ elim (cap_id_revoked parent s) [
    | true ↦ some true
    | false ↦ has_revoked_ancestor fuel (next_parent parent s) s
  ]
]
