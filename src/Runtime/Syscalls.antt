-- ===== src/Runtime/Syscalls.antt =====
-- The capability system calls: kernel/krust/src/ipc/capability_syscalls.rs and lookup_capability of
-- ipc/object_lookup.rs. The log lines are left out. none is a run of the walk over the ancestors that is out of
-- fuel.
use vertex_os.Base.{
  ℕ, suc, ◌-◌, Bool, true, false, not, ◌&&◌, ◌||◌, Option, none, some, Result, ok, err, ◌==◌,
  if◌then◌else◌, bit_and,
}
use text.Mathlib.Text.{◌==◌ as ◌==ₛ◌}
use vertex_os.Base.Bits.{ones}
use vertex_os.Ids.{IpcError, bad_capability}
use vertex_os.Capability.{Capability, lookup, grant, clear, can_grant}
use vertex_os.Process.{current_process, write_process}
use vertex_os.Runtime.{
  RuntimeState, Outcome, done, fails, cap_id_revoked, has_revoked_ancestor, new_capability,
}

-- `capability_has_revoked_ancestor`: a parent has a smaller identifier than its child, so that the
-- walk from a parent takes no more rounds than its identifier and one.
unfoldable pub capability_has_revoked_ancestor : Capability → RuntimeState → Option Bool
unfolding has_revoked_ancestor
capability_has_revoked_ancestor cap s =
    has_revoked_ancestor (suc cap.parent_cap_id) cap.parent_cap_id s

-- The conditions on the capability in the slot, past its ancestors.
unfoldable pub checked : Capability → ℕ → RuntimeState → Result IpcError Capability
checked cap required_right s =
    if not (cap.generation_id ==ₛ s.generation_id)
    then err bad_capability
    else if not (required_right == 0) && not (bit_and cap.rights required_right == required_right)
    then err bad_capability
    else ok cap

unfoldable pub checked_capability :
    Capability → ℕ → RuntimeState → Option (Result IpcError Capability)
unfolding cap_id_revoked capability_has_revoked_ancestor checked
checked_capability cap required_right s = elim (cap.revoked || cap_id_revoked cap.id s) [
  | true ↦ some (err bad_capability)
  | false ↦ elim (capability_has_revoked_ancestor cap s) [
    | none ↦ none
    | some revoked ↦ some (if revoked then err bad_capability else checked cap required_right s)
  ]
]

-- The capability in a slot of the current process.
unfoldable pub current_cap : ℕ → RuntimeState → Option Capability
unfolding current_process lookup
current_cap slot s = elim (current_process s.processes) [
  | none ↦ none
  | some process ↦ lookup slot process.caps
]

unfoldable pub lookup_capability : ℕ → ℕ → RuntimeState → Option (Result IpcError Capability)
unfolding current_cap checked_capability
lookup_capability cap_slot required_right s = elim (current_cap cap_slot s) [
  | none ↦ some (err bad_capability)
  | some cap ↦ checked_capability cap required_right s
]

-- `process.caps.grant(slot, cap)` on the current process
unfoldable pub grant_current : ℕ → Capability → RuntimeState → Outcome (Unit {0})
unfolding current_process grant write_process
grant_current slot cap s = elim (current_process s.processes) [
  | none ↦ fails bad_capability s
  | some process ↦ elim (grant slot cap process.caps) [
    | err _ ↦ fails bad_capability s
    | ok caps ↦ done tt (record s {
      processes = write_process process.pid (record process { caps = caps }) s.processes;
    })
  ]
]

-- `rights_mask == 0 || rights_mask & !rights != 0` on u64
abbrev pub exceeds : ℕ → ℕ → Bool
exceeds rights_mask rights = rights_mask == 0 || not (bit_and rights_mask (ones 64 - rights) == 0)

-- From the lookup on, which `cap_derive` and `cap_copy` do alike.
unfoldable pub copy_of : Capability → ℕ → ℕ → RuntimeState → Outcome (Unit {0})
unfolding current_process can_grant new_capability grant_current
copy_of source target_slot rights_mask s =
    if exceeds rights_mask source.rights
    then fails bad_capability s
    else elim (current_process s.processes) [
      | none ↦ fails bad_capability s
      | some process ↦
          if can_grant target_slot process.caps
          then elim (new_capability source.object rights_mask process.pid source.id process.pid s) [
            | fails e next ↦ fails e next
            | done copied next ↦ grant_current target_slot copied next
          ]
          else fails bad_capability s
    ]

-- What a system call does with the capability that it looked up.
unfoldable pub with_cap :
    Option (Result IpcError Capability)
    → (Capability → Outcome (Unit {0}))
    → RuntimeState
    → Option (Outcome (Unit {0}))
with_cap none call s = none
with_cap (some (err e)) call s = some (fails e s)
with_cap (some (ok cap)) call s = some (call cap)

unfoldable pub cap_copy : ℕ → ℕ → ℕ → RuntimeState → Option (Outcome (Unit {0}))
unfolding lookup_capability copy_of with_cap
cap_copy source_slot target_slot rights_mask s =
    with_cap (lookup_capability source_slot 0 s)
      (λ source. copy_of source target_slot rights_mask s) s

unfoldable pub cap_derive : ℕ → ℕ → ℕ → RuntimeState → Option (Outcome (Unit {0}))
unfolding lookup_capability copy_of with_cap
cap_derive parent_slot new_slot rights_mask s =
    with_cap (lookup_capability parent_slot 0 s) (λ parent. copy_of parent new_slot rights_mask s) s

unfoldable pub cap_move : ℕ → ℕ → RuntimeState → Outcome (Unit {0})
unfolding current_process can_grant clear grant write_process
cap_move source_slot target_slot s = elim (current_process s.processes) [
  | none ↦ fails bad_capability s
  | some process ↦
      if can_grant target_slot process.caps
      then elim (clear source_slot process.caps) [
        | err e ↦ fails e s
        | ok (cap, cleared) ↦ elim (grant target_slot cap cleared) [
          | err _ ↦ fails bad_capability (record s {
            processes = write_process process.pid (record process { caps = cleared }) s.processes;
          })
          | ok granted ↦ done tt (record s {
            processes = write_process process.pid (record process { caps = granted }) s.processes;
          })
        ]
      ]
      else fails bad_capability s
]
