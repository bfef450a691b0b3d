-- ===== src/Runtime/Transfer.antt =====
-- cap_transfer of kernel/krust/src/ipc/capability_syscalls.rs, and process_control_from_cap of
-- ipc/object_lookup.rs. The log lines are left out. none is a run of the walk over the ancestors that is out of fuel.
use vertex_os.Base.{
  ℕ, ◌/◌, ◌%◌, ◌^◌, Bool, true, false, not, ◌&&◌, ◌||◌, Option, none, some, Result, ok, err,
  if◌then◌else◌,
}
use vertex_os.Ids.{ProcessId, IpcError, bad_capability}
use vertex_os.Object.{ProcessControlObject}
use vertex_os.ObjectTable.Find.{get_process_control}
use vertex_os.Capability.{Capability, grant, can_grant}
use vertex_os.Process.{Process, is_declared, process, current_process, write_process}
use vertex_os.Runtime.{RuntimeState, Outcome, done, fails, new_capability}
use vertex_os.Runtime.Syscalls.{lookup_capability, exceeds, with_cap}

-- `capability::RIGHT_DELEGATE`
abbrev pub right_delegate : ℕ
right_delegate = 4096

unfoldable pub process_control_from_cap :
    ℕ → ℕ → RuntimeState → Option (Result IpcError ProcessControlObject)
unfolding lookup_capability get_process_control
process_control_from_cap cap_slot required_right s =
    elim (lookup_capability cap_slot required_right s) [
      | none ↦ none
      | some (err e) ↦ some (err e)
      | some (ok cap) ↦ elim (get_process_control cap.object s.objects) [
        | none ↦ some (err bad_capability)
        | some control ↦ some (ok control)
      ]
    ]

-- The target has no room for the capability.
unfoldable pub cannot_take : ℕ → Process → Bool
unfolding can_grant
cannot_take target_slot target =
    not (can_grant target_slot target.caps)
    || (is_declared target.state && not (can_grant target_slot target.initial_caps))

-- The write to the target: its capabilities, and its initial ones where it has not started.
unfoldable pub place_transferred :
    ℕ → ProcessId → Bool → Capability → RuntimeState → Outcome (Unit {0})
unfolding process grant write_process
place_transferred target_slot target_pid persist transferred s =
    elim (process target_pid s.processes) [
      | none ↦ fails bad_capability s
      | some target ↦ elim (grant target_slot transferred target.caps) [
        | err _ ↦ fails bad_capability s
        | ok caps ↦ elim persist [
          | false ↦ done tt (record s {
            processes = write_process target.pid (record target { caps = caps }) s.processes;
          })
          | true ↦ elim (grant target_slot transferred target.initial_caps) [
            | err _ ↦ fails bad_capability s
            | ok initial ↦ done tt (record s {
              processes =
                  write_process target.pid (record target { caps = caps; initial_caps = initial })
                    s.processes;
            })
          ]
        ]
      ]
    ]

-- From the lookup of the capability on.
unfoldable pub transfer_of : Capability → ProcessId → ℕ → ℕ → RuntimeState → Outcome (Unit {0})
unfolding current_process process cannot_take new_capability place_transferred
transfer_of cap target_pid target_slot rights_mask s =
    if exceeds rights_mask cap.rights
    then fails bad_capability s
    else elim (current_process s.processes) [
      | none ↦ fails bad_capability s
      | some caller ↦ elim (process target_pid s.processes) [
        | none ↦ fails bad_capability s
        | some target ↦
            if cannot_take target_slot target
            then fails bad_capability s
            else elim (new_capability cap.object rights_mask target_pid cap.id caller.pid s) [
              | fails e next ↦ fails e next
              | done transferred next ↦
                  place_transferred target_slot target_pid (is_declared target.state) transferred
                    next
            ]
      ]
    ]

-- `packed & 0xffff`, `(packed >> 16) & 0xffff` and `packed >> 32`
abbrev pub packed_cap_slot : ℕ → ℕ
packed_cap_slot packed = packed % 2 ^ 16

abbrev pub packed_target_slot : ℕ → ℕ
packed_target_slot packed = packed / 2 ^ 16 % 2 ^ 16

abbrev pub packed_rights : ℕ → ℕ
packed_rights packed = packed / 2 ^ 32

unfoldable pub cap_transfer : ℕ → ProcessId → ℕ → RuntimeState → Option (Outcome (Unit {0}))
unfolding process_control_from_cap lookup_capability with_cap transfer_of
cap_transfer control_slot target_pid packed s =
    elim (process_control_from_cap control_slot right_delegate s) [
      | none ↦ none
      | some (err e) ↦ some (fails e s)
      | some (ok _) ↦
          with_cap (lookup_capability (packed_cap_slot packed) 0 s)
            (λ cap. transfer_of cap target_pid (packed_target_slot packed) (packed_rights packed) s)
            s
    ]
