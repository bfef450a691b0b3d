-- ===== src/Scheduler/Waiters.antt =====
-- Receivers that wait without authority: cancel_unauthorized_blocked_receivers and
-- cancel_blocked_receivers_for_endpoint_owner of kernel/krust/src/ipc/scheduler.rs. none is a run of
-- the walk over the ancestors of a capability that is out of fuel.
use vertex_os.Base.{
  ℕ, suc, zero, ◌+◌, Bool, true, false, not, ◌&&◌, Option, none, some, List, [], ◌∷◌, ◌==◌,
  if◌then◌else◌, get_elem?, set, position, bit_and,
}
use text.Mathlib.Text.{◌==◌ as ◌==ₛ◌}
use vertex_os.Ids.{KernelObjectId, ProcessId}
use vertex_os.ObjectTable.Table.{ObjectTable}
use vertex_os.ObjectTable.Find.{get_endpoint}
use vertex_os.Transport.{has_message_for}
use vertex_os.Capability.{Capability}
use vertex_os.Process.{ProcessState, blocked_on_endpoint, Process, live}
use vertex_os.Runtime.{RuntimeState, cap_id_revoked}
use vertex_os.Runtime.Syscalls.{capability_has_revoked_ancestor}
use vertex_os.Scheduler.{resume, change_slots}

-- `capability::RIGHT_RECEIVE`
abbrev pub right_receive : ℕ
right_receive = 32

-- The endpoint and the capability that a receiver waits with.
unfoldable pub waits_for : ProcessState → Option (KernelObjectId × ℕ)
waits_for (blocked_on_endpoint endpoint cap_id destination max_len timeout_tsc) =
    some (endpoint, cap_id)
waits_for _ = none

-- The conditions on a capability before the walk over its ancestors.
unfoldable pub names_endpoint : KernelObjectId → ℕ → Capability → RuntimeState → Bool
unfolding cap_id_revoked
names_endpoint endpoint cap_id cap s =
    cap.id == cap_id
    && (cap.object == endpoint && (not cap.revoked && not (cap_id_revoked cap.id s)))

-- The conditions behind the walk.
unfoldable pub has_right : ℕ → Capability → RuntimeState → Bool
has_right required_right cap s =
    (cap.generation_id ==ₛ s.generation_id) && bit_and cap.rights required_right == required_right

-- The loop over the slots of a capability space.
unfoldable pub any_live_cap :
    KernelObjectId → ℕ → ℕ → List (Option Capability) → RuntimeState → Option Bool
unfolding names_endpoint has_right capability_has_revoked_ancestor
any_live_cap endpoint cap_id required_right [] s = some false
any_live_cap endpoint cap_id required_right (none ∷ caps) s =
    any_live_cap endpoint cap_id required_right caps s
any_live_cap endpoint cap_id required_right (some cap ∷ caps) s =
    elim (names_endpoint endpoint cap_id cap s) [
      | false ↦ any_live_cap endpoint cap_id required_right caps s
      | true ↦ elim (capability_has_revoked_ancestor cap s) [
        | none ↦ none
        | some true ↦ any_live_cap endpoint cap_id required_right caps s
        | some false ↦ elim (has_right required_right cap s) [
          | true ↦ some true
          | false ↦ any_live_cap endpoint cap_id required_right caps s
        ]
      ]
    ]

unfoldable pub process_has_live_endpoint_cap :
    Process → KernelObjectId → ℕ → ℕ → RuntimeState → Option Bool
unfolding get_endpoint any_live_cap
process_has_live_endpoint_cap process endpoint cap_id required_right s =
    elim (get_endpoint endpoint s.objects) [
      | none ↦ some false
      | some _ ↦ any_live_cap endpoint cap_id required_right process.caps.caps s
    ]

-- The process waits as a receiver whose authority is gone.
unfoldable pub should_cancel : Process → RuntimeState → Option Bool
unfolding waits_for process_has_live_endpoint_cap
should_cancel process s = elim (waits_for process.state) [
  | none ↦ some false
  | some (endpoint, cap_id) ↦
      elim (process_has_live_endpoint_cap process endpoint cap_id right_receive s) [
        | none ↦ none
        | some held ↦ some (not held)
      ]
]

-- `cancel_blocked_endpoint_waiter_at`: whether the slot held a receiver that waits.
unfoldable pub cancel_blocked_endpoint_waiter_at : ℕ → ℕ → RuntimeState → Bool × RuntimeState
unfolding waits_for resume
cancel_blocked_endpoint_waiter_at index status s = elim (get_elem? s.processes.processes index) [
  | none ↦ (false, s)
  | some none ↦ (false, s)
  | some (some process) ↦ elim (waits_for process.state) [
    | none ↦ (false, s)
    | some _ ↦ (
      true,
      record s {
        processes = record s.processes {
          processes = set s.processes.processes index (some (resume status process));
        };
      },
    )
  ]
]

-- `should_cancel` of the process in a slot.
unfoldable pub should_cancel_at : ℕ → RuntimeState → Option Bool
unfolding should_cancel
should_cancel_at index s = elim (get_elem? s.processes.processes index) [
  | none ↦ some false
  | some none ↦ some false
  | some (some process) ↦ should_cancel process s
]

-- The loop of `cancel_unauthorized_blocked_receivers` by the rounds that are left, with the count so far.
unfoldable pub cancel_from : ℕ → ℕ → ℕ → ℕ → RuntimeState → Option (ℕ × RuntimeState)
unfolding should_cancel_at cancel_blocked_endpoint_waiter_at
cancel_from status zero index canceled s = some (canceled, s)
cancel_from status (suc rounds) index canceled s = elim (should_cancel_at index s) [
  | none ↦ none
  | some false ↦ cancel_from status rounds (suc index) canceled s
  | some true ↦
      let (was_canceled, next) = cancel_blocked_endpoint_waiter_at index status s in
      cancel_from status rounds (suc index) (if was_canceled then canceled + 1 else canceled) next
]

unfoldable pub cancel_unauthorized_blocked_receivers : ℕ → RuntimeState → Option (ℕ × RuntimeState)
unfolding cancel_from
cancel_unauthorized_blocked_receivers status s = cancel_from status s.processes.count 0 0 s

-- `get_endpoint(endpoint).map(|object| object.owner == owner).unwrap_or(true)`
unfoldable pub owned_or_gone : ProcessId → KernelObjectId → ObjectTable → Bool
unfolding get_endpoint
owned_or_gone owner endpoint objects = elim (get_endpoint endpoint objects) [
  | none ↦ true
  | some object ↦ object.owner == owner
]

-- One round of the loop of `cancel_blocked_receivers_for_endpoint_owner`.
unfoldable pub cancel_for_owner : ProcessId → ℕ → ObjectTable → Process → Option Process
unfolding waits_for owned_or_gone resume
cancel_for_owner owner status objects process = elim (waits_for process.state) [
  | none ↦ none
  | some (endpoint, _) ↦
      if owned_or_gone owner endpoint objects then some (resume status process) else none
]

unfoldable pub cancel_blocked_receivers_for_endpoint_owner :
    ProcessId → ℕ → RuntimeState → ℕ × RuntimeState
unfolding change_slots cancel_for_owner
cancel_blocked_receivers_for_endpoint_owner owner status s =
    let changed =
      change_slots (cancel_for_owner owner status s.objects) s.processes.count
        s.processes.processes in
    (changed.1, record s { processes = record s.processes { processes = changed.0 } })

-- The slot holds a receiver that waits on the endpoint and that has a message there.
unfoldable pub can_receive : KernelObjectId → ObjectTable → Option Process → Bool
unfolding waits_for get_endpoint
can_receive endpoint objects none = false
can_receive endpoint objects (some process) = elim (waits_for process.state) [
  | none ↦ false
  | some (waiting, _) ↦ waiting == endpoint && elim (get_endpoint endpoint objects) [
    | none ↦ false
    | some object ↦ has_message_for process.pid object.queue
  ]
]

unfoldable pub blocked_receiver_index : KernelObjectId → RuntimeState → Option ℕ
unfolding can_receive
blocked_receiver_index endpoint s = position (can_receive endpoint s.objects) (live s.processes)
