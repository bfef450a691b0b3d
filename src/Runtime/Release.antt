-- ===== src/Runtime/Release.antt =====
-- Roots that no capability reaches: release_unreferenced_derived_vfs_root and cap_drop of
-- kernel/krust/src/ipc/capability_syscalls.rs, and object_reachable_by_cap of ipc/inspect_report.rs. The log
-- lines are left out. none is a run of the walk over the ancestors that is out of fuel.
use vertex_os.Base.{
  if◌then◌else◌, ◌+◌, ◌*◌, ltb, get_elem?, zero, suc, get_elem?, ltb, ◌*◌, ◌+◌, zero, suc, ℕ, Bool,
  true, false, not, ◌&&◌, Option, none, some, List, [], ◌∷◌, Result, ok, err, ◌==◌,
}
use text.Mathlib.Text.{◌==◌ as ◌==ₛ◌}
use vertex_os.Ids.{KernelObjectId, IpcError, bad_capability}
use vertex_os.Object.{KernelObject, vfs_root}
use vertex_os.ObjectTable.Remove.{remove_derived_vfs_root}
use vertex_os.Capability.{Capability, clear}
use vertex_os.Process.{ProcessState, empty, exited, Process, live, current_process, write_process}
use vertex_os.Runtime.{RuntimeState, Outcome, done, fails, cap_id_revoked}
use vertex_os.Runtime.Syscalls.{capability_has_revoked_ancestor}

-- The conditions on a capability before the walk over its ancestors.
unfoldable pub names_object : KernelObjectId → Capability → RuntimeState → Bool
unfolding cap_id_revoked
names_object object_id cap s =
    cap.object == object_id && (not cap.revoked && not (cap_id_revoked cap.id s))

unfoldable pub cap_space_reaches_live_object :
    List (Option Capability) → KernelObjectId → RuntimeState → Option Bool
unfolding names_object capability_has_revoked_ancestor
cap_space_reaches_live_object [] object_id s = some false
cap_space_reaches_live_object (none ∷ caps) object_id s =
    cap_space_reaches_live_object caps object_id s
cap_space_reaches_live_object (some cap ∷ caps) object_id s = elim (names_object object_id cap s) [
  | false ↦ cap_space_reaches_live_object caps object_id s
  | true ↦ elim (capability_has_revoked_ancestor cap s) [
    | none ↦ none
    | some true ↦ cap_space_reaches_live_object caps object_id s
    | some false ↦ elim (cap.generation_id ==ₛ s.generation_id) [
      | true ↦ some true
      | false ↦ cap_space_reaches_live_object caps object_id s
    ]
  ]
]

abbrev pub is_empty_state : ProcessState → Bool
is_empty_state state = elim state [ empty ↦ true | _ ↦ false ]

abbrev pub is_exited : ProcessState → Bool
is_exited state = elim state [ exited ↦ true | _ ↦ false ]

-- `state != Exited && cap_space_reaches_live_object(caps)`
unfoldable pub own_caps_reach : Process → KernelObjectId → RuntimeState → Option Bool
unfolding cap_space_reaches_live_object
own_caps_reach process object_id s = elim (is_exited process.state) [
  | true ↦ some false
  | false ↦ cap_space_reaches_live_object process.caps.caps object_id s
]

-- The condition of the loop of `object_reachable_by_cap`.
unfoldable pub process_reaches : Process → KernelObjectId → RuntimeState → Option Bool
unfolding own_caps_reach cap_space_reaches_live_object
process_reaches process object_id s = elim (is_empty_state process.state) [
  | true ↦ some false
  | false ↦ elim (own_caps_reach process object_id s) [
    | none ↦ none
    | some true ↦ some true
    | some false ↦ cap_space_reaches_live_object process.initial_caps.caps object_id s
  ]
]

unfoldable pub any_process_reaches :
    List (Option Process) → KernelObjectId → RuntimeState → Option Bool
unfolding process_reaches
any_process_reaches [] object_id s = some false
any_process_reaches (none ∷ slots) object_id s = any_process_reaches slots object_id s
any_process_reaches (some process ∷ slots) object_id s =
    elim (process_reaches process object_id s) [
      | none ↦ none
      | some true ↦ some true
      | some false ↦ any_process_reaches slots object_id s
    ]

unfoldable pub object_reachable_by_cap : KernelObjectId → RuntimeState → Option Bool
unfolding any_process_reaches
object_reachable_by_cap object_id s = any_process_reaches (live s.processes) object_id s

unfoldable pub release_unreferenced_derived_vfs_root :
    KernelObjectId → RuntimeState → Option RuntimeState
unfolding object_reachable_by_cap remove_derived_vfs_root
release_unreferenced_derived_vfs_root object s = elim (object_reachable_by_cap object s) [
  | none ↦ none
  | some true ↦ some s
  | some false ↦ some (record s { objects = (remove_derived_vfs_root object s.objects).1 })
]

-- The space of the current process without the capability that it drops.
unfoldable pub cleared_current :
    Process → ℕ → RuntimeState → Result IpcError (Capability × RuntimeState)
unfolding clear write_process
cleared_current process slot s = elim (clear slot process.caps) [
  | err e ↦ err e
  | ok (dropped, caps) ↦ ok (
    dropped,
    record s { processes = write_process process.pid (record process { caps = caps }) s.processes },
  )
]

unfoldable pub cap_drop : ℕ → RuntimeState → Option (Outcome (Unit {0}))
unfolding current_process cleared_current release_unreferenced_derived_vfs_root
cap_drop slot s = elim (current_process s.processes) [
  | none ↦ some (fails bad_capability s)
  | some process ↦ elim (cleared_current process slot s) [
    | err e ↦ some (fails e s)
    | ok (dropped, next) ↦ elim (release_unreferenced_derived_vfs_root dropped.object next) [
      | none ↦ none
      | some released ↦ some (done tt released)
    ]
  ]
]

-- `Some(VfsRoot(root))` with `root.derived`
unfoldable pub derived_root : Option (Option KernelObject) → Option KernelObjectId
derived_root (some (some (vfs_root root))) = if root.derived then some root.id else none
derived_root _ = none

-- The loop of `release_unreferenced_derived_vfs_roots`: a round either moves on or removes an object, so that
-- two rounds for each slot and one are enough.
unfoldable pub release_from : ℕ → ℕ → RuntimeState → Option RuntimeState
unfolding derived_root object_reachable_by_cap remove_derived_vfs_root
release_from zero index s = none
release_from (suc fuel) index s = elim (ltb index s.objects.count) [
  | false ↦ some s
  | true ↦ elim (derived_root (get_elem? s.objects.objects index)) [
    | none ↦ release_from fuel (suc index) s
    | some object ↦ elim (object_reachable_by_cap object s) [
      | none ↦ none
      | some true ↦ release_from fuel (suc index) s
      | some false ↦
          let (removed, objects) = remove_derived_vfs_root object s.objects in
          elim removed [
            | true ↦ release_from fuel index (record s { objects = objects })
            | false ↦ release_from fuel (suc index) s
          ]
    ]
  ]
]

unfoldable pub release_unreferenced_derived_vfs_roots : RuntimeState → Option RuntimeState
unfolding release_from
release_unreferenced_derived_vfs_roots s = release_from (2 * s.objects.count + 1) 0 s
