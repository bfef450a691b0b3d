-- ===== src/Runtime/Tests.antt =====
-- A run of the capability system calls: a root capability, a copy of it with fewer rights, and the
-- revocation of the root.
use vertex_os.Base.{
  ◌+◌, ◌^◌, ok, ◌*◌, ℕ, ◌≡◌, ◌↔◌, refl, true, false, Option, none, some, [], ◌∷◌, err, replicate,
  length, length-replicate, arith,
}
use vertex_os.Base.{Result}
use vertex_os.Ids.{IpcError, bad_capability}
use vertex_os.Capability.{
  Capability, lookup, grant, can_grant, mark_entry, mark_revoked, parent_if_id,
  find_cap_parent_in_space,
}
use vertex_os.Process.{
  Process, ProcessTable, running, holds_pid, process_if_pid, process, current_process,
  write_process,
}
use vertex_os.Runtime.{
  RuntimeState, Outcome, done, fails, max_revoked_caps, cap_id_revoked, record_cap_lineage,
  new_capability, add_revoked_cap, revoke_children, revoke_descendants, mark_process, mark_slots,
  mark_cap_revoked, mark_all, mark_all_revoked_caps, mark_when_ok, revoke_cap_id, parent_if,
  cap_parent_from_lineage, parent_in_process, find_cap_parent, next_parent, has_revoked_ancestor,
}
use vertex_os.Runtime.Ancestors.{IsDescending, lookup_capability_returns}
use vertex_os.Runtime.Growth.{Fits}
use vertex_os.Runtime.Revocation.{
  Condemned, is_root, child, revoke_cap_id_returns, revoke_cap_id-revokes_Condemned,
}
use vertex_os.Runtime.Syscalls.{
  current_cap, lookup_capability, checked, checked_capability, capability_has_revoked_ancestor,
  grant_current, copy_of, with_cap, cap_copy, cap_derive,
}
use vertex_os.Runtime.Attenuation.{Attenuated, cap_copy-Attenuated, cap_derive-Attenuated}
use vertex_os.Runtime.Syscalls.{cap_move}
use vertex_os.Object.{ProcessControlObject, process_control}
use vertex_os.ObjectTable.Table.{find_object}
use vertex_os.ObjectTable.Find.{get_process_control}
use vertex_os.Process.{declared}
use vertex_os.Runtime.Transfer.{
  right_delegate, process_control_from_cap, cannot_take, place_transferred, transfer_of,
  packed_target_slot, packed_rights, cap_transfer,
}
use vertex_os.Runtime.Transferred.{Transferred, cap_transfer-Transferred}
use vertex_os.Runtime.Release.{cap_drop}
use vertex_os.Runtime.Dropped.{DropCase, cap_drop-DropCase}
use vertex_os.Frame.{SyscallFrame, empty_frame}
use vertex_os.ObjectTable.Table.{new_table}
use vertex_os.Capability.{clear}
use vertex_os.Runtime.Moved.{Moved, cap_move-Moved}
use vertex_os.Runtime.Unusable.{revoke_cap_id-lookup_capability}

abbrev idle_frame : SyscallFrame
unfolding empty_frame
idle_frame = empty_frame

-- Rights 1, 2 and 16.
abbrev root_cap : Capability
root_cap = record {
  id = 1;
  object = 4;
  rights = 19;
  owner_process = 1;
  parent_cap_id = 0;
  generation_id = "a";
  delegated_by = 1;
  revoked = false;
}

abbrev shell : Process
shell = record {
  pid = 1;
  name = "shell";
  state = running;
  context = record { cr3 = 0; entry = 0; stack_top = 0 };
  caps = record { caps = some root_cap ∷ none ∷ none ∷ [] };
  initial_caps = record { caps = [] };
  file_handles = [];
  saved_frame = idle_frame;
  has_saved_frame = false;
}

abbrev one_process : ProcessTable
one_process = record {
  processes = some shell ∷ none ∷ [];
  count = 1;
  current = some 1;
  next_id = 2;
}

abbrev start : RuntimeState
start = record {
  processes = one_process;
  objects = new_table;
  generation_id = "a";
  next_cap_id = 2;
  revoked_caps = replicate max_revoked_caps 0;
  revoked_cap_count = 0;
  cap_lineage = some (record { cap_id = 1; parent_cap_id = 0 }) ∷ none ∷ none ∷ [];
  cap_lineage_count = 1;
}

-- The state that a step leaves.
state_of : Option (Outcome (Unit {0})) → RuntimeState
state_of none = start
state_of (some (done _ s)) = s
state_of (some (fails _ s)) = s

copied : RuntimeState
unfolding state_of cap_copy with_cap copy_of grant_current lookup_capability current_cap
    checked_capability checked capability_has_revoked_ancestor has_revoked_ancestor next_parent
    find_cap_parent cap_parent_from_lineage parent_if parent_in_process find_cap_parent_in_space
    parent_if_id cap_id_revoked new_capability record_cap_lineage current_process process
    process_if_pid holds_pid write_process grant can_grant lookup
copied = state_of (cap_copy 0 1 17 start)

cap_copy-Attenuated_example : Attenuated root_cap 1 17 start copied
unfolding copied
cap_copy-Attenuated_example =
    cap_copy-Attenuated 0 1 17 start copied root_cap refl (omega arith) (omega arith) refl

cap_derive-Attenuated_example : Attenuated root_cap 2 16 start (state_of (cap_derive 0 2 16 start))
unfolding state_of cap_derive with_cap copy_of grant_current lookup_capability current_cap
    checked_capability checked capability_has_revoked_ancestor has_revoked_ancestor next_parent
    find_cap_parent cap_parent_from_lineage parent_if parent_in_process find_cap_parent_in_space
    parent_if_id cap_id_revoked new_capability record_cap_lineage current_process process
    process_if_pid holds_pid write_process grant can_grant lookup
cap_derive-Attenuated_example =
    cap_derive-Attenuated 0 2 16 start _ root_cap refl (omega arith) (omega arith) refl

after_revocation : RuntimeState
unfolding state_of copied revoke_cap_id add_revoked_cap cap_id_revoked revoke_descendants
    revoke_children mark_when_ok mark_all_revoked_caps mark_all mark_cap_revoked mark_slots
    mark_process mark_revoked mark_entry
after_revocation = state_of (revoke_cap_id 1 copied)

copied-size : length copied.revoked_caps ≡ max_revoked_caps
unfolding copied
copied-size = length-replicate {A = ℕ} max_revoked_caps 0

copied-Fits : Fits copied
unfolding copied
copied-Fits = omega (arith, copied-size)

revoked_copied : revoke_cap_id 1 copied ≡ some (done tt after_revocation)
unfolding after_revocation copied
revoked_copied = refl

revoke_cap_id_returns_example :
    (outcome : Outcome (Unit {0})) × (revoke_cap_id 1 copied ≡ some outcome)
revoke_cap_id_returns_example = revoke_cap_id_returns 1 copied copied-size copied-Fits

revoke_cap_id-revokes_Condemned_example :
    (cap_id_revoked 2 after_revocation ≡ true) ↔ Condemned copied 1 2
revoke_cap_id-revokes_Condemned_example =
    revoke_cap_id-revokes_Condemned 1 copied after_revocation copied-size copied-Fits revoked_copied
      2

abbrev copied_cap : Capability
copied_cap = record {
  id = 2;
  object = 4;
  rights = 17;
  owner_process = 1;
  parent_cap_id = 1;
  generation_id = "a";
  delegated_by = 1;
  revoked = true;
}

copied_cap_there : current_cap 1 after_revocation ≡ some copied_cap
unfolding current_cap current_process process process_if_pid lookup after_revocation
copied_cap_there = refl

copied_cap-Condemned : Condemned copied 1 2
unfolding copied
copied_cap-Condemned =
    child 1 (record { cap_id = 2; parent_cap_id = 1 }) refl (ground arith) (ground arith) is_root

revoke_cap_id-lookup_capability_example :
    lookup_capability 1 16 after_revocation ≡ some (err bad_capability)
revoke_cap_id-lookup_capability_example =
    revoke_cap_id-lookup_capability 1 copied after_revocation copied-size copied-Fits revoked_copied
      1 16 copied_cap copied_cap_there copied_cap-Condemned

copied-IsDescending : IsDescending copied
unfolding copied
copied-IsDescending = record {
  entries = (omega arith, (omega arith, tt));
  slots = (((omega arith, (omega arith, (tt, tt))), tt), tt);
}

lookup_capability_returns_example :
    (result : Result IpcError Capability) × (lookup_capability 1 16 copied ≡ some result)
lookup_capability_returns_example = lookup_capability_returns 1 16 copied copied-IsDescending

moved : RuntimeState
unfolding cap_move current_process process process_if_pid holds_pid write_process grant can_grant
    clear lookup
moved = elim (cap_move 0 2 start) [ done _ s ↦ s | fails _ s ↦ s ]

cap_move-Moved_example : Moved 0 2 start moved
unfolding moved
cap_move-Moved_example = cap_move-Moved 0 2 start moved refl

-- A process that has control of others, and one that has not started.
abbrev control_cap : Capability
control_cap = record root_cap { id = 2; object = 6; rights = 4096 }

abbrev two_processes : RuntimeState
two_processes = record start {
  processes = record {
    processes =
        some (record shell { caps = record { caps = some root_cap ∷ some control_cap ∷ [] } })
        ∷ some (record shell {
          pid = 2;
          state = declared;
          caps = record { caps = none ∷ none ∷ [] };
          initial_caps = record { caps = none ∷ none ∷ [] };
        })
        ∷ [];
    count = 2;
    current = some 1;
    next_id = 3;
  };
  objects = record {
    objects = some (process_control (record { id = 6; name = "control" })) ∷ [];
    count = 1;
    next_id = 7;
  };
  next_cap_id = 3;
}

-- Rights 1 and 16 of slot 0, into slot 1.
abbrev packed_transfer : ℕ
packed_transfer = 17 * 2 ^ 32 + 1 * 2 ^ 16

transferred : RuntimeState
unfolding state_of cap_transfer process_control_from_cap get_process_control cannot_take
    place_transferred transfer_of with_cap lookup_capability current_cap checked_capability checked
    capability_has_revoked_ancestor has_revoked_ancestor next_parent find_cap_parent
    cap_parent_from_lineage parent_if parent_in_process find_cap_parent_in_space parent_if_id
    cap_id_revoked new_capability record_cap_lineage current_process process process_if_pid
    holds_pid write_process grant can_grant lookup find_object
transferred = state_of (cap_transfer 1 2 packed_transfer two_processes)

cap_transfer-Transferred_example :
    ((control : ProcessControlObject) × (process_control_from_cap 1 right_delegate two_processes
        ≡ some (ok control)))
    × Transferred root_cap 2
        (packed_target_slot packed_transfer)
        (packed_rights packed_transfer)
        two_processes
        transferred
unfolding transferred
cap_transfer-Transferred_example =
    cap_transfer-Transferred 1 2 packed_transfer two_processes transferred root_cap refl
      (omega arith) (omega arith) refl

cap_drop-DropCase_example :
    (o : Outcome (Unit {0})) × ((cap_drop 1 copied ≡ some o) × DropCase 1 copied o)
cap_drop-DropCase_example = cap_drop-DropCase 1 copied copied-IsDescending
