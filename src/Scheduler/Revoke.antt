-- ===== src/Scheduler/Revoke.antt =====
-- cap_revoke of kernel/krust/src/ipc/capability_syscalls.rs. The log lines are left out. none is a
-- run that is out of fuel.
use vertex_os.Base.{ℕ, ◌-◌, Option, none, some, ok, err}
use vertex_os.Ids.{u64_max}
use vertex_os.Runtime.{RuntimeState, Outcome, done, fails, revoke_cap_id}
use vertex_os.Runtime.Syscalls.{lookup_capability}
use vertex_os.Runtime.Release.{release_unreferenced_derived_vfs_roots}
use vertex_os.Scheduler.Waiters.{cancel_unauthorized_blocked_receivers}

abbrev pub status_bad_capability : ℕ
status_bad_capability = u64_max - 1

-- Past the revocation of the identifier.
unfoldable pub after_revoke : Option (Outcome (Unit {0})) → Option (Outcome (Unit {0}))
unfolding release_unreferenced_derived_vfs_roots cancel_unauthorized_blocked_receivers
after_revoke none = none
after_revoke (some (fails e s)) = some (fails e s)
after_revoke (some (done _ s)) = elim (release_unreferenced_derived_vfs_roots s) [
  | none ↦ none
  | some released ↦ elim (cancel_unauthorized_blocked_receivers status_bad_capability released) [
    | none ↦ none
    | some (_, resumed) ↦ some (done tt resumed)
  ]
]

unfoldable pub cap_revoke : ℕ → RuntimeState → Option (Outcome (Unit {0}))
unfolding lookup_capability revoke_cap_id after_revoke
cap_revoke slot s = elim (lookup_capability slot 0 s) [
  | none ↦ none
  | some (err e) ↦ some (fails e s)
  | some (ok cap) ↦ after_revoke (revoke_cap_id cap.id s)
]
