-- ===== src/Runtime/Unusable.antt =====
-- No revoked capability passes a lookup: lookup_capability of kernel/krust/src/ipc/object_lookup.rs
-- after revoke_cap_id of ipc/runtime_state.rs.
use vertex_os.Base.{ℕ, ◌≡◌, refl, true, ◌||◌, some, err, length, arith}
use vertex_os.Ids.{bad_capability}
use vertex_os.Capability.{Capability}
use vertex_os.Runtime.{RuntimeState, done, cap_id_revoked, revoke_cap_id, max_revoked_caps}
use vertex_os.Runtime.Growth.{Fits}
use vertex_os.Runtime.Revocation.{Condemned, revoke_cap_id-revokes_Condemned}
use vertex_os.Runtime.Syscalls.{current_cap, checked_capability, lookup_capability}

revoked-lookup_capability :
    (slot right : ℕ) (s : RuntimeState) (cap : Capability)
    → current_cap slot s ≡ some cap
    → cap_id_revoked cap.id s ≡ true
    → lookup_capability slot right s ≡ some (err bad_capability)
unfolding lookup_capability checked_capability
revoked-lookup_capability slot right s cap here r =
    let stop : (cap.revoked || cap_id_revoked cap.id s) ≡ true = ground (arith, r) in
    rw (here, lookup_capability) (rw (stop, checked_capability) refl)

-- Where the table of revoked identifiers has its 1024 slots and a count within them, and the
-- revocation of `root` returns without an error: a lookup of a slot of the current process that holds
-- a capability which the revocation condemns is refused afterwards, whatever right is asked for.
pub revoke_cap_id-lookup_capability :
    (root : ℕ) (s s' : RuntimeState)
    → length s.revoked_caps ≡ max_revoked_caps
    → Fits s
    → revoke_cap_id root s ≡ some (done tt s')
    → (slot right : ℕ) (cap : Capability) → current_cap slot s' ≡ some cap
    → Condemned s root cap.id
    → lookup_capability slot right s' ≡ some (err bad_capability)
revoke_cap_id-lookup_capability root s s' size h e slot right cap here condemned =
    revoked-lookup_capability slot right s' cap here
      ((revoke_cap_id-revokes_Condemned root s s' size h e cap.id).1 condemned)
