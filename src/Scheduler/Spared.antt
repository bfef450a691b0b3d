-- ===== src/Scheduler/Spared.antt =====
-- The receivers that keep their wait: the condition of cancel_unauthorized_blocked_receivers of
-- kernel/krust/src/ipc/scheduler.rs.
use vertex_os.Base.{
  ℕ, ◌≡◌, ◌∙◌, refl, sym, ap, inl, inr, Bool, true, false, not, none, some, Option-cases,
}
use vertex_os.Ids.{KernelObjectId}
use vertex_os.Transport.{IpcEndpoint}
use vertex_os.ObjectTable.Find.{get_endpoint}
use vertex_os.Process.{ProcessState, Process, blocked_on_endpoint}
use vertex_os.Runtime.{RuntimeState}
use vertex_os.Scheduler.Waiters.{
  right_receive, waits_for, any_live_cap, process_has_live_endpoint_cap, should_cancel,
}
use vertex_os.Scheduler.Receivers.{
  Waits, CanReceive, decided, unknown_known, any_live_cap-true, any_live_cap-false,
}

should_cancel-gone :
    (p : Process) (s : RuntimeState) (endpoint : KernelObjectId) (cap_id : ℕ)
    → Waits p endpoint cap_id
    → get_endpoint endpoint s.objects ≡ none
    → should_cancel p s ≡ some true
unfolding should_cancel process_has_live_endpoint_cap waits_for
should_cancel-gone p s endpoint cap_id w g =
    rw (w.state, should_cancel) (rw (g, process_has_live_endpoint_cap) refl)

should_cancel-found :
    (p : Process) (s : RuntimeState) (endpoint : KernelObjectId) (cap_id : ℕ) (object : IpcEndpoint)
    → Waits p endpoint cap_id
    → get_endpoint endpoint s.objects ≡ some object
    → should_cancel p s ≡ elim (any_live_cap endpoint cap_id right_receive p.caps.caps s) [
      | none ↦ none
      | some held ↦ some (not held)
    ]
unfolding should_cancel process_has_live_endpoint_cap waits_for
should_cancel-found p s endpoint cap_id object w g =
    rw (w.state, should_cancel) (rw (g, process_has_live_endpoint_cap) refl)

should_cancel-unknown :
    (p : Process) (s : RuntimeState) (endpoint : KernelObjectId) (cap_id : ℕ) (object : IpcEndpoint)
    → Waits p endpoint cap_id
    → get_endpoint endpoint s.objects ≡ some object
    → any_live_cap endpoint cap_id right_receive p.caps.caps s ≡ none
    → should_cancel p s ≡ none
should_cancel-unknown p s endpoint cap_id object w g a =
    should_cancel-found p s endpoint cap_id object w g ∙ rw a refl

should_cancel-held :
    (p : Process) (s : RuntimeState) (endpoint : KernelObjectId) (cap_id : ℕ) (object : IpcEndpoint)
    (held : Bool)
    → Waits p endpoint cap_id
    → get_endpoint endpoint s.objects ≡ some object
    → any_live_cap endpoint cap_id right_receive p.caps.caps s ≡ some held
    → should_cancel p s ≡ some (not held)
should_cancel-held p s endpoint cap_id object held w g a =
    should_cancel-found p s endpoint cap_id object w g ∙ rw a refl

-- A receiver that is spared can receive.
pub should_cancel-CanReceive :
    (p : Process) (s : RuntimeState) (endpoint : KernelObjectId) (cap_id : ℕ)
    → Waits p endpoint cap_id
    → should_cancel p s ≡ some false
    → CanReceive s p endpoint cap_id
should_cancel-CanReceive p s endpoint cap_id w h =
    elim (Option-cases (get_endpoint endpoint s.objects)) [
      | inl g ↦ absurd (decided (sym h ∙ should_cancel-gone p s endpoint cap_id w g))
      | inr (object, g) ↦
          elim (Option-cases (any_live_cap endpoint cap_id right_receive p.caps.caps s)) [
            | inl a ↦
                absurd
                  (unknown_known (sym (should_cancel-unknown p s endpoint cap_id object w g a) ∙ h))
            | inr (held, a) ↦ record {
              object = object;
              exists = g;
              holds = any_live_cap-true s endpoint cap_id p.caps.caps (
                  a
                  ∙ ap some (
                      is_held held
                        (sym (should_cancel-held p s endpoint cap_id object held w g a) ∙ h)));
            }
          ]
    ]
  where
    is_held : (held : Bool) → some (not held) ≡ some false → held ≡ true
    is_held true e = refl
    is_held false e = absurd (decided (sym e))

-- A receiver that can receive is not cancelled.
pub CanReceive-should_cancel :
    (p : Process) (s : RuntimeState) (endpoint : KernelObjectId) (cap_id : ℕ)
    → Waits p endpoint cap_id
    → CanReceive s p endpoint cap_id
    → should_cancel p s ≡ some true
    → ⊥
CanReceive-should_cancel p s endpoint cap_id w r h =
    let v = r.holds in
    elim (Option-cases (any_live_cap endpoint cap_id right_receive p.caps.caps s)) [
      | inl a ↦
          unknown_known (sym (should_cancel-unknown p s endpoint cap_id r.object w r.exists a) ∙ h)
      | inr (held, a) ↦
          any_live_cap-false s endpoint cap_id v.slot v.cap p.caps.caps v.held v.live (
            a
            ∙ ap some (
                not_held held
                  (sym (should_cancel-held p s endpoint cap_id r.object held w r.exists a) ∙ h)))
    ]
  where
    not_held : (held : Bool) → some (not held) ≡ some true → held ≡ false
    not_held false e = refl
    not_held true e = absurd (decided e)

-- A process that is cancelled waits as a receiver.
pub should_cancel-Waits :
    (p : Process) (s : RuntimeState)
    → should_cancel p s ≡ some true
    → (endpoint : KernelObjectId) × ((cap_id : ℕ) × Waits p endpoint cap_id)
unfolding should_cancel waits_for
should_cancel-Waits p s h = go p.state refl
  where
    go :
        (state : ProcessState)
        → p.state ≡ state
        → (endpoint : KernelObjectId) × ((cap_id : ℕ) × Waits p endpoint cap_id)
    go (blocked_on_endpoint endpoint cap_id destination max_len timeout) e = (
      endpoint,
      (
        cap_id,
        record { destination = destination; max_len = max_len; timeout = timeout; state = e },
      ),
    )
    go _ e = absurd (decided (sym (rw (e, should_cancel) refl) ∙ h))
