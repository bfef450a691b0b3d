-- ===== src/Scheduler/Canceled.antt =====
-- Receivers whose authority is gone wait no longer: cancel_unauthorized_blocked_receivers of
-- kernel/krust/src/ipc/scheduler.rs.
use vertex_os.Base.{
  ℕ, ◌≤◌, ◌<◌, ◌≡◌, ◌∙◌, refl, sym, ap, inl, inr, Bool, true, false, Option, none, some, get_elem?,
  Bool-cases, arith,
}
use vertex_os.Ids.{KernelObjectId}
use vertex_os.Process.{Process, ready}
use vertex_os.Runtime.{RuntimeState}
use vertex_os.Runtime.Ancestors.{IsDescending}
use vertex_os.Scheduler.{resume}
use vertex_os.Scheduler.Waiters.{
  should_cancel, should_cancel_at, cancel_unauthorized_blocked_receivers,
}
use vertex_os.Scheduler.Receivers.{Waits, CanReceive}
use vertex_os.Scheduler.Spared.{
  should_cancel-CanReceive, CanReceive-should_cancel, should_cancel-Waits,
}
use vertex_os.Scheduler.CancelLoop.{should_cancel_at_returns, cancel_from-CanceledFrom}

-- The slot holds a process that waits as a receiver.
pub record Receiver (index : ℕ) (s : RuntimeState) (p : Process) (endpoint : KernelObjectId)
    (cap_id : ℕ) : Type 0 where
  pub here : get_elem? s.processes.processes index ≡ some (some p)
  pub waits : Waits p endpoint cap_id

should_cancel_at-process :
    (i : ℕ) (s : RuntimeState) (p : Process)
    → get_elem? s.processes.processes i ≡ some (some p)
    → should_cancel_at i s ≡ should_cancel p s
unfolding should_cancel_at
should_cancel_at-process i s p e = rw (e, should_cancel_at) refl

decided_false : {b : Bool} → some b ≡ some false → some b ≡ some true → ⊥
decided_false e f = cc

-- A receiver that cannot receive is one to cancel.
Receiver-canceled :
    (i : ℕ) (s : RuntimeState) (p : Process) (endpoint : KernelObjectId) (cap_id : ℕ)
    → IsDescending s
    → Receiver i s p endpoint cap_id
    → (CanReceive s p endpoint cap_id → ⊥)
    → should_cancel_at i s ≡ some true
Receiver-canceled i s p endpoint cap_id d r cannot =
    let (b, e) = should_cancel_at_returns i s d in
    elim (Bool-cases b) [
      | inl f ↦ e ∙ ap some f
      | inr f ↦ absurd (
          cannot (
            should_cancel-CanReceive p s endpoint cap_id r.waits
              (sym (should_cancel_at-process i s p r.here) ∙ (e ∙ ap some f))))
    ]

-- One that can receive is not.
Receiver-kept :
    (i : ℕ) (s : RuntimeState) (p : Process) (endpoint : KernelObjectId) (cap_id : ℕ)
    → IsDescending s
    → Receiver i s p endpoint cap_id
    → CanReceive s p endpoint cap_id
    → should_cancel_at i s ≡ some false
Receiver-kept i s p endpoint cap_id d r can =
    let (b, e) = should_cancel_at_returns i s d in
    elim (Bool-cases b) [
      | inr f ↦ e ∙ ap some f
      | inl f ↦ absurd (
          CanReceive-should_cancel p s endpoint cap_id r.waits can
            (sym (should_cancel_at-process i s p r.here) ∙ (e ∙ ap some f)))
    ]

-- A slot without a receiver has nobody to cancel.
should_cancel_at-idle :
    (i : ℕ) (s : RuntimeState)
    → IsDescending s
    → ((p : Process) (endpoint : KernelObjectId) (cap_id : ℕ) → Receiver i s p endpoint cap_id → ⊥)
    → should_cancel_at i s ≡ some false
unfolding should_cancel_at
should_cancel_at-idle i s d nobody = go (get_elem? s.processes.processes i) refl
  where
    go :
        (o : Option (Option Process))
        → get_elem? s.processes.processes i ≡ o
        → should_cancel_at i s ≡ some false
    go none e = rw (e, should_cancel_at) refl
    go (some none) e = rw (e, should_cancel_at) refl
    go (some (some p)) e =
        let (b, h) = should_cancel_at_returns i s d in
        elim (Bool-cases b) [
          | inr f ↦ h ∙ ap some f
          | inl f ↦
              let (endpoint, w) =
                should_cancel-Waits p s
                  (sym (should_cancel_at-process i s p e) ∙ (h ∙ ap some f)) in
              absurd (nobody p endpoint w.0 (record { here = e; waits = w.1 }))
        ]

-- What the call leaves.
pub record Canceled (status : ℕ) (s : RuntimeState) : Type 0 where
  pub count : ℕ
  pub state : RuntimeState
  pub result : cancel_unauthorized_blocked_receivers status s ≡ some (count, state)
  -- the receivers that still wait below the count can receive
  pub none_left :
      (i : ℕ) (p : Process) (endpoint : KernelObjectId) (cap_id : ℕ)
      → i < s.processes.count
      → Receiver i state p endpoint cap_id
      → CanReceive state p endpoint cap_id
  -- a receiver that cannot receive becomes ready, with the status as its result
  pub canceled :
      (i : ℕ) (p : Process) (endpoint : KernelObjectId) (cap_id : ℕ)
      → i < s.processes.count
      → Receiver i s p endpoint cap_id
      → (CanReceive s p endpoint cap_id → ⊥)
      → get_elem? state.processes.processes i
        ≡ some
            (some (record p { state = ready; saved_frame = record p.saved_frame { rax = status } }))
  -- one that can receive is as it was
  pub kept_receiver :
      (i : ℕ) (p : Process) (endpoint : KernelObjectId) (cap_id : ℕ)
      → Receiver i s p endpoint cap_id
      → CanReceive s p endpoint cap_id
      → get_elem? state.processes.processes i ≡ get_elem? s.processes.processes i
  -- so is a slot that holds no receiver
  pub kept_other :
      (i : ℕ)
      → ((p : Process) (endpoint : KernelObjectId) (cap_id : ℕ)
          → Receiver i s p endpoint cap_id
          → ⊥)
      → get_elem? state.processes.processes i ≡ get_elem? s.processes.processes i
  -- and a slot beyond the count
  pub kept_beyond :
      (i : ℕ)
      → s.processes.count ≤ i
      → get_elem? state.processes.processes i ≡ get_elem? s.processes.processes i

-- Where every parent of a capability was made before its child, the cancelling of receivers
-- returns. Afterwards every process below the count that waits on an endpoint can receive from
-- it: the endpoint exists and the process holds a capability with the identifier it waits with,
-- which names the endpoint, is of the running generation, has the right to receive, and is not
-- revoked, nor is one above it by the parents that are known. A receiver below the count that
-- could not is ready with the status given, and every other slot is as it was.
pub cancel_unauthorized_blocked_receivers-Canceled :
    (status : ℕ) (s : RuntimeState) → IsDescending s → Canceled status s
unfolding cancel_unauthorized_blocked_receivers resume
cancel_unauthorized_blocked_receivers-Canceled status s d =
    let r =
      cancel_from-CanceledFrom status s.processes.count 0 0 s (omega arith) d
        (λ i less. absurd (omega (arith, less))) in
    record {
      count = r.count;
      state = r.state;
      result = r.result;
      none_left = λ i p endpoint cap_id less w.
          should_cancel-CanReceive p r.state endpoint cap_id w.waits
            (sym (should_cancel_at-process i r.state p w.here) ∙ r.settled i (omega (arith, less)));
      canceled = λ i p endpoint cap_id less w cannot.
          r.canceled_at i p (omega (arith, less)) w.here
            (Receiver-canceled i s p endpoint cap_id d w cannot);
      kept_receiver =
          λ i p endpoint cap_id w can. r.kept i (Receiver-kept i s p endpoint cap_id d w can);
      kept_other = λ i nobody. r.kept i (should_cancel_at-idle i s d nobody);
      kept_beyond = λ i beyond. r.beyond i (omega (arith, beyond));
    }
