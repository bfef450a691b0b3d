-- ===== src/Scheduler/CancelLoop.antt =====
-- The loop of cancel_unauthorized_blocked_receivers of kernel/krust/src/ipc/scheduler.rs.
use vertex_os.Base.{
  ℕ, zero, suc, ◌+◌, ◌≤◌, ◌<◌, ◌≡◌, ◌≢◌, ◌∙◌, refl, sym, ap, subst, inl, inr, Bool, true, false,
  Option, none, some, ◌==◌, ==→eq, eq→==, get_elem?, get_elem?-lt, get_elem?-set_self,
  get_elem?-set_ne, Bool-cases, arith,
}
use vertex_os.Process.{Process}
use vertex_os.Runtime.{RuntimeState}
use vertex_os.Runtime.Ancestors.{IsDescending}
use vertex_os.Scheduler.{resume}
use vertex_os.Scheduler.Waiters.{cancel_blocked_endpoint_waiter_at, should_cancel_at, cancel_from}
use vertex_os.Scheduler.Authority.{should_cancel_returns}
use vertex_os.Scheduler.Resumed.{
  should_cancel_at-WaitsAt, cancel-WaitsAt, resumed-IsDescending, should_cancel_at-resumed,
  should_cancel_at-other, resumed,
}

-- No receiver below an index waits without authority.
abbrev pub Settled : ℕ → RuntimeState → Type 0
Settled n s = (i : ℕ) → i < n → should_cancel_at i s ≡ some false

Settled-suc :
    (n : ℕ) (s : RuntimeState) → Settled n s → should_cancel_at n s ≡ some false → Settled (suc n) s
Settled-suc n s below here i h = elim (Bool-cases (i == n)) [
  | inl e ↦ subst (λ (j : ℕ). should_cancel_at j s ≡ some false) (sym (==→eq i n e)) here
  | inr e ↦ below i (ground (arith, e, h))
]

-- The state after the loop.
pub record CanceledFrom (status rounds index canceled : ℕ) (s : RuntimeState) : Type 0 where
  pub count : ℕ
  pub state : RuntimeState
  pub result : cancel_from status rounds index canceled s ≡ some (count, state)
  pub settled : Settled (index + rounds) state
  pub kept :
      (i : ℕ)
      → should_cancel_at i s ≡ some false
      → get_elem? state.processes.processes i ≡ get_elem? s.processes.processes i
  pub beyond :
      (i : ℕ)
      → index + rounds ≤ i
      → get_elem? state.processes.processes i ≡ get_elem? s.processes.processes i
  pub canceled_at :
      (i : ℕ) (p : Process)
      → i < index + rounds
      → get_elem? s.processes.processes i ≡ some (some p)
      → should_cancel_at i s ≡ some true
      → get_elem? state.processes.processes i ≡ some (some (resume status p))

pub should_cancel_at_returns :
    (index : ℕ) (s : RuntimeState)
    → IsDescending s
    → (b : Bool) × (should_cancel_at index s ≡ some b)
unfolding should_cancel_at
should_cancel_at_returns index s d = go (get_elem? s.processes.processes index) refl
  where
    go :
        (o : Option (Option Process))
        → get_elem? s.processes.processes index ≡ o
        → (b : Bool) × (should_cancel_at index s ≡ some b)
    go none e = (false, rw (e, should_cancel_at) refl)
    go (some none) e = (false, rw (e, should_cancel_at) refl)
    go (some (some p)) e =
        let (b, h) = should_cancel_returns s p d in (b, rw (e, should_cancel_at) h)

cancel_from-false :
    (status rounds index canceled : ℕ) (s : RuntimeState)
    → should_cancel_at index s ≡ some false
    → cancel_from status (suc rounds) index canceled s
      ≡ cancel_from status rounds (suc index) canceled s
unfolding cancel_from
cancel_from-false status rounds index canceled s e = rw (e, cancel_from) refl

cancel_from-true :
    (status rounds index canceled : ℕ) (s next : RuntimeState)
    → should_cancel_at index s ≡ some true
    → cancel_blocked_endpoint_waiter_at index status s ≡ (true, next)
    → cancel_from status (suc rounds) index canceled s
      ≡ cancel_from status rounds (suc index) (canceled + 1) next
unfolding cancel_from
cancel_from-true status rounds index canceled s next e f = rw (e, f, cancel_from) refl

pub cancel_from-CanceledFrom :
    (status rounds index canceled : ℕ) (s : RuntimeState)
    → index + rounds ≤ s.processes.count
    → IsDescending s
    → Settled index s
    → CanceledFrom status rounds index canceled s
unfolding cancel_from
cancel_from-CanceledFrom status zero index canceled s h d below = record {
  count = canceled;
  state = s;
  result = refl;
  settled = λ i less. below i (omega (arith, less));
  kept = λ i g. refl;
  beyond = λ i g. refl;
  canceled_at = λ i p less at g. absurd (true_false (sym g ∙ below i (omega (arith, less))));
}
  where
    true_false : some true ≡ some false → ⊥
    true_false g = cc
cancel_from-CanceledFrom status (suc rounds) index canceled s h d below =
    let (b, e) = should_cancel_at_returns index s d in
    elim (Bool-cases b) [
      | inr f ↦
          let rest =
            cancel_from-CanceledFrom status rounds (suc index) canceled s (omega (arith, h)) d
              (Settled-suc index s below (e ∙ ap some f)) in
          record {
            count = rest.count;
            state = rest.state;
            result = cancel_from-false status rounds index canceled s (e ∙ ap some f) ∙ rest.result;
            settled = λ i less. rest.settled i (omega (arith, less));
            kept = rest.kept;
            beyond = λ i g. rest.beyond i (omega (arith, g));
            canceled_at = λ i p less at g. rest.canceled_at i p (omega (arith, less)) at g;
          }
      | inl f ↦
          let w = should_cancel_at-WaitsAt index s (e ∙ ap some f) in
          let next = resumed index status w.process s in
          let rest =
            cancel_from-CanceledFrom status rounds (suc index) (canceled + 1) next
              (omega (arith, h))
              (resumed-IsDescending index status w.process s (omega (arith, h)) w.here d)
              (Settled-suc index next
                (λ i less.
                  should_cancel_at-other i index status w.process s w.here
                    (λ g. absurd (omega (arith, g, less)))
                  ∙ below i less)
                (should_cancel_at-resumed index status w.process s w.here)) in
          record {
            count = rest.count;
            state = rest.state;
            result =
                cancel_from-true status rounds index canceled s next (e ∙ ap some f)
                  (cancel-WaitsAt index status s w)
                ∙ rest.result;
            settled = λ i less. rest.settled i (omega (arith, less));
            kept = λ i g.
                let apart : index ≢ i = λ k. absurd (
                  true_false
                    (sym (e ∙ ap some f) ∙ (ap (λ (n : ℕ). should_cancel_at n s) k ∙ g))) in
                rest.kept i (should_cancel_at-other i index status w.process s w.here apart ∙ g)
                ∙ get_elem?-set_ne s.processes.processes index i (some (resume status w.process))
                    apart;
            beyond = λ i g.
                rest.beyond i (omega (arith, g))
                ∙ get_elem?-set_ne s.processes.processes index i (some (resume status w.process))
                    (λ k. absurd (omega (arith, k, g)));
            canceled_at = λ i p less at g. elim (Bool-cases (index == i)) [
              | inl k ↦
                  subst
                    (λ (j : ℕ).
                      get_elem? rest.state.processes.processes j ≡ some (some (resume status p)))
                    (==→eq index i k)
                    (rest.kept index (should_cancel_at-resumed index status w.process s w.here)
                      ∙ (get_elem?-set_self s.processes.processes index
                            (some (resume status w.process))
                            (get_elem?-lt s.processes.processes index (some w.process) w.here)
                          ∙ ap (λ (q : Process). some (some (resume status q)))
                              (same_process (
                                sym w.here
                                ∙ (ap (get_elem? s.processes.processes) (==→eq index i k) ∙ at)))))
              | inr k ↦
                  let apart : index ≢ i =
                    λ m. absurd (true_not_false (sym (eq→== index i m) ∙ k)) in
                  rest.canceled_at i p (omega (arith, less))
                    (get_elem?-set_ne s.processes.processes index i (some (resume status w.process))
                        apart
                      ∙ at)
                    (should_cancel_at-other i index status w.process s w.here apart ∙ g)
            ];
          }
    ]
  where
    true_false : some true ≡ some false → ⊥
    true_false g = cc

    true_not_false : true ≡ false → ⊥
    true_not_false g = cc

    same_process :
        {a b : Process} → ◌≡◌ {A = Option (Option Process)} (some (some a)) (some (some b)) → a ≡ b
    same_process g = cc
