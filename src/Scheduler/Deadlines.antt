-- ===== src/Scheduler/Deadlines.antt =====
-- The deadline that the scheduler waits for: next_deadline_tsc of kernel/krust/src/ipc/scheduler.rs.
use vertex_os.Base.{
  ℕ, suc, zero, ◌+◌, ◌-◌, ◌%◌, ◌^◌, ◌≤◌, ◌<◌, ◌≡◌, ◌∙◌, refl, sym, ap, subst, inl, inr, ◌⊎◌, true,
  false, Option, none, some, List, [], ◌∷◌, All, ltb, Option-cases, Bool-cases, get_elem?, arith,
}
use native.Mathlib.Nat.{mod-eq_of_lt, add-mod_right}
use vertex_os.Process.{Process, ProcessTable, live}
use vertex_os.Scheduler.{
  deadline_of, deadline_before, earlier, earliest_deadline, next_deadline_tsc,
}

-- The slot holds a process that waits for the deadline.
pub record WaitsUntil (deadline : ℕ) (slot : Option Process) : Type 0 where
  pub process : Process
  pub here : slot ≡ some process
  pub waits : deadline_of process.state ≡ some deadline

-- Deadlines that lie in one half of the words, so that their wrapped distances are their order.
abbrev pub InWindow : ℕ → ℕ → Type 0
InWindow base deadline = (base ≤ deadline) × (deadline < base + 2 ^ 63) × (deadline < 2 ^ 64)

abbrev pub SlotInWindow : ℕ → Option Process → Type 0
SlotInWindow base slot = (deadline : ℕ) → WaitsUntil deadline slot → InWindow base deadline

deadline_before_cases :
    (base a b : ℕ)
    → InWindow base a
    → InWindow base b
    → ((deadline_before a b ≡ true) × (a < b)) ⊎ ((deadline_before a b ≡ false) × (b ≤ a))
unfolding deadline_before
deadline_before_cases base a b (a_low, a_high, a_word) (b_low, b_high, b_word) =
    elim (Bool-cases (ltb a b)) [
      | inl less ↦
          let small : (a + (2 ^ 64 - b)) % 2 ^ 64 ≡ a + (2 ^ 64 - b) =
            mod-eq_of_lt (ground (arith, less)) in
          inl (rw small (ground (arith, less)), ground (arith, less))
      | inr least ↦
          let whole : a + (2 ^ 64 - b) ≡ (a - b) + 2 ^ 64 = ground (arith, least) in
          let small : (a + (2 ^ 64 - b)) % 2 ^ 64 ≡ a - b =
            ap (λ (n : ℕ). n % 2 ^ 64) whole
            ∙ (add-mod_right (a - b) (2 ^ 64) ∙ mod-eq_of_lt (omega arith)) in
          inr (rw small (ground (arith, least)), ground (arith, least))
    ]

abbrev Windowed : ℕ → Option ℕ → Type 0
Windowed base next = (deadline : ℕ) → next ≡ some deadline → InWindow base deadline

-- What `earlier` returns.
record Least (next : Option ℕ) (deadline least : ℕ) : Type 0 where
  is : earlier next deadline ≡ some least
  origin : (least ≡ deadline) ⊎ (next ≡ some least)
  below : least ≤ deadline
  below_next : (other : ℕ) → next ≡ some other → least ≤ other

same_number : {a b : ℕ} → some a ≡ some b → a ≡ b
same_number e = cc

earlier-Least :
    (base : ℕ) (next : Option ℕ) (deadline : ℕ)
    → Windowed base next
    → InWindow base deadline
    → (least : ℕ) × Least next deadline least
unfolding earlier
earlier-Least base none deadline w v = (
  deadline,
  record { is = refl; origin = inl refl; below = omega arith; below_next = λ other e. cc },
)
earlier-Least base (some current) deadline w v =
    elim (deadline_before_cases base deadline current v (w current refl)) [
      | inl (e, less) ↦ (
        deadline,
        record {
          is = rw (e, earlier) refl;
          origin = inl refl;
          below = omega arith;
          below_next = λ other f. omega (arith, less, same_number f);
        },
      )
      | inr (e, least) ↦ (
        current,
        record {
          is = rw (e, earlier) refl;
          origin = inr refl;
          below = least;
          below_next = λ other f. omega (arith, same_number f);
        },
      )
    ]

-- A slot of the list holds a process that waits for the deadline.
pub record Waiting (deadline : ℕ) (slots : List (Option Process)) : Type 0 where
  pub index : ℕ
  pub slot : Option Process
  pub at : get_elem? slots index ≡ some slot
  pub waits : WaitsUntil deadline slot

-- What the loop returns.
data EarliestCase (slots : List (Option Process)) (next : Option ℕ) : Option ℕ → Type 0 where
  nothing : next ≡ none → ((d : ℕ) → Waiting d slots → ⊥) → EarliestCase slots next none
  found :
      (least : ℕ)
      → Waiting least slots ⊎ (next ≡ some least)
      → ((other : ℕ) → next ≡ some other → least ≤ other)
      → ((d : ℕ) → Waiting d slots → least ≤ d)
      → EarliestCase slots next (some least)

Waiting-later :
    (x : Option Process) (slots : List (Option Process)) (d : ℕ)
    → Waiting d slots
    → Waiting d (x ∷ slots)
Waiting-later x slots d w = record {
  index = suc w.index;
  slot = w.slot;
  at = w.at;
  waits = w.waits;
}

Waiting-cons :
    (x : Option Process) (slots : List (Option Process)) (d : ℕ)
    → Waiting d (x ∷ slots)
    → WaitsUntil d x ⊎ Waiting d slots
Waiting-cons x slots d w = go w.index w.at
  where
    slot_of : {a b : Option Process} → ◌≡◌ {A = Option (Option Process)} (some a) (some b) → b ≡ a
    slot_of e = cc

    go : (i : ℕ) → get_elem? (x ∷ slots) i ≡ some w.slot → WaitsUntil d x ⊎ Waiting d slots
    go zero e = inl (subst (WaitsUntil d) (slot_of e) w.waits)
    go (suc i) e = inr (record { index = i; slot = w.slot; at = e; waits = w.waits })

-- A slot without a deadline, before the others.
skip :
    (x : Option Process) (slots : List (Option Process)) (next r : Option ℕ)
    → ((d : ℕ) → WaitsUntil d x → ⊥)
    → EarliestCase slots next r
    → EarliestCase (x ∷ slots) next r
skip x slots next r idle (nothing e none_waits) =
    nothing e (λ d w. elim (Waiting-cons x slots d w) [ inl h ↦ idle d h | inr t ↦ none_waits d t ])
skip x slots next r idle (found least origin below all) =
    found least (elim origin [ inl w ↦ inl (Waiting-later x slots least w) | inr e ↦ inr e ]) below
      (λ d w. elim (Waiting-cons x slots d w) [ inl h ↦ absurd (idle d h) | inr t ↦ all d t ])

-- A slot with a deadline, before the others.
entered :
    (p : Process) (slots : List (Option Process)) (next r : Option ℕ) (deadline least : ℕ)
    → deadline_of p.state ≡ some deadline
    → Least next deadline least
    → EarliestCase slots (some least) r
    → EarliestCase (some p ∷ slots) next r
entered p slots next r deadline least e l (nothing f _) = cc
entered p slots next r deadline least e l (found first origin below all) =
    found first came before each
  where
    under : first ≤ least
    under = below least refl

    came : Waiting first (some p ∷ slots) ⊎ (next ≡ some first)
    came = elim origin [
      | inl w ↦ inl (Waiting-later (some p) slots first w)
      | inr f ↦ elim l.origin [
        | inl g ↦ inl (record {
          index = 0;
          slot = some p;
          at = refl;
          waits = record { process = p; here = refl; waits = e ∙ ap some (sym g ∙ same_number f) };
        })
        | inr g ↦ inr (g ∙ f)
      ]
    ]

    before : (other : ℕ) → next ≡ some other → first ≤ other
    before other f = omega (arith, under, l.below_next other f)

    own : {a : Process} → ◌≡◌ {A = Option Process} (some p) (some a) → p ≡ a
    own f = cc

    each : (d : ℕ) → Waiting d (some p ∷ slots) → first ≤ d
    each d w = elim (Waiting-cons (some p) slots d w) [
      | inl h ↦
          let same : deadline ≡ d =
            same_number
              (sym e ∙ (ap (λ (q : Process). deadline_of q.state) (own h.here) ∙ h.waits)) in
          omega (arith, under, l.below, same)
      | inr t ↦ all d t
    ]

Least-InWindow :
    (base : ℕ) (next : Option ℕ) (deadline least : ℕ)
    → Windowed base next
    → InWindow base deadline
    → Least next deadline least
    → InWindow base least
Least-InWindow base next deadline least w v l = elim l.origin [
  | inl e ↦ subst (InWindow base) (sym e) v
  | inr e ↦ w least e
]

earliest_deadline-EarliestCase :
    (base : ℕ) (slots : List (Option Process)) (next : Option ℕ)
    → Windowed base next
    → All (SlotInWindow base) slots
    → EarliestCase slots next (earliest_deadline slots next)
unfolding earliest_deadline
earliest_deadline-EarliestCase base [] none w _ = nothing refl (λ d v. absurd (no_slot v.at))
  where
    no_slot : {slot : Option Process} → ◌≡◌ {A = Option (Option Process)} none (some slot) → ⊥
    no_slot e = cc
earliest_deadline-EarliestCase base [] (some d) w _ =
    found d (inr refl) (λ other e. omega (arith, same_number e)) (λ d v. absurd (no_slot v.at))
  where
    no_slot : {slot : Option Process} → ◌≡◌ {A = Option (Option Process)} none (some slot) → ⊥
    no_slot e = cc
earliest_deadline-EarliestCase base (none ∷ slots) next w (_, v) =
    skip none slots next _ (λ d u. absurd (vacant u.here))
      (earliest_deadline-EarliestCase base slots next w v)
  where
    vacant : {p : Process} → ◌≡◌ {A = Option Process} none (some p) → ⊥
    vacant e = cc
earliest_deadline-EarliestCase base (some p ∷ slots) next w (here, v) =
    elim (Option-cases (deadline_of p.state)) [
      | inl e ↦
          rw (e, earliest_deadline)
            (skip (some p) slots next _ (λ d u. absurd (idle e u.here u.waits))
              (earliest_deadline-EarliestCase base slots next w v))
      | inr (deadline, e) ↦
          let inside = here deadline (record { process = p; here = refl; waits = e }) in
          let (least, l) = earlier-Least base next deadline w inside in
          let after : Windowed base (some least) = λ other f.
            subst (InWindow base) (same_number f)
              (Least-InWindow base next deadline least w inside l) in
          rw (e, l.is, earliest_deadline)
            (entered p slots next _ deadline least e l
              (earliest_deadline-EarliestCase base slots (some least) after v))
    ]
  where
    idle :
        {q : Process} {d : ℕ}
        → deadline_of p.state ≡ none
        → ◌≡◌ {A = Option Process} (some p) (some q)
        → deadline_of q.state ≡ some d
        → ⊥
    idle e f g = cc

-- What the scheduler waits for: the first of the deadlines, or none where no process waits for one.
pub data NextDeadline (t : ProcessTable) : Option ℕ → Type 0 where
  no_deadline : ((d : ℕ) → Waiting d (live t) → ⊥) → NextDeadline t none
  first_deadline :
      (first : ℕ)
      → Waiting first (live t)
      → ((d : ℕ) → Waiting d (live t) → first ≤ d)
      → NextDeadline t (some first)

-- Where the deadlines of the live processes are words that lie within 2^63 above some base, the
-- scheduler finds none if no process waits for a deadline, and else the deadline of a process
-- that none lies below.
pub next_deadline_tsc-NextDeadline :
    (base : ℕ) (t : ProcessTable)
    → All (SlotInWindow base) (live t)
    → NextDeadline t (next_deadline_tsc t)
unfolding next_deadline_tsc
next_deadline_tsc-NextDeadline base t v =
    go _ (earliest_deadline-EarliestCase base (live t) none (λ d e. absurd (none_some e)) v)
  where
    none_some : {d : ℕ} → none ≡ some d → ⊥
    none_some e = cc

    go : (r : Option ℕ) → EarliestCase (live t) none r → NextDeadline t r
    go r (nothing _ none_waits) = no_deadline none_waits
    go r (found first origin _ all) =
        first_deadline first (elim origin [ inl w ↦ w | inr e ↦ absurd (none_some e) ]) all
