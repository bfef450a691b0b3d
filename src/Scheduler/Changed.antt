-- ===== src/Scheduler/Changed.antt =====
-- The loops over the slots of processes: kernel/krust/src/ipc/scheduler.rs.
use vertex_os.Base.{
  ℕ, suc, zero, ◌≤◌, ◌<◌, ◌≡◌, refl, inl, inr, Option, none, some, List, [], ◌∷◌, get_elem?,
  Option-cases, arith,
}
use vertex_os.Process.{Process}
use vertex_os.Scheduler.{change_one, change_slots}

-- What the loop makes of a slot.
abbrev pub changed_slot : (Process → Option Process) → Option Process → Option Process
changed_slot f none = none
changed_slot f (some process) = elim (f process) [
  | none ↦ some process
  | some changed ↦ some changed
]

abbrev pub changed_entry :
    (Process → Option Process) → Option (Option Process) → Option (Option Process)
changed_entry f none = none
changed_entry f (some slot) = some (changed_slot f slot)

module _ (f : Process → Option Process) where
  pub get_elem?-change_slots :
      (n i : ℕ) (slots : List (Option Process))
      → i < n
      → get_elem? (change_slots f n slots).0 i ≡ changed_entry f (get_elem? slots i)
  unfolding change_slots
  get_elem?-change_slots zero i slots h = elim h [ ]
  get_elem?-change_slots (suc n) i [] h = refl
  get_elem?-change_slots (suc n) zero (none ∷ slots) h = refl
  get_elem?-change_slots (suc n) (suc i) (none ∷ slots) h =
      get_elem?-change_slots n i slots (omega arith)
  get_elem?-change_slots (suc n) zero (some process ∷ slots) h = elim (Option-cases (f process)) [
    | inl e ↦ rw (e, change_one, changed_slot) refl
    | inr (_, e) ↦ rw (e, change_one, changed_slot) refl
  ]
  get_elem?-change_slots (suc n) (suc i) (some process ∷ slots) h =
      elim (Option-cases (f process)) [
        | inl e ↦ rw (e, change_one) (get_elem?-change_slots n i slots (omega arith))
        | inr (_, e) ↦ rw (e, change_one) (get_elem?-change_slots n i slots (omega arith))
      ]

  pub get_elem?-change_slots_beyond :
      (n i : ℕ) (slots : List (Option Process))
      → n ≤ i
      → get_elem? (change_slots f n slots).0 i ≡ get_elem? slots i
  unfolding change_slots
  get_elem?-change_slots_beyond zero i slots h = refl
  get_elem?-change_slots_beyond (suc n) i [] h = refl
  get_elem?-change_slots_beyond (suc n) zero (x ∷ slots) h = elim h [ ]
  get_elem?-change_slots_beyond (suc n) (suc i) (none ∷ slots) h =
      get_elem?-change_slots_beyond n i slots (omega arith)
  get_elem?-change_slots_beyond (suc n) (suc i) (some process ∷ slots) h =
      elim (Option-cases (f process)) [
        | inl e ↦ rw (e, change_one) (get_elem?-change_slots_beyond n i slots (omega arith))
        | inr (_, e) ↦ rw (e, change_one) (get_elem?-change_slots_beyond n i slots (omega arith))
      ]

  change_one-twice :
      (n : ℕ) (process : Process) (o : Option Process) (rest : List (Option Process) × ℕ)
      → f process ≡ o
      → ((q : Process) → f process ≡ some q → f q ≡ none)
      → change_slots f n rest.0 ≡ (rest.0, 0)
      → change_slots f (suc n) (change_one o process rest).0 ≡ ((change_one o process rest).0, 0)
  unfolding change_slots change_one
  change_one-twice n process none rest e settles h = rw (e, h, change_one) refl
  change_one-twice n process (some changed) rest e settles h =
      rw (settles changed e, h, change_one) refl

  -- A change that leaves nothing to change is made once.
  pub change_slots-twice :
      (n : ℕ) (slots : List (Option Process))
      → ((p q : Process) → f p ≡ some q → f q ≡ none)
      → change_slots f n (change_slots f n slots).0 ≡ ((change_slots f n slots).0, 0)
  unfolding change_slots
  change_slots-twice zero slots h = refl
  change_slots-twice (suc n) [] h = refl
  change_slots-twice (suc n) (none ∷ slots) h = rw (change_slots-twice n slots h) refl
  change_slots-twice (suc n) (some process ∷ slots) h =
      change_one-twice n process (f process) (change_slots f n slots) refl (h process)
        (change_slots-twice n slots h)
