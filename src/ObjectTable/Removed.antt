-- ===== src/ObjectTable/Removed.antt =====
-- What the removals do to the live objects: a slot is cleared, and the empty slots at the end are
-- dropped, which no live object notices.
use vertex_os.Base.{
  ℕ, zero, suc, ◌-◌, ◌≤◌, ◌≡◌, refl, sym, ap, ◌∙◌, ◌⊎◌, inl, inr, Bool, true, false, Option, none,
  some, List, [], ◌∷◌, arith, length, set, get_elem?, take, length-set, Option-cases,
}
use vertex_os.Base.Search.{Fails, position-cases}
use vertex_os.Object.{KernelObject}
use vertex_os.ObjectTable.Table.{ObjectTable, used}
use vertex_os.ObjectTable.Remove.{trimmed_count, trim_empty_tail, remove_first}
use vertex_os.ObjectTable.Live.{live, Inserts, live-clear, take-set, live-take_empty}
use vertex_os.ObjectTable.Valid.{live_objects, IdBelow, IsTable, All-without, Distinct-without}

pub live-trimmed :
    (objects : List (Option KernelObject)) (n : ℕ)
    → live (take (trimmed_count objects n) objects) ≡ live (take n objects)
unfolding trimmed_count
live-trimmed objects zero = refl
live-trimmed objects (suc n) = elim (Option-cases (get_elem? objects n)) [
  | inl outside ↦ rw (outside, trimmed_count) refl
  | inr (none, e) ↦
      rw (e, trimmed_count) (live-trimmed objects n ∙ sym (live-take_empty n objects e))
  | inr (some o, e) ↦ rw (e, trimmed_count) refl
]

pub trimmed_count-le : (objects : List (Option KernelObject)) (n : ℕ) → trimmed_count objects n ≤ n
unfolding trimmed_count
trimmed_count-le objects zero = omega arith
trimmed_count-le objects (suc n) = ground (arith, trimmed_count-le objects n)

-- For a count within the slots, trimming the empty tail gives 0 or a count whose last slot is live.
trim_empty_tail_ends :
    (objects : List (Option KernelObject)) (n : ℕ)
    → n ≤ length objects
    → (trimmed_count objects n ≡ 0)
      ⊎ ((o : KernelObject) × (get_elem? objects (trimmed_count objects n - 1) ≡ some (some o)))
unfolding trimmed_count
trim_empty_tail_ends objects zero h = inl refl
trim_empty_tail_ends objects (suc n) h = elim (Option-cases (get_elem? objects n)) [
  | inl outside ↦ absurd (inside objects n h outside)
  | inr (none, e) ↦ rw (e, trimmed_count) (trim_empty_tail_ends objects n (omega arith))
  | inr (some o, e) ↦ inr (o, rw (e, trimmed_count) (last n e))
]
  where
    last :
        (m : ℕ) {o : KernelObject}
        → get_elem? objects m ≡ some (some o)
        → get_elem? objects (suc m - 1) ≡ some (some o)
    last m e = let back : suc m - 1 ≡ m = omega arith in rw back e

    inside :
        (xs : List (Option KernelObject)) (m : ℕ) → suc m ≤ length xs → get_elem? xs m ≡ none → ⊥
    inside [] m k e = elim k [ ]
    inside (x ∷ xs) zero k e = cc
    inside (x ∷ xs) (suc m) k e = inside xs m (omega arith) e

-- One object fewer, at least by the slot of the object itself.
pub record Taken (t : ObjectTable) (o : KernelObject) (t' : ObjectTable) : Type 0 where
  pub next : t'.next_id ≡ t.next_id
  pub slots : length t'.objects ≡ length t.objects
  pub within : t'.count ≤ t.count
  pub taken : Inserts o (live_objects t') (live_objects t)

pub Taken-IsTable : {t t' : ObjectTable} {o : KernelObject} → Taken t o t' → IsTable t → IsTable t'
Taken-IsTable {t} {t'} {o} d v =
    let below =
      All-without o (live_objects t') (live_objects t) d.taken (IdBelow t.next_id) v.below in
    let distinct = Distinct-without o (live_objects t') (live_objects t) d.taken v.distinct in
    record {
      slots = d.slots ∙ v.slots;
      within = omega (arith, d.within, v.within);
      below = rw d.next below.1;
      distinct = distinct.1;
    }

some_of_test :
    (test : Option KernelObject → Bool) (slot : Option KernelObject)
    → test none ≡ false
    → test slot ≡ true
    → (o : KernelObject) × (slot ≡ some o)
some_of_test test none quiet h = cc
some_of_test test (some o) quiet h = (o, refl)

-- A removal by a test that empty slots fail either finds no slot in use that passes and changes
-- nothing, or takes out an object that passes: the others stay live in their order, the next
-- identifier and the number of slots stay, and the count does not grow.
pub remove_first-Taken :
    (test : Option KernelObject → Bool) (t : ObjectTable)
    → test none ≡ false
    → ((remove_first test t ≡ (false, t)) × Fails test (used t))
      ⊎ ((o : KernelObject) × ((remove_first test t).0 ≡ true)
          × (test (some o) ≡ true)
          × Taken t o (remove_first test t).1)
unfolding remove_first trim_empty_tail
remove_first-Taken test t quiet = elim (position-cases test (used t)) [
  | inl (missing, fails) ↦ inl (rw (missing, remove_first) refl, fails)
  | inr (i, found, f) ↦
      let (o, is_o) = some_of_test test f.item quiet f.passes in
      inr (
        o,
        rw (found, remove_first) refl,
        rw is_o at f.passes,
        rw (found, remove_first) (cleared i o (f.here ∙ ap some is_o)),
      )
]
  where
    cleared :
        (i : ℕ) (o : KernelObject)
        → get_elem? (used t) i ≡ some (some o)
        → Taken t o (trim_empty_tail (record t { objects = set t.objects i none }))
    cleared i o here = record {
      next = refl;
      slots = length-set t.objects i none;
      within = trimmed_count-le (set t.objects i none) t.count;
      taken =
          rw
            (live-trimmed (set t.objects i none) t.count
              ∙ ap live (take-set t.count t.objects i none))
            (live-clear o (used t) i here);
    }
