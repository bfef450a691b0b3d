-- ===== src/ObjectTable/Owned.antt =====
-- `remove_owned_endpoints` of object_table.rs: exactly the endpoints of one process leave the table.
use vertex_os.Base.{
  ℕ, zero, suc, ◌+◌, ◌≡◌, refl, ap, ◌∙◌, inl, inr, Bool, not, none, some, Option, List, [], ◌∷◌,
  arith, length, take, All, keep, Bool-cases,
}
use vertex_os.Ids.{ProcessId}
use vertex_os.Object.{KernelObject, object_id}
use vertex_os.ObjectTable.Table.{ObjectTable}
use vertex_os.ObjectTable.Remove.{clear_owned, owned_by, remove_owned_endpoints, trim_empty_tail}
use vertex_os.ObjectTable.Live.{live}
use vertex_os.ObjectTable.Valid.{live_objects, IdBelow, IdDiffers, Distinct, IsTable}
use vertex_os.ObjectTable.Removed.{live-trimmed, trimmed_count-le}

abbrev pub is_not_owned : ProcessId → KernelObject → Bool
is_not_owned owner o = not (owned_by owner (some o))

module _ (owner : ProcessId) where
  live-clear_owned :
      (n : ℕ) (slots : List (Option KernelObject))
      → live (take n (clear_owned owner n slots).1)
        ≡ keep (is_not_owned owner) (live (take n slots))
  unfolding clear_owned
  live-clear_owned zero slots = refl
  live-clear_owned (suc n) [] = refl
  live-clear_owned (suc n) (none ∷ slots) = live-clear_owned n slots
  live-clear_owned (suc n) (some o ∷ slots) = elim (Bool-cases (owned_by owner (some o))) [
    | inl its_own ↦ rw (its_own, keep) (live-clear_owned n slots)
    | inr other ↦ rw (other, keep) (ap (◌∷◌ o) (live-clear_owned n slots))
  ]

  length-clear_owned :
      (n : ℕ) (slots : List (Option KernelObject))
      → length (clear_owned owner n slots).1 ≡ length slots
  unfolding clear_owned
  length-clear_owned zero slots = refl
  length-clear_owned (suc n) [] = refl
  length-clear_owned (suc n) (slot ∷ slots) = ground (arith, length-clear_owned n slots)

  counted-clear_owned :
      (n : ℕ) (slots : List (Option KernelObject))
      → (clear_owned owner n slots).0 + length (keep (is_not_owned owner) (live (take n slots)))
        ≡ length (live (take n slots))
  unfolding clear_owned
  counted-clear_owned zero slots = omega arith
  counted-clear_owned (suc n) [] = omega arith
  counted-clear_owned (suc n) (none ∷ slots) = counted-clear_owned n slots
  counted-clear_owned (suc n) (some o ∷ slots) = elim (Bool-cases (owned_by owner (some o))) [
    | inl its_own ↦ rw (its_own, keep) (omega (arith, counted-clear_owned n slots))
    | inr other ↦ rw (other, keep) (omega (arith, counted-clear_owned n slots))
  ]

All-keep :
    (P : KernelObject → Type 0) (test : KernelObject → Bool) (xs : List KernelObject)
    → All P xs
    → All P (keep test xs)
All-keep P test [] a = tt
All-keep P test (x ∷ xs) a = elim (Bool-cases (test x)) [
  | inl stays ↦ rw (stays, keep) (a.0, All-keep P test xs a.1)
  | inr leaves ↦ rw (leaves, keep) (All-keep P test xs a.1)
]

Distinct-keep :
    (test : KernelObject → Bool) (xs : List KernelObject) → Distinct xs → Distinct (keep test xs)
Distinct-keep test [] d = tt
Distinct-keep test (x ∷ xs) d = elim (Bool-cases (test x)) [
  | inl stays ↦
      rw (stays, keep) (All-keep (IdDiffers (object_id x)) test xs d.0, Distinct-keep test xs d.1)
  | inr leaves ↦ rw (leaves, keep) (Distinct-keep test xs d.1)
]

pub remove_owned_endpoints-keeps :
    (owner : ProcessId) (t : ObjectTable)
    → IsTable t
    → let (removed, t') = remove_owned_endpoints owner t in
      IsTable t'
      × (live_objects t' ≡ keep (is_not_owned owner) (live_objects t))
      × (removed + length (live_objects t') ≡ length (live_objects t))
unfolding remove_owned_endpoints trim_empty_tail
remove_owned_endpoints-keeps owner t v = (
  record {
    slots = length-clear_owned owner t.count t.objects ∙ v.slots;
    within = omega (arith, trimmed_count-le cleared t.count, v.within);
    below = rw kept (All-keep (IdBelow t.next_id) (is_not_owned owner) (live_objects t) v.below);
    distinct = rw kept (Distinct-keep (is_not_owned owner) (live_objects t) v.distinct);
  },
  kept,
  omega (arith, ap (length {A = KernelObject}) kept, counted-clear_owned owner t.count t.objects),
)
  where
    cleared : List (Option KernelObject)
    cleared = (clear_owned owner t.count t.objects).1

    kept :
        live_objects (remove_owned_endpoints owner t).1 ≡ keep (is_not_owned owner) (live_objects t)
    kept = live-trimmed cleared t.count ∙ live-clear_owned owner t.count t.objects
