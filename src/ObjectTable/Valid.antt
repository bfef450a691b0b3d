-- ===== src/ObjectTable/Valid.antt =====
-- The invariant of the object table, and how it stands to an object that is put in or taken out.
use vertex_os.Base.{ℕ, ◌+◌, ◌≤◌, ◌<◌, ◌≡◌, ◌≢◌, sym, List, [], ◌∷◌, ◌++◌, arith, All, length}
use vertex_os.Object.{KernelObject, object_id, max_objects}
use vertex_os.ObjectTable.Table.{ObjectTable, used}
use vertex_os.ObjectTable.Live.{live, Inserts}

abbrev pub live_objects : ObjectTable → List KernelObject
live_objects t = live (used t)

abbrev pub IdBelow : ℕ → KernelObject → Type 0
IdBelow n object = object_id object < n

abbrev pub IdDiffers : ℕ → KernelObject → Type 0
IdDiffers id object = object_id object ≢ id

abbrev pub Distinct : List KernelObject → Type 0
Distinct [] = Unit
Distinct (o ∷ os) = All (IdDiffers (object_id o)) os × Distinct os

-- The array has its 128 slots, the count is within it, and the live objects have identifiers that
-- differ from one another and lie below the next one.
pub record IsTable (t : ObjectTable) : Type 0 where
  pub slots : length t.objects ≡ max_objects
  pub within : t.count ≤ max_objects
  pub below : All (IdBelow t.next_id) (live_objects t)
  pub distinct : Distinct (live_objects t)

All-put :
    (P : KernelObject → Type 0) (o : KernelObject) (xs ys : List KernelObject)
    → P o
    → All P (xs ++ ys)
    → All P (xs ++ o ∷ ys)
All-put P o [] ys h a = (h, a)
All-put P o (x ∷ xs) ys h a = (a.0, All-put P o xs ys h a.1)

All-take :
    (P : KernelObject → Type 0) (o : KernelObject) (xs ys : List KernelObject)
    → All P (xs ++ o ∷ ys)
    → P o × All P (xs ++ ys)
All-take P o [] ys a = (a.0, a.1)
All-take P o (x ∷ xs) ys a = let (h, b) = All-take P o xs ys a.1 in (h, (a.0, b))

pub All-mono :
    (P Q : KernelObject → Type 0)
    → ((o : KernelObject) → P o → Q o)
    → (xs : List KernelObject) → All P xs
    → All Q xs
All-mono P Q f [] a = tt
All-mono P Q f (x ∷ xs) a = (f x a.0, All-mono P Q f xs a.1)

Distinct-put :
    (o : KernelObject) (xs ys : List KernelObject)
    → All (IdDiffers (object_id o)) (xs ++ ys)
    → Distinct (xs ++ ys)
    → Distinct (xs ++ o ∷ ys)
Distinct-put o [] ys fresh d = (fresh, d)
Distinct-put o (x ∷ xs) ys fresh d = (
  All-put (IdDiffers (object_id x)) o xs ys (λ e. fresh.0 (sym e)) d.0,
  Distinct-put o xs ys fresh.1 d.1,
)

Distinct-take :
    (o : KernelObject) (xs ys : List KernelObject)
    → Distinct (xs ++ o ∷ ys)
    → All (IdDiffers (object_id o)) (xs ++ ys) × Distinct (xs ++ ys)
Distinct-take o [] ys d = (d.0, d.1)
Distinct-take o (x ∷ xs) ys d =
    let (differs, rest) = All-take (IdDiffers (object_id x)) o xs ys d.0 in
    let (fresh, e) = Distinct-take o xs ys d.1 in ((λ p. differs (sym p), fresh), (rest, e))

module _ (o : KernelObject) (without whole : List KernelObject) (i : Inserts o without whole) where
  pub All-Inserts : (P : KernelObject → Type 0) → P o → All P without → All P whole
  All-Inserts P h a = rw i.present (All-put P o i.front i.back h (rw i.absent at a))

  pub All-without : (P : KernelObject → Type 0) → All P whole → P o × All P without
  All-without P a =
      let (h, b) = All-take P o i.front i.back (rw i.present at a) in (h, rw i.absent b)

  pub Distinct-Inserts : All (IdDiffers (object_id o)) without → Distinct without → Distinct whole
  Distinct-Inserts fresh d =
      rw i.present (Distinct-put o i.front i.back (rw i.absent at fresh) (rw i.absent at d))

  pub Distinct-without : Distinct whole → All (IdDiffers (object_id o)) without × Distinct without
  Distinct-without d =
      let (fresh, e) = Distinct-take o i.front i.back (rw i.present at d) in
      (rw i.absent fresh, rw i.absent e)

-- Taking an identifier without placing an object keeps the invariant.
pub IsTable-next : {t : ObjectTable} → IsTable t → IsTable (record t { next_id = t.next_id + 1 })
IsTable-next {t} v = record {
  slots = v.slots;
  within = v.within;
  below =
      All-mono (IdBelow t.next_id) (IdBelow (t.next_id + 1)) (λ o h. omega arith) (live_objects t)
        v.below;
  distinct = v.distinct;
}
