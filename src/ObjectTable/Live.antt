-- ===== src/ObjectTable/Live.antt =====
-- The table as the list of its live objects, in slot order: what placing an object, clearing a slot
-- and dropping the empty tail do to that list.
use vertex_os.Base.{
  ℕ, zero, suc, ◌≡◌, refl, ap, Option, none, some, List, [], ◌∷◌, ◌++◌, set, get_elem?, take,
}

abbrev pub live {ℓ} : {A : Type ℓ} → List (Option A) → List A
live [] = []
live (none ∷ slots) = live slots
live (some a ∷ slots) = a ∷ live slots

-- One list is the other with an entry put in somewhere.
pub record Inserts {ℓ} {A : Type ℓ} (a : A) (without whole : List A) : Type ℓ where
  pub front : List A
  pub back : List A
  pub absent : without ≡ front ++ back
  pub present : whole ≡ front ++ a ∷ back

module _ {ℓ} {A : Type ℓ} where
  pub live-append : (xs ys : List (Option A)) → live (xs ++ ys) ≡ live xs ++ live ys
  live-append [] ys = refl
  live-append (none ∷ xs) ys = live-append xs ys
  live-append (some a ∷ xs) ys = ap (◌∷◌ a) (live-append xs ys)

  Inserts-cons : (a b : A) {xs ys : List A} → Inserts a xs ys → Inserts a (b ∷ xs) (b ∷ ys)
  Inserts-cons a b i = record {
    front = b ∷ i.front;
    back = i.back;
    absent = ap (◌∷◌ b) i.absent;
    present = ap (◌∷◌ b) i.present;
  }

  -- An object that fills an empty slot.
  pub live-fill :
      (a : A) (xs : List (Option A)) (i : ℕ)
      → get_elem? xs i ≡ some none
      → Inserts a (live xs) (live (set xs i (some a)))
  live-fill a [] i h = cc
  live-fill a (none ∷ xs) zero h = record {
    front = [];
    back = live xs;
    absent = refl;
    present = refl;
  }
  live-fill a (some b ∷ xs) zero h = cc
  live-fill a (none ∷ xs) (suc i) h = live-fill a xs i h
  live-fill a (some b ∷ xs) (suc i) h = Inserts-cons a b (live-fill a xs i h)

  -- A slot that is cleared.
  pub live-clear :
      (a : A) (xs : List (Option A)) (i : ℕ)
      → get_elem? xs i ≡ some (some a)
      → Inserts a (live (set xs i none)) (live xs)
  live-clear a [] i h = cc
  live-clear a (none ∷ xs) zero h = cc
  live-clear a (some b ∷ xs) zero h = record {
    front = [];
    back = live xs;
    absent = refl;
    present = ap (λ (c : A). c ∷ live xs) (same b h);
  }
    where
      same : (b : A) → some (some b) ≡ some (some a) → b ≡ a
      same b e = cc
  live-clear a (none ∷ xs) (suc i) h = live-clear a xs i h
  live-clear a (some b ∷ xs) (suc i) h = Inserts-cons a b (live-clear a xs i h)

  -- A search of the slots is a search of the live objects.
  pub take-set :
      (n : ℕ) (xs : List (Option A)) (i : ℕ) (v : Option A)
      → take n (set xs i v) ≡ set (take n xs) i v
  take-set zero xs i v = refl
  take-set (suc n) [] i v = refl
  take-set (suc n) (x ∷ xs) zero v = refl
  take-set (suc n) (x ∷ xs) (suc i) v = ap (◌∷◌ x) (take-set n xs i v)

  -- The slot behind a prefix, where it is empty, adds nothing to the live objects.
  pub live-take_empty :
      (n : ℕ) (xs : List (Option A))
      → get_elem? xs n ≡ some none
      → live (take (suc n) xs) ≡ live (take n xs)
  live-take_empty n [] h = cc
  live-take_empty zero (none ∷ xs) h = refl
  live-take_empty zero (some b ∷ xs) h = cc
  live-take_empty (suc n) (none ∷ xs) h = live-take_empty n xs h
  live-take_empty (suc n) (some b ∷ xs) h = ap (◌∷◌ b) (live-take_empty n xs h)
