-- ===== src/Base/Search.antt =====
-- What `position` finds: the first entry that passes a test.
use Prim.Native.Nat.{ℕ, zero, suc, ◌<◌}
use mathlib.Core.Path.{◌≡◌, refl, ap}
use mathlib.Core.Logic.{◌⊎◌, inl, inr}
use mathlib.Core.Bool.{Bool, true, false}
use mathlib.Core.List.{List, [], ◌∷◌, ◌++◌}
use mathlib.Core.Option.{none, some}
use native.Mathlib.Omega.{arith}
use vertex_os.Base.Tests.{Bool-cases, is_some}
use vertex_os.Base.Lists.{length, get_elem?, take, position, any}

-- The list without its entry at an index.
abbrev pub erase_at {ℓ} : {A : Type ℓ} → ℕ → List A → List A
erase_at i [] = []
erase_at zero (x ∷ xs) = xs
erase_at (suc i) (x ∷ xs) = x ∷ erase_at i xs

abbrev pub Fails {ℓ} : {A : Type ℓ} → (A → Bool) → List A → Type 0
Fails test [] = Unit
Fails test (x ∷ xs) = (test x ≡ false) × Fails test xs

-- The entry at `index` passes the test, and none before it does.
pub record Found {ℓ} {A : Type ℓ} (test : A → Bool) (xs : List A) (index : ℕ) : Type ℓ where
  pub before : List A
  pub item : A
  pub after : List A
  pub whole : xs ≡ before ++ item ∷ after
  pub rest : erase_at index xs ≡ before ++ after
  pub here : get_elem? xs index ≡ some item
  pub inside : index < length xs
  pub passes : test item ≡ true
  pub first : Fails test before

module _ {ℓ} {A : Type ℓ} (test : A → Bool) where
  Found-cons :
      (x : A) (xs : List A) (i : ℕ) → test x ≡ false → Found test xs i → Found test (x ∷ xs) (suc i)
  Found-cons x xs i miss f = record {
    before = x ∷ f.before;
    item = f.item;
    after = f.after;
    whole = ap (◌∷◌ x) f.whole;
    rest = ap (◌∷◌ x) f.rest;
    here = f.here;
    inside = omega (arith, f.inside);
    passes = f.passes;
    first = (miss, f.first);
  }

  pub position-cases :
      (xs : List A)
      → ((position test xs ≡ none) × Fails test xs)
        ⊎ ((i : ℕ) × (position test xs ≡ some i) × Found test xs i)
  position-cases [] = inl (refl, tt)
  position-cases (x ∷ xs) = elim (Bool-cases (test x)) [
    | inl hit ↦ inr (
      0,
      rw hit,
      record {
        before = [];
        item = x;
        after = xs;
        whole = refl;
        rest = refl;
        here = refl;
        inside = omega arith;
        passes = hit;
        first = tt;
      },
    )
    | inr miss ↦ elim (position-cases xs) [
      | inl (e, fails) ↦ inl (rw (miss, e), (miss, fails))
      | inr (i, e, f) ↦ inr (suc i, rw (miss, e), Found-cons x xs i miss f)
    ]
  ]

  pub is_some-position : (xs : List A) → is_some (position test xs) ≡ any test xs
  is_some-position [] = refl
  is_some-position (x ∷ xs) = ground (arith, is_some-position xs)

pub get_elem?-take {ℓ} :
    {A : Type ℓ} (n : ℕ) (xs : List A) (i : ℕ) {x : A}
    → get_elem? (take n xs) i ≡ some x
    → get_elem? xs i ≡ some x
get_elem?-take zero xs i h = cc
get_elem?-take (suc n) [] i h = cc
get_elem?-take (suc n) (x ∷ xs) zero h = h
get_elem?-take (suc n) (x ∷ xs) (suc i) h = get_elem?-take n xs i h
