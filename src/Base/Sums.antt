-- ===== src/Base/Sums.antt =====
-- Weights of the entries of a list, added up: how writes into a prefix of an array change the sum.
use Prim.Native.Nat.{ℕ, zero, suc, ◌+◌, ◌-◌, ◌≤◌, ◌<◌}
use mathlib.Core.Path.{◌≡◌, refl, sym, ap, ◌∙◌}
use mathlib.Core.List.{List, [], ◌∷◌, ◌++◌}
use mathlib.Core.Option.{some}
use mathlib.Core.Logic.{inl, inr}
use native.Mathlib.Omega.{arith}
use vertex_os.Base.Tests.{ltb, ltb→lt, Bool-cases}
use vertex_os.Base.Lists.{length, get_elem?, set, take, take-set_end}

abbrev pub sum {ℓ} : {A : Type ℓ} → (A → ℕ) → List A → ℕ
sum w [] = 0
sum w (x ∷ xs) = w x + sum w xs

module _ {ℓ} {A : Type ℓ} where
  -- A write behind a prefix leaves it.
  pub take-set_beyond : (xs : List A) (n i : ℕ) (v : A) → n ≤ i → take n (set xs i v) ≡ take n xs
  take-set_beyond xs zero i v h = refl
  take-set_beyond [] (suc n) i v h = refl
  take-set_beyond (x ∷ xs) (suc n) zero v h = absurd (omega arith)
  take-set_beyond (x ∷ xs) (suc n) (suc i) v h = ap (◌∷◌ x) (take-set_beyond xs n i v (omega arith))

module _ {ℓ} {A : Type ℓ} (w : A → ℕ) where
  pub sum-append : (xs ys : List A) → sum w (xs ++ ys) ≡ sum w xs + sum w ys
  sum-append [] ys = omega arith
  sum-append (x ∷ xs) ys = omega (arith, sum-append xs ys)

  -- One more entry in the prefix.
  pub sum-take-suc :
      (xs : List A) (n : ℕ) (x : A)
      → get_elem? xs n ≡ some x
      → sum w (take (suc n) xs) ≡ sum w (take n xs) + w x
  sum-take-suc [] n x h = cc
  sum-take-suc (y ∷ xs) zero x h = let same : w y ≡ w x = ap w (entry h) in omega (arith, same)
    where
      entry : {a b : A} → some a ≡ some b → a ≡ b
      entry e = cc
  sum-take-suc (y ∷ xs) (suc n) x h = omega (arith, sum-take-suc xs n x h)

  -- A write into the prefix exchanges one weight.
  pub sum-take-set :
      (xs : List A) (n i : ℕ) (x v : A)
      → i < n
      → get_elem? xs i ≡ some x
      → sum w (take n (set xs i v)) + w x ≡ sum w (take n xs) + w v
  sum-take-set xs zero i x v h e = absurd (omega arith)
  sum-take-set [] (suc n) i x v h e = cc
  sum-take-set (y ∷ xs) (suc n) zero x v h e =
      let same : w y ≡ w x = ap w (entry e) in omega (arith, same)
    where
      entry : {a b : A} → some a ≡ some b → a ≡ b
      entry f = cc
  sum-take-set (y ∷ xs) (suc n) (suc i) x v h e =
      omega (arith, sum-take-set xs n i x v (omega arith) e)

  -- A write one past the prefix, which then covers it.
  pub sum-take_push :
      (xs : List A) (n : ℕ) (v : A)
      → n < length xs
      → sum w (take (n + 1) (set xs n v)) ≡ sum w (take n xs) + w v
  sum-take_push xs n v h =
      let next : n + 1 ≡ suc n = omega arith in
      let whole : sum w (take (n + 1) (set xs n v)) ≡ sum w (take n xs ++ v ∷ []) =
        ap (λ (k : ℕ). sum w (take k (set xs n v))) next ∙ ap (sum w) (take-set_end xs n v h) in
      omega (arith, whole, sum-append (take n xs) (v ∷ []))

  -- The entry at an index leaves the prefix: the last one takes its place.
  pub sum-take_remove :
      (xs : List A) (n i : ℕ) (x last blank : A)
      → i < n
      → get_elem? xs i ≡ some x
      → get_elem? xs (n - 1) ≡ some last
      → sum w (take (n - 1) (set (set xs i last) (n - 1) blank)) + w x ≡ sum w (take n xs)
  sum-take_remove xs zero i x last blank h e f = absurd (omega arith)
  sum-take_remove xs (suc n) i x last blank h e f =
      let before : suc n - 1 ≡ n = omega arith in
      let end_is : get_elem? xs n ≡ some last = ap (get_elem? xs) (sym before) ∙ f in
      let whole : sum w (take (suc n) xs) ≡ sum w (take n xs) + w last =
        sum-take-suc xs n last end_is in
      let prefix : sum w (take (suc n - 1) (set (set xs i last) (suc n - 1) blank))
          ≡ sum w (take n (set xs i last)) =
        ap (λ (k : ℕ). sum w (take k (set (set xs i last) k blank))) before
        ∙ ap (sum w) (take-set_beyond (set xs i last) n n blank (omega arith)) in
      elim (Bool-cases (ltb i n)) [
        | inl e' ↦
            let inside : i < n = ltb→lt i n e' in
            omega (arith, whole, prefix, sum-take-set xs n i x last inside e)
        | inr e' ↦
            let at_end : i ≡ n = ground arith in
            let same : w x ≡ w last = ap w (entry (sym e ∙ (ap (get_elem? xs) at_end ∙ end_is))) in
            let kept : sum w (take n (set xs i last)) ≡ sum w (take n xs) =
              ap (sum w) (take-set_beyond xs n i last (omega arith)) in
            omega (arith, whole, prefix, kept, same)
      ]
    where
      entry : {a b : A} → some a ≡ some b → a ≡ b
      entry g = cc
