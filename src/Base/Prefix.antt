-- ===== src/Base/Prefix.antt =====
-- Properties of every entry of a prefix of an array.
use Prim.Native.Nat.{ℕ, zero, suc, ◌+◌, ◌<◌}
use mathlib.Core.Path.{◌≡◌, ap, subst, sym, ◌∙◌}
use mathlib.Core.List.{List, [], ◌∷◌, ◌++◌}
use mathlib.Core.Option.{some}
use native.Mathlib.Omega.{arith}
use vertex_os.Base.Lists.{length, get_elem?, set, take, All, take-set_end}

module _ {ℓ κ} {A : Type ℓ} (P : A → Type κ) where
  pub All-take_get :
      (xs : List A) (n i : ℕ) (x : A) → All P (take n xs) → i < n → get_elem? xs i ≡ some x → P x
  All-take_get xs zero i x all h e = absurd (omega arith)
  All-take_get [] (suc n) i x all h e = cc
  All-take_get (y ∷ xs) (suc n) zero x (here, rest) h e = subst P (entry e) here
    where
      entry : {a b : A} → some a ≡ some b → a ≡ b
      entry f = cc
  All-take_get (y ∷ xs) (suc n) (suc i) x (here, rest) h e =
      All-take_get xs n i x rest (omega arith) e

  pub All-take-set :
      (xs : List A) (n i : ℕ) (v : A) → All P (take n xs) → P v → All P (take n (set xs i v))
  All-take-set xs zero i v all p = tt
  All-take-set [] (suc n) i v all p = tt
  All-take-set (y ∷ xs) (suc n) zero v (here, rest) p = (p, rest)
  All-take-set (y ∷ xs) (suc n) (suc i) v (here, rest) p = (here, All-take-set xs n i v rest p)

  pub All-append : (xs ys : List A) → All P xs → All P ys → All P (xs ++ ys)
  All-append [] ys hx hy = hy
  All-append (x ∷ xs) ys (here, rest) hy = (here, All-append xs ys rest hy)

  pub All-take_push :
      (xs : List A) (n : ℕ) (v : A)
      → n < length xs
      → All P (take n xs)
      → P v
      → All P (take (n + 1) (set xs n v))
  All-take_push xs n v h all p =
      let next : n + 1 ≡ suc n = omega arith in
      subst (All P) (sym (ap (λ (k : ℕ). take k (set xs n v)) next ∙ take-set_end xs n v h))
        (All-append (take n xs) (v ∷ []) all (p, tt))
