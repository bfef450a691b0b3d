-- ===== src/Base/Bits.antt =====
-- Laws of `bit_and` and `bit_or`, for masks of any width.
use Prim.Native.Nat.{
  ℕ, zero, suc, ◌+◌, ◌-◌, ◌*◌, ◌/◌, ◌%◌, ◌≤◌, ◌<◌, min, max, bit_and, bit_or, digits,
  bit_and-bitwise, bit_or-bitwise,
}
use mathlib.Core.Path.{◌≡◌, refl, ap}
use native.Mathlib.Omega.{arith}

-- 2 ^ w - 1: the mask of all bits of a word of width w.
abbrev pub ones : ℕ → ℕ
ones zero = 0
ones (suc w) = ones w * 2 + 1

-- Both operations are the recursion `digits` over the halves of the first word, and its fuel matters
-- only while the word lasts.
module _ (ended : ℕ → ℕ) (joined : ℕ → ℕ → ℕ) where
  any_fuel :
      (low high word other : ℕ)
      → word ≤ low
      → low ≤ high
      → digits ended joined high word other ≡ digits ended joined low word other
  any_fuel zero zero word other fits order = refl
  any_fuel zero (suc high) zero other fits order = refl
  any_fuel zero (suc high) (suc word) other fits order = absurd (omega arith)
  any_fuel (suc low) zero word other fits order = absurd (omega arith)
  any_fuel (suc low) (suc high) zero other fits order = refl
  any_fuel (suc low) (suc high) (suc word) other fits order =
      ap (λ (upper : ℕ). upper * 2 + joined (suc word % 2) (other % 2))
        (any_fuel low high (suc word / 2) (other / 2) (omega arith) (omega arith))

  -- One digit of a word that is not zero, the rest at its own fuel.
  one_digit :
      (word other : ℕ)
      → digits ended joined (suc word) (suc word) other
        ≡ digits ended joined (suc word / 2) (suc word / 2) (other / 2) * 2
          + joined (suc word % 2) (other % 2)
  one_digit word other =
      ap (λ (upper : ℕ). upper * 2 + joined (suc word % 2) (other % 2))
        (any_fuel (suc word / 2) word (suc word / 2) (other / 2) (omega arith) (omega arith))

pub zero-bit_and : (other : ℕ) → bit_and 0 other ≡ 0
zero-bit_and other = bit_and-bitwise 0 other

zero-bit_or : (other : ℕ) → bit_or 0 other ≡ other
zero-bit_or other = bit_or-bitwise 0 other

-- The lowest digit, and the rest.
pub bit_and_halves : (a b : ℕ) → bit_and a b ≡ bit_and (a / 2) (b / 2) * 2 + min (a % 2) (b % 2)
bit_and_halves zero other = omega (arith, zero-bit_and other, zero-bit_and (other / 2))
bit_and_halves (suc word) other =
    let whole = bit_and-bitwise (suc word) other in
    let upper = bit_and-bitwise (suc word / 2) (other / 2) in
    omega (arith, whole, upper, one_digit (λ b. zero) min word other)

bit_or_halves : (a b : ℕ) → bit_or a b ≡ bit_or (a / 2) (b / 2) * 2 + max (a % 2) (b % 2)
bit_or_halves zero other = omega (arith, zero-bit_or other, zero-bit_or (other / 2))
bit_or_halves (suc word) other =
    let whole = bit_or-bitwise (suc word) other in
    let upper = bit_or-bitwise (suc word / 2) (other / 2) in
    omega (arith, whole, upper, one_digit (λ b. b) max word other)

-- Where a mask of width w has no bit outside p, what the mask contains p contains.
pub mask_subset :
    (w m p r : ℕ)
    → m ≤ ones w
    → p ≤ ones w
    → r ≤ ones w
    → bit_and m (ones w - p) ≡ 0
    → bit_and m r ≡ r
    → bit_and p r ≡ r
mask_subset zero m zero zero hm hp hr none_outside contains = refl
mask_subset zero m zero (suc r) hm hp hr none_outside contains = absurd (omega arith)
mask_subset zero m (suc p) r hm hp hr none_outside contains = absurd (omega arith)
mask_subset (suc w) m p r hm hp hr none_outside contains =
    let outside = bit_and_halves m (ones (suc w) - p) in
    let complement : (ones (suc w) - p) / 2 ≡ ones w - p / 2 = omega arith in
    let inner : bit_and (m / 2) (ones w - p / 2) ≡ 0 =
      omega (arith, outside, ap (bit_and (m / 2)) complement) in
    let contained : bit_and (m / 2) (r / 2) ≡ r / 2 = omega (arith, bit_and_halves m r) in
    omega (
      arith,
      outside,
      bit_and_halves m r,
      bit_and_halves p r,
      mask_subset w (m / 2) (p / 2) (r / 2) (omega arith) (omega arith) (omega arith) inner
          contained,
    )

-- By the number of digits that are left, at most `left`.
nothing_set : (left word : ℕ) → word ≤ left → (bit_or word 0 ≡ word) × (bit_and word 0 ≡ 0)
nothing_set left zero fits = (refl, refl)
nothing_set zero (suc word) fits = absurd (omega arith)
nothing_set (suc left) (suc word) fits =
    let (or_rest, and_rest) = nothing_set left (suc word / 2) (omega arith) in
    (
      omega (arith, bit_or_halves (suc word) 0, or_rest),
      omega (arith, bit_and_halves (suc word) 0, and_rest),
    )

bit_or-zero : (word : ℕ) → bit_or word 0 ≡ word
bit_or-zero word = (nothing_set word word (omega arith)).0

pub bit_and-zero : (word : ℕ) → bit_and word 0 ≡ 0
bit_and-zero word = (nothing_set word word (omega arith)).1

-- A word moved up by k bits.
abbrev doubled : ℕ → ℕ → ℕ
doubled q zero = q
doubled q (suc k) = doubled q k * 2

bit_or-doubled : (k q r : ℕ) → r ≤ ones k → bit_or (doubled q k) r ≡ doubled q k + r
bit_or-doubled zero q zero h = omega (arith, bit_or-zero q)
bit_or-doubled zero q (suc r) h = absurd (omega arith)
bit_or-doubled (suc k) q r h =
    let half : doubled q k * 2 / 2 ≡ doubled q k = omega arith in
    omega (
      arith,
      bit_or_halves (doubled q k * 2) r,
      ap (λ (t : ℕ). bit_or t (r / 2)) half,
      bit_or-doubled k q (r / 2) (omega arith),
    )

-- A byte under a word that was moved up by eight bits.
pub bit_or_byte : (q r : ℕ) → r < 256 → bit_or (q * 256) r ≡ q * 256 + r
bit_or_byte q r h =
    let moved : q * 256 ≡ doubled q 8 = omega arith in
    omega (arith, ap (λ (t : ℕ). bit_or t r) moved, bit_or-doubled 8 q r (omega arith))

bit_and_nibble : (x : ℕ) → bit_and x 15 ≡ x % 16
bit_and_nibble x = omega (
  arith,
  bit_and_halves x 15,
  bit_and_halves (x / 2) 7,
  bit_and_halves (x / 2 / 2) 3,
  bit_and_halves (x / 2 / 2 / 2) 1,
  bit_and-zero (x / 2 / 2 / 2 / 2),
)

-- The byte at the bottom of a word is its remainder.
pub bit_and_byte : (x : ℕ) → bit_and x 255 ≡ x % 256
bit_and_byte x = omega (
  arith,
  bit_and_halves x 255,
  bit_and_halves (x / 2) 127,
  bit_and_halves (x / 2 / 2) 63,
  bit_and_halves (x / 2 / 2 / 2) 31,
  bit_and_nibble (x / 2 / 2 / 2 / 2),
)
