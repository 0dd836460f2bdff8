-- ===== src/Prelude/Bits.antt =====
-- `|` and `&` of machine words as arithmetic: a shifted field joined to a low one is their sum, and
-- a mask of ones is a remainder.
use Prim.Native.Nat.{
  ℕ, zero, suc, ◌+◌, ◌-◌, ◌*◌, ◌/◌, ◌%◌, ◌^◌, ◌≤◌, ◌<◌, min, max, bit_and, bit_or, digits,
  bit_and-bitwise, bit_or-bitwise,
}
use mathlib.Core.Path.{◌≡◌, ◌∙◌, refl, ap}
use native.Mathlib.Nat.{pow-suc}
use native.Mathlib.Omega.{arith}

-- More fuel than the first word changes nothing in the recursion on binary digits.
module _ (tail : ℕ → ℕ) (join : ℕ → ℕ → ℕ) where
  one_more : (k x y : ℕ) → x ≤ k → digits tail join (suc k) x y ≡ digits tail join k x y
  one_more zero zero y h = refl
  one_more (suc k) zero y h = refl
  one_more zero (suc x) y h = absurd (omega arith)
  one_more (suc k) (suc x) y h =
      let half = one_more k (suc x / 2) (y / 2) (omega arith) in omega (arith, half)

  any_more : (d k l x y : ℕ) → l ≡ d + k → x ≤ k → digits tail join l x y ≡ digits tail join k x y
  any_more zero k l x y e h = ap (λ f. digits tail join f x y) (omega arith)
  any_more (suc d) k l x y e h =
      ap (λ f. digits tail join f x y) (suc_of e)
      ∙ one_more (d + k) x y (omega arith)
      ∙ any_more d k (d + k) x y refl h
    where
      suc_of : l ≡ suc d + k → l ≡ suc (d + k)
      suc_of e = omega arith

  lowest_digit :
      (x y : ℕ)
      → digits tail join (suc x) (suc x) y
        ≡ digits tail join (suc x / 2) (suc x / 2) (y / 2) * 2 + join (suc x % 2) (y % 2)
  lowest_digit x y = omega (
    arith,
    any_more (x - suc x / 2) (suc x / 2) x (suc x / 2) (y / 2) (omega arith) (omega arith),
  )

-- Two functions with the same recurrence by halves agree.
halving_unique :
    (f g : ℕ → ℕ)
    → f 0 ≡ g 0
    → ((x : ℕ) → f (x / 2) ≡ g (x / 2) → f x ≡ g x)
    → (bound x : ℕ) → x ≤ bound
    → f x ≡ g x
halving_unique f g start step bound zero h = start
halving_unique f g start step (suc bound) (suc x) h =
    step (suc x) (halving_unique f g start step bound (suc x / 2) (omega arith))
halving_unique f g start step zero (suc x) h = absurd (omega arith)

bit_or-halves : (x y : ℕ) → bit_or x y ≡ bit_or (x / 2) (y / 2) * 2 + max (x % 2) (y % 2)
bit_or-halves zero y = omega (arith, bit_or-bitwise 0 y, bit_or-bitwise 0 (y / 2))
bit_or-halves (suc x) y = omega (
  arith,
  bit_or-bitwise (suc x) y,
  bit_or-bitwise (suc x / 2) (y / 2),
  lowest_digit (λ d. d) max x y,
)

bit_and-halves : (x y : ℕ) → bit_and x y ≡ bit_and (x / 2) (y / 2) * 2 + min (x % 2) (y % 2)
bit_and-halves zero y = omega (arith, bit_and-bitwise 0 y, bit_and-bitwise 0 (y / 2))
bit_and-halves (suc x) y = omega (
  arith,
  bit_and-bitwise (suc x) y,
  bit_and-bitwise (suc x / 2) (y / 2),
  lowest_digit (λ d. 0) min x y,
)

or_none : (x : ℕ) → bit_or x 0 ≡ x
or_none x =
    halving_unique (λ y. bit_or y 0) (λ y. y) refl (λ y e. omega (arith, bit_or-halves y 0, e)) x x
      (omega arith)

and_zero : (x : ℕ) → bit_and x 0 ≡ 0
and_zero x =
    halving_unique (λ y. bit_and y 0) (λ y. 0) refl (λ y e. omega (arith, bit_and-halves y 0, e)) x
      x (omega arith)

-- `(q << k) | r`, where `r` has `k` bits.
pub bit_or-shifted : (k q r : ℕ) → r < 2 ^ k → bit_or (q * 2 ^ k) r ≡ q * 2 ^ k + r
bit_or-shifted zero q r h = ground (arith, or_none q)
bit_or-shifted (suc k) q r h =
    let double : q * 2 ^ suc k ≡ 2 * (q * 2 ^ k) =
      omega (arith, ap (λ (t : ℕ). q * t) (pow-suc 2 k)) in
    let below : r / 2 < 2 ^ k = omega (arith, pow-suc 2 k) in
    ground (arith, double, bit_or-halves (q * 2 ^ suc k) r, bit_or-shifted k q (r / 2) below)

-- `x & (2 ^ k - 1)` at the widths that the program masks with.
pub bit_and-63 : (x : ℕ) → bit_and x 63 ≡ x % 64
bit_and-63 x = omega (
  arith,
  bit_and-halves x 63,
  bit_and-halves (x / 2) 31,
  bit_and-halves (x / 2 / 2) 15,
  bit_and-halves (x / 2 / 2 / 2) 7,
  bit_and-halves (x / 2 / 2 / 2 / 2) 3,
  bit_and-halves (x / 2 / 2 / 2 / 2 / 2) 1,
  and_zero (x / 2 / 2 / 2 / 2 / 2 / 2),
)

pub bit_and-255 : (x : ℕ) → bit_and x 255 ≡ x % 256
bit_and-255 x =
    omega (arith, bit_and-halves x 255, bit_and-halves (x / 2) 127, bit_and-63 (x / 2 / 2))
