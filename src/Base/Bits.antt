-- ===== src/Base/Bits.antt =====
-- Laws of the digitwise operations at variables: one digit at a time, a byte under a shift, and the
-- test of one bit.
use Prim.Native.Nat.{
  ℕ, zero, suc, ◌+◌, ◌-◌, ◌*◌, ◌/◌, ◌%◌, ◌^◌, ◌≤◌, ◌<◌, min, max, digits, bitwise, bit_and, bit_or,
  bit_xor, differ, bit_xor-bitwise, bit_and-bitwise, bit_or-bitwise,
}
use mathlib.Core.Path.{◌≡◌, refl, ap, ◌∙◌}
use native.Mathlib.Nat.{pow-suc}
use native.Mathlib.Omega.{arith}

-- The fuel of `digits` is free above its first number: one round more changes nothing.
module _ (last : ℕ → ℕ) (join : ℕ → ℕ → ℕ) where
  one_more : (fuel x y : ℕ) → x ≤ fuel → digits last join (suc fuel) x y ≡ digits last join fuel x y
  one_more zero zero y fits = refl
  one_more zero (suc x) y fits = absurd (omega arith)
  one_more (suc fuel) zero y fits = refl
  one_more (suc fuel) (suc x) y fits =
      ap (λ (t : ℕ). t * 2 + join (suc x % 2) (y % 2))
        (one_more fuel (suc x / 2) (y / 2) (omega arith))

  many_more :
      (spare fuel total x y : ℕ)
      → x ≤ fuel
      → total ≡ spare + fuel
      → digits last join total x y ≡ digits last join fuel x y
  many_more zero fuel total x y fits e =
      let same : total ≡ fuel = omega arith in ap (λ (t : ℕ). digits last join t x y) same
  many_more (suc spare) fuel zero x y fits e = absurd (omega arith)
  many_more (suc spare) fuel (suc total) x y fits e =
      one_more total x y (omega arith) ∙ many_more spare fuel total x y fits (omega arith)

  -- The lowest digit of the result, then the rest of it.
  peel :
      (x y : ℕ)
      → join (suc x % 2) (y % 2) + bitwise last join (suc x / 2) (y / 2) * 2
        ≡ bitwise last join (suc x) y
  peel x y = omega (
    arith,
    many_more (x - suc x / 2) (suc x / 2) x (suc x / 2) (y / 2) (omega arith) (omega arith),
  )

-- Each operation, by the lowest digit and the others.
pub bit_or_halved : (x y : ℕ) → max (x % 2) (y % 2) + bit_or (x / 2) (y / 2) * 2 ≡ bit_or x y
bit_or_halved zero y = simp bit_or-bitwise (omega arith)
bit_or_halved (suc x) y = simp bit_or-bitwise (peel (λ b. b) max x y)

pub bit_and_halved : (x y : ℕ) → min (x % 2) (y % 2) + bit_and (x / 2) (y / 2) * 2 ≡ bit_and x y
bit_and_halved zero y = simp bit_and-bitwise (omega arith)
bit_and_halved (suc x) y = simp bit_and-bitwise (peel (λ b. 0) min x y)

zero-bit_or : (b : ℕ) → bit_or 0 b ≡ b
zero-bit_or b = bit_or-bitwise 0 b

-- The digits of a number below `bound` are left by `or` with 0.
bit_or-nothing : (bound x : ℕ) → x < bound → bit_or x 0 ≡ x
bit_or-nothing zero x below = absurd (omega arith)
bit_or-nothing (suc bound) zero below = refl
bit_or-nothing (suc bound) (suc x) below =
    let half = bit_or-nothing bound (suc x / 2) (omega arith) in
    omega (arith, half, bit_or_halved (suc x) 0)

-- Where the low digits of the left operand are free, `or` is addition.
pub bit_or-shifted : (k a b : ℕ) → b < 2 ^ k → bit_or (a * 2 ^ k) b ≡ a * 2 ^ k + b
bit_or-shifted zero a zero h = omega (arith, bit_or-nothing (suc (a * 1)) (a * 1) (omega arith))
bit_or-shifted zero a (suc b) h = absurd (omega arith)
bit_or-shifted (suc k) a b h = omega (
  arith,
  bit_or_halved (a * 2 ^ suc k) b,
  ap (λ (t : ℕ). bit_or t (b / 2)) halves,
  ap (λ (t : ℕ). a * t) (pow-suc 2 k),
  pow-suc 2 k,
  bit_or-shifted k a (b / 2) (omega (arith, pow-suc 2 k)),
)
  where
    halves : a * 2 ^ suc k / 2 ≡ a * 2 ^ k
    halves = omega (arith, ap (λ (t : ℕ). a * t) (pow-suc 2 k))

-- The digit of weight 2 ^ k.
abbrev pub bit : ℕ → ℕ → ℕ
bit zero x = x % 2
bit (suc k) x = bit k (x / 2)

pub bit_or-low : (k b a : ℕ) → b < 2 ^ k → bit_or b (a * 2 ^ k) ≡ a * 2 ^ k + b
bit_or-low zero zero a h = omega (arith, zero-bit_or (a * 1))
bit_or-low zero (suc b) a h = absurd (omega arith)
bit_or-low (suc k) b a h = omega (
  arith,
  bit_or_halved b (a * 2 ^ suc k),
  ap (λ (t : ℕ). bit_or (b / 2) t) halves,
  ap (λ (t : ℕ). a * t) (pow-suc 2 k),
  pow-suc 2 k,
  bit_or-low k (b / 2) a (omega (arith, pow-suc 2 k)),
)
  where
    halves : a * 2 ^ suc k / 2 ≡ a * 2 ^ k
    halves = omega (arith, ap (λ (t : ℕ). a * t) (pow-suc 2 k))

bit_xor_halved : (x y : ℕ) → differ (x % 2) (y % 2) + bit_xor (x / 2) (y / 2) * 2 ≡ bit_xor x y
bit_xor_halved zero y = simp bit_xor-bitwise (omega arith)
bit_xor_halved (suc x) y = simp bit_xor-bitwise (peel (λ b. b) differ x y)

differ-zero : (a : ℕ) → differ a 0 ≡ a
differ-zero zero = refl
differ-zero (suc a) = refl

-- Where the low digits of the right operand are free, `xor` is addition.
pub bit_xor-low : (k b a : ℕ) → b < 2 ^ k → bit_xor b (a * 2 ^ k) ≡ a * 2 ^ k + b
bit_xor-low zero zero a h = omega (arith, bit_xor-bitwise 0 (a * 1))
bit_xor-low zero (suc b) a h = absurd (omega arith)
bit_xor-low (suc k) b a h = omega (
  arith,
  bit_xor_halved b (a * 2 ^ suc k),
  ap (λ (t : ℕ). bit_xor (b / 2) t) halves,
  ap (λ (t : ℕ). differ (b % 2) t) even,
  differ-zero (b % 2),
  ap (λ (t : ℕ). a * t) (pow-suc 2 k),
  pow-suc 2 k,
  bit_xor-low k (b / 2) a (omega (arith, pow-suc 2 k)),
)
  where
    halves : a * 2 ^ suc k / 2 ≡ a * 2 ^ k
    halves = omega (arith, ap (λ (t : ℕ). a * t) (pow-suc 2 k))

    even : a * 2 ^ suc k % 2 ≡ 0
    even = omega (arith, ap (λ (t : ℕ). a * t) (pow-suc 2 k))
