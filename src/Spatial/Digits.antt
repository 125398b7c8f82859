-- ===== src/Spatial/Digits.antt =====
-- The digits of the Hilbert distance: one in 0 to 3 for each bit of the coordinates, taken from the
-- top, each a function of the bits at and above its place.
use native.Mathlib.Nat.{pow-suc, pow-le-pow_right}
use native.Mathlib.Decide.{dec_lt}
use tidesql_mysql.Base.Bits.{bit_and_halved}
use tidesql_mysql.Spatial.{hilbert_rot, quadrant_flag, sub32}
use tidesql_mysql.Base.{ℕ, zero, suc, ◌+◌, ◌-◌, ◌*◌, ◌/◌, ◌%◌, ◌^◌, ◌≤◌, ◌<◌, bit_and}
use tidesql_mysql.Base.{◌≡◌, refl, ap, ◌⊎◌, inl, inr, arith}
use tidesql_mysql.Base.{ltb, if◌then◌else◌}
use tidesql_mysql.Base.Bits.{bit}
use tidesql_mysql.Base.Bytes.{pow_pos}

-- No digit is common to a number below `bound` and 0.
bit_and-nothing : (bound x : ℕ) → x < bound → bit_and x 0 ≡ 0
bit_and-nothing zero x below = absurd (omega arith)
bit_and-nothing (suc bound) zero below = refl
bit_and-nothing (suc bound) (suc x) below =
    let half = bit_and-nothing bound (suc x / 2) (omega arith) in
    omega (arith, half, bit_and_halved (suc x) 0)

-- A mask of one bit keeps that bit.
pub bit_and-bit : (k x : ℕ) → bit_and x (2 ^ k) ≡ bit k x * 2 ^ k
bit_and-bit zero x =
    omega (arith, bit_and_halved x 1, bit_and-nothing (suc x) (x / 2) (omega arith))
bit_and-bit (suc k) x = omega (
  arith,
  bit_and_halved x (2 ^ suc k),
  pow-suc 2 k,
  ap (λ (t : ℕ). bit_and (x / 2) t) halves,
  bit_and-bit k (x / 2),
  ap (λ (t : ℕ). bit k (x / 2) * t) (pow-suc 2 k),
)
  where
    halves : 2 ^ suc k / 2 ≡ 2 ^ k
    halves = omega (arith, pow-suc 2 k)

pub bit-lt : (k x : ℕ) → bit k x < 2
bit-lt zero x = omega arith
bit-lt (suc k) x = bit-lt k (x / 2)

flag_of_bit : (b p : ℕ) → b < 2 → 0 < p → (if ltb 0 (b * p) then 1 else 0) ≡ b
flag_of_bit zero p h k = ground arith
flag_of_bit (suc zero) p h k = ground arith
flag_of_bit (suc (suc b)) p h k = absurd (omega arith)

pub quadrant_flag-bit : (k x : ℕ) → quadrant_flag x (2 ^ k) ≡ bit k x
unfolding quadrant_flag
quadrant_flag-bit k x = rw bit_and-bit (flag_of_bit (bit k x) (2 ^ k) (bit-lt k x) (pow_pos k))

-- Numbers whose sum is one less than a multiple of 2 ^ (j + 1) differ in the digit j.
bit_complement : (j u x q : ℕ) → u + x + 1 ≡ 2 ^ suc j * q → bit j u + bit j x ≡ 1
bit_complement zero u x q h = omega arith
bit_complement (suc j) u x q h = bit_complement j (u / 2) (x / 2) q (omega (arith, h'))
  where
    h' : u + x + 1 ≡ 2 * (2 ^ suc j * q)
    h' = omega (arith, h, ap (λ (t : ℕ). t * q) (pow-suc 2 (suc j)))

pub pow_split : (j k : ℕ) → j ≤ k → (q : ℕ) × (2 ^ k ≡ 2 ^ j * q)
pow_split zero k h = (2 ^ k, omega arith)
pow_split (suc j) zero h = absurd (omega arith)
pow_split (suc j) (suc k) h =
    let (q, e) = pow_split j k (omega arith) in
    (q, omega (arith, e, pow-suc 2 k, pow-suc 2 j, ap (λ (t : ℕ). t * q) (pow-suc 2 j)))

-- The reflection `n - 1 - x` of the round with `s = 2 ^ k`, in 32 bits.
abbrev reflect : ℕ → ℕ → ℕ
reflect k x = sub32 (sub32 (2 ^ k * 2 % 2 ^ 32) 1) x

reflect_cases :
    (t x : ℕ)
    → 0 < t
    → t ≤ 2 ^ 31
    → x < 2 ^ 32
    → (sub32 (sub32 (t * 2 % 2 ^ 32) 1) x + x + 1 ≡ t * 2)
      ⊎ (sub32 (sub32 (t * 2 % 2 ^ 32) 1) x + x + 1 ≡ t * 2 + 2 ^ 32)
reflect_cases t x pos small h = elim (dec_lt x (t * 2)) [
  | yes inside ↦ inl (omega arith)
  | no outside ↦ inr (omega arith)
]

reflect_sum :
    (k x : ℕ)
    → k < 32
    → x < 2 ^ 32
    → (reflect k x + x + 1 ≡ 2 ^ suc k) ⊎ (reflect k x + x + 1 ≡ 2 ^ suc k + 2 ^ 32)
reflect_sum k x hk h = rw (pow-suc 2 k) (reflect_cases (2 ^ k) x (pow_pos k) small h)
  where
    small : 2 ^ k ≤ 2 ^ 31
    small = pow-le-pow_right {n = 2} (omega arith) {i = k} {j = 31} (omega arith)

-- The reflection turns over every digit up to the place of `s`, whatever wraps above it.
bit-reflect : (k j x : ℕ) → k < 32 → j ≤ k → x < 2 ^ 32 → bit j (reflect k x) + bit j x ≡ 1
bit-reflect k j x hk hj h =
    let (q, e) = pow_split (suc j) (suc k) (omega arith) in
    let (r, f) = pow_split (suc j) 32 (omega arith) in
    elim (reflect_sum k x hk h) [
      | inl s ↦ bit_complement j (reflect k x) x q (omega (arith, s, e))
      | inr s ↦ bit_complement j (reflect k x) x (q + r) (omega (arith, s, e, f))
    ]

-- What one round does to the two coordinates, digit by digit.
abbrev pub turn : ℕ → ℕ → ℕ → ℕ → ℕ
turn zero zero a b = b
turn (suc rx) zero a b = 1 - b
turn rx (suc ry) a b = a

-- The coordinates of the next round.
abbrev pub rot : ℕ → ℕ → ℕ → ℕ × ℕ
rot k x y = hilbert_rot (2 ^ k * 2 % 2 ^ 32) x y (bit k x) (bit k y)

bit-rot_flags :
    (k j x y rx ry : ℕ)
    → k < 32
    → j ≤ k
    → x < 2 ^ 32
    → y < 2 ^ 32
    → rx < 2
    → ry < 2
    → (bit j (hilbert_rot (2 ^ k * 2 % 2 ^ 32) x y rx ry).0 ≡ turn rx ry (bit j x) (bit j y))
      × (bit j (hilbert_rot (2 ^ k * 2 % 2 ^ 32) x y rx ry).1 ≡ turn rx ry (bit j y) (bit j x))
unfolding hilbert_rot
bit-rot_flags k j x y zero zero hk hj hx hy hr hs = (refl, refl)
bit-rot_flags k j x y (suc zero) zero hk hj hx hy hr hs =
    (omega (arith, bit-reflect k j y hk hj hy), omega (arith, bit-reflect k j x hk hj hx))
bit-rot_flags k j x y (suc (suc rx)) zero hk hj hx hy hr hs = absurd (omega arith)
bit-rot_flags k j x y rx (suc ry) hk hj hx hy hr hs = (ground arith, ground arith)

pub bit-rot :
    (k j x y : ℕ)
    → k < 32
    → j ≤ k
    → x < 2 ^ 32
    → y < 2 ^ 32
    → (bit j (rot k x y).0 ≡ turn (bit k x) (bit k y) (bit j x) (bit j y))
      × (bit j (rot k x y).1 ≡ turn (bit k x) (bit k y) (bit j y) (bit j x))
bit-rot k j x y hk hj hx hy =
    bit-rot_flags k j x y (bit k x) (bit k y) hk hj hx hy (bit-lt k x) (bit-lt k y)

pub rot-lt :
    (k x y : ℕ) → x < 2 ^ 32 → y < 2 ^ 32 → ((rot k x y).0 < 2 ^ 32) × ((rot k x y).1 < 2 ^ 32)
unfolding hilbert_rot
rot-lt k x y hx hy = ground arith
