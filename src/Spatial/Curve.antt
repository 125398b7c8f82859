-- ===== src/Spatial/Curve.antt =====
-- The Hilbert distance of spatial.cc as a sum of digits to the base 4, and its bound.
use native.Mathlib.Nat.{mod-eq_of_lt, pow-suc, mul-add-div}
use tidesql_mysql.Spatial.{hilbert_loop, hilbert_xy2d_64}
use tidesql_mysql.Spatial.Digits.{quadrant_flag-bit, bit-lt, rot, pow_split}
use tidesql_mysql.Base.{ℕ, zero, suc, ◌+◌, ◌*◌, ◌/◌, ◌%◌, ◌^◌, ◌≤◌, ◌<◌, bit_xor}
use tidesql_mysql.Base.{◌≡◌, refl, sym, ap, ap₂, ◌∙◌, arith}
use tidesql_mysql.Base.Bits.{bit}
use tidesql_mysql.Base.Bytes.{pow_pos}

-- 4 ^ k.
abbrev pub square : ℕ → ℕ
square k = 2 ^ k * 2 ^ k

-- The quadrant's place on the curve.
abbrev pub quadrant : ℕ → ℕ → ℕ
quadrant rx ry = bit_xor (3 * rx) ry

-- The sum that the loop accumulates in its last `k` rounds, with nothing wrapped.
unfoldable pub dist : ℕ → ℕ → ℕ → ℕ
dist zero x y = 0
dist (suc k) x y = square k * quadrant (bit k x) (bit k y) + dist k (rot k x y).0 (rot k x y).1

square-suc : (k : ℕ) → square (suc k) ≡ 4 * square k
square-suc k = rw (pow-suc 2 k) (omega arith)

quadrant-lt : (rx ry : ℕ) → rx < 2 → ry < 2 → quadrant rx ry < 4
quadrant-lt zero zero h k = omega arith
quadrant-lt zero (suc zero) h k = omega arith
quadrant-lt (suc zero) zero h k = omega arith
quadrant-lt (suc zero) (suc zero) h k = omega arith
quadrant-lt (suc (suc rx)) ry h k = absurd (omega arith)
quadrant-lt zero (suc (suc ry)) h k = absurd (omega arith)
quadrant-lt (suc zero) (suc (suc ry)) h k = absurd (omega arith)

quadrant_inverse :
    (rx ry : ℕ) → rx < 2 → ry < 2 → (quadrant rx ry / 2 ≡ rx) × ((quadrant rx ry + 1) / 2 % 2 ≡ ry)
quadrant_inverse zero zero h k = (refl, refl)
quadrant_inverse zero (suc zero) h k = (refl, refl)
quadrant_inverse (suc zero) zero h k = (refl, refl)
quadrant_inverse (suc zero) (suc zero) h k = (refl, refl)
quadrant_inverse (suc (suc rx)) ry h k = absurd (omega arith)
quadrant_inverse zero (suc (suc ry)) h k = absurd (omega arith)
quadrant_inverse (suc zero) (suc (suc ry)) h k = absurd (omega arith)

pub quadrant_injective :
    (rx ry rx' ry' : ℕ)
    → rx < 2
    → ry < 2
    → rx' < 2
    → ry' < 2
    → quadrant rx ry ≡ quadrant rx' ry'
    → (rx ≡ rx') × (ry ≡ ry')
quadrant_injective rx ry rx' ry' h k h' k' e =
    let p = quadrant_inverse rx ry h k in
    let q = quadrant_inverse rx' ry' h' k' in
    (sym p.0 ∙ ap (λ t. t / 2) e ∙ q.0, sym p.1 ∙ ap (λ t. (t + 1) / 2 % 2) e ∙ q.1)

digit_room : (q p r : ℕ) → q < 4 → r < p → p * q + r < 4 * p
digit_room q p r h k = grind arith

pub dist-lt : (k x y : ℕ) → dist k x y < square k
unfolding dist
dist-lt zero x y = omega arith
dist-lt (suc k) x y = rw square-suc (
    digit_room (quadrant (bit k x) (bit k y)) (square k) (dist k (rot k x y).0 (rot k x y).1)
      (quadrant-lt (bit k x) (bit k y) (bit-lt k x) (bit-lt k y))
      (dist-lt k (rot k x y).0 (rot k x y).1))

hilbert_loop-suc :
    (k x y d : ℕ)
    → hilbert_loop (suc k) x y d
      ≡ hilbert_loop k
          (rot k x y).0
          (rot k x y).1
          ((d + square k % 2 ^ 64 * quadrant (bit k x) (bit k y)) % 2 ^ 64)
unfolding hilbert_loop
hilbert_loop-suc k x y d = rw (quadrant_flag-bit k x, quadrant_flag-bit k y)

-- No multiplication and no addition of the loop wraps.
hilbert_loop-dist : (k x y d : ℕ) → d + square k ≤ 2 ^ 64 → hilbert_loop k x y d ≡ d + dist k x y
hilbert_loop-dist zero x y d h = unfold hilbert_loop dist in omega arith
hilbert_loop-dist (suc k) x y d h =
    hilbert_loop-suc k x y d
    ∙ ap (hilbert_loop k (rot k x y).0 (rot k x y).1) no_wrap
    ∙ hilbert_loop-dist k (rot k x y).0 (rot k x y).1 (d + square k * q) (omega (arith, room, h'))
    ∙ (unfold dist in omega arith)
  where
    q : ℕ
    q = quadrant (bit k x) (bit k y)

    h' : d + 4 * square k ≤ 2 ^ 64
    h' = rw square-suc at h

    positive : 0 < square k
    positive = grind (arith, pow_pos k)

    room : square k * q + square k ≤ 4 * square k
    room = grind (arith, quadrant-lt (bit k x) (bit k y) (bit-lt k x) (bit-lt k y))

    no_wrap : (d + square k % 2 ^ 64 * q) % 2 ^ 64 ≡ d + square k * q
    no_wrap =
        ap (λ t. (d + t * q) % 2 ^ 64)
          (mod-eq_of_lt {n = square k} {m = 2 ^ 64} (omega (arith, h', positive)))
        ∙ mod-eq_of_lt (omega (arith, room, h', positive))

-- The distance is the sum, below 2 ^ 64.
pub hilbert_xy2d_64-dist :
    (x y : ℕ) → (hilbert_xy2d_64 x y ≡ dist 32 x y) × (hilbert_xy2d_64 x y < 2 ^ 64)
unfolding hilbert_xy2d_64
hilbert_xy2d_64-dist x y =
    let e = hilbert_loop-dist 32 x y 0 (omega arith) in
    (omega (arith, e), omega (arith, e, dist-lt 32 x y))

-- The digits from place `m` up to place `k` agree.
abbrev pub Agree : ℕ → ℕ → ℕ → ℕ → Type 0
Agree m k x x' = (j : ℕ) → m ≤ j → j < k → bit j x ≡ bit j x'

pub square_split : (m k : ℕ) → m ≤ k → (q : ℕ) × (square k ≡ square m * q)
square_split m k h = let (q, e) = pow_split m k h in (q * q, ap₂ ◌*◌ e e ∙ omega arith)

pub square_pos : (k : ℕ) → 0 < square k
square_pos k = grind (arith, pow_pos k)

pub quotient-suc :
    (m k x y : ℕ) (h : m ≤ k)
    → dist (suc k) x y / square m
      ≡ (square_split m k h).0 * quadrant (bit k x) (bit k y)
        + dist k (rot k x y).0 (rot k x y).1 / square m
unfolding dist
quotient-suc m k x y h =
    let (q, e) = square_split m k h in
    let g = quadrant (bit k x) (bit k y) in
    ap (λ t. (t * g + dist k (rot k x y).0 (rot k x y).1) / square m) e
    ∙ ap (λ t. (t + dist k (rot k x y).0 (rot k x y).1) / square m) (omega arith)
    ∙ mul-add-div (square_pos m) (q * g) (dist k (rot k x y).0 (rot k x y).1)
