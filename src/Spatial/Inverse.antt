-- ===== src/Spatial/Inverse.antt =====
-- A distance on the Hilbert curve of spatial.cc determines its point.
use tidesql_mysql.Spatial.Curve.{
  dist, dist-lt, hilbert_xy2d_64-dist, quadrant, quadrant_injective, square,
}
use tidesql_mysql.Spatial.Curve.{Agree, quotient-suc, square_pos, square_split}
use native.Mathlib.Nat.{pow-suc, div-lt_iff_lt-mul}
use mathlib.Core.Path.{subst}
use native.Mathlib.Decide.{dec_lt}
use tidesql_mysql.Spatial.{hilbert_xy2d_64}
use tidesql_mysql.Spatial.Digits.{bit-lt, turn, rot, bit-rot, rot-lt}
use tidesql_mysql.Base.{ℕ, zero, suc, ◌+◌, ◌*◌, ◌/◌, ◌^◌, ◌≤◌, ◌<◌}
use tidesql_mysql.Base.{◌≡◌, sym, ap, ap₂, ◌∙◌, arith}
use tidesql_mysql.Base.Bits.{bit}

turn_injective :
    (rx ry a b a' b' : ℕ)
    → rx < 2
    → ry < 2
    → a < 2
    → b < 2
    → a' < 2
    → b' < 2
    → turn rx ry a b ≡ turn rx ry a' b'
    → turn rx ry b a ≡ turn rx ry b' a'
    → (a ≡ a') × (b ≡ b')
turn_injective zero zero a b a' b' hr hs ha hb ha' hb' e f = (f, e)
turn_injective (suc rx) zero a b a' b' hr hs ha hb ha' hb' e f = (omega arith, omega arith)
turn_injective zero (suc ry) a b a' b' hr hs ha hb ha' hb' e f = (e, f)
turn_injective (suc rx) (suc ry) a b a' b' hr hs ha hb ha' hb' e f = (e, f)

split_unique : (p a b r s : ℕ) → r < p → s < p → p * a + r ≡ p * b + s → (a ≡ b) × (r ≡ s)
split_unique p a b r s hr hs e = ground (arith, grow a b, grow b a)
  where
    grow : (c d : ℕ) → c < d → p * c + p ≤ p * d
    grow c d h = grind arith

dist_parts :
    (m k x y x' y' : ℕ)
    → m ≤ k
    → dist (suc k) x y / square m ≡ dist (suc k) x' y' / square m
    → ((bit k x ≡ bit k x') × (bit k y ≡ bit k y'))
      × (dist k (rot k x y).0 (rot k x y).1 / square m
          ≡ dist k (rot k x' y').0 (rot k x' y').1 / square m)
dist_parts m k x y x' y' h e =
    let (n, split) = square_split m k h in
    let fits = λ (z w : ℕ).
      (div-lt_iff_lt-mul {k = square m} {x = dist k z w} {y = n} (square_pos m)).1
        (omega (arith, dist-lt k z w, split)) in
    let (q, r) =
      split_unique n (quadrant (bit k x) (bit k y)) (quadrant (bit k x') (bit k y'))
        (dist k (rot k x y).0 (rot k x y).1 / square m)
        (dist k (rot k x' y').0 (rot k x' y').1 / square m) (fits (rot k x y).0 (rot k x y).1)
        (fits (rot k x' y').0 (rot k x' y').1)
        (sym (quotient-suc m k x y h) ∙ e ∙ quotient-suc m k x' y' h) in
    (
      quadrant_injective (bit k x) (bit k y) (bit k x') (bit k y') (bit-lt k x) (bit-lt k y)
          (bit-lt k x') (bit-lt k y') q,
      r,
    )

-- Undoing one round.
unrot-digit :
    (m k j x y x' y' : ℕ)
    → k < 32
    → m ≤ j
    → x < 2 ^ 32
    → y < 2 ^ 32
    → x' < 2 ^ 32
    → y' < 2 ^ 32
    → (bit k x ≡ bit k x') × (bit k y ≡ bit k y')
    → Agree m k (rot k x y).0 (rot k x' y').0 × Agree m k (rot k x y).1 (rot k x' y').1
    → j < suc k
    → (bit j x ≡ bit j x') × (bit j y ≡ bit j y')
unrot-digit m k j x y x' y' hk hm hx hy hx' hy' flags below hj = elim (dec_lt j k) [
  | yes lower ↦
      let p = bit-rot k j x y hk (omega arith) hx hy in
      let q = bit-rot k j x' y' hk (omega arith) hx' hy' in
      let same = ap₂ (λ a b. turn a b (bit j x') (bit j y')) flags.0 flags.1 in
      let same' = ap₂ (λ a b. turn a b (bit j y') (bit j x')) flags.0 flags.1 in
      turn_injective (bit k x) (bit k y) (bit j x) (bit j y) (bit j x') (bit j y') (bit-lt k x)
        (bit-lt k y) (bit-lt j x) (bit-lt j y) (bit-lt j x') (bit-lt j y')
        (sym p.0 ∙ below.0 j hm lower ∙ q.0 ∙ sym same)
        (sym p.1 ∙ below.1 j hm lower ∙ q.1 ∙ sym same')
  | no here ↦
      let e : k ≡ j = omega arith in
      subst (λ i. (bit i x ≡ bit i x') × (bit i y ≡ bit i y')) e flags
]

-- The cell that the distance lies in determines the digits of both coordinates from `m` on.
pub dist_injective :
    (m k x y x' y' : ℕ)
    → k ≤ 32
    → x < 2 ^ 32
    → y < 2 ^ 32
    → x' < 2 ^ 32
    → y' < 2 ^ 32
    → dist k x y / square m ≡ dist k x' y' / square m
    → Agree m k x x' × Agree m k y y'
dist_injective m zero x y x' y' hk hx hy hx' hy' e =
    (λ j lo hi. absurd (omega arith), λ j lo hi. absurd (omega arith))
dist_injective m (suc k) x y x' y' hk hx hy hx' hy' e = elim (dec_lt k m) [
  | yes outside ↦ (λ j lo hi. absurd (omega arith), λ j lo hi. absurd (omega arith))
  | no more ↦
      let (flags, rest) = dist_parts m k x y x' y' (omega arith) e in
      let below =
        dist_injective m k (rot k x y).0 (rot k x y).1 (rot k x' y').0 (rot k x' y').1 (omega arith)
          (rot-lt k x y hx hy).0 (rot-lt k x y hx hy).1 (rot-lt k x' y' hx' hy').0
          (rot-lt k x' y' hx' hy').1 rest in
      (
        λ j lo hi. (unrot-digit m k j x y x' y' hk lo hx hy hx' hy' flags below hi).0,
        λ j lo hi. (unrot-digit m k j x y x' y' hk lo hx hy hx' hy' flags below hi).1,
      )
]

-- Numbers of `n` digits that agree in all of them are equal.
pub Agree-eq : (n x x' : ℕ) → x < 2 ^ n → x' < 2 ^ n → Agree 0 n x x' → x ≡ x'
Agree-eq zero x x' h h' a = omega arith
Agree-eq (suc n) x x' h h' a = omega (
  arith,
  a 0 (omega arith) (omega arith),
  Agree-eq n (x / 2) (x' / 2) (omega (arith, pow-suc 2 n)) (omega (arith, pow-suc 2 n))
      (λ j lo hi. a (suc j) (omega arith) (omega arith)),
)

-- Two points of the 32-bit grid with one distance are the same point.
pub hilbert_xy2d_64_injective :
    (x y x' y' : ℕ)
    → x < 2 ^ 32
    → y < 2 ^ 32
    → x' < 2 ^ 32
    → y' < 2 ^ 32
    → hilbert_xy2d_64 x y ≡ hilbert_xy2d_64 x' y'
    → (x ≡ x') × (y ≡ y')
hilbert_xy2d_64_injective x y x' y' hx hy hx' hy' e =
    let (ax, ay) = dist_injective 0 32 x y x' y' (omega arith) hx hy hx' hy' (
      ap (λ t. t / square 0)
        (sym (hilbert_xy2d_64-dist x y).0 ∙ e ∙ (hilbert_xy2d_64-dist x' y').0)) in
    (Agree-eq 32 x x' hx hx' ax, Agree-eq 32 y y' hy hy' ay)
