-- ===== src/Spatial/Cells.antt =====
-- The coarse cells of the Hilbert curve of spatial.cc: the runs of distances and the squares of points.
use tidesql_mysql.Spatial.Curve.{
  dist, dist-lt, hilbert_xy2d_64-dist, quadrant, square, Agree, square_split, quotient-suc,
}
use tidesql_mysql.Spatial.Inverse.{Agree-eq, dist_injective}
use native.Mathlib.Nat.{pow-suc, div-eq_of_lt, div-div-eq-div-mul}
use native.Mathlib.Decide.{dec_lt}
use tidesql_mysql.Spatial.{hilbert_xy2d_64}
use tidesql_mysql.Spatial.Digits.{rot, bit-rot, rot-lt}
use tidesql_mysql.Base.{ℕ, zero, suc, ◌+◌, ◌-◌, ◌*◌, ◌/◌, ◌^◌, ◌≤◌, ◌<◌}
use tidesql_mysql.Base.{◌≡◌, refl, sym, ap, ap₂, ◌∙◌, ◌↔◌, arith}
use tidesql_mysql.Base.Bits.{bit}

rot-Agree :
    (m k x y x' y' : ℕ)
    → m ≤ k
    → k < 32
    → x < 2 ^ 32
    → y < 2 ^ 32
    → x' < 2 ^ 32
    → y' < 2 ^ 32
    → Agree m (suc k) x x'
    → Agree m (suc k) y y'
    → Agree m k (rot k x y).0 (rot k x' y').0 × Agree m k (rot k x y).1 (rot k x' y').1
rot-Agree m k x y x' y' hm hk hx hy hx' hy' ax ay = (
  λ j lo hi.
      let p = bit-rot k j x y hk (omega arith) hx hy in
      let q = bit-rot k j x' y' hk (omega arith) hx' hy' in
      cc (
        p.0,
        q.0,
        ax k hm (omega arith),
        ay k hm (omega arith),
        ax j lo (omega arith),
        ay j lo (omega arith),
      ),
  λ j lo hi.
      let p = bit-rot k j x y hk (omega arith) hx hy in
      let q = bit-rot k j x' y' hk (omega arith) hx' hy' in
      cc (
        p.1,
        q.1,
        ax k hm (omega arith),
        ay k hm (omega arith),
        ax j lo (omega arith),
        ay j lo (omega arith),
      ),
)

-- Points that agree in the digits from `m` on lie in one cell of side 2 ^ m: their distances have
-- one quotient by the cell's length on the curve.
dist-Agree :
    (m k x y x' y' : ℕ)
    → m ≤ k
    → k ≤ 32
    → x < 2 ^ 32
    → y < 2 ^ 32
    → x' < 2 ^ 32
    → y' < 2 ^ 32
    → Agree m k x x'
    → Agree m k y y'
    → dist k x y / square m ≡ dist k x' y' / square m
dist-Agree m zero x y x' y' hm hk hx hy hx' hy' ax ay = unfold dist in refl
dist-Agree m (suc k) x y x' y' hm hk hx hy hx' hy' ax ay = elim (dec_lt k m) [
  | yes last ↦
      let here : m ≡ suc k = omega arith in
      let top = ap square here in
      div-eq_of_lt (omega (arith, dist-lt (suc k) x y, top))
      ∙ sym (div-eq_of_lt (omega (arith, dist-lt (suc k) x' y', top)))
  | no more ↦
      let inside : m ≤ k = omega arith in
      let (ax', ay') = rot-Agree m k x y x' y' inside (omega arith) hx hy hx' hy' ax ay in
      quotient-suc m k x y inside
      ∙ ap₂
          (λ a b.
            (square_split m k inside).0 * quadrant a b
            + dist k (rot k x y).0 (rot k x y).1 / square m)
          (ax k inside (omega arith)) (ay k inside (omega arith))
      ∙ ap (λ t. (square_split m k inside).0 * quadrant (bit k x') (bit k y') + t)
          (dist-Agree m k (rot k x y).0 (rot k x y).1 (rot k x' y').0 (rot k x' y').1 inside
            (omega arith) (rot-lt k x y hx hy).0 (rot-lt k x y hx hy).1 (rot-lt k x' y' hx' hy').0
            (rot-lt k x' y' hx' hy').1 ax' ay')
      ∙ sym (quotient-suc m k x' y' inside)
]

bit-shift : (m j x : ℕ) → bit j (x / 2 ^ m) ≡ bit (m + j) x
bit-shift zero j x = ap₂ bit {x = j} {y = 0 + j} {u = x / 2 ^ 0} {v = x} (omega arith) (omega arith)
bit-shift (suc m) j x =
    ap (bit j) (ap (λ t. x / t) (omega (arith, pow-suc 2 m)) ∙ sym (div-div-eq-div-mul x 2 (2 ^ m)))
    ∙ bit-shift m j (x / 2)
    ∙ ap (λ t. bit t x) {x = suc (m + j)} {y = suc m + j} (omega arith)

Agree-of_shift : (m k x x' : ℕ) → x / 2 ^ m ≡ x' / 2 ^ m → Agree m k x x'
Agree-of_shift m k x x' e j lo hi =
    let s : m + (j - m) ≡ j = omega arith in
    ap (λ t. bit t x) (sym s)
    ∙ sym (bit-shift m (j - m) x)
    ∙ ap (bit (j - m)) e
    ∙ bit-shift m (j - m) x'
    ∙ ap (λ t. bit t x') s

shift_of_Agree :
    (m n x x' : ℕ)
    → x / 2 ^ m < 2 ^ n
    → x' / 2 ^ m < 2 ^ n
    → Agree m (m + n) x x'
    → x / 2 ^ m ≡ x' / 2 ^ m
shift_of_Agree m n x x' h h' a =
    Agree-eq n (x / 2 ^ m) (x' / 2 ^ m) h h'
      (λ j lo hi. bit-shift m j x ∙ a (m + j) (omega arith) (omega arith) ∙ sym (bit-shift m j x'))

-- Two points of the 32-bit grid have their distances in the same aligned run of 2 ^ 48 distances
-- exactly where the top eight bits of both coordinates agree.
pub hilbert_cell :
    (x y x' y' : ℕ)
    → x < 2 ^ 32
    → y < 2 ^ 32
    → x' < 2 ^ 32
    → y' < 2 ^ 32
    → (hilbert_xy2d_64 x y / 2 ^ 48 ≡ hilbert_xy2d_64 x' y' / 2 ^ 48)
      ↔ ((x / 2 ^ 24 ≡ x' / 2 ^ 24) × (y / 2 ^ 24 ≡ y' / 2 ^ 24))
hilbert_cell x y x' y' hx hy hx' hy' = (
  λ e.
      let (ax, ay) = dist_injective 24 32 x y x' y' (omega arith) hx hy hx' hy' (sym p ∙ e ∙ q) in
      (
        shift_of_Agree 24 8 x x' (omega arith) (omega arith) ax,
        shift_of_Agree 24 8 y y' (omega arith) (omega arith) ay,
      ),
  λ e.
      p
      ∙ dist-Agree 24 32 x y x' y' (omega arith) (omega arith) hx hy hx' hy'
          (Agree-of_shift 24 32 x x' e.0) (Agree-of_shift 24 32 y y' e.1)
      ∙ sym q,
)
  where
    p : hilbert_xy2d_64 x y / 2 ^ 48 ≡ dist 32 x y / square 24
    p = ap (λ t. t / 2 ^ 48) (hilbert_xy2d_64-dist x y).0

    q : hilbert_xy2d_64 x' y' / 2 ^ 48 ≡ dist 32 x' y' / square 24
    q = ap (λ t. t / 2 ^ 48) (hilbert_xy2d_64-dist x' y').0
