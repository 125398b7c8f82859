-- ===== src/Spatial/Ranges/Loops.antt =====
-- The cells that the two loops of `decompose_ranges` enumerate.
use tidesql_mysql.Spatial.{hilbert_xy2d_64}
use tidesql_mysql.Spatial.Curve.{hilbert_xy2d_64-dist}
use tidesql_mysql.Spatial.Cells.{hilbert_cell}
use tidesql_mysql.Spatial.Ranges.{cell_base, column, window}
use tidesql_mysql.Spatial.Ranges.Merge.{InCell, IsBase, Distinct}
use native.Mathlib.Decide.{dec_lt}
use mathlib.Core.Path.{subst}
use tidesql_mysql.Base.{ℕ, zero, suc, ◌+◌, ◌*◌, ◌/◌, ◌%◌, ◌^◌, ◌≤◌, ◌<◌}
use tidesql_mysql.Base.{◌≡◌, ◌≢◌, ◌↔◌, ◌⊎◌, inl, inr, arith}
use tidesql_mysql.Base.{List, [], ◌∷◌, ◌++◌}
use tidesql_mysql.Base.{All, Any, All-append}

-- The cell of the window, by its place in the two loops.
abbrev InWindow : ℕ → ℕ → ℕ → ℕ → ℕ → ℕ → Type 0
InWindow n gx0 gy0 rows gx gy = (gx0 ≤ gx) × (gx < gx0 + n) × (gy0 ≤ gy) × (gy < gy0 + rows)

module _ (P : ℕ → Type 0) where
  pub Any-column :
      (n gx gy0 gy : ℕ) → gy0 ≤ gy → gy < gy0 + n → P (cell_base gx gy) → Any P (column n gx gy0)
  unfolding column
  Any-column zero gx gy0 gy lo hi p = absurd (omega arith)
  Any-column (suc n) gx gy0 gy lo hi p = elim (dec_lt gy0 gy) [
    | yes later ↦ inr (Any-column n gx (gy0 + 1) gy (omega arith) (omega arith) p)
    | no here ↦ let e : gy ≡ gy0 = omega arith in inl (subst (λ t. P (cell_base gx t)) e p)
  ]

  pub All-column :
      (n gx gy0 : ℕ)
      → ((gy : ℕ) → gy0 ≤ gy → gy < gy0 + n → P (cell_base gx gy))
      → All P (column n gx gy0)
  unfolding column
  All-column zero gx gy0 f = tt
  All-column (suc n) gx gy0 f = (
    f gy0 (omega arith) (omega arith),
    All-column n gx (gy0 + 1) (λ gy lo hi. f gy (omega arith) (omega arith)),
  )

  Any-append : (xs ys : List ℕ) → (Any P xs ⊎ Any P ys) → Any P (xs ++ ys)
  Any-append [] ys (inr h) = h
  Any-append [] ys (inl h) = absurd h
  Any-append (x ∷ xs) ys (inl (inl h)) = inl h
  Any-append (x ∷ xs) ys (inl (inr h)) = inr (Any-append xs ys (inl h))
  Any-append (x ∷ xs) ys (inr h) = inr (Any-append xs ys (inr h))

  pub Any-window :
      (n gx0 gy0 rows gx gy : ℕ)
      → InWindow n gx0 gy0 rows gx gy
      → P (cell_base gx gy)
      → Any P (window n gx0 gy0 rows)
  unfolding window
  Any-window zero gx0 gy0 rows gx gy h p = absurd (omega arith)
  Any-window (suc n) gx0 gy0 rows gx gy h p = elim (dec_lt gx0 gx) [
    | yes later ↦
        Any-append (column rows gx0 gy0) (window n (gx0 + 1) gy0 rows)
          (inr (Any-window n (gx0 + 1) gy0 rows gx gy (omega arith) p))
    | no here ↦
        let e : gx ≡ gx0 = omega arith in
        Any-append (column rows gx0 gy0) (window n (gx0 + 1) gy0 rows)
          (inl (Any-column rows gx0 gy0 gy h.2 h.3 (subst (λ t. P (cell_base t gy)) e p)))
  ]

  pub All-window :
      (n gx0 gy0 rows : ℕ)
      → ((gx gy : ℕ) → InWindow n gx0 gy0 rows gx gy → P (cell_base gx gy))
      → All P (window n gx0 gy0 rows)
  unfolding window
  All-window zero gx0 gy0 rows f = tt
  All-window (suc n) gx0 gy0 rows f =
      All-append P (column rows gx0 gy0) (window n (gx0 + 1) gy0 rows)
        (All-column rows gx0 gy0 (λ gy lo hi. f gx0 gy (omega arith)))
        (All-window n (gx0 + 1) gy0 rows (λ gx gy w. f gx gy (omega arith)))

-- The place of a cell that has the property.
pub Any-place : (P : ℕ → Type 0) (Q : Type 0) (xs : List ℕ) → All (λ x. P x → Q) xs → Any P xs → Q
Any-place P Q (x ∷ xs) (f, fs) (inl p) = f p
Any-place P Q (x ∷ xs) (f, fs) (inr p) = Any-place P Q xs fs p
Any-place P Q [] f p = absurd p

pub cell_base-IsBase : (gx gy : ℕ) → IsBase (cell_base gx gy)
unfolding cell_base
cell_base-IsBase gx gy =
    omega (arith, hilbert_xy2d_64-dist (gx * 2 ^ 24 % 2 ^ 32) (gy * 2 ^ 24 % 2 ^ 32))

-- A point's distance lies in a cell's run exactly where the point lies in the cell.
pub cell_base_lem :
    (gx gy x y : ℕ)
    → gx < 256
    → gy < 256
    → x < 2 ^ 32
    → y < 2 ^ 32
    → InCell (hilbert_xy2d_64 x y) (cell_base gx gy) ↔ ((x / 2 ^ 24 ≡ gx) × (y / 2 ^ 24 ≡ gy))
unfolding cell_base
cell_base_lem gx gy x y hx hy kx ky =
    let cx = gx * 2 ^ 24 % 2 ^ 32 in
    let cy = gy * 2 ^ 24 % 2 ^ 32 in
    let cell = hilbert_cell x y cx cy kx ky (omega arith) (omega arith) in
    (
      λ h. let (ex, ey) = cell.0 (omega arith) in (omega (arith, ex), omega (arith, ey)),
      λ h.
          let same : hilbert_xy2d_64 x y / 2 ^ 48 ≡ hilbert_xy2d_64 cx cy / 2 ^ 48 =
            cell.1 (omega arith, omega arith) in
          omega (arith, same),
    )

cell_base_injective :
    (gx gy gx' gy' : ℕ)
    → gx < 256
    → gy < 256
    → gx' < 256
    → gy' < 256
    → cell_base gx gy ≡ cell_base gx' gy'
    → (gx ≡ gx') × (gy ≡ gy')
unfolding cell_base
cell_base_injective gx gy gx' gy' hx hy hx' hy' e =
    let cx = gx * 2 ^ 24 % 2 ^ 32 in
    let cy = gy * 2 ^ 24 % 2 ^ 32 in
    let cx' = gx' * 2 ^ 24 % 2 ^ 32 in
    let cy' = gy' * 2 ^ 24 % 2 ^ 32 in
    let (ex, ey) =
      (hilbert_cell cx cy cx' cy' (omega arith) (omega arith) (omega arith) (omega arith)).0
        (omega (arith, e)) in
    (omega (arith, ex), omega (arith, ey))

column-Distinct : (n gx gy0 : ℕ) → gx < 256 → gy0 + n ≤ 256 → Distinct (column n gx gy0)
unfolding column
column-Distinct zero gx gy0 hx hy = tt
column-Distinct (suc n) gx gy0 hx hy = (
  All-column (λ c. cell_base gx gy0 ≢ c) n gx (gy0 + 1)
      (λ gy lo hi e.
        let (ex, ey) = cell_base_injective gx gy0 gx gy hx (omega arith) hx (omega arith) e in
        absurd (omega arith)),
  column-Distinct n gx (gy0 + 1) hx (omega arith),
)

Distinct-append :
    (xs ys : List ℕ)
    → Distinct xs
    → Distinct ys
    → All (λ x. All (λ y. x ≢ y) ys) xs
    → Distinct (xs ++ ys)
Distinct-append [] ys h k f = k
Distinct-append (x ∷ xs) ys (hx, h) k (fx, f) =
    (All-append (λ y. x ≢ y) xs ys hx fx, Distinct-append xs ys h k f)

pub window-Distinct :
    (n gx0 gy0 rows : ℕ) → gx0 + n ≤ 256 → gy0 + rows ≤ 256 → Distinct (window n gx0 gy0 rows)
unfolding window
window-Distinct zero gx0 gy0 rows hx hy = tt
window-Distinct (suc n) gx0 gy0 rows hx hy =
    Distinct-append (column rows gx0 gy0) (window n (gx0 + 1) gy0 rows)
      (column-Distinct rows gx0 gy0 (omega arith) hy)
      (window-Distinct n (gx0 + 1) gy0 rows (omega arith) hy)
      (All-column (λ c. All (λ d. c ≢ d) (window n (gx0 + 1) gy0 rows)) rows gx0 gy0
        (λ gy lo hi.
          All-window (λ d. cell_base gx0 gy ≢ d) n (gx0 + 1) gy0 rows
            (λ gx' gy' w e.
              let (ex, ey) =
                cell_base_injective gx0 gy gx' gy' (omega arith) (omega arith) (omega arith)
                  (omega arith) e in
              absurd (omega arith))))
