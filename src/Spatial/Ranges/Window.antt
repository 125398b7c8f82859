-- ===== src/Spatial/Ranges/Window.antt =====
-- The ranges that `decompose_ranges` makes of a query box.
use tidesql_mysql.Spatial.Ranges.Loops.{All-window, Any-window}
use tidesql_mysql.Spatial.Ranges.Loops.{Any-place, cell_base-IsBase, cell_base_lem, window-Distinct}
use tidesql_mysql.Spatial.{hilbert_xy2d_64}
use tidesql_mysql.Spatial.Curve.{hilbert_xy2d_64-dist}
use tidesql_mysql.Spatial.Ranges.{sort, ranges_of}
use tidesql_mysql.Spatial.Ranges.{covered_cells, decompose_ranges}
use tidesql_mysql.Spatial.Ranges.Merge.{Within, InCell, IsBase, Strict, Separated}
use tidesql_mysql.Spatial.Ranges.Merge.{Any-sort, All-sort, sort-Strict, ranges_of-Within}
use tidesql_mysql.Spatial.Ranges.Merge.{ranges_of-Separated}
use native.Mathlib.Decide.{dec_lt}
use tidesql_mysql.Base.{ℕ, ◌+◌, ◌-◌, ◌*◌, ◌/◌, ◌^◌, ◌≤◌, ◌<◌}
use tidesql_mysql.Base.{◌≡◌, refl, ◌↔◌, inl, arith}
use tidesql_mysql.Base.{false}
use tidesql_mysql.Base.{List, [], ◌∷◌}
use tidesql_mysql.Base.{All, Any}
use tidesql_mysql.Base.{ltb, lt→ltb}

-- The number of coarse cells that a query box touches.
abbrev pub cell_count : ℕ → ℕ → ℕ → ℕ → ℕ
cell_count x0 y0 x1 y1 = (x1 / 2 ^ 24 - x0 / 2 ^ 24 + 1) * (y1 / 2 ^ 24 - y0 / 2 ^ 24 + 1)

-- The box is given by its low and its high corner on the 32-bit grid.
abbrev pub IsBox : ℕ → ℕ → ℕ → ℕ → Type 0
IsBox x0 y0 x1 y1 = (x0 ≤ x1) × (x1 < 2 ^ 32) × (y0 ≤ y1) × (y1 < 2 ^ 32)

module _ (x0 y0 x1 y1 : ℕ) (box : IsBox x0 y0 x1 y1) where
  cells : List ℕ
  cells = covered_cells (x0 / 2 ^ 24) (y0 / 2 ^ 24) (x1 / 2 ^ 24) (y1 / 2 ^ 24)

  cells-IsBase : All IsBase cells
  unfolding cells covered_cells
  cells-IsBase =
      All-window IsBase (x1 / 2 ^ 24 + 1 - x0 / 2 ^ 24) (x0 / 2 ^ 24) (y0 / 2 ^ 24)
        (y1 / 2 ^ 24 + 1 - y0 / 2 ^ 24) (λ gx gy w. cell_base-IsBase gx gy)

  cells-Strict : Strict (sort cells)
  unfolding cells covered_cells
  cells-Strict = sort-Strict cells (
      window-Distinct (x1 / 2 ^ 24 + 1 - x0 / 2 ^ 24) (x0 / 2 ^ 24) (y0 / 2 ^ 24)
        (y1 / 2 ^ 24 + 1 - y0 / 2 ^ 24) (omega arith) (omega arith))

  -- A point lies in a covered cell exactly where its own cell is in the window.
  cells-InCell :
      (x y : ℕ)
      → x < 2 ^ 32
      → y < 2 ^ 32
      → Any (InCell (hilbert_xy2d_64 x y)) cells ↔ (
          (x0 / 2 ^ 24 ≤ x / 2 ^ 24)
          × (x / 2 ^ 24 ≤ x1 / 2 ^ 24)
          × (y0 / 2 ^ 24 ≤ y / 2 ^ 24)
          × (y / 2 ^ 24 ≤ y1 / 2 ^ 24))
  unfolding cells covered_cells
  cells-InCell x y hx hy = (
    λ p.
        Any-place (InCell (hilbert_xy2d_64 x y)) _ cells
          (All-window (λ c. InCell (hilbert_xy2d_64 x y) c → _) (x1 / 2 ^ 24 + 1 - x0 / 2 ^ 24)
            (x0 / 2 ^ 24) (y0 / 2 ^ 24) (y1 / 2 ^ 24 + 1 - y0 / 2 ^ 24)
            (λ gx gy w h.
              let (ex, ey) = (cell_base_lem gx gy x y (omega arith) (omega arith) hx hy).0 h in
              (omega (arith, ex), omega (arith, ex), omega (arith, ey), omega (arith, ey))))
          p,
    λ w.
        Any-window (InCell (hilbert_xy2d_64 x y)) (x1 / 2 ^ 24 + 1 - x0 / 2 ^ 24) (x0 / 2 ^ 24)
          (y0 / 2 ^ 24) (y1 / 2 ^ 24 + 1 - y0 / 2 ^ 24) (x / 2 ^ 24) (y / 2 ^ 24) (omega arith)
          ((cell_base_lem (x / 2 ^ 24) (y / 2 ^ 24) x y (omega arith) (omega arith) hx hy).1
            (refl, refl)),
  )

  narrow_box : cell_count x0 y0 x1 y1 ≤ 4096 → decompose_ranges x0 y0 x1 y1 ≡ ranges_of (sort cells)
  unfolding decompose_ranges cells
  narrow_box narrow = rw (test narrow)
    where
      test : cell_count x0 y0 x1 y1 ≤ 4096 → ltb 4096 (cell_count x0 y0 x1 y1) ≡ false
      test h = ground arith

  wide_box : 4096 < cell_count x0 y0 x1 y1 → decompose_ranges x0 y0 x1 y1 ≡ (0, 2 ^ 64 - 1) ∷ []
  unfolding decompose_ranges
  wide_box wide = rw (lt→ltb 4096 (cell_count x0 y0 x1 y1) wide)

  ranges-InCell :
      (d : ℕ)
      → cell_count x0 y0 x1 y1 ≤ 4096
      → Any (Within d) (decompose_ranges x0 y0 x1 y1) ↔ Any (InCell d) cells
  ranges-InCell d narrow =
      let merged =
        ranges_of-Within d (sort cells) (All-sort IsBase cells cells-IsBase) cells-Strict in
      let sorted = Any-sort (InCell d) cells in
      rw (narrow_box narrow) (λ p. sorted.0 (merged.0 p), λ p. merged.1 (sorted.1 p))

  -- For a query box on the 32-bit grid that touches at most 4096 coarse cells, the curve distance
  -- of a grid point lies in one of the ranges of `decompose_ranges` exactly where the coarse cell
  -- of the point lies in the window of coarse cells from the one of the low corner to the one of
  -- the high corner.
  pub decompose_ranges_exact :
      (x y : ℕ)
      → x < 2 ^ 32
      → y < 2 ^ 32
      → cell_count x0 y0 x1 y1 ≤ 4096
      → Any (Within (hilbert_xy2d_64 x y)) (decompose_ranges x0 y0 x1 y1) ↔ (
          (x0 / 2 ^ 24 ≤ x / 2 ^ 24)
          × (x / 2 ^ 24 ≤ x1 / 2 ^ 24)
          × (y0 / 2 ^ 24 ≤ y / 2 ^ 24)
          × (y / 2 ^ 24 ≤ y1 / 2 ^ 24))
  decompose_ranges_exact x y hx hy narrow =
      let ranges = ranges-InCell (hilbert_xy2d_64 x y) narrow in
      let points = cells-InCell x y hx hy in
      (λ p. points.0 (ranges.0 p), λ p. ranges.1 (points.1 p))

  -- For a query box on the 32-bit grid, given by its low and its high corner, the curve distance
  -- of every point of the box lies in one of the ranges that `decompose_ranges` makes, however
  -- large the box is.
  pub decompose_ranges_covers :
      (x y : ℕ)
      → x0 ≤ x
      → x ≤ x1
      → y0 ≤ y
      → y ≤ y1
      → Any (Within (hilbert_xy2d_64 x y)) (decompose_ranges x0 y0 x1 y1)
  decompose_ranges_covers x y lx hx ly hy = elim (dec_lt 4096 (cell_count x0 y0 x1 y1)) [
    | yes wide ↦ rw (wide_box wide) (inl (omega arith, omega (arith, hilbert_xy2d_64-dist x y)))
    | no narrow ↦
        (decompose_ranges_exact x y (omega arith) (omega arith) (omega arith)).1 (omega arith)
  ]

  -- For a query box on the 32-bit grid, the ranges of `decompose_ranges` ascend, and between two
  -- of them at least one distance is left out.
  pub decompose_ranges-Separated : Separated (decompose_ranges x0 y0 x1 y1)
  decompose_ranges-Separated = elim (dec_lt 4096 (cell_count x0 y0 x1 y1)) [
    | yes wide ↦ rw (wide_box wide) (omega arith, tt, tt)
    | no narrow ↦
        rw (narrow_box (omega arith))
          (ranges_of-Separated (sort cells) (All-sort IsBase cells cells-IsBase) cells-Strict)
  ]
