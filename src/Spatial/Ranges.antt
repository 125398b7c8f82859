-- ===== src/Spatial/Ranges.antt =====
-- `decompose_ranges` of tidesdb/src/core/spatial.cc: a quantised query box as runs of the curve.
pub mod Merge
pub mod Loops
pub mod Window
use tidesql_mysql.Spatial.{hilbert_xy2d_64, hilbert_order}
use tidesql_mysql.Base.{ℕ, zero, suc, ◌+◌, ◌-◌, ◌*◌, ◌/◌, ◌%◌, ◌^◌}
use tidesql_mysql.Base.{List, [], ◌∷◌, ◌++◌}
use tidesql_mysql.Base.{ltb, leb, if◌then◌else◌}

abbrev pub decomp_bits : ℕ
decomp_bits = 8

abbrev pub decomp_full_scan_threshold : ℕ
decomp_full_scan_threshold = 2 ^ decomp_bits * 16

abbrev pub shift : ℕ
shift = hilbert_order - decomp_bits

-- The width of a coarse cell on the curve.
abbrev pub cell_span : ℕ
cell_span = 2 ^ (2 * shift)

-- The inclusive bounds of a range.
abbrev pub Range : Type 0
Range = ℕ × ℕ

-- The start of the cell's run: the distance of its corner, snapped down to a multiple of the span.
unfoldable pub cell_base : ℕ → ℕ → ℕ
cell_base gx gy =
    hilbert_xy2d_64 (gx * 2 ^ shift % 2 ^ 32) (gy * 2 ^ shift % 2 ^ 32) / cell_span * cell_span

-- The inner loop, with `n` rounds to go.
unfoldable pub column : ℕ → ℕ → ℕ → List ℕ
column zero gx gy = []
column (suc n) gx gy = cell_base gx gy ∷ column n gx (gy + 1)

-- The outer loop, with `n` rounds to go.
unfoldable pub window : ℕ → ℕ → ℕ → ℕ → List ℕ
window zero gx gy rows = []
window (suc n) gx gy rows = column rows gx gy ++ window n (gx + 1) gy rows

-- `std::sort` on numbers.
unfoldable pub insert : ℕ → List ℕ → List ℕ
insert a [] = a ∷ []
insert a (b ∷ bs) = if leb a b then a ∷ b ∷ bs else b ∷ insert a bs

unfoldable pub sort : List ℕ → List ℕ
unfolding insert
sort [] = []
sort (a ∷ bs) = insert a (sort bs)

-- The loop over the sorted cells behind the first, with the range in hand.
unfoldable pub merge : ℕ → ℕ → List ℕ → List Range
merge range_lo range_hi [] = (range_lo, range_hi) ∷ []
merge range_lo range_hi (cell ∷ cells) =
    let hi = (cell + cell_span - 1) % 2 ^ 64 in
    let joined = merge range_lo (if ltb range_hi hi then hi else range_hi) cells in
    let apart = (range_lo, range_hi) ∷ merge cell hi cells in
    if leb cell ((range_hi + 1) % 2 ^ 64) then joined else apart

-- From the first cell on. A list with no cell is out of the code's contract.
unfoldable pub ranges_of : List ℕ → List Range
unfolding merge
ranges_of [] = []
ranges_of (cell ∷ cells) = merge cell ((cell + cell_span - 1) % 2 ^ 64) cells

-- The covered cells of a box, in the order of the two loops.
unfoldable pub covered_cells : ℕ → ℕ → ℕ → ℕ → List ℕ
unfolding window column cell_base
covered_cells gx0 gy0 gx1 gy1 = window (gx1 + 1 - gx0) gx0 gy0 (gy1 + 1 - gy0)

unfoldable pub decompose_ranges : ℕ → ℕ → ℕ → ℕ → List Range
decompose_ranges qx_min qy_min qx_max qy_max =
    let gx0 = qx_min / 2 ^ shift in
    let gy0 = qy_min / 2 ^ shift in
    let gx1 = qx_max / 2 ^ shift in
    let gy1 = qy_max / 2 ^ shift in
    let cell_count = (gx1 - gx0 + 1) * (gy1 - gy0 + 1) in
    if ltb decomp_full_scan_threshold cell_count
    then (0, 2 ^ 64 - 1) ∷ []
    else ranges_of (sort (covered_cells gx0 gy0 gx1 gy1))
