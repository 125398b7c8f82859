-- ===== src/Tests/Spatial.antt =====
-- The spatial index at concrete rectangles.
use tidesql_mysql.Spatial.{hilbert_xy2d_64, double_to_lex_uint32}
use tidesql_mysql.Spatial.Cells.{hilbert_cell}
use tidesql_mysql.Spatial.Inverse.{hilbert_xy2d_64_injective}
use tidesql_mysql.Spatial.Doubles.{Double, place, is_nan, double_to_lex_uint32_mono}
use tidesql_mysql.Spatial.Mbr.{Mbr, intersect, disjoint, within, contain, equal_to, mbr_predicate}
use tidesql_mysql.Spatial.Mbr.Codec.{NoNan, IsProper}
use tidesql_mysql.Spatial.Mbr.Predicates.{Holds, mbr_predicate_intersect, mbr_predicate_within}
use tidesql_mysql.Spatial.Ranges.{decompose_ranges}
use tidesql_mysql.Spatial.Ranges.Merge.{Within, Separated}
use tidesql_mysql.Spatial.Ranges.Window.{IsBox, decompose_ranges_exact, decompose_ranges_covers}
use tidesql_mysql.Spatial.Ranges.Window.{decompose_ranges-Separated}
use tidesql_mysql.Spatial.Wkb.{compute_mbr}
use tidesql_mysql.Spatial.Wkb.Bounds.{
  Point, IsFinitePoint, wkb_points, Attained, Encloses, compute_mbr_exact,
}
use tidesql_mysql.Base.{ℕ, ◌/◌, ◌^◌, ◌≤◌}
use tidesql_mysql.Base.{◌≡◌, refl, ◌↔◌, ◌⊎◌, inl, arith}
use tidesql_mysql.Base.{true, none, some}
use tidesql_mysql.Base.{List, [], ◌∷◌}
use tidesql_mysql.Base.{All, Any}
use tidesql_mysql.Base.Bytes.{Bytes, IsByte}

-- The box from (1, 1) to (3, 2) in units of a coarse cell.
abbrev low : ℕ
low = 16777216

abbrev far : ℕ
far = 50331648

abbrev high : ℕ
high = 33554432

box : IsBox low low far high
box = omega arith

decompose_ranges_covers_example :
    Any (Within (hilbert_xy2d_64 20000000 30000000)) (decompose_ranges low low far high)
decompose_ranges_covers_example =
    decompose_ranges_covers low low far high box 20000000 30000000 (omega arith) (omega arith)
      (omega arith) (omega arith)

decompose_ranges_exact_example :
    Any (Within (hilbert_xy2d_64 5 7)) (decompose_ranges low low far high) ↔ (
      (low / 2 ^ 24 ≤ 5 / 2 ^ 24)
      × (5 / 2 ^ 24 ≤ far / 2 ^ 24)
      × (low / 2 ^ 24 ≤ 7 / 2 ^ 24)
      × (7 / 2 ^ 24 ≤ high / 2 ^ 24))
decompose_ranges_exact_example =
    decompose_ranges_exact low low far high box 5 7 (omega arith) (omega arith) (omega arith)

decompose_ranges-Separated_example : Separated (decompose_ranges low low far high)
decompose_ranges-Separated_example = decompose_ranges-Separated low low far high box

abbrev across : ℕ
across = 3

abbrev up : ℕ
up = 5

hilbert_xy2d_64_injective_example : (across ≡ 3) × (up ≡ 5)
hilbert_xy2d_64_injective_example =
    hilbert_xy2d_64_injective across up 3 5 (omega arith) (omega arith) (omega arith) (omega arith)
      refl

hilbert_cell_example :
    (hilbert_xy2d_64 3 5 / 2 ^ 48 ≡ hilbert_xy2d_64 low 9 / 2 ^ 48)
    ↔ ((3 / 2 ^ 24 ≡ low / 2 ^ 24) × (5 / 2 ^ 24 ≡ 9 / 2 ^ 24))
hilbert_cell_example =
    hilbert_cell 3 5 low 9 (omega arith) (omega arith) (omega arith) (omega arith)

-- 1.0 and 2.0.
abbrev one : Double
one = 4607182418800017408

abbrev two : Double
two = 4611686018427387904

abbrev square : Mbr
square = record { xmin = one; ymin = one; xmax = two; ymax = two }

-- The same square with its corners swapped.
abbrev swapped : Mbr
swapped = record { xmin = two; ymin = two; xmax = one; ymax = one }

square-NoNan : NoNan square
unfolding is_nan
square-NoNan = (refl, refl, refl, refl)

swapped-NoNan : NoNan swapped
unfolding is_nan
swapped-NoNan = (refl, refl, refl, refl)

square-IsProper : IsProper square
unfolding place
square-IsProper = (square-NoNan, omega arith, omega arith)

double_to_lex_uint32_mono_example : double_to_lex_uint32 one ≤ double_to_lex_uint32 two
unfolding place
double_to_lex_uint32_mono_example =
    double_to_lex_uint32_mono one two (omega arith) (omega arith) (inl (omega arith))

mbr_predicate_intersect_example :
    ((mbr_predicate intersect square square ≡ true)
      ↔ ((u v : ℕ) × Holds square u v × Holds square u v))
    × ((mbr_predicate disjoint square square ≡ true)
        ↔ ((u v : ℕ) → Holds square u v → Holds square u v → ⊥))
mbr_predicate_intersect_example =
    mbr_predicate_intersect square square square-IsProper square-IsProper

mbr_predicate_within_example :
    ((mbr_predicate within square square ≡ true)
      ↔ ((u v : ℕ) → Holds square u v → Holds square u v))
    × (mbr_predicate contain square square ≡ mbr_predicate within square square)
    × ((mbr_predicate equal_to square square ≡ true) ↔ (
        (mbr_predicate within square square ≡ true) × (mbr_predicate within square square ≡ true)))
mbr_predicate_within_example = mbr_predicate_within square square square-IsProper square-IsProper

-- The value of the point (1.0, 2.0).
abbrev point : Bytes
point =
    0 ∷ 0 ∷ 0 ∷ 0 ∷ 1 ∷ 1 ∷ 0 ∷ 0 ∷ 0 ∷ 0 ∷ 0 ∷ 0 ∷ 0 ∷ 0 ∷ 0 ∷ 240 ∷ 63 ∷ 0 ∷ 0 ∷ 0 ∷ 0 ∷ 0 ∷ 0 ∷ 0
    ∷ 64 ∷ []

point-IsByte : All IsByte point
point-IsByte = ground arith

compute_mbr_exact_example :
    ((compute_mbr point ≡ none)
      × ((wkb_points point ≡ none)
          ⊎ ((ps : List Point) × (wkb_points point ≡ some ps) × All (λ p. ¬ IsFinitePoint p) ps)))
    ⊎ ((m : Mbr) × (ps : List Point) × (compute_mbr point ≡ some m)
        × (wkb_points point ≡ some ps)
        × Encloses m ps
        × Attained m ps)
compute_mbr_exact_example = compute_mbr_exact point point-IsByte
