-- ===== src/Spatial/Mbr/Predicates.antt =====
-- What the match modes say of the rectangles as sets of points.
use Prim.Native.Nat.{max}
use tidesql_mysql.Spatial.Doubles.{place}
use tidesql_mysql.Spatial.Mbr.{Mbr, mbr_predicate, mbr_intersects, mbr_within, mbr_equals}
use tidesql_mysql.Spatial.Mbr.{intersect, contain, within, equal_to, disjoint}
use tidesql_mysql.Spatial.Mbr.Codec.{NoNan, IsProper}
use tidesql_mysql.Spatial.Doubles.{lt_double_lem, le_double_lem, eq_double_lem}
use tidesql_mysql.Base.{ℕ, ◌≤◌}
use tidesql_mysql.Base.{◌≡◌, refl, ◌↔◌, arith}
use tidesql_mysql.Base.{true, not, ◌&&◌, ◌||◌}
use tidesql_mysql.Base.{ltb, leb, ◌==◌}

-- The point with these places on the two axes lies in the rectangle.
abbrev pub Holds : Mbr → ℕ → ℕ → Type 0
Holds m u v = (place m.xmin ≤ u) × (u ≤ place m.xmax) × (place m.ymin ≤ v) × (v ≤ place m.ymax)

intersects_lem :
    (a b : Mbr)
    → NoNan a
    → NoNan b
    → mbr_intersects a b
      ≡ not (
          ltb (place a.xmax) (place b.xmin)
          || ltb (place b.xmax) (place a.xmin)
          || ltb (place a.ymax) (place b.ymin)
          || ltb (place b.ymax) (place a.ymin))
unfolding mbr_intersects
intersects_lem a b h k = rw (
  lt_double_lem a.xmax b.xmin h.2 k.0,
  lt_double_lem b.xmax a.xmin k.2 h.0,
  lt_double_lem a.ymax b.ymin h.3 k.1,
  lt_double_lem b.ymax a.ymin k.3 h.1,
)

within_lem :
    (a b : Mbr)
    → NoNan a
    → NoNan b
    → mbr_within a b ≡ (
        leb (place b.xmin) (place a.xmin)
        && leb (place a.xmax) (place b.xmax)
        && leb (place b.ymin) (place a.ymin)
        && leb (place a.ymax) (place b.ymax))
unfolding mbr_within
within_lem a b h k = rw (
  le_double_lem b.xmin a.xmin k.0 h.0,
  le_double_lem a.xmax b.xmax h.2 k.2,
  le_double_lem b.ymin a.ymin k.1 h.1,
  le_double_lem a.ymax b.ymax h.3 k.3,
)

equals_lem :
    (a b : Mbr)
    → NoNan a
    → NoNan b
    → mbr_equals a b ≡ (
        (place a.xmin == place b.xmin)
        && (place a.xmax == place b.xmax)
        && (place a.ymin == place b.ymin)
        && (place a.ymax == place b.ymax))
unfolding mbr_equals
equals_lem a b h k = rw (
  eq_double_lem a.xmin b.xmin h.0 k.0,
  eq_double_lem a.xmax b.xmax h.2 k.2,
  eq_double_lem a.ymin b.ymin h.1 k.1,
  eq_double_lem a.ymax b.ymax h.3 k.3,
)

-- For two rectangles without NaN whose low edges are not above the high ones, intersect is true
-- exactly where they share a point of the number plane, and disjoint exactly where they share
-- none.
pub mbr_predicate_intersect :
    (query entry : Mbr)
    → IsProper query
    → IsProper entry
    → ((mbr_predicate intersect query entry ≡ true)
        ↔ ((u v : ℕ) × Holds query u v × Holds entry u v))
      × ((mbr_predicate disjoint query entry ≡ true)
          ↔ ((u v : ℕ) → Holds query u v → Holds entry u v → ⊥))
unfolding mbr_predicate
mbr_predicate_intersect query entry hq he = rw (intersects_lem entry query he.0 hq.0) (
  (
    λ e. (
      max (place query.xmin) (place entry.xmin),
      max (place query.ymin) (place entry.ymin),
      ground arith,
      ground arith,
    ),
    λ p. ground (arith, p.2, p.3),
  ),
  (
    λ e u v p q. ground (arith, p, q),
    λ f. ground (
      arith,
      f (max (place query.xmin) (place entry.xmin)) (max (place query.ymin) (place entry.ymin)),
    ),
  ),
)

-- For two rectangles without NaN whose low edges are not above the high ones, within is true
-- exactly where every point of the row's rectangle is one of the query's, contain is the same
-- test, and equal holds exactly where each is within the other.
pub mbr_predicate_within :
    (query entry : Mbr)
    → IsProper query
    → IsProper entry
    → ((mbr_predicate within query entry ≡ true) ↔ ((u v : ℕ) → Holds entry u v → Holds query u v))
      × (mbr_predicate contain query entry ≡ mbr_predicate within query entry)
      × ((mbr_predicate equal_to query entry ≡ true)
          ↔ ((mbr_predicate within query entry ≡ true) × (mbr_predicate within entry query ≡ true)))
unfolding mbr_predicate
mbr_predicate_within query entry hq he =
    rw
      (
        within_lem entry query he.0 hq.0,
        within_lem query entry hq.0 he.0,
        equals_lem entry query he.0 hq.0,
      )
      (
        (
          λ e u v h. ground arith,
          λ f. ground (
            arith,
            f (place entry.xmin) (place entry.ymin),
            f (place entry.xmax) (place entry.ymax),
          ),
        ),
        refl,
        (λ e. (ground arith, ground arith), λ h. ground (arith, h.0, h.1)),
      )
