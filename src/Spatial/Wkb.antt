-- ===== src/Spatial/Wkb.antt =====
-- The well-known-binary walk of tidesdb/src/core/spatial.cc. The cursor is the list of the bytes not
-- yet read, and `none` is the answer false. The walk is written over what a coordinate pair does to
-- a state: the code's state is the rectangle that `grow` widens. Counts and doubles are read as the
-- machine stores them, lowest byte first.
pub mod Walk
pub mod Bounds
use tidesql_mysql.Base.LittleEndian.{le_value}
use tidesql_mysql.Spatial.Doubles.{Double, lt_double, le_double, is_finite, dbl_max, neg_dbl_max}
use tidesql_mysql.Spatial.Mbr.{Mbr, read_double}
use tidesql_mysql.Base.{ℕ, zero, suc, ◌+◌}
use tidesql_mysql.Base.{◌&&◌, ◌||◌, Option, none, some, ◌>>=◌}
use tidesql_mysql.Base.{length, take, drop}
use tidesql_mysql.Base.{ltb, ◌==◌, if◌then◌else◌}
use tidesql_mysql.Base.Bytes.{Bytes}

abbrev pub wkb_max_points : ℕ
wkb_max_points = 1000000

abbrev pub wkb_max_rings : ℕ
wkb_max_rings = 10000

abbrev pub wkb_max_geoms : ℕ
wkb_max_geoms = 100000

abbrev pub wkb_max_recursion_depth : ℕ
wkb_max_recursion_depth = 32

abbrev pub srid_size : ℕ
srid_size = 4

abbrev pub wkb_header_size : ℕ
wkb_header_size = 5

abbrev pub wkb_count_size : ℕ
wkb_count_size = 4

abbrev pub point_data_size : ℕ
point_data_size = 16

-- One part of the walk: from the cursor and the state to what they are behind it.
abbrev pub Step : Type 0 → Type 0
Step S = Bytes → S → Option (Bytes × S)

-- The loop `for (i = 0; i < n; i++) if (!step(p, end, m)) return false;`.
unfoldable pub repeat : {S : Type 0} → ℕ → Step S → Step S
repeat zero step p s = some (p, s)
repeat (suc n) step p s = step p s >>= λ r. repeat n step r.0 r.1

-- A count that is refused above a cap, then that many steps.
unfoldable pub counted : {S : Type 0} → ℕ → Step S → Step S
counted cap step p s =
    if ltb (length p) wkb_count_size
    then none
    else (let n = le_value (take wkb_count_size p) in
        let rest = drop wkb_count_size p in if ltb cap n then none else repeat n step rest s)

module _ {S : Type 0} (visit : Double → Double → S → S) where
  unfoldable pub wkb_read_point : Step S
  wkb_read_point p s =
      if ltb (length p) point_data_size
      then none
      else some (drop point_data_size p, visit (read_double p) (read_double (drop 8 p)) s)

  unfoldable pub wkb_read_point_sequence : Step S
  wkb_read_point_sequence = counted wkb_max_points wkb_read_point

  -- The body of a geometry, by its type tag; `nested` parses a geometry one level down.
  unfoldable pub wkb_body : Step S → ℕ → Step S
  wkb_body nested gt p s =
      if gt == 1
      then wkb_read_point p s
      else if gt == 2
      then wkb_read_point_sequence p s
      else if gt == 3
      then counted wkb_max_rings wkb_read_point_sequence p s
      else if (gt == 4 || gt == 5) || (gt == 6 || gt == 7)
      then counted wkb_max_geoms nested p s
      else none

  -- `levels` is how many levels may still be entered, 33 at depth 0.
  unfoldable pub wkb_parse_geometry : ℕ → Step S
  wkb_parse_geometry zero p s = none
  wkb_parse_geometry (suc levels) p s =
      let nested = wkb_parse_geometry levels in
      if ltb (length p) wkb_header_size
      then none
      else wkb_body nested (le_value (take 4 (drop 1 p))) (drop wkb_header_size p) s

  -- The walk over a field value, behind its prefix.
  unfoldable pub wkb_walk : Bytes → S → Option S
  wkb_walk bytes s =
      if ltb (length bytes) (srid_size + wkb_header_size)
      then none
      else (wkb_parse_geometry (wkb_max_recursion_depth + 1) (drop srid_size bytes) s >>= λ r.
          some r.1)

-- What `wkb_read_point` does to the rectangle.
unfoldable pub grow : Double → Double → Mbr → Mbr
grow x y m =
    if is_finite x && is_finite y
    then record {
      xmin = if lt_double x m.xmin then x else m.xmin;
      ymin = if lt_double y m.ymin then y else m.ymin;
      xmax = if lt_double m.xmax x then x else m.xmax;
      ymax = if lt_double m.ymax y then y else m.ymax;
    }
    else m

abbrev pub empty_mbr : Mbr
empty_mbr = record { xmin = dbl_max; ymin = dbl_max; xmax = neg_dbl_max; ymax = neg_dbl_max }

unfoldable pub compute_mbr : Bytes → Option Mbr
compute_mbr bytes = wkb_walk grow bytes empty_mbr >>= λ m.
    if le_double m.xmin m.xmax && le_double m.ymin m.ymax then some m else none
