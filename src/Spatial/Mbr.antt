-- ===== src/Spatial/Mbr.antt =====
-- Rectangles of tidesdb/src/core/spatial.cc: the stored value, the query rectangle and the match
-- modes. A double is written and read as the machine stores it, lowest byte first.
pub mod Codec
pub mod Predicates
use tidesql_mysql.Base.LittleEndian.{le_bytes, le_value}
use tidesql_mysql.Spatial.{hilbert_xy2d_64, double_to_lex_uint32, encode_hilbert_be}
use tidesql_mysql.Spatial.Doubles.{Double, lt_double, le_double, eq_double}
use tidesql_mysql.Base.{ℕ, ◌+◌}
use tidesql_mysql.Base.{Bool, false, not, ◌&&◌, ◌||◌, Option, none, some}
use tidesql_mysql.Base.{◌++◌, length, take, drop}
use tidesql_mysql.Base.{ltb, if◌then◌else◌}
use tidesql_mysql.Base.Bytes.{Bytes}

-- `mbr_t`
pub record Mbr : Type 0 where
  pub xmin : Double
  pub ymin : Double
  pub xmax : Double
  pub ymax : Double

-- `predicate`
pub data Predicate : Type 0 where
  intersect contain within equal_to disjoint unsupported : Predicate

abbrev pub double_size : ℕ
double_size = 8

abbrev pub mbr_value_len : ℕ
mbr_value_len = 32

unfoldable pub read_double : Bytes → Double
read_double p = le_value (take double_size p)

unfoldable pub write_double : Double → Bytes
write_double = le_bytes double_size

-- The stored key: the place of the centroid on the curve, then the primary key.
unfoldable pub build_key : Double → Double → Bytes → Bytes
build_key cx cy pk =
    let qx = double_to_lex_uint32 cx in
    let qy = double_to_lex_uint32 cy in encode_hilbert_be (hilbert_xy2d_64 qx qy) ++ pk

unfoldable pub build_value : Mbr → Bytes
unfolding write_double
build_value m =
    write_double m.xmin ++ (write_double m.ymin ++ (write_double m.xmax ++ write_double m.ymax))

-- The copy of a stored value into an `mbr_t` in the scan, which passes over a shorter value.
unfoldable pub read_value : Bytes → Option Mbr
unfolding read_double
read_value val =
    if ltb (length val) mbr_value_len
    then none
    else some (record {
      xmin = read_double val;
      ymin = read_double (drop 8 val);
      xmax = read_double (drop 16 val);
      ymax = read_double (drop 24 val);
    })

-- One axis: `std::swap` where the low corner is above the high one.
unfoldable pub in_order : Double → Double → Double × Double
in_order lo hi = if lt_double hi lo then (hi, lo) else (lo, hi)

unfoldable pub normalise : Mbr → Mbr
normalise m =
    let x = in_order m.xmin m.xmax in
    let y = in_order m.ymin m.ymax in record { xmin = x.0; ymin = y.0; xmax = x.1; ymax = y.1 }

-- The server's corner order is xmin, xmax, ymin, ymax.
unfoldable pub parse_query_mbr : Bytes → Mbr
parse_query_mbr key = normalise (record {
  xmin = read_double key;
  xmax = read_double (drop 8 key);
  ymin = read_double (drop 16 key);
  ymax = read_double (drop 24 key);
})

unfoldable pub mbr_intersects : Mbr → Mbr → Bool
mbr_intersects a b = not (
    lt_double a.xmax b.xmin
    || lt_double b.xmax a.xmin
    || lt_double a.ymax b.ymin
    || lt_double b.ymax a.ymin)

unfoldable pub mbr_within : Mbr → Mbr → Bool
mbr_within a b =
    le_double b.xmin a.xmin
    && le_double a.xmax b.xmax
    && le_double b.ymin a.ymin
    && le_double a.ymax b.ymax

unfoldable pub mbr_equals : Mbr → Mbr → Bool
mbr_equals a b =
    eq_double a.xmin b.xmin
    && eq_double a.xmax b.xmax
    && eq_double a.ymin b.ymin
    && eq_double a.ymax b.ymax

unfoldable pub mbr_predicate : Predicate → Mbr → Mbr → Bool
unfolding mbr_intersects mbr_within mbr_equals
mbr_predicate intersect query entry = mbr_intersects entry query
mbr_predicate contain query entry = mbr_within entry query
mbr_predicate within query entry = mbr_within entry query
mbr_predicate equal_to query entry = mbr_equals entry query
mbr_predicate disjoint query entry = not (mbr_intersects entry query)
mbr_predicate unsupported query entry = false
