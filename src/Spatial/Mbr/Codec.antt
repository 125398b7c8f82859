-- ===== src/Spatial/Mbr/Codec.antt =====
-- The stored rectangle and the query rectangle, written and read.
use tidesql_mysql.Base.LittleEndian.{le_bytes, le_value, le_value-le_bytes, take-le_bytes}
use tidesql_mysql.Spatial.Doubles.{Double, place, is_nan, lt_double}
use tidesql_mysql.Spatial.Mbr.{Mbr, build_value, read_value, parse_query_mbr, normalise}
use tidesql_mysql.Spatial.Doubles.{lt_double_lem}
use tidesql_mysql.Spatial.Mbr.{in_order}
use tidesql_mysql.Spatial.Mbr.{read_double, write_double}
use tidesql_mysql.Base.{◌^◌, ◌≤◌, ◌<◌}
use tidesql_mysql.Base.{◌≡◌, refl, sym, ap, ◌∙◌, ◌⊎◌, inl, inr, arith}
use tidesql_mysql.Base.{false, some}
use tidesql_mysql.Base.{[], ◌++◌, length, drop}
use tidesql_mysql.Base.{ltb, ltb→lt}
use tidesql_mysql.Base.{Bool-cases}
use tidesql_mysql.Base.Bytes.{Bytes}

abbrev pub IsMbr : Mbr → Type 0
IsMbr m = (m.xmin < 2 ^ 64) × (m.ymin < 2 ^ 64) × (m.xmax < 2 ^ 64) × (m.ymax < 2 ^ 64)

read_double-write_double :
    (d : Double) (rest : Bytes) → d < 2 ^ 64 → read_double (write_double d ++ rest) ≡ d
unfolding read_double write_double
read_double-write_double d rest h = ap le_value (take-le_bytes 8 d rest) ∙ le_value-le_bytes 8 d h

split_value :
    (m : Mbr)
    → (drop 8 (build_value m) ≡ write_double m.ymin ++ (write_double m.xmax ++ write_double m.ymax))
      × (drop 16 (build_value m) ≡ write_double m.xmax ++ write_double m.ymax)
      × (drop 24 (build_value m) ≡ write_double m.ymax ++ [])
      × (length (build_value m) ≡ 32)
unfolding build_value le_bytes
split_value m = (refl, refl, refl, refl)

-- The rectangle of four 64-bit patterns that an index entry stores is the one that the scan reads
-- back.
pub read_value-build_value : (m : Mbr) → IsMbr m → read_value (build_value m) ≡ some m
unfolding read_value
read_value-build_value m h =
    let (s₁, s₂, s₃, long) = split_value m in
    rw (long, s₁, s₂, s₃, first m)
      (simp (
        read_double-write_double m.xmin _ h.0,
        read_double-write_double m.ymin _ h.1,
        read_double-write_double m.xmax _ h.2,
        read_double-write_double m.ymax [] h.3,
      ))
  where
    first :
        (n : Mbr)
        → read_double (build_value n)
          ≡ read_double (
              write_double n.xmin
              ++ (write_double n.ymin ++ (write_double n.xmax ++ write_double n.ymax)))
    first n = unfold build_value in refl

-- A query rectangle in the server's key buffer.
abbrev pub query_key : Mbr → Bytes
query_key m =
    write_double m.xmin ++ (write_double m.xmax ++ (write_double m.ymin ++ write_double m.ymax))

-- No corner is a NaN.
abbrev pub NoNan : Mbr → Type 0
NoNan m =
    (is_nan m.xmin ≡ false)
    × (is_nan m.ymin ≡ false)
    × (is_nan m.xmax ≡ false)
    × (is_nan m.ymax ≡ false)

-- The low edges are not above the high ones.
abbrev pub IsProper : Mbr → Type 0
IsProper m = NoNan m × (place m.xmin ≤ place m.xmax) × (place m.ymin ≤ place m.ymax)

-- The first two are the last two, in their order or swapped.
abbrev pub SamePair : Double → Double → Double → Double → Type 0
SamePair a b lo hi = ((a ≡ lo) × (b ≡ hi)) ⊎ ((a ≡ hi) × (b ≡ lo))

in_order_lem :
    (lo hi : Double)
    → is_nan lo ≡ false
    → is_nan hi ≡ false
    → (place (in_order lo hi).0 ≤ place (in_order lo hi).1)
      × SamePair (in_order lo hi).0 (in_order lo hi).1 lo hi
      × (is_nan (in_order lo hi).0 ≡ false)
      × (is_nan (in_order lo hi).1 ≡ false)
unfolding in_order
in_order_lem lo hi hl hh = elim (Bool-cases (lt_double hi lo)) [
  | inl inverted ↦
      rw inverted (
        omega (arith, ltb→lt (place hi) (place lo) (sym test ∙ inverted)),
        inr (refl, refl),
        hh,
        hl,
      )
  | inr sorted ↦ rw sorted (ground (arith, sym test ∙ sorted), inl (refl, refl), hl, hh)
]
  where
    test : lt_double hi lo ≡ ltb (place hi) (place lo)
    test = lt_double_lem hi lo hh hl

split_key :
    (m : Mbr)
    → (drop 8 (query_key m) ≡ write_double m.xmax ++ (write_double m.ymin ++ write_double m.ymax))
      × (drop 16 (query_key m) ≡ write_double m.ymin ++ write_double m.ymax)
      × (drop 24 (query_key m) ≡ write_double m.ymax ++ [])
unfolding write_double le_bytes
split_key m = (refl, refl, refl)

parse_query_mbr-normalise : (m : Mbr) → IsMbr m → parse_query_mbr (query_key m) ≡ normalise m
unfolding parse_query_mbr
parse_query_mbr-normalise m h =
    let (s₁, s₂, s₃) = split_key m in
    let p₁ = read_double-write_double m.xmin _ h.0 in
    let p₂ = ap read_double s₁ ∙ read_double-write_double m.xmax _ h.2 in
    let p₃ = ap read_double s₂ ∙ read_double-write_double m.ymin _ h.1 in
    let p₄ = ap read_double s₃ ∙ read_double-write_double m.ymax [] h.3 in
    λ i. normalise (record { xmin = p₁ i; ymin = p₃ i; xmax = p₂ i; ymax = p₄ i })

-- For a query key of four doubles that are no NaN, the rectangle that is parsed has its low edges
-- not above its high ones, and on each axis the two values of the key, in their order or swapped.
pub parse_query_mbr-IsProper :
    (raw : Mbr)
    → IsMbr raw
    → NoNan raw
    → (q : Mbr) × (parse_query_mbr (query_key raw) ≡ q)
      × IsProper q
      × SamePair q.xmin q.xmax raw.xmin raw.xmax
      × SamePair q.ymin q.ymax raw.ymin raw.ymax
parse_query_mbr-IsProper raw w h =
    let (x, px, nx, nx') = in_order_lem raw.xmin raw.xmax h.0 h.2 in
    let (y, py, ny, ny') = in_order_lem raw.ymin raw.ymax h.1 h.3 in
    (
      normalise raw,
      parse_query_mbr-normalise raw w,
      unfold normalise in ((nx, ny, nx', ny'), x, y),
      unfold normalise in px,
      unfold normalise in py,
    )
