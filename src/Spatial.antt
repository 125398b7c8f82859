-- ===== src/Spatial.antt =====
-- The Hilbert curve and the quantised coordinates of tidesdb/src/core/spatial.{h,cc}. A double is its
-- IEEE-754 bit pattern, a number below 2 ^ 64.
pub mod Digits
pub mod Curve
pub mod Cells
pub mod Inverse
pub mod Doubles
pub mod Mbr
pub mod Wkb
pub mod Ranges
use tidesql_mysql.Base.{ℕ, zero, suc, ◌+◌, ◌-◌, ◌*◌, ◌/◌, ◌%◌, ◌^◌, bit_and, bit_xor}
use tidesql_mysql.Base.{take}
use tidesql_mysql.Base.{ltb, ◌==◌, if◌then◌else◌}
use tidesql_mysql.Base.Bytes.{Bytes, be_bytes, be_fold}

abbrev pub hilbert_order : ℕ
hilbert_order = 32

abbrev pub hilbert_key_len : ℕ
hilbert_key_len = 8

abbrev pub sign_mask : ℕ
sign_mask = 2 ^ 63

-- `~bits` is the complement in 64 bits; on a clear sign bit `bits ^= mask` adds it.
unfoldable pub double_to_lex_uint32 : ℕ → ℕ
double_to_lex_uint32 bits =
    (if ltb 0 (bit_and bits sign_mask) then 2 ^ 64 - 1 - bits else bit_xor bits sign_mask)
    / 2 ^ 32
    % 2 ^ 32

-- uint32_t a - b.
abbrev pub sub32 : ℕ → ℕ → ℕ
sub32 a b = (a + 2 ^ 32 - b) % 2 ^ 32

-- `(uint32_t)s << 1` is 0 for the largest `s`, and `n - 1` then wraps to all ones.
unfoldable pub hilbert_rot : ℕ → ℕ → ℕ → ℕ → ℕ → ℕ × ℕ
hilbert_rot n x y rx ry =
    if ry == 0
    then (if rx == 1 then (sub32 (sub32 n 1) y, sub32 (sub32 n 1) x) else (y, x))
    else (x, y)

-- `(x & s) > 0 ? 1 : 0`
unfoldable pub quadrant_flag : ℕ → ℕ → ℕ
quadrant_flag x s = if ltb 0 (bit_and x s) then 1 else 0

-- The loop with `s = 2 ^ k` in the round that has `k` more to go. Everything is in 64 bits.
unfoldable pub hilbert_loop : ℕ → ℕ → ℕ → ℕ → ℕ
unfolding quadrant_flag hilbert_rot
hilbert_loop zero x y d = d
hilbert_loop (suc k) x y d =
    let s = 2 ^ k in
    let rx = quadrant_flag x s in
    let ry = quadrant_flag y s in
    let d' = (d + s * s % 2 ^ 64 * bit_xor (3 * rx) ry) % 2 ^ 64 in
    let p = hilbert_rot (s * 2 % 2 ^ 32) x y rx ry in hilbert_loop k p.0 p.1 d'

unfoldable pub hilbert_xy2d_64 : ℕ → ℕ → ℕ
hilbert_xy2d_64 x y = hilbert_loop hilbert_order x y 0

unfoldable pub encode_hilbert_be : ℕ → Bytes
encode_hilbert_be = be_bytes hilbert_key_len

unfoldable pub decode_hilbert_be : Bytes → ℕ
decode_hilbert_be bytes = be_fold 64 0 (take hilbert_key_len bytes)
