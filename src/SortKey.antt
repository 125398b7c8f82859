-- ===== src/SortKey.antt =====
-- Sort keys of tidesdb/src/core/sort_key.{h,cc}, decoded to the field's bytes. The answer is the bytes
-- that are stored at `to`, and `none` the answer false. The key holds `sort_len` bytes at least.
pub mod Integers
use tidesql_mysql.Base.{ℕ, zero, suc, ◌+◌, ◌-◌, bit_xor}
use tidesql_mysql.Base.{Bool, not, ◌&&◌, ◌||◌, Option, none, some}
use tidesql_mysql.Base.{[], ◌∷◌, ◌++◌, take}
use tidesql_mysql.Base.{ltb, ◌==◌, if◌then◌else◌}
use tidesql_mysql.Base.Bytes.{Bytes}

abbrev pub int_sign_flip_mask : ℕ
int_sign_flip_mask = 128

abbrev pub date_pack_len : ℕ
date_pack_len = 3

abbrev pub datetime_max_pack_len : ℕ
datetime_max_pack_len = 8

pub data Kind : Type 0 where
  undecodable integer year date datetime char_fixed : Kind

pub record FieldSortDesc : Type 0 where
  pub k : Kind
  pub is_signed : Bool
  pub pack_length : ℕ
  pub pad_byte : ℕ

unfoldable pub reversed : Bytes → Bytes
reversed [] = []
reversed (b ∷ bs) = reversed bs ++ (b ∷ [])

unfoldable pub decode_reverse : Bytes → ℕ → Bytes
decode_reverse src sort_len = reversed (take sort_len src)

-- The flip of the sign bit, in the last byte.
unfoldable pub flip_last : Bytes → Bytes
flip_last [] = []
flip_last (b ∷ []) = bit_xor b int_sign_flip_mask ∷ []
flip_last (b ∷ (c ∷ bs)) = b ∷ flip_last (c ∷ bs)

unfoldable pub decode_int : Bytes → ℕ → Bool → Option Bytes
decode_int src sort_len is_signed =
    let to = reversed (take sort_len src) in
    if sort_len == 0 || (ltb 4 sort_len && not (sort_len == 8))
    then none
    else some (if is_signed then flip_last to else to)

unfoldable pub pad : ℕ → ℕ → Bytes
pad zero byte = []
pad (suc n) byte = byte ∷ pad n byte

unfoldable pub decode_char : Bytes → ℕ → FieldSortDesc → Bytes
unfolding pad
decode_char src sort_len d =
    let copy = if ltb sort_len d.pack_length then sort_len else d.pack_length in
    take copy src ++ (if ltb copy d.pack_length then pad (d.pack_length - copy) d.pad_byte else [])

unfoldable pub decode_kind : Kind → Bytes → ℕ → FieldSortDesc → Option Bytes
decode_kind Kind.integer src sort_len d = decode_int src sort_len d.is_signed
decode_kind Kind.year src sort_len d = if ltb sort_len 1 then none else some (take 1 src)
decode_kind Kind.date src sort_len d =
    if not (sort_len == date_pack_len) then none else some (decode_reverse src sort_len)
decode_kind Kind.datetime src sort_len d =
    if sort_len == 0 || ltb datetime_max_pack_len sort_len
    then none
    else some (decode_reverse src sort_len)
decode_kind Kind.char_fixed src sort_len d = some (decode_char src sort_len d)
decode_kind Kind.undecodable src sort_len d = none

unfoldable pub decode_part : Bytes → ℕ → FieldSortDesc → Option Bytes
unfolding decode_kind
decode_part src sort_len d = decode_kind d.k src sort_len d
