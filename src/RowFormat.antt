-- ===== src/RowFormat.antt =====
-- The byte layouts of tidesdb/src/core/row_format.{h,cc}: the row header, the hidden primary key and
-- the two keyspaces of a data family. An output buffer is the list of the bytes written to it.
pub mod Header
pub mod Keys
use tidesql_mysql.Base.{◌>>=◌}
use tidesql_mysql.Base.{ℕ, ◌+◌, ◌*◌, ◌/◌, ◌%◌, ◌^◌, ◌<◌, Bool, false, not, ◌||◌, ◌&&◌}
use tidesql_mysql.Base.{Option, none, some, [], ◌∷◌, ◌++◌, ltb, ◌==◌, if◌then◌else◌}
use tidesql_mysql.Base.{length, take, drop, bit_or}
use tidesql_mysql.Base.Bytes.{Bytes, be_bytes, be_fold}

abbrev pub key_ns_meta : ℕ
key_ns_meta = 0x00

abbrev pub key_ns_data : ℕ
key_ns_data = 0x01

abbrev pub hidden_pk_size : ℕ
hidden_pk_size = 8

abbrev pub row_header_magic : ℕ
row_header_magic = 0xFE

abbrev pub row_header_size : ℕ
row_header_size = 5

pub record RowHeader : Type 0 where
  pub null_bytes : ℕ
  pub field_count : ℕ

abbrev pub IsU16 : ℕ → Type 0
IsU16 v = v < 2 ^ 16

abbrev pub IsU64 : ℕ → Type 0
IsU64 v = v < 2 ^ 64

store_u16le : ℕ → Bytes
store_u16le v = (v % 256) ∷ (v / 2 ^ 8 % 256) ∷ []

-- The caller has checked that two bytes are there.
load_u16le : Bytes → Option ℕ
load_u16le (lo ∷ hi ∷ rest) = some (bit_or lo (hi * 2 ^ 8) % 2 ^ 16)
load_u16le bytes = none

unfoldable pub encode_row_header : ℕ → ℕ → Bytes
unfolding store_u16le
encode_row_header null_bytes field_count =
    row_header_magic ∷ (store_u16le null_bytes ++ store_u16le field_count)

-- `none` is the answer false. The length has been checked when the two loads are made.
read_counts : Bytes → Option RowHeader
unfolding load_u16le
read_counts (magic ∷ counts) = do
  null_bytes ← load_u16le counts
  field_count ← load_u16le (drop 2 counts)
  some (record { null_bytes = null_bytes; field_count = field_count })
read_counts [] = none

first_is : ℕ → Bytes → Bool
first_is b [] = false
first_is b (c ∷ cs) = c == b

unfoldable pub decode_row_header : Bytes → Option RowHeader
unfolding read_counts first_is
decode_row_header bytes =
    if ltb (length bytes) row_header_size || not (first_is row_header_magic bytes)
    then none
    else read_counts bytes

unfoldable pub encode_be64 : ℕ → Bytes
encode_be64 = be_bytes hidden_pk_size

unfoldable pub decode_be64 : Bytes → ℕ
decode_be64 bytes = be_fold 64 0 (take hidden_pk_size bytes)

unfoldable pub build_data_key : Bytes → Bytes
build_data_key pk = key_ns_data ∷ pk

unfoldable pub is_data_key : Bytes → Bool
unfolding first_is
is_data_key key = ltb 0 (length key) && first_is key_ns_data key
