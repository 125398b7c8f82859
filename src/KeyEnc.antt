-- ===== src/KeyEnc.antt =====
-- The key store of tidesdb/src/core/crypto_keyenc.{h,cc}: the keys that wrapped table keys are held
-- under, and the frame of a stored value. The null tests on the buffers have no counterpart: a
-- buffer is a list.
pub mod Keys
pub mod Frame
use tidesql_mysql.Base.{ℕ, zero, suc, ◌+◌, ◌-◌, ◌*◌, ◌/◌, ◌%◌, ◌^◌, ◌<◌, bit_or}
use tidesql_mysql.Base.{Option, none, some, ◌>>=◌}
use tidesql_mysql.Base.{List, [], ◌∷◌, ◌++◌, length}
use tidesql_mysql.Base.{leb, ◌==◌, if◌then◌else◌}
use tidesql_mysql.Base.Bytes.{Bytes}

-- `ns`, with its leading byte.
pub data Ns : Type 0 where
  master_seq wrapped latest : Ns

unfoldable pub ns_byte : Ns → ℕ
ns_byte master_seq = 0x00
ns_byte wrapped = 0x01
ns_byte latest = 0x02

abbrev pub field_len : ℕ
field_len = 4

abbrev pub wrap_header_len : ℕ
wrap_header_len = field_len

abbrev pub generation_none : ℕ
generation_none = 0

abbrev pub generation_first : ℕ
generation_first = 1

abbrev pub IsU32 : ℕ → Type 0
IsU32 v = v < 2 ^ 32

unfoldable pub be32_encode : ℕ → Bytes
be32_encode v = (v / 2 ^ 24 % 256) ∷ (v / 2 ^ 16 % 256) ∷ (v / 2 ^ 8 % 256) ∷ (v % 256) ∷ []

-- `none` where fewer than four bytes are there, which the callers rule out.
unfoldable pub be32_decode : Bytes → Option ℕ
be32_decode (a ∷ b ∷ c ∷ d ∷ rest) =
    some (bit_or (bit_or (bit_or (a * 2 ^ 24) (b * 2 ^ 16)) (c * 2 ^ 8)) d)
be32_decode bytes = none

-- The loop of the private `encode_key`; `room` is what the test `i < 2` leaves.
encode_fields : ℕ → List ℕ → Bytes
encode_fields zero fields = []
encode_fields (suc room) [] = []
encode_fields (suc room) (f ∷ fields) = be32_encode f ++ encode_fields room fields

encode_key : Ns → List ℕ → Bytes
unfolding encode_fields ns_byte
encode_key n fields = ns_byte n ∷ encode_fields 2 fields

unfoldable pub encode_master_seq_key : Bytes
unfolding encode_key
encode_master_seq_key = encode_key master_seq []

unfoldable pub encode_latest_key : ℕ → Bytes
unfolding encode_key
encode_latest_key key_id = encode_key latest (key_id ∷ [])

unfoldable pub encode_wrapped_key : ℕ → ℕ → Bytes
unfolding encode_key
encode_wrapped_key key_id version = encode_key wrapped (key_id ∷ version ∷ [])

-- `none` is the length 0.
unfoldable pub frame_wrapped_value : ℕ → Bytes → Option Bytes
frame_wrapped_value generation wrapped_key =
    if length wrapped_key == 0 then none else some (be32_encode generation ++ wrapped_key)

-- What `parse_wrapped_value` reports of a stored value.
pub record WrappedValue : Type 0 where
  pub generation : ℕ
  pub wrapped_off : ℕ
  pub wrapped_len : ℕ

unfoldable pub parse_wrapped_value : Bytes → Option WrappedValue
parse_wrapped_value stored =
    if leb (length stored) wrap_header_len
    then none
    else be32_decode stored >>= λ g. some (record {
      generation = g;
      wrapped_off = wrap_header_len;
      wrapped_len = length stored - wrap_header_len;
    })
