-- ===== src/RowFormat/Header.antt =====
-- The row header of row_format.cc: what `decode_row_header` accepts and what it reads back.
use tidesql_mysql.Base.{ℕ, ◌/◌, ◌%◌, ◌^◌, ◌≡◌, arith}
use tidesql_mysql.Base.{some, [], ◌∷◌, ◌++◌, All}
use tidesql_mysql.Base.Bits.{bit_or-low}
use tidesql_mysql.Base.Bytes.{Bytes, IsByte}
use tidesql_mysql.RowFormat.{RowHeader, IsU16}
use tidesql_mysql.RowFormat.{encode_row_header, decode_row_header}

-- The stored header of any counts of 16 bits is read back, whatever row bytes follow it.
pub decode_row_header-encode_row_header :
    (nulls fields : ℕ) (row : Bytes)
    → IsU16 nulls
    → IsU16 fields
    → decode_row_header (encode_row_header nulls fields ++ row)
      ≡ some (record { null_bytes = nulls; field_count = fields })
unfolding decode_row_header encode_row_header
decode_row_header-encode_row_header nulls fields row hn hf = ground (
  arith,
  bit_or-low 8 (nulls % 256) (nulls / 2 ^ 8 % 256),
  bit_or-low 8 (fields % 256) (fields / 2 ^ 8 % 256),
)

-- If a list of bytes is accepted as a row, it is the header that `encode_row_header` writes for
-- the counts that are read, and a rest.
pub decode_row_header_sound :
    (bytes : Bytes) {h : RowHeader}
    → All IsByte bytes
    → decode_row_header bytes ≡ some h
    → (row : Bytes) × (bytes ≡ encode_row_header h.null_bytes h.field_count ++ row)
unfolding decode_row_header encode_row_header
decode_row_header_sound [] bs e = cc
decode_row_header_sound (a ∷ []) bs e = ground arith
decode_row_header_sound (a ∷ b ∷ []) bs e = ground arith
decode_row_header_sound (a ∷ b ∷ c ∷ []) bs e = ground arith
decode_row_header_sound (a ∷ b ∷ c ∷ d ∷ []) bs e = ground arith
decode_row_header_sound (a ∷ b ∷ c ∷ d ∷ f ∷ row) bs e =
    (row, ground (arith, bit_or-low 8 b c, bit_or-low 8 d f))
