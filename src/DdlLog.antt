-- ===== src/DdlLog.antt =====
-- The schema-change log of tidesdb/src/core/ddl_log_rec.{h,cc}: the reserved-family key of a pending
-- record and the record's bytes. A string is the list of its bytes.
pub mod Key
pub mod Strings
pub mod Record
use tidesql_mysql.Base.{ℕ, ◌+◌, ◌%◌, ◌^◌}
use tidesql_mysql.Base.{not, ◌||◌, Option, none, some, ◌>>=◌}
use tidesql_mysql.Base.{[], ◌∷◌, ◌++◌, length, take, drop}
use tidesql_mysql.Base.{ltb, ◌==◌, if◌then◌else◌}
use tidesql_mysql.Base.Bytes.{Bytes, be_bytes, be_fold}

-- `intent`, with its stored byte.
pub data Intent : Type 0 where
  drop_table create_table : Intent

unfoldable pub intent_byte : Intent → ℕ
intent_byte drop_table = 1
intent_byte create_table = 2

abbrev pub format_version : ℕ
format_version = 1

abbrev pub key_len : ℕ
key_len = 16

abbrev pub len_prefix : ℕ
len_prefix = 4

abbrev pub max_field_len : ℕ
max_field_len = 65535

pub record LogRecord : Type 0 where
  pub what : Intent
  pub path : Bytes
  pub db : Bytes
  pub table : Bytes

unfoldable pub put_u64 : ℕ → Bytes
put_u64 = be_bytes 8

unfoldable pub get_u64 : Bytes → ℕ
get_u64 bytes = be_fold 64 0 (take 8 bytes)

-- What `put_str` appends. The length is cast to 32 bits.
unfoldable pub put_str : Bytes → Bytes
put_str s = be_bytes len_prefix (length s % 2 ^ 32) ++ s

-- The end of `get_str`, with the length read and the cursor behind it.
unfoldable pub take_str : ℕ → Bytes → Option (Bytes × Bytes)
take_str n rest =
    if ltb max_field_len n
    then none
    else if ltb (length rest) n
    then none
    else some (take n rest, drop n rest)

-- The cursor is the list of the bytes not yet read; `none` is the answer false.
unfoldable pub get_str : Bytes → Option (Bytes × Bytes)
unfolding take_str
get_str p =
    if ltb (length p) len_prefix
    then none
    else take_str (be_fold 32 0 (take len_prefix p)) (drop len_prefix p)

unfoldable pub encode_key : ℕ → ℕ → Bytes
unfolding put_u64
encode_key boot_id sequence = put_u64 boot_id ++ put_u64 sequence

unfoldable pub decode_key_boot_id : Bytes → Option ℕ
unfolding get_u64
decode_key_boot_id key = if not (length key == key_len) then none else some (get_u64 key)

unfoldable pub encode_record : LogRecord → Option Bytes
unfolding put_str intent_byte
encode_record rec =
    if ltb max_field_len (length rec.path)
      || ltb max_field_len (length rec.db)
      || ltb max_field_len (length rec.table)
    then none
    else some (
        format_version
        ∷ intent_byte rec.what
        ∷ (put_str rec.path ++ (put_str rec.db ++ put_str rec.table)))

-- The two tests of the intent byte and the cast of it.
unfoldable pub read_intent : ℕ → Option Intent
read_intent what =
    if what == 1 then some drop_table else if what == 2 then some create_table else none

-- The record, unless its path is empty.
unfoldable pub name_path : Intent → Bytes → Bytes → Bytes → Option LogRecord
name_path what [] db table = none
name_path what (c ∷ path) db table =
    some (record { what = what; path = c ∷ path; db = db; table = table })

unfoldable pub decode_fields : Intent → Bytes → Option LogRecord
decode_fields what p = do
  (path, p₁) ← get_str p
  (db, p₂) ← get_str p₁
  (table, p₃) ← get_str p₂
  name_path what path db table

unfoldable pub decode_record : Bytes → Option LogRecord
unfolding read_intent
decode_record (version ∷ what ∷ p) =
    if not (version == format_version) then none else read_intent what >>= λ i. decode_fields i p
decode_record (version ∷ []) = none
decode_record [] = none
