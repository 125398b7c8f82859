-- ===== src/Xid.antt =====
-- XIDs and the records that carry them, of tidesdb/src/handler/ha_tidesdb_txn.cc: the serialised
-- XID, the record of the tables of a prepared transaction, and the batches that `tidesdb_recover`
-- hands to the server.
pub mod Key
pub mod Tables
pub mod Recovery
use tidesql_mysql.Base.{ℕ, zero, suc, ◌+◌, ◌%◌, ◌^◌}
use tidesql_mysql.Base.{Bool, true, false, not, ◌||◌, Option, none, some, ◌>>=◌}
use tidesql_mysql.Base.{List, [], ◌∷◌, ◌++◌, length, take, drop}
use tidesql_mysql.Base.{ltb, ◌==◌, if◌then◌else◌}
use tidesql_mysql.Base.Bytes.{Bytes, be_bytes, be_fold}

abbrev pub xid_hdr_len : ℕ
xid_hdr_len = 16

-- XIDDATASIZE of the server.
abbrev pub xid_data_size : ℕ
xid_data_size = 128

-- The parts of the server's XID that its accessors give and `set` takes; the format id is its
-- pattern of 64 bits.
pub record Xid : Type 0 where
  pub format_id : ℕ
  pub gtrid : Bytes
  pub bqual : Bytes

unfoldable pub xid_key : Xid → Bytes
xid_key xid =
    be_bytes 8 xid.format_id
    ++ (be_bytes 4 (length xid.gtrid % 2 ^ 32)
        ++ (be_bytes 4 (length xid.bqual % 2 ^ 32) ++ (xid.gtrid ++ xid.bqual)))

-- The two tests of the lengths and the call of `set`.
unfoldable pub xid_of_parts : ℕ → ℕ → ℕ → Bytes → Option Xid
xid_of_parts fmt gl bl parts =
    if ltb xid_data_size gl || ltb xid_data_size bl || ltb xid_data_size (gl + bl)
    then none
    else if not (length parts == gl + bl)
    then none
    else some (record { format_id = fmt; gtrid = take gl parts; bqual = take bl (drop gl parts) })

-- The two null tests have no counterpart: a key is a list.
unfoldable pub xid_from_key : Bytes → Option Xid
xid_from_key key =
    if ltb (length key) xid_hdr_len
    then none
    else xid_of_parts (be_fold 64 0 (take 8 key)) (be_fold 32 0 (take 4 (drop 8 key)))
        (be_fold 32 0 (take 4 (drop 4 (drop 8 key)))) (drop 4 (drop 4 (drop 8 key)))

-- `tdb_table_names_t`: pairs of a database and a table.
abbrev pub TableNames : Type 0
TableNames = List (Bytes × Bytes)

abbrev pub xa_tc_format_version : ℕ
xa_tc_format_version = 1

abbrev pub xa_tc_max_name : ℕ
xa_tc_max_name = 4096

-- A length of 32 bits and the bytes of the name.
unfoldable pub put_name : Bytes → Bytes
put_name s = be_bytes 4 (length s % 2 ^ 32) ++ s

unfoldable pub encode_tables : TableNames → Bytes
encode_tables [] = []
encode_tables ((db, table) ∷ tables) = put_name db ++ (put_name table ++ encode_tables tables)

unfoldable pub xa_tc_encode : TableNames → Bytes
xa_tc_encode tables =
    xa_tc_format_version ∷ (be_bytes 4 (length tables % 2 ^ 32) ++ encode_tables tables)

-- The end of one half of a pair, with the length read and the cursor behind it.
unfoldable pub take_name : ℕ → Bytes → Option (Bytes × Bytes)
take_name n p = if ltb xa_tc_max_name n || ltb (length p) n then none else some (take n p, drop n p)

-- One half of a pair: the name and the cursor behind it; `none` is the answer false.
unfoldable pub get_name : Bytes → Option (Bytes × Bytes)
get_name p = if ltb (length p) 4 then none else take_name (be_fold 32 0 (take 4 p)) (drop 4 p)

unfoldable pub get_pair : Bytes → Option ((Bytes × Bytes) × Bytes)
get_pair p = do (db, p₁) ← get_name p; (table, p₂) ← get_name p₁; some ((db, table), p₂)

-- The loop over `count` pairs: the answer, and `out` with the pairs that were read, those before a
-- failure included.
unfoldable pub with_pair :
    Option ((Bytes × Bytes) × Bytes) → (Bytes → Bool × TableNames) → Bool × TableNames
with_pair none next = (false, [])
with_pair (some (name, p)) next = let (ok, out) = next p in (ok, name ∷ out)

unfoldable pub decode_pairs : ℕ → Bytes → Bool × TableNames
decode_pairs zero p = (true, [])
decode_pairs (suc count) p = with_pair (get_pair p) (decode_pairs count)

unfoldable pub xa_tc_decode : Bytes → Bool × TableNames
xa_tc_decode [] = (false, [])
xa_tc_decode (version ∷ p) =
    if ltb (length p) 4 || not (version == xa_tc_format_version)
    then (false, [])
    else decode_pairs (be_fold 32 0 (take 4 p)) (drop 4 p)
