-- ===== src/DdlLog/Key.antt =====
-- The keys of ddl_log_rec.cc under the store's byte order.
use native.Mathlib.Nat.{mod-eq_of_lt}
use tidesql_mysql.DdlLog.{encode_key, decode_key_boot_id}
use tidesql_mysql.Base.{ℕ, ◌^◌, ◌<◌}
use tidesql_mysql.Base.{◌≡◌, ap, ◌∙◌, arith}
use tidesql_mysql.Base.{true, false, some}
use tidesql_mysql.Base.{◌++◌, length}
use tidesql_mysql.Base.{length-append}
use tidesql_mysql.Base.{ltb, ◌==◌, if◌then◌else◌}
use tidesql_mysql.Base.Bytes.{lex_ltb, be_bytes, be_fold, be_fold_lem}
use tidesql_mysql.Base.Bytes.{length-be_bytes, lex_ltb-be_bytes, be_bytes_order}
use tidesql_mysql.Base.Bytes.{take-be_bytes}

-- A boot id of 64 bits is read back from the key of a record, whatever the sequence number is.
pub decode_key_boot_id-encode_key :
    (boot sequence : ℕ) → boot < 2 ^ 64 → decode_key_boot_id (encode_key boot sequence) ≡ some boot
unfolding decode_key_boot_id encode_key
decode_key_boot_id-encode_key boot sequence h = rw whole_key (
    ap some (
      ap (be_fold 64 0) (take-be_bytes 8 boot (be_bytes 8 sequence))
      ∙ be_fold_lem 64 8 boot (omega arith) h))
  where
    whole_key : length (be_bytes 8 boot ++ be_bytes 8 sequence) ≡ 16
    whole_key = omega (
      arith,
      length-append (be_bytes 8 boot) (be_bytes 8 sequence),
      length-be_bytes 8 boot,
      length-be_bytes 8 sequence,
    )

-- For boot ids and sequence numbers of 64 bits, the byte order of the keys is the order of the
-- boot ids, and for one boot id the order of the sequence numbers.
pub encode_key_order :
    (b s b' s' : ℕ)
    → b < 2 ^ 64
    → s < 2 ^ 64
    → b' < 2 ^ 64
    → s' < 2 ^ 64
    → lex_ltb (encode_key b s) (encode_key b' s')
      ≡ (if ltb b b' then true else if b == b' then ltb s s' else false)
unfolding encode_key
encode_key_order b s b' s' hb hs hb' hs' = rw (
  lex_ltb-be_bytes 8 b b' (be_bytes 8 s) (be_bytes 8 s'),
  be_bytes_order 8 s s' hs hs',
  mod-eq_of_lt hb,
  mod-eq_of_lt hb',
)
