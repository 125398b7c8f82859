-- ===== src/Tests/Records.antt =====
-- Headers, keys and records at concrete values.
use tidesql_mysql.RowFormat.{encode_be64}
use tidesql_mysql.RowFormat.{build_data_key, is_data_key, key_ns_meta}
use tidesql_mysql.RowFormat.Keys.{build_data_key_order}
use tidesql_mysql.DdlLog.{LogRecord, create_table}
use tidesql_mysql.DdlLog.{encode_record, decode_record, put_str, intent_byte}
use tidesql_mysql.DdlLog.Record.{decode_record-encode_record, decode_record_sound}
use tidesql_mysql.KeyEnc.{encode_wrapped_key, encode_master_seq_key, encode_latest_key}
use tidesql_mysql.KeyEnc.{frame_wrapped_value, be32_encode}
use tidesql_mysql.KeyEnc.Keys.{encode_wrapped_key_order}
use tidesql_mysql.Base.{ℕ}
use tidesql_mysql.Base.{◌≡◌, refl, ◌≢◌, arith}
use tidesql_mysql.Base.{true, false, some}
use tidesql_mysql.Base.{[], ◌∷◌, ◌++◌}
use tidesql_mysql.Base.{ltb, ◌==◌, if◌then◌else◌}
use tidesql_mysql.Base.Bytes.{Bytes, lex_ltb, be_bytes}

abbrev stored_row : Bytes
stored_row = 254 ∷ 3 ∷ 0 ∷ 2 ∷ 1 ∷ 9 ∷ []

build_data_key_order_example :
    (lex_ltb (build_data_key (encode_be64 255)) (build_data_key (encode_be64 256)) ≡ ltb 255 256)
    × (lex_ltb (key_ns_meta ∷ (5 ∷ [])) (build_data_key (encode_be64 256)) ≡ true)
    × (is_data_key (build_data_key (encode_be64 255)) ≡ true)
    × (is_data_key (key_ns_meta ∷ (5 ∷ [])) ≡ false)
build_data_key_order_example = build_data_key_order 255 256 (5 ∷ []) (omega arith) (omega arith)

abbrev pending : LogRecord
pending = record {
  what = create_table;
  path = 46 ∷ 47 ∷ 100 ∷ 47 ∷ 116 ∷ [];
  db = 100 ∷ [];
  table = 116 ∷ [];
}

-- What `encode_record` writes of it.
abbrev pending_bytes : Bytes
pending_bytes =
    1 ∷ 2 ∷ 0 ∷ 0 ∷ 0 ∷ 5 ∷ 46 ∷ 47 ∷ 100 ∷ 47 ∷ 116 ∷ 0 ∷ 0 ∷ 0 ∷ 1 ∷ 100 ∷ 0 ∷ 0 ∷ 0 ∷ 1 ∷ 116
    ∷ []

pending_written : encode_record pending ≡ some pending_bytes
unfolding encode_record put_str intent_byte be_bytes
pending_written = refl

decode_record-encode_record_example : decode_record (pending_bytes ++ (3 ∷ [])) ≡ some pending
decode_record-encode_record_example =
    decode_record-encode_record pending (3 ∷ []) (λ e. cc) pending_written

pending_read : decode_record pending_bytes ≡ some pending
pending_read = decode_record-encode_record pending [] (λ e. cc) pending_written

decode_record_sound_example :
    (out rest : Bytes) × (encode_record pending ≡ some out)
    × (pending_bytes ≡ out ++ rest)
    × (pending.path ≢ [])
decode_record_sound_example = decode_record_sound pending_bytes (ground arith) pending_read

encode_wrapped_key_order_example :
    (lex_ltb (encode_wrapped_key 1 300) (encode_wrapped_key 2 1)
      ≡ (if ltb 1 2 then true else if 1 == 2 then ltb 300 1 else false))
    × (lex_ltb encode_master_seq_key (encode_wrapped_key 1 300) ≡ true)
    × (lex_ltb (encode_wrapped_key 1 300) (encode_latest_key 2) ≡ true)
encode_wrapped_key_order_example =
    encode_wrapped_key_order 1 300 2 1 (omega arith) (omega arith) (omega arith) (omega arith)

abbrev key_id : ℕ
key_id = 1

abbrev version : ℕ
version = 300

abbrev framed : Bytes
framed = 0 ∷ 0 ∷ 1 ∷ 2 ∷ 7 ∷ 8 ∷ []

framed_written : frame_wrapped_value 258 (7 ∷ 8 ∷ []) ≡ some framed
unfolding frame_wrapped_value be32_encode be_bytes
framed_written = refl
