-- ===== src/RowFormat/Keys.antt =====
-- The keys of row_format.cc: hidden row ids and the data keyspace under the store's byte order.
use tidesql_mysql.Base.{ℕ, ◌≡◌, refl, arith, true, false}
use tidesql_mysql.Base.{◌∷◌, ◌++◌, ltb}
use tidesql_mysql.Base.Bytes.{Bytes, lex_ltb, be_bytes, be_fold_lem, be_bytes_order}
use tidesql_mysql.RowFormat.{IsU64, encode_be64, decode_be64, build_data_key, is_data_key}
use tidesql_mysql.RowFormat.{key_ns_meta}

-- Every 64-bit row id comes back from its key bytes, whatever bytes follow them in the buffer.
pub decode_be64-encode_be64 :
    (id : ℕ) (rest : Bytes) → IsU64 id → decode_be64 (encode_be64 id ++ rest) ≡ id
unfolding decode_be64 encode_be64
decode_be64-encode_be64 id rest h = unfold be_bytes in be_fold_lem 64 8 id (omega arith) h

-- For row ids of 64 bits, the byte order of the data keys is the numeric order of the ids; every
-- data key lies behind every key of the meta namespace; and `is_data_key` tells the two apart.
pub build_data_key_order :
    (u v : ℕ) (meta : Bytes)
    → IsU64 u
    → IsU64 v
    → (lex_ltb (build_data_key (encode_be64 u)) (build_data_key (encode_be64 v)) ≡ ltb u v)
      × (lex_ltb (key_ns_meta ∷ meta) (build_data_key (encode_be64 v)) ≡ true)
      × (is_data_key (build_data_key (encode_be64 u)) ≡ true)
      × (is_data_key (key_ns_meta ∷ meta) ≡ false)
unfolding build_data_key encode_be64 is_data_key lex_ltb
build_data_key_order u v meta hu hv = (be_bytes_order 8 u v hu hv, refl, ground arith, ground arith)
