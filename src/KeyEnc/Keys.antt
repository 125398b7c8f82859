-- ===== src/KeyEnc/Keys.antt =====
-- The keys of crypto_keyenc.cc: distinct, and in the store's order.
use native.Mathlib.Nat.{mod-eq_of_lt}
use tidesql_mysql.KeyEnc.{IsU32, be32_encode}
use tidesql_mysql.KeyEnc.{encode_master_seq_key, encode_latest_key, encode_wrapped_key}
use tidesql_mysql.Base.{ℕ}
use tidesql_mysql.Base.{◌≡◌, refl, arith}
use tidesql_mysql.Base.{true, false}
use tidesql_mysql.Base.{[], ◌++◌}
use tidesql_mysql.Base.{ltb, ◌==◌, if◌then◌else◌}
use tidesql_mysql.Base.Bytes.{lex_ltb, be_bytes}
use tidesql_mysql.Base.Bytes.{lex_ltb-be_bytes}

be32_encode-be_bytes : (v : ℕ) → be32_encode v ≡ be_bytes 4 v
unfolding be32_encode be_bytes
be32_encode-be_bytes v = ground arith

-- For key ids and versions of 32 bits, the byte order of the wrapped keys is the order of the key
-- ids, and for one key id the order of the versions; the key of the master sequence lies before
-- every wrapped key, and every latest key behind it.
pub encode_wrapped_key_order :
    (id ver id' ver' : ℕ)
    → IsU32 id
    → IsU32 ver
    → IsU32 id'
    → IsU32 ver'
    → (lex_ltb (encode_wrapped_key id ver) (encode_wrapped_key id' ver')
        ≡ (if ltb id id' then true else if id == id' then ltb ver ver' else false))
      × (lex_ltb encode_master_seq_key (encode_wrapped_key id ver) ≡ true)
      × (lex_ltb (encode_wrapped_key id ver) (encode_latest_key id') ≡ true)
unfolding encode_wrapped_key encode_master_seq_key encode_latest_key lex_ltb
encode_wrapped_key_order id ver id' ver' h k h' k' = (
  rw
      (
        be32_encode-be_bytes id,
        be32_encode-be_bytes id',
        be32_encode-be_bytes ver,
        be32_encode-be_bytes ver',
        lex_ltb-be_bytes 4 id id' (be_bytes 4 ver ++ []) (be_bytes 4 ver' ++ []),
        lex_ltb-be_bytes 4 ver ver' [] [],
        mod-eq_of_lt h,
        mod-eq_of_lt h',
        mod-eq_of_lt k,
        mod-eq_of_lt k',
      )
      (unfold lex_ltb in ground arith),
  refl,
  refl,
)

-- Among key ids and versions of 32 bits, distinct pairs have distinct wrapped keys and distinct
-- key ids have distinct latest keys.
pub encode_key_injective :
    (id ver id' ver' : ℕ)
    → IsU32 id
    → IsU32 ver
    → IsU32 id'
    → IsU32 ver'
    → (encode_wrapped_key id ver ≡ encode_wrapped_key id' ver' → (id ≡ id') × (ver ≡ ver'))
      × (encode_latest_key id ≡ encode_latest_key id' → id ≡ id')
unfolding encode_wrapped_key encode_latest_key be32_encode
encode_key_injective id ver id' ver' h k h' k' = (λ e. ground arith, λ e. ground arith)
