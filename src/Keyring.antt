-- ===== src/Keyring.antt =====
-- The custody of table keys, of tidesdb/src/engine/ha_tidesdb_crypto_keyring.cc: master keys in the
-- server's key ring, and table keys in the reserved family, wrapped under a master key. The
-- services are there, as `tdb_crypto_available` tests, and calls run one after the other.
pub mod Custody
pub mod Unwrap
pub mod Rewrap
pub mod Rotation
pub mod Lookup
use tidesql_mysql.TableOptions.Serialize.{to_string}
use tidesql_mysql.KeyEnc.{be32_encode, be32_decode, encode_master_seq_key, encode_latest_key}
use tidesql_mysql.KeyEnc.{
  encode_wrapped_key, frame_wrapped_value, parse_wrapped_value, WrappedValue,
}
use tidesql_mysql.KeyEnc.{field_len, generation_none, generation_first}
use tidesql_mysql.Base.{ℕ, zero, suc, ◌+◌, ◌%◌, ◌^◌, min}
use tidesql_mysql.Base.{Bool, true, false, not, ◌&&◌, Option, none, some, ◌>>=◌}
use tidesql_mysql.Base.{[], ◌∷◌, ◌++◌, length, take, drop}
use tidesql_mysql.Base.{ltb, leb, ◌==◌, if◌then◌else◌}
use tidesql_mysql.Base.Bytes.{Bytes}

-- What the code asks of the storage library, the key ring, the random source and AES. `disk` and
-- `ring` are what is committed in the reserved family, and what the key ring holds under a name.
-- `server_uuid` is the server's variable.
pub record Services : Type 1 where
  pub World : Type 0
  pub disk : World → Bytes → Option Bytes
  pub ring : World → Bytes → Option Bytes
  pub server_uuid : Bytes
  pub txn_begin : World → Bool × World
  pub txn_get : Bytes → World → Option Bytes × World
  pub txn_put : Bytes → Bytes → World → Bool × World
  pub txn_commit : World → Bool × World
  pub txn_rollback : World → World
  pub txn_free : World → World
  pub keyring_fetch : Bytes → World → Option Bytes × World
  pub keyring_generate : Bytes → World → Bool × World
  pub random_bytes : ℕ → World → Option Bytes × World
  pub aes_encrypt : Bytes → Bytes → Option Bytes
  pub aes_decrypt : Bytes → Bytes → Option Bytes

abbrev pub crypto_key_len : ℕ
crypto_key_len = 32

abbrev pub max_encryption_key_id : ℕ
max_encryption_key_id = 255

abbrev pub max_encryption_key_versions : ℕ
max_encryption_key_versions = 4096

-- The next step of a chain that may fail, on the state that the first one left.
abbrev pub after : {W A B : Type 0} → Option A × W → (A → W → Option B × W) → Option B × W
after (none, w) next = (none, w)
after (some a, w) next = next a w

-- An empty value counts as none.
unfoldable pub whole_value : Option Bytes → Option Bytes
whole_value none = none
whole_value (some []) = none
whole_value (some (b ∷ bs)) = some (b ∷ bs)

-- A number of four bytes, and nothing else.
unfoldable pub stored_number : Option Bytes → Option ℕ
stored_number none = none
stored_number (some stored) = if length stored == field_len then be32_decode stored else none

module _ (S : Services) where
  open S use {
    World, server_uuid, txn_begin, txn_get, txn_put, txn_commit, txn_rollback, txn_free,
    keyring_fetch, keyring_generate, random_bytes, aes_encrypt, aes_decrypt,
  }

  -- "TIDESQLKey-", the uuid, and the number behind another "-".
  unfoldable pub master_key_name : ℕ → Bytes
  unfolding to_string
  master_key_name generation =
      (84 ∷ 73 ∷ 68 ∷ 69 ∷ 83 ∷ 81 ∷ 76 ∷ 75 ∷ 101 ∷ 121 ∷ 45 ∷ [])
      ++ (server_uuid ++ (45 ∷ to_string generation))

  unfoldable pub store_get : Bytes → World → Option Bytes × World
  unfolding whole_value
  store_get key w =
      let (began, w₁) = txn_begin w in
      let (value, w₂) = txn_get key w₁ in
      if began then (whole_value value, txn_free (txn_rollback w₂)) else (none, w₁)

  unfoldable pub store_put : Bytes → Bytes → World → Bool × World
  store_put key value w =
      let (began, w₁) = txn_begin w in
      let (put, w₂) = txn_put key value w₁ in
      let (committed, w₃) = txn_commit w₂ in
      if not began
      then (false, w₁)
      else if put
      then (committed, txn_free w₃)
      else (false, txn_free (txn_rollback w₂))

  unfoldable pub generated : Bytes → Bool × World → Option Bytes × World
  generated name (true, w) = keyring_fetch name w
  generated name (false, w) = (none, w)

  -- What `tdb_master_key_get` does with the answer of its first fetch.
  unfoldable pub or_mint : Bytes → Bool → Option Bytes × World → Option Bytes × World
  unfolding generated
  or_mint name mint (some key, w) = (some key, w)
  or_mint name true (none, w) = generated name (keyring_generate name w)
  or_mint name false (none, w) = (none, w)

  unfoldable pub master_key_get : ℕ → Bool → World → Option Bytes × World
  unfolding or_mint
  master_key_get generation mint w =
      let name = master_key_name generation in or_mint name mint (keyring_fetch name w)

  -- With what was parsed of the stored value.
  unfoldable pub unwrap_parsed : Bytes → Option WrappedValue → World → Option Bytes × World
  unfolding master_key_get
  unwrap_parsed stored none w = (none, w)
  unwrap_parsed stored (some v) w =
      after (master_key_get v.generation false w)
        (λ master w'. (aes_decrypt master (take v.wrapped_len (drop v.wrapped_off stored)), w'))

  unfoldable pub table_key_unwrap : Bytes → World → Option Bytes × World
  unfolding unwrap_parsed
  table_key_unwrap stored w = unwrap_parsed stored (parse_wrapped_value stored) w

  unfoldable pub table_key_wrap : Bytes → ℕ → World → Option Bytes × World
  unfolding master_key_get
  table_key_wrap plain generation w =
      after (master_key_get generation true w)
        (λ master w'. (aes_encrypt master plain >>= frame_wrapped_value generation, w'))

  -- The first entry, where the store has no generation.
  unfoldable pub seeded : Bool × World → ℕ × World
  seeded (true, w) = (generation_first, w)
  seeded (false, w) = (generation_none, w)

  unfoldable pub or_seed : Option ℕ → World → ℕ × World
  unfolding seeded
  or_seed (some generation) w = (generation, w)
  or_seed none w = seeded (store_put encode_master_seq_key (be32_encode generation_first) w)

  -- `cached` is `tdb_master_generation`, and holds the answer afterwards.
  unfoldable pub master_generation_resolve : ℕ → World → ℕ × World
  unfolding or_seed stored_number
  master_generation_resolve cached w =
      let (stored, w') = store_get encode_master_seq_key w in
      if cached == generation_none then or_seed (stored_number stored) w' else (cached, w)

  -- The two writes of a new version: the wrapped key, then the pointer to it.
  unfoldable pub record_version : ℕ → ℕ → Bytes → World → Bool × World
  record_version key_id version framed w =
      let (stored, w₁) = store_put (encode_wrapped_key key_id version) framed w in
      let (pointed, w₂) = store_put (encode_latest_key key_id) (be32_encode version) w₁ in
      if stored then (pointed, w₂) else (false, w₁)

  unfoldable pub record_wrapped : ℕ → ℕ → Option Bytes × World → Bool × World
  unfolding record_version
  record_wrapped key_id version (none, w) = (false, w)
  record_wrapped key_id version (some framed, w) = record_version key_id version framed w

  -- A new random key, wrapped and recorded under a version.
  unfoldable pub new_version : ℕ → ℕ → ℕ → World → Bool × World
  unfolding record_wrapped table_key_wrap
  new_version key_id version generation w =
      record_wrapped key_id version
        (after (random_bytes crypto_key_len w) (λ plain w'. table_key_wrap plain generation w'))

  -- The answer is whether version 1 was minted.
  unfoldable pub table_key_mint : ℕ → ℕ → World → Bool × World
  unfolding new_version
  table_key_mint key_id generation w =
      if generation == generation_none
      then (false, w)
      else new_version key_id generation_first generation w

  -- With the recorded version, where there is one.
  unfoldable pub advance : ℕ → ℕ → Option ℕ → World → Bool × World
  unfolding table_key_mint
  advance key_id generation none w = table_key_mint key_id generation w
  advance key_id generation (some current) w =
      if leb max_encryption_key_versions current
      then (false, w)
      else new_version key_id (current + 1) generation w

  -- The answer is the status, the cached generation is returned too.
  unfoldable pub rotate_table_key : ℕ → ℕ → World → Bool × ℕ × World
  unfolding advance master_generation_resolve stored_number
  rotate_table_key key_id cached w =
      let (generation, w₁) = master_generation_resolve cached w in
      let (stored, w₂) = store_get (encode_latest_key key_id) w₁ in
      let (ok, w₃) = advance key_id generation (stored_number stored) w₂ in
      if leb 1 key_id && leb key_id max_encryption_key_id
      then (if generation == generation_none then (false, generation, w₁) else (ok, generation, w₃))
      else (false, cached, w)

  -- With the recorded version; the answer is the version, and the cached generation.
  unfoldable pub or_minted : ℕ → ℕ → Option ℕ → World → Option ℕ × ℕ × World
  unfolding table_key_mint master_generation_resolve
  or_minted key_id cached (some version) w = (some version, cached, w)
  or_minted key_id cached none w =
      let (generation, w₁) = master_generation_resolve cached w in
      let (ok, w₂) = table_key_mint key_id generation w₁ in
      (if ok then some generation_first else none, generation, w₂)

  unfoldable pub latest_key_version : ℕ → ℕ → World → Option ℕ × ℕ × World
  unfolding or_minted stored_number
  latest_key_version key_id cached w =
      let (stored, w') = store_get (encode_latest_key key_id) w in
      or_minted key_id cached (stored_number stored) w'

  unfoldable pub put_rewrapped : Bytes → Option Bytes × World → Bool × World
  put_rewrapped key (none, w) = (false, w)
  put_rewrapped key (some framed, w) = store_put key framed w

  -- A version that is not stored is passed over.
  unfoldable pub rewrap_stored : ℕ → Bytes → Option Bytes × World → Bool × World
  unfolding put_rewrapped table_key_unwrap table_key_wrap
  rewrap_stored next key (none, w) = (true, w)
  rewrap_stored next key (some stored, w) =
      put_rewrapped key
        (after (table_key_unwrap stored w) (λ plain w'. table_key_wrap plain next w'))

  -- The inner loop, over `count` versions from `version` on; it ends at a failure.
  unfoldable pub rewrap_versions : ℕ → ℕ → ℕ → ℕ → World → Bool × World
  unfolding rewrap_stored
  rewrap_versions next key_id zero version w = (true, w)
  rewrap_versions next key_id (suc count) version w =
      let key = encode_wrapped_key key_id version in
      let (ok, w') = rewrap_stored next key (store_get key w) in
      let rest = rewrap_versions next key_id count (version + 1) w' in
      if ok then rest else (false, w')

  -- The versions of one id, up to the recorded one.
  unfoldable pub rewrap_recorded : ℕ → ℕ → Option ℕ → World → Bool × World
  unfolding rewrap_versions
  rewrap_recorded next key_id none w = (true, w)
  rewrap_recorded next key_id (some latest) w =
      rewrap_versions next key_id (min latest max_encryption_key_versions) generation_first w

  -- The outer loop.
  unfoldable pub rewrap_ids : ℕ → ℕ → ℕ → World → Bool × World
  unfolding rewrap_recorded stored_number
  rewrap_ids next zero key_id w = (true, w)
  rewrap_ids next (suc count) key_id w =
      let (stored, w₁) = store_get (encode_latest_key key_id) w in
      let (ok, w₂) = rewrap_recorded next key_id (stored_number stored) w₁ in
      let rest = rewrap_ids next count (key_id + 1) w₂ in if ok then rest else (false, w₂)

  -- From the new master key on.
  unfoldable pub rotate_to : ℕ → ℕ → Option Bytes × World → Bool × ℕ × World
  unfolding rewrap_ids
  rotate_to current next (none, w) = (false, current, w)
  rotate_to current next (some master, w) =
      let (ok, w₁) = rewrap_ids next max_encryption_key_id 1 w in
      let (put, w₂) = store_put encode_master_seq_key (be32_encode next) w₁ in
      if not ok
      then (false, current, w₁)
      else if put
      then (true, next, w₂)
      else (false, current, w₂)

  unfoldable pub rotate_master_key : ℕ → World → Bool × ℕ × World
  unfolding rotate_to master_generation_resolve master_key_get
  rotate_master_key cached w =
      let (current, w₁) = master_generation_resolve cached w in
      let next = (current + 1) % 2 ^ 32 in
      let rotated = rotate_to current next (master_key_get next true w₁) in
      if current == generation_none then (false, current, w₁) else rotated

  -- What `tdb_crypto_get_key` hands out, into a buffer of `room` bytes.
  unfoldable pub fits_buffer : ℕ → Option Bytes → Option Bytes
  fits_buffer room none = none
  fits_buffer room (some []) = none
  fits_buffer room (some (b ∷ plain)) =
      if ltb room (length (b ∷ plain)) then none else some (b ∷ plain)

  unfoldable pub get_key : ℕ → ℕ → ℕ → World → Option Bytes × World
  unfolding fits_buffer table_key_unwrap
  get_key key_id version room w =
      let (plain, w') =
        after (store_get (encode_wrapped_key key_id version) w)
          (λ stored w'. table_key_unwrap stored w') in
      (fits_buffer room plain, w')
