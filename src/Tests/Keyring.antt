-- ===== src/Tests/Keyring.antt =====
-- The custody of table keys over services in memory.
use tidesql_mysql.Keyring.{
  Services, get_key, rotate_master_key, store_get, whole_value, table_key_unwrap, unwrap_parsed,
}
use tidesql_mysql.Keyring.{master_key_get, or_mint, fits_buffer}
use tidesql_mysql.Keyring.Custody.{Grows, IsFaithful}
use tidesql_mysql.Keyring.Unwrap.{key_at, Keeps}
use tidesql_mysql.Keyring.Rotation.{rotate_master_key-Keeps}
use tidesql_mysql.Keyring.Lookup.{get_key-key_at}
use tidesql_mysql.KeyEnc.{
  be32_encode, parse_wrapped_value, be32_decode, encode_latest_key, encode_wrapped_key,
}
use tidesql_mysql.Base.{ℕ, ◌≤◌}
use tidesql_mysql.Base.{◌≡◌, refl, sym, ap, ◌∙◌}
use tidesql_mysql.Base.{Bool, true, false, Option, none, some, ◌>>=◌}
use tidesql_mysql.Base.{[], ◌∷◌, length}
use tidesql_mysql.Base.{if◌then◌else◌}
use tidesql_mysql.Base.Bytes.{Bytes, equal}

-- What is committed, what the key ring holds, and what was put last.
record Memory : Type 0 where
  disk : Bytes → Option Bytes
  ring : Bytes → Option Bytes
  pending : Option (Bytes × Bytes)

abbrev written : Option (Bytes × Bytes) → (Bytes → Option Bytes) → Bytes → Option Bytes
written none disk k = disk k
written (some (key, value)) disk k = if equal k key then some value else disk k

-- The key of a name that the key ring does not hold yet.
abbrev generated : Option Bytes → Bool → Option Bytes
generated (some key) here = some key
generated none true = some (5 ∷ [])
generated none false = none

abbrev open_box : Bytes → Option Bytes
open_box [] = none
open_box (b ∷ bs) = some bs

-- Encryption puts a byte in front.
abbrev services : Services
services = record {
  World = Memory;
  disk = λ w. w.disk;
  ring = λ w. w.ring;
  server_uuid = 117 ∷ [];
  txn_begin = λ w. (true, w);
  txn_get = λ k w. (w.disk k, w);
  txn_put = λ k v w. (true, record w { pending = some (k, v) });
  txn_commit = λ w. (true, record w { disk = written w.pending w.disk; pending = none });
  txn_rollback = λ w. record w { pending = none };
  txn_free = λ w. w;
  keyring_fetch = λ n w. (w.ring n, w);
  keyring_generate = λ n w. (true, record w { ring = λ m. generated (w.ring m) (equal m n) });
  random_bytes = λ n w. (some (7 ∷ []), w);
  aes_encrypt = λ key plain. some (99 ∷ plain);
  aes_decrypt = λ key c. open_box c;
}

unchanged : (w w' : Memory) → w'.disk ≡ w.disk → w'.ring ≡ w.ring → Grows services w w'
unchanged w w' d r = record {
  same = λ k. ap (λ (f : Bytes → Option Bytes). f k) d;
  kept = λ n e. ap (λ (f : Bytes → Option Bytes). f n) r ∙ e;
}

services-IsFaithful : IsFaithful services
services-IsFaithful = record {
  txn_begin-Grows = λ w. unchanged w w refl refl;
  txn_get-Grows = λ k w. unchanged w w refl refl;
  txn_put-Grows = λ k v w. unchanged w (record w { pending = some (k, v) }) refl refl;
  txn_commit_failed = λ w e. absurd cc;
  txn_commit-ring = λ w n. refl;
  txn_commit-txn_put = λ k v w b p c k'. refl;
  txn_rollback-Grows = λ w. unchanged w (record w { pending = none }) refl refl;
  txn_free-Grows = λ w. unchanged w w refl refl;
  keyring_fetch-Grows = λ n w. unchanged w w refl refl;
  keyring_generate-Grows = λ n w. record { same = λ k. refl; kept = λ m e. rw e refl };
  random_bytes-Grows = λ n w. unchanged w w refl refl;
  txn_get-disk = λ k w e. e;
  keyring_fetch-ring = λ n w e. e;
  aes_decrypt-aes_encrypt = λ key plain e. ap (λ (o : Option Bytes). o >>= open_box) (sym e);
}

-- One key, of id 3, at version 1, wrapped under generation 1.
abbrev stored_key : Memory
stored_key = record {
  disk = λ k.
      if equal k (encode_latest_key 3)
      then some (0 ∷ 0 ∷ 0 ∷ 1 ∷ [])
      else if equal k (encode_wrapped_key 3 1)
      then some (0 ∷ 0 ∷ 0 ∷ 1 ∷ 99 ∷ 7 ∷ 8 ∷ [])
      else none;
  ring = λ n. some (5 ∷ []);
  pending = none;
}

rotate_master_key-Keeps_example :
    Keeps services services-IsFaithful stored_key (rotate_master_key services 1 stored_key).2
rotate_master_key-Keeps_example = rotate_master_key-Keeps services services-IsFaithful 1 stored_key

get_key-key_at_example :
    (key_at services services-IsFaithful (get_key services 3 1 32 stored_key).1 3 1
      ≡ some (7 ∷ 8 ∷ []))
    × (length {A = ℕ} (7 ∷ 8 ∷ []) ≤ 32)
unfolding get_key store_get whole_value table_key_unwrap unwrap_parsed parse_wrapped_value
    be32_decode master_key_get or_mint fits_buffer equal encode_wrapped_key encode_latest_key
    be32_encode
get_key-key_at_example =
    get_key-key_at services services-IsFaithful 3 1 32 stored_key (7 ∷ 8 ∷ []) refl
