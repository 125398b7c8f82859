-- ===== src/Keyring/Unwrap.antt =====
-- What a stored value opens to, and that the wrap and the unwrap agree on it.
use tidesql_mysql.KeyEnc.{
  parse_wrapped_value, frame_wrapped_value, encode_wrapped_key, WrappedValue, IsU32,
}
use tidesql_mysql.KeyEnc.Frame.{parse_wrapped_value-frame_wrapped_value}
use tidesql_mysql.Keyring.{Services, after, master_key_name, master_key_get}
use tidesql_mysql.Keyring.{unwrap_parsed, table_key_unwrap, table_key_wrap}
use tidesql_mysql.Base.{ℕ}
use tidesql_mysql.Base.{◌≡◌, refl, ◌∙◌, ◌≢◌, inl, inr}
use tidesql_mysql.Base.{true, false, Option, none, some, ◌>>=◌, >>=-Bound, bound}
use tidesql_mysql.Base.{take, drop}
use tidesql_mysql.Base.{Option-cases}
use tidesql_mysql.Base.Bytes.{Bytes}
use tidesql_mysql.Keyring.Custody.{Grows-refl, master_key_get-Grows, master_key_get-ring}
use tidesql_mysql.Keyring.Custody.{Grows, IsFaithful}

module _ (S : Services) (faithful : IsFaithful S) where
  open S use {
    World, disk, ring, txn_begin, txn_get, txn_put, txn_commit, txn_rollback, txn_free,
    keyring_fetch, keyring_generate, random_bytes, aes_encrypt, aes_decrypt,
  }

  -- The plain key of a stored value, by the key ring as it is.
  unfoldable pub opened : World → Option WrappedValue → Bytes → Option Bytes
  opened w none stored = none
  opened w (some v) stored = ring w (master_key_name S v.generation) >>= λ master.
      aes_decrypt master (take v.wrapped_len (drop v.wrapped_off stored))

  -- The table key that can be read back for an id and a version.
  unfoldable pub key_at : World → ℕ → ℕ → Option Bytes
  key_at w key_id version = disk w (encode_wrapped_key key_id version) >>= λ stored.
      opened w (parse_wrapped_value stored) stored

  pub opened-Grows :
      (w w' : World) (v : Option WrappedValue) (stored plain : Bytes)
      → ((n key : Bytes) → ring w n ≡ some key → ring w' n ≡ some key)
      → opened w v stored ≡ some plain
      → opened w' v stored ≡ some plain
  unfolding opened
  opened-Grows w w' none stored plain h e = absurd cc
  opened-Grows w w' (some v) stored plain h e =
      elim (Option-cases (ring w (master_key_name S v.generation))) [
        | inl q ↦ absurd (not_none (rw q at e))
        | inr (key, q) ↦ rw (h (master_key_name S v.generation) key q) (rw q at e)
      ]
    where
      not_none : none ≢ some plain
      not_none f = cc

  used-Grows :
      (w : World) (m : Option Bytes × World) (f : Bytes → Option Bytes)
      → Grows S w m.1
      → Grows S w (after m (λ a w'. (f a, w'))).1
  used-Grows w (none, w') f g = g
  used-Grows w (some a, w') f g = g

  -- The key that a step used is in the key ring.
  used_key :
      (n : Bytes) (m : Option Bytes × World) (f : Bytes → Option Bytes) (b : Bytes)
      → ((k : Bytes) → m.0 ≡ some k → ring m.1 n ≡ some k)
      → (after m (λ a w'. (f a, w'))).0 ≡ some b
      → (k : Bytes) × (ring (after m (λ a w'. (f a, w'))).1 n ≡ some k) × (f k ≡ some b)
  used_key n (none, w') f b h e = absurd cc
  used_key n (some k, w') f b h e = (k, h k refl, e)

  unwrap_parsed-Grows :
      (v : Option WrappedValue) (stored : Bytes) (w : World)
      → Grows S w (unwrap_parsed S stored v w).1
  unfolding unwrap_parsed
  unwrap_parsed-Grows none stored w = Grows-refl S faithful w
  unwrap_parsed-Grows (some v) stored w =
      used-Grows w (master_key_get S v.generation false w)
        (λ master. aes_decrypt master (take v.wrapped_len (drop v.wrapped_off stored)))
        (master_key_get-Grows S faithful v.generation false w)

  pub unwrap-Grows : (stored : Bytes) (w : World) → Grows S w (table_key_unwrap S stored w).1
  unfolding table_key_unwrap
  unwrap-Grows stored w = unwrap_parsed-Grows (parse_wrapped_value stored) stored w

  unwrap_parsed-opened :
      (v : Option WrappedValue) (stored : Bytes) (w : World) (plain : Bytes)
      → (unwrap_parsed S stored v w).0 ≡ some plain
      → opened (unwrap_parsed S stored v w).1 v stored ≡ some plain
  unfolding unwrap_parsed opened
  unwrap_parsed-opened none stored w plain e = absurd cc
  unwrap_parsed-opened (some v) stored w plain e =
      let (key, there, d) =
        used_key (master_key_name S v.generation) (master_key_get S v.generation false w)
          (λ master. aes_decrypt master (take v.wrapped_len (drop v.wrapped_off stored))) plain
          (master_key_get-ring S faithful v.generation false w) e in
      rw there d

  pub unwrap-opened :
      (stored : Bytes) (w : World) (plain : Bytes)
      → (table_key_unwrap S stored w).0 ≡ some plain
      → opened (table_key_unwrap S stored w).1 (parse_wrapped_value stored) stored ≡ some plain
  unfolding table_key_unwrap
  unwrap-opened stored w plain = unwrap_parsed-opened (parse_wrapped_value stored) stored w plain

  pub wrap-Grows : (plain : Bytes) (g : ℕ) (w : World) → Grows S w (table_key_wrap S plain g w).1
  unfolding table_key_wrap
  wrap-Grows plain g w =
      used-Grows w (master_key_get S g true w)
        (λ master. aes_encrypt master plain >>= frame_wrapped_value g)
        (master_key_get-Grows S faithful g true w)

  framed_key :
      (w : World) (g : ℕ) (key plain framed : Bytes)
      → IsU32 g
      → ring w (master_key_name S g) ≡ some key
      → (aes_encrypt key plain >>= frame_wrapped_value g) ≡ some framed
      → opened w (parse_wrapped_value framed) framed ≡ some plain
  unfolding opened
  framed_key w g key plain framed h there e =
      elim (>>=-Bound (aes_encrypt key plain) (frame_wrapped_value g) e) [
        | bound c sealed put ↦
            rw
              (
                (parse_wrapped_value-frame_wrapped_value g c h put).0,
                there,
                (parse_wrapped_value-frame_wrapped_value g c h put).1,
              )
              (faithful.aes_decrypt-aes_encrypt key plain sealed)
      ]

  pub wrap-opened :
      (plain : Bytes) (g : ℕ) (w : World) (framed : Bytes)
      → IsU32 g
      → (table_key_wrap S plain g w).0 ≡ some framed
      → opened (table_key_wrap S plain g w).1 (parse_wrapped_value framed) framed ≡ some plain
  unfolding table_key_wrap
  wrap-opened plain g w framed h e =
      let (key, there, d) =
        used_key (master_key_name S g) (master_key_get S g true w)
          (λ master. aes_encrypt master plain >>= frame_wrapped_value g) framed
          (master_key_get-ring S faithful g true w) e in
      framed_key (table_key_wrap S plain g w).1 g key plain framed h there d

  -- Every table key that could be read back still can.
  unfoldable pub Keeps : World → World → Type 0
  Keeps w w' =
      (key_id version : ℕ) (plain : Bytes)
      → IsU32 key_id
      → IsU32 version
      → key_at w key_id version ≡ some plain
      → key_at w' key_id version ≡ some plain

  pub Grows-Keeps : (w w' : World) → Grows S w w' → Keeps w w'
  unfolding Keeps key_at
  Grows-Keeps w w' g key_id version plain hk hv e =
      elim (>>=-Bound (disk w (encode_wrapped_key key_id version))
        (λ stored. opened w (parse_wrapped_value stored) stored) e) [
          | bound stored there o ↦
              rw (g.same (encode_wrapped_key key_id version) ∙ there)
                (opened-Grows w w' (parse_wrapped_value stored) stored plain (λ n key. g.kept n) o)
        ]

  pub Keeps-trans : (u v w : World) → Keeps u v → Keeps v w → Keeps u w
  unfolding Keeps
  Keeps-trans u v w k l key_id version plain hk hv e =
      l key_id version plain hk hv (k key_id version plain hk hv e)
