-- ===== src/Keyring/Lookup.antt =====
-- The read of a table key.
use tidesql_mysql.KeyEnc.{encode_wrapped_key}
use tidesql_mysql.Keyring.{Services, after, store_get, table_key_unwrap}
use tidesql_mysql.Keyring.{fits_buffer, get_key}
use tidesql_mysql.Keyring.Custody.{Grows, IsFaithful, store_get-Grows, store_get-disk}
use tidesql_mysql.Keyring.Unwrap.{key_at, unwrap-Grows, unwrap-opened}
use tidesql_mysql.Base.{ℕ, ◌≤◌}
use tidesql_mysql.Base.{◌≡◌, refl, ◌∙◌, arith}
use tidesql_mysql.Base.{Option, none, some}
use tidesql_mysql.Base.{[], ◌∷◌, length}
use tidesql_mysql.Base.Bytes.{Bytes}
use tidesql_mysql.Keyring.Rewrap.{key_at_disk}

module _ (S : Services) (faithful : IsFaithful S) where
  open S use {World, disk, ring}

  fits_buffer_sound :
      (room : ℕ) (o : Option Bytes) (plain : Bytes)
      → fits_buffer S room o ≡ some plain
      → (o ≡ some plain) × (length plain ≤ room)
  unfolding fits_buffer
  fits_buffer_sound room none plain e = absurd cc
  fits_buffer_sound room (some []) plain e = absurd cc
  fits_buffer_sound room (some (b ∷ bs)) plain e = ground arith

  read_key :
      (w : World) (key_id version : ℕ) (plain : Bytes) (m : Option Bytes × World)
      → Grows S w m.1
      → ((stored : Bytes)
          → m.0 ≡ some stored
          → disk w (encode_wrapped_key key_id version) ≡ some stored)
      → (after m (λ stored w'. table_key_unwrap S stored w')).0 ≡ some plain
      → key_at S faithful (after m (λ stored w'. table_key_unwrap S stored w')).1 key_id version
        ≡ some plain
  read_key w key_id version plain (none, w') g f e = absurd cc
  read_key w key_id version plain (some stored, w') g f e =
      key_at_disk S faithful (table_key_unwrap S stored w').1 key_id version stored (
        (unwrap-Grows S faithful stored w').same (encode_wrapped_key key_id version)
        ∙ g.same (encode_wrapped_key key_id version)
        ∙ f stored refl)
      ∙ unwrap-opened S faithful stored w' plain e

  -- A key that `get_key` hands out fits the buffer and is the one that the stored value of its id
  -- and version opens to under the key ring's master key. The services do what they document.
  pub get_key-key_at :
      (key_id version room : ℕ) (w : World) (plain : Bytes)
      → (get_key S key_id version room w).0 ≡ some plain
      → (key_at S faithful (get_key S key_id version room w).1 key_id version ≡ some plain)
        × (length plain ≤ room)
  unfolding get_key
  get_key-key_at key_id version room w plain e =
      let (got, fits) =
        fits_buffer_sound room
          (after (store_get S key w) (λ stored w'. table_key_unwrap S stored w')).0 plain e in
      (
        read_key w key_id version plain (store_get S key w) (store_get-Grows S faithful key w)
            (λ stored. store_get-disk S faithful key w) got,
        fits,
      )
    where
      key : Bytes
      key = encode_wrapped_key key_id version
