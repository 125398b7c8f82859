-- ===== src/Keyring/Rewrap.antt =====
-- The rewrap of the stored table keys under a new master key.
use tidesql_mysql.KeyEnc.{parse_wrapped_value, encode_wrapped_key, IsU32}
use tidesql_mysql.KeyEnc.{encode_latest_key, generation_first}
use tidesql_mysql.Keyring.{Services, after, store_get, store_put, table_key_unwrap, table_key_wrap}
use tidesql_mysql.Keyring.{
  put_rewrapped, rewrap_stored, rewrap_versions, rewrap_recorded, rewrap_ids,
}
use tidesql_mysql.Keyring.{stored_number, max_encryption_key_versions}
use tidesql_mysql.Keyring.Custody.{
  Grows, IsFaithful, Grows-refl, store_get-Grows, store_get-disk, store_put-cases,
}
use tidesql_mysql.Keyring.Unwrap.{
  opened, key_at, opened-Grows, unwrap-Grows, unwrap-opened, wrap-Grows, wrap-opened, Keeps,
  Grows-Keeps, Keeps-trans,
}
use tidesql_mysql.Base.Bytes.{equal_iff}
use tidesql_mysql.Base.{ℕ, zero, suc, ◌+◌}
use tidesql_mysql.Base.{◌≡◌, refl, sym, ap, ◌∙◌, ◌≢◌, ◌⊎◌, inl, inr}
use tidesql_mysql.Base.{Bool, true, false, Option, none, some, >>=-Bound, bound}
use tidesql_mysql.Base.{if◌then◌else◌}
use tidesql_mysql.Base.{min}
use tidesql_mysql.Base.{Bool-cases}
use tidesql_mysql.Base.Bytes.{Bytes, equal}

module _ (S : Services) (faithful : IsFaithful S) where
  open S use {World, disk, ring}

  pub key_at_disk :
      (w : World) (key_id version : ℕ) (stored : Bytes)
      → disk w (encode_wrapped_key key_id version) ≡ some stored
      → key_at S faithful w key_id version ≡ opened S faithful w (parse_wrapped_value stored) stored
  unfolding key_at
  key_at_disk w key_id version stored e = rw e refl

  key_at_parts :
      (w : World) (key_id version : ℕ) (plain : Bytes)
      → key_at S faithful w key_id version ≡ some plain
      → (stored : Bytes) × (disk w (encode_wrapped_key key_id version) ≡ some stored)
        × (opened S faithful w (parse_wrapped_value stored) stored ≡ some plain)
  unfolding key_at
  key_at_parts w key_id version plain e =
      elim (>>=-Bound (disk w (encode_wrapped_key key_id version))
        (λ stored. opened S faithful w (parse_wrapped_value stored) stored) e) [
          | bound stored there o ↦ (stored, there, o)
        ]

  -- A write keeps the keys if what it puts over one of them opens to that key.
  store_put-Keeps :
      (k v : Bytes) (w : World)
      → ((key_id version : ℕ) (plain : Bytes)
          → IsU32 key_id
          → IsU32 version
          → key_at S faithful w key_id version ≡ some plain
          → encode_wrapped_key key_id version ≡ k
          → opened S faithful w (parse_wrapped_value v) v ≡ some plain)
      → Keeps S faithful w (store_put S k v w).1
  store_put-Keeps k v w h = elim (store_put-cases S faithful k v w) [
    | inl g ↦ Grows-Keeps S faithful w w' g
    | inr (put, kept) ↦
        unfold Keeps in
        (λ key_id version plain hk hv e.
          found put kept key_id version plain hk hv e
            (Bool-cases (equal (encode_wrapped_key key_id version) k)))
  ]
    where
      w' : World
      w' = (store_put S k v w).1

      found :
          ((k' : Bytes) → disk w' k' ≡ (if equal k' k then some v else disk w k'))
          → ((n key : Bytes) → ring w n ≡ some key → ring w' n ≡ some key)
          → (key_id version : ℕ) (plain : Bytes) → IsU32 key_id
          → IsU32 version
          → key_at S faithful w key_id version ≡ some plain
          → (equal (encode_wrapped_key key_id version) k ≡ true)
            ⊎ (equal (encode_wrapped_key key_id version) k ≡ false)
          → key_at S faithful w' key_id version ≡ some plain
      found put kept key_id version plain hk hv e (inl c) =
          key_at_disk w' key_id version v (put (encode_wrapped_key key_id version) ∙ rw c refl)
          ∙ opened-Grows S faithful w w' (parse_wrapped_value v) v plain kept (
              h key_id version plain hk hv e
                ((equal_iff (encode_wrapped_key key_id version) k).0 c))
      found put kept key_id version plain hk hv e (inr c) =
          let (stored, there, o) = key_at_parts w key_id version plain e in
          key_at_disk w' key_id version stored
            (put (encode_wrapped_key key_id version) ∙ rw c there)
          ∙ opened-Grows S faithful w w' (parse_wrapped_value stored) stored plain kept o

  pub no_wrapped :
      (k : Bytes)
      → ((key_id version : ℕ) → encode_wrapped_key key_id version ≢ k)
      → (v : Bytes) (w : World) → Keeps S faithful w (store_put S k v w).1
  no_wrapped k apart v w =
      store_put-Keeps k v w
        (λ key_id version plain hk hv e same. absurd (apart key_id version same))

  -- The put of a key that was wrapped again.
  put_rewrapped-Keeps :
      (key stored plain : Bytes) (w : World) (m : Option Bytes × World)
      → disk w key ≡ some stored
      → opened S faithful w (parse_wrapped_value stored) stored ≡ some plain
      → Grows S w m.1
      → ((framed : Bytes)
          → m.0 ≡ some framed
          → opened S faithful m.1 (parse_wrapped_value framed) framed ≡ some plain)
      → Keeps S faithful w (put_rewrapped S key m).1
  unfolding put_rewrapped
  put_rewrapped-Keeps key stored plain w (none, w') there o g f = Grows-Keeps S faithful w w' g
  put_rewrapped-Keeps key stored plain w (some framed, w') there o g f =
      Keeps-trans S faithful w w' (store_put S key framed w').1 (Grows-Keeps S faithful w w' g) (
        store_put-Keeps key framed w' (λ key_id version p hk hv e same.
          f framed refl
          ∙ sym (
              opened-Grows S faithful w w' (parse_wrapped_value stored) stored plain
                (λ n k. g.kept n) o)
          ∙ sym (key_at_disk w' key_id version stored (ap (disk w') same ∙ g.same key ∙ there))
          ∙ e))

  rewrap_unwrapped-Keeps :
      (next : ℕ) (key stored : Bytes) (w : World) (m : Option Bytes × World)
      → IsU32 next
      → disk w key ≡ some stored
      → Grows S w m.1
      → ((plain : Bytes)
          → m.0 ≡ some plain
          → opened S faithful m.1 (parse_wrapped_value stored) stored ≡ some plain)
      → Keeps S faithful w
          (put_rewrapped S key (after m (λ plain w'. table_key_wrap S plain next w'))).1
  unfolding put_rewrapped
  rewrap_unwrapped-Keeps next key stored w (none, w') hn there g f = Grows-Keeps S faithful w w' g
  rewrap_unwrapped-Keeps next key stored w (some plain, w') hn there g f =
      Keeps-trans S faithful w w' (put_rewrapped S key (table_key_wrap S plain next w')).1
        (Grows-Keeps S faithful w w' g)
        (put_rewrapped-Keeps key stored plain w' (table_key_wrap S plain next w')
          (g.same key ∙ there) (f plain refl) (wrap-Grows S faithful plain next w')
          (λ framed. wrap-opened S faithful plain next w' framed hn))

  rewrap_stored-Keeps :
      (next : ℕ) (key : Bytes) (w : World) (m : Option Bytes × World)
      → IsU32 next
      → Grows S w m.1
      → ((stored : Bytes) → m.0 ≡ some stored → disk w key ≡ some stored)
      → Keeps S faithful w (rewrap_stored S next key m).1
  unfolding rewrap_stored
  rewrap_stored-Keeps next key w (none, w') hn g f = Grows-Keeps S faithful w w' g
  rewrap_stored-Keeps next key w (some stored, w') hn g f =
      Keeps-trans S faithful w w'
        (put_rewrapped S key
          (after (table_key_unwrap S stored w') (λ plain w''. table_key_wrap S plain next w''))).1
        (Grows-Keeps S faithful w w' g)
        (rewrap_unwrapped-Keeps next key stored w' (table_key_unwrap S stored w') hn
          (g.same key ∙ f stored refl) (unwrap-Grows S faithful stored w')
          (unwrap-opened S faithful stored w'))

  pub Keeps-refl : (w : World) → Keeps S faithful w w
  Keeps-refl w = Grows-Keeps S faithful w w (Grows-refl S faithful w)

  -- A loop that ends at a failure.
  goes_on-Keeps :
      (w : World) (r r' : Bool × World)
      → Keeps S faithful w r.1
      → Keeps S faithful r.1 r'.1
      → Keeps S faithful w (if r.0 then r' else (false, r.1)).1
  goes_on-Keeps w (true, w') r' k l = Keeps-trans S faithful w w' r'.1 k l
  goes_on-Keeps w (false, w') r' k l = k

  rewrap_versions-Keeps :
      (next key_id count version : ℕ) (w : World)
      → IsU32 next
      → Keeps S faithful w (rewrap_versions S next key_id count version w).1
  unfolding rewrap_versions
  rewrap_versions-Keeps next key_id zero version w hn = Keeps-refl w
  rewrap_versions-Keeps next key_id (suc count) version w hn =
      goes_on-Keeps w one (rewrap_versions S next key_id count (version + 1) one.1)
        (rewrap_stored-Keeps next key w (store_get S key w) hn (store_get-Grows S faithful key w)
          (λ stored. store_get-disk S faithful key w))
        (rewrap_versions-Keeps next key_id count (version + 1) one.1 hn)
    where
      key : Bytes
      key = encode_wrapped_key key_id version

      one : Bool × World
      one = rewrap_stored S next key (store_get S key w)

  rewrap_recorded-Keeps :
      (next key_id : ℕ) (o : Option ℕ) (w : World)
      → IsU32 next
      → Keeps S faithful w (rewrap_recorded S next key_id o w).1
  unfolding rewrap_recorded
  rewrap_recorded-Keeps next key_id none w hn = Keeps-refl w
  rewrap_recorded-Keeps next key_id (some latest) w hn =
      rewrap_versions-Keeps next key_id (min latest max_encryption_key_versions) generation_first w
        hn

  pub rewrap_ids-Keeps :
      (next count key_id : ℕ) (w : World)
      → IsU32 next
      → Keeps S faithful w (rewrap_ids S next count key_id w).1
  unfolding rewrap_ids
  rewrap_ids-Keeps next zero key_id w hn = Keeps-refl w
  rewrap_ids-Keeps next (suc count) key_id w hn =
      goes_on-Keeps w one (rewrap_ids S next count (key_id + 1) one.1)
        (Keeps-trans S faithful w got.1 one.1
          (Grows-Keeps S faithful w got.1 (store_get-Grows S faithful (encode_latest_key key_id) w))
          (rewrap_recorded-Keeps next key_id (stored_number got.0) got.1 hn))
        (rewrap_ids-Keeps next count (key_id + 1) one.1 hn)
    where
      got : Option Bytes × World
      got = store_get S (encode_latest_key key_id) w

      one : Bool × World
      one = rewrap_recorded S next key_id (stored_number got.0) got.1
