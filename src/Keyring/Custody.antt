-- ===== src/Keyring/Custody.antt =====
-- What the store and the key ring keep.
use tidesql_mysql.Keyring.{
  Services, whole_value, store_get, store_put, master_key_name, master_key_get, or_mint, generated,
}
use tidesql_mysql.Base.{ℕ}
use tidesql_mysql.Base.{◌≡◌, refl, sym, ◌∙◌, ◌⊎◌, inl, inr}
use tidesql_mysql.Base.{Bool, true, false, Option, none, some}
use tidesql_mysql.Base.{[], ◌∷◌}
use tidesql_mysql.Base.{if◌then◌else◌}
use tidesql_mysql.Base.{Bool-cases}
use tidesql_mysql.Base.Bytes.{Bytes, equal}

module _ (S : Services) where
  open S use {
    World, disk, ring, txn_begin, txn_get, txn_put, txn_commit, txn_rollback, txn_free,
    keyring_fetch, keyring_generate, random_bytes, aes_encrypt, aes_decrypt,
  }

  -- The committed data are the same, and the key ring has lost no key.
  pub record Grows (w w' : World) : Type 0 where
    pub same : (k : Bytes) → disk w' k ≡ disk w k
    pub kept : (n : Bytes) {key : Bytes} → ring w n ≡ some key → ring w' n ≡ some key

-- What the services document: only a commit changes what is committed, to what was put, and not
-- where it fails; what is read is what is there; the key ring keeps its keys; and what AES encrypts
-- it decrypts under the same key.
pub record IsFaithful (S : Services) : Type 0 where
  pub txn_begin-Grows : (w : S.World) → Grows S w (S.txn_begin w).1
  pub txn_get-Grows : (k : Bytes) (w : S.World) → Grows S w (S.txn_get k w).1
  pub txn_put-Grows : (k v : Bytes) (w : S.World) → Grows S w (S.txn_put k v w).1
  pub txn_commit_failed : (w : S.World) → (S.txn_commit w).0 ≡ false → Grows S w (S.txn_commit w).1
  pub txn_commit-ring : (w : S.World) (n : Bytes) → S.ring (S.txn_commit w).1 n ≡ S.ring w n
  pub txn_commit-txn_put :
      (k v : Bytes) (w : S.World)
      → (S.txn_begin w).0 ≡ true
      → (S.txn_put k v (S.txn_begin w).1).0 ≡ true
      → (S.txn_commit (S.txn_put k v (S.txn_begin w).1).1).0 ≡ true
      → (k' : Bytes)
      → S.disk (S.txn_commit (S.txn_put k v (S.txn_begin w).1).1).1 k'
        ≡ (if equal k' k then some v else S.disk w k')
  pub txn_rollback-Grows : (w : S.World) → Grows S w (S.txn_rollback w)
  pub txn_free-Grows : (w : S.World) → Grows S w (S.txn_free w)
  pub keyring_fetch-Grows : (n : Bytes) (w : S.World) → Grows S w (S.keyring_fetch n w).1
  pub keyring_generate-Grows : (n : Bytes) (w : S.World) → Grows S w (S.keyring_generate n w).1
  pub random_bytes-Grows : (n : ℕ) (w : S.World) → Grows S w (S.random_bytes n w).1
  pub txn_get-disk :
      (k : Bytes) (w : S.World) {v : Bytes} → (S.txn_get k w).0 ≡ some v → S.disk w k ≡ some v
  pub keyring_fetch-ring :
      (n : Bytes) (w : S.World) {key : Bytes}
      → (S.keyring_fetch n w).0 ≡ some key
      → S.ring w n ≡ some key
  pub aes_decrypt-aes_encrypt :
      (key plain : Bytes) {c : Bytes}
      → S.aes_encrypt key plain ≡ some c
      → S.aes_decrypt key c ≡ some plain

module _ (S : Services) (faithful : IsFaithful S) where
  open S use {
    World, disk, ring, txn_begin, txn_get, txn_put, txn_commit, txn_rollback, txn_free,
    keyring_fetch, keyring_generate, random_bytes, aes_encrypt, aes_decrypt,
  }

  pub Grows-refl : (w : World) → Grows S w w
  Grows-refl w = record { same = λ k. refl; kept = λ n e. e }

  pub Grows-trans : {u v w : World} → Grows S u v → Grows S v w → Grows S u w
  Grows-trans g h = record { same = λ k. h.same k ∙ g.same k; kept = λ n e. h.kept n (g.kept n e) }

  pub store_get-Grows : (k : Bytes) (w : World) → Grows S w (store_get S k w).1
  unfolding store_get
  store_get-Grows k w = elim (Bool-cases (txn_begin w).0) [
    | inr e ↦ rw e (faithful.txn_begin-Grows w)
    | inl e ↦ rw e (
        Grows-trans (faithful.txn_begin-Grows w) (
          Grows-trans (faithful.txn_get-Grows k (txn_begin w).1) (
            Grows-trans (faithful.txn_rollback-Grows (txn_get k (txn_begin w).1).1)
              (faithful.txn_free-Grows (txn_rollback (txn_get k (txn_begin w).1).1)))))
  ]

  whole_value_sound : (o : Option Bytes) {v : Bytes} → whole_value o ≡ some v → o ≡ some v
  unfolding whole_value
  whole_value_sound none e = absurd cc
  whole_value_sound (some []) e = absurd cc
  whole_value_sound (some (b ∷ bs)) e = e

  pub store_get-disk :
      (k : Bytes) (w : World) {v : Bytes} → (store_get S k w).0 ≡ some v → disk w k ≡ some v
  unfolding store_get
  store_get-disk k w {v} = elim (Bool-cases (txn_begin w).0) [
    | inr e ↦ rw e (λ q. absurd cc)
    | inl e ↦ rw e (λ q.
        sym ((faithful.txn_begin-Grows w).same k)
        ∙ faithful.txn_get-disk k (txn_begin w).1
            (whole_value_sound (txn_get k (txn_begin w).1).0 q))
  ]

  -- A write changes its key alone, to what is written, or nothing.
  pub store_put-cases :
      (k v : Bytes) (w : World)
      → Grows S w (store_put S k v w).1
        ⊎ (((k' : Bytes)
              → disk (store_put S k v w).1 k' ≡ (if equal k' k then some v else disk w k'))
            × ((n key : Bytes) → ring w n ≡ some key → ring (store_put S k v w).1 n ≡ some key))
  unfolding store_put
  store_put-cases k v w = elim (Bool-cases (txn_begin w).0) [
    | inr e ↦ rw e (inl began)
    | inl e ↦ elim (Bool-cases (txn_put k v (txn_begin w).1).0) [
      | inr p ↦
          rw (e, p)
            (inl (
              Grows-trans put (
                Grows-trans (faithful.txn_rollback-Grows w₂)
                  (faithful.txn_free-Grows (txn_rollback w₂)))))
      | inl p ↦ elim (Bool-cases (txn_commit w₂).0) [
        | inr c ↦
            rw (e, p) (inl (Grows-trans put (Grows-trans (faithful.txn_commit_failed w₂ c) freed)))
        | inl c ↦
            rw (e, p)
              (inr (
                λ k'. freed.same k' ∙ faithful.txn_commit-txn_put k v w e p c k',
                λ n key h. freed.kept n (faithful.txn_commit-ring w₂ n ∙ put.kept n h),
              ))
      ]
    ]
  ]
    where
      w₂ : World
      w₂ = (txn_put k v (txn_begin w).1).1

      began : Grows S w (txn_begin w).1
      began = faithful.txn_begin-Grows w

      put : Grows S w w₂
      put = Grows-trans began (faithful.txn_put-Grows k v (txn_begin w).1)

      freed : Grows S (txn_commit w₂).1 (txn_free (txn_commit w₂).1)
      freed = faithful.txn_free-Grows (txn_commit w₂).1

  or_mint-Grows :
      (n : Bytes) (mint : Bool) (w : World) (o : Option Bytes × World)
      → Grows S w o.1
      → Grows S w (or_mint S n mint o).1
  unfolding or_mint generated
  or_mint-Grows n mint w (some key, w') g = g
  or_mint-Grows n false w (none, w') g = g
  or_mint-Grows n true w (none, w') g = elim (Bool-cases (keyring_generate n w').0) [
    | inl e ↦ rw e (
        Grows-trans g (
          Grows-trans (faithful.keyring_generate-Grows n w')
            (faithful.keyring_fetch-Grows n (keyring_generate n w').1)))
    | inr e ↦ rw e (Grows-trans g (faithful.keyring_generate-Grows n w'))
  ]

  pub master_key_get-Grows :
      (g : ℕ) (mint : Bool) (w : World) → Grows S w (master_key_get S g mint w).1
  unfolding master_key_get
  master_key_get-Grows g mint w =
      or_mint-Grows (master_key_name S g) mint w (keyring_fetch (master_key_name S g) w)
        (faithful.keyring_fetch-Grows (master_key_name S g) w)

  fetched :
      (n : Bytes) (w : World) (key : Bytes)
      → (keyring_fetch n w).0 ≡ some key
      → ring (keyring_fetch n w).1 n ≡ some key
  fetched n w key e = (faithful.keyring_fetch-Grows n w).kept n (faithful.keyring_fetch-ring n w e)

  or_mint-ring :
      (n : Bytes) (mint : Bool) (o : Option Bytes × World) (key : Bytes)
      → ((k : Bytes) → o.0 ≡ some k → ring o.1 n ≡ some k)
      → (or_mint S n mint o).0 ≡ some key
      → ring (or_mint S n mint o).1 n ≡ some key
  unfolding or_mint generated
  or_mint-ring n mint (some k, w') key h = h key
  or_mint-ring n false (none, w') key h = λ e. absurd cc
  or_mint-ring n true (none, w') key h = elim (Bool-cases (keyring_generate n w').0) [
    | inl g ↦ rw g (fetched n (keyring_generate n w').1 key)
    | inr g ↦ rw g (λ e. absurd cc)
  ]

  pub master_key_get-ring :
      (g : ℕ) (mint : Bool) (w : World) (key : Bytes)
      → (master_key_get S g mint w).0 ≡ some key
      → ring (master_key_get S g mint w).1 (master_key_name S g) ≡ some key
  unfolding master_key_get
  master_key_get-ring g mint w key =
      or_mint-ring (master_key_name S g) mint (keyring_fetch (master_key_name S g) w) key
        (fetched (master_key_name S g) w)
