-- ===== src/Txn/Protocol/Lawful.antt =====
-- What the storage library documents about its transactions.
use tidesql_mysql.Txn.{is_success, Library, Call, Isolation, reset}
use tidesql_mysql.Base.{ℕ}
use tidesql_mysql.Base.{◌≡◌, ◌⊎◌}
use tidesql_mysql.Base.{Bool, true, false, some}
use tidesql_mysql.Base.{List, [], ◌∷◌}
use tidesql_mysql.Base.{◌==◌, if◌then◌else◌}
use tidesql_mysql.Base.Bytes.{Bytes}

-- The library answers a handle for the transaction of a key.
unfoldable pub Answered : Bytes → ℕ → List (Bytes × ℕ) → Type 0
Answered key h [] = true ≡ false
Answered key h ((k, txn) ∷ buf) = ((key ≡ k) × (h ≡ txn)) ⊎ Answered key h buf

-- What the storage library keeps: which handles are live, and whether every transaction that was
-- used so far was live then. A begin gives a new handle, recovery a new one for each key, a free ends
-- one, other calls leave them.
pub record IsLawful (L : Library) : Type 0 where
  pub live : L.Db → ℕ → Bool
  pub is_sane : L.Db → Bool
  pub begin_with-fresh :
      (iso : Isolation) (d : L.Db)
      → is_success (L.begin_with_isolation iso d).0 ≡ true
      → live d (L.begin_with_isolation iso d).1 ≡ false
  pub begin_with-live :
      (iso : Isolation) (d : L.Db)
      → is_success (L.begin_with_isolation iso d).0 ≡ true
      → (h : ℕ)
      → live (L.begin_with_isolation iso d).2 h
        ≡ (if h == (L.begin_with_isolation iso d).1 then true else live d h)
  pub begin_with-failed :
      (iso : Isolation) (d : L.Db)
      → is_success (L.begin_with_isolation iso d).0 ≡ false
      → (h : ℕ) → live (L.begin_with_isolation iso d).2 h ≡ live d h
  pub begin_with-sane :
      (iso : Isolation) (d : L.Db) → is_sane (L.begin_with_isolation iso d).2 ≡ is_sane d
  pub begin-fresh : (d : L.Db) → is_success (L.begin d).0 ≡ true → live d (L.begin d).1 ≡ false
  pub begin-live :
      (d : L.Db)
      → is_success (L.begin d).0 ≡ true
      → (h : ℕ) → live (L.begin d).2 h ≡ (if h == (L.begin d).1 then true else live d h)
  pub begin-failed :
      (d : L.Db) → is_success (L.begin d).0 ≡ false → (h : ℕ) → live (L.begin d).2 h ≡ live d h
  pub begin-sane : (d : L.Db) → is_sane (L.begin d).2 ≡ is_sane d
  pub call-live : (h : ℕ) (c : Call) (d : L.Db) (k : ℕ) → live (L.call h c d).1 k ≡ live d k
  pub call-sane :
      (h : ℕ) (c : Call) (d : L.Db) → live d h ≡ true → is_sane (L.call h c d).1 ≡ is_sane d
  pub get-live :
      (h cf : ℕ) (key : Bytes) (d : L.Db) (k : ℕ) → live (L.get h cf key d).2 k ≡ live d k
  pub get-sane :
      (h cf : ℕ) (key : Bytes) (d : L.Db)
      → live d h ≡ true
      → is_sane (L.get h cf key d).2 ≡ is_sane d
  pub free-live :
      (h : ℕ) (d : L.Db) (k : ℕ) → live (L.free h d) k ≡ (if k == h then false else live d k)
  pub free-sane : (h : ℕ) (d : L.Db) → live d h ≡ true → is_sane (L.free h d) ≡ is_sane d
  pub get_column_family-live :
      (n : Bytes) (d : L.Db) (k : ℕ) → live (L.get_column_family n d).1 k ≡ live d k
  pub get_column_family-sane :
      (n : Bytes) (d : L.Db) → is_sane (L.get_column_family n d).1 ≡ is_sane d
  pub create_column_family-live :
      (n : Bytes) (d : L.Db) (k : ℕ) → live (L.create_column_family n d).1 k ≡ live d k
  pub create_column_family-sane :
      (n : Bytes) (d : L.Db) → is_sane (L.create_column_family n d).1 ≡ is_sane d
  pub scan-live : (h cf : ℕ) (d : L.Db) (k : ℕ) → live (L.scan h cf d).1 k ≡ live d k
  pub scan-sane : (h cf : ℕ) (d : L.Db) → live d h ≡ true → is_sane (L.scan h cf d).1 ≡ is_sane d
  pub recover-sane : (n : ℕ) (d : L.Db) → is_sane (L.recover_prepared n d).1 ≡ is_sane d
  pub recover-kept :
      (n : ℕ) (d : L.Db) (k : ℕ) → live d k ≡ true → live (L.recover_prepared n d).1 k ≡ true
  pub recover-fresh :
      (n : ℕ) (d : L.Db) (buf : List (Bytes × ℕ))
      → (L.recover_prepared n d).0 ≡ some buf
      → (key : Bytes) (h : ℕ) → Answered key h buf
      → live d h ≡ false
  pub recover-live :
      (n : ℕ) (d : L.Db) (buf : List (Bytes × ℕ))
      → (L.recover_prepared n d).0 ≡ some buf
      → (key : Bytes) (h : ℕ) → Answered key h buf
      → live (L.recover_prepared n d).1 h ≡ true
  pub recover-apart :
      (n : ℕ) (d : L.Db) (buf : List (Bytes × ℕ))
      → (L.recover_prepared n d).0 ≡ some buf
      → (key key' : Bytes) (h : ℕ) → Answered key h buf
      → Answered key' h buf
      → key ≡ key'

-- The isolation level that the library keeps for a transaction: that of its begin or last reset.
pub record HasLevels (L : Library) : Type 0 where
  pub level : L.Db → ℕ → Isolation
  pub begin_with-level :
      (iso : Isolation) (d : L.Db)
      → is_success (L.begin_with_isolation iso d).0 ≡ true
      → level (L.begin_with_isolation iso d).2 (L.begin_with_isolation iso d).1 ≡ iso
  pub reset-level :
      (h : ℕ) (iso : Isolation) (d : L.Db)
      → is_success (L.call h (reset iso) d).0 ≡ true
      → level (L.call h (reset iso) d).1 h ≡ iso
