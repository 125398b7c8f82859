-- ===== src/Txn/Protocol.antt =====
-- What a connection may do with the handles of the storage library: a handle is used from the begin
-- that gave it to its free, by its owner alone, who is a connection or an entry of the registry.
pub mod Lawful
pub mod Ownership
pub mod Handle
pub mod Commit
pub mod Reuse
pub mod Sharing
pub mod Settled
pub mod Handed
pub mod Serving
pub mod Starts
pub mod Discards
pub mod Events
pub mod Recovered
pub mod TwoPhase
pub mod System
use tidesql_mysql.Txn.{is_success, Library, Call, Isolation}
use tidesql_mysql.Xid.Recovery.{set_entry}
use tidesql_mysql.Base.{ℕ}
use tidesql_mysql.Base.{◌≡◌}
use tidesql_mysql.Base.{true, false, Option, none, some}
use tidesql_mysql.Base.Bytes.{Bytes}

abbrev pub Txns : Type 0
Txns = Bytes → Option ℕ

module _ (L : Library) where
  open L use {
    Db, begin_with_isolation, begin, call, get, scan, free, get_column_family, create_column_family,
  }

  -- The moves of the owner of one place for a handle, over the library's state and the registry.
  pub data Moves : Option ℕ → Db → Txns → Option ℕ → Db → Txns → Type 0 where
    stop : {x y : Option ℕ} {d : Db} {t : Txns} → x ≡ y → Moves x d t y d t
    seq :
        {x y z : Option ℕ} {d e f : Db} {t u v : Txns}
        → Moves x d t y e u
        → Moves y e u z f v
        → Moves x d t z f v
    called : {d : Db} {t : Txns} (h : ℕ) (c : Call) → Moves (some h) d t (some h) (call h c d).1 t
    got :
        {d : Db} {t : Txns} (h cf : ℕ) (key : Bytes)
        → Moves (some h) d t (some h) (get h cf key d).2 t
    scanned : {d : Db} {t : Txns} (h cf : ℕ) → Moves (some h) d t (some h) (scan h cf d).1 t
    began_with :
        {d : Db} {t : Txns} (iso : Isolation)
        → is_success (begin_with_isolation iso d).0 ≡ true
        → Moves none d t (some (begin_with_isolation iso d).1) (begin_with_isolation iso d).2 t
    not_begun_with :
        {d : Db} {t : Txns} (iso : Isolation)
        → is_success (begin_with_isolation iso d).0 ≡ false
        → Moves none d t none (begin_with_isolation iso d).2 t
    began :
        {d : Db} {t : Txns}
        → is_success (begin d).0 ≡ true
        → Moves none d t (some (begin d).1) (begin d).2 t
    not_begun :
        {d : Db} {t : Txns} → is_success (begin d).0 ≡ false → Moves none d t none (begin d).2 t
    freed : {d : Db} {t : Txns} (h : ℕ) → Moves (some h) d t none (free h d) t
    left : {d : Db} {t : Txns} (h : ℕ) → Moves (some h) d t none d t
    handed :
        {d : Db} {t : Txns} (h : ℕ) (key : Bytes)
        → Moves (some h) d t none d (set_entry key (some h) t)
    taken :
        {d : Db} {t : Txns} {h : ℕ} (key : Bytes)
        → t key ≡ some h
        → Moves none d t (some h) d (set_entry key none t)
    dropped :
        {x : Option ℕ} {d : Db} {t : Txns} (key : Bytes) → Moves x d t x d (set_entry key none t)
    opened :
        {x : Option ℕ} {d : Db} {t : Txns} (n : Bytes) → Moves x d t x (get_column_family n d).1 t
    created :
        {x : Option ℕ} {d : Db} {t : Txns} (n : Bytes)
        → Moves x d t x (create_column_family n d).1 t
