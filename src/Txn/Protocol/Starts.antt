-- ===== src/Txn/Protocol/Starts.antt =====
-- The starts of statements, the savepoints of SQL and the close of a connection make moves of the
-- protocol.
use tidesql_mysql.Txn.{
  Rc, is_success, is_not_found, Library, Isolation, Trx, Thd, Shared, stmt_name, sv_name,
}
use tidesql_mysql.Txn.{
  SavepointName, make_savepoint, rollback_to_savepoint, release_savepoint, rollback, is_ddl,
}
use tidesql_mysql.Txn.{resolve_effective_isolation, repeatable_read, read_committed}
use tidesql_mysql.Txn.Savepoints.{stmt_savepoint_arm, handle_of, Savepoint, slot_name}
use tidesql_mysql.Txn.Savepoints.{savepoint_set_on, savepoint_rollback_on, savepoint_release_on}
use tidesql_mysql.Txn.Savepoints.{savepoint_set, savepoint_rollback, savepoint_release}
use tidesql_mysql.Txn.Resolve.{close_on, close_connection}
use tidesql_mysql.Txn.Begin.{
  get_or_create_trx, start_consistent_snapshot, at_least_snapshot, mark_dirty_on,
}
use tidesql_mysql.Txn.Begin.{
  mark_dirty, stmt_txn_for_ddl, arm_statement, acquired, statement_isolation,
}
use tidesql_mysql.Txn.Begin.{external_lock_acquire}
use tidesql_mysql.Txn.Protocol.Reuse.{get_or_create_trx-Moves}
use tidesql_mysql.Txn.Protocol.{Txns, Moves, stop, seq, called, freed, left}
use tidesql_mysql.Base.{ℕ}
use tidesql_mysql.Base.{◌≡◌, refl, sym, inl, inr}
use tidesql_mysql.Base.{Bool, true, false, not, ◌&&◌, Option, none, some}
use tidesql_mysql.Base.{[], ◌∷◌}
use tidesql_mysql.Base.{Bool-cases}
use tidesql_mysql.Base.Bytes.{Bytes}

module _ (L : Library) where
  open L use {Db, call, free}

  abbrev Turns : Db → Txns → Option Trx → Db → Option Trx → Type 0
  Turns d t trx d' trx' = Moves L (handle_of trx) d t (handle_of trx') d' t

  arm-Moves :
      (b : Bool) (x : Option ℕ) (trx : Trx) (d : Db) (t : Txns)
      → trx.txn ≡ x
      → Moves L trx.txn d t (arm_statement L b x trx d).0.txn (arm_statement L b x trx d).1 t
  unfolding arm_statement stmt_savepoint_arm
  arm-Moves b none trx d t e = stop refl
  arm-Moves b (some h) trx d t e = elim (Bool-cases (b && not trx.stmt_savepoint_active)) [
    | inr c ↦ rw c (stop refl)
    | inl c ↦ elim (Bool-cases (is_success (call h (make_savepoint stmt_name) released).0)) [
      | inl s ↦ rw (c, s) armed
      | inr s ↦ rw (c, s) armed
    ]
  ]
    where
      released : Db
      released = (call h (release_savepoint stmt_name) d).1

      armed : Moves L trx.txn d t trx.txn (call h (make_savepoint stmt_name) released).1 t
      armed = seq (stop e) (
          seq (called h (release_savepoint stmt_name))
            (seq (called h (make_savepoint stmt_name)) (stop (sym e))))

  acquired-Turns :
      (b ok : Bool) (trx : Option Trx) (d : Db) (t : Txns)
      → Turns d t trx (acquired L b ok trx d).2 (acquired L b ok trx d).1
  unfolding acquired handle_of
  acquired-Turns b false trx d t = stop refl
  acquired-Turns b true none d t = stop refl
  acquired-Turns b true (some trx) d t = arm-Moves b trx.txn trx d t refl

  pub external_lock_acquire-Moves :
      (thd : Thd) (iso : Isolation) (trx : Option Trx) (d : Db) (t : Txns)
      → Moves L
          (handle_of trx)
          d
          t
          (handle_of (external_lock_acquire L thd iso trx d).1)
          (external_lock_acquire L thd iso trx d).2
          t
  unfolding external_lock_acquire
  external_lock_acquire-Moves thd iso trx d t =
      seq (get_or_create_trx-Moves L level trx d t)
        (acquired-Turns (thd.in_transaction && not (is_ddl thd.sql_command)) got.0 got.1 got.2 t)
    where
      level : Isolation
      level = statement_isolation thd.sql_command thd iso

      got : Bool × Option Trx × Db
      got = get_or_create_trx L level trx d

  pub start_consistent_snapshot-Moves :
      (thd : Thd) (trx : Option Trx) (d : Db) (t : Txns)
      → Moves L
          (handle_of trx)
          d
          t
          (handle_of (start_consistent_snapshot L thd trx d).1)
          (start_consistent_snapshot L thd trx d).2
          t
  unfolding start_consistent_snapshot
  start_consistent_snapshot-Moves thd trx d t =
      get_or_create_trx-Moves L
        (at_least_snapshot (resolve_effective_isolation thd.tx_isolation repeatable_read)) trx d t

  mark_dirty_on-txn : (x : Option ℕ) (trx : Trx) → handle_of (mark_dirty_on x trx).1 ≡ trx.txn
  unfolding mark_dirty_on handle_of
  mark_dirty_on-txn none trx = refl
  mark_dirty_on-txn (some h) trx = refl

  mark_dirty-txn : (ok : Bool) (trx : Option Trx) → handle_of (mark_dirty ok trx).1 ≡ handle_of trx
  unfolding mark_dirty handle_of
  mark_dirty-txn false trx = refl
  mark_dirty-txn true none = refl
  mark_dirty-txn true (some trx) = mark_dirty_on-txn trx.txn trx

  pub stmt_txn_for_ddl-Moves :
      (thd : Thd) (trx : Option Trx) (d : Db) (t : Txns)
      → Moves L
          (handle_of trx)
          d
          t
          (handle_of (stmt_txn_for_ddl L thd trx d).1)
          (stmt_txn_for_ddl L thd trx d).2
          t
  unfolding stmt_txn_for_ddl
  stmt_txn_for_ddl-Moves thd trx d t =
      seq (get_or_create_trx-Moves L level trx d t) (stop (sym (mark_dirty-txn got.0 got.1)))
    where
      level : Isolation
      level = resolve_effective_isolation thd.tx_isolation read_committed

      got : Bool × Option Trx × Db
      got = get_or_create_trx L level trx d

  set_on-Moves :
      (x : Option ℕ) (sv : Option Savepoint) (d : Db) (t : Txns)
      → Moves L x d t x (savepoint_set_on L x sv d).2 t
  unfolding savepoint_set_on
  set_on-Moves none sv d t = stop refl
  set_on-Moves (some h) none d t = stop refl
  set_on-Moves (some h) (some sp) d t = called h (make_savepoint (sv_name sp.address))

  rollback_to-Moves :
      (x : Option ℕ) (sv : Option Savepoint) (d : Db) (t : Txns)
      → Moves L x d t x (savepoint_rollback_on L x sv d).2 t
  unfolding savepoint_rollback_on
  rollback_to-Moves none sv d t = stop refl
  rollback_to-Moves (some h) none d t = stop refl
  rollback_to-Moves (some h) (some sp) d t = elim (Bool-cases (is_success rc)) [
    | inl s ↦ rw s (seq (called h (rollback_to_savepoint name)) (called h (make_savepoint name)))
    | inr s ↦ elim (Bool-cases (is_not_found rc)) [
      | inl n ↦ rw (s, n) (called h (rollback_to_savepoint name))
      | inr n ↦ rw (s, n) (called h (rollback_to_savepoint name))
    ]
  ]
    where
      name : SavepointName
      name = slot_name sp.address sp.name

      rc : Rc
      rc = (call h (rollback_to_savepoint name) d).0

  release-Moves :
      (x : Option ℕ) (sv : Option Savepoint) (d : Db) (t : Txns)
      → Moves L x d t x (savepoint_release_on L x sv d).2 t
  unfolding savepoint_release_on
  release-Moves none sv d t = stop refl
  release-Moves (some h) none d t = stop refl
  release-Moves (some h) (some sp) d t = elim (Bool-cases (is_success rc)) [
    | inl s ↦ rw s (called h (release_savepoint name))
    | inr s ↦ elim (Bool-cases (is_not_found rc)) [
      | inl n ↦ rw (s, n) (called h (release_savepoint name))
      | inr n ↦ rw (s, n) (called h (release_savepoint name))
    ]
  ]
    where
      name : SavepointName
      name = slot_name sp.address sp.name

      rc : Rc
      rc = (call h (release_savepoint name) d).0

  pub savepoint_set-Moves :
      (trx : Option Trx) (sv : Option Savepoint) (d : Db) (t : Txns)
      → Moves L (handle_of trx) d t (handle_of trx) (savepoint_set L trx sv d).2 t
  unfolding savepoint_set
  savepoint_set-Moves trx sv d t = set_on-Moves (handle_of trx) sv d t

  pub savepoint_rollback-Moves :
      (trx : Option Trx) (sv : Option Savepoint) (d : Db) (t : Txns)
      → Moves L (handle_of trx) d t (handle_of trx) (savepoint_rollback L trx sv d).2 t
  unfolding savepoint_rollback
  savepoint_rollback-Moves trx sv d t = rollback_to-Moves (handle_of trx) sv d t

  pub savepoint_release-Moves :
      (trx : Option Trx) (sv : Option Savepoint) (d : Db) (t : Txns)
      → Moves L (handle_of trx) d t (handle_of trx) (savepoint_release L trx sv d).2 t
  unfolding savepoint_release
  savepoint_release-Moves trx sv d t = release-Moves (handle_of trx) sv d t

  close_on-Moves :
      (x : Option ℕ) (key : Bytes) (d : Db) (t : Txns) → Moves L x d t none (close_on L x key d) t
  unfolding close_on
  close_on-Moves none key d t = stop refl
  close_on-Moves (some h) [] d t = seq (called h rollback) (freed h)
  close_on-Moves (some h) (c ∷ key) d t = left h

  pub close_connection-Moves :
      (trx : Option Trx) (s : Shared Db)
      → Moves L
          (handle_of trx)
          s.db
          s.txns
          (handle_of (close_connection L trx s).1)
          (close_connection L trx s).2.db
          (close_connection L trx s).2.txns
  unfolding close_connection handle_of
  close_connection-Moves none s = stop refl
  close_connection-Moves (some trx) s = close_on-Moves trx.txn trx.prepared_xid s.db s.txns
