-- ===== src/Txn/Begin.antt =====
-- The start of a transaction and of a statement, of ha_tidesdb_txn.cc.
use tidesql_mysql.Txn.{is_success, HaRc, done, out_of_mem, Library, Trx, new_trx, Thd}
use tidesql_mysql.Txn.{Isolation, read_uncommitted, read_committed, repeatable_read, snapshot}
use tidesql_mysql.Txn.{serializable, resolve_effective_isolation, is_ddl, SqlCommand}
use tidesql_mysql.Txn.{next_generation, reset}
use tidesql_mysql.Txn.Savepoints.{stmt_savepoint_arm}
use tidesql_mysql.Base.{ℕ}
use tidesql_mysql.Base.{Bool, true, false, not, ◌&&◌, Option, none, some}
use tidesql_mysql.Base.{if◌then◌else◌}

-- `iso < TDB_ISOLATION_SNAPSHOT` raises the level.
unfoldable pub at_least_snapshot : Isolation → Isolation
at_least_snapshot read_uncommitted = snapshot
at_least_snapshot read_committed = snapshot
at_least_snapshot repeatable_read = snapshot
at_least_snapshot snapshot = snapshot
at_least_snapshot serializable = serializable

-- DDL takes the cheapest level, another statement the one that session and table give.
unfoldable pub statement_isolation : SqlCommand → Thd → Isolation → Isolation
unfolding is_ddl resolve_effective_isolation
statement_isolation command thd table_iso =
    if is_ddl command
    then read_committed
    else resolve_effective_isolation thd.tx_isolation table_iso

-- `trx->dirty = true` and `trx->txn`, where there is one.
unfoldable pub mark_dirty_on : Option ℕ → Trx → Option ℕ × Option Trx
mark_dirty_on none trx = (none, some trx)
mark_dirty_on (some h) trx = (some h, some (record trx { dirty = true }))

unfoldable pub mark_dirty : Bool → Option Trx → Option ℕ × Option Trx
unfolding mark_dirty_on
mark_dirty false trx = (none, trx)
mark_dirty true none = (none, none)
mark_dirty true (some trx) = mark_dirty_on trx.txn trx

-- The fields of a transaction that starts on a reset or a new handle.
abbrev pub restarted : Isolation → ℕ → Trx → Trx
restarted iso h trx = record trx {
  txn = some h;
  needs_reset = false;
  isolation_level = iso;
  txn_generation = next_generation trx.txn_generation;
}

module _ (L : Library) where
  open L use {Db, begin_with_isolation, call, free}

  -- The branches of `get_or_create_trx` answer whether the structure is returned, and leave the
  -- structure of the connection. A handle that a failed begin would write is left null.
  unfoldable pub reuse_without_txn : Isolation → Trx → Db → Bool × Trx × Db
  reuse_without_txn iso trx db =
      let (rc, h, db') = begin_with_isolation iso db in
      if is_success rc
      then (
        true,
        record trx {
          txn = some h;
          dirty = false;
          isolation_level = iso;
          txn_generation = next_generation trx.txn_generation;
        },
        db',
      )
      else (false, trx, db')

  -- The fallback where the reset fails.
  unfoldable pub free_and_begin : Isolation → ℕ → Trx → Db → Bool × Trx × Db
  free_and_begin iso h trx db =
      let (rc, h', db') = begin_with_isolation iso (free h db) in
      if is_success rc
      then (true, restarted iso h' trx, db')
      else (false, record trx { txn = none }, db')

  unfoldable pub reuse_txn : Isolation → ℕ → Trx → Db → Bool × Trx × Db
  unfolding free_and_begin
  reuse_txn iso h trx db =
      let (rc, db') = call h (reset iso) db in
      let fallback = free_and_begin iso h trx db' in
      if not trx.needs_reset
      then (true, trx, db)
      else if is_success rc
      then (true, restarted iso h trx, db')
      else fallback

  unfoldable pub reuse_trx : Option ℕ → Isolation → Trx → Db → Bool × Trx × Db
  unfolding reuse_without_txn reuse_txn
  reuse_trx none iso trx db = reuse_without_txn iso trx db
  reuse_trx (some h) iso trx db = reuse_txn iso h trx db

  -- With the structure of the connection, `none` where it has none yet. The allocation of a new
  -- structure does not fail.
  unfoldable pub get_or_create_trx : Isolation → Option Trx → Db → Bool × Option Trx × Db
  unfolding reuse_trx
  get_or_create_trx iso (some trx) db =
      let (ok, trx', db') = reuse_trx trx.txn iso trx db in (ok, some trx', db')
  get_or_create_trx iso none db =
      let (rc, h, db') = begin_with_isolation iso db in
      if is_success rc
      then (
        true,
        some (record new_trx { txn = some h; isolation_level = iso; txn_generation = 1 }),
        db',
      )
      else (false, none, db')

  -- The answer is whether the callback succeeds.
  unfoldable pub start_consistent_snapshot : Thd → Option Trx → Db → Bool × Option Trx × Db
  unfolding get_or_create_trx at_least_snapshot resolve_effective_isolation
  start_consistent_snapshot thd trx db =
      get_or_create_trx
        (at_least_snapshot (resolve_effective_isolation thd.tx_isolation repeatable_read)) trx db

  -- `tdb_stmt_txn_for_ddl`, in an open database: the transaction that the DDL log is written with.
  unfoldable pub stmt_txn_for_ddl : Thd → Option Trx → Db → Option ℕ × Option Trx × Db
  unfolding get_or_create_trx mark_dirty resolve_effective_isolation
  stmt_txn_for_ddl thd trx db =
      let (ok, trx₁, db') =
        get_or_create_trx (resolve_effective_isolation thd.tx_isolation read_committed) trx db in
      let (h, trx₂) = mark_dirty ok trx₁ in (h, trx₂, db')

  -- The arming at the end of `external_lock_acquire`, with the tests before it.
  unfoldable pub arm_statement : Bool → Option ℕ → Trx → Db → Trx × Db
  unfolding stmt_savepoint_arm
  arm_statement multi none trx db = (trx, db)
  arm_statement multi (some h) trx db =
      let (armed, db') = stmt_savepoint_arm L h trx db in
      if multi && not trx.stmt_savepoint_active then (armed, db') else (trx, db)

  unfoldable pub acquired : Bool → Bool → Option Trx → Db → HaRc × Option Trx × Db
  unfolding arm_statement
  acquired multi false trx db = (out_of_mem, trx, db)
  acquired multi true none db = (out_of_mem, none, db)
  acquired multi true (some trx) db =
      let (trx', db') = arm_statement multi trx.txn trx db in (done, some trx', db')

  -- The part of `external_lock_acquire` that concerns the connection; `table_iso` is the level of
  -- the share, SNAPSHOT without one. What it caches in the handler is read from `thd` here.
  unfoldable pub external_lock_acquire : Thd → Isolation → Option Trx → Db → HaRc × Option Trx × Db
  unfolding get_or_create_trx acquired statement_isolation is_ddl
  external_lock_acquire thd table_iso trx db =
      let (ok, trx₁, db₁) =
        get_or_create_trx (statement_isolation thd.sql_command thd table_iso) trx db in
      acquired (thd.in_transaction && not (is_ddl thd.sql_command)) ok trx₁ db₁
