-- ===== src/Txn/Savepoints.antt =====
-- The savepoints of ha_tidesdb_txn.cc: the one of a statement and those of SQL. Where a helper
-- takes a handle beside the structure, it is `trx->txn`, which the callers have tested.
use tidesql_mysql.Txn.{is_success, is_not_found, HaRc, done, no_savepoint, rc_to_ha}
use tidesql_mysql.Txn.{Library, Trx, next_generation, SavepointName, stmt_name, sv_name}
use tidesql_mysql.Txn.{make_savepoint, rollback_to_savepoint, release_savepoint}
use tidesql_mysql.Base.{ℕ}
use tidesql_mysql.Base.{Bool, true, false, not, Option, none, some}
use tidesql_mysql.Base.{[]}
use tidesql_mysql.Base.{if◌then◌else◌}

-- `tidesdb_savepoint_t`, with the address of the slot; `none` is an empty name.
pub record Savepoint : Type 0 where
  pub address : ℕ
  pub name : Option SavepointName

unfoldable pub slot_name : ℕ → Option SavepointName → SavepointName
slot_name address none = sv_name address
slot_name address (some name) = name

module _ (L : Library) where
  open L use {Db, call}

  unfoldable pub stmt_savepoint_arm : ℕ → Trx → Db → Trx × Db
  stmt_savepoint_arm h trx db =
      let db₁ = (call h (release_savepoint stmt_name) db).1 in
      let (rc, db₂) = call h (make_savepoint stmt_name) db₁ in
      if is_success rc
      then (
        record trx {
          stmt_savepoint_active = true;
          stmt_fts_snapshot = trx.fts_meta_pending;
          stmt_fts_dirty_snapshot = trx.fts_meta_dirty;
        },
        db₂,
      )
      else (trx, db₂)

  unfoldable pub stmt_savepoint_disarm : ℕ → Trx → Db → Trx × Db
  stmt_savepoint_disarm h trx db =
      if trx.stmt_savepoint_active
      then (
        record trx { stmt_savepoint_active = false; stmt_fts_snapshot = [] },
        (call h (release_savepoint stmt_name) db).1,
      )
      else (trx, db)

  -- The answer is whether the statement alone was rolled back.
  unfoldable pub stmt_savepoint_rollback : ℕ → Trx → Db → Bool × Trx × Db
  stmt_savepoint_rollback h trx db =
      let (rc, db') = call h (rollback_to_savepoint stmt_name) db in
      if not trx.stmt_savepoint_active
      then (false, trx, db)
      else if is_success rc
      then (
        true,
        record trx {
          fts_meta_pending = trx.stmt_fts_snapshot;
          fts_meta_dirty = trx.stmt_fts_dirty_snapshot;
          stmt_fts_snapshot = [];
          txn_generation = next_generation trx.txn_generation;
          stmt_savepoint_active = false;
        },
        db',
      )
      else (false, record trx { stmt_savepoint_active = false; stmt_fts_snapshot = [] }, db')

  -- The callbacks below answer 0 without a transaction; a null slot is `none`.
  unfoldable pub savepoint_set_on : Option ℕ → Option Savepoint → Db → HaRc × Option Savepoint × Db
  savepoint_set_on none sv db = (done, sv, db)
  savepoint_set_on (some h) none db = (done, none, db)
  savepoint_set_on (some h) (some sp) db =
      let (rc, db') = call h (make_savepoint (sv_name sp.address)) db in
      (rc_to_ha rc, some (record sp { name = some (sv_name sp.address) }), db')

  unfoldable pub savepoint_rollback_on :
      Option ℕ → Option Savepoint → Db → HaRc × Option Savepoint × Db
  unfolding slot_name
  savepoint_rollback_on none sv db = (done, sv, db)
  savepoint_rollback_on (some h) none db = (done, none, db)
  savepoint_rollback_on (some h) (some sp) db =
      let name = slot_name sp.address sp.name in
      let named = some (record sp { name = some name }) in
      let (rc, db') = call h (rollback_to_savepoint name) db in
      if is_success rc
      then (done, named, (call h (make_savepoint name) db').1)
      else if is_not_found rc
      then (no_savepoint, named, db')
      else (rc_to_ha rc, named, db')

  unfoldable pub savepoint_release_on :
      Option ℕ → Option Savepoint → Db → HaRc × Option Savepoint × Db
  unfolding slot_name
  savepoint_release_on none sv db = (done, sv, db)
  savepoint_release_on (some h) none db = (done, none, db)
  savepoint_release_on (some h) (some sp) db =
      let name = slot_name sp.address sp.name in
      let named = some (record sp { name = some name }) in
      let (rc, db') = call h (release_savepoint name) db in
      if is_success rc
      then (done, named, db')
      else if is_not_found rc
      then (no_savepoint, named, db')
      else (rc_to_ha rc, named, db')

-- `trx` and `trx->txn` of a connection; either may be null.
unfoldable pub handle_of : Option Trx → Option ℕ
handle_of none = none
handle_of (some trx) = trx.txn

module _ (L : Library) where
  open L use {Db}

  unfoldable pub savepoint_set : Option Trx → Option Savepoint → Db → HaRc × Option Savepoint × Db
  unfolding handle_of savepoint_set_on
  savepoint_set trx sv db = savepoint_set_on L (handle_of trx) sv db

  unfoldable pub savepoint_rollback :
      Option Trx → Option Savepoint → Db → HaRc × Option Savepoint × Db
  unfolding handle_of savepoint_rollback_on
  savepoint_rollback trx sv db = savepoint_rollback_on L (handle_of trx) sv db

  unfoldable pub savepoint_release :
      Option Trx → Option Savepoint → Db → HaRc × Option Savepoint × Db
  unfolding handle_of savepoint_release_on
  savepoint_release trx sv db = savepoint_release_on L (handle_of trx) sv db
