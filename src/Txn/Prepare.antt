-- ===== src/Txn/Prepare.antt =====
-- Two-phase commit, of ha_tidesdb_txn.cc: the prepare of a connection's transaction, which hands it
-- to the registry, and its end by XID. `TDB_XA_PREPARE_DETACHES` is 1, as ha_tidesdb_compat.h sets
-- it.
use tidesql_mysql.Txn.{is_success, HaRc, done, rc_to_ha, Library, Trx, Thd, Shared}
use tidesql_mysql.Txn.{
  SqlCommand, next_generation, prepare, commit_prepared, rollback_prepared, Call,
}
use tidesql_mysql.Txn.{xa_prepare}
use tidesql_mysql.Txn.FtsMeta.{flush_trx_fts_meta_pending}
use tidesql_mysql.Txn.Savepoints.{stmt_savepoint_disarm}
use tidesql_mysql.Txn.Resolve.{txn_rollback_stateful}
use tidesql_mysql.Txn.Coordinator.{xa_tc_clear}
use tidesql_mysql.Xid.{Xid, xid_key}
use tidesql_mysql.Xid.Recovery.{set_entry}
use tidesql_mysql.Base.{ℕ}
use tidesql_mysql.Base.{Bool, true, false, Option, none, some}
use tidesql_mysql.Base.{[]}
use tidesql_mysql.Base.{if◌then◌else◌}
use tidesql_mysql.Base.Bytes.{Bytes}

abbrev pub is_xa_prepare : SqlCommand → Bool
is_xa_prepare xa_prepare = true
is_xa_prepare _ = false

-- `tdb_xa_status`: XA_OK, or the resource manager's error that every failure is reported as.
pub data XaStatus : Type 0 where
  xa_ok xaer_rmerr : XaStatus

-- The fields that the two failing paths of `tidesdb_prepare` leave.
abbrev pub not_prepared : Trx → Trx
not_prepared trx = record trx {
  txn = none;
  txn_generation = next_generation trx.txn_generation;
  dirty = false;
}

-- The fields of the branch of XA PREPARE.
abbrev pub published : Trx → Trx
published trx = record trx {
  prepared_mod_tables = trx.mod_tables;
  mod_tables = [];
  txn = none;
  dirty = false;
  txn_generation = next_generation trx.txn_generation;
  prepared_xid = [];
  fts_meta_pending = [];
  fts_meta_dirty = false;
}

module _ (L : Library) where
  open L use {Db, call, free}

  -- The branch of XA PREPARE.
  unfoldable pub publish : Bool → Bytes → ℕ → Trx → Shared Db → Trx × Shared Db
  unfolding set_entry
  publish true key h trx s = (published trx, record s { txns = set_entry key (some h) s.txns })
  publish false key h trx s = (trx, s)

  -- From the XID on.
  unfoldable pub prepare_flushed : ℕ → Thd → Trx → Shared Db → HaRc × Trx × Shared Db
  unfolding publish txn_rollback_stateful
  prepare_flushed h thd trx s =
      let key = xid_key thd.xid in
      let (rc, db') = call h (prepare key) s.db in
      let (trx', s') = publish (is_xa_prepare thd.sql_command) key h trx (record s { db = db' }) in
      if is_success rc
      then (done, trx', s')
      else (rc_to_ha rc, not_prepared trx, record s { db = free h (txn_rollback_stateful L h db') })

  -- From the flush on.
  unfoldable pub prepare_dirty : ℕ → Thd → Trx → Shared Db → HaRc × Trx × Shared Db
  unfolding prepare_flushed txn_rollback_stateful
  prepare_dirty h thd trx s =
      let (frc, flushed, db') = flush_trx_fts_meta_pending L h trx s.db in
      if is_success frc then prepare_flushed h thd flushed (record s { db = db' }) else (
        rc_to_ha frc,
        not_prepared flushed,
        record s { db = free h (txn_rollback_stateful L h db') },
      )

  unfoldable pub prepare_all : ℕ → Thd → Trx → Shared Db → HaRc × Trx × Shared Db
  unfolding prepare_dirty
  prepare_all h thd trx s =
      let (disarmed, db') = stmt_savepoint_disarm L h trx s.db in
      let s' = record s { db = db' } in
      if disarmed.dirty
      then prepare_dirty h thd disarmed s'
      else if is_xa_prepare thd.sql_command
      then prepare_flushed h thd disarmed s'
      else (done, disarmed, s')

  unfoldable pub prepare_on : Option ℕ → Bool → Thd → Trx → Shared Db → HaRc × Trx × Shared Db
  unfolding prepare_all
  prepare_on none all thd trx s = (done, trx, s)
  prepare_on (some h) all thd trx s = if all then prepare_all h thd trx s else (done, trx, s)

  unfoldable pub tidesdb_prepare :
      Bool → Thd → Option Trx → Shared Db → HaRc × Option Trx × Shared Db
  unfolding prepare_on
  tidesdb_prepare all thd none s = (done, none, s)
  tidesdb_prepare all thd (some trx) s =
      let (rc, trx', s') = prepare_on trx.txn all thd trx s in (rc, some trx', s')

  -- Both ends of a prepared transaction: `end` is the library's call.
  unfoldable pub resolve_by_xid : Call → Bytes → Option ℕ → Shared Db → XaStatus × Shared Db
  unfolding set_entry xa_tc_clear
  resolve_by_xid end key none s = (xa_ok, s)
  resolve_by_xid end key (some h) s =
      let taken = set_entry key none s.txns in
      let (rc, db') = call h end s.db in
      if is_success rc
      then (xa_ok, record { db = xa_tc_clear L key (free h db'); txns = taken })
      else (xaer_rmerr, record { db = db'; txns = set_entry key (some h) taken })

  unfoldable pub commit_by_xid : Xid → Shared Db → XaStatus × Shared Db
  unfolding resolve_by_xid
  commit_by_xid xid s = resolve_by_xid commit_prepared (xid_key xid) (s.txns (xid_key xid)) s

  unfoldable pub rollback_by_xid : Xid → Shared Db → XaStatus × Shared Db
  unfolding resolve_by_xid
  rollback_by_xid xid s = resolve_by_xid rollback_prepared (xid_key xid) (s.txns (xid_key xid)) s
