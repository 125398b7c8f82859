-- ===== src/Txn/Resolve.antt =====
-- The end of a connection's own transaction: commit, rollback and close, of ha_tidesdb_txn.cc.
use tidesql_mysql.Txn.{Rc, is_success, HaRc, done, rc_to_ha, Library, Trx, Thd, Shared}
use tidesql_mysql.Txn.{next_generation, commit, rollback, commit_prepared, rollback_prepared}
use tidesql_mysql.Txn.{release_savepoint, stmt_name}
use tidesql_mysql.Txn.FtsMeta.{flush_trx_fts_meta_pending}
use tidesql_mysql.Txn.Savepoints.{stmt_savepoint_disarm, stmt_savepoint_rollback}
use tidesql_mysql.Xid.Recovery.{set_entry}
use tidesql_mysql.Base.{ℕ}
use tidesql_mysql.Base.{Bool, true, false, not, ◌&&◌, ◌||◌, Option, none, some}
use tidesql_mysql.Base.{[], ◌∷◌}
use tidesql_mysql.Base.{if◌then◌else◌}
use tidesql_mysql.Base.Bytes.{Bytes}

-- The entry is erased where the connection has published an XID.
unfoldable pub drop_entry : Bytes → (Bytes → Option ℕ) → Bytes → Option ℕ
unfolding set_entry
drop_entry [] txns = txns
drop_entry (c ∷ key) txns = set_entry (c ∷ key) none txns

-- The fields that the three failing paths leave.
abbrev pub lost : Trx → Trx
lost trx = record trx {
  txn = none;
  txn_generation = next_generation trx.txn_generation;
  dirty = false;
  stmt_savepoint_active = false;
}

-- The fields of a transaction that is over and kept for the next one.
abbrev pub over : Trx → Trx
over trx = record trx {
  txn_generation = next_generation trx.txn_generation;
  needs_reset = true;
  dirty = false;
  stmt_savepoint_active = false;
}

-- `all`, or a statement that is its own transaction.
abbrev pub is_real : Bool → Thd → Bool
is_real all thd = all || not thd.in_transaction

module _ (L : Library) where
  open L use {Db, call, free, is_prepared}

  unfoldable pub txn_commit_stateful : ℕ → Db → Rc × Db
  txn_commit_stateful h db =
      if is_prepared h db then call h commit_prepared db else call h commit db

  unfoldable pub txn_rollback_stateful : ℕ → Db → Db
  txn_rollback_stateful h db =
      if is_prepared h db then (call h rollback_prepared db).1 else (call h rollback db).1

  unfoldable pub drop_prepared_entry : Trx → Shared Db → Trx × Shared Db
  unfolding drop_entry
  drop_prepared_entry trx s =
      (record trx { prepared_xid = [] }, record s { txns = drop_entry trx.prepared_xid s.txns })

  -- From the commit of a transaction with writes on.
  unfoldable pub finish_commit : ℕ → Trx → Db → HaRc × Trx × Db
  unfolding txn_commit_stateful txn_rollback_stateful
  finish_commit h trx db =
      let (rc, db') = txn_commit_stateful h db in
      if is_success rc
      then (done, over trx, db')
      else (rc_to_ha rc, lost trx, free h (txn_rollback_stateful h db'))

  -- The branch of a transaction with writes.
  unfoldable pub commit_dirty : ℕ → Trx → Db → HaRc × Trx × Db
  unfolding finish_commit
  commit_dirty h trx db =
      let (frc, flushed, db') = flush_trx_fts_meta_pending L h trx db in
      if is_success frc
      then finish_commit h flushed db'
      else (rc_to_ha frc, lost flushed, free h (call h rollback db').1)

  unfoldable pub commit_clean : ℕ → Trx → Db → HaRc × Trx × Db
  commit_clean h trx db = (
    done,
    over (record trx { fts_meta_pending = []; fts_meta_dirty = false }),
    (call h rollback db).1,
  )

  unfoldable pub finalize_commit : ℕ → Trx → Shared Db → HaRc × Trx × Shared Db
  unfolding drop_prepared_entry commit_dirty commit_clean
  finalize_commit h trx s =
      let (disarmed, db₁) = stmt_savepoint_disarm L h trx s.db in
      let (dropped, s₁) = drop_prepared_entry disarmed (record s { db = db₁ }) in
      let (rc, trx', db₂) =
        if dropped.dirty then commit_dirty h dropped s₁.db else commit_clean h dropped s₁.db in
      (rc, trx', record s₁ { db = db₂ })

  unfoldable pub commit_on : Option ℕ → Bool → Thd → Trx → Shared Db → HaRc × Trx × Shared Db
  unfolding finalize_commit
  commit_on none all thd trx s = (done, trx, s)
  commit_on (some h) all thd trx s =
      let (disarmed, db') = stmt_savepoint_disarm L h trx s.db in
      if is_real all thd then finalize_commit h trx s else (done, disarmed, record s { db = db' })

  unfoldable pub tidesdb_commit :
      Bool → Thd → Option Trx → Shared Db → HaRc × Option Trx × Shared Db
  unfolding commit_on
  tidesdb_commit all thd none s = (done, none, s)
  tidesdb_commit all thd (some trx) s =
      let (rc, trx', s') = commit_on trx.txn all thd trx s in (rc, some trx', s')

  -- The full rollback.
  unfoldable pub rollback_all : ℕ → Trx → Shared Db → Trx × Shared Db
  unfolding drop_prepared_entry txn_rollback_stateful
  rollback_all h trx s =
      let db₁ =
        if trx.stmt_savepoint_active then (call h (release_savepoint stmt_name) s.db).1 else s.db in
      let (dropped, s₁) =
        drop_prepared_entry (record trx { stmt_savepoint_active = false })
          (record s { db = db₁ }) in
      (
        over (record dropped {
          fts_meta_pending = [];
          fts_meta_dirty = false;
          stmt_fts_snapshot = [];
        }),
        record s₁ { db = txn_rollback_stateful h s₁.db },
      )

  unfoldable pub rollback_on : Option ℕ → Bool → Thd → Trx → Shared Db → HaRc × Trx × Shared Db
  unfolding rollback_all
  rollback_on none all thd trx s = (done, trx, s)
  rollback_on (some h) all thd trx s =
      let (partly, trx₁, db₁) = stmt_savepoint_rollback L h trx s.db in
      let s₁ = record s { db = db₁ } in
      let (trx₂, s₂) = if is_real all thd then rollback_all h trx s else rollback_all h trx₁ s₁ in
      if not (is_real all thd) && partly then (done, trx₁, s₁) else (done, trx₂, s₂)

  unfoldable pub tidesdb_rollback :
      Bool → Thd → Option Trx → Shared Db → HaRc × Option Trx × Shared Db
  unfolding rollback_on
  tidesdb_rollback all thd none s = (done, none, s)
  tidesdb_rollback all thd (some trx) s =
      let (rc, trx', s') = rollback_on trx.txn all thd trx s in (rc, some trx', s')

  -- The structure is deleted in either case; a published transaction stays with the registry.
  unfoldable pub close_on : Option ℕ → Bytes → Db → Db
  close_on none key db = db
  close_on (some h) [] db = free h (call h rollback db).1
  close_on (some h) (c ∷ key) db = db

  unfoldable pub close_connection : Option Trx → Shared Db → HaRc × Option Trx × Shared Db
  unfolding close_on
  close_connection none s = (done, none, s)
  close_connection (some trx) s =
      (done, none, record s { db = close_on trx.txn trx.prepared_xid s.db })
