-- ===== src/Txn/Outside.antt =====
-- What works on the transaction of a connection outside ha_tidesdb_txn.cc: the commits within a bulk
-- write, of ha_tidesdb_dml.cc, and the end of the transaction for a backup, of ha_tidesdb_udf.cc, and
-- for a truncation, of ha_tidesdb_lifecycle.cc. What the handler caches is not modelled.
use tidesql_mysql.Txn.{
  is_success, HaRc, done, rc_to_ha, Library, Trx, next_generation, commit, rollback, reset,
}
use tidesql_mysql.Txn.FtsMeta.{flush_trx_fts_meta_pending}
use tidesql_mysql.Base.{ℕ}
use tidesql_mysql.Base.{false, Option, none, some}
use tidesql_mysql.Base.{[]}
use tidesql_mysql.Base.{if◌then◌else◌}

-- The structure behind a commit within a statement, with the handle of the transaction that goes on.
abbrev pub batch_over : ℕ → Trx → Trx
batch_over h trx = record trx {
  txn = some h;
  txn_generation = next_generation trx.txn_generation;
  dirty = false;
  stmt_savepoint_active = false;
  stmt_fts_snapshot = [];
}

-- The structure behind a commit that failed: `dirty` is left.
abbrev pub batch_lost : ℕ → Trx → Trx
batch_lost h trx = record trx {
  txn = some h;
  txn_generation = next_generation trx.txn_generation;
  stmt_savepoint_active = false;
  stmt_fts_snapshot = [];
}

module _ (L : Library) where
  open L use {Db, begin_with_isolation, call, free}

  -- The branch of a commit that failed.
  unfoldable pub bulk_abort : HaRc → ℕ → Trx → Db → HaRc × Trx × Db
  bulk_abort code h trx db =
      let (brc, h', db') =
        begin_with_isolation trx.isolation_level (free h (call h rollback db).1) in
      if is_success brc
      then (code, batch_lost h' trx, db')
      else (rc_to_ha brc, record trx { txn = none }, db')

  -- From the reset on.
  unfoldable pub bulk_reset : ℕ → Trx → Db → HaRc × Trx × Db
  bulk_reset h trx db =
      let (rrc, db₁) = call h (reset trx.isolation_level) db in
      let (rc, h', db₂) = begin_with_isolation trx.isolation_level (free h db₁) in
      if is_success rrc
      then (done, batch_over h trx, db₁)
      else if is_success rc
      then (done, batch_over h' trx, db₂)
      else (rc_to_ha rc, record trx { txn = none }, db₂)

  -- From the flush on.
  unfoldable pub bulk_flushed : ℕ → Trx → Db → HaRc × Trx × Db
  unfolding bulk_abort bulk_reset
  bulk_flushed h trx db =
      let (frc, flushed, db₁) = flush_trx_fts_meta_pending L h trx db in
      let (crc, db₂) = call h commit db₁ in
      if is_success frc
      then (if is_success crc
          then bulk_reset h flushed db₂
          else bulk_abort (rc_to_ha crc) h flushed db₂)
      else (rc_to_ha frc, flushed, db₁)

  unfoldable pub bulk_on : Option ℕ → Trx → Db → HaRc × Trx × Db
  unfolding bulk_flushed
  bulk_on none trx db = (done, trx, db)
  bulk_on (some h) trx db = bulk_flushed h trx db

  unfoldable pub maybe_bulk_commit : Option Trx → Db → HaRc × Option Trx × Db
  unfolding bulk_on
  maybe_bulk_commit none db = (done, none, db)
  maybe_bulk_commit (some trx) db =
      let (rc, trx', db') = bulk_on trx.txn trx db in (rc, some trx', db')

  -- `tidesdb_txn_rollback` and `tidesdb_txn_free`.
  unfoldable pub drop_txn : ℕ → Db → Db
  drop_txn h db = free h (call h rollback db).1

  unfoldable pub release_on : Option ℕ → Trx → Db → Trx × Db
  unfolding drop_txn
  release_on none trx db = (trx, db)
  release_on (some h) trx db = (
    record trx {
      txn = none;
      dirty = false;
      txn_generation = next_generation trx.txn_generation;
      fts_meta_pending = [];
      fts_meta_dirty = false;
    },
    drop_txn h db,
  )

  -- `tdb_udf_release_own_txn`.
  unfoldable pub release_own_txn : Option Trx → Db → Option Trx × Db
  unfolding release_on
  release_own_txn none db = (none, db)
  release_own_txn (some trx) db = let (trx', db') = release_on trx.txn trx db in (some trx', db')

  unfoldable pub discard_on : Option ℕ → Trx → Db → Trx × Db
  unfolding drop_txn
  discard_on none trx db = (trx, db)
  discard_on (some h) trx db = (
    record trx { txn = none; dirty = false; fts_meta_pending = []; fts_meta_dirty = false },
    drop_txn h db,
  )

  -- The block of a truncation that discards the transaction of the connection.
  unfoldable pub discard_txn : Option Trx → Db → Option Trx × Db
  unfolding discard_on
  discard_txn none db = (none, db)
  discard_txn (some trx) db = let (trx', db') = discard_on trx.txn trx db in (some trx', db')
