-- ===== src/Txn/Protocol/Events.antt =====
-- The callbacks that ha_tidesdb_txn.cc registers, the handler's locks and what else works on the
-- transaction of a connection, as the events of a system of connections, each run to its end. The
-- callback that tells whether a rollback to a savepoint may release locks changes nothing and is none.
use tidesql_mysql.Txn.{done, Library, Isolation, Trx, Thd, Shared}
use tidesql_mysql.Txn.Savepoints.{Savepoint, savepoint_set, savepoint_rollback, savepoint_release}
use tidesql_mysql.Txn.Resolve.{tidesdb_commit, tidesdb_rollback, close_connection}
use tidesql_mysql.Txn.Begin.{get_or_create_trx, start_consistent_snapshot, stmt_txn_for_ddl}
use tidesql_mysql.Txn.Begin.{external_lock_acquire}
use tidesql_mysql.Txn.Outside.{maybe_bulk_commit, release_own_txn, discard_txn}
use tidesql_mysql.Txn.Prepare.{tidesdb_prepare, commit_by_xid, rollback_by_xid}
use tidesql_mysql.Txn.Coordinator.{
  set_prepared_in_tc, set_prepared_in_tc_by_xid, recover_prepared_in_tc,
}
use tidesql_mysql.Xid.Recovery.{Registry, Prepared, recover}
use tidesql_mysql.Xid.{Xid}
use tidesql_mysql.Base.{ℕ, zero, suc}
use tidesql_mysql.Base.{Bool, true, Option, none, some}
use tidesql_mysql.Base.{List, [], ◌∷◌}
use tidesql_mysql.Base.{◌==◌, if◌then◌else◌}

-- A call of the server, with the number of the connection it is made on.
pub data Event : Type 0 where
  ensure_txn : ℕ → Isolation → Event
  lock_table : ℕ → Thd → Isolation → Event
  consistent_snapshot : ℕ → Thd → Event
  write_ddl_log : ℕ → Thd → Event
  set_savepoint rollback_savepoint drop_savepoint : ℕ → Option Savepoint → Event
  commit_trx rollback_trx prepare_trx : ℕ → Bool → Thd → Event
  close : ℕ → Event
  record_in_tc : ℕ → Thd → Event
  commit_xid rollback_xid : Xid → Event
  recover_in_tc : Event
  commit_batch own_release truncation : ℕ → Event
  record_in_tc_by_xid : Xid → Event
  recover_xids : ℕ → Event

-- What all connections share, the structure that `thd_set_ha_data` keeps for each, and the static
-- variables of recovery. `tdb_prepared_txns` is in `shared`, and `recovery` has it only during a call.
pub record System (D : Type 0) : Type 0 where
  pub shared : Shared D
  pub trxs : ℕ → Option Trx
  pub recovery : Registry

unfoldable pub set_trx : ℕ → Option Trx → (ℕ → Option Trx) → ℕ → Option Trx
set_trx c trx trxs n = if n == c then trx else trxs n

-- The system after a call on a connection.
unfoldable pub leave {ℓ} :
    {R : Type ℓ} {D : Type 0} → ℕ → System D → R × Option Trx × Shared D → System D
unfolding set_trx
leave c sys (ret, trx, s) = record sys { shared = s; trxs = set_trx c trx sys.trxs }

unfoldable pub leave_db {ℓ} :
    {R : Type ℓ} {D : Type 0} → ℕ → System D → R × Option Trx × D → System D
unfolding leave
leave_db c sys (ret, trx, db) = leave c sys (ret, trx, record { db = db; txns = sys.shared.txns })

module _ (L : Library) where
  open L use {Db, count_prepared, recover_prepared}

  -- What the library answers to a recovery in an open database, and its state afterwards.
  unfoldable pub answers : Db → Prepared
  answers db = record {
    opened = true;
    count = count_prepared db;
    recover_prepared = λ n. (recover_prepared n db).0;
  }

  unfoldable pub after_answer : Option ℕ → Db → Db
  after_answer none db = db
  after_answer (some zero) db = db
  after_answer (some (suc n)) db = (recover_prepared (suc n) db).1

  unfoldable pub after_load : Registry → Db → Db
  unfolding after_answer
  after_load r db = if r.recovery_loaded then db else after_answer (count_prepared db) db

  unfoldable pub after_recover : ℕ → Registry → Db → Db
  unfolding after_load
  after_recover zero r db = db
  after_recover (suc len) r db = after_load r db

  -- The calls that no connection makes.
  unfoldable pub recovery_in_tc : System Db → System Db
  unfolding recover_prepared_in_tc
  recovery_in_tc sys =
      let ((xids, tables), db) = recover_prepared_in_tc L sys.recovery.mod_tables sys.shared.db in
      record sys {
        shared = record { db = db; txns = sys.shared.txns };
        recovery = record sys.recovery { mod_tables = tables };
      }

  unfoldable pub recording_by_xid : Xid → System Db → System Db
  unfolding set_prepared_in_tc_by_xid
  recording_by_xid xid sys =
      let (ok, db) = set_prepared_in_tc_by_xid L sys.recovery.mod_tables xid sys.shared.db in
      record sys { shared = record { db = db; txns = sys.shared.txns } }

  unfoldable pub recovering : ℕ → System Db → System Db
  unfolding after_recover
  recovering len sys =
      let registry = record sys.recovery { txns = sys.shared.txns } in
      let (slots, r) = recover (answers sys.shared.db) len registry in
      record sys {
        shared = record { db = after_recover len registry sys.shared.db; txns = r.txns };
        recovery = r;
      }

  -- The call of one event; its answer goes to the server.
  unfoldable pub step : Event → System Db → System Db
  unfolding leave leave_db recovery_in_tc recording_by_xid recovering
  step (ensure_txn c iso) sys = leave_db c sys (get_or_create_trx L iso (sys.trxs c) sys.shared.db)
  step (lock_table c thd iso) sys =
      leave_db c sys (external_lock_acquire L thd iso (sys.trxs c) sys.shared.db)
  step (consistent_snapshot c thd) sys =
      leave_db c sys (start_consistent_snapshot L thd (sys.trxs c) sys.shared.db)
  step (write_ddl_log c thd) sys =
      leave_db c sys (stmt_txn_for_ddl L thd (sys.trxs c) sys.shared.db)
  step (set_savepoint c sv) sys =
      leave_db c sys (done, sys.trxs c, (savepoint_set L (sys.trxs c) sv sys.shared.db).2)
  step (rollback_savepoint c sv) sys =
      leave_db c sys (done, sys.trxs c, (savepoint_rollback L (sys.trxs c) sv sys.shared.db).2)
  step (drop_savepoint c sv) sys =
      leave_db c sys (done, sys.trxs c, (savepoint_release L (sys.trxs c) sv sys.shared.db).2)
  step (commit_trx c all thd) sys = leave c sys (tidesdb_commit L all thd (sys.trxs c) sys.shared)
  step (rollback_trx c all thd) sys =
      leave c sys (tidesdb_rollback L all thd (sys.trxs c) sys.shared)
  step (prepare_trx c all thd) sys = leave c sys (tidesdb_prepare L all thd (sys.trxs c) sys.shared)
  step (close c) sys = leave c sys (close_connection L (sys.trxs c) sys.shared)
  step (record_in_tc c thd) sys =
      leave_db c sys (set_prepared_in_tc L thd (sys.trxs c) sys.shared.db)
  step (commit_xid xid) sys = record sys { shared = (commit_by_xid L xid sys.shared).1 }
  step (rollback_xid xid) sys = record sys { shared = (rollback_by_xid L xid sys.shared).1 }
  step (commit_batch c) sys = leave_db c sys (maybe_bulk_commit L (sys.trxs c) sys.shared.db)
  step (own_release c) sys = leave_db c sys (
    done,
    (release_own_txn L (sys.trxs c) sys.shared.db).0,
    (release_own_txn L (sys.trxs c) sys.shared.db).1,
  )
  step (truncation c) sys = leave_db c sys (
    done,
    (discard_txn L (sys.trxs c) sys.shared.db).0,
    (discard_txn L (sys.trxs c) sys.shared.db).1,
  )
  step recover_in_tc sys = recovery_in_tc sys
  step (record_in_tc_by_xid xid) sys = recording_by_xid xid sys
  step (recover_xids len) sys = recovering len sys

  unfoldable pub run : List Event → System Db → System Db
  unfolding step
  run [] sys = sys
  run (event ∷ events) sys = run events (step event sys)
