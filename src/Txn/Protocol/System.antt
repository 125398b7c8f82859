-- ===== src/Txn/Protocol/System.antt =====
-- Every order of the events keeps the handles of all connections and of the registry apart.
use tidesql_mysql.Txn.{done, Library, Trx, Thd, Shared}
use tidesql_mysql.Txn.Savepoints.{handle_of, savepoint_set, savepoint_rollback, savepoint_release}
use tidesql_mysql.Txn.Resolve.{tidesdb_commit, tidesdb_rollback, close_connection}
use tidesql_mysql.Txn.Begin.{get_or_create_trx, start_consistent_snapshot, stmt_txn_for_ddl}
use tidesql_mysql.Txn.Begin.{external_lock_acquire}
use tidesql_mysql.Txn.Outside.{maybe_bulk_commit, release_own_txn, discard_txn}
use tidesql_mysql.Txn.Protocol.Discards.{
  maybe_bulk_commit-Moves, release_own_txn-Moves, discard_txn-Moves,
}
use tidesql_mysql.Txn.Prepare.{tidesdb_prepare}
use tidesql_mysql.Txn.Coordinator.{
  set_prepared_in_tc, set_prepared_in_tc_by_xid, known_tables, xa_tc_mark, moved_tables,
  without_tables,
}
use tidesql_mysql.Txn.Protocol.{Txns, Moves, stop}
use tidesql_mysql.Txn.Protocol.Ownership.{
  true_or_false, Owner, connection, entry, other, held, IsOwned,
}
use tidesql_mysql.Txn.Protocol.Ownership.{relocates, Moves-IsOwned}
use tidesql_mysql.Txn.Protocol.Reuse.{get_or_create_trx-Moves}
use tidesql_mysql.Txn.Protocol.Commit.{tidesdb_commit-Moves, tidesdb_rollback-Moves}
use tidesql_mysql.Txn.Protocol.Sharing.{tidesdb_prepare-Moves}
use tidesql_mysql.Txn.Protocol.Serving.{
  resolve_by_xid-Moves, xa_tc_mark-Serves, recover_prepared_in_tc-Serves,
}
use tidesql_mysql.Txn.Protocol.Recovered.{recover-IsOwned}
use tidesql_mysql.Txn.Protocol.Starts.{external_lock_acquire-Moves, start_consistent_snapshot-Moves}
use tidesql_mysql.Txn.Protocol.Starts.{
  stmt_txn_for_ddl-Moves, savepoint_set-Moves, savepoint_rollback-Moves,
}
use tidesql_mysql.Txn.Protocol.Starts.{savepoint_release-Moves, close_connection-Moves}
use tidesql_mysql.Xid.{Xid, xid_key}
use tidesql_mysql.Base.{ℕ}
use tidesql_mysql.Base.{◌≡◌, refl, sym, ap, ◌∙◌, ◌≢◌, ◌⊎◌, inl, inr}
use tidesql_mysql.Base.{true, false, Option, none, some}
use tidesql_mysql.Base.{List, [], ◌∷◌}
use tidesql_mysql.Base.{◌==◌, if◌then◌else◌, ==_iff}
use tidesql_mysql.Base.{Bool-cases}
use tidesql_mysql.Txn.Protocol.Lawful.{IsLawful}
use tidesql_mysql.Txn.Protocol.Events.{
  Event, ensure_txn, lock_table, consistent_snapshot, write_ddl_log, set_savepoint,
  rollback_savepoint, drop_savepoint, commit_trx, rollback_trx, prepare_trx, close, record_in_tc,
  commit_xid, rollback_xid, recover_in_tc, commit_batch, own_release, truncation,
  record_in_tc_by_xid, recover_xids, System, recovery_in_tc, recording_by_xid, recovering, set_trx,
  leave, leave_db, step, run,
}

-- The handles of connections.
abbrev pub handles : (ℕ → Option Trx) → ℕ → Option ℕ
handles trxs n = handle_of (trxs n)

-- Handles without those of one connection.
unfoldable without : ℕ → (ℕ → Option ℕ) → ℕ → Option ℕ
without c xs n = if n == c then none else xs n

equal_or_not : (n c : ℕ) → ((n ≡ c) × ((n == c) ≡ true)) ⊎ ((n ≢ c) × ((n == c) ≡ false))
equal_or_not n c = elim (Bool-cases (n == c)) [
  | inl e ↦ inl ((==_iff n c).0 e, e)
  | inr e ↦ inr (λ p. true_or_false (sym ((==_iff n c).1 p) ∙ e), e)
]

not_none : {h : ℕ} → none ≢ some h
not_none e = cc

-- Every transaction that the library was asked to work on was live, every handle of a connection and
-- of the registry is live, and none is in two places.
unfoldable pub AllOwned : (L : Library) → IsLawful L → System L.Db → Type 0
AllOwned L lawful sys =
    IsOwned L lawful (held none sys.shared.txns (handles sys.trxs)) sys.shared.db

module _ (L : Library) (lawful : IsLawful L) where
  open L use {Db}

  without-other :
      (c : ℕ) (xs : ℕ → Option ℕ) (n h : ℕ)
      → without c xs n ≡ some h
      → (xs n ≡ some h) × (other n ≢ other c)
  unfolding without
  without-other c xs n h q = elim (equal_or_not n c) [
    | inl (_, e) ↦ absurd (not_none (rw e at q))
    | inr (ne, e) ↦ (rw e at q, λ p. ne cc)
  ]

  -- One connection in front of the others.
  enters :
      (c : ℕ) (xs : ℕ → Option ℕ) (t : Txns) (d : Db)
      → IsOwned L lawful (held none t xs) d
      → IsOwned L lawful (held (xs c) t (without c xs)) d
  unfolding held
  enters c xs t d o =
      relocates L lawful (other c) connection (held none t xs) (held (xs c) t (without c xs)) d o
        origin
    where
      origin :
          (o : Owner) (h : ℕ)
          → held (xs c) t (without c xs) o ≡ some h
          → ((o ≡ connection) × (held none t xs (other c) ≡ some h))
            ⊎ ((held none t xs o ≡ some h) × (o ≢ other c))
      origin connection h q = inl (refl, q)
      origin (entry key) h q = inr (q, λ e. cc)
      origin (other n) h q = inr (without-other c xs n h q)

  left_handle :
      (c : ℕ) (y : Option ℕ) (xs ys : ℕ → Option ℕ) (t : Txns)
      → ((n : ℕ) → ys n ≡ (if n == c then y else xs n))
      → (n h : ℕ) → ys n ≡ some h
      → ((other n ≡ other c) × (held y t (without c xs) connection ≡ some h))
        ⊎ ((held y t (without c xs) (other n) ≡ some h) × (other n ≢ connection))
  unfolding held without
  left_handle c y xs ys t same n h q = elim (equal_or_not n c) [
    | inl (p, e) ↦ inl (ap other p, rw e at (sym (same n) ∙ q))
    | inr (_, e) ↦ inr (rw e (rw e at (sym (same n) ∙ q)), λ p. cc)
  ]

  leaves :
      (c : ℕ) (y : Option ℕ) (xs ys : ℕ → Option ℕ) (t : Txns) (d : Db)
      → ((n : ℕ) → ys n ≡ (if n == c then y else xs n))
      → IsOwned L lawful (held y t (without c xs)) d
      → IsOwned L lawful (held none t ys) d
  unfolding held
  leaves c y xs ys t d same o =
      relocates L lawful connection (other c) (held y t (without c xs)) (held none t ys) d o origin
    where
      origin :
          (o : Owner) (h : ℕ)
          → held none t ys o ≡ some h
          → ((o ≡ other c) × (held y t (without c xs) connection ≡ some h))
            ⊎ ((held y t (without c xs) o ≡ some h) × (o ≢ connection))
      origin connection h q = absurd (not_none q)
      origin (entry key) h q = inr (q, λ e. cc)
      origin (other n) h q = left_handle c y xs ys t same n h q

  -- A call on a connection that makes moves of the protocol.
  leave-AllOwned :
      {R : Type 0} (c : ℕ) (sys : System Db) (out : R × Option Trx × Shared Db)
      → Moves L
          (handle_of (sys.trxs c))
          sys.shared.db
          sys.shared.txns
          (handle_of out.1)
          out.2.db
          out.2.txns
      → AllOwned L lawful sys
      → AllOwned L lawful (leave c sys out)
  unfolding AllOwned leave set_trx
  leave-AllOwned c sys out m o =
      leaves c (handle_of out.1) (handles sys.trxs) (handles (set_trx c out.1 sys.trxs)) out.2.txns
        out.2.db same
        (Moves-IsOwned L lawful (without c (handles sys.trxs)) m
          (enters c (handles sys.trxs) sys.shared.txns sys.shared.db o))
    where
      same :
          (n : ℕ)
          → handle_of (set_trx c out.1 sys.trxs n)
            ≡ (if n == c then handle_of out.1 else handle_of (sys.trxs n))
      same n = elim (Bool-cases (n == c)) [ inl e ↦ rw e refl | inr e ↦ rw e refl ]

  leave_db-AllOwned :
      {R : Type 0} (c : ℕ) (sys : System Db) (out : R × Option Trx × Db)
      → Moves L
          (handle_of (sys.trxs c))
          sys.shared.db
          sys.shared.txns
          (handle_of out.1)
          out.2
          sys.shared.txns
      → AllOwned L lawful sys
      → AllOwned L lawful (leave_db c sys out)
  unfolding leave_db
  leave_db-AllOwned c sys (ret, trx, db) m o =
      leave-AllOwned c sys (ret, trx, record { db = db; txns = sys.shared.txns }) m o

  without_tables-txn : (trx : Option Trx) → handle_of (without_tables trx) ≡ handle_of trx
  unfolding without_tables handle_of
  without_tables-txn none = refl
  without_tables-txn (some trx) = refl

  record_in_tc-AllOwned :
      (c : ℕ) (thd : Thd) (sys : System Db)
      → AllOwned L lawful sys
      → AllOwned L lawful (leave_db c sys (set_prepared_in_tc L thd (sys.trxs c) sys.shared.db))
  unfolding AllOwned set_prepared_in_tc leave_db leave
  record_in_tc-AllOwned c thd sys o =
      leave_db-AllOwned c marked (set_prepared_in_tc L thd (sys.trxs c) sys.shared.db)
        (stop (sym (without_tables-txn (sys.trxs c))))
        (Moves-IsOwned L lawful (handles sys.trxs)
          (xa_tc_mark-Serves L (xid_key thd.xid) (moved_tables (sys.trxs c)) sys.shared.db
            sys.shared.txns)
          o)
    where
      marked : System Db
      marked = record {
        shared = record {
          db = (xa_tc_mark L (xid_key thd.xid) (moved_tables (sys.trxs c)) sys.shared.db).1;
          txns = sys.shared.txns;
        };
        trxs = sys.trxs;
        recovery = sys.recovery;
      }

  recovery_in_tc-AllOwned :
      (sys : System Db) → AllOwned L lawful sys → AllOwned L lawful (recovery_in_tc L sys)
  unfolding AllOwned recovery_in_tc
  recovery_in_tc-AllOwned sys =
      Moves-IsOwned L lawful (handles sys.trxs)
        (recover_prepared_in_tc-Serves L sys.recovery.mod_tables sys.shared.db sys.shared.txns)

  recording_by_xid-AllOwned :
      (xid : Xid) (sys : System Db)
      → AllOwned L lawful sys
      → AllOwned L lawful (recording_by_xid L xid sys)
  unfolding AllOwned recording_by_xid set_prepared_in_tc_by_xid
  recording_by_xid-AllOwned xid sys = Moves-IsOwned L lawful (handles sys.trxs) (
      xa_tc_mark-Serves L (xid_key xid) (known_tables (sys.recovery.mod_tables (xid_key xid)))
        sys.shared.db sys.shared.txns)

  recovering-AllOwned :
      (len : ℕ) (sys : System Db) → AllOwned L lawful sys → AllOwned L lawful (recovering L len sys)
  unfolding AllOwned recovering
  recovering-AllOwned len sys =
      recover-IsOwned L lawful (handles sys.trxs) len
        (record sys.recovery { txns = sys.shared.txns }) sys.shared.db

  step-AllOwned :
      (event : Event) (sys : System Db)
      → AllOwned L lawful sys
      → AllOwned L lawful (step L event sys)
  unfolding step AllOwned
  step-AllOwned (ensure_txn c iso) sys =
      leave_db-AllOwned c sys (get_or_create_trx L iso (sys.trxs c) sys.shared.db)
        (get_or_create_trx-Moves L iso (sys.trxs c) sys.shared.db sys.shared.txns)
  step-AllOwned (lock_table c thd iso) sys =
      leave_db-AllOwned c sys (external_lock_acquire L thd iso (sys.trxs c) sys.shared.db)
        (external_lock_acquire-Moves L thd iso (sys.trxs c) sys.shared.db sys.shared.txns)
  step-AllOwned (consistent_snapshot c thd) sys =
      leave_db-AllOwned c sys (start_consistent_snapshot L thd (sys.trxs c) sys.shared.db)
        (start_consistent_snapshot-Moves L thd (sys.trxs c) sys.shared.db sys.shared.txns)
  step-AllOwned (write_ddl_log c thd) sys =
      leave_db-AllOwned c sys (stmt_txn_for_ddl L thd (sys.trxs c) sys.shared.db)
        (stmt_txn_for_ddl-Moves L thd (sys.trxs c) sys.shared.db sys.shared.txns)
  step-AllOwned (set_savepoint c sv) sys =
      leave_db-AllOwned c sys (done, sys.trxs c, (savepoint_set L (sys.trxs c) sv sys.shared.db).2)
        (savepoint_set-Moves L (sys.trxs c) sv sys.shared.db sys.shared.txns)
  step-AllOwned (rollback_savepoint c sv) sys =
      leave_db-AllOwned c sys
        (done, sys.trxs c, (savepoint_rollback L (sys.trxs c) sv sys.shared.db).2)
        (savepoint_rollback-Moves L (sys.trxs c) sv sys.shared.db sys.shared.txns)
  step-AllOwned (drop_savepoint c sv) sys =
      leave_db-AllOwned c sys
        (done, sys.trxs c, (savepoint_release L (sys.trxs c) sv sys.shared.db).2)
        (savepoint_release-Moves L (sys.trxs c) sv sys.shared.db sys.shared.txns)
  step-AllOwned (commit_trx c all thd) sys =
      leave-AllOwned c sys (tidesdb_commit L all thd (sys.trxs c) sys.shared)
        (tidesdb_commit-Moves L all thd (sys.trxs c) sys.shared)
  step-AllOwned (rollback_trx c all thd) sys =
      leave-AllOwned c sys (tidesdb_rollback L all thd (sys.trxs c) sys.shared)
        (tidesdb_rollback-Moves L all thd (sys.trxs c) sys.shared)
  step-AllOwned (prepare_trx c all thd) sys =
      leave-AllOwned c sys (tidesdb_prepare L all thd (sys.trxs c) sys.shared)
        (tidesdb_prepare-Moves L all thd (sys.trxs c) sys.shared)
  step-AllOwned (close c) sys =
      leave-AllOwned c sys (close_connection L (sys.trxs c) sys.shared)
        (close_connection-Moves L (sys.trxs c) sys.shared)
  step-AllOwned (record_in_tc c thd) sys = record_in_tc-AllOwned c thd sys
  step-AllOwned (commit_xid xid) sys =
      Moves-IsOwned L lawful (handles sys.trxs) (resolve_by_xid-Moves L xid sys.shared).0
  step-AllOwned (rollback_xid xid) sys =
      Moves-IsOwned L lawful (handles sys.trxs) (resolve_by_xid-Moves L xid sys.shared).1
  step-AllOwned (commit_batch c) sys =
      leave_db-AllOwned c sys (maybe_bulk_commit L (sys.trxs c) sys.shared.db)
        (maybe_bulk_commit-Moves L (sys.trxs c) sys.shared.db sys.shared.txns)
  step-AllOwned (own_release c) sys =
      leave_db-AllOwned c sys
        (
          done,
          (release_own_txn L (sys.trxs c) sys.shared.db).0,
          (release_own_txn L (sys.trxs c) sys.shared.db).1,
        )
        (release_own_txn-Moves L (sys.trxs c) sys.shared.db sys.shared.txns)
  step-AllOwned (truncation c) sys =
      leave_db-AllOwned c sys
        (
          done,
          (discard_txn L (sys.trxs c) sys.shared.db).0,
          (discard_txn L (sys.trxs c) sys.shared.db).1,
        )
        (discard_txn-Moves L (sys.trxs c) sys.shared.db sys.shared.txns)
  step-AllOwned recover_in_tc sys = recovery_in_tc-AllOwned sys
  step-AllOwned (record_in_tc_by_xid xid) sys = recording_by_xid-AllOwned xid sys
  step-AllOwned (recover_xids len) sys = recovering-AllOwned len sys

  -- For any sequence of the callbacks that ha_tidesdb_txn.cc registers, recovery included, of
  -- `get_or_create_trx`, of the locks of a table, of the transaction of a DDL log record, of the
  -- commits within a bulk write and of the ends of a transaction for a backup and a truncation, on
  -- any connections and whatever the storage library answers, these calls use and free no
  -- transaction handle after it was freed, every handle of a connection and of the registry of
  -- prepared transactions is live, and no two of them hold the same one. The library gives new
  -- handles at each begin and at recovery and ends one at a free; the calls start from a state
  -- that has this property. Reads and writes of rows are not among the calls.
  pub run-AllOwned :
      (events : List Event) (sys : System Db)
      → AllOwned L lawful sys
      → AllOwned L lawful (run L events sys)
  unfolding run
  run-AllOwned [] sys o = o
  run-AllOwned (event ∷ events) sys o =
      run-AllOwned events (step L event sys) (step-AllOwned event sys o)
