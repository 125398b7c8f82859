-- ===== src/Txn/Protocol/Sharing.antt =====
-- A prepare moves the handle of the connection to the registry.
use tidesql_mysql.Txn.{is_success, HaRc, done, Library, Trx, Thd, Shared, prepare}
use tidesql_mysql.Txn.Savepoints.{stmt_savepoint_disarm, handle_of}
use tidesql_mysql.Txn.FtsMeta.{flush_trx_fts_meta_pending}
use tidesql_mysql.Txn.Resolve.{txn_rollback_stateful}
use tidesql_mysql.Txn.Prepare.{is_xa_prepare, publish, prepare_flushed, prepare_dirty, prepare_all}
use tidesql_mysql.Txn.Prepare.{prepare_on, tidesdb_prepare}
use tidesql_mysql.Txn.Protocol.Commit.{Runs}
use tidesql_mysql.Txn.Protocol.Handle.{disarm-Uses, disarm-txn, flush-Uses, flush-txn}
use tidesql_mysql.Txn.Protocol.Handle.{rollback_stateful-Uses}
use tidesql_mysql.Txn.Protocol.{Txns, Moves, stop, seq, called, freed, handed}
use tidesql_mysql.Xid.{xid_key}
use tidesql_mysql.Base.{ℕ}
use tidesql_mysql.Base.{◌≡◌, refl, sym, ◌∙◌, inl, inr}
use tidesql_mysql.Base.{Bool, true, false, Option, none, some}
use tidesql_mysql.Base.{if◌then◌else◌}
use tidesql_mysql.Base.{Bool-cases}
use tidesql_mysql.Base.Bytes.{Bytes}

module _ (L : Library) where
  open L use {Db, call, free, begin, create_column_family, get_column_family}

  publish-Moves :
      (b : Bool) (key : Bytes) (h : ℕ) (trx : Trx) (d : Db) (t : Txns)
      → trx.txn ≡ some h
      → Moves L
          (some h)
          d
          t
          (publish L b key h trx (record { db = d; txns = t })).0.txn
          (publish L b key h trx (record { db = d; txns = t })).1.db
          (publish L b key h trx (record { db = d; txns = t })).1.txns
  unfolding publish
  publish-Moves true key h trx d t e = handed h key
  publish-Moves false key h trx d t e = stop (sym e)

  given_up :
      (h : ℕ) (d : Db) (t : Txns)
      → Moves L (some h) d t none (free h (txn_rollback_stateful L h d)) t
  given_up h d t = seq (rollback_stateful-Uses L h d t) (freed h)

  prepare_flushed-Runs :
      (h : ℕ) (thd : Thd) (trx : Trx) (s : Shared Db)
      → trx.txn ≡ some h
      → Runs L trx s (prepare_flushed L h thd trx s).1 (prepare_flushed L h thd trx s).2
  unfolding prepare_flushed
  prepare_flushed-Runs h thd trx s e =
      elim (Bool-cases (is_success (call h (prepare (xid_key thd.xid)) s.db).0)) [
        | inl c ↦ rw c (
            seq first (
              publish-Moves (is_xa_prepare thd.sql_command) (xid_key thd.xid) h trx
                (call h (prepare (xid_key thd.xid)) s.db).1 s.txns e))
        | inr c ↦ rw c (seq first (given_up h (call h (prepare (xid_key thd.xid)) s.db).1 s.txns))
      ]
    where
      first :
          Moves L trx.txn s.db s.txns (some h) (call h (prepare (xid_key thd.xid)) s.db).1 s.txns
      first = seq (stop e) (called h (prepare (xid_key thd.xid)))

  prepare_dirty-Runs :
      (h : ℕ) (thd : Thd) (trx : Trx) (s : Shared Db)
      → trx.txn ≡ some h
      → Runs L trx s (prepare_dirty L h thd trx s).1 (prepare_dirty L h thd trx s).2
  unfolding prepare_dirty
  prepare_dirty-Runs h thd trx s e =
      elim (Bool-cases (is_success (flush_trx_fts_meta_pending L h trx s.db).0)) [
        | inl c ↦ rw c (
            seq first (
              seq (stop (sym kept)) (
                prepare_flushed-Runs h thd (flush_trx_fts_meta_pending L h trx s.db).1
                  (record s { db = (flush_trx_fts_meta_pending L h trx s.db).2 }) kept)))
        | inr c ↦ rw c (seq first (given_up h (flush_trx_fts_meta_pending L h trx s.db).2 s.txns))
      ]
    where
      kept : (flush_trx_fts_meta_pending L h trx s.db).1.txn ≡ some h
      kept = flush-txn L h trx s.db ∙ e

      first :
          Moves L trx.txn s.db s.txns (some h) (flush_trx_fts_meta_pending L h trx s.db).2 s.txns
      first = seq (stop e) (flush-Uses L h trx s.db s.txns)

  pick-Runs :
      (b : Bool) (trx : Trx) (s : Shared Db) (r r' : HaRc × Trx × Shared Db)
      → Runs L trx s r.1 r.2
      → Runs L trx s r'.1 r'.2
      → Runs L trx s (if b then r else r').1 (if b then r else r').2
  pick-Runs true trx s r r' m n = m
  pick-Runs false trx s r r' m n = n

  prepare_all-Runs :
      (h : ℕ) (thd : Thd) (trx : Trx) (s : Shared Db)
      → trx.txn ≡ some h
      → Runs L trx s (prepare_all L h thd trx s).1 (prepare_all L h thd trx s).2
  unfolding prepare_all
  prepare_all-Runs h thd trx s e =
      pick-Runs disarmed.dirty trx s (prepare_dirty L h thd disarmed s')
        (if is_xa_prepare thd.sql_command
          then prepare_flushed L h thd disarmed s'
          else (done, disarmed, s'))
        (seq first (prepare_dirty-Runs h thd disarmed s' kept))
        (pick-Runs (is_xa_prepare thd.sql_command) trx s (prepare_flushed L h thd disarmed s')
          (done, disarmed, s') (seq first (prepare_flushed-Runs h thd disarmed s' kept)) first)
    where
      disarmed : Trx
      disarmed = (stmt_savepoint_disarm L h trx s.db).0

      s' : Shared Db
      s' = record s { db = (stmt_savepoint_disarm L h trx s.db).1 }

      kept : disarmed.txn ≡ some h
      kept = disarm-txn L h trx s.db ∙ e

      first : Moves L trx.txn s.db s.txns disarmed.txn s'.db s.txns
      first = seq (stop e) (seq (disarm-Uses L h trx s.db s.txns) (stop (sym kept)))

  prepare_on-Runs :
      (x : Option ℕ) (all : Bool) (thd : Thd) (trx : Trx) (s : Shared Db)
      → trx.txn ≡ x
      → Runs L trx s (prepare_on L x all thd trx s).1 (prepare_on L x all thd trx s).2
  unfolding prepare_on
  prepare_on-Runs none all thd trx s e = stop refl
  prepare_on-Runs (some h) true thd trx s e = prepare_all-Runs h thd trx s e
  prepare_on-Runs (some h) false thd trx s e = stop refl

  -- A prepare, successful or not, makes moves of the protocol.
  pub tidesdb_prepare-Moves :
      (all : Bool) (thd : Thd) (trx : Option Trx) (s : Shared Db)
      → Moves L
          (handle_of trx)
          s.db
          s.txns
          (handle_of (tidesdb_prepare L all thd trx s).1)
          (tidesdb_prepare L all thd trx s).2.db
          (tidesdb_prepare L all thd trx s).2.txns
  unfolding tidesdb_prepare handle_of
  tidesdb_prepare-Moves all thd none s = stop refl
  tidesdb_prepare-Moves all thd (some trx) s = prepare_on-Runs trx.txn all thd trx s refl
