-- ===== src/Txn/Protocol/Commit.antt =====
-- A commit and a rollback of the connection make moves of the protocol.
use tidesql_mysql.Txn.{is_success, Library, Trx, Thd, Shared}
use tidesql_mysql.Txn.{release_savepoint, stmt_name}
use tidesql_mysql.Txn.{rollback, rollback_to_savepoint}
use tidesql_mysql.Txn.FtsMeta.{flush_trx_fts_meta_pending}
use tidesql_mysql.Txn.Savepoints.{stmt_savepoint_disarm, stmt_savepoint_rollback}
use tidesql_mysql.Txn.Resolve.{drop_entry, txn_commit_stateful}
use tidesql_mysql.Txn.Resolve.{drop_prepared_entry, finish_commit, commit_dirty, commit_clean}
use tidesql_mysql.Txn.Resolve.{finalize_commit, is_real, commit_on, tidesdb_commit, rollback_all}
use tidesql_mysql.Txn.Resolve.{rollback_on, tidesdb_rollback}
use tidesql_mysql.Txn.Savepoints.{handle_of}
use tidesql_mysql.Txn.Protocol.{Txns, Moves, stop, seq, called}
use tidesql_mysql.Txn.Protocol.{freed, dropped}
use tidesql_mysql.Base.{ℕ}
use tidesql_mysql.Base.{◌≡◌, refl, sym, ◌∙◌, inl, inr}
use tidesql_mysql.Base.{Bool, true, false, Option, none, some}
use tidesql_mysql.Base.{[], ◌∷◌}
use tidesql_mysql.Base.{if◌then◌else◌}
use tidesql_mysql.Base.{Bool-cases}
use tidesql_mysql.Base.Bytes.{Bytes}
use tidesql_mysql.Txn.Protocol.Handle.{
  Uses, commit_stateful-Uses, disarm-Uses, disarm-txn, flush-Uses, flush-txn,
  rollback_stateful-Uses,
}

module _ (L : Library) where
  open L use {Db, call, get, free, is_prepared, begin_with_isolation}

  drop_entry-Moves :
      (x : Option ℕ) (d : Db) (key : Bytes) (t : Txns) → Moves L x d t x d (drop_entry key t)
  unfolding drop_entry
  drop_entry-Moves x d [] t = stop refl
  drop_entry-Moves x d (c ∷ key) t = dropped (c ∷ key)

  finish_commit-Moves :
      (h : ℕ) (trx : Trx) (d : Db) (t : Txns)
      → trx.txn ≡ some h
      → Moves L (some h) d t (finish_commit L h trx d).1.txn (finish_commit L h trx d).2 t
  unfolding finish_commit
  finish_commit-Moves h trx d t e = elim (Bool-cases (is_success (txn_commit_stateful L h d).0)) [
    | inl s ↦ rw s (seq (commit_stateful-Uses L h d t) (stop (sym e)))
    | inr s ↦ rw s (
        seq (commit_stateful-Uses L h d t)
          (seq (rollback_stateful-Uses L h (txn_commit_stateful L h d).1 t) (freed h)))
  ]

  commit_dirty-Moves :
      (h : ℕ) (trx : Trx) (d : Db) (t : Txns)
      → trx.txn ≡ some h
      → Moves L (some h) d t (commit_dirty L h trx d).1.txn (commit_dirty L h trx d).2 t
  unfolding commit_dirty
  commit_dirty-Moves h trx d t e =
      elim (Bool-cases (is_success (flush_trx_fts_meta_pending L h trx d).0)) [
        | inl s ↦ rw s (
            seq (flush-Uses L h trx d t) (
              finish_commit-Moves h (flush_trx_fts_meta_pending L h trx d).1
                (flush_trx_fts_meta_pending L h trx d).2 t (flush-txn L h trx d ∙ e)))
        | inr s ↦ rw s (seq (flush-Uses L h trx d t) (seq (called h rollback) (freed h)))
      ]

  -- The moves of an operation on the structure of a connection and what connections share.
  abbrev pub Runs : Trx → Shared Db → Trx → Shared Db → Type 0
  Runs trx s trx' s' = Moves L trx.txn s.db s.txns trx'.txn s'.db s'.txns

  -- Either branch of the commit.
  commit_either-Moves :
      (b : Bool) (h : ℕ) (trx : Trx) (d : Db) (t : Txns)
      → trx.txn ≡ some h
      → Moves L
          (some h)
          d
          t
          (if b then commit_dirty L h trx d else commit_clean L h trx d).1.txn
          (if b then commit_dirty L h trx d else commit_clean L h trx d).2
          t
  unfolding commit_clean
  commit_either-Moves true h trx d t e = commit_dirty-Moves h trx d t e
  commit_either-Moves false h trx d t e = seq (called h rollback) (stop (sym e))

  finalize_commit-Runs :
      (h : ℕ) (trx : Trx) (s : Shared Db)
      → trx.txn ≡ some h
      → Runs trx s (finalize_commit L h trx s).1 (finalize_commit L h trx s).2
  unfolding finalize_commit drop_prepared_entry
  finalize_commit-Runs h trx s e = seq (stop e) (
      seq (disarm-Uses L h trx s.db s.txns) (
        seq (drop_entry-Moves (some h) db₁ disarmed.prepared_xid s.txns) (
          commit_either-Moves disarmed.dirty h (record disarmed { prepared_xid = [] }) db₁
            (drop_entry disarmed.prepared_xid s.txns) (disarm-txn L h trx s.db ∙ e))))
    where
      disarmed : Trx
      disarmed = (stmt_savepoint_disarm L h trx s.db).0

      db₁ : Db
      db₁ = (stmt_savepoint_disarm L h trx s.db).1

  commit_on-Runs :
      (x : Option ℕ) (all : Bool) (thd : Thd) (trx : Trx) (s : Shared Db)
      → trx.txn ≡ x
      → Runs trx s (commit_on L x all thd trx s).1 (commit_on L x all thd trx s).2
  unfolding commit_on
  commit_on-Runs none all thd trx s e = stop refl
  commit_on-Runs (some h) all thd trx s e = elim (Bool-cases (is_real all thd)) [
    | inl r ↦ rw r (finalize_commit-Runs h trx s e)
    | inr r ↦ rw r (
        seq (stop e)
          (seq (disarm-Uses L h trx s.db s.txns) (stop (sym e ∙ sym (disarm-txn L h trx s.db)))))
  ]

  release-Uses :
      (b : Bool) (h : ℕ) (d : Db)
      → Uses L h d (if b then (call h (release_savepoint stmt_name) d).1 else d)
  release-Uses true h d t = called h (release_savepoint stmt_name)
  release-Uses false h d t = stop refl

  rollback_all-Runs :
      (h : ℕ) (trx : Trx) (s : Shared Db)
      → trx.txn ≡ some h
      → Runs trx s (rollback_all L h trx s).0 (rollback_all L h trx s).1
  unfolding rollback_all drop_prepared_entry
  rollback_all-Runs h trx s e = seq (stop e) (
      seq (release-Uses trx.stmt_savepoint_active h s.db s.txns) (
        seq (drop_entry-Moves (some h) db₁ trx.prepared_xid s.txns) (
          seq (rollback_stateful-Uses L h db₁ (drop_entry trx.prepared_xid s.txns))
            (stop (sym e)))))
    where
      db₁ : Db
      db₁ =
          if trx.stmt_savepoint_active then (call h (release_savepoint stmt_name) s.db).1 else s.db

  stmt_rollback-Uses :
      (h : ℕ) (trx : Trx) (d : Db) → Uses L h d (stmt_savepoint_rollback L h trx d).2
  unfolding stmt_savepoint_rollback
  stmt_rollback-Uses h trx d t = elim (Bool-cases trx.stmt_savepoint_active) [
    | inr a ↦ rw a (stop refl)
    | inl a ↦ elim (Bool-cases (is_success (call h (rollback_to_savepoint stmt_name) d).0)) [
      | inl c ↦ rw (a, c) (called h (rollback_to_savepoint stmt_name))
      | inr c ↦ rw (a, c) (called h (rollback_to_savepoint stmt_name))
    ]
  ]

  stmt_rollback-txn :
      (h : ℕ) (trx : Trx) (d : Db) → (stmt_savepoint_rollback L h trx d).1.txn ≡ trx.txn
  unfolding stmt_savepoint_rollback
  stmt_rollback-txn h trx d = elim (Bool-cases trx.stmt_savepoint_active) [
    | inr a ↦ rw a refl
    | inl a ↦ elim (Bool-cases (is_success (call h (rollback_to_savepoint stmt_name) d).0)) [
      | inl c ↦ rw (a, c) refl
      | inr c ↦ rw (a, c) refl
    ]
  ]

  rollback_on-Runs :
      (x : Option ℕ) (all : Bool) (thd : Thd) (trx : Trx) (s : Shared Db)
      → trx.txn ≡ x
      → Runs trx s (rollback_on L x all thd trx s).1 (rollback_on L x all thd trx s).2
  unfolding rollback_on
  rollback_on-Runs none all thd trx s e = stop refl
  rollback_on-Runs (some h) all thd trx s e = elim (Bool-cases (is_real all thd)) [
    | inl r ↦ rw r (rollback_all-Runs h trx s e)
    | inr r ↦ elim (Bool-cases partly.0) [
      | inl c ↦ rw (r, c) (seq first (stop kept))
      | inr c ↦
          rw (r, c)
            (seq first (
              seq (stop kept)
                (rollback_all-Runs h partly.1 (record s { db = partly.2 }) (sym kept))))
    ]
  ]
    where
      partly : Bool × Trx × Db
      partly = stmt_savepoint_rollback L h trx s.db

      kept : some h ≡ partly.1.txn
      kept = sym (stmt_rollback-txn h trx s.db ∙ e)

      first : Moves L trx.txn s.db s.txns (some h) partly.2 s.txns
      first = seq (stop e) (stmt_rollback-Uses h trx s.db s.txns)

  -- A commit, of a statement or of the whole transaction, makes moves of the protocol.
  pub tidesdb_commit-Moves :
      (all : Bool) (thd : Thd) (trx : Option Trx) (s : Shared Db)
      → Moves L
          (handle_of trx)
          s.db
          s.txns
          (handle_of (tidesdb_commit L all thd trx s).1)
          (tidesdb_commit L all thd trx s).2.db
          (tidesdb_commit L all thd trx s).2.txns
  unfolding tidesdb_commit handle_of
  tidesdb_commit-Moves all thd none s = stop refl
  tidesdb_commit-Moves all thd (some trx) s = commit_on-Runs trx.txn all thd trx s refl

  -- A rollback, of a statement or of the whole transaction, makes moves of the protocol.
  pub tidesdb_rollback-Moves :
      (all : Bool) (thd : Thd) (trx : Option Trx) (s : Shared Db)
      → Moves L
          (handle_of trx)
          s.db
          s.txns
          (handle_of (tidesdb_rollback L all thd trx s).1)
          (tidesdb_rollback L all thd trx s).2.db
          (tidesdb_rollback L all thd trx s).2.txns
  unfolding tidesdb_rollback handle_of
  tidesdb_rollback-Moves all thd none s = stop refl
  tidesdb_rollback-Moves all thd (some trx) s = rollback_on-Runs trx.txn all thd trx s refl
