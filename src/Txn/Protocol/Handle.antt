-- ===== src/Txn/Protocol/Handle.antt =====
-- What keeps the handle of the connection.
use tidesql_mysql.Txn.{is_success, is_not_found, Library, Trx}
use tidesql_mysql.Txn.{FtsMetaDelta, release_savepoint, stmt_name}
use tidesql_mysql.Txn.{commit, rollback, commit_prepared, rollback_prepared}
use tidesql_mysql.Txn.FtsMeta.{fts_update_meta, flush_entries, flush_trx_fts_meta_pending}
use tidesql_mysql.Txn.FtsMeta.{fts_load_meta, meta_key}
use tidesql_mysql.Txn.Savepoints.{stmt_savepoint_disarm}
use tidesql_mysql.Txn.Resolve.{txn_commit_stateful, txn_rollback_stateful}
use tidesql_mysql.Txn.Protocol.{Txns, Moves, stop, seq, called, got}
use tidesql_mysql.Base.{ℕ}
use tidesql_mysql.Base.{◌≡◌, refl, inl, inr}
use tidesql_mysql.Base.{◌||◌, some}
use tidesql_mysql.Base.{List, [], ◌∷◌}
use tidesql_mysql.Base.{Bool-cases}

module _ (L : Library) where
  open L use {Db, call, get, free, is_prepared, begin_with_isolation}

  -- The moves of an operation that keeps the handle.
  abbrev pub Uses : ℕ → Db → Db → Type 0
  Uses h d e = (t : Txns) → Moves L (some h) d t (some h) e t

  pub disarm-Uses : (h : ℕ) (trx : Trx) (d : Db) → Uses h d (stmt_savepoint_disarm L h trx d).1
  unfolding stmt_savepoint_disarm
  disarm-Uses h trx d t = elim (Bool-cases trx.stmt_savepoint_active) [
    | inl e ↦ rw e (called h (release_savepoint stmt_name))
    | inr e ↦ rw e (stop refl)
  ]

  pub disarm-txn : (h : ℕ) (trx : Trx) (d : Db) → (stmt_savepoint_disarm L h trx d).0.txn ≡ trx.txn
  unfolding stmt_savepoint_disarm
  disarm-txn h trx d = elim (Bool-cases trx.stmt_savepoint_active) [
    | inl e ↦ rw e refl
    | inr e ↦ rw e refl
  ]

  update_meta-Uses : (h : ℕ) (e : FtsMetaDelta) (d : Db) → Uses h d (fts_update_meta L h e d).1
  unfolding fts_update_meta fts_load_meta meta_key
  update_meta-Uses h e d t =
      elim (Bool-cases (
        is_success (get h e.data_cf (meta_key e.keynr) d).0
        || is_not_found (get h e.data_cf (meta_key e.keynr) d).0)) [
          | inl c ↦ rw c (seq (got h e.data_cf (meta_key e.keynr)) (called h _))
          | inr c ↦ rw c (got h e.data_cf (meta_key e.keynr))
        ]

  flush_entries-Uses :
      (h : ℕ) (es : List FtsMetaDelta) (d : Db) → Uses h d (flush_entries L h es d).1
  unfolding flush_entries
  flush_entries-Uses h [] d t = stop refl
  flush_entries-Uses h (e ∷ es) d t = elim (Bool-cases (is_success (fts_update_meta L h e d).0)) [
    | inl s ↦
        rw s
          (seq (update_meta-Uses h e d t) (flush_entries-Uses h es (fts_update_meta L h e d).1 t))
    | inr s ↦ rw s (update_meta-Uses h e d t)
  ]

  pub flush-Uses : (h : ℕ) (trx : Trx) (d : Db) → Uses h d (flush_trx_fts_meta_pending L h trx d).2
  unfolding flush_trx_fts_meta_pending
  flush-Uses h trx d t = elim (Bool-cases trx.fts_meta_dirty) [
    | inl e ↦ rw e (flush_entries-Uses h trx.fts_meta_pending d t)
    | inr e ↦ rw e (stop refl)
  ]

  pub flush-txn :
      (h : ℕ) (trx : Trx) (d : Db) → (flush_trx_fts_meta_pending L h trx d).1.txn ≡ trx.txn
  unfolding flush_trx_fts_meta_pending
  flush-txn h trx d = elim (Bool-cases trx.fts_meta_dirty) [ inl e ↦ rw e refl | inr e ↦ rw e refl ]

  pub commit_stateful-Uses : (h : ℕ) (d : Db) → Uses h d (txn_commit_stateful L h d).1
  unfolding txn_commit_stateful
  commit_stateful-Uses h d t = elim (Bool-cases (is_prepared h d)) [
    | inl e ↦ rw e (called h commit_prepared)
    | inr e ↦ rw e (called h commit)
  ]

  pub rollback_stateful-Uses : (h : ℕ) (d : Db) → Uses h d (txn_rollback_stateful L h d)
  unfolding txn_rollback_stateful
  rollback_stateful-Uses h d t = elim (Bool-cases (is_prepared h d)) [
    | inl e ↦ rw e (called h rollback_prepared)
    | inr e ↦ rw e (called h rollback)
  ]
