-- ===== src/Txn/Protocol/Discards.antt =====
-- The commits within a bulk write, a backup and a truncation make moves of the protocol.
use tidesql_mysql.Txn.{Rc, is_success, HaRc, Library, Trx, commit, rollback, reset, rc_to_ha}
use tidesql_mysql.Txn.FtsMeta.{flush_trx_fts_meta_pending}
use tidesql_mysql.Txn.Savepoints.{handle_of}
use tidesql_mysql.Txn.Outside.{
  bulk_abort, bulk_reset, bulk_flushed, bulk_on, maybe_bulk_commit, release_on, release_own_txn,
  discard_on, discard_txn, drop_txn,
}
use tidesql_mysql.Txn.Protocol.{Txns, Moves, stop, seq, called, freed, began_with, not_begun_with}
use tidesql_mysql.Txn.Protocol.Handle.{flush-Uses, flush-txn}
use tidesql_mysql.Base.{ℕ}
use tidesql_mysql.Base.{◌≡◌, refl, sym, ◌∙◌, inl, inr}
use tidesql_mysql.Base.{Option, none, some}
use tidesql_mysql.Base.{Bool-cases}

module _ (L : Library) where
  open L use {Db, begin_with_isolation, call, free}

  bulk_abort-Moves :
      (code : HaRc) (h : ℕ) (trx : Trx) (d : Db) (t : Txns)
      → Moves L (some h) d t (bulk_abort L code h trx d).1.txn (bulk_abort L code h trx d).2 t
  unfolding bulk_abort
  bulk_abort-Moves code h trx d t =
      elim (Bool-cases
        (is_success (begin_with_isolation trx.isolation_level (free h (call h rollback d).1)).0)) [
          | inl c ↦
              rw c (seq (called h rollback) (seq (freed h) (began_with trx.isolation_level c)))
          | inr c ↦
              rw c (seq (called h rollback) (seq (freed h) (not_begun_with trx.isolation_level c)))
        ]

  bulk_reset-Moves :
      (h : ℕ) (trx : Trx) (d : Db) (t : Txns)
      → Moves L (some h) d t (bulk_reset L h trx d).1.txn (bulk_reset L h trx d).2 t
  unfolding bulk_reset
  bulk_reset-Moves h trx d t =
      elim (Bool-cases (is_success (call h (reset trx.isolation_level) d).0)) [
        | inl r ↦ rw r (called h (reset trx.isolation_level))
        | inr r ↦
            elim (Bool-cases (
              is_success
                (begin_with_isolation trx.isolation_level
                  (free h (call h (reset trx.isolation_level) d).1)).0)) [
                    | inl c ↦
                        rw (r, c)
                          (seq (called h (reset trx.isolation_level))
                            (seq (freed h) (began_with trx.isolation_level c)))
                    | inr c ↦
                        rw (r, c)
                          (seq (called h (reset trx.isolation_level))
                            (seq (freed h) (not_begun_with trx.isolation_level c)))
                  ]
      ]

  bulk_flushed-Moves :
      (h : ℕ) (trx : Trx) (d : Db) (t : Txns)
      → trx.txn ≡ some h
      → Moves L (some h) d t (bulk_flushed L h trx d).1.txn (bulk_flushed L h trx d).2 t
  unfolding bulk_flushed
  bulk_flushed-Moves h trx d t e =
      elim (Bool-cases (is_success (flush_trx_fts_meta_pending L h trx d).0)) [
        | inr s ↦ rw s (seq (flush-Uses L h trx d t) (stop (sym (flush-txn L h trx d ∙ e))))
        | inl s ↦ elim (Bool-cases (is_success (call h commit flushed.2).0)) [
          | inl c ↦
              rw (s, c)
                (seq (flush-Uses L h trx d t) (
                  seq (called h commit)
                    (bulk_reset-Moves h flushed.1 (call h commit flushed.2).1 t)))
          | inr c ↦
              rw (s, c)
                (seq (flush-Uses L h trx d t) (
                  seq (called h commit) (
                    bulk_abort-Moves (rc_to_ha (call h commit flushed.2).0) h flushed.1
                      (call h commit flushed.2).1 t)))
        ]
      ]
    where
      flushed : Rc × Trx × Db
      flushed = flush_trx_fts_meta_pending L h trx d

  bulk_on-Moves :
      (x : Option ℕ) (trx : Trx) (d : Db) (t : Txns)
      → trx.txn ≡ x
      → Moves L x d t (bulk_on L x trx d).1.txn (bulk_on L x trx d).2 t
  unfolding bulk_on
  bulk_on-Moves none trx d t e = stop (sym e)
  bulk_on-Moves (some h) trx d t e = bulk_flushed-Moves h trx d t e

  pub maybe_bulk_commit-Moves :
      (trx : Option Trx) (d : Db) (t : Txns)
      → Moves L
          (handle_of trx)
          d
          t
          (handle_of (maybe_bulk_commit L trx d).1)
          (maybe_bulk_commit L trx d).2
          t
  unfolding maybe_bulk_commit handle_of
  maybe_bulk_commit-Moves none d t = stop refl
  maybe_bulk_commit-Moves (some trx) d t = bulk_on-Moves trx.txn trx d t refl

  release_on-Moves :
      (x : Option ℕ) (trx : Trx) (d : Db) (t : Txns)
      → trx.txn ≡ x
      → Moves L x d t (release_on L x trx d).0.txn (release_on L x trx d).1 t
  unfolding release_on drop_txn
  release_on-Moves none trx d t e = stop (sym e)
  release_on-Moves (some h) trx d t e = seq (called h rollback) (freed h)

  pub release_own_txn-Moves :
      (trx : Option Trx) (d : Db) (t : Txns)
      → Moves L
          (handle_of trx)
          d
          t
          (handle_of (release_own_txn L trx d).0)
          (release_own_txn L trx d).1
          t
  unfolding release_own_txn handle_of
  release_own_txn-Moves none d t = stop refl
  release_own_txn-Moves (some trx) d t = release_on-Moves trx.txn trx d t refl

  discard_on-Moves :
      (x : Option ℕ) (trx : Trx) (d : Db) (t : Txns)
      → trx.txn ≡ x
      → Moves L x d t (discard_on L x trx d).0.txn (discard_on L x trx d).1 t
  unfolding discard_on drop_txn
  discard_on-Moves none trx d t e = stop (sym e)
  discard_on-Moves (some h) trx d t e = seq (called h rollback) (freed h)

  pub discard_txn-Moves :
      (trx : Option Trx) (d : Db) (t : Txns)
      → Moves L (handle_of trx) d t (handle_of (discard_txn L trx d).0) (discard_txn L trx d).1 t
  unfolding discard_txn handle_of
  discard_txn-Moves none d t = stop refl
  discard_txn-Moves (some trx) d t = discard_on-Moves trx.txn trx d t refl
