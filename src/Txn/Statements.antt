-- ===== src/Txn/Statements.antt =====
-- What a rollback of a statement restores, what the pending deltas add up to, and when a
-- transaction starts anew, in ha_tidesdb_txn.cc and ha_tidesdb_fts.cc.
use tidesql_mysql.Txn.{
  is_success, Library, Trx, next_generation, rollback_to_savepoint, stmt_name, Isolation,
}
use tidesql_mysql.Txn.{make_savepoint, release_savepoint, reset, FtsMetaDelta}
use tidesql_mysql.Txn.Savepoints.{stmt_savepoint_arm, stmt_savepoint_rollback}
use tidesql_mysql.Txn.FtsMeta.{accumulate, trx_fts_meta_accumulate, pending_docs}
use tidesql_mysql.Txn.Begin.{get_or_create_trx, reuse_trx, reuse_txn, reuse_without_txn}
use native.Mathlib.Nat.{mod-add-mod, add-mod-mod}
use tidesql_mysql.Base.{ℕ, ◌+◌, ◌%◌, ◌^◌}
use tidesql_mysql.Base.{◌≡◌, refl, sym, ap, ◌∙◌, inl, inr, arith}
use tidesql_mysql.Base.{true, false, ◌&&◌, none, some}
use tidesql_mysql.Base.{List, [], ◌∷◌}
use tidesql_mysql.Base.{◌==◌, if◌then◌else◌}
use tidesql_mysql.Base.{Bool-cases}

-- Deltas of rows, each with its column family, its index and what it adds.
pub accumulate_all : List (ℕ × ℕ × ℕ × ℕ) → Trx → Trx
accumulate_all [] trx = trx
accumulate_all ((cf, keynr, docs, words) ∷ rows) trx =
    accumulate_all rows (trx_fts_meta_accumulate cf keynr docs words trx)

accumulate_keeps :
    (rows : List (ℕ × ℕ × ℕ × ℕ)) (trx : Trx)
    → ((accumulate_all rows trx).stmt_savepoint_active ≡ trx.stmt_savepoint_active)
      × ((accumulate_all rows trx).stmt_fts_snapshot ≡ trx.stmt_fts_snapshot)
      × ((accumulate_all rows trx).stmt_fts_dirty_snapshot ≡ trx.stmt_fts_dirty_snapshot)
      × ((accumulate_all rows trx).txn_generation ≡ trx.txn_generation)
unfolding accumulate_all trx_fts_meta_accumulate
accumulate_keeps [] trx = (refl, refl, refl, refl)
accumulate_keeps ((cf, keynr, docs, words) ∷ rows) trx =
    accumulate_keeps rows (trx_fts_meta_accumulate cf keynr docs words trx)

module _ (L : Library) where
  open L use {Db, call, begin_with_isolation}

  -- Where the statement savepoint was made and the library rolls back to it, the rollback of the
  -- statement restores the pending full-text deltas of the time of the arming, whatever deltas
  -- rows have added since; the savepoint is no longer active and the generation is the next one.
  pub stmt_savepoint_rollback-stmt_savepoint_arm :
      (h : ℕ) (rows : List (ℕ × ℕ × ℕ × ℕ)) (trx : Trx) (d e : Db)
      → is_success (call h (make_savepoint stmt_name) (call h (release_savepoint stmt_name) d).1).0
        ≡ true
      → is_success (call h (rollback_to_savepoint stmt_name) e).0 ≡ true
      → let (done, trx', e') =
          stmt_savepoint_rollback L h (accumulate_all rows (stmt_savepoint_arm L h trx d).0) e in
        (done ≡ true)
        × (trx'.fts_meta_pending ≡ trx.fts_meta_pending)
        × (trx'.fts_meta_dirty ≡ trx.fts_meta_dirty)
        × (trx'.stmt_savepoint_active ≡ false)
        × (trx'.txn_generation ≡ next_generation trx.txn_generation)
        × (e' ≡ (call h (rollback_to_savepoint stmt_name) e).1)
  unfolding stmt_savepoint_rollback stmt_savepoint_arm
  stmt_savepoint_rollback-stmt_savepoint_arm h rows trx d e made undone =
      rw (made, kept.0, undone) (refl, kept.1, kept.2, refl, ap next_generation kept.3, refl)
    where
      armed : Trx
      armed = record trx {
        stmt_savepoint_active = true;
        stmt_fts_snapshot = trx.fts_meta_pending;
        stmt_fts_dirty_snapshot = trx.fts_meta_dirty;
      }

      kept :
          ((accumulate_all rows armed).stmt_savepoint_active ≡ true)
          × ((accumulate_all rows armed).stmt_fts_snapshot ≡ trx.fts_meta_pending)
          × ((accumulate_all rows armed).stmt_fts_dirty_snapshot ≡ trx.fts_meta_dirty)
          × ((accumulate_all rows armed).txn_generation ≡ trx.txn_generation)
      kept = accumulate_keeps rows armed

  -- A structure without a transaction that is marked for a reset keeps the mark over a successful
  -- begin, so the next call of `get_or_create_trx` resets the transaction that was just begun,
  -- where the library lets it.
  pub get_or_create_trx-resets_again :
      (iso : Isolation) (trx : Trx) (d : Db)
      → trx.txn ≡ none
      → trx.needs_reset ≡ true
      → is_success (begin_with_isolation iso d).0 ≡ true
      → let (rc, h, d₁) = begin_with_isolation iso d in
        is_success (call h (reset iso) d₁).0 ≡ true
        → (get_or_create_trx L iso (get_or_create_trx L iso (some trx) d).1 d₁).2
          ≡ (call h (reset iso) d₁).1
  unfolding get_or_create_trx reuse_trx reuse_without_txn reuse_txn
  get_or_create_trx-resets_again iso trx d e n s r = rw (e, s, n, r) refl

-- Words added up in either order.
add_words : (m a b c : ℕ) → ((a + b) % m + c) % m ≡ ((a + c) % m + b) % m
add_words m a b c =
    mod-add-mod (a + b) m c ∙ ap (λ t. t % m) (omega arith) ∙ sym (mod-add-mod (a + c) m b)

add_later : (m a b c : ℕ) → (a + (b + c) % m) % m ≡ ((a + b) % m + c) % m
add_later m a b c =
    add-mod-mod a (b + c) m ∙ ap (λ t. t % m) (omega arith) ∙ sym (mod-add-mod (a + b) m c)

same_index :
    (e : FtsMetaDelta) (cf keynr c k : ℕ)
    → (e.data_cf == cf && e.keynr == keynr) ≡ true
    → (cf == c && keynr == k) ≡ (e.data_cf == c && e.keynr == k)
same_index e cf keynr c k h = ground arith

-- Accumulating the delta of a row adds its documents, modulo 2 ^ 64, to what is pending for its
-- column family and index, and changes what is pending for no other index.
pub pending_docs-accumulate :
    (cf keynr docs words c k : ℕ) (pending : List FtsMetaDelta)
    → pending_docs c k (accumulate cf keynr docs words pending) ≡ (
        if cf == c && keynr == k
        then (pending_docs c k pending + docs) % 2 ^ 64
        else pending_docs c k pending)
unfolding pending_docs accumulate
pending_docs-accumulate cf keynr docs words c k [] = elim (Bool-cases (cf == c && keynr == k)) [
  | inl e ↦ rw e (ap (λ t. t % 2 ^ 64) (omega arith))
  | inr e ↦ rw e refl
]
pending_docs-accumulate cf keynr docs words c k (e ∷ pending) =
    elim (Bool-cases (e.data_cf == cf && e.keynr == keynr)) [
      | inl s ↦
          rw (s, same_index e cf keynr c k s)
            (elim (Bool-cases (e.data_cf == c && e.keynr == k)) [
              | inl t ↦ rw t (add_words (2 ^ 64) e.doc_delta docs (pending_docs c k pending))
              | inr t ↦ rw t refl
            ])
      | inr s ↦
          rw (s, pending_docs-accumulate cf keynr docs words c k pending)
            (elim (Bool-cases (e.data_cf == c && e.keynr == k)) [
              | inl t ↦ elim (Bool-cases (cf == c && keynr == k)) [
                | inl u ↦ rw (t, u) (add_later (2 ^ 64) e.doc_delta (pending_docs c k pending) docs)
                | inr u ↦ rw (t, u) refl
              ]
              | inr t ↦ rw t refl
            ])
    ]
