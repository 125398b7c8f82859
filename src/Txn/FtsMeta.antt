-- ===== src/Txn/FtsMeta.antt =====
-- The deltas of the full-text totals that a transaction gathers, of
-- tidesdb/src/handler/ha_tidesdb_fts.cc.
use tidesql_mysql.Txn.{Rc, success, is_success, is_not_found, Library, put}
use tidesql_mysql.Txn.{FtsMetaDelta, Trx}
use tidesql_mysql.Fts.{encode_meta_value, decode_meta_value}
use tidesql_mysql.RowFormat.{key_ns_meta}
use tidesql_mysql.Base.{ℕ, ◌+◌, ◌%◌, ◌^◌}
use tidesql_mysql.Base.{Bool, true, false, not, ◌&&◌, ◌||◌, Option, none, some}
use tidesql_mysql.Base.{List, [], ◌∷◌}
use tidesql_mysql.Base.{leb, ◌==◌, if◌then◌else◌}
use tidesql_mysql.Base.Bytes.{Bytes}

-- The namespace byte, "FTS" with its zero byte, and the number of the index.
unfoldable pub meta_key : ℕ → Bytes
meta_key keynr = key_ns_meta ∷ 70 ∷ 84 ∷ 83 ∷ 0 ∷ (keynr % 256) ∷ []

-- The totals that `fts_load_meta` leaves: zero unless a value was found and has both.
unfoldable pub loaded_totals : Bool → Option (ℕ × ℕ) → ℕ × ℕ
loaded_totals true (some totals) = totals
loaded_totals true none = (0, 0)
loaded_totals false decoded = (0, 0)

-- `total += delta` on 64-bit patterns, and 0 where the sum is negative.
unfoldable pub add_clamped : ℕ → ℕ → ℕ
add_clamped total delta = let sum = (total + delta) % 2 ^ 64 in if leb (2 ^ 63) sum then 0 else sum

unfoldable pub accumulate : ℕ → ℕ → ℕ → ℕ → List FtsMetaDelta → List FtsMetaDelta
accumulate cf keynr docs words [] =
    record { data_cf = cf; keynr = keynr; doc_delta = docs; word_delta = words } ∷ []
accumulate cf keynr docs words (e ∷ pending) =
    let rest = accumulate cf keynr docs words pending in
    if e.data_cf == cf && e.keynr == keynr
    then record e {
      doc_delta = (e.doc_delta + docs) % 2 ^ 64;
      word_delta = (e.word_delta + words) % 2 ^ 64;
    }
      ∷ pending
    else e ∷ rest

unfoldable pub trx_fts_meta_accumulate : ℕ → ℕ → ℕ → ℕ → Trx → Trx
unfolding accumulate
trx_fts_meta_accumulate cf keynr docs words trx = record trx {
  fts_meta_pending = accumulate cf keynr docs words trx.fts_meta_pending;
  fts_meta_dirty = true;
}

module _ (L : Library) where
  open L use {Db, call, get}

  -- The code and the totals, with the state behind the read.
  unfoldable pub fts_load_meta : ℕ → ℕ → ℕ → Db → Rc × (ℕ × ℕ) × Db
  unfolding meta_key loaded_totals
  fts_load_meta h cf keynr db =
      let (rc, value, db') = get h cf (meta_key keynr) db in
      (rc, loaded_totals (is_success rc) (decode_meta_value value), db')

  unfoldable pub fts_update_meta : ℕ → FtsMetaDelta → Db → Rc × Db
  unfolding fts_load_meta add_clamped
  fts_update_meta h e db =
      let (rc, totals, db') = fts_load_meta h e.data_cf e.keynr db in
      if is_success rc || is_not_found rc
      then call h
          (put e.data_cf (meta_key e.keynr) (
            encode_meta_value (add_clamped totals.0 e.doc_delta)
              (add_clamped totals.1 e.word_delta)))
          db'
      else (rc, db')

  -- The loop, which ends at the first failure.
  unfoldable pub flush_entries : ℕ → List FtsMetaDelta → Db → Rc × Db
  flush_entries h [] db = (success, db)
  flush_entries h (e ∷ pending) db =
      let (rc, db') = fts_update_meta h e db in
      let rest = flush_entries h pending db' in if is_success rc then rest else (rc, db')

  -- `h` is `trx->txn`, which the callers have tested.
  unfoldable pub flush_trx_fts_meta_pending : ℕ → Trx → Db → Rc × Trx × Db
  unfolding flush_entries
  flush_trx_fts_meta_pending h trx db =
      let cleared = record trx { fts_meta_pending = []; fts_meta_dirty = false } in
      let (rc, db') = flush_entries h trx.fts_meta_pending db in
      if not trx.fts_meta_dirty then (success, cleared, db) else (rc, cleared, db')

-- What the pending deltas add to the totals of one index.
unfoldable pub pending_docs : ℕ → ℕ → List FtsMetaDelta → ℕ
pending_docs cf keynr [] = 0
pending_docs cf keynr (e ∷ pending) =
    let rest = pending_docs cf keynr pending in
    if e.data_cf == cf && e.keynr == keynr then (e.doc_delta + rest) % 2 ^ 64 else rest
