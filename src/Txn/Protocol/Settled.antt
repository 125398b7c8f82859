-- ===== src/Txn/Protocol/Settled.antt =====
-- What a commit makes of the handle that a connection holds: whether it is kept or freed, by the code
-- that it answers.
use tidesql_mysql.Txn.{
  Rc, success, conflict, txn_aborted, txn_expired, locked, memory_limit, memory, not_found,
}
use tidesql_mysql.Txn.{
  exists, readonly, io, corruption, too_large, invalid_db, invalid_args, unknown, other_rc,
}
use tidesql_mysql.Txn.{is_success, HaRc, done, rc_to_ha, Library, Trx, Thd, Shared}
use tidesql_mysql.Txn.FtsMeta.{flush_trx_fts_meta_pending}
use tidesql_mysql.Txn.Savepoints.{stmt_savepoint_disarm, handle_of}
use tidesql_mysql.Txn.Resolve.{txn_commit_stateful, finish_commit, commit_dirty}
use tidesql_mysql.Txn.Resolve.{
  commit_clean, drop_entry, finalize_commit, drop_prepared_entry, is_real, commit_on,
  tidesdb_commit,
}
use tidesql_mysql.Txn.Protocol.{Txns}
use tidesql_mysql.Txn.Protocol.Lawful.{IsLawful}
use tidesql_mysql.Txn.Protocol.Ownership.{held, IsOwned, connection_live, Moves-IsOwned}
use tidesql_mysql.Txn.Protocol.Handle.{disarm-txn, flush-txn}
use tidesql_mysql.Txn.Protocol.Commit.{tidesdb_commit-Moves}
use tidesql_mysql.Base.{ℕ}
use tidesql_mysql.Base.{◌≡◌, refl, sym, ◌∙◌, ◌≢◌, ◌⊎◌, inl, inr}
use tidesql_mysql.Base.{Bool, true, false, Option, none, some}
use tidesql_mysql.Base.{[]}
use tidesql_mysql.Base.{if◌then◌else◌, ==_iff}
use tidesql_mysql.Base.{Bool-cases}
use mathlib.Core.Path.{subst}

-- A failure of the library is none of the handler's success.
pub rc_to_ha-failed : (rc : Rc) → is_success rc ≡ false → rc_to_ha rc ≢ done
unfolding rc_to_ha
rc_to_ha-failed success f e = cc
rc_to_ha-failed conflict f e = cc
rc_to_ha-failed txn_aborted f e = cc
rc_to_ha-failed txn_expired f e = cc
rc_to_ha-failed locked f e = cc
rc_to_ha-failed memory_limit f e = cc
rc_to_ha-failed memory f e = cc
rc_to_ha-failed not_found f e = cc
rc_to_ha-failed exists f e = cc
rc_to_ha-failed readonly f e = cc
rc_to_ha-failed io f e = cc
rc_to_ha-failed corruption f e = cc
rc_to_ha-failed too_large f e = cc
rc_to_ha-failed invalid_db f e = cc
rc_to_ha-failed invalid_args f e = cc
rc_to_ha-failed unknown f e = cc
rc_to_ha-failed other_rc f e = cc

module _ (L : Library) (lawful : IsLawful L) where
  open L use {Db, call, free}
  open lawful use {live}

  pub free-dead : (h : ℕ) (d : Db) → live (free h d) h ≡ false
  free-dead h d = lawful.free-live h d h ∙ rw ((==_iff h h).1 refl) refl

  -- A commit that fails leaves no handle and has freed the one there was.
  abbrev Lost : ℕ → HaRc → Trx → Db → Type 0
  Lost h rc trx d = (rc ≢ done) × (trx.txn ≡ none) × (live d h ≡ false)

  abbrev pub IsOver : Trx → Type 0
  IsOver trx = (trx.dirty ≡ false) × (trx.needs_reset ≡ true) × (trx.stmt_savepoint_active ≡ false)

  abbrev Ended : ℕ → HaRc × Trx × Db → Type 0
  Ended h (rc, trx, d) = ((rc ≡ done) × (trx.txn ≡ some h) × IsOver trx) ⊎ Lost h rc trx d

  finish_commit-Ended :
      (h : ℕ) (trx : Trx) (d : Db) → trx.txn ≡ some h → Ended h (finish_commit L h trx d)
  unfolding finish_commit
  finish_commit-Ended h trx d e = elim (Bool-cases (is_success (txn_commit_stateful L h d).0)) [
    | inl s ↦ rw s (inl (refl, e, (refl, refl, refl)))
    | inr s ↦ rw s (inr (rc_to_ha-failed (txn_commit_stateful L h d).0 s, refl, free-dead h _))
  ]

  commit_dirty-Ended :
      (h : ℕ) (trx : Trx) (d : Db) → trx.txn ≡ some h → Ended h (commit_dirty L h trx d)
  unfolding commit_dirty
  commit_dirty-Ended h trx d e =
      elim (Bool-cases (is_success (flush_trx_fts_meta_pending L h trx d).0)) [
        | inl s ↦ rw s (
            finish_commit-Ended h (flush_trx_fts_meta_pending L h trx d).1
              (flush_trx_fts_meta_pending L h trx d).2 (flush-txn L h trx d ∙ e))
        | inr s ↦
            rw s (
              inr (rc_to_ha-failed (flush_trx_fts_meta_pending L h trx d).0 s, refl, free-dead h _))
      ]

  commit_either-Ended :
      (b : Bool) (h : ℕ) (trx : Trx) (d : Db)
      → trx.txn ≡ some h
      → Ended h (if b then commit_dirty L h trx d else commit_clean L h trx d)
  unfolding commit_clean
  commit_either-Ended true h trx d e = commit_dirty-Ended h trx d e
  commit_either-Ended false h trx d e = inl (refl, e, (refl, refl, refl))

  -- What a commit answers and leaves, for a connection that holds the handle.
  abbrev Committed : ℕ → Bool → HaRc × Trx × Shared Db → Type 0
  Committed h real (rc, trx, s) =
      ((rc ≡ done) × (trx.txn ≡ some h) × (real ≡ true → IsOver trx)) ⊎ Lost h rc trx s.db

  finalize_commit-Ended :
      (h : ℕ) (trx : Trx) (s : Shared Db)
      → trx.txn ≡ some h
      → Committed h true (finalize_commit L h trx s)
  unfolding finalize_commit drop_prepared_entry
  finalize_commit-Ended h trx s e =
      whole
        (if disarmed.dirty
          then commit_dirty L h dropped (stmt_savepoint_disarm L h trx s.db).1
          else commit_clean L h dropped (stmt_savepoint_disarm L h trx s.db).1)
        (drop_entry disarmed.prepared_xid s.txns)
        (commit_either-Ended disarmed.dirty h dropped (stmt_savepoint_disarm L h trx s.db).1
          (disarm-txn L h trx s.db ∙ e))
    where
      disarmed : Trx
      disarmed = (stmt_savepoint_disarm L h trx s.db).0

      dropped : Trx
      dropped = record disarmed { prepared_xid = [] }

      whole :
          (out : HaRc × Trx × Db) (txns : Txns)
          → Ended h out
          → Committed h true (out.0, out.1, record { db = out.2; txns = txns })
      whole out txns (inl (ok, kept, over)) = inl (ok, kept, λ r. over)
      whole out txns (inr lost) = inr lost

  commit_held :
      (all : Bool) (thd : Thd) (trx : Trx) (s : Shared Db) (h : ℕ)
      → trx.txn ≡ some h
      → Committed h (is_real all thd) (commit_on L (some h) all thd trx s)
  unfolding commit_on
  commit_held all thd trx s h e = elim (Bool-cases (is_real all thd)) [
    | inl r ↦ rw r (finalize_commit-Ended h trx s e)
    | inr r ↦ rw r (inl (refl, disarm-txn L h trx s.db ∙ e, λ q. absurd cc))
  ]

  -- What a commit answers and leaves, with the structure of the connection.
  abbrev pub CommitSettles : ℕ → Bool → HaRc × Option Trx × Shared Db → Type 0
  CommitSettles h real (rc, out, s) =
      (trx : Trx) × (out ≡ some trx)
      × (((rc ≡ done) × (trx.txn ≡ some h) × (live s.db h ≡ true) × (real ≡ true → IsOver trx))
          ⊎ ((rc ≢ done) × (trx.txn ≡ none) × (live s.db h ≡ false)))

  commit_settled :
      (others : ℕ → Option ℕ) (real : Bool) (h : ℕ) (rc : HaRc) (trx : Trx) (s : Shared Db)
      → Committed h real (rc, trx, s)
      → IsOwned L lawful (held trx.txn s.txns others) s.db
      → CommitSettles h real (rc, some trx, s)
  commit_settled others real h rc trx s (inl (ok, kept, over)) owned = (
    trx,
    refl,
    inl (
      ok,
      kept,
      connection_live L lawful others h s.txns s.db
          (subst (λ x. IsOwned L lawful (held x s.txns others) s.db) kept owned),
      over,
    ),
  )
  commit_settled others real h rc trx s (inr lost) owned = (trx, refl, inr lost)

  -- A commit of a connection that holds a handle either answers success, and the connection keeps
  -- the handle, live, and where the whole transaction ended is not dirty, has no statement
  -- savepoint and is due for a reset; or it answers an error, and the connection has no handle and
  -- the library's is no longer live. The handles were owned before, and the library does what it
  -- documents.
  pub tidesdb_commit-settles :
      (others : ℕ → Option ℕ) (all : Bool) (thd : Thd) (trx : Trx) (s : Shared Db) (h : ℕ)
      → trx.txn ≡ some h
      → IsOwned L lawful (held trx.txn s.txns others) s.db
      → CommitSettles h (is_real all thd) (tidesdb_commit L all thd (some trx) s)
  unfolding tidesdb_commit
  tidesdb_commit-settles others all thd trx s h e owned =
      commit_settled others (is_real all thd) h (commit_on L trx.txn all thd trx s).0
        (commit_on L trx.txn all thd trx s).1 (commit_on L trx.txn all thd trx s).2
        (subst (λ x. Committed h (is_real all thd) (commit_on L x all thd trx s)) (sym e)
          (commit_held all thd trx s h e))
        (unfold handle_of in
          Moves-IsOwned L lawful others (tidesdb_commit-Moves L all thd (some trx) s) owned)
