-- ===== src/Txn/Protocol/Handed.antt =====
-- What a prepare makes of the handle that a connection holds: whether it is kept, handed to the
-- registry or freed, by the code that it answers.
use tidesql_mysql.Txn.{is_success, HaRc, done, Library, Trx, Thd, Shared, prepare}
use tidesql_mysql.Txn.FtsMeta.{flush_trx_fts_meta_pending}
use tidesql_mysql.Txn.Savepoints.{stmt_savepoint_disarm, handle_of}
use tidesql_mysql.Txn.Prepare.{is_xa_prepare, publish, prepare_flushed, prepare_dirty, prepare_all}
use tidesql_mysql.Txn.Prepare.{prepare_on, tidesdb_prepare}
use tidesql_mysql.Txn.Protocol.{Txns}
use tidesql_mysql.Txn.Protocol.Lawful.{IsLawful}
use tidesql_mysql.Txn.Protocol.Ownership.{held, IsOwned, entry, connection_live, Moves-IsOwned}
use tidesql_mysql.Txn.Protocol.Handle.{disarm-txn, flush-txn}
use tidesql_mysql.Txn.Protocol.Sharing.{tidesdb_prepare-Moves}
use tidesql_mysql.Xid.{xid_key}
use tidesql_mysql.Xid.Recovery.{set_entry}
use tidesql_mysql.Base.{ℕ}
use tidesql_mysql.Base.{◌≡◌, refl, sym, ◌∙◌, ◌≢◌, ◌⊎◌, inl, inr}
use tidesql_mysql.Base.{Bool, true, false, ◌&&◌, Option, none, some}
use tidesql_mysql.Base.{if◌then◌else◌}
use tidesql_mysql.Base.{Bool-cases}
use tidesql_mysql.Base.Bytes.{Bytes, equal, equal_iff}
use mathlib.Core.Path.{subst}
use tidesql_mysql.Txn.Protocol.Settled.{free-dead}
use tidesql_mysql.Txn.Protocol.Settled.{rc_to_ha-failed}

module _ (L : Library) (lawful : IsLawful L) where
  open L use {Db, call, free}
  open lawful use {live}

  -- What a prepare answers and leaves; `handed` is whether success hands the handle over.
  abbrev Prepared : ℕ → Bytes → Bool → Txns → HaRc × Trx × Shared Db → Type 0
  Prepared h key handed t (rc, trx, s) =
      ((rc ≡ done)
        × (handed ≡ true)
        × (trx.txn ≡ none)
        × ((k : Bytes) → s.txns k ≡ (if equal k key then some h else t k)))
      ⊎ ((rc ≡ done) × (handed ≡ false) × (trx.txn ≡ some h) × (s.txns ≡ t))
      ⊎ ((rc ≢ done) × (trx.txn ≡ none) × (s.txns ≡ t) × (live s.db h ≡ false))

  publish-Prepared :
      (b : Bool) (key : Bytes) (h : ℕ) (trx : Trx) (s : Shared Db)
      → trx.txn ≡ some h
      → Prepared h key b s.txns (done, (publish L b key h trx s).0, (publish L b key h trx s).1)
  unfolding publish set_entry
  publish-Prepared true key h trx s e = inl (refl, refl, refl, λ k. refl)
  publish-Prepared false key h trx s e = inr (inl (refl, refl, e, refl))

  prepare_flushed-Prepared :
      (h : ℕ) (thd : Thd) (trx : Trx) (s : Shared Db)
      → trx.txn ≡ some h
      → Prepared h
          (xid_key thd.xid)
          (is_xa_prepare thd.sql_command)
          s.txns
          (prepare_flushed L h thd trx s)
  unfolding prepare_flushed
  prepare_flushed-Prepared h thd trx s e =
      elim (Bool-cases (is_success (call h (prepare (xid_key thd.xid)) s.db).0)) [
        | inl c ↦ rw c (
            publish-Prepared (is_xa_prepare thd.sql_command) (xid_key thd.xid) h trx
              (record s { db = (call h (prepare (xid_key thd.xid)) s.db).1 }) e)
        | inr c ↦ rw c (
            inr (
              inr (
                rc_to_ha-failed (call h (prepare (xid_key thd.xid)) s.db).0 c,
                refl,
                refl,
                free-dead L lawful h _,
              )))
      ]

  prepare_dirty-Prepared :
      (h : ℕ) (thd : Thd) (trx : Trx) (s : Shared Db)
      → trx.txn ≡ some h
      → Prepared h
          (xid_key thd.xid)
          (is_xa_prepare thd.sql_command)
          s.txns
          (prepare_dirty L h thd trx s)
  unfolding prepare_dirty
  prepare_dirty-Prepared h thd trx s e =
      elim (Bool-cases (is_success (flush_trx_fts_meta_pending L h trx s.db).0)) [
        | inl c ↦ rw c (
            prepare_flushed-Prepared h thd (flush_trx_fts_meta_pending L h trx s.db).1
              (record s { db = (flush_trx_fts_meta_pending L h trx s.db).2 })
              (flush-txn L h trx s.db ∙ e))
        | inr c ↦ rw c (
            inr (
              inr (
                rc_to_ha-failed (flush_trx_fts_meta_pending L h trx s.db).0 c,
                refl,
                refl,
                free-dead L lawful h _,
              )))
      ]

  prepare_all-Prepared :
      (h : ℕ) (thd : Thd) (trx : Trx) (s : Shared Db)
      → trx.txn ≡ some h
      → Prepared h
          (xid_key thd.xid)
          (is_xa_prepare thd.sql_command)
          s.txns
          (prepare_all L h thd trx s)
  unfolding prepare_all
  prepare_all-Prepared h thd trx s e = elim (Bool-cases disarmed.dirty) [
    | inl b ↦ rw b (prepare_dirty-Prepared h thd disarmed s' kept)
    | inr b ↦ elim (Bool-cases (is_xa_prepare thd.sql_command)) [
      | inl x ↦ rw (b, x) (rw x at (prepare_flushed-Prepared h thd disarmed s' kept))
      | inr x ↦ rw (b, x) (inr (inl (refl, refl, kept, refl)))
    ]
  ]
    where
      disarmed : Trx
      disarmed = (stmt_savepoint_disarm L h trx s.db).0

      s' : Shared Db
      s' = record s { db = (stmt_savepoint_disarm L h trx s.db).1 }

      kept : disarmed.txn ≡ some h
      kept = disarm-txn L h trx s.db ∙ e

  prepare_held :
      (all : Bool) (h : ℕ) (thd : Thd) (trx : Trx) (s : Shared Db)
      → trx.txn ≡ some h
      → Prepared h
          (xid_key thd.xid)
          (all && is_xa_prepare thd.sql_command)
          s.txns
          (prepare_on L (some h) all thd trx s)
  unfolding prepare_on
  prepare_held true h thd trx s e = prepare_all-Prepared h thd trx s e
  prepare_held false h thd trx s e = inr (inl (refl, refl, e, refl))

  -- What a prepare answers and leaves, with the structure of the connection.
  abbrev pub PrepareSettles : ℕ → Bytes → Bool → Txns → HaRc × Option Trx × Shared Db → Type 0
  PrepareSettles h key handed t (rc, out, s) =
      (trx : Trx) × (out ≡ some trx)
      × (((rc ≡ done)
            × (handed ≡ true)
            × (trx.txn ≡ none)
            × ((k : Bytes) → s.txns k ≡ (if equal k key then some h else t k))
            × (live s.db h ≡ true))
          ⊎ ((rc ≡ done)
              × (handed ≡ false)
              × (trx.txn ≡ some h)
              × (s.txns ≡ t)
              × (live s.db h ≡ true))
          ⊎ ((rc ≢ done) × (trx.txn ≡ none) × (s.txns ≡ t) × (live s.db h ≡ false)))

  entry_live :
      (others : ℕ → Option ℕ) (key : Bytes) (h : ℕ) (x : Option ℕ) (s : Shared Db)
      → s.txns key ≡ some h
      → IsOwned L lawful (held x s.txns others) s.db
      → live s.db h ≡ true
  unfolding IsOwned held
  entry_live others key h x s e (sane, lives, alone) = lives (entry key) h e

  prepare_settled :
      (others : ℕ → Option ℕ) (key : Bytes) (handed : Bool) (t : Txns) (h : ℕ) (rc : HaRc)
      (trx : Trx) (s : Shared Db)
      → Prepared h key handed t (rc, trx, s)
      → IsOwned L lawful (held trx.txn s.txns others) s.db
      → PrepareSettles h key handed t (rc, some trx, s)
  prepare_settled others key handed t h rc trx s (inl (ok, b, gone, entries)) owned = (
    trx,
    refl,
    inl (
      ok,
      b,
      gone,
      entries,
      entry_live others key h trx.txn s (entries key ∙ rw ((equal_iff key key).1 refl) refl) owned,
    ),
  )
  prepare_settled others key handed t h rc trx s (inr (inl (ok, b, kept, same))) owned = (
    trx,
    refl,
    inr (
        inl (
          ok,
          b,
          kept,
          same,
          connection_live L lawful others h s.txns s.db
              (subst (λ x. IsOwned L lawful (held x s.txns others) s.db) kept owned),
        )),
  )
  prepare_settled others key handed t h rc trx s (inr (inr failed)) owned =
      (trx, refl, inr (inr failed))

  -- For a prepare of a connection that holds a handle, an XA PREPARE of the whole transaction that
  -- succeeds hands the handle, live, to the registry under the key of its XID and leaves every
  -- other entry; another prepare that succeeds leaves it with the connection, live, and the
  -- registry as it was; and one that fails leaves the connection none, with the library's no
  -- longer live and the registry as it was. The handles were owned before, and the library does
  -- what it documents.
  pub tidesdb_prepare-settles :
      (others : ℕ → Option ℕ) (all : Bool) (thd : Thd) (trx : Trx) (s : Shared Db) (h : ℕ)
      → trx.txn ≡ some h
      → IsOwned L lawful (held trx.txn s.txns others) s.db
      → PrepareSettles h
          (xid_key thd.xid)
          (all && is_xa_prepare thd.sql_command)
          s.txns
          (tidesdb_prepare L all thd (some trx) s)
  unfolding tidesdb_prepare
  tidesdb_prepare-settles others all thd trx s h e owned =
      prepare_settled others (xid_key thd.xid) (all && is_xa_prepare thd.sql_command) s.txns h
        (prepare_on L trx.txn all thd trx s).0 (prepare_on L trx.txn all thd trx s).1
        (prepare_on L trx.txn all thd trx s).2
        (subst
          (λ x.
            Prepared h (xid_key thd.xid) (all && is_xa_prepare thd.sql_command) s.txns
              (prepare_on L x all thd trx s))
          (sym e) (prepare_held all h thd trx s e))
        (unfold handle_of in
          Moves-IsOwned L lawful others (tidesdb_prepare-Moves L all thd (some trx) s) owned)
