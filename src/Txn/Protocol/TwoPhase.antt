-- ===== src/Txn/Protocol/TwoPhase.antt =====
-- The two phases of a transaction together: XA PREPARE on a connection, then its end by XID on any.
use tidesql_mysql.Txn.{is_success, done, Library, Trx, Thd, Shared, Call, xa_prepare}
use tidesql_mysql.Txn.{commit_prepared, rollback_prepared, commit, rollback, delete}
use tidesql_mysql.Txn.Prepare.{
  tidesdb_prepare, resolve_by_xid, commit_by_xid, rollback_by_xid, XaStatus, xa_ok, xaer_rmerr,
  is_xa_prepare,
}
use tidesql_mysql.Txn.Coordinator.{
  or_created, xa_tc_cf, xa_tc_cf_name, in_own_txn, clear_in, xa_tc_clear,
}
use tidesql_mysql.Txn.Protocol.Lawful.{IsLawful}
use tidesql_mysql.Txn.Protocol.Ownership.{held, IsOwned, true_or_false}
use tidesql_mysql.Txn.Protocol.Handed.{tidesdb_prepare-settles, PrepareSettles}
use tidesql_mysql.Xid.{xid_key}
use tidesql_mysql.Xid.Recovery.{set_entry}
use tidesql_mysql.Base.{ℕ}
use tidesql_mysql.Base.{◌≡◌, refl, sym, ap, ◌∙◌, ◌⊎◌, inl, inr}
use tidesql_mysql.Base.{Bool, true, false, ◌&&◌, Option, none, some}
use tidesql_mysql.Base.{[], ◌∷◌}
use tidesql_mysql.Base.{◌==◌, if◌then◌else◌, ==_iff}
use tidesql_mysql.Base.{Bool-cases}
use tidesql_mysql.Base.Bytes.{Bytes, equal, equal_iff}
use mathlib.Core.Path.{subst}

module _ (L : Library) (lawful : IsLawful L) where
  open L use {Db, begin, call, free, get_column_family, create_column_family}
  open lawful use {live}

  -- A handle that is not live is not live after the work in a transaction of its own.
  own_txn-dead :
      (c : Call) (d : Db) (k : ℕ) → live d k ≡ false → live (in_own_txn L c d).1 k ≡ false
  unfolding in_own_txn
  own_txn-dead c d k dead = elim (Bool-cases (is_success (begin d).0)) [
    | inr b ↦ rw b (lawful.begin-failed d b k ∙ dead)
    | inl b ↦ elim (Bool-cases (is_success (call (begin d).1 c (begin d).2).0)) [
      | inl s ↦ rw (b, s) (ended b commit)
      | inr s ↦ rw (b, s) (ended b rollback)
    ]
  ]
    where
      cases : (x : Bool) → (if x then false else (if x then true else live d k)) ≡ false
      cases true = refl
      cases false = dead

      ended :
          is_success (begin d).0 ≡ true
          → (last : Call)
          → live (free (begin d).1 (call (begin d).1 last (call (begin d).1 c (begin d).2).1).1) k
            ≡ false
      ended b last =
          lawful.free-live (begin d).1 (call (begin d).1 last (call (begin d).1 c (begin d).2).1).1
            k
          ∙ ap (λ (x : Bool). if k == (begin d).1 then false else x)
              (lawful.call-live (begin d).1 last (call (begin d).1 c (begin d).2).1 k
                ∙ lawful.call-live (begin d).1 c (begin d).2 k
                ∙ lawful.begin-live d b k)
          ∙ cases (k == (begin d).1)

  or_created-live : (cf : Option ℕ) (d : Db) (k : ℕ) → live (or_created L cf d).1 k ≡ live d k
  unfolding or_created
  or_created-live (some cf) d k = refl
  or_created-live none d k =
      elim (Bool-cases (is_success (create_column_family xa_tc_cf_name d).0)) [
        | inl c ↦ rw c (
            lawful.get_column_family-live xa_tc_cf_name (create_column_family xa_tc_cf_name d).1 k
            ∙ lawful.create_column_family-live xa_tc_cf_name d k)
        | inr c ↦ rw c (lawful.create_column_family-live xa_tc_cf_name d k)
      ]

  clear_in-dead :
      (cf : Option ℕ) (key : Bytes) (d : Db) (k : ℕ)
      → live d k ≡ false
      → live (clear_in L cf key d) k ≡ false
  unfolding clear_in
  clear_in-dead none key d k dead = dead
  clear_in-dead (some cf) [] d k dead = dead
  clear_in-dead (some cf) (c ∷ key) d k dead = own_txn-dead (delete cf (c ∷ key)) d k dead

  xa_tc_clear-dead :
      (key : Bytes) (d : Db) (k : ℕ) → live d k ≡ false → live (xa_tc_clear L key d) k ≡ false
  unfolding xa_tc_clear xa_tc_cf
  xa_tc_clear-dead key d k dead =
      clear_in-dead (or_created L opened.0 opened.1).0 key (or_created L opened.0 opened.1).1 k (
        or_created-live opened.0 opened.1 k
        ∙ lawful.get_column_family-live xa_tc_cf_name d k
        ∙ dead)
    where
      opened : Option ℕ × Db
      opened = get_column_family xa_tc_cf_name d

  -- How the end of a registered transaction turns out, against a registry without its entry.
  abbrev pub EndsPrepared :
      Call → Bytes → ℕ → Db → (Bytes → Option ℕ) → XaStatus × Shared Db → Type 0
  EndsPrepared end key h d t (status, s') =
      ((is_success (call h end d).0 ≡ true)
        × (status ≡ xa_ok)
        × (live s'.db h ≡ false)
        × ((k : Bytes) → s'.txns k ≡ (if equal k key then none else t k)))
      ⊎ ((is_success (call h end d).0 ≡ false)
          × (status ≡ xaer_rmerr)
          × (live s'.db h ≡ true)
          × ((k : Bytes) → s'.txns k ≡ (if equal k key then some h else t k)))

  ends_prepared :
      (end : Call) (key : Bytes) (h : ℕ) (s : Shared Db) (t : Bytes → Option ℕ)
      → live s.db h ≡ true
      → ((k : Bytes) → s.txns k ≡ (if equal k key then some h else t k))
      → EndsPrepared end key h s.db t (resolve_by_xid L end key (some h) s)
  unfolding resolve_by_xid set_entry
  ends_prepared end key h s t alive entries = elim (Bool-cases (is_success (call h end s.db).0)) [
    | inl c ↦ rw c (
        inl (
          refl,
          refl,
          xa_tc_clear-dead key (free h (call h end s.db).1) h
              (lawful.free-live h (call h end s.db).1 h ∙ rw ((==_iff h h).1 refl) refl),
          λ k. ap (λ x. if equal k key then none else x) (entries k) ∙ without (equal k key) (t k),
        ))
    | inr c ↦ rw c (
        inr (
          refl,
          refl,
          lawful.call-live h end s.db h ∙ alive,
          λ k.
              ap (λ x. if equal k key then some h else (if equal k key then none else x))
                (entries k)
              ∙ back (equal k key) (t k),
        ))
  ]
    where
      without :
          (b : Bool) (x : Option ℕ)
          → (if b then none else (if b then some h else x)) ≡ (if b then none else x)
      without true x = refl
      without false x = refl

      back :
          (b : Bool) (x : Option ℕ)
          → (if b then some h else (if b then none else (if b then some h else x)))
            ≡ (if b then some h else x)
      back true x = refl
      back false x = refl

  resolve_registered :
      (end : Call) (key : Bytes) (h : ℕ) (s : Shared Db) (t : Bytes → Option ℕ)
      → live s.db h ≡ true
      → ((k : Bytes) → s.txns k ≡ (if equal k key then some h else t k))
      → EndsPrepared end key h s.db t (resolve_by_xid L end key (s.txns key) s)
  resolve_registered end key h s t alive entries =
      subst (λ x. EndsPrepared end key h s.db t (resolve_by_xid L end key x s))
        (sym (entries key ∙ rw ((equal_iff key key).1 refl) refl))
        (ends_prepared end key h s t alive entries)

  -- After an XA PREPARE of the whole transaction that succeeded, a commit and a rollback by its
  -- XID end the transaction that the connection had. Where the library ends it, the answer is
  -- XA_OK, the handle is no longer live and the registry is as before the prepare, without an
  -- entry of that XID; where the library refuses, the answer is the error, the handle is live and
  -- registered under the XID, and the other entries are as before the prepare. The handles were
  -- owned before the prepare, and the library does what it documents.
  pub by_xid-tidesdb_prepare :
      (others : ℕ → Option ℕ) (thd : Thd) (trx : Trx) (s : Shared Db) (h : ℕ)
      → trx.txn ≡ some h
      → IsOwned L lawful (held trx.txn s.txns others) s.db
      → thd.sql_command ≡ xa_prepare
      → (tidesdb_prepare L true thd (some trx) s).0 ≡ done
      → let s' = (tidesdb_prepare L true thd (some trx) s).2 in
        EndsPrepared commit_prepared (xid_key thd.xid) h s'.db s.txns (commit_by_xid L thd.xid s')
        × EndsPrepared rollback_prepared
            (xid_key thd.xid)
            h
            s'.db
            s.txns
            (rollback_by_xid L thd.xid s')
  unfolding commit_by_xid rollback_by_xid
  by_xid-tidesdb_prepare others thd trx s h e owned xa ok =
      ends (tidesdb_prepare-settles L lawful others true thd trx s h e owned)
    where
      s' : Shared Db
      s' = (tidesdb_prepare L true thd (some trx) s).2

      key : Bytes
      key = xid_key thd.xid

      is_xa : (true && is_xa_prepare thd.sql_command) ≡ true
      is_xa = rw xa refl

      ends :
          PrepareSettles L lawful h key
            (true && is_xa_prepare thd.sql_command)
            s.txns
            (tidesdb_prepare L true thd (some trx) s)
          → EndsPrepared commit_prepared key h s'.db s.txns
              (resolve_by_xid L commit_prepared key (s'.txns key) s')
            × EndsPrepared rollback_prepared key h s'.db s.txns
                (resolve_by_xid L rollback_prepared key (s'.txns key) s')
      ends (trx', out, inl (_, _, gone, entries, alive)) = (
        resolve_registered commit_prepared key h s' s.txns alive entries,
        resolve_registered rollback_prepared key h s' s.txns alive entries,
      )
      ends (trx', out, inr (inl (_, other, _, _, _))) = absurd (true_or_false (sym is_xa ∙ other))
      ends (trx', out, inr (inr (failed, _, _, _))) = absurd (failed ok)
