-- ===== src/Txn/Protocol/Serving.antt =====
-- The work in transactions of their own, and the resolution of a registered one by its XID.
use tidesql_mysql.Txn.{is_success, Library, Call, Shared}
use tidesql_mysql.Txn.{commit_prepared, rollback_prepared, commit, rollback, put, delete}
use tidesql_mysql.Txn.Prepare.{resolve_by_xid, commit_by_xid}
use tidesql_mysql.Txn.Prepare.{rollback_by_xid}
use tidesql_mysql.Txn.Coordinator.{
  or_created, xa_tc_cf, xa_tc_cf_name, in_own_txn, clear_in, xa_tc_clear, mark_in, xa_tc_mark,
  recover_in, recover_prepared_in_tc,
}
use tidesql_mysql.Txn.Protocol.{
  Txns, Moves, stop, seq, called, scanned, began, not_begun, freed, handed, taken, opened, created,
}
use tidesql_mysql.Xid.{Xid, xid_key, xa_tc_encode, TableNames}
use tidesql_mysql.Xid.Recovery.{set_entry}
use tidesql_mysql.Base.{ℕ}
use tidesql_mysql.Base.{◌≡◌, refl, inl, inr}
use tidesql_mysql.Base.{Option, none, some}
use tidesql_mysql.Base.{[], ◌∷◌}
use tidesql_mysql.Base.{Bool-cases}
use tidesql_mysql.Base.Bytes.{Bytes}

module _ (L : Library) where
  open L use {Db, call, free, begin, create_column_family, get_column_family}

  -- An operation of a connection without a handle that leaves it none.
  abbrev pub Serves : Db → Db → Type 0
  Serves d e = (t : Txns) → Moves L none d t none e t

  own_txn-Serves : (c : Call) (d : Db) → Serves d (in_own_txn L c d).1
  unfolding in_own_txn
  own_txn-Serves c d t = elim (Bool-cases (is_success (begin d).0)) [
    | inr b ↦ rw b (not_begun b)
    | inl b ↦ elim (Bool-cases (is_success (call (begin d).1 c (begin d).2).0)) [
      | inl s ↦
          rw (b, s)
            (seq (began b)
              (seq (called (begin d).1 c) (seq (called (begin d).1 commit) (freed (begin d).1))))
      | inr s ↦
          rw (b, s)
            (seq (began b)
              (seq (called (begin d).1 c) (seq (called (begin d).1 rollback) (freed (begin d).1))))
    ]
  ]

  or_created-Serves : (cf : Option ℕ) (d : Db) → Serves d (or_created L cf d).1
  unfolding or_created
  or_created-Serves (some cf) d t = stop refl
  or_created-Serves none d t =
      elim (Bool-cases (is_success (create_column_family xa_tc_cf_name d).0)) [
        | inl c ↦ rw c (seq (created xa_tc_cf_name) (opened xa_tc_cf_name))
        | inr c ↦ rw c (created xa_tc_cf_name)
      ]

  xa_tc_cf-Serves : (d : Db) → Serves d (xa_tc_cf L d).1
  unfolding xa_tc_cf
  xa_tc_cf-Serves d t = seq (opened xa_tc_cf_name) (
      or_created-Serves (get_column_family xa_tc_cf_name d).0 (get_column_family xa_tc_cf_name d).1
        t)

  clear_in-Serves : (cf : Option ℕ) (key : Bytes) (d : Db) → Serves d (clear_in L cf key d)
  unfolding clear_in
  clear_in-Serves none key d t = stop refl
  clear_in-Serves (some cf) [] d t = stop refl
  clear_in-Serves (some cf) (c ∷ key) d t = own_txn-Serves (delete cf (c ∷ key)) d t

  mark_in-Serves :
      (cf : Option ℕ) (key : Bytes) (tables : TableNames) (d : Db)
      → Serves d (mark_in L cf key tables d).1
  unfolding mark_in
  mark_in-Serves none key tables d t = stop refl
  mark_in-Serves (some cf) key tables d t = own_txn-Serves (put cf key (xa_tc_encode tables)) d t

  xa_tc_clear-Serves : (key : Bytes) (d : Db) → Serves d (xa_tc_clear L key d)
  unfolding xa_tc_clear
  xa_tc_clear-Serves key d t =
      seq (xa_tc_cf-Serves d t) (clear_in-Serves (xa_tc_cf L d).0 key (xa_tc_cf L d).1 t)

  recover_in-Serves :
      (cf : Option ℕ) (tables : Bytes → Option TableNames) (d : Db)
      → Serves d (recover_in L cf tables d).1
  unfolding recover_in
  recover_in-Serves none tables d t = stop refl
  recover_in-Serves (some cf) tables d t = elim (Bool-cases (is_success (begin d).0)) [
    | inr b ↦ rw b (not_begun b)
    | inl b ↦ rw b (
        seq (began b)
          (seq (scanned (begin d).1 cf) (seq (called (begin d).1 rollback) (freed (begin d).1))))
  ]

  pub recover_prepared_in_tc-Serves :
      (tables : Bytes → Option TableNames) (d : Db) → Serves d (recover_prepared_in_tc L tables d).1
  unfolding recover_prepared_in_tc
  recover_prepared_in_tc-Serves tables d t =
      seq (xa_tc_cf-Serves d t) (recover_in-Serves (xa_tc_cf L d).0 tables (xa_tc_cf L d).1 t)

  pub xa_tc_mark-Serves :
      (key : Bytes) (tables : TableNames) (d : Db) → Serves d (xa_tc_mark L key tables d).1
  unfolding xa_tc_mark
  xa_tc_mark-Serves key tables d t =
      seq (xa_tc_cf-Serves d t) (mark_in-Serves (xa_tc_cf L d).0 key tables (xa_tc_cf L d).1 t)

  resolve-Serves :
      (end : Call) (key : Bytes) (x : Option ℕ) (s : Shared Db)
      → s.txns key ≡ x
      → Moves L none s.db s.txns none
          (resolve_by_xid L end key x s).1.db
          (resolve_by_xid L end key x s).1.txns
  unfolding resolve_by_xid
  resolve-Serves end key none s e = stop refl
  resolve-Serves end key (some h) s e = elim (Bool-cases (is_success (call h end s.db).0)) [
    | inl c ↦ rw c (
        seq first (
          seq (freed h)
            (xa_tc_clear-Serves key (free h (call h end s.db).1) (set_entry key none s.txns))))
    | inr c ↦ rw c (seq first (handed h key))
  ]
    where
      first : Moves L none s.db s.txns (some h) (call h end s.db).1 (set_entry key none s.txns)
      first = seq (taken key e) (called h end)

  -- The ends of a prepared transaction by XID make moves of the protocol.
  pub resolve_by_xid-Moves :
      (xid : Xid) (s : Shared Db)
      → Moves L none s.db s.txns none (commit_by_xid L xid s).1.db (commit_by_xid L xid s).1.txns
        × Moves L none s.db s.txns none
            (rollback_by_xid L xid s).1.db
            (rollback_by_xid L xid s).1.txns
  unfolding commit_by_xid rollback_by_xid
  resolve_by_xid-Moves xid s = (
    resolve-Serves commit_prepared (xid_key xid) (s.txns (xid_key xid)) s refl,
    resolve-Serves rollback_prepared (xid_key xid) (s.txns (xid_key xid)) s refl,
  )
