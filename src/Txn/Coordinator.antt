-- ===== src/Txn/Coordinator.antt =====
-- The record that a prepared transaction also reached the transaction coordinator, of
-- ha_tidesdb_txn.cc. The database is open.
use tidesql_mysql.Txn.{is_success, HaRc, done, internal_error, Library, Trx, Thd}
use tidesql_mysql.Txn.{Call, put, delete, commit, rollback}
use tidesql_mysql.Xid.{Xid, xid_key, xid_from_key, TableNames, xa_tc_encode, xa_tc_decode}
use tidesql_mysql.Xid.Recovery.{set_entry}
use tidesql_mysql.Base.{ℕ}
use tidesql_mysql.Base.{Bool, false, not, Option, none, some}
use tidesql_mysql.Base.{List, [], ◌∷◌, ◌++◌}
use tidesql_mysql.Base.{if◌then◌else◌}
use tidesql_mysql.Base.Bytes.{Bytes}

-- `TDB_XA_TC_CF_NAME`, "__tidesql_xa_tc".
abbrev pub xa_tc_cf_name : Bytes
xa_tc_cf_name =
    95 ∷ 95 ∷ 116 ∷ 105 ∷ 100 ∷ 101 ∷ 115 ∷ 113 ∷ 108 ∷ 95 ∷ 120 ∷ 97 ∷ 95 ∷ 116 ∷ 99 ∷ []

unfoldable pub moved_tables : Option Trx → TableNames
moved_tables none = []
moved_tables (some trx) = trx.prepared_mod_tables

unfoldable pub without_tables : Option Trx → Option Trx
without_tables none = none
without_tables (some trx) = some (record trx { prepared_mod_tables = [] })

unfoldable pub known_tables : Option TableNames → TableNames
known_tables none = []
known_tables (some tables) = tables

module _ (L : Library) where
  open L use {Db, begin, call, free, get_column_family, create_column_family}

  unfoldable pub or_created : Option ℕ → Db → Option ℕ × Db
  or_created (some cf) db = (some cf, db)
  or_created none db =
      let (rc, db') = create_column_family xa_tc_cf_name db in
      let created = get_column_family xa_tc_cf_name db' in
      if is_success rc then created else (none, db')

  unfoldable pub xa_tc_cf : Db → Option ℕ × Db
  unfolding or_created
  xa_tc_cf db = let (cf, db') = get_column_family xa_tc_cf_name db in or_created cf db'

  -- One operation in a transaction of its own: the answer is whether it was committed.
  unfoldable pub in_own_txn : Call → Db → Bool × Db
  in_own_txn operation db =
      let (began, h, db₁) = begin db in
      let (rc, db₂) = call h operation db₁ in
      let (crc, db₃) = call h commit db₂ in
      if not (is_success began)
      then (false, db₁)
      else if is_success rc
      then (is_success crc, free h db₃)
      else (false, free h (call h rollback db₂).1)

  unfoldable pub mark_in : Option ℕ → Bytes → TableNames → Db → Bool × Db
  unfolding in_own_txn
  mark_in none key tables db = (false, db)
  mark_in (some cf) key tables db = in_own_txn (put cf key (xa_tc_encode tables)) db

  unfoldable pub xa_tc_mark : Bytes → TableNames → Db → Bool × Db
  unfolding mark_in xa_tc_cf
  xa_tc_mark key tables db = let (cf, db') = xa_tc_cf db in mark_in cf key tables db'

  unfoldable pub clear_in : Option ℕ → Bytes → Db → Db
  unfolding in_own_txn
  clear_in none key db = db
  clear_in (some cf) [] db = db
  clear_in (some cf) (c ∷ key) db = (in_own_txn (delete cf (c ∷ key)) db).1

  unfoldable pub xa_tc_clear : Bytes → Db → Db
  unfolding clear_in xa_tc_cf
  xa_tc_clear key db = let (cf, db') = xa_tc_cf db in clear_in cf key db'

  unfoldable pub set_prepared_in_tc : Thd → Option Trx → Db → HaRc × Option Trx × Db
  unfolding xa_tc_mark moved_tables without_tables
  set_prepared_in_tc thd trx db =
      let (ok, db') = xa_tc_mark (xid_key thd.xid) (moved_tables trx) db in
      (if ok then done else internal_error, without_tables trx, db')

  -- With the map `tdb_recovery_mod_tables`; the answer is whether it was recorded.
  unfoldable pub set_prepared_in_tc_by_xid : (Bytes → Option TableNames) → Xid → Db → Bool × Db
  unfolding xa_tc_mark known_tables
  set_prepared_in_tc_by_xid tables xid db =
      xa_tc_mark (xid_key xid) (known_tables (tables (xid_key xid))) db

-- One entry that the iterator stands on: its key, and its value where that can be read.
abbrev pub Entry : Type 0
Entry = Bytes × Option Bytes

-- The names that are held for an entry, those of a malformed record included.
unfoldable pub entry_tables : Option Bytes → TableNames
entry_tables none = []
entry_tables (some value) = (xa_tc_decode value).1

unfoldable pub add_entry :
    Bytes
    → Option Bytes
    → Option Xid
    → List Xid × (Bytes → Option TableNames)
    → List Xid × (Bytes → Option TableNames)
unfolding entry_tables set_entry
add_entry key value none found = found
add_entry key value (some xid) (xids, tables) =
    (xids ++ (xid ∷ []), set_entry key (some (entry_tables value)) tables)

-- The scan of the family: the XIDs that are reported as prepared in the coordinator, in their
-- order, and the map of the tables of each.
unfoldable pub recover_entries :
    List Entry → List Xid × (Bytes → Option TableNames) → List Xid × (Bytes → Option TableNames)
unfolding add_entry
recover_entries [] found = found
recover_entries ((key, value) ∷ entries) found =
    recover_entries entries (add_entry key value (xid_from_key key) found)

module _ (L : Library) where
  open L use {Db, begin, call, free, scan}

  unfoldable pub read_entries :
      Option (List Entry) → (Bytes → Option TableNames) → List Xid × (Bytes → Option TableNames)
  unfolding recover_entries
  read_entries none tables = ([], tables)
  read_entries (some entries) tables = recover_entries entries ([], tables)

  unfoldable pub recover_in :
      Option ℕ → (Bytes → Option TableNames) → Db → (List Xid × (Bytes → Option TableNames)) × Db
  unfolding read_entries
  recover_in none tables db = (([], tables), db)
  recover_in (some cf) tables db =
      let (began, h, db₁) = begin db in
      let (entries, db₂) = scan h cf db₁ in
      if not (is_success began)
      then (([], tables), db₁)
      else (read_entries entries tables, free h (call h rollback db₂).1)

  -- The XIDs for the server, and `tdb_recovery_mod_tables` afterwards.
  unfoldable pub recover_prepared_in_tc :
      (Bytes → Option TableNames) → Db → (List Xid × (Bytes → Option TableNames)) × Db
  unfolding recover_in
  recover_prepared_in_tc tables db = let (cf, db') = xa_tc_cf L db in recover_in cf tables db'
