-- ===== src/Txn/Resolvers.antt =====
-- The records that recovery reads for the coordinator, and the isolation levels, in ha_tidesdb_txn.cc and ha_tidesdb_config.cc.
use tidesql_mysql.Txn.{Isolation, SqlIsolation, resolve_effective_isolation, Thd, SqlCommand}
use tidesql_mysql.Txn.{
  read_uncommitted, read_committed, repeatable_read, snapshot, serializable, is_ddl,
  table_isolation,
}
use tidesql_mysql.Txn.{
  iso_read_uncommitted, iso_read_committed, iso_repeatable_read, iso_serializable,
}
use tidesql_mysql.Txn.Begin.{at_least_snapshot, statement_isolation}
use tidesql_mysql.Txn.Coordinator.{Entry, entry_tables, add_entry, recover_entries}
use tidesql_mysql.Xid.{Xid, xid_key, TableNames, xa_tc_encode, xa_tc_decode}
use tidesql_mysql.Xid.Key.{Fits, xid_from_key-xid_key}
use tidesql_mysql.Xid.Tables.{NamesFit, xa_tc_decode-xa_tc_encode}
use tidesql_mysql.Xid.Recovery.{set_entry}
use tidesql_mysql.Base.{◌^◌, ◌<◌}
use tidesql_mysql.Base.{◌≡◌, refl, sym, ap, ◌∙◌, ◌≢◌, ◌⊎◌, inl, inr}
use tidesql_mysql.Base.{Bool, true, false, Option, none, some}
use tidesql_mysql.Base.{List, [], ◌∷◌, ◌++◌, append-nil, length}
use tidesql_mysql.Base.{All}
use tidesql_mysql.Base.{if◌then◌else◌}
use tidesql_mysql.Base.Bytes.{Bytes}

-- The entries that `xa_tc_mark` writes for transactions.
pub records : List (Xid × TableNames) → List Entry
records [] = []
records ((xid, tables) ∷ marked) = (xid_key xid, some (xa_tc_encode tables)) ∷ records marked

-- A transaction that can be marked.
abbrev pub CanMark : Xid × TableNames → Type 0
CanMark (xid, tables) = Fits xid × NamesFit tables × (length tables < 2 ^ 32)

-- The transactions themselves in place of their records.
pub report_all :
    List (Xid × TableNames)
    → List Xid × (Bytes → Option TableNames)
    → List Xid × (Bytes → Option TableNames)
unfolding set_entry
report_all [] found = found
report_all ((xid, tables) ∷ marked) (xids, known) =
    report_all marked (xids ++ (xid ∷ []), set_entry (xid_key xid) (some tables) known)

-- From the records that `xa_tc_mark` writes, recovery reports each XID in order and holds for each
-- the tables that were written last, if the XIDs and the names fit their fields.
pub recover_entries-records :
    (marked : List (Xid × TableNames)) (found : List Xid × (Bytes → Option TableNames))
    → All CanMark marked
    → recover_entries (records marked) found ≡ report_all marked found
unfolding recover_entries records report_all add_entry entry_tables
recover_entries-records [] found h = refl
recover_entries-records ((xid, tables) ∷ marked) (xids, known) ((fits, names, few), h) =
    ap
      (λ o.
        recover_entries (records marked)
          (add_entry (xid_key xid) (some (xa_tc_encode tables)) o (xids, known)))
      (xid_from_key-xid_key xid fits)
    ∙ ap
        (λ (t : Bool × TableNames).
          recover_entries (records marked)
            (xids ++ (xid ∷ []), set_entry (xid_key xid) (some t.1) known))
        decoded
    ∙ (recover_entries-records marked
        (xids ++ (xid ∷ []), set_entry (xid_key xid) (some tables) known) h)
  where
    decoded : xa_tc_decode (xa_tc_encode tables) ≡ (true, tables)
    decoded =
        ap xa_tc_decode (sym (append-nil (xa_tc_encode tables)))
        ∙ xa_tc_decode-xa_tc_encode tables [] names few

resolved :
    (session : Option SqlIsolation) (table_iso : Isolation)
    → resolve_effective_isolation session table_iso ≢ repeatable_read
unfolding resolve_effective_isolation table_isolation
resolved none table_iso e = cc
resolved (some iso_read_uncommitted) table_iso e = cc
resolved (some iso_read_committed) table_iso e = cc
resolved (some iso_serializable) table_iso e = cc
resolved (some iso_repeatable_read) read_uncommitted e = cc
resolved (some iso_repeatable_read) read_committed e = cc
resolved (some iso_repeatable_read) repeatable_read e = cc
resolved (some iso_repeatable_read) snapshot e = cc
resolved (some iso_repeatable_read) serializable e = cc

raised :
    (iso : Isolation) → (at_least_snapshot iso ≡ snapshot) ⊎ (at_least_snapshot iso ≡ serializable)
unfolding at_least_snapshot
raised read_uncommitted = inl refl
raised read_committed = inl refl
raised repeatable_read = inl refl
raised snapshot = inl refl
raised serializable = inr refl

-- No statement runs at REPEATABLE READ, and a consistent snapshot is taken at SNAPSHOT or above.
pub statement_isolation-not_repeatable_read :
    (command : SqlCommand) (thd : Thd) (table_iso : Isolation)
    → (statement_isolation command thd table_iso ≢ repeatable_read)
      × ((at_least_snapshot (resolve_effective_isolation thd.tx_isolation table_iso) ≡ snapshot)
          ⊎ (at_least_snapshot (resolve_effective_isolation thd.tx_isolation table_iso)
              ≡ serializable))
unfolding statement_isolation
statement_isolation-not_repeatable_read command thd table_iso =
    (pick (is_ddl command), raised (resolve_effective_isolation thd.tx_isolation table_iso))
  where
    pick :
        (b : Bool)
        → (if b then read_committed else resolve_effective_isolation thd.tx_isolation table_iso)
          ≢ repeatable_read
    pick true e = cc
    pick false e = resolved thd.tx_isolation table_iso e
