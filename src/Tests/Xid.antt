-- ===== src/Tests/Xid.antt =====
-- XIDs, records of tables and recovery at concrete values.
use tidesql_mysql.Xid.{
  Xid, xid_of_parts, xid_key, xid_from_key, TableNames, xa_tc_decode, encode_tables, put_name,
}
use tidesql_mysql.Xid.Key.{Fits, xid_from_key_iff}
use tidesql_mysql.Xid.Tables.{xa_tc_decode-cut}
use tidesql_mysql.Xid.Recovery.{Registry, Prepared, recover}
use tidesql_mysql.Xid.Recovery.Drain.{
  unreported, drain, recover_batch, drain_lem, prepared_slots, slot_of, names_of,
}
use tidesql_mysql.Txn.Coordinator.{recover_entries}
use tidesql_mysql.Txn.Resolvers.{records, report_all, recover_entries-records}
use tidesql_mysql.Base.{◌≤◌, ◌<◌}
use tidesql_mysql.Base.{◌≡◌, refl, ◌↔◌, arith}
use tidesql_mysql.Base.{true, false, none, some}
use tidesql_mysql.Base.{[], ◌∷◌, ◌++◌, length}
use tidesql_mysql.Base.Bytes.{Bytes, be_bytes, be_fold}

abbrev xid_1 : Xid
xid_1 = record { format_id = 1; gtrid = 103 ∷ []; bqual = [] }

abbrev key_1 : Bytes
key_1 = 0 ∷ 0 ∷ 0 ∷ 0 ∷ 0 ∷ 0 ∷ 0 ∷ 1 ∷ 0 ∷ 0 ∷ 0 ∷ 1 ∷ 0 ∷ 0 ∷ 0 ∷ 0 ∷ 103 ∷ []

abbrev tables_1 : TableNames
tables_1 = (100 ∷ [], 116 ∷ []) ∷ []

xid_from_key_iff_example :
    (xid_from_key key_1 ≡ some xid_1) ↔ (Fits xid_1 × (key_1 ≡ xid_key xid_1))
xid_from_key_iff_example = xid_from_key_iff key_1 xid_1 (ground arith)

-- The record of two tables ends within the name of the second.
xa_tc_decode-cut_example :
    xa_tc_decode (
      1
      ∷ (be_bytes 4 2
          ++ (encode_tables tables_1 ++ (0 ∷ 0 ∷ 0 ∷ 1 ∷ 100 ∷ 0 ∷ 0 ∷ 0 ∷ 2 ∷ 117 ∷ []))))
    ≡ (false, tables_1)
unfolding put_name be_bytes
xa_tc_decode-cut_example =
    xa_tc_decode-cut tables_1 [] (100 ∷ []) (117 ∷ 118 ∷ [])
      (0 ∷ 0 ∷ 0 ∷ 1 ∷ 100 ∷ 0 ∷ 0 ∷ 0 ∷ 2 ∷ 117 ∷ []) (118 ∷ []) (ground arith) (omega arith)
      (omega arith) (omega arith) whole (λ e. cc)
  where
    whole :
        (0 ∷ 0 ∷ 0 ∷ 1 ∷ 100 ∷ 0 ∷ 0 ∷ 0 ∷ 2 ∷ 117 ∷ []) ++ (118 ∷ [])
        ≡ put_name (100 ∷ []) ++ put_name (117 ∷ 118 ∷ [])
    whole = refl

-- Two transactions and a key that names none.
abbrev found : Prepared
found = record {
  opened = true;
  count = some 3;
  recover_prepared = λ max. some ((key_1, 0) ∷ (7 ∷ [], 1) ∷ (key_1, 2) ∷ []);
}

abbrev empty_registry : Registry
empty_registry = record {
  recovery_loaded = false;
  recovery_pos = 0;
  recovery_xids = [];
  txns = λ key. none;
  mod_tables = λ key. none;
}

recover_batch_example :
    ((recover found 1 empty_registry).0 ++ unreported found (recover found 1 empty_registry).1
      ≡ unreported found empty_registry)
    × (length (recover found 1 empty_registry).0 ≤ 1)
    × (length (recover found 1 empty_registry).0 < 1
        → unreported found (recover found 1 empty_registry).1 ≡ [])
recover_batch_example = recover_batch found 0 empty_registry

drain_lem_example : drain found 3 1 empty_registry ≡ ((xid_1, []) ∷ (xid_1, []) ∷ [])
unfolding prepared_slots slot_of names_of xid_from_key xid_of_parts be_fold
drain_lem_example =
    drain_lem found 3 0 2 ((key_1, 0) ∷ (7 ∷ [], 1) ∷ (key_1, 2) ∷ []) empty_registry refl refl refl
      (refl, refl, refl) (omega arith)

recover_entries-records_example :
    recover_entries (records ((xid_1, tables_1) ∷ [])) ([], λ key. none)
    ≡ report_all ((xid_1, tables_1) ∷ []) ([], λ key. none)
recover_entries-records_example =
    recover_entries-records ((xid_1, tables_1) ∷ []) ([], λ key. none) (ground arith)
