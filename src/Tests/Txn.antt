-- ===== src/Tests/Txn.antt =====
-- Transactions of connections on the library in memory.
use tidesql_mysql.Tests.Memory.{
  Memory, memory, memory-IsLawful, memory-sane, memory-live, memory-HasLevels, is_live,
}
use tidesql_mysql.Txn.{serializable, Shared, commit_prepared, rollback_prepared, Trx, new_trx, Thd}
use tidesql_mysql.Txn.{
  repeatable_read, snapshot, iso_repeatable_read, xa_prepare, other_command, FtsMetaDelta,
}
use tidesql_mysql.Txn.{rollback_to_savepoint, stmt_name, reset}
use tidesql_mysql.Txn.Savepoints.{
  handle_of, stmt_savepoint_arm, stmt_savepoint_disarm, stmt_savepoint_rollback,
}
use tidesql_mysql.Txn.FtsMeta.{accumulate, pending_docs, flush_trx_fts_meta_pending}
use tidesql_mysql.Txn.Resolve.{tidesdb_commit}
use tidesql_mysql.Txn.Begin.{get_or_create_trx}
use tidesql_mysql.Txn.Prepare.{tidesdb_prepare, commit_by_xid, rollback_by_xid}
use tidesql_mysql.Txn.Protocol.Ownership.{IsOwned, held, Owner, connection, entry, other}
use tidesql_mysql.Txn.Protocol.Settled.{CommitSettles, tidesdb_commit-settles}
use tidesql_mysql.Txn.Protocol.Handed.{PrepareSettles, tidesdb_prepare-settles}
use tidesql_mysql.Txn.Protocol.TwoPhase.{EndsPrepared, by_xid-tidesdb_prepare}
use tidesql_mysql.Txn.Protocol.Events.{
  Event, lock_table, prepare_trx, commit_trx, commit_xid, close, recover_in_tc, recover_xids,
  record_in_tc_by_xid, System, run,
}
use tidesql_mysql.Txn.Protocol.System.{AllOwned, run-AllOwned, handles}
use tidesql_mysql.Txn.Statements.{accumulate_all, stmt_savepoint_rollback-stmt_savepoint_arm}
use tidesql_mysql.Txn.Statements.{get_or_create_trx-resets_again, pending_docs-accumulate}
use tidesql_mysql.Txn.ModTables.{
  note_modified_table, occurrences, note_modified_table-occurrences,
  note_modified_table-stmt_savepoint_rollback, TableName,
}
use tidesql_mysql.Txn.Levels.{GoesOn, StartsNew, get_or_create_trx-cases}
use tidesql_mysql.Xid.Recovery.{Registry}
use tidesql_mysql.Xid.{Xid, xid_key}
use tidesql_mysql.Base.{ℕ, ◌+◌, ◌-◌, ◌%◌, ◌^◌}
use tidesql_mysql.Base.{◌≡◌, refl, sym, ap, ◌∙◌, ◌≢◌, ◌⊎◌, arith}
use tidesql_mysql.Base.{true, false, ◌&&◌, Option, none, some}
use tidesql_mysql.Base.{List, [], ◌∷◌}
use tidesql_mysql.Base.{◌==◌, if◌then◌else◌}
use tidesql_mysql.Base.Bytes.{equal}

abbrev fresh_memory : Memory
fresh_memory = record {
  next = 0;
  dead = λ k. false;
  sane = true;
  answers = [];
  levels = λ k. snapshot;
}

-- One transaction is open, under the handle 0.
abbrev open_memory : Memory
open_memory = record {
  next = 1;
  dead = λ k. false;
  sane = true;
  answers = [];
  levels = λ k. snapshot;
}

abbrev xid_1 : Xid
xid_1 = record { format_id = 1; gtrid = 103 ∷ []; bqual = [] }

abbrev xa_thd : Thd
xa_thd = record {
  in_transaction = true;
  sql_command = xa_prepare;
  tx_isolation = some iso_repeatable_read;
  xid = xid_1;
}

abbrev sql_thd : Thd
sql_thd = record {
  in_transaction = true;
  sql_command = other_command;
  tx_isolation = some iso_repeatable_read;
  xid = xid_1;
}

abbrev no_recovery : Registry
no_recovery = record {
  recovery_loaded = false;
  recovery_pos = 0;
  recovery_xids = [];
  txns = λ key. none;
  mod_tables = λ key. none;
}

abbrev no_system : System Memory
no_system = record {
  shared = record { db = fresh_memory; txns = λ key. none };
  trxs = λ n. none;
  recovery = no_recovery;
}

-- After a recovery, a transaction is prepared, its connection closed and another one committed before
-- it is resolved.
abbrev calls : List Event
calls =
    recover_in_tc
    ∷ recover_xids 8
    ∷ record_in_tc_by_xid xid_1
    ∷ lock_table 4 sql_thd repeatable_read
    ∷ prepare_trx 4 true xa_thd
    ∷ lock_table 7 sql_thd snapshot
    ∷ close 4
    ∷ commit_trx 7 true sql_thd
    ∷ commit_xid xid_1
    ∷ []

nothing_held : (o : Owner) (h : ℕ) → held none (λ key. none) (handles (λ n. none)) o ≢ some h
unfolding held handle_of
nothing_held connection h e = cc
nothing_held (entry key) h e = cc
nothing_held (other n) h e = cc

no_system-AllOwned : AllOwned memory memory-IsLawful no_system
unfolding AllOwned IsOwned
no_system-AllOwned = (
  memory-sane fresh_memory,
  λ o h e. absurd (nothing_held o h e),
  λ o p h e f. absurd (nothing_held o h e),
)

run-AllOwned_example : AllOwned memory memory-IsLawful (run memory calls no_system)
run-AllOwned_example = run-AllOwned memory memory-IsLawful calls no_system no_system-AllOwned

-- A transaction with writes, a statement savepoint and a table.
abbrev working : Trx
working = record new_trx {
  txn = some 0;
  dirty = true;
  stmt_savepoint_active = true;
  txn_generation = 1;
  mod_tables = (100 ∷ [], 116 ∷ []) ∷ [];
  mod_tables_generation = 1;
}

abbrev open_shared : Shared Memory
open_shared = record { db = open_memory; txns = λ key. none }

abbrev no_others : ℕ → Option ℕ
no_others n = none

open-IsOwned : IsOwned memory memory-IsLawful (held (some 0) (λ key. none) no_others) open_memory
unfolding IsOwned held
open-IsOwned = (
  memory-sane open_memory,
  λ o h e. memory-live open_memory h ∙ ap (is_live open_memory) (sym (zero_only o h e)) ∙ live_0,
  λ o p h e f. connection_only o h e ∙ sym (connection_only p h f),
)
  where
    live_0 : is_live open_memory 0 ≡ true
    live_0 = ground arith

    zero_only : (o : Owner) (h : ℕ) → held (some 0) (λ key. none) no_others o ≡ some h → 0 ≡ h
    zero_only connection h e = cc
    zero_only (entry key) h e = absurd cc
    zero_only (other n) h e = absurd cc

    connection_only :
        (o : Owner) (h : ℕ) → held (some 0) (λ key. none) no_others o ≡ some h → o ≡ connection
    connection_only connection h e = refl
    connection_only (entry key) h e = absurd cc
    connection_only (other n) h e = absurd cc

tidesdb_commit-settles_example :
    CommitSettles memory memory-IsLawful 0 true
      (tidesdb_commit memory true sql_thd (some working) open_shared)
tidesdb_commit-settles_example =
    tidesdb_commit-settles memory memory-IsLawful no_others true sql_thd working open_shared 0 refl
      open-IsOwned

tidesdb_prepare-settles_example :
    PrepareSettles memory memory-IsLawful 0
      (xid_key xid_1)
      true
      (λ key. none)
      (tidesdb_prepare memory true xa_thd (some working) open_shared)
tidesdb_prepare-settles_example =
    tidesdb_prepare-settles memory memory-IsLawful no_others true xa_thd working open_shared 0 refl
      open-IsOwned

-- What connections share after the XA PREPARE.
abbrev prepared_shared : Shared Memory
prepared_shared = (tidesdb_prepare memory true xa_thd (some working) open_shared).2

by_xid-tidesdb_prepare_example :
    EndsPrepared memory memory-IsLawful commit_prepared
      (xid_key xid_1)
      0
      prepared_shared.db
      (λ key. none)
      (commit_by_xid memory xid_1 prepared_shared)
    × EndsPrepared memory memory-IsLawful rollback_prepared
        (xid_key xid_1)
        0
        prepared_shared.db
        (λ key. none)
        (rollback_by_xid memory xid_1 prepared_shared)
unfolding tidesdb_prepare stmt_savepoint_disarm flush_trx_fts_meta_pending
by_xid-tidesdb_prepare_example =
    by_xid-tidesdb_prepare memory memory-IsLawful no_others xa_thd working open_shared 0 refl
      open-IsOwned refl refl

abbrev rows : List (ℕ × ℕ × ℕ × ℕ)
rows = (2, 1, 1, 5) ∷ (2, 1, 1, 7) ∷ []

stmt_savepoint_rollback-stmt_savepoint_arm_example :
    let (done, trx', e') =
      stmt_savepoint_rollback memory 0
        (accumulate_all rows (stmt_savepoint_arm memory 0 working open_memory).0)
        open_memory in
    (done ≡ true)
    × (trx'.fts_meta_pending ≡ [])
    × (trx'.fts_meta_dirty ≡ false)
    × (trx'.stmt_savepoint_active ≡ false)
    × (trx'.txn_generation ≡ 2)
    × (e' ≡ (memory.call 0 (rollback_to_savepoint stmt_name) open_memory).1)
stmt_savepoint_rollback-stmt_savepoint_arm_example =
    stmt_savepoint_rollback-stmt_savepoint_arm memory 0 rows working open_memory open_memory refl
      refl

-- A transaction that is kept and due for a reset.
abbrev kept_trx : Trx
kept_trx = record working { needs_reset = true }

get_or_create_trx-cases_example :
    GoesOn memory memory-HasLevels kept_trx open_memory
      (get_or_create_trx memory serializable (some kept_trx) open_memory)
    ⊎ StartsNew memory memory-HasLevels serializable kept_trx (
      (get_or_create_trx memory serializable (some kept_trx) open_memory).1,
      (get_or_create_trx memory serializable (some kept_trx) open_memory).2,
    )
unfolding get_or_create_trx
get_or_create_trx-cases_example =
    get_or_create_trx-cases memory memory-HasLevels serializable kept_trx open_memory refl

abbrev stale : Trx
stale = record new_trx { needs_reset = true; txn_generation = 5 }

get_or_create_trx-resets_again_example :
    (get_or_create_trx memory snapshot
      (get_or_create_trx memory snapshot (some stale) fresh_memory).1
      (memory.begin_with_isolation snapshot fresh_memory).2).2
    ≡ (memory.call 0 (reset snapshot) (memory.begin_with_isolation snapshot fresh_memory).2).1
get_or_create_trx-resets_again_example =
    get_or_create_trx-resets_again memory snapshot stale fresh_memory refl refl refl refl

abbrev one_delta : List FtsMetaDelta
one_delta = record { data_cf = 2; keynr = 1; doc_delta = 3; word_delta = 20 } ∷ []

pending_docs-accumulate_example :
    pending_docs 2 1 (accumulate 2 1 (2 ^ 64 - 1) 4 one_delta)
    ≡ (pending_docs 2 1 one_delta + (2 ^ 64 - 1)) % 2 ^ 64
pending_docs-accumulate_example = pending_docs-accumulate 2 1 (2 ^ 64 - 1) 4 2 1 one_delta

abbrev another : TableName
another = (100 ∷ [], 117 ∷ [])

note_modified_table-occurrences_example :
    (trx' : Trx) × (note_modified_table (some another) 0 (some working) ≡ (1, some trx'))
    × (trx'.mod_tables_generation ≡ 1)
    × ((x : TableName)
        → occurrences x trx'.mod_tables ≡ (
            if equal another.0 x.0 && equal another.1 x.1
            then (if occurrences x working.mod_tables == 0
                then 1
                else occurrences x working.mod_tables)
            else occurrences x working.mod_tables))
note_modified_table-occurrences_example =
    note_modified_table-occurrences another 0 working ((λ e. cc), (λ e. cc)) (omega arith) refl

note_modified_table-stmt_savepoint_rollback_example :
    (trx' : Trx) × (note_modified_table
        (some another)
        1
        (some (stmt_savepoint_rollback memory 0 working open_memory).1)
      ≡ (2, some trx'))
    × (trx'.mod_tables ≡ (another ∷ []))
note_modified_table-stmt_savepoint_rollback_example =
    note_modified_table-stmt_savepoint_rollback memory 0 another working open_memory
      ((λ e. cc), (λ e. cc)) (omega arith) refl refl refl
