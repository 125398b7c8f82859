-- ===== src/Txn.antt =====
-- The transaction of a connection, of tidesdb/src/handler/ha_tidesdb_txn.cc and the parts of
-- ha_tidesdb.h, ha_tidesdb.cc and engine/ha_tidesdb_config.cc that it stands on: the codes, the
-- storage library's interface and the structure `tidesdb_trx_t`.
pub mod FtsMeta
pub mod Savepoints
pub mod Resolve
pub mod Begin
pub mod Coordinator
pub mod Prepare
pub mod Protocol
pub mod ModTables
pub mod Statements
pub mod Levels
pub mod Outside
pub mod Resolvers
use tidesql_mysql.Xid.{Xid, TableNames}
use tidesql_mysql.Base.{ℕ, ◌+◌, ◌%◌, ◌^◌}
use tidesql_mysql.Base.{Bool, true, false, Option, none, some}
use tidesql_mysql.Base.{List, []}
use tidesql_mysql.Base.Bytes.{Bytes}

-- The result codes of the storage library that the source names, and any other.
pub data Rc : Type 0 where
  success conflict txn_aborted txn_expired locked memory_limit memory not_found exists readonly io
        corruption too_large invalid_db invalid_args unknown other_rc :
      Rc

-- The handler codes; `done` is 0.
pub data HaRc : Type 0 where
  done lock_deadlock lock_wait_timeout out_of_mem key_not_found found_dupp_key read_only_transaction
        crashed to_big_row internal_error generic no_savepoint :
      HaRc

-- Without the messages.
unfoldable pub rc_to_ha : Rc → HaRc
rc_to_ha success = done
rc_to_ha conflict = lock_deadlock
rc_to_ha txn_aborted = lock_deadlock
rc_to_ha txn_expired = lock_wait_timeout
rc_to_ha locked = lock_wait_timeout
rc_to_ha memory_limit = lock_wait_timeout
rc_to_ha memory = out_of_mem
rc_to_ha not_found = key_not_found
rc_to_ha exists = found_dupp_key
rc_to_ha readonly = read_only_transaction
rc_to_ha io = crashed
rc_to_ha corruption = crashed
rc_to_ha too_large = to_big_row
rc_to_ha invalid_db = internal_error
rc_to_ha invalid_args = internal_error
rc_to_ha unknown = lock_deadlock
rc_to_ha other_rc = generic

abbrev pub is_success : Rc → Bool
is_success success = true
is_success _ = false

abbrev pub is_not_found : Rc → Bool
is_not_found not_found = true
is_not_found _ = false

-- The levels of the library, weakest first, and those of SQL.
pub data Isolation : Type 0 where
  read_uncommitted read_committed repeatable_read snapshot serializable : Isolation

pub data SqlIsolation : Type 0 where
  iso_read_uncommitted iso_read_committed iso_repeatable_read iso_serializable : SqlIsolation

-- A table left at REPEATABLE READ is taken to SNAPSHOT.
unfoldable pub table_isolation : Isolation → Isolation
table_isolation repeatable_read = snapshot
table_isolation read_uncommitted = read_uncommitted
table_isolation read_committed = read_committed
table_isolation snapshot = snapshot
table_isolation serializable = serializable

-- `none` stands for a session level that is none of the four.
unfoldable pub resolve_effective_isolation : Option SqlIsolation → Isolation → Isolation
unfolding table_isolation
resolve_effective_isolation (some iso_read_uncommitted) table_iso = read_uncommitted
resolve_effective_isolation (some iso_read_committed) table_iso = read_committed
resolve_effective_isolation (some iso_repeatable_read) table_iso = table_isolation table_iso
resolve_effective_isolation (some iso_serializable) table_iso = serializable
resolve_effective_isolation none table_iso = read_committed

-- The name of the statement savepoint, and the one made of the address of the server's slot.
pub data SavepointName : Type 0 where
  stmt_name : SavepointName
  sv_name : ℕ → SavepointName

-- The library's operations on a transaction that give a code alone. A column family is a number.
pub data Call : Type 0 where
  make_savepoint rollback_to_savepoint release_savepoint : SavepointName → Call
  commit rollback commit_prepared rollback_prepared : Call
  prepare : Bytes → Call
  reset : Isolation → Call
  put : ℕ → Bytes → Bytes → Call
  delete : ℕ → Bytes → Call

-- The storage library, over a state of its own. A transaction handle is a number, as its pointer.
-- Where a begin fails, its handle is not used. `scan` is an iterator over a column family from its
-- first entry to its last, `none` where it is not made: each entry has its key and, where that can be
-- read, its value. `tidesdb_recover_prepared` counts the transactions that were prepared before a
-- restart, and gives handles for up to so many, `none` where it fails.
pub record Library : Type 1 where
  pub Db : Type 0
  pub begin_with_isolation : Isolation → Db → Rc × ℕ × Db
  pub begin : Db → Rc × ℕ × Db
  pub call : ℕ → Call → Db → Rc × Db
  pub get : ℕ → ℕ → Bytes → Db → Rc × Bytes × Db
  pub free : ℕ → Db → Db
  pub is_prepared : ℕ → Db → Bool
  pub get_column_family : Bytes → Db → Option ℕ × Db
  pub create_column_family : Bytes → Db → Rc × Db
  pub scan : ℕ → ℕ → Db → Option (List (Bytes × Option Bytes)) × Db
  pub count_prepared : Db → Option ℕ
  pub recover_prepared : ℕ → Db → Option (List (Bytes × ℕ)) × Db

-- `fts_meta_delta_t`; the deltas are 64-bit patterns.
pub record FtsMetaDelta : Type 0 where
  pub data_cf : ℕ
  pub keynr : ℕ
  pub doc_delta : ℕ
  pub word_delta : ℕ

-- `tidesdb_trx_t`. A null pointer is `none`, an empty string `[]`.
pub record Trx : Type 0 where
  pub txn : Option ℕ
  pub dirty : Bool
  pub stmt_savepoint_active : Bool
  pub needs_reset : Bool
  pub isolation_level : Isolation
  pub txn_generation : ℕ
  pub fts_meta_pending : List FtsMetaDelta
  pub fts_meta_dirty : Bool
  pub stmt_fts_snapshot : List FtsMetaDelta
  pub stmt_fts_dirty_snapshot : Bool
  pub prepared_xid : Bytes
  pub mod_tables : TableNames
  pub mod_tables_generation : ℕ
  pub prepared_mod_tables : TableNames

-- The member initialisers.
abbrev pub new_trx : Trx
new_trx = record {
  txn = none;
  dirty = false;
  stmt_savepoint_active = false;
  needs_reset = false;
  isolation_level = repeatable_read;
  txn_generation = 0;
  fts_meta_pending = [];
  fts_meta_dirty = false;
  stmt_fts_snapshot = [];
  stmt_fts_dirty_snapshot = false;
  prepared_xid = [];
  mod_tables = [];
  mod_tables_generation = 0;
  prepared_mod_tables = [];
}

-- `txn_generation++`.
abbrev pub next_generation : ℕ → ℕ
next_generation g = (g + 1) % 2 ^ 64

-- The commands that the handler asks about.
pub data SqlCommand : Type 0 where
  alter_table create_index drop_index truncate optimize create_table drop_table xa_prepare
        other_command :
      SqlCommand

unfoldable pub is_ddl : SqlCommand → Bool
is_ddl alter_table = true
is_ddl create_index = true
is_ddl drop_index = true
is_ddl truncate = true
is_ddl optimize = true
is_ddl create_table = true
is_ddl drop_table = true
is_ddl xa_prepare = false
is_ddl other_command = false

-- What the handler asks of the server about a connection: whether OPTION_NOT_AUTOCOMMIT or
-- OPTION_BEGIN is set, the command, the isolation level and the XID.
pub record Thd : Type 0 where
  pub in_transaction : Bool
  pub sql_command : SqlCommand
  pub tx_isolation : Option SqlIsolation
  pub xid : Xid

-- What connections share: the library's state and `tdb_prepared_txns`.
pub record Shared (D : Type 0) : Type 0 where
  pub db : D
  pub txns : Bytes → Option ℕ
