-- ===== src/Lib.antt =====
-- The TidesDB storage engine for MySQL. Of its server-free core, tidesdb/src/core: the byte
-- formats of keys, rows and records, the spatial index, the text side of the full-text index, and
-- the options of tables, which are functions on bytes without state of their own; and, of the
-- handler that calls them, the transactions of connections and two-phase commit, which keep state
-- between the calls of the server and drive the storage library; and, of the engine, the custody
-- of the keys that tables are encrypted with.
--
-- Files and parts. Base holds the shared names, lists, bits, bytes in both orders and texts.
-- RowFormat is row_format.cc: the header of a stored row, hidden row ids and data keys. DdlLog is
-- ddl_log_rec.cc: the keys and records of the log of pending table drops and creations. KeyEnc is
-- crypto_keyenc.cc: the store keys and the framed values of wrapped encryption keys. Spatial is
-- spatial.cc: the Hilbert curve in Spatial and its digits in Spatial/Digits and Spatial/Curve,
-- IEEE doubles as 64-bit patterns in Spatial/Doubles, rectangles and predicates in Spatial/Mbr,
-- the walk over well-known binary in Spatial/Wkb, and the ranges of a query box in
-- Spatial/Ranges. CfName is cf_name.cc: table paths and the names of column families. SortKey is
-- sort_key.cc: comparable keys decoded to the bytes of a field. Fts is fts_text.cc: entry keys
-- and values and the tokenizer in Fts, boolean queries in Fts/Query. TableOptions is
-- table_options.cc: Values, Json and Parse read the attribute of a table or a column, Serialize
-- writes it. Keyring is tidesdb/src/engine/ha_tidesdb_crypto_keyring.cc: the wrapped table keys
-- and their rotation. Xid and Txn are tidesdb/src/handler/ha_tidesdb_txn.cc. Xid has the bytes of
-- XIDs and of the coordinator's records, and `tidesdb_recover` in Xid/Recovery. Txn has the
-- structure of a connection, Txn/Begin its start, Txn/Savepoints, Txn/Resolve commit, rollback
-- and close, Txn/Prepare and Txn/Coordinator two-phase commit, Txn/ModTables the tables that were
-- written, Txn/Outside what other files do with the transaction of a connection, Txn/FtsMeta the
-- pending full-text totals of ha_tidesdb_fts.cc. Txn/Protocol is the abstract view: the moves
-- that the owner of a handle may make, which the operations refine, the events of all connections
-- and of recovery in Txn/Protocol/Events, and what a commit, a prepare and an end by XID make of
-- a handle in Settled, Handed and TwoPhase. Tests holds runs at concrete inputs, with a storage
-- library in memory.
--
-- How state and operations correspond. A pointer with an end is the list of the bytes not yet
-- read, and a moved cursor is the list that is returned. A function that answers false is `none`,
-- or, where it has a message, the outcome `failed` with what was stored before. An output buffer
-- is the list of the bytes that are written. Definitions have the names of the C++ functions; a
-- helper is named for the lines it stands for. An integer of w bits is a number with `% 2 ^ w`
-- where the code can wrap. An operation on a connection takes the structure `Trx`, `none` where
-- the connection has none, and what connections share, and returns them with the code's answer. A
-- pointer to a library transaction is a number.
--
-- Bounds and fuel. The loops of the JSON reader, the tokenizer and the query parser run on fuel
-- of one more than the number of bytes; each round takes a byte at least. The walk over nested
-- geometries has the 33 levels that the code allows. The writer of decimal numbers runs on twenty
-- digits, as many as a number of 64 bits has.
--
-- Parameters. The character set of the server is the record `Charset`; no law of it is assumed.
-- The storage library is the record `Library`; the laws in `IsLawful`, which handles are live
-- after a begin, a recovery, a free and another call, are assumed where ownership is stated,
-- those in `HasLevels`, the isolation level after a begin and a reset, where levels are, and
-- Tests/Memory meets them. What the server knows of a connection is the record `Thd`. The store,
-- the key ring, the random source and AES under Keyring are the record `Services`, with
-- `IsFaithful`. The case of letters in options is that of the C locale.
--
-- Not modelled: the cost model and the full-text scores, which are floating point; of the
-- handler, rows, scans, foreign keys and DDL, which call the server and the storage library, so
-- also the reads and writes of rows on the handle of a connection; what a handler object caches
-- for a statement; locks, as calls run one after the other; the acquisition of the key ring's
-- services and the encryption of rows; system variables and status.
pub mod Base
pub mod RowFormat
pub mod DdlLog
pub mod Spatial
pub mod KeyEnc
pub mod Keyring
pub mod CfName
pub mod Xid
pub mod Txn
pub mod SortKey
pub mod Fts
pub mod TableOptions
pub mod Tests
