-- ===== src/Tests.antt =====
-- Runs of the definitions at concrete inputs, by part of the program.
mod Spatial
mod Records
mod Text
mod Memory
mod Txn
mod Xid
mod Keyring
