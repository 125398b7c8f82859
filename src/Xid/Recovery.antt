-- ===== src/Xid/Recovery.antt =====
-- `tidesdb_recover`: the XIDs of the transactions that the storage library found prepared, given to
-- the server in batches.
pub mod Drain
use tidesql_mysql.Xid.{Xid, xid_from_key, TableNames}
use tidesql_mysql.Base.{ℕ, zero, suc, ◌+◌}
use tidesql_mysql.Base.{Bool, true, not, Option, none, some}
use tidesql_mysql.Base.{List, [], ◌∷◌, ◌++◌, drop}
use tidesql_mysql.Base.{if◌then◌else◌}
use tidesql_mysql.Base.Bytes.{Bytes, equal}

-- What the file's static variables hold. `txns` is `tdb_prepared_txns`, from keys to transaction
-- handles, `mod_tables` is `tdb_recovery_mod_tables`.
pub record Registry : Type 0 where
  pub recovery_loaded : Bool
  pub recovery_pos : ℕ
  pub recovery_xids : List Bytes
  pub txns : Bytes → Option ℕ
  pub mod_tables : Bytes → Option TableNames

-- An assignment to the entry of a map.
unfoldable pub set_entry {ℓ} :
    {A : Type ℓ} → Bytes → Option A → (Bytes → Option A) → Bytes → Option A
set_entry key value entries k = if equal k key then value else entries k

-- The loop over the library's answer: a key and the handle of the transaction.
unfoldable pub register_prepared : List (Bytes × ℕ) → Registry → Registry
unfolding set_entry
register_prepared [] r = r
register_prepared ((key, txn) ∷ buf) r = register_prepared buf (record r {
  txns = set_entry key (some txn) r.txns;
  recovery_xids = r.recovery_xids ++ (key ∷ []);
})

-- The storage library's `tidesdb_recover_prepared`: the number of prepared transactions, and up to
-- so many of them; `none` is an error code. `opened` is whether `tdb_global` is set.
pub record Prepared : Type 0 where
  pub opened : Bool
  pub count : Option ℕ
  pub recover_prepared : ℕ → Option (List (Bytes × ℕ))

unfoldable pub register_answer : Option (List (Bytes × ℕ)) → Registry → Registry
unfolding register_prepared
register_answer none r = r
register_answer (some buf) r = register_prepared buf r

unfoldable pub load_counted : Prepared → Option ℕ → Registry → Registry
unfolding register_answer
load_counted lib none r = r
load_counted lib (some zero) r = r
load_counted lib (some (suc n)) r = register_answer (lib.recover_prepared (suc n)) r

unfoldable pub load_recovered_prepared : Prepared → Registry → Registry
unfolding load_counted
load_recovered_prepared lib r =
    if r.recovery_loaded
    then r
    else if not lib.opened
    then record r { recovery_loaded = true }
    else load_counted lib lib.count (record r { recovery_loaded = true })

-- An entry of `xid_list`: the XID and the tables that are attached to it.
abbrev pub Slot : Type 0
Slot = Xid × TableNames

unfoldable pub attached : Option TableNames → TableNames
attached none = []
attached (some tables) = tables

-- What one key puts into the list: a key that does not parse is passed over.
unfoldable pub report : (Bytes → Option TableNames) → Bytes → Option Xid → List Slot → List Slot
unfolding attached
report tables key none slots = slots
report tables key (some xid) slots = (xid, attached (tables key)) ∷ slots

abbrev pub room_after : Option Xid → ℕ → ℕ
room_after none room = suc room
room_after (some xid) room = room

-- The loop, over the keys from `recovery_pos` on and the room left in the list: the entries, and
-- the number of keys that it passes.
unfoldable pub recover_loop : (Bytes → Option TableNames) → List Bytes → ℕ → List Slot × ℕ
unfolding report
recover_loop tables [] room = ([], 0)
recover_loop tables (key ∷ keys) zero = ([], 0)
recover_loop tables (key ∷ keys) (suc room) =
    let (slots, passed) = recover_loop tables keys (room_after (xid_from_key key) room) in
    (report tables key (xid_from_key key) slots, suc passed)

unfoldable pub recover : Prepared → ℕ → Registry → List Slot × Registry
unfolding load_recovered_prepared recover_loop
recover lib zero r = ([], r)
recover lib (suc len) r =
    let loaded = load_recovered_prepared lib r in
    let (slots, passed) =
      recover_loop loaded.mod_tables (drop loaded.recovery_pos loaded.recovery_xids) (suc len) in
    (slots, record loaded { recovery_pos = loaded.recovery_pos + passed })
