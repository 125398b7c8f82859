-- ===== src/Xid/Recovery/Drain.antt =====
-- The batches of `tidesdb_recover` together.
use tidesql_mysql.Xid.{Xid, xid_from_key, TableNames}
use tidesql_mysql.Xid.Recovery.{
  Registry, Prepared, Slot, attached, set_entry, report, room_after, recover_loop, recover,
}
use tidesql_mysql.Xid.Recovery.{
  load_recovered_prepared, load_counted, register_answer, register_prepared,
}
use tidesql_mysql.Base.{ℕ, zero, suc, ◌+◌, ◌≤◌, ◌<◌}
use tidesql_mysql.Base.{◌≡◌, refl, sym, ap, ◌∙◌, inl, inr, arith}
use tidesql_mysql.Base.{true, false, Option, none, some}
use tidesql_mysql.Base.{List, [], ◌∷◌, ◌++◌, length, drop}
use tidesql_mysql.Base.{length-append, append-nil, append_assoc, map}
use tidesql_mysql.Base.{ltb, ltb→lt}
use tidesql_mysql.Base.{Bool-cases}
use tidesql_mysql.Base.Bytes.{Bytes}

-- The entries of all the keys that parse, in their order.
unfoldable pub all_slots : (Bytes → Option TableNames) → List Bytes → List Slot
all_slots tables [] = []
all_slots tables (key ∷ keys) = report tables key (xid_from_key key) (all_slots tables keys)

-- What is still to be reported.
unfoldable pub unreported : Prepared → Registry → List Slot
unfolding load_recovered_prepared all_slots
unreported lib r =
    let loaded = load_recovered_prepared lib r in
    all_slots loaded.mod_tables (drop loaded.recovery_pos loaded.recovery_xids)

-- The server's calls, each with room for `len` entries.
pub drain : Prepared → ℕ → ℕ → Registry → List Slot
drain lib zero len r = []
drain lib (suc rounds) len r =
    let (slots, r') = recover lib len r in slots ++ drain lib rounds len r'

module _ (tables : Bytes → Option TableNames) where
  report-append :
      (key : Bytes) (o : Option Xid) (xs ys : List Slot)
      → report tables key o xs ++ ys ≡ report tables key o (xs ++ ys)
  unfolding report
  report-append key none xs ys = refl
  report-append key (some x) xs ys = refl

  recover_loop_all :
      (keys : List Bytes) (room : ℕ)
      → (recover_loop tables keys room).0
          ++ all_slots tables (drop (recover_loop tables keys room).1 keys)
        ≡ all_slots tables keys
  unfolding recover_loop all_slots
  recover_loop_all [] room = refl
  recover_loop_all (key ∷ keys) zero = refl
  recover_loop_all (key ∷ keys) (suc room) =
      report-append key (xid_from_key key)
        (recover_loop tables keys (room_after (xid_from_key key) room)).0
        (all_slots tables
          (drop (recover_loop tables keys (room_after (xid_from_key key) room)).1 keys))
      ∙ ap (report tables key (xid_from_key key))
          (recover_loop_all keys (room_after (xid_from_key key) room))

  length-report :
      (key : Bytes) (o : Option Xid) (xs : List Slot) (room : ℕ)
      → length xs ≤ room_after o room
      → length (report tables key o xs) ≤ suc room
  unfolding report
  length-report key none xs room h = h
  length-report key (some x) xs room h = omega (arith, h)

  recover_loop-le : (keys : List Bytes) (room : ℕ) → length (recover_loop tables keys room).0 ≤ room
  unfolding recover_loop
  recover_loop-le [] room = omega arith
  recover_loop-le (key ∷ keys) zero = omega arith
  recover_loop-le (key ∷ keys) (suc room) =
      length-report key (xid_from_key key)
        (recover_loop tables keys (room_after (xid_from_key key) room)).0 room
        (recover_loop-le keys (room_after (xid_from_key key) room))

  report-lt :
      (key : Bytes) (o : Option Xid) (xs : List Slot) (room : ℕ)
      → length (report tables key o xs) < suc room
      → length xs < room_after o room
  unfolding report
  report-lt key none xs room h = h
  report-lt key (some x) xs room h = omega (arith, h)

  recover_loop_short :
      (keys : List Bytes) (room : ℕ)
      → length (recover_loop tables keys room).0 < room
      → drop (recover_loop tables keys room).1 keys ≡ []
  unfolding recover_loop
  recover_loop_short [] room h = refl
  recover_loop_short (key ∷ keys) zero h = absurd (omega (arith, h))
  recover_loop_short (key ∷ keys) (suc room) h =
      recover_loop_short keys (room_after (xid_from_key key) room) (
        report-lt key (xid_from_key key)
          (recover_loop tables keys (room_after (xid_from_key key) room)).0 room h)

register_prepared_loaded :
    (buf : List (Bytes × ℕ)) (r : Registry)
    → r.recovery_loaded ≡ true
    → (register_prepared buf r).recovery_loaded ≡ true
unfolding register_prepared
register_prepared_loaded [] r h = h
register_prepared_loaded ((key, txn) ∷ buf) r h = register_prepared_loaded buf _ h

load_counted_loaded :
    (lib : Prepared) (count : Option ℕ) (r : Registry)
    → r.recovery_loaded ≡ true
    → (load_counted lib count r).recovery_loaded ≡ true
unfolding load_counted register_answer
load_counted_loaded lib none r h = h
load_counted_loaded lib (some zero) r h = h
load_counted_loaded lib (some (suc n)) r h = answer_loaded (lib.recover_prepared (suc n))
  where
    answer_loaded :
        (answer : Option (List (Bytes × ℕ))) → (register_answer answer r).recovery_loaded ≡ true
    answer_loaded none = h
    answer_loaded (some buf) = register_prepared_loaded buf r h

-- Loading a second time changes nothing.
load_loaded :
    (lib : Prepared) (r : Registry) → (load_recovered_prepared lib r).recovery_loaded ≡ true
unfolding load_recovered_prepared
load_loaded lib r = elim (Bool-cases r.recovery_loaded) [
  | inl e ↦ rw e refl
  | inr e ↦ elim (Bool-cases lib.opened) [
    | inl o ↦
        rw (e, o) (load_counted_loaded lib lib.count (record r { recovery_loaded = true }) refl)
    | inr o ↦ rw (e, o) refl
  ]
]

load_again :
    (lib : Prepared) (r : Registry) → r.recovery_loaded ≡ true → load_recovered_prepared lib r ≡ r
unfolding load_recovered_prepared
load_again lib r h = rw h refl

drop_nil {ℓ} : {A : Type ℓ} (n : ℕ) → drop {A = A} n [] ≡ []
drop_nil zero = refl
drop_nil (suc n) = refl

drop_add {ℓ} : {A : Type ℓ} (m n : ℕ) (xs : List A) → drop (m + n) xs ≡ drop n (drop m xs)
drop_add zero n xs = ap (λ k. drop k xs) (omega arith)
drop_add (suc m) n [] = drop_nil (suc m + n) ∙ sym (drop_nil n)
drop_add (suc m) n (x ∷ xs) =
    ap (λ k. drop k (x ∷ xs)) {y = suc (m + n)} (omega arith) ∙ drop_add m n xs

-- One call of `tidesdb_recover` fills no more than the room it is given, reports the first of what
-- is unreported and leaves the rest, and leaves nothing where it fills less than the room.
pub recover_batch :
    (lib : Prepared) (len : ℕ) (r : Registry)
    → ((recover lib (suc len) r).0 ++ unreported lib (recover lib (suc len) r).1 ≡ unreported lib r)
      × (length (recover lib (suc len) r).0 ≤ suc len)
      × (length (recover lib (suc len) r).0 < suc len
          → unreported lib (recover lib (suc len) r).1 ≡ [])
unfolding recover unreported
recover_batch lib len r =
    rw
      (
        load_again lib next (load_loaded lib r),
        drop_add loaded.recovery_pos passed loaded.recovery_xids,
      )
      (
        recover_loop_all loaded.mod_tables left (suc len),
        recover_loop-le loaded.mod_tables left (suc len),
        λ h.
            ap (all_slots loaded.mod_tables) (recover_loop_short loaded.mod_tables left (suc len) h)
            ∙ (unfold all_slots in refl),
      )
  where
    loaded : Registry
    loaded = load_recovered_prepared lib r

    left : List Bytes
    left = drop loaded.recovery_pos loaded.recovery_xids

    passed : ℕ
    passed = (recover_loop loaded.mod_tables left (suc len)).1

    next : Registry
    next = record loaded { recovery_pos = loaded.recovery_pos + passed }

-- The calls together report what is unreported.
drain-unreported :
    (lib : Prepared) (rounds len : ℕ) (r : Registry)
    → length (unreported lib r) ≤ rounds
    → drain lib rounds (suc len) r ≡ unreported lib r
unfolding drain
drain-unreported lib zero len r h = no_entry (unreported lib r) h
  where
    no_entry : (xs : List Slot) → length xs ≤ 0 → [] ≡ xs
    no_entry [] h = refl
    no_entry (x ∷ xs) h = absurd (omega (arith, h))
drain-unreported lib (suc rounds) len r h =
    ap (λ t. batch.0 ++ t) (drain-unreported lib rounds len batch.1 fewer)
    ∙ (recover_batch lib len r).0
  where
    batch : List Slot × Registry
    batch = recover lib (suc len) r

    sizes : length batch.0 + length (unreported lib batch.1) ≤ suc rounds
    sizes = omega (
      arith,
      h,
      length-append batch.0 (unreported lib batch.1),
      ap length (recover_batch lib len r).0,
    )

    fewer : length (unreported lib batch.1) ≤ rounds
    fewer = elim (Bool-cases (ltb (length batch.0) (suc len))) [
      | inl short ↦
          omega (
            arith,
            ap length ((recover_batch lib len r).2 (ltb→lt (length batch.0) (suc len) short)),
          )
      | inr full ↦ ground (arith, sizes)
    ]

unfoldable pub names_of : Option TableNames → TableNames
names_of none = []
names_of (some known) = known

unfoldable pub slot_of : TableNames → Option Xid → List Slot
slot_of names none = []
slot_of names (some xid) = (xid, names) ∷ []

-- The entries of the transactions that the storage library answers: those whose keys are XIDs, with
-- the tables that are known of each.
unfoldable pub prepared_slots : (Bytes → Option TableNames) → List (Bytes × ℕ) → List Slot
unfolding names_of slot_of
prepared_slots tables [] = []
prepared_slots tables ((key, txn) ∷ buf) =
    slot_of (names_of (tables key)) (xid_from_key key) ++ prepared_slots tables buf

unfoldable keys : List (Bytes × ℕ) → List Bytes
keys buf = map (λ (e : Bytes × ℕ). e.0) buf

report-slot_of :
    (tables : Bytes → Option TableNames) (key : Bytes) (o : Option Xid) (slots : List Slot)
    → report tables key o slots ≡ slot_of (names_of (tables key)) o ++ slots
unfolding report attached slot_of names_of
report-slot_of tables key none slots = refl
report-slot_of tables key (some xid) slots = named (tables key)
  where
    named :
        (known : Option TableNames)
        → ((xid, attached known) ∷ slots) ≡ ((xid, names_of known) ∷ []) ++ slots
    named none = refl
    named (some names) = refl

prepared_slots_lem :
    (tables : Bytes → Option TableNames) (buf : List (Bytes × ℕ))
    → all_slots tables (keys buf) ≡ prepared_slots tables buf
unfolding all_slots prepared_slots keys
prepared_slots_lem tables [] = refl
prepared_slots_lem tables ((key, txn) ∷ buf) =
    report-slot_of tables key (xid_from_key key) (all_slots tables (keys buf))
    ∙ ap (λ slots. slot_of (names_of (tables key)) (xid_from_key key) ++ slots)
        (prepared_slots_lem tables buf)

length-prepared_slots :
    (tables : Bytes → Option TableNames) (buf : List (Bytes × ℕ))
    → length (prepared_slots tables buf) ≤ length buf
unfolding prepared_slots slot_of
length-prepared_slots tables [] = omega arith
length-prepared_slots tables ((key, txn) ∷ buf) =
    one_more (length-prepared_slots tables buf) (xid_from_key key)
  where
    one_more :
        length (prepared_slots tables buf) ≤ length buf
        → (o : Option Xid)
        → length (slot_of (names_of (tables key)) o ++ prepared_slots tables buf) ≤ suc (length buf)
    one_more h none = omega (arith, h)
    one_more h (some xid) = omega (arith, h)

register_prepared-recovery_xids :
    (buf : List (Bytes × ℕ)) (r : Registry)
    → ((register_prepared buf r).recovery_xids ≡ r.recovery_xids ++ keys buf)
      × ((register_prepared buf r).mod_tables ≡ r.mod_tables)
      × ((register_prepared buf r).recovery_pos ≡ r.recovery_pos)
unfolding register_prepared keys
register_prepared-recovery_xids [] r = (sym (append-nil r.recovery_xids), refl, refl)
register_prepared-recovery_xids ((key, txn) ∷ buf) r =
    let (xids, tables, pos) = register_prepared-recovery_xids buf (record r {
      txns = set_entry key (some txn) r.txns;
      recovery_xids = r.recovery_xids ++ (key ∷ []);
    }) in
    (xids ∙ append_assoc r.recovery_xids (key ∷ []) (keys buf), tables, pos)

-- Nothing was loaded or reported yet.
abbrev pub IsUnloaded : Registry → Type 0
IsUnloaded r = (r.recovery_loaded ≡ false) × (r.recovery_pos ≡ 0) × (r.recovery_xids ≡ [])

-- A server that calls `tidesdb_recover` again and again from the start, with room for one XID or
-- more at each call, gets every transaction that the storage library answers and whose key parses,
-- once and in order and with the tables that are known of it, after as many calls as the library
-- answers transactions. The database is open, the library counts one transaction or more and
-- answers them, and nothing was loaded or reported before.
pub drain_lem :
    (lib : Prepared) (rounds len n : ℕ) (buf : List (Bytes × ℕ)) (r : Registry)
    → lib.opened ≡ true
    → lib.count ≡ some (suc n)
    → lib.recover_prepared (suc n) ≡ some buf
    → IsUnloaded r
    → length buf ≤ rounds
    → drain lib rounds (suc len) r ≡ prepared_slots r.mod_tables buf
drain_lem lib rounds len n buf r opened counted answered (fresh, start, empty) h =
    drain-unreported lib rounds len r (omega (arith, ap length all, few)) ∙ all
  where
    opening : Registry
    opening = record r { recovery_loaded = true }

    loading : load_recovered_prepared lib r ≡ register_prepared buf opening
    loading =
        unfold load_recovered_prepared load_counted register_answer in
        rw (fresh, opened, counted, answered) refl

    all : unreported lib r ≡ prepared_slots r.mod_tables buf
    all =
        unfold unreported in
        rw loading (
          let (xids, tables, pos) = register_prepared-recovery_xids buf opening in
          rw (xids, tables, pos, start, empty) (prepared_slots_lem r.mod_tables buf))

    few : length (prepared_slots r.mod_tables buf) ≤ length buf
    few = length-prepared_slots r.mod_tables buf
