-- ===== src/Txn/ModTables.antt =====
-- `ha_tidesdb::note_modified_table` of ha_tidesdb_txn.cc: the tables that a transaction has written.
use tidesql_mysql.Txn.{is_success, Library, Trx, next_generation, rollback_to_savepoint, stmt_name}
use tidesql_mysql.Txn.Savepoints.{stmt_savepoint_rollback}
use tidesql_mysql.Xid.{TableNames}
use tidesql_mysql.Base.Bytes.{equal_iff}
use tidesql_mysql.Base.{ℕ, suc, ◌^◌, ◌<◌}
use tidesql_mysql.Base.{◌≡◌, refl, sym, ap, ap₂, ◌∙◌, ◌≢◌, inl, inr, arith}
use tidesql_mysql.Base.{Bool, true, false, not, ◌&&◌, ◌||◌, Option, none, some}
use tidesql_mysql.Base.{[], ◌∷◌, ◌++◌}
use tidesql_mysql.Base.{◌==◌, if◌then◌else◌, ==_iff}
use tidesql_mysql.Base.{Bool-cases}
use tidesql_mysql.Base.Bytes.{Bytes, equal}

-- A database and a table.
abbrev pub TableName : Type 0
TableName = Bytes × Bytes

unfoldable pub has_table : TableName → TableNames → Bool
has_table name [] = false
has_table name (have ∷ names) = (equal have.0 name.0 && equal have.1 name.1) || has_table name names

-- The list of a transaction that is not the one it was kept for starts empty.
unfoldable pub current_tables : Trx → Trx
current_tables trx =
    if trx.mod_tables_generation == trx.txn_generation
    then trx
    else record trx { mod_tables = []; mod_tables_generation = trx.txn_generation }

-- A handler without a table, or with a part of its name empty, adds none.
unfoldable pub add_table : Option TableName → Trx → Trx
unfolding has_table
add_table none trx = trx
add_table (some ([], table)) trx = trx
add_table (some (c ∷ db, [])) trx = trx
add_table (some (c ∷ db, t ∷ table)) trx =
    if has_table (c ∷ db, t ∷ table) trx.mod_tables
    then trx
    else record trx { mod_tables = trx.mod_tables ++ ((c ∷ db, t ∷ table) ∷ []) }

-- With the handler's table and the generation that it has noted, which is returned.
unfoldable pub note_modified_table : Option TableName → ℕ → Option Trx → ℕ × Option Trx
unfolding current_tables add_table
note_modified_table name noted none = (noted, none)
note_modified_table name noted (some trx) =
    let added = add_table name (current_tables trx) in
    if noted == trx.txn_generation then (noted, some trx) else (trx.txn_generation, some added)

-- The name of a table of the server.
abbrev pub IsNamed : TableName → Type 0
IsNamed name = (name.0 ≢ []) × (name.1 ≢ [])

abbrev is_same : TableName → TableName → Bool
is_same a b = equal a.0 b.0 && equal a.1 b.1

both : (p q : Bool) → (p && q) ≡ true → (p ≡ true) × (q ≡ true)
both true q e = (refl, e)
both false q e = absurd cc

is_same_sound : (a b : TableName) → is_same a b ≡ true → (a.0 ≡ b.0) × (a.1 ≡ b.1)
is_same_sound a b e = (
  (equal_iff a.0 b.0).0 (both (equal a.0 b.0) (equal a.1 b.1) e).0,
  (equal_iff a.1 b.1).0 (both (equal a.0 b.0) (equal a.1 b.1) e).1,
)

add_table-generation :
    (name : TableName) (trx : Trx)
    → (add_table (some name) trx).mod_tables_generation ≡ trx.mod_tables_generation
unfolding add_table
add_table-generation ([], table) trx = refl
add_table-generation (c ∷ db, []) trx = refl
add_table-generation (c ∷ db, t ∷ table) trx =
    elim (Bool-cases (has_table (c ∷ db, t ∷ table) trx.mod_tables)) [
      | inl e ↦ rw e refl
      | inr e ↦ rw e refl
    ]

add_table-first :
    (name : TableName) (trx : Trx)
    → IsNamed name
    → trx.mod_tables ≡ []
    → (add_table (some name) trx).mod_tables ≡ name ∷ []
unfolding add_table has_table
add_table-first ([], table) trx h e = absurd (h.0 refl)
add_table-first (c ∷ db, []) trx h e = absurd (h.1 refl)
add_table-first (c ∷ db, t ∷ table) trx h e = rw e refl

differs : (m n : ℕ) → m ≢ n → (m == n) ≡ false
differs m n h = elim (Bool-cases (m == n)) [ inl e ↦ absurd (h ((==_iff m n).0 e)) | inr e ↦ e ]

note_lem :
    (name : TableName) (noted : ℕ) (trx : Trx)
    → noted ≢ trx.txn_generation
    → note_modified_table (some name) noted (some trx)
      ≡ (trx.txn_generation, some (add_table (some name) (current_tables trx)))
unfolding note_modified_table
note_lem name noted trx fresh = rw (differs noted trx.txn_generation fresh) refl

current_same :
    (trx : Trx) → trx.mod_tables_generation ≡ trx.txn_generation → current_tables trx ≡ trx
unfolding current_tables
current_same trx e = rw ((==_iff trx.mod_tables_generation trx.txn_generation).1 e) refl

current_other :
    (trx : Trx)
    → trx.mod_tables_generation ≢ trx.txn_generation
    → (current_tables trx).mod_tables ≡ []
unfolding current_tables
current_other trx ne = rw (differs trx.mod_tables_generation trx.txn_generation ne) refl

-- How often a name stands in a list.
unfoldable pub occurrences : TableName → TableNames → ℕ
occurrences name [] = 0
occurrences name (have ∷ names) =
    if equal have.0 name.0 && equal have.1 name.1
    then suc (occurrences name names)
    else occurrences name names

occurrences-append :
    (x y : TableName) (names : TableNames)
    → occurrences x (names ++ (y ∷ []))
      ≡ (if is_same y x then suc (occurrences x names) else occurrences x names)
unfolding occurrences
occurrences-append x y [] = refl
occurrences-append x y (n ∷ names) = elim (Bool-cases (is_same n x)) [
  | inr e ↦ rw e (occurrences-append x y names)
  | inl e ↦ rw e (ap suc (occurrences-append x y names) ∙ suc_under (is_same y x))
]
  where
    suc_under :
        (b : Bool)
        → suc (if b then suc (occurrences x names) else occurrences x names)
          ≡ (if b then suc (suc (occurrences x names)) else suc (occurrences x names))
    suc_under true = refl
    suc_under false = refl

occurrences-has_table :
    (x : TableName) (names : TableNames) → has_table x names ≡ not (occurrences x names == 0)
unfolding occurrences has_table
occurrences-has_table x [] = refl
occurrences-has_table x (n ∷ names) = elim (Bool-cases (is_same n x)) [
  | inl e ↦ rw e (there (occurrences x names))
  | inr e ↦ rw e (occurrences-has_table x names)
]
  where
    there : (n : ℕ) → true ≡ not (suc n == 0)
    there n = ground arith

-- What `add_table` makes of the number of occurrences.
abbrev once : Bool → ℕ → ℕ
once b n = if b then (if n == 0 then 1 else n) else n

occurrences-add_table :
    (name x : TableName) (trx : Trx)
    → IsNamed name
    → occurrences x (add_table (some name) trx).mod_tables
      ≡ once (is_same name x) (occurrences x trx.mod_tables)
unfolding add_table
occurrences-add_table ([], table) x trx h = absurd (h.0 refl)
occurrences-add_table (c ∷ db, []) x trx h = absurd (h.1 refl)
occurrences-add_table (c ∷ db, t ∷ table) x trx h =
    elim (Bool-cases (has_table (c ∷ db, t ∷ table) trx.mod_tables)) [
      | inl e ↦ rw e (elim (Bool-cases (is_same (c ∷ db, t ∷ table) x)) [
        | inr s ↦ rw s refl
        | inl s ↦ rw s (sym (some_yet (occurrences x trx.mod_tables) (counted s ∙ e)))
      ])
      | inr e ↦ rw e (
          occurrences-append x (c ∷ db, t ∷ table) trx.mod_tables
          ∙ elim (Bool-cases (is_same (c ∷ db, t ∷ table) x)) [
            | inr s ↦ rw s refl
            | inl s ↦ rw (s, none_yet (occurrences x trx.mod_tables) (counted s ∙ e)) refl
          ])
    ]
  where
    counted :
        (is_same (c ∷ db, t ∷ table) x ≡ true)
        → not (occurrences x trx.mod_tables == 0) ≡ has_table (c ∷ db, t ∷ table) trx.mod_tables
    counted s =
        sym (occurrences-has_table x trx.mod_tables)
        ∙ sym (
            ap₂ (λ a b. has_table (a, b) trx.mod_tables) (is_same_sound (c ∷ db, t ∷ table) x s).0
              (is_same_sound (c ∷ db, t ∷ table) x s).1)

    none_yet : (n : ℕ) → not (n == 0) ≡ false → n ≡ 0
    none_yet n e = ground arith

    some_yet : (n : ℕ) → not (n == 0) ≡ true → (if n == 0 then 1 else n) ≡ n
    some_yet n e = ground arith

-- In the generation that the list of tables is kept for, a handler that has not noted its table
-- yet adds it once: afterwards the list has that table as often as before, or once where it was
-- not there, and every other table as often as before. The names of database and table are not
-- empty.
pub note_modified_table-occurrences :
    (name : TableName) (noted : ℕ) (trx : Trx)
    → IsNamed name
    → noted ≢ trx.txn_generation
    → trx.mod_tables_generation ≡ trx.txn_generation
    → (trx' : Trx) × (note_modified_table (some name) noted (some trx)
        ≡ (trx.txn_generation, some trx'))
      × (trx'.mod_tables_generation ≡ trx.txn_generation)
      × ((x : TableName)
          → occurrences x trx'.mod_tables ≡ (
              if equal name.0 x.0 && equal name.1 x.1
              then (if occurrences x trx.mod_tables == 0 then 1 else occurrences x trx.mod_tables)
              else occurrences x trx.mod_tables))
note_modified_table-occurrences name noted trx named fresh same = (
  add_table (some name) trx,
  note_lem name noted trx fresh
      ∙ ap (λ t. (trx.txn_generation, some (add_table (some name) t))) (current_same trx same),
  add_table-generation name trx ∙ same,
  λ x. occurrences-add_table name x trx named,
)

next_generation_differs : (g : ℕ) → g < 2 ^ 64 → g ≢ next_generation g
next_generation_differs g h e = omega (arith, h, e)

module _ (L : Library) where
  open L use {Db, call}

  -- After a rollback of a statement, the next table that is noted is the only one in the list: the
  -- tables that earlier statements of the transaction wrote are forgotten. The savepoint was
  -- active and the library rolled back to it, the generation has 64 bits, and the list was kept
  -- for it.
  pub note_modified_table-stmt_savepoint_rollback :
      (h : ℕ) (name : TableName) (trx : Trx) (d : Db)
      → IsNamed name
      → trx.txn_generation < 2 ^ 64
      → trx.stmt_savepoint_active ≡ true
      → is_success (call h (rollback_to_savepoint stmt_name) d).0 ≡ true
      → trx.mod_tables_generation ≡ trx.txn_generation
      → (trx' : Trx) × (note_modified_table
            (some name)
            trx.txn_generation
            (some (stmt_savepoint_rollback L h trx d).1)
          ≡ (next_generation trx.txn_generation, some trx'))
        × (trx'.mod_tables ≡ (name ∷ []))
  unfolding stmt_savepoint_rollback
  note_modified_table-stmt_savepoint_rollback h name trx d named small active success same =
      rw (active, success)
        (
          add_table (some name) (current_tables undone),
          note_lem name trx.txn_generation undone
              (next_generation_differs trx.txn_generation small),
          add_table-first name (current_tables undone) named (
              current_other undone
                (λ e. next_generation_differs trx.txn_generation small (sym same ∙ e))),
        )
    where
      undone : Trx
      undone = record trx {
        fts_meta_pending = trx.stmt_fts_snapshot;
        fts_meta_dirty = trx.stmt_fts_dirty_snapshot;
        stmt_fts_snapshot = [];
        txn_generation = next_generation trx.txn_generation;
        stmt_savepoint_active = false;
      }
