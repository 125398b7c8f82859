-- ===== src/CfName/Paths.antt =====
-- The paths of cf_name.cc, taken apart and put together.
use tidesql_mysql.CfName.{
  TablePath, strip_prefix, split_last, component, last_component, table_path,
}
use tidesql_mysql.CfName.{split_table_path, replace_markers, cf_name_of, to_cf_name, db_table_sep}
use tidesql_mysql.Base.{suc, ◌+◌}
use tidesql_mysql.Base.{◌≡◌, refl, ap, ◌≢◌, arith}
use tidesql_mysql.Base.{true, false, none, some}
use tidesql_mysql.Base.{[], ◌∷◌, ◌++◌, length}
use tidesql_mysql.Base.{All, length-append}
use tidesql_mysql.Base.{◌==◌, if◌then◌else◌}
use tidesql_mysql.Base.Bytes.{Bytes}

abbrev pub NoSlash : Bytes → Type 0
NoSlash p = All (λ c. (c == b'/') ≡ false) p

split_last-none : (p : Bytes) → NoSlash p → split_last p ≡ none
unfolding split_last
split_last-none [] h = refl
split_last-none (c ∷ p) (k, h) = rw (split_last-none p h, k) refl

split_last-append : (q p : Bytes) → NoSlash p → split_last (q ++ (b'/' ∷ p)) ≡ some (q, p)
unfolding split_last
split_last-append [] p h = rw (split_last-none p h) refl
split_last-append (c ∷ q) p h = rw (split_last-append q p h) refl

last_component-alone : (p : Bytes) → NoSlash p → last_component p ≡ p
unfolding last_component component
last_component-alone p h = rw (split_last-none p h) refl

last_component-append : (q p : Bytes) → NoSlash p → last_component (q ++ (b'/' ∷ p)) ≡ p
unfolding last_component component
last_component-append q p h = rw (split_last-append q p h) refl

-- What a path of a database and a table is read as.
abbrev pub IsTablePath : TablePath → Bytes → Bytes → Type 0
IsTablePath tp db table = (tp.db ≡ db) × (tp.table ≡ table) × (tp.has_dir ≡ true)

-- The path "./db/table" and a path with directories before it, "./dirs/db/table", are read as that
-- database and that table, if neither name holds a slash.
pub split_table_path-join :
    (dirs db table : Bytes)
    → NoSlash db
    → NoSlash table
    → IsTablePath (split_table_path (b'.' ∷ (b'/' ∷ (db ++ (b'/' ∷ table))))) db table
      × IsTablePath
          (split_table_path (b'.' ∷ (b'/' ∷ ((dirs ++ (b'/' ∷ db)) ++ (b'/' ∷ table)))))
          db
          table
unfolding split_table_path strip_prefix table_path
split_table_path-join dirs db table h k = (
  rw (split_last-append db table k) (last_component-alone db h, refl, refl),
  rw (split_last-append (dirs ++ (b'/' ∷ db)) table k)
      (last_component-append dirs db h, refl, refl),
)

abbrev pub NoMarker : Bytes → Type 0
NoMarker name = All (λ c. c ≢ b'#') name

replace_markers-NoMarker : (name : Bytes) → NoMarker (replace_markers name)
unfolding replace_markers
replace_markers-NoMarker [] = tt
replace_markers-NoMarker (c ∷ name) = (plain, replace_markers-NoMarker name)
  where
    plain : (if c == b'#' then b'_' else c) ≢ b'#'
    plain e = ground arith

length-replace_markers : (name : Bytes) → length (replace_markers name) ≡ length name
unfolding replace_markers
length-replace_markers [] = refl
length-replace_markers (c ∷ name) = ap suc (length-replace_markers name)

cf_name_of-NoMarker :
    (tp : TablePath)
    → tp.has_dir ≡ true
    → NoMarker (cf_name_of tp) × (length (cf_name_of tp) ≡ length tp.db + 2 + length tp.table)
unfolding cf_name_of
cf_name_of-NoMarker tp h = rw h (
  replace_markers-NoMarker (tp.db ++ (db_table_sep ++ tp.table)),
  omega (
    arith,
    length-replace_markers (tp.db ++ (db_table_sep ++ tp.table)),
    length-append tp.db (db_table_sep ++ tp.table),
  ),
)

-- A name of a column family that is made from a path with a directory holds no `#`, and has the
-- length of the two names with the separator.
pub to_cf_name-NoMarker :
    (path : Bytes)
    → (split_table_path path).has_dir ≡ true
    → NoMarker (to_cf_name path)
      × (length (to_cf_name path)
          ≡ length ((split_table_path path).db) + 2 + length ((split_table_path path).table))
unfolding to_cf_name
to_cf_name-NoMarker path h = cf_name_of-NoMarker (split_table_path path) h
