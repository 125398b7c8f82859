-- ===== src/CfName.antt =====
-- The names of tidesdb/src/core/cf_name.{h,cc}: the table path of the server, split into database and
-- table, and the name of the column family. A std::string is the list of its bytes.
pub mod Paths
use tidesql_mysql.Base.{◌+◌, ◌/◌}
use tidesql_mysql.Base.{Bool, true, false, not, ◌&&◌, Option, none, some}
use tidesql_mysql.Base.{[], ◌∷◌, ◌++◌}
use tidesql_mysql.Base.{◌==◌, if◌then◌else◌}
use tidesql_mysql.Base.Bytes.{Bytes}

pub record TablePath : Type 0 where
  pub db : Bytes
  pub table : Bytes
  pub has_dir : Bool

-- The path without the prefix "./".
unfoldable pub strip_prefix : Bytes → Bytes
strip_prefix [] = []
strip_prefix (a ∷ []) = a ∷ []
strip_prefix (a ∷ (b ∷ p)) = if a == b'.' && b == b'/' then p else a ∷ (b ∷ p)

-- What stands before and behind the last slash, if there is one.
unfoldable pub split_last : Bytes → Option (Bytes × Bytes)
split_last [] = none
split_last (c ∷ p) = elim (split_last p) [
  | some r ↦ some (c ∷ r.0, r.1)
  | none ↦ if c == b'/' then some ([], p) else none
]

-- The component at the end of a path, with the last slash that was found in it.
unfoldable pub component : Bytes → Option (Bytes × Bytes) → Bytes
component p none = p
component p (some r) = r.1

unfoldable pub last_component : Bytes → Bytes
unfolding component
last_component p = component p (split_last p)

unfoldable pub table_path : Bytes → Option (Bytes × Bytes) → TablePath
unfolding last_component
table_path p none = record { db = []; table = p; has_dir = false }
table_path p (some r) = record { db = last_component r.0; table = r.1; has_dir = true }

unfoldable pub split_table_path : Bytes → TablePath
unfolding strip_prefix split_last table_path
split_table_path path = table_path (strip_prefix path) (split_last (strip_prefix path))

abbrev pub db_table_sep : Bytes
db_table_sep = b'_' ∷ (b'_' ∷ [])

-- The loop over the characters of the name.
unfoldable pub replace_markers : Bytes → Bytes
replace_markers [] = []
replace_markers (c ∷ name) = (if c == b'#' then b'_' else c) ∷ replace_markers name

unfoldable pub cf_name_of : TablePath → Bytes
unfolding replace_markers
cf_name_of tp =
    if not tp.has_dir then tp.table else replace_markers (tp.db ++ (db_table_sep ++ tp.table))

unfoldable pub to_cf_name : Bytes → Bytes
unfolding split_table_path cf_name_of
to_cf_name path = cf_name_of (split_table_path path)
