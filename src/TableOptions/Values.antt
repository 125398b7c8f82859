-- ===== src/TableOptions/Values.antt =====
-- The readers of one option value in table_options.cc. A C string is the list of the bytes before
-- its NUL, a NULL-terminated list of names the list of them, and a null list `none`.
use tidesql_mysql.Base.{◌>>=◌}
use tidesql_mysql.TableOptions.{max_u64}
use tidesql_mysql.Base.Text.{codes}
use tidesql_mysql.Base.{ℕ, ◌+◌, ◌-◌, ◌*◌, ◌/◌}
use tidesql_mysql.Base.{Bool, true, false, not, ◌&&◌, ◌||◌, Option, none, some}
use tidesql_mysql.Base.{List, [], ◌∷◌, length}
use tidesql_mysql.Base.{ltb, leb, ◌==◌, if◌then◌else◌}
use tidesql_mysql.Base.Bytes.{Bytes, equal}

-- In the C locale.
unfoldable pub tolower : ℕ → ℕ
tolower c = if leb b'A' c && leb c b'Z' then c + 32 else c

unfoldable pub eq_nocase : Bytes → Bytes → Bool
unfolding tolower
eq_nocase [] [] = true
eq_nocase [] (b ∷ bs) = false
eq_nocase (a ∷ as_) [] = false
eq_nocase (a ∷ as_) (b ∷ bs) = if not (tolower a == tolower b) then false else eq_nocase as_ bs

unfoldable pub to_bool : Bytes → Option Bool
unfolding eq_nocase
to_bool v =
    if (eq_nocase v (codes "true") || eq_nocase v (codes "yes"))
      || (eq_nocase v (codes "on") || equal v (codes "1"))
    then some true
    else if (eq_nocase v (codes "false") || eq_nocase v (codes "no"))
        || (eq_nocase v (codes "off") || equal v (codes "0"))
    then some false
    else none

unfoldable pub is_digit : ℕ → Bool
is_digit c = leb b'0' c && leb c b'9'

-- The loop of `to_number`, with the value of the digits read.
unfoldable pub to_number_loop : ℕ → Bytes → Option ℕ
unfolding is_digit
to_number_loop n [] = some n
to_number_loop n (c ∷ v) =
    let digit = c - b'0' in
    let rest = to_number_loop (n * 10 + digit) v in
    if not (is_digit c) then none else if ltb ((max_u64 - digit) / 10) n then none else rest

unfoldable pub to_number : Bytes → Option ℕ
to_number [] = none
to_number (c ∷ v) = to_number_loop 0 (c ∷ v)

-- The place of the first name that `v` spells, from place `i` on.
unfoldable pub find_name : Bytes → List Bytes → ℕ → Option ℕ
find_name v [] i = none
find_name v (name ∷ names) i = if eq_nocase v name then some i else find_name v names (i + 1)

-- The position itself, when no name is spelled.
unfoldable pub to_position : Bytes → List Bytes → Option ℕ
to_position v names = do n ← to_number v; if leb (length names) n then none else some n

unfoldable pub to_enum : Bytes → Option (List Bytes) → Option ℕ
unfolding find_name to_position
to_enum v none = none
to_enum v (some names) = elim (find_name v names 0) [ some i ↦ some i | none ↦ to_position v names ]
