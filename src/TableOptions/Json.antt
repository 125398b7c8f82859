-- ===== src/TableOptions/Json.antt =====
-- The readers of the object's text in table_options.cc. The cursor is the list of the bytes not yet
-- read, and `none` is the answer false.
use tidesql_mysql.Base.{ℕ}
use tidesql_mysql.Base.{Bool, not, ◌||◌, Option, none, some, ◌>>=◌}
use tidesql_mysql.Base.{[], ◌∷◌}
use tidesql_mysql.Base.{◌==◌, if◌then◌else◌}
use tidesql_mysql.Base.Bytes.{Bytes}

unfoldable pub is_space : ℕ → Bool
is_space c = (c == b' ' || c == b'\t') || (c == b'\n' || c == b'\r')

unfoldable pub skip_space : Bytes → Bytes
unfolding is_space
skip_space [] = []
skip_space (c ∷ p) = if is_space c then skip_space p else c ∷ p

-- What an escape stands for.
unfoldable pub unescape : ℕ → Option ℕ
unescape esc =
    if (esc == b'"' || esc == b'\\') || esc == b'/'
    then some esc
    else if esc == b'b'
    then some 8
    else if esc == b'f'
    then some 12
    else if esc == b'n'
    then some 10
    else if esc == b'r'
    then some 13
    else if esc == b't'
    then some 9
    else none

-- `out` with one byte more in front of what is read after it.
abbrev push_back : ℕ → Option (Bytes × Bytes) → Option (Bytes × Bytes)
push_back c r = r >>= λ s. some (c ∷ s.0, s.1)

-- The loop of `read_string`: the text up to the closing quote, and the cursor behind it.
unfoldable pub read_chars : Bytes → Option (Bytes × Bytes)
unfolding unescape
read_chars [] = none
read_chars (c ∷ []) = if c == b'"' then some ([], []) else none
read_chars (c ∷ (esc ∷ p)) =
    let plain = push_back c (read_chars (esc ∷ p)) in
    let escaped = unescape esc >>= λ e. push_back e (read_chars p) in
    if c == b'"' then some ([], esc ∷ p) else if not (c == b'\\') then plain else escaped

unfoldable pub read_string : Bytes → Option (Bytes × Bytes)
unfolding read_chars
read_string [] = none
read_string (c ∷ p) = if not (c == b'"') then none else read_chars p

unfoldable pub ends_value : ℕ → Bool
ends_value c = (c == b',' || c == b'}') || is_space c

-- The loop of `read_value` over a bare value.
unfoldable pub read_bare : Bytes → Option (Bytes × Bytes)
unfolding ends_value is_space
read_bare [] = some ([], [])
read_bare (c ∷ p) =
    let rest = push_back c (read_bare p) in
    if ends_value c then some ([], c ∷ p) else if c == b'{' || c == b'[' then none else rest

-- A bare value has a byte.
unfoldable pub non_empty : Bytes × Bytes → Option (Bytes × Bytes)
non_empty ([], p) = none
non_empty (c ∷ out, p) = some (c ∷ out, p)

-- `read_value` behind the spaces.
unfoldable pub read_value_at : Bytes → Option (Bytes × Bytes)
read_value_at [] = none
read_value_at (c ∷ p) = if c == b'"' then read_string (c ∷ p) else read_bare (c ∷ p) >>= non_empty

unfoldable pub read_value : Bytes → Option (Bytes × Bytes)
unfolding read_value_at
read_value p = read_value_at (skip_space p)
