-- ===== src/TableOptions/Parse.antt =====
-- parse_attributes and parse_column_attributes of table_options.cc. Both walk the members of one JSON
-- object and differ in what they store for a member, so the walk is written over that store. The
-- pointers `inout`, `is_ttl_source` and `error` are given; a null `json` is `none`. The walk is on
-- fuel, and `none` is the lack of it. A failure keeps what was stored before it.
use tidesql_mysql.TableOptions.{Options, Kind, Spec, specs}
use tidesql_mysql.TableOptions.Values.{eq_nocase, to_bool, to_number, to_enum}
use tidesql_mysql.TableOptions.Json.{skip_space, read_string, read_value}
use tidesql_mysql.Base.Text.{codes}
use tidesql_mysql.Base.{ℕ, zero, suc}
use tidesql_mysql.Base.{Bool, false, not, ◌||◌, Option, none, some}
use tidesql_mysql.Base.{List, [], ◌∷◌, length}
use tidesql_mysql.Base.{ltb, ◌==◌, if◌then◌else◌}
use tidesql_mysql.Base.Bytes.{Bytes}

-- The messages, with the texts they quote.
pub data ParseError : Type 0 where
  not_an_object expected_name trailing_text : ParseError
  expected_colon expected_value unknown_option expected_separator : Bytes → ParseError
  not_yes_or_no not_a_number out_of_range not_recognised : Bytes → Bytes → ParseError

pub data Outcome (S : Type 0) : Type 0 where
  done : S → Outcome S
  failed : ParseError → S → Outcome S

-- A name, its value and the cursor behind them, or why there is none.
pub data Member : Type 0 where
  member : Bytes → Bytes → Bytes → Member
  broken : ParseError → Member

-- The value after a name, from the place of the colon.
unfoldable pub read_after_name : Bytes → Bytes → Member
read_after_name name [] = broken (expected_colon name)
read_after_name name (c ∷ p) =
    if not (c == b':')
    then broken (expected_colon name)
    else elim (read_value p) [ none ↦ broken (expected_value name) | some r ↦ member name r.0 r.1 ]

-- The rest of a member, with what `read_string` gave for its name.
unfoldable pub named : Option (Bytes × Bytes) → Member
unfolding read_after_name
named none = broken expected_name
named (some (name, p)) = read_after_name name (skip_space p)

unfoldable pub read_member : Bytes → Member
unfolding named
read_member p = named (read_string (skip_space p))

module _ {S : Type 0} (store : Bytes → Bytes → S → Outcome S) where
  -- The end of the walk, with what stands behind the closing brace and its spaces.
  unfoldable pub close : Bytes → S → Outcome S
  close [] s = done s
  close (c ∷ p) s = failed trailing_text s

  -- What the walk does behind a member, from the first byte that is no space.
  unfoldable pub separator :
      (Bytes → S → Option (Outcome S)) → Bytes → Bytes → S → Option (Outcome S)
  separator next name [] s = some (failed (expected_separator name) s)
  separator next name (c ∷ p) s =
      if c == b','
      then next p s
      else if c == b'}'
      then some (close (skip_space p) s)
      else some (failed (expected_separator name) s)

  -- What is done with a member, then the walk behind it.
  unfoldable pub stored :
      (Bytes → S → Option (Outcome S)) → Bytes → Bytes → Outcome S → Option (Outcome S)
  stored next name rest (done s) = separator next name (skip_space rest) s
  stored next name rest (failed e s) = some (failed e s)

  unfoldable pub step_member : (Bytes → S → Option (Outcome S)) → Member → S → Option (Outcome S)
  step_member next (broken e) s = some (failed e s)
  step_member next (member name value rest) s = stored next name rest (store name value s)

  unfoldable pub members : ℕ → Bytes → S → Option (Outcome S)
  members zero p s = none
  members (suc fuel) p s = step_member (members fuel) (read_member p) s

  -- The inside of the object, unless it names no option. The walk skips these spaces once more.
  unfoldable pub inside : Bytes → S → Option (Outcome S)
  inside [] s = members 1 [] s
  inside (c ∷ p) s = if c == b'}' then some (done s) else members (suc (length (c ∷ p))) (c ∷ p) s

  -- The object, from its opening brace on.
  unfoldable pub object : Bytes → S → Option (Outcome S)
  object [] s = some (done s)
  object (c ∷ p) s =
      if not (c == b'{') then some (failed not_an_object s) else inside (skip_space p) s

  unfoldable pub parse_object : Option Bytes → S → Option (Outcome S)
  parse_object none s = some (done s)
  parse_object (some json) s = object (skip_space json) s

-- The first spec whose name is spelled.
unfoldable pub find_spec : Bytes → List Spec → Option Spec
find_spec name [] = none
find_spec name (s ∷ rest) = if eq_nocase name s.name then some s else find_spec name rest

abbrev when_some {ℓ} :
    {A : Type ℓ} → Option A → ParseError → Options → (A → Options) → Outcome Options
when_some none e o f = failed e o
when_some (some a) e o f = done (f a)

-- The number `n`, if the spec allows it.
unfoldable pub in_bounds : Spec → ℕ → Bool
in_bounds s n = not (ltb n s.low || ltb s.high n)

-- What `to_number` gave is stored, if the spec allows it.
unfoldable pub check_bounds :
    Spec → (ℕ → Options → Options) → Bytes → Bytes → Options → Option ℕ → Outcome Options
unfolding in_bounds
check_bounds s set name value o none = failed (not_a_number value name) o
check_bounds s set name value o (some n) =
    if in_bounds s n then done (set n o) else failed (out_of_range value name) o

module _ (compression_names isolation_names : Option (List Bytes)) where
  unfoldable pub store_kind : Spec → Kind → Bytes → Bytes → Options → Outcome Options
  unfolding check_bounds
  store_kind s (Kind.boolean set) name value o =
      when_some (to_bool value) (not_yes_or_no value name) o (λ b. set b o)
  store_kind s (Kind.number set) name value o = check_bounds s set name value o (to_number value)
  store_kind s (Kind.compression set) name value o =
      when_some (to_enum value compression_names) (not_recognised value name) o (λ e. set e o)
  store_kind s (Kind.isolation set) name value o =
      when_some (to_enum value isolation_names) (not_recognised value name) o (λ e. set e o)

  -- What is done with the spec that was found for the name.
  unfoldable pub store_spec : Bytes → Bytes → Options → Option Spec → Outcome Options
  unfolding store_kind
  store_spec name value o none = failed (unknown_option name) o
  store_spec name value o (some s) = store_kind s s.what name value o

  unfoldable pub store_option : Bytes → Bytes → Options → Outcome Options
  unfolding store_spec find_spec
  store_option name value o = store_spec name value o (find_spec name specs)

  unfoldable pub parse_attributes : Option Bytes → Options → Option (Outcome Options)
  parse_attributes json inout = parse_object store_option json inout

unfoldable pub store_column : Bytes → Bytes → Bool → Outcome Bool
store_column name value is_ttl_source =
    if not (eq_nocase name (codes "ttl"))
    then failed (unknown_option name) is_ttl_source
    else elim (to_bool value) [
      | none ↦ failed (not_yes_or_no value name) is_ttl_source
      | some b ↦ done b
    ]

unfoldable pub parse_column_attributes : Option Bytes → Option (Outcome Bool)
parse_column_attributes json = parse_object store_column json false
