-- ===== src/TableOptions/Fuel.antt =====
-- The walk over the members of an object ends: each member takes a byte at least.
use tidesql_mysql.TableOptions.{Options}
use tidesql_mysql.TableOptions.Json.{skip_space, read_string, read_chars, read_value, read_value_at}
use tidesql_mysql.TableOptions.Json.{read_bare, non_empty, is_space}
use tidesql_mysql.TableOptions.Parse.{Outcome, done, failed, Member, member, broken}
use tidesql_mysql.TableOptions.Parse.{
  read_after_name, named, read_member, separator, stored, step_member,
}
use tidesql_mysql.TableOptions.Parse.{
  members, inside, object, parse_object, store_option, store_column,
}
use tidesql_mysql.TableOptions.Parse.{parse_attributes, parse_column_attributes}
use tidesql_mysql.Base.{ℕ, zero, suc, ◌≤◌, ◌<◌}
use tidesql_mysql.Base.{◌≡◌, refl, ap, inl, inr, arith}
use tidesql_mysql.Base.{Bool, false, Option, none, some}
use tidesql_mysql.Base.{List, [], ◌∷◌, length}
use tidesql_mysql.Base.{◌==◌}
use tidesql_mysql.Base.{Bool-cases, Option-cases}
use tidesql_mysql.Base.Bytes.{Bytes}

length-skip_space : (p : Bytes) → length (skip_space p) ≤ length p
unfolding skip_space
length-skip_space [] = omega arith
length-skip_space (c ∷ p) = elim (Bool-cases (is_space c)) [
  | inl e ↦ rw e (omega (arith, length-skip_space p))
  | inr e ↦ rw e (omega arith)
]

read_chars_shorter : (p out rest : Bytes) → read_chars p ≡ some (out, rest) → length rest < length p
unfolding read_chars
read_chars_shorter [] out rest h = cc
read_chars_shorter (c ∷ []) out rest h = ground arith
read_chars_shorter (c ∷ (esc ∷ p)) out rest h = elim (Bool-cases (c == b'"')) [
  | inl q ↦ ground arith
  | inr q ↦ elim (Option-cases (read_chars (esc ∷ p))) [
    | inl e ↦ elim (Option-cases (read_chars p)) [
      | inl f ↦ ground arith
      | inr (s, f) ↦ ground (arith, read_chars_shorter p s.0 s.1 f)
    ]
    | inr (t, e) ↦ elim (Option-cases (read_chars p)) [
      | inl f ↦ ground (arith, read_chars_shorter (esc ∷ p) t.0 t.1 e)
      | inr (s, f) ↦
          ground (arith, read_chars_shorter (esc ∷ p) t.0 t.1 e, read_chars_shorter p s.0 s.1 f)
    ]
  ]
]

read_string_shorter :
    (p out rest : Bytes) → read_string p ≡ some (out, rest) → length rest < length p
unfolding read_string
read_string_shorter [] out rest h = cc
read_string_shorter (c ∷ p) out rest h = ground (arith, read_chars_shorter p out rest)

read_bare_shorter : (p out rest : Bytes) → read_bare p ≡ some (out, rest) → length rest ≤ length p
unfolding read_bare
read_bare_shorter [] out rest h = ground arith
read_bare_shorter (c ∷ p) out rest h = elim (Option-cases (read_bare p)) [
  | inl e ↦ ground arith
  | inr (s, e) ↦ ground (arith, read_bare_shorter p s.0 s.1 e)
]

non_empty_same : (r : Bytes × Bytes) (s : Bytes × Bytes) → non_empty r ≡ some s → s.1 ≡ r.1
unfolding non_empty
non_empty_same ([], p) s h = cc
non_empty_same (c ∷ out, p) s h = cc

read_value_at_shorter :
    (p out rest : Bytes) → read_value_at p ≡ some (out, rest) → length rest ≤ length p
unfolding read_value_at
read_value_at_shorter [] out rest h = cc
read_value_at_shorter (c ∷ p) out rest h = elim (Bool-cases (c == b'"')) [
  | inl e ↦ ground (arith, read_string_shorter (c ∷ p) out rest)
  | inr e ↦ elim (Option-cases (read_bare (c ∷ p))) [
    | inl f ↦ ground arith
    | inr (s, f) ↦ bare s f (ground arith)
  ]
]
  where
    bare :
        (s : Bytes × Bytes)
        → read_bare (c ∷ p) ≡ some s
        → non_empty s ≡ some (out, rest)
        → length rest ≤ suc (length p)
    bare s f k =
        omega
          (arith, ap length (non_empty_same s (out, rest) k), read_bare_shorter (c ∷ p) s.0 s.1 f)

-- A member leaves fewer bytes than it was read from.
Shorter : ℕ → Member → Type 0
Shorter n (member name value rest) = length rest < n
Shorter n (broken e) = Unit

read_after_name-Shorter :
    (name p : Bytes) (n : ℕ) → length p ≤ n → Shorter n (read_after_name name p)
unfolding read_after_name Shorter read_value
read_after_name-Shorter name [] n h = tt
read_after_name-Shorter name (c ∷ p) n h = elim (Bool-cases (c == b':')) [
  | inl e ↦ rw e (elim (Option-cases (read_value_at (skip_space p))) [
    | inl f ↦ rw f tt
    | inr (r, f) ↦
        rw f (omega (arith, length-skip_space p, read_value_at_shorter (skip_space p) r.0 r.1 f))
  ])
  | inr e ↦ rw e tt
]

named-Shorter :
    (r : Option (Bytes × Bytes)) (n : ℕ)
    → ((name p : Bytes) → r ≡ some (name, p) → length p ≤ n)
    → Shorter n (named r)
unfolding named Shorter
named-Shorter none n h = tt
named-Shorter (some (name, p)) n h =
    read_after_name-Shorter name (skip_space p) n
      (omega (arith, length-skip_space p, h name p refl))

-- The fuel covers the spaces before the name too, so a member that is read takes its quote at least.
read_member-Shorter : (p : Bytes) → Shorter (length p) (read_member p)
unfolding read_member
read_member-Shorter p =
    named-Shorter (read_string (skip_space p)) (length p)
      (λ name q e. omega (arith, length-skip_space p, read_string_shorter (skip_space p) name q e))

module _ {S : Type 0} (store : Bytes → Bytes → S → Outcome S) where
  abbrev Ends : Option (Outcome S) → Type 0
  Ends r = (out : Outcome S) × (r ≡ some out)

  EndsBelow : ℕ → (Bytes → S → Option (Outcome S)) → Type 0
  EndsBelow n next = (q : Bytes) (t : S) → length q < n → Ends (next q t)

  -- The walk behind a member ends if the next walk does on fewer bytes.
  separator-Ends :
      (next : Bytes → S → Option (Outcome S)) (name p : Bytes) (s : S) (n : ℕ)
      → length p ≤ n
      → EndsBelow n next
      → Ends (separator store next name p s)
  unfolding separator EndsBelow
  separator-Ends next name [] s n h ends = (_, refl)
  separator-Ends next name (c ∷ p) s n h ends = elim (Bool-cases (c == b',')) [
    | inl e ↦ rw e (ends p s (omega arith))
    | inr e ↦
        rw e (elim (Bool-cases (c == b'}')) [ inl f ↦ rw f (_, refl) | inr f ↦ rw f (_, refl) ])
  ]

  step_member-Ends :
      (next : Bytes → S → Option (Outcome S)) (m : Member) (s : S) (n : ℕ)
      → Shorter n m
      → EndsBelow n next
      → Ends (step_member store next m s)
  unfolding step_member stored Shorter
  step_member-Ends next (broken e) s n h ends = (_, refl)
  step_member-Ends next (member name value rest) s n h ends = go (store name value s)
    where
      go : (out : Outcome S) → Ends (stored store next name rest out)
      go (failed e t) = (_, refl)
      go (done t) =
          separator-Ends next name (skip_space rest) t n (omega (arith, length-skip_space rest))
            ends

  members-Ends : (fuel : ℕ) (p : Bytes) (s : S) → length p < fuel → Ends (members store fuel p s)
  unfolding members EndsBelow
  members-Ends zero p s h = absurd (omega arith)
  members-Ends (suc fuel) p s h =
      step_member-Ends (members store fuel) (read_member p) s (length p) (read_member-Shorter p)
        (λ q t k. members-Ends fuel q t (omega arith))

  inside-Ends : (p : Bytes) (s : S) → Ends (inside store p s)
  unfolding inside
  inside-Ends [] s = members-Ends 1 [] s (omega arith)
  inside-Ends (c ∷ p) s = elim (Bool-cases (c == b'}')) [
    | inl e ↦ rw e (_, refl)
    | inr e ↦ rw e (members-Ends (suc (suc (length p))) (c ∷ p) s (omega arith))
  ]

  object-Ends : (p : Bytes) (s : S) → Ends (object store p s)
  unfolding object
  object-Ends [] s = (_, refl)
  object-Ends (c ∷ p) s = elim (Bool-cases (c == b'{')) [
    | inl e ↦ rw e (inside-Ends (skip_space p) s)
    | inr e ↦ rw e (_, refl)
  ]

  parse_object-Ends : (json : Option Bytes) (s : S) → Ends (parse_object store json s)
  unfolding parse_object
  parse_object-Ends none s = (_, refl)
  parse_object-Ends (some json) s = object-Ends (skip_space json) s

-- Every text of table options is either accepted or refused with a message: the fuel that
-- `parse_attributes` takes is enough.
pub parse_attributes_total :
    (compression_names isolation_names : Option (List Bytes)) (json : Option Bytes)
    (inout : Options)
    → (out : Outcome Options) × (parse_attributes compression_names isolation_names json inout
        ≡ some out)
unfolding parse_attributes
parse_attributes_total cs is json inout = parse_object-Ends (store_option cs is) json inout

-- Every text of column options is either accepted or refused with a message.
pub parse_column_attributes_total :
    (json : Option Bytes) → (out : Outcome Bool) × (parse_column_attributes json ≡ some out)
unfolding parse_column_attributes
parse_column_attributes_total json = parse_object-Ends store_column json false
