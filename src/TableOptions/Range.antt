-- ===== src/TableOptions/Range.antt =====
-- The options stay in range, whatever text is read over them.
use mathlib.Core.Path.{subst}
use tidesql_mysql.TableOptions.{Options, Kind, Spec, specs, max_u64}
use tidesql_mysql.TableOptions.Json.{skip_space}
use tidesql_mysql.TableOptions.Values.{eq_nocase, to_bool, to_number, to_enum}
use tidesql_mysql.TableOptions.Parse.{in_bounds}
use tidesql_mysql.TableOptions.Numbers.{to_enum-lt}
use tidesql_mysql.TableOptions.Parse.{Outcome, done, failed, Member, member, broken}
use tidesql_mysql.TableOptions.Parse.{read_member, close, separator, stored, step_member}
use tidesql_mysql.TableOptions.Parse.{members, inside, object, parse_object, store_option}
use tidesql_mysql.TableOptions.Parse.{
  find_spec, check_bounds, store_kind, store_spec, parse_attributes,
}
use tidesql_mysql.Base.{ℕ, zero, suc, ◌≤◌, ◌<◌}
use tidesql_mysql.Base.{◌≡◌, inl, inr, arith}
use tidesql_mysql.Base.{Bool, Option, none, some}
use tidesql_mysql.Base.{List, [], ◌∷◌, length, drop}
use tidesql_mysql.Base.{All}
use tidesql_mysql.Base.{◌==◌}
use tidesql_mysql.Base.{Bool-cases, Option-cases}
use tidesql_mysql.Base.Bytes.{Bytes}

-- The state an outcome leaves, after a success and after a failure.
module _ {S : Type 0} where
  abbrev pub left : Outcome S → S
  left (done s) = s
  left (failed e s) = s

module _ {S : Type 0} (P : S → Type 0) (store : Bytes → Bytes → S → Outcome S)
    (keeps : (name value : Bytes) (s : S) → P s → P (left (store name value s))) where
  -- Whatever a walk leaves has the property.
  Keeps : Option (Outcome S) → Type 0
  Keeps none = Unit
  Keeps (some out) = P (left out)

  KeepsNext : (Bytes → S → Option (Outcome S)) → Type 0
  KeepsNext next = (p : Bytes) (s : S) → P s → Keeps (next p s)

  close-Keeps : (p : Bytes) (s : S) → P s → P (left (close store p s))
  unfolding close
  close-Keeps [] s h = h
  close-Keeps (c ∷ p) s h = h

  separator-Keeps :
      (next : Bytes → S → Option (Outcome S)) (name p : Bytes) (s : S)
      → KeepsNext next
      → P s
      → Keeps (separator store next name p s)
  unfolding separator Keeps KeepsNext
  separator-Keeps next name [] s k h = h
  separator-Keeps next name (c ∷ p) s k h = elim (Bool-cases (c == b',')) [
    | inl e ↦ rw e (k p s h)
    | inr e ↦ rw e (elim (Bool-cases (c == b'}')) [
      | inl f ↦ rw f (close-Keeps (skip_space p) s h)
      | inr f ↦ rw f h
    ])
  ]

  stored-Keeps :
      (next : Bytes → S → Option (Outcome S)) (name rest : Bytes) (out : Outcome S)
      → KeepsNext next
      → P (left out)
      → Keeps (stored store next name rest out)
  unfolding stored Keeps
  stored-Keeps next name rest (done s) k h = separator-Keeps next name (skip_space rest) s k h
  stored-Keeps next name rest (failed e s) k h = h

  step_member-Keeps :
      (next : Bytes → S → Option (Outcome S)) (m : Member) (s : S)
      → KeepsNext next
      → P s
      → Keeps (step_member store next m s)
  unfolding step_member Keeps
  step_member-Keeps next (broken e) s k h = h
  step_member-Keeps next (member name value rest) s k h =
      stored-Keeps next name rest (store name value s) k (keeps name value s h)

  members-Keeps : (fuel : ℕ) → KeepsNext (members store fuel)
  unfolding members Keeps KeepsNext
  members-Keeps zero p s h = tt
  members-Keeps (suc fuel) p s h =
      step_member-Keeps (members store fuel) (read_member p) s (members-Keeps fuel) h

  inside-Keeps : (p : Bytes) (s : S) → P s → Keeps (inside store p s)
  unfolding inside Keeps KeepsNext
  inside-Keeps [] s h = members-Keeps 1 [] s h
  inside-Keeps (c ∷ p) s h = elim (Bool-cases (c == b'}')) [
    | inl e ↦ rw e h
    | inr e ↦ rw e (members-Keeps (suc (suc (length p))) (c ∷ p) s h)
  ]

  object-Keeps : (p : Bytes) (s : S) → P s → Keeps (object store p s)
  unfolding object Keeps
  object-Keeps [] s h = h
  object-Keeps (c ∷ p) s h = elim (Bool-cases (c == b'{')) [
    | inl e ↦ rw e (inside-Keeps (skip_space p) s h)
    | inr e ↦ rw e h
  ]

  parse_object-Keeps :
      (json : Option Bytes) (s : S) (out : Outcome S)
      → P s
      → parse_object store json s ≡ some out
      → P (left out)
  unfolding parse_object Keeps
  parse_object-Keeps none s out h e = subst Keeps e h
  parse_object-Keeps (some json) s out h e = subst Keeps e (object-Keeps (skip_space json) s h)

-- What the engine accepts of a number.
abbrev pub Between : ℕ → ℕ → ℕ → Type 0
Between low high n = (low ≤ n) × (n ≤ high)

pub record InRange (compressions isolations : ℕ) (o : Options) : Type 0 where
  pub block_size : Between 512 max_u64 o.btree_klog_block_size
  pub size_ratio : Between 2 100 o.level_size_ratio
  pub levels : Between 1 64 o.min_levels
  pub dividing : Between 0 64 o.dividing_level_offset
  pub fpr : Between 1 10000 o.bloom_fpr
  pub l1_trigger : Between 1 1024 o.l1_file_count_trigger
  pub density : Between 0 10000 o.tombstone_density_trigger
  pub entries : Between 0 max_u64 o.tombstone_density_min_entries
  pub seconds : Between 0 max_u64 o.ttl
  pub key_id : Between 1 255 o.encryption_key_id
  pub compression_name : o.compression < compressions
  pub isolation_name : o.isolation_level < isolations

module _ (cs is : List Bytes) where
  abbrev Ok : Options → Type 0
  Ok = InRange (length cs) (length is)

  -- A spec is safe if each value it accepts leaves the options in range.
  abbrev Allowed : Spec → Kind → Type 0
  Allowed s (Kind.boolean set) = (b : Bool) (o : Options) → Ok o → Ok (set b o)
  Allowed s (Kind.number set) = (n : ℕ) (o : Options) → Between s.low s.high n → Ok o → Ok (set n o)
  Allowed s (Kind.compression set) = (n : ℕ) (o : Options) → n < length cs → Ok o → Ok (set n o)
  Allowed s (Kind.isolation set) = (n : ℕ) (o : Options) → n < length is → Ok o → Ok (set n o)

  specs-Allowed : All (λ s. Allowed s s.what) specs
  unfolding specs
  specs-Allowed = (λ b o h. ground arith, (λ b o h. ground arith, (λ b o h. ground arith, numbers)))
    where
      numbers : All (λ s. Allowed s s.what) (drop 3 specs)
      numbers = (
        λ n o b h. ground arith,
        (
          λ n o b h. ground arith,
          (
            λ n o b h. ground arith,
            (
              λ n o b h. ground arith,
              (
                λ n o b h. ground arith,
                (
                  λ n o b h. ground arith,
                  (
                    λ n o b h. ground arith,
                    (
                      λ n o b h. ground arith,
                      (
                        λ n o b h. ground arith,
                        (
                          λ n o b h. ground arith,
                          (λ n o b h. ground arith, (λ n o b h. ground arith, tt)),
                        ),
                      ),
                    ),
                  ),
                ),
              ),
            ),
          ),
        ),
      )

  find_spec-All :
      (P : Spec → Type 0) (name : Bytes) (ss : List Spec) (s : Spec)
      → All P ss
      → find_spec name ss ≡ some s
      → P s
  unfolding find_spec
  find_spec-All P name [] s h e = cc
  find_spec-All P name (t ∷ ss) s (h, hs) e = elim (Bool-cases (eq_nocase name t.name)) [
    | inl f ↦ subst P (ground arith) h
    | inr f ↦ find_spec-All P name ss s hs (ground arith)
  ]

  store_kind-Ok :
      (s : Spec) (k : Kind) (name value : Bytes) (o : Options)
      → Allowed s k
      → Ok o
      → Ok (left (store_kind (some cs) (some is) s k name value o))
  unfolding store_kind check_bounds
  store_kind-Ok s (Kind.boolean set) name value o a h = elim (Option-cases (to_bool value)) [
    | inl e ↦ rw e h
    | inr (b, e) ↦ rw e (a b o h)
  ]
  store_kind-Ok s (Kind.number set) name value o a h = elim (Option-cases (to_number value)) [
    | inl e ↦ rw e h
    | inr (n, e) ↦ rw e (elim (Bool-cases (in_bounds s n)) [
      | inl f ↦ rw f (a n o (ground arith) h)
      | inr f ↦ rw f h
    ])
  ]
  store_kind-Ok s (Kind.compression set) name value o a h =
      elim (Option-cases (to_enum value (some cs))) [
        | inl e ↦ rw e h
        | inr (n, e) ↦ rw e (a n o (to_enum-lt value cs n e) h)
      ]
  store_kind-Ok s (Kind.isolation set) name value o a h =
      elim (Option-cases (to_enum value (some is))) [
        | inl e ↦ rw e h
        | inr (n, e) ↦ rw e (a n o (to_enum-lt value is n e) h)
      ]

  store_option-Ok :
      (name value : Bytes) (o : Options)
      → Ok o
      → Ok (left (store_option (some cs) (some is) name value o))
  unfolding store_option store_spec
  store_option-Ok name value o h = elim (Option-cases (find_spec name specs)) [
    | inl e ↦ rw e h
    | inr (s, e) ↦ rw e (
        store_kind-Ok s s.what name value o
          (find_spec-All (λ t. Allowed t t.what) name specs s specs-Allowed e) h)
  ]

-- Options in range stay in range whatever text is read over them, accepted or refused: each number
-- within the bounds of its option, each enumerated value the place of a name of its list. Both
-- lists of names are given.
pub parse_attributes-InRange :
    (cs is : List Bytes) (json : Option Bytes) (inout : Options) (out : Outcome Options)
    → InRange (length cs) (length is) inout
    → parse_attributes (some cs) (some is) json inout ≡ some out
    → InRange (length cs) (length is) (left out)
unfolding parse_attributes
parse_attributes-InRange cs is json inout out h e =
    parse_object-Keeps (InRange (length cs) (length is)) (store_option (some cs) (some is))
      (store_option-Ok cs is) json inout out h e
