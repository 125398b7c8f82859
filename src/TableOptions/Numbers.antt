-- ===== src/TableOptions/Numbers.antt =====
-- What the numbers and names of option values are read as.
use tidesql_mysql.TableOptions.{max_u64}
use tidesql_mysql.TableOptions.Values.{is_digit, to_number_loop, to_number, eq_nocase, find_name}
use tidesql_mysql.TableOptions.Values.{to_position, to_enum}
use tidesql_mysql.Base.{ℕ, ◌+◌, ◌-◌, ◌*◌, ◌≤◌, ◌<◌}
use tidesql_mysql.Base.{◌≡◌, refl, ap, ◌∙◌, ◌≢◌, ◌↔◌, inl, inr, arith}
use tidesql_mysql.Base.{some}
use tidesql_mysql.Base.{List, [], ◌∷◌, length}
use tidesql_mysql.Base.{All}
use tidesql_mysql.Base.{Bool-cases, Option-cases}
use tidesql_mysql.Base.Bytes.{Bytes}

-- The number that digits write after a number `n`, without bound.
unfoldable pub decimal_after : ℕ → Bytes → ℕ
decimal_after n [] = n
decimal_after n (c ∷ v) = decimal_after (n * 10 + (c - 48)) v

abbrev pub IsDigit : ℕ → Type 0
IsDigit c = (48 ≤ c) × (c ≤ 57)

-- A text that writes a number of 64 bits.
abbrev pub Writes : Bytes → ℕ → Type 0
Writes v n = (v ≢ []) × All IsDigit v × (decimal_after 0 v ≡ n) × n ≤ max_u64

decimal_after_grows : (n : ℕ) (v : Bytes) → n ≤ decimal_after n v
unfolding decimal_after
decimal_after_grows n [] = omega arith
decimal_after_grows n (c ∷ v) = omega (arith, decimal_after_grows (n * 10 + (c - 48)) v)

to_number_loop_sound :
    (n : ℕ) (v : Bytes) (r : ℕ)
    → n ≤ max_u64
    → to_number_loop n v ≡ some r
    → All IsDigit v × (decimal_after n v ≡ r) × r ≤ max_u64
unfolding to_number_loop decimal_after is_digit
to_number_loop_sound n [] r b h = ground arith
to_number_loop_sound n (c ∷ v) r b h =
    let (digit, small, e) = step in
    let (all, value, top) = to_number_loop_sound (n * 10 + (c - 48)) v r small e in
    ((digit, all), value, top)
  where
    step :
        IsDigit c × (n * 10 + (c - 48) ≤ max_u64) × (to_number_loop (n * 10 + (c - 48)) v ≡ some r)
    step = ground arith

to_number_loop_complete :
    (n : ℕ) (v : Bytes)
    → All IsDigit v
    → decimal_after n v ≤ max_u64
    → to_number_loop n v ≡ some (decimal_after n v)
unfolding to_number_loop decimal_after is_digit
to_number_loop_complete n [] a h = refl
to_number_loop_complete n (c ∷ v) (d, a) h = ground (
  arith,
  decimal_after_grows (n * 10 + (c - 48)) v,
  to_number_loop_complete (n * 10 + (c - 48)) v a h,
)

-- `to_number` accepts exactly the texts of digits that write a number of 64 bits, and reads that
-- number.
pub to_number_iff : (v : Bytes) (n : ℕ) → (to_number v ≡ some n) ↔ Writes v n
unfolding to_number
to_number_iff [] n = (λ h. cc, λ h. absurd (h.0 refl))
to_number_iff (c ∷ v) n = (λ h. there h, λ h. back h)
  where
    there : to_number_loop 0 (c ∷ v) ≡ some n → Writes (c ∷ v) n
    there h =
        let (a, e, b) = to_number_loop_sound 0 (c ∷ v) n (omega arith) h in ((λ e. cc), a, e, b)

    back : Writes (c ∷ v) n → to_number_loop 0 (c ∷ v) ≡ some n
    back (h, a, e, b) = to_number_loop_complete 0 (c ∷ v) a (omega arith) ∙ ap some e

find_name-lt :
    (v : Bytes) (names : List Bytes) (i r : ℕ) → find_name v names i ≡ some r → r < i + length names
unfolding find_name
find_name-lt v [] i r h = cc
find_name-lt v (name ∷ names) i r h = elim (Bool-cases (eq_nocase v name)) [
  | inl e ↦ ground arith
  | inr e ↦ ground (arith, find_name-lt v names (i + 1) r)
]

-- An enumerated value that `to_enum` accepts is the place of a name.
pub to_enum-lt :
    (v : Bytes) (names : List Bytes) (i : ℕ) → to_enum v (some names) ≡ some i → i < length names
unfolding to_enum to_position
to_enum-lt v names i h = elim (Option-cases (find_name v names 0)) [
  | inl e ↦ ground arith
  | inr (j, e) ↦ ground (arith, find_name-lt v names 0 j e)
]
