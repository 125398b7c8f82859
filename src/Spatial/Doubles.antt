-- ===== src/Spatial/Doubles.antt =====
-- Doubles as IEEE-754 bit patterns, with the comparisons of C, and the order of the quantised
-- coordinates that spatial.cc derives from them.
use native.Mathlib.Nat.{pow-suc, div-div-eq-div-mul}
use tidesql_mysql.Spatial.{double_to_lex_uint32}
use tidesql_mysql.Spatial.Digits.{bit_and-bit}
use tidesql_mysql.Base.Bits.{bit_xor-low}
use tidesql_mysql.Base.{ℕ, zero, suc, ◌+◌, ◌-◌, ◌*◌, ◌/◌, ◌%◌, ◌^◌, ◌≤◌, ◌<◌, bit_and}
use tidesql_mysql.Base.{◌≡◌, ap, ◌∙◌, ◌≢◌, ◌⊎◌, arith}
use tidesql_mysql.Base.{Bool, false, not, ◌&&◌}
use tidesql_mysql.Base.{ltb, leb, ◌==◌, if◌then◌else◌}
use tidesql_mysql.Base.Bits.{bit}

abbrev pub Double : Type 0
Double = ℕ

-- The exponent and the fraction, as one number.
abbrev pub magnitude : Double → ℕ
magnitude d = d % 2 ^ 63

-- The pattern of infinity. Finite magnitudes lie below it, those of a NaN above it.
abbrev pub infinity : ℕ
infinity = 0x7FF * 2 ^ 52

unfoldable pub is_finite : Double → Bool
is_finite d = ltb (magnitude d) infinity

unfoldable pub is_nan : Double → Bool
is_nan d = ltb infinity (magnitude d)

-- The place of a double that is no NaN on the number line. The two zeros share a place.
unfoldable pub place : Double → ℕ
place d = if ltb d (2 ^ 63) then 2 ^ 63 + d else 2 ^ 64 - d

-- `a < b`, which is false for a NaN.
unfoldable pub lt_double : Double → Double → Bool
lt_double a b = not (is_nan a) && not (is_nan b) && ltb (place a) (place b)

-- `a <= b`.
unfoldable pub le_double : Double → Double → Bool
le_double a b = not (is_nan a) && not (is_nan b) && leb (place a) (place b)

-- `a == b`.
unfoldable pub eq_double : Double → Double → Bool
eq_double a b = not (is_nan a) && not (is_nan b) && (place a == place b)

module _ (a b : Double) (ha : is_nan a ≡ false) (hb : is_nan b ≡ false) where
  pub lt_double_lem : lt_double a b ≡ ltb (place a) (place b)
  unfolding lt_double
  lt_double_lem = rw (ha, hb)

  pub le_double_lem : le_double a b ≡ leb (place a) (place b)
  unfolding le_double
  le_double_lem = rw (ha, hb)

  pub eq_double_lem : eq_double a b ≡ (place a == place b)
  unfolding eq_double
  eq_double_lem = rw (ha, hb)

-- `DBL_MAX` and its negation.
abbrev pub dbl_max : Double
dbl_max = infinity - 1

abbrev pub neg_dbl_max : Double
neg_dbl_max = 2 ^ 63 + dbl_max

-- The whole transform, before its low half is dropped.
abbrev lex_bits : Double → ℕ
lex_bits d = if ltb d (2 ^ 63) then d + 2 ^ 63 else 2 ^ 64 - 1 - d

sign_bit : (k d : ℕ) → d < 2 ^ suc k → bit k d ≡ d / 2 ^ k
sign_bit zero d h = omega arith
sign_bit (suc k) d h =
    sign_bit k (d / 2) (omega (arith, pow-suc 2 (suc k)))
    ∙ div-div-eq-div-mul d 2 (2 ^ k)
    ∙ ap (λ t. d / t) (omega (arith, pow-suc 2 k))

sign_test : (k d : ℕ) → d < 2 ^ suc k → bit_and d (2 ^ k) ≡ d / 2 ^ k * 2 ^ k
sign_test k d h = bit_and-bit k d ∙ ap (λ t. t * 2 ^ k) (sign_bit k d h)

pub double_to_lex_uint32_lem :
    (d : Double) → d < 2 ^ 64 → double_to_lex_uint32 d ≡ lex_bits d / 2 ^ 32
unfolding double_to_lex_uint32
double_to_lex_uint32_lem d h = ground (arith, sign_test 63 d h, bit_xor-low 63 d 1)

-- For two doubles, as 64-bit patterns, the grid coordinate of the first is not above that of the
-- second if the first stands below the second on the number line, or in the same place where the
-- second is not -0.
pub double_to_lex_uint32_mono :
    (a b : Double)
    → a < 2 ^ 64
    → b < 2 ^ 64
    → (place a < place b) ⊎ ((place a ≡ place b) × (b ≢ 2 ^ 63))
    → double_to_lex_uint32 a ≤ double_to_lex_uint32 b
unfolding place
double_to_lex_uint32_mono a b ha hb h =
    rw (double_to_lex_uint32_lem a ha, double_to_lex_uint32_lem b hb) (ground arith)

-- A grid coordinate lies in 32 bits.
pub double_to_lex_uint32-lt : (d : Double) → double_to_lex_uint32 d < 2 ^ 32
unfolding double_to_lex_uint32
double_to_lex_uint32-lt d = ground arith
