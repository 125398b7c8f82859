-- ===== src/Base/Bytes.antt =====
-- Byte strings: integers in a fixed number of bytes, in either byte order, and the order of `memcmp`.
-- `be_bytes` is the loop `out[i] = (uint8_t)(v >> ((len - 1 - i) * 8))`, which five components
-- repeat, and `be_fold` its inverse `v = (v << 8) | in[i]` on a word of `w` bits.
use Prim.Native.Nat.{ℕ, zero, suc, ◌+◌, ◌*◌, ◌/◌, ◌%◌, ◌^◌, ◌≤◌, ◌<◌, bit_or}
use mathlib.Core.Path.{◌≡◌, refl, sym, ap, ap₂, ◌∙◌}
use mathlib.Core.Bool.{Bool, true, false, ◌&&◌}
use mathlib.Core.Logic.{◌↔◌}
use mathlib.Core.List.{List, [], ◌∷◌, ◌++◌, append-nil}
use native.Mathlib.Omega.{arith}
use native.Mathlib.Nat.{div-add-mod, div-div-eq-div-mul, mod-eq_of_lt, mod-lt, pow-suc}
use native.Mathlib.Numerals.{towards_suc}
use tidesql_mysql.Base.Tests.{ltb, ◌==◌, if◌then◌else◌}
use tidesql_mysql.Base.Lists.{length, All, take, drop}
use tidesql_mysql.Base.Bits.{bit_or-shifted}

abbrev pub Bytes : Type 0
Bytes = List ℕ

abbrev pub IsByte : ℕ → Type 0
IsByte b = b < 256

unfoldable pub equal : Bytes → Bytes → Bool
equal [] [] = true
equal [] (y ∷ ys) = false
equal (x ∷ xs) [] = false
equal (x ∷ xs) (y ∷ ys) = x == y && equal xs ys

pub equal_iff : (a b : Bytes) → (equal a b ≡ true) ↔ (a ≡ b)
unfolding equal
equal_iff [] [] = ground arith
equal_iff [] (y ∷ b) = ground arith
equal_iff (x ∷ a) [] = ground arith
equal_iff (x ∷ a) (y ∷ b) = ground (arith, equal_iff a b)

-- `memcmp` on the common length, then the shorter string first: the order of the store's keys.
unfoldable pub lex_ltb : Bytes → Bytes → Bool
lex_ltb xs [] = false
lex_ltb [] (y ∷ ys) = true
lex_ltb (x ∷ xs) (y ∷ ys) = if ltb x y then true else if x == y then lex_ltb xs ys else false

unfoldable pub be_bytes : ℕ → ℕ → Bytes
be_bytes zero v = []
be_bytes (suc n) v = (v / 2 ^ (8 * n) % 256) ∷ be_bytes n v

unfoldable pub be_fold : ℕ → ℕ → Bytes → ℕ
be_fold w acc [] = acc
be_fold w acc (b ∷ bs) = be_fold w (bit_or (acc * 2 ^ 8 % 2 ^ w) b) bs

pub pow_byte : (n : ℕ) → 2 ^ (8 * suc n) ≡ 2 ^ (8 * n) * 256
pow_byte n = rw more (simp towards_suc (omega arith))
  where
    more : 8 * suc n ≡ 8 * n + 8
    more = omega arith

pub pow_pos : (n : ℕ) → 0 < 2 ^ n
pow_pos zero = omega arith
pow_pos (suc n) = omega (arith, pow-suc 2 n, pow_pos n)

pub length-be_bytes : (n v : ℕ) → length (be_bytes n v) ≡ n
unfolding be_bytes
length-be_bytes zero v = refl
length-be_bytes (suc n) v = ap suc (length-be_bytes n v)

pub be_bytes-IsByte : (n v : ℕ) → All IsByte (be_bytes n v)
unfolding be_bytes
be_bytes-IsByte zero v = tt
be_bytes-IsByte (suc n) v = (omega arith, be_bytes-IsByte n v)

-- The leading digit to the base 256 ^ n, and the rest.
pub mod_digit :
    (n v : ℕ) → v % 2 ^ (8 * suc n) ≡ v / 2 ^ (8 * n) % 256 * 2 ^ (8 * n) + v % 2 ^ (8 * n)
mod_digit n v = rw pow_byte (
    omega (
      arith,
      div-add-mod v (2 ^ (8 * n)),
      div-add-mod v (2 ^ (8 * n) * 256),
      div-div-eq-div-mul v (2 ^ (8 * n)) 256,
      ap (λ (t : ℕ). 2 ^ (8 * n) * t) (div-add-mod (v / 2 ^ (8 * n)) 256),
      ap (λ (t : ℕ). 2 ^ (8 * n) * t) (div-div-eq-div-mul v (2 ^ (8 * n)) 256),
    ))

-- A product with a factor below a bound.
pub digit_room : (d k p : ℕ) → d < k → d * p + p ≤ k * p
digit_room d k p h = grind arith

-- The loop takes in one byte as the next digit.
pub fold_byte :
    (w acc b : ℕ) → acc * 256 < 2 ^ w → b < 256 → bit_or (acc * 2 ^ 8 % 2 ^ w) b ≡ acc * 256 + b
fold_byte w acc b h hb = rw inside (bit_or-shifted 8 acc b hb)
  where
    inside : acc * 2 ^ 8 % 2 ^ w ≡ acc * 2 ^ 8
    inside = mod-eq_of_lt h

-- Reading what was written multiplies the value so far up and adds the low digits, while the word
-- has room.
pub be_fold-be_bytes :
    (w n acc v : ℕ) (rest : Bytes)
    → acc * 2 ^ (8 * n) + 2 ^ (8 * n) ≤ 2 ^ w
    → be_fold w acc (be_bytes n v ++ rest) ≡ be_fold w (acc * 2 ^ (8 * n) + v % 2 ^ (8 * n)) rest
unfolding be_fold be_bytes
be_fold-be_bytes w zero acc v rest h = ap (λ t. be_fold w t rest) (omega arith)
be_fold-be_bytes w (suc n) acc v rest h =
    ap (λ t. be_fold w t (be_bytes n v ++ rest)) (fold_byte w acc digit room (omega arith))
    ∙ be_fold-be_bytes w n (acc * 256 + digit) v rest
        (omega (arith, digit_room digit 256 (2 ^ (8 * n)) (omega arith), h'))
    ∙ ap (λ t. be_fold w t rest)
        (omega (arith, mod_digit n v, ap (λ (t : ℕ). acc * t) (pow_byte n)))
  where
    digit : ℕ
    digit = v / 2 ^ (8 * n) % 256

    h' : acc * (2 ^ (8 * n) * 256) + 2 ^ (8 * n) * 256 ≤ 2 ^ w
    h' = rw pow_byte at h

    room : acc * 256 < 2 ^ w
    room = grind (arith, h', pow_pos (8 * n))

-- An integer below 256 ^ n comes back from its n bytes.
pub be_fold_lem :
    (w n v : ℕ) → 2 ^ (8 * n) ≤ 2 ^ w → v < 2 ^ (8 * n) → be_fold w 0 (be_bytes n v) ≡ v
be_fold_lem w n v hw h =
    ap (be_fold w 0) (sym (append-nil (be_bytes n v)))
    ∙ be_fold-be_bytes w n 0 v [] (omega (arith, hw))
    ∙ (unfold be_fold in omega (arith, mod-eq_of_lt h))

-- Numbers compare as their leading digits, and where those agree as the rest.
compare_digit :
    (p a b r s : ℕ)
    → r < p
    → s < p
    → ltb (a * p + r) (b * p + s) ≡ (if ltb a b then true else if a == b then ltb r s else false)
compare_digit p a b r s hr hs = ground (arith, digit_room a b p, digit_room b a p)

equal_digit : (p a b r s : ℕ) → r < p → s < p → (a * p + r == b * p + s) ≡ (a == b && r == s)
equal_digit p a b r s hr hs = ground (arith, digit_room a b p, digit_room b a p)

-- Big-endian keys compare as the numbers they hold, and where these agree as what follows them.
pub lex_ltb-be_bytes :
    (n u v : ℕ) (xs ys : Bytes)
    → lex_ltb (be_bytes n u ++ xs) (be_bytes n v ++ ys) ≡ (
        if ltb (u % 2 ^ (8 * n)) (v % 2 ^ (8 * n))
        then true
        else if u % 2 ^ (8 * n) == v % 2 ^ (8 * n)
        then lex_ltb xs ys
        else false)
unfolding lex_ltb be_bytes
lex_ltb-be_bytes zero u v xs ys = ground arith
lex_ltb-be_bytes (suc n) u v xs ys =
    rw (mod_digit n u, mod_digit n v)
      (ground (
        arith,
        lex_ltb-be_bytes n u v xs ys,
        compare_digit p (u / p % 256) (v / p % 256) (u % p) (v % p) (mod-lt u (pow_pos (8 * n)))
            (mod-lt v (pow_pos (8 * n))),
        equal_digit p (u / p % 256) (v / p % 256) (u % p) (v % p) (mod-lt u (pow_pos (8 * n)))
            (mod-lt v (pow_pos (8 * n))),
      ))
  where
    p : ℕ
    p = 2 ^ (8 * n)

pub be_bytes_order :
    (n u v : ℕ)
    → u < 2 ^ (8 * n)
    → v < 2 ^ (8 * n)
    → lex_ltb (be_bytes n u) (be_bytes n v) ≡ ltb u v
unfolding lex_ltb
be_bytes_order n u v hu hv =
    ap₂ lex_ltb (sym (append-nil (be_bytes n u))) (sym (append-nil (be_bytes n v)))
    ∙ lex_ltb-be_bytes n u v [] []
    ∙ rw (mod-eq_of_lt hu, mod-eq_of_lt hv) (ground arith)

pub be_bytes_injective :
    (n u v : ℕ) → u < 2 ^ (8 * n) → v < 2 ^ (8 * n) → be_bytes n u ≡ be_bytes n v → u ≡ v
be_bytes_injective n u v hu hv e = ground (
  arith,
  be_bytes_order n u v hu hv,
  be_bytes_order n v u hv hu,
  be_bytes_order n u u hu hu,
  ap (λ t. lex_ltb t (be_bytes n v)) e,
  ap (lex_ltb (be_bytes n v)) e,
)

pub take-be_bytes : (n v : ℕ) (rest : Bytes) → take n (be_bytes n v ++ rest) ≡ be_bytes n v
unfolding be_bytes
take-be_bytes zero v rest = refl
take-be_bytes (suc n) v rest = ap (◌∷◌ (v / 2 ^ (8 * n) % 256)) (take-be_bytes n v rest)

pub drop-be_bytes : (n v : ℕ) (rest : Bytes) → drop n (be_bytes n v ++ rest) ≡ rest
unfolding be_bytes
drop-be_bytes zero v rest = refl
drop-be_bytes (suc n) v rest = drop-be_bytes n v rest
