-- ===== src/SortKey/Integers.antt =====
-- What sort_key.cc makes of the keys of integers, dates and fixed strings.
use native.Mathlib.Nat.{div-div-eq-div-mul}
use tidesql_mysql.Base.{min}
use tidesql_mysql.Base.LittleEndian.{le_bytes}
use tidesql_mysql.SortKey.{FieldSortDesc, Kind, reversed, flip_last, decode_int}
use tidesql_mysql.SortKey.{pad, decode_char, decode_kind, decode_part}
use tidesql_mysql.Base.{ℕ, zero, suc, ◌-◌, ◌*◌, ◌/◌, ◌%◌, ◌^◌, ◌≤◌, ◌<◌, bit_xor}
use tidesql_mysql.Base.{◌≡◌, refl, sym, ap, ap₂, ◌∙◌, ◌⊎◌, inl, inr, arith}
use tidesql_mysql.Base.{Bool, true, false, not, ◌&&◌, ◌||◌, some}
use tidesql_mysql.Base.{[], ◌∷◌, ◌++◌, length, take}
use tidesql_mysql.Base.{length-append}
use tidesql_mysql.Base.{length-take}
use tidesql_mysql.Base.{ltb, ◌==◌, ltb→lt, ==_iff}
use tidesql_mysql.Base.{Bool-cases}
use tidesql_mysql.Base.Bytes.{Bytes, be_bytes}
use tidesql_mysql.Base.Bytes.{pow_byte, take-be_bytes}

le_bytes-snoc : (n v : ℕ) → le_bytes (suc n) v ≡ le_bytes n v ++ ((v / 2 ^ (8 * n) % 256) ∷ [])
unfolding le_bytes
le_bytes-snoc zero v = ap (λ (t : ℕ). t % 256 ∷ []) (omega arith)
le_bytes-snoc (suc n) v =
    ap (◌∷◌ (v % 256))
      (le_bytes-snoc n (v / 256) ∙ ap (λ (t : ℕ). le_bytes n (v / 256) ++ (t % 256 ∷ [])) deeper)
  where
    deeper : v / 256 / 2 ^ (8 * n) ≡ v / 2 ^ (8 * suc n)
    deeper =
        div-div-eq-div-mul v 256 (2 ^ (8 * n)) ∙ ap (λ (t : ℕ). v / t) (omega (arith, pow_byte n))

-- The big-endian bytes of a number, reversed, are its little-endian bytes.
pub reversed-be_bytes : (n v : ℕ) → reversed (be_bytes n v) ≡ le_bytes n v
unfolding reversed be_bytes le_bytes
reversed-be_bytes zero v = refl
reversed-be_bytes (suc n) v =
    ap (λ bs. bs ++ ((v / 2 ^ (8 * n) % 256) ∷ [])) (reversed-be_bytes n v)
    ∙ sym (le_bytes-snoc n v)

flip_last-snoc : (bs : Bytes) (b : ℕ) → flip_last (bs ++ (b ∷ [])) ≡ bs ++ (bit_xor b 128 ∷ [])
unfolding flip_last
flip_last-snoc [] b = refl
flip_last-snoc (a ∷ []) b = refl
flip_last-snoc (a ∷ (c ∷ bs)) b = ap (◌∷◌ a) (flip_last-snoc (c ∷ bs) b)

-- The bytes below 256 at which a test fails, counted from `n` down.
all_below : (ℕ → Bool) → ℕ → Bool
all_below test zero = true
all_below test (suc n) = test n && all_below test n

all_below_lem : (test : ℕ → Bool) (n b : ℕ) → all_below test n ≡ true → b < n → test b ≡ true
unfolding all_below
all_below_lem test zero b h l = absurd (omega arith)
all_below_lem test (suc n) b h l = elim (Bool-cases (b == n)) [
  | inl e ↦ ap test ((==_iff b n).0 e) ∙ here
  | inr e ↦ all_below_lem test n b there (ground arith)
]
  where
    here : test n ≡ true
    here = ground arith

    there : all_below test n ≡ true
    there = ground arith

flip_twice : (b : ℕ) → b < 256 → bit_xor (bit_xor b 128) 128 ≡ b
unfolding all_below
flip_twice b l =
    (==_iff (bit_xor (bit_xor b 128) 128) b).0
      (all_below_lem (λ c. bit_xor (bit_xor c 128) 128 == c) 256 b refl l)

-- The widths of the server's integers.
abbrev pub IsIntWidth : ℕ → Type 0
IsIntWidth n = ((1 ≤ n) × (n ≤ 4)) ⊎ (n ≡ 8)

-- A key with the top bit of its first byte flipped.
abbrev pub sign_flipped : Bytes → Bytes
sign_flipped [] = []
sign_flipped (b ∷ bs) = bit_xor b 128 ∷ bs

flip_last-sign_flipped :
    (n v : ℕ) → 1 ≤ n → flip_last (reversed (sign_flipped (be_bytes n v))) ≡ le_bytes n v
unfolding reversed be_bytes
flip_last-sign_flipped zero v h = absurd (omega arith)
flip_last-sign_flipped (suc n) v h =
    flip_last-snoc (reversed (be_bytes n v)) (bit_xor (v / 2 ^ (8 * n) % 256) 128)
    ∙ ap₂ (λ (bs : Bytes) (b : ℕ). bs ++ (b ∷ [])) (reversed-be_bytes n v)
        (flip_twice (v / 2 ^ (8 * n) % 256) (omega arith))
    ∙ sym (le_bytes-snoc n v)

take-sign_flipped :
    (n v : ℕ) (rest : Bytes)
    → take n (sign_flipped (be_bytes n v) ++ rest) ≡ sign_flipped (be_bytes n v)
unfolding be_bytes
take-sign_flipped zero v rest = refl
take-sign_flipped (suc n) v rest =
    ap (◌∷◌ (bit_xor (v / 2 ^ (8 * n) % 256) 128)) (take-be_bytes n v rest)

allowed : (n : ℕ) → IsIntWidth n → (n == 0 || (ltb 4 n && not (n == 8))) ≡ false
allowed n h = ground arith

-- For each width of an integer of the server, the big-endian bytes of a number are decoded to its
-- little-endian bytes as an unsigned key, and so are those bytes with the top bit flipped as a
-- signed key, whatever bytes follow the key.
pub decode_int_lem :
    (n v : ℕ) (rest : Bytes)
    → IsIntWidth n
    → (decode_int (be_bytes n v ++ rest) n false ≡ some (le_bytes n v))
      × (decode_int (sign_flipped (be_bytes n v) ++ rest) n true ≡ some (le_bytes n v))
unfolding decode_int
decode_int_lem n v rest h = (
  rw (allowed n h, take-be_bytes n v rest, reversed-be_bytes n v) refl,
  rw (allowed n h, take-sign_flipped n v rest, flip_last-sign_flipped n v (ground arith)) refl,
)

length-pad : (n byte : ℕ) → length (pad n byte) ≡ n
unfolding pad
length-pad zero byte = refl
length-pad (suc n) byte = ap suc (length-pad n byte)

decode_char-pad :
    (src : Bytes) (sort_len : ℕ) (d : FieldSortDesc)
    → decode_char src sort_len d
      ≡ take (min sort_len d.pack_length) src ++ pad (d.pack_length - sort_len) d.pad_byte
unfolding decode_char pad
decode_char-pad src s d = elim (Bool-cases (ltb s d.pack_length)) [
  | inl e ↦ rw (e, e) (ap (λ (t : ℕ). take t src ++ pad (d.pack_length - s) d.pad_byte) (shorter e))
  | inr e ↦
      rw (e, irreflexive) (ap₂ (λ (t u : ℕ). take t src ++ pad u d.pad_byte) (longer e) (nothing e))
]
  where
    irreflexive : ltb d.pack_length d.pack_length ≡ false
    irreflexive = ground arith

    shorter : ltb s d.pack_length ≡ true → s ≡ min s d.pack_length
    shorter e = omega (arith, ltb→lt s d.pack_length e)

    at_least : ltb s d.pack_length ≡ false → d.pack_length ≤ s
    at_least e = ground arith

    longer : ltb s d.pack_length ≡ false → d.pack_length ≡ min s d.pack_length
    longer e = omega (arith, at_least e)

    nothing : ltb s d.pack_length ≡ false → 0 ≡ d.pack_length - s
    nothing e = omega (arith, at_least e)

-- A fixed string is rebuilt to its native width, if the key holds its `sort_len` bytes: the result
-- is as long as the field, and is the key's bytes up to the shorter of the two widths, then pad
-- bytes.
pub decode_part-char_fixed :
    (src : Bytes) (sort_len : ℕ) (d : FieldSortDesc)
    → d.k ≡ Kind.char_fixed
    → sort_len ≤ length src
    → (to : Bytes) × (decode_part src sort_len d ≡ some to)
      × (length to ≡ d.pack_length)
      × (to ≡ take (min sort_len d.pack_length) src ++ pad (d.pack_length - sort_len) d.pad_byte)
unfolding decode_part decode_kind
decode_part-char_fixed src s d e h =
    (decode_char src s d, rw e refl, whole, decode_char-pad src s d)
  where
    whole : length (decode_char src s d) ≡ d.pack_length
    whole = rw (decode_char-pad src s d) (
        omega (
          arith,
          length-append (take (min s d.pack_length) src) (pad (d.pack_length - s) d.pad_byte),
          length-take (min s d.pack_length) src (omega arith),
          length-pad (d.pack_length - s) d.pad_byte,
        ))
