-- ===== src/KeyEnc/Frame.antt =====
-- The frame of a stored wrapped key, written and parsed.
use tidesql_mysql.KeyEnc.{IsU32, be32_encode, be32_decode, WrappedValue}
use tidesql_mysql.KeyEnc.{frame_wrapped_value, parse_wrapped_value}
use tidesql_mysql.Base.{ℕ, suc, ◌+◌, ◌*◌, ◌/◌, ◌%◌, ◌^◌, ◌≤◌, ◌<◌, bit_or}
use tidesql_mysql.Base.{◌≡◌, refl, ap, ◌∙◌, ◌≢◌, arith}
use tidesql_mysql.Base.{none, some}
use tidesql_mysql.Base.{[], ◌∷◌, ◌++◌, length, take, drop}
use tidesql_mysql.Base.{All}
use tidesql_mysql.Base.Bits.{bit_or-shifted}
use tidesql_mysql.Base.Bytes.{Bytes, IsByte}

-- The four shifted bytes do not overlap.
join_bytes :
    (a b c d : ℕ)
    → b < 256
    → c < 256
    → d < 256
    → bit_or (bit_or (bit_or (a * 2 ^ 24) (b * 2 ^ 16)) (c * 2 ^ 8)) d
      ≡ a * 2 ^ 24 + b * 2 ^ 16 + c * 2 ^ 8 + d
join_bytes a b c d hb hc hd =
    ap (λ t. bit_or (bit_or t (c * 2 ^ 8)) d) (bit_or-shifted 24 a (b * 2 ^ 16) (omega arith))
    ∙ ap (λ t. bit_or (bit_or t (c * 2 ^ 8)) d) two
    ∙ ap (λ t. bit_or t d) (bit_or-shifted 16 (a * 2 ^ 8 + b) (c * 2 ^ 8) (omega arith))
    ∙ ap (λ t. bit_or t d) three
    ∙ bit_or-shifted 8 (a * 2 ^ 16 + b * 2 ^ 8 + c) d hd
    ∙ omega arith
  where
    two : a * 2 ^ 24 + b * 2 ^ 16 ≡ (a * 2 ^ 8 + b) * 2 ^ 16
    two = omega arith

    three : (a * 2 ^ 8 + b) * 2 ^ 16 + c * 2 ^ 8 ≡ (a * 2 ^ 16 + b * 2 ^ 8 + c) * 2 ^ 8
    three = omega arith

-- Every 32-bit value comes back from its four bytes, whatever follows them.
pub be32_decode-be32_encode :
    (v : ℕ) (rest : Bytes) → IsU32 v → be32_decode (be32_encode v ++ rest) ≡ some v
unfolding be32_decode be32_encode
be32_decode-be32_encode v rest h = ap some (
    join_bytes (v / 2 ^ 24 % 256) (v / 2 ^ 16 % 256) (v / 2 ^ 8 % 256) (v % 256) (omega arith)
      (omega arith) (omega arith)
    ∙ omega arith)

-- A value framed with a generation of 32 bits is parsed into that generation and into the place of
-- the wrapped key in it, where the bytes are the key that was framed.
pub parse_wrapped_value-frame_wrapped_value :
    (generation : ℕ) (key : Bytes) {stored : Bytes}
    → IsU32 generation
    → frame_wrapped_value generation key ≡ some stored
    → (parse_wrapped_value stored
        ≡ some (record { generation = generation; wrapped_off = 4; wrapped_len = length key }))
      × (take (length key) (drop 4 stored) ≡ key)
unfolding frame_wrapped_value
parse_wrapped_value-frame_wrapped_value generation key {stored} h e =
    rw (← framed.1)
      (unfold parse_wrapped_value be32_encode in (ground (arith, framed.0, read_back), rest_is key))
  where
    read_back : be32_decode (be32_encode generation ++ key) ≡ some generation
    read_back = be32_decode-be32_encode generation key h

    framed : (length key ≢ 0) × (be32_encode generation ++ key ≡ stored)
    framed = ground arith

    rest_is : (k : Bytes) → take (length k) k ≡ k
    rest_is [] = refl
    rest_is (x ∷ k) = ap (◌∷◌ x) (rest_is k)

decode_sound :
    (a b c d : ℕ)
    → a < 256
    → b < 256
    → c < 256
    → d < 256
    → (v : ℕ) × (bit_or (bit_or (bit_or (a * 2 ^ 24) (b * 2 ^ 16)) (c * 2 ^ 8)) d ≡ v)
      × (be32_encode v ≡ a ∷ b ∷ c ∷ d ∷ [])
unfolding be32_encode
decode_sound a b c d ha hb hc hd =
    (a * 2 ^ 24 + b * 2 ^ 16 + c * 2 ^ 8 + d, join_bytes a b c d hb hc hd, ground arith)

-- A stored list of bytes is refused where it holds no byte behind the header; every other one is
-- the frame of the generation that is reported and of the bytes from the reported offset on, whose
-- number is the one reported.
pub parse_wrapped_value_sound :
    (stored : Bytes)
    → All IsByte stored
    → (length stored ≤ 4 → parse_wrapped_value stored ≡ none)
      × (4 < length stored
          → (v : WrappedValue) × (parse_wrapped_value stored ≡ some v)
            × (frame_wrapped_value v.generation (drop v.wrapped_off stored) ≡ some stored)
            × (v.wrapped_len + 4 ≡ length stored))
unfolding parse_wrapped_value frame_wrapped_value
parse_wrapped_value_sound (a ∷ b ∷ c ∷ d ∷ e ∷ rest) (ha, (hb, (hc, (hd, bs)))) =
    let (v, joined, written) = decode_sound a b c d ha hb hc hd in
    (
      λ short. absurd (omega arith),
      λ h. (
        record { generation = v; wrapped_off = 4; wrapped_len = suc (length rest) },
        unfold be32_decode in ground (arith, joined),
        ground (arith, written),
        omega arith,
      ),
    )
parse_wrapped_value_sound [] bs = (λ _. ground arith, λ h. absurd (omega arith))
parse_wrapped_value_sound (a ∷ []) bs = (λ _. ground arith, λ h. absurd (omega arith))
parse_wrapped_value_sound (a ∷ b ∷ []) bs = (λ _. ground arith, λ h. absurd (omega arith))
parse_wrapped_value_sound (a ∷ b ∷ c ∷ []) bs = (λ _. ground arith, λ h. absurd (omega arith))
parse_wrapped_value_sound (a ∷ b ∷ c ∷ d ∷ []) bs = (λ _. ground arith, λ h. absurd (omega arith))
