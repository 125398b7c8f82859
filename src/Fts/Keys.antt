-- ===== src/Fts/Keys.antt =====
-- The keys and values of the inverted index in fts_text.cc.
use tidesql_mysql.Base.{append_injective}
use tidesql_mysql.Fts.{encode_entry_value, decode_entry_value, encode_meta_value, decode_meta_value}
use tidesql_mysql.Fts.{build_key, max_term_bytes}
use tidesql_mysql.Base.LittleEndian.{le_bytes, le_value, le_value-le_bytes, length-le_bytes}
use tidesql_mysql.Base.LittleEndian.{take-le_bytes, drop-le_bytes}
use tidesql_mysql.Base.{ℕ, zero, suc, ◌+◌, ◌*◌, ◌^◌, ◌≤◌, ◌<◌}
use tidesql_mysql.Base.{◌≡◌, refl, sym, ap, ◌∙◌, inl, inr, arith}
use tidesql_mysql.Base.{true, false, some}
use tidesql_mysql.Base.{[], ◌∷◌, ◌++◌, append_assoc, length, take, drop}
use tidesql_mysql.Base.{length-append}
use tidesql_mysql.Base.{length-take}
use tidesql_mysql.Base.{ltb, if◌then◌else◌}
use tidesql_mysql.Base.{Bool-cases}
use tidesql_mysql.Base.Bytes.{Bytes}

take_all : (n : ℕ) (xs : Bytes) → length xs ≤ n → take n xs ≡ xs
take_all zero [] h = refl
take_all zero (x ∷ xs) h = absurd (omega arith)
take_all (suc n) [] h = refl
take_all (suc n) (x ∷ xs) h = ap (◌∷◌ x) (take_all n xs (omega arith))

-- Two numbers written one behind the other, read back.
two_fields :
    (n m a b : ℕ) (rest : Bytes)
    → a < 2 ^ (8 * n)
    → b < 2 ^ (8 * m)
    → (le_value (take n (le_bytes n a ++ (le_bytes m b ++ rest))) ≡ a)
      × (le_value (take m (drop n (le_bytes n a ++ (le_bytes m b ++ rest)))) ≡ b)
two_fields n m a b rest h k = (
  ap le_value (take-le_bytes n a (le_bytes m b ++ rest)) ∙ le_value-le_bytes n a h,
  rw (drop-le_bytes n a (le_bytes m b ++ rest), take-le_bytes m b rest) (le_value-le_bytes m b k),
)

two_long_enough :
    (n m a b : ℕ) (rest : Bytes) → n + m ≤ length (le_bytes n a ++ (le_bytes m b ++ rest))
two_long_enough n m a b rest = omega (
  arith,
  length-append (le_bytes n a) (le_bytes m b ++ rest),
  length-append (le_bytes m b) rest,
  length-le_bytes n a,
  length-le_bytes m b,
)

-- The value of an entry is read back as it was written, whatever bytes follow it, if the term
-- frequency has 16 bits and the length of the document 32.
pub decode_entry_value-encode_entry_value :
    (tf doc_len : ℕ) (rest : Bytes)
    → tf < 2 ^ 16
    → doc_len < 2 ^ 32
    → decode_entry_value (encode_entry_value tf doc_len ++ rest) ≡ some (tf, doc_len)
unfolding decode_entry_value encode_entry_value
decode_entry_value-encode_entry_value tf doc_len rest h k = rw (append_assoc) (
    let (e, f) = two_fields 2 4 tf doc_len rest h k in
    ground (arith, two_long_enough 2 4 tf doc_len rest))

-- The totals of an index are read back as they were written, whatever bytes follow them, if each
-- is a pattern of 64 bits.
pub decode_meta_value-encode_meta_value :
    (total_docs total_words : ℕ) (rest : Bytes)
    → total_docs < 2 ^ 64
    → total_words < 2 ^ 64
    → decode_meta_value (encode_meta_value total_docs total_words ++ rest)
      ≡ some (total_docs, total_words)
unfolding decode_meta_value encode_meta_value
decode_meta_value-encode_meta_value d w rest h k =
    rw (append_assoc)
      (let (e, f) = two_fields 8 8 d w rest h k in ground (arith, two_long_enough 8 8 d w rest))

-- The length of the indexed part of a term.
abbrev indexed_len : Bytes → ℕ
indexed_len term = if ltb max_term_bytes (length term) then max_term_bytes else length term

indexed_len-bounds :
    (term : Bytes)
    → (indexed_len term ≤ 512)
      × (indexed_len term ≤ length term)
      × (take (indexed_len term) term ≡ take 512 term)
indexed_len-bounds term = elim (Bool-cases (ltb max_term_bytes (length term))) [
  | inl e ↦ rw e (omega arith, long e, refl)
  | inr e ↦ rw e (
    short e,
    omega arith,
    take_all (length term) term (omega arith) ∙ sym (take_all 512 term (short e)),
  )
]
  where
    short : ltb 512 (length term) ≡ false → length term ≤ 512
    short e = ground arith

    long : ltb 512 (length term) ≡ true → 512 ≤ length term
    long e = ground arith

-- Two entries have the same key only if the first 512 bytes of their terms and their row keys
-- agree: a key determines the part of the term that is indexed, and the row.
pub build_key_injective :
    (term term' pk pk' : Bytes)
    → build_key term pk ≡ build_key term' pk'
    → (take 512 term ≡ take 512 term') × (pk ≡ pk')
unfolding build_key
build_key_injective term term' pk pk' e =
    let (top, fits, same) = indexed_len-bounds term in
    let (top', fits', same') = indexed_len-bounds term' in
    let n = indexed_len term in
    let n' = indexed_len term' in
    let (heads, tails) =
      append_injective (le_bytes 2 n) (le_bytes 2 n') (take n term ++ pk) (take n' term' ++ pk')
        (length-le_bytes 2 n ∙ sym (length-le_bytes 2 n')) e in
    let lens : n ≡ n' =
      sym (le_value-le_bytes 2 n (omega arith))
      ∙ ap le_value heads
      ∙ le_value-le_bytes 2 n' (omega arith) in
    let (terms, rows) =
      append_injective (take n term) (take n' term') pk pk'
        (length-take n term fits ∙ lens ∙ sym (length-take n' term' fits')) tails in
    (sym same ∙ terms ∙ same', rows)
