-- ===== src/Fts.antt =====
-- The text side of the full-text index, tidesdb/src/core/fts_text.{h,cc}: entry keys and values, the
-- tokenizer and the parser of boolean queries. The server's character set is a parameter, the
-- operations of the source's `charset`. A text between two pointers is the list of its bytes.
pub mod Keys
pub mod Fuel
pub mod Emitted
pub mod Query
pub mod Phrase
use tidesql_mysql.Base.LittleEndian.{le_bytes, le_value}
use tidesql_mysql.Base.{ℕ, zero, suc, ◌+◌, ◌-◌}
use tidesql_mysql.Base.{Bool, true, false, not, ◌||◌, Option, none, some, ◌>>=◌}
use tidesql_mysql.Base.{List, [], ◌∷◌, ◌++◌, map, length, take, drop}
use tidesql_mysql.Base.{ltb, ◌==◌, if◌then◌else◌}
use tidesql_mysql.Base.Bytes.{Bytes, equal}

abbrev pub max_term_bytes : ℕ
max_term_bytes = 512

abbrev pub term_len_prefix : ℕ
term_len_prefix = 2

abbrev pub value_tf_len : ℕ
value_tf_len = 2

abbrev pub value_len : ℕ
value_len = 6

abbrev pub meta_value_docs_len : ℕ
meta_value_docs_len = 8

abbrev pub meta_value_len : ℕ
meta_value_len = 16

unfoldable pub encode_entry_value : ℕ → ℕ → Bytes
encode_entry_value tf doc_len = le_bytes 2 tf ++ le_bytes 4 doc_len

unfoldable pub decode_entry_value : Bytes → Option (ℕ × ℕ)
decode_entry_value bytes =
    if ltb (length bytes) value_len
    then none
    else some (le_value (take 2 bytes), le_value (take 4 (drop value_tf_len bytes)))

-- The totals are 64-bit patterns.
unfoldable pub encode_meta_value : ℕ → ℕ → Bytes
encode_meta_value total_docs total_words = le_bytes 8 total_docs ++ le_bytes 8 total_words

unfoldable pub decode_meta_value : Bytes → Option (ℕ × ℕ)
decode_meta_value bytes =
    if ltb (length bytes) meta_value_len
    then none
    else some (le_value (take 8 bytes), le_value (take 8 (drop meta_value_docs_len bytes)))

unfoldable pub build_key : Bytes → Bytes → Bytes
build_key term pk =
    let term_len = if ltb max_term_bytes (length term) then max_term_bytes else length term in
    le_bytes term_len_prefix term_len ++ (take term_len term ++ pk)

-- The operations of the server's character set. `mbchar_len` is given the bytes up to the end of the
-- text, and answers 0 where no character of several bytes starts.
pub record Charset : Type 0 where
  pub mbchar_len : Bytes → ℕ
  pub is_alnum : ℕ → Bool
  pub casedn : Bytes → Bytes

-- A null `blend_map` or `stopwords` is `none`.
pub record TokenizeOpts : Type 0 where
  pub min_word_len : ℕ
  pub max_word_len : ℕ
  pub blend_map : Option (ℕ → Bool)
  pub stopwords : Option (List Bytes)

unfoldable pub contains : List Bytes → Bytes → Bool
contains [] word = false
contains (w ∷ ws) word = equal w word || contains ws word

unfoldable pub build_blend_map : Option Bytes → ℕ → Bool
build_blend_map none c = false
build_blend_map (some []) c = false
build_blend_map (some (b ∷ chars)) c = (b == c) || build_blend_map (some chars) c

unfoldable pub is_blend : Option (ℕ → Bool) → ℕ → Bool
is_blend none c = false
is_blend (some map) c = map c

unfoldable pub is_stopword : Option (List Bytes) → Bytes → Bool
unfolding contains
is_stopword none word = false
is_stopword (some words) word = contains words word

-- A word, whether it contains a blend character, and the cursor behind it.
pub record Scan : Type 0 where
  pub word : Bytes
  pub contains_blend : Bool
  pub rest : Bytes

abbrev keep : ℕ → Bool → Scan → Scan
keep c blended s = record {
  word = c ∷ s.word;
  contains_blend = blended || s.contains_blend;
  rest = s.rest;
}

-- The parts of a blended word, with the bytes of the part that has begun.
unfoldable pub parts : (ℕ → Bool) → Bytes → Bytes → List Bytes
parts blend sub [] = sub ∷ []
parts blend sub (c ∷ s) =
    let next = parts blend [] s in
    let longer = parts blend (sub ++ (c ∷ [])) s in if blend c then sub ∷ next else longer

-- A cursor that a character of several bytes moves is written as a walk over the bytes, with the
-- number of bytes that are still to be skipped.
module _ (cs : Charset) where
  unfoldable pub char_count_from : ℕ → Bytes → ℕ
  char_count_from skip [] = 0
  char_count_from (suc skip) (c ∷ p) = char_count_from skip p
  char_count_from zero (c ∷ p) = suc (char_count_from (cs.mbchar_len (c ∷ p) - 1) p)

  unfoldable pub char_count : Bytes → ℕ
  unfolding char_count_from
  char_count = char_count_from 0

  module _ (opts : TokenizeOpts) where
    -- What `emit_token` appends.
    unfoldable pub emit_token : Bytes → List Bytes
    emit_token [] = []
    emit_token (c ∷ start) =
        let chars = char_count (c ∷ start) in
        let word = cs.casedn (c ∷ start) in
        if ltb chars opts.min_word_len || ltb opts.max_word_len chars
        then []
        else if is_stopword opts.stopwords word
        then []
        else word ∷ []

    -- The first loop of `tokenize`.
    unfoldable pub skip_separators : Bytes → Bytes
    skip_separators [] = []
    skip_separators (c ∷ p) =
        let rest = skip_separators p in
        if not (cs.mbchar_len (c ∷ p) == 0) || (cs.is_alnum c || is_blend opts.blend_map c)
        then c ∷ p
        else rest

  -- The second loop of `tokenize`, and of `parse_boolean` with `*` in place of a blend character.
  unfoldable pub scan_word : (ℕ → Bool) → ℕ → Bytes → Scan
  scan_word blend skip [] = record { word = []; contains_blend = false; rest = [] }
  scan_word blend (suc skip) (c ∷ p) = keep c false (scan_word blend skip p)
  scan_word blend zero (c ∷ p) =
      let mb = cs.mbchar_len (c ∷ p) in
      let inner = scan_word blend (mb - 1) p in
      if not (mb == 0) || cs.is_alnum c
      then keep c false inner
      else if blend c
      then keep c true inner
      else record { word = []; contains_blend = false; rest = c ∷ p }

  module _ (opts : TokenizeOpts) where
    unfoldable pub emit_all : List Bytes → List Bytes
    emit_all [] = []
    emit_all (w ∷ ws) = emit_token opts w ++ emit_all ws

    -- What `tokenize` emits for one word.
    unfoldable pub emit_word : Scan → List Bytes
    unfolding emit_all
    emit_word s =
        emit_token opts s.word
        ++ (if s.contains_blend then emit_all (parts (is_blend opts.blend_map) [] s.word) else [])

    -- One word behind the separators, then `next` on what follows it.
    unfoldable pub tokenize_word : (Bytes → Option (List Bytes)) → Bytes → Option (List Bytes)
    unfolding emit_word
    tokenize_word next [] = some []
    tokenize_word next (c ∷ p) =
        let s = scan_word (is_blend opts.blend_map) 0 (c ∷ p) in
        next s.rest >>= λ words. some (emit_word s ++ words)

    -- The outer loop, on fuel: `none` is the lack of it.
    unfoldable pub tokenize_loop : ℕ → Bytes → Option (List Bytes)
    unfolding tokenize_word
    tokenize_loop zero p = none
    tokenize_loop (suc fuel) p = tokenize_word (tokenize_loop fuel) (skip_separators opts p)

    unfoldable pub tokenize : Bytes → Option (List Bytes)
    unfolding tokenize_loop
    tokenize text = tokenize_loop (suc (length text)) text
