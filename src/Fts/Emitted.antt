-- ===== src/Fts/Emitted.antt =====
-- What the tokenizer of fts_text.cc emits.
use mathlib.Core.Path.{subst}
use tidesql_mysql.Fts.{Charset, TokenizeOpts, Scan, char_count, emit_token, skip_separators}
use tidesql_mysql.Fts.{
  scan_word, parts, emit_all, emit_word, tokenize_word, tokenize_loop, tokenize,
}
use tidesql_mysql.Fts.{is_blend, is_stopword}
use tidesql_mysql.Base.{ℕ, zero, suc, ◌≤◌}
use tidesql_mysql.Base.{◌≡◌, refl, inl, inr, arith}
use tidesql_mysql.Base.{Bool, true, false, ◌||◌, Option, some, >>=-Bound, bound}
use tidesql_mysql.Base.{List, [], ◌∷◌, length}
use tidesql_mysql.Base.{All, All-append}
use tidesql_mysql.Base.{ltb, if◌then◌else◌}
use tidesql_mysql.Base.{Bool-cases}
use tidesql_mysql.Base.Bytes.{Bytes}

-- A token is the lowercased form of bytes whose number of characters is within the bounds, and no
-- stop word.
pub record IsToken (cs : Charset) (opts : TokenizeOpts) (token : Bytes) : Type 0 where
  pub start : Bytes
  pub lowercased : token ≡ cs.casedn start
  pub long_enough : opts.min_word_len ≤ char_count cs start
  pub short_enough : char_count cs start ≤ opts.max_word_len
  pub no_stopword : is_stopword opts.stopwords token ≡ false

some_injective : {a b : List Bytes} → some a ≡ some b → a ≡ b
some_injective f = cc

module _ (cs : Charset) (opts : TokenizeOpts) where
  emit_token-IsToken : (start : Bytes) → All (IsToken cs opts) (emit_token cs opts start)
  unfolding emit_token
  emit_token-IsToken [] = tt
  emit_token-IsToken (c ∷ p) =
      elim (Bool-cases (
        ltb (char_count cs (c ∷ p)) opts.min_word_len
        || ltb opts.max_word_len (char_count cs (c ∷ p)))) [
          | inl e ↦ rw e tt
          | inr e ↦ rw e (elim (Bool-cases (is_stopword opts.stopwords (cs.casedn (c ∷ p)))) [
            | inl f ↦ rw f tt
            | inr f ↦ rw f (
              record {
                start = c ∷ p;
                lowercased = refl;
                long_enough = ground arith;
                short_enough = ground arith;
                no_stopword = f;
              },
              tt,
            )
          ])
        ]

  emit_all-IsToken : (ws : List Bytes) → All (IsToken cs opts) (emit_all cs opts ws)
  unfolding emit_all
  emit_all-IsToken [] = tt
  emit_all-IsToken (w ∷ ws) =
      All-append (IsToken cs opts) (emit_token cs opts w) (emit_all cs opts ws)
        (emit_token-IsToken w) (emit_all-IsToken ws)

  emit_word-IsToken : (s : Scan) → All (IsToken cs opts) (emit_word cs opts s)
  unfolding emit_word
  emit_word-IsToken s =
      All-append (IsToken cs opts) (emit_token cs opts s.word) _ (emit_token-IsToken s.word)
        (blended s.contains_blend)
    where
      blended :
          (b : Bool)
          → All
              (IsToken cs opts)
              (if b then emit_all cs opts (parts (is_blend opts.blend_map) [] s.word) else [])
      blended true = emit_all-IsToken (parts (is_blend opts.blend_map) [] s.word)
      blended false = tt

  tokenize_word-IsToken :
      (next : Bytes → Option (List Bytes)) (p : Bytes) (tokens : List Bytes)
      → ((q : Bytes) (ts : List Bytes) → next q ≡ some ts → All (IsToken cs opts) ts)
      → tokenize_word cs opts next p ≡ some tokens
      → All (IsToken cs opts) tokens
  unfolding tokenize_word
  tokenize_word-IsToken next [] tokens h e = subst (All (IsToken cs opts)) (some_injective e) tt
  tokenize_word-IsToken next (c ∷ p) tokens h e =
      let s = scan_word cs (is_blend opts.blend_map) 0 (c ∷ p) in
      elim (>>=-Bound (next s.rest) _ e) [
        | bound ts k l ↦ subst (All (IsToken cs opts)) (some_injective l) (
            All-append (IsToken cs opts) (emit_word cs opts s) ts (emit_word-IsToken s)
              (h s.rest ts k))
      ]

  tokenize_loop-IsToken :
      (fuel : ℕ) (p : Bytes) (tokens : List Bytes)
      → tokenize_loop cs opts fuel p ≡ some tokens
      → All (IsToken cs opts) tokens
  unfolding tokenize_loop
  tokenize_loop-IsToken zero p tokens e = cc
  tokenize_loop-IsToken (suc fuel) p tokens e =
      tokenize_word-IsToken (tokenize_loop cs opts fuel) (skip_separators cs opts p) tokens
        (tokenize_loop-IsToken fuel) e

-- Every token that `tokenize` emits, of a whole word or of a part of a blended one, is the
-- lowercased form of bytes whose number of characters is within the bounds of the options, and is
-- no stop word.
pub tokenize-IsToken :
    (cs : Charset) (opts : TokenizeOpts) (text : Bytes) (tokens : List Bytes)
    → tokenize cs opts text ≡ some tokens
    → All (IsToken cs opts) tokens
unfolding tokenize
tokenize-IsToken cs opts text tokens e =
    tokenize_loop-IsToken cs opts (suc (length text)) text tokens e
