-- ===== src/Fts/Query.antt =====
-- The parser of boolean queries in fts_text.cc, and the test of a phrase. The loop of
-- `parse_boolean` is on fuel, and `none` is the lack of it.
use tidesql_mysql.Fts.{Charset, TokenizeOpts, scan_word, tokenize}
use tidesql_mysql.Base.{ℕ, zero, suc, ◌+◌, ◌-◌}
use tidesql_mysql.Base.{Bool, true, false, not, ◌&&◌, Option, none, some, ◌>>=◌}
use tidesql_mysql.Base.{List, [], ◌∷◌, ◌++◌, length, drop}
use tidesql_mysql.Base.{ltb, ◌==◌, if◌then◌else◌}
use tidesql_mysql.Base.Bytes.{Bytes, equal}

pub data Requirement : Type 0 where
  neutral required excluded : Requirement

pub record QueryTerm : Type 0 where
  pub term : Bytes
  pub req : Requirement
  pub trunc : Bool
  pub is_phrase : Bool
  pub phrase_words : List Bytes

abbrev pub plain : Bytes → Requirement → Bool → QueryTerm
plain term req trunc = record {
  term = term;
  req = req;
  trunc = trunc;
  is_phrase = false;
  phrase_words = [];
}

unfoldable pub skip_blanks : Bytes → Bytes
skip_blanks [] = []
skip_blanks (c ∷ p) = let rest = skip_blanks p in if c == b' ' then rest else c ∷ p

-- The bytes up to the closing quote, and the cursor behind it.
unfoldable pub until_quote : Bytes → Bytes × Bytes
until_quote [] = ([], [])
until_quote (c ∷ p) = let r = until_quote p in if c == b'"' then ([], p) else (c ∷ r.0, r.1)

-- A phrase is required, unless an operator says otherwise.
unfoldable pub phrase_requirement : Requirement → Requirement
phrase_requirement neutral = required
phrase_requirement required = required
phrase_requirement excluded = excluded

unfoldable pub required_terms : List Bytes → List QueryTerm
required_terms [] = []
required_terms (w ∷ ws) = plain w required false ∷ required_terms ws

-- What a phrase appends, with its words.
unfoldable pub phrase_terms : Requirement → List Bytes → List QueryTerm
unfolding phrase_requirement required_terms
phrase_terms req [] = []
phrase_terms req (w ∷ ws) =
    record {
      term = w;
      req = phrase_requirement req;
      trunc = false;
      is_phrase = true;
      phrase_words = w ∷ ws;
    }
    ∷ required_terms ws

-- A word without the `*` at its end, and whether there was one.
unfoldable pub strip_trunc : Bytes → Bytes × Bool
strip_trunc [] = ([], false)
strip_trunc (c ∷ []) = if c == b'*' then ([], true) else (c ∷ [], false)
strip_trunc (c ∷ (d ∷ w)) = let r = strip_trunc (d ∷ w) in (c ∷ r.0, r.1)

module _ (cs : Charset) where
  -- What a stripped word appends.
  unfoldable pub plain_term : Requirement → Bytes × Bool → List QueryTerm
  plain_term req ([], trunc) = []
  plain_term req (c ∷ w, trunc) = plain (cs.casedn (c ∷ w)) req trunc ∷ []

  -- The skip to what can start a plain term.
  unfoldable pub skip_to_term : Bytes → Bytes
  skip_to_term [] = []
  skip_to_term (c ∷ p) =
      let rest = skip_to_term p in
      if (not (cs.is_alnum c) && cs.mbchar_len (c ∷ p) == 0) && not (c == b'*') then rest else c ∷ p

  -- A plain term, then `next` on what follows it.
  unfoldable pub plain_at :
      (Bytes → Option (List QueryTerm)) → Requirement → Bytes → Option (List QueryTerm)
  unfolding plain_term
  plain_at next req [] = some []
  plain_at next req (c ∷ p) =
      let s = scan_word cs (λ d. d == b'*') 0 (c ∷ p) in
      next s.rest >>= λ terms. some (plain_term req (strip_trunc s.word) ++ terms)

  module _ (opts : TokenizeOpts) where
    -- The terms of the text of a phrase.
    unfoldable pub phrase_text : Requirement → Bytes → Option (List QueryTerm)
    unfolding phrase_terms
    phrase_text req [] = some []
    phrase_text req (c ∷ text) =
        tokenize cs opts (c ∷ text) >>= λ words. some (phrase_terms req words)

    -- A phrase behind its opening quote, then `next` on what follows it.
    unfoldable pub phrase_at :
        (Bytes → Option (List QueryTerm)) → Requirement → Bytes → Option (List QueryTerm)
    unfolding phrase_text
    phrase_at next req p = do
      phrase ← phrase_text req (until_quote p).0
      terms ← next (until_quote p).1
      some (phrase ++ terms)

    -- A term behind its operator and the blanks.
    unfoldable pub term_at :
        (Bytes → Option (List QueryTerm)) → Requirement → Bytes → Option (List QueryTerm)
    term_at next req [] = some []
    term_at next req (c ∷ p) =
        if c == b'"' then phrase_at next req p else plain_at next req (skip_to_term (c ∷ p))

    -- The operator, behind the blanks.
    unfoldable pub operator_at : (Bytes → Option (List QueryTerm)) → Bytes → Option (List QueryTerm)
    operator_at next [] = some []
    operator_at next (c ∷ p) =
        if c == b'+'
        then term_at next required (skip_blanks p)
        else if c == b'-'
        then term_at next excluded (skip_blanks p)
        else term_at next neutral (skip_blanks (c ∷ p))

    unfoldable pub boolean_loop : ℕ → Bytes → Option (List QueryTerm)
    boolean_loop zero p = none
    boolean_loop (suc fuel) p = operator_at (boolean_loop fuel) (skip_blanks p)

    unfoldable pub parse_boolean : Bytes → Option (List QueryTerm)
    unfolding boolean_loop
    parse_boolean query = boolean_loop (suc (length query)) query

-- The words of the phrase, one after the other at the head of the tokens.
unfoldable pub starts_with : List Bytes → List Bytes → Bool
starts_with doc_tokens [] = true
starts_with [] (w ∷ phrase_words) = false
starts_with (t ∷ doc_tokens) (w ∷ phrase_words) =
    if not (equal t w) then false else starts_with doc_tokens phrase_words

-- The outer loop of `phrase_in_tokens`, over the `limit + 1` places that are left.
unfoldable pub phrase_from : ℕ → List Bytes → List Bytes → Bool
phrase_from zero doc_tokens phrase_words = false
phrase_from (suc places) doc_tokens phrase_words =
    let rest = phrase_from places (drop 1 doc_tokens) phrase_words in
    if starts_with doc_tokens phrase_words then true else rest

unfoldable pub phrase_in_tokens : List Bytes → List Bytes → Bool
unfolding phrase_from
phrase_in_tokens doc_tokens [] = true
phrase_in_tokens doc_tokens (w ∷ phrase_words) =
    if ltb (length doc_tokens) (length (w ∷ phrase_words))
    then false
    else phrase_from (length doc_tokens - length (w ∷ phrase_words) + 1) doc_tokens
        (w ∷ phrase_words)
