-- ===== src/Fts/Phrase.antt =====
-- Phrases in fts_text.cc: what the parser makes of a quoted phrase, and what the test of a phrase
-- finds.
use tidesql_mysql.Fts.{
  Charset, TokenizeOpts, tokenize, skip_separators, tokenize_word, tokenize_loop,
}
use tidesql_mysql.Fts.Query.{starts_with, phrase_from, phrase_in_tokens}
use tidesql_mysql.Fts.Query.{Requirement, QueryTerm, excluded, required, parse_boolean}
use tidesql_mysql.Fts.Query.{skip_blanks, until_quote, phrase_text, phrase_at, term_at}
use tidesql_mysql.Fts.Query.{operator_at, boolean_loop, required_terms, phrase_terms}
use tidesql_mysql.Fts.Query.{phrase_requirement, neutral, plain}
use tidesql_mysql.Base.{ℕ, zero, suc, ◌+◌, ◌-◌, ◌<◌}
use tidesql_mysql.Base.{◌≡◌, refl, ap, ap₂, ◌↔◌, inl, inr, arith}
use tidesql_mysql.Base.{true, false, Option, some}
use tidesql_mysql.Base.{List, [], ◌∷◌, ◌++◌, map, append-nil, length, drop}
use tidesql_mysql.Base.{All, length-append}
use tidesql_mysql.Base.{◌==◌}
use tidesql_mysql.Base.{Bool-cases}
use tidesql_mysql.Base.Bytes.{Bytes, equal, equal_iff}

-- The words stand in the tokens, one directly behind the other.
abbrev pub OccursIn : List Bytes → List Bytes → Type 0
OccursIn words tokens =
    (before : List Bytes) × (after : List Bytes) × (tokens ≡ before ++ (words ++ after))

starts_with_sound :
    (doc words : List Bytes)
    → starts_with doc words ≡ true
    → (after : List Bytes) × (doc ≡ words ++ after)
unfolding starts_with
starts_with_sound doc [] h = (doc, refl)
starts_with_sound [] (w ∷ words) h = cc
starts_with_sound (t ∷ doc) (w ∷ words) h =
    let k : equal t w ≡ true = ground arith in
    let (after, e) = starts_with_sound doc words (ground arith) in
    (after, ap₂ ◌∷◌ ((equal_iff t w).0 k) e)

starts_with_complete : (words after : List Bytes) → starts_with (words ++ after) words ≡ true
unfolding starts_with
starts_with_complete [] after = refl
starts_with_complete (w ∷ words) after =
    rw ((equal_iff w w).1 refl) (starts_with_complete words after)

phrase_from_sound :
    (places : ℕ) (doc words : List Bytes) → phrase_from places doc words ≡ true → OccursIn words doc
unfolding phrase_from
phrase_from_sound zero doc words h = cc
phrase_from_sound (suc places) doc words h = elim (Bool-cases (starts_with doc words)) [
  | inl e ↦ let (after, f) = starts_with_sound doc words e in ([], after, f)
  | inr e ↦ behind doc (phrase_from_sound places (drop 1 doc) words (ground arith))
]
  where
    behind : (ts : List Bytes) → OccursIn words (drop 1 ts) → OccursIn words ts
    behind [] found = found
    behind (t ∷ ts) (before, after, e) = (t ∷ before, after, ap (◌∷◌ t) e)

phrase_from_complete :
    (places : ℕ) (words before after : List Bytes)
    → length before < places
    → phrase_from places (before ++ (words ++ after)) words ≡ true
unfolding phrase_from
phrase_from_complete zero words before after h = absurd (omega arith)
phrase_from_complete (suc places) words [] after h = rw (starts_with_complete words after) refl
phrase_from_complete (suc places) words (t ∷ before) after h =
    ground (arith, phrase_from_complete places words before after (omega arith))

-- `phrase_in_tokens` accepts exactly the documents in whose tokens the words of the phrase stand
-- one directly behind the other.
pub phrase_in_tokens_iff :
    (doc_tokens phrase_words : List Bytes)
    → (phrase_in_tokens doc_tokens phrase_words ≡ true) ↔ OccursIn phrase_words doc_tokens
unfolding phrase_in_tokens
phrase_in_tokens_iff doc [] = (λ h. ([], doc, refl), λ h. refl)
phrase_in_tokens_iff doc (w ∷ words) = (λ h. there h, λ h. back h)
  where
    there : phrase_in_tokens doc (w ∷ words) ≡ true → OccursIn (w ∷ words) doc
    there h = phrase_from_sound (length doc - length (w ∷ words) + 1) doc (w ∷ words) (ground arith)

    back : OccursIn (w ∷ words) doc → phrase_in_tokens doc (w ∷ words) ≡ true
    back (before, after, e) = rw e (
        ground (
          arith,
          length-append before (w ∷ (words ++ after)),
          length-append words after,
          phrase_from_complete (length (before ++ ((w ∷ words) ++ after)) - length (w ∷ words) + 1)
              (w ∷ words) before after,
        ))

until_quote-append :
    (text : Bytes)
    → All (λ c. (c == b'"') ≡ false) text
    → ((until_quote (text ++ (b'"' ∷ []))).0 ≡ text) × ((until_quote (text ++ (b'"' ∷ []))).1 ≡ [])
unfolding until_quote
until_quote-append [] h = (refl, refl)
until_quote-append (c ∷ text) (k, h) =
    let (e, f) = until_quote-append text h in rw k (ap (◌∷◌ c) e, f)

required_terms-map : (ws : List Bytes) → required_terms ws ≡ map (λ v. plain v required false) ws
unfolding required_terms
required_terms-map [] = refl
required_terms-map (w ∷ ws) = ap (◌∷◌ (plain w required false)) (required_terms-map ws)

abbrev phrase_result : Requirement → Bytes → List Bytes → List QueryTerm
phrase_result req w ws =
    record {
      term = w;
      req = phrase_requirement req;
      trunc = false;
      is_phrase = true;
      phrase_words = w ∷ ws;
    }
    ∷ map (λ v. plain v required false) ws

module _ (cs : Charset) (opts : TokenizeOpts) where
  phrase_text-terms :
      (req : Requirement) (text w : Bytes) (ws : List Bytes)
      → tokenize cs opts text ≡ some (w ∷ ws)
      → phrase_text cs opts req text ≡ some (phrase_result req w ws)
  unfolding phrase_text phrase_terms tokenize skip_separators tokenize_word tokenize_loop
  phrase_text-terms req [] w ws e = cc
  phrase_text-terms req (c ∷ text) w ws e = rw (e, required_terms-map) refl

  phrase_at-terms :
      (next : Bytes → Option (List QueryTerm)) (req : Requirement) (text w : Bytes)
      (ws : List Bytes)
      → next [] ≡ some []
      → All (λ c. (c == b'"') ≡ false) text
      → tokenize cs opts text ≡ some (w ∷ ws)
      → phrase_at cs opts next req (text ++ (b'"' ∷ [])) ≡ some (phrase_result req w ws)
  unfolding phrase_at
  phrase_at-terms next req text w ws k h e =
      let (f, g) = until_quote-append text h in
      rw (f, g, k, phrase_text-terms req text w ws e, append-nil) refl

abbrev pub quoted : Bytes → Bytes
quoted text = b'"' ∷ (text ++ (b'"' ∷ []))

-- The phrase of the words, and behind it each word but the first alone.
abbrev pub phrase_of : Requirement → Bytes → List Bytes → List QueryTerm
phrase_of req w ws =
    record { term = w; req = req; trunc = false; is_phrase = true; phrase_words = w ∷ ws }
    ∷ map (λ v. plain v required false) ws

-- A query of one quoted phrase is read as a phrase of all its words and then as each word but the
-- first alone. The phrase is required where it stands alone or behind `+`, and excluded behind
-- `-`. The words are required whatever the operator is, so behind `-` as well. The text holds no
-- quote and has one token at least.
pub parse_boolean-phrase :
    (cs : Charset) (opts : TokenizeOpts) (text w : Bytes) (ws : List Bytes)
    → All (λ c. (c == b'"') ≡ false) text
    → tokenize cs opts text ≡ some (w ∷ ws)
    → (parse_boolean cs opts (quoted text) ≡ some (phrase_of required w ws))
      × (parse_boolean cs opts (b'+' ∷ quoted text) ≡ some (phrase_of required w ws))
      × (parse_boolean cs opts (b'-' ∷ quoted text) ≡ some (phrase_of excluded w ws))
unfolding parse_boolean boolean_loop operator_at term_at skip_blanks phrase_requirement
parse_boolean-phrase cs opts text w ws h e = (
  phrase_at-terms cs opts _ neutral text w ws refl h e,
  phrase_at-terms cs opts _ required text w ws refl h e,
  phrase_at-terms cs opts _ excluded text w ws refl h e,
)
