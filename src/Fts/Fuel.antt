-- ===== src/Fts/Fuel.antt =====
-- The loops of fts_text.cc end, and what the tokenizer emits.
use tidesql_mysql.Fts.{Charset, TokenizeOpts, skip_separators}
use tidesql_mysql.Fts.{scan_word, tokenize_word, tokenize_loop, tokenize}
use tidesql_mysql.Fts.{is_blend}
use tidesql_mysql.Fts.Query.{QueryTerm, Requirement, skip_blanks, until_quote, skip_to_term}
use tidesql_mysql.Fts.Query.{plain_at, phrase_text, phrase_at, term_at, operator_at, boolean_loop}
use tidesql_mysql.Fts.Query.{parse_boolean}
use tidesql_mysql.Fts.Query.{neutral, required, excluded}
use tidesql_mysql.Base.{ℕ, zero, suc, ◌-◌, ◌≤◌, ◌<◌}
use tidesql_mysql.Base.{◌≡◌, refl, ap, inl, inr, arith}
use tidesql_mysql.Base.{Bool, true, not, ◌&&◌, ◌||◌, Option, some, ◌>>=◌}
use tidesql_mysql.Base.{List, [], ◌∷◌, length}
use tidesql_mysql.Base.{◌==◌}
use tidesql_mysql.Base.{Bool-cases}
use tidesql_mysql.Base.Bytes.{Bytes}

-- A walk that has an answer.
abbrev Ends {ℓ} : {A : Type ℓ} → Option A → Type ℓ
Ends {A} r = (a : A) × (r ≡ some a)

EndsBelow {ℓ} : {A : Type ℓ} → ℕ → (Bytes → Option A) → Type ℓ
EndsBelow n next = (q : Bytes) → length q < n → Ends (next q)

bind-Ends {ℓ κ} :
    {A : Type ℓ} {B : Type κ} (r : Option A) (f : A → B) → Ends r → Ends (r >>= λ a. some (f a))
bind-Ends r f (a, e) = (f a, ap (λ x. x >>= λ a. some (f a)) e)

module _ (cs : Charset) where
  scan_word_shorter :
      (blend : ℕ → Bool) (skip : ℕ) (p : Bytes)
      → length ((scan_word cs blend skip p).rest) ≤ length p
  unfolding scan_word
  scan_word_shorter blend skip [] = omega arith
  scan_word_shorter blend (suc skip) (c ∷ p) = omega (arith, scan_word_shorter blend skip p)
  scan_word_shorter blend zero (c ∷ p) =
      ground (arith, scan_word_shorter blend (cs.mbchar_len (c ∷ p) - 1) p)

  -- A byte that starts a word is taken.
  scan_word_takes :
      (blend : ℕ → Bool) (c : ℕ) (p : Bytes)
      → (not (cs.mbchar_len (c ∷ p) == 0) || (cs.is_alnum c || blend c)) ≡ true
      → length ((scan_word cs blend 0 (c ∷ p)).rest) ≤ length p
  unfolding scan_word
  scan_word_takes blend c p h =
      ground (arith, scan_word_shorter blend (cs.mbchar_len (c ∷ p) - 1) p)

  module _ (opts : TokenizeOpts) where
    -- Behind the separators there is nothing, or a byte that starts a word.
    StartsWord : ℕ → Bytes → Type 0
    StartsWord n [] = Unit
    StartsWord n (c ∷ p) =
        (length (c ∷ p) ≤ n)
        × ((not (cs.mbchar_len (c ∷ p) == 0) || (cs.is_alnum c || is_blend opts.blend_map c))
            ≡ true)

    StartsWord-weaken : (n m : ℕ) (p : Bytes) → n ≤ m → StartsWord n p → StartsWord m p
    unfolding StartsWord
    StartsWord-weaken n m [] h s = tt
    StartsWord-weaken n m (c ∷ p) h (l, s) = (omega arith, s)

    skip_separators-StartsWord : (p : Bytes) → StartsWord (length p) (skip_separators cs opts p)
    unfolding skip_separators StartsWord
    skip_separators-StartsWord [] = tt
    skip_separators-StartsWord (c ∷ p) =
        elim (Bool-cases
          (not (cs.mbchar_len (c ∷ p) == 0) || (cs.is_alnum c || is_blend opts.blend_map c))) [
            | inl e ↦ rw e (omega arith, e)
            | inr e ↦ rw e (
                StartsWord-weaken (length p) (suc (length p)) (skip_separators cs opts p)
                  (omega arith) (skip_separators-StartsWord p))
          ]

    tokenize_word-Ends :
        (next : Bytes → Option (List Bytes)) (n : ℕ) (p : Bytes)
        → StartsWord n p
        → EndsBelow n next
        → Ends (tokenize_word cs opts next p)
    unfolding tokenize_word StartsWord EndsBelow
    tokenize_word-Ends next n [] s h = ([], refl)
    tokenize_word-Ends next n (c ∷ p) (l, s) h =
        bind-Ends (next (scan_word cs (is_blend opts.blend_map) 0 (c ∷ p)).rest) _
          (h _ (omega (arith, scan_word_takes (is_blend opts.blend_map) c p s)))

    tokenize_loop-Ends :
        (fuel : ℕ) (p : Bytes) → length p < fuel → Ends (tokenize_loop cs opts fuel p)
    unfolding tokenize_loop EndsBelow
    tokenize_loop-Ends zero p h = absurd (omega arith)
    tokenize_loop-Ends (suc fuel) p h =
        tokenize_word-Ends (tokenize_loop cs opts fuel) (length p) (skip_separators cs opts p)
          (skip_separators-StartsWord p) (λ q k. tokenize_loop-Ends fuel q (omega arith))

-- `tokenize` ends on every text, in every character set: its fuel is enough.
pub tokenize_total :
    (cs : Charset) (opts : TokenizeOpts) (text : Bytes)
    → (tokens : List Bytes) × (tokenize cs opts text ≡ some tokens)
unfolding tokenize
tokenize_total cs opts text = tokenize_loop-Ends cs opts (suc (length text)) text (omega arith)

skip_blanks_shorter : (p : Bytes) → length (skip_blanks p) ≤ length p
unfolding skip_blanks
skip_blanks_shorter [] = omega arith
skip_blanks_shorter (c ∷ p) = ground (arith, skip_blanks_shorter p)

until_quote_shorter : (p : Bytes) → length ((until_quote p).1) ≤ length p
unfolding until_quote
until_quote_shorter [] = omega arith
until_quote_shorter (c ∷ p) = ground (arith, until_quote_shorter p)

module _ (cs : Charset) where
  -- Behind what cannot start a plain term there is nothing, or a byte that starts one.
  StartsTerm : ℕ → Bytes → Type 0
  StartsTerm n [] = Unit
  StartsTerm n (c ∷ p) =
      (length (c ∷ p) ≤ n)
      × ((not (cs.mbchar_len (c ∷ p) == 0) || (cs.is_alnum c || c == b'*')) ≡ true)

  StartsTerm-weaken : (n m : ℕ) (p : Bytes) → n ≤ m → StartsTerm n p → StartsTerm m p
  unfolding StartsTerm
  StartsTerm-weaken n m [] h s = tt
  StartsTerm-weaken n m (c ∷ p) h (l, s) = (omega arith, s)

  skip_to_term-StartsTerm : (p : Bytes) → StartsTerm (length p) (skip_to_term cs p)
  unfolding skip_to_term StartsTerm
  skip_to_term-StartsTerm [] = tt
  skip_to_term-StartsTerm (c ∷ p) =
      elim (Bool-cases ((not (cs.is_alnum c) && cs.mbchar_len (c ∷ p) == 0) && not (c == b'*'))) [
        | inl e ↦ rw e (
            StartsTerm-weaken (length p) (suc (length p)) (skip_to_term cs p) (omega arith)
              (skip_to_term-StartsTerm p))
        | inr e ↦ rw e (omega arith, ground arith)
      ]

  plain_at-Ends :
      (next : Bytes → Option (List QueryTerm)) (req : Requirement) (n : ℕ) (p : Bytes)
      → StartsTerm n p
      → EndsBelow n next
      → Ends (plain_at cs next req p)
  unfolding plain_at StartsTerm EndsBelow
  plain_at-Ends next req n [] s h = ([], refl)
  plain_at-Ends next req n (c ∷ p) (l, s) h =
      bind-Ends (next (scan_word cs (λ d. d == b'*') 0 (c ∷ p)).rest) _
        (h _ (omega (arith, scan_word_takes cs (λ d. d == b'*') c p s)))

  module _ (opts : TokenizeOpts) where
    phrase_text-Ends : (req : Requirement) (p : Bytes) → Ends (phrase_text cs opts req p)
    unfolding phrase_text
    phrase_text-Ends req [] = ([], refl)
    phrase_text-Ends req (c ∷ p) =
        bind-Ends (tokenize cs opts (c ∷ p)) _ (tokenize_total cs opts (c ∷ p))

    phrase_at-Ends :
        (next : Bytes → Option (List QueryTerm)) (req : Requirement) (n : ℕ) (p : Bytes)
        → length p < n
        → EndsBelow n next
        → Ends (phrase_at cs opts next req p)
    unfolding phrase_at EndsBelow
    phrase_at-Ends next req n p l h =
        let (terms, e) = phrase_text-Ends req (until_quote p).0 in
        rw e (bind-Ends (next (until_quote p).1) _ (h _ (omega (arith, until_quote_shorter p))))

    term_at-Ends :
        (next : Bytes → Option (List QueryTerm)) (req : Requirement) (n : ℕ) (p : Bytes)
        → length p ≤ n
        → EndsBelow n next
        → Ends (term_at cs opts next req p)
    unfolding term_at
    term_at-Ends next req n [] l h = ([], refl)
    term_at-Ends next req n (c ∷ p) l h = elim (Bool-cases (c == b'"')) [
      | inl e ↦ rw e (phrase_at-Ends next req n p (omega arith) h)
      | inr e ↦ rw e (
          plain_at-Ends next req n (skip_to_term cs (c ∷ p))
            (StartsTerm-weaken (suc (length p)) n (skip_to_term cs (c ∷ p)) l
              (skip_to_term-StartsTerm (c ∷ p)))
            h)
    ]

    operator_at-Ends :
        (next : Bytes → Option (List QueryTerm)) (n : ℕ) (p : Bytes)
        → length p ≤ n
        → EndsBelow n next
        → Ends (operator_at cs opts next p)
    unfolding operator_at
    operator_at-Ends next n [] l h = ([], refl)
    operator_at-Ends next n (c ∷ p) l h =
        let behind : length (skip_blanks p) ≤ n = omega (arith, skip_blanks_shorter p) in
        elim (Bool-cases (c == b'+')) [
          | inl e ↦ rw e (term_at-Ends next required n (skip_blanks p) behind h)
          | inr e ↦ rw e (elim (Bool-cases (c == b'-')) [
            | inl f ↦ rw f (term_at-Ends next excluded n (skip_blanks p) behind h)
            | inr f ↦ rw f (
                term_at-Ends next neutral n (skip_blanks (c ∷ p))
                  (omega (arith, skip_blanks_shorter (c ∷ p))) h)
          ])
        ]

    boolean_loop-Ends :
        (fuel : ℕ) (p : Bytes) → length p < fuel → Ends (boolean_loop cs opts fuel p)
    unfolding boolean_loop EndsBelow
    boolean_loop-Ends zero p h = absurd (omega arith)
    boolean_loop-Ends (suc fuel) p h =
        operator_at-Ends (boolean_loop cs opts fuel) (length p) (skip_blanks p)
          (skip_blanks_shorter p) (λ q k. boolean_loop-Ends fuel q (omega arith))

-- `parse_boolean` ends on every query, in every character set: its fuel is enough.
pub parse_boolean_total :
    (cs : Charset) (opts : TokenizeOpts) (query : Bytes)
    → (terms : List QueryTerm) × (parse_boolean cs opts query ≡ some terms)
unfolding parse_boolean
parse_boolean_total cs opts query =
    boolean_loop-Ends cs opts (suc (length query)) query (omega arith)
