-- ===== src/Xid/Tables.antt =====
-- The records of the tables of a prepared transaction, written and read.
use tidesql_mysql.Xid.{TableNames, put_name, encode_tables, xa_tc_encode, take_name, get_name}
use tidesql_mysql.Xid.{get_pair, with_pair, decode_pairs, xa_tc_decode, xa_tc_max_name}
use tidesql_mysql.Base.{ℕ, zero, suc, ◌+◌, ◌%◌, ◌^◌, ◌≤◌, ◌<◌}
use tidesql_mysql.Base.{◌≡◌, refl, sym, ap, ap₂, ◌∙◌, ◌≢◌, inl, inr, arith}
use tidesql_mysql.Base.{Bool, true, false, ◌||◌, Option, none, some, ◌>>=◌, Bool-cases}
use tidesql_mysql.Base.{List, [], ◌∷◌, ◌++◌, append-nil, append_assoc, length, take, drop}
use tidesql_mysql.Base.{All, length-append, take-append, drop-append}
use tidesql_mysql.Base.{ltb}
use tidesql_mysql.Base.Bytes.{Bytes, be_bytes, be_fold, be_fold_lem}
use tidesql_mysql.Base.Bytes.{length-be_bytes}
use tidesql_mysql.Base.Bytes.{take-be_bytes, drop-be_bytes}

-- Both names of each pair fit their fields.
abbrev pub NamesFit : TableNames → Type 0
NamesFit tables =
    All (λ name. (length name.0 ≤ xa_tc_max_name) × (length name.1 ≤ xa_tc_max_name)) tables

take_name-append :
    (s rest : Bytes) → length s ≤ xa_tc_max_name → take_name (length s) (s ++ rest) ≡ some (s, rest)
unfolding take_name
take_name-append s rest h = rw (take-append, drop-append) (ground (arith, length-append s rest))

get_name-put_name :
    (s rest : Bytes) → length s ≤ xa_tc_max_name → get_name (put_name s ++ rest) ≡ some (s, rest)
unfolding get_name put_name
get_name-put_name s rest h =
    rw (append_assoc, take-be_bytes, drop-be_bytes, read_length, whole) (take_name-append s rest h)
  where
    read_length : be_fold 32 0 (be_bytes 4 (length s % 2 ^ 32)) ≡ length s
    read_length = be_fold_lem 32 4 (length s % 2 ^ 32) (omega arith) (omega arith) ∙ omega arith

    whole : ltb (length (be_bytes 4 (length s % 2 ^ 32) ++ (s ++ rest))) 4 ≡ false
    whole =
        rw (length-append (be_bytes 4 (length s % 2 ^ 32)) (s ++ rest), length-be_bytes)
          (ground arith)

get_pair-put_name :
    (db table rest : Bytes)
    → length db ≤ xa_tc_max_name
    → length table ≤ xa_tc_max_name
    → get_pair (put_name db ++ (put_name table ++ rest)) ≡ some ((db, table), rest)
unfolding get_pair
get_pair-put_name db table rest hd ht =
    rw (get_name-put_name db (put_name table ++ rest) hd, get_name-put_name table rest ht) refl

-- The loop reads the pairs that were written and goes on with the count that is left.
decode_pairs-encode_tables :
    (tables : TableNames) (more : ℕ) (rest : Bytes)
    → NamesFit tables
    → decode_pairs (length tables + more) (encode_tables tables ++ rest)
      ≡ ((decode_pairs more rest).0, tables ++ (decode_pairs more rest).1)
unfolding encode_tables decode_pairs with_pair
decode_pairs-encode_tables [] more rest h = ap (λ n. decode_pairs n rest) (omega arith)
decode_pairs-encode_tables ((db, table) ∷ tables) more rest ((hd, ht), h) =
    ap₂ decode_pairs count regroup
    ∙ ap (λ p. with_pair p (decode_pairs (length tables + more)))
        (get_pair-put_name db table (encode_tables tables ++ rest) hd ht)
    ∙ ap (λ (r : Bool × TableNames). (r.0, (db, table) ∷ r.1))
        (decode_pairs-encode_tables tables more rest h)
  where
    count : suc (length tables) + more ≡ suc (length tables + more)
    count = omega arith

    regroup :
        (put_name db ++ (put_name table ++ encode_tables tables)) ++ rest
        ≡ put_name db ++ (put_name table ++ (encode_tables tables ++ rest))
    regroup = simp append_assoc

-- The header and the count are read, and the pairs from there on.
xa_tc_decode_header :
    (n : ℕ) (p : Bytes) → n < 2 ^ 32 → xa_tc_decode (1 ∷ (be_bytes 4 n ++ p)) ≡ decode_pairs n p
unfolding xa_tc_decode
xa_tc_decode_header n p h =
    rw (take-be_bytes, drop-be_bytes, be_fold_lem 32 4 n (omega arith) h, whole) refl
  where
    whole : ltb (length (be_bytes 4 n ++ p)) 4 ≡ false
    whole = rw (length-append (be_bytes 4 n) p, length-be_bytes) (ground arith)

-- The tables of a prepared transaction are read back from its record, whatever bytes follow it, if
-- no name is longer than 4096 bytes and there are fewer than 2 ^ 32 tables.
pub xa_tc_decode-xa_tc_encode :
    (tables : TableNames) (rest : Bytes)
    → NamesFit tables
    → length tables < 2 ^ 32
    → xa_tc_decode (xa_tc_encode tables ++ rest) ≡ (true, tables)
unfolding xa_tc_encode
xa_tc_decode-xa_tc_encode tables rest fit few =
    ap (λ p. xa_tc_decode (1 ∷ p))
      (append_assoc (be_bytes 4 (length tables % 2 ^ 32)) (encode_tables tables) rest)
    ∙ xa_tc_decode_header (length tables % 2 ^ 32) (encode_tables tables ++ rest) (omega arith)
    ∙ ap (λ n. decode_pairs n (encode_tables tables ++ rest)) {y = length tables + 0}
        (omega (arith, few))
    ∙ decode_pairs-encode_tables tables 0 rest fit
    ∙ (unfold decode_pairs in ap (λ t. (true, t)) (append-nil tables))

-- What is taken and left where more elements follow.
take_more {ℓ} :
    {A : Type ℓ} (n : ℕ) (xs ys : List A) → n ≤ length xs → take n (xs ++ ys) ≡ take n xs
take_more zero xs ys h = refl
take_more (suc n) [] ys h = absurd (omega arith)
take_more (suc n) (x ∷ xs) ys h = ap (◌∷◌ x) (take_more n xs ys (omega arith))

drop_more {ℓ} :
    {A : Type ℓ} (n : ℕ) (xs ys : List A) → n ≤ length xs → drop n (xs ++ ys) ≡ drop n xs ++ ys
drop_more zero xs ys h = refl
drop_more (suc n) [] ys h = absurd (omega arith)
drop_more (suc n) (x ∷ xs) ys h = drop_more n xs ys (omega arith)

-- What is read stays the same where more bytes follow.
take_name-more :
    (n : ℕ) (p missing s rest : Bytes)
    → take_name n p ≡ some (s, rest)
    → take_name n (p ++ missing) ≡ some (s, rest ++ missing)
unfolding take_name
take_name-more n p missing s rest e = elim (Bool-cases (ltb xa_tc_max_name n || ltb (length p) n)) [
  | inl c ↦ absurd (none_some (rw c at e))
  | inr c ↦
      rw (long_enough c, take_more n p missing (fits c), drop_more n p missing (fits c))
        (with_more (some_injective (rw c at e)))
]
  where
    none_some : {x : Bytes × Bytes} → none ≢ some x
    none_some q = cc

    some_injective : {x y : Bytes × Bytes} → some x ≡ some y → x ≡ y
    some_injective q = cc

    fits : (ltb xa_tc_max_name n || ltb (length p) n) ≡ false → n ≤ length p
    fits c = ground arith

    long_enough :
        (ltb xa_tc_max_name n || ltb (length p) n) ≡ false
        → (ltb xa_tc_max_name n || ltb (length (p ++ missing)) n) ≡ false
    long_enough c = ground (arith, length-append p missing)

    longer : Bytes × Bytes → Option (Bytes × Bytes)
    longer (a, b) = some (a, b ++ missing)

    with_more : {x y : Bytes × Bytes} → x ≡ y → longer x ≡ longer y
    with_more q = ap longer q

get_name-more :
    (p missing s rest : Bytes)
    → get_name p ≡ some (s, rest)
    → get_name (p ++ missing) ≡ some (s, rest ++ missing)
unfolding get_name
get_name-more p missing s rest e = elim (Bool-cases (ltb (length p) 4)) [
  | inl c ↦ absurd (none_some (rw c at e))
  | inr c ↦
      rw (long_enough c, take_more 4 p missing (fits c), drop_more 4 p missing (fits c))
        (take_name-more (be_fold 32 0 (take 4 p)) (drop 4 p) missing s rest (rw c at e))
]
  where
    none_some : {x : Bytes × Bytes} → none ≢ some x
    none_some q = cc

    fits : ltb (length p) 4 ≡ false → 4 ≤ length p
    fits c = ground arith

    long_enough : ltb (length p) 4 ≡ false → ltb (length (p ++ missing)) 4 ≡ false
    long_enough c = ground (arith, length-append p missing)

-- Part of the two names of a pair is no pair.
get_pair-cut :
    (db table cut missing : Bytes)
    → length db ≤ xa_tc_max_name
    → length table ≤ xa_tc_max_name
    → cut ++ missing ≡ put_name db ++ put_name table
    → missing ≢ []
    → get_pair cut ≡ none
unfolding get_pair
get_pair-cut db table cut missing hd ht whole more = first (get_name cut) refl
  where
    at_whole : get_pair (cut ++ missing) ≡ some ((db, table), [])
    at_whole =
        ap get_pair (whole ∙ ap (λ b. put_name db ++ b) (sym (append-nil (put_name table))))
        ∙ get_pair-put_name db table [] hd ht

    found : Bytes × Bytes → Bytes → Option ((Bytes × Bytes) × Bytes)
    found names left = some (names, left)

    nothing_left :
        (b c : Bytes × Bytes) (rest : Bytes) → found b (rest ++ missing) ≡ found c [] → missing ≡ []
    nothing_left b c [] q = cc
    nothing_left b c (x ∷ rest) q = absurd cc

    pair : Bytes → Bytes × Bytes → Option ((Bytes × Bytes) × Bytes)
    pair s x = some ((s, x.0), x.1)

    second :
        (s rest : Bytes)
        → get_name cut ≡ some (s, rest)
        → (o : Option (Bytes × Bytes)) → get_name rest ≡ o
        → (o >>= pair s) ≡ none
    second s rest e none f = refl
    second s rest e (some (t, p₂)) f = absurd (
        more (
          nothing_left (s, t) (db, table) p₂
            (sym (rw (get_name-more cut missing s rest e, get_name-more rest missing t p₂ f) refl)
              ∙ at_whole)))

    first :
        (o : Option (Bytes × Bytes))
        → get_name cut ≡ o
        → (o >>= (λ (x : Bytes × Bytes). get_name x.1 >>= pair x.0)) ≡ none
    first none e = refl
    first (some (s, rest)) e = second s rest e (get_name rest) refl

-- A record that ends anywhere within the two names of a pair is refused, and still yields the
-- pairs before it. The names fit their fields, and the count of the header, which is above the
-- number of the pairs before, has 32 bits.
pub xa_tc_decode-cut :
    (read lost : TableNames) (db table cut missing : Bytes)
    → NamesFit read
    → length db ≤ xa_tc_max_name
    → length table ≤ xa_tc_max_name
    → length read + suc (length lost) < 2 ^ 32
    → cut ++ missing ≡ put_name db ++ put_name table
    → missing ≢ []
    → xa_tc_decode
        (1 ∷ (be_bytes 4 (length read + suc (length lost)) ++ (encode_tables read ++ cut)))
      ≡ (false, read)
unfolding decode_pairs with_pair
xa_tc_decode-cut read lost db table cut missing fit hd ht few whole more =
    xa_tc_decode_header (length read + suc (length lost)) (encode_tables read ++ cut) few
    ∙ decode_pairs-encode_tables read (suc (length lost)) cut fit
    ∙ rw (get_pair-cut db table cut missing hd ht whole more)
        (ap (λ t. (false, t)) (append-nil read))
