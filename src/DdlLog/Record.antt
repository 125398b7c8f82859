-- ===== src/DdlLog/Record.antt =====
-- The record bytes of ddl_log_rec.cc, written and read.
use tidesql_mysql.DdlLog.Strings.{get_str-put_str, get_str_sound}
use tidesql_mysql.DdlLog.{LogRecord, Intent, drop_table, create_table, intent_byte, read_intent}
use tidesql_mysql.DdlLog.{put_str, get_str, encode_record, decode_fields, decode_record, name_path}
use tidesql_mysql.DdlLog.{max_field_len, format_version}
use tidesql_mysql.Base.{ℕ, ◌≤◌}
use tidesql_mysql.Base.{◌≡◌, refl, sym, ap, ap₂, ◌∙◌, ◌≢◌, ◌↔◌, arith}
use tidesql_mysql.Base.{some, ◌>>=◌, >>=-Bound, bound}
use tidesql_mysql.Base.{[], ◌∷◌, ◌++◌, append_assoc, length}
use tidesql_mysql.Base.{All}
use tidesql_mysql.Base.Bytes.{Bytes, IsByte}

decode_fields-put_str :
    (r : LogRecord) (rest : Bytes)
    → length r.path ≤ max_field_len
    → length r.db ≤ max_field_len
    → length r.table ≤ max_field_len
    → r.path ≢ []
    → decode_fields r.what (put_str r.path ++ (put_str r.db ++ (put_str r.table ++ rest))) ≡ some r
unfolding decode_fields
decode_fields-put_str r rest hp hd ht ne =
    rw
      (
        get_str-put_str r.path (put_str r.db ++ (put_str r.table ++ rest)) hp,
        get_str-put_str r.db (put_str r.table ++ rest) hd,
        get_str-put_str r.table rest ht,
      )
      (name_path_lem r.path ne)
  where
    name_path_lem :
        (path : Bytes)
        → path ≢ []
        → name_path r.what path r.db r.table
          ≡ some (record { what = r.what; path = path; db = r.db; table = r.table })
    name_path_lem [] h = absurd (h refl)
    name_path_lem (c ∷ path) h = unfold name_path in refl

read_intent_lem : (i : Intent) → read_intent (intent_byte i) ≡ some i
unfolding read_intent intent_byte
read_intent_lem drop_table = refl
read_intent_lem create_table = refl

-- The bytes of a record.
abbrev fields : LogRecord → Bytes
fields r = put_str r.path ++ (put_str r.db ++ put_str r.table)

abbrev Fits : LogRecord → Type 0
Fits r =
    (length r.path ≤ max_field_len)
    × (length r.db ≤ max_field_len)
    × (length r.table ≤ max_field_len)

encode_record_parts :
    (r : LogRecord) {out : Bytes}
    → encode_record r ≡ some out
    → Fits r × ((format_version ∷ intent_byte r.what ∷ fields r) ≡ out)
unfolding encode_record
encode_record_parts r e = ground arith

-- `encode_record` writes each record whose three strings fit their fields, and no other.
pub encode_record_iff :
    (r : LogRecord)
    → ((out : Bytes) × (encode_record r ≡ some out)) ↔ (
        (length r.path ≤ max_field_len)
        × (length r.db ≤ max_field_len)
        × (length r.table ≤ max_field_len))
encode_record_iff r = (
  λ p. (encode_record_parts r p.1).0,
  λ h. (format_version ∷ intent_byte r.what ∷ fields r, unfold encode_record in ground arith),
)

-- A record that was written is read back unchanged, whatever bytes follow it, if it names a path.
pub decode_record-encode_record :
    (r : LogRecord) (rest : Bytes) {out : Bytes}
    → r.path ≢ []
    → encode_record r ≡ some out
    → decode_record (out ++ rest) ≡ some r
unfolding decode_record
decode_record-encode_record r rest {out} ne e =
    let (fits, written) = encode_record_parts r e in
    ap (λ t. decode_record (t ++ rest)) (sym written)
    ∙ rw (read_intent_lem r.what)
        (ap (decode_fields r.what) regroup ∙ decode_fields-put_str r rest fits.0 fits.1 fits.2 ne)
  where
    regroup : fields r ++ rest ≡ put_str r.path ++ (put_str r.db ++ (put_str r.table ++ rest))
    regroup = simp append_assoc

read_intent_sound : (what : ℕ) {i : Intent} → read_intent what ≡ some i → what ≡ intent_byte i
unfolding read_intent intent_byte
read_intent_sound what e = ground arith

name_path_sound :
    (what : Intent) (path db table : Bytes) {r : LogRecord}
    → name_path what path db table ≡ some r
    → (r.what ≡ what) × (r.path ≡ path) × (r.db ≡ db) × (r.table ≡ table) × (path ≢ [])
unfolding name_path
name_path_sound what [] db table e = cc
name_path_sound what (c ∷ path) db table e = ground arith

decode_fields_sound :
    (what : Intent) (p : Bytes) {r : LogRecord}
    → All IsByte p
    → decode_fields what p ≡ some r
    → (rest : Bytes) × (p ≡ put_str r.path ++ (put_str r.db ++ (put_str r.table ++ rest)))
      × (r.what ≡ what)
      × (length r.path ≤ max_field_len)
      × (length r.db ≤ max_field_len)
      × (length r.table ≤ max_field_len)
      × (r.path ≢ [])
unfolding decode_fields
decode_fields_sound what p bs e = elim (>>=-Bound (get_str p) _ e) [
  | bound (path, p₁) e₁ f₁ ↦ elim (>>=-Bound (get_str p₁) _ f₁) [
    | bound (db, p₂) e₂ f₂ ↦ elim (>>=-Bound (get_str p₂) _ f₂) [
      | bound (table, p₃) e₃ f₃ ↦
          let g₁ = get_str_sound p bs e₁ in
          let g₂ = get_str_sound p₁ g₁.2 e₂ in
          let g₃ = get_str_sound p₂ g₂.2 e₃ in
          let q = name_path_sound what path db table f₃ in
          (
            p₃,
            cc (g₁.0, g₂.0, g₃.0, q.1, q.2, q.3),
            q.0,
            omega (arith, g₁.1, ap length q.1),
            omega (arith, g₂.1, ap length q.2),
            omega (arith, g₃.1, ap length q.3),
            λ x. q.4 (sym q.1 ∙ x),
          )
    ]
  ]
]

encode_record-Fits :
    (r : LogRecord)
    → Fits r
    → encode_record r ≡ some (format_version ∷ intent_byte r.what ∷ fields r)
unfolding encode_record
encode_record-Fits r h = ground arith

decode_record_parts :
    (version what : ℕ) (p : Bytes) {r : LogRecord}
    → decode_record (version ∷ what ∷ p) ≡ some r
    → (version ≡ format_version) × ((read_intent what >>= λ i. decode_fields i p) ≡ some r)
unfolding decode_record
decode_record_parts version what p e = ground arith

-- `decode_record` accepts only what `encode_record` writes: if a list of bytes is accepted, it
-- begins with the encoding of the record that is returned, and that record names a path.
pub decode_record_sound :
    (bytes : Bytes) {r : LogRecord}
    → All IsByte bytes
    → decode_record bytes ≡ some r
    → (out rest : Bytes) × (encode_record r ≡ some out) × (bytes ≡ out ++ rest) × (r.path ≢ [])
unfolding decode_record
decode_record_sound [] bs e = cc
decode_record_sound (version ∷ []) bs e = cc
decode_record_sound (version ∷ what ∷ p) {r} (bv, (bw, bs)) e =
    let (v, chain) = decode_record_parts version what p e in
    elim (>>=-Bound (read_intent what) (λ i. decode_fields i p) chain) [
      | bound i e₁ f₁ ↦
          let s = decode_fields_sound i p bs f₁ in
          (
            format_version ∷ intent_byte r.what ∷ fields r,
            s.0,
            encode_record-Fits r (s.3, s.4, s.5),
            ap₂ ◌∷◌ v (
                ap₂ ◌∷◌ (read_intent_sound what e₁ ∙ ap intent_byte (sym s.2))
                  (s.1 ∙ regroup r s.0)),
            s.6,
          )
    ]
  where
    regroup :
        (q : LogRecord) (rest : Bytes)
        → put_str q.path ++ (put_str q.db ++ (put_str q.table ++ rest)) ≡ fields q ++ rest
    regroup q rest = simp append_assoc
