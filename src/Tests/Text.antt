-- ===== src/Tests/Text.antt =====
-- Texts, names and sort keys at concrete inputs. The character set of the runs has one byte to a
-- character, with the letters of English.
use tidesql_mysql.Base.Text.{codes}
use tidesql_mysql.Base.LittleEndian.{le_bytes}
use tidesql_mysql.CfName.{split_table_path, to_cf_name}
use tidesql_mysql.CfName.Paths.{NoMarker, to_cf_name-NoMarker}
use tidesql_mysql.SortKey.{FieldSortDesc, Kind, decode_int}
use tidesql_mysql.SortKey.Integers.{sign_flipped, decode_int_lem}
use tidesql_mysql.Fts.{Charset, TokenizeOpts, tokenize}
use tidesql_mysql.Fts.Fuel.{tokenize_total, parse_boolean_total}
use tidesql_mysql.Fts.Emitted.{IsToken, tokenize-IsToken}
use tidesql_mysql.Fts.Query.{QueryTerm, excluded, required, parse_boolean, phrase_in_tokens}
use tidesql_mysql.Fts.Phrase.{
  OccursIn, phrase_in_tokens_iff, phrase_of, quoted, parse_boolean-phrase,
}
use tidesql_mysql.Fts.{skip_separators, scan_word, is_blend, emit_token, char_count, is_stopword}
use tidesql_mysql.Fts.{tokenize_loop, tokenize_word, emit_word, contains, char_count_from}
use tidesql_mysql.TableOptions.Json.{
  skip_space, read_string, read_value, read_bare, non_empty, ends_value,
}
use tidesql_mysql.TableOptions.Json.{is_space, read_chars, read_value_at, unescape}
use tidesql_mysql.TableOptions.Parse.{
  parse_object, object, inside, members, step_member, read_member,
}
use tidesql_mysql.TableOptions.Parse.{
  stored, store_option, check_bounds, close, find_spec, in_bounds,
}
use tidesql_mysql.TableOptions.Parse.{named, read_after_name, separator, store_kind, store_spec}
use tidesql_mysql.TableOptions.Values.{eq_nocase, to_number_loop, find_name, is_digit, to_bool}
use tidesql_mysql.TableOptions.Values.{to_enum, to_position, tolower}
use tidesql_mysql.TableOptions.Serialize.{
  append_number, append_bool, append_enum, enum_name, to_string,
}
use tidesql_mysql.TableOptions.Serialize.{decimal_digits}
use tidesql_mysql.TableOptions.{Options, specs}
use tidesql_mysql.TableOptions.Values.{to_number}
use tidesql_mysql.TableOptions.Numbers.{Writes, to_number_iff}
use tidesql_mysql.TableOptions.Parse.{Outcome, done, parse_attributes}
use tidesql_mysql.TableOptions.Range.{InRange, parse_attributes-InRange}
use tidesql_mysql.TableOptions.Fuel.{parse_attributes_total}
use tidesql_mysql.TableOptions.Serialize.{serialize_attributes}
use tidesql_mysql.Base.{◌+◌}
use tidesql_mysql.Base.{◌≡◌, refl, ◌↔◌, inl, arith}
use tidesql_mysql.Base.{true, false, ◌&&◌, none, some}
use tidesql_mysql.Base.{List, [], ◌∷◌, ◌++◌, length}
use tidesql_mysql.Base.{All}
use tidesql_mysql.Base.{leb}
use tidesql_mysql.Base.Bytes.{Bytes, equal, be_bytes}

to_cf_name-NoMarker_example :
    NoMarker (to_cf_name (codes "./db/#sql-1"))
    × (length (to_cf_name (codes "./db/#sql-1"))
        ≡ length ((split_table_path (codes "./db/#sql-1")).db)
          + 2
          + length ((split_table_path (codes "./db/#sql-1")).table))
unfolding split_table_path
to_cf_name-NoMarker_example = to_cf_name-NoMarker (codes "./db/#sql-1") refl

decode_int_lem_example :
    (decode_int (be_bytes 4 70000 ++ (9 ∷ [])) 4 false ≡ some (le_bytes 4 70000))
    × (decode_int (sign_flipped (be_bytes 4 70000) ++ (9 ∷ [])) 4 true ≡ some (le_bytes 4 70000))
decode_int_lem_example = decode_int_lem 4 70000 (9 ∷ []) (inl (omega arith))

abbrev char_field : FieldSortDesc
char_field = record { k = Kind.char_fixed; is_signed = false; pack_length = 4; pad_byte = 32 }

abbrev ascii : Charset
ascii = record { mbchar_len = λ p. 0; is_alnum = λ c. leb b'a' c && leb c b'z'; casedn = λ s. s }

abbrev opts : TokenizeOpts
opts = record {
  min_word_len = 2;
  max_word_len = 84;
  blend_map = none;
  stopwords = some (codes "the" ∷ []);
}

abbrev document : Bytes
document = codes "the red fox"

document_tokens : tokenize ascii opts document ≡ some (codes "red" ∷ (codes "fox" ∷ []))
unfolding tokenize skip_separators scan_word is_blend emit_token char_count is_stopword equal
    tokenize_loop tokenize_word emit_word contains char_count_from
document_tokens = refl

tokenize_total_example : (tokens : List Bytes) × (tokenize ascii opts document ≡ some tokens)
tokenize_total_example = tokenize_total ascii opts document

parse_boolean_total_example :
    (terms : List QueryTerm) × (parse_boolean ascii opts (codes "+red -fox*") ≡ some terms)
parse_boolean_total_example = parse_boolean_total ascii opts (codes "+red -fox*")

tokenize-IsToken_example : All (IsToken ascii opts) (codes "red" ∷ (codes "fox" ∷ []))
tokenize-IsToken_example =
    tokenize-IsToken ascii opts document (codes "red" ∷ (codes "fox" ∷ [])) document_tokens

phrase_in_tokens_iff_example :
    (phrase_in_tokens (codes "a" ∷ (codes "b" ∷ [])) (codes "b" ∷ []) ≡ true)
    ↔ OccursIn (codes "b" ∷ []) (codes "a" ∷ (codes "b" ∷ []))
phrase_in_tokens_iff_example = phrase_in_tokens_iff (codes "a" ∷ (codes "b" ∷ [])) (codes "b" ∷ [])

parse_boolean-phrase_example :
    (parse_boolean ascii opts (quoted document)
      ≡ some (phrase_of required (codes "red") (codes "fox" ∷ [])))
    × (parse_boolean ascii opts (b'+' ∷ quoted document)
        ≡ some (phrase_of required (codes "red") (codes "fox" ∷ [])))
    × (parse_boolean ascii opts (b'-' ∷ quoted document)
        ≡ some (phrase_of excluded (codes "red") (codes "fox" ∷ [])))
parse_boolean-phrase_example =
    parse_boolean-phrase ascii opts document (codes "red") (codes "fox" ∷ []) (ground arith)
      document_tokens

to_number_iff_example : (to_number (codes "512") ≡ some 512) ↔ Writes (codes "512") 512
to_number_iff_example = to_number_iff (codes "512") 512

abbrev names : List Bytes
names = codes "NONE" ∷ (codes "LZ4" ∷ [])

abbrev defaults : Options
defaults = record {
  btree_klog_block_size = 4096;
  level_size_ratio = 10;
  min_levels = 5;
  dividing_level_offset = 2;
  bloom_fpr = 100;
  l1_file_count_trigger = 4;
  compression = 1;
  isolation_level = 0;
  bloom_filter = true;
  keep_values_inline = false;
  ttl = 0;
  encrypted = false;
  encryption_key_id = 1;
  tombstone_density_trigger = 5000;
  tombstone_density_min_entries = 1000;
}

defaults-InRange : InRange 2 2 defaults
defaults-InRange = ground arith

abbrev attribute : Bytes
attribute = codes "{\"TTL\": 60, \"compression\": \"none\"}"

attribute_read :
    parse_attributes (some names) (some names) (some attribute) defaults
    ≡ some (done (record defaults { ttl = 60; compression = 0 }))
unfolding parse_attributes parse_object object skip_space inside members step_member read_member
    read_string read_value read_bare non_empty stored store_option specs eq_nocase to_number
    to_number_loop equal ends_value is_space read_chars read_value_at unescape check_bounds close
    find_spec in_bounds named read_after_name separator store_kind store_spec find_name is_digit
    to_bool to_enum to_position tolower
attribute_read = refl

parse_attributes-InRange_example : InRange 2 2 (record defaults { ttl = 60; compression = 0 })
parse_attributes-InRange_example =
    parse_attributes-InRange names names (some attribute) defaults
      (done (record defaults { ttl = 60; compression = 0 })) defaults-InRange attribute_read

parse_attributes_total_example :
    (out : Outcome Options) × (parse_attributes (some names) none (some attribute) defaults
      ≡ some out)
parse_attributes_total_example = parse_attributes_total (some names) none (some attribute) defaults

-- What is written for the defaults is read back over any other options.
serialized_read :
    parse_attributes
      (some names)
      (some names)
      (some (serialize_attributes defaults (some names) (some names)))
      (record defaults { ttl = 60; compression = 0; bloom_filter = false })
    ≡ some (done defaults)
unfolding serialize_attributes append_number append_bool append_enum enum_name to_string
    decimal_digits parse_attributes parse_object object skip_space inside members step_member
    read_member read_string read_value read_bare non_empty stored store_option specs eq_nocase
    to_number to_number_loop equal ends_value is_space read_chars read_value_at unescape
    check_bounds close find_spec in_bounds named read_after_name separator store_kind store_spec
    find_name is_digit to_bool to_enum to_position tolower
serialized_read = refl
