-- ===== src/TableOptions/Serialize.antt =====
-- serialize_attributes of table_options.cc. A number is written in decimal.
use tidesql_mysql.TableOptions.{Options}
use tidesql_mysql.Base.Text.{codes}
use tidesql_mysql.Base.{ℕ, zero, suc, ◌+◌, ◌/◌, ◌%◌}
use tidesql_mysql.Base.{Bool, true, false, Option, none, some}
use tidesql_mysql.Base.{List, [], ◌∷◌, ◌++◌}
use tidesql_mysql.Base.{get_elem?}
use tidesql_mysql.Base.{ltb, if◌then◌else◌}
use tidesql_mysql.Base.Bytes.{Bytes}

-- `std::to_string` of a number of at most `fuel` digits, before the digits written already.
unfoldable pub decimal_digits : ℕ → ℕ → Bytes → Bytes
decimal_digits zero v out = out
decimal_digits (suc fuel) v out =
    let longer = decimal_digits fuel (v / 10) ((b'0' + v % 10) ∷ out) in
    if ltb v 10 then (b'0' + v) ∷ out else longer

-- A 64-bit number has at most twenty digits.
unfoldable pub to_string : ℕ → Bytes
unfolding decimal_digits
to_string v = decimal_digits 20 v []

unfoldable pub enum_name : Option (List Bytes) → ℕ → Option Bytes
enum_name none value = none
enum_name (some names) value = get_elem? names value

abbrev member_name : Bool → Bytes → Bytes
member_name first name =
    (if first then [] else codes ", ") ++ (b'"' ∷ (name ++ (b'"' ∷ codes ": ")))

-- Each `append` function gives what the source appends.
unfoldable pub append_number : Bytes → ℕ → Bool → Bytes
append_number name v first = member_name first name ++ to_string v

unfoldable pub append_bool : Bytes → Bool → Bool → Bytes
append_bool name v first = member_name first name ++ (if v then codes "true" else codes "false")

unfoldable pub append_enum : Bytes → ℕ → Option (List Bytes) → Bool → Bytes
unfolding enum_name
append_enum name v names first =
    member_name first name
    ++ elim (enum_name names v) [ some text ↦ b'"' ∷ (text ++ (b'"' ∷ [])) | none ↦ to_string v ]

unfoldable pub serialize_attributes : Options → Option (List Bytes) → Option (List Bytes) → Bytes
unfolding append_number append_bool append_enum
serialize_attributes opts compression_names isolation_names =
    codes "{"
    ++ (append_bool (codes "keep_values_inline") opts.keep_values_inline true
        ++ (append_bool (codes "bloom_filter") opts.bloom_filter false
            ++ (append_bool (codes "encrypted") opts.encrypted false
                ++ (append_number (codes "btree_klog_block_size") opts.btree_klog_block_size false
                    ++ (append_number (codes "level_size_ratio") opts.level_size_ratio false
                        ++ (append_number (codes "min_levels") opts.min_levels false
                            ++ (append_number (codes "dividing_level_offset")
                                  opts.dividing_level_offset false
                                ++ (append_number (codes "bloom_fpr") opts.bloom_fpr false
                                    ++ (append_number (codes "l1_file_count_trigger")
                                          opts.l1_file_count_trigger false
                                        ++ (append_number (codes "tombstone_density_trigger")
                                              opts.tombstone_density_trigger false
                                            ++ (append_number
                                                  (codes "tombstone_density_min_entries")
                                                  opts.tombstone_density_min_entries false
                                                ++ (append_number (codes "ttl") opts.ttl false
                                                    ++ (append_number (codes "encryption_key_id")
                                                          opts.encryption_key_id false
                                                        ++ (append_enum (codes "compression")
                                                            opts.compression compression_names false
                                                            ++ (append_enum
                                                            (codes "isolation_level")
                                                            opts.isolation_level isolation_names
                                                            false
                                                            ++ codes "}")))))))))))))))
