-- ===== src/TableOptions.antt =====
-- The per-table storage options of tidesdb/src/core/table_options.{h,cc}: the options, and the list
-- of the names that may be written. A spec holds the function that stores into its member, where the
-- source holds the member's kind and offset. An unsigned int or long long is a number.
pub mod Values
pub mod Json
pub mod Parse
pub mod Serialize
pub mod Numbers
pub mod Range
pub mod Fuel
use tidesql_mysql.Base.Text.{codes}
use tidesql_mysql.Base.{ℕ}
use tidesql_mysql.Base.{Bool}
use tidesql_mysql.Base.{List, [], ◌∷◌}
use tidesql_mysql.Base.Bytes.{Bytes}

pub record Options : Type 0 where
  pub btree_klog_block_size : ℕ
  pub level_size_ratio : ℕ
  pub min_levels : ℕ
  pub dividing_level_offset : ℕ
  pub bloom_fpr : ℕ
  pub l1_file_count_trigger : ℕ
  pub compression : ℕ
  pub isolation_level : ℕ
  pub bloom_filter : Bool
  pub keep_values_inline : Bool
  pub ttl : ℕ
  pub encrypted : Bool
  pub encryption_key_id : ℕ
  pub tombstone_density_trigger : ℕ
  pub tombstone_density_min_entries : ℕ

-- What a member accepts, with the store into it.
pub data Kind : Type 0 where
  boolean : (Bool → Options → Options) → Kind
  number compression isolation : (ℕ → Options → Options) → Kind

pub record Spec : Type 0 where
  pub name : Bytes
  pub what : Kind
  pub low : ℕ
  pub high : ℕ

abbrev pub max_u64 : ℕ
max_u64 = 18446744073709551615

abbrev spec : Bytes → Kind → ℕ → ℕ → Spec
spec name what low high = record { name = name; what = what; low = low; high = high }

unfoldable pub specs : List Spec
specs =
    spec (codes "keep_values_inline") (Kind.boolean (λ v o. record o { keep_values_inline = v })) 0
      1
    ∷ spec (codes "bloom_filter") (Kind.boolean (λ v o. record o { bloom_filter = v })) 0 1
    ∷ spec (codes "encrypted") (Kind.boolean (λ v o. record o { encrypted = v })) 0 1
    ∷ spec (codes "btree_klog_block_size")
        (Kind.number (λ v o. record o { btree_klog_block_size = v })) 512 max_u64
    ∷ spec (codes "level_size_ratio") (Kind.number (λ v o. record o { level_size_ratio = v })) 2 100
    ∷ spec (codes "min_levels") (Kind.number (λ v o. record o { min_levels = v })) 1 64
    ∷ spec (codes "dividing_level_offset")
        (Kind.number (λ v o. record o { dividing_level_offset = v })) 0 64
    ∷ spec (codes "bloom_fpr") (Kind.number (λ v o. record o { bloom_fpr = v })) 1 10000
    ∷ spec (codes "l1_file_count_trigger")
        (Kind.number (λ v o. record o { l1_file_count_trigger = v })) 1 1024
    ∷ spec (codes "tombstone_density_trigger")
        (Kind.number (λ v o. record o { tombstone_density_trigger = v })) 0 10000
    ∷ spec (codes "tombstone_density_min_entries")
        (Kind.number (λ v o. record o { tombstone_density_min_entries = v })) 0 max_u64
    ∷ spec (codes "ttl") (Kind.number (λ v o. record o { ttl = v })) 0 max_u64
    ∷ spec (codes "encryption_key_id") (Kind.number (λ v o. record o { encryption_key_id = v })) 1
        255
    ∷ spec (codes "compression") (Kind.compression (λ v o. record o { compression = v })) 0 0
    ∷ spec (codes "isolation_level") (Kind.isolation (λ v o. record o { isolation_level = v })) 0 0
    ∷ []
