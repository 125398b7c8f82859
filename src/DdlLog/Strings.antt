-- ===== src/DdlLog/Strings.antt =====
-- The strings in the records of ddl_log_rec.cc, written and read.
use tidesql_mysql.DdlLog.{take_str}
use tidesql_mysql.DdlLog.{put_str, get_str}
use tidesql_mysql.DdlLog.{max_field_len}
use tidesql_mysql.Base.{ℕ, ◌%◌, ◌^◌, ◌≤◌}
use tidesql_mysql.Base.{◌≡◌, sym, ap, ap₂, ◌∙◌, arith}
use tidesql_mysql.Base.{some}
use tidesql_mysql.Base.{[], ◌∷◌, ◌++◌, append_assoc, length, take, drop}
use tidesql_mysql.Base.{All, length-append, take-append, drop-append}
use tidesql_mysql.Base.{length-take, take-append_drop}
use tidesql_mysql.Base.Bytes.{Bytes, IsByte, be_bytes, be_fold, be_fold_lem}
use tidesql_mysql.Base.Bytes.{length-be_bytes}
use tidesql_mysql.Base.Bytes.{take-be_bytes, drop-be_bytes}
use tidesql_mysql.Base.BeWords.{be_bytes-be_fold-take}
use tidesql_mysql.Base.{All-drop}

take_str-append :
    (s rest : Bytes) → length s ≤ max_field_len → take_str (length s) (s ++ rest) ≡ some (s, rest)
unfolding take_str
take_str-append s rest h = rw (take-append, drop-append) (ground (arith, length-append s rest))

pub get_str-put_str :
    (s rest : Bytes) → length s ≤ max_field_len → get_str (put_str s ++ rest) ≡ some (s, rest)
unfolding get_str put_str
get_str-put_str s rest h =
    rw (append_assoc, take-be_bytes, drop-be_bytes, read_length)
      (ground (arith, whole, take_str-append s rest))
  where
    read_length : be_fold 32 0 (be_bytes 4 (length s % 2 ^ 32)) ≡ length s
    read_length = be_fold_lem 32 4 (length s % 2 ^ 32) (omega arith) (omega arith) ∙ omega arith

    whole : 4 ≤ length (be_bytes 4 (length s % 2 ^ 32) ++ (s ++ rest))
    whole = omega (
      arith,
      length-append (be_bytes 4 (length s % 2 ^ 32)) (s ++ rest),
      length-be_bytes 4 (length s % 2 ^ 32),
    )

take_str_sound :
    (n : ℕ) (p : Bytes) {s rest : Bytes}
    → take_str n p ≡ some (s, rest)
    → (p ≡ s ++ rest) × (length s ≡ n) × (n ≤ max_field_len)
unfolding take_str
take_str_sound n p {s} {rest} e = ground (arith, take-append_drop n p, length-take n p)

All-rest : (s rest : Bytes) → All IsByte (s ++ rest) → All IsByte rest
All-rest [] rest h = h
All-rest (x ∷ s) rest (hx, h) = All-rest s rest h

get_str_parts :
    (p : Bytes) {s rest : Bytes}
    → get_str p ≡ some (s, rest)
    → (4 ≤ length p) × (take_str (be_fold 32 0 (take 4 p)) (drop 4 p) ≡ some (s, rest))
unfolding get_str
get_str_parts p e = ground arith

-- What `get_str` takes is what `put_str` would have written, and the field fits.
pub get_str_sound :
    (p : Bytes) {s rest : Bytes}
    → All IsByte p
    → get_str p ≡ some (s, rest)
    → (p ≡ put_str s ++ rest) × (length s ≤ max_field_len) × All IsByte rest
unfolding put_str
get_str_sound p {s} {rest} bs e =
    (sym written, omega (arith, len), All-rest s rest (rw split at (All-drop IsByte 4 p bs)))
  where
    long : 4 ≤ length p
    long = (get_str_parts p e).0

    took :
        (drop 4 p ≡ s ++ rest)
        × (length s ≡ be_fold 32 0 (take 4 p))
        × (be_fold 32 0 (take 4 p) ≤ max_field_len)
    took = take_str_sound (be_fold 32 0 (take 4 p)) (drop 4 p) (get_str_parts p e).1

    split : drop 4 p ≡ s ++ rest
    split = took.0

    len : (length s ≡ be_fold 32 0 (take 4 p)) × (be_fold 32 0 (take 4 p) ≤ max_field_len)
    len = (took.1, took.2)

    prefix : be_bytes 4 (length s % 2 ^ 32) ≡ take 4 p
    prefix =
        ap (be_bytes 4) (omega (arith, len)) ∙ be_bytes-be_fold-take 32 4 p bs long (omega arith)

    written : (be_bytes 4 (length s % 2 ^ 32) ++ s) ++ rest ≡ p
    written =
        append_assoc (be_bytes 4 (length s % 2 ^ 32)) s rest
        ∙ ap₂ ◌++◌ prefix (sym split)
        ∙ take-append_drop 4 p
