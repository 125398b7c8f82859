-- ===== src/Xid/Key.antt =====
-- The serialised XIDs of ha_tidesdb_txn.cc, written and read.
use tidesql_mysql.Xid.{Xid, xid_key, xid_of_parts, xid_from_key, xid_data_size}
use tidesql_mysql.Base.{ℕ, ◌+◌, ◌%◌, ◌^◌, ◌≤◌, ◌<◌}
use tidesql_mysql.Base.{◌≡◌, sym, ap, ap₂, ◌∙◌, ◌↔◌, arith}
use tidesql_mysql.Base.{false, some}
use tidesql_mysql.Base.{[], ◌++◌, append-nil, length, take, drop}
use tidesql_mysql.Base.{All, length-append, take-append, drop-append}
use tidesql_mysql.Base.{length-take, length-drop, take-append_drop}
use tidesql_mysql.Base.{ltb}
use tidesql_mysql.Base.Bytes.{Bytes, IsByte, be_bytes, be_fold, be_fold_lem}
use tidesql_mysql.Base.Bytes.{length-be_bytes}
use tidesql_mysql.Base.Bytes.{take-be_bytes, drop-be_bytes}
use tidesql_mysql.Base.BeWords.{be_bytes-be_fold-take, be_fold-lt}
use tidesql_mysql.Base.{All-take, All-drop, take_all}

-- What an XID of the server has: a format id of 64 bits and identifiers of 128 bytes together.
abbrev pub Fits : Xid → Type 0
Fits x = (x.format_id < 2 ^ 64) × (length x.gtrid + length x.bqual ≤ xid_data_size)

be_len : (s : Bytes) → length s ≤ 128 → be_fold 32 0 (be_bytes 4 (length s % 2 ^ 32)) ≡ length s
be_len s h = be_fold_lem 32 4 (length s % 2 ^ 32) (omega arith) (omega arith) ∙ omega arith

length-xid_key : (x : Xid) → length (xid_key x) ≡ 16 + (length x.gtrid + length x.bqual)
unfolding xid_key
length-xid_key x = simp (length-append, length-be_bytes) (omega arith)

xid_of_parts-append :
    (x : Xid)
    → Fits x
    → xid_of_parts x.format_id (length x.gtrid) (length x.bqual) (x.gtrid ++ x.bqual) ≡ some x
unfolding xid_of_parts
xid_of_parts-append x h =
    rw (take-append, drop-append, whole) (ground (arith, h.1, length-append x.gtrid x.bqual))
  where
    whole : take (length x.bqual) x.bqual ≡ x.bqual
    whole = ap (take (length x.bqual)) (sym (append-nil x.bqual)) ∙ take-append x.bqual []

-- The XID that was serialised is read back.
pub xid_from_key-xid_key : (x : Xid) → Fits x → xid_from_key (xid_key x) ≡ some x
unfolding xid_from_key xid_key
xid_from_key-xid_key x h =
    rw
      (
        long,
        take-be_bytes 8 x.format_id,
        drop-be_bytes 8 x.format_id,
        take-be_bytes 4 (length x.gtrid % 2 ^ 32),
        drop-be_bytes 4 (length x.gtrid % 2 ^ 32),
        take-be_bytes 4 (length x.bqual % 2 ^ 32),
        drop-be_bytes 4 (length x.bqual % 2 ^ 32),
        be_fold_lem 64 8 x.format_id (omega arith) h.0,
        be_len x.gtrid (omega (arith, h.1)),
        be_len x.bqual (omega (arith, h.1)),
      )
      (xid_of_parts-append x h)
  where
    long : ltb (length (xid_key x)) 16 ≡ false
    long = rw (length-xid_key x) (ground arith)

-- The cut of a key into its four parts.
abbrev part₁ : Bytes → Bytes
part₁ k = take 8 k

abbrev part₂ : Bytes → Bytes
part₂ k = take 4 (drop 8 k)

abbrev part₃ : Bytes → Bytes
part₃ k = take 4 (drop 4 (drop 8 k))

abbrev part₄ : Bytes → Bytes
part₄ k = drop 4 (drop 4 (drop 8 k))

parts_append : (k : Bytes) → k ≡ part₁ k ++ (part₂ k ++ (part₃ k ++ part₄ k))
parts_append k = sym (
    ap (λ t. part₁ k ++ (part₂ k ++ t)) (take-append_drop 4 (drop 4 (drop 8 k)))
    ∙ ap (λ t. part₁ k ++ t) (take-append_drop 4 (drop 8 k))
    ∙ take-append_drop 8 k)

xid_of_parts_sound :
    (fmt gl bl : ℕ) (p : Bytes) {x : Xid}
    → xid_of_parts fmt gl bl p ≡ some x
    → (x.format_id ≡ fmt)
      × (length x.gtrid ≡ gl)
      × (length x.bqual ≡ bl)
      × (gl + bl ≤ 128)
      × (x.gtrid ++ x.bqual ≡ p)
unfolding xid_of_parts
xid_of_parts_sound fmt gl bl p {x} e =
    ground
      (arith, take-append_drop gl p, length-take gl p, length-drop gl p, take_all bl (drop gl p))

xid_from_key_parts :
    (k : Bytes) {x : Xid}
    → xid_from_key k ≡ some x
    → (16 ≤ length k)
      × (xid_of_parts
            (be_fold 64 0 (part₁ k))
            (be_fold 32 0 (part₂ k))
            (be_fold 32 0 (part₃ k))
            (part₄ k)
          ≡ some x)
unfolding xid_from_key
xid_from_key_parts k e = ground arith

xid_from_key_sound :
    (k : Bytes) {x : Xid} → All IsByte k → xid_from_key k ≡ some x → Fits x × (k ≡ xid_key x)
unfolding xid_key
xid_from_key_sound k {x} bytes e = (
  (
    rw read.0 (
        be_fold-lt 64 (part₁ k) (All-take IsByte 8 k bytes)
          (rw (length-take 8 k (omega (arith, long))) (omega arith))),
    omega (arith, read.1, read.2, read.3),
  ),
  parts_append k ∙ ap₂ ◌++◌ word₁ (ap₂ ◌++◌ word₂ (ap₂ ◌++◌ word₃ (sym read.4))),
)
  where
    long : 16 ≤ length k
    long = (xid_from_key_parts k e).0

    read :
        (x.format_id ≡ be_fold 64 0 (part₁ k))
        × (length x.gtrid ≡ be_fold 32 0 (part₂ k))
        × (length x.bqual ≡ be_fold 32 0 (part₃ k))
        × (be_fold 32 0 (part₂ k) + be_fold 32 0 (part₃ k) ≤ 128)
        × (x.gtrid ++ x.bqual ≡ part₄ k)
    read =
        xid_of_parts_sound (be_fold 64 0 (part₁ k)) (be_fold 32 0 (part₂ k))
          (be_fold 32 0 (part₃ k)) (part₄ k) (xid_from_key_parts k e).1

    word₁ : part₁ k ≡ be_bytes 8 x.format_id
    word₁ = sym (
        ap (be_bytes 8) read.0
        ∙ be_bytes-be_fold-take 64 8 k bytes (omega (arith, long)) (omega arith))

    word₂ : part₂ k ≡ be_bytes 4 (length x.gtrid % 2 ^ 32)
    word₂ = sym (
        ap (be_bytes 4) (omega (arith, read.1, read.3))
        ∙ be_bytes-be_fold-take 32 4 (drop 8 k) (All-drop IsByte 8 k bytes)
            (omega (arith, long, length-drop 8 k)) (omega arith))

    word₃ : part₃ k ≡ be_bytes 4 (length x.bqual % 2 ^ 32)
    word₃ = sym (
        ap (be_bytes 4) (omega (arith, read.2, read.3))
        ∙ be_bytes-be_fold-take 32 4 (drop 4 (drop 8 k))
            (All-drop IsByte 4 (drop 8 k) (All-drop IsByte 8 k bytes))
            (omega (arith, long, length-drop 8 k, length-drop 4 (drop 8 k))) (omega arith))

-- A list of bytes is parsed as an XID exactly where it is the serialised form of that XID, whose
-- format id has 64 bits and whose identifiers have 128 bytes together at most.
pub xid_from_key_iff :
    (k : Bytes) (x : Xid) → All IsByte k → (xid_from_key k ≡ some x) ↔ (Fits x × (k ≡ xid_key x))
xid_from_key_iff k x bytes =
    (xid_from_key_sound k bytes, λ h. ap xid_from_key h.1 ∙ xid_from_key-xid_key x h.0)
