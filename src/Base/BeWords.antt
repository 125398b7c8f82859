-- ===== src/Base/BeWords.antt =====
-- Whole words: the bytes of the number that the loop of `be_fold` reads.
use Prim.Native.Nat.{ℕ, suc, ◌+◌, ◌*◌, ◌/◌, ◌%◌, ◌^◌, ◌≤◌, ◌<◌}
use mathlib.Core.Path.{◌≡◌, refl, sym, ap, ap₂, ◌∙◌}
use mathlib.Core.List.{[], ◌∷◌}
use native.Mathlib.Omega.{arith}
use native.Mathlib.Nat.{div-add-mod, mod-lt}
use tidesql_mysql.Base.Lists.{length, All, take}
use tidesql_mysql.Base.Lists.{take, length-take, All-take}
use tidesql_mysql.Base.Bytes.{
  Bytes, IsByte, be_bytes, be_fold, pow_byte, pow_pos, digit_room, fold_byte,
}

quotient : (q p r : ℕ) → r < p → (q * p + r) / p ≡ q
quotient q p r h = grind (
  arith,
  div-add-mod (q * p + r) p,
  mod-lt (q * p + r) {m = p} (omega arith),
  digit_room q ((q * p + r) / p) p,
  digit_room ((q * p + r) / p) q p,
)

-- The number that big-endian bytes stand for.
abbrev be_value : Bytes → ℕ
be_value [] = 0
be_value (b ∷ bs) = b * 2 ^ (8 * length bs) + be_value bs

be_value-lt : (bs : Bytes) → All IsByte bs → be_value bs < 2 ^ (8 * length bs)
be_value-lt [] h = omega arith
be_value-lt (b ∷ bs) (hb, h) =
    rw pow_byte (omega (arith, digit_room b 256 (2 ^ (8 * length bs)) hb, be_value-lt bs h))

be_fold-be_value :
    (w acc : ℕ) (bs : Bytes)
    → All IsByte bs
    → acc * 2 ^ (8 * length bs) + 2 ^ (8 * length bs) ≤ 2 ^ w
    → be_fold w acc bs ≡ acc * 2 ^ (8 * length bs) + be_value bs
unfolding be_fold
be_fold-be_value w acc [] h room = omega arith
be_fold-be_value w acc (b ∷ bs) (hb, h) room =
    ap (λ t. be_fold w t bs) (fold_byte w acc b fits hb)
    ∙ be_fold-be_value w (acc * 256 + b) bs h
        (omega (arith, digit_room b 256 (2 ^ (8 * length bs)) hb, room'))
    ∙ omega (arith, ap (λ (t : ℕ). acc * t) (pow_byte (length bs)))
  where
    room' : acc * (2 ^ (8 * length bs) * 256) + 2 ^ (8 * length bs) * 256 ≤ 2 ^ w
    room' = rw pow_byte at room

    fits : acc * 256 < 2 ^ w
    fits = grind (arith, room', pow_pos (8 * length bs))

be_bytes-be_value :
    (acc : ℕ) (bs : Bytes)
    → All IsByte bs
    → be_bytes (length bs) (acc * 2 ^ (8 * length bs) + be_value bs) ≡ bs
unfolding be_bytes
be_bytes-be_value acc [] h = refl
be_bytes-be_value acc (b ∷ bs) (hb, h) =
    ap₂ ◌∷◌ head (ap (be_bytes (length bs)) regroup ∙ be_bytes-be_value (acc * 256 + b) bs h)
  where
    regroup :
        acc * 2 ^ (8 * suc (length bs)) + (b * 2 ^ (8 * length bs) + be_value bs)
        ≡ (acc * 256 + b) * 2 ^ (8 * length bs) + be_value bs
    regroup = omega (arith, ap (λ (t : ℕ). acc * t) (pow_byte (length bs)))

    head :
        (acc * 2 ^ (8 * suc (length bs)) + (b * 2 ^ (8 * length bs) + be_value bs))
          / 2 ^ (8 * length bs)
          % 256
        ≡ b
    head =
        ap (λ t. t / 2 ^ (8 * length bs) % 256) regroup
        ∙ ap (λ t. t % 256)
            (quotient (acc * 256 + b) (2 ^ (8 * length bs)) (be_value bs) (be_value-lt bs h))
        ∙ omega arith

-- Bytes of a whole word are the bytes of the number that the loop reads from them.
pub be_bytes-be_fold :
    (w : ℕ) (bs : Bytes)
    → All IsByte bs
    → 2 ^ (8 * length bs) ≤ 2 ^ w
    → be_bytes (length bs) (be_fold w 0 bs) ≡ bs
be_bytes-be_fold w bs h room =
    ap (be_bytes (length bs)) (be_fold-be_value w 0 bs h (omega (arith, room)))
    ∙ be_bytes-be_value 0 bs h

-- The leading bytes of a string, read as a word and written again.
pub be_bytes-be_fold-take :
    (w n : ℕ) (p : Bytes)
    → All IsByte p
    → n ≤ length p
    → 2 ^ (8 * n) ≤ 2 ^ w
    → be_bytes n (be_fold w 0 (take n p)) ≡ take n p
be_bytes-be_fold-take w n p h long room =
    ap (λ k. be_bytes k (be_fold w 0 (take n p))) (sym (length-take n p long))
    ∙ be_bytes-be_fold w (take n p) (All-take IsByte n p h) (rw (length-take n p long) room)

pub be_fold-lt :
    (w : ℕ) (bs : Bytes) → All IsByte bs → 2 ^ (8 * length bs) ≤ 2 ^ w → be_fold w 0 bs < 2 ^ w
be_fold-lt w bs h room =
    rw (be_fold-be_value w 0 bs h (omega (arith, room))) (omega (arith, be_value-lt bs h, room))
