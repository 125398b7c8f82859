-- ===== src/Base/LittleEndian.antt =====
-- Integers in the byte order of the machine, lowest byte first.
use Prim.Native.Nat.{ℕ, zero, suc, ◌+◌, ◌*◌, ◌/◌, ◌%◌, ◌^◌, ◌<◌}
use mathlib.Core.Path.{◌≡◌, refl, ap}
use mathlib.Core.List.{[], ◌∷◌, ◌++◌}
use native.Mathlib.Omega.{arith}
use tidesql_mysql.Base.Lists.{length, take, drop, All}
use tidesql_mysql.Base.Bytes.{Bytes, IsByte, pow_byte, pow_pos}

unfoldable pub le_bytes : ℕ → ℕ → Bytes
le_bytes zero v = []
le_bytes (suc n) v = (v % 256) ∷ le_bytes n (v / 256)

unfoldable pub le_value : Bytes → ℕ
le_value [] = 0
le_value (b ∷ bs) = b + 256 * le_value bs

pub le_value-le_bytes : (n v : ℕ) → v < 2 ^ (8 * n) → le_value (le_bytes n v) ≡ v
unfolding le_value le_bytes
le_value-le_bytes zero v h = omega arith
le_value-le_bytes (suc n) v h =
    omega (arith, le_value-le_bytes n (v / 256) (omega (arith, pow_byte n)))

pub length-le_bytes : (n v : ℕ) → length (le_bytes n v) ≡ n
unfolding le_bytes
length-le_bytes zero v = refl
length-le_bytes (suc n) v = ap suc (length-le_bytes n (v / 256))

pub take-le_bytes : (n v : ℕ) (rest : Bytes) → take n (le_bytes n v ++ rest) ≡ le_bytes n v
unfolding le_bytes
take-le_bytes zero v rest = refl
take-le_bytes (suc n) v rest = ap (◌∷◌ (v % 256)) (take-le_bytes n (v / 256) rest)

pub drop-le_bytes : (n v : ℕ) (rest : Bytes) → drop n (le_bytes n v ++ rest) ≡ rest
unfolding le_bytes
drop-le_bytes zero v rest = refl
drop-le_bytes (suc n) v rest = drop-le_bytes n (v / 256) rest

pub le_value-take-lt : (n : ℕ) (p : Bytes) → All IsByte p → le_value (take n p) < 2 ^ (8 * n)
unfolding le_value
le_value-take-lt zero p h = omega arith
le_value-take-lt (suc n) [] h = omega (arith, pow_pos (8 * suc n))
le_value-take-lt (suc n) (b ∷ p) (hb, h) = omega (arith, pow_byte n, le_value-take-lt n p h)
