-- ===== src/Keyring/Rotation.antt =====
-- The rotation of the master key.
use tidesql_mysql.KeyEnc.{be32_encode, encode_wrapped_key, IsU32}
use tidesql_mysql.KeyEnc.{encode_master_seq_key, generation_none, generation_first}
use tidesql_mysql.Keyring.{Services, store_get, store_put, master_key_get}
use tidesql_mysql.Keyring.{rewrap_ids, rotate_to}
use tidesql_mysql.Keyring.{
  rotate_master_key, master_generation_resolve, or_seed, seeded, stored_number,
  max_encryption_key_id,
}
use tidesql_mysql.Keyring.Custody.{Grows, IsFaithful, store_get-Grows}
use tidesql_mysql.Keyring.Unwrap.{Keeps, Grows-Keeps, Keeps-trans}
use tidesql_mysql.Keyring.Custody.{master_key_get-Grows}
use tidesql_mysql.Base.{ℕ, ◌+◌, ◌%◌, ◌^◌}
use tidesql_mysql.Base.{ap, ◌≢◌, inl, inr, arith}
use tidesql_mysql.Base.{Bool, true, false, Option, none, some}
use tidesql_mysql.Base.{[], ◌∷◌}
use tidesql_mysql.Base.{◌==◌}
use tidesql_mysql.Base.{Bool-cases}
use tidesql_mysql.Base.Bytes.{Bytes}
use tidesql_mysql.Keyring.Rewrap.{Keeps-refl, no_wrapped, rewrap_ids-Keeps}

module _ (S : Services) (faithful : IsFaithful S) where
  open S use {World, disk, ring}

  leading : Bytes → ℕ
  leading [] = 0
  leading (b ∷ bs) = b

  seq_key_apart : (key_id version : ℕ) → encode_wrapped_key key_id version ≢ encode_master_seq_key
  unfolding encode_wrapped_key encode_master_seq_key leading
  seq_key_apart key_id version e = absurd (omega (arith, ap leading e))

  put_seq-Keeps :
      (v : Bytes) (w : World) → Keeps S faithful w (store_put S encode_master_seq_key v w).1
  put_seq-Keeps = no_wrapped S faithful encode_master_seq_key seq_key_apart

  seeded-Keeps :
      (w : World) (r : Bool × World) → Keeps S faithful w r.1 → Keeps S faithful w (seeded S r).1
  unfolding seeded
  seeded-Keeps w (true, w') k = k
  seeded-Keeps w (false, w') k = k

  or_seed-Keeps : (o : Option ℕ) (w : World) → Keeps S faithful w (or_seed S o w).1
  unfolding or_seed
  or_seed-Keeps (some g) w = Keeps-refl S faithful w
  or_seed-Keeps none w =
      seeded-Keeps w (store_put S encode_master_seq_key (be32_encode generation_first) w)
        (put_seq-Keeps (be32_encode generation_first) w)

  resolve-Keeps :
      (cached : ℕ) (w : World) → Keeps S faithful w (master_generation_resolve S cached w).1
  unfolding master_generation_resolve
  resolve-Keeps cached w = elim (Bool-cases (cached == generation_none)) [
    | inr e ↦ rw e (Keeps-refl S faithful w)
    | inl e ↦ rw e (
        Keeps-trans S faithful w got.1 (or_seed S (stored_number got.0) got.1).1
          (Grows-Keeps S faithful w got.1 (store_get-Grows S faithful encode_master_seq_key w))
          (or_seed-Keeps (stored_number got.0) got.1))
  ]
    where
      got : Option Bytes × World
      got = store_get S encode_master_seq_key w

  rotate_to-Keeps :
      (current next : ℕ) (w : World) (m : Option Bytes × World)
      → IsU32 next
      → Grows S w m.1
      → Keeps S faithful w (rotate_to S current next m).2
  unfolding rotate_to
  rotate_to-Keeps current next w (none, w') hn g = Grows-Keeps S faithful w w' g
  rotate_to-Keeps current next w (some master, w') hn g = elim (Bool-cases done.0) [
    | inr d ↦ rw d rewrapped
    | inl d ↦ elim (Bool-cases put.0) [ inl p ↦ rw (d, p) published | inr p ↦ rw (d, p) published ]
  ]
    where
      done : Bool × World
      done = rewrap_ids S next max_encryption_key_id 1 w'

      put : Bool × World
      put = store_put S encode_master_seq_key (be32_encode next) done.1

      rewrapped : Keeps S faithful w done.1
      rewrapped =
          Keeps-trans S faithful w w' done.1 (Grows-Keeps S faithful w w' g)
            (rewrap_ids-Keeps S faithful next max_encryption_key_id 1 w' hn)

      published : Keeps S faithful w put.1
      published =
          Keeps-trans S faithful w done.1 put.1 rewrapped (put_seq-Keeps (be32_encode next) done.1)

  -- Whatever fails on the way, a rotation of the master key leaves every table key, of any id and
  -- version of 32 bits, that could be read back before it as it was. The services do what they
  -- document.
  pub rotate_master_key-Keeps :
      (cached : ℕ) (w : World) → Keeps S faithful w (rotate_master_key S cached w).2
  unfolding rotate_master_key
  rotate_master_key-Keeps cached w = elim (Bool-cases (current == generation_none)) [
    | inl e ↦ rw e (resolve-Keeps cached w)
    | inr e ↦ rw e (
        Keeps-trans S faithful w w₁ (rotate_to S current next (master_key_get S next true w₁)).2
          (resolve-Keeps cached w)
          (rotate_to-Keeps current next w₁ (master_key_get S next true w₁) (omega arith)
            (master_key_get-Grows S faithful next true w₁)))
  ]
    where
      current : ℕ
      current = (master_generation_resolve S cached w).0

      w₁ : World
      w₁ = (master_generation_resolve S cached w).1

      next : ℕ
      next = (current + 1) % 2 ^ 32
