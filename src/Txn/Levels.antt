-- ===== src/Txn/Levels.antt =====
-- The isolation level at which `get_or_create_trx` of ha_tidesdb_txn.cc starts a transaction.
use tidesql_mysql.Txn.{Rc, is_success, Library, Trx, next_generation, Isolation}
use tidesql_mysql.Txn.{reset}
use tidesql_mysql.Txn.Begin.{
  get_or_create_trx, reuse_trx, reuse_txn, reuse_without_txn, free_and_begin, restarted,
}
use tidesql_mysql.Base.{ℕ}
use tidesql_mysql.Base.{◌≡◌, refl, sym, ◌∙◌, ◌≢◌, ◌⊎◌, inl, inr}
use tidesql_mysql.Base.{Bool, true, false, not, Option, none, some}
use tidesql_mysql.Base.{if◌then◌else◌}
use tidesql_mysql.Base.{Bool-cases}
use tidesql_mysql.Txn.Protocol.Lawful.{HasLevels}

module _ (L : Library) (levels : HasLevels L) where
  open L use {Db, call, begin_with_isolation}

  -- A transaction that goes on, or one that starts with its level and a new generation.
  abbrev pub GoesOn : Trx → Db → Bool × Option Trx × Db → Type 0
  GoesOn trx d out = (out ≡ (true, some trx, d)) × (trx.needs_reset ≡ false) × (trx.txn ≢ none)

  abbrev pub StartsNew : Isolation → Trx → Option Trx × Db → Type 0
  StartsNew iso trx (out, d) =
      (trx' : Trx) × (h : ℕ) × (out ≡ some trx')
      × (trx'.txn ≡ some h)
      × (levels.level d h ≡ iso)
      × (trx'.isolation_level ≡ iso)
      × (trx'.txn_generation ≡ next_generation trx.txn_generation)

  abbrev on_connection : Bool × Trx × Db → Bool × Option Trx × Db
  on_connection (ok, trx', d') = (ok, some trx', d')

  free_and_begin-StartsNew :
      (iso : Isolation) (h : ℕ) (trx : Trx) (d : Db)
      → (free_and_begin L iso h trx d).0 ≡ true
      → StartsNew iso trx (some (free_and_begin L iso h trx d).1, (free_and_begin L iso h trx d).2)
  unfolding free_and_begin
  free_and_begin-StartsNew iso h trx d =
      elim (Bool-cases (is_success (begin_with_isolation iso (L.free h d)).0)) [
        | inl s ↦
            rw s (λ ok. (_, _, refl, refl, levels.begin_with-level iso (L.free h d) s, refl, refl))
        | inr s ↦ rw s (λ ok. absurd cc)
      ]

  abbrev Begins : Isolation → Trx → Db → Bool × Trx × Db → Type 0
  Begins iso trx d r =
      r.0 ≡ true → GoesOn trx d (on_connection r) ⊎ StartsNew iso trx (some r.1, r.2)

  pick-Begins :
      (b : Bool) (iso : Isolation) (trx : Trx) (d : Db) (r r' : Bool × Trx × Db)
      → (b ≡ true → Begins iso trx d r)
      → (b ≡ false → Begins iso trx d r')
      → Begins iso trx d (if b then r else r')
  pick-Begins true iso trx d r r' m n = m refl
  pick-Begins false iso trx d r r' m n = n refl

  started :
      (iso : Isolation) (x : Option ℕ) (trx : Trx) (d : Db)
      → trx.txn ≡ x
      → (reuse_trx L x iso trx d).0 ≡ true
      → GoesOn trx d (on_connection (reuse_trx L x iso trx d))
        ⊎ StartsNew iso trx (some (reuse_trx L x iso trx d).1, (reuse_trx L x iso trx d).2)
  unfolding reuse_trx reuse_without_txn reuse_txn
  started iso none trx d e = elim (Bool-cases (is_success (begin_with_isolation iso d).0)) [
    | inl s ↦ rw s (λ ok. inr (_, _, refl, refl, levels.begin_with-level iso d s, refl, refl))
    | inr s ↦ rw s (λ ok. absurd cc)
  ]
  started iso (some h) trx d e =
      pick-Begins (not trx.needs_reset) iso trx d (true, trx, d)
        (if is_success reset_rc.0
          then (true, restarted iso h trx, reset_rc.1)
          else free_and_begin L iso h trx reset_rc.1)
        (λ n ok. inl (refl, not_not trx.needs_reset n, λ f. absurd (not_both (sym e ∙ f))))
        (λ n.
          pick-Begins (is_success reset_rc.0) iso trx d (true, restarted iso h trx, reset_rc.1)
            (free_and_begin L iso h trx reset_rc.1)
            (λ s ok.
              inr (restarted iso h trx, h, refl, refl, levels.reset-level h iso d s, refl, refl))
            (λ s ok. inr (free_and_begin-StartsNew iso h trx reset_rc.1 ok)))
    where
      reset_rc : Rc × Db
      reset_rc = call h (reset iso) d

      not_not : (b : Bool) → not b ≡ true → b ≡ false
      not_not true n = cc
      not_not false n = refl

      not_both : some h ≢ none
      not_both f = cc

  -- Where `get_or_create_trx` returns the structure of a connection that has one, either the
  -- structure has a transaction, nothing was changed and no reset was due; or it has a transaction
  -- for which the library keeps the isolation level that is asked for, with that level and the
  -- next generation in the structure. The library keeps the level of a begin and of a reset.
  pub get_or_create_trx-cases :
      (iso : Isolation) (trx : Trx) (d : Db)
      → (get_or_create_trx L iso (some trx) d).0 ≡ true
      → GoesOn trx d (get_or_create_trx L iso (some trx) d)
        ⊎ StartsNew iso trx
            ((get_or_create_trx L iso (some trx) d).1, (get_or_create_trx L iso (some trx) d).2)
  unfolding get_or_create_trx
  get_or_create_trx-cases iso trx d = started iso trx.txn trx d refl
