-- ===== src/Txn/Protocol/Recovered.antt =====
-- The handles that recovery takes over from the storage library.
use tidesql_mysql.Txn.{Library}
use tidesql_mysql.Txn.Protocol.Lawful.{IsLawful, Answered}
use tidesql_mysql.Txn.Protocol.Ownership.{
  Owner, connection, entry, other, held, IsOwned, set_entry-cases, true_or_false,
}
use tidesql_mysql.Txn.Protocol.Events.{answers, after_answer, after_load, after_recover}
use tidesql_mysql.Xid.Recovery.{
  Registry, set_entry, register_prepared, register_answer, load_counted, load_recovered_prepared,
  recover,
}
use tidesql_mysql.Base.{ℕ, zero, suc}
use tidesql_mysql.Base.{◌≡◌, refl, sym, ap, ◌∙◌, ◌⊎◌, inl, inr}
use tidesql_mysql.Base.{true, Option, none, some}
use tidesql_mysql.Base.{List, [], ◌∷◌, ◌++◌}
use tidesql_mysql.Base.{Bool-cases}
use tidesql_mysql.Base.Bytes.{Bytes}

module _ (L : Library) (lawful : IsLawful L) (others : ℕ → Option ℕ) where
  open L use {Db, recover_prepared, count_prepared}
  open lawful use {live, is_sane}

  -- An entry of the registry after the loop is one from before or answered by the library.
  registered :
      (buf : List (Bytes × ℕ)) (r : Registry) (k : Bytes) (h : ℕ)
      → (register_prepared buf r).txns k ≡ some h
      → (r.txns k ≡ some h) ⊎ Answered k h buf
  unfolding register_prepared Answered
  registered [] r k h q = inl q
  registered ((key, txn) ∷ buf) r k h q =
      elim (registered buf
        (record r {
          txns = set_entry key (some txn) r.txns;
          recovery_xids = r.recovery_xids ++ (key ∷ []);
        })
        k h q) [
          | inr a ↦ inr (inr a)
          | inl e ↦ elim (set_entry-cases L lawful others key (some txn) r.txns k e) [
            | inl (same, f) ↦ inr (inl (same, sym (some_injective f)))
            | inr (f, _) ↦ inl f
          ]
        ]
    where
      some_injective : {a b : ℕ} → some a ≡ some b → a ≡ b
      some_injective f = cc

  -- Where a handle of a place comes from.
  abbrev Origin : List (Bytes × ℕ) → Registry → Owner → ℕ → Type 0
  Origin buf r o h =
      (held none r.txns others o ≡ some h) ⊎ ((key : Bytes) × (o ≡ entry key) × Answered key h buf)

  origin :
      (buf : List (Bytes × ℕ)) (r : Registry) (o : Owner) (h : ℕ)
      → held none (register_prepared buf r).txns others o ≡ some h
      → Origin buf r o h
  unfolding held
  origin buf r connection h q = inl q
  origin buf r (other n) h q = inl q
  origin buf r (entry key) h q = elim (registered buf r key h q) [
    | inl e ↦ inl e
    | inr a ↦ inr (key, refl, a)
  ]

  registers :
      (n : ℕ) (buf : List (Bytes × ℕ)) (r : Registry) (d : Db)
      → (recover_prepared n d).0 ≡ some buf
      → IsOwned L lawful (held none r.txns others) d
      → IsOwned L lawful (held none (register_prepared buf r).txns others) (recover_prepared n d).1
  unfolding IsOwned
  registers n buf r d answered (sane, lives, alone) = (
    lawful.recover-sane n d ∙ sane,
    λ o h q. elim (origin buf r o h q) [
      | inl e ↦ lawful.recover-kept n d h (lives o h e)
      | inr (key, _, a) ↦ lawful.recover-live n d buf answered key h a
    ],
    λ o p h q s. both o p h (origin buf r o h q) (origin buf r p h s),
  )
    where
      both : (o p : Owner) (h : ℕ) → Origin buf r o h → Origin buf r p h → o ≡ p
      both o p h (inl e) (inl f) = alone o p h e f
      both o p h (inl e) (inr (key, _, a)) =
          absurd (true_or_false (sym (lives o h e) ∙ lawful.recover-fresh n d buf answered key h a))
      both o p h (inr (key, _, a)) (inl f) =
          absurd (true_or_false (sym (lives p h f) ∙ lawful.recover-fresh n d buf answered key h a))
      both o p h (inr (key, e, a)) (inr (key', f, b)) =
          e ∙ ap entry (lawful.recover-apart n d buf answered key key' h a b) ∙ sym f

  answer-IsOwned :
      (n : ℕ) (o : Option (List (Bytes × ℕ))) (r : Registry) (d : Db)
      → (recover_prepared n d).0 ≡ o
      → IsOwned L lawful (held none r.txns others) d
      → IsOwned L lawful (held none (register_answer o r).txns others) (recover_prepared n d).1
  unfolding register_answer IsOwned
  answer-IsOwned n (some buf) r d e owned = registers n buf r d e owned
  answer-IsOwned n none r d e (sane, lives, alone) =
      (lawful.recover-sane n d ∙ sane, λ o h q. lawful.recover-kept n d h (lives o h q), alone)

  counted-IsOwned :
      (count : Option ℕ) (r : Registry) (d : Db)
      → IsOwned L lawful (held none r.txns others) d
      → IsOwned L lawful
          (held none (load_counted (answers L d) count r).txns others)
          (after_answer L count d)
  unfolding load_counted after_answer answers
  counted-IsOwned none r d owned = owned
  counted-IsOwned (some zero) r d owned = owned
  counted-IsOwned (some (suc n)) r d owned =
      answer-IsOwned (suc n) (recover_prepared (suc n) d).0 r d refl owned

  load-IsOwned :
      (r : Registry) (d : Db)
      → IsOwned L lawful (held none r.txns others) d
      → IsOwned L lawful
          (held none (load_recovered_prepared (answers L d) r).txns others)
          (after_load L r d)
  unfolding load_recovered_prepared after_load
  load-IsOwned r d owned = elim (Bool-cases r.recovery_loaded) [
    | inl e ↦ rw e owned
    | inr e ↦ rw e (
        unfold answers in
        counted-IsOwned (count_prepared d) (record r { recovery_loaded = true }) d owned)
  ]

  pub recover-IsOwned :
      (len : ℕ) (r : Registry) (d : Db)
      → IsOwned L lawful (held none r.txns others) d
      → IsOwned L lawful
          (held none (recover (answers L d) len r).1.txns others)
          (after_recover L len r d)
  unfolding recover after_recover
  recover-IsOwned zero r d owned = owned
  recover-IsOwned (suc len) r d owned = load-IsOwned r d owned
