-- ===== src/Txn/Protocol/Ownership.antt =====
-- The moves keep handles apart and alive.
use tidesql_mysql.Txn.{Library}
use tidesql_mysql.Xid.Recovery.{set_entry}
use tidesql_mysql.Txn.Protocol.{
  Txns, Moves, stop, seq, called, got, scanned, began_with, not_begun_with,
}
use tidesql_mysql.Txn.Protocol.{
  began, not_begun, freed, left, handed, taken, dropped, opened, created,
}
use tidesql_mysql.Base.Bytes.{equal_iff}
use mathlib.Core.Path.{subst}
use tidesql_mysql.Base.{ℕ}
use tidesql_mysql.Base.{◌≡◌, refl, sym, ap, ◌∙◌, ◌≢◌, ◌⊎◌, inl, inr}
use tidesql_mysql.Base.{true, false, Option, none, some}
use tidesql_mysql.Base.{◌==◌, if◌then◌else◌, ==_iff}
use tidesql_mysql.Base.{Bool-cases}
use tidesql_mysql.Base.Bytes.{Bytes, equal}
use tidesql_mysql.Txn.Protocol.Lawful.{IsLawful}

-- The places that own handles: the connection, an entry of the registry, another connection.
pub data Owner : Type 0 where
  connection : Owner
  entry : Bytes → Owner
  other : ℕ → Owner

-- The handle that a place holds, with the handles of the other connections.
unfoldable pub held : Option ℕ → Txns → (ℕ → Option ℕ) → Owner → Option ℕ
held x t others connection = x
held x t others (entry key) = t key
held x t others (other n) = others n

pub true_or_false : true ≢ false
true_or_false h = cc

module _ (L : Library) (lawful : IsLawful L) where
  open lawful use {live, is_sane}

  -- Every use so far was of a live handle, every handle that is held is live, and no handle is held
  -- in two places.
  unfoldable pub IsOwned : (Owner → Option ℕ) → L.Db → Type 0
  IsOwned places d =
      (is_sane d ≡ true)
      × ((o : Owner) (h : ℕ) → places o ≡ some h → live d h ≡ true)
      × ((o p : Owner) (h : ℕ) → places o ≡ some h → places p ≡ some h → o ≡ p)

  keeps :
      (s : Owner → Option ℕ) (d e : L.Db)
      → IsOwned s d
      → is_sane e ≡ is_sane d
      → ((h : ℕ) → live e h ≡ live d h)
      → IsOwned s e
  unfolding IsOwned
  keeps s d e (sane, lives, alone) same l = (same ∙ sane, λ o h q. l h ∙ lives o h q, alone)

  -- Handles are moved from one place to another, or given up.
  pub relocates :
      (from to : Owner) (s s' : Owner → Option ℕ) (d : L.Db)
      → IsOwned s d
      → ((o : Owner) (h : ℕ)
          → s' o ≡ some h
          → ((o ≡ to) × (s from ≡ some h)) ⊎ ((s o ≡ some h) × (o ≢ from)))
      → IsOwned s' d
  unfolding IsOwned
  relocates from to s s' d (sane, lives, alone) origin = (
    sane,
    λ o h q. elim (origin o h q) [ inl (_, f) ↦ lives from h f | inr (f, _) ↦ lives o h f ],
    λ o p h q r. both o p h (origin o h q) (origin p h r),
  )
    where
      both :
          (o p : Owner) (h : ℕ)
          → ((o ≡ to) × (s from ≡ some h)) ⊎ ((s o ≡ some h) × (o ≢ from))
          → ((p ≡ to) × (s from ≡ some h)) ⊎ ((s p ≡ some h) × (p ≢ from))
          → o ≡ p
      both o p h (inl (eo, fo)) (inl (ep, fp)) = eo ∙ sym ep
      both o p h (inl (eo, fo)) (inr (sp, apart)) = absurd (apart (alone p from h sp fo))
      both o p h (inr (so, away)) (inl (ep, fp)) = absurd (away (alone o from h so fp))
      both o p h (inr (so, away)) (inr (sp, apart)) = alone o p h so sp

  -- A place takes a new handle.
  gains :
      (to : Owner) (h : ℕ) (s s' : Owner → Option ℕ) (d e : L.Db)
      → IsOwned s d
      → is_sane e ≡ is_sane d
      → live d h ≡ false
      → ((k : ℕ) → live e k ≡ (if k == h then true else live d k))
      → ((o : Owner) (k : ℕ) → s' o ≡ some k → ((o ≡ to) × (h ≡ k)) ⊎ (s o ≡ some k))
      → IsOwned s' e
  unfolding IsOwned
  gains to h s s' d e (sane, lives, alone) same fresh l origin = (
    same ∙ sane,
    λ o k q. alive o k (origin o k q),
    λ o p k q r. both o p k (origin o k q) (origin p k r),
  )
    where
      alive : (o : Owner) (k : ℕ) → ((o ≡ to) × (h ≡ k)) ⊎ (s o ≡ some k) → live e k ≡ true
      alive o k (inl (eo, hk)) = l k ∙ rw ((==_iff k h).1 (sym hk)) refl
      alive o k (inr q) =
          l k ∙ (elim (Bool-cases (k == h)) [ inl c ↦ rw c refl | inr c ↦ rw c (lives o k q) ])

      both :
          (o p : Owner) (k : ℕ)
          → ((o ≡ to) × (h ≡ k)) ⊎ (s o ≡ some k)
          → ((p ≡ to) × (h ≡ k)) ⊎ (s p ≡ some k)
          → o ≡ p
      both o p k (inl (eo, _)) (inl (ep, _)) = eo ∙ sym ep
      both o p k (inl (eo, hk)) (inr q) =
          absurd (true_or_false (sym (lives p k q) ∙ ap (live d) (sym hk) ∙ fresh))
      both o p k (inr q) (inl (ep, hk)) =
          absurd (true_or_false (sym (lives o k q) ∙ ap (live d) (sym hk) ∙ fresh))
      both o p k (inr q) (inr r) = alone o p k q r

  -- A place gives up its handle, which is freed.
  loses :
      (from : Owner) (h : ℕ) (s s' : Owner → Option ℕ) (d e : L.Db)
      → IsOwned s d
      → s from ≡ some h
      → is_sane e ≡ is_sane d
      → ((k : ℕ) → live e k ≡ (if k == h then false else live d k))
      → ((o : Owner) (k : ℕ) → s' o ≡ some k → (s o ≡ some k) × (o ≢ from))
      → IsOwned s' e
  unfolding IsOwned
  loses from h s s' d e (sane, lives, alone) here same l origin = (
    same ∙ sane,
    λ o k q. l k ∙ (elim (Bool-cases (k == h)) [
      | inl c ↦ absurd (
          (origin o k q).1
            (alone o from k (origin o k q).0 (here ∙ ap some (sym ((==_iff k h).0 c)))))
      | inr c ↦ rw c (lives o k (origin o k q).0)
    ]),
    λ o p k q r. alone o p k (origin o k q).0 (origin p k r).0,
  )

  module _ (others : ℕ → Option ℕ) where
    -- The entry of a registry that is set, or another.
    pub set_entry-cases :
        (key : Bytes) (v : Option ℕ) (t : Txns) (k : Bytes) {h : ℕ}
        → set_entry key v t k ≡ some h
        → ((k ≡ key) × (v ≡ some h)) ⊎ ((t k ≡ some h) × (k ≢ key))
    unfolding set_entry
    set_entry-cases key v t k {h} q = elim (Bool-cases (equal k key)) [
      | inl c ↦ inl ((equal_iff k key).0 c, rw c at q)
      | inr c ↦ inr (rw c at q, λ e. true_or_false (sym ((equal_iff k key).1 e) ∙ c))
    ]

    pub connection_live :
        (h : ℕ) (t : Txns) (d : L.Db) → IsOwned (held (some h) t others) d → live d h ≡ true
    unfolding IsOwned held
    connection_live h t d (sane, lives, alone) = lives connection h refl

    -- The place of the connection after a begin.
    begun :
        (h : ℕ) (t : Txns) (o : Owner) (k : ℕ)
        → held (some h) t others o ≡ some k
        → ((o ≡ connection) × (h ≡ k)) ⊎ (held none t others o ≡ some k)
    unfolding held
    begun h t connection k q = inl (refl, cc)
    begun h t (entry key) k q = inr q
    begun h t (other n) k q = inr q

    emptied :
        (h : ℕ) (t : Txns) (o : Owner) (k : ℕ)
        → held none t others o ≡ some k
        → (held (some h) t others o ≡ some k) × (o ≢ connection)
    unfolding held
    emptied h t connection k q = absurd cc
    emptied h t (entry key) k q = (q, λ e. cc)
    emptied h t (other n) k q = (q, λ e. cc)

    entry_kept :
        (key : Bytes) (v x : Option ℕ) (t : Txns) (k : Bytes) (h : ℕ)
        → set_entry key v t k ≡ some h
        → ((entry k ≡ entry key) × (v ≡ some h)) ⊎ ((t k ≡ some h) × (entry k ≢ entry key))
    entry_kept key v x t k h q = elim (set_entry-cases key v t k q) [
      | inl (e, f) ↦ inl (ap entry e, f)
      | inr (f, ne) ↦ inr (f, λ e. ne cc)
    ]

    after_hand :
        (h : ℕ) (key : Bytes) (t : Txns) (o : Owner) (k : ℕ)
        → held none (set_entry key (some h) t) others o ≡ some k
        → ((o ≡ entry key) × (held (some h) t others connection ≡ some k))
          ⊎ ((held (some h) t others o ≡ some k) × (o ≢ connection))
    unfolding held
    after_hand h key t connection k q = absurd cc
    after_hand h key t (entry l) k q = elim (entry_kept key (some h) none t l k q) [
      | inl e ↦ inl e
      | inr (f, _) ↦ inr (f, λ e. cc)
    ]
    after_hand h key t (other n) k q = inr (q, λ e. cc)

    after_take :
        (h : ℕ) (key : Bytes) (t : Txns)
        → t key ≡ some h
        → (o : Owner) (k : ℕ) → held (some h) (set_entry key none t) others o ≡ some k
        → ((o ≡ connection) × (held none t others (entry key) ≡ some k))
          ⊎ ((held none t others o ≡ some k) × (o ≢ entry key))
    unfolding held
    after_take h key t p connection k q = inl (refl, p ∙ q)
    after_take h key t p (entry l) k q = elim (entry_kept key none none t l k q) [
      | inl (_, e) ↦ absurd cc
      | inr f ↦ inr f
    ]
    after_take h key t p (other n) k q = inr (q, λ e. cc)

    after_drop :
        (x : Option ℕ) (key : Bytes) (t : Txns) (o : Owner) (k : ℕ)
        → held x (set_entry key none t) others o ≡ some k
        → ((o ≡ entry key) × (held x t others (entry key) ≡ some k))
          ⊎ ((held x t others o ≡ some k) × (o ≢ entry key))
    unfolding held
    after_drop x key t connection k q = inr (q, λ e. cc)
    after_drop x key t (entry l) k q = elim (entry_kept key none none t l k q) [
      | inl (_, e) ↦ absurd cc
      | inr f ↦ inr f
    ]
    after_drop x key t (other n) k q = inr (q, λ e. cc)

    pub Moves-IsOwned :
        {x y : Option ℕ} {d e : L.Db} {t u : Txns}
        → Moves L x d t y e u
        → IsOwned (held x t others) d
        → IsOwned (held y u others) e
    Moves-IsOwned (stop {x} {y} {d} {t} p) o = subst (λ z. IsOwned (held z t others) d) p o
    Moves-IsOwned (seq m n) o = Moves-IsOwned n (Moves-IsOwned m o)
    Moves-IsOwned (called {d} {t} h c) o =
        keeps (held (some h) t others) d (L.call h c d).1 o
          (lawful.call-sane h c d (connection_live h t d o)) (lawful.call-live h c d)
    Moves-IsOwned (got {d} {t} h cf key) o =
        keeps (held (some h) t others) d (L.get h cf key d).2 o
          (lawful.get-sane h cf key d (connection_live h t d o)) (lawful.get-live h cf key d)
    Moves-IsOwned (scanned {d} {t} h cf) o =
        keeps (held (some h) t others) d (L.scan h cf d).1 o
          (lawful.scan-sane h cf d (connection_live h t d o)) (lawful.scan-live h cf d)
    Moves-IsOwned (began_with {d} {t} iso p) o =
        gains connection (L.begin_with_isolation iso d).1 (held none t others)
          (held (some (L.begin_with_isolation iso d).1) t others) d (L.begin_with_isolation iso d).2
          o (lawful.begin_with-sane iso d) (lawful.begin_with-fresh iso d p)
          (lawful.begin_with-live iso d p) (begun (L.begin_with_isolation iso d).1 t)
    Moves-IsOwned (not_begun_with {d} {t} iso p) o =
        keeps (held none t others) d (L.begin_with_isolation iso d).2 o
          (lawful.begin_with-sane iso d) (lawful.begin_with-failed iso d p)
    Moves-IsOwned (began {d} {t} p) o =
        gains connection (L.begin d).1 (held none t others) (held (some (L.begin d).1) t others) d
          (L.begin d).2 o (lawful.begin-sane d) (lawful.begin-fresh d p) (lawful.begin-live d p)
          (begun (L.begin d).1 t)
    Moves-IsOwned (not_begun {d} {t} p) o =
        keeps (held none t others) d (L.begin d).2 o (lawful.begin-sane d) (lawful.begin-failed d p)
    Moves-IsOwned (freed {d} {t} h) o =
        loses connection h (held (some h) t others) (held none t others) d (L.free h d) o
          (unfold held in refl) (lawful.free-sane h d (connection_live h t d o))
          (lawful.free-live h d) (emptied h t)
    Moves-IsOwned (left {d} {t} h) o =
        relocates connection connection (held (some h) t others) (held none t others) d o
          (λ p k q. inr (emptied h t p k q))
    Moves-IsOwned (handed {d} {t} h key) o =
        relocates connection (entry key) (held (some h) t others)
          (held none (set_entry key (some h) t) others) d o (after_hand h key t)
    Moves-IsOwned (taken {d} {t} {h} key p) o =
        relocates (entry key) connection (held none t others)
          (held (some h) (set_entry key none t) others) d o (after_take h key t p)
    Moves-IsOwned (dropped {x} {d} {t} key) o =
        relocates (entry key) (entry key) (held x t others) (held x (set_entry key none t) others) d
          o (after_drop x key t)
    Moves-IsOwned (opened {x} {d} {t} n) o =
        keeps (held x t others) d (L.get_column_family n d).1 o (lawful.get_column_family-sane n d)
          (lawful.get_column_family-live n d)
    Moves-IsOwned (created {x} {d} {t} n) o =
        keeps (held x t others) d (L.create_column_family n d).1 o
          (lawful.create_column_family-sane n d) (lawful.create_column_family-live n d)
