-- ===== src/Txn/Protocol/Reuse.antt =====
-- The start of a connection and of its transactions makes moves of the protocol.
use tidesql_mysql.Txn.{Rc, is_success, Library, Isolation, Trx}
use tidesql_mysql.Txn.{reset}
use tidesql_mysql.Txn.Begin.{reuse_without_txn, free_and_begin, reuse_txn, reuse_trx}
use tidesql_mysql.Txn.Begin.{get_or_create_trx, restarted}
use tidesql_mysql.Txn.Savepoints.{handle_of}
use tidesql_mysql.Txn.Protocol.{Txns, Moves, stop, seq, called, began_with, not_begun_with}
use tidesql_mysql.Txn.Protocol.{freed}
use tidesql_mysql.Base.{ℕ}
use tidesql_mysql.Base.{◌≡◌, refl, sym, inl, inr}
use tidesql_mysql.Base.{Bool, true, false, not, Option, none, some}
use tidesql_mysql.Base.{if◌then◌else◌}
use tidesql_mysql.Base.{Bool-cases}

module _ (L : Library) where
  open L use {Db, call, get, free, is_prepared, begin_with_isolation}

  without_txn-Moves :
      (iso : Isolation) (trx : Trx) (d : Db) (t : Txns)
      → trx.txn ≡ none
      → Moves L none d t (reuse_without_txn L iso trx d).1.txn (reuse_without_txn L iso trx d).2 t
  unfolding reuse_without_txn
  without_txn-Moves iso trx d t e = elim (Bool-cases (is_success (begin_with_isolation iso d).0)) [
    | inl c ↦ rw c (began_with iso c)
    | inr c ↦ rw c (seq (not_begun_with iso c) (stop (sym e)))
  ]

  free_and_begin-Moves :
      (iso : Isolation) (h : ℕ) (trx : Trx) (d : Db) (t : Txns)
      → Moves L (some h) d t (free_and_begin L iso h trx d).1.txn (free_and_begin L iso h trx d).2 t
  unfolding free_and_begin
  free_and_begin-Moves iso h trx d t =
      elim (Bool-cases (is_success (begin_with_isolation iso (free h d)).0)) [
        | inl c ↦ rw c (seq (freed h) (began_with iso c))
        | inr c ↦ rw c (seq (freed h) (not_begun_with iso c))
      ]

  Ends : ℕ → Db → Txns → Bool × Trx × Db → Type 0
  Ends h d t r = Moves L (some h) d t r.1.txn r.2 t

  pick-Ends :
      (b : Bool) (h : ℕ) (d : Db) (t : Txns) (r r' : Bool × Trx × Db)
      → Ends h d t r
      → Ends h d t r'
      → Ends h d t (if b then r else r')
  pick-Ends true h d t r r' m n = m
  pick-Ends false h d t r r' m n = n

  reuse_txn-Moves :
      (iso : Isolation) (h : ℕ) (trx : Trx) (d : Db) (t : Txns)
      → trx.txn ≡ some h
      → Ends h d t (reuse_txn L iso h trx d)
  unfolding reuse_txn Ends
  reuse_txn-Moves iso h trx d t e =
      pick-Ends (not trx.needs_reset) h d t (true, trx, d)
        (if is_success reset_rc.0
          then (true, restarted iso h trx, reset_rc.1)
          else free_and_begin L iso h trx reset_rc.1)
        (stop (sym e))
        (pick-Ends (is_success reset_rc.0) h d t (true, restarted iso h trx, reset_rc.1)
          (free_and_begin L iso h trx reset_rc.1) (called h (reset iso))
          (seq (called h (reset iso)) (free_and_begin-Moves iso h trx reset_rc.1 t)))
    where
      reset_rc : Rc × Db
      reset_rc = call h (reset iso) d

  reuse_trx-Moves :
      (x : Option ℕ) (iso : Isolation) (trx : Trx) (d : Db) (t : Txns)
      → trx.txn ≡ x
      → Moves L trx.txn d t (reuse_trx L x iso trx d).1.txn (reuse_trx L x iso trx d).2 t
  unfolding reuse_trx Ends
  reuse_trx-Moves none iso trx d t e = seq (stop e) (without_txn-Moves iso trx d t e)
  reuse_trx-Moves (some h) iso trx d t e = seq (stop e) (reuse_txn-Moves iso h trx d t e)

  -- `get_or_create_trx` makes moves of the protocol, whatever the library answers.
  pub get_or_create_trx-Moves :
      (iso : Isolation) (trx : Option Trx) (d : Db) (t : Txns)
      → Moves L
          (handle_of trx)
          d
          t
          (handle_of (get_or_create_trx L iso trx d).1)
          (get_or_create_trx L iso trx d).2
          t
  unfolding get_or_create_trx handle_of
  get_or_create_trx-Moves iso (some trx) d t = reuse_trx-Moves trx.txn iso trx d t refl
  get_or_create_trx-Moves iso none d t =
      elim (Bool-cases (is_success (begin_with_isolation iso d).0)) [
        | inl c ↦ rw c (began_with iso c)
        | inr c ↦ rw c (not_begun_with iso c)
      ]
