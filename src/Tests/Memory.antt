-- ===== src/Tests/Memory.antt =====
-- A storage library in memory: it gives the handles 0, 1, 2 and so on, answers as it is told, and
-- keeps account of the handles that are live.
use tidesql_mysql.Txn.{Rc, success, is_success, Library, Isolation, Call, reset}
use tidesql_mysql.Txn.Protocol.Lawful.{IsLawful, HasLevels, Answered}
use tidesql_mysql.Base.{ℕ, suc}
use tidesql_mysql.Base.{◌≡◌, refl, sym, ap, ◌∙◌, inl, inr, arith}
use tidesql_mysql.Base.{Bool, true, false, not, ◌&&◌, some}
use tidesql_mysql.Base.{List, [], ◌∷◌}
use tidesql_mysql.Base.{ltb, ◌==◌, ==_iff, if◌then◌else◌}
use tidesql_mysql.Base.{Bool-cases}
use tidesql_mysql.Base.Bytes.{Bytes}

-- `answers` are the codes of the next calls; without one left a call succeeds.
pub record Memory : Type 0 where
  pub next : ℕ
  pub dead : ℕ → Bool
  pub sane : Bool
  pub answers : List Rc
  pub levels : ℕ → Isolation

abbrev answer : List Rc → Rc
answer [] = success
answer (rc ∷ answers) = rc

abbrev rest : List Rc → List Rc
rest [] = []
rest (rc ∷ answers) = answers

abbrev pub is_live : Memory → ℕ → Bool
is_live d k = ltb k d.next && not (d.dead k)

abbrev used : ℕ → Memory → Memory
used h d = record d { sane = d.sane && is_live d h; answers = rest d.answers }

-- The level of a transaction after a call.
abbrev level_after : Call → Isolation → Isolation
level_after (reset iso) old = iso
level_after _ old = old

abbrev asked : ℕ → Call → Memory → Memory
asked h c d = record (used h d) {
  levels = λ k. if k == h then level_after c (d.levels k) else d.levels k;
}

abbrev opened : Memory → Memory
opened d = record d {
  next = suc d.next;
  dead = λ k. if k == d.next then false else d.dead k;
  answers = rest d.answers;
}

abbrev failed : Memory → Memory
failed d = record d { answers = rest d.answers }

-- A begin at a level.
abbrev at_level : Isolation → Memory → Memory
at_level iso d = record d { levels = λ k. if k == d.next then iso else d.levels k }

abbrev begun : Memory → Rc × ℕ × Memory
begun d = (answer d.answers, d.next, if is_success (answer d.answers) then opened d else failed d)

-- The XID of the one transaction that recovery finds.
abbrev prepared_key : Bytes
prepared_key = 0 ∷ 0 ∷ 0 ∷ 0 ∷ 0 ∷ 0 ∷ 0 ∷ 1 ∷ 0 ∷ 0 ∷ 0 ∷ 1 ∷ 0 ∷ 0 ∷ 0 ∷ 0 ∷ 104 ∷ []

abbrev pub memory : Library
memory = record {
  Db = Memory;
  begin_with_isolation = λ iso d. begun (at_level iso d);
  begin = begun;
  call = λ h c d. (answer d.answers, asked h c d);
  get = λ h cf key d. (answer d.answers, [], used h d);
  free = λ h d. record d {
    dead = λ k. if k == h then true else d.dead k;
    sane = d.sane && is_live d h;
  };
  is_prepared = λ h d. false;
  get_column_family = λ n d. (some 1, d);
  create_column_family = λ n d. (answer d.answers, failed d);
  scan = λ h cf d. (some [], used h d);
  count_prepared = λ d. some 1;
  recover_prepared = λ n d. (some ((prepared_key, d.next) ∷ []), opened d);
}

begun_live :
    (d : Memory)
    → is_success (begun d).0 ≡ true
    → (h : ℕ) → is_live (begun d).2 h ≡ (if h == d.next then true else is_live d h)
begun_live d e h = rw e (opened_live (d.dead h))
  where
    opened_live :
        (b : Bool)
        → (ltb h (suc d.next) && not (if h == d.next then false else b))
          ≡ (if h == d.next then true else ltb h d.next && not b)
    opened_live b = ground arith

begun_failed :
    (d : Memory) → is_success (begun d).0 ≡ false → (h : ℕ) → is_live (begun d).2 h ≡ is_live d h
begun_failed d e h = rw e refl

begun_fresh : (d : Memory) → is_live d d.next ≡ false
begun_fresh d = rw (never d.next) refl
  where
    never : (n : ℕ) → ltb n n ≡ false
    never n = ground arith

begun_sane : (d : Memory) → (begun d).2.sane ≡ d.sane
begun_sane d = elim (Bool-cases (is_success (answer d.answers))) [
  | inl e ↦ rw e refl
  | inr e ↦ rw e refl
]

opened_kept : (d : Memory) (k : ℕ) → is_live d k ≡ true → is_live (opened d) k ≡ true
opened_kept d k e = older (d.dead k) e
  where
    older :
        (b : Bool)
        → (ltb k d.next && not b) ≡ true
        → (ltb k (suc d.next) && not (if k == d.next then false else b)) ≡ true
    older b f = ground arith

opened_next : (d : Memory) → is_live (opened d) d.next ≡ true
opened_next d = rw ((==_iff d.next d.next).1 refl) (below d.next)
  where
    below : (n : ℕ) → (ltb n (suc n) && true) ≡ true
    below n = ground arith

-- The one transaction that recovery answers.
only :
    (d : Memory) (buf : List (Bytes × ℕ))
    → some ((prepared_key, d.next) ∷ []) ≡ some buf
    → (key : Bytes) (h : ℕ) → Answered key h buf
    → (key ≡ prepared_key) × (h ≡ d.next)
unfolding Answered
only d [] e key h a = absurd cc
only d ((k, n) ∷ (x ∷ buf)) e key h a = absurd cc
only d ((k, n) ∷ []) e key h (inl (p, q)) = (cc, cc)
only d ((k, n) ∷ []) e key h (inr f) = absurd cc

and_live : (a b : Bool) → b ≡ true → (a && b) ≡ a
and_live a b e = ground arith

freed_live :
    (h : ℕ) (d : Memory) (k : ℕ)
    → is_live (memory.free h d) k ≡ (if k == h then false else is_live d k)
freed_live h d k = cut (ltb k d.next) (d.dead k) (k == h)
  where
    cut : (a b c : Bool) → (a && not (if c then true else b)) ≡ (if c then false else a && not b)
    cut a b c = ground arith

pub memory-IsLawful : IsLawful memory
memory-IsLawful = record {
  live = is_live;
  is_sane = λ d. d.sane;
  begin_with-fresh = λ iso d e. begun_fresh (at_level iso d);
  begin_with-live = λ iso d e. begun_live (at_level iso d) e;
  begin_with-failed = λ iso d e. begun_failed (at_level iso d) e;
  begin_with-sane = λ iso d. begun_sane (at_level iso d);
  begin-fresh = λ d e. begun_fresh d;
  begin-live = λ d e. begun_live d e;
  begin-failed = λ d e. begun_failed d e;
  begin-sane = λ d. begun_sane d;
  call-live = λ h c d k. refl;
  call-sane = λ h c d e. and_live d.sane (is_live d h) e;
  get-live = λ h cf key d k. refl;
  get-sane = λ h cf key d e. and_live d.sane (is_live d h) e;
  free-live = freed_live;
  free-sane = λ h d e. and_live d.sane (is_live d h) e;
  get_column_family-live = λ n d k. refl;
  get_column_family-sane = λ n d. refl;
  create_column_family-live = λ n d k. refl;
  create_column_family-sane = λ n d. refl;
  scan-live = λ h cf d k. refl;
  scan-sane = λ h cf d e. and_live d.sane (is_live d h) e;
  recover-sane = λ n d. refl;
  recover-kept = λ n d k e. opened_kept d k e;
  recover-fresh = λ n d buf e key h a. ap (is_live d) (only d buf e key h a).1 ∙ begun_fresh d;
  recover-live =
      λ n d buf e key h a. ap (is_live (opened d)) (only d buf e key h a).1 ∙ opened_next d;
  recover-apart =
      λ n d buf e key key' h a b. (only d buf e key h a).0 ∙ sym (only d buf e key' h b).0;
}

pub memory-live : (d : Memory) (k : ℕ) → memory-IsLawful.live d k ≡ is_live d k
unfolding memory-IsLawful
memory-live d k = refl

pub memory-sane : (d : Memory) → memory-IsLawful.is_sane d ≡ d.sane
unfolding memory-IsLawful
memory-sane d = refl

pub memory-HasLevels : HasLevels memory
memory-HasLevels = record {
  level = λ d. d.levels;
  begin_with-level = λ iso d e. begun_level iso d e;
  reset-level = λ h iso d e. rw ((==_iff h h).1 refl) refl;
}
  where
    begun_level :
        (iso : Isolation) (d : Memory)
        → is_success (begun (at_level iso d)).0 ≡ true
        → (begun (at_level iso d)).2.levels d.next ≡ iso
    begun_level iso d e = rw (e, (==_iff d.next d.next).1 refl) refl
