-- ===== src/Spatial/Wkb/Bounds.antt =====
-- The rectangle that `compute_mbr` derives is the bounding box of the finite points of the value.
use mathlib.Core.Path.{subst}
use tidesql_mysql.Spatial.Doubles.{Double, place, is_nan, is_finite, dbl_max, neg_dbl_max}
use tidesql_mysql.Spatial.Doubles.{lt_double, le_double, lt_double_lem, le_double_lem}
use tidesql_mysql.Spatial.Mbr.{Mbr}
use tidesql_mysql.Spatial.Mbr.Codec.{NoNan}
use tidesql_mysql.Spatial.Mbr.Predicates.{Holds}
use tidesql_mysql.Spatial.Wkb.{wkb_walk, grow, empty_mbr, compute_mbr}
use tidesql_mysql.Spatial.Wkb.Walk.{Outcome, wkb_walk-Outcome}
use tidesql_mysql.Base.{ℕ, ◌^◌, ◌≤◌, ◌<◌}
use tidesql_mysql.Base.{◌≡◌, refl, sym, ap, ◌∙◌, ◌⊎◌, inl, inr, arith}
use tidesql_mysql.Base.{true, false, ◌&&◌, Option, none, some}
use tidesql_mysql.Base.{List, [], ◌∷◌}
use tidesql_mysql.Base.{All, Any}
use tidesql_mysql.Base.{if◌then◌else◌, le→leb}
use tidesql_mysql.Base.{Bool-cases}
use tidesql_mysql.Base.Bytes.{Bytes, IsByte}

-- A coordinate pair of the value.
abbrev pub Point : Type 0
Point = Double × Double

abbrev pub IsFinitePoint : Point → Type 0
IsFinitePoint p = (is_finite p.0 ≡ true) × (is_finite p.1 ≡ true)

-- All coordinate pairs that the walk passes, the last one first.
unfoldable pub wkb_points : Bytes → Option (List Point)
wkb_points bytes = wkb_walk (λ x y ps. (x, y) ∷ ps) bytes []

-- Every edge is the coordinate of some finite point.
abbrev pub Attained : Mbr → List Point → Type 0
Attained m ps =
    Any (λ p. IsFinitePoint p × (place p.0 ≡ place m.xmin)) ps
    × Any (λ p. IsFinitePoint p × (place p.0 ≡ place m.xmax)) ps
    × Any (λ p. IsFinitePoint p × (place p.1 ≡ place m.ymin)) ps
    × Any (λ p. IsFinitePoint p × (place p.1 ≡ place m.ymax)) ps

-- Every finite point lies in the rectangle.
abbrev pub Encloses : Mbr → List Point → Type 0
Encloses m ps = All (λ p. IsFinitePoint p → Holds m (place p.0) (place p.1)) ps

finite_range :
    (d : Double)
    → d < 2 ^ 64
    → is_finite d ≡ true
    → (is_nan d ≡ false) × (place neg_dbl_max ≤ place d) × (place d ≤ place dbl_max)
unfolding is_finite is_nan place
finite_range d h f = ground arith

-- What the rectangle is after the points: untouched, or their bounding box.
data Seen (m : Mbr) (ps : List Point) : Type 0 where
  nothing : m ≡ empty_mbr → All (λ p. ¬ IsFinitePoint p) ps → Seen m ps
  box : NoNan m → Encloses m ps → Attained m ps → Seen m ps

abbrev low : Double → Double → Double
low x lo = if lt_double x lo then x else lo

abbrev high : Double → Double → Double
high x hi = if lt_double hi x then x else hi

low_lem :
    (x lo : Double)
    → is_nan x ≡ false
    → is_nan lo ≡ false
    → (is_nan (low x lo) ≡ false)
      × (place (low x lo) ≤ place x)
      × (place (low x lo) ≤ place lo)
      × ((place (low x lo) ≡ place x) ⊎ (place (low x lo) ≡ place lo))
low_lem x lo h k = rw (lt_double_lem x lo h k) (ground arith)

high_lem :
    (x hi : Double)
    → is_nan x ≡ false
    → is_nan hi ≡ false
    → (is_nan (high x hi) ≡ false)
      × (place x ≤ place (high x hi))
      × (place hi ≤ place (high x hi))
      × ((place (high x hi) ≡ place x) ⊎ (place (high x hi) ≡ place hi))
high_lem x hi h k = rw (lt_double_lem hi x k h) (ground arith)

no_nan : is_nan dbl_max ≡ false
unfolding is_nan
no_nan = refl

no_nan' : is_nan neg_dbl_max ≡ false
unfolding is_nan
no_nan' = refl

vacuous : (m : Mbr) (ps : List Point) → All (λ p. ¬ IsFinitePoint p) ps → Encloses m ps
vacuous m [] h = tt
vacuous m (p ∷ ps) (hp, h) = ((λ f. absurd (hp f)), vacuous m ps h)

module _ (x y : Double) (hx : x < 2 ^ 64) (hy : y < 2 ^ 64) where
  abbrev grown : Mbr → Mbr
  grown m = record {
    xmin = low x m.xmin;
    ymin = low y m.ymin;
    xmax = high x m.xmax;
    ymax = high y m.ymax;
  }

  grow_finite : (m : Mbr) → is_finite x ≡ true → is_finite y ≡ true → grow x y m ≡ grown m
  unfolding grow
  grow_finite m fx fy = rw (fx, fy)

  grow_other : (m : Mbr) → (is_finite x && is_finite y) ≡ false → grow x y m ≡ m
  unfolding grow
  grow_other m f = rw f

  Encloses-grown :
      (m : Mbr) (ps : List Point)
      → is_nan x ≡ false
      → is_nan y ≡ false
      → NoNan m
      → Encloses m ps
      → Encloses (grown m) ps
  Encloses-grown m [] nx ny n e = tt
  Encloses-grown m (p ∷ ps) nx ny n (e, es) = (
    λ f. omega (
      arith,
      e f,
      low_lem x m.xmin nx n.0,
      low_lem y m.ymin ny n.1,
      high_lem x m.xmax nx n.2,
      high_lem y m.ymax ny n.3,
    ),
    Encloses-grown m ps nx ny n es,
  )

  -- An edge comes from the new point, or is the old one.
  edge :
      (f : Point → ℕ) (ps : List Point) (new old : ℕ)
      → IsFinitePoint (x, y)
      → (new ≡ f (x, y)) ⊎ (new ≡ old)
      → Any (λ p. IsFinitePoint p × (f p ≡ old)) ps
      → Any (λ p. IsFinitePoint p × (f p ≡ new)) ((x, y) ∷ ps)
  edge f ps new old fin (inl e) h = inl (fin, sym e)
  edge f ps new old fin (inr e) h =
      inr (subst (λ t. Any (λ p. IsFinitePoint p × (f p ≡ t)) ps) (sym e) h)

  Seen-grown :
      (m : Mbr) (ps : List Point)
      → is_finite x ≡ true
      → is_finite y ≡ true
      → Seen m ps
      → Seen (grown m) ((x, y) ∷ ps)
  Seen-grown m ps fx fy (nothing e none_finite) =
      let (nx, lx, ux) = finite_range x hx fx in
      let (ny, ly, uy) = finite_range y hy fy in
      let w = low_lem x dbl_max nx no_nan in
      let s = low_lem y dbl_max ny no_nan in
      let e' = high_lem x neg_dbl_max nx no_nan' in
      let n' = high_lem y neg_dbl_max ny no_nan' in
      subst (λ z. Seen (grown z) ((x, y) ∷ ps)) (sym e)
        (box (w.0, s.0, e'.0, n'.0)
          ((λ f. (w.1, e'.1, s.1, n'.1)), vacuous (grown empty_mbr) ps none_finite)
          (
            inl ((fx, fy), omega (arith, w, ux)),
            inl ((fx, fy), omega (arith, e', lx)),
            inl ((fx, fy), omega (arith, s, uy)),
            inl ((fx, fy), omega (arith, n', ly)),
          ))
  Seen-grown m ps fx fy (box n e a) =
      let (nx, lx, ux) = finite_range x hx fx in
      let (ny, ly, uy) = finite_range y hy fy in
      let w = low_lem x m.xmin nx n.0 in
      let s = low_lem y m.ymin ny n.1 in
      let e' = high_lem x m.xmax nx n.2 in
      let n' = high_lem y m.ymax ny n.3 in
      box (w.0, s.0, e'.0, n'.0) ((λ f. (w.1, e'.1, s.1, n'.1)), Encloses-grown m ps nx ny n e)
        (
          edge (λ p. place p.0) ps _ _ (fx, fy) w.3 a.0,
          edge (λ p. place p.0) ps _ _ (fx, fy) e'.3 a.1,
          edge (λ p. place p.1) ps _ _ (fx, fy) s.3 a.2,
          edge (λ p. place p.1) ps _ _ (fx, fy) n'.3 a.3,
        )

  Seen-grow : (m : Mbr) (ps : List Point) → Seen m ps → Seen (grow x y m) ((x, y) ∷ ps)
  Seen-grow m ps h = elim (Bool-cases (is_finite x && is_finite y)) [
    | inl f ↦
        let fx : is_finite x ≡ true = ground arith in
        let fy : is_finite y ≡ true = ground arith in
        rw (grow_finite m fx fy) (Seen-grown m ps fx fy h)
    | inr f ↦ rw (grow_other m f) (keep f h)
  ]
    where
      not_finite : ((is_finite x && is_finite y) ≡ false) → ¬ IsFinitePoint (x, y)
      not_finite f g = ground arith

      keep : ((is_finite x && is_finite y) ≡ false) → Seen m ps → Seen m ((x, y) ∷ ps)
      keep f (nothing e a) = nothing e (not_finite f, a)
      keep f (box n e a) =
          box n ((λ g. absurd (not_finite f g)), e) (inr a.0, inr a.1, inr a.2, inr a.3)

-- The test at the end of `compute_mbr`.
abbrev accept : Mbr → Option Mbr
accept m = if le_double m.xmin m.xmax && le_double m.ymin m.ymax then some m else none

compute_mbr_from :
    (bytes : Bytes) {m : Mbr}
    → wkb_walk grow bytes empty_mbr ≡ some m
    → compute_mbr bytes ≡ accept m
unfolding compute_mbr
compute_mbr_from bytes e = rw e

accept_empty : accept empty_mbr ≡ none
unfolding le_double is_nan place
accept_empty = refl

proper_of_point :
    (m : Mbr) (ps : List Point) (u : ℕ)
    → Encloses m ps
    → Any (λ p. IsFinitePoint p × (place p.0 ≡ u)) ps
    → (place m.xmin ≤ place m.xmax) × (place m.ymin ≤ place m.ymax)
proper_of_point m [] u e a = absurd a
proper_of_point m (p ∷ ps) u (e, es) (inl a) = omega (arith, e a.0)
proper_of_point m (p ∷ ps) u (e, es) (inr a) = proper_of_point m ps u es a

accept_box :
    (m : Mbr) (ps : List Point) → NoNan m → Encloses m ps → Attained m ps → accept m ≡ some m
accept_box m ps n e a =
    let h = proper_of_point m ps (place m.xmin) e a.0 in
    rw (
      le_double_lem m.xmin m.xmax n.0 n.2,
      le_double_lem m.ymin m.ymax n.1 n.3,
      le→leb _ _ h.0,
      le→leb _ _ h.1,
    )

-- On every list of bytes, `compute_mbr` either fails, where the walk over the geometry fails or
-- passes no point with two finite coordinates, or gives a rectangle that holds every finite point
-- that the walk passes and whose four edges are each a coordinate of one of them.
pub compute_mbr_exact :
    (bytes : Bytes)
    → All IsByte bytes
    → ((compute_mbr bytes ≡ none)
        × ((wkb_points bytes ≡ none)
            ⊎ ((ps : List Point) × (wkb_points bytes ≡ some ps) × All (λ p. ¬ IsFinitePoint p) ps)))
      ⊎ ((m : Mbr) × (ps : List Point) × (compute_mbr bytes ≡ some m)
          × (wkb_points bytes ≡ some ps)
          × Encloses m ps
          × Attained m ps)
compute_mbr_exact bytes b = elim walked [
  | inl (fail, fail') ↦ inl (unfold compute_mbr in rw fail, inl fail')
  | inr (m, ps, found, found', seen) ↦ elim seen [
    | nothing e none_finite ↦
        inl
          (compute_mbr_from bytes found ∙ ap accept e ∙ accept_empty, inr (ps, found', none_finite))
    | box n e a ↦ inr (m, ps, compute_mbr_from bytes found ∙ accept_box m ps n e a, found', e, a)
  ]
]
  where
    walked : Outcome Seen (wkb_walk grow bytes empty_mbr) (wkb_points bytes)
    walked =
        unfold wkb_points in
        wkb_walk-Outcome Seen grow (λ x y ps. (x, y) ∷ ps)
          (λ x y m ps hx hy s. Seen-grow x y hx hy m ps s) bytes empty_mbr [] b (nothing refl tt)
