-- ===== src/Spatial/Wkb/Walk.antt =====
-- Two walks over one value take the same course, whatever their states: what they make of the
-- points stays related.
use mathlib.Core.Path.{subst}
use tidesql_mysql.Base.LittleEndian.{le_value, le_value-take-lt}
use tidesql_mysql.Spatial.Doubles.{Double}
use tidesql_mysql.Spatial.Mbr.{read_double}
use tidesql_mysql.Spatial.Wkb.{Step, repeat, counted, wkb_read_point, wkb_read_point_sequence}
use tidesql_mysql.Spatial.Wkb.{wkb_body, wkb_parse_geometry, wkb_walk}
use tidesql_mysql.Base.{ℕ, zero, suc, ◌^◌, ◌<◌}
use tidesql_mysql.Base.{◌≡◌, refl, ◌⊎◌, inl, inr}
use tidesql_mysql.Base.{Bool, true, false, ◌||◌, Option, none, some, ◌>>=◌}
use tidesql_mysql.Base.{[], ◌∷◌, length, take, drop}
use tidesql_mysql.Base.{All}
use tidesql_mysql.Base.{ltb, ◌==◌, if◌then◌else◌}
use tidesql_mysql.Base.{Bool-cases}
use tidesql_mysql.Base.Bytes.{Bytes, IsByte}

All-drop : (n : ℕ) (p : Bytes) → All IsByte p → All IsByte (drop n p)
All-drop zero p h = h
All-drop (suc n) [] h = tt
All-drop (suc n) (x ∷ p) (hx, h) = All-drop n p h

module _ {S T : Type 0} (R : S → T → Type 0) where
  -- Both fail, or both stand before the same bytes in related states.
  abbrev Related : Option (Bytes × S) → Option (Bytes × T) → Type 0
  Related none none = Unit
  Related none (some b) = ⊥
  Related (some a) none = ⊥
  Related (some (p, s)) (some (q, t)) = (p ≡ q) × All IsByte p × R s t

  abbrev Alike : Step S → Step T → Type 0
  Alike f g = (p : Bytes) (s : S) (t : T) → All IsByte p → R s t → Related (f p s) (g p t)

  -- What the two walks make of a whole value.
  abbrev pub Outcome : Option S → Option T → Type 0
  Outcome a c =
      ((a ≡ none) × (c ≡ none)) ⊎ ((s : S) × (t : T) × (a ≡ some s) × (c ≡ some t) × R s t)

  choose-Related :
      (test : Bool) (a a' : Option (Bytes × S)) (c c' : Option (Bytes × T))
      → Related a c
      → Related a' c'
      → Related (if test then a else a') (if test then c else c')
  choose-Related true a a' c c' h k = h
  choose-Related false a a' c c' h k = k

  bind-Related :
      (a : Option (Bytes × S)) (c : Option (Bytes × T)) (f : Step S) (g : Step T)
      → Related a c
      → Alike f g
      → Related (a >>= λ r. f r.0 r.1) (c >>= λ r. g r.0 r.1)
  bind-Related none none f g k h = tt
  bind-Related none (some c) f g k h = absurd k
  bind-Related (some a) none f g k h = absurd k
  bind-Related (some (q, s)) (some (q', t)) f g (e, b, r) h =
      subst (λ z. Related (f q s) (g z t)) e (h q s t b r)

  repeat-Alike : (n : ℕ) (f : Step S) (g : Step T) → Alike f g → Alike (repeat n f) (repeat n g)
  unfolding repeat
  repeat-Alike zero f g h p s t b r = (refl, b, r)
  repeat-Alike (suc n) f g h p s t b r =
      bind-Related (f p s) (g p t) (repeat n f) (repeat n g) (h p s t b r) (repeat-Alike n f g h)

  counted-Alike :
      (cap : ℕ) (f : Step S) (g : Step T) → Alike f g → Alike (counted cap f) (counted cap g)
  unfolding counted
  counted-Alike cap f g h p s t b r = elim (Bool-cases (ltb (length p) 4)) [
    | inl short ↦ rw short tt
    | inr long ↦ rw long (elim (Bool-cases (ltb cap (le_value (take 4 p)))) [
      | inl many ↦ rw many tt
      | inr fits ↦
          rw fits (repeat-Alike (le_value (take 4 p)) f g h (drop 4 p) s t (All-drop 4 p b) r)
    ])
  ]

  module _ (visit : Double → Double → S → S) (visit' : Double → Double → T → T)
      (keep : (x y : Double) (s : S) (t : T)
        → x < 2 ^ 64
        → y < 2 ^ 64
        → R s t
        → R (visit x y s) (visit' x y t)) where
    point-Alike : Alike (wkb_read_point visit) (wkb_read_point visit')
    unfolding wkb_read_point
    point-Alike p s t b r = elim (Bool-cases (ltb (length p) 16)) [
      | inl short ↦ rw short tt
      | inr long ↦ rw long (
        refl,
        All-drop 16 p b,
        keep (read_double p) (read_double (drop 8 p)) s t
            (unfold read_double in le_value-take-lt 8 p b)
            (unfold read_double in le_value-take-lt 8 (drop 8 p) (All-drop 8 p b)) r,
      )
    ]

    sequence-Alike : Alike (wkb_read_point_sequence visit) (wkb_read_point_sequence visit')
    unfolding wkb_read_point_sequence
    sequence-Alike =
        counted-Alike 1000000 (wkb_read_point visit) (wkb_read_point visit') point-Alike

    body-Alike :
        (f : Step S) (g : Step T) (gt : ℕ)
        → Alike f g
        → Alike (wkb_body visit f gt) (wkb_body visit' g gt)
    unfolding wkb_body
    body-Alike f g gt h p s t b r = choose-Related (gt == 1) _ _ _ _ (point-Alike p s t b r) (
        choose-Related (gt == 2) _ _ _ _ (sequence-Alike p s t b r) (
          choose-Related (gt == 3) _ _ _ _
            (counted-Alike 10000 (wkb_read_point_sequence visit) (wkb_read_point_sequence visit')
              sequence-Alike p s t b r)
            (choose-Related ((gt == 4 || gt == 5) || (gt == 6 || gt == 7)) _ _ _ _
              (counted-Alike 100000 f g h p s t b r) tt)))

    geometry-Alike :
        (levels : ℕ) → Alike (wkb_parse_geometry visit levels) (wkb_parse_geometry visit' levels)
    unfolding wkb_parse_geometry
    geometry-Alike zero p s t b r = tt
    geometry-Alike (suc levels) p s t b r = elim (Bool-cases (ltb (length p) 5)) [
      | inl short ↦ rw short tt
      | inr long ↦ rw long (
          body-Alike (wkb_parse_geometry visit levels) (wkb_parse_geometry visit' levels)
            (le_value (take 4 (drop 1 p))) (geometry-Alike levels) (drop 5 p) s t (All-drop 5 p b)
            r)
    ]

    pub wkb_walk-Outcome :
        (bytes : Bytes) (s : S) (t : T)
        → All IsByte bytes
        → R s t
        → Outcome (wkb_walk visit bytes s) (wkb_walk visit' bytes t)
    unfolding wkb_walk
    wkb_walk-Outcome bytes s t b r = elim (Bool-cases (ltb (length bytes) 9)) [
      | inl short ↦ rw short (inl (refl, refl))
      | inr long ↦ rw long (
          finish (wkb_parse_geometry visit 33 (drop 4 bytes) s)
            (wkb_parse_geometry visit' 33 (drop 4 bytes) t)
            (geometry-Alike 33 (drop 4 bytes) s t (All-drop 4 bytes b) r))
    ]
      where
        finish :
            (a : Option (Bytes × S)) (c : Option (Bytes × T))
            → Related a c
            → Outcome (a >>= λ x. some x.1) (c >>= λ x. some x.1)
        finish none none k = inl (refl, refl)
        finish none (some c) k = absurd k
        finish (some a) none k = absurd k
        finish (some (q, s')) (some (q', t')) (e, b', r') = inr (s', t', refl, refl, r')
