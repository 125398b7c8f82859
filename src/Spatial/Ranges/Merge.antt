-- ===== src/Spatial/Ranges/Merge.antt =====
-- Sorting and merging the cells of a query box keeps what they cover.
use native.Mathlib.Decide.{dec_lt}
use tidesql_mysql.Spatial.Ranges.{cell_span, Range, insert, sort, merge, ranges_of}
use tidesql_mysql.Base.{ℕ, ◌+◌, ◌-◌, ◌%◌, ◌^◌, ◌≤◌, ◌<◌}
use tidesql_mysql.Base.{◌≡◌, ◌≢◌, ◌↔◌, ◌⊎◌, inl, inr, arith}
use tidesql_mysql.Base.{List, [], ◌∷◌}
use tidesql_mysql.Base.{All, Any}
use tidesql_mysql.Base.{leb}
use tidesql_mysql.Base.{Bool-cases}

-- The distance lies in the range.
abbrev pub Within : ℕ → Range → Type 0
Within d r = (r.0 ≤ d) × (d ≤ r.1)

-- The distance lies in the cell's run.
abbrev pub InCell : ℕ → ℕ → Type 0
InCell d c = (c ≤ d) × (d < c + cell_span)

-- The start of a run in the 64-bit space.
abbrev pub IsBase : ℕ → Type 0
IsBase c = (c % cell_span ≡ 0) × (c < 2 ^ 64)

-- Strictly ascending.
abbrev pub Strict : List ℕ → Type 0
Strict [] = Unit
Strict (c ∷ cs) = All (λ d. c < d) cs × Strict cs

abbrev pub Distinct : List ℕ → Type 0
Distinct [] = Unit
Distinct (c ∷ cs) = All (λ d. c ≢ d) cs × Distinct cs

-- The ranges do not touch one another, and ascend.
abbrev pub Separated : List Range → Type 0
Separated [] = Unit
Separated (r ∷ rs) = (r.0 ≤ r.1) × All (λ s. r.1 + 1 < s.0) rs × Separated rs

Any-insert : (P : ℕ → Type 0) (a : ℕ) (bs : List ℕ) → Any P (insert a bs) ↔ (P a ⊎ Any P bs)
unfolding insert
Any-insert P a [] = (λ h. h, λ h. h)
Any-insert P a (b ∷ bs) = elim (Bool-cases (leb a b)) [
  | inl small ↦ rw small (λ h. h, λ h. h)
  | inr large ↦ rw large (
    λ h. elim h [
      | inl p ↦ inr (inl p)
      | inr p ↦ (elim ((Any-insert P a bs).0 p) [ inl q ↦ inl q | inr q ↦ inr (inr q) ])
    ],
    λ h. elim h [
      | inl p ↦ inr ((Any-insert P a bs).1 (inl p))
      | inr p ↦ (elim p [ inl q ↦ inl q | inr q ↦ inr ((Any-insert P a bs).1 (inr q)) ])
    ],
  )
]

pub Any-sort : (P : ℕ → Type 0) (bs : List ℕ) → Any P (sort bs) ↔ Any P bs
unfolding sort
Any-sort P [] = (λ h. h, λ h. h)
Any-sort P (a ∷ bs) = (
  λ h. elim ((Any-insert P a (sort bs)).0 h) [ inl p ↦ inl p | inr p ↦ inr ((Any-sort P bs).0 p) ],
  λ h. (Any-insert P a (sort bs)).1 (elim h [ inl p ↦ inl p | inr p ↦ inr ((Any-sort P bs).1 p) ]),
)

All-insert : (P : ℕ → Type 0) (a : ℕ) (bs : List ℕ) → P a → All P bs → All P (insert a bs)
unfolding insert
All-insert P a [] h k = (h, tt)
All-insert P a (b ∷ bs) h (kb, k) = elim (Bool-cases (leb a b)) [
  | inl small ↦ rw small (h, (kb, k))
  | inr large ↦ rw large (kb, All-insert P a bs h k)
]

pub All-sort : (P : ℕ → Type 0) (bs : List ℕ) → All P bs → All P (sort bs)
unfolding sort
All-sort P [] h = tt
All-sort P (a ∷ bs) (ha, h) = All-insert P a (sort bs) ha (All-sort P bs h)

All-map : (P Q : ℕ → Type 0) (bs : List ℕ) → ((b : ℕ) → P b → Q b) → All P bs → All Q bs
All-map P Q [] f h = tt
All-map P Q (b ∷ bs) f (hb, h) = (f b hb, All-map P Q bs f h)

insert-Strict : (a : ℕ) (bs : List ℕ) → All (λ d. a ≢ d) bs → Strict bs → Strict (insert a bs)
unfolding insert
insert-Strict a [] h k = (tt, tt)
insert-Strict a (b ∷ bs) (ne, h) (kb, k) = elim (Bool-cases (leb a b)) [
  | inl small ↦
      let lt : a < b = ground arith in
      rw small ((lt, All-map (λ d. b < d) (λ d. a < d) bs (λ d q. omega arith) kb), (kb, k))
  | inr large ↦ rw large (All-insert (λ d. b < d) a bs (ground arith) kb, insert-Strict a bs h k)
]

pub sort-Strict : (bs : List ℕ) → Distinct bs → Strict (sort bs)
unfolding sort
sort-Strict [] h = tt
sort-Strict (a ∷ bs) (ha, h) =
    insert-Strict a (sort bs) (All-sort (λ d. a ≢ d) bs ha) (sort-Strict bs h)

-- The cells that the loop has before it when it holds a range up to `hi`.
abbrev Ahead : ℕ → List ℕ → Type 0
Ahead hi cs = All (λ c. IsBase c × (hi < c)) cs × Strict cs

Ahead-first :
    (c : ℕ) (ds : List ℕ)
    → IsBase c
    → All IsBase ds
    → All (λ d. c < d) ds
    → All (λ d. IsBase d × (c + cell_span - 1 < d)) ds
Ahead-first c [] b q r = tt
Ahead-first c (d ∷ ds) b (q, qs) (r, rs) = ((q, omega arith), Ahead-first c ds b qs rs)

Ahead-tail : (hi c : ℕ) (cs : List ℕ) → Ahead hi (c ∷ cs) → Ahead (c + cell_span - 1) cs
Ahead-tail hi c cs ((h, hs), (k, ks)) =
    (Ahead-first c cs h.0 (All-map (λ d. IsBase d × (hi < d)) IsBase cs (λ d q. q.0) hs) k, ks)

-- One round: the cell touches the range in hand, or lies behind a gap.
merge_step :
    (lo hi c : ℕ) (cs : List ℕ)
    → IsBase c
    → hi < c
    → ((c ≡ hi + 1) × (merge lo hi (c ∷ cs) ≡ merge lo (c + cell_span - 1) cs))
      ⊎ ((hi + 1 < c) × (merge lo hi (c ∷ cs) ≡ (lo, hi) ∷ merge c (c + cell_span - 1) cs))
unfolding merge
merge_step lo hi c cs b h =
    let e₁ : (c + cell_span - 1) % 2 ^ 64 ≡ c + cell_span - 1 = omega arith in
    let e₂ : (hi + 1) % 2 ^ 64 ≡ hi + 1 = omega arith in
    elim (dec_lt (hi + 1) c) [
      | yes gap ↦ inr (gap, ground (arith, e₁, e₂))
      | no touch ↦ inl (omega arith, ground (arith, e₁, e₂))
    ]

merge-Within :
    (d lo hi : ℕ) (cs : List ℕ)
    → lo ≤ hi + 1
    → Ahead hi cs
    → Any (Within d) (merge lo hi cs) ↔ (Within d (lo, hi) ⊎ Any (InCell d) cs)
merge-Within d lo hi [] h a = unfold merge in (λ p. p, λ p. p)
merge-Within d lo hi (c ∷ cs) h a = elim (merge_step lo hi c cs a.0.0.0 a.0.0.1) [
  | inl (next, e) ↦
      let ih = merge-Within d lo (c + cell_span - 1) cs (omega arith) (Ahead-tail hi c cs a) in
      rw e (
        λ p. elim (ih.0 p) [
          | inl w ↦ elim (dec_lt d c) [
            | yes old ↦ inl (omega arith)
            | no new ↦ inr (inl (omega arith))
          ]
          | inr q ↦ inr (inr q)
        ],
        λ p. elim p [
          | inl w ↦ ih.1 (inl (omega arith))
          | inr (inl w) ↦ ih.1 (inl (omega arith))
          | inr (inr q) ↦ ih.1 (inr q)
        ],
      )
  | inr (gap, e) ↦
      let ih = merge-Within d c (c + cell_span - 1) cs (omega arith) (Ahead-tail hi c cs a) in
      rw e (
        λ p. elim p [
          | inl w ↦ inl w
          | inr q ↦ elim (ih.0 q) [ inl w ↦ inr (inl (omega arith)) | inr r ↦ inr (inr r) ]
        ],
        λ p. elim p [
          | inl w ↦ inl w
          | inr (inl w) ↦ inr (ih.1 (inl (omega arith)))
          | inr (inr q) ↦ inr (ih.1 (inr q))
        ],
      )
]

merge-Separated :
    (lo hi : ℕ) (cs : List ℕ)
    → lo ≤ hi
    → Ahead hi cs
    → Separated (merge lo hi cs) × All (λ r. lo ≤ r.0) (merge lo hi cs)
merge-Separated lo hi [] h a = unfold merge in ((h, tt, tt), (omega arith, tt))
merge-Separated lo hi (c ∷ cs) h a = elim (merge_step lo hi c cs a.0.0.0 a.0.0.1) [
  | inl (next, e) ↦
      rw e (merge-Separated lo (c + cell_span - 1) cs (omega arith) (Ahead-tail hi c cs a))
  | inr (gap, e) ↦
      let ih = merge-Separated c (c + cell_span - 1) cs (omega arith) (Ahead-tail hi c cs a) in
      rw e (
        (
          h,
          raise (λ r. hi + 1 < r.0) (λ r q. omega arith) (merge c (c + cell_span - 1) cs) ih.1,
          ih.0,
        ),
        (
          omega arith,
          raise (λ r. lo ≤ r.0) (λ r q. omega arith) (merge c (c + cell_span - 1) cs) ih.1,
        ),
      )
]
  where
    raise :
        (Q : Range → Type 0)
        → ((r : Range) → c ≤ r.0 → Q r)
        → (rs : List Range) → All (λ r. c ≤ r.0) rs
        → All Q rs
    raise Q f [] p = tt
    raise Q f (r ∷ rs) (pr, p) = (f r pr, raise Q f rs p)

top : (c : ℕ) → IsBase c → (c + cell_span - 1) % 2 ^ 64 ≡ c + cell_span - 1
top c b = omega arith

-- The merged ranges hold exactly the distances in the runs of the cells, and do not touch.
pub ranges_of-Within :
    (d : ℕ) (cs : List ℕ)
    → All IsBase cs
    → Strict cs
    → Any (Within d) (ranges_of cs) ↔ Any (InCell d) cs
unfolding ranges_of
ranges_of-Within d [] b k = (λ p. p, λ p. p)
ranges_of-Within d (c ∷ cs) b k =
    let ih =
      merge-Within d c (c + cell_span - 1) cs (omega arith) (Ahead-first c cs b.0 b.1 k.0, k.1) in
    rw (top c b.0) (
      λ p. elim (ih.0 p) [ inl w ↦ inl (omega arith) | inr q ↦ inr q ],
      λ p. ih.1 (elim p [ inl w ↦ inl (omega arith) | inr q ↦ inr q ]),
    )

pub ranges_of-Separated : (cs : List ℕ) → All IsBase cs → Strict cs → Separated (ranges_of cs)
unfolding ranges_of
ranges_of-Separated [] b k = tt
ranges_of-Separated (c ∷ cs) b k =
    rw (top c b.0)
      (merge-Separated c (c + cell_span - 1) cs (omega arith) (Ahead-first c cs b.0 b.1 k.0, k.1)).0
