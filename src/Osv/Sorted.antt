-- ===== src/Osv/Sorted.antt =====
-- internal/audit/osv.go: the sort of a range puts its points in order.
use mcp_library.Common.{◌≡◌, inl, inr, true, false, List, [], ◌∷◌, ◌++◌, All, All-append}
use mathlib.Core.List.{reverse, reverse-cons}
use mcp_library.Common.Sort.{insert_by, insert_by-All}
use mcp_library.Common.Tests.{Bool-cases, &&_left, &&_right}
use mcp_library.Common.Text.{Text}
use mcp_library.Osv.{Point, all_ordered, comes_after, sort_onto, sort_points}
use mcp_library.Osv.Order.{NotAfter, Known, NotAfter-trans, NotAfter-asym}

All-reverse : (P : Point → Type 0) (ps : List Point) → All P ps → All P (reverse ps)
All-reverse P [] h = tt
All-reverse P (p ∷ ps) h =
    rw reverse-cons (All-append P (reverse ps) (p ∷ []) (All-reverse P ps (h.1)) (h.0, tt))

All-split : (P : Point → Type 0) (ps qs : List Point) → All P (ps ++ qs) → All P ps × All P qs
All-split P [] qs h = (tt, h)
All-split P (p ∷ ps) qs h = let (a, b) = All-split P ps qs (h.1) in ((h.0, a), b)

All-unreverse : (P : Point → Type 0) (ps : List Point) → All P (reverse ps) → All P ps
All-unreverse P [] h = tt
All-unreverse P (p ∷ ps) h =
    let (before, here) = All-split P (reverse ps) (p ∷ []) (rw reverse-cons at h) in
    (here.0, All-unreverse P ps before)

module _ (ecosystem : Text) where
  -- From the last one down: no version is after one that stands in front of it.
  abbrev Descends : List Point → Type 0
  Descends [] = Unit
  Descends (p ∷ ps) = All (λ q. NotAfter ecosystem q.version p.version) ps × Descends ps

  abbrev pub Ascends : List Point → Type 0
  Ascends [] = Unit
  Ascends (p ∷ ps) = All (λ q. NotAfter ecosystem p.version q.version) ps × Ascends ps

  insert-Descends :
      (p : Point) (qs : List Point)
      → Known ecosystem p
      → All (Known ecosystem) qs
      → Descends qs
      → Descends (insert_by (comes_after ecosystem) p qs)
  insert-Descends p [] kp kq d = (tt, tt)
  insert-Descends p (q ∷ qs) kp kq d = elim (Bool-cases (comes_after ecosystem q p)) [
    | inl after ↦ rw after (
      insert_by-All (comes_after ecosystem) (λ r. NotAfter ecosystem r.version q.version) p qs
          (NotAfter-asym ecosystem q p after) (d.0),
      insert-Descends p qs kp (kq.1) (d.1),
    )
    | inr level ↦ rw level ((level, beneath level qs (kq.1) (d.0)), d)
  ]
    where
      beneath :
          comes_after ecosystem q p ≡ false
          → (rs : List Point) → All (Known ecosystem) rs
          → All (λ r. NotAfter ecosystem r.version q.version) rs
          → All (λ r. NotAfter ecosystem r.version p.version) rs
      beneath level [] kr h = tt
      beneath level (r ∷ rs) kr h = (
        NotAfter-trans ecosystem r q p (kr.0) (kq.0) kp (h.0) level,
        beneath level rs (kr.1) (h.1),
      )

  sort_onto-Descends :
      (sorted ps : List Point)
      → All (Known ecosystem) sorted
      → All (Known ecosystem) ps
      → Descends sorted
      → Descends (sort_onto ecosystem sorted ps)
  unfolding sort_onto
  sort_onto-Descends sorted [] ks kp d = d
  sort_onto-Descends sorted (p ∷ ps) ks kp d =
      sort_onto-Descends (insert_by (comes_after ecosystem) p sorted) ps
        (insert_by-All (comes_after ecosystem) (Known ecosystem) p sorted (kp.0) ks) (kp.1)
        (insert-Descends p sorted (kp.0) ks d)

  Ascends-last :
      (p : Point) (qs : List Point)
      → Ascends qs
      → All (λ q. NotAfter ecosystem q.version p.version) qs
      → Ascends (qs ++ p ∷ [])
  Ascends-last p [] a h = (tt, tt)
  Ascends-last p (q ∷ qs) a h = (
    All-append (λ r. NotAfter ecosystem q.version r.version) qs (p ∷ []) (a.0) (h.0, tt),
    Ascends-last p qs (a.1) (h.1),
  )

  reverse-Ascends : (ps : List Point) → Descends ps → Ascends (reverse ps)
  reverse-Ascends [] d = tt
  reverse-Ascends (p ∷ ps) d =
      rw reverse-cons
        (Ascends-last p (reverse ps) (reverse-Ascends ps (d.1)) (All-reverse _ ps (d.0)))

  all_ordered-Known : (ps : List Point) → all_ordered ecosystem ps ≡ true → All (Known ecosystem) ps
  unfolding all_ordered
  all_ordered-Known [] h = tt
  all_ordered-Known (p ∷ ps) h =
      (&&_left _ _ h, all_ordered-Known ps (&&_right _ (all_ordered ecosystem ps) h))

  -- The sort of a range whose versions can be ordered puts them in order.
  pub sort_points-Ascends :
      (ps : List Point) → all_ordered ecosystem ps ≡ true → Ascends (sort_points ecosystem ps)
  unfolding sort_points
  sort_points-Ascends ps h =
      reverse-Ascends (sort_onto ecosystem [] ps)
        (sort_onto-Descends [] ps tt (all_ordered-Known ps h) tt)

  module _ (P : Point → Type 0) where
    insert-split :
        (p : Point) (qs : List Point)
        → All P (insert_by (comes_after ecosystem) p qs)
        → P p × All P qs
    insert-split p [] h = h
    insert-split p (q ∷ qs) h = elim (Bool-cases (comes_after ecosystem q p)) [
      | inr level ↦ rw level at h
      | inl after ↦ swap (rw after at h) (insert-split p qs)
    ]
      where
        swap :
            P q × All P (insert_by (comes_after ecosystem) p qs)
            → (All P (insert_by (comes_after ecosystem) p qs) → P p × All P qs)
            → P p × All P (q ∷ qs)
        swap h rest = let (here, later) = rest (h.1) in (here, (h.0, later))

    sort_onto-split :
        (sorted ps : List Point) → All P (sort_onto ecosystem sorted ps) → All P sorted × All P ps
    unfolding sort_onto
    sort_onto-split sorted [] h = (h, tt)
    sort_onto-split sorted (p ∷ ps) h =
        let (before, later) = sort_onto-split (insert_by (comes_after ecosystem) p sorted) ps h in
        let (here, rest) = insert-split p sorted before in (rest, (here, later))

    -- What holds of the sorted points holds of the points.
    pub All-sort_points : (ps : List Point) → All P (sort_points ecosystem ps) → All P ps
    unfolding sort_points
    All-sort_points ps h = (sort_onto-split [] ps (All-unreverse P (sort_onto ecosystem [] ps) h)).1
