-- ===== src/Osv/Points.antt =====
-- internal/audit/osv.go: the points of a range are those of its events, sorted or not.
use mcp_library.Common.{
  sym, ap, ◌∙◌, All, Any-map, ◌≡◌, subst, ◌⊎◌, inl, inr, Bool, List, [], ◌∷◌, ◌++◌, some, Any,
}
use mathlib.Core.List.{reverse, reverse-cons}
use mathlib.Core.Option.{some-injective}
use mcp_library.Common.Sort.{insert_by}
use mcp_library.Common.Tests.{Bool-cases, Option-cases}
use mcp_library.Common.Text.{Text}
use mcp_library.Osv.{OsvEvent, Point, point_of, points_of, comes_after, sort_onto, sort_points}

Any-insert :
    {A : Type 0} (less : A → A → Bool) (P : A → Type 0) (x : A) (ys : List A)
    → Any P (insert_by less x ys)
    → P x ⊎ Any P ys
Any-insert less P x [] h = h
Any-insert less P x (y ∷ ys) h = elim (Bool-cases (less y x)) [
  | inr after ↦ rw after at h
  | inl before ↦ swap (Any-insert less P x ys) (rw before at h)
]
  where
    swap :
        (Any P (insert_by less x ys) → P x ⊎ Any P ys)
        → P y ⊎ Any P (insert_by less x ys)
        → P x ⊎ (P y ⊎ Any P ys)
    swap ih (inl now) = inr (inl now)
    swap ih (inr later) = elim (ih later) [ inl this ↦ inl this | inr there ↦ inr (inr there) ]

Any-append_split :
    {A : Type 0} (P : A → Type 0) (xs ys : List A) → Any P (xs ++ ys) → Any P xs ⊎ Any P ys
Any-append_split P [] ys h = inr h
Any-append_split P (x ∷ xs) ys (inl here) = inl (inl here)
Any-append_split P (x ∷ xs) ys (inr there) = elim (Any-append_split P xs ys there) [
  | inl a ↦ inl (inr a)
  | inr b ↦ inr b
]

Any-reverse : {A : Type 0} (P : A → Type 0) (xs : List A) → Any P (reverse xs) → Any P xs
Any-reverse P [] h = h
Any-reverse P (x ∷ xs) h = elim (Any-append_split P (reverse xs) (x ∷ []) (rw reverse-cons at h)) [
  | inl before ↦ inr (Any-reverse P xs before)
  | inr (inl this) ↦ inl this
  | inr (inr nothing) ↦ absurd nothing
]

module _ (P : Point → Type 0) (ecosystem : Text) where
  Any-sort_onto :
      (sorted ps : List Point) → Any P (sort_onto ecosystem sorted ps) → Any P sorted ⊎ Any P ps
  unfolding sort_onto
  Any-sort_onto sorted [] h = inl h
  Any-sort_onto sorted (p ∷ ps) h =
      spread (Any-sort_onto (insert_by (comes_after ecosystem) p sorted) ps h)
    where
      onto : P p ⊎ Any P sorted → Any P sorted ⊎ Any P (p ∷ ps)
      onto (inl this) = inr (inl this)
      onto (inr there) = inl there

      spread :
          Any P (insert_by (comes_after ecosystem) p sorted) ⊎ Any P ps
          → Any P sorted ⊎ Any P (p ∷ ps)
      spread (inl h) = onto (Any-insert (comes_after ecosystem) P p sorted h)
      spread (inr later) = inr (inr later)

  pub Any-sort_points : (ps : List Point) → Any P (sort_points ecosystem ps) → Any P ps
  unfolding sort_points
  Any-sort_points ps h = elim (Any-sort_onto [] ps (Any-reverse P (sort_onto ecosystem [] ps) h)) [
    | inl nothing ↦ absurd nothing
    | inr there ↦ there
  ]

pub Any-points_of :
    (P : Point → Type 0) (evs : List OsvEvent)
    → Any P (points_of evs)
    → Any (λ ev. (p : Point) × (point_of ev ≡ some p) × P p) evs
unfolding points_of
Any-points_of P [] h = h
Any-points_of P (ev ∷ evs) h = elim (Option-cases (point_of ev)) [
  | inl nothing ↦ inr (Any-points_of P evs (rw (nothing, points_of) at h))
  | inr (p, made) ↦ spread p made (Any-points_of P evs) (rw (made, points_of) at h)
]
  where
    spread :
        (p : Point)
        → point_of ev ≡ some p
        → (Any P (points_of evs) → Any (λ ev. (p : Point) × (point_of ev ≡ some p) × P p) evs)
        → P p ⊎ Any P (points_of evs)
        → Any (λ ev. (p : Point) × (point_of ev ≡ some p) × P p) (ev ∷ evs)
    spread p made ih (inl here) = inl (p, made, here)
    spread p made ih (inr there) = inr (ih there)

-- The event that a point is made of.
abbrev pub Makes : Point → OsvEvent → Type 0
Makes p ev = point_of ev ≡ some p

pub made_of :
    (p : Point) (evs : List OsvEvent) → Any (λ q. q ≡ p) (points_of evs) → Any (Makes p) evs
made_of p evs h =
    Any-map (λ ev (q, made, e). made ∙ ap (λ x. some x) e) evs (Any-points_of (λ q. q ≡ p) evs h)

pub All-points_of :
    (P : Point → Type 0) (evs : List OsvEvent)
    → All P (points_of evs)
    → All (λ ev. (q : Point) → Makes q ev → P q) evs
unfolding points_of
All-points_of P [] h = tt
All-points_of P (ev ∷ evs) h = elim (Option-cases (point_of ev)) [
  | inl nothing ↦
      (λ q made. absurd (cc (nothing, made)), All-points_of P evs (rw (nothing, points_of) at h))
  | inr (p, made) ↦ (
    λ q made'. subst P (some-injective p q (sym made ∙ made')) ((held p made).0),
    All-points_of P evs ((held p made).1),
  )
]
  where
    held : (p : Point) → point_of ev ≡ some p → P p × All P (points_of evs)
    held p made = rw (made, points_of) at h
