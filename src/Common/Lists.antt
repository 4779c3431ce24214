-- ===== src/Common/Lists.antt =====
-- Lists measured by native numbers, and predicates by recursion on a list.
use Prim.Native.Nat.{ℕ, suc, ◌+◌}
use mathlib.Core.Path.{◌≡◌}
use mathlib.Core.Logic.{◌⊎◌, inl, inr}
use mathlib.Core.Bool.{Bool, true, false, ◌||◌}
use mathlib.Core.Option.{Option, none, some}
use mathlib.Core.List.{List, [], ◌∷◌, ◌++◌}
use native.Mathlib.Omega.{arith}
use mcp_library.Common.Tests.{if◌then◌else◌, on_if}

module _ {ℓ} {A : Type ℓ} where
  abbrev pub length : List A → ℕ
  length [] = 0
  length (x ∷ xs) = suc (length xs)

  pub length-append : (xs ys : List A) → length (xs ++ ys) ≡ length xs + length ys
  length-append [] ys = omega arith
  length-append (x ∷ xs) ys = omega (arith, length-append xs ys)

  abbrev pub is_nil : List A → Bool
  is_nil [] = true
  is_nil (x ∷ xs) = false

  -- Whether some element passes the test.
  abbrev pub any : (A → Bool) → List A → Bool
  any p [] = false
  any p (x ∷ xs) = p x || any p xs

  -- The elements that pass the test, in order.
  abbrev pub filter_by : (A → Bool) → List A → List A
  filter_by p [] = []
  filter_by p (x ∷ xs) = let rest = filter_by p xs in if p x then x ∷ rest else rest

  -- The first element that passes the test.
  abbrev pub find_first : (A → Bool) → List A → Option A
  find_first p [] = none
  find_first p (x ∷ xs) = let rest = find_first p xs in if p x then some x else rest

module _ {ℓ κ} {A : Type ℓ} (P : A → Type κ) where
  abbrev pub All : List A → Type κ
  All [] = Unit
  All (x ∷ xs) = P x × All xs

  pub All-append : (xs ys : List A) → All xs → All ys → All (xs ++ ys)
  All-append [] ys _ hy = hy
  All-append (x ∷ xs) ys (px, hx) hy = (px, All-append xs ys hx hy)

module _ {ℓ} {A : Type ℓ} (P : A → Type 0) where
  -- Some element has the property: which one is kept.
  abbrev pub Any : List A → Type 0
  Any [] = ⊥
  Any (x ∷ xs) = P x ⊎ Any xs

  pub Any-append_left : (xs ys : List A) → Any xs → Any (xs ++ ys)
  Any-append_left (x ∷ xs) ys (inl p) = inl p
  Any-append_left (x ∷ xs) ys (inr r) = inr (Any-append_left xs ys r)
  Any-append_left [] ys h = elim h [ ]

  pub Any-append_right : (xs ys : List A) → Any ys → Any (xs ++ ys)
  Any-append_right [] ys h = h
  Any-append_right (x ∷ xs) ys h = inr (Any-append_right xs ys h)

module _ {ℓ κ μ} {A : Type ℓ} {P : A → Type κ} {Q : A → Type μ} where
  pub All-map : (f : (a : A) → P a → Q a) (xs : List A) → All P xs → All Q xs
  All-map f [] _ = tt
  All-map f (x ∷ xs) (p, ps) = (f x p, All-map f xs ps)

module _ {ℓ} {A : Type ℓ} {P Q : A → Type 0} where
  pub Any-map : (f : (a : A) → P a → Q a) (xs : List A) → Any P xs → Any Q xs
  Any-map f (x ∷ xs) (inl p) = inl (f x p)
  Any-map f (x ∷ xs) (inr r) = inr (Any-map f xs r)
  Any-map f [] h = elim h [ ]

pub All-Unit {ℓ} : {A : Type ℓ} (xs : List A) → All (λ x. Unit {0}) xs
All-Unit [] = tt
All-Unit (x ∷ xs) = (tt, All-Unit xs)

module _ {ℓ} {A : Type ℓ} (P : A → Type 0) (test : A → Bool) where
  pub All-filter : (xs : List A) → All P xs → All P (filter_by test xs)
  All-filter [] h = tt
  All-filter (x ∷ xs) h =
      on_if (All P) (test x) (λ y. (h.0, All-filter xs h.1)) (λ n. All-filter xs h.1)

  -- What is kept passes the test.
  pub All-passes : (xs : List A) → All (λ x. test x ≡ true) (filter_by test xs)
  All-passes [] = tt
  All-passes (x ∷ xs) =
      on_if (All (λ x. test x ≡ true)) (test x) (λ y. (y, All-passes xs)) (λ n. All-passes xs)

  pub Any-filter :
      (xs : List A) → ((x : A) → P x → test x ≡ true) → Any P xs → Any P (filter_by test xs)
  Any-filter [] pass h = elim h [ ]
  Any-filter (x ∷ xs) pass (inl p) = rw (pass x p) (inl p)
  Any-filter (x ∷ xs) pass (inr r) =
      on_if (Any P) (test x) (λ y. inr (Any-filter xs pass r)) (λ n. Any-filter xs pass r)

module _ {ℓ} {A : Type ℓ} (P Q : A → Type 0) where
  pub Any-All : (xs : List A) → Any P xs → All Q xs → Any (λ x. P x × Q x) xs
  Any-All [] h q = elim h [ ]
  Any-All (x ∷ xs) (inl p) q = inl (p, q.0)
  Any-All (x ∷ xs) (inr r) q = inr (Any-All xs r q.1)

  pub All-both : (xs : List A) → All P xs → All Q xs → All (λ x. P x × Q x) xs
  All-both [] p q = tt
  All-both (x ∷ xs) p q = ((p.0, q.0), All-both xs p.1 q.1)
