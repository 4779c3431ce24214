-- ===== src/Common/Sort.antt =====
-- The stable sort of Go's sort.SliceStable, as insertion from the right: a record is put in front
-- of the first one that is not less than it. What it does to records looked up by a key.
use mathlib.Core.Path.{◌≡◌, refl, ◌∙◌}
use mathlib.Core.Bool.{Bool, true, false, true≢false, ◌||◌}
use mathlib.Core.Logic.{inl, inr}
use mathlib.Core.List.{List, [], ◌∷◌}
use mathlib.Core.Option.{Option, some}
use mcp_library.Common.Lists.{All}
use mcp_library.Common.Tests.{if◌then◌else◌, Bool-cases}
use mcp_library.Common.Keyed.{KeyEq, Unique, find_key, has_key, test_apart_right}
use mcp_library.Common.Keyed.Keys.{or_none, test_sym_false}

abbrev pub insert_by {ℓ} : {A : Type ℓ} → (A → A → Bool) → A → List A → List A
insert_by less x [] = x ∷ []
insert_by less x (y ∷ ys) =
    let rest = insert_by less x ys in if less y x then y ∷ rest else x ∷ y ∷ ys

abbrev pub sort_by {ℓ} : {A : Type ℓ} → (A → A → Bool) → List A → List A
sort_by less [] = []
sort_by less (x ∷ xs) = insert_by less x (sort_by less xs)

-- No record is less than the one in front of it.
abbrev pub IsSortedBy {ℓ} : {A : Type ℓ} → (A → A → Bool) → List A → Type 0
IsSortedBy less [] = Unit
IsSortedBy less (x ∷ []) = Unit
IsSortedBy less (x ∷ y ∷ ys) = (less y x ≡ false) × IsSortedBy less (y ∷ ys)

or_false : (a b : Bool) → (a || b) ≡ false → (a ≡ false) × (b ≡ false)
or_false true b h = absurd (true≢false h)
or_false false b h = (refl, h)

module _ {A : Type 0} (less : A → A → Bool)
    (asym : (x y : A) → less x y ≡ true → less y x ≡ false) where
  sort_front :
      (y x : A) (ys : List A)
      → less y x ≡ true
      → IsSortedBy less (y ∷ ys)
      → IsSortedBy less (insert_by less x ys)
      → IsSortedBy less (y ∷ insert_by less x ys)
  sort_front y x [] h s s' = (asym y x h, tt)
  sort_front y x (z ∷ zs) h s s' = elim (Bool-cases (less z x)) [
    | inl before ↦ rw before (s.0, rw before at s')
    | inr after ↦ rw after (asym y x h, rw after at s')
  ]

  insert_by-IsSorted :
      (x : A) (ys : List A) → IsSortedBy less ys → IsSortedBy less (insert_by less x ys)
  insert_by-IsSorted x [] s = tt
  insert_by-IsSorted x (y ∷ ys) s = elim (Bool-cases (less y x)) [
    | inl before ↦ rw before (sort_front y x ys before s (insert_by-IsSorted x ys (tail y ys s)))
    | inr after ↦ rw after (after, s)
  ]
    where
      tail : (y : A) (ys : List A) → IsSortedBy less (y ∷ ys) → IsSortedBy less ys
      tail y [] s = tt
      tail y (z ∷ zs) s = s.1

  pub sort_by-IsSorted : (xs : List A) → IsSortedBy less (sort_by less xs)
  sort_by-IsSorted [] = tt
  sort_by-IsSorted (x ∷ xs) = insert_by-IsSorted x (sort_by less xs) (sort_by-IsSorted xs)

module _ {A : Type 0} (less : A → A → Bool) (P : A → Type 0) where
  pub insert_by-All : (x : A) (ys : List A) → P x → All P ys → All P (insert_by less x ys)
  insert_by-All x [] p ps = (p, tt)
  insert_by-All x (y ∷ ys) p ps = elim (Bool-cases (less y x)) [
    | inl before ↦ rw before (ps.0, insert_by-All x ys p (ps.1))
    | inr after ↦ rw after (p, ps)
  ]

  pub sort_by-All : (xs : List A) → All P xs → All P (sort_by less xs)
  sort_by-All [] ps = tt
  sort_by-All (x ∷ xs) ps = insert_by-All x (sort_by less xs) (ps.0) (sort_by-All xs (ps.1))

module _ {A K : Type 0} (less : A → A → Bool) (key : A → K) (e : KeyEq K) where
  has_key-insert :
      (x : A) (ys : List A) (k : K)
      → has_key key e k (insert_by less x ys) ≡ (e.test (key x) k || has_key key e k ys)
  has_key-insert x [] k = refl
  has_key-insert x (y ∷ ys) k = elim (Bool-cases (less y x)) [
    | inr after ↦ rw after refl
    | inl before ↦
        rw (before, has_key-insert x ys k)
          (swap (e.test (key y) k) (e.test (key x) k) (has_key key e k ys))
  ]
    where
      swap : (a b c : Bool) → (a || (b || c)) ≡ (b || (a || c))
      swap true true c = refl
      swap true false c = refl
      swap false true c = refl
      swap false false c = refl

  pub has_key-sort : (xs : List A) (k : K) → has_key key e k (sort_by less xs) ≡ has_key key e k xs
  has_key-sort [] k = refl
  has_key-sort (x ∷ xs) k = rw (has_key-insert x (sort_by less xs) k, has_key-sort xs k) refl

  find_key-insert :
      (x : A) (ys : List A) (k : K)
      → has_key key e (key x) ys ≡ false
      → find_key key e k (insert_by less x ys)
        ≡ (if e.test (key x) k then some x else find_key key e k ys)
  find_key-insert x [] k h = refl
  find_key-insert x (y ∷ ys) k h = elim (Bool-cases (less y x)) [
    | inr after ↦ rw after refl
    | inl before ↦
        rw
          (
            before,
            find_key-insert x ys k
                ((or_false (e.test (key y) (key x)) (has_key key e (key x) ys) h).1),
          )
          (swap (e.test (key y) k) (e.test (key x) k) (find_key key e k ys) (λ t.
            test_apart_right e (key y) (key x) k
              ((or_false (e.test (key y) (key x)) (has_key key e (key x) ys) h).0) t))
  ]
    where
      swap :
          (a b : Bool) (rest : Option A)
          → (b ≡ true → a ≡ false)
          → (if a then some y else (if b then some x else rest))
            ≡ (if b then some x else (if a then some y else rest))
      swap a true rest h = rw (h refl) refl
      swap a false rest h = refl

  -- Sorting changes no lookup, where a key names one record.
  pub find_key-sort :
      (xs : List A) (k : K)
      → Unique key e xs
      → find_key key e k (sort_by less xs) ≡ find_key key e k xs
  find_key-sort [] k u = refl
  find_key-sort (x ∷ xs) k u =
      rw
        (
          find_key-insert x (sort_by less xs) k (has_key-sort xs (key x) ∙ u.0),
          find_key-sort xs k (u.1),
        )
        refl

  insert_by-Unique :
      (x : A) (ys : List A)
      → has_key key e (key x) ys ≡ false
      → Unique key e ys
      → Unique key e (insert_by less x ys)
  insert_by-Unique x [] h u = (refl, tt)
  insert_by-Unique x (y ∷ ys) h u = elim (Bool-cases (less y x)) [
    | inr after ↦ rw after (h, u)
    | inl before ↦
        rw before (has_key-insert x ys (key y) ∙ keep, insert_by-Unique x ys (later h) (u.1))
  ]
    where
      later :
          (e.test (key y) (key x) || has_key key e (key x) ys) ≡ false
          → has_key key e (key x) ys ≡ false
      later h = (or_false (e.test (key y) (key x)) (has_key key e (key x) ys) h).1

      keep : (e.test (key x) (key y) || has_key key e (key y) ys) ≡ false
      keep =
          or_none (e.test (key x) (key y)) (has_key key e (key y) ys)
            (test_sym_false e (key y) (key x)
              ((or_false (e.test (key y) (key x)) (has_key key e (key x) ys) h).0))
            (u.0)

  pub sort_by-Unique : (xs : List A) → Unique key e xs → Unique key e (sort_by less xs)
  sort_by-Unique [] u = tt
  sort_by-Unique (x ∷ xs) u =
      insert_by-Unique x (sort_by less xs) (has_key-sort xs (key x) ∙ u.0) (sort_by-Unique xs (u.1))
