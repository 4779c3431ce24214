-- ===== src/Common/Keyed.antt =====
-- Lists of records looked up by a key, and folding a new record into such a list: into the first
-- record of its key, or at the end where no record has it.
use mathlib.Core.Path.{◌≡◌, refl, sym, ap, ◌∙◌, subst}
use mathlib.Core.Logic.{◌↔◌, ◌⊎◌, inl, inr}
use mathlib.Core.Bool.{Bool, true, false, ◌||◌}
use mathlib.Core.List.{List, [], ◌∷◌, ◌++◌, map}
use mathlib.Core.Option.{Option, none, some}
use native.Mathlib.Omega.{arith}
use mcp_library.Common.Lists.{All}
use mcp_library.Common.Result.{Result, ok, err, ◌>>=◌, returned_behind}
use mcp_library.Common.Tests.{if◌then◌else◌, Bool-cases}
pub mod Folds
pub mod Keys
pub mod Union

abbrev pub and_then {ℓ κ} : {A : Type ℓ} {B : Type κ} → Option A → (A → Option B) → Option B
and_then none f = none
and_then (some a) f = f a

-- The first answer, or the second where there is none.
abbrev pub or_first {ℓ} : {A : Type ℓ} → Option A → Option A → Option A
or_first (some a) o = some a
or_first none o = o

-- Both answer only with one value.
abbrev pub Agree {ℓ} : {S : Type ℓ} → Option S → Option S → Type ℓ
Agree {S} a b = (s s' : S) → a ≡ some s → b ≡ some s' → s ≡ s'

pub record KeyEq {ℓ} (K : Type ℓ) : Type ℓ where
  pub test : K → K → Bool
  pub test_iff : (a b : K) → (test a b ≡ true) ↔ (a ≡ b)

module _ {A K : Type 0} (key : A → K) (e : KeyEq K) where
  abbrev pub find_key : K → List A → Option A
  find_key k [] = none
  find_key k (x ∷ xs) = let rest = find_key k xs in if e.test (key x) k then some x else rest

  abbrev pub has_key : K → List A → Bool
  has_key k [] = false
  has_key k (x ∷ xs) = e.test (key x) k || has_key k xs

  abbrev pub Unique : List A → Type 0
  Unique [] = Unit
  Unique (x ∷ xs) = (has_key (key x) xs ≡ false) × Unique xs

  -- The answer to a question, from the record of a key.
  abbrev pub view_at : {S Q : Type 0} → (A → Q → Option S) → List A → K → Q → Option S
  view_at view xs k q = and_then (find_key k xs) (λ x. view x q)

  abbrev pub fold_in : {E : Type 0} → (A → A → Result E A) → A → List A → Result E (List A)
  fold_in combine new [] = ok (new ∷ [])
  fold_in combine new (x ∷ xs) =
      let merged = combine x new >>= λ m. ok (m ∷ xs) in
      let later = fold_in combine new xs >>= λ r. ok (x ∷ r) in
      if e.test (key x) (key new) then merged else later

  abbrev pub fold_all : {E : Type 0} → (A → A → Result E A) → List A → List A → Result E (List A)
  fold_all combine xs [] = ok xs
  fold_all combine xs (new ∷ news) = fold_in combine new xs >>= λ r. fold_all combine r news

pub find-absent :
    {A K : Type 0} (key : A → K) (e : KeyEq K) (k : K) (xs : List A)
    → has_key key e k xs ≡ false
    → find_key key e k xs ≡ none
find-absent key e k [] h = refl
find-absent key e k (x ∷ xs) h = ground (arith, find-absent key e k xs)

pub or_first-none : {A : Type 0} (o : Option A) → or_first o none ≡ o
or_first-none none = refl
or_first-none (some a) = refl

pub or_first_assoc :
    {A : Type 0} (a b c : Option A) → or_first (or_first a b) c ≡ or_first a (or_first b c)
or_first_assoc none b c = refl
or_first_assoc (some a) b c = refl

pub ok-injective : {E A : Type 0} (a b : A) → ◌≡◌ {A = Result E A} (ok a) (ok b) → a ≡ b
ok-injective a b h = cc

-- Tests of keys.
module _ {K : Type 0} (e : KeyEq K) where
  pub test_of_eq : (a b k : K) → a ≡ b → e.test a k ≡ e.test b k
  test_of_eq a b k h = ap (λ x. e.test x k) h

  pub test_apart : (a b k : K) → e.test a b ≡ false → e.test a k ≡ true → e.test b k ≡ false
  test_apart a b k h t = elim (Bool-cases (e.test b k)) [
    | inr n ↦ n
    | inl y ↦
        absurd (cc ((e.test_iff a b).1 ((e.test_iff a k).0 t ∙ sym ((e.test_iff b k).0 y)), h))
  ]

  pub test_apart_right : (a b k : K) → e.test a b ≡ false → e.test b k ≡ true → e.test a k ≡ false
  test_apart_right a b k h t = subst (λ k. e.test a k ≡ false) ((e.test_iff b k).0 t) h

  pub test_refl : (k : K) → e.test k k ≡ true
  test_refl k = (e.test_iff k k).1 refl

  pub test_same : (a b k : K) → e.test a b ≡ true → e.test a k ≡ e.test b k
  test_same a b k h = test_of_eq a b k ((e.test_iff a b).0 h)

module _ {A K S Q : Type 0} (key : A → K) (e : KeyEq K) (view : A → Q → Option S) where
  -- The answer of the record of a key, from one record.
  abbrev pub only : A → K → Q → Option S
  only new k q = if e.test (key new) k then view new q else none

  pub view_cons :
      (x : A) (xs : List A) (k : K) (q : Q)
      → view_at key e view (x ∷ xs) k q
        ≡ (if e.test (key x) k then view x q else view_at key e view xs k q)
  view_cons x xs k q = by_test (e.test (key x) k)
    where
      by_test :
          (b : Bool)
          → and_then (if b then some x else find_key key e k xs) (λ y. view y q)
            ≡ (if b then view x q else view_at key e view xs k q)
      by_test true = refl
      by_test false = refl

-- What folding one record into another owes, for the fold over lists to be a union of their views:
-- `Good` is what it asks of the new record.
module _ {A K S Q E : Type 0} (key : A → K) (e : KeyEq K) (Good : A → Type 0)
    (combine : A → A → Result E A) (view : A → Q → Option S) where
  pub record IsUnion : Type 0 where
    pub key_kept : (x y m : A) → combine x y ≡ ok m → key m ≡ key x
    pub union :
        (x y m : A)
        → Good y
        → combine x y ≡ ok m
        → (q : Q) → view m q ≡ or_first (view x q) (view y q)
    pub agree : (x y m : A) → Good y → combine x y ≡ ok m → (q : Q) → Agree (view x q) (view y q)
    pub succeeds :
        (x y : A)
        → Good y
        → ((q : Q) → Agree (view x q) (view y q))
        → (m : A) × (combine x y ≡ ok m)

  module _ (u : IsUnion) where
    pub fold_in_union :
        (new : A) (xs r : List A)
        → Good new
        → fold_in key e combine new xs ≡ ok r
        → (k : K) (q : Q)
        → view_at key e view r k q ≡ or_first (view_at key e view xs k q) (only key e view new k q)
    fold_in_union new [] r good h k q =
        subst (λ l. view_at key e view l k q ≡ only key e view new k q)
          (ok-injective (new ∷ []) r h) (view_cons key e view new [] k q)
    fold_in_union new (x ∷ xs) r good h k q = elim (Bool-cases (e.test (key x) (key new))) [
      | inl same ↦
          let (m, merged, e') = returned_behind (combine x new) (λ m. ok (m ∷ xs)) (rw same at h) in
          subst
            (λ l.
              view_at key e view l k q
              ≡ or_first (view_at key e view (x ∷ xs) k q) (only key e view new k q))
            (ok-injective (m ∷ xs) r e') (at_head new x m xs good same merged k q)
      | inr other ↦
          let (r', folded, e') =
            returned_behind (fold_in key e combine new xs) (λ r. ok (x ∷ r)) (rw other at h) in
          subst
            (λ l.
              view_at key e view l k q
              ≡ or_first (view_at key e view (x ∷ xs) k q) (only key e view new k q))
            (ok-injective (x ∷ r') r e')
            (in_tail new x xs r' other k q (fold_in_union new xs r' good folded k q))
    ]
      where
        at_head :
            (new x m : A) (xs : List A)
            → Good new
            → e.test (key x) (key new) ≡ true
            → combine x new ≡ ok m
            → (k : K) (q : Q)
            → view_at key e view (m ∷ xs) k q
              ≡ or_first (view_at key e view (x ∷ xs) k q) (only key e view new k q)
        at_head new x m xs good same merged k q =
            rw
              (
                view_cons key e view m xs k q,
                view_cons key e view x xs k q,
                u.key_kept x new m merged,
                sym (test_same e (key x) (key new) k same),
                u.union x new m good merged q,
              )
              (by_test (e.test (key x) k) (view x q) (view new q) (view_at key e view xs k q))
          where
            by_test :
                (b : Bool) (o o' rest : Option S)
                → (if b then or_first o o' else rest)
                  ≡ or_first (if b then o else rest) (if b then o' else none)
            by_test true o o' rest = refl
            by_test false o o' rest = sym (or_first-none rest)

        in_tail :
            (new x : A) (xs r' : List A)
            → e.test (key x) (key new) ≡ false
            → (k : K) (q : Q)
            → view_at key e view r' k q
              ≡ or_first (view_at key e view xs k q) (only key e view new k q)
            → view_at key e view (x ∷ r') k q
              ≡ or_first (view_at key e view (x ∷ xs) k q) (only key e view new k q)
        in_tail new x xs r' other k q ih =
            rw (view_cons key e view x r' k q, view_cons key e view x xs k q, ih)
              (by_test (e.test (key x) k) (e.test (key new) k) (view x q) (view new q)
                (view_at key e view xs k q) (test_apart e (key x) (key new) k other))
          where
            by_test :
                (b b' : Bool) (o o' rest : Option S)
                → (b ≡ true → b' ≡ false)
                → (if b then o else or_first rest (if b' then o' else none))
                  ≡ or_first (if b then o else rest) (if b' then o' else none)
            by_test true b' o o' rest h = rw (h refl) (sym (or_first-none o))
            by_test false b' o o' rest h = refl
