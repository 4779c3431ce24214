-- ===== src/Common/Order.antt =====
-- Comparisons that answer -1, 0 or 1 (`Ordering.lt`, `eq`, `gt`), and the laws of a total preorder,
-- which lexicographic composition keeps.
use Prim.Native.Nat.{compare, Ordering}
use mathlib.Core.Path.{◌≡◌, refl}
use mathlib.Core.List.{List, [], ◌∷◌}
use native.Mathlib.Omega.{arith}

-- The answer with the sides exchanged.
abbrev pub flip : Ordering → Ordering
flip Ordering.lt = Ordering.gt
flip Ordering.eq = Ordering.eq
flip Ordering.gt = Ordering.lt

-- `if c := first; c != 0 { return c }; return second`
abbrev pub or_else : Ordering → Ordering → Ordering
or_else Ordering.eq y = y
or_else x _ = x

-- What the answers for (a, b) and (b, c) say of the answer for (a, c) in a total preorder.
abbrev pub Composes : Ordering → Ordering → Ordering → Type 0
Composes Ordering.eq y z = z ≡ y
Composes x Ordering.eq z = z ≡ x
Composes Ordering.lt Ordering.lt z = z ≡ Ordering.lt
Composes Ordering.gt Ordering.gt z = z ≡ Ordering.gt
Composes _ _ _ = Unit

pub record IsPreorder {ℓ} {A : Type ℓ} (cmp : A → A → Ordering) : Type ℓ where
  pub reflexive : (a : A) → cmp a a ≡ Ordering.eq
  pub exchange : (a b : A) → cmp b a ≡ flip (cmp a b)
  pub compose : (a b c : A) → Composes (cmp a b) (cmp b c) (cmp a c)

pub flip-or_else : (x y : Ordering) → or_else (flip x) (flip y) ≡ flip (or_else x y)
flip-or_else Ordering.lt y = refl
flip-or_else _ y = refl

pub Composes-or_else :
    (x y z x' y' z' : Ordering)
    → Composes x y z
    → Composes x' y' z'
    → Composes (or_else x x') (or_else y y') (or_else z z')
Composes-or_else Ordering.lt y z x' y' z' h k = ground arith
Composes-or_else Ordering.eq y z x' y' z' h k = ground arith
Composes-or_else Ordering.gt y z x' y' z' h k = ground arith

pub compare-IsPreorder : IsPreorder compare
compare-IsPreorder = record {
  reflexive = λ a. ground arith;
  exchange = λ a b. ground arith;
  compose = λ a b c. ground arith;
}

module _ {ℓ} {A : Type ℓ} (cmp : A → A → Ordering) where
  -- Element by element, a list before its proper extensions.
  abbrev pub lex : List A → List A → Ordering
  lex [] [] = Ordering.eq
  lex [] (y ∷ ys) = Ordering.lt
  lex (x ∷ xs) [] = Ordering.gt
  lex (x ∷ xs) (y ∷ ys) = or_else (cmp x y) (lex xs ys)

  lex_compose : IsPreorder cmp → (xs ys zs : List A) → Composes (lex xs ys) (lex ys zs) (lex xs zs)
  lex_compose o [] [] [] = refl
  lex_compose o [] [] (z ∷ zs) = refl
  lex_compose o [] (y ∷ ys) [] = tt
  lex_compose o [] (y ∷ ys) (z ∷ zs) = below (or_else (cmp y z) (lex ys zs))
    where
      below : (c : Ordering) → Composes Ordering.lt c Ordering.lt
      below Ordering.lt = refl
      below Ordering.eq = refl
      below Ordering.gt = tt
  lex_compose o (x ∷ xs) [] [] = refl
  lex_compose o (x ∷ xs) [] (z ∷ zs) = tt
  lex_compose o (x ∷ xs) (y ∷ ys) [] = above (or_else (cmp x y) (lex xs ys))
    where
      above : (c : Ordering) → Composes c Ordering.gt Ordering.gt
      above Ordering.lt = tt
      above Ordering.eq = refl
      above Ordering.gt = refl
  lex_compose o (x ∷ xs) (y ∷ ys) (z ∷ zs) =
      Composes-or_else _ _ _ _ _ _ (o.compose x y z) (lex_compose o xs ys zs)

  lex_reflexive : IsPreorder cmp → (xs : List A) → lex xs xs ≡ Ordering.eq
  lex_reflexive o [] = refl
  lex_reflexive o (x ∷ xs) = rw (o.reflexive x) (lex_reflexive o xs)

  lex_exchange : IsPreorder cmp → (xs ys : List A) → lex ys xs ≡ flip (lex xs ys)
  lex_exchange o [] [] = refl
  lex_exchange o [] (y ∷ ys) = refl
  lex_exchange o (x ∷ xs) [] = refl
  lex_exchange o (x ∷ xs) (y ∷ ys) =
      rw (o.exchange x y, lex_exchange o xs ys) (flip-or_else (cmp x y) (lex xs ys))

  pub lex-IsPreorder : IsPreorder cmp → IsPreorder lex
  lex-IsPreorder o = record {
    reflexive = lex_reflexive o;
    exchange = lex_exchange o;
    compose = lex_compose o;
  }

-- Comparing by one view of the values.
pub on-IsPreorder {ℓ κ} :
    {A : Type ℓ} {B : Type κ} (f : A → B) {cmp : B → B → Ordering}
    → IsPreorder cmp
    → IsPreorder (λ (a b : A). cmp (f a) (f b))
on-IsPreorder f o = record {
  reflexive = λ a. o.reflexive (f a);
  exchange = λ a b. o.exchange (f a) (f b);
  compose = λ a b c. o.compose (f a) (f b) (f c);
}

-- Comparing by one order, and by another where the first is a tie.
pub or_else-IsPreorder {ℓ} :
    {A : Type ℓ} {first second : A → A → Ordering}
    → IsPreorder first
    → IsPreorder second
    → IsPreorder (λ a b. or_else (first a b) (second a b))
or_else-IsPreorder {first} {second} o p = record {
  reflexive = λ a. rw (o.reflexive a) (p.reflexive a);
  exchange = λ a b. rw (o.exchange a b, p.exchange a b) (flip-or_else (first a b) (second a b));
  compose = λ a b c. Composes-or_else _ _ _ _ _ _ (o.compose a b c) (p.compose a b c);
}
