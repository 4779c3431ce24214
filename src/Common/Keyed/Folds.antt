-- ===== src/Common/Keyed/Folds.antt =====
-- Folding every record of a list into another list: the result answers what either list answers,
-- and the fold succeeds exactly when the two never disagree.
use mathlib.Core.Path.{◌≡◌, refl, sym, subst}
use mathlib.Core.Bool.{true, false}
use mathlib.Core.Logic.{inl, inr}
use mathlib.Core.List.{List, [], ◌∷◌}
use mathlib.Core.Option.{Option, none}
use mcp_library.Common.Lists.{All}
use mcp_library.Common.Result.{Result, ok, returned_behind}
use mcp_library.Common.Tests.{Bool-cases}
use mcp_library.Common.Keyed.{
  KeyEq, IsUnion, Agree, Unique, only, view_at, view_cons, fold_in, fold_all, fold_in_union,
  has_key, or_first, or_first-none, or_first_assoc, find-absent, ok-injective,
}
use mcp_library.Common.Keyed.Union.{fold_in_agrees, fold_in_succeeds, Agree-none_right}

pub view-absent :
    {A K S Q : Type 0} (key : A → K) (e : KeyEq K) (view : A → Q → Option S) (xs : List A) (k : K)
    (q : Q)
    → has_key key e k xs ≡ false
    → view_at key e view xs k q ≡ none
view-absent key e view xs k q h = rw (find-absent key e k xs h) refl

pub has_key-same :
    {A K : Type 0} (key : A → K) (e : KeyEq K) (xs : List A) (k k' : K)
    → e.test k k' ≡ true
    → has_key key e k xs ≡ false
    → has_key key e k' xs ≡ false
has_key-same key e xs k k' same h =
    subst (λ k. has_key key e k xs ≡ false) ((e.test_iff k k').0 same) h

-- The head of the new records and the rest of them never both answer for one key.
view-split :
    {A K S Q : Type 0} (key : A → K) (e : KeyEq K) (view : A → Q → Option S) (new : A)
    (news : List A) (k : K) (q : Q)
    → has_key key e (key new) news ≡ false
    → view_at key e view (new ∷ news) k q
      ≡ or_first (only key e view new k q) (view_at key e view news k q)
view-split key e view new news k q h = elim (Bool-cases (e.test (key new) k)) [
  | inl same ↦
      rw
        (
          view_cons key e view new news k q,
          same,
          view-absent key e view news k q (has_key-same key e news (key new) k same h),
        )
        (sym (or_first-none (view new q)))
  | inr other ↦ rw (view_cons key e view new news k q, other) refl
]

module _ {A K S Q E : Type 0} (key : A → K) (e : KeyEq K) (Good : A → Type 0)
    (combine : A → A → Result E A) (view : A → Q → Option S)
    (u : IsUnion key e Good combine view) where
  pub fold_all_union :
      (xs news r : List A)
      → Unique key e news
      → All Good news
      → fold_all key e combine xs news ≡ ok r
      → (k : K) (q : Q)
      → view_at key e view r k q
        ≡ or_first (view_at key e view xs k q) (view_at key e view news k q)
  fold_all_union xs [] r uniq good h k q =
      subst (λ l. view_at key e view l k q ≡ or_first (view_at key e view xs k q) none)
        (ok-injective xs r h) (sym (or_first-none (view_at key e view xs k q)))
  fold_all_union xs (new ∷ news) r uniq good h k q =
      let (xs', folded, rest) =
        returned_behind (fold_in key e combine new xs) (λ l. fold_all key e combine l news) h in
      rw
        (
          fold_all_union xs' news r uniq.1 good.1 rest k q,
          fold_in_union key e Good combine view u new xs xs' good.0 folded k q,
          view-split key e view new news k q uniq.0,
        )
        (or_first_assoc (view_at key e view xs k q) (only key e view new k q)
          (view_at key e view news k q))

  pub fold_all_agrees :
      (xs news r : List A)
      → Unique key e news
      → All Good news
      → fold_all key e combine xs news ≡ ok r
      → (k : K) (q : Q) → Agree (view_at key e view xs k q) (view_at key e view news k q)
  fold_all_agrees xs [] r uniq good h k q = Agree-none_right (view_at key e view xs k q)
  fold_all_agrees xs (new ∷ news) r uniq good h k q =
      let (xs', folded, rest) =
        returned_behind (fold_in key e combine new xs) (λ l. fold_all key e combine l news) h in
      elim (Bool-cases (e.test (key new) k)) [
        | inl same ↦
            rw (view_cons key e view new news k q, same)
              (rw same at (fold_in_agrees key e Good combine view u new xs xs' good.0 folded k q))
        | inr other ↦
            rw (view_cons key e view new news k q, other)
              (subst (λ o. Agree o (view_at key e view news k q))
                (rw (fold_in_union key e Good combine view u new xs xs' good.0 folded k q, other)
                  (or_first-none (view_at key e view xs k q)))
                (fold_all_agrees xs' news r uniq.1 good.1 rest k q))
      ]

  pub fold_all_succeeds :
      (xs news : List A)
      → Unique key e news
      → All Good news
      → ((k : K) (q : Q) → Agree (view_at key e view xs k q) (view_at key e view news k q))
      → (r : List A) × (fold_all key e combine xs news ≡ ok r)
  fold_all_succeeds xs [] uniq good a = (xs, refl)
  fold_all_succeeds xs (new ∷ news) uniq good a =
      let folded = fold_in_succeeds key e Good combine view u new xs good.0 at_new in
      let rest = fold_all_succeeds folded.0 news uniq.1 good.1 (after folded.0 folded.1) in
      (rest.0, rw (folded.1) (rest.1))
    where
      at_new : (k : K) (q : Q) → Agree (view_at key e view xs k q) (only key e view new k q)
      at_new k q = elim (Bool-cases (e.test (key new) k)) [
        | inl same ↦ rw same (rw (view_cons key e view new news k q, same) at (a k q))
        | inr other ↦ rw other (Agree-none_right (view_at key e view xs k q))
      ]

      after :
          (xs' : List A)
          → fold_in key e combine new xs ≡ ok xs'
          → (k : K) (q : Q) → Agree (view_at key e view xs' k q) (view_at key e view news k q)
      after xs' folded k q = elim (Bool-cases (e.test (key new) k)) [
        | inl same ↦
            rw (view-absent key e view news k q (has_key-same key e news (key new) k same uniq.0))
              (Agree-none_right (view_at key e view xs' k q))
        | inr other ↦
            rw
              (
                fold_in_union key e Good combine view u new xs xs' good.0 folded k q,
                other,
                or_first-none (view_at key e view xs k q),
              )
              (rw (view_cons key e view new news k q, other) at (a k q))
      ]
