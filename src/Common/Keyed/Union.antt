-- ===== src/Common/Keyed/Union.antt =====
-- Folding one list of records into another: when it succeeds, and what the records of the result
-- answer.
use mathlib.Core.Path.{◌≡◌, refl}
use mathlib.Core.Bool.{Bool, true, false}
use mathlib.Core.Logic.{◌⊎◌, inl, inr}
use mathlib.Core.List.{List, [], ◌∷◌}
use mathlib.Core.Option.{Option, none}
use mcp_library.Common.Result.{Result, ok, returned_behind}
use mcp_library.Common.Tests.{if◌then◌else◌, Bool-cases}
use mcp_library.Common.Keyed.{
  KeyEq, IsUnion, Agree, only, view_at, view_cons, fold_in, test_same, test_apart, test_apart_right,
  test_refl,
}

pub Agree-none_right : {S : Type 0} (o : Option S) → Agree o none
Agree-none_right o s s' h h' = cc

if_both :
    {S : Type 0} (b : Bool) (o o' rest : Option S)
    → Agree o o'
    → Agree (if b then o else rest) (if b then o' else none)
if_both true o o' rest a = a
if_both false o o' rest a = Agree-none_right rest

if_either :
    {S : Type 0} (b b' : Bool) (o o' rest : Option S)
    → (b ≡ true → b' ≡ false)
    → Agree rest (if b' then o' else none)
    → Agree (if b then o else rest) (if b' then o' else none)
if_either true b' o o' rest apart a = rw (apart refl) (Agree-none_right o)
if_either false b' o o' rest apart a = a

module _ {A K S Q E : Type 0} (key : A → K) (e : KeyEq K) (Good : A → Type 0)
    (combine : A → A → Result E A) (view : A → Q → Option S)
    (u : IsUnion key e Good combine view) where
  pub fold_in_agrees :
      (new : A) (xs r : List A)
      → Good new
      → fold_in key e combine new xs ≡ ok r
      → (k : K) (q : Q) → Agree (view_at key e view xs k q) (only key e view new k q)
  fold_in_agrees new [] r good h k q = λ s s' h h'. cc
  fold_in_agrees new (x ∷ xs) r good h k q = elim (Bool-cases (e.test (key x) (key new))) [
    | inl same ↦
        let (m, merged, e') = returned_behind (combine x new) (λ m. ok (m ∷ xs)) (rw same at h) in
        at_head new x xs same (u.agree x new m good merged q)
    | inr other ↦
        let (r', folded, e') =
          returned_behind (fold_in key e combine new xs) (λ r. ok (x ∷ r)) (rw other at h) in
        in_tail new x xs other (fold_in_agrees new xs r' good folded k q)
  ]
    where
      at_head :
          (new x : A) (xs : List A)
          → e.test (key x) (key new) ≡ true
          → Agree (view x q) (view new q)
          → Agree (view_at key e view (x ∷ xs) k q) (only key e view new k q)
      at_head new x xs same a =
          rw (view_cons key e view x xs k q, test_same e (key x) (key new) k same)
            (if_both (e.test (key new) k) (view x q) (view new q) (view_at key e view xs k q) a)

      in_tail :
          (new x : A) (xs : List A)
          → e.test (key x) (key new) ≡ false
          → Agree (view_at key e view xs k q) (only key e view new k q)
          → Agree (view_at key e view (x ∷ xs) k q) (only key e view new k q)
      in_tail new x xs other a = rw (view_cons key e view x xs k q) (
          if_either (e.test (key x) k) (e.test (key new) k) (view x q) (view new q)
            (view_at key e view xs k q) (test_apart e (key x) (key new) k other) a)

  pub fold_in_succeeds :
      (new : A) (xs : List A)
      → Good new
      → ((k : K) (q : Q) → Agree (view_at key e view xs k q) (only key e view new k q))
      → (r : List A) × (fold_in key e combine new xs ≡ ok r)
  fold_in_succeeds new [] good a = (new ∷ [], refl)
  fold_in_succeeds new (x ∷ xs) good a = elim (Bool-cases (e.test (key x) (key new))) [
    | inl same ↦
        let merged = u.succeeds x new good (at_key same) in
        (merged.0 ∷ xs, rw (same, merged.1) refl)
    | inr other ↦
        let folded =
          fold_in_succeeds new xs good (λ k q. below other k q (Bool-cases (e.test (key new) k))) in
        (x ∷ folded.0, rw (other, folded.1) refl)
  ]
    where
      at_key : e.test (key x) (key new) ≡ true → (q : Q) → Agree (view x q) (view new q)
      at_key same q =
          rw (view_cons key e view x xs (key new) q, same, test_refl e (key new)) at (a (key new) q)

      below :
          e.test (key x) (key new) ≡ false
          → (k : K) (q : Q) → (e.test (key new) k ≡ true) ⊎ (e.test (key new) k ≡ false)
          → Agree (view_at key e view xs k q) (only key e view new k q)
      below other k q (inl y) =
          rw (view_cons key e view x xs k q, test_apart_right e (key x) (key new) k other y) at
            (a k q)
      below other k q (inr n) = rw n (Agree-none_right (view_at key e view xs k q))
