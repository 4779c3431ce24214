-- ===== src/Common/Keyed/Keys.antt =====
-- The keys of a list that records are folded into: no key is lost, only the new ones are added, and
-- a key that named one record names one record still.
use mathlib.Core.Path.{◌≡◌, refl, sym, ◌∙◌, subst}
use mathlib.Core.Bool.{Bool, true, false, ◌||◌}
use mathlib.Core.Logic.{inl, inr}
use mathlib.Core.List.{List, [], ◌∷◌}
use mcp_library.Common.Lists.{All}
use mcp_library.Common.Result.{Result, ok, returned_behind}
use mcp_library.Common.Tests.{Bool-cases}
use mcp_library.Common.Keyed.{KeyEq, Unique, fold_in, fold_all, has_key, test_same, ok-injective}

or-false_right : (b : Bool) → (b || false) ≡ b
or-false_right true = refl
or-false_right false = refl

or_same : (b b' c : Bool) → b' ≡ b → (b || c) ≡ ((b || c) || b')
or_same true b' c h = refl
or_same false b' c h = rw h (sym (or-false_right c))

or_assoc : (a b c : Bool) → (a || (b || c)) ≡ ((a || b) || c)
or_assoc true b c = refl
or_assoc false b c = refl

pub or_none : (a b : Bool) → a ≡ false → b ≡ false → (a || b) ≡ false
or_none a b h h' = rw (h, h') refl

pub test_sym_false : {K : Type 0} (e : KeyEq K) (a b : K) → e.test a b ≡ false → e.test b a ≡ false
test_sym_false e a b h = elim (Bool-cases (e.test b a)) [
  | inr n ↦ n
  | inl y ↦ absurd (cc ((e.test_iff a b).1 (sym ((e.test_iff b a).0 y)), h))
]

module _ {A K E : Type 0} (key : A → K) (e : KeyEq K) (combine : A → A → Result E A)
    (key_kept : (x y m : A) → combine x y ≡ ok m → key m ≡ key x) where
  pub has_key-fold_in :
      (new : A) (xs r : List A)
      → fold_in key e combine new xs ≡ ok r
      → (k : K) → has_key key e k r ≡ (has_key key e k xs || e.test (key new) k)
  has_key-fold_in new [] r h k =
      subst (λ l. has_key key e k l ≡ e.test (key new) k) (ok-injective (new ∷ []) r h)
        (or-false_right (e.test (key new) k))
  has_key-fold_in new (x ∷ xs) r h k = elim (Bool-cases (e.test (key x) (key new))) [
    | inl same ↦
        let (m, merged, e') = returned_behind (combine x new) (λ m. ok (m ∷ xs)) (rw same at h) in
        subst (λ l. has_key key e k l ≡ (has_key key e k (x ∷ xs) || e.test (key new) k))
          (ok-injective (m ∷ xs) r e')
          (rw (key_kept x new m merged) (
            or_same (e.test (key x) k) (e.test (key new) k) (has_key key e k xs)
              (sym (test_same e (key x) (key new) k same))))
    | inr other ↦
        let (r', folded, e') =
          returned_behind (fold_in key e combine new xs) (λ r. ok (x ∷ r)) (rw other at h) in
        subst (λ l. has_key key e k l ≡ (has_key key e k (x ∷ xs) || e.test (key new) k))
          (ok-injective (x ∷ r') r e')
          (rw (has_key-fold_in new xs r' folded k)
            (or_assoc (e.test (key x) k) (has_key key e k xs) (e.test (key new) k)))
  ]

  pub fold_in-Unique :
      (new : A) (xs r : List A)
      → fold_in key e combine new xs ≡ ok r
      → Unique key e xs
      → Unique key e r
  fold_in-Unique new [] r h uniq = subst (Unique key e) (ok-injective (new ∷ []) r h) (refl, tt)
  fold_in-Unique new (x ∷ xs) r h uniq = elim (Bool-cases (e.test (key x) (key new))) [
    | inl same ↦
        let (m, merged, e') = returned_behind (combine x new) (λ m. ok (m ∷ xs)) (rw same at h) in
        subst (Unique key e) (ok-injective (m ∷ xs) r e')
          (rw (key_kept x new m merged) (uniq.0), uniq.1)
    | inr other ↦
        let (r', folded, e') =
          returned_behind (fold_in key e combine new xs) (λ r. ok (x ∷ r)) (rw other at h) in
        subst (Unique key e) (ok-injective (x ∷ r') r e') (
          has_key-fold_in new xs r' folded (key x)
              ∙ or_none (has_key key e (key x) xs) (e.test (key new) (key x)) (uniq.0)
                  (test_sym_false e (key x) (key new) other),
          fold_in-Unique new xs r' folded (uniq.1),
        )
  ]

  pub fold_all-Unique :
      (xs news r : List A)
      → fold_all key e combine xs news ≡ ok r
      → Unique key e xs
      → Unique key e r
  fold_all-Unique xs [] r h uniq = subst (Unique key e) (ok-injective xs r h) uniq
  fold_all-Unique xs (new ∷ news) r h uniq =
      let (xs', folded, rest) =
        returned_behind (fold_in key e combine new xs) (λ l. fold_all key e combine l news) h in
      fold_all-Unique xs' news r rest (fold_in-Unique new xs xs' folded uniq)

-- What holds of every record, when combining two of them keeps it.
module _ {A K E : Type 0} (key : A → K) (e : KeyEq K) (combine : A → A → Result E A)
    (P : A → Type 0) (kept : (x y m : A) → P x → P y → combine x y ≡ ok m → P m) where
  pub fold_in-All :
      (new : A) (xs r : List A) → P new → All P xs → fold_in key e combine new xs ≡ ok r → All P r
  fold_in-All new [] r p ps h = subst (All P) (ok-injective (new ∷ []) r h) (p, tt)
  fold_in-All new (x ∷ xs) r p ps h = elim (Bool-cases (e.test (key x) (key new))) [
    | inl same ↦
        let (m, merged, e') = returned_behind (combine x new) (λ m. ok (m ∷ xs)) (rw same at h) in
        subst (All P) (ok-injective (m ∷ xs) r e') (kept x new m (ps.0) p merged, ps.1)
    | inr other ↦
        let (r', folded, e') =
          returned_behind (fold_in key e combine new xs) (λ r. ok (x ∷ r)) (rw other at h) in
        subst (All P) (ok-injective (x ∷ r') r e') (ps.0, fold_in-All new xs r' p (ps.1) folded)
  ]

  pub fold_all-All :
      (xs news r : List A) → All P xs → All P news → fold_all key e combine xs news ≡ ok r → All P r
  fold_all-All xs [] r ps qs h = subst (All P) (ok-injective xs r h) ps
  fold_all-All xs (new ∷ news) r ps qs h =
      let (xs', folded, rest) =
        returned_behind (fold_in key e combine new xs) (λ l. fold_all key e combine l news) h in
      fold_all-All xs' news r (fold_in-All new xs xs' (qs.0) ps folded) (qs.1) rest
