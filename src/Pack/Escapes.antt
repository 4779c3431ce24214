-- ===== src/Pack/Escapes.antt =====
-- The four string tests for ".." in internal/pack/refuse.go find every ".." segment.
use mathlib.Core.List.{reverse, reverse-append, reverse-reverse}
use mcp_library.Common.{
  ◌≡◌, ◌↔◌, ◌⊎◌, refl, sym, ap, ◌∙◌, subst, Bool, true, false, ◌||◌, List, [], ◌∷◌, ◌++◌, arith,
  Bool-cases, inl, inr,
}
use mcp_library.Common.Lists.{Any, Any-append_left, Any-append_right}
use mcp_library.Common.Split.{join-split, split-append}
use mcp_library.Common.Text.{
  Text, codes, text_eq, text_eq→eq, text_eq_refl, has_prefix, has_suffix, contains, split, join,
}
use mcp_library.Pack.{escapes}
use mcp_library.Paths.{slash, dot_dot}

prefix-append : (p s t : Text) → has_prefix p s ≡ true → has_prefix p (s ++ t) ≡ true
unfolding has_prefix
prefix-append [] s t h = refl
prefix-append (c ∷ p) [] t h = cc
prefix-append (c ∷ p) (d ∷ s) t h = ground (arith, prefix-append p s t)

prefix_self : (p t : Text) → has_prefix p (p ++ t) ≡ true
unfolding has_prefix
prefix_self [] t = refl
prefix_self (c ∷ p) t = ground (arith, prefix_self p t)

prefix_inv : (p s : Text) → has_prefix p s ≡ true → (t : Text) × (s ≡ p ++ t)
unfolding has_prefix
prefix_inv [] s h = (s, refl)
prefix_inv (c ∷ p) [] h = absurd (cc)
prefix_inv (c ∷ p) (d ∷ s) h = let (t, e) = prefix_inv p s (ground arith) in (t, ground arith)

contains-append : (p a s : Text) → contains p s ≡ true → contains p (a ++ s) ≡ true
unfolding contains
contains-append p [] s h = h
contains-append p (c ∷ a) s h = ground (arith, contains-append p a s)

contains_of_prefix : (p s : Text) → has_prefix p s ≡ true → contains p s ≡ true
unfolding contains
contains_of_prefix p [] h = h
contains_of_prefix p (c ∷ s) h = ground arith

contains_inv : (p s : Text) → contains p s ≡ true → (a : Text) × (t : Text) × (s ≡ a ++ (p ++ t))
unfolding contains
contains_inv p [] h = let (t, e) = prefix_inv p [] h in ([], t, e)
contains_inv p (c ∷ s) h = elim (Bool-cases (has_prefix p (c ∷ s))) [
  | inl here ↦ let (t, e) = prefix_inv p (c ∷ s) here in ([], t, e)
  | inr later ↦ let (a, t, e) = contains_inv p s (ground arith) in (c ∷ a, t, ap (λ l. c ∷ l) e)
]

suffix-append : (p a s : Text) → has_suffix p s ≡ true → has_suffix p (a ++ s) ≡ true
unfolding has_suffix
suffix-append p a s h = rw reverse-append (prefix-append (reverse p) (reverse s) (reverse a) h)

suffix_self : (p a : Text) → has_suffix p (a ++ p) ≡ true
unfolding has_suffix
suffix_self p a = rw reverse-append (prefix_self (reverse p) (reverse a))

suffix_inv : (p s : Text) → has_suffix p s ≡ true → (a : Text) × (s ≡ a ++ p)
unfolding has_suffix
suffix_inv p s h =
    let (t, e) = prefix_inv (reverse p) (reverse s) h in
    (reverse t, sym (reverse-reverse s) ∙ ap reverse e ∙ rw (reverse-append, reverse-reverse) refl)

four_cases :
    (a b c d : Bool)
    → (a || b || c || d) ≡ true
    → (a ≡ true) ⊎ ((b ≡ true) ⊎ ((c ≡ true) ⊎ (d ≡ true)))
four_cases true b c d h = inl refl
four_cases false true c d h = inr (inl refl)
four_cases false false true d h = inr (inr (inl refl))
four_cases false false false d h = inr (inr (inr h))

four_intro :
    (a b c d : Bool)
    → (a ≡ true) ⊎ ((b ≡ true) ⊎ ((c ≡ true) ⊎ (d ≡ true)))
    → (a || b || c || d) ≡ true
four_intro a b c d h = ground arith

-- The four tests, taken apart and put together.
abbrev Passes : Text → Type 0
Passes s =
    (text_eq s (codes "..") ≡ true)
    ⊎ ((has_prefix (codes "../") s ≡ true)
        ⊎ ((contains (codes "/../") s ≡ true) ⊎ (has_suffix (codes "/..") s ≡ true)))

Passes-behind : (p s : Text) → Passes s → Passes (p ++ slash ∷ s)
Passes-behind p s (inl e) = inr (
    inr (
      inr (
        subst (λ t. has_suffix (codes "/..") (p ++ slash ∷ t) ≡ true) (sym (text_eq→eq s dot_dot e))
          (suffix_self (codes "/..") p))))
Passes-behind p s (inr (inl e)) = inr (
    inr (
      inl (
        contains-append (codes "/../") p (slash ∷ s)
          (contains_of_prefix (codes "/../") (slash ∷ s) (unfold has_prefix in e)))))
Passes-behind p s (inr (inr (inl e))) = inr (
    inr (
      inl (
        contains-append (codes "/../") p (slash ∷ s)
          (contains-append (codes "/../") (slash ∷ []) s e))))
Passes-behind p s (inr (inr (inr e))) = inr (
    inr (
      inr
        (suffix-append (codes "/..") p (slash ∷ s) (suffix-append (codes "/..") (slash ∷ []) s e))))

Passes-of_segment : (segs : List Text) → Any (λ x. x ≡ dot_dot) segs → Passes (join slash segs)
unfolding join
Passes-of_segment [] h = absurd h
Passes-of_segment (p ∷ []) (inl e) = inl (rw e (text_eq_refl dot_dot))
Passes-of_segment (p ∷ []) (inr h) = absurd h
Passes-of_segment (p ∷ q ∷ segs) (inl e) = inr (
    inl (
      subst (λ t. has_prefix (codes "../") (t ++ slash ∷ join slash (q ∷ segs)) ≡ true) (sym e)
        (prefix_self (codes "../") (join slash (q ∷ segs)))))
Passes-of_segment (p ∷ q ∷ segs) (inr h) =
    Passes-behind p (join slash (q ∷ segs)) (Passes-of_segment (q ∷ segs) h)

-- A ".." between two slashes, or at an end, is a segment.
segment_between :
    (a b : Text) → Any (λ x. x ≡ dot_dot) (split slash (a ++ slash ∷ (dot_dot ++ slash ∷ b)))
segment_between a b =
    rw (split-append slash a (dot_dot ++ slash ∷ b), split-append slash dot_dot b)
      (Any-append_right (λ x. x ≡ dot_dot) (split slash a) (split slash dot_dot ++ split slash b)
        (Any-append_left (λ x. x ≡ dot_dot) (split slash dot_dot) (split slash b)
          (unfold split in inl refl)))

segment_of_Passes : (s : Text) → Passes s → Any (λ x. x ≡ dot_dot) (split slash s)
segment_of_Passes s (inl e) =
    subst (λ t. Any (λ x. x ≡ dot_dot) (split slash t)) (sym (text_eq→eq s dot_dot e))
      (unfold split in inl refl)
segment_of_Passes s (inr (inl e)) =
    let (t, eq) = prefix_inv (codes "../") s e in
    rw (eq, split-append slash dot_dot t) (unfold split in inl refl)
segment_of_Passes s (inr (inr (inl e))) =
    let (a, t, eq) = contains_inv (codes "/../") s e in rw eq (segment_between a t)
segment_of_Passes s (inr (inr (inr e))) =
    let (a, eq) = suffix_inv (codes "/..") s e in
    rw (eq, split-append slash a dot_dot)
      (Any-append_right (λ x. x ≡ dot_dot) (split slash a) (split slash dot_dot)
        (unfold split in inl refl))

-- The four tests of Refuse for a path that escapes pass exactly when some segment of the path
-- between slashes is "..".
pub escapes_iff : (rel : Text) → (escapes rel ≡ true) ↔ Any (λ x. x ≡ dot_dot) (split slash rel)
escapes_iff rel = (
  λ h. segment_of_Passes rel (four_cases _ _ _ _ h),
  λ h.
      four_intro _ _ _ _
        (subst Passes (join-split slash rel) (Passes-of_segment (split slash rel) h)),
)
