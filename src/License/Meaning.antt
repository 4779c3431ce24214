-- ===== src/License/Meaning.antt =====
-- What the class of an expression says of its licences.
use mcp_library.Common.{ℕ, ◌≤◌, ◌⊎◌, ◌↔◌, inl, inr, arith}
use mcp_library.License.{LicenseClass, license_rank, best_of, worst_of}
use mcp_library.License.Grammar.{
  OrExpr, or_expr, OrTail, or_end, or_more, AndExpr, and_expr, AndTail, and_end, and_more, Term,
  group, license, license_with, or_class, OrSome, OrTailSome, AndEvery, AndTailEvery, TermGood,
  or_tail_class, and_class, and_tail_class, term_class,
}

-- At most as restrictive as the class of rank `k`.
abbrev pub RankLe : ℕ → LicenseClass → Type 0
RankLe k c = license_rank c ≤ k

best_of_split : (k : ℕ) (b c : LicenseClass) → RankLe k (best_of b c) ↔ (RankLe k b ⊎ RankLe k c)
best_of_split k b c = (λ h. ground arith, λ h. ground arith)

worst_of_split : (k : ℕ) (b c : LicenseClass) → RankLe k (worst_of b c) ↔ (RankLe k b × RankLe k c)
worst_of_split k b c = (λ h. ground arith, λ h. ground arith)

abbrev one_of_three : {A B C : Type 0} → (A ⊎ B) ⊎ C → A ⊎ (B ⊎ C)
one_of_three (inl (inl a)) = inl a
one_of_three (inl (inr b)) = inr (inl b)
one_of_three (inr c) = inr (inr c)

abbrev regroup : {A B C : Type 0} → A ⊎ (B ⊎ C) → (A ⊎ B) ⊎ C
regroup (inl a) = inl (inl a)
regroup (inr (inl b)) = inl (inr b)
regroup (inr (inr c)) = inr c

abbrev either : {A B C D : Type 0} → (A → C) → (B → D) → A ⊎ B → C ⊎ D
either f g (inl a) = inl (f a)
either f g (inr b) = inr (g b)

module _ (k : ℕ) where
  mutual
    unfolding OrSome or_class

    pub or_class_meaning : (e : OrExpr) → RankLe k (or_class e) ↔ OrSome (RankLe k) e
    or_class_meaning (or_expr a t) = (
      λ h. either (and_class_meaning a).0 (λ s. s) ((or_tail_meaning (and_class a) t).0 h),
      λ h. (or_tail_meaning (and_class a) t).1 (either (and_class_meaning a).1 (λ s. s) h),
    )

    or_tail_meaning :
        (b : LicenseClass) (t : OrTail)
        → RankLe k (or_tail_class b t) ↔ (RankLe k b ⊎ OrTailSome (RankLe k) t)
    or_tail_meaning b or_end = (λ h. inl h, λ h. elim h [ inl x ↦ x | inr x ↦ absurd x ])
    or_tail_meaning b (or_more a t) = (
      λ h.
          either (λ x. x) (either (and_class_meaning a).0 (λ s. s))
            (one_of_three (
              either (best_of_split k b (and_class a)).0 (λ s. s)
                ((or_tail_meaning (best_of b (and_class a)) t).0 h))),
      λ h. (or_tail_meaning (best_of b (and_class a)) t).1 (
          either (best_of_split k b (and_class a)).1 (λ s. s)
            (regroup (either (λ x. x) (either (and_class_meaning a).1 (λ s. s)) h))),
    )

    and_class_meaning : (e : AndExpr) → RankLe k (and_class e) ↔ AndEvery (RankLe k) e
    and_class_meaning (and_expr f t) = (
      λ h.
          let (now, later) = (and_tail_meaning (term_class f) t).0 h in
          ((term_class_meaning f).0 now, later),
      λ h. (and_tail_meaning (term_class f) t).1 ((term_class_meaning f).1 h.0, h.1),
    )

    and_tail_meaning :
        (b : LicenseClass) (t : AndTail)
        → RankLe k (and_tail_class b t) ↔ (RankLe k b × AndTailEvery (RankLe k) t)
    and_tail_meaning b and_end = (λ h. (h, tt), λ h. h.0)
    and_tail_meaning b (and_more f t) = (
      λ h.
          let (both, later) = (and_tail_meaning (worst_of b (term_class f)) t).0 h in
          let (before, now) = (worst_of_split k b (term_class f)).0 both in
          (before, ((term_class_meaning f).0 now, later)),
      λ h.
          (and_tail_meaning (worst_of b (term_class f)) t).1
            ((worst_of_split k b (term_class f)).1 (h.0, (term_class_meaning f).1 h.1.0), h.1.1),
    )

    term_class_meaning : (t : Term) → RankLe k (term_class t) ↔ TermGood (RankLe k) t
    term_class_meaning (group e) = or_class_meaning e
    term_class_meaning (license id) = (λ h. h, λ h. h)
    term_class_meaning (license_with id exception) = (λ h. h, λ h. h)
