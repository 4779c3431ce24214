-- ===== src/Osv/Collected.antt =====
-- The fixes of a whole record: those of the ranges that apply, each once.
use mcp_library.Common.{
  ◌≡◌, refl, ◌∙◌, subst, ◌⊎◌, ◌↔◌, inl, inr, Bool, true, false, ◌||◌, List, [], ◌∷◌, ◌++◌, Any,
  arith,
}
use mcp_library.Audit.{Dep}
use mcp_library.Common.Tests.{Bool-cases, on_if}
use mcp_library.Common.Text.{Text, codes, text_eq, text_eq→eq, text_eq_refl, text_eq_sym, mem}
use mcp_library.Osv.{
  OsvRange, OsvAffected, range_fixes, add, add_all, add_ranges, add_affected, other_package,
  fixed_versions,
}

abbrev pub In : Text → List Text → Type 0
In v xs = Any (λ x. x ≡ v) xs

mem_iff : (v : Text) (xs : List Text) → (mem v xs ≡ true) ↔ In v xs
unfolding mem
mem_iff v [] = (λ h. absurd (cc h), λ h. absurd h)
mem_iff v (x ∷ xs) = elim (Bool-cases (text_eq x v)) [
  | inl same ↦ (λ h. inl (text_eq→eq x v same), λ h. rw same refl)
  | inr other ↦
      (λ h. inr ((mem_iff v xs).0 (rw other at h)), λ h. rw other (back other (mem_iff v xs).1 h))
]
  where
    back : text_eq x v ≡ false → (In v xs → mem v xs ≡ true) → In v (x ∷ xs) → mem v xs ≡ true
    back other ih (inl e) = absurd (cc (other, subst (λ w. text_eq x w ≡ true) e (text_eq_refl x)))
    back other ih (inr l) = ih l

In-snoc : (v u : Text) (xs : List Text) → In v (xs ++ u ∷ []) ↔ (In v xs ⊎ (u ≡ v))
In-snoc v u [] = (
  λ h. elim h [ inl e ↦ inr e | inr n ↦ absurd n ],
  λ h. elim h [ inl n ↦ absurd n | inr e ↦ inl e ],
)
In-snoc v u (x ∷ xs) = (
  λ h. elim h [
    | inl e ↦ inl (inl e)
    | inr l ↦ elim ((In-snoc v u xs).0 l) [ inl a ↦ inl (inr a) | inr b ↦ inr b ]
  ],
  λ h. elim h [
    | inl (inl e) ↦ inl e
    | inl (inr a) ↦ inr ((In-snoc v u xs).1 (inl a))
    | inr b ↦ inr ((In-snoc v u xs).1 (inr b))
  ],
)

In-add : (v u : Text) (xs : List Text) → In v (add xs u) ↔ (In v xs ⊎ (u ≡ v))
In-add v u xs = elim (Bool-cases (mem u xs)) [
  | inl known ↦ rw known (
    λ h. inl h,
    λ h. elim h [ inl a ↦ a | inr e ↦ subst (λ w. In w xs) e ((mem_iff u xs).0 known) ],
  )
  | inr new ↦ rw new (In-snoc v u xs)
]

-- Adding more is being in what was there or in what is added.
In-add_all : (v : Text) (xs us : List Text) → In v (add_all xs us) ↔ (In v xs ⊎ In v us)
unfolding add_all
In-add_all v xs [] = (λ h. inl h, λ h. elim h [ inl a ↦ a | inr n ↦ absurd n ])
In-add_all v xs (u ∷ us) = (
  λ h. elim ((In-add_all v (add xs u) us).0 h) [
    | inr l ↦ inr (inr l)
    | inl a ↦ elim ((In-add v u xs).0 a) [ inl b ↦ inl b | inr e ↦ inr (inl e) ]
  ],
  λ h. (In-add_all v (add xs u) us).1 (shift h),
)
  where
    shift : In v xs ⊎ In v (u ∷ us) → In v (add xs u) ⊎ In v us
    shift (inl a) = inl ((In-add v u xs).1 (inl a))
    shift (inr (inl e)) = inl ((In-add v u xs).1 (inr e))
    shift (inr (inr l)) = inr l

module _ (dep : Dep) (v : Text) where
  -- A range that counts fixes it in `v`.
  abbrev pub FixedBy : OsvRange → Type 0
  FixedBy rng =
      (text_eq rng.type (codes "GIT") ≡ false)
      × In v (range_fixes dep.ecosystem dep.version rng.events)

  abbrev pub FixedFor : OsvAffected → Type 0
  FixedFor aff = (other_package dep aff ≡ false) × Any FixedBy aff.ranges

  In-add_ranges :
      (xs : List Text) (rngs : List OsvRange)
      → In v (add_ranges dep xs rngs) ↔ (In v xs ⊎ Any FixedBy rngs)
  unfolding add_ranges
  In-add_ranges xs [] = (λ h. inl h, λ h. elim h [ inl a ↦ a | inr n ↦ absurd n ])
  In-add_ranges xs (rng ∷ rngs) = elim (Bool-cases (text_eq rng.type (codes "GIT"))) [
    | inl git ↦ (
      λ h. past ((In-add_ranges xs rngs).0 (rw (git, add_ranges) at h)),
      λ h. rw (git, add_ranges) ((In-add_ranges xs rngs).1 (skipped git h)),
    )
    | inr counted ↦ (
      λ h. found counted (
          (In-add_ranges (add_all xs (range_fixes dep.ecosystem dep.version rng.events)) rngs).0
            (rw (counted, add_ranges) at h)),
      λ h.
          rw (counted, add_ranges)
            ((In-add_ranges (add_all xs (range_fixes dep.ecosystem dep.version rng.events)) rngs).1
              (kept h)),
    )
  ]
    where
      past : In v xs ⊎ Any FixedBy rngs → In v xs ⊎ Any FixedBy (rng ∷ rngs)
      past (inl a) = inl a
      past (inr l) = inr (inr l)

      skipped :
          text_eq rng.type (codes "GIT") ≡ true
          → In v xs ⊎ Any FixedBy (rng ∷ rngs)
          → In v xs ⊎ Any FixedBy rngs
      skipped git (inl a) = inl a
      skipped git (inr (inl (counted, l))) = absurd (cc (git, counted))
      skipped git (inr (inr l)) = inr l

      found :
          text_eq rng.type (codes "GIT") ≡ false
          → In v (add_all xs (range_fixes dep.ecosystem dep.version rng.events)) ⊎ Any FixedBy rngs
          → In v xs ⊎ Any FixedBy (rng ∷ rngs)
      found counted (inr l) = inr (inr l)
      found counted (inl a) =
          elim ((In-add_all v xs (range_fixes dep.ecosystem dep.version rng.events)).0 a) [
            | inl b ↦ inl b
            | inr l ↦ inr (inl (counted, l))
          ]

      kept :
          In v xs ⊎ Any FixedBy (rng ∷ rngs)
          → In v (add_all xs (range_fixes dep.ecosystem dep.version rng.events)) ⊎ Any FixedBy rngs
      kept (inl a) =
          inl ((In-add_all v xs (range_fixes dep.ecosystem dep.version rng.events)).1 (inl a))
      kept (inr (inl (counted, l))) =
          inl ((In-add_all v xs (range_fixes dep.ecosystem dep.version rng.events)).1 (inr l))
      kept (inr (inr l)) = inr l

  In-add_affected :
      (xs : List Text) (affs : List OsvAffected)
      → In v (add_affected dep xs affs) ↔ (In v xs ⊎ Any FixedFor affs)
  unfolding add_affected
  In-add_affected xs [] = (λ h. inl h, λ h. elim h [ inl a ↦ a | inr n ↦ absurd n ])
  In-add_affected xs (aff ∷ affs) = elim (Bool-cases (other_package dep aff)) [
    | inl other ↦ (
      λ h. past ((In-add_affected xs affs).0 (rw (other, add_affected) at h)),
      λ h. rw (other, add_affected) ((In-add_affected xs affs).1 (skipped other h)),
    )
    | inr ours ↦ (
      λ h.
          found ours (
            (In-add_affected (add_ranges dep xs aff.ranges) affs).0 (rw (ours, add_affected) at h)),
      λ h.
          rw (ours, add_affected)
            ((In-add_affected (add_ranges dep xs aff.ranges) affs).1 (kept h)),
    )
  ]
    where
      past : In v xs ⊎ Any FixedFor affs → In v xs ⊎ Any FixedFor (aff ∷ affs)
      past (inl a) = inl a
      past (inr l) = inr (inr l)

      skipped :
          other_package dep aff ≡ true
          → In v xs ⊎ Any FixedFor (aff ∷ affs)
          → In v xs ⊎ Any FixedFor affs
      skipped other (inl a) = inl a
      skipped other (inr (inl (ours, l))) = absurd (cc (other, ours))
      skipped other (inr (inr l)) = inr l

      found :
          other_package dep aff ≡ false
          → In v (add_ranges dep xs aff.ranges) ⊎ Any FixedFor affs
          → In v xs ⊎ Any FixedFor (aff ∷ affs)
      found ours (inr l) = inr (inr l)
      found ours (inl a) = elim ((In-add_ranges xs aff.ranges).0 a) [
        | inl b ↦ inl b
        | inr l ↦ inr (inl (ours, l))
      ]

      kept :
          In v xs ⊎ Any FixedFor (aff ∷ affs)
          → In v (add_ranges dep xs aff.ranges) ⊎ Any FixedFor affs
      kept (inl a) = inl ((In-add_ranges xs aff.ranges).1 (inl a))
      kept (inr (inl (ours, l))) = inl ((In-add_ranges xs aff.ranges).1 (inr l))
      kept (inr (inr l)) = inr l

-- Each version once.
abbrev pub NoRepeats : List Text → Type 0
NoRepeats [] = Unit
NoRepeats (x ∷ xs) = (mem x xs ≡ false) × NoRepeats xs

mem-snoc : (x v : Text) (xs : List Text) → mem x (xs ++ v ∷ []) ≡ (mem x xs || text_eq v x)
unfolding mem
mem-snoc x v [] = or-false (text_eq v x)
  where
    or-false : (b : Bool) → (b || false) ≡ b
    or-false true = refl
    or-false false = refl
mem-snoc x v (y ∷ ys) = rw (mem-snoc x v ys) (assoc (text_eq y x) (mem x ys) (text_eq v x))
  where
    assoc : (a b c : Bool) → (a || (b || c)) ≡ ((a || b) || c)
    assoc true b c = refl
    assoc false b c = refl

NoRepeats-snoc :
    (v : Text) (xs : List Text) → mem v xs ≡ false → NoRepeats xs → NoRepeats (xs ++ v ∷ [])
unfolding mem
NoRepeats-snoc v [] h n = (refl, tt)
NoRepeats-snoc v (x ∷ xs) h n = (
  mem-snoc x v xs
      ∙ apart (text_eq x v) (mem v xs) (text_eq v x) (mem x xs) h (text_eq_sym v x) (n.0),
  NoRepeats-snoc v xs (right (text_eq x v) (mem v xs) h) (n.1),
)
  where
    apart : (a b c d : Bool) → (a || b) ≡ false → c ≡ a → d ≡ false → (d || c) ≡ false
    apart a b c d h e n = ground arith

    right : (a b : Bool) → (a || b) ≡ false → b ≡ false
    right a b h = ground arith

add-NoRepeats : (xs : List Text) (v : Text) → NoRepeats xs → NoRepeats (add xs v)
add-NoRepeats xs v n = elim (Bool-cases (mem v xs)) [
  | inl known ↦ rw known n
  | inr new ↦ rw new (NoRepeats-snoc v xs new n)
]

add_all-NoRepeats : (xs vs : List Text) → NoRepeats xs → NoRepeats (add_all xs vs)
unfolding add_all
add_all-NoRepeats xs [] n = n
add_all-NoRepeats xs (v ∷ vs) n = add_all-NoRepeats (add xs v) vs (add-NoRepeats xs v n)

add_ranges-NoRepeats :
    (dep : Dep) (xs : List Text) (rngs : List OsvRange)
    → NoRepeats xs
    → NoRepeats (add_ranges dep xs rngs)
unfolding add_ranges
add_ranges-NoRepeats dep xs [] n = n
add_ranges-NoRepeats dep xs (rng ∷ rngs) n =
    on_if NoRepeats (text_eq rng.type (codes "GIT")) (λ git. add_ranges-NoRepeats dep xs rngs n)
      (λ counted.
        add_ranges-NoRepeats dep (add_all xs (range_fixes dep.ecosystem dep.version rng.events))
          rngs (add_all-NoRepeats xs (range_fixes dep.ecosystem dep.version rng.events) n))

add_affected-NoRepeats :
    (dep : Dep) (xs : List Text) (affs : List OsvAffected)
    → NoRepeats xs
    → NoRepeats (add_affected dep xs affs)
unfolding add_affected
add_affected-NoRepeats dep xs [] n = n
add_affected-NoRepeats dep xs (aff ∷ affs) n =
    on_if NoRepeats (other_package dep aff) (λ other. add_affected-NoRepeats dep xs affs n)
      (λ ours.
        add_affected-NoRepeats dep (add_ranges dep xs aff.ranges) affs
          (add_ranges-NoRepeats dep xs aff.ranges n))

-- fixedVersions lists no version twice, and lists a version exactly when an affected entry that
-- names no other package has a range that is not of type GIT for which rangeFixes returns it.
pub fixed_versions-NoRepeats :
    (affected : List OsvAffected) (dep : Dep) (v : Text)
    → NoRepeats (fixed_versions affected dep)
      × (In v (fixed_versions affected dep) ↔ Any (FixedFor dep v) affected)
unfolding fixed_versions
fixed_versions-NoRepeats affected dep v = (
  add_affected-NoRepeats dep [] affected tt,
  (
    λ h. elim ((In-add_affected dep v [] affected).0 h) [ inl n ↦ absurd n | inr l ↦ l ],
    λ l. (In-add_affected dep v [] affected).1 (inr l),
  ),
)
