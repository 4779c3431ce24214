-- ===== src/Version/Preorder.antt =====
-- The comparisons of internal/audit/version.go are total preorders.
use mcp_library.Common.{
  is_some, ℕ, suc, ◌≡◌, refl, sym, ap, ◌∙◌, subst, fun_ext, ◌||◌, Bool, true, false, Option, none,
  some, List, [], ◌∷◌, length, Ordering, arith, if◌then◌else◌,
}
use mathlib.Core.Option.{some-injective}
use mathlib.Core.Path.{subst₂}
use mcp_library.Common.Int.{ℤ, pos, cmp_int, cmp_int-IsPreorder, atoi_digits}
use mcp_library.Common.Order.{
  IsPreorder, Composes, Composes-or_else, flip, flip-or_else, or_else, lex, lex-IsPreorder,
  on-IsPreorder, or_else-IsPreorder,
}
use mcp_library.Common.Text.{Text, codes, text_eq, text_compare-IsPreorder}
use mcp_library.Version.{
  Semver, identifier_order, compare_identifier, compare_identifiers, compare_pre, compare_semver,
  Pep440, compare_release, compare_pep440, compare_parsed, compare_version, parse_semver,
  parse_pep440,
}
open cmp_int-IsPreorder use {
  reflexive as int_reflexive, exchange as int_exchange, compose as int_compose,
}

identifier_compose :
    (a b c : Option ℤ) (x y z : Ordering)
    → Composes x y z
    → Composes (identifier_order a b x) (identifier_order b c y) (identifier_order a c z)
identifier_compose (some a) (some b) (some c) x y z h = int_compose a b c
identifier_compose (some a) (some b) none x y z h = ground arith
identifier_compose (some a) none (some c) x y z h = tt
identifier_compose (some a) none none x y z h = ground arith
identifier_compose none (some b) (some c) x y z h = ground arith
identifier_compose none (some b) none x y z h = tt
identifier_compose none none (some c) x y z h = ground arith
identifier_compose none none none x y z h = h

identifier_exchange :
    (a b : Option ℤ) (x y : Ordering)
    → y ≡ flip x
    → identifier_order b a y ≡ flip (identifier_order a b x)
identifier_exchange (some a) (some b) x y h = int_exchange a b
identifier_exchange (some a) none x y h = refl
identifier_exchange none (some b) x y h = refl
identifier_exchange none none x y h = h

identifier_reflexive :
    (a : Option ℤ) (x : Ordering) → x ≡ Ordering.eq → identifier_order a a x ≡ Ordering.eq
identifier_reflexive (some a) x h = int_reflexive a
identifier_reflexive none x h = h

compare_identifier-IsPreorder : IsPreorder compare_identifier
unfolding compare_identifier
compare_identifier-IsPreorder = record {
  reflexive = λ a. identifier_reflexive (atoi_digits a) _ (text_compare-IsPreorder.reflexive a);
  exchange = λ a b.
      identifier_exchange (atoi_digits a) (atoi_digits b) _ _
        (text_compare-IsPreorder.exchange a b);
  compose = λ a b c.
      identifier_compose (atoi_digits a) (atoi_digits b) (atoi_digits c) _ _ _
        (text_compare-IsPreorder.compose a b c);
}

-- The loop over the common identifiers, then the counts, is the lexicographic order.
identifiers-lex :
    (xs ys : List Text)
    → compare_identifiers xs ys (cmp_int (pos (length xs)) (pos (length ys)))
      ≡ lex compare_identifier xs ys
unfolding compare_identifiers
identifiers-lex [] [] = unfold cmp_int in refl
identifiers-lex [] (y ∷ ys) = unfold cmp_int in ground arith
identifiers-lex (x ∷ xs) [] = unfold cmp_int in ground arith
identifiers-lex (x ∷ xs) (y ∷ ys) =
    ap (or_else (compare_identifier x y))
      (ap (compare_identifiers xs ys) (shift (length xs) (length ys)) ∙ identifiers-lex xs ys)
  where
    shift : (m n : ℕ) → cmp_int (pos (suc m)) (pos (suc n)) ≡ cmp_int (pos m) (pos n)
    shift m n = unfold cmp_int in ground arith

pre_lex :
    (x : Text) (xs : List Text) (y : Text) (ys : List Text)
    → compare_pre (x ∷ xs) (y ∷ ys) ≡ lex compare_identifier (x ∷ xs) (y ∷ ys)
unfolding compare_pre
pre_lex x xs y ys = identifiers-lex (x ∷ xs) (y ∷ ys)

identifiers-IsPreorder : IsPreorder (lex compare_identifier)
identifiers-IsPreorder = lex-IsPreorder compare_identifier compare_identifier-IsPreorder

-- No identifiers at all come last.
abbrev empty_last : List Text → List Text → Ordering
empty_last [] [] = Ordering.eq
empty_last [] (b ∷ bs) = Ordering.gt
empty_last (a ∷ rest) [] = Ordering.lt
empty_last (a ∷ rest) (b ∷ bs) = lex compare_identifier (a ∷ rest) (b ∷ bs)

compare_pre-empty_last : (xs ys : List Text) → compare_pre xs ys ≡ empty_last xs ys
compare_pre-empty_last [] [] = unfold compare_pre in refl
compare_pre-empty_last [] (y ∷ ys) = unfold compare_pre in refl
compare_pre-empty_last (x ∷ xs) [] = unfold compare_pre in refl
compare_pre-empty_last (x ∷ xs) (y ∷ ys) = pre_lex x xs y ys

after_lt : (c : Ordering) → Composes Ordering.gt c Ordering.gt
after_lt Ordering.lt = tt
after_lt Ordering.eq = refl
after_lt Ordering.gt = refl

empty_last_compose :
    (xs ys zs : List Text) → Composes (empty_last xs ys) (empty_last ys zs) (empty_last xs zs)
empty_last_compose [] [] [] = refl
empty_last_compose [] [] (z ∷ zs) = refl
empty_last_compose [] (y ∷ ys) [] = tt
empty_last_compose [] (y ∷ ys) (z ∷ zs) = after_lt (lex compare_identifier (y ∷ ys) (z ∷ zs))
empty_last_compose (x ∷ xs) [] [] = refl
empty_last_compose (x ∷ xs) [] (z ∷ zs) = tt
empty_last_compose (x ∷ xs) (y ∷ ys) [] = below_lt (lex compare_identifier (x ∷ xs) (y ∷ ys))
  where
    below_lt : (c : Ordering) → Composes c Ordering.lt Ordering.lt
    below_lt Ordering.lt = refl
    below_lt Ordering.eq = refl
    below_lt Ordering.gt = tt
empty_last_compose (x ∷ xs) (y ∷ ys) (z ∷ zs) =
    identifiers-IsPreorder.compose (x ∷ xs) (y ∷ ys) (z ∷ zs)

empty_last-IsPreorder : IsPreorder empty_last
empty_last-IsPreorder = record { reflexive = same; exchange = turned; compose = empty_last_compose }
  where
    same : (xs : List Text) → empty_last xs xs ≡ Ordering.eq
    same [] = refl
    same (x ∷ xs) = identifiers-IsPreorder.reflexive (x ∷ xs)

    turned : (xs ys : List Text) → empty_last ys xs ≡ flip (empty_last xs ys)
    turned [] [] = refl
    turned [] (y ∷ ys) = refl
    turned (x ∷ xs) [] = refl
    turned (x ∷ xs) (y ∷ ys) = identifiers-IsPreorder.exchange (x ∷ xs) (y ∷ ys)

compare_pre-IsPreorder : IsPreorder compare_pre
compare_pre-IsPreorder =
    subst IsPreorder (sym (fun_ext λ xs. fun_ext λ ys. compare_pre-empty_last xs ys))
      empty_last-IsPreorder

-- Semantic versions are totally preordered.
compare_semver-IsPreorder : IsPreorder compare_semver
unfolding compare_semver
compare_semver-IsPreorder =
    or_else-IsPreorder (on-IsPreorder (λ (v : Semver). v.major) cmp_int-IsPreorder) (
      or_else-IsPreorder (on-IsPreorder (λ (v : Semver). v.minor) cmp_int-IsPreorder) (
        or_else-IsPreorder (on-IsPreorder (λ (v : Semver). v.patch) cmp_int-IsPreorder)
          (on-IsPreorder (λ (v : Semver). v.pre) compare_pre-IsPreorder)))

with_tie : (c : Ordering) → Composes c Ordering.eq c
with_tie Ordering.lt = refl
with_tie Ordering.eq = refl
with_tie Ordering.gt = refl

-- One segment and the rest, where a missing segment is 0.
segment_compose :
    (x y z : ℤ) (a b c : Ordering)
    → Composes a b c
    → Composes (or_else (cmp_int x y) a) (or_else (cmp_int y z) b) (or_else (cmp_int x z) c)
segment_compose x y z a b c h = Composes-or_else _ _ _ a b c (int_compose x y z) h

release_compose :
    (xs ys zs : List ℤ)
    → Composes (compare_release xs ys) (compare_release ys zs) (compare_release xs zs)
unfolding compare_release
release_compose [] [] [] = refl
release_compose [] [] (z ∷ zs) = refl
release_compose [] (y ∷ ys) [] =
    subst
      (λ c.
        Composes (or_else (cmp_int (pos 0) y) (compare_release [] ys))
          (or_else (cmp_int y (pos 0)) (compare_release ys [])) (or_else c Ordering.eq))
      (int_reflexive (pos 0)) (segment_compose (pos 0) y (pos 0) _ _ _ (release_compose [] ys []))
release_compose [] (y ∷ ys) (z ∷ zs) = segment_compose (pos 0) y z _ _ _ (release_compose [] ys zs)
release_compose (x ∷ xs) [] [] = with_tie (or_else (cmp_int x (pos 0)) (compare_release xs []))
release_compose (x ∷ xs) [] (z ∷ zs) = segment_compose x (pos 0) z _ _ _ (release_compose xs [] zs)
release_compose (x ∷ xs) (y ∷ ys) [] = segment_compose x y (pos 0) _ _ _ (release_compose xs ys [])
release_compose (x ∷ xs) (y ∷ ys) (z ∷ zs) = segment_compose x y z _ _ _ (release_compose xs ys zs)

release_reflexive : (xs : List ℤ) → compare_release xs xs ≡ Ordering.eq
unfolding compare_release
release_reflexive [] = refl
release_reflexive (x ∷ xs) = rw (int_reflexive x) (release_reflexive xs)

release_exchange : (xs ys : List ℤ) → compare_release ys xs ≡ flip (compare_release xs ys)
unfolding compare_release
release_exchange [] [] = refl
release_exchange [] (y ∷ ys) =
    rw (int_exchange (pos 0) y, release_exchange [] ys) (flip-or_else (cmp_int (pos 0) y) _)
release_exchange (x ∷ xs) [] =
    rw (int_exchange x (pos 0), release_exchange xs []) (flip-or_else (cmp_int x (pos 0)) _)
release_exchange (x ∷ xs) (y ∷ ys) =
    rw (int_exchange x y, release_exchange xs ys) (flip-or_else (cmp_int x y) _)

pub compare_release-IsPreorder : IsPreorder compare_release
compare_release-IsPreorder = record {
  reflexive = release_reflexive;
  exchange = release_exchange;
  compose = release_compose;
}

-- PEP 440 sort keys are totally preordered.
compare_pep440-IsPreorder : IsPreorder compare_pep440
unfolding compare_pep440
compare_pep440-IsPreorder =
    or_else-IsPreorder (on-IsPreorder (λ (v : Pep440). v.epoch) cmp_int-IsPreorder) (
      or_else-IsPreorder (on-IsPreorder (λ (v : Pep440). v.release) compare_release-IsPreorder) (
        or_else-IsPreorder (on-IsPreorder (λ (v : Pep440). v.pre_rank) cmp_int-IsPreorder) (
          or_else-IsPreorder (on-IsPreorder (λ (v : Pep440). v.pre_num) cmp_int-IsPreorder) (
            or_else-IsPreorder (on-IsPreorder (λ (v : Pep440). v.post) cmp_int-IsPreorder)
              (on-IsPreorder (λ (v : Pep440). v.dev) cmp_int-IsPreorder)))))

-- What a comparison that may fail owes to be one order: it answers for (a, c) where it answers for
-- (a, b) and (b, c), with the answer that those two imply, and exchanging the sides flips it.
pub record IsPartialPreorder {ℓ} {A : Type ℓ} (cmp : A → A → Option Ordering) : Type ℓ where
  pub exchange : (a b : A) (x : Ordering) → cmp a b ≡ some x → cmp b a ≡ some (flip x)
  pub compose :
      (a b c : A) (x y : Ordering)
      → cmp a b ≡ some x
      → cmp b c ≡ some y
      → (z : Ordering) × (cmp a c ≡ some z) × Composes x y z

module _ {ℓ} {A : Type ℓ} {cmp : A → A → Ordering} (o : IsPreorder cmp) where
  parsed_exchange :
      (a b : Option A) (x : Ordering)
      → compare_parsed cmp a b ≡ some x
      → compare_parsed cmp b a ≡ some (flip x)
  parsed_exchange (some a) (some b) x h = rw (o.exchange a b) (cc h)
  parsed_exchange (some a) none x h = cc
  parsed_exchange none b x h = cc

  parsed_compose :
      (a b c : Option A) (x y : Ordering)
      → compare_parsed cmp a b ≡ some x
      → compare_parsed cmp b c ≡ some y
      → (z : Ordering) × (compare_parsed cmp a c ≡ some z) × Composes x y z
  parsed_compose (some a) (some b) (some c) x y h k = (
    cmp a c,
    refl,
    subst₂ (λ u v. Composes u v (cmp a c)) (some-injective _ _ h) (some-injective _ _ k)
        (o.compose a b c),
  )
  parsed_compose (some a) (some b) none x y h k = absurd (cc)
  parsed_compose (some a) none c x y h k = absurd (cc)
  parsed_compose none b c x y h k = absurd (cc)

module _ (P : (Text → Text → Option Ordering) → Type 0)
    (semver : P (λ a b. compare_parsed compare_semver (parse_semver a) (parse_semver b)))
    (pep440 : P (λ a b. compare_parsed compare_pep440 (parse_pep440 a) (parse_pep440 b)))
    (other : P (λ a b. none)) where
  by_tests :
      (is_semver is_pep440 : Bool)
      → P (λ a b.
        if is_semver
        then compare_parsed compare_semver (parse_semver a) (parse_semver b)
        else if is_pep440
        then compare_parsed compare_pep440 (parse_pep440 a) (parse_pep440 b)
        else none)
  by_tests true p = semver
  by_tests false true = pep440
  by_tests false false = other

  by_ecosystem : (ecosystem : Text) → P (compare_version ecosystem)
  unfolding compare_version
  by_ecosystem ecosystem =
      by_tests (text_eq ecosystem (codes "npm") || text_eq ecosystem (codes "Go"))
        (text_eq ecosystem (codes "PyPI"))

-- For every ecosystem, exchanging the two versions flips compareVersion's answer, and two answers
-- for (a, b) and (b, c) give an answer for (a, c) that is the one they imply: less or equal
-- composes, and a strict step makes the whole strict.
pub compare_version-IsPartialPreorder :
    (ecosystem : Text) → IsPartialPreorder (compare_version ecosystem)
compare_version-IsPartialPreorder ecosystem =
    by_ecosystem IsPartialPreorder
      (record {
        exchange =
            λ a b. parsed_exchange compare_semver-IsPreorder (parse_semver a) (parse_semver b);
        compose = λ a b c.
            parsed_compose compare_semver-IsPreorder (parse_semver a) (parse_semver b)
              (parse_semver c);
      })
      (record {
        exchange =
            λ a b. parsed_exchange compare_pep440-IsPreorder (parse_pep440 a) (parse_pep440 b);
        compose = λ a b c.
            parsed_compose compare_pep440-IsPreorder (parse_pep440 a) (parse_pep440 b)
              (parse_pep440 c);
      })
      (record { exchange = λ a b x h. cc; compose = λ a b c x y h k. absurd (cc) }) ecosystem

parsed_comparable :
    {A : Type 0} (cmp : A → A → Ordering) (a b : Option A)
    → is_some (compare_parsed cmp a a) ≡ true
    → is_some (compare_parsed cmp b b) ≡ true
    → is_some (compare_parsed cmp a b) ≡ true
parsed_comparable cmp (some a) (some b) h k = refl
parsed_comparable cmp (some a) none h k = k
parsed_comparable cmp none b h k = h

-- Versions that compare with themselves compare with each other.
pub compare_version-comparable :
    (ecosystem a b : Text)
    → is_some (compare_version ecosystem a a) ≡ true
    → is_some (compare_version ecosystem b b) ≡ true
    → is_some (compare_version ecosystem a b) ≡ true
compare_version-comparable ecosystem =
    by_ecosystem
      (λ cmp.
        (a b : Text)
        → is_some (cmp a a) ≡ true
        → is_some (cmp b b) ≡ true
        → is_some (cmp a b) ≡ true)
      (λ a b. parsed_comparable compare_semver (parse_semver a) (parse_semver b))
      (λ a b. parsed_comparable compare_pep440 (parse_pep440 a) (parse_pep440 b)) (λ a b h k. h)
      ecosystem
