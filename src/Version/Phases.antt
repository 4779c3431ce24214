-- ===== src/Version/Phases.antt =====
-- How the comparisons of internal/audit/version.go place the stages of a release.
use mcp_library.Common.{
  ℕ, zero, suc, ◌<◌, ◌≡◌, ◌≢◌, refl, not, ◌&&◌, List, [], ◌∷◌, ◌++◌, map, subst, Ordering, arith,
  if◌then◌else◌,
}
use mcp_library.Common.Int.{ℤ, pos, cmp_int, cmp_int-IsPreorder, atoi_lenient}
use mcp_library.Common.Regex.{Captures, submatch}
use mcp_library.Common.Text.{Text, split}
use mcp_library.Version.{
  Semver, compare_semver, compare_pre, pep440_of, compare_release, compare_pep440, has_pre,
  has_post, has_dev, is_set,
}
use mcp_library.Version.Preorder.{compare_release-IsPreorder}

abbrev zeros : ℕ → List ℤ
zeros zero = []
zeros (suc n) = pos 0 ∷ zeros n

compare_zeros : (n : ℕ) → compare_release [] (zeros n) ≡ Ordering.eq
unfolding compare_release
compare_zeros zero = refl
compare_zeros (suc n) = rw (cmp_int-IsPreorder.reflexive (pos 0)) (compare_zeros n)

-- A release compares equal to itself with any number of zero segments behind it.
compare_release-zeros : (xs : List ℤ) (n : ℕ) → compare_release xs (xs ++ zeros n) ≡ Ordering.eq
unfolding compare_release
compare_release-zeros [] n = compare_zeros n
compare_release-zeros (x ∷ xs) n = rw (cmp_int-IsPreorder.reflexive x) (compare_release-zeros xs n)

-- A semantic version with pre-release identifiers is below the same version without them.
pre-lt-release : (v : Semver) → v.pre ≢ [] → compare_semver v (record v { pre = [] }) ≡ Ordering.lt
unfolding compare_semver
pre-lt-release v h =
    rw
      (
        cmp_int-IsPreorder.reflexive v.major,
        cmp_int-IsPreorder.reflexive v.minor,
        cmp_int-IsPreorder.reflexive v.patch,
      )
      (below v.pre h)
  where
    below : (p : List Text) → p ≢ [] → compare_pre p [] ≡ Ordering.lt
    below [] n = absurd (n refl)
    below (c ∷ p) n = unfold compare_pre in refl

-- 0 for a development release of a final version, 1 for a pre-release, 2 for a final version and
-- its post-releases.
abbrev phase : Captures → ℕ
phase m = if has_pre m then 1 else if not (has_post m) && has_dev m then 0 else 2

-- The phase decides the rank.
rank-lt :
    (m m' : Captures)
    → phase m < phase m'
    → cmp_int ((pep440_of m).pre_rank) ((pep440_of m').pre_rank) ≡ Ordering.lt
unfolding pep440_of cmp_int
rank-lt m m' h = ground arith

epoch_of_submatch :
    (m m' : Captures)
    → submatch 1 m ≡ submatch 1 m'
    → cmp_int (pep440_of m).epoch (pep440_of m').epoch ≡ Ordering.eq
unfolding pep440_of
epoch_of_submatch m m' e =
    subst
      (λ t. cmp_int (pep440_of m).epoch (if is_set t then atoi_lenient t else pos 0) ≡ Ordering.eq)
      e (cmp_int-IsPreorder.reflexive (pep440_of m).epoch)

release_of_submatch :
    (m m' : Captures)
    → submatch 2 m ≡ submatch 2 m'
    → compare_release (pep440_of m).release (pep440_of m').release ≡ Ordering.eq
unfolding pep440_of
release_of_submatch m m' r =
    subst
      (λ t. compare_release (pep440_of m).release (map atoi_lenient (split b'.' t)) ≡ Ordering.eq) r
      (compare_release-IsPreorder.reflexive (pep440_of m).release)

-- Of two PEP 440 matches with the same epoch and release texts, the one in the earlier phase is the
-- smaller: development releases of a final version come before pre-releases, and those before final
-- versions and their post-releases.
earlier_phase_lt :
    (m m' : Captures)
    → submatch 1 m ≡ submatch 1 m'
    → submatch 2 m ≡ submatch 2 m'
    → phase m < phase m'
    → compare_pep440 (pep440_of m) (pep440_of m') ≡ Ordering.lt
unfolding compare_pep440
earlier_phase_lt m m' e r h =
    rw (epoch_of_submatch m m' e, release_of_submatch m m' r, rank-lt m m' h) refl
