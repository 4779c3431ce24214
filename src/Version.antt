-- ===== src/Version.antt =====
-- internal/audit/version.go: versions of npm and Go packages (semver) and of PyPI packages (a PEP 440
-- subset), parsed and compared. -1, 0 and 1 are `Ordering.lt`, `eq` and `gt`; an `ok` of false is
-- `none`.
pub mod Preorder
pub mod Phases
pub mod Tests
use mcp_library.Common.{
  ℕ, Bool, true, false, not, ◌&&◌, ◌||◌, Option, none, some, List, [], ◌∷◌, map, length, compare,
  Ordering, if◌then◌else◌, leb,
}
use mcp_library.Common.Int.{ℤ, pos, max_int, min_int, cmp_int, atoi_digits, atoi_lenient, is_digit}
use mcp_library.Common.Order.{or_else}
use mcp_library.Common.Regex.{
  Regex, seq, alt, star, group, one, opt, plus, char, word, one_of, find_submatch, Captures,
  submatch,
}
use mcp_library.Common.Text.{
  Text, codes, text_eq, text_compare, trim_prefix, trim_space, to_lower, cut, split,
}

-- `core [3]int` as three fields.
pub record Semver : Type 0 where
  pub major : ℤ
  pub minor : ℤ
  pub patch : ℤ
  pub pre : List Text

abbrev pub ◌>>=◌ {ℓ κ} : {A : Type ℓ} {B : Type κ} → Option A → (A → Option B) → Option B
◌>>=◌ none f = none
◌>>=◌ (some a) f = f a

-- The text without its build metadata.
abbrev strip_build : Text → Text
strip_build s = elim (cut b'+' s) [ none ↦ s | some (b, a) ↦ b ]

abbrev with_core : List Text → List Text → Option Semver
with_core (a ∷ b ∷ c ∷ []) pre = do
  x ← atoi_digits a
  y ← atoi_digits b
  z ← atoi_digits c
  some (record { major = x; minor = y; patch = z; pre = pre })
with_core _ pre = none

abbrev with_pre : Text → Text → Option Semver
with_pre core [] = none
with_pre core (c ∷ pre) = with_core (split b'.' core) (split b'.' (c ∷ pre))

unfoldable pub parse_semver : Text → Option Semver
unfolding trim_prefix cut split atoi_digits
parse_semver s =
    let t = strip_build (trim_prefix (codes "v") s) in
    elim (cut b'-' t) [ none ↦ with_core (split b'.' t) [] | some (core, pre) ↦ with_pre core pre ]

-- Numeric identifiers sort before alphanumeric ones.
abbrev identifier_order : Option ℤ → Option ℤ → Ordering → Ordering
identifier_order (some a) (some b) texts = cmp_int a b
identifier_order (some a) none texts = Ordering.lt
identifier_order none (some b) texts = Ordering.gt
identifier_order none none texts = texts

unfoldable pub compare_identifier : Text → Text → Ordering
compare_identifier a b = identifier_order (atoi_digits a) (atoi_digits b) (text_compare a b)

-- The loop over the identifiers that both have; `tie` is the comparison of the two counts.
compare_identifiers : List Text → List Text → Ordering → Ordering
compare_identifiers (a ∷ xs) (b ∷ ys) tie =
    or_else (compare_identifier a b) (compare_identifiers xs ys tie)
compare_identifiers _ _ tie = tie

-- A pre-release sorts before its release.
unfoldable pub compare_pre : List Text → List Text → Ordering
unfolding compare_identifiers
compare_pre [] [] = Ordering.eq
compare_pre [] (b ∷ ys) = Ordering.gt
compare_pre (a ∷ xs) [] = Ordering.lt
compare_pre (a ∷ xs) (b ∷ ys) =
    compare_identifiers (a ∷ xs) (b ∷ ys) (cmp_int (pos (length (a ∷ xs))) (pos (length (b ∷ ys))))

unfoldable pub compare_semver : Semver → Semver → Ordering
unfolding compare_pre
compare_semver a b = or_else (cmp_int a.major b.major) (
    or_else (cmp_int a.minor b.minor) (or_else (cmp_int a.patch b.patch) (compare_pre a.pre b.pre)))

pub record Pep440 : Type 0 where
  pub epoch : ℤ
  pub release : List ℤ
  pub pre_rank : ℤ
  pub pre_num : ℤ
  pub post : ℤ
  pub dev : ℤ

abbrev digit : Regex
digit = one is_digit

abbrev separator : Regex
separator = opt (one_of (codes "-_."))

abbrev words : List Text → Regex
words [] = one (λ c. false)
words (w ∷ []) = word w
words (w ∷ v ∷ ws) = alt (word w) (words (v ∷ ws))

abbrev local_char : ℕ → Bool
local_char c =
    (leb b'a' c && leb c b'z')
    || is_digit c
    || text_eq (c ∷ []) (codes ".")
    || text_eq (c ∷ []) (codes "_")
    || text_eq (c ∷ []) (codes "-")

abbrev pep440_re : Regex
pep440_re = seq (opt (char b'v')) (
    seq (opt (seq (group 1 (plus digit)) (char b'!'))) (
      seq (group 2 (seq (plus digit) (star (seq (char b'.') (plus digit))))) (
        seq
          (opt (
            seq separator (
              seq
                (group 3 (
                  words (
                    codes "a"
                    ∷ codes "b"
                    ∷ codes "c"
                    ∷ codes "rc"
                    ∷ codes "alpha"
                    ∷ codes "beta"
                    ∷ codes "pre"
                    ∷ codes "preview"
                    ∷ [])))
                (seq separator (group 4 (star digit))))))
          (seq
            (opt (
              alt
                (seq separator (
                  seq (group 5 (words (codes "post" ∷ codes "rev" ∷ codes "r" ∷ [])))
                    (seq separator (group 6 (star digit)))))
                (seq (char b'-') (group 7 (plus digit)))))
            (seq
              (opt (
                seq separator
                  (seq (group 8 (word (codes "dev"))) (seq separator (group 9 (star digit))))))
              (opt (seq (char b'+') (plus (one local_char)))))))))

abbrev is_set : Text → Bool
is_set [] = false
is_set (c ∷ s) = true

abbrev pub has_pre : Captures → Bool
has_pre m = is_set (submatch 3 m)

abbrev pub has_post : Captures → Bool
has_post m = is_set (submatch 5 m) || is_set (submatch 7 m)

abbrev pub has_dev : Captures → Bool
has_dev m = is_set (submatch 8 m)

abbrev rank_of_word : Text → ℤ
rank_of_word w =
    if text_eq w (codes "a") || text_eq w (codes "alpha")
    then pos 0
    else if text_eq w (codes "b") || text_eq w (codes "beta")
    then pos 1
    else pos 2

-- What `parsePEP440` makes of the submatches.
unfoldable pub pep440_of : Captures → Pep440
pep440_of m = record {
  epoch = if is_set (submatch 1 m) then atoi_lenient (submatch 1 m) else pos 0;
  release = map atoi_lenient (split b'.' (submatch 2 m));
  pre_rank =
      if has_pre m
      then rank_of_word (submatch 3 m)
      else if not (has_post m) && has_dev m
      then min_int
      else pos max_int;
  pre_num = if has_pre m then atoi_lenient (submatch 4 m) else pos 0;
  post =
      if is_set (submatch 7 m)
      then atoi_lenient (submatch 7 m)
      else if has_post m
      then atoi_lenient (submatch 6 m)
      else min_int;
  dev = if has_dev m then atoi_lenient (submatch 9 m) else pos max_int;
}

unfoldable pub parse_pep440 : Text → Option Pep440
unfolding find_submatch trim_space to_lower pep440_of text_eq atoi_lenient split
parse_pep440 s = do m ← find_submatch pep440_re (map to_lower (trim_space s)); some (pep440_of m)

-- The loop over both releases, where a missing segment is 0.
unfoldable pub compare_release : List ℤ → List ℤ → Ordering
compare_release [] [] = Ordering.eq
compare_release [] (y ∷ ys) = or_else (cmp_int (pos 0) y) (compare_release [] ys)
compare_release (x ∷ xs) [] = or_else (cmp_int x (pos 0)) (compare_release xs [])
compare_release (x ∷ xs) (y ∷ ys) = or_else (cmp_int x y) (compare_release xs ys)

unfoldable pub compare_pep440 : Pep440 → Pep440 → Ordering
unfolding compare_release
compare_pep440 a b = or_else (cmp_int a.epoch b.epoch) (
    or_else (compare_release a.release b.release) (
      or_else (cmp_int a.pre_rank b.pre_rank) (
        or_else (cmp_int a.pre_num b.pre_num)
          (or_else (cmp_int a.post b.post) (cmp_int a.dev b.dev)))))

-- Two parses, compared where both succeeded.
abbrev pub compare_parsed {ℓ} :
    {A : Type ℓ} → (A → A → Ordering) → Option A → Option A → Option Ordering
compare_parsed cmp (some a) (some b) = some (cmp a b)
compare_parsed cmp _ _ = none

unfoldable pub compare_version : Text → Text → Text → Option Ordering
compare_version ecosystem a b =
    if text_eq ecosystem (codes "npm") || text_eq ecosystem (codes "Go")
    then compare_parsed compare_semver (parse_semver a) (parse_semver b)
    else if text_eq ecosystem (codes "PyPI")
    then compare_parsed compare_pep440 (parse_pep440 a) (parse_pep440 b)
    else none
