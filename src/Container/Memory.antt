-- ===== src/Container/Memory.antt =====
-- internal/smoke/container.go: docker's --memory is the number of bytes that the manifest says.
use mcp_library.Common.{
  ℕ, zero, suc, ◌-◌, ◌*◌, ◌^◌, ◌≤◌, ◌<◌, ◌≡◌, ◌≢◌, refl, sym, ap, subst, ◌∙◌, inl, inr, Bool, true,
  false, ◌&&◌, ◌||◌, ◌==◌, List, [], ◌∷◌, ◌++◌, Option, none, some, All, arith, append-nil, leb,
  if◌then◌else◌,
}
use mathlib.Core.List.{reverse, reverse-append, reverse-reverse}
use mcp_library.Common.Decimal.{itoa, itoa-ne-nil, all_digits-itoa, digits_value-itoa}
use mcp_library.Common.Int.{pos, is_digit, all_digits, digits_value}
use mcp_library.Common.Keyed.{and_then}
use mcp_library.Common.Tests.{Bool-cases, &&_left, &&_right, leb→le}
use mcp_library.Common.Text.{Text, codes, text_eq, has_suffix, has_prefix, trim_suffix, cut_prefix}
use mcp_library.Container.{max_uint64, parse_uint, units, cut_unit, positive, docker_memory}

-- The digits that a text starts with, and what follows them.
abbrev lead : Text → Text × Text
lead [] = ([], [])
lead (c ∷ s) = let rest = lead s in if is_digit c then (c ∷ rest.0, rest.1) else ([], c ∷ s)

abbrev scaled : (Text → Option ℕ) → Text → Option ℕ
scaled scale v =
    and_then (parse_uint ((lead v).0)) (λ n. and_then (scale ((lead v).1)) (λ m. some (n * m)))

-- As the executor reads a manifest: K and Ki are both 1024.
abbrev manifest_scale : Text → Option ℕ
manifest_scale unit =
    if text_eq unit []
    then some 1
    else if text_eq unit (codes "K") || text_eq unit (codes "Ki")
    then some (2 ^ 10)
    else if text_eq unit (codes "M") || text_eq unit (codes "Mi")
    then some (2 ^ 20)
    else if text_eq unit (codes "G") || text_eq unit (codes "Gi")
    then some (2 ^ 30)
    else none

-- As docker reads its flag.
abbrev docker_scale : Text → Option ℕ
docker_scale unit =
    if text_eq unit []
    then some 1
    else if text_eq unit (codes "k")
    then some (2 ^ 10)
    else if text_eq unit (codes "m")
    then some (2 ^ 20)
    else if text_eq unit (codes "g")
    then some (2 ^ 30)
    else none

abbrev pub manifest_bytes : Text → Option ℕ
manifest_bytes = scaled manifest_scale

abbrev pub docker_bytes : Text → Option ℕ
docker_bytes = scaled docker_scale

abbrev StartsNoDigit : Text → Type 0
StartsNoDigit [] = Unit
StartsNoDigit (c ∷ s) = is_digit c ≡ false

-- A suffix and the unit that stands for it say the same scale.
abbrev SameUnit : Text → Text → Type 0
SameUnit suffix unit =
    (m : ℕ) × (manifest_scale suffix ≡ some (suc m))
    × (docker_scale unit ≡ some (suc m))
    × StartsNoDigit suffix
    × StartsNoDigit unit

lead-append : (s t : Text) → all_digits s ≡ true → StartsNoDigit t → lead (s ++ t) ≡ (s, t)
lead-append [] [] d n = refl
lead-append [] (c ∷ t) d n = rw n refl
lead-append (c ∷ s) t d n =
    rw
      (
        &&_left (is_digit c) (all_digits s) d,
        lead-append s t (&&_right (is_digit c) (all_digits s) d) n,
      )
      refl

no_unit : SameUnit [] []
unfolding text_eq
no_unit = (0, refl, refl, tt, tt)

units_same : All (λ u. SameUnit u.0 u.1) units
unfolding text_eq
units_same = (
  (2 ^ 10 - 1, refl, refl, refl, refl),
  (
    (2 ^ 20 - 1, refl, refl, refl, refl),
    (
      (2 ^ 30 - 1, refl, refl, refl, refl),
      (
        (2 ^ 10 - 1, refl, refl, refl, refl),
        ((2 ^ 20 - 1, refl, refl, refl, refl), ((2 ^ 30 - 1, refl, refl, refl, refl), tt)),
      ),
    ),
  ),
)

has-cut_prefix :
    (p s : Text) → has_prefix p s ≡ true → (t : Text) × (cut_prefix p s ≡ some t) × (s ≡ p ++ t)
unfolding has_prefix cut_prefix
has-cut_prefix [] s h = (s, refl, refl)
has-cut_prefix (c ∷ p) [] h = absurd (cc h)
has-cut_prefix (c ∷ p) (d ∷ s) h = elim (Bool-cases (c == d)) [
  | inr n ↦ absurd (cc (rw n at h))
  | inl y ↦ let (t, e, f) = has-cut_prefix p s (rw y at h) in (t, rw (y, e) refl, ground (arith, f))
]

-- What is trimmed is the suffix.
trim_suffix-append : (p s : Text) → has_suffix p s ≡ true → s ≡ trim_suffix p s ++ p
unfolding has_suffix trim_suffix
trim_suffix-append p s h =
    let (t, e, f) = has-cut_prefix (reverse p) (reverse s) h in
    let split : s ≡ reverse t ++ p =
      sym (reverse-reverse s)
      ∙ ap reverse f
      ∙ reverse-append (reverse p) t
      ∙ ap (λ q. reverse t ++ q) (reverse-reverse p) in
    split ∙ rw (e, trim_suffix) refl

cut_unit-same :
    (us : List (Text × Text)) (v : Text)
    → All (λ u. SameUnit u.0 u.1) us
    → (suffix : Text) × (v ≡ (cut_unit us v).0 ++ suffix) × SameUnit suffix (cut_unit us v).1
cut_unit-same [] v h = ([], sym (append-nil v), no_unit)
cut_unit-same ((suffix, unit) ∷ us) v h = elim (Bool-cases (has_suffix suffix v)) [
  | inl y ↦ rw y (suffix, trim_suffix-append suffix v y, h.0)
  | inr n ↦ rw n (cut_unit-same us v h.1)
]

fits : (b : Bool) (m n : ℕ) → (if b then some m else none) ≡ some n → (b ≡ true) × (m ≡ n)
fits true m n h = (refl, cc h)
fits false m n h = absurd (cc h)

parse_uint-digits :
    (s : Text) (n : ℕ) → parse_uint s ≡ some n → (all_digits s ≡ true) × (n ≤ max_uint64)
unfolding parse_uint
parse_uint-digits [] n h = absurd (cc h)
parse_uint-digits (c ∷ s) n h =
    let (both, value) =
      fits (all_digits (c ∷ s) && leb (digits_value (c ∷ s)) max_uint64) (digits_value (c ∷ s)) n
        h in
    (
      &&_left (all_digits (c ∷ s)) (leb (digits_value (c ∷ s)) max_uint64) both,
      subst (λ m. m ≤ max_uint64) value
          (leb→le (digits_value (c ∷ s)) max_uint64
            (&&_right (all_digits (c ∷ s)) (leb (digits_value (c ∷ s)) max_uint64) both)),
    )

parse_uint-fits :
    (s : Text) (n : ℕ)
    → s ≢ []
    → all_digits s ≡ true
    → digits_value s ≡ n
    → n ≤ max_uint64
    → parse_uint s ≡ some n
unfolding parse_uint
parse_uint-fits [] n h d v small = absurd (h refl)
parse_uint-fits (c ∷ s) n h d v small = rw (d, v) (ground arith)

scaled-append :
    (scale : Text → Option ℕ) (num unit : Text) (n m : ℕ)
    → parse_uint num ≡ some n
    → StartsNoDigit unit
    → scale unit ≡ some m
    → scaled scale (num ++ unit) ≡ some (n * m)
scaled-append scale num unit n m p starts s =
    rw (lead-append num unit (parse_uint-digits num n p).0 starts, p, s) refl

positive-some : (o : Option ℕ) (n : ℕ) → positive o ≡ some n → (o ≡ some n) × (0 < n)
positive-some none n h = absurd (cc h)
positive-some (some zero) n h = absurd (cc h)
positive-some (some (suc k)) n h = (h, ground arith)

unwrapped : {a b : Text} → ◌≡◌ {A = Option Text} (some a) (some b) → a ≡ b
unwrapped h = cc h

-- Where dockerMemory translates a limit, the manifest's reading of the limit and docker's reading
-- of the result are the same positive number of bytes.
pub docker_memory-bytes :
    (v t : Text)
    → docker_memory v ≡ some t
    → (n : ℕ) × (0 < n) × (manifest_bytes v ≡ some n) × (docker_bytes t ≡ some n)
unfolding docker_memory
docker_memory-bytes v t h = by_number (positive (parse_uint ((cut_unit units v).0))) refl h
  where
    by_number :
        (o : Option ℕ)
        → positive (parse_uint ((cut_unit units v).0)) ≡ o
        → and_then o (λ n. some (itoa (pos n) ++ (cut_unit units v).1)) ≡ some t
        → (n : ℕ) × (0 < n) × (manifest_bytes v ≡ some n) × (docker_bytes t ≡ some n)
    by_number none e h = absurd (cc h)
    by_number (some n) e h =
        let num = (cut_unit units v).0 in
        let unit = (cut_unit units v).1 in
        let (read, more) = positive-some (parse_uint num) n e in
        let (suffix, split, same) = cut_unit-same units v units_same in
        let small = (parse_uint-digits num n read).1 in
        let printed =
          parse_uint-fits (itoa (pos n)) n (itoa-ne-nil n) (all_digits-itoa n) (digits_value-itoa n)
            small in
        (
          n * (suc same.0),
          grind (arith, more),
          subst (λ x. manifest_bytes x ≡ some (n * (suc same.0))) (sym split)
              (scaled-append manifest_scale num suffix n (suc same.0) read same.3 same.1),
          subst (λ x. docker_bytes x ≡ some (n * (suc same.0))) (unwrapped h)
              (scaled-append docker_scale (itoa (pos n)) unit n (suc same.0) printed same.4 same.2),
        )
