-- ===== src/Common/Decimal.antt =====
-- Decimal numerals: `strconv.Itoa` and `strconv.Atoi`, and their round trip.
use Prim.Native.Nat.{ℕ, zero, suc, ◌+◌, ◌/◌, ◌%◌, ◌≤◌, ◌<◌}
use mathlib.Core.Path.{◌≡◌, refl, ap, ◌∙◌}
use mathlib.Core.Logic.{◌≢◌}
use mathlib.Core.Bool.{Bool, true, false, ◌&&◌}
use mathlib.Core.List.{[], ◌∷◌}
use mathlib.Core.Option.{Option, none, some}
use native.Mathlib.Omega.{arith}
use mcp_library.Common.Int.{
  ℤ, pos, negsuc, max_int, is_digit, all_digits, digits_from, digits_value, atoi_digits,
}
use mcp_library.Common.Lists.{All}
use mcp_library.Common.Tests.{ltb, leb, ◌==◌, if◌then◌else◌, on_elim}
use mcp_library.Common.Text.{Text}

abbrev pub is_nonzero : ℤ → Bool
is_nonzero (pos zero) = false
is_nonzero (pos (suc n)) = true
is_nonzero (negsuc n) = true

abbrev pub eq_ℤ : ℤ → ℤ → Bool
eq_ℤ (pos a) (pos b) = a == b
eq_ℤ (negsuc a) (negsuc b) = a == b
eq_ℤ _ _ = false

pub eq_ℤ→eq : (a b : ℤ) → eq_ℤ a b ≡ true → a ≡ b
eq_ℤ→eq (pos a) (pos b) h = ground arith
eq_ℤ→eq (pos a) (negsuc b) h = absurd (cc h)
eq_ℤ→eq (negsuc a) (pos b) h = absurd (cc h)
eq_ℤ→eq (negsuc a) (negsuc b) h = ground arith

pub eq_ℤ_refl : (a : ℤ) → eq_ℤ a a ≡ true
eq_ℤ_refl (pos a) = ground arith
eq_ℤ_refl (negsuc a) = ground arith

-- The digits of a number, in front of what follows; more fuel than the number is enough.
print_from : ℕ → ℕ → Text → Text
print_from zero n rest = rest
print_from (suc f) n rest = elim (ltb n 10) [
  | true ↦ (n % 10 + b'0') ∷ rest
  | false ↦ print_from f (n / 10) ((n % 10 + b'0') ∷ rest)
]

unfoldable pub itoa : ℤ → Text
unfolding print_from
itoa (pos n) = print_from (suc n) n []
itoa (negsuc n) = b'-' ∷ print_from (suc (suc n)) (suc n) []

abbrev negated : ℕ → ℤ
negated zero = pos zero
negated (suc n) = negsuc n

-- Digits behind a minus: `math.MinInt` has one more than `math.MaxInt`.
abbrev minus_digits : Text → Option ℤ
minus_digits [] = none
minus_digits (c ∷ s) =
    if all_digits (c ∷ s) && leb (digits_value (c ∷ s)) (max_int + 1)
    then some (negated (digits_value (c ∷ s)))
    else none

-- A sign may stand in front of the digits.
unfoldable pub atoi : Text → Option ℤ
unfolding atoi_digits digits_value
atoi [] = none
atoi (c ∷ s) =
    if c == b'-' then minus_digits s else if c == b'+' then atoi_digits s else atoi_digits (c ∷ s)

-- What is printed in front of digits is read as the number in front of them.
digits_from-print :
    (f n : ℕ) (rest : Text) → n < f → digits_from 0 (print_from f n rest) ≡ digits_from n rest
unfolding print_from digits_from
digits_from-print zero n rest h = absurd (omega arith)
digits_from-print (suc f) n rest h =
    on_elim (λ s. digits_from 0 s ≡ digits_from n rest) (ltb n 10)
      (λ small. ap (λ m. digits_from m rest) (ground arith))
      (λ large.
        digits_from-print f (n / 10) ((n % 10 + b'0') ∷ rest) (ground arith)
        ∙ ap (λ m. digits_from m rest) (omega arith))

module _ (P : ℕ → Type 0) (digit : (d : ℕ) → d < 10 → P (d + b'0')) where
  -- What holds of every digit holds of the characters of a printed number.
  All-print_from : (f n : ℕ) (rest : Text) → All P rest → All P (print_from f n rest)
  unfolding print_from
  All-print_from zero n rest h = h
  All-print_from (suc f) n rest h =
      on_elim (All P) (ltb n 10) (λ small. (digit (n % 10) (omega arith), h))
        (λ large. All-print_from f (n / 10) _ (digit (n % 10) (omega arith), h))

  pub All-itoa : (n : ℕ) → All P (itoa (pos n))
  unfolding itoa
  All-itoa n = All-print_from (suc n) n [] tt

print_from-cons : (f n : ℕ) (d : ℕ) (rest : Text) → print_from f n (d ∷ rest) ≢ []
unfolding print_from
print_from-cons zero n d rest = cc
print_from-cons (suc f) n d rest =
    on_elim (λ s. s ≢ []) (ltb n 10) (λ small. cc) (λ large. print_from-cons f (n / 10) _ _)

pub itoa-ne-nil : (n : ℕ) → itoa (pos n) ≢ []
unfolding itoa print_from
itoa-ne-nil n =
    on_elim (λ s. s ≢ []) (ltb n 10) (λ small. cc) (λ large. print_from-cons n (n / 10) _ [])

all_digits-of : (s : Text) → All (λ c. is_digit c ≡ true) s → all_digits s ≡ true
all_digits-of [] h = refl
all_digits-of (c ∷ s) h = rw (h.0, all_digits-of s h.1) refl

atoi-digits : (s : Text) → s ≢ [] → all_digits s ≡ true → atoi s ≡ atoi_digits s
unfolding atoi
atoi-digits [] h d = absurd (h refl)
atoi-digits (c ∷ s) h d = ground arith

atoi_digits-fits :
    (s : Text) (n : ℕ)
    → s ≢ []
    → all_digits s ≡ true
    → digits_value s ≡ n
    → n ≤ max_int
    → atoi_digits s ≡ some (pos n)
unfolding atoi_digits
atoi_digits-fits [] n h d v fits = absurd (h refl)
atoi_digits-fits (c ∷ s) n h d v fits = rw (d, v) (ground arith)

pub all_digits-itoa : (n : ℕ) → all_digits (itoa (pos n)) ≡ true
all_digits-itoa n =
    all_digits-of (itoa (pos n)) (All-itoa (λ c. is_digit c ≡ true) (λ d h. ground arith) n)

pub digits_value-itoa : (n : ℕ) → digits_value (itoa (pos n)) ≡ n
unfolding itoa digits_value digits_from
digits_value-itoa n = digits_from-print (suc n) n [] (omega arith)

-- A number that fits is read back from its numeral.
pub atoi-itoa : (n : ℕ) → n ≤ max_int → atoi (itoa (pos n)) ≡ some (pos n)
atoi-itoa n fits =
    atoi-digits (itoa (pos n)) (itoa-ne-nil n) (all_digits-itoa n)
    ∙ atoi_digits-fits (itoa (pos n)) n (itoa-ne-nil n) (all_digits-itoa n) (digits_value-itoa n)
        fits
