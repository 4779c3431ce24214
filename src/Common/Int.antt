-- ===== src/Common/Int.antt =====
-- Go's 64-bit int, as far as the program compares and parses it.
use Prim.Native.Nat.{ℕ, ◌+◌, ◌-◌, ◌*◌, ◌^◌, Ordering}
use mathlib.Core.Bool.{Bool, true, false, ◌&&◌}
use mathlib.Core.List.{[], ◌∷◌}
use mathlib.Core.Option.{Option, none, some}
use native.Mathlib.Omega.{arith}
use mcp_library.Common.Order.{IsPreorder}
use mcp_library.Common.Tests.{ltb, leb, if◌then◌else◌}
use mcp_library.Common.Text.{Text}

-- `negsuc n` is -(n + 1).
pub data ℤ : Type 0 where
  pos : ℕ → ℤ
  negsuc : ℕ → ℤ

abbrev pub max_int : ℕ
max_int = 2 ^ 63 - 1

-- math.MinInt.
abbrev pub min_int : ℤ
min_int = negsuc max_int

abbrev pub ltb_ℤ : ℤ → ℤ → Bool
ltb_ℤ (pos a) (pos b) = ltb a b
ltb_ℤ (pos a) (negsuc b) = false
ltb_ℤ (negsuc a) (pos b) = true
ltb_ℤ (negsuc a) (negsuc b) = ltb b a

-- internal/audit/version.go: cmpInt.
unfoldable pub cmp_int : ℤ → ℤ → Ordering
cmp_int a b = if ltb_ℤ a b then Ordering.lt else if ltb_ℤ b a then Ordering.gt else Ordering.eq

pub cmp_int-IsPreorder : IsPreorder cmp_int
unfolding cmp_int
cmp_int-IsPreorder = record {
  reflexive = λ a. ground arith;
  exchange = λ a b. ground arith;
  compose = λ a b c. ground arith;
}

abbrev pub is_digit : ℕ → Bool
is_digit c = leb b'0' c && leb c b'9'

abbrev pub all_digits : Text → Bool
all_digits [] = true
all_digits (c ∷ s) = is_digit c && all_digits s

-- The number that digits spell.
unfoldable pub digits_from : ℕ → Text → ℕ
digits_from n [] = n
digits_from n (c ∷ s) = digits_from (n * 10 + (c - b'0')) s

unfoldable pub digits_value : Text → ℕ
unfolding digits_from
digits_value s = digits_from 0 s

-- internal/audit/version.go: atoiDigits. `strconv.Atoi` refuses digits whose number does not fit.
unfoldable pub atoi_digits : Text → Option ℤ
unfolding digits_value
atoi_digits [] = none
atoi_digits (c ∷ s) =
    if all_digits (c ∷ s) && leb (digits_value (c ∷ s)) max_int
    then some (pos (digits_value (c ∷ s)))
    else none

-- `n, _ = strconv.Atoi(s)` on digits: the largest int where the number does not fit, 0 on "".
unfoldable pub atoi_lenient : Text → ℤ
unfolding digits_value
atoi_lenient s = if leb (digits_value s) max_int then pos (digits_value s) else pos max_int
