-- ===== src/Common/Regex.antt =====
-- What the program uses of the package regexp: an anchored match with its submatches. The first
-- alternative that leads to a match is taken, and a repetition takes as much as it can.
pub mod Times
use Prim.Native.Nat.{ℕ, zero, suc}
use mathlib.Core.Bool.{Bool, true, false, ◌||◌}
use mathlib.Core.List.{List, [], ◌∷◌}
use mathlib.Core.Option.{Option, none, some}
use mcp_library.Common.Lists.{length}
use mcp_library.Common.Tests.{◌==◌, if◌then◌else◌}
use mcp_library.Common.Text.{Text}

pub data Regex : Type 0 where
  eps : Regex
  one : (ℕ → Bool) → Regex
  seq alt : Regex → Regex → Regex
  star : Regex → Regex
  group : ℕ → Regex → Regex

abbrev pub Captures : Type 0
Captures = List (ℕ × Text)

abbrev Matcher : Type 0
Matcher = Text → Captures → (Text → Captures → Option Captures) → Option Captures

-- The text in front of the last `n` characters.
abbrev before : Text → ℕ → Text
before [] n = []
before (c ∷ s) n = let rest = c ∷ before s n in if length s == n then c ∷ [] else rest

-- A repetition whose body takes at least one character, at most `n` times.
star_loop : ℕ → Matcher → Matcher
star_loop zero m s caps k = k s caps
star_loop (suc n) m s caps k = elim (m s caps (λ s' caps'. star_loop n m s' caps' k)) [
  | some found ↦ some found
  | none ↦ k s caps
]

consumed : Text → Text → Text
consumed s rest = if length s == length rest then [] else before s (length rest)

run : Regex → Matcher
run eps s caps k = k s caps
run (one p) [] caps k = none
run (one p) (c ∷ s) caps k = elim (p c) [ true ↦ k s caps | false ↦ none ]
run (seq a b) s caps k = run a s caps (λ s' caps'. run b s' caps' k)
run (alt a b) s caps k = elim (run a s caps k) [ some found ↦ some found | none ↦ run b s caps k ]
run (star a) s caps k = star_loop (length s) (run a) s caps k
run (group n a) s caps k = run a s caps (λ s' caps'. k s' ((n, consumed s s') ∷ caps'))

whole : Text → Captures → Option Captures
whole [] caps = some caps
whole (c ∷ s) caps = none

-- The submatches of `^r$` on the text.
unfoldable pub find_submatch : Regex → Text → Option Captures
unfolding run star_loop whole consumed
find_submatch r s = run r s [] whole

unfoldable pub matches : Regex → Text → Bool
unfolding find_submatch
matches r s = elim (find_submatch r s) [ some found ↦ true | none ↦ false ]

-- A submatch, "" where its group took no part.
abbrev pub submatch : ℕ → Captures → Text
submatch n [] = []
submatch n ((k, t) ∷ caps) = if k == n then t else submatch n caps

-- Patterns.
abbrev pub char : ℕ → Regex
char c = one (λ d. c == d)

abbrev pub opt : Regex → Regex
opt r = alt r eps

abbrev pub plus : Regex → Regex
plus r = seq r (star r)

abbrev pub word : Text → Regex
word [] = eps
word (c ∷ []) = char c
word (c ∷ d ∷ s) = seq (char c) (word (d ∷ s))

abbrev pub times : ℕ → Regex → Regex
times zero r = eps
times (suc n) r = seq r (times n r)

abbrev has_char : ℕ → Text → Bool
has_char d [] = false
has_char d (c ∷ cs) = c == d || has_char d cs

abbrev pub one_of : Text → Regex
one_of cs = one (λ d. has_char d cs)
