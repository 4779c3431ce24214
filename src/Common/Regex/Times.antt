-- ===== src/Common/Regex/Times.antt =====
-- What an expression for a fixed number of characters of one class matches.
use mcp_library.Common.Lists.{All, length}
use mathlib.Core.Path.{◌≡◌, refl}
use mathlib.Core.Bool.{Bool, true, false}
use mathlib.Core.Logic.{◌↔◌, inl, inr}
use mathlib.Core.List.{[], ◌∷◌}
use mathlib.Core.Option.{Option, none, some}
use native.Mathlib.Omega.{arith}
use Prim.Native.Nat.{ℕ, zero, suc}
use mcp_library.Common.Tests.{Bool-cases, is_some}
use mcp_library.Common.Text.{Text}
use mcp_library.Common.Regex.{Captures, one, times, run, whole, matches}

-- As many characters as there are, all of the class.
abbrev pub Spelled : ℕ → (ℕ → Bool) → Text → Type 0
Spelled n p s = (length s ≡ n) × All (λ c. p c ≡ true) s

run-times :
    (n : ℕ) (p : ℕ → Bool) (s : Text) (caps : Captures)
    → (is_some (run (times n (one p)) s caps whole) ≡ true) ↔ Spelled n p s
unfolding run whole
run-times zero p [] caps = (λ h. (refl, tt), λ h. refl)
run-times zero p (c ∷ s) caps = (λ h. absurd (cc h), λ h. absurd (omega (arith, h.0)))
run-times (suc n) p [] caps = (λ h. absurd (cc h), λ h. absurd (omega (arith, h.0)))
run-times (suc n) p (c ∷ s) caps = elim (Bool-cases (p c)) [
  | inl fits ↦ (
    λ h.
        let (long, all) = (run-times n p s caps).0 (rw (fits, run) at h) in
        (omega (arith, long), (fits, all)),
    λ h. rw (fits, run) ((run-times n p s caps).1 (omega (arith, h.0), h.1.1)),
  )
  | inr other ↦ (λ h. absurd (cc (rw (other, run) at h)), λ h. absurd (cc (other, h.1.0)))
]

pub matches-times :
    (n : ℕ) (p : ℕ → Bool) (s : Text) → (matches (times n (one p)) s ≡ true) ↔ Spelled n p s
unfolding matches
matches-times n p s =
    (λ h. (run-times n p s []).0 (as_some _ h), λ h. as_true _ ((run-times n p s []).1 h))
  where
    as_some :
        (o : Option Captures)
        → elim o [ some found ↦ true | none ↦ false ] ≡ true
        → is_some o ≡ true
    as_some (some c) h = refl
    as_some none h = cc h

    as_true :
        (o : Option Captures)
        → is_some o ≡ true
        → elim o [ some found ↦ true | none ↦ false ] ≡ true
    as_true (some c) h = refl
    as_true none h = cc h
