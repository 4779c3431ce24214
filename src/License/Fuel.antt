-- ===== src/License/Fuel.antt =====
-- The recursive descent ends: three levels for each token are enough fuel.
use mcp_library.Common.{
  ℕ, zero, suc, ◌+◌, ◌*◌, ◌≤◌, ◌<◌, ◌≡◌, ◌≢◌, true, List, [], ◌∷◌, arith, length, on_elim,
}
use mcp_library.Common.Text.{Text, codes, text_eq}
use mcp_library.License.{
  LicenseClass, Parsed, parsed, failed, exhausted, and_then, close_group, parse_license,
  is_reserved, is_or, is_and, is_open, peek, advance, parse_or, or_loop, parse_and, and_loop,
  parse_term, best_of, worst_of, parse_fuel,
}

-- Not out of fuel, and fewer than `m` tokens are left.
abbrev Within : ℕ → Parsed → Type 0
Within m (parsed c rest) = length rest < m
Within m failed = Unit
Within m exhausted = ⊥

and_then-Within :
    (m m' : ℕ) (r : Parsed) (k : LicenseClass → List Text → Parsed)
    → Within m r
    → ((c : LicenseClass) (rest : List Text) → length rest < m → Within m' (k c rest))
    → Within m' (and_then r k)
and_then-Within m m' (parsed c rest) k h f = f c rest h
and_then-Within m m' failed k h f = tt
and_then-Within m m' exhausted k h f = absurd h

Within-mono : (m m' : ℕ) (r : Parsed) → m ≤ m' → Within m r → Within m' r
Within-mono m m' (parsed c rest) le h = omega arith
Within-mono m m' failed le h = tt
Within-mono m m' exhausted le h = h

parse_license-Within : (ts : List Text) → Within (length ts) (parse_license ts)
unfolding parse_license is_reserved text_eq
parse_license-Within [] = tt
parse_license-Within (t ∷ []) = ground arith
parse_license-Within (t ∷ u ∷ []) = ground arith
parse_license-Within (t ∷ u ∷ v ∷ ts) = ground arith

advance_le : (ts : List Text) → length (advance ts) ≤ length ts
advance_le [] = omega arith
advance_le (t ∷ ts) = omega arith

close_group-Within :
    (m : ℕ) (c : LicenseClass) (ts : List Text) → length ts < m → Within m (close_group c ts)
close_group-Within m c ts h = ground (arith, advance_le ts)

advance_lt :
    (c : ℕ) (w : Text) (ts : List Text)
    → text_eq (peek ts) (c ∷ w) ≡ true
    → length (advance ts) < length ts
unfolding text_eq
advance_lt c w [] h = cc
advance_lt c w (t ∷ ts) h = omega arith

mutual
  unfolding parse_or or_loop parse_and and_loop parse_term

  parse_or-Within :
      (n : ℕ) (ts : List Text) → 3 * length ts + 3 ≤ n → Within (length ts) (parse_or n ts)
  parse_or-Within zero ts h = absurd (omega arith)
  parse_or-Within (suc n) ts h =
      and_then-Within (length ts) (length ts) (parse_and n ts) (or_loop n)
        (parse_and-Within n ts (omega arith))
        (λ c rest lt.
          Within-mono (suc (length rest)) (length ts) (or_loop n c rest) lt
            (or_loop-Within n c rest (omega arith)))

  or_loop-Within :
      (n : ℕ) (b : LicenseClass) (ts : List Text)
      → 3 * length ts + 1 ≤ n
      → Within (suc (length ts)) (or_loop n b ts)
  or_loop-Within zero b ts h = absurd (omega arith)
  or_loop-Within (suc n) b ts h =
      on_elim (Within (suc (length ts))) (is_or (peek ts))
        (λ more.
          let lt = advance_lt b'O' (codes "R") ts more in
          and_then-Within (length (advance ts)) (suc (length ts)) (parse_and n (advance ts)) _
            (parse_and-Within n (advance ts) (omega arith))
            (λ c rest below.
              Within-mono (suc (length rest)) (suc (length ts)) (or_loop n (best_of b c) rest)
                (omega arith) (or_loop-Within n (best_of b c) rest (omega arith))))
        (λ done. omega arith)

  parse_and-Within :
      (n : ℕ) (ts : List Text) → 3 * length ts + 2 ≤ n → Within (length ts) (parse_and n ts)
  parse_and-Within zero ts h = absurd (omega arith)
  parse_and-Within (suc n) ts h =
      and_then-Within (length ts) (length ts) (parse_term n ts) (and_loop n)
        (parse_term-Within n ts (omega arith))
        (λ c rest lt.
          Within-mono (suc (length rest)) (length ts) (and_loop n c rest) lt
            (and_loop-Within n c rest (omega arith)))

  and_loop-Within :
      (n : ℕ) (w : LicenseClass) (ts : List Text)
      → 3 * length ts + 1 ≤ n
      → Within (suc (length ts)) (and_loop n w ts)
  and_loop-Within zero w ts h = absurd (omega arith)
  and_loop-Within (suc n) w ts h =
      on_elim (Within (suc (length ts))) (is_and (peek ts))
        (λ more.
          let lt = advance_lt b'A' (codes "ND") ts more in
          and_then-Within (length (advance ts)) (suc (length ts)) (parse_term n (advance ts)) _
            (parse_term-Within n (advance ts) (omega arith))
            (λ c rest below.
              Within-mono (suc (length rest)) (suc (length ts)) (and_loop n (worst_of w c) rest)
                (omega arith) (and_loop-Within n (worst_of w c) rest (omega arith))))
        (λ done. omega arith)

  parse_term-Within :
      (n : ℕ) (ts : List Text) → 3 * length ts + 1 ≤ n → Within (length ts) (parse_term n ts)
  parse_term-Within zero ts h = absurd (omega arith)
  parse_term-Within (suc n) ts h =
      on_elim (Within (length ts)) (is_open (peek ts))
        (λ opened.
          let lt = advance_lt b'(' [] ts opened in
          and_then-Within (length (advance ts)) (length ts) (parse_or n (advance ts)) close_group
            (parse_or-Within n (advance ts) (omega arith))
            (λ c rest below. close_group-Within (length ts) c rest (omega arith)))
        (λ plain. parse_license-Within ts)

ne-exhausted_of_Within : (m : ℕ) (r : Parsed) → Within m r → r ≢ exhausted
ne-exhausted_of_Within m (parsed c rest) h = cc
ne-exhausted_of_Within m failed h = cc
ne-exhausted_of_Within m exhausted h = absurd h

-- With the fuel that ClassifyLicense's model gives it, three for each token and three more, the
-- parser does not run out of fuel on any tokens.
pub parse_or-ne-exhausted : (ts : List Text) → parse_or (parse_fuel ts) ts ≢ exhausted
parse_or-ne-exhausted ts =
    ne-exhausted_of_Within (length ts) _ (parse_or-Within (parse_fuel ts) ts (omega arith))
