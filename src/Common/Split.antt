-- ===== src/Common/Split.antt =====
-- Laws of `split` and `join` at one character.
use mathlib.Core.Path.{◌≡◌, refl, sym, ap, ◌∙◌}
use mathlib.Core.Logic.{◌≢◌, inl, inr}
use mathlib.Core.Bool.{Bool, true, false}
use mathlib.Core.List.{List, [], ◌∷◌, ◌++◌}
use native.Mathlib.Omega.{arith}
use Prim.Native.Nat.{ℕ}
use mcp_library.Common.Lists.{All}
use mcp_library.Common.Tests.{◌==◌, if◌then◌else◌, Bool-cases}
use mcp_library.Common.Text.{Text, split, join, push_head}

abbrev pub Lacks : ℕ → Text → Type 0
Lacks c = All (λ d. d ≢ c)

split-ne-nil : (c : ℕ) (s : Text) → split c s ≢ []
unfolding split
split-ne-nil c [] = cc
split-ne-nil c (d ∷ s) = by_parts (d == c) (split c s)
  where
    by_parts : (b : Bool) (parts : List Text) → (if b then [] ∷ parts else push_head d parts) ≢ []
    by_parts true parts = cc
    by_parts false [] = cc
    by_parts false (p ∷ ps) = cc

join-push_head :
    (c d : ℕ) (parts : List Text) → parts ≢ [] → join c (push_head d parts) ≡ d ∷ join c parts
unfolding join
join-push_head c d [] h = absurd (h refl)
join-push_head c d (p ∷ []) h = refl
join-push_head c d (p ∷ q ∷ ps) h = refl

join-nil_cons : (c : ℕ) (parts : List Text) → parts ≢ [] → join c ([] ∷ parts) ≡ c ∷ join c parts
unfolding join
join-nil_cons c [] h = absurd (h refl)
join-nil_cons c (q ∷ ps) h = refl

-- Joining the parts of a split gives the text back.
pub join-split : (c : ℕ) (s : Text) → join c (split c s) ≡ s
unfolding split
join-split c [] = unfold join in refl
join-split c (d ∷ s) = elim (Bool-cases (d == c)) [
  | inl e ↦ rw e (join-nil_cons c (split c s) (split-ne-nil c s) ∙ ground (arith, join-split c s))
  | inr e ↦
      rw e (join-push_head c d (split c s) (split-ne-nil c s) ∙ ap (λ t. d ∷ t) (join-split c s))
]

push_head-append :
    (d : ℕ) (parts rest : List Text)
    → parts ≢ []
    → push_head d parts ++ rest ≡ push_head d (parts ++ rest)
push_head-append d [] rest h = absurd (h refl)
push_head-append d (p ∷ ps) rest h = refl

-- A separator between two texts cuts there.
pub split-append : (c : ℕ) (a b : Text) → split c (a ++ c ∷ b) ≡ split c a ++ split c b
unfolding split
split-append c [] b = ground arith
split-append c (d ∷ a) b = elim (Bool-cases (d == c)) [
  | inl e ↦ rw (e, split-append c a b) refl
  | inr e ↦
      rw (e, split-append c a b)
        (sym (push_head-append d (split c a) (split c b) (split-ne-nil c a)))
]

split-Lacks : (c : ℕ) (s : Text) → Lacks c s → split c s ≡ s ∷ []
unfolding split
split-Lacks c [] h = refl
split-Lacks c (d ∷ s) h = rw (split-Lacks c s h.1) (ground (arith, h.0))

-- Splitting a join gives the parts back.
pub split-join :
    (c : ℕ) (p : Text) (ps : List Text)
    → All (Lacks c) (p ∷ ps)
    → split c (join c (p ∷ ps)) ≡ p ∷ ps
unfolding join
split-join c p [] h = split-Lacks c p h.0
split-join c p (q ∷ ps) h =
    split-append c p (join c (q ∷ ps)) ∙ rw (split-Lacks c p h.0, split-join c q ps h.1) refl

All-push_head :
    (c d : ℕ) (parts : List Text) → d ≢ c → All (Lacks c) parts → All (Lacks c) (push_head d parts)
All-push_head c d [] n h = ((n, tt), tt)
All-push_head c d (p ∷ ps) n h = ((n, h.0), h.1)

-- No part holds the separator.
pub All-Lacks-split : (c : ℕ) (s : Text) → All (Lacks c) (split c s)
unfolding split
All-Lacks-split c [] = (tt, tt)
All-Lacks-split c (d ∷ s) = elim (Bool-cases (d == c)) [
  | inl e ↦ rw e (tt, All-Lacks-split c s)
  | inr e ↦ rw e (All-push_head c d (split c s) (ground arith) (All-Lacks-split c s))
]
