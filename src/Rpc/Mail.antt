-- ===== src/Rpc/Mail.antt =====
-- internal/smoke/probe.go: what a session holds for its calls: each waits under a key of its own and
-- is sent one message at most.
use mcp_library.Common.{
  ℕ, ◌≤◌, ◌<◌, ◌≡◌, ◌≢◌, refl, sym, ap, subst, ◌∙◌, ◌⊎◌, inl, inr, Bool, true, false, not, List, [],
  ◌∷◌, none, some, All, All-map, Any, Any-map, on_if, filter_by, Any-filter, Any-All, length, arith,
  ◌==◌, if◌then◌else◌,
}
use mcp_library.Common.Decimal.{itoa, digits_value-itoa}
use mcp_library.Common.Int.{pos, digits_value}
use mcp_library.Common.Tests.{Bool-cases}
use mcp_library.Common.Text.{Text, text_eq, text_eq→eq}
use mcp_library.Rpc.{Incoming, is_response, id_key, Stdio, delete, channel_of, mail_of}

pub itoa-injective : (m n : ℕ) → itoa (pos m) ≡ itoa (pos n) → m ≡ n
itoa-injective m n h = sym (digits_value-itoa m) ∙ ap digits_value h ∙ digits_value-itoa n

-- The message is a response that echoes the number.
abbrev pub Echoes : ℕ → Incoming → Type 0
Echoes n m = (is_response m ≡ true) × (id_key m.id ≡ itoa (pos n))

abbrev pub Kept : Stdio → ℕ → Type 0
Kept s n = (s.closed ≡ true) ⊎ (Any (λ p. p.1 ≡ n) s.pending ⊎ Any (λ d. d.0 ≡ n) s.mail)

pub record Inv (s : Stdio) : Type 0 where
  pub keyed :
      All (λ p. (p.0 ≡ itoa (pos p.1)) × (p.1 ≤ s.next) × (mail_of p.1 s.mail ≡ [])) s.pending
  pub echoed : All (λ d. Echoes d.0 d.1 × (d.0 ≤ s.next)) s.mail
  pub single : (n : ℕ) → length (mail_of n s.mail) ≤ 1
  pub kept : All (Kept s) s.waiting

-- Nothing was sent to a number above all those that were sent to.
pub mail-above :
    (n next : ℕ) (mail : List (ℕ × Incoming))
    → All (λ d. Echoes d.0 d.1 × (d.0 ≤ next)) mail
    → next < n
    → mail_of n mail ≡ []
mail-above n next [] h above = refl
mail-above n next ((k, m) ∷ mail) h above =
    on_if (λ l. l ≡ []) (k == n) (λ y. absurd (ground (arith, h.0.1)))
      (λ no. mail-above n next mail h.1 above)

pub not-true : (b : Bool) → not b ≡ true → b ≡ false
not-true true h = absurd (cc h)
not-true false h = refl

-- Another number has another key.
other_key :
    (p : Text × ℕ) (n : ℕ)
    → p.0 ≡ itoa (pos p.1)
    → p.1 ≢ n
    → not (text_eq p.0 (itoa (pos n))) ≡ true
other_key p n keyed apart = elim (Bool-cases (text_eq p.0 (itoa (pos n)))) [
  | inr n' ↦ rw n' refl
  | inl y ↦ absurd (apart (itoa-injective p.1 n (sym keyed ∙ text_eq→eq p.0 (itoa (pos n)) y)))
]

-- Deleting the key of one number leaves the entries of another.
pub Any-delete :
    (k n : ℕ) (pending : List (Text × ℕ))
    → k ≢ n
    → All (λ p. p.0 ≡ itoa (pos p.1)) pending
    → Any (λ p. p.1 ≡ k) pending
    → Any (λ p. p.1 ≡ k) (delete (itoa (pos n)) pending)
Any-delete k n pending apart keyed h =
    Any-map (λ p x. x.0) (delete (itoa (pos n)) pending)
      (Any-filter (λ p. (p.1 ≡ k) × (p.0 ≡ itoa (pos p.1))) (λ p. not (text_eq p.0 (itoa (pos n))))
        pending (λ p x. other_key p n x.1 (λ e. apart (sym x.0 ∙ e)))
        (Any-All (λ p. p.1 ≡ k) (λ p. p.0 ≡ itoa (pos p.1)) pending h keyed))

pub at_keys : {s : Stdio} → Inv s → All (λ p. p.0 ≡ itoa (pos p.1)) s.pending
at_keys {s} inv = All-map (λ p x. x.0) s.pending inv.keyed

pub mail_of-filter :
    (n k : ℕ) (mail : List (ℕ × Incoming))
    → mail_of k (filter_by (λ d. not (d.0 == n)) mail) ≡ (if k == n then [] else mail_of k mail)
mail_of-filter n k [] = ground arith
mail_of-filter n k ((j, m) ∷ mail) = elim (Bool-cases (j == n)) [
  | inl y ↦ rw (y, mail_of-filter n k mail) (taken (k == n) (λ no. ground (arith, y, no)))
  | inr other ↦ rw (other, mail_of-filter n k mail) (ground arith)
]
  where
    taken :
        (b : Bool)
        → (b ≡ false → (j == k) ≡ false)
        → (if b then [] else mail_of k mail)
          ≡ (if b then [] else (if j == k then m ∷ mail_of k mail else mail_of k mail))
    taken true h = refl
    taken false h = rw (h refl) refl

pub channel-absent :
    (key : Text) (pending : List (Text × ℕ))
    → channel_of key pending ≡ none
    → All (λ p. text_eq p.0 key ≡ false) pending
channel-absent key [] h = tt
channel-absent key ((k, n) ∷ pending) h = elim (Bool-cases (text_eq k key)) [
  | inl y ↦ absurd (cc (rw y at h))
  | inr other ↦ (other, channel-absent key pending (rw other at h))
]

-- The entry that a key leads to.
pub channel-entry :
    (P : Text × ℕ → Type 0) (key : Text) (pending : List (Text × ℕ)) (n : ℕ)
    → channel_of key pending ≡ some n
    → All P pending
    → (k : Text) × (k ≡ key) × P (k, n)
channel-entry P key [] n h all = absurd (cc h)
channel-entry P key ((k, j) ∷ pending) n h all = elim (Bool-cases (text_eq k key)) [
  | inl y ↦ let e : j ≡ n = cc (rw y at h) in (k, text_eq→eq k key y, subst (λ i. P (k, i)) e all.0)
  | inr other ↦ channel-entry P key pending n (rw other at h) all.1
]
