-- ===== src/Rpc/Answers.antt =====
-- internal/smoke/probe.go: a call is answered by the response that echoes its number, and no call that waits is forgotten.
use mcp_library.Common.{
  ℕ, ◌≤◌, ◌≡◌, ◌≢◌, refl, sym, ap, subst, ◌∙◌, inl, inr, true, false, List, [], ◌∷◌, some, All,
  All-map, Any, is_nil, on_if, length, arith, ◌==◌,
}
use mcp_library.Common.Decimal.{itoa}
use mcp_library.Common.Int.{pos}
use mcp_library.Common.Result.{Result, err}
use mcp_library.Common.Tests.{Bool-cases, Option-cases, ==_iff}
use mcp_library.Common.Text.{Text, text_eq, text_eq_iff}
use mcp_library.Rpc.Channels.{Reach-Inv}
use mcp_library.Rpc.Mail.{itoa-injective, Echoes, Kept, at_keys, channel-absent, channel-entry}
use mcp_library.Rpc.{
  CallError, session_closed, Incoming, id_key, outcome, Stdio, channel_of, mail_of, handle,
  first_mail, wake, may_wake, Reach,
}

mail-Echoes :
    (n : ℕ) (mail : List (ℕ × Incoming))
    → All (λ d. Echoes d.0 d.1) mail
    → All (Echoes n) (mail_of n mail)
mail-Echoes n [] h = tt
mail-Echoes n ((k, m) ∷ mail) h = elim (Bool-cases (k == n)) [
  | inl y ↦ rw y (subst (λ j. Echoes j m) ((==_iff k n).0 y) h.0, mail-Echoes n mail h.1)
  | inr other ↦ rw other (mail-Echoes n mail h.1)
]

-- In every state that a stdio session reaches by calls, messages, its end, and calls that give up
-- or wake, a call that wakes with anything but the end of the session has been sent just one
-- message, which is a response that echoes the call's own number, and it returns that message's
-- outcome.
pub wake-Echoes :
    {s : Stdio}
    → Reach s
    → (n : ℕ) (result : Result CallError Text) → (wake n s).0 ≡ result
    → result ≢ err session_closed
    → (m : Incoming) × (mail_of n s.mail ≡ m ∷ []) × Echoes n m × (result ≡ outcome m)
unfolding wake
wake-Echoes {s} r n result h answered =
    by_mail (mail_of n s.mail) ((Reach-Inv r).single n)
      (mail-Echoes n s.mail (All-map (λ d x. x.0) s.mail (Reach-Inv r).echoed)) h
  where
    by_mail :
        (ms : List Incoming)
        → length ms ≤ 1
        → All (Echoes n) ms
        → first_mail ms ≡ result
        → (m : Incoming) × (ms ≡ m ∷ []) × Echoes n m × (result ≡ outcome m)
    by_mail [] few echo e = absurd (answered (sym e))
    by_mail (m ∷ []) few echo e = (m, refl, echo.0, sym e)
    by_mail (m ∷ m' ∷ ms) few echo e = absurd (omega (arith, few))

All-at : {A : Type 0} (P : A → Type 0) (x : A) (xs : List A) → All P xs → Any (λ y. y ≡ x) xs → P x
All-at P x [] h a = elim a [ ]
All-at P x (y ∷ ys) h (inl e) = subst P e h.0
All-at P x (y ∷ ys) h (inr r) = All-at P x ys h.1 r

same_number : (n : ℕ) → (n == n) ≡ true
same_number n = (==_iff n n).1 refl

has_mail :
    (n : ℕ) (mail : List (ℕ × Incoming)) → Any (λ d. d.0 ≡ n) mail → is_nil (mail_of n mail) ≡ false
has_mail n [] h = elim h [ ]
has_mail n ((k, m) ∷ mail) (inl e) = rw (e, same_number n) refl
has_mail n ((k, m) ∷ mail) (inr r) =
    on_if (λ l. is_nil l ≡ false) (k == n) (λ y. refl) (λ other. has_mail n mail r)

-- The key of a number that has an entry leads to it.
channel-pending :
    (n : ℕ) (pending : List (Text × ℕ))
    → All (λ p. p.0 ≡ itoa (pos p.1)) pending
    → Any (λ p. p.1 ≡ n) pending
    → channel_of (itoa (pos n)) pending ≡ some n
channel-pending n pending keyed h = elim (Option-cases (channel_of (itoa (pos n)) pending)) [
  | inl absent ↦ absurd (nowhere pending keyed (channel-absent (itoa (pos n)) pending absent) h)
  | inr (j, found) ↦
      let (k, same, entry) =
        channel-entry (λ p. p.0 ≡ itoa (pos p.1)) (itoa (pos n)) pending j found keyed in
      found ∙ ap (λ i. some i) (itoa-injective j n (sym entry ∙ same))
]
  where
    nowhere :
        (pending : List (Text × ℕ))
        → All (λ p. p.0 ≡ itoa (pos p.1)) pending
        → All (λ p. text_eq p.0 (itoa (pos n)) ≡ false) pending
        → Any (λ p. p.1 ≡ n) pending
        → ⊥
    nowhere [] keyed absent h = h
    nowhere (p ∷ pending) keyed absent (inl e) =
        cc (absent.0, (text_eq_iff p.0 (itoa (pos n))).1 (keyed.0 ∙ ap (λ k. itoa (pos k)) e))
    nowhere (p ∷ pending) keyed absent (inr r) = nowhere pending keyed.1 absent.1 r

-- In every state that a stdio session reaches, a call that waits and that nothing wakes yet is one
-- that a response echoing its number wakes: no call is forgotten while it waits.
pub waiting-woken :
    {s : Stdio}
    → Reach s
    → (n : ℕ) → Any (λ k. k ≡ n) s.waiting
    → may_wake n s ≡ false
    → (m : Incoming) → Echoes n m
    → may_wake n (handle m s) ≡ true
unfolding handle
waiting-woken {s} r n waits asleep m echo =
    by_kept (All-at (Kept s) n s.waiting (Reach-Inv r).kept waits)
  where
    by_kept : Kept s n → may_wake n (handle m s) ≡ true
    by_kept (inl closed) = absurd (cc (rw closed at asleep))
    by_kept (inr (inr d)) = absurd (ground (arith, asleep, has_mail n s.mail d))
    by_kept (inr (inl p)) =
        let found : channel_of (id_key m.id) s.pending ≡ some n =
          ap (λ key. channel_of key s.pending) echo.1
          ∙ channel-pending n s.pending (at_keys (Reach-Inv r)) p in
        rw (echo.0, found, same_number n, handle) (ground arith)
