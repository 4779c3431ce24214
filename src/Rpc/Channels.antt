-- ===== src/Rpc/Channels.antt =====
-- internal/smoke/probe.go: the invariant of a session. A channel never holds two messages, its messages
-- echo its number, and no call that waits is forgotten.
use mcp_library.Common.{
  ℕ, suc, ◌≤◌, ◌≡◌, ◌≢◌, refl, sym, ap, subst, ◌∙◌, inl, inr, true, false, not, [], ◌∷◌, Option,
  none, some, All-map, Any, Any-map, on_if, filter_by, All-filter, All-passes, Any-filter, Any-All,
  All-both, length, arith, ◌==◌,
}
use mcp_library.Common.Decimal.{itoa}
use mcp_library.Common.Int.{pos}
use mcp_library.Common.Tests.{Bool-cases, ==_iff}
use mcp_library.Common.Text.{Text, text_eq, text_eq_iff}
use mcp_library.Rpc.{
  Incoming, is_response, id_key, Stdio, delete, channel_of, mail_of, begin, deliver, handle, shut,
  give_up, wake, Reach, dialed, called, received, ended, gave_up, woken,
}
use mcp_library.Rpc.Mail.{
  Kept, Inv, at_keys, channel-absent, channel-entry, mail-above, not-true, Any-delete,
  mail_of-filter,
}

-- A session with one more call.
abbrev opened : Stdio → Stdio
opened s = record s {
  next = suc s.next;
  pending = (itoa (pos (suc s.next)), suc s.next) ∷ delete (itoa (pos (suc s.next))) s.pending;
  waiting = suc s.next ∷ s.waiting;
}

apart_of : (a b : ℕ) → (a == b) ≡ false → a ≢ b
apart_of a b h e = cc (h, (==_iff a b).1 e)

opened-Kept : (s : Stdio) → Inv s → (k : ℕ) → Kept s k → Kept (opened s) k
opened-Kept s inv k (inl c) = inl c
opened-Kept s inv k (inr (inr m)) = inr (inr m)
opened-Kept s inv k (inr (inl p)) = elim (Bool-cases (k == suc s.next)) [
  | inl y ↦ inr (inl (inl (sym ((==_iff k (suc s.next)).0 y))))
  | inr other ↦ inr (
      inl
        (inr (Any-delete k (suc s.next) s.pending (apart_of k (suc s.next) other) (at_keys inv) p)))
]

begin-Inv : (s : Stdio) → Inv s → Inv (begin s)
unfolding begin
begin-Inv s inv =
    on_if Inv s.closed (λ y. inv)
      (λ n. record {
        keyed = (
          (refl, omega arith, mail-above (suc s.next) s.next s.mail inv.echoed (omega arith)),
          All-map (λ p x. (x.0, omega (arith, x.1), x.2))
              (delete (itoa (pos (suc s.next))) s.pending)
              (All-filter _ (λ p. not (text_eq p.0 (itoa (pos (suc s.next))))) s.pending inv.keyed),
        );
        echoed = All-map (λ d x. (x.0, omega (arith, x.1))) s.mail inv.echoed;
        single = inv.single;
        kept = (inr (inl (inl refl)), All-map (λ k x. opened-Kept s inv k x) s.waiting inv.kept);
      })

shut-Inv : (s : Stdio) → Inv s → Inv (shut s)
unfolding shut
shut-Inv s inv =
    on_if Inv s.closed (λ y. inv)
      (λ n. record {
        keyed = tt;
        echoed = inv.echoed;
        single = inv.single;
        kept = All-map (λ k x. inl refl) s.waiting inv.kept;
      })

give_up-Inv : (n : ℕ) (s : Stdio) → Inv s → Inv (give_up n s)
unfolding give_up
give_up-Inv n s inv = record {
  keyed = All-filter _ (λ p. not (text_eq p.0 (itoa (pos n)))) s.pending inv.keyed;
  echoed = inv.echoed;
  single = inv.single;
  kept =
      All-map (λ k x. others k x) (filter_by (λ k. not (k == n)) s.waiting)
        (All-both _ _ (filter_by (λ k. not (k == n)) s.waiting)
          (All-passes (λ k. Kept s k) (λ k. not (k == n)) s.waiting)
          (All-filter (Kept s) (λ k. not (k == n)) s.waiting inv.kept));
}
  where
    others :
        (k : ℕ)
        → (not (k == n) ≡ true) × Kept s k
        → Kept
            (record s {
              pending = delete (itoa (pos n)) s.pending;
              waiting = filter_by (λ k. not (k == n)) s.waiting;
            })
            k
    others k (apart, inl c) = inl c
    others k (apart, inr (inr m)) = inr (inr m)
    others k (apart, inr (inl p)) =
        inr
          (inl (Any-delete k n s.pending (apart_of k n (not-true (k == n) apart)) (at_keys inv) p))

-- The mail of a number, where that of another is taken out.
wake-Inv : (n : ℕ) (s : Stdio) → Inv s → Inv ((wake n s).1)
unfolding wake
wake-Inv n s inv = record {
  keyed =
      All-map (λ p x. (x.0, x.1, rw (mail_of-filter n p.1 s.mail, x.2) (ground arith))) s.pending
        inv.keyed;
  echoed = All-filter _ (λ d. not (d.0 == n)) s.mail inv.echoed;
  single = λ k. rw (mail_of-filter n k s.mail) (ground (arith, inv.single k));
  kept =
      All-map (λ k x. others k x) (filter_by (λ k. not (k == n)) s.waiting)
        (All-both _ _ (filter_by (λ k. not (k == n)) s.waiting)
          (All-passes (λ k. Kept s k) (λ k. not (k == n)) s.waiting)
          (All-filter (Kept s) (λ k. not (k == n)) s.waiting inv.kept));
}
  where
    others :
        (k : ℕ)
        → (not (k == n) ≡ true) × Kept s k
        → Kept
            (record s {
              mail = filter_by (λ d. not (d.0 == n)) s.mail;
              waiting = filter_by (λ k. not (k == n)) s.waiting;
            })
            k
    others k (apart, inl c) = inl c
    others k (apart, inr (inl p)) = inr (inl p)
    others k (apart, inr (inr m)) =
        inr (inr (Any-filter (λ d. d.0 ≡ k) (λ d. not (d.0 == n)) s.mail (λ d e. rw e apart) m))

handled : Incoming → Option ℕ → Stdio → Stdio
handled m channel s = record s {
  pending = delete (id_key m.id) s.pending;
  mail = deliver channel m s.mail;
}

unclaimed-Inv :
    (m : Incoming) (s : Stdio)
    → channel_of (id_key m.id) s.pending ≡ none
    → Inv s
    → Inv (handled m none s)
unfolding handled
unclaimed-Inv m s absent inv = record {
  keyed = All-filter _ (λ p. not (text_eq p.0 (id_key m.id))) s.pending inv.keyed;
  echoed = inv.echoed;
  single = inv.single;
  kept = All-map (λ k x. others k x) s.waiting inv.kept;
}
  where
    others : (k : ℕ) → Kept s k → Kept (handled m none s) k
    others k (inl c) = inl c
    others k (inr (inr d)) = inr (inr d)
    others k (inr (inl p)) = inr (
        inl (
          Any-map (λ p x. x.0) (delete (id_key m.id) s.pending)
            (Any-filter (λ p. (p.1 ≡ k) × (text_eq p.0 (id_key m.id) ≡ false))
              (λ p. not (text_eq p.0 (id_key m.id))) s.pending (λ p x. rw x.1 refl)
              (Any-All (λ p. p.1 ≡ k) (λ p. text_eq p.0 (id_key m.id) ≡ false) s.pending p
                (channel-absent (id_key m.id) s.pending absent)))))

delivered-Inv :
    (m : Incoming) (s : Stdio) (n : ℕ)
    → is_response m ≡ true
    → channel_of (id_key m.id) s.pending ≡ some n
    → Inv s
    → Inv (handled m (some n) s)
unfolding handled
delivered-Inv m s n response found inv =
    let (key, same, entry) = channel-entry _ (id_key m.id) s.pending n found inv.keyed in
    let named : id_key m.id ≡ itoa (pos n) = sym same ∙ entry.0 in
    record {
      keyed =
          All-map (λ p x. (x.1.0, x.1.1, unsent named p x.0 x.1.0 x.1.2))
            (delete (id_key m.id) s.pending)
            (All-both _ _ (delete (id_key m.id) s.pending)
              (All-passes (λ p. Unit {0}) (λ p. not (text_eq p.0 (id_key m.id))) s.pending)
              (All-filter _ (λ p. not (text_eq p.0 (id_key m.id))) s.pending inv.keyed));
      echoed = (((response, named), entry.1), inv.echoed);
      single = λ k. one k entry.2;
      kept = All-map (λ k x. others named k x) s.waiting inv.kept;
    }
  where
    unsent :
        id_key m.id ≡ itoa (pos n)
        → (p : Text × ℕ) → not (text_eq p.0 (id_key m.id)) ≡ true
        → p.0 ≡ itoa (pos p.1)
        → mail_of p.1 s.mail ≡ []
        → mail_of p.1 ((n, m) ∷ s.mail) ≡ []
    unsent named p other keyed empty = elim (Bool-cases (n == p.1)) [
      | inr apart ↦ rw apart empty
      | inl y ↦
          let equal : p.0 ≡ id_key m.id =
            keyed ∙ ap (λ k. itoa (pos k)) (sym ((==_iff n p.1).0 y)) ∙ sym named in
          absurd (cc (not-true _ other, (text_eq_iff p.0 (id_key m.id)).1 equal))
    ]

    one : (k : ℕ) → mail_of n s.mail ≡ [] → length (mail_of k ((n, m) ∷ s.mail)) ≤ 1
    one k empty = elim (Bool-cases (n == k)) [
      | inl y ↦ rw (y, subst (λ j. mail_of j s.mail ≡ []) ((==_iff n k).0 y) empty) (omega arith)
      | inr apart ↦ rw apart (inv.single k)
    ]

    others : id_key m.id ≡ itoa (pos n) → (k : ℕ) → Kept s k → Kept (handled m (some n) s) k
    others named k (inl c) = inl c
    others named k (inr (inr d)) = inr (inr (inr d))
    others named k (inr (inl p)) = elim (Bool-cases (n == k)) [
      | inl y ↦ inr (inr (inl ((==_iff n k).0 y)))
      | inr apart ↦ inr (
          inl (
            subst (λ key. Any (λ p. p.1 ≡ k) (delete key s.pending)) (sym named)
              (Any-delete k n s.pending (λ e. apart_of n k apart (sym e)) (at_keys inv) p)))
    ]

handle-Inv : (m : Incoming) (s : Stdio) → Inv s → Inv (handle m s)
unfolding handle handled
handle-Inv m s inv =
    on_if Inv (is_response m)
      (λ response. by_channel response (channel_of (id_key m.id) s.pending) refl) (λ n. inv)
  where
    by_channel :
        is_response m ≡ true
        → (channel : Option ℕ) → channel_of (id_key m.id) s.pending ≡ channel
        → Inv
            (record s { pending = delete (id_key m.id) s.pending; mail = deliver channel m s.mail })
    by_channel response none e = unclaimed-Inv m s e inv
    by_channel response (some n) e = delivered-Inv m s n response e inv

pub Reach-Inv : {s : Stdio} → Reach s → Inv s
Reach-Inv dialed = record { keyed = tt; echoed = tt; single = λ n. omega arith; kept = tt }
Reach-Inv (called {s} r) = begin-Inv s (Reach-Inv r)
Reach-Inv (received {s} r m) = handle-Inv m s (Reach-Inv r)
Reach-Inv (ended {s} r) = shut-Inv s (Reach-Inv r)
Reach-Inv (gave_up {s} r n) = give_up-Inv n s (Reach-Inv r)
Reach-Inv (woken {s} r n ready) = wake-Inv n s (Reach-Inv r)
