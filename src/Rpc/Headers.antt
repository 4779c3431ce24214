-- ===== src/Rpc/Headers.antt =====
-- internal/smoke/probe.go: what the requests of a session over HTTP carry, and what answers a call.
use mcp_library.Common.{
  ℕ, suc, ◌≤◌, ◌≡◌, ◌≢◌, refl, inl, inr, List, [], ◌∷◌, Option, none, some, All, ◌==◌,
  if◌then◌else◌,
}
use mcp_library.Common.Decimal.{itoa}
use mcp_library.Common.Int.{pos}
use mcp_library.Common.Result.{Result, ok, err}
use mcp_library.Common.Tests.{Bool-cases, ==_iff}
use mcp_library.Common.Text.{Text, text_eq}
use mcp_library.Rpc.{Incoming, CallError, outcome}
use mcp_library.Rpc.Frames.{ReadError, read_response, read_response-answers}
use mcp_library.Rpc.Mail.{Echoes}
use mcp_library.Rpc.Socket.{
  Response, Post, Log, Socket, SocketError, header, post_of, answer_of, not_read, Exchanged,
  read_reply, result_of, version_in, call, notify,
}

-- The last session that the package minted.
abbrev minted : Log → Text
minted [] = []
minted ((sent, none) ∷ log) = minted log
minted ((sent, some r) ∷ log) =
    let before = minted log in if text_eq r.session_id [] then before else r.session_id

abbrev IdsUpTo : ℕ → Log → Type 0
IdsUpTo n = All (λ x. (k : ℕ) → x.0.id ≡ some k → k ≤ n)

pub data Step : Type 0 where
  calls notifies : Text → Step

module _ (decode : Text → Option Incoming) (decode_version : Text → Option Text) where
  abbrev named : Text → Option ℕ → Option Response → Option Text
  named method none response = none
  named method (some n) response = version_in decode_version method (read_reply decode n response)

  abbrev pub text_or : Option Text → Text → Text
  text_or none before = before
  text_or (some t) before = t

  -- The revision that the last answered initialize of the log named.
  abbrev pub negotiated : Log → Text
  negotiated [] = []
  negotiated ((sent, response) ∷ log) =
      text_or (named sent.method sent.id response) (negotiated log)

  -- Every request carries the session and the revision of the log before it, and a call's a number
  -- that none before it has.
  abbrev pub Carries : Log → Type 0
  Carries [] = Unit
  Carries ((sent, response) ∷ log) =
      (sent.session_header ≡ header (minted log))
      × (sent.protocol_header ≡ header (negotiated log))
      × ((k : ℕ) → sent.id ≡ some k → All (λ x. x.0.id ≢ some k) log)
      × Carries log

  record Held (s : Socket) (log : Log) : Type 0 where
    pub session_held : s.session ≡ minted log
    pub protocol_held : s.protocol ≡ negotiated log
    pub numbered : IdsUpTo s.next log
    pub carried : Carries log

  module _ (server : Log → Post → Option Response) where
    -- The state and the log behind some steps.
    abbrev pub step : Step → Socket → Log → Exchanged
    step (calls method) s log = call decode decode_version server method s log
    step (notifies method) s log = notify server method s log

    unfoldable pub exchanges : List Step → Socket → Log → Log
    unfolding call notify
    exchanges [] s log = log
    exchanges (x ∷ steps) s log = exchanges steps ((step x s log).state) ((step x s log).log)

result_read :
    (x : Result SocketError Incoming) (text : Text)
    → result_of x ≡ ok text
    → (m : Incoming) × (x ≡ ok m) × (outcome m ≡ ok text)
result_read (err why) text h = absurd (cc h)
result_read (ok m) text h = (m, refl, by_outcome (outcome m) h)
  where
    by_outcome : (o : Result CallError Text) → answer_of o ≡ ok text → o ≡ ok text
    by_outcome (err why) h = absurd (cc h)
    by_outcome (ok t) h = cc h

module _ (decode : Text → Option Incoming) where
  -- The message is read from a response with status 200.
  abbrev pub ReadFrom : ℕ → Option Response → Incoming → Type 0
  ReadFrom id response m =
      (r : Response) × (response ≡ some r)
      × (r.status ≡ 200)
      × (read_response decode (itoa (pos id)) r.content_type r.body r.lines ≡ ok m)

  read_reply-ReadFrom :
      (id : ℕ) (response : Option Response) (m : Incoming)
      → read_reply decode id response ≡ ok m
      → ReadFrom id response m
  unfolding read_reply
  read_reply-ReadFrom id none m h = absurd (cc h)
  read_reply-ReadFrom id (some r) m h = elim (Bool-cases (r.status == 200)) [
    | inr other ↦ absurd (cc (rw other at h))
    | inl fine ↦ (
      r,
      refl,
      (==_iff r.status 200).0 fine,
      by_read (read_response decode (itoa (pos id)) r.content_type r.body r.lines) (rw fine at h),
    )
  ]
    where
      by_read :
          (x : Result ReadError Incoming)
          → ◌≡◌ {A = Result SocketError Incoming}
              (elim x [ err why ↦ err (not_read why) | ok m ↦ ok m ])
              (ok m)
          → x ≡ ok m
      by_read (err why) h = absurd (cc h)
      by_read (ok n) h = cc h

  module _ (decode_version : Text → Option Text) (server : Log → Post → Option Response) where
    -- For any package and any decoding of messages, where a call of a session over HTTP returns a
    -- result, the response to its request has status 200, what readResponse reads in that response,
    -- a body of JSON or of events, is a response that echoes the call's own number, and the result
    -- is that message's outcome.
    pub call-answers :
        (method : Text) (s : Socket) (log : Log) (text : Text)
        → (call decode decode_version server method s log).result ≡ ok text
        → (m : Incoming) × ReadFrom
            (suc s.next)
            (server log (post_of (some (suc s.next)) method s))
            m
          × Echoes (suc s.next) m
          × (outcome m ≡ ok text)
    unfolding call
    call-answers method s log text h =
        let response = server log (post_of (some (suc s.next)) method s) in
        let (m, read, told) = result_read (read_reply decode (suc s.next) response) text h in
        let from = read_reply-ReadFrom (suc s.next) response m read in
        (
          m,
          from,
          read_response-answers decode (itoa (pos (suc s.next))) (from.0).content_type (from.0).body
              (from.0).lines m from.3,
          told,
        )
