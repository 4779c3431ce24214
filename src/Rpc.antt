-- ===== src/Rpc.antt =====
-- internal/smoke/probe.go: the messages of a package, their frames, and the session over its stdin
-- and stdout. A session's lock makes each step whole, and a message is sent in the step that takes
-- its call from the map, although the lock is released in between; the goroutines that wait for an
-- answer are a list, and which of them wakes up is up to the sequence of steps.
pub mod Answers
pub mod Channels
pub mod Frames
pub mod Mail
pub mod Socket
pub mod Headers
pub mod Tests
use mcp_library.Common.{
  ℕ, zero, suc, ◌+◌, ◌≡◌, Bool, true, false, ◌&&◌, ◌||◌, not, List, [], ◌∷◌, ◌++◌, Option, none,
  some, is_nil, filter_by, ltb, length, ◌==◌, if◌then◌else◌,
}
use mcp_library.Common.Decimal.{itoa}
use mcp_library.Common.Int.{ℤ, pos, negsuc}
use mcp_library.Common.Result.{Result, ok, err}
use mcp_library.Common.Text.{Text, codes, text_eq, trim_space, has_prefix, trim_prefix}

-- An error is `none` where the message has none.
pub record Incoming : Type 0 where
  pub id : Text
  pub method : Text
  pub result : Text
  pub error : Option Text

abbrev pub is_response : Incoming → Bool
is_response m = text_eq m.method [] && not (text_eq m.id [])

unfoldable pub id_key : Text → Text
unfolding trim_space
id_key raw = trim_space raw

pub data CallError : Type 0 where
  rpc_error : Text → CallError
  session_closed expired not_written : CallError

abbrev pub outcome : Incoming → Result CallError Text
outcome m = elim m.error [ none ↦ ok m.result | some e ↦ err (rpc_error e) ]

-- The state of a session: `mail` holds what was sent to the channels, `waiting` the calls that are
-- in their select.
pub record Stdio : Type 0 where
  pub next : ℕ
  pub pending : List (Text × ℕ)
  pub closed : Bool
  pub mail : List (ℕ × Incoming)
  pub waiting : List ℕ

abbrev pub new_session : Stdio
new_session = record { next = 0; pending = []; closed = false; mail = []; waiting = [] }

abbrev pub delete : Text → List (Text × ℕ) → List (Text × ℕ)
delete key = filter_by (λ p. not (text_eq p.0 key))

abbrev pub channel_of : Text → List (Text × ℕ) → Option ℕ
channel_of key [] = none
channel_of key ((k, n) ∷ pending) =
    let rest = channel_of key pending in if text_eq k key then some n else rest

abbrev pub mail_of : ℕ → List (ℕ × Incoming) → List Incoming
mail_of n [] = []
mail_of n ((k, m) ∷ mail) = let rest = mail_of n mail in if k == n then m ∷ rest else rest

-- A call takes the next number, unless the session is closed.
unfoldable pub begin : Stdio → Stdio
unfolding itoa
begin s =
    let id = suc s.next in
    if s.closed then s else record s {
      next = id;
      pending = (itoa (pos id), id) ∷ delete (itoa (pos id)) s.pending;
      waiting = id ∷ s.waiting;
    }

abbrev pub deliver : Option ℕ → Incoming → List (ℕ × Incoming) → List (ℕ × Incoming)
deliver none m mail = mail
deliver (some n) m mail = (n, m) ∷ mail

-- A message that is a response goes to the call that its id names.
unfoldable pub handle : Incoming → Stdio → Stdio
unfolding id_key
handle m s =
    if is_response m
    then record s {
      pending = delete (id_key m.id) s.pending;
      mail = deliver (channel_of (id_key m.id) s.pending) m s.mail;
    }
    else s

abbrev method_not_found : ℤ
method_not_found = negsuc 32600

-- The answer to a request that the package makes: its id, the code of the error and the method.
unfoldable pub refusal_of : Incoming → Option (Text × ℤ × Text)
refusal_of m =
    if is_response m
    then none
    else if not (text_eq m.method []) && not (text_eq m.id [])
    then some (m.id, method_not_found, m.method)
    else none

unfoldable pub shut : Stdio → Stdio
shut s = if s.closed then s else record s { closed = true; pending = [] }

-- The write failed, or the call's time was over.
unfoldable pub give_up : ℕ → Stdio → Stdio
unfolding itoa
give_up n s = record s {
  pending = delete (itoa (pos n)) s.pending;
  waiting = filter_by (λ k. not (k == n)) s.waiting;
}

abbrev pub first_mail : List Incoming → Result CallError Text
first_mail [] = err session_closed
first_mail (m ∷ ms) = outcome m

-- A call that wakes up by a message, or by the end of the session, takes the message that there is.
unfoldable pub wake : ℕ → Stdio → Result CallError Text × Stdio
wake n s = (
  first_mail (mail_of n s.mail),
  record s {
    mail = filter_by (λ d. not (d.0 == n)) s.mail;
    waiting = filter_by (λ k. not (k == n)) s.waiting;
  },
)

-- A call wakes up where it has mail or the session is closed.
abbrev pub may_wake : ℕ → Stdio → Bool
may_wake n s = s.closed || not (is_nil (mail_of n s.mail))

pub data Reach : Stdio → Type 0 where
  dialed : Reach new_session
  called : {s : Stdio} → Reach s → Reach (begin s)
  received : {s : Stdio} → Reach s → (m : Incoming) → Reach (handle m s)
  ended : {s : Stdio} → Reach s → Reach (shut s)
  gave_up : {s : Stdio} → Reach s → (n : ℕ) → Reach (give_up n s)
  woken : {s : Stdio} → Reach s → (n : ℕ) → may_wake n s ≡ true → Reach ((wake n s).1)
