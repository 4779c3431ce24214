-- ===== src/Rpc/Tests.antt =====
-- A session with a call and its answer, frames and bodies, and the theorems at them.
use mcp_library.Common.{
  ℕ, ◌≡◌, refl, true, false, List, [], ◌∷◌, Option, some, none, Any, inl, if◌then◌else◌,
}
use mcp_library.Common.Decimal.{itoa}
use mcp_library.Common.Int.{negsuc}
use mcp_library.Common.Result.{Result, ok, err}
use mcp_library.Common.Text.{Text, codes, text_eq, trim_space, is_space}
use mcp_library.Rpc.{
  Incoming, id_key, CallError, session_closed, outcome, Stdio, new_session, begin, handle,
  refusal_of, shut, wake, may_wake, mail_of, Reach, dialed, called, received,
}
use mcp_library.Rpc.Answers.{wake-Echoes, waiting-woken}
use mcp_library.Rpc.Mail.{Echoes}
use mcp_library.Rpc.Frames.{
  newline, buffer_full, stopped, read_frame, frame_text, Cut, read_frame_lem, EventLine,
  read_response,
}
use mcp_library.Rpc.Headers.{calls, notifies, Step, ReadFrom, exchanges, call-answers}
use mcp_library.Rpc.Socket.{Response, Post, Log, new_socket, post_of, call, notify, close}

runs : Unit {0}
unfolding text_eq trim_space is_space itoa id_key begin handle shut wake read_frame read_response
    call notify exchanges close refusal_of
runs = tt

abbrev message : Text → Text → Text → Incoming
message id method result = record { id = id; method = method; result = result; error = none }

abbrev reply : Incoming
reply = message (codes "1 ") [] (codes "tools")

abbrev called_once : Stdio
called_once = begin new_session

abbrev answered : Stdio
answered = handle reply called_once

called_reach : Reach called_once
called_reach = called dialed

answered_reach : Reach answered
answered_reach = received called_reach reply

test_request_skipped :
    handle (message (codes "1") (codes "roots/list") []) called_once ≡ called_once
unfolding runs
test_request_skipped = refl

test_late_response : (wake 1 (shut answered)).0 ≡ ok (codes "tools")
unfolding runs
test_late_response = refl

test_closed : (wake 1 (shut called_once)).0 ≡ err session_closed
unfolding runs
test_closed = refl

woke : (wake 1 answered).0 ≡ ok (codes "tools")
unfolding runs
woke = refl

wake-Echoes_example :
    (m : Incoming) × (mail_of 1 answered.mail ≡ m ∷ [])
    × Echoes 1 m
    × (◌≡◌ {A = Result CallError Text} (ok (codes "tools")) (outcome m))
wake-Echoes_example = wake-Echoes answered_reach 1 (ok (codes "tools")) woke (λ h. cc h)

waiting_one : Any (λ k. k ≡ 1) called_once.waiting
unfolding runs
waiting_one = inl refl

asleep : may_wake 1 called_once ≡ false
unfolding runs
asleep = refl

echo_one : Echoes 1 reply
unfolding runs
echo_one = (refl, refl)

waiting-woken_example : may_wake 1 (handle reply called_once) ≡ true
waiting-woken_example = waiting-woken called_reach 1 waiting_one asleep reply echo_one

test_too_long :
    read_frame 4 [] false ((codes "abc", buffer_full) ∷ (codes "de", newline) ∷ [])
    ≡ record { line = []; too_long = true; ended = false; rest = [] }
unfolding runs
test_too_long = refl

read_frame_lem_example :
    Cut 4
      (frame_text ((codes "abc", buffer_full) ∷ (codes "d", stopped) ∷ []))
      (read_frame 4 [] false ((codes "abc", buffer_full) ∷ (codes "d", stopped) ∷ []))
read_frame_lem_example = read_frame_lem 4 ((codes "abc", buffer_full) ∷ (codes "d", stopped) ∷ [])

-- A decoding that knows a notification and one answer.
abbrev decode : Text → Option Incoming
decode body = if text_eq body (codes "{}") then some reply else some (message [] (codes "log") [])

abbrev line : Text → EventLine
line text = record { text = text; too_long = false; last = false }

abbrev stream : List EventLine
stream =
    line (codes "data: log")
    ∷ line []
    ∷ line (codes "event: message")
    ∷ line (codes "data: {}")
    ∷ line []
    ∷ []

read_stream : read_response decode (codes "1") (codes "text/event-stream") [] stream ≡ ok reply
unfolding runs
read_stream = refl

-- A package that mints a session, names a revision and takes notifications.
abbrev hello : Incoming
hello = message (codes "1") [] (codes "2025-06-18")

abbrev decode_hello : Text → Option Incoming
decode_hello body = if text_eq body (codes "hello") then some hello else none

abbrev decode_version : Text → Option Text
decode_version result = some result

abbrev greeting : Response
greeting = record {
  status = 200;
  session_id = codes "s1";
  content_type = codes "application/json";
  body = codes "hello";
  lines = [];
}

abbrev empty : Response
empty = record { status = 202; session_id = []; content_type = []; body = []; lines = [] }

abbrev server : Log → Post → Option Response
server log sent = if text_eq sent.method (codes "initialize") then some greeting else some empty

abbrev opening : List Step
opening =
    calls (codes "initialize")
    ∷ notifies (codes "notifications/initialized")
    ∷ calls (codes "tools/list")
    ∷ []

abbrev sent_later : Option ℕ → Text → Post
sent_later id method = record {
  id = id;
  method = method;
  session_header = some (codes "s1");
  protocol_header = some (codes "2025-06-18");
}

test_headers :
    exchanges decode_hello decode_version server opening new_socket []
    ≡ (sent_later (some 2) (codes "tools/list"), some empty)
      ∷ (sent_later none (codes "notifications/initialized"), some empty)
      ∷ (post_of (some 1) (codes "initialize") new_socket, some greeting)
      ∷ []
unfolding runs
test_headers = refl

greeted :
    (call decode_hello decode_version server (codes "initialize") new_socket []).result
    ≡ ok (codes "2025-06-18")
unfolding runs
greeted = refl

call-answers_example :
    (m : Incoming) × ReadFrom decode_hello 1
      (server [] (post_of (some 1) (codes "initialize") new_socket))
      m
    × Echoes 1 m
    × (outcome m ≡ ok (codes "2025-06-18"))
call-answers_example =
    call-answers decode_hello decode_version server (codes "initialize") new_socket []
      (codes "2025-06-18") greeted

test_refused :
    refusal_of (message (codes "7") (codes "roots/list") [])
    ≡ some (codes "7", negsuc 32600, codes "roots/list")
unfolding runs
test_refused = refl

test_close : close (record new_socket { session = codes "s1" }) ≡ some (codes "s1")
unfolding runs
test_close = refl
