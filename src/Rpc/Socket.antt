-- ===== src/Rpc/Socket.antt =====
-- internal/smoke/probe.go: socketSession, the session over HTTP on a package's socket. The package
-- answers a request from those before it, or the request fails; JSON decoding is a parameter.
use mcp_library.Common.{ℕ, suc, ◌||◌, not, List, [], ◌∷◌, Option, none, some, ◌==◌, if◌then◌else◌}
use mcp_library.Common.Decimal.{itoa}
use mcp_library.Common.Int.{pos}
use mcp_library.Common.Result.{Result, ok, err}
use mcp_library.Common.Text.{Text, codes, text_eq}
use mcp_library.Rpc.{Incoming, CallError, outcome}
use mcp_library.Rpc.Frames.{EventLine, ReadError, read_response}

pub record Response : Type 0 where
  pub status : ℕ
  pub session_id : Text
  pub content_type : Text
  pub body : Text
  pub lines : List EventLine

-- A request, with the headers that depend on the session.
pub record Post : Type 0 where
  pub id : Option ℕ
  pub method : Text
  pub session_header : Option Text
  pub protocol_header : Option Text

-- The requests and what came of them, the newest first.
abbrev pub Log : Type 0
Log = List (Post × Option Response)

pub record Socket : Type 0 where
  pub next : ℕ
  pub session : Text
  pub protocol : Text

abbrev pub new_socket : Socket
new_socket = record { next = 0; session = []; protocol = [] }

pub data SocketError : Type 0 where
  not_posted : SocketError
  http_status : ℕ → SocketError
  not_read : ReadError → SocketError
  answered : CallError → SocketError

abbrev pub header : Text → Option Text
header value = if text_eq value [] then none else some value

abbrev pub post_of : Option ℕ → Text → Socket → Post
post_of id method s = record {
  id = id;
  method = method;
  session_header = header s.session;
  protocol_header = header s.protocol;
}

-- The session that a response mints is kept.
abbrev pub keep_session : Option Response → Socket → Socket
keep_session none s = s
keep_session (some r) s = if text_eq r.session_id [] then s else record s { session = r.session_id }

abbrev pub learn : Option Text → Socket → Socket
learn none s = s
learn (some version) s = record s { protocol = version }

abbrev pub answer_of : Result CallError Text → Result SocketError Text
answer_of (ok text) = ok text
answer_of (err why) = err (answered why)

abbrev pub accepted : Option Response → Result SocketError Text
accepted none = err not_posted
accepted (some r) = if r.status == 202 || r.status == 200 then ok [] else err (http_status r.status)

pub record Exchanged : Type 0 where
  pub result : Result SocketError Text
  pub state : Socket
  pub log : Log

module _ (decode : Text → Option Incoming) where
  -- The message that a call reads.
  unfoldable pub read_reply : ℕ → Option Response → Result SocketError Incoming
  unfolding itoa read_response
  read_reply id none = err not_posted
  read_reply id (some r) =
      if not (r.status == 200)
      then err (http_status r.status)
      else elim (read_response decode (itoa (pos id)) r.content_type r.body r.lines) [
        | err why ↦ err (not_read why)
        | ok m ↦ ok m
      ]

abbrev pub result_of : Result SocketError Incoming → Result SocketError Text
result_of (err why) = err why
result_of (ok m) = answer_of (outcome m)

module _ (decode_version : Text → Option Text) where
  -- The revision that an answer to initialize names.
  abbrev pub version_in : Text → Result SocketError Incoming → Option Text
  version_in method (err why) = none
  version_in method (ok m) = elim m.error [
    | some e ↦ none
    | none ↦ if text_eq method (codes "initialize") then decode_version m.result else none
  ]

module _ (decode : Text → Option Incoming) (decode_version : Text → Option Text)
    (server : Log → Post → Option Response) where
  unfoldable pub call : Text → Socket → Log → Exchanged
  unfolding read_reply
  call method s log =
      let id = suc s.next in
      let sent = post_of (some id) method s in
      let response = server log sent in
      let reply = read_reply decode id response in
      record {
        result = result_of reply;
        state =
            learn (version_in decode_version method reply)
              (keep_session response (record s { next = id }));
        log = (sent, response) ∷ log;
      }

module _ (server : Log → Post → Option Response) where
  unfoldable pub notify : Text → Socket → Log → Exchanged
  notify method s log =
      let sent = post_of none method s in
      let response = server log sent in
      record {
        result = accepted response;
        state = keep_session response s;
        log = (sent, response) ∷ log;
      }

-- The session that a DELETE names, where one is sent.
unfoldable pub close : Socket → Option Text
close s = header s.session
