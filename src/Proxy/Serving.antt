-- ===== src/Proxy/Serving.antt =====
-- internal/smoke/proxy.go: what the egress proxy does with a request. The answers of the network and of
-- the client's connection are values: `World`. The copying of bytes through an open tunnel, header and
-- body writes are left out.
use mcp_library.Common.{
  ℕ, Bool, true, false, ◌&&◌, not, List, [], ◌∷◌, ◌++◌, Option, none, some, filter_by,
  if◌then◌else◌,
}
use mathlib.Core.List.{reverse}
use mcp_library.Common.Decimal.{atoi, itoa}
use mcp_library.Common.HostPort.{split_host_port, join_host_port}
use mcp_library.Common.Int.{ℤ, pos, all_digits}
use mcp_library.Common.Text.{
  Text, codes, text_eq, has_prefix, has_suffix, trim_prefix, trim_suffix, cut,
}
use mcp_library.Proxy.{Attempt, AllowMap, is_allowed}

abbrev pub Headers : Type 0
Headers = List (Text × List Text)

pub record Request : Type 0 where
  pub method : Text
  pub authority : Text
  pub scheme : Text
  pub url_host : Text
  pub request_uri : Text
  pub headers : Headers

abbrev hop_by_hop_headers : List Text
hop_by_hop_headers =
    codes "Connection"
    ∷ codes "Keep-Alive"
    ∷ codes "Proxy-Authenticate"
    ∷ codes "Proxy-Authorization"
    ∷ codes "Te"
    ∷ codes "Trailers"
    ∷ codes "Transfer-Encoding"
    ∷ codes "Upgrade"
    ∷ []

abbrev delete_header : Text → Headers → Headers
delete_header k = filter_by (λ h. not (text_eq h.0 k))

abbrev delete_headers : List Text → Headers → Headers
delete_headers [] h = h
delete_headers (k ∷ ks) h = delete_headers ks (delete_header k h)

unfoldable pub strip_hop_by_hop : Headers → Headers
strip_hop_by_hop h = delete_headers hop_by_hop_headers h

pub record Response : Type 0 where
  pub status : ℕ
  pub headers : Headers

-- What the network and the client's connection answer.
pub record World : Type 0 where
  pub dials : Text → Bool
  pub can_hijack : Bool
  pub hijacks : Bool
  pub greets : Bool
  pub round_trip : Request → Option Response

pub data Contact : Type 0 where
  dial : Text → Contact
  send : Request → Contact

pub data Answer : Type 0 where
  refused : ℕ → Answer
  hung_up : Answer
  tunnelled : Answer
  answered : Response → Answer

pub record Served : Type 0 where
  pub attempts : List Attempt
  pub contacts : List Contact
  pub answer : Answer

abbrev attempt : Text → ℤ → Bool → Attempt
attempt host port allowed = record { host = host; port = port; allowed = allowed }

abbrev pub with_port : Text → Text → Option (Text × ℤ)
with_port host port = elim (atoi port) [ none ↦ none | some n ↦ some (host, n) ]

-- `splitHostPort` of proxy.go.
unfoldable pub split_authority : Text → Text → Option (Text × ℤ)
unfolding split_host_port atoi
split_authority authority default_port = elim (split_host_port authority) [
  | none ↦ with_port authority default_port
  | some (host, port) ↦ with_port host port
]

abbrev tunnel_answer : World → Text → Answer
tunnel_answer w address =
    if not (w.dials address)
    then refused 502
    else if not w.can_hijack
    then refused 500
    else if w.hijacks && w.greets
    then tunnelled
    else hung_up

abbrev pub denied : Text → ℤ → Served
denied host port = record {
  attempts = attempt host port false ∷ [];
  contacts = [];
  answer = refused 403;
}

abbrev pub connect_to : World → Bool → Text → ℤ → Served
connect_to w allowed host port =
    if allowed
    then record {
      attempts = attempt host port true ∷ [];
      contacts = dial (join_host_port host (itoa port)) ∷ [];
      answer = tunnel_answer w (join_host_port host (itoa port));
    }
    else denied host port

abbrev pub connect_default_port : Text
connect_default_port = codes "443"

unfoldable pub serve_connect : AllowMap → World → Request → Served
unfolding split_authority is_allowed join_host_port itoa
serve_connect m w r = elim (split_authority r.authority connect_default_port) [
  | none ↦ record { attempts = attempt [] (pos 0) false ∷ []; contacts = []; answer = refused 400 }
  | some (host, port) ↦ connect_to w (is_allowed m host port) host port
]

abbrev behind_colon : Text → Option (Text × Text) → Text × Text
behind_colon s none = (s, [])
behind_colon s (some (port, host)) =
    if all_digits port then (reverse host, reverse port) else (s, [])

abbrev without_brackets : Text → Text
without_brackets h =
    if has_prefix (codes "[") h && has_suffix (codes "]") h
    then trim_suffix (codes "]") (trim_prefix (codes "[") h)
    else h

-- `URL.Hostname` and `URL.Port`.
unfoldable pub url_hostname : Text → Text
unfolding has_prefix has_suffix trim_prefix trim_suffix cut
url_hostname s = without_brackets ((behind_colon s (cut b':' (reverse s))).0)

unfoldable pub url_port : Text → Text
unfolding cut
url_port s = (behind_colon s (cut b':' (reverse s))).1

-- The port that `http.DefaultTransport` connects to; it takes no other scheme.
unfoldable pub transport_port : Text → Text → Option ℤ
unfolding atoi
transport_port scheme port =
    if not (text_eq port [])
    then atoi port
    else if text_eq scheme (codes "http")
    then some (pos 80)
    else if text_eq scheme (codes "https")
    then some (pos 443)
    else none

abbrev pub port_or_80 : Text → Text
port_or_80 port = if text_eq port [] then codes "80" else port

abbrev pub outgoing : Request → Request
outgoing r = record r { request_uri = []; headers = strip_hop_by_hop r.headers }

abbrev relayed : Option Response → Answer
relayed none = refused 502
relayed (some resp) = answered (record resp { headers = strip_hop_by_hop resp.headers })

abbrev pub forward : World → Request → Bool → Text → ℤ → Served
forward w r allowed host port =
    if allowed
    then record {
      attempts = attempt host port true ∷ [];
      contacts = send (outgoing r) ∷ [];
      answer = relayed (w.round_trip (outgoing r));
    }
    else denied host port

abbrev pub unlogged : Served
unlogged = record { attempts = []; contacts = []; answer = refused 400 }

unfoldable pub serve_plain : AllowMap → World → Request → Served
unfolding url_hostname url_port atoi is_allowed strip_hop_by_hop
serve_plain m w r =
    let host = url_hostname r.url_host in
    let served : Served = elim (atoi (port_or_80 (url_port r.url_host))) [
      | none ↦ unlogged
      | some port ↦ forward w r (is_allowed m host port) host port
    ] in
    if text_eq r.scheme [] then unlogged else served

unfoldable pub serve_http : AllowMap → World → Request → Served
unfolding serve_connect serve_plain
serve_http m w r =
    if text_eq r.method (codes "CONNECT") then serve_connect m w r else serve_plain m w r

-- The log of a proxy and the contacts it made, over the requests that it served.
pub record Traffic : Type 0 where
  pub log : List Attempt
  pub contacts : List Contact

unfoldable pub serve_all : AllowMap → List (World × Request) → Traffic
unfolding serve_http
serve_all m [] = record { log = []; contacts = [] }
serve_all m ((w, r) ∷ requests) =
    let served = serve_http m w r in
    let later = serve_all m requests in
    record { log = served.attempts ++ later.log; contacts = served.contacts ++ later.contacts }
