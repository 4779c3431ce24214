-- ===== src/Proxy/Tests.antt =====
-- Lists that the proxy takes and refuses, requests that it serves, and the theorems at them.
use mcp_library.Common.{◌≡◌, refl, true, false, List, [], ◌∷◌, some, All, Any}
use mcp_library.Common.Decimal.{atoi, itoa}
use mcp_library.Common.Int.{pos, negsuc}
use mcp_library.Common.Result.{ok}
use mcp_library.Common.Text.{Text, codes, text_eq, to_lower}
use mcp_library.Proxy.{
  bad_port, empty_entry, any_port, parse_allow_entry, parse_allow, new_proxy, is_allowed,
  normalize_host,
}
use mcp_library.Proxy.Serving.{
  strip_hop_by_hop, Request, World, refused, tunnelled, serve_http, serve_all, transport_port, send,
  url_hostname, url_port,
}
use mcp_library.Proxy.Admission.{Admits}
use mcp_library.Proxy.Guard.{Paired, NamesPort, admitted, serve_all-IsGuarded, https_port}

runs : Unit {0}
unfolding text_eq to_lower parse_allow_entry parse_allow new_proxy is_allowed serve_all
    strip_hop_by_hop normalize_host transport_port
runs = tt

abbrev pub entries : List Text
entries = codes "Example.com:443" ∷ codes "api.example.com." ∷ codes "broken:" ∷ []

test_number : (atoi (codes "-12") ≡ some (negsuc 11)) × (itoa (pos 65535) ≡ codes "65535")
unfolding atoi itoa
test_number = (refl, refl)

test_bare : parse_allow_entry (codes "::1") ≡ ok (codes "::1", any_port)
unfolding runs
test_bare = refl

test_bracketed : parse_allow_entry (codes "[::1]:443") ≡ ok (codes "::1", pos 443)
unfolding runs
test_bracketed = refl

test_refused : parse_allow entries ≡ some bad_port
unfolding runs
test_refused = refl

test_empty : parse_allow ([] ∷ []) ≡ some empty_entry
unfolding runs
test_empty = refl

test_any_port : is_allowed (new_proxy entries) (codes "API.example.com") (pos 8080) ≡ true
unfolding runs
test_any_port = refl

test_other_port : is_allowed (new_proxy entries) (codes "example.com") (pos 80) ≡ false
unfolding runs
test_other_port = refl

abbrev pub network : World
network = record {
  dials = λ address. true;
  can_hijack = true;
  hijacks = true;
  greets = true;
  round_trip = λ out. some (record { status = 200; headers = [] });
}

abbrev request : Text → Text → Text → Text → Request
request method authority scheme url_host = record {
  method = method;
  authority = authority;
  scheme = scheme;
  url_host = url_host;
  request_uri = [];
  headers = (codes "Te", []) ∷ (codes "Accept", []) ∷ [];
}

abbrev pub connect : Text → Request
connect authority = request (codes "CONNECT") authority [] []

abbrev get : Text → Text → Request
get scheme url_host = request (codes "GET") url_host scheme url_host

test_tunnelled :
    (serve_http (new_proxy entries) network (connect (codes "example.com:443"))).answer ≡ tunnelled
unfolding runs
test_tunnelled = refl

test_default_port :
    (serve_http (new_proxy entries) network (connect (codes "example.com"))).answer ≡ tunnelled
unfolding runs
test_default_port = refl

test_forbidden :
    serve_http (new_proxy entries) network (get (codes "http") (codes "example.com")) ≡ record {
      attempts = record { host = codes "example.com"; port = pos 80; allowed = false } ∷ [];
      contacts = [];
      answer = refused 403;
    }
unfolding runs
test_forbidden = refl

test_stripped :
    strip_hop_by_hop ((codes "Te", []) ∷ (codes "Accept", []) ∷ []) ≡ (codes "Accept", []) ∷ []
unfolding runs
test_stripped = refl

abbrev requests : List (World × Request)
requests =
    (network, connect (codes "example.com:443"))
    ∷ (network, get (codes "http") (codes "api.example.com:8080"))
    ∷ (network, get (codes "http") (codes "other.org"))
    ∷ []

requests_named : All (λ x. NamesPort x.1) requests
unfolding runs
requests_named = (refl, (refl, (refl, tt)))

serve_all-IsGuarded_example :
    Paired
      (serve_all (new_proxy entries) requests).contacts
      (admitted (serve_all (new_proxy entries) requests).log)
    × All
        (λ a. a.allowed ≡ true → Any (Admits a.host a.port) entries)
        (serve_all (new_proxy entries) requests).log
serve_all-IsGuarded_example = serve_all-IsGuarded entries requests requests_named

-- A list that admits port 80 of a host alone.
abbrev web : List Text
web = codes "example.com:80" ∷ []

abbrev secure : Request
secure = get (codes "https") (codes "example.com")

test_not_443 : is_allowed (new_proxy web) (codes "example.com") (pos 443) ≡ false
unfolding runs
test_not_443 = refl

https_port_example :
    (out : Request) × ((serve_http (new_proxy web) network secure).contacts ≡ send out ∷ [])
    × (url_hostname out.url_host ≡ url_hostname secure.url_host)
    × (transport_port out.scheme (url_port out.url_host) ≡ some (pos 443))
    × ((serve_http (new_proxy web) network secure).attempts
        ≡ record { host = url_hostname secure.url_host; port = pos 80; allowed = true } ∷ [])
unfolding runs
https_port_example = https_port (new_proxy web) network secure refl refl refl refl
