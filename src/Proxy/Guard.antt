-- ===== src/Proxy/Guard.antt =====
-- internal/smoke/proxy.go: what the proxy contacts, against what it logs and what its list admits.
use mcp_library.Common.{
  ◌≡◌, refl, inl, inr, on_if, Bool, true, false, ◌&&◌, List, [], ◌∷◌, ◌++◌, Option, none, some, All,
  All-append, All-map, Any, filter_by, arith, if◌then◌else◌,
}
use mcp_library.Common.Decimal.{itoa, atoi}
use mcp_library.Common.HostPort.{join_host_port}
use mcp_library.Common.Int.{ℤ, pos}
use mcp_library.Common.Tests.{Bool-cases}
use mcp_library.Common.Text.{Text, codes, text_eq}
use mcp_library.Proxy.{AllowMap, Attempt, new_proxy, is_allowed}
use mcp_library.Proxy.Serving.{
  refused, Contact, dial, send, Request, World, Served, split_authority, connect_default_port,
  connect_to, denied, serve_connect, url_hostname, url_port, transport_port, port_or_80, outgoing,
  forward, unlogged, serve_plain, serve_http, serve_all,
}
use mcp_library.Proxy.Admission.{Admits, is_allowed_iff}

-- The contact goes to the host and the port of the attempt.
abbrev Reaches : Contact → Attempt → Type 0
Reaches (dial address) a = address ≡ join_host_port a.host (itoa a.port)
Reaches (send out) a =
    (url_hostname out.url_host ≡ a.host)
    × ((port : ℤ) → transport_port out.scheme (url_port out.url_host) ≡ some port → port ≡ a.port)

-- The contacts and the attempts, one for one and in order.
abbrev pub Paired : List Contact → List Attempt → Type 0
Paired [] [] = Unit
Paired [] (a ∷ as') = ⊥
Paired (c ∷ cs) [] = ⊥
Paired (c ∷ cs) (a ∷ as') = Reaches c a × Paired cs as'

abbrev pub admitted : List Attempt → List Attempt
admitted = filter_by (λ a. a.allowed)

-- Where the scheme is https, the port is written out.
abbrev pub NamesPort : Request → Type 0
NamesPort r = (text_eq r.scheme (codes "https") && text_eq (url_port r.url_host) []) ≡ false

Paired-append :
    (cs : List Contact) (as' : List Attempt) (ds : List Contact) (bs : List Attempt)
    → Paired cs (admitted as')
    → Paired ds (admitted bs)
    → Paired (cs ++ ds) (admitted (as' ++ bs))
Paired-append [] [] ds bs p q = q
Paired-append (c ∷ cs) [] ds bs p q = elim p [ ]
Paired-append cs (a ∷ as') ds bs p q =
    by_test cs a.allowed (λ cs p. Paired-append cs as' ds bs p q) p
  where
    by_test :
        (cs : List Contact) (b : Bool)
        → ((cs : List Contact)
            → Paired cs (admitted as')
            → Paired (cs ++ ds) (admitted (as' ++ bs)))
        → Paired cs (if b then a ∷ admitted as' else admitted as')
        → Paired (cs ++ ds) (if b then a ∷ admitted (as' ++ bs) else admitted (as' ++ bs))
    by_test [] true rest p = elim p [ ]
    by_test (c ∷ cs) true rest p = (p.0, rest cs p.1)
    by_test cs false rest p = rest cs p

-- An attempt that is logged as allowed is one that the list admits.
abbrev Honest : AllowMap → Attempt → Type 0
Honest m a = a.allowed ≡ true → is_allowed m a.host a.port ≡ true

abbrev IsGuarded : AllowMap → Served → Type 0
IsGuarded m s = Paired s.contacts (admitted s.attempts) × All (Honest m) s.attempts

denied-IsGuarded : (m : AllowMap) (host : Text) (port : ℤ) → IsGuarded m (denied host port)
denied-IsGuarded m host port = (tt, (λ h. absurd (cc h), tt))

unlogged-IsGuarded : (m : AllowMap) → IsGuarded m unlogged
unlogged-IsGuarded m = (tt, tt)

serve_connect-IsGuarded :
    (m : AllowMap) (w : World) (r : Request) → IsGuarded m (serve_connect m w r)
unfolding serve_connect
serve_connect-IsGuarded m w r = by_target (split_authority r.authority connect_default_port)
  where
    by_allowed :
        (host : Text) (port : ℤ) (b : Bool)
        → is_allowed m host port ≡ b
        → IsGuarded m (connect_to w b host port)
    by_allowed host port true e = ((refl, tt), (λ h. e, tt))
    by_allowed host port false e = denied-IsGuarded m host port

    by_target :
        (target : Option (Text × ℤ))
        → IsGuarded m (elim target [
          | none ↦ record {
            attempts = record { host = []; port = pos 0; allowed = false } ∷ [];
            contacts = [];
            answer = refused 400;
          }
          | some (host, port) ↦ connect_to w (is_allowed m host port) host port
        ])
    by_target none = (tt, (λ h. absurd (cc h), tt))
    by_target (some (host, port)) = by_allowed host port (is_allowed m host port) refl

atoi_80 : atoi (codes "80") ≡ some (pos 80)
unfolding atoi
atoi_80 = refl

-- The transport connects to the port that was judged.
same_port :
    (r : Request) (judged port : ℤ)
    → NamesPort r
    → text_eq r.scheme [] ≡ false
    → atoi (port_or_80 (url_port r.url_host)) ≡ some judged
    → transport_port r.scheme (url_port r.url_host) ≡ some port
    → port ≡ judged
unfolding transport_port
same_port r judged port named absolute read reached =
    elim (Bool-cases (text_eq (url_port r.url_host) [])) [
      | inr given ↦ cc (rw given at read, rw (given, transport_port) at reached)
      | inl absent ↦ elim (Bool-cases (text_eq r.scheme (codes "http"))) [
        | inl http ↦ cc (rw absent at read, rw (absent, http, transport_port) at reached, atoi_80)
        | inr other ↦ elim (Bool-cases (text_eq r.scheme (codes "https"))) [
          | inl https ↦ absurd (cc (rw (https, absent) at named))
          | inr unknown ↦ absurd (cc (rw (absent, other, unknown, transport_port) at reached))
        ]
      ]
    ]

serve_plain-IsGuarded :
    (m : AllowMap) (w : World) (r : Request) → NamesPort r → IsGuarded m (serve_plain m w r)
unfolding serve_plain
serve_plain-IsGuarded m w r named = elim (Bool-cases (text_eq r.scheme [])) [
  | inl relative ↦ rw (relative, serve_plain) (unlogged-IsGuarded m)
  | inr absolute ↦
      rw (absolute, serve_plain) (by_port absolute (atoi (port_or_80 (url_port r.url_host))) refl)
]
  where
    by_allowed :
        text_eq r.scheme [] ≡ false
        → (judged : ℤ) → atoi (port_or_80 (url_port r.url_host)) ≡ some judged
        → (b : Bool) → is_allowed m (url_hostname r.url_host) judged ≡ b
        → IsGuarded m (forward w r b (url_hostname r.url_host) judged)
    by_allowed absolute judged read true e = (
      ((refl, λ port reached. same_port r judged port named absolute read reached), tt),
      (λ h. e, tt),
    )
    by_allowed absolute judged read false e = denied-IsGuarded m (url_hostname r.url_host) judged

    by_port :
        text_eq r.scheme [] ≡ false
        → (judged : Option ℤ) → atoi (port_or_80 (url_port r.url_host)) ≡ judged
        → IsGuarded m (elim judged [
          | none ↦ unlogged
          | some port ↦
              forward w r
                (is_allowed m (url_hostname r.url_host) port)
                (url_hostname r.url_host)
                port
        ])
    by_port absolute none e = unlogged-IsGuarded m
    by_port absolute (some judged) e =
        by_allowed absolute judged e (is_allowed m (url_hostname r.url_host) judged) refl

serve_http-IsGuarded :
    (m : AllowMap) (w : World) (r : Request) → NamesPort r → IsGuarded m (serve_http m w r)
unfolding serve_http
serve_http-IsGuarded m w r named =
    on_if (IsGuarded m) (text_eq r.method (codes "CONNECT"))
      (λ connect. serve_connect-IsGuarded m w r) (λ plain. serve_plain-IsGuarded m w r named)

traffic-IsGuarded :
    (m : AllowMap) (requests : List (World × Request))
    → All (λ x. NamesPort x.1) requests
    → Paired (serve_all m requests).contacts (admitted (serve_all m requests).log)
      × All (Honest m) (serve_all m requests).log
unfolding serve_all
traffic-IsGuarded m [] named = (tt, tt)
traffic-IsGuarded m ((w, r) ∷ requests) named =
    let first = serve_http-IsGuarded m w r named.0 in
    let later = traffic-IsGuarded m requests named.1 in
    let served = serve_http m w r in
    let rest = serve_all m requests in
    (
      Paired-append served.contacts served.attempts rest.contacts rest.log first.0 later.0,
      All-append (Honest m) served.attempts rest.log first.1 later.1,
    )

-- For any allow-list and any requests that write the port out where their scheme is https, the
-- contacts that the proxy makes and the attempts that it logs as allowed pair one for one and in
-- order, each contact going to the host and port of its attempt, and some entry of the list admits
-- the host and port of every attempt logged as allowed.
pub serve_all-IsGuarded :
    (entries : List Text) (requests : List (World × Request))
    → All (λ x. NamesPort x.1) requests
    → Paired
        (serve_all (new_proxy entries) requests).contacts
        (admitted (serve_all (new_proxy entries) requests).log)
      × All
          (λ a. a.allowed ≡ true → Any (Admits a.host a.port) entries)
          (serve_all (new_proxy entries) requests).log
serve_all-IsGuarded entries requests named =
    let guarded = traffic-IsGuarded (new_proxy entries) requests named in
    (
      guarded.0,
      All-map (λ a honest h. (is_allowed_iff entries a.host a.port).0 (honest h))
          (serve_all (new_proxy entries) requests).log guarded.1,
    )

serve_plain-forward :
    (m : AllowMap) (w : World) (r : Request) (port : ℤ)
    → text_eq r.scheme [] ≡ false
    → atoi (port_or_80 (url_port r.url_host)) ≡ some port
    → serve_plain m w r
      ≡ forward w r (is_allowed m (url_hostname r.url_host) port) (url_hostname r.url_host) port
unfolding serve_plain
serve_plain-forward m w r port absolute read = ground arith

https_is_some : text_eq (codes "https") [] ≡ false
unfolding text_eq
https_is_some = refl

transport-https : transport_port (codes "https") [] ≡ some (pos 443)
unfolding transport_port text_eq
transport-https = refl

port_or_80-nil : port_or_80 [] ≡ codes "80"
unfolding text_eq
port_or_80-nil = refl

-- For a plain request with an https URL that writes no port, where port 80 of the host is admitted,
-- the proxy makes one contact, to that host on port 443, and logs one attempt, allowed, to that
-- host on port 80, whatever the list says of port 443.
pub https_port :
    (m : AllowMap) (w : World) (r : Request)
    → text_eq r.method (codes "CONNECT") ≡ false
    → r.scheme ≡ codes "https"
    → url_port r.url_host ≡ []
    → is_allowed m (url_hostname r.url_host) (pos 80) ≡ true
    → (out : Request) × ((serve_http m w r).contacts ≡ send out ∷ [])
      × (url_hostname out.url_host ≡ url_hostname r.url_host)
      × (transport_port out.scheme (url_port out.url_host) ≡ some (pos 443))
      × ((serve_http m w r).attempts
          ≡ record { host = url_hostname r.url_host; port = pos 80; allowed = true } ∷ [])
unfolding serve_http
https_port m w r plain https portless allowed =
    let served =
      serve_plain-forward m w r (pos 80) (cc (https, https_is_some))
        (cc (portless, port_or_80-nil, atoi_80)) in
    (
      outgoing r,
      rw (plain, served, allowed, serve_http) refl,
      refl,
      cc (https, portless, transport-https),
      rw (plain, served, allowed, serve_http) refl,
    )
