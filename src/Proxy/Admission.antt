-- ===== src/Proxy/Admission.antt =====
-- internal/smoke/proxy.go: what the allow map admits, entry by entry.
use mcp_library.Common.{
  ◌≡◌, refl, sym, ◌∙◌, ap, ◌↔◌, ◌⊎◌, inl, inr, Bool, true, false, ◌&&◌, ◌||◌, List, [], ◌∷◌, none,
  some, Any, any, arith, if◌then◌else◌,
}
use mcp_library.Common.Decimal.{eq_ℤ, eq_ℤ→eq, eq_ℤ_refl}
use mcp_library.Common.Int.{ℤ}
use mcp_library.Common.Result.{Result, ok, err}
use mcp_library.Common.Tests.{Bool-cases, &&_left, &&_right}
use mcp_library.Common.Text.{Text, text_eq, text_eq→eq, text_eq_refl, text_eq_iff}
use mcp_library.Proxy.{
  any_port, parse_allow_entry, normalize_host, AllowMap, has_port, add_port, add_entry, add_entries,
  new_proxy, ports_of, admits, is_allowed, AllowError,
}

abbrev covers_port : ℤ → ℤ → Bool
covers_port p port = eq_ℤ p any_port || eq_ℤ p port

abbrev named_covers : Text → ℤ → Result AllowError (Text × ℤ) → Bool
named_covers host port (err why) = false
named_covers host port (ok (h, p)) = text_eq (normalize_host h) host && covers_port p port

-- Whether one entry covers_port a host, in normal form, and a port.
abbrev entry_covers : Text → ℤ → Text → Bool
entry_covers host port entry = named_covers host port (parse_allow_entry entry)

covers_port-cons :
    (p port : ℤ) (ports : List ℤ)
    → (has_port any_port (p ∷ ports) || has_port port (p ∷ ports))
      ≡ ((has_port any_port ports || has_port port ports) || covers_port p port)
covers_port-cons p port ports = ground arith

other_host :
    (a b host : Text) → text_eq a b ≡ false → text_eq a host ≡ true → text_eq b host ≡ false
other_host a b host h t = elim (Bool-cases (text_eq b host)) [
  | inr n ↦ n
  | inl y ↦ absurd (cc (h, (text_eq_iff a b).1 (text_eq→eq a host t ∙ sym (text_eq→eq b host y))))
]

admits-cons :
    (k : Text) (ports : List ℤ) (m : AllowMap) (host : Text) (port : ℤ)
    → admits ((k, ports) ∷ m) host port ≡ (
        if text_eq k host
        then has_port any_port ports || has_port port ports
        else admits m host port)
admits-cons k ports m host port = by_test (text_eq k host)
  where
    by_test :
        (b : Bool)
        → elim (if b then some ports else ports_of host m) [
          | none ↦ false
          | some ports ↦ has_port any_port ports || has_port port ports
        ]
          ≡ (if b then has_port any_port ports || has_port port ports else admits m host port)
    by_test true = refl
    by_test false = refl

-- A port that is added is admitted, and nothing else changes.
admits-add_port :
    (h : Text) (p : ℤ) (m : AllowMap) (host : Text) (port : ℤ)
    → admits (add_port h p m) host port
      ≡ (admits m host port || (text_eq h host && covers_port p port))
admits-add_port h p [] host port = admits-cons h (p ∷ []) [] host port ∙ by_test (text_eq h host)
  where
    by_test :
        (b : Bool)
        → (if b then has_port any_port (p ∷ []) || has_port port (p ∷ []) else false)
          ≡ (b && covers_port p port)
    by_test true = ground arith
    by_test false = refl
admits-add_port h p ((k, ports) ∷ m) host port = elim (Bool-cases (text_eq k h)) [
  | inl same ↦ rw same (
      admits-cons k (p ∷ ports) m host port
      ∙ rw (admits-cons k ports m host port)
          (together (text_eq k host) (ap (λ x. text_eq x host) (sym (text_eq→eq k h same)))))
  | inr other ↦ rw other (
      admits-cons k ports (add_port h p m) host port
      ∙ rw (admits-cons k ports m host port, admits-add_port h p m host port)
          (apart (text_eq k host) (other_host k h host other)))
]
  where
    together :
        (b : Bool)
        → text_eq h host ≡ b
        → (if b
            then has_port any_port (p ∷ ports) || has_port port (p ∷ ports)
            else admits m host port)
          ≡ ((if b then has_port any_port ports || has_port port ports else admits m host port)
              || (text_eq h host && covers_port p port))
    together true e = rw e (covers_port-cons p port ports)
    together false e = rw e (ground arith)

    apart :
        (b : Bool)
        → (b ≡ true → text_eq h host ≡ false)
        → (if b
            then has_port any_port ports || has_port port ports
            else (admits m host port || (text_eq h host && covers_port p port)))
          ≡ ((if b then has_port any_port ports || has_port port ports else admits m host port)
              || (text_eq h host && covers_port p port))
    apart true e = rw (e refl) (ground arith)
    apart false e = refl

admits-add_entry :
    (m : AllowMap) (entry host : Text) (port : ℤ)
    → admits (add_entry m entry) host port ≡ (admits m host port || entry_covers host port entry)
admits-add_entry m entry host port = by_entry (parse_allow_entry entry)
  where
    by_entry :
        (named : Result AllowError (Text × ℤ))
        → admits
            (elim named [ err why ↦ m | ok (h, p) ↦ add_port (normalize_host h) p m ])
            host
            port
          ≡ (admits m host port || named_covers host port named)
    by_entry (err why) = ground arith
    by_entry (ok (h, p)) = admits-add_port (normalize_host h) p m host port

admits-add_entries :
    (m : AllowMap) (entries : List Text) (host : Text) (port : ℤ)
    → admits (add_entries m entries) host port
      ≡ (admits m host port || any (entry_covers host port) entries)
admits-add_entries m [] host port = ground arith
admits-add_entries m (entry ∷ entries) host port =
    admits-add_entries (add_entry m entry) entries host port
    ∙ rw (admits-add_entry m entry host port) (ground arith)

is_allowed-any :
    (entries : List Text) (host : Text) (port : ℤ)
    → is_allowed (new_proxy entries) host port
      ≡ any (entry_covers (normalize_host host) port) entries
unfolding is_allowed new_proxy
is_allowed-any entries host port = admits-add_entries [] entries (normalize_host host) port

-- The entry names the host, up to case and a trailing dot, with any port or with this one.
abbrev pub Admits : Text → ℤ → Text → Type 0
Admits host port entry =
    (h : Text) × (p : ℤ) × (parse_allow_entry entry ≡ ok (h, p))
    × (normalize_host h ≡ normalize_host host)
    × ((p ≡ any_port) ⊎ (p ≡ port))

covers_port_iff : (p port : ℤ) → (covers_port p port ≡ true) ↔ ((p ≡ any_port) ⊎ (p ≡ port))
covers_port_iff p port = (
  λ h. elim (Bool-cases (eq_ℤ p any_port)) [
    | inl y ↦ inl (eq_ℤ→eq p any_port y)
    | inr n ↦ inr (eq_ℤ→eq p port (rw n at h))
  ],
  λ h. elim h [
    | inl e ↦ rw (e, eq_ℤ_refl any_port) refl
    | inr e ↦ rw (e, eq_ℤ_refl port) (ground arith)
  ],
)

entry_covers-Admits :
    (host : Text) (port : ℤ) (entry : Text) (named : Result AllowError (Text × ℤ))
    → parse_allow_entry entry ≡ named
    → named_covers (normalize_host host) port named ≡ true
    → Admits host port entry
entry_covers-Admits host port entry (err why) e h = absurd (cc h)
entry_covers-Admits host port entry (ok (h, p)) e t =
    let same = text_eq (normalize_host h) (normalize_host host) in
    (
      h,
      p,
      e,
      text_eq→eq (normalize_host h) (normalize_host host) (&&_left same (covers_port p port) t),
      (covers_port_iff p port).0 (&&_right same (covers_port p port) t),
    )

Admits-entry_covers :
    (host : Text) (port : ℤ) (entry : Text)
    → Admits host port entry
    → entry_covers (normalize_host host) port entry ≡ true
Admits-entry_covers host port entry (h, p, e, same, either) =
    rw (e, same, text_eq_refl (normalize_host host)) ((covers_port_iff p port).1 either)

any_iff :
    (host : Text) (port : ℤ) (entries : List Text)
    → (any (entry_covers (normalize_host host) port) entries ≡ true)
      ↔ Any (Admits host port) entries
any_iff host port [] = (λ h. absurd (cc h), λ a. elim a [ ])
any_iff host port (entry ∷ entries) = (
  λ h. elim (Bool-cases (entry_covers (normalize_host host) port entry)) [
    | inl y ↦ inl (entry_covers-Admits host port entry (parse_allow_entry entry) refl y)
    | inr n ↦ inr ((any_iff host port entries).0 (rw n at h))
  ],
  λ a. elim a [
    | inl y ↦ rw (Admits-entry_covers host port entry y) refl
    | inr r ↦ rw ((any_iff host port entries).1 r) (ground arith)
  ],
)

-- The proxy made from a list admits a host and a port exactly when an entry of the list names them.
pub is_allowed_iff :
    (entries : List Text) (host : Text) (port : ℤ)
    → (is_allowed (new_proxy entries) host port ≡ true) ↔ Any (Admits host port) entries
is_allowed_iff entries host port = rw (is_allowed-any entries host port) (any_iff host port entries)
