-- ===== src/Smoke/Declared.antt =====
-- internal/smoke: the proxy admits what the manifest declares, and nothing else.
use mcp_library.Common.{
  ℕ, zero, suc, ◌≤◌, ◌≡◌, ◌≢◌, refl, sym, ap, subst, ◌∙◌, ◌↔◌, ◌⊎◌, inl, inr, true, false, List, [],
  ◌∷◌, ◌++◌, Option, none, some, All, Any, arith, if◌then◌else◌, ◌==◌,
}
use mcp_library.Common.Decimal.{itoa, atoi, atoi-itoa, All-itoa}
use mcp_library.Common.HostPort.{
  IsPlain, has_char, join_host_port, split_host_port, split-join_host_port, split-plain,
}
use mcp_library.Common.Int.{ℤ, pos}
use mcp_library.Common.Regex.{find_submatch, submatch, Captures}
use mcp_library.Common.Keyed.{ok-injective}
use mcp_library.Common.Result.{ok, returned_behind}
use mcp_library.Common.Tests.{Bool-cases}
use mcp_library.Common.Text.{Text, codes, text_eq, text_eq→eq, contains}
use mcp_library.Proxy.{
  any_port, count_char, whole_entry, entry_port, parse_allow_entry, normalize_host, new_proxy,
  is_allowed,
}
use mcp_library.Proxy.Admission.{Admits, is_allowed_iff}
use mcp_library.Smoke.Egress.{
  Param, EgressRule, Admitted, host_template_re, smoke_domain, with_port, templated, is_param,
  egress_host, egress_hosts,
}

lacks-any : (c : ℕ) (s : Text) → All (λ d. (d == c) ≡ false) s → has_char c s ≡ false
lacks-any c [] h = refl
lacks-any c (d ∷ s) h = rw (h.0, lacks-any c s h.1) refl

itoa-IsPlain : (n : ℕ) → IsPlain (itoa (pos n))
itoa-IsPlain n = (
  lacks-any b':' _ (All-itoa (λ d. (d == b':') ≡ false) (λ d h. ground arith) n),
  rw
      (
        lacks-any b'[' _ (All-itoa (λ d. (d == b'[') ≡ false) (λ d h. ground arith) n),
        lacks-any b']' _ (All-itoa (λ d. (d == b']') ≡ false) (λ d h. ground arith) n),
      )
      refl,
)

count-absent : (c : ℕ) (s : Text) → has_char c s ≡ false → count_char c s ≡ 0
count-absent c [] h = refl
count-absent c (d ∷ s) h = ground (arith, count-absent c s)

filled-text : (s : Text) → s ≢ [] → text_eq s [] ≡ false
filled-text s h = elim (Bool-cases (text_eq s [])) [
  | inl e ↦ absurd (h (text_eq→eq s [] e))
  | inr e ↦ e
]

parse-split :
    (entry host port : Text)
    → split_host_port entry ≡ some (host, port)
    → parse_allow_entry entry ≡ entry_port host (atoi port)
unfolding parse_allow_entry
parse-split entry host port h = rw (h, parse_allow_entry) refl

parse-whole :
    (entry : Text) → split_host_port entry ≡ none → parse_allow_entry entry ≡ whole_entry entry
unfolding parse_allow_entry
parse-whole entry h = rw (h, parse_allow_entry) refl

whole_entry-IsPlain :
    (host : Text) → host ≢ [] → IsPlain host → whole_entry host ≡ ok (host, any_port)
whole_entry-IsPlain host h p = rw (count-absent b':' host p.0, p.0, filled-text host h) refl

entry_port-fits :
    (host : Text) (n : ℕ)
    → host ≢ []
    → suc n ≤ 65535
    → entry_port host (some (pos (suc n))) ≡ ok (host, pos (suc n))
entry_port-fits host n h fits = rw (filled-text host h) (ground arith)

-- An entry written from a plain host and a port is read back as they are.
parse-with_port :
    (host : Text) (n : ℕ)
    → host ≢ []
    → IsPlain host
    → n ≤ 65535
    → parse_allow_entry (with_port host (pos n)) ≡ ok (host, pos n)
unfolding with_port
parse-with_port host zero h p fits =
    parse-whole host (split-plain host p) ∙ whole_entry-IsPlain host h p
parse-with_port host (suc n) h p fits =
    let port = itoa (pos (suc n)) in
    parse-split (join_host_port host port) host port
      (split-join_host_port host port h p (itoa-IsPlain (suc n)))
    ∙ ap (entry_port host) (atoi-itoa (suc n) (omega (arith, fits)))
    ∙ entry_port-fits host n h fits

-- The host that a rule names in a smoke run.
abbrev named_by : Option Captures → Text
named_by none = []
named_by (some m) = submatch 1 m ++ smoke_domain

abbrev smoked_host : Text → Text
smoked_host host =
    if contains (codes "${") host then named_by (find_submatch host_template_re host) else host

-- The rule grants the host, up to case and a trailing dot, on any port or on this one.
abbrev pub Declares : Text → ℤ → EgressRule → Type 0
Declares host port e =
    (normalize_host (smoked_host e.host) ≡ normalize_host host)
    × ((e.port ≡ any_port) ⊎ (e.port ≡ port))

-- The rule names a host with neither a colon nor a bracket, and no port or one that exists.
abbrev pub NamesHost : EgressRule → Type 0
NamesHost e =
    (smoked_host e.host ≢ [])
    × IsPlain (smoked_host e.host)
    × (n : ℕ) × (e.port ≡ pos n)
    × (n ≤ 65535)

templated-entry :
    (params : List Param) (e : EgressRule) (m : Option Captures) (a : Admitted)
    → templated params e m ≡ ok a
    → a.0 ≡ with_port (named_by m) e.port
templated-entry params e none a h = absurd (cc h)
templated-entry params e (some m) a h = elim (Bool-cases (is_param params (submatch 1 m))) [
  | inl known ↦ sym (ap (λ x. x.0) (ok-injective _ a (rw known at h)))
  | inr unknown ↦ absurd (cc (rw unknown at h))
]

egress_host-entry :
    (params : List Param) (e : EgressRule) (a : Admitted)
    → egress_host params e ≡ ok a
    → a.0 ≡ with_port (smoked_host e.host) e.port
unfolding egress_host
egress_host-entry params e a h = elim (Bool-cases (text_eq e.cidr [])) [
  | inr cidr ↦ absurd (cc (rw (cidr, egress_host) at h))
  | inl named ↦ elim (Bool-cases (contains (codes "${") e.host)) [
    | inr plain ↦
        rw plain (sym (ap (λ x. x.0) (ok-injective _ a (rw (named, plain, egress_host) at h))))
    | inl template ↦ rw template (
        templated-entry params e (find_submatch host_template_re e.host) a
          (rw (named, template, egress_host) at h))
  ]
]

Admits-rule :
    (e : EgressRule) (entry host : Text) (port : ℤ)
    → NamesHost e
    → entry ≡ with_port (smoked_host e.host) e.port
    → Admits host port entry ↔ Declares host port e
Admits-rule e entry host port (filled, plain, n, known, fits) written =
    let read : parse_allow_entry entry ≡ ok (smoked_host e.host, e.port) =
      rw (written, known) (parse-with_port (smoked_host e.host) n filled plain fits) in
    (
      λ a.
          let same = ok-injective (smoked_host e.host, e.port) (a.0, a.1) (sym read ∙ a.2) in
          (
            ap (λ x. normalize_host x.0) same ∙ a.3,
            subst (λ p. (p ≡ any_port) ⊎ (p ≡ port)) (ap (λ x. x.1) (sym same)) a.4,
          ),
      λ d. (smoked_host e.host, e.port, read, d.0, d.1),
    )

pub declared_entries :
    (params : List Param) (egress : List EgressRule) (r : List Text × List (Text × Text))
    (host : Text) (port : ℤ)
    → egress_hosts params egress ≡ ok r
    → All NamesHost egress
    → Any (Admits host port) r.0 ↔ Any (Declares host port) egress
unfolding egress_hosts
declared_entries params [] r host port h named = rw (sym (ok-injective _ r h)) (λ a. a, λ a. a)
declared_entries params (e ∷ egress) r host port h named =
    let (a, first, h1) = returned_behind (egress_host params e) _ h in
    let (rest, later, h2) = returned_behind (egress_hosts params egress) _ h1 in
    let one = Admits-rule e a.0 host port named.0 (egress_host-entry params e a first) in
    let more = declared_entries params egress rest host port later named.1 in
    rw (sym (ok-injective _ r h2)) (
      λ x. elim x [ inl y ↦ inl (one.0 y) | inr y ↦ inr (more.0 y) ],
      λ x. elim x [ inl y ↦ inl (one.1 y) | inr y ↦ inr (more.1 y) ],
    )

-- Where egressHosts makes an allow-list of the package's egress rules, and every rule names a non-
-- empty host with neither a colon nor a bracket and no port or one up to 65535, the proxy of that
-- list allows a host and port exactly when some rule declares the host, up to case and a trailing
-- dot, with no port or with that one.
pub declared_egress :
    (params : List Param) (egress : List EgressRule) (r : List Text × List (Text × Text))
    → egress_hosts params egress ≡ ok r
    → All NamesHost egress
    → (host : Text) (port : ℤ)
    → (is_allowed (new_proxy r.0) host port ≡ true) ↔ Any (Declares host port) egress
declared_egress params egress r h named host port =
    let admitted = is_allowed_iff r.0 host port in
    let declared = declared_entries params egress r host port h named in
    (λ x. declared.0 (admitted.0 x), λ x. admitted.1 (declared.1 x))
