-- ===== src/Smoke/Egress.antt =====
-- internal/smoke/smoke.go: egressHosts, the proxy's allow-list from the rules of a manifest
-- (internal/manifest/runtime.go), and the values it gives to the params that hosts are made from.
use mcp_library.Common.{
  ℕ, Bool, ◌&&◌, ◌||◌, not, List, [], ◌∷◌, ◌++◌, Option, none, some, any, leb, if◌then◌else◌,
}
use mcp_library.Common.Decimal.{itoa, is_nonzero}
use mcp_library.Common.HostPort.{join_host_port}
use mcp_library.Common.Int.{ℤ, is_digit}
use mcp_library.Common.Regex.{Regex, Captures, seq, plus, word, group, find_submatch, submatch}
use mcp_library.Common.Result.{Result, ok, err, ◌>>=◌}
use mcp_library.Common.Text.{Text, codes, text_eq, contains}
use mcp_library.Validation.{class_of}

pub record Param : Type 0 where
  pub name : Text
  pub env : Text
  pub secret : Bool
  pub required : Bool
  pub kind : Text
  pub default_value : Text
  pub enum : List Text

pub record EgressRule : Type 0 where
  pub host : Text
  pub cidr : Text
  pub port : ℤ

pub data EgressError : Type 0 where
  cidr_rule bad_template unknown_param : Text → EgressError

abbrev word_char : ℕ → Bool
word_char c = (leb b'A' c && leb c b'Z') || (leb b'a' c && leb c b'z') || is_digit c

abbrev pub host_template_re : Regex
host_template_re =
    seq (word (codes "${"))
      (seq (group 1 (plus (class_of word_char (codes "_")))) (word (codes ".host}")))

abbrev pub smoke_domain : Text
smoke_domain = codes ".smoke.invalid"

unfoldable pub with_port : Text → ℤ → Text
unfolding join_host_port itoa
with_port host port = if is_nonzero port then join_host_port host (itoa port) else host

-- One entry of the allow-list, and the value of a param where the host is made from it.
abbrev pub Admitted : Type 0
Admitted = Text × Option (Text × Text)

abbrev pub is_param : List Param → Text → Bool
is_param params name = any (λ p. text_eq p.name name) params

abbrev pub templated : List Param → EgressRule → Option Captures → Result EgressError Admitted
templated params e none = err (bad_template e.host)
templated params e (some m) =
    if is_param params (submatch 1 m)
    then ok (
      with_port (submatch 1 m ++ smoke_domain) e.port,
      some (submatch 1 m, codes "https://" ++ (submatch 1 m ++ smoke_domain)),
    )
    else err (unknown_param (submatch 1 m))

unfoldable pub egress_host : List Param → EgressRule → Result EgressError Admitted
unfolding contains find_submatch with_port
egress_host params e =
    if not (text_eq e.cidr [])
    then err (cidr_rule e.cidr)
    else if not (contains (codes "${") e.host)
    then ok (with_port e.host e.port, none)
    else templated params e (find_submatch host_template_re e.host)

-- A map: a name that is given a value twice is given the same value.
abbrev add_value : Option (Text × Text) → List (Text × Text) → List (Text × Text)
add_value none values = values
add_value (some v) values = v ∷ values

unfoldable pub egress_hosts :
    List Param → List EgressRule → Result EgressError (List Text × List (Text × Text))
unfolding egress_host
egress_hosts params [] = ok ([], [])
egress_hosts params (e ∷ egress) = egress_host params e >>= λ admitted.
    egress_hosts params egress >>= λ rest. ok (admitted.0 ∷ rest.0, add_value admitted.1 rest.1)
