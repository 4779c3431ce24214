-- ===== src/Proxy.antt =====
-- internal/smoke/proxy.go: the allow-list of the egress proxy, and the line of its log for an attempt,
-- without the time.
pub mod Serving
pub mod Admission
pub mod Guard
pub mod Tests
use mcp_library.Common.{
  ℕ, zero, suc, ◌+◌, Bool, true, false, ◌&&◌, ◌||◌, not, List, [], ◌∷◌, ◌++◌, map, Option, none,
  some, ltb, filter_by, ◌==◌, if◌then◌else◌,
}
use mathlib.Core.List.{reverse}
use mcp_library.Common.Decimal.{atoi, itoa, eq_ℤ}
use mcp_library.Common.HostPort.{has_char, split_host_port, join_host_port}
use mcp_library.Common.Int.{ℤ, pos, ltb_ℤ, all_digits}
use mcp_library.Common.Result.{Result, ok, err}
use mcp_library.Common.Text.{
  Text, codes, text_eq, has_prefix, has_suffix, trim_prefix, trim_suffix, cut, mem, to_lower,
}

pub data AllowError : Type 0 where
  empty_entry bad_address bad_port : AllowError

abbrev pub any_port : ℤ
any_port = pos 0

-- `strings.Count(s, c)` at one character.
abbrev pub count_char : ℕ → Text → ℕ
count_char c [] = 0
count_char c (d ∷ s) = (if d == c then 1 else 0) + count_char c s

abbrev pub whole_entry : Text → Result AllowError (Text × ℤ)
whole_entry entry =
    if ltb 1 (count_char b':' entry) || not (has_char b':' entry)
    then (if text_eq entry [] then err empty_entry else ok (entry, any_port))
    else err bad_address

abbrev pub entry_port : Text → Option ℤ → Result AllowError (Text × ℤ)
entry_port host none = err bad_port
entry_port host (some port) =
    if text_eq host [] || ltb_ℤ port (pos 1) || ltb_ℤ (pos 65535) port
    then err bad_port
    else ok (host, port)

unfoldable pub parse_allow_entry : Text → Result AllowError (Text × ℤ)
unfolding split_host_port atoi
parse_allow_entry entry = elim (split_host_port entry) [
  | none ↦ whole_entry entry
  | some (host, port) ↦ entry_port host (atoi port)
]

unfoldable pub parse_allow : List Text → Option AllowError
unfolding parse_allow_entry
parse_allow [] = none
parse_allow (entry ∷ entries) =
    let rest = parse_allow entries in
    elim (parse_allow_entry entry) [ err why ↦ some why | ok named ↦ rest ]

unfoldable pub normalize_host : Text → Text
normalize_host host = map to_lower (trim_suffix (codes ".") host)

-- The ports of each host. A set of ports is a list that is only asked for its members.
abbrev pub AllowMap : Type 0
AllowMap = List (Text × List ℤ)

abbrev pub has_port : ℤ → List ℤ → Bool
has_port port [] = false
has_port port (p ∷ ports) = eq_ℤ p port || has_port port ports

abbrev pub add_port : Text → ℤ → AllowMap → AllowMap
add_port host port [] = (host, port ∷ []) ∷ []
add_port host port ((h, ports) ∷ m) =
    let rest = add_port host port m in
    if text_eq h host then (h, port ∷ ports) ∷ m else (h, ports) ∷ rest

abbrev pub add_entry : AllowMap → Text → AllowMap
add_entry m entry = elim (parse_allow_entry entry) [
  | err why ↦ m
  | ok (host, port) ↦ add_port (normalize_host host) port m
]

abbrev pub add_entries : AllowMap → List Text → AllowMap
add_entries m [] = m
add_entries m (entry ∷ entries) = add_entries (add_entry m entry) entries

-- The allow map of `NewProxy`.
unfoldable pub new_proxy : List Text → AllowMap
unfolding parse_allow_entry normalize_host
new_proxy entries = add_entries [] entries

abbrev pub ports_of : Text → AllowMap → Option (List ℤ)
ports_of host [] = none
ports_of host ((h, ports) ∷ m) =
    let rest = ports_of host m in if text_eq h host then some ports else rest

abbrev pub admits : AllowMap → Text → ℤ → Bool
admits m host port = elim (ports_of host m) [
  | none ↦ false
  | some ports ↦ has_port any_port ports || has_port port ports
]

unfoldable pub is_allowed : AllowMap → Text → ℤ → Bool
unfolding normalize_host
is_allowed m host port = admits m (normalize_host host) port

pub record Attempt : Type 0 where
  pub host : Text
  pub port : ℤ
  pub allowed : Bool
