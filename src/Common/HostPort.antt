-- ===== src/Common/HostPort.antt =====
-- The package net on addresses: `SplitHostPort` and `JoinHostPort`.
use Prim.Native.Nat.{ℕ}
use mathlib.Core.Path.{◌≡◌, refl}
use mathlib.Core.Logic.{◌≢◌}
use mathlib.Core.Bool.{Bool, false, not, ◌&&◌, ◌||◌}
use mathlib.Core.List.{[], ◌∷◌, ◌++◌}
use mathlib.Core.Option.{Option, none, some}
use native.Mathlib.Omega.{arith}
use mcp_library.Common.Lists.{any}
use mcp_library.Common.Tests.{◌==◌, if◌then◌else◌}
use mcp_library.Common.Text.{Text, cut}

abbrev pub has_char : ℕ → Text → Bool
has_char c = any (λ d. d == c)

abbrev has_bracket : Text → Bool
has_bracket s = has_char b'[' s || has_char b']' s

-- The port stands behind the one colon.
abbrev plain_address : Option (Text × Text) → Option (Text × Text)
plain_address none = none
plain_address (some (host, port)) =
    if has_char b':' port || has_bracket host || has_bracket port then none else some (host, port)

-- The host stands in brackets, and the port behind the colon that follows them.
abbrev bracketed_address : Option (Text × Text) → Option (Text × Text)
bracketed_address none = none
bracketed_address (some (host, [])) = none
bracketed_address (some (host, c ∷ port)) =
    if c == b':' && not (has_char b'[' host) && not (has_char b':' port) && not (has_bracket port)
    then some (host, port)
    else none

-- `net.SplitHostPort`; every error is `none`.
unfoldable pub split_host_port : Text → Option (Text × Text)
unfolding cut
split_host_port [] = none
split_host_port (c ∷ s) =
    if c == b'[' then bracketed_address (cut b']' s) else plain_address (cut b':' (c ∷ s))

-- `net.JoinHostPort`.
unfoldable pub join_host_port : Text → Text → Text
join_host_port host port =
    if has_char b':' host then b'[' ∷ host ++ (b']' ∷ b':' ∷ port) else host ++ (b':' ∷ port)

-- A name or an address with neither a colon nor a bracket.
abbrev pub IsPlain : Text → Type 0
IsPlain s = (has_char b':' s ≡ false) × (has_bracket s ≡ false)

cut-append : (c : ℕ) (s t : Text) → has_char c s ≡ false → cut c (s ++ (c ∷ t)) ≡ some (s, t)
unfolding cut
cut-append c [] t h = ground arith
cut-append c (d ∷ s) t h = rw (cut-append c s t (ground arith)) (ground arith)

cut-absent : (c : ℕ) (s : Text) → has_char c s ≡ false → cut c s ≡ none
unfolding cut
cut-absent c [] h = refl
cut-absent c (d ∷ s) h = rw (cut-absent c s (ground arith)) (ground arith)

-- An address that is joined from a plain host and a plain port is split into them.
pub split-join_host_port :
    (host port : Text)
    → host ≢ []
    → IsPlain host
    → IsPlain port
    → split_host_port (join_host_port host port) ≡ some (host, port)
unfolding join_host_port split_host_port
split-join_host_port [] port h p q = absurd (h refl)
split-join_host_port (c ∷ s) port h p q =
    let parts = cut-append b':' (c ∷ s) port p.0 in rw (p.0, parts) (ground (arith, p.1, q.0, q.1))

-- A plain text holds no port.
pub split-plain : (s : Text) → IsPlain s → split_host_port s ≡ none
unfolding split_host_port
split-plain [] p = refl
split-plain (c ∷ s) p = rw (cut-absent b':' (c ∷ s) p.0) (ground (arith, p.1))
