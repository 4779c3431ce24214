-- ===== src/Smoke/Run.antt =====
-- internal/smoke/smoke.go: Run, from a package's manifest to the verdict. Files, containers and the
-- order of events are a world; times, stderr and progress lines are left out.
use mcp_library.Common.{
  ℕ, Bool, true, false, not, ◌&&◌, ◌||◌, List, [], ◌++◌, Option, none, some, is_nil, if◌then◌else◌,
}
use mcp_library.Common.Result.{Result, ok, err, ◌>>=◌}
use mcp_library.Common.Text.{Text, codes, text_eq}
use mcp_library.Proxy.{Attempt}
use mcp_library.Smoke.Egress.{Param, EgressRule, EgressError, egress_hosts}
use mcp_library.Smoke.Ending.{
  Events, FileRead, LogError, ending, read_proxy_log, egress_failures, check_snapshot,
}
use mcp_library.Smoke.Listing.{Session, Failure}
use mcp_library.Smoke.Probe.{Codec, Probed, probe}

pub record Input : Type 0 where
  pub name : Text
  pub mode : Text
  pub write_snapshot : Bool

pub record PackageInfo : Type 0 where
  pub name : Text
  pub transport : Text
  pub endpoint : Text
  pub params : List Param
  pub egress : List EgressRule

-- The package is `none` where the work directories cannot be made, or the tar not be read, unpacked or
-- parsed.
pub record World : Type 0 where
  pub unpacked : Option PackageInfo
  pub stack_up : Bool
  pub starts : Bool
  pub socket : Text
  pub socket_opens : Bool
  pub session : Session
  pub notifies : Bool
  pub events : Events
  pub proxy_log : FileRead
  pub committed : FileRead
  pub writable : Bool

pub data RunError : Type 0 where
  bad_mode bad_package other_package no_stack no_start : RunError
  bad_egress : EgressError → RunError
  bad_log : LogError → RunError

pub record SmokeReport : Type 0 where
  pub passed : Bool
  pub failures : List Failure
  pub protocol : Text
  pub tool_count : ℕ
  pub full : Bool
  pub egress : List Attempt

pub record Outcome : Type 0 where
  pub result : SmokeReport
  pub allow : List Text
  pub written : Option Text

abbrev pub transport_stdio : Text
transport_stdio = codes "stdio"

abbrev pub transport_http : Text
transport_http = codes "http"

-- Whether the run is in full mode.
abbrev pub mode_of : Text → Result RunError Bool
mode_of mode =
    if text_eq mode [] || text_eq mode (codes "full")
    then ok true
    else if text_eq mode (codes "initialize-only")
    then ok false
    else err bad_mode

abbrev pub package_of : Input → Option PackageInfo → Result RunError PackageInfo
package_of input none = err bad_package
package_of input (some p) =
    if not (text_eq input.name []) && not (text_eq p.name input.name)
    then err other_package
    else ok p

abbrev pub rewrap : {A E F : Type 0} → (E → F) → Result E A → Result F A
rewrap f (err why) = err (f why)
rewrap f (ok a) = ok a

abbrev pub unless_up : {A : Type 0} → Bool → RunError → Result RunError A → Result RunError A
unless_up true why rest = rest
unless_up false why rest = err why

-- The snapshot is looked at in full mode, where the probe took one.
abbrev pub compared : Input → World → Bool → List Failure → Option Text → List Failure × Option Text
compared input w full before none = ([], none)
compared input w full before (some snap) =
    if full
    then check_snapshot input.write_snapshot w.writable w.committed before snap
    else ([], none)

abbrev verdict :
    Bool → List Text → Probed → List Attempt → List Failure → List Failure × Option Text → Outcome
verdict full allow probed attempts before snapped = record {
  result = record {
    passed = is_nil (before ++ snapped.0);
    failures = before ++ snapped.0;
    protocol = probed.protocol;
    tool_count = probed.tool_count;
    full = full;
    egress = attempts;
  };
  allow = allow;
  written = snapped.1;
}

module _ (codec : Codec) (decode_attempt : Text → Option Attempt) (input : Input) (w : World) where
  abbrev pub probed_by : Bool → PackageInfo → Probed
  probed_by full p =
      probe codec w.session full w.notifies (text_eq p.transport transport_http) w.socket_opens
        w.socket p.endpoint

  abbrev pub ending_of : PackageInfo → Probed → List Failure
  ending_of p probed = ending probed.closed (text_eq p.transport transport_stdio) w.events

  abbrev pub failures_before : PackageInfo → Probed → List Attempt → List Failure
  failures_before p probed attempts =
      probed.failures ++ (ending_of p probed ++ egress_failures attempts)

  abbrev pub judge : Bool → PackageInfo → List Text → List Attempt → Outcome
  judge full p allow attempts =
      let probed = probed_by full p in
      let before = failures_before p probed attempts in
      verdict full allow probed attempts before (compared input w full before probed.snap)

  unfoldable pub run : Result RunError Outcome
  unfolding egress_hosts probe ending read_proxy_log check_snapshot
  run = mode_of input.mode >>= λ full. package_of input w.unpacked >>= λ p.
      rewrap bad_egress (egress_hosts p.params p.egress) >>= λ allowed.
      unless_up w.stack_up no_stack (
        unless_up w.starts no_start (
          rewrap bad_log (read_proxy_log decode_attempt w.proxy_log) >>= λ attempts.
          ok (judge full p allowed.0 attempts)))
