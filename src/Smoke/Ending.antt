-- ===== src/Smoke/Ending.antt =====
-- internal/smoke/smoke.go: how a package ends, the log of the proxy, the comparison of snapshots.
-- What a select finds ready first is a value of the world.
use mcp_library.Common.{
  Bool, not, ◌||◌, List, [], ◌∷◌, ◌++◌, Option, none, some, is_nil, if◌then◌else◌,
}
use mcp_library.Common.Decimal.{eq_ℤ}
use mcp_library.Common.Int.{ℤ, pos, negsuc}
use mcp_library.Common.Result.{Result, ok, err, ◌>>=◌}
use mcp_library.Common.Text.{Text, text_eq, split, trim_space}
use mcp_library.Proxy.{Attempt}
use mcp_library.Smoke.Listing.{
  Failure, exited_early, exited_on_eof, exited_on_term, not_reaped, not_stopped, killed,
  still_running, denied_egress, snapshot_missing, snapshot_unreadable, snapshot_drift,
  snapshot_unwritten,
}
use mcp_library.Smoke.Probe.{unless}

-- What is seen first after the last call, for as long as smoke looks.
pub data Watch : Type 0 where
  stream_ended settled : Watch
  exited : ℤ → Watch

pub data Stop : Type 0 where
  stopped no_such_container stop_failed : Stop

-- The exits are the codes that come in time.
pub record Events : Type 0 where
  pub watch : Watch
  pub early_exit : Option ℤ
  pub eof_exit : Option ℤ
  pub stop : Stop
  pub term_exit : Option ℤ

-- `cmd.Wait`'s error.
pub data WaitError : Type 0 where
  exit_error : ℤ → WaitError
  no_status : WaitError

unfoldable exit_code : Option WaitError → ℤ
exit_code none = pos 0
exit_code (some (exit_error code)) = code
exit_code (some no_status) = negsuc 0

abbrev pub exit_sigterm : ℤ
exit_sigterm = pos 143

abbrev pub exit_sigkill : ℤ
exit_sigkill = pos 137

abbrev pub early_exit_failures : Option ℤ → List Failure
early_exit_failures none = not_reaped ∷ []
early_exit_failures (some code) = exited_early code ∷ []

abbrev pub stop_failures : Stop → List Failure
stop_failures stop_failed = not_stopped ∷ []
stop_failures stopped = []
stop_failures no_such_container = []

abbrev pub term_failures : Option ℤ → List Failure
term_failures none = still_running ∷ []
term_failures (some code) =
    if eq_ℤ code (pos 0) || eq_ℤ code exit_sigterm
    then []
    else if eq_ℤ code exit_sigkill
    then killed ∷ []
    else exited_on_term code ∷ []

abbrev stop_package : Events → List Failure
stop_package e = stop_failures e.stop ++ term_failures e.term_exit

abbrev pub on_eof : Events → Option ℤ → List Failure
on_eof e none = stop_package e
on_eof e (some code) = unless (eq_ℤ code (pos 0)) (exited_on_eof code)

unfoldable pub shutdown : (over_stdio : Bool) → Events → List Failure
shutdown over_stdio e = if over_stdio then on_eof e e.eof_exit else stop_package e

abbrev pub after_watch : (over_stdio : Bool) → Events → Watch → List Failure
after_watch over_stdio e stream_ended = early_exit_failures e.early_exit
after_watch over_stdio e (exited code) = exited_early code ∷ []
after_watch over_stdio e settled = shutdown over_stdio e

-- The part of `Run` behind the last call.
unfoldable pub ending : (closed over_stdio : Bool) → Events → List Failure
unfolding shutdown
ending closed over_stdio e =
    if closed then early_exit_failures e.early_exit else after_watch over_stdio e e.watch

pub data FileRead : Type 0 where
  missing unreadable : FileRead
  content : Text → FileRead

pub data LogError : Type 0 where
  log_unreadable : LogError
  bad_line : Text → LogError

module _ (decode : Text → Option Attempt) where
  abbrev pub read_lines : List Text → Result LogError (List Attempt)
  read_lines [] = ok []
  read_lines (line ∷ lines) =
      let rest = read_lines lines in
      let read : Result LogError (List Attempt) = elim (decode line) [
        | none ↦ err (bad_line line)
        | some a ↦ rest >>= λ as'. ok (a ∷ as')
      ] in
      if text_eq (trim_space line) [] then rest else read

  unfoldable pub read_proxy_log : FileRead → Result LogError (List Attempt)
  unfolding trim_space split
  read_proxy_log missing = ok []
  read_proxy_log unreadable = err log_unreadable
  read_proxy_log (content bytes) = read_lines (split 10 bytes)

abbrev pub egress_failures : List Attempt → List Failure
egress_failures [] = []
egress_failures (a ∷ as') = unless a.allowed (denied_egress a.host a.port) ++ egress_failures as'

-- The failures of the comparison, and what is written.
abbrev pub compare_with : FileRead → Text → List Failure
compare_with missing snap = snapshot_missing ∷ []
compare_with unreadable snap = snapshot_unreadable ∷ []
compare_with (content committed) snap = unless (text_eq committed snap) snapshot_drift

unfoldable pub check_snapshot :
    (write writable : Bool) → FileRead → (before : List Failure) → Text → List Failure × Option Text
check_snapshot write writable committed before snap =
    if write
    then (if not (is_nil before)
        then ([], none)
        else if writable
        then ([], some snap)
        else (snapshot_unwritten ∷ [], none))
    else (compare_with committed snap, none)
