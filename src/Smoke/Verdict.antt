-- ===== src/Smoke/Verdict.antt =====
-- internal/smoke/smoke.go: what a verdict of pass says of the package, the proxy and the snapshot.
use mcp_library.Common.{
  ◌≡◌, ◌≢◌, refl, sym, ap, subst, ◌∙◌, ◌⊎◌, inl, inr, Bool, true, false, not, ◌&&◌, List, [], ◌∷◌,
  ◌++◌, Option, none, some, All, is_nil, length,
}
use mcp_library.Common.Decimal.{eq_ℤ, eq_ℤ→eq}
use mcp_library.Common.Int.{ℤ, pos}
use mcp_library.Common.Keyed.{ok-injective}
use mcp_library.Common.Result.{Result, ok, err, returned_behind}
use mcp_library.Common.Tests.{Bool-cases}
use mcp_library.Common.Text.{Text, text_eq, text_eq→eq}
use mcp_library.Proxy.{Attempt}
use mcp_library.Smoke.Egress.{egress_hosts}
use mcp_library.Smoke.Ending.{
  Watch, settled, stream_ended, exited, Events, exit_sigterm, exit_sigkill, stop_failures,
  term_failures, on_eof, after_watch, ending, shutdown, FileRead, content, missing, unreadable,
  read_proxy_log, egress_failures, compare_with, check_snapshot, early_exit_failures,
}
use mcp_library.Smoke.Listing.{Failure}
use mcp_library.Smoke.Probe.{Codec, Probed, is_supported, unless}
use mcp_library.Smoke.Surface.{no_left, no_right, unless-nil, Surfaced, probe-Clean}
use mcp_library.Smoke.Run.{
  Input, PackageInfo, World, RunError, no_stack, no_start, bad_egress, bad_log, Outcome, mode_of,
  package_of, rewrap, unless_up, compared, probed_by, ending_of, failures_before, judge, run,
  transport_stdio, transport_http,
}

egress_failures-nil :
    (as' : List Attempt) → egress_failures as' ≡ [] → All (λ a. a.allowed ≡ true) as'
egress_failures-nil [] h = tt
egress_failures-nil (a ∷ as') h = (
  unless-nil a.allowed _ (no_left (unless a.allowed _) _ h),
  egress_failures-nil as' (no_right (unless a.allowed _) _ h),
)

-- The package was running until it was told to stop, and then left with 0, or by the signal.
pub record StoppedCleanly (over_stdio : Bool) (e : Events) : Type 0 where
  pub watched : e.watch ≡ settled
  pub left :
      ((over_stdio ≡ true) × (e.eof_exit ≡ some (pos 0)))
      ⊎ ((e.term_exit ≡ some (pos 0)) ⊎ (e.term_exit ≡ some exit_sigterm))

term_failures-nil :
    (code : Option ℤ) → term_failures code ≡ [] → (code ≡ some (pos 0)) ⊎ (code ≡ some exit_sigterm)
term_failures-nil none h = absurd (cc h)
term_failures-nil (some code) h = elim (Bool-cases (eq_ℤ code (pos 0))) [
  | inl zero_code ↦ inl (ap (λ c. some c) (eq_ℤ→eq code (pos 0) zero_code))
  | inr a ↦ elim (Bool-cases (eq_ℤ code exit_sigterm)) [
    | inl signalled ↦ inr (ap (λ c. some c) (eq_ℤ→eq code exit_sigterm signalled))
    | inr b ↦ elim (Bool-cases (eq_ℤ code exit_sigkill)) [
      | inl c ↦ absurd (cc (rw (a, b, c) at h))
      | inr c ↦ absurd (cc (rw (a, b, c) at h))
    ]
  ]
]

on_eof-nil :
    (e : Events) (code : Option ℤ)
    → e.eof_exit ≡ code
    → on_eof e code ≡ []
    → (e.eof_exit ≡ some (pos 0))
      ⊎ ((e.term_exit ≡ some (pos 0)) ⊎ (e.term_exit ≡ some exit_sigterm))
on_eof-nil e none known h =
    inr (term_failures-nil e.term_exit (no_right (stop_failures e.stop) _ h))
on_eof-nil e (some code) known h =
    inl (known ∙ ap (λ c. some c) (eq_ℤ→eq code (pos 0) (unless-nil (eq_ℤ code (pos 0)) _ h)))

shutdown-nil :
    (over_stdio : Bool) (e : Events)
    → e.watch ≡ settled
    → shutdown over_stdio e ≡ []
    → StoppedCleanly over_stdio e
unfolding shutdown
shutdown-nil true e w h = record {
  watched = w;
  left = elim (on_eof-nil e e.eof_exit refl h) [ inl x ↦ inl (refl, x) | inr x ↦ inr x ];
}
shutdown-nil false e w h = record {
  watched = w;
  left = inr (term_failures-nil e.term_exit (no_right (stop_failures e.stop) _ h));
}

early-nil : (code : Option ℤ) → early_exit_failures code ≢ []
early-nil none h = cc h
early-nil (some code) h = cc h

ending-nil :
    (closed over_stdio : Bool) (e : Events)
    → ending closed over_stdio e ≡ []
    → (closed ≡ false) × StoppedCleanly over_stdio e
unfolding ending
ending-nil true over_stdio e h = absurd (early-nil e.early_exit h)
ending-nil false over_stdio e h = (refl, by_watch e.watch refl h)
  where
    by_watch :
        (watch : Watch)
        → e.watch ≡ watch
        → after_watch over_stdio e watch ≡ []
        → StoppedCleanly over_stdio e
    by_watch stream_ended k h = absurd (early-nil e.early_exit h)
    by_watch settled k h = shutdown-nil over_stdio e k h
    by_watch (exited code) k h = absurd (cc h)

-- The snapshot is the committed one, or was written.
abbrev SnapshotHeld : Input → World → Text → Option Text → Type 0
SnapshotHeld input w bytes written =
    ((input.write_snapshot ≡ true) × (written ≡ some bytes))
    ⊎ ((input.write_snapshot ≡ false) × (w.committed ≡ content bytes))

compare_with-nil :
    (file : FileRead) (snap : Text) → compare_with file snap ≡ [] → file ≡ content snap
compare_with-nil missing snap h = absurd (cc h)
compare_with-nil unreadable snap h = absurd (cc h)
compare_with-nil (content bytes) snap h =
    ap content (text_eq→eq bytes snap (unless-nil (text_eq bytes snap) _ h))

check_snapshot-nil :
    (input : Input) (w : World) (snap : Text)
    → (check_snapshot input.write_snapshot w.writable w.committed [] snap).0 ≡ []
    → SnapshotHeld input w snap
        (check_snapshot input.write_snapshot w.writable w.committed [] snap).1
unfolding check_snapshot
check_snapshot-nil input w snap h = elim (Bool-cases input.write_snapshot) [
  | inr compare ↦
      inr (compare, compare_with-nil w.committed snap (rw (compare, check_snapshot) at h))
  | inl write ↦ elim (Bool-cases w.writable) [
    | inl can ↦ inl (write, rw (write, can, check_snapshot) refl)
    | inr cannot ↦ absurd (cc (rw (write, cannot, check_snapshot) at h))
  ]
]

compared-held :
    (input : Input) (w : World) (full : Bool) (snap : Option Text) (bytes : Text)
    → full ≡ true
    → snap ≡ some bytes
    → (before : List Failure) → before ≡ []
    → (compared input w full before snap).0 ≡ []
    → SnapshotHeld input w bytes (compared input w full before snap).1
compared-held input w full snap bytes in_full known before none_before =
    rw (in_full, known, none_before) (check_snapshot-nil input w bytes)

-- What a passed run says: the version that the package speaks is supported, the package ran until it
-- was stopped and left cleanly, and every attempt was allowed; in full mode, its tools were listed
-- whole, with valid schemas, and their snapshot is the committed one or was written.
pub record Deployed (codec : Codec) (input : Input) (w : World) (out : Outcome) : Type 0 where
  pub package_info : PackageInfo
  pub unpacked : w.unpacked ≡ some package_info
  pub declared :
      (values : List (Text × Text)) × (egress_hosts package_info.params package_info.egress
        ≡ ok (out.allow, values))
  pub supported : is_supported out.result.protocol ≡ true
  pub stopped_cleanly : StoppedCleanly (text_eq package_info.transport transport_stdio) w.events
  pub only_allowed : All (λ a. a.allowed ≡ true) out.result.egress
  pub surface :
      out.result.full ≡ true
      → (probed : Probed) × (s : Surfaced codec w.session probed) × (out.result.tool_count
          ≡ length s.tools)
        × SnapshotHeld input w s.bytes out.written

is_nil→eq : (fs : List Failure) → is_nil fs ≡ true → fs ≡ []
is_nil→eq [] h = refl
is_nil→eq (f ∷ fs) h = absurd (cc h)

package_of-some :
    (input : Input) (p : Option PackageInfo) (q : PackageInfo)
    → package_of input p ≡ ok q
    → p ≡ some q
package_of-some input none q h = absurd (cc h)
package_of-some input (some p) q h =
    elim (Bool-cases (not (text_eq input.name []) && not (text_eq p.name input.name))) [
      | inl other ↦ absurd (cc (rw (other, package_of) at h))
      | inr same ↦ cc (rw (same, package_of) at h)
    ]

returned_unless :
    {A : Type 0} (b : Bool) (why : RunError) (r : Result RunError A) (a : A)
    → unless_up b why r ≡ ok a
    → r ≡ ok a
returned_unless true why r a h = h
returned_unless false why r a h = absurd (cc h)

module _ (codec : Codec) (decode_attempt : Text → Option Attempt) (input : Input) (w : World) where
  judge-Deployed :
      (full : Bool) (p : PackageInfo) (allow : List Text) (attempts : List Attempt)
      → w.unpacked ≡ some p
      → (values : List (Text × Text)) → egress_hosts p.params p.egress ≡ ok (allow, values)
      → (judge codec decode_attempt input w full p allow attempts).result.passed ≡ true
      → Deployed codec input w (judge codec decode_attempt input w full p allow attempts)
  judge-Deployed full p allow attempts unpacked values declared passed =
      let probed = probed_by codec decode_attempt input w full p in
      let before = failures_before codec decode_attempt input w p probed attempts in
      let snapped = compared input w full before probed.snap in
      let all_nil = is_nil→eq (before ++ snapped.0) passed in
      let before_nil = no_left before snapped.0 all_nil in
      let snapped_nil = no_right before snapped.0 all_nil in
      let behind = no_right probed.failures _ before_nil in
      let clean =
        probe-Clean codec w.session full w.notifies (text_eq p.transport transport_http)
          w.socket_opens w.socket p.endpoint (no_left probed.failures _ before_nil) in
      let ended_well =
        ending-nil probed.closed (text_eq p.transport transport_stdio) w.events
          (no_left (ending_of codec decode_attempt input w p probed) _ behind) in
      record {
        package_info = p;
        unpacked = unpacked;
        declared = (values, declared);
        supported = clean.0;
        stopped_cleanly = ended_well.1;
        only_allowed =
            egress_failures-nil attempts
              (no_right (ending_of codec decode_attempt input w p probed) _ behind);
        surface = λ in_full. (
          probed,
          clean.1 in_full,
          (clean.1 in_full).counted,
          compared-held input w full probed.snap (clean.1 in_full).bytes in_full
              (clean.1 in_full).kept before before_nil snapped_nil,
        );
      }

  rewrapped : {A E F : Type 0} (f : E → F) (r : Result E A) (a : A) → rewrap f r ≡ ok a → r ≡ ok a
  rewrapped f (err why) a h = absurd (cc h)
  rewrapped f (ok b) a h = ap ok (ok-injective b a h)

  pub run-Deployed :
      (out : Outcome)
      → run codec decode_attempt input w ≡ ok out
      → out.result.passed ≡ true
      → Deployed codec input w out
  unfolding run
  run-Deployed out h passed =
      let (full, moded, h1) = returned_behind (mode_of input.mode) _ h in
      let (p, opened, h2) = returned_behind (package_of input w.unpacked) _ h1 in
      let (allowed, listed, h3) =
        returned_behind (rewrap bad_egress (egress_hosts p.params p.egress)) _ h2 in
      let h4 =
        returned_unless w.starts no_start _ out (returned_unless w.stack_up no_stack _ out h3) in
      let (attempts, logged, h5) =
        returned_behind (rewrap bad_log (read_proxy_log decode_attempt w.proxy_log)) _ h4 in
      let judged = ok-injective _ out h5 in
      subst (Deployed codec input w) judged (
        judge-Deployed full p allowed.0 attempts (package_of-some input w.unpacked p opened)
          allowed.1 (rewrapped bad_egress _ allowed listed)
          (subst (λ o. o.result.passed ≡ true) (sym judged) passed))
