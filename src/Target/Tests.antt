-- ===== src/Target/Tests.antt =====
-- A target that Parse accepts, one that it refuses, and the theorems at the accepted one.
use mcp_library.Common.{◌≡◌, refl, true, [], ◌∷◌, ◌++◌, Option, some, none}
use mcp_library.Common.Int.{pos}
use mcp_library.Common.Regex.{matches}
use mcp_library.Common.Text.{Text, codes, text_eq, mem}
use mcp_library.Target.{
  Target, WindowDoc, target_error, check_window, ref, same_lines, no_build, unpinned_image,
  window_drift,
}
use mcp_library.Target.Pinned.{target_error-IsPinned, IsPinned, accepted_runtime}
use mcp_library.Validation.Tests.{accepted, doc, window, commit, test_accepted}

abbrev eight : Text
eight = codes "01234567"

abbrev digest : Text
digest = eight ++ (eight ++ (eight ++ (eight ++ (eight ++ (eight ++ (eight ++ eight))))))

abbrev target_of : Text → Text → Target
target_of commit image = record {
  schema_version = pos 1;
  mcpgw_release = [];
  mcpgw_commit = commit;
  schema_asset = codes "schema.json";
  schema_sha256 = digest;
  window_asset = codes "window.json";
  window_sha256 = digest;
  runtimes = window;
  build_image = image;
}

abbrev pinned : Target
pinned = target_of commit (codes "build/node@sha256:" ++ digest)

-- A hash and a decoding that know one file.
abbrev one_digest : Text → Text
one_digest bytes = digest

abbrev one_window : Text → Option WindowDoc
one_window bytes = some (record { schema_version = pos 1; runtimes = window })

abbrev other_window : Text → Option WindowDoc
other_window bytes = some (record { schema_version = pos 1; runtimes = codes "node@20" ∷ window })

runs : Unit {0}
unfolding target_error matches text_eq check_window same_lines ref
runs = tt

test_pinned : target_error pinned ≡ none
unfolding runs
test_pinned = refl

test_short : target_error (target_of (codes "0123456789ab") []) ≡ some no_build
unfolding runs
test_short = refl

test_image : target_error (target_of commit (codes "build/node:latest")) ≡ some unpinned_image
unfolding runs
test_image = refl

test_ref : ref pinned ≡ some (codes "MCPGW commit 0123456789ab")
unfolding runs
test_ref = refl

test_window : check_window one_digest one_window pinned [] ≡ none
unfolding runs
test_window = refl

test_drift : check_window one_digest other_window pinned [] ≡ some window_drift
unfolding runs
test_drift = refl

target_error-IsPinned_example : IsPinned pinned
target_error-IsPinned_example = target_error-IsPinned pinned test_pinned

accepted_runtime_example :
    (one_digest [] ≡ digest)
    × (d : WindowDoc) × (one_window [] ≡ some d)
    × (mem (accepted.runtime) d.runtimes ≡ true)
accepted_runtime_example =
    accepted_runtime one_digest one_window accepted doc pinned [] test_accepted test_window
