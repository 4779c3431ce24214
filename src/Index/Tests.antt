-- ===== src/Index/Tests.antt =====
-- The index on concrete data: one merge, one retirement, and the theorems at them.
use mcp_library.Common.{◌≡◌, ◌↔◌, refl, false, ◌&&◌, List, [], ◌∷◌, some, none, if◌then◌else◌}
use mcp_library.Common.Int.{pos, ltb_ℤ}
use mcp_library.Common.Keyed.{or_first}
use mcp_library.Common.Result.{ok, err}
use mcp_library.Common.Text.{Text, codes, text_eq, text_lt, cut}
use mcp_library.Index.{
  Blob, Version, Package, Index, supported_schema, conflict, merge, retire, canonicalise,
  merge_version, merge_package,
}
use mcp_library.Index.Canonical.{
  digest, WellFormed, IsCanonical, canonicalise-WellFormed, canonicalise-IsCanonical,
}
use mcp_library.Index.Merging.{merge-digest, merge_succeeds_iff, merge-WellFormed, NoConflict}
use mcp_library.Index.Retiring.{retire-digest}

abbrev linux_blob : Text → Text → Blob
linux_blob arch sha = record { os = codes "linux"; arch = arch; sha256 = sha; size = pos 10 }

abbrev release : Text → List Blob → Version
release version blobs = record {
  version = version;
  published_at = codes "2026-01-01T00:00:00Z";
  blobs = blobs;
  manifest = [];
}

abbrev server : Text → List Version → Package
server name versions = record {
  name = name;
  title = name;
  description = [];
  homepage = [];
  license = [];
  categories = [];
  versions = versions;
}

abbrev published : List Package → Index
published packages = record {
  schema_version = supported_schema;
  generated_at = codes "2026-01-01T00:00:00Z";
  library = codes "lib";
  signing_keys = [];
  packages = packages;
}

abbrev amd64 : Blob
amd64 = linux_blob (codes "amd64") (codes "aa")

abbrev arm64 : Blob
arm64 = linux_blob (codes "arm64") (codes "bb")

-- The previous index has one build of files 1.0, the new one another build of it and a second
-- version, and a second package.
abbrev before : Index
before = published (server (codes "files") (release (codes "1.0") (arm64 ∷ []) ∷ []) ∷ [])

abbrev built : Index
built = published (
    server (codes "files")
      (release (codes "1.1") (amd64 ∷ []) ∷ release (codes "1.0") (arm64 ∷ amd64 ∷ []) ∷ [])
    ∷ server (codes "clock") (release (codes "2.0") (amd64 ∷ []) ∷ [])
    ∷ [])

abbrev after : Index
after = published (
    server (codes "clock") (release (codes "2.0") (amd64 ∷ []) ∷ [])
    ∷ server (codes "files")
        (release (codes "1.1") (amd64 ∷ []) ∷ release (codes "1.0") (amd64 ∷ arm64 ∷ []) ∷ [])
    ∷ [])

abbrev arm_target : Text × Text
arm_target = (codes "linux", codes "arm64")

runs : Unit {0}
unfolding text_eq text_lt merge merge_version merge_package retire cut
runs = tt

test_merge : merge before built ≡ ok after
unfolding runs
test_merge = refl

-- Another digest for the build that is published already.
abbrev rebuilt : Index
rebuilt = published (
    server (codes "files")
      (release (codes "1.0") (linux_blob (codes "arm64") (codes "cc") ∷ []) ∷ [])
    ∷ [])

test_conflict :
    merge before rebuilt
    ≡ err (conflict (codes "files") (codes "1.0") arm64 (linux_blob (codes "arm64") (codes "cc")))
unfolding runs
test_conflict = refl

before-WellFormed : WellFormed before
unfolding WellFormed
before-WellFormed = ((refl, tt), (((refl, tt), ((refl, tt), tt)), tt))

built-WellFormed : WellFormed built
unfolding WellFormed text_eq
built-WellFormed = (
  (refl, (refl, tt)),
  (
    ((refl, (refl, tt)), ((refl, tt), ((refl, (refl, tt)), tt))),
    (((refl, tt), ((refl, tt), tt)), tt),
  ),
)

after-WellFormed : WellFormed after
after-WellFormed = merge-WellFormed before built after before-WellFormed built-WellFormed test_merge

merge-digest_example :
    digest after (codes "files") (codes "1.0") arm_target
    ≡ or_first
        (digest before (codes "files") (codes "1.0") arm_target)
        (digest built (codes "files") (codes "1.0") arm_target)
merge-digest_example =
    merge-digest before built after (codes "files") (codes "1.0") arm_target before-WellFormed
      built-WellFormed test_merge

merge_succeeds_iff_example :
    ((idx : Index) × (merge before built ≡ ok idx))
    ↔ ((ltb_ℤ supported_schema (pos 1) ≡ false) × NoConflict before built)
merge_succeeds_iff_example = merge_succeeds_iff before built before-WellFormed built-WellFormed

merge-WellFormed_example : WellFormed after
merge-WellFormed_example =
    merge-WellFormed before built after before-WellFormed built-WellFormed test_merge

canonicalise-WellFormed_example : WellFormed (canonicalise built)
canonicalise-WellFormed_example = canonicalise-WellFormed built built-WellFormed

canonicalise-IsCanonical_example :
    IsCanonical (canonicalise built)
    × (digest (canonicalise built) (codes "files") (codes "1.0") arm_target
        ≡ digest built (codes "files") (codes "1.0") arm_target)
canonicalise-IsCanonical_example =
    canonicalise-IsCanonical built (codes "files") (codes "1.0") arm_target built-WellFormed

-- Retiring files 1.0 leaves 1.1.
abbrev retired : Index
retired = published (
    server (codes "clock") (release (codes "2.0") (amd64 ∷ []) ∷ [])
    ∷ server (codes "files") (release (codes "1.1") (amd64 ∷ []) ∷ [])
    ∷ [])

test_cut : cut b'@' (codes "files@1.0") ≡ some (codes "files", codes "1.0")
unfolding cut
test_cut = refl

test_retire : retire after (codes "files@1.0") ≡ ok retired
unfolding runs
test_retire = refl

retire-digest_example : digest retired (codes "files") (codes "1.0") arm_target ≡ (
    if text_eq (codes "files") (codes "files") && text_eq (codes "1.0") (codes "1.0")
    then none
    else digest after (codes "files") (codes "1.0") arm_target)
retire-digest_example =
    retire-digest after retired (codes "files@1.0") (codes "files") (codes "1.0") after-WellFormed
      test_cut test_retire (codes "files") (codes "1.0") arm_target
