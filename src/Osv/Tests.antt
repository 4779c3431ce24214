-- ===== src/Osv/Tests.antt =====
-- Ranges of advisories, and the theorems at them.
use mcp_library.Common.{◌≡◌, refl, ◌↔◌, List, [], ◌∷◌, true, false, All, Any, inl}
use mcp_library.Audit.{Dep}
use mcp_library.Common.Int.{cmp_int}
use mcp_library.Common.Text.{Text, codes, text_eq, text_compare, mem}
use mcp_library.Version.{compare_version, compare_semver, compare_identifier, parse_semver}
use mcp_library.Osv.{
  OsvEvent, OsvAffected, Point, range_fixes, fixed_versions, osv_compare, is_ordered, points_of,
  point_of,
}
use mcp_library.Osv.Collected.{fixed_versions-NoRepeats, NoRepeats, In, FixedFor}
use mcp_library.Osv.Fixes.{range_fixes_sound, Outside, Fixes, Opens}
use mcp_library.Osv.Points.{Makes}

abbrev introduced_in : Text → OsvEvent
introduced_in v = record { introduced = v; fixed = []; last_affected = []; limit = [] }

abbrev fixed_in : Text → OsvEvent
fixed_in v = record { introduced = []; fixed = v; last_affected = []; limit = [] }

-- Two release branches, with their events out of order.
abbrev branches : List OsvEvent
branches =
    introduced_in (codes "1.83.0")
    ∷ fixed_in (codes "1.82.2")
    ∷ introduced_in (codes "0")
    ∷ fixed_in (codes "1.83.2")
    ∷ []

runs : Unit {0}
unfolding range_fixes osv_compare point_of compare_version compare_semver compare_identifier
    parse_semver text_eq text_compare cmp_int mem fixed_versions
runs = tt

test_branch : range_fixes (codes "Go") (codes "1.83.1") branches ≡ codes "1.83.2" ∷ []
unfolding runs
test_branch = refl

test_unordered :
    range_fixes (codes "other") (codes "1.83.1") branches ≡ codes "1.82.2" ∷ codes "1.83.2" ∷ []
unfolding runs
test_unordered = refl

branches-ordered : is_ordered (codes "Go") (codes "1.83.1") (points_of branches) ≡ true
unfolding runs is_ordered points_of
branches-ordered = refl

branch_fix : Any (λ x. x ≡ codes "1.83.2") (range_fixes (codes "Go") (codes "1.83.1") branches)
branch_fix = rw test_branch (inl refl)

range_fixes_sound_example :
    (lower : Point) × (fix : Point) × Opens (codes "Go") (codes "1.83.1") lower
    × Fixes (codes "Go") (codes "1.83.1") (codes "1.83.2") fix
    × Any (Makes lower) branches
    × Any (Makes fix) branches
    × All
        (λ ev. (q : Point) → Makes q ev → Outside (codes "Go") (codes "1.83.1") lower fix q)
        branches
range_fixes_sound_example =
    range_fixes_sound (codes "Go") (codes "1.83.1") (codes "1.83.2") branches branches-ordered
      branch_fix

abbrev grpc : Dep
grpc = record {
  ecosystem = codes "Go";
  name = codes "grpc";
  version = codes "1.83.1";
  install_script = false;
  license = [];
}

abbrev affected : List OsvAffected
affected =
    record {
      package_name = codes "grpc";
      ranges = record { type = codes "SEMVER"; events = branches } ∷ [];
    }
    ∷ []

fixed_versions-NoRepeats_example :
    NoRepeats (fixed_versions affected grpc)
    × (In (codes "1.83.2") (fixed_versions affected grpc)
        ↔ Any (FixedFor grpc (codes "1.83.2")) affected)
fixed_versions-NoRepeats_example = fixed_versions-NoRepeats affected grpc (codes "1.83.2")
