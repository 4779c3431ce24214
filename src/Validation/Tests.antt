-- ===== src/Validation/Tests.antt =====
-- A recipe that Validate accepts, some that it refuses, and the theorem at the accepted one.
use mcp_library.Common.{◌≡◌, refl, true, false, List, [], ◌∷◌, some, none}
use mcp_library.Audit.{Waiver, is_date}
use mcp_library.Common.Int.{pos}
use mcp_library.Common.Regex.{matches, find_submatch}
use mcp_library.Common.Text.{
  Text, codes, text_eq, has_prefix, has_suffix, contains, mem, split, join, trim_space,
}
use mcp_library.Paths.{base, clean, clean_from, clean_step, is_outside}
use mcp_library.Recipe.{
  resolves_at_build_time, is_pip_install, has_shell_operator, inside_path, subset,
}
use mcp_library.Validation.{
  Recipe, Doc, validate, audit_error, is_pinned, steps_error, stage_error, toolchain_error,
  smoke_error, parse_date, waiver_too_long, wrong_source, npm_pkg_re, pypi_pkg_re,
}
use mcp_library.Validation.Accepted.{validate-IsAccepted, IsAccepted}

abbrev pub commit : Text
commit = codes "0123456789abcdef0123456789abcdef01234567"

abbrev pub exception : Text → Waiver
exception expires = record {
  id = codes "CVE-1";
  «package» = codes "lodash";
  reason = codes "no release";
  expires = expires;
}

abbrev recipe_of : Text → List Waiver → Recipe
recipe_of commit waivers = record {
  schema_version = pos 1;
  name = codes "files";
  version = codes "1.0.0";
  runtime = codes "node@22";
  arch = codes "amd64" ∷ [];
  source = record {
    kind = codes "git";
    repo = codes "https://example.com/files";
    commit = commit;
    «package» = [];
    integrity = [];
    url = [];
    sha256 = [];
  };
  build = record {
    steps = (codes "npm" ∷ codes "ci" ∷ []) ∷ [];
    stage = record { from = codes "dist"; to = codes "app"; optional = false } ∷ [];
    lockfile = codes "package-lock.json";
    toolchains = [];
  };
  vetting = record {
    vetted_on = codes "2025-12-31";
    vetted_by = codes "maintainer";
    sources = codes "upstream" ∷ [];
  };
  smoke = record { mode = []; reason = [] };
  waivers = waivers;
}

abbrev pub doc : Doc
doc = record {
  name = codes "files";
  version = codes "1.0.0";
  runtime = codes "node@22";
  arch = codes "amd64" ∷ codes "arm64" ∷ [];
}

abbrev pub window : List Text
window = codes "node@22" ∷ []

runs : Unit {0}
unfolding validate audit_error is_date is_pinned steps_error stage_error toolchain_error smoke_error
    parse_date matches find_submatch text_eq has_prefix has_suffix contains mem split join
    trim_space base clean clean_from clean_step is_outside resolves_at_build_time is_pip_install
    has_shell_operator inside_path subset
runs = tt

-- The last day on which a waiver of this vetting may expire.
abbrev pub accepted : Recipe
accepted = recipe_of commit (exception (codes "2026-03-31") ∷ [])

pub test_accepted : validate accepted doc window ≡ none
unfolding runs
test_accepted = refl

test_too_long :
    validate (recipe_of commit (exception (codes "2026-04-01") ∷ [])) doc window
    ≡ some waiver_too_long
unfolding runs
test_too_long = refl

test_tag : validate (recipe_of (codes "v1.0.0") []) doc window ≡ some wrong_source
unfolding runs
test_tag = refl

test_npm : matches npm_pkg_re (codes "@scope/files@1.20.3-rc.1") ≡ true
unfolding runs
test_npm = refl

test_range : matches npm_pkg_re (codes "files@^1.2.3") ≡ false
unfolding runs
test_range = refl

test_pypi : matches pypi_pkg_re (codes "mcp-server_x==1.0.post1") ≡ true
unfolding runs
test_pypi = refl

validate-IsAccepted_example : IsAccepted accepted doc window
validate-IsAccepted_example = validate-IsAccepted accepted doc window test_accepted
