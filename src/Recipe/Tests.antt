-- ===== src/Recipe/Tests.antt =====
-- Steps and paths of recipes, and the theorems at them.
use mcp_library.Common.{ℕ, suc, ◌≡◌, ◌↔◌, refl, true, false, List, [], ◌∷◌, some, none}
use mcp_library.Common.Text.{
  Text, codes, text_eq, has_prefix, has_suffix, contains, mem, split, join,
}
use mcp_library.Paths.{slash, base, clean, clean_from, clean_step, is_outside, is_rooted}
use mcp_library.Paths.Climb.{depth_after}
use mcp_library.Recipe.{
  step_needs_network, resolves_at_build_time, is_pip_install, has_shell_operator, inside_path,
  require_hashes, npm_resolves, shell_operator,
}
use mcp_library.Recipe.Staging.{inside_path_iff}
use mcp_library.Recipe.Steps.{accepted_step, PipInstall, IsArgv}

runs : Unit {0}
unfolding step_needs_network resolves_at_build_time is_pip_install has_shell_operator base text_eq
    has_prefix has_suffix contains mem split join inside_path clean clean_from clean_step is_outside
runs = tt

abbrev hashed_install : List Text
hashed_install =
    codes "python3"
    ∷ codes "-m"
    ∷ codes "pip"
    ∷ codes "install"
    ∷ codes "--require-hashes"
    ∷ codes "-r"
    ∷ codes "requirements.txt"
    ∷ []

test_npm : resolves_at_build_time (codes "/usr/bin/npm" ∷ codes "install" ∷ []) ≡ some npm_resolves
unfolding runs
test_npm = refl

test_shell : resolves_at_build_time (codes "make" ∷ codes "a && b" ∷ []) ≡ some shell_operator
unfolding runs
test_shell = refl

test_ci : step_needs_network (codes "npm" ∷ codes "ci" ∷ []) ≡ true
unfolding runs
test_ci = refl

test_accepted : resolves_at_build_time hashed_install ≡ none
unfolding runs
test_accepted = refl

accepted_step_example :
    IsArgv hashed_install
    × (PipInstall hashed_install
        → (mem require_hashes hashed_install ≡ true) × (step_needs_network hashed_install ≡ true))
accepted_step_example = accepted_step hashed_install test_accepted

test_hashes : mem require_hashes (require_hashes ∷ []) ≡ true
unfolding runs
test_hashes = refl

test_stage : inside_path (codes "dist/../lib") ≡ true
unfolding runs
test_stage = refl

test_climb : inside_path (codes "dist/../../lib") ≡ false
unfolding runs
test_climb = refl

inside_path_iff_example : (inside_path (codes "dist/../lib") ≡ true) ↔ (
    (is_rooted (codes "dist/../lib") ≡ false)
    × (contains (codes "\\") (codes "dist/../lib") ≡ false)
    × (d : ℕ) × (depth_after 0 (split slash (codes "dist/../lib")) ≡ some (suc d)))
inside_path_iff_example = inside_path_iff (codes "dist/../lib")
