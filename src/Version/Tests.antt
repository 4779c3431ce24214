-- ===== src/Version/Tests.antt =====
-- Comparisons from version_test.go and beside them, and the theorems at them.
use mcp_library.Common.{◌≡◌, refl, [], ◌∷◌, some, none, Ordering}
use mcp_library.Common.Int.{pos, cmp_int}
use mcp_library.Common.Regex.{Captures}
use mcp_library.Common.Text.{codes, text_eq, text_compare}
use mcp_library.Version.{
  Semver, compare_version, compare_semver, compare_pep440, compare_identifier, parse_semver,
  parse_pep440,
}
use mcp_library.Version.Preorder.{compare_version-IsPartialPreorder, IsPartialPreorder}

runs : Unit {0}
unfolding compare_version text_eq text_compare compare_semver compare_pep440 compare_identifier
    parse_semver parse_pep440 cmp_int
runs = tt

npm_pre : compare_version (codes "npm") (codes "1.0.0-rc.2") (codes "v1.0.0") ≡ some Ordering.lt
unfolding runs
npm_pre = refl

npm_num :
    compare_version (codes "npm") (codes "1.0.0-rc.10") (codes "1.0.0-rc.9+b1") ≡ some Ordering.gt
unfolding runs
npm_num = refl

pypi_dev : compare_version (codes "PyPI") (codes "1.0.dev1") (codes "1.0a1") ≡ some Ordering.lt
unfolding runs
pypi_dev = refl

pypi_pad : compare_version (codes "PyPI") (codes "1!2.0.0") (codes "1!2") ≡ some Ordering.eq
unfolding runs
pypi_pad = refl

pypi_post : compare_version (codes "PyPI") (codes "1.0-1") (codes "1.0.Alpha_2") ≡ some Ordering.gt
unfolding runs
pypi_post = refl

pypi_bad : compare_version (codes "PyPI") (codes "1.0-x") (codes "1.0") ≡ none
unfolding runs
pypi_bad = refl

abbrev candidate : Semver
candidate = record { major = pos 1; minor = pos 0; patch = pos 0; pre = codes "rc" ∷ [] }

compare_version-IsPartialPreorder_example : IsPartialPreorder (compare_version (codes "PyPI"))
compare_version-IsPartialPreorder_example = compare_version-IsPartialPreorder (codes "PyPI")

-- What the expression captures of 1.0.dev1 and of 1.0.
abbrev dev_captures : Captures
dev_captures = (2, codes "1.0") ∷ (8, codes "dev") ∷ (9, codes "1") ∷ []

abbrev final_captures : Captures
final_captures = (2, codes "1.0") ∷ []
