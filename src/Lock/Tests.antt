-- ===== src/Lock/Tests.antt =====
-- Lock files on concrete lines and entries, and the theorems at them.
use mcp_library.Common.{◌≡◌, refl, Bool, true, false, List, [], ◌∷◌}
use mcp_library.Common.Result.{ok, err}
use mcp_library.Common.Text.{
  Text, codes, text_eq, has_prefix, has_suffix, cut_prefix, trim_suffix, trim_space,
}
use mcp_library.Lock.{
  NpmEntry, unpinned, npm_package_name, read_npm_lock, plain_dep, read_requirements, read_go_sum,
}

runs : Unit {0}
unfolding npm_package_name read_npm_lock read_requirements read_go_sum text_eq has_prefix has_suffix
    cut_prefix trim_suffix trim_space
runs = tt

abbrev requirements : List Text
requirements =
    codes "# pinned" ∷ codes "httpx==0.27.0 \\" ∷ codes "    --hash=sha256:ab" ∷ codes "" ∷ []

test_requirements :
    read_requirements requirements
    ≡ ok (plain_dep (codes "PyPI") (codes "httpx") (codes "0.27.0") ∷ [])
unfolding runs
test_requirements = refl

test_loose : read_requirements (codes "httpx>=0.27" ∷ []) ≡ err (unpinned (codes "httpx>=0.27"))
unfolding runs
test_loose = refl

test_go_sum :
    read_go_sum (
      codes "example.com/m v1.2.3 h1:x"
      ∷ codes "example.com/m v1.2.3/go.mod h1:y"
      ∷ codes "odd"
      ∷ [])
    ≡ ok (plain_dep (codes "Go") (codes "example.com/m") (codes "v1.2.3") ∷ [])
unfolding runs
test_go_sum = refl

test_nested : npm_package_name (codes "node_modules/a/node_modules/@s/b") ≡ codes "@s/b"
unfolding runs
test_nested = refl

abbrev entry : Text → Bool → NpmEntry
entry key dev = record {
  key = key;
  version = codes "1.0.0";
  has_install_script = false;
  license = [];
  dev = dev;
  link = false;
}

abbrev entries : List NpmEntry
entries =
    entry [] false ∷ entry (codes "node_modules/a") false ∷ entry (codes "node_modules/b") true ∷ []
