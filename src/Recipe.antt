-- ===== src/Recipe.antt =====
-- internal/recipe/validate.go: what the build steps of a recipe may do, and the paths that it may
-- stage. A reason is a value with what it is printed from.
pub mod Steps
pub mod Staging
pub mod Tests
use mcp_library.Common.{
  ℕ, zero, suc, Bool, true, false, ◌&&◌, ◌||◌, not, List, [], ◌∷◌, Option, none, some, leb, length,
  any, if◌then◌else◌,
}
use mcp_library.Common.Text.{Text, codes, text_eq, has_prefix, has_suffix, contains, mem}
use mcp_library.Paths.{base, clean, is_outside}

-- An argument that names pip, with the rest of the line behind it.
abbrev pub is_pip : Text → Bool
is_pip a =
    text_eq a (codes "pip")
    || text_eq a (codes "pip3")
    || has_suffix (codes "/pip") a
    || has_suffix (codes "/pip3") a

abbrev pub starts_with : List Text → List Text → Bool
starts_with [] argv = true
starts_with (w ∷ ws) [] = false
starts_with (w ∷ ws) (a ∷ argv) = text_eq a w && starts_with ws argv

unfoldable pub is_pip_install : List Text → Bool
is_pip_install [] = false
is_pip_install (a ∷ argv) =
    (is_pip a && starts_with (codes "install" ∷ []) argv)
    || (text_eq a (codes "-m") && starts_with (codes "pip" ∷ codes "install" ∷ []) argv)
    || is_pip_install argv

abbrev pub require_hashes : Text
require_hashes = codes "--require-hashes"

unfoldable pub step_needs_network : List Text → Bool
unfolding is_pip_install mem
step_needs_network [] = false
step_needs_network (a ∷ args) =
    let cmd = base a in
    if text_eq cmd (codes "npm") && starts_with (codes "ci" ∷ []) args
    then true
    else if text_eq cmd (codes "go") && starts_with (codes "mod" ∷ codes "download" ∷ []) args
    then true
    else is_pip_install (a ∷ args) && mem require_hashes (a ∷ args)

abbrev pub shell_chars : List Text
shell_chars =
    codes "|"
    ∷ codes ";"
    ∷ codes "&&"
    ∷ codes "||"
    ∷ codes ">"
    ∷ codes "<"
    ∷ codes "`"
    ∷ codes "$("
    ∷ []

pub data Reason : Type 0 where
  step_is_empty shell_operator shell_string npm_resolves npx_downloads yarn_resolves : Reason
  pnpm_resolves pip_resolves go_resolves cargo_resolves apt_unpinned apk_unpinned : Reason
  fetches_url : Reason

abbrev pub one_of : Text → List Text → Bool
one_of t words = mem t words

abbrev pub second : List Text → Text
second [] = []
second (a ∷ args) = a

unfoldable pub has_shell_operator : List Text → Bool
unfolding contains
has_shell_operator argv = any (λ a. any (λ c. contains c a) shell_chars) argv

abbrev pub is_shell_string : Text → List Text → Bool
is_shell_string cmd argv =
    one_of cmd (codes "sh" ∷ codes "bash" ∷ codes "dash" ∷ []) && mem (codes "-c") argv

abbrev pub is_npm_resolving : Text → Text → Bool
is_npm_resolving cmd sub =
    text_eq cmd (codes "npm")
    && one_of sub (
        codes "install"
        ∷ codes "i"
        ∷ codes "add"
        ∷ codes "update"
        ∷ codes "up"
        ∷ codes "upgrade"
        ∷ codes "exec"
        ∷ [])

abbrev pub is_yarn_resolving : Text → Text → Bool
is_yarn_resolving cmd sub =
    text_eq cmd (codes "yarn")
    && one_of sub (codes "add" ∷ codes "up" ∷ codes "upgrade" ∷ codes "dlx" ∷ [])

abbrev pub is_pnpm_resolving : Text → Text → Bool
is_pnpm_resolving cmd sub =
    text_eq cmd (codes "pnpm")
    && one_of sub (codes "add" ∷ codes "update" ∷ codes "up" ∷ codes "dlx" ∷ [])

unfoldable pub resolves_at_build_time : List Text → Option Reason
unfolding is_pip_install mem has_shell_operator
resolves_at_build_time [] = some step_is_empty
resolves_at_build_time (a ∷ args) =
    let argv = a ∷ args in
    let cmd = base a in
    let sub = second args in
    if has_shell_operator argv
    then some shell_operator
    else if is_shell_string cmd argv
    then some shell_string
    else if is_npm_resolving cmd sub
    then some npm_resolves
    else if text_eq cmd (codes "npx")
    then some npx_downloads
    else if is_yarn_resolving cmd sub
    then some yarn_resolves
    else if is_pnpm_resolving cmd sub
    then some pnpm_resolves
    else if is_pip_install argv && not (mem require_hashes argv)
    then some pip_resolves
    else if text_eq cmd (codes "go") && one_of sub (codes "get" ∷ codes "install" ∷ [])
    then some go_resolves
    else if text_eq cmd (codes "cargo") && text_eq sub (codes "install")
    then some cargo_resolves
    else if one_of cmd (codes "apt-get" ∷ codes "apt" ∷ []) && text_eq sub (codes "install")
    then some apt_unpinned
    else if text_eq cmd (codes "apk") && text_eq sub (codes "add")
    then some apk_unpinned
    else if one_of cmd (codes "curl" ∷ codes "wget" ∷ [])
    then some fetches_url
    else none

unfoldable pub inside_path : Text → Bool
unfolding has_prefix contains
inside_path p =
    if has_prefix (codes "/") p || contains (codes "\\") p
    then false
    else (let c = clean p in not (text_eq c (codes ".")) && not (is_outside c))

unfoldable pub subset : List Text → List Text → Bool
unfolding mem
subset [] b = true
subset (x ∷ a) b = if not (mem x b) then false else subset a b
