-- ===== src/Lock.antt =====
-- internal/audit/lock.go: the readers of lock files, from decoded entries or from the lines that
-- bufio.Scanner looks for. ReadLock sorts what they return by name and then version.
pub mod Readers
pub mod Tests
use mcp_library.Common.{
  ℕ, ◌+◌, ltb, Bool, true, false, ◌&&◌, ◌||◌, not, List, [], ◌∷◌, Option, none, some, if◌then◌else◌,
}
use mcp_library.Audit.{Dep}
use mcp_library.Common.Result.{Result, ok, err, ◌>>=◌}
use mcp_library.Common.Sort.{sort_by}
use mcp_library.Common.Text.{
  Text, codes, text_eq, text_lt, has_prefix, has_suffix, cut_prefix, trim_suffix, trim_space,
  is_space,
}

-- An entry of package-lock.json, with its key.
pub record NpmEntry : Type 0 where
  pub key : Text
  pub version : Text
  pub has_install_script : Bool
  pub license : Text
  pub dev : Bool
  pub link : Bool

-- What stands behind the last place of the pattern.
unfoldable behind_last : Text → Text → Option Text
unfolding cut_prefix
behind_last p [] = cut_prefix p []
behind_last p (c ∷ s) =
    let here = cut_prefix p (c ∷ s) in elim (behind_last p s) [ some t ↦ some t | none ↦ here ]

unfoldable pub npm_package_name : Text → Text
unfolding behind_last
npm_package_name key = elim (behind_last (codes "node_modules/") key) [
  | none ↦ key
  | some name ↦ name
]

abbrev pub is_skipped_entry : NpmEntry → Bool
is_skipped_entry e = text_eq e.key [] || e.dev || e.link || text_eq e.version []

abbrev pub npm_dep : NpmEntry → Dep
npm_dep e = record {
  ecosystem = codes "npm";
  name = npm_package_name e.key;
  version = e.version;
  install_script = e.has_install_script;
  license = e.license;
}

unfoldable pub read_npm_lock : List NpmEntry → List Dep
read_npm_lock [] = []
read_npm_lock (e ∷ es) =
    let rest = read_npm_lock es in if is_skipped_entry e then rest else npm_dep e ∷ rest

-- `strings.Cut` at a pattern.
unfoldable pub cut_at : Text → Text → Option (Text × Text)
unfolding cut_prefix
cut_at p [] = elim (cut_prefix p []) [ none ↦ none | some after ↦ some ([], after) ]
cut_at p (c ∷ s) =
    let later = cut_at p s in
    elim (cut_prefix p (c ∷ s)) [
      | some after ↦ some ([], after)
      | none ↦ elim later [ none ↦ none | some (before, after) ↦ some (c ∷ before, after) ]
    ]

abbrev pub plain_dep : Text → Text → Text → Dep
plain_dep ecosystem name version = record {
  ecosystem = ecosystem;
  name = name;
  version = version;
  install_script = false;
  license = [];
}

abbrev pub is_skipped_line : Text → Bool
is_skipped_line line =
    text_eq line [] || has_prefix (codes "#") line || has_prefix (codes "--hash") line

-- The requirement on a line, with the line continuation taken off.
abbrev pub requirement : Text → Text
requirement line = trim_space (trim_suffix (codes "\\") (trim_space line))

-- How many bytes a text takes in UTF-8.
abbrev pub byte_length : Text → ℕ
byte_length [] = 0
byte_length (c ∷ s) =
    (if ltb c 0x80 then 1 else if ltb c 0x800 then 2 else if ltb c 0x10000 then 3 else 4)
    + byte_length s

-- `bufio.MaxScanTokenSize`: a line must end before the buffer is full.
abbrev pub max_scan_token_size : ℕ
max_scan_token_size = 65536

abbrev pub is_scanned : Text → Bool
is_scanned line = ltb (byte_length line) max_scan_token_size

pub data LockError : Type 0 where
  unpinned : Text → LockError
  line_too_long : LockError

-- The lines are the file's, cut at its newlines: the scanner stops at one that is too long.
unfoldable pub read_requirements : List Text → Result LockError (List Dep)
unfolding cut_at
read_requirements [] = ok []
read_requirements (line ∷ lines) =
    let rest = read_requirements lines in
    let pinned : Result LockError (List Dep) = elim (cut_at (codes "==") (requirement line)) [
      | none ↦ err (unpinned (requirement line))
      | some (name, version) ↦ rest >>= λ deps.
          ok (plain_dep (codes "PyPI") (trim_space name) (trim_space version) ∷ deps)
    ] in
    if not (is_scanned line)
    then err line_too_long
    else if is_skipped_line (trim_space line)
    then rest
    else pinned

-- `strings.Fields`.
abbrev push_field : Text → List Text → List Text
push_field [] fields = fields
push_field (c ∷ s) fields = (c ∷ s) ∷ fields

unfoldable fields_from : Text → List Text × Text
fields_from [] = ([], [])
fields_from (c ∷ s) =
    let (later, word) = fields_from s in
    if is_space c then (push_field word later, []) else (later, c ∷ word)

unfoldable pub fields : Text → List Text
unfolding fields_from
fields s = let (later, word) = fields_from s in push_field word later

abbrev go_dep : List Text → Option Dep
go_dep (module_path ∷ version ∷ more) =
    if has_suffix (codes "/go.mod") version
    then none
    else some (plain_dep (codes "Go") module_path version)
go_dep _ = none

unfoldable pub read_go_sum : List Text → Result LockError (List Dep)
unfolding fields
read_go_sum [] = ok []
read_go_sum (line ∷ lines) =
    let rest = read_go_sum lines in
    let read : Result LockError (List Dep) = elim (go_dep (fields (trim_space line))) [
      | none ↦ rest
      | some d ↦ rest >>= λ deps. ok (d ∷ deps)
    ] in
    if not (is_scanned line) then err line_too_long else read

abbrev dep_less : Dep → Dep → Bool
dep_less a b =
    if not (text_eq a.name b.name) then text_lt a.name b.name else text_lt a.version b.version

-- The order in which ReadLock returns what a reader has read.
abbrev sorted_deps : List Dep → List Dep
sorted_deps deps = sort_by dep_less deps
