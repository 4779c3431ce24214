-- ===== src/Validation.antt =====
-- internal/recipe/validate.go: Validate and the rules that it runs, with AllowsRuntime of
-- internal/target/target.go. `none` is a nil error. A date is its number of days.
pub mod Accepted
pub mod Tests
use mcp_library.Common.{
  ℕ, zero, suc, ◌+◌, ◌*◌, ◌-◌, ◌/◌, ◌%◌, Bool, true, false, ◌&&◌, ◌||◌, not, List, [], ◌∷◌, Option,
  none, some, ltb, leb, ◌==◌, any, if◌then◌else◌,
}
use mcp_library.Audit.{Waiver, is_date, is_empty, days_in, two_digits}
use mcp_library.Common.Int.{ℤ, pos, ltb_ℤ, is_digit}
use mcp_library.Common.Keyed.{or_first}
use mcp_library.Common.Regex.{Regex, one, seq, star, char, opt, plus, word, times, matches}
use mcp_library.Common.Text.{Text, codes, text_eq, has_prefix, mem, trim_space}
use mcp_library.Recipe.{Reason, resolves_at_build_time, inside_path, subset}

pub record Source : Type 0 where
  pub kind : Text
  pub repo : Text
  pub commit : Text
  pub «package» : Text
  pub integrity : Text
  pub url : Text
  pub sha256 : Text

pub record StageRule : Type 0 where
  pub from : Text
  pub to : Text
  pub optional : Bool

pub record Build : Type 0 where
  pub steps : List (List Text)
  pub stage : List StageRule
  pub lockfile : Text
  pub toolchains : List Text

pub record Smoke : Type 0 where
  pub mode : Text
  pub reason : Text

pub record Vetting : Type 0 where
  pub vetted_on : Text
  pub vetted_by : Text
  pub sources : List Text

pub record Recipe : Type 0 where
  pub schema_version : ℤ
  pub name : Text
  pub version : Text
  pub runtime : Text
  pub arch : List Text
  pub source : Source
  pub build : Build
  pub vetting : Vetting
  pub smoke : Smoke
  pub waivers : List Waiver

-- What Validate reads of `manifest.Doc`.
pub record Doc : Type 0 where
  pub name : Text
  pub version : Text
  pub runtime : Text
  pub arch : List Text

pub data RecipeError : Type 0 where
  wrong_schema wrong_name wrong_version wrong_runtime runtime_unavailable : RecipeError
  wrong_arch wrong_source wrong_toolchain no_lockfile no_stage : RecipeError
  resolving_step : Reason → RecipeError
  stage_from stage_to vetted_on vetted_by no_sources wrong_smoke : RecipeError
  waiver_field waiver_date waiver_too_long waiver_twice : RecipeError

-- `if broken { return err }`.
abbrev pub refuse_if : Bool → RecipeError → Option RecipeError
refuse_if broken e = if broken then some e else none

-- The first error of a list of rules that run in order.
unfoldable pub first_error : List (Option RecipeError) → Option RecipeError
first_error [] = none
first_error (rule ∷ rules) = or_first rule (first_error rules)

-- `Target.AllowsRuntime`, of the target's window.
abbrev pub allows_runtime : List Text → Text → Bool
allows_runtime window line = mem line window

abbrev pub lower_hex : ℕ → Bool
lower_hex c = is_digit c || (leb b'a' c && leb c b'f')

abbrev pub lower : ℕ → Bool
lower c = leb b'a' c && leb c b'z'

abbrev alphanumeric : ℕ → Bool
alphanumeric c = is_digit c || lower c || (leb b'A' c && leb c b'Z')

-- A character class with the characters of a text in it too.
abbrev pub class_of : (ℕ → Bool) → Text → Regex
class_of p extra = one (λ c. p c || any (λ d. c == d) extra)

abbrev pub hex40_re : Regex
hex40_re = times 40 (one lower_hex)

abbrev pub hex64_re : Regex
hex64_re = times 64 (one lower_hex)

abbrev npm_name : Regex
npm_name =
    seq (class_of (λ c. lower c || is_digit c) (codes "-~"))
      (star (class_of (λ c. lower c || is_digit c) (codes "-._~")))

abbrev digits : Regex
digits = plus (one is_digit)

abbrev pub npm_pkg_re : Regex
npm_pkg_re = seq (opt (seq (char b'@') (seq npm_name (char b'/')))) (
    seq npm_name (
      seq (char b'@') (
        seq digits (
          seq (char b'.') (
            seq digits (
              seq (char b'.') (
                seq digits (
                  opt (
                    seq (class_of (λ c. false) (codes "-+"))
                      (plus (class_of alphanumeric (codes ".-"))))))))))))

abbrev pub pypi_pkg_re : Regex
pypi_pkg_re = seq (one alphanumeric) (
    seq (star (class_of alphanumeric (codes "._-")))
      (seq (word (codes "==")) (seq (one is_digit) (star (class_of alphanumeric (codes ".+!-"))))))

abbrev npm_integrity : Regex
npm_integrity =
    seq (word (codes "sha512-"))
      (seq (times 86 (class_of alphanumeric (codes "+/"))) (word (codes "==")))

abbrev pypi_integrity : Regex
pypi_integrity = seq (word (codes "sha256=")) (times 64 (one lower_hex))

unfoldable pub is_pinned : Source → Bool
is_pinned s =
    if text_eq s.kind (codes "git")
    then has_prefix (codes "https://") s.repo && matches hex40_re s.commit
    else if text_eq s.kind (codes "npm")
    then matches npm_pkg_re s.«package» && matches npm_integrity s.integrity
    else if text_eq s.kind (codes "pypi")
    then matches pypi_pkg_re s.«package» && matches pypi_integrity s.integrity
    else if text_eq s.kind (codes "archive")
    then has_prefix (codes "https://") s.url && matches hex64_re s.sha256
    else false

-- `validateSource`; which part is not pinned is left out.
abbrev source_error : Source → Option RecipeError
source_error s = refuse_if (not (is_pinned s)) wrong_source

unfoldable pub toolchain_error : List Text → List Text → Option RecipeError
toolchain_error window [] = none
toolchain_error window (tc ∷ tcs) =
    let rest = toolchain_error window tcs in
    if text_eq tc (codes "native") || not (allows_runtime window tc)
    then some wrong_toolchain
    else rest

unfoldable pub steps_error : List (List Text) → Option RecipeError
steps_error [] = none
steps_error (s ∷ ss) =
    let rest = steps_error ss in
    elim (resolves_at_build_time s) [ none ↦ rest | some why ↦ some (resolving_step why) ]

abbrev pub is_outside_tree : Text → Bool
is_outside_tree p = text_eq p [] || not (inside_path p)

unfoldable pub stage_error : List StageRule → Option RecipeError
stage_error [] = none
stage_error (s ∷ ss) =
    let rest = stage_error ss in
    if is_outside_tree s.from
    then some stage_from
    else if is_outside_tree s.to || text_eq s.to (codes "mcpgw-package.json")
    then some stage_to
    else rest

abbrev is_blank : Text → Bool
is_blank s = text_eq (trim_space s) []

unfoldable pub smoke_error : Smoke → Option RecipeError
smoke_error s =
    if text_eq s.mode []
    then none
    else if text_eq s.mode (codes "initialize-only")
    then refuse_if (is_blank s.reason) wrong_smoke
    else some wrong_smoke

-- The days before a month of a year, before a year, and of a date.
abbrev days_before_month : ℕ → ℕ → ℕ
days_before_month year zero = 0
days_before_month year (suc zero) = 0
days_before_month year (suc (suc m)) = days_in year (suc m) + days_before_month year (suc m)

abbrev days_before_year : ℕ → ℕ
days_before_year year = 365 * year + (year + 3) / 4 + (year + 399) / 400 - (year + 99) / 100

abbrev day_number : Text → ℕ
day_number (a ∷ b ∷ c ∷ d ∷ e ∷ f ∷ g ∷ h ∷ i ∷ j ∷ []) =
    let year = two_digits a b * 100 + two_digits c d in
    days_before_year year + days_before_month year (two_digits f g) + two_digits i j
day_number _ = 0

-- `time.Parse(time.DateOnly, s)`.
unfoldable pub parse_date : Text → Option ℕ
unfolding is_date
parse_date s = if is_date s then some (day_number s) else none

abbrev pub max_waiver_days : ℕ
max_waiver_days = 90

abbrev pub same_waiver : Waiver → Waiver → Bool
same_waiver w u = text_eq u.id w.id && text_eq u.«package» w.«package»

abbrev pub lacks_field : Waiver → Bool
lacks_field w = is_blank w.id || is_blank w.«package» || is_blank w.reason || is_blank w.expires

-- One round of `validateAudit`; `seen` are the waivers before.
unfoldable pub waiver_error : ℕ → List Waiver → Waiver → Option RecipeError
waiver_error vetted seen w =
    if lacks_field w then some waiver_field else elim (parse_date w.expires) [
      | none ↦ some waiver_date
      | some expires ↦
          if ltb (vetted + max_waiver_days) expires
          then some waiver_too_long
          else if any (same_waiver w) seen
          then some waiver_twice
          else none
    ]

unfoldable pub audit_error : ℕ → List Waiver → List Waiver → Option RecipeError
unfolding waiver_error
audit_error vetted seen [] = none
audit_error vetted seen (w ∷ ws) =
    or_first (waiver_error vetted seen w) (audit_error vetted (w ∷ seen) ws)

-- The rules from `vetted_on` on.
abbrev pub vetting_rules : Recipe → ℕ → List (Option RecipeError)
vetting_rules r vetted =
    refuse_if (is_blank r.vetting.vetted_by) vetted_by
    ∷ refuse_if (is_empty r.vetting.sources) no_sources
    ∷ smoke_error r.smoke
    ∷ audit_error vetted [] r.waivers
    ∷ []

unfoldable pub vetting_error : Recipe → Option RecipeError
unfolding parse_date first_error
vetting_error r = elim (parse_date r.vetting.vetted_on) [
  | none ↦ some vetted_on
  | some vetted ↦ first_error (vetting_rules r vetted)
]

abbrev pub needs_lockfile : Text → Bool
needs_lockfile runtime = has_prefix (codes "node@") runtime || has_prefix (codes "python@") runtime

abbrev is_no_rule : List StageRule → Bool
is_no_rule [] = true
is_no_rule (s ∷ ss) = false

-- The rules, in their fixed order.
abbrev pub rules : Recipe → Doc → List Text → List (Option RecipeError)
rules r m window =
    refuse_if (ltb_ℤ r.schema_version (pos 1) || ltb_ℤ (pos 1) r.schema_version) wrong_schema
    ∷ refuse_if (not (text_eq r.name m.name)) wrong_name
    ∷ refuse_if (not (text_eq r.version m.version)) wrong_version
    ∷ refuse_if (not (text_eq r.runtime m.runtime)) wrong_runtime
    ∷ refuse_if (not (allows_runtime window r.runtime)) runtime_unavailable
    ∷ refuse_if (is_empty r.arch || not (subset r.arch m.arch)) wrong_arch
    ∷ source_error r.source
    ∷ toolchain_error window r.build.toolchains
    ∷ refuse_if (needs_lockfile r.runtime && text_eq r.build.lockfile []) no_lockfile
    ∷ steps_error r.build.steps
    ∷ refuse_if (is_no_rule r.build.stage) no_stage
    ∷ stage_error r.build.stage
    ∷ vetting_error r
    ∷ []

unfoldable pub validate : Recipe → Doc → List Text → Option RecipeError
unfolding vetting_error first_error
validate r m window = first_error (rules r m window)

abbrev is_no_waiver : List Waiver → Bool
is_no_waiver [] = true
is_no_waiver (w ∷ ws) = false

-- `ValidateAudit`: a recipe with no waivers passes whatever its vetting says.
unfoldable validate_audit : Recipe → Option RecipeError
unfolding parse_date audit_error
validate_audit r = if is_no_waiver r.waivers then none else elim (parse_date r.vetting.vetted_on) [
  | none ↦ some vetted_on
  | some vetted ↦ audit_error vetted [] r.waivers
]
