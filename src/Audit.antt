-- ===== src/Audit.antt =====
-- internal/audit/audit.go: vulnFindings and the rest of what Run puts together: the rules that decide
-- which vulnerabilities, waivers and licences block approval. A line of the report is a value with
-- what it is printed from. Fetching, the lock file, the queries and the search for binaries give
-- Run's arguments here.
pub mod Findings
pub mod Passing
pub mod Approval
pub mod Tests
use mcp_library.Common.{
  ℕ, suc, ◌+◌, ◌*◌, ◌-◌, ◌%◌, Bool, true, false, ◌&&◌, ◌||◌, not, List, [], ◌∷◌, ◌++◌, Option, none,
  some, ◌==◌, leb, length, if◌then◌else◌,
}
use mcp_library.Common.Int.{is_digit}
use mcp_library.Common.Sort.{sort_by}
use mcp_library.Common.Text.{Text, codes, text_eq, text_lt, mem}
use mcp_library.License.{LicenseClass, refuses, classify_license, license_rank}

pub record Dep : Type 0 where
  pub ecosystem : Text
  pub name : Text
  pub version : Text
  pub install_script : Bool
  pub license : Text

pub record Vuln : Type 0 where
  pub id : Text
  pub aliases : List Text
  pub severity : Text
  pub fixed : List Text
  pub dep : Dep

pub record Waiver : Type 0 where
  pub id : Text
  pub «package» : Text
  pub reason : Text
  pub expires : Text

pub data Line : Type 0 where
  critical high : Vuln → Line
  waiver_expired waiver_unused : Waiver → Line
  server_license_refuses : Text → Line
  dep_license_refuses : Dep → Line

-- Two digits as a number.
abbrev pub two_digits : ℕ → ℕ → ℕ
two_digits a b = (a - b'0') * 10 + (b - b'0')

abbrev is_leap : ℕ → Bool
is_leap year = (year % 4 == 0) && (not (year % 100 == 0) || (year % 400 == 0))

abbrev pub days_in : ℕ → ℕ → ℕ
days_in year month =
    if month == 2
    then (if is_leap year then 29 else 28)
    else if (month == 4) || (month == 6) || (month == 9) || (month == 11)
    then 30
    else 31

abbrev is_day : ℕ → ℕ → ℕ → Bool
is_day year month day = leb 1 month && leb month 12 && leb 1 day && leb day (days_in year month)

-- Whether `time.Parse(time.DateOnly, s)` accepts the text.
unfoldable pub is_date : Text → Bool
is_date (a ∷ b ∷ c ∷ d ∷ e ∷ f ∷ g ∷ h ∷ i ∷ j ∷ []) =
    is_digit a
    && is_digit b
    && is_digit c
    && is_digit d
    && (e == b'-')
    && is_digit f
    && is_digit g
    && (h == b'-')
    && is_digit i
    && is_digit j
    && is_day (two_digits a b * 100 + two_digits c d) (two_digits f g) (two_digits i j)
is_date _ = false

unfoldable pub expired : Text → Waiver → Bool
expired today w = not (is_date w.expires) || text_lt w.expires today

abbrev pub is_empty : List Text → Bool
is_empty [] = true
is_empty (f ∷ fs) = false

-- The line of a vulnerability that blocks, if it does.
unfoldable pub finding_line : Vuln → Option Line
finding_line v =
    if text_eq v.severity (codes "CRITICAL")
    then some (critical v)
    else if text_eq v.severity (codes "HIGH") && not (is_empty v.fixed)
    then some (high v)
    else none

unfoldable pub covers : Vuln → Waiver → Bool
covers v w = text_eq w.«package» v.dep.name && (text_eq w.id v.id || mem w.id v.aliases)

-- `slices.IndexFunc`, with the element that it finds; `n` is the index of the first one.
unfoldable pub index_from : {A : Type 0} → (A → Bool) → ℕ → List A → Option (ℕ × A)
index_from p n [] = none
index_from p n (x ∷ xs) = let rest = index_from p (suc n) xs in if p x then some (n, x) else rest

pub record Scan : Type 0 where
  pub blocking : List Line
  pub waived : List (Vuln × Waiver)
  pub used : ℕ → Bool

abbrev pub mark : ℕ → (ℕ → Bool) → ℕ → Bool
mark i used j = (i == j) || used j

abbrev pub blocked : Line → Scan → Scan
blocked line s = record s { blocking = line ∷ s.blocking }

abbrev pub let_through : Vuln → Waiver → Scan → Scan
let_through v w s = record s { waived = (v, w) ∷ s.waived }

-- The loop over the vulnerabilities; `used` has a flag for every waiver's index.
unfoldable pub scan : List Waiver → Text → List Vuln → (ℕ → Bool) → Scan
scan waivers today [] used = record { blocking = []; waived = []; used = used }
scan waivers today (v ∷ vs) used = elim (finding_line v) [
  | none ↦ scan waivers today vs used
  | some line ↦ elim (index_from (covers v) 0 waivers) [
    | none ↦ blocked line (scan waivers today vs used)
    | some (i, w) ↦
        let rest = scan waivers today vs (mark i used) in
        if not (expired today w) then let_through v w rest else blocked line rest
  ]
]

-- The loop over the waivers.
unfoldable pub waiver_lines : Text → (ℕ → Bool) → ℕ → List Waiver → List Line
waiver_lines today used n [] = []
waiver_lines today used n (w ∷ ws) =
    let rest = waiver_lines today used (suc n) ws in
    if expired today w
    then waiver_expired w ∷ rest
    else if not (used n)
    then waiver_unused w ∷ rest
    else rest

unfoldable pub vuln_findings : List Vuln → List Waiver → Text → List Line × List (Vuln × Waiver)
unfolding scan waiver_lines
vuln_findings vulns waivers today =
    let s = scan waivers today vulns (λ i. false) in
    (s.blocking ++ waiver_lines today s.used 0 waivers, s.waived)

abbrev pub is_refusing : LicenseClass → Bool
is_refusing refuses = true
is_refusing _ = false

unfoldable pub server_lines : Text → List Line
server_lines license =
    if is_refusing (classify_license license) then server_license_refuses license ∷ [] else []

-- The loop over the dependencies, for the report's blocking lines.
unfoldable pub dep_lines : List Dep → List Line
dep_lines [] = []
dep_lines (d ∷ ds) =
    let rest = dep_lines ds in
    if text_eq d.license []
    then rest
    else if is_refusing (classify_license d.license)
    then dep_license_refuses d ∷ rest
    else rest

abbrev same_class : LicenseClass → LicenseClass → Bool
same_class a b = license_rank a == license_rank b

-- The same loop, for the names that the report lists under a class, before they are sorted.
unfoldable names_of_class : LicenseClass → List Dep → List Text
unfolding license_rank
names_of_class class [] = []
names_of_class class (d ∷ ds) =
    let rest = names_of_class class ds in
    if text_eq d.license []
    then rest
    else if same_class (classify_license d.license) class
    then d.name ∷ rest
    else rest

-- The same loop, for the dependencies with install scripts.
unfoldable scripts : List Dep → List Text
scripts [] = []
scripts (d ∷ ds) =
    let rest = scripts ds in
    if d.install_script then (d.name ++ codes "@" ++ d.version) ∷ rest else rest

-- What Run reports of the evidence that it has gathered; the source, the lock file's path and the
-- binaries, which it passes through, are left out.
pub record Report : Type 0 where
  pub license : Text
  pub dep_count : ℕ
  pub vulns : List Vuln
  pub licenses : LicenseClass → List Text
  pub install_scripts : List Text
  pub blocking : List Line
  pub waived : List (Vuln × Waiver)

unfoldable pub report : Text → List Dep → List Vuln → List Waiver → Text → Report
unfolding vuln_findings server_lines dep_lines names_of_class scripts text_lt
report license deps vulns waivers today =
    let findings = vuln_findings vulns waivers today in
    record {
      license = license;
      dep_count = length deps;
      vulns = vulns;
      licenses = λ class. sort_by text_lt (names_of_class class deps);
      install_scripts = scripts deps;
      blocking = findings.0 ++ (server_lines license ++ dep_lines deps);
      waived = findings.1;
    }
