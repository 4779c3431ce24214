-- ===== src/Audit/Approval.antt =====
-- What a report that blocks nothing says of its server.
use mcp_library.Common.{◌≡◌, ◌≢◌, ◌⊎◌, ◌↔◌, refl, true, false, List, [], ◌∷◌, inl, inr, All}
use mcp_library.Common.Tests.{Bool-cases}
use mcp_library.Common.Text.{Text, text_eq, text_eq→eq, text_eq_refl}
use mcp_library.License.{LicenseClass, permits, review, refuses, classify_license}
use mcp_library.Audit.{
  Dep, Vuln, Waiver, is_refusing, server_lines, dep_lines, report, vuln_findings,
}
use mcp_library.Audit.Findings.{no_lines, Excused, AllAt, Needed, vuln_findings_clear_iff}

refusing_iff : (c : LicenseClass) → (is_refusing c ≡ false) ↔ (c ≢ refuses)
refusing_iff permits = (λ h. λ e. cc e, λ n. refl)
refusing_iff review = (λ h. λ e. cc e, λ n. refl)
refusing_iff refuses = (λ h. absurd (cc h), λ n. absurd (n refl))

server_lines_clear :
    (license : Text) → (server_lines license ≡ []) ↔ (classify_license license ≢ refuses)
unfolding server_lines
server_lines_clear license = elim (Bool-cases (is_refusing (classify_license license))) [
  | inl bad ↦ (
    λ h. absurd (cc (rw (bad, server_lines) at h)),
    λ n. absurd (cc (bad, (refusing_iff (classify_license license)).1 n)),
  )
  | inr fine ↦
      (λ h. (refusing_iff (classify_license license)).0 fine, λ n. rw (fine, server_lines) refl)
]

-- No licence is known, or one that does not refuse redistribution.
abbrev pub MayShip : Dep → Type 0
MayShip d = (d.license ≡ []) ⊎ (classify_license d.license ≢ refuses)

dep_lines_clear : (deps : List Dep) → (dep_lines deps ≡ []) ↔ All MayShip deps
unfolding dep_lines
dep_lines_clear [] = (λ h. tt, λ a. refl)
dep_lines_clear (d ∷ ds) = elim (Bool-cases (text_eq d.license [])) [
  | inl unknown ↦ (
    λ h. (
      inl (text_eq→eq d.license [] unknown),
      (dep_lines_clear ds).0 (rw (unknown, dep_lines) at h),
    ),
    λ a. rw (unknown, dep_lines) ((dep_lines_clear ds).1 (a.1)),
  )
  | inr known ↦ elim (Bool-cases (is_refusing (classify_license d.license))) [
    | inl bad ↦
        (λ h. absurd (cc (rw (known, bad, dep_lines) at h)), λ a. absurd (refused known bad (a.0)))
    | inr fine ↦ (
      λ h. (
        inr ((refusing_iff (classify_license d.license)).0 fine),
        (dep_lines_clear ds).0 (rw (known, fine, dep_lines) at h),
      ),
      λ a. rw (known, fine, dep_lines) ((dep_lines_clear ds).1 (a.1)),
    )
  ]
]
  where
    refused :
        text_eq d.license [] ≡ false → is_refusing (classify_license d.license) ≡ true → ¬ MayShip d
    refused known bad (inl e) =
        let same : text_eq d.license [] ≡ true = rw e (text_eq_refl []) in cc (known, same)
    refused known bad (inr n) = cc (bad, (refusing_iff (classify_license d.license)).1 n)

-- A report has no blocking line exactly when every vulnerability either raises no line or has a
-- first covering waiver that is current, every waiver is current and is the first that covers some
-- vulnerability that raises a line, the server's licence does not refuse redistribution, and no
-- dependency's known licence does.
pub report_clear_iff :
    (license : Text) (deps : List Dep) (vulns : List Vuln) (waivers : List Waiver) (today : Text)
    → ((report license deps vulns waivers today).blocking ≡ []) ↔ (
        All (Excused waivers today) vulns
        × AllAt waivers today (Needed waivers today vulns) 0 waivers
        × (classify_license license ≢ refuses)
        × All MayShip deps)
unfolding report
report_clear_iff license deps vulns waivers today = (
  λ h.
      let (clear, rest) = (no_lines ((vuln_findings vulns waivers today).0) _).0 h in
      let (server, ship) = (no_lines (server_lines license) (dep_lines deps)).0 rest in
      let (excused, needed) = (vuln_findings_clear_iff vulns waivers today).0 clear in
      (excused, needed, (server_lines_clear license).0 server, (dep_lines_clear deps).0 ship),
  λ (excused, needed, server, ship). (no_lines ((vuln_findings vulns waivers today).0) _).1 (
    (vuln_findings_clear_iff vulns waivers today).1 (excused, needed),
    (no_lines (server_lines license) (dep_lines deps)).1
        ((server_lines_clear license).1 server, (dep_lines_clear deps).1 ship),
  ),
)
