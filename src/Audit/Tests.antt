-- ===== src/Audit/Tests.antt =====
-- Findings and waivers on concrete data, and the theorems at them.
use mcp_library.Common.{◌≡◌, ◌≢◌, ◌↔◌, refl, true, false, [], ◌∷◌, All}
use mcp_library.Common.Text.{Text, codes, text_eq, text_lt, mem}
use mcp_library.License.{refuses, classify_license}
use mcp_library.Audit.{
  Dep, Vuln, Waiver, high, waiver_expired, waiver_unused, is_date, expired, finding_line, covers,
  index_from, vuln_findings, report,
}
use mcp_library.Audit.Approval.{report_clear_iff, MayShip}
use mcp_library.Audit.Findings.{Excused, AllAt, Needed}

abbrev lodash : Dep
lodash = record {
  ecosystem = codes "npm";
  name = codes "lodash";
  version = codes "4.17.20";
  install_script = false;
  license = codes "MIT";
}

abbrev injection : Vuln
injection = record {
  id = codes "GHSA-1";
  aliases = codes "CVE-1" ∷ [];
  severity = codes "HIGH";
  fixed = codes "4.17.21" ∷ [];
  dep = lodash;
}

abbrev waiver_until : Text → Waiver
waiver_until expires = record {
  id = codes "CVE-1";
  «package» = codes "lodash";
  reason = [];
  expires = expires;
}

abbrev today : Text
today = codes "2026-03-01"

runs : Unit {0}
unfolding is_date expired finding_line covers index_from vuln_findings text_eq text_lt mem
runs = tt

test_leap : is_date (codes "2024-02-29") ≡ true
unfolding runs
test_leap = refl

test_no_leap : is_date (codes "2026-02-29") ≡ false
unfolding runs
test_no_leap = refl

test_waived :
    vuln_findings (injection ∷ []) (waiver_until today ∷ []) today
    ≡ ([], (injection, waiver_until today) ∷ [])
unfolding runs
test_waived = refl

test_expired :
    vuln_findings (injection ∷ []) (waiver_until (codes "2026-02-28") ∷ []) today
    ≡ (high injection ∷ waiver_expired (waiver_until (codes "2026-02-28")) ∷ [], [])
unfolding runs
test_expired = refl

-- The second of two waivers that match one finding counts as unused.
test_shadowed :
    vuln_findings
      (injection ∷ [])
      (waiver_until today ∷ waiver_until (codes "2026-04-01") ∷ [])
      today
    ≡ (waiver_unused (waiver_until (codes "2026-04-01")) ∷ [], (injection, waiver_until today) ∷ [])
unfolding runs
test_shadowed = refl

report_clear_iff_example :
    ((report (codes "MIT") (lodash ∷ []) (injection ∷ []) (waiver_until today ∷ []) today).blocking
      ≡ [])
    ↔ (All (Excused (waiver_until today ∷ []) today) (injection ∷ [])
        × AllAt
            (waiver_until today ∷ [])
            today
            (Needed (waiver_until today ∷ []) today (injection ∷ []))
            0
            (waiver_until today ∷ [])
        × (classify_license (codes "MIT") ≢ refuses)
        × All MayShip (lodash ∷ []))
report_clear_iff_example =
    report_clear_iff (codes "MIT") (lodash ∷ []) (injection ∷ []) (waiver_until today ∷ []) today
