-- ===== src/Audit/Passing.antt =====
-- internal/audit/audit.go: which findings a waiver lets through.
use mcp_library.Common.{◌≡◌, ◌≢◌, List, none, Any}
use mcp_library.Common.Text.{Text}
use mcp_library.Audit.{Vuln, Waiver, finding_line}
use mcp_library.Audit.Findings.{Waived}

module _ (waivers : List Waiver) (today : Text) (v : Vuln) (w : Waiver) where
  abbrev pub IsThis : Vuln × Waiver → Type 0
  IsThis p = p ≡ (v, w)

  -- Its line would block, and the waiver lets it through.
  abbrev pub MayPass : Type 0
  MayPass = (finding_line v ≢ none) × Waived waivers today v w

  abbrev pub LetThrough : List Vuln → Type 0
  LetThrough vs = Any (λ x. x ≡ v) vs × MayPass
