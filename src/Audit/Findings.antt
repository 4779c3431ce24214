-- ===== src/Audit/Findings.antt =====
-- internal/audit/audit.go: what blocks approval.
use mcp_library.Common.{
  ℕ, suc, ◌≡◌, ◌⊎◌, ◌↔◌, refl, subst, inl, inr, Bool, true, false, List, [], ◌∷◌, ◌++◌, none, some,
  ◌==◌, All, Any,
}
use mcp_library.Common.Tests.{Bool-cases, Option-cases, ==_iff}
use mcp_library.Common.Text.{Text}
use mcp_library.Audit.{
  Vuln, Waiver, Line, expired, finding_line, covers, index_from, Scan, mark, blocked, let_through,
  scan, waiver_lines, vuln_findings,
}

pub no_lines : (xs ys : List Line) → (xs ++ ys ≡ []) ↔ ((xs ≡ []) × (ys ≡ []))
no_lines [] ys = (λ h. (refl, h), λ h. h.1)
no_lines (x ∷ xs) ys = (λ h. absurd (cc h), λ h. absurd (cc (h.0)))

module _ (waivers : List Waiver) (today : Text) where
  -- The first waiver that covers it is current.
  abbrev pub Waived : Vuln → Waiver → Type 0
  Waived v w = (i : ℕ) × (index_from (covers v) 0 waivers ≡ some (i, w)) × (expired today w ≡ false)

  abbrev pub Excused : Vuln → Type 0
  Excused v = (finding_line v ≡ none) ⊎ ((w : Waiver) × Waived v w)

  -- It blocks, and the first waiver that covers it is the one at the index.
  abbrev pub Uses : ℕ → Vuln → Type 0
  Uses j v =
      (line : Line) × (finding_line v ≡ some line)
      × (w : Waiver) × (index_from (covers v) 0 waivers ≡ some (j, w))

  -- The four ways of one round.
  pub on_round :
      (P : Scan → Type 0) (v : Vuln) (vs : List Vuln) (u : ℕ → Bool)
      → (finding_line v ≡ none → P (scan waivers today vs u))
      → ((line : Line)
          → finding_line v ≡ some line
          → index_from (covers v) 0 waivers ≡ none
          → P (blocked line (scan waivers today vs u)))
      → ((line : Line) (i : ℕ) (w : Waiver)
          → finding_line v ≡ some line
          → index_from (covers v) 0 waivers ≡ some (i, w)
          → expired today w ≡ false
          → P (let_through v w (scan waivers today vs (mark i u))))
      → ((line : Line) (i : ℕ) (w : Waiver)
          → finding_line v ≡ some line
          → index_from (covers v) 0 waivers ≡ some (i, w)
          → expired today w ≡ true
          → P (blocked line (scan waivers today vs (mark i u))))
      → P (scan waivers today (v ∷ vs) u)
  unfolding scan
  on_round P v vs u quiet uncovered through kept = elim (Option-cases (finding_line v)) [
    | inl silent ↦ rw (silent, scan) (quiet silent)
    | inr (line, speaks) ↦ elim (Option-cases (index_from (covers v) 0 waivers)) [
      | inl bare ↦ rw (speaks, bare, scan) (uncovered line speaks bare)
      | inr ((i, w), found) ↦ elim (Bool-cases (expired today w)) [
        | inl late ↦ rw (speaks, found, late, scan) (kept line i w speaks found late)
        | inr current ↦ rw (speaks, found, current, scan) (through line i w speaks found current)
      ]
    ]
  ]

  not-Excused_bare :
      (v : Vuln) (line : Line)
      → finding_line v ≡ some line
      → index_from (covers v) 0 waivers ≡ none
      → ¬ Excused v
  not-Excused_bare v line speaks bare (inl silent) = absurd (cc (speaks, silent))
  not-Excused_bare v line speaks bare (inr (w, (i, found, current))) = absurd (cc (bare, found))

  not-Excused_late :
      (v : Vuln) (line : Line) (i : ℕ) (w : Waiver)
      → finding_line v ≡ some line
      → index_from (covers v) 0 waivers ≡ some (i, w)
      → expired today w ≡ true
      → ¬ Excused v
  not-Excused_late v line i w speaks found late (inl silent) = absurd (cc (speaks, silent))
  not-Excused_late v line i w speaks found late (inr (w', (i', found', current))) =
      absurd (cc (found, found', late, current))

  scan_clear :
      (vs : List Vuln) (u : ℕ → Bool) → ((scan waivers today vs u).blocking ≡ []) ↔ All Excused vs
  scan_clear [] u = (λ h. tt, λ a. unfold scan in refl)
  scan_clear (v ∷ vs) u =
      on_round (λ s. (s.blocking ≡ []) ↔ All Excused (v ∷ vs)) v vs u
        (λ silent. (λ h. (inl silent, (scan_clear vs u).0 h), λ a. (scan_clear vs u).1 (a.1)))
        (λ line speaks bare.
          (λ h. absurd (cc h), λ a. absurd (not-Excused_bare v line speaks bare (a.0))))
        (λ line i w speaks found current. (
          λ h. (inr (w, (i, found, current)), (scan_clear vs (mark i u)).0 h),
          λ a. (scan_clear vs (mark i u)).1 (a.1),
        ))
        (λ line i w speaks found late.
          (λ h. absurd (cc h), λ a. absurd (not-Excused_late v line i w speaks found late (a.0))))

  marked : (i j : ℕ) (u : ℕ → Bool) → (mark i u j ≡ true) ↔ ((i ≡ j) ⊎ (u j ≡ true))
  marked i j u = elim (Bool-cases (i == j)) [
    | inl same ↦ (λ h. inl ((==_iff i j).0 same), λ h. rw same refl)
    | inr other ↦ (
      λ h. inr (rw other at h),
      λ h. elim h [
        | inl e ↦ absurd (cc ((==_iff i j).1 e, other))
        | inr flag ↦ rw (other, flag) refl
      ],
    )
  ]

  scan_used :
      (vs : List Vuln) (u : ℕ → Bool) (j : ℕ)
      → ((scan waivers today vs u).used j ≡ true) ↔ ((u j ≡ true) ⊎ Any (Uses j) vs)
  scan_used [] u j =
      unfold scan in
      (λ h. inl h, λ h. elim h [ inl flag ↦ flag | inr none_left ↦ absurd none_left ])
  scan_used (v ∷ vs) u j =
      on_round (λ s. (s.used j ≡ true) ↔ ((u j ≡ true) ⊎ Any (Uses j) (v ∷ vs))) v vs u
        (λ silent. skip (scan_used vs u j) (λ h. cc (silent, h.1)))
        (λ line speaks bare. skip (scan_used vs u j) (λ h. cc (bare, h.3)))
        (λ line i w speaks found current. using line i w speaks found (scan_used vs (mark i u) j))
        (λ line i w speaks found late. using line i w speaks found (scan_used vs (mark i u) j))
    where
      skip :
          {B : Type 0}
          → (B ↔ ((u j ≡ true) ⊎ Any (Uses j) vs))
          → ¬ Uses j v
          → B ↔ ((u j ≡ true) ⊎ Any (Uses j) (v ∷ vs))
      skip ih idle = (λ h. wider (ih.0 h), λ h. ih.1 (narrow h))
        where
          wider : (u j ≡ true) ⊎ Any (Uses j) vs → (u j ≡ true) ⊎ Any (Uses j) (v ∷ vs)
          wider (inl flag) = inl flag
          wider (inr later) = inr (inr later)

          narrow : (u j ≡ true) ⊎ Any (Uses j) (v ∷ vs) → (u j ≡ true) ⊎ Any (Uses j) vs
          narrow (inl flag) = inl flag
          narrow (inr (inl now)) = absurd (idle now)
          narrow (inr (inr later)) = inr later

      using :
          {B : Type 0} (line : Line) (i : ℕ) (w : Waiver)
          → finding_line v ≡ some line
          → index_from (covers v) 0 waivers ≡ some (i, w)
          → (B ↔ ((mark i u j ≡ true) ⊎ Any (Uses j) vs))
          → B ↔ ((u j ≡ true) ⊎ Any (Uses j) (v ∷ vs))
      using line i w speaks found ih = (λ h. forth (ih.0 h), λ h. ih.1 (back h))
        where
          forth : (mark i u j ≡ true) ⊎ Any (Uses j) vs → (u j ≡ true) ⊎ Any (Uses j) (v ∷ vs)
          forth (inr later) = inr (inr later)
          forth (inl flag) = elim ((marked i j u).0 flag) [
            | inl e ↦ inr (
                inl (
                  line,
                  speaks,
                  w,
                  subst (λ k. index_from (covers v) 0 waivers ≡ some (k, w)) e found,
                ))
            | inr before ↦ inl before
          ]

          back : (u j ≡ true) ⊎ Any (Uses j) (v ∷ vs) → (mark i u j ≡ true) ⊎ Any (Uses j) vs
          back (inl flag) = inl ((marked i j u).1 (inr flag))
          back (inr (inl now)) = inl ((marked i j u).1 (inl (cc (found, now.3))))
          back (inr (inr later)) = inr later

  -- Every waiver, with its index from `n` on.
  abbrev pub AllAt : (ℕ → Waiver → Type 0) → ℕ → List Waiver → Type 0
  AllAt P n [] = Unit
  AllAt P n (w ∷ ws) = P n w × AllAt P (suc n) ws

  waiver_lines_clear :
      (used : ℕ → Bool) (n : ℕ) (ws : List Waiver)
      → (waiver_lines today used n ws ≡ [])
        ↔ AllAt (λ j w. (expired today w ≡ false) × (used j ≡ true)) n ws
  unfolding waiver_lines
  waiver_lines_clear used n [] = (λ h. tt, λ a. refl)
  waiver_lines_clear used n (w ∷ ws) = elim (Bool-cases (expired today w)) [
    | inl late ↦ (λ h. absurd (cc (rw (late, waiver_lines) at h)), λ a. absurd (cc (late, a.0.0)))
    | inr current ↦ elim (Bool-cases (used n)) [
      | inl flag ↦ (
        λ h. (
          (current, flag),
          (waiver_lines_clear used (suc n) ws).0 (rw (current, flag, waiver_lines) at h),
        ),
        λ a. rw (current, flag, waiver_lines) ((waiver_lines_clear used (suc n) ws).1 (a.1)),
      )
      | inr idle ↦
          (λ h. absurd (cc (rw (current, idle, waiver_lines) at h)), λ a. absurd (cc (idle, a.0.1)))
    ]
  ]

  AllAt-iff :
      (P Q : ℕ → Waiver → Type 0)
      → ((j : ℕ) (w : Waiver) → P j w ↔ Q j w)
      → (n : ℕ) (ws : List Waiver) → AllAt P n ws ↔ AllAt Q n ws
  AllAt-iff P Q same n [] = (λ a. a, λ a. a)
  AllAt-iff P Q same n (w ∷ ws) = (
    λ a. ((same n w).0 (a.0), (AllAt-iff P Q same (suc n) ws).0 (a.1)),
    λ a. ((same n w).1 (a.0), (AllAt-iff P Q same (suc n) ws).1 (a.1)),
  )

  -- Current, and the first that covers some blocking vulnerability.
  abbrev pub Needed : List Vuln → ℕ → Waiver → Type 0
  Needed vulns j w = (expired today w ≡ false) × Any (Uses j) vulns

-- vulnFindings returns no blocking line exactly when every vulnerability either raises no line or
-- has a first covering waiver that is current, and every waiver is current and is the first that
-- covers some vulnerability that raises a line.
pub vuln_findings_clear_iff :
    (vulns : List Vuln) (waivers : List Waiver) (today : Text)
    → ((vuln_findings vulns waivers today).0 ≡ []) ↔ (
        All (Excused waivers today) vulns
        × AllAt waivers today (Needed waivers today vulns) 0 waivers)
unfolding vuln_findings
vuln_findings_clear_iff vulns waivers today = (
  λ h.
      let (quiet, silent) = (no_lines s.blocking lines).0 h in
      (
        (scan_clear waivers today vulns none_used).0 quiet,
        (AllAt-iff waivers today _ _ needed 0 waivers).0
            ((waiver_lines_clear waivers today s.used 0 waivers).0 silent),
      ),
  λ h. (no_lines s.blocking lines).1 (
    (scan_clear waivers today vulns none_used).1 (h.0),
    (waiver_lines_clear waivers today s.used 0 waivers).1
        ((AllAt-iff waivers today _ _ needed 0 waivers).1 (h.1)),
  ),
)
  where
    none_used : ℕ → Bool
    none_used i = false

    s : Scan
    s = scan waivers today vulns none_used

    lines : List Line
    lines = waiver_lines today s.used 0 waivers

    needed :
        (j : ℕ) (w : Waiver)
        → ((expired today w ≡ false) × (s.used j ≡ true)) ↔ Needed waivers today vulns j w
    needed j w = (
      λ h. (h.0, used_by ((scan_used waivers today vulns none_used j).0 (h.1))),
      λ h. (h.0, (scan_used waivers today vulns none_used j).1 (inr (h.1))),
    )
      where
        used_by :
            (false ≡ true) ⊎ Any (Uses waivers today j) vulns → Any (Uses waivers today j) vulns
        used_by (inl flag) = absurd (cc flag)
        used_by (inr now) = now
