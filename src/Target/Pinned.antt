-- ===== src/Target/Pinned.antt =====
-- What an accepted target names, and what a checked window file says of an accepted recipe.
use mcp_library.Common.{
  ℕ, zero, suc, ◌≤◌, ◌≡◌, ◌≢◌, refl, sym, subst, ◌⊎◌, inl, inr, Bool, true, false, ◌&&◌, not, List,
  [], ◌∷◌, Option, none, some, All, length, arith,
}
use mcp_library.Audit.{is_empty}
use mcp_library.Common.Regex.{matches}
use mcp_library.Common.Regex.Times.{Spelled, matches-times}
use mcp_library.Common.Tests.{Bool-cases, Option-cases}
use mcp_library.Common.Text.{Text, text_eq, text_eq→eq, text_eq_refl, mem}
use mcp_library.Validation.{Recipe, Doc, lower_hex, hex40_re, hex64_re, validate}
use mcp_library.Validation.Accepted.{validate-IsAccepted}
use mcp_library.Target.{
  Target, TargetError, WindowDoc, first_case, cases_of, target_error, slice_to, ref, same_lines,
  check_window, window_error,
}

first_case-none :
    (cases : List (Bool × TargetError)) → first_case cases ≡ none → All (λ c. c.0 ≡ false) cases
first_case-none [] h = tt
first_case-none ((true, e) ∷ cases) h = absurd (cc h)
first_case-none ((false, e) ∷ cases) h = (refl, first_case-none cases h)

not-false : (b : Bool) → not b ≡ false → b ≡ true
not-false true h = refl
not-false false h = absurd (cc h)

-- The build is named by a release or by a whole commit, and both contract files by whole digests.
pub record IsPinned (t : Target) : Type 0 where
  pub build_named : (t.mcpgw_release ≢ []) ⊎ Spelled 40 lower_hex t.mcpgw_commit
  pub schema_digest : Spelled 64 lower_hex t.schema_sha256
  pub window_digest : Spelled 64 lower_hex t.window_sha256
  pub some_runtime : t.runtimes ≢ []

release_or_commit :
    (t : Target)
    → (text_eq t.mcpgw_release [] && not (matches hex40_re t.mcpgw_commit)) ≡ false
    → (t.mcpgw_release ≢ []) ⊎ Spelled 40 lower_hex t.mcpgw_commit
release_or_commit t h = elim (Bool-cases (text_eq t.mcpgw_release [])) [
  | inr named ↦ inl (λ e. named_text named e)
  | inl unnamed ↦ inr (
      (matches-times 40 lower_hex t.mcpgw_commit).0
        (not-false (matches hex40_re t.mcpgw_commit) (rw unnamed at h)))
]
  where
    named_text : text_eq t.mcpgw_release [] ≡ false → t.mcpgw_release ≡ [] → ⊥
    named_text named e = cc (rw (e, text_eq_refl []) at named)

filled : (xs : List Text) → is_empty xs ≡ false → xs ≢ []
filled [] h e = cc h
filled (x ∷ xs) h e = cc e

-- A target that Parse accepts has a release, or a commit of exactly 40 lower-case hex digits, two
-- contract digests of exactly 64 such digits, and some runtime.
pub target_error-IsPinned : (t : Target) → target_error t ≡ none → IsPinned t
unfolding target_error
target_error-IsPinned t h =
    let kept = first_case-none (cases_of t) h in
    let (newer, kept1) = kept in
    let (other, kept2) = kept1 in
    let (build, kept3) = kept2 in
    let (schema, kept4) = kept3 in
    let (window, kept5) = kept4 in
    let (assets, kept6) = kept5 in
    let (runtimes, kept7) = kept6 in
    record {
      build_named = release_or_commit t build;
      schema_digest =
          (matches-times 64 lower_hex t.schema_sha256).0
            (not-false (matches hex64_re t.schema_sha256) schema);
      window_digest =
          (matches-times 64 lower_hex t.window_sha256).0
            (not-false (matches hex64_re t.window_sha256) window);
      some_runtime = filled t.runtimes runtimes;
    }

slice-fits : (n : ℕ) (s : Text) → n ≤ length s → (t : Text) × (slice_to n s ≡ some t)
slice-fits zero s h = ([], refl)
slice-fits (suc n) [] h = absurd (omega arith)
slice-fits (suc n) (c ∷ s) h = let (t, e) = slice-fits n s (omega arith) in (c ∷ t, rw e refl)

-- On a target that Parse accepts, Ref does not panic at its slice of the commit.
accepted_ref : (t : Target) → target_error t ≡ none → ref t ≢ none
unfolding ref
accepted_ref t h = elim (Bool-cases (text_eq t.mcpgw_release [])) [
  | inr named ↦ λ e. cc (rw (named, ref) at e)
  | inl unnamed ↦ λ e. by_commit unnamed ((target_error-IsPinned t h).build_named) e
]
  where
    by_commit :
        text_eq t.mcpgw_release [] ≡ true
        → (t.mcpgw_release ≢ []) ⊎ Spelled 40 lower_hex t.mcpgw_commit
        → ref t ≡ none
        → ⊥
    by_commit unnamed (inl named) e = named (text_eq→eq t.mcpgw_release [] unnamed)
    by_commit unnamed (inr (long, digits)) e =
        let (s, sliced) = slice-fits 12 t.mcpgw_commit (omega (arith, long)) in
        cc (rw (unnamed, sliced, ref) at e)

same_lines→eq : (ss ts : List Text) → same_lines ss ts ≡ true → ss ≡ ts
unfolding same_lines
same_lines→eq [] [] h = refl
same_lines→eq [] (t ∷ ts) h = cc h
same_lines→eq (s ∷ ss) [] h = cc h
same_lines→eq (s ∷ ss) (t ∷ ts) h = elim (Bool-cases (text_eq s t)) [
  | inl same ↦ cc (text_eq→eq s t same, same_lines→eq ss ts (rw same at h))
  | inr other ↦ cc (rw other at h)
]

module _ (sha256 : Text → Text) (decode : Text → Option WindowDoc) where
  window_agrees :
      (t : Target) (bytes : Text)
      → check_window sha256 decode t bytes ≡ none
      → (sha256 bytes ≡ t.window_sha256)
        × (doc : WindowDoc) × (decode bytes ≡ some doc)
        × (doc.runtimes ≡ t.runtimes)
  unfolding check_window
  window_agrees t bytes h = elim (Bool-cases (text_eq (sha256 bytes) t.window_sha256)) [
    | inr other ↦ absurd (cc (rw (other, check_window) at h))
    | inl same ↦ elim (Option-cases (decode bytes)) [
      | inl bad ↦ absurd (cc (rw (same, bad, check_window) at h))
      | inr (doc, read) ↦ (
        text_eq→eq (sha256 bytes) t.window_sha256 same,
        doc,
        read,
        same_lines→eq doc.runtimes t.runtimes (drift doc (rw (same, read, check_window) at h)),
      )
    ]
  ]
    where
      drift :
          (doc : WindowDoc)
          → window_error sha256 decode t doc ≡ none
          → same_lines doc.runtimes t.runtimes ≡ true
      drift doc e = ground arith

-- For any hash and any decoding of the window file: where Validate accepts a recipe against the
-- runtimes of a target and CheckWindow accepts some bytes for it, those bytes hash to the digest
-- that the target records, and the window that they decode to lists the recipe's runtime.
pub accepted_runtime :
    (sha256 : Text → Text) (decode : Text → Option WindowDoc) (r : Recipe) (m : Doc) (t : Target)
    (bytes : Text)
    → validate r m t.runtimes ≡ none
    → check_window sha256 decode t bytes ≡ none
    → (sha256 bytes ≡ t.window_sha256)
      × (doc : WindowDoc) × (decode bytes ≡ some doc)
      × (mem r.runtime doc.runtimes ≡ true)
accepted_runtime sha256 decode r m t bytes accepted checked =
    let (digest, doc, read, same) = window_agrees sha256 decode t bytes checked in
    (
      digest,
      doc,
      read,
      subst (λ w. mem r.runtime w ≡ true) (sym same)
          ((validate-IsAccepted r m t.runtimes accepted).known_runtime),
    )
