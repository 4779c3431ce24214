-- ===== src/Validation/Accepted.antt =====
-- What a recipe that Validate accepts guarantees.
use mcp_library.Common.{
  ℕ, suc, ◌+◌, ◌≤◌, ◌≡◌, ◌≢◌, refl, inl, inr, Bool, true, false, ◌&&◌, ◌||◌, not, List, [], ◌∷◌,
  Option, none, some, All, any, ltb, arith,
}
use mcp_library.Audit.{Waiver, is_empty}
use mcp_library.Common.Int.{ℤ, pos, negsuc, ltb_ℤ}
use mcp_library.Common.Keyed.{or_first}
use mcp_library.Common.Tests.{Bool-cases, Option-cases}
use mcp_library.Common.Text.{Text, codes, text_eq, text_eq→eq, text_eq_refl, contains, split, mem}
use mcp_library.Paths.{slash, is_rooted}
use mcp_library.Paths.Climb.{depth_after}
use mcp_library.Recipe.{
  resolves_at_build_time, step_needs_network, inside_path, subset, require_hashes,
}
use mcp_library.Recipe.Staging.{inside_path_iff}
use mcp_library.Recipe.Steps.{IsArgv, PipInstall, accepted_step}
use mcp_library.Validation.{
  Recipe, Doc, StageRule, RecipeError, first_error, refuse_if, rules, vetting_rules, allows_runtime,
  is_pinned, steps_error, stage_error, is_outside_tree, parse_date, max_waiver_days, same_waiver,
  lacks_field, waiver_error, audit_error, vetting_error, validate, needs_lockfile,
}

or_first-none : {A : Type 0} (a b : Option A) → or_first a b ≡ none → (a ≡ none) × (b ≡ none)
or_first-none none b h = (refl, h)
or_first-none (some x) b h = absurd (cc h)

first_error-none :
    (rules : List (Option RecipeError)) → first_error rules ≡ none → All (λ x. x ≡ none) rules
unfolding first_error
first_error-none [] h = tt
first_error-none (rule ∷ rules) h =
    let (now, later) = or_first-none rule (first_error rules) h in
    (now, first_error-none rules later)

not_refused : (b : Bool) (e : RecipeError) → refuse_if b e ≡ none → b ≡ false
not_refused true e h = absurd (cc h)
not_refused false e h = refl

not-false : (b : Bool) → not b ≡ false → b ≡ true
not-false true h = refl
not-false false h = absurd (cc h)

or_false : (a b : Bool) → (a || b) ≡ false → (a ≡ false) × (b ≡ false)
or_false true b h = absurd (cc h)
or_false false b h = (refl, h)

same_text : (s t : Text) (e : RecipeError) → refuse_if (not (text_eq s t)) e ≡ none → s ≡ t
same_text s t e h = text_eq→eq s t (not-false (text_eq s t) (not_refused (not (text_eq s t)) e h))

-- A step that installs with pip is bound to digests, and no step is a shell string.
abbrev IsSafeStep : List Text → Type 0
IsSafeStep s =
    IsArgv s × (PipInstall s → (mem require_hashes s ≡ true) × (step_needs_network s ≡ true))

steps-safe : (ss : List (List Text)) → steps_error ss ≡ none → All IsSafeStep ss
unfolding steps_error
steps-safe [] h = tt
steps-safe (s ∷ ss) h = elim (Option-cases (resolves_at_build_time s)) [
  | inl fine ↦ (accepted_step s fine, steps-safe ss (rw (fine, steps_error) at h))
  | inr (why, bad) ↦ absurd (cc (rw (bad, steps_error) at h))
]

-- Strictly below the directory that the path starts from, and never above it on the way.
abbrev IsBelow : Text → Type 0
IsBelow p =
    (is_rooted p ≡ false)
    × (contains (codes "\\") p ≡ false)
    × (d : ℕ) × (depth_after 0 (split slash p) ≡ some (suc d))

IsBelow-of : (p : Text) → is_outside_tree p ≡ false → IsBelow p
IsBelow-of p h =
    let (filled, inside) = or_false (text_eq p []) (not (inside_path p)) h in
    (inside_path_iff p).0 (not-false (inside_path p) inside)

abbrev StaysBelow : StageRule → Type 0
StaysBelow s = IsBelow s.from × IsBelow s.to

stage-below : (ss : List StageRule) → stage_error ss ≡ none → All StaysBelow ss
unfolding stage_error
stage-below [] h = tt
stage-below (s ∷ ss) h = elim (Bool-cases (is_outside_tree s.from)) [
  | inl out ↦ absurd (cc (rw (out, stage_error) at h))
  | inr from ↦
      elim (Bool-cases (is_outside_tree s.to || text_eq s.to (codes "mcpgw-package.json"))) [
        | inl out ↦ absurd (cc (rw (from, out, stage_error) at h))
        | inr to ↦ (
          (IsBelow-of s.from from, IsBelow-of s.to ((or_false (is_outside_tree s.to) _ to).0)),
          stage-below ss (rw (from, to, stage_error) at h),
        )
      ]
]

subset-All : (a b : List Text) → subset a b ≡ true → All (λ x. mem x b ≡ true) a
unfolding subset
subset-All [] b h = tt
subset-All (x ∷ a) b h = elim (Bool-cases (mem x b)) [
  | inl there ↦ (there, subset-All a b (rw (there, subset) at h))
  | inr gone ↦ absurd (cc (rw (gone, subset) at h))
]

-- It expires at most 90 days after the vetting.
abbrev ExpiresBy : ℕ → Waiver → Type 0
ExpiresBy vetted w = (d : ℕ) × (parse_date w.expires ≡ some d) × (d ≤ vetted + max_waiver_days)

abbrev Apart : Waiver → Waiver → Type 0
Apart u w = ¬ ((u.id ≡ w.id) × (u.«package» ≡ w.«package»))

abbrev NoTwins : List Waiver → Type 0
NoTwins [] = Unit
NoTwins (w ∷ ws) = All (Apart w) ws × NoTwins ws

any_none :
    (w : Waiver) (seen : List Waiver) → any (same_waiver w) seen ≡ false → All (λ u. Apart u w) seen
any_none w [] h = tt
any_none w (u ∷ seen) h =
    let (here, there) = or_false (same_waiver w u) (any (same_waiver w) seen) h in
    (λ (id, pkg). absurd (apart here id pkg), any_none w seen there)
  where
    apart : same_waiver w u ≡ false → u.id ≡ w.id → u.«package» ≡ w.«package» → ⊥
    apart here id pkg =
        let same : same_waiver w u ≡ true =
          rw (id, pkg, text_eq_refl w.id) (text_eq_refl w.«package») in
        cc (here, same)

le_of_not_lt : (a b : ℕ) → ltb a b ≡ false → b ≤ a
le_of_not_lt a b h = ground arith

waiver-fine :
    (vetted : ℕ) (seen : List Waiver) (w : Waiver)
    → waiver_error vetted seen w ≡ none
    → ExpiresBy vetted w × All (λ u. Apart u w) seen
unfolding waiver_error
waiver-fine vetted seen w h = elim (Bool-cases (lacks_field w)) [
  | inl lacks ↦ absurd (cc (rw (lacks, waiver_error) at h))
  | inr filled ↦ elim (Option-cases (parse_date w.expires)) [
    | inl bad ↦ absurd (cc (rw (filled, bad, waiver_error) at h))
    | inr (d, date) ↦ elim (Bool-cases (ltb (vetted + max_waiver_days) d)) [
      | inl late ↦ absurd (cc (rw (filled, date, late, waiver_error) at h))
      | inr early ↦ elim (Bool-cases (any (same_waiver w) seen)) [
        | inl twice ↦ absurd (cc (rw (filled, date, early, twice, waiver_error) at h))
        | inr once ↦
            ((d, date, le_of_not_lt (vetted + max_waiver_days) d early), any_none w seen once)
      ]
    ]
  ]
]

-- Apart from a waiver that was seen before them all.
first-Apart :
    (vetted : ℕ) (w : Waiver) (seen ws : List Waiver)
    → All (λ x. ExpiresBy vetted x × All (λ u. Apart u x) (w ∷ seen)) ws
    → All (Apart w) ws × All (λ x. ExpiresBy vetted x × All (λ u. Apart u x) seen) ws
first-Apart vetted w seen [] h = (tt, tt)
first-Apart vetted w seen (x ∷ ws) h =
    let (apart, rest) = first-Apart vetted w seen ws (h.1) in
    ((h.0.1.0, apart), ((h.0.0, h.0.1.1), rest))

waivers-fine :
    (vetted : ℕ) (seen ws : List Waiver)
    → audit_error vetted seen ws ≡ none
    → All (λ x. ExpiresBy vetted x × All (λ u. Apart u x) seen) ws × NoTwins ws
unfolding audit_error
waivers-fine vetted seen [] h = (tt, tt)
waivers-fine vetted seen (w ∷ ws) h =
    let (now, later) =
      or_first-none (waiver_error vetted seen w) (audit_error vetted (w ∷ seen) ws) h in
    let (fine, distinct) = waivers-fine vetted (w ∷ seen) ws later in
    let (apart, rest) = first-Apart vetted w seen ws fine in
    ((waiver-fine vetted seen w now, rest), (apart, distinct))

dates-of :
    (vetted : ℕ) (ws : List Waiver)
    → All (λ x. ExpiresBy vetted x × All (λ u. Apart u x) []) ws
    → All (ExpiresBy vetted) ws
dates-of vetted [] h = tt
dates-of vetted (w ∷ ws) h = (h.0.0, dates-of vetted ws (h.1))

-- The vetting is dated, and every waiver expires soon enough after it and stands for itself.
abbrev WaiversHold : Recipe → Type 0
WaiversHold r =
    (vetted : ℕ) × (parse_date r.vetting.vetted_on ≡ some vetted)
    × All (ExpiresBy vetted) r.waivers
    × NoTwins r.waivers

waivers-hold : (r : Recipe) → vetting_error r ≡ none → WaiversHold r
unfolding vetting_error
waivers-hold r h = elim (Option-cases (parse_date r.vetting.vetted_on)) [
  | inl bad ↦ absurd (cc (rw (bad, vetting_error) at h))
  | inr (vetted, date) ↦
      let kept = first_error-none (vetting_rules r vetted) (rw (date, vetting_error) at h) in
      let (fine, distinct) = waivers-fine vetted [] r.waivers (kept.1.1.1.0) in
      (vetted, date, dates-of vetted r.waivers fine, distinct)
]

version_one : (z : ℤ) → (ltb_ℤ z (pos 1) || ltb_ℤ (pos 1) z) ≡ false → z ≡ pos 1
version_one (pos n) h = ground arith
version_one (negsuc n) h = absurd (cc h)

-- The guarantees of an accepted recipe.
pub record IsAccepted (r : Recipe) (m : Doc) (window : List Text) : Type 0 where
  pub first_schema : r.schema_version ≡ pos 1
  pub same_name : r.name ≡ m.name
  pub same_version : r.version ≡ m.version
  pub same_runtime : r.runtime ≡ m.runtime
  pub known_runtime : allows_runtime window r.runtime ≡ true
  pub known_arch : All (λ a. mem a m.arch ≡ true) r.arch
  pub pinned_source : is_pinned r.source ≡ true
  pub locked : needs_lockfile r.runtime ≡ true → r.build.lockfile ≢ []
  pub safe_steps : All IsSafeStep r.build.steps
  pub stage_below : All StaysBelow r.build.stage
  pub waivers_hold : WaiversHold r

-- A recipe that Validate accepts has schema version 1, the name, version and runtime of its
-- manifest, a runtime of the target's window, only archs of the manifest, a pinned source and, for
-- node and python, a lock file; none of its steps carries a shell operator and every step that
-- installs with pip requires hashes; every staged path stays strictly below the root it starts
-- from; and, with the day of its vetting, every waiver expires at most 90 days later and no two
-- waivers are for the same id and package.
pub validate-IsAccepted :
    (r : Recipe) (m : Doc) (window : List Text) → validate r m window ≡ none → IsAccepted r m window
unfolding validate
validate-IsAccepted r m window h =
    let kept = first_error-none (rules r m window) h in
    let (first, kept1) = kept in
    let (name, kept2) = kept1 in
    let (version, kept3) = kept2 in
    let (runtime, kept4) = kept3 in
    let (known, kept5) = kept4 in
    let (arch, kept6) = kept5 in
    let (source, kept7) = kept6 in
    let (toolchains, kept8) = kept7 in
    let (lock, kept9) = kept8 in
    let (steps, kept10) = kept9 in
    let (some_stage, kept11) = kept10 in
    let (stage, kept12) = kept11 in
    record {
      first_schema = version_one r.schema_version (not_refused _ _ first);
      same_name = same_text r.name m.name _ name;
      same_version = same_text r.version m.version _ version;
      same_runtime = same_text r.runtime m.runtime _ runtime;
      known_runtime =
          not-false (allows_runtime window r.runtime)
            (not_refused (not (allows_runtime window r.runtime)) _ known);
      known_arch = subset-All r.arch m.arch (
          not-false (subset r.arch m.arch) (
            (or_false (is_empty r.arch) (not (subset r.arch m.arch))
              (not_refused (is_empty r.arch || not (subset r.arch m.arch)) _ arch)).1));
      pinned_source =
          not-false (is_pinned r.source) (not_refused (not (is_pinned r.source)) _ source);
      locked = λ needs.
          lock_of (not_refused (needs_lockfile r.runtime && text_eq r.build.lockfile []) _ lock)
            needs;
      safe_steps = steps-safe r.build.steps steps;
      stage_below = stage-below r.build.stage stage;
      waivers_hold = waivers-hold r (kept12.0);
    }
  where
    lock_of :
        (needs_lockfile r.runtime && text_eq r.build.lockfile []) ≡ false
        → needs_lockfile r.runtime ≡ true
        → r.build.lockfile ≢ []
    lock_of h needs e = cc (rw (needs, e, text_eq_refl []) at h)
