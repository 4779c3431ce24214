-- ===== src/Osv/Fixes.antt =====
-- internal/audit/osv.go: the intervals of a range, and the fixes that the last loop takes from them.
use mcp_library.Common.{
  All, All-map, ◌≡◌, refl, subst, ◌⊎◌, inl, inr, true, ◌&&◌, List, [], ◌∷◌, Option, none, some, Any,
}
use mcp_library.Common.Tests.{Bool-cases, &&_left, &&_right}
use mcp_library.Common.Text.{Text}
use mcp_library.Osv.{
  OsvEvent, Kind, introduced, fixed, last_affected, limit, Point, points_of, is_ordered,
  comes_after, sort_points, at_or_above, below, sweep, range_fixes, all_ordered,
}
use mcp_library.Osv.Order.{NotAfter, NotAfter-asym}
use mcp_library.Osv.Sorted.{Ascends, sort_points-Ascends, All-sort_points}
use mcp_library.Osv.Points.{Makes, made_of, All-points_of, Any-sort_points}

module _ (ecosystem installed : Text) where
  -- A point that fixes the installed version in `f`.
  abbrev pub Fixes : Text → Point → Type 0
  Fixes f p = (p.kind ≡ fixed) × (p.version ≡ f) × (below ecosystem installed f ≡ true)

  -- A point that opens a range at or below the installed version.
  abbrev pub Opens : Point → Type 0
  Opens p = (p.kind ≡ introduced) × (at_or_above ecosystem installed p.version ≡ true)

  -- It closes no interval, or stands at or below the one point, or at or above the other.
  abbrev pub Outside : Point → Point → Point → Type 0
  Outside lower fix q =
      (q.kind ≡ introduced)
      ⊎ (NotAfter ecosystem q.version lower.version ⊎ NotAfter ecosystem fix.version q.version)

  -- An interval in which the installed version lies, and which ends in a fix.
  record Interval (f : Text) (ps : List Point) : Type 0 where
    pub lower : Point
    pub fix : Point
    pub opens : Opens lower
    pub fixes : Fixes f fix
    pub lower_there : Any (λ p. p ≡ lower) ps
    pub fix_there : Any (λ p. p ≡ fix) ps
    pub outside : All (Outside lower fix) ps

  -- The same, of an interval that is open already.
  record Closing (f : Text) (lower : Point) (ps : List Point) : Type 0 where
    pub fix : Point
    pub opens : at_or_above ecosystem installed lower.version ≡ true
    pub fixes : Fixes f fix
    pub fix_there : Any (λ p. p ≡ fix) ps
    pub outside : All (Outside lower fix) ps

  All-at : (P : Point → Type 0) (x : Point) (ps : List Point) → Any (λ p. p ≡ x) ps → All P ps → P x
  All-at P x [] h a = absurd h
  All-at P x (p ∷ ps) (inl e) a = subst P e (a.0)
  All-at P x (p ∷ ps) (inr h) a = All-at P x ps h (a.1)

  -- A point in front of an interval lies below it.
  in_front :
      {f : Text} (p : Point) (ps : List Point)
      → Ascends ecosystem (p ∷ ps)
      → Interval f ps
      → Interval f (p ∷ ps)
  in_front p ps sorted i = record {
    lower = i.lower;
    fix = i.fix;
    opens = i.opens;
    fixes = i.fixes;
    lower_there = inr i.lower_there;
    fix_there = inr i.fix_there;
    outside = (
      inr (
          inl (
            All-at (λ q. NotAfter ecosystem p.version q.version) i.lower ps i.lower_there
              (sorted.0))),
      i.outside,
    );
  }

  abbrev SweptTo : Text → Option Point → List Point → Type 0
  SweptTo f none ps = Interval f ps
  SweptTo f (some lower) ps = Closing f lower ps ⊎ Interval f ps

  abbrev version_in : Option Point → Option Text
  version_in none = none
  version_in (some p) = some p.version

  NotAfter-refl : (v : Text) → NotAfter ecosystem v v
  NotAfter-refl v =
      elim (Bool-cases (
        comes_after ecosystem (record { kind = fixed; version = v })
          (record { kind = fixed; version = v }))) [
            | inr level ↦ level
            | inl after ↦
                NotAfter-asym ecosystem (record { kind = fixed; version = v })
                  (record { kind = fixed; version = v }) after
          ]

  sweep_sound :
      (f : Text) (lower : Option Point) (ps : List Point)
      → Ascends ecosystem ps
      → Any (λ x. x ≡ f) (sweep ecosystem installed (version_in lower) ps)
      → SweptTo f lower ps
  unfolding sweep
  sweep_sound f none [] sorted h = absurd h
  sweep_sound f (some lower) [] sorted h = absurd h
  sweep_sound f none (p ∷ ps) sorted h =
      by_kind (p.kind) refl (sweep_sound f none ps (sorted.1))
        (sweep_sound f (some p) ps (sorted.1))
    where
      opened : p.kind ≡ introduced → Closing f p ps ⊎ Interval f ps → Interval f (p ∷ ps)
      opened e (inr i) = in_front p ps sorted i
      opened e (inl c) = record {
        lower = p;
        fix = c.fix;
        opens = (e, c.opens);
        fixes = c.fixes;
        lower_there = inl refl;
        fix_there = inr c.fix_there;
        outside = (inl e, c.outside);
      }

      by_kind :
          (k : Kind)
          → p.kind ≡ k
          → (Any (λ x. x ≡ f) (sweep ecosystem installed none ps) → Interval f ps)
          → (Any (λ x. x ≡ f) (sweep ecosystem installed (some p.version) ps)
              → Closing f p ps ⊎ Interval f ps)
          → Interval f (p ∷ ps)
      by_kind introduced e closed opening = opened e (opening (rw (e, sweep) at h))
      by_kind fixed e closed opening = in_front p ps sorted (closed (rw (e, sweep) at h))
      by_kind last_affected e closed opening = in_front p ps sorted (closed (rw (e, sweep) at h))
      by_kind limit e closed opening = in_front p ps sorted (closed (rw (e, sweep) at h))
  sweep_sound f (some lower) (p ∷ ps) sorted h =
      by_kind (p.kind) refl (sweep_sound f none ps (sorted.1))
        (sweep_sound f (some lower) ps (sorted.1))
    where
      still :
          p.kind ≡ introduced → Closing f lower ps ⊎ Interval f ps → SweptTo f (some lower) (p ∷ ps)
      still e (inr i) = inr (in_front p ps sorted i)
      still e (inl c) = inl (record {
        fix = c.fix;
        opens = c.opens;
        fixes = c.fixes;
        fix_there = inr c.fix_there;
        outside = (inl e, c.outside);
      })

      here :
          p.kind ≡ fixed
          → (at_or_above ecosystem installed lower.version && below ecosystem installed p.version)
            ≡ true
          → (Any (λ x. x ≡ f) (sweep ecosystem installed none ps) → Interval f ps)
          → (p.version ≡ f) ⊎ Any (λ x. x ≡ f) (sweep ecosystem installed none ps)
          → SweptTo f (some lower) (p ∷ ps)
      here e inside closed (inr later) = inr (in_front p ps sorted (closed later))
      here e inside closed (inl this) = inl (record {
        fix = p;
        opens = &&_left _ _ inside;
        fixes =
            (e, this, subst (λ v. below ecosystem installed v ≡ true) this (&&_right _ _ inside));
        fix_there = inl refl;
        outside = (inr (inr (NotAfter-refl p.version)), All-map (λ q k. inr (inr k)) ps (sorted.0));
      })

      by_kind :
          (k : Kind)
          → p.kind ≡ k
          → (Any (λ x. x ≡ f) (sweep ecosystem installed none ps) → Interval f ps)
          → (Any (λ x. x ≡ f) (sweep ecosystem installed (some lower.version) ps)
              → Closing f lower ps ⊎ Interval f ps)
          → SweptTo f (some lower) (p ∷ ps)
      by_kind introduced e closed opening = still e (opening (rw (e, sweep) at h))
      by_kind fixed e closed opening =
          elim (Bool-cases (
            at_or_above ecosystem installed lower.version && below ecosystem installed p.version)) [
              | inr outside ↦ inr (in_front p ps sorted (closed (rw (e, outside, sweep) at h)))
              | inl inside ↦ here e inside closed (rw (e, inside, sweep) at h)
            ]
      by_kind last_affected e closed opening =
          inr (in_front p ps sorted (closed (rw (e, sweep) at h)))
      by_kind limit e closed opening = inr (in_front p ps sorted (closed (rw (e, sweep) at h)))

-- In a range whose versions can be ordered, every version that rangeFixes returns is that of a
-- fixed event above the installed version, which ends the interval that some introduced event at or
-- below the installed version opens: every event of the range that closes an interval is at or
-- below that introduced event or at or above that fixed event.
pub range_fixes_sound :
    (ecosystem installed f : Text) (events : List OsvEvent)
    → is_ordered ecosystem installed (points_of events) ≡ true
    → Any (λ x. x ≡ f) (range_fixes ecosystem installed events)
    → (lower : Point) × (fix : Point) × Opens ecosystem installed lower
      × Fixes ecosystem installed f fix
      × Any (Makes lower) events
      × Any (Makes fix) events
      × All (λ ev. (q : Point) → Makes q ev → Outside ecosystem installed lower fix q) events
unfolding range_fixes is_ordered
range_fixes_sound ecosystem installed f events ordered h =
    let points = points_of events in
    let sorted = sort_points ecosystem points in
    let i : Interval ecosystem installed f sorted =
      sweep_sound ecosystem installed f none sorted
        (sort_points-Ascends ecosystem points (&&_right _ (all_ordered ecosystem points) ordered))
        (rw ordered at h) in
    (
      i.lower,
      i.fix,
      i.opens,
      i.fixes,
      made_of i.lower events (Any-sort_points _ ecosystem points i.lower_there),
      made_of i.fix events (Any-sort_points _ ecosystem points i.fix_there),
      All-points_of _ events (All-sort_points ecosystem _ points i.outside),
    )
