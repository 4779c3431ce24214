-- ===== src/Osv.antt =====
-- internal/audit/osv.go: which fixed versions of an advisory apply to an installed dependency. The
-- HTTP client, JSON and the CVSS score (floating point) are not modelled.
pub mod Order
pub mod Points
pub mod Sorted
pub mod Fixes
pub mod Collected
pub mod Tests
use mcp_library.Common.{
  Bool, true, false, ◌&&◌, ◌||◌, not, List, [], ◌∷◌, ◌++◌, Option, none, some, Ordering,
  if◌then◌else◌,
}
use mathlib.Core.List.{reverse}
use mcp_library.Audit.{Dep}
use mcp_library.Common.Sort.{insert_by}
use mcp_library.Common.Tests.{is_some}
use mcp_library.Common.Text.{Text, codes, text_eq, mem}
use mcp_library.Version.{compare_version}

pub record OsvEvent : Type 0 where
  pub introduced : Text
  pub fixed : Text
  pub last_affected : Text
  pub limit : Text

pub record OsvRange : Type 0 where
  pub type : Text
  pub events : List OsvEvent

-- The package's name stands for it.
pub record OsvAffected : Type 0 where
  pub package_name : Text
  pub ranges : List OsvRange

pub data Kind : Type 0 where
  introduced fixed last_affected limit : Kind

pub record Point : Type 0 where
  pub kind : Kind
  pub version : Text

abbrev point : Kind → Text → Option Point
point kind version = some (record { kind = kind; version = version })

unfoldable pub point_of : OsvEvent → Option Point
point_of ev =
    if not (text_eq ev.introduced [])
    then point introduced ev.introduced
    else if not (text_eq ev.fixed [])
    then point fixed ev.fixed
    else if not (text_eq ev.last_affected [])
    then point last_affected ev.last_affected
    else if not (text_eq ev.limit [])
    then point limit ev.limit
    else none

unfoldable pub points_of : List OsvEvent → List Point
points_of [] = []
points_of (ev ∷ evs) =
    let rest = points_of evs in elim (point_of ev) [ none ↦ rest | some p ↦ p ∷ rest ]

-- `cmp`: "0" is below every other version.
unfoldable pub osv_compare : Text → Text → Text → Option Ordering
osv_compare ecosystem a b =
    if text_eq a (codes "0") && text_eq b (codes "0")
    then some Ordering.eq
    else if text_eq a (codes "0")
    then some Ordering.lt
    else if text_eq b (codes "0")
    then some Ordering.gt
    else compare_version ecosystem a b

-- The number that is returned beside a false `ok` is 0.
abbrev pub sign : Option Ordering → Ordering
sign none = Ordering.eq
sign (some o) = o

abbrev pub is_after : Ordering → Bool
is_after Ordering.gt = true
is_after _ = false

abbrev pub is_before : Ordering → Bool
is_before Ordering.lt = true
is_before _ = false

unfoldable pub all_ordered : Text → List Point → Bool
all_ordered ecosystem [] = true
all_ordered ecosystem (p ∷ ps) =
    is_some (osv_compare ecosystem p.version p.version) && all_ordered ecosystem ps

unfoldable pub is_ordered : Text → Text → List Point → Bool
unfolding all_ordered
is_ordered ecosystem installed points =
    not (not (is_some (osv_compare ecosystem installed installed)) || text_eq installed (codes "0"))
    && all_ordered ecosystem points

abbrev is_fixed : Kind → Bool
is_fixed fixed = true
is_fixed _ = false

unfoldable every_fix : List Point → List Text
every_fix [] = []
every_fix (p ∷ ps) = let rest = every_fix ps in if is_fixed p.kind then p.version ∷ rest else rest

abbrev pub comes_after : Text → Point → Point → Bool
comes_after ecosystem p q = is_after (sign (osv_compare ecosystem p.version q.version))

-- The insertion sort, with the sorted part in front of the loop last one first.
unfoldable pub sort_onto : Text → List Point → List Point → List Point
sort_onto ecosystem sorted [] = sorted
sort_onto ecosystem sorted (p ∷ ps) =
    sort_onto ecosystem (insert_by (comes_after ecosystem) p sorted) ps

unfoldable pub sort_points : Text → List Point → List Point
unfolding sort_onto
sort_points ecosystem points = reverse (sort_onto ecosystem [] points)

-- `atOrAbove >= 0` and `below < 0`.
abbrev pub at_or_above : Text → Text → Text → Bool
at_or_above ecosystem installed lower =
    not (is_before (sign (osv_compare ecosystem installed lower)))

abbrev pub below : Text → Text → Text → Bool
below ecosystem installed version = is_before (sign (osv_compare ecosystem installed version))

-- The last loop; an interval is open with its lower end.
unfoldable pub sweep : Text → Text → Option Text → List Point → List Text
sweep ecosystem installed lower [] = []
sweep ecosystem installed none (p ∷ ps) = elim (p.kind) [
  | introduced ↦ sweep ecosystem installed (some p.version) ps
  | _ ↦ sweep ecosystem installed none ps
]
sweep ecosystem installed (some lower) (p ∷ ps) = elim (p.kind) [
  | introduced ↦ sweep ecosystem installed (some lower) ps
  | fixed ↦
      let rest = sweep ecosystem installed none ps in
      if at_or_above ecosystem installed lower && below ecosystem installed p.version
      then p.version ∷ rest
      else rest
  | _ ↦ sweep ecosystem installed none ps
]

unfoldable pub range_fixes : Text → Text → List OsvEvent → List Text
unfolding every_fix is_ordered sort_points sweep points_of
range_fixes ecosystem installed events =
    let points = points_of events in
    if not (is_ordered ecosystem installed points)
    then every_fix points
    else sweep ecosystem installed none (sort_points ecosystem points)

-- `add`.
abbrev pub add : List Text → Text → List Text
add seen v = if not (mem v seen) then seen ++ v ∷ [] else seen

unfoldable pub add_all : List Text → List Text → List Text
add_all seen [] = seen
add_all seen (v ∷ vs) = add_all (add seen v) vs

unfoldable pub add_ranges : Dep → List Text → List OsvRange → List Text
unfolding add_all
add_ranges dep seen [] = seen
add_ranges dep seen (rng ∷ rngs) =
    let added = add_all seen (range_fixes dep.ecosystem dep.version rng.events) in
    let skipped = add_ranges dep seen rngs in
    let later = add_ranges dep added rngs in
    if text_eq rng.type (codes "GIT") then skipped else later

abbrev pub other_package : Dep → OsvAffected → Bool
other_package dep aff = not (text_eq aff.package_name []) && not (text_eq aff.package_name dep.name)

unfoldable pub add_affected : Dep → List Text → List OsvAffected → List Text
unfolding add_ranges
add_affected dep seen [] = seen
add_affected dep seen (aff ∷ affs) =
    let skipped = add_affected dep seen affs in
    let later = add_affected dep (add_ranges dep seen aff.ranges) affs in
    if other_package dep aff then skipped else later

-- `fixedVersions`, of the record's affected packages.
unfoldable pub fixed_versions : List OsvAffected → Dep → List Text
unfolding add_affected
fixed_versions affected dep = add_affected dep [] affected
