-- ===== src/Index/Listed.antt =====
-- internal/index/index.go: which versions Retire finds.
use mcp_library.Common.{
  ◌≡◌, refl, ◌∙◌, Bool, true, false, ◌↔◌, Option, some, none, List, [], ◌∷◌, inl, inr,
}
use mcp_library.Common.Keyed.{has_key, find_key}
use mcp_library.Common.Result.{ok}
use mcp_library.Common.Tests.{Bool-cases, Option-cases, is_some}
use mcp_library.Common.Text.{Text, text_eq, cut}
use mcp_library.Index.{
  Version, Package, Index, version_of, name_of, delete_version, keep_package, retire_from, retire,
}
use mcp_library.Index.Keys.{name_eq}

-- The packages that name a version of it.
abbrev pub lists : List Package → Text → Text → Bool
lists ps name version = elim (find_key name_of name_eq name ps) [
  | none ↦ false
  | some p ↦ has_key version_of name_eq version p.versions
]

deletes_iff_listed :
    (version : Text) (vs : List Version)
    → has_key version_of name_eq version vs ≡ is_some (delete_version version vs)
unfolding delete_version
deletes_iff_listed version [] = refl
deletes_iff_listed version (v ∷ vs) = elim (Bool-cases (text_eq v.version version)) [
  | inl same ↦ rw same refl
  | inr other ↦ rw (other, deletes_iff_listed version vs) (of_rest (delete_version version vs))
]
  where
    of_rest :
        (o : Option (List Version))
        → is_some o ≡ is_some (elim o [ none ↦ none | some r ↦ some (v ∷ r) ])
    of_rest none = refl
    of_rest (some r) = refl

retires_iff_listed :
    (name version : Text) (ps : List Package)
    → lists ps name version ≡ is_some (retire_from name version ps)
unfolding retire_from
retires_iff_listed name version [] = refl
retires_iff_listed name version (p ∷ ps) = elim (Bool-cases (text_eq p.name name)) [
  | inl same ↦
      rw (same, deletes_iff_listed version p.versions, lists)
        (of_here (delete_version version p.versions))
  | inr other ↦
      rw (other, retires_iff_listed name version ps, lists) (of_rest (retire_from name version ps))
]
  where
    of_here :
        (o : Option (List Version))
        → is_some o ≡ is_some (elim o [ none ↦ none | some vs ↦ some (keep_package p vs ps) ])
    of_here none = refl
    of_here (some r) = refl

    of_rest :
        (o : Option (List Package))
        → is_some o ≡ is_some (elim o [ none ↦ none | some r ↦ some (p ∷ r) ])
    of_rest none = refl
    of_rest (some r) = refl

-- Where the argument is cut at its first @ into a name and a version, Retire succeeds exactly when
-- the first package of that name lists that version.
retire-lists :
    (idx : Index) (name_at_version name version : Text)
    → cut b'@' name_at_version ≡ some (name, version)
    → (lists idx.packages name version ≡ true) ↔ ((r : Index) × (retire idx name_at_version ≡ ok r))
unfolding retire
retire-lists idx s name version h = elim (Option-cases (retire_from name version idx.packages)) [
  | inl missing ↦ (
    λ listed. absurd (cc (listed, rw missing at (retires_iff_listed name version idx.packages))),
    λ (r, done). absurd (cc (rw (h, missing, retire) at done)),
  )
  | inr (ps, retired) ↦ (
    λ listed. (record idx { packages = ps }, rw (h, retired, retire) refl),
    λ done. retires_iff_listed name version idx.packages ∙ rw retired refl,
  )
]
