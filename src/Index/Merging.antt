-- ===== src/Index/Merging.antt =====
-- internal/index/merge.go: what Merge publishes, when it refuses, and what stays in order.
use mcp_library.Common.{
  ◌≡◌, refl, sym, ◌∙◌, subst, true, false, ◌⊎◌, ◌↔◌, List, [], ◌∷◌, ◌++◌, inl, inr,
}
use mcp_library.Common.Keyed.{Unique, Agree, or_first, fold_in, fold_all, has_key, ok-injective}
use mcp_library.Common.Keyed.Folds.{fold_all_union, fold_all_agrees, fold_all_succeeds}
use mcp_library.Common.Keyed.Keys.{fold_in-Unique, fold_all-Unique, fold_all-All}
use mcp_library.Common.Int.{ltb_ℤ}
use mcp_library.Common.Result.{ok, returned_behind, same_after}
use mcp_library.Common.Tests.{Bool-cases}
use mcp_library.Common.Text.{Text, text_eq, text_eq→eq}
use mcp_library.Index.{
  Package, Index, supported_schema, name_of, merge_package, update_last, merge_into, merge_packages,
  merge, canonicalise,
}
use mcp_library.Index.Canonical.{digest, WellFormed, canonicalise-WellFormed, digest-canonicalise}
use mcp_library.Index.Keys.{name_eq}
use mcp_library.Index.Lookup.{
  OneVersionEach, package-IsUnion, package_digest, merge_package-OneVersionEach,
}

fold_in-fresh :
    (np : Package) (ps : List Package)
    → has_key name_of name_eq np.name ps ≡ false
    → fold_in name_of name_eq merge_package np ps ≡ ok (ps ++ np ∷ [])
fold_in-fresh np [] h = refl
fold_in-fresh np (p ∷ ps) h = elim (Bool-cases (text_eq p.name np.name)) [
  | inl same ↦ absurd (cc (rw same at h))
  | inr other ↦ rw (other, fold_in-fresh np ps (rw other at h)) refl
]

fold_in-last :
    (np : Package) (ps : List Package)
    → Unique name_of name_eq ps
    → has_key name_of name_eq np.name ps ≡ true
    → fold_in name_of name_eq merge_package np ps ≡ update_last np ps
unfolding update_last
fold_in-last np [] u h = absurd (cc h)
fold_in-last np (p ∷ ps) u h = elim (Bool-cases (text_eq p.name np.name)) [
  | inl same ↦
      rw
        (
          same,
          subst (λ n. has_key name_of name_eq n ps ≡ false) (text_eq→eq p.name np.name same) (u.0),
        )
        refl
  | inr other ↦ rw (other, rw other at h, fold_in-last np ps (u.1) (rw other at h)) refl
]

-- Where a name names one package, `byName` finds the first one.
merge_into-fold_in :
    (np : Package) (ps : List Package)
    → Unique name_of name_eq ps
    → merge_into ps np ≡ fold_in name_of name_eq merge_package np ps
unfolding merge_into
merge_into-fold_in np ps u = elim (Bool-cases (has_key name_of name_eq np.name ps)) [
  | inl there ↦ rw there (sym (fold_in-last np ps u there))
  | inr fresh ↦ rw fresh (sym (fold_in-fresh np ps fresh))
]

merge_packages-fold_all :
    (ps nps : List Package)
    → Unique name_of name_eq ps
    → merge_packages ps nps ≡ fold_all name_of name_eq merge_package ps nps
unfolding merge_packages
merge_packages-fold_all ps [] u = refl
merge_packages-fold_all ps (np ∷ nps) u = rw (merge_into-fold_in np ps u) (
    same_after (fold_in name_of name_eq merge_package np ps) (λ r. merge_packages r nps)
      (λ r. fold_all name_of name_eq merge_package r nps)
      (λ r h.
        merge_packages-fold_all r nps
          (fold_in-Unique name_of name_eq merge_package package-IsUnion.key_kept np ps r h u)))

-- A successful merge, opened.
merged_index : Index → List Package → Index
merged_index next packages = record next { schema_version = supported_schema; packages = packages }

merge_ok :
    (prev next idx : Index)
    → WellFormed prev
    → merge prev next ≡ ok idx
    → (packages : List Package) × (fold_all name_of name_eq merge_package prev.packages
          next.packages
        ≡ ok packages)
      × (canonicalise (merged_index next packages) ≡ idx)
unfolding merge WellFormed merged_index
merge_ok prev next idx wf h = elim (Bool-cases (ltb_ℤ supported_schema prev.schema_version)) [
  | inl newer ↦ absurd (cc (rw newer at h))
  | inr accepted ↦
      let (packages, merged, e) =
        returned_behind (merge_packages prev.packages next.packages)
          (λ packages.
            ok (
              canonicalise
                (record next { schema_version = supported_schema; packages = packages })))
          (rw accepted at h) in
      (
        packages,
        sym (merge_packages-fold_all prev.packages next.packages (wf.0)) ∙ merged,
        ok-injective (canonicalise (merged_index next packages)) idx e,
      )
]

merged-WellFormed :
    (prev next : Index) (packages : List Package)
    → WellFormed prev
    → WellFormed next
    → fold_all name_of name_eq merge_package prev.packages next.packages ≡ ok packages
    → WellFormed (merged_index next packages)
unfolding WellFormed merged_index
merged-WellFormed prev next packages wf wf' folded = (
  fold_all-Unique name_of name_eq merge_package package-IsUnion.key_kept prev.packages next.packages
      packages folded (wf.0),
  fold_all-All name_of name_eq merge_package OneVersionEach merge_package-OneVersionEach
      prev.packages next.packages packages (wf.1) (wf'.1) folded,
)

-- Merging two indexes that each have one package per name, one version per name and one blob per
-- target gives, if it succeeds, an index that has so too.
pub merge-WellFormed :
    (prev next idx : Index)
    → WellFormed prev
    → WellFormed next
    → merge prev next ≡ ok idx
    → WellFormed idx
merge-WellFormed prev next idx wf wf' h =
    let (packages, folded, e) = merge_ok prev next idx wf h in
    subst WellFormed e (
      canonicalise-WellFormed (merged_index next packages)
        (merged-WellFormed prev next packages wf wf' folded))

-- Where the previous and the new index each have one package per name, one version per name and one
-- blob per target, and Merge returns an index, that index publishes for every name, version and
-- target the digest of the previous index if it has one, and otherwise that of the new index: no
-- published digest changes or disappears, and nothing else is added.
pub merge-digest :
    (prev next idx : Index) (name version : Text) (t : Text × Text)
    → WellFormed prev
    → WellFormed next
    → merge prev next ≡ ok idx
    → digest idx name version t ≡ or_first (digest prev name version t) (digest next name version t)
unfolding digest WellFormed merged_index
merge-digest prev next idx name version t wf wf' h =
    let (packages, folded, e) = merge_ok prev next idx wf h in
    subst
      (λ i.
        digest i name version t
        ≡ or_first (digest prev name version t) (digest next name version t))
      e
      (digest-canonicalise (merged_index next packages) name version t
          (merged-WellFormed prev next packages wf wf' folded)
        ∙ fold_all_union name_of name_eq OneVersionEach merge_package package_digest package-IsUnion
            prev.packages next.packages packages (wf'.0) (wf'.1) folded name (version, t))

-- No target of a version has one digest in one index and another in the other.
unfoldable pub NoConflict : Index → Index → Type 0
NoConflict prev next =
    (name version : Text) (t : Text × Text)
    → Agree (digest prev name version t) (digest next name version t)

-- Where the previous and the new index each have one package per name, one version per name and one
-- blob per target, Merge returns an index exactly when the previous one has no newer schema version
-- and no name, version and target has one digest in the previous index and another digest in the
-- new one.
pub merge_succeeds_iff :
    (prev next : Index)
    → WellFormed prev
    → WellFormed next
    → ((idx : Index) × (merge prev next ≡ ok idx))
      ↔ ((ltb_ℤ supported_schema prev.schema_version ≡ false) × NoConflict prev next)
unfolding NoConflict merge digest WellFormed merged_index
merge_succeeds_iff prev next wf wf' = (forward, backward)
  where
    forward :
        (idx : Index) × (merge prev next ≡ ok idx)
        → (ltb_ℤ supported_schema prev.schema_version ≡ false) × NoConflict prev next
    forward (idx, h) =
        let (packages, folded, e) = merge_ok prev next idx wf h in
        (
          accepted idx h (Bool-cases (ltb_ℤ supported_schema prev.schema_version)),
          λ name version t.
              fold_all_agrees name_of name_eq OneVersionEach merge_package package_digest
                package-IsUnion prev.packages next.packages packages (wf'.0) (wf'.1) folded name
                (version, t),
        )
      where
        accepted :
            (idx : Index)
            → merge prev next ≡ ok idx
            → (ltb_ℤ supported_schema prev.schema_version ≡ true)
              ⊎ (ltb_ℤ supported_schema prev.schema_version ≡ false)
            → ltb_ℤ supported_schema prev.schema_version ≡ false
        accepted idx h (inr a) = a
        accepted idx h (inl newer) = absurd (cc (rw newer at h))

    backward :
        (ltb_ℤ supported_schema prev.schema_version ≡ false) × NoConflict prev next
        → (idx : Index) × (merge prev next ≡ ok idx)
    backward (a, agree) =
        let (packages, folded) =
          fold_all_succeeds name_of name_eq OneVersionEach merge_package package_digest
            package-IsUnion prev.packages next.packages (wf'.0) (wf'.1)
            (λ name q. agree name (q.0) (q.1)) in
        (
          canonicalise (merged_index next packages),
          rw (a, merge_packages-fold_all prev.packages next.packages (wf.0), folded) refl,
        )
