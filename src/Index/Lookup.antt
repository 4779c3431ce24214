-- ===== src/Index/Lookup.antt =====
-- The digest that an index publishes for a name, a version and a target, read through the first
-- record of each key; and what merge.go's loops do to it, level by level.
use mcp_library.Common.{◌≡◌, refl, sym, ap, subst, Option, some, List, inl, inr}
use mcp_library.Common.Keyed.{IsUnion, Unique, view_at, or_first}
use mcp_library.Common.Keyed.Folds.{fold_all_union, fold_all_agrees, fold_all_succeeds}
use mcp_library.Common.Keyed.{fold_all, ok-injective}
use mcp_library.Common.Keyed.Keys.{fold_all-Unique, fold_all-All}
use mcp_library.Common.Lists.{All, All-Unit}
use mcp_library.Common.Result.{ok, returned_behind}
use mcp_library.Common.Tests.{Bool-cases}
use mcp_library.Common.Text.{Text, text_eq, text_eq→eq, text_eq_refl}
use mcp_library.Index.{
  Blob, Version, Package, target, version_of, name_of, same_digest, merge_version, merge_package,
}
use mcp_library.Index.Keys.{name_eq, target_eq}

abbrev pub blob_digest : Blob → Unit {0} → Option Text
blob_digest b u = some b.sha256

abbrev pub version_digest : Version → Text × Text → Option Text
version_digest v t = view_at target target_eq blob_digest v.blobs t tt

abbrev pub package_digest : Package → Text × (Text × Text) → Option Text
package_digest p (version, t) = view_at version_of name_eq version_digest p.versions version t

abbrev pub digest_at : List Package → Text → Text × (Text × Text) → Option Text
digest_at ps name q = view_at name_of name_eq package_digest ps name q

-- One blob per target, and one version per name.
abbrev pub OneBlobEach : Version → Type 0
OneBlobEach v = Unique target target_eq v.blobs

abbrev pub OneVersionEach : Package → Type 0
OneVersionEach p = Unique version_of name_eq p.versions × All OneBlobEach p.versions

same_digest_ok :
    (name version : Text) (x y m : Blob)
    → same_digest name version x y ≡ ok m
    → (x ≡ m) × (x.sha256 ≡ y.sha256)
same_digest_ok name version x y m h = elim (Bool-cases (text_eq x.sha256 y.sha256)) [
  | inl same ↦ (cc (rw same at h), text_eq→eq x.sha256 y.sha256 same)
  | inr other ↦ absurd (cc (rw other at h))
]

blob-IsUnion :
    (name version : Text)
    → IsUnion target target_eq (λ b. Unit {0}) (same_digest name version) blob_digest
blob-IsUnion name version = record {
  key_kept = λ x y m h. ap target (sym ((same_digest_ok name version x y m h).0));
  union = λ x y m good h q. ap (λ b. some b.sha256) (sym ((same_digest_ok name version x y m h).0));
  agree = λ x y m good h q s s' a b. cc (a, b, (same_digest_ok name version x y m h).1);
  succeeds = λ x y good a. (x, rw (a tt x.sha256 y.sha256 refl refl, text_eq_refl y.sha256) refl);
}

-- The two loops, opened: what a successful merge returns.
merge_version_ok :
    (name : Text) (x y m : Version)
    → merge_version name x y ≡ ok m
    → (blobs : List Blob) × (fold_all target target_eq (same_digest name x.version) x.blobs y.blobs
        ≡ ok blobs)
      × (record x { blobs = blobs } ≡ m)
unfolding merge_version
merge_version_ok name x y m h =
    let (blobs, folded, e) =
      returned_behind (fold_all target target_eq (same_digest name x.version) x.blobs y.blobs)
        (λ blobs. ok (record x { blobs = blobs })) h in
    (blobs, folded, ok-injective (record x { blobs = blobs }) m e)

version-IsUnion :
    (name : Text) → IsUnion version_of name_eq OneBlobEach (merge_version name) version_digest
unfolding merge_version
version-IsUnion name = record {
  key_kept = λ x y m h. ap version_of (sym ((merge_version_ok name x y m h).2));
  union = λ x y m good h t.
      let (blobs, folded, e) = merge_version_ok name x y m h in
      subst (λ m. version_digest m t ≡ or_first (version_digest x t) (version_digest y t)) e
        (fold_all_union target target_eq (λ b. Unit {0}) (same_digest name x.version) blob_digest
          (blob-IsUnion name x.version) x.blobs y.blobs blobs good (All-Unit y.blobs) folded t tt);
  agree = λ x y m good h t.
      let (blobs, folded, e) = merge_version_ok name x y m h in
      fold_all_agrees target target_eq (λ b. Unit {0}) (same_digest name x.version) blob_digest
        (blob-IsUnion name x.version) x.blobs y.blobs blobs good (All-Unit y.blobs) folded t tt;
  succeeds = λ x y good a.
      let (blobs, folded) =
        fold_all_succeeds target target_eq (λ b. Unit {0}) (same_digest name x.version) blob_digest
          (blob-IsUnion name x.version) x.blobs y.blobs good (All-Unit y.blobs) (λ t u. a t) in
      (record x { blobs = blobs }, rw folded refl);
}

merge_package_ok :
    (x y m : Package)
    → merge_package x y ≡ ok m
    → (versions : List Version) × (fold_all version_of name_eq
          (merge_version y.name)
          x.versions
          y.versions
        ≡ ok versions)
      × (record y { name = x.name; versions = versions } ≡ m)
unfolding merge_package
merge_package_ok x y m h =
    let (versions, folded, e) =
      returned_behind (fold_all version_of name_eq (merge_version y.name) x.versions y.versions)
        (λ versions. ok (record y { name = x.name; versions = versions })) h in
    (versions, folded, ok-injective (record y { name = x.name; versions = versions }) m e)

pub package-IsUnion : IsUnion name_of name_eq OneVersionEach merge_package package_digest
unfolding merge_package
package-IsUnion = record {
  key_kept = λ x y m h. ap name_of (sym ((merge_package_ok x y m h).2));
  union = λ x y m good h q.
      let (versions, folded, e) = merge_package_ok x y m h in
      subst (λ m. package_digest m q ≡ or_first (package_digest x q) (package_digest y q)) e
        (fold_all_union version_of name_eq OneBlobEach (merge_version y.name) version_digest
          (version-IsUnion y.name) x.versions y.versions versions (good.0) (good.1) folded (q.0)
          (q.1));
  agree = λ x y m good h q.
      let (versions, folded, e) = merge_package_ok x y m h in
      fold_all_agrees version_of name_eq OneBlobEach (merge_version y.name) version_digest
        (version-IsUnion y.name) x.versions y.versions versions (good.0) (good.1) folded (q.0)
        (q.1);
  succeeds = λ x y good a.
      let (versions, folded) =
        fold_all_succeeds version_of name_eq OneBlobEach (merge_version y.name) version_digest
          (version-IsUnion y.name) x.versions y.versions (good.0) (good.1) (λ v t. a (v, t)) in
      (record y { name = x.name; versions = versions }, rw folded refl);
}

-- Merging two versions or two packages keeps one record per key.
merge_version-OneBlobEach :
    (name : Text) (x y m : Version)
    → OneBlobEach x
    → OneBlobEach y
    → merge_version name x y ≡ ok m
    → OneBlobEach m
merge_version-OneBlobEach name x y m one two h =
    let (blobs, folded, e) = merge_version_ok name x y m h in
    subst OneBlobEach e (
      fold_all-Unique target target_eq (same_digest name x.version)
        (blob-IsUnion name x.version).key_kept x.blobs y.blobs blobs folded one)

pub merge_package-OneVersionEach :
    (x y m : Package)
    → OneVersionEach x
    → OneVersionEach y
    → merge_package x y ≡ ok m
    → OneVersionEach m
merge_package-OneVersionEach x y m one two h =
    let (versions, folded, e) = merge_package_ok x y m h in
    subst OneVersionEach e (
      fold_all-Unique version_of name_eq (merge_version y.name) (version-IsUnion y.name).key_kept
          x.versions y.versions versions folded (one.0),
      fold_all-All version_of name_eq (merge_version y.name) OneBlobEach
          (merge_version-OneBlobEach y.name) x.versions y.versions versions (one.1) (two.1) folded,
    )
