-- ===== src/Index.antt =====
-- internal/index/index.go (the document, Empty, the schema check of Parse, Canonicalise, Retire) and
-- internal/index/merge.go. A merged index is a value of its own: what the Go code shares with the
-- slices of its arguments is copied. JSON and the clock are not modelled.
pub mod Keys
pub mod Canonical
pub mod Lookup
pub mod Merging
pub mod Listed
pub mod Retiring
pub mod Tests
use mcp_library.Common.{
  ℕ, ◌≡◌, refl, Bool, true, false, ◌&&◌, not, List, [], ◌∷◌, ◌++◌, map, Option, none, some,
  if◌then◌else◌,
}
use mcp_library.Common.Int.{ℤ, pos, ltb_ℤ}
use mcp_library.Common.Keyed.{KeyEq, fold_all, has_key, find_key}
use mcp_library.Common.Result.{Result, ok, err, ◌>>=◌}
use mcp_library.Common.Sort.{sort_by}
use mcp_library.Common.Text.{Text, codes, text_eq, text_eq_iff, text_lt, cut}
use mcp_library.Index.Keys.{name_eq, target_eq}

pub record Blob : Type 0 where
  pub os : Text
  pub arch : Text
  pub sha256 : Text
  pub size : ℤ

-- The manifest is its bytes.
pub record Version : Type 0 where
  pub version : Text
  pub published_at : Text
  pub blobs : List Blob
  pub manifest : List ℕ

pub record Package : Type 0 where
  pub name : Text
  pub title : Text
  pub description : Text
  pub homepage : Text
  pub license : Text
  pub categories : List Text
  pub versions : List Version

pub record Index : Type 0 where
  pub schema_version : ℤ
  pub generated_at : Text
  pub library : Text
  pub signing_keys : List Text
  pub packages : List Package

abbrev pub target : Blob → Text × Text
target b = (b.os, b.arch)

abbrev pub supported_schema : ℤ
supported_schema = pos 1

abbrev empty_index : Text → Index
empty_index library = record {
  schema_version = supported_schema;
  generated_at = codes "1970-01-01T00:00:00Z";
  library = library;
  signing_keys = [];
  packages = [];
}

-- The errors of Parse after decoding, of Merge and of Retire. `conflict` has the name, the version,
-- the blob that is published and the new one.
pub data IndexError : Type 0 where
  newer_schema other_schema : ℤ → IndexError
  conflict : Text → Text → Blob → Blob → IndexError
  not_name_at_version not_in_index : Text → IndexError

-- What Parse does with a decoded index.
unfoldable accept_schema : Index → Result IndexError Index
accept_schema idx =
    if ltb_ℤ supported_schema idx.schema_version
    then err (newer_schema idx.schema_version)
    else if ltb_ℤ idx.schema_version supported_schema
    then err (other_schema idx.schema_version)
    else ok idx

-- Canonicalise.
abbrev pub blob_less : Blob → Blob → Bool
blob_less a b = if not (text_eq a.os b.os) then text_lt a.os b.os else text_lt a.arch b.arch

abbrev pub version_less : Version → Version → Bool
version_less a b =
    if not (text_eq a.published_at b.published_at)
    then text_lt b.published_at a.published_at
    else text_lt b.version a.version

abbrev pub package_less : Package → Package → Bool
package_less a b = text_lt a.name b.name

abbrev pub canonical_version : Version → Version
canonical_version v = record v { blobs = sort_by blob_less v.blobs }

abbrev pub canonical_package : Package → Package
canonical_package p = record p {
  versions = map canonical_version (sort_by version_less p.versions);
}

unfoldable pub canonicalise : Index → Index
canonicalise idx = record idx {
  packages = map canonical_package (sort_by package_less idx.packages);
}

-- Merge.
abbrev pub same_digest : Text → Text → Blob → Blob → Result IndexError Blob
same_digest name version pb nb =
    if not (text_eq pb.sha256 nb.sha256) then err (conflict name version pb nb) else ok pb

unfoldable pub merge_version : Text → Version → Version → Result IndexError Version
merge_version name prev next =
    fold_all target target_eq (same_digest name prev.version) prev.blobs next.blobs >>= λ blobs.
    ok (record prev { blobs = blobs })

abbrev pub version_of : Version → Text
version_of v = v.version

abbrev pub name_of : Package → Text
name_of p = p.name

-- The package that the previous index lists, with the versions of the new one; the human-facing
-- fields follow the new one.
unfoldable pub merge_package : Package → Package → Result IndexError Package
merge_package pp np =
    fold_all version_of name_eq (merge_version np.name) pp.versions np.versions >>= λ versions.
    ok record {
      name = pp.name;
      title = np.title;
      description = np.description;
      homepage = np.homepage;
      license = np.license;
      categories = np.categories;
      versions = versions;
    }

-- `byName` keeps the last of the packages of one name.
unfoldable pub update_last : Package → List Package → Result IndexError (List Package)
update_last np [] = ok []
update_last np (p ∷ ps) =
    let later = update_last np ps >>= λ r. ok (p ∷ r) in
    let here = merge_package p np >>= λ m. ok (m ∷ ps) in
    if has_key name_of name_eq np.name ps then later else here

unfoldable pub merge_into : List Package → Package → Result IndexError (List Package)
unfolding update_last
merge_into ps np =
    if has_key name_of name_eq np.name ps then update_last np ps else ok (ps ++ np ∷ [])

unfoldable pub merge_packages : List Package → List Package → Result IndexError (List Package)
unfolding merge_into
merge_packages ps [] = ok ps
merge_packages ps (np ∷ nps) = merge_into ps np >>= λ r. merge_packages r nps

unfoldable pub merge : Index → Index → Result IndexError Index
unfolding merge_packages canonicalise
merge prev next =
    if ltb_ℤ supported_schema prev.schema_version
    then err (newer_schema prev.schema_version)
    else (merge_packages prev.packages next.packages >>= λ packages. ok (
        canonicalise record {
          schema_version = supported_schema;
          generated_at = next.generated_at;
          library = next.library;
          signing_keys = next.signing_keys;
          packages = packages;
        }))

-- Retire.
unfoldable pub delete_version : Text → List Version → Option (List Version)
delete_version version [] = none
delete_version version (v ∷ vs) =
    let rest = delete_version version vs in
    if text_eq v.version version then some vs else elim rest [ none ↦ none | some r ↦ some (v ∷ r) ]

abbrev pub keep_package : Package → List Version → List Package → List Package
keep_package p [] ps = ps
keep_package p (v ∷ vs) ps = record p { versions = v ∷ vs } ∷ ps

unfoldable pub retire_from : Text → Text → List Package → Option (List Package)
unfolding delete_version
retire_from name version [] = none
retire_from name version (p ∷ ps) =
    let rest = retire_from name version ps in
    let here = delete_version version p.versions in
    if not (text_eq p.name name)
    then elim rest [ none ↦ none | some r ↦ some (p ∷ r) ]
    else elim here [ none ↦ none | some vs ↦ some (keep_package p vs ps) ]

unfoldable pub retire : Index → Text → Result IndexError Index
unfolding retire_from
retire idx name_at_version =
    let parts = cut b'@' name_at_version in
    elim parts [
      | none ↦ err (not_name_at_version name_at_version)
      | some (name, version) ↦
          let left = retire_from name version idx.packages in
          elim left [
            | none ↦ err (not_in_index name_at_version)
            | some packages ↦ ok (record idx { packages = packages })
          ]
    ]
