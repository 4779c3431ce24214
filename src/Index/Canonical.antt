-- ===== src/Index/Canonical.antt =====
-- Canonicalise: the order of what Marshal publishes, and that no lookup changes.
use mcp_library.Common.{
  ◌≡◌, refl, sym, subst, inl, inr, ◌∙◌, ap, Bool, true, false, not, Option, List, [], ◌∷◌, map,
  if◌then◌else◌,
}
use mcp_library.Common.Keyed.{KeyEq, Unique, view_at, view_cons, has_key, and_then}
use mcp_library.Common.Lists.{All, All-Unit}
use mcp_library.Common.Sort.{
  sort_by, sort_by-Unique, sort_by-All, find_key-sort, sort_by-IsSorted, IsSortedBy,
}
use mcp_library.Common.Tests.{Bool-cases}
use mcp_library.Common.Text.{
  Text, text_eq, text_lt, text_eq_sym, text_eq_refl, text_eq→eq, text_lt_asym,
}
use mcp_library.Index.{
  Blob, Version, Package, Index, target, version_of, name_of, canonicalise, canonical_version,
  canonical_package, blob_less, version_less, package_less,
}
use mcp_library.Index.Keys.{name_eq, target_eq}
use mcp_library.Index.Lookup.{
  digest_at, OneBlobEach, OneVersionEach, package_digest, version_digest, blob_digest,
}

-- The digest that the index publishes for a name, a version and a target.
unfoldable pub digest : Index → Text → Text → Text × Text → Option Text
digest idx name version t = digest_at idx.packages name (version, t)

-- A name names one package, a version of it one version, a target of that one blob.
unfoldable pub WellFormed : Index → Type 0
WellFormed idx = Unique name_of name_eq idx.packages × All OneVersionEach idx.packages

-- Records changed one by one, each keeping its key.
module _ {A K S Q : Type 0} (key : A → K) (e : KeyEq K) (f : A → A) (P : A → Type 0)
    (view : A → Q → Option S) (same_key : (x : A) → key (f x) ≡ key x) where
  has_key-map : (xs : List A) (k : K) → has_key key e k (map f xs) ≡ has_key key e k xs
  has_key-map [] k = refl
  has_key-map (x ∷ xs) k = rw (same_key x, has_key-map xs k) refl

  map-Unique : (xs : List A) → Unique key e xs → Unique key e (map f xs)
  map-Unique [] u = tt
  map-Unique (x ∷ xs) u = (rw (same_key x) (has_key-map xs (key x) ∙ u.0), map-Unique xs (u.1))

  view-map :
      ((x : A) → P x → (q : Q) → view (f x) q ≡ view x q)
      → (xs : List A) → All P xs
      → (k : K) (q : Q) → view_at key e view (map f xs) k q ≡ view_at key e view xs k q
  view-map same [] ps k q = refl
  view-map same (x ∷ xs) ps k q =
      rw
        (
          view_cons key e view (f x) (map f xs) k q,
          view_cons key e view x xs k q,
          same_key x,
          same x (ps.0) q,
          view-map same xs (ps.1) k q,
        )
        refl

view-sort :
    {A K S Q : Type 0} (less : A → A → Bool) (key : A → K) (e : KeyEq K) (view : A → Q → Option S)
    (xs : List A) (k : K) (q : Q)
    → Unique key e xs
    → view_at key e view (sort_by less xs) k q ≡ view_at key e view xs k q
view-sort less key e view xs k q u =
    ap (λ o. and_then o (λ x. view x q)) (find_key-sort less key e xs k u)

version_digest-canonical :
    (v : Version)
    → OneBlobEach v
    → (t : Text × Text) → version_digest (canonical_version v) t ≡ version_digest v t
version_digest-canonical v one t = view-sort blob_less target target_eq blob_digest v.blobs t tt one

package_digest-canonical :
    (p : Package)
    → OneVersionEach p
    → (q : Text × (Text × Text)) → package_digest (canonical_package p) q ≡ package_digest p q
package_digest-canonical p one q =
    view-map version_of name_eq canonical_version OneBlobEach version_digest (λ v. refl)
      version_digest-canonical (sort_by version_less p.versions)
      (sort_by-All version_less OneBlobEach p.versions (one.1)) (q.0) (q.1)
    ∙ view-sort version_less version_of name_eq version_digest p.versions (q.0) (q.1) (one.0)

-- On an index with one package per name, one version per name and one blob per target, Canonicalise
-- changes the digest published for no name, version and target.
pub digest-canonicalise :
    (idx : Index) (name version : Text) (t : Text × Text)
    → WellFormed idx
    → digest (canonicalise idx) name version t ≡ digest idx name version t
unfolding digest WellFormed canonicalise
digest-canonicalise idx name version t wf =
    view-map name_of name_eq canonical_package OneVersionEach package_digest (λ v. refl)
      package_digest-canonical (sort_by package_less idx.packages)
      (sort_by-All package_less OneVersionEach idx.packages (wf.1)) name (version, t)
    ∙ view-sort package_less name_of name_eq package_digest idx.packages name (version, t) (wf.0)

All-mapped :
    {A : Type 0} (f : A → A) (P Q : A → Type 0)
    → ((x : A) → P x → Q (f x))
    → (xs : List A) → All P xs
    → All Q (map f xs)
All-mapped f P Q step [] ps = tt
All-mapped f P Q step (x ∷ xs) ps = (step x (ps.0), All-mapped f P Q step xs (ps.1))

IsSortedBy-map :
    {A : Type 0} (less : A → A → Bool) (f : A → A)
    → ((x y : A) → less (f x) (f y) ≡ less x y)
    → (xs : List A) → IsSortedBy less xs
    → IsSortedBy less (map f xs)
IsSortedBy-map less f same [] s = tt
IsSortedBy-map less f same (x ∷ []) s = tt
IsSortedBy-map less f same (x ∷ y ∷ ys) s =
    (same y x ∙ s.0, IsSortedBy-map less f same (y ∷ ys) (s.1))

canonical_version-OneBlobEach : (v : Version) → OneBlobEach v → OneBlobEach (canonical_version v)
canonical_version-OneBlobEach v one = sort_by-Unique blob_less target target_eq v.blobs one

canonical_package-OneVersionEach :
    (p : Package) → OneVersionEach p → OneVersionEach (canonical_package p)
canonical_package-OneVersionEach p one = (
  map-Unique version_of name_eq canonical_version OneBlobEach version_digest (λ v. refl)
      (sort_by version_less p.versions)
      (sort_by-Unique version_less version_of name_eq p.versions (one.0)),
  All-mapped canonical_version OneBlobEach OneBlobEach canonical_version-OneBlobEach
      (sort_by version_less p.versions) (sort_by-All version_less OneBlobEach p.versions (one.1)),
)

pub canonicalise-WellFormed : (idx : Index) → WellFormed idx → WellFormed (canonicalise idx)
unfolding WellFormed canonicalise
canonicalise-WellFormed idx wf = (
  map-Unique name_of name_eq canonical_package OneVersionEach package_digest (λ v. refl)
      (sort_by package_less idx.packages)
      (sort_by-Unique package_less name_of name_eq idx.packages (wf.0)),
  All-mapped canonical_package OneVersionEach OneVersionEach canonical_package-OneVersionEach
      (sort_by package_less idx.packages)
      (sort_by-All package_less OneVersionEach idx.packages (wf.1)),
)

-- Each record and the next one are in order.
abbrev pub Chain : {A : Type 0} → (A → A → Type 0) → List A → Type 0
Chain R [] = Unit
Chain R (x ∷ []) = Unit
Chain R (x ∷ y ∷ ys) = R x y × Chain R (y ∷ ys)

-- The order that Marshal publishes: by name; by the time of publication, the later first, and then
-- by version, the greater first; by os and then arch.
abbrev pub ByName : Package → Package → Type 0
ByName p q = text_lt q.name p.name ≡ false

abbrev pub NewestFirst : Version → Version → Type 0
NewestFirst v w =
    (text_lt v.published_at w.published_at ≡ false)
    × (v.published_at ≡ w.published_at → text_lt v.version w.version ≡ false)

abbrev pub ByTarget : Blob → Blob → Type 0
ByTarget a b = (text_lt b.os a.os ≡ false) × (a.os ≡ b.os → text_lt b.arch a.arch ≡ false)

abbrev pub CanonicalVersion : Version → Type 0
CanonicalVersion v = Chain ByTarget v.blobs

abbrev pub CanonicalPackage : Package → Type 0
CanonicalPackage p = Chain NewestFirst p.versions × All CanonicalVersion p.versions

unfoldable pub IsCanonical : Index → Type 0
IsCanonical idx = Chain ByName idx.packages × All CanonicalPackage idx.packages

IsSortedBy-Chain :
    {A : Type 0} (less : A → A → Bool) (R : A → A → Type 0)
    → ((x y : A) → less y x ≡ false → R x y)
    → (xs : List A) → IsSortedBy less xs
    → Chain R xs
IsSortedBy-Chain less R step [] s = tt
IsSortedBy-Chain less R step (x ∷ []) s = tt
IsSortedBy-Chain less R step (x ∷ y ∷ ys) s =
    (step x y (s.0), IsSortedBy-Chain less R step (y ∷ ys) (s.1))

text_lt_irrefl : (s : Text) → text_lt s s ≡ false
text_lt_irrefl s = elim (Bool-cases (text_lt s s)) [
  | inl below ↦ text_lt_asym s s below
  | inr e ↦ e
]

-- Where a first text decides, and a second one on a tie.
two_keys :
    (a a' b b' : Text)
    → (if not (text_eq a' a) then text_lt a' a else text_lt b' b) ≡ false
    → (text_lt a' a ≡ false) × (a ≡ a' → text_lt b' b ≡ false)
two_keys a a' b b' h = elim (Bool-cases (text_eq a' a)) [
  | inl same ↦ (
    subst (λ s. text_lt s a ≡ false) (sym (text_eq→eq a' a same)) (text_lt_irrefl a),
    λ e. rw same at h,
  )
  | inr apart ↦
      (rw apart at h, λ e. absurd (cc (apart, subst (λ s. text_eq s a ≡ true) e (text_eq_refl a))))
]

on_cases :
    (same : Bool) {first second first' second' : Bool}
    → (first ≡ true → first' ≡ false)
    → (second ≡ true → second' ≡ false)
    → (if not same then first else second) ≡ true
    → (if not same then first' else second') ≡ false
on_cases true one two h = two h
on_cases false one two h = one h

blob_less_asym : (a b : Blob) → blob_less a b ≡ true → blob_less b a ≡ false
blob_less_asym a b h =
    rw (text_eq_sym b.os a.os)
      (on_cases (text_eq a.os b.os) (text_lt_asym a.os b.os) (text_lt_asym a.arch b.arch) h)

version_less_asym : (a b : Version) → version_less a b ≡ true → version_less b a ≡ false
version_less_asym a b h = rw (text_eq_sym b.published_at a.published_at) (
    on_cases (text_eq a.published_at b.published_at) (text_lt_asym b.published_at a.published_at)
      (text_lt_asym b.version a.version) h)

canonical_package-Canonical : (p : Package) → CanonicalPackage (canonical_package p)
canonical_package-Canonical p = (
  IsSortedBy-Chain version_less NewestFirst newest_first (canonical_package p).versions (
      IsSortedBy-map version_less canonical_version (λ v w. refl) (sort_by version_less p.versions)
        (sort_by-IsSorted version_less version_less_asym p.versions)),
  All-mapped canonical_version (λ v. Unit {0}) CanonicalVersion
      (λ v t.
        IsSortedBy-Chain blob_less ByTarget (λ a b h. two_keys a.os b.os a.arch b.arch h)
          (sort_by blob_less v.blobs) (sort_by-IsSorted blob_less blob_less_asym v.blobs))
      (sort_by version_less p.versions) (All-Unit (sort_by version_less p.versions)),
)
  where
    newest_first : (v w : Version) → version_less w v ≡ false → NewestFirst v w
    newest_first v w h =
        let k =
          two_keys w.published_at v.published_at w.version v.version
            (rw (text_eq_sym v.published_at w.published_at) h) in
        (k.0, λ same. k.1 (sym same))

-- On an index with one package per name, one version per name and one blob per target, Canonicalise
-- changes the digest published for no name, version and target, and leaves of any two neighbours
-- the packages by name ascending, the versions of each by the text of their time of publication
-- descending and on a tie by version descending, and the blobs of each version by os ascending and
-- on a tie by arch ascending.
pub canonicalise-IsCanonical :
    (idx : Index) (name version : Text) (t : Text × Text)
    → WellFormed idx
    → IsCanonical (canonicalise idx)
      × (digest (canonicalise idx) name version t ≡ digest idx name version t)
unfolding IsCanonical canonicalise
canonicalise-IsCanonical idx name version t wf = (
  (
    IsSortedBy-Chain package_less ByName (λ p q h. h) (canonicalise idx).packages
        (IsSortedBy-map package_less canonical_package (λ p q. refl)
          (sort_by package_less idx.packages)
          (sort_by-IsSorted package_less (λ p q. text_lt_asym p.name q.name) idx.packages)),
    All-mapped canonical_package (λ p. Unit {0}) CanonicalPackage
        (λ p t. canonical_package-Canonical p) (sort_by package_less idx.packages)
        (All-Unit (sort_by package_less idx.packages)),
  ),
  digest-canonicalise idx name version t wf,
)
