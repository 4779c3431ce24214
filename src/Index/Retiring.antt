-- ===== src/Index/Retiring.antt =====
-- internal/index/index.go: Retire. A retired version is no longer published, and every other one is
-- as before.
use mcp_library.Common.{
  ◌≡◌, refl, ◌∙◌, ap, subst, Bool, true, false, ◌&&◌, ◌⊎◌, Option, some, none, List, [], ◌∷◌, inl,
  inr, if◌then◌else◌,
}
use mcp_library.Common.Keyed.{
  Unique, view_at, view_cons, has_key, ok-injective, test_apart, test_same,
}
use mcp_library.Common.Keyed.Folds.{view-absent, has_key-same}
use mcp_library.Common.Lists.{All}
use mcp_library.Common.Result.{ok}
use mcp_library.Common.Tests.{Bool-cases, Option-cases}
use mcp_library.Common.Text.{Text, text_eq, cut}
use mcp_library.Index.{
  Version, Package, Index, version_of, name_of, delete_version, keep_package, retire_from, retire,
}
use mcp_library.Index.Canonical.{digest, WellFormed}
use mcp_library.Index.Keys.{name_eq}
use mcp_library.Index.Lookup.{digest_at, OneVersionEach, package_digest, version_digest}

some-injective : {A : Type 0} (a b : A) → ◌≡◌ {A = Option A} (some a) (some b) → a ≡ b
some-injective a b h = cc

swap_ifs :
    {S : Type 0} (a b : Bool) (o rest : Option S)
    → (a ≡ true → b ≡ false)
    → (if a then o else (if b then none else rest)) ≡ (if b then none else (if a then o else rest))
swap_ifs true b o rest h = rw (h refl) refl
swap_ifs false b o rest h = refl

-- Where a key is taken out of a list in which it names one record.
delete_version-view :
    (version : Text) (vs r : List Version)
    → Unique version_of name_eq vs
    → delete_version version vs ≡ some r
    → (k : Text) (t : Text × Text)
    → view_at version_of name_eq version_digest r k t
      ≡ (if text_eq version k then none else view_at version_of name_eq version_digest vs k t)
unfolding delete_version
delete_version-view version [] r u h k t = absurd (cc h)
delete_version-view version (v ∷ vs) r u h k t = elim (Bool-cases (text_eq v.version version)) [
  | inl same ↦
      subst
        (λ l. view_at version_of name_eq version_digest l k t ≡ (
          if text_eq version k
          then none
          else view_at version_of name_eq version_digest (v ∷ vs) k t))
        (some-injective vs r (rw same at h))
        (taken v vs (u.0) same (Bool-cases (text_eq version k)))
  | inr other ↦ elim (Option-cases (delete_version version vs)) [
    | inl missing ↦ absurd (cc (rw (other, missing) at h))
    | inr (r', deleted) ↦
        subst
          (λ l. view_at version_of name_eq version_digest l k t ≡ (
            if text_eq version k
            then none
            else view_at version_of name_eq version_digest (v ∷ vs) k t))
          (some-injective (v ∷ r') r (rw (other, deleted) at h))
          (kept v vs r' other (delete_version-view version vs r' (u.1) deleted k t))
  ]
]
  where
    taken :
        (v : Version) (vs : List Version)
        → has_key version_of name_eq v.version vs ≡ false
        → text_eq v.version version ≡ true
        → (text_eq version k ≡ true) ⊎ (text_eq version k ≡ false)
        → view_at version_of name_eq version_digest vs k t ≡ (
            if text_eq version k
            then none
            else view_at version_of name_eq version_digest (v ∷ vs) k t)
    taken v vs alone same (inl y) =
        rw
          (
            y,
            view-absent version_of name_eq version_digest vs k t (
                has_key-same version_of name_eq vs v.version k
                  (test_same name_eq v.version version k same ∙ y) alone),
          )
          refl
    taken v vs alone same (inr n) =
        rw
          (
            n,
            view_cons version_of name_eq version_digest v vs k t,
            test_same name_eq v.version version k same ∙ n,
          )
          refl

    kept :
        (v : Version) (vs r' : List Version)
        → text_eq v.version version ≡ false
        → view_at version_of name_eq version_digest r' k t
          ≡ (if text_eq version k then none else view_at version_of name_eq version_digest vs k t)
        → view_at version_of name_eq version_digest (v ∷ r') k t ≡ (
            if text_eq version k
            then none
            else view_at version_of name_eq version_digest (v ∷ vs) k t)
    kept v vs r' other ih =
        rw
          (
            view_cons version_of name_eq version_digest v r' k t,
            view_cons version_of name_eq version_digest v vs k t,
            ih,
          )
          (swap_ifs (text_eq v.version k) (text_eq version k) (version_digest v t)
            (view_at version_of name_eq version_digest vs k t)
            (test_apart name_eq v.version version k other))

-- Dropping a package that has no version left changes no answer.
keep_package-view :
    (p : Package) (vs : List Version) (ps : List Package) (n : Text) (q : Text × (Text × Text))
    → has_key name_of name_eq p.name ps ≡ false
    → digest_at (keep_package p vs ps) n q ≡ digest_at (record p { versions = vs } ∷ ps) n q
keep_package-view p (v ∷ vs) ps n q alone = refl
keep_package-view p [] ps n q alone = elim (Bool-cases (text_eq p.name n)) [
  | inl same ↦
      rw
        (
          view-absent name_of name_eq package_digest ps n q
              (has_key-same name_of name_eq ps p.name n same alone),
          same,
        )
        refl
  | inr other ↦ rw other refl
]

kept_unless : Bool → Option Text → Option Text
kept_unless gone o = if gone then none else o

retire_from-digest :
    (name version : Text) (ps r : List Package)
    → Unique name_of name_eq ps
    → All OneVersionEach ps
    → retire_from name version ps ≡ some r
    → (n v : Text) (t : Text × Text)
    → digest_at r n (v, t)
      ≡ kept_unless (text_eq name n && text_eq version v) (digest_at ps n (v, t))
unfolding retire_from kept_unless
retire_from-digest name version [] r u one h n v t = absurd (cc h)
retire_from-digest name version (p ∷ ps) r u one h n v t = elim (Bool-cases (text_eq p.name name)) [
  | inl same ↦ elim (Option-cases (delete_version version p.versions)) [
    | inl missing ↦ absurd (cc (rw (same, missing) at h))
    | inr (vs, deleted) ↦
        subst
          (λ l.
            digest_at l n (v, t)
            ≡ kept_unless (text_eq name n && text_eq version v) (digest_at (p ∷ ps) n (v, t)))
          (some-injective (keep_package p vs ps) r (rw (same, deleted) at h))
          (keep_package-view p vs ps n (v, t) (u.0)
            ∙ in_package p vs ps same
                (delete_version-view version p.versions vs (one.0.0) deleted v t))
  ]
  | inr other ↦ elim (Option-cases (retire_from name version ps)) [
    | inl missing ↦ absurd (cc (rw (other, missing) at h))
    | inr (r', retired) ↦
        subst
          (λ l.
            digest_at l n (v, t)
            ≡ kept_unless (text_eq name n && text_eq version v) (digest_at (p ∷ ps) n (v, t)))
          (some-injective (p ∷ r') r (rw (other, retired) at h))
          (in_rest p ps r' other
            (retire_from-digest name version ps r' (u.1) (one.1) retired n v t))
  ]
]
  where
    in_package :
        (p : Package) (vs : List Version) (ps : List Package)
        → text_eq p.name name ≡ true
        → view_at version_of name_eq version_digest vs v t ≡ (
            if text_eq version v
            then none
            else view_at version_of name_eq version_digest p.versions v t)
        → digest_at (record p { versions = vs } ∷ ps) n (v, t)
          ≡ kept_unless (text_eq name n && text_eq version v) (digest_at (p ∷ ps) n (v, t))
    in_package p vs ps same ih =
        rw
          (
            view_cons name_of name_eq package_digest (record p { versions = vs }) ps n (v, t),
            view_cons name_of name_eq package_digest p ps n (v, t),
            ih,
            test_same name_eq p.name name n same,
          )
          (by_test (text_eq name n) (text_eq version v)
            (view_at version_of name_eq version_digest p.versions v t) (digest_at ps n (v, t)))
      where
        by_test :
            (a b : Bool) (o rest : Option Text)
            → (if a then (if b then none else o) else rest)
              ≡ kept_unless (a && b) (if a then o else rest)
        by_test true b o rest = refl
        by_test false b o rest = refl

    in_rest :
        (p : Package) (ps r' : List Package)
        → text_eq p.name name ≡ false
        → digest_at r' n (v, t)
          ≡ kept_unless (text_eq name n && text_eq version v) (digest_at ps n (v, t))
        → digest_at (p ∷ r') n (v, t)
          ≡ kept_unless (text_eq name n && text_eq version v) (digest_at (p ∷ ps) n (v, t))
    in_rest p ps r' other ih =
        rw
          (
            view_cons name_of name_eq package_digest p r' n (v, t),
            view_cons name_of name_eq package_digest p ps n (v, t),
            ih,
          )
          (swap_ifs (text_eq p.name n) (text_eq name n && text_eq version v)
            (package_digest p (v, t)) (digest_at ps n (v, t))
            (λ y. ap (λ b. b && text_eq version v) (test_apart name_eq p.name name n other y)))

-- On an index with one package per name, one version per name and one blob per target, where the
-- argument is cut at its first @ into a name and a version and Retire succeeds, the index left
-- publishes no digest for that version of that package and for all others just what it published
-- before.
pub retire-digest :
    (idx r : Index) (name_at_version name version : Text)
    → WellFormed idx
    → cut b'@' name_at_version ≡ some (name, version)
    → retire idx name_at_version ≡ ok r
    → (n v : Text) (t : Text × Text)
    → digest r n v t ≡ (if text_eq name n && text_eq version v then none else digest idx n v t)
unfolding retire digest WellFormed kept_unless
retire-digest idx r s name version wf parts h n v t =
    elim (Option-cases (retire_from name version idx.packages)) [
      | inl missing ↦ absurd (cc (rw (parts, missing, retire) at h))
      | inr (ps, retired) ↦
          subst
            (λ i. digest_at i.packages n (v, t) ≡ (
              if text_eq name n && text_eq version v
              then none
              else digest_at idx.packages n (v, t)))
            (ok-injective (record idx { packages = ps }) r (rw (parts, retired, retire) at h))
            (retire_from-digest name version idx.packages ps (wf.0) (wf.1) retired n v t)
    ]
