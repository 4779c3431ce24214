-- ===== src/Lock/Readers.antt =====
-- When a requirements file is read, and which entries of an npm lock file become dependencies.
use mcp_library.Common.{◌<◌, ◌≡◌, ◌≢◌, ◌⊎◌, ◌↔◌, inl, inr, true, false, List, [], ◌∷◌, none, Any}
use mcp_library.Audit.{Dep}
use mcp_library.Common.Tests.{Bool-cases}
use mcp_library.Common.Text.{Text, codes, trim_space}
use mcp_library.Lock.{
  NpmEntry, byte_length, is_skipped_entry, npm_dep, read_npm_lock, cut_at, is_skipped_line,
  requirement,
}

-- A line that is shorter than the scanner's buffer, and is skipped or names an exact version.
abbrev pub IsPinnedLine : Text → Type 0
IsPinnedLine line =
    (byte_length line < 65536)
    × ((is_skipped_line (trim_space line) ≡ true) ⊎ (cut_at (codes "==") (requirement line) ≢ none))

-- An entry that becomes the dependency.
abbrev Ships : Dep → NpmEntry → Type 0
Ships d e = (is_skipped_entry e ≡ false) × (npm_dep e ≡ d)

-- A dependency is among those that readNPMLock returns exactly when it is the one made of some entry
-- with a key and a version that is neither a dev entry nor a link.
read_npm_lock_iff :
    (d : Dep) (es : List NpmEntry) → Any (λ x. x ≡ d) (read_npm_lock es) ↔ Any (Ships d) es
unfolding read_npm_lock
read_npm_lock_iff d [] = (λ h. h, λ h. h)
read_npm_lock_iff d (e ∷ es) = elim (Bool-cases (is_skipped_entry e)) [
  | inl skipped ↦ (
    λ h. inr ((read_npm_lock_iff d es).0 (rw (skipped, read_npm_lock) at h)),
    λ h. rw (skipped, read_npm_lock) (later skipped (read_npm_lock_iff d es).1 h),
  )
  | inr ships ↦ (
    λ h. forth ships (read_npm_lock_iff d es).0 (rw (ships, read_npm_lock) at h),
    λ h. rw (ships, read_npm_lock) (back (read_npm_lock_iff d es).1 h),
  )
]
  where
    later :
        is_skipped_entry e ≡ true
        → (Any (Ships d) es → Any (λ x. x ≡ d) (read_npm_lock es))
        → Any (Ships d) (e ∷ es)
        → Any (λ x. x ≡ d) (read_npm_lock es)
    later skipped ih (inl (ships, same)) = absurd (cc (skipped, ships))
    later skipped ih (inr there) = ih there

    forth :
        is_skipped_entry e ≡ false
        → (Any (λ x. x ≡ d) (read_npm_lock es) → Any (Ships d) es)
        → (npm_dep e ≡ d) ⊎ Any (λ x. x ≡ d) (read_npm_lock es)
        → Any (Ships d) (e ∷ es)
    forth ships ih (inl same) = inl (ships, same)
    forth ships ih (inr there) = inr (ih there)

    back :
        (Any (Ships d) es → Any (λ x. x ≡ d) (read_npm_lock es))
        → Any (Ships d) (e ∷ es)
        → (npm_dep e ≡ d) ⊎ Any (λ x. x ≡ d) (read_npm_lock es)
    back ih (inl (ships, same)) = inl same
    back ih (inr there) = inr (ih there)
