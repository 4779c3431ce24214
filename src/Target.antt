-- ===== src/Target.antt =====
-- internal/target/target.go: the checks of Parse on a decoded target, Ref, and the checks of the
-- contract files. The hash of some bytes, as hex digits, and the decoding of the window file are
-- parameters.
pub mod Pinned
pub mod Tests
use mcp_library.Common.{
  ℕ, zero, suc, Bool, true, false, ◌&&◌, ◌||◌, not, List, [], ◌∷◌, ◌++◌, Option, none, some, leb,
  any, ◌==◌, if◌then◌else◌,
}
use mcp_library.Audit.{is_empty}
use mcp_library.Common.Int.{ℤ, pos, ltb_ℤ, is_digit}
use mcp_library.Common.Regex.{Regex, seq, plus, word, times, one, matches}
use mcp_library.Common.Text.{Text, codes, text_eq}
use mcp_library.Validation.{lower_hex, lower, class_of, hex40_re, hex64_re}

pub record Target : Type 0 where
  pub schema_version : ℤ
  pub mcpgw_release : Text
  pub mcpgw_commit : Text
  pub schema_asset : Text
  pub schema_sha256 : Text
  pub window_asset : Text
  pub window_sha256 : Text
  pub runtimes : List Text
  pub build_image : Text

pub data TargetError : Type 0 where
  newer_schema other_schema no_build bad_schema_digest bad_window_digest : TargetError
  no_assets no_runtimes unpinned_image : TargetError
  digest_mismatch bad_window window_schema window_drift : TargetError

abbrev build_image_re : Regex
build_image_re =
    seq (plus (class_of (λ c. lower c || is_digit c) (codes "./_-")))
      (seq (word (codes "@sha256:")) (times 64 (one lower_hex)))

-- A switch whose cases each return an error.
abbrev pub first_case : List (Bool × TargetError) → Option TargetError
first_case [] = none
first_case ((test, e) ∷ cases) = let rest = first_case cases in if test then some e else rest

abbrev pub cases_of : Target → List (Bool × TargetError)
cases_of t =
    (ltb_ℤ (pos 1) t.schema_version, newer_schema)
    ∷ (ltb_ℤ (pos 1) t.schema_version || ltb_ℤ t.schema_version (pos 1), other_schema)
    ∷ (text_eq t.mcpgw_release [] && not (matches hex40_re t.mcpgw_commit), no_build)
    ∷ (not (matches hex64_re t.schema_sha256), bad_schema_digest)
    ∷ (not (matches hex64_re t.window_sha256), bad_window_digest)
    ∷ (text_eq t.schema_asset [] || text_eq t.window_asset [], no_assets)
    ∷ (is_empty t.runtimes, no_runtimes)
    ∷ (not (text_eq t.build_image []) && not (matches build_image_re t.build_image), unpinned_image)
    ∷ []

-- What `Parse` does with a decoded target.
unfoldable pub target_error : Target → Option TargetError
target_error t = first_case (cases_of t)

-- The first `n` characters; a slice that is longer than the text panics, which is `none`.
abbrev pub slice_to : ℕ → Text → Option Text
slice_to zero s = some []
slice_to (suc n) [] = none
slice_to (suc n) (c ∷ s) =
    let rest = slice_to n s in elim rest [ none ↦ none | some t ↦ some (c ∷ t) ]

unfoldable pub ref : Target → Option Text
ref t =
    let commit = slice_to 12 t.mcpgw_commit in
    if not (text_eq t.mcpgw_release [])
    then some (codes "MCPGW " ++ t.mcpgw_release)
    else elim commit [ none ↦ none | some c ↦ some (codes "MCPGW commit " ++ c) ]

pub record WindowDoc : Type 0 where
  pub schema_version : ℤ
  pub runtimes : List Text

-- `slices.Equal`.
unfoldable pub same_lines : List Text → List Text → Bool
same_lines [] [] = true
same_lines (s ∷ ss) (t ∷ ts) = text_eq s t && same_lines ss ts
same_lines _ _ = false

module _ (sha256 : Text → Text) (decode : Text → Option WindowDoc) where
  abbrev pub check_digest : Text → Text → Option TargetError
  check_digest bytes want = if not (text_eq (sha256 bytes) want) then some digest_mismatch else none

  abbrev pub check_schema_digest : Target → Text → Option TargetError
  check_schema_digest t bytes = check_digest bytes t.schema_sha256

  abbrev pub window_error : Target → WindowDoc → Option TargetError
  window_error t doc =
      if ltb_ℤ doc.schema_version (pos 1) || ltb_ℤ (pos 1) doc.schema_version
      then some window_schema
      else if not (same_lines doc.runtimes t.runtimes)
      then some window_drift
      else none

  unfoldable pub check_window : Target → Text → Option TargetError
  check_window t bytes =
      if not (text_eq (sha256 bytes) t.window_sha256)
      then some digest_mismatch
      else elim (decode bytes) [ none ↦ some bad_window | some doc ↦ window_error t doc ]
