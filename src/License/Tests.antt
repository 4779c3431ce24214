-- ===== src/License/Tests.antt =====
-- Runs of the classifier on the inputs of license_test.go and beside them, and the theorems there.
use mcp_library.Common.{◌≤◌, ◌≡◌, ◌≢◌, ◌↔◌, refl, List, [], ◌∷◌, All, inl, inr}
use mcp_library.Common.Text.{Text, codes, text_eq}
use mcp_library.License.{
  permits, review, parsed, exhausted, classify_license, classify_tokens, classify_license_id,
  license_rank, parse_license, is_reserved, parse_or, parse_fuel,
}
use mcp_library.License.Fuel.{parse_or-ne-exhausted}
use mcp_library.License.Grammar.{
  OrExpr, or_expr, or_end, or_more, and_expr, and_end, and_more, license, group, print_or, OrWords,
  OrSome, with_word, open_word,
}
use mcp_library.License.Meaning.{RankLe}
use mcp_library.License.Tokens.{IsToken}
use mcp_library.License.Verdict.{
  Spells, classify_permits_iff, classify_tokens-choices, unbalanced_exception,
}

runs : Unit {0}
unfolding classify_license classify_license_id license_rank parse_license is_reserved
runs = tt

test_open : classify_license (codes "MIT WITH (") ≡ permits
unfolding runs
test_open = refl

test_mixed : classify_license (codes "GPL-3.0 OR (MIT AND ISC)") ≡ permits
unfolding runs
test_mixed = refl

test_worst : classify_license (codes "mit and AGPL-3.0") ≡ review
unfolding runs
test_worst = refl

abbrev mixed : Text
mixed = codes "GPL-3.0 OR (MIT AND ISC)"

-- The tree of `mixed`.
abbrev mixed_tree : OrExpr
mixed_tree = or_expr (and_expr (license (codes "GPL-3.0")) and_end) (
    or_more
      (and_expr
        (group (
          or_expr (and_expr (license (codes "MIT")) (and_more (license (codes "ISC")) and_end))
            or_end))
        and_end)
      or_end)

mixed-OrWords : OrWords mixed_tree
unfolding OrWords is_reserved text_eq
mixed-OrWords = (((refl, refl), tt), (((((refl, refl), ((refl, refl), tt)), tt), tt), tt))

classify_permits_iff_example :
    (classify_license mixed ≡ permits) ↔ ((e : OrExpr) × Spells mixed e × OrSome (RankLe 0) e)
classify_permits_iff_example = classify_permits_iff mixed

classify_tokens-choices_example :
    (license_rank (classify_tokens (print_or mixed_tree [])) ≤ license_rank permits)
    ↔ OrSome (λ d. license_rank d ≤ license_rank permits) mixed_tree
classify_tokens-choices_example = classify_tokens-choices mixed_tree mixed-OrWords permits

abbrev mit_tokens : List Text
mit_tokens = codes "(" ∷ codes "MIT" ∷ codes ")" ∷ []

parse_or-ne-exhausted_example : parse_or (parse_fuel mit_tokens) mit_tokens ≢ exhausted
parse_or-ne-exhausted_example = parse_or-ne-exhausted mit_tokens

test_parse : parse_or 20 mit_tokens ≡ parsed permits []
unfolding runs parse_or
test_parse = refl

mit-IsToken : All IsToken mit_tokens
mit-IsToken = (inr refl, (inl ((refl, refl), ((refl, refl), ((refl, refl), tt))), (inr refl, tt)))

abbrev mit_tree : OrExpr
mit_tree =
    or_expr (and_expr (group (or_expr (and_expr (license (codes "MIT")) and_end) or_end)) and_end)
      or_end

mit-OrWords : OrWords mit_tree
unfolding OrWords is_reserved text_eq
mit-OrWords = (((((refl, refl), tt), tt), tt), tt)

mit_print-IsToken : All IsToken (print_or mit_tree [])
unfolding print_or
mit_print-IsToken = mit-IsToken

unbalanced_exception_example :
    classify_tokens (codes "MIT" ∷ with_word ∷ open_word ∷ []) ≡ classify_license_id (codes "MIT")
unfolding is_reserved text_eq
unbalanced_exception_example = unbalanced_exception (codes "MIT") refl refl
