-- ===== src/License/Verdict.antt =====
-- `ClassifyLicense` decides what the grammar and the redistributor's choices say.
use mcp_library.Common.{◌≤◌, ◌≡◌, ◌≢◌, ◌↔◌, refl, sym, ap, ◌∙◌, [], ◌∷◌, false, subst, arith, All}
use mcp_library.Common.Text.{Text, text_eq}
use mcp_library.License.{
  LicenseClass, permits, review, refuses, classify_license, classify_tokens, tokenize_spdx,
  classify_license_id, license_rank, is_open, is_reserved,
}
use mcp_library.License.Grammar.{
  OrExpr, or_expr, or_end, and_expr, and_end, license_with, print_or, OrWords, or_class, OrSome,
  with_word, open_word,
}
use mcp_library.License.Meaning.{RankLe, or_class_meaning}
use mcp_library.License.Complete.{classify_tokens-print, classify_tokens_sound}
use mcp_library.License.Tokens.{IsToken, spell, tokenize_spdx-spell}

-- A well-formed expression that the text is made of.
abbrev pub Spells : Text → OrExpr → Type 0
Spells spdx e = OrWords e × (print_or e [] ≡ tokenize_spdx spdx)

class_of_tree : (spdx : Text) (e : OrExpr) → Spells spdx e → classify_license spdx ≡ or_class e
unfolding classify_license
class_of_tree spdx e h = ap classify_tokens (sym h.1) ∙ classify_tokens-print e h.0

permits_of_rank : (c : LicenseClass) → RankLe 0 c → c ≡ permits
unfolding license_rank
permits_of_rank c h = ground arith

refuses_of_rank : (c : LicenseClass) → ¬ RankLe 1 c → c ≡ refuses
unfolding license_rank
refuses_of_rank permits h = absurd (h (omega arith))
refuses_of_rank review h = absurd (h (omega arith))
refuses_of_rank refuses h = refl

tree_of_class :
    (spdx : Text)
    → classify_license spdx ≢ review
    → (e : OrExpr) × Spells spdx e × (or_class e ≡ classify_license spdx)
unfolding classify_license
tree_of_class spdx other =
    let (e, words, print, class) = classify_tokens_sound (tokenize_spdx spdx) other in
    (e, (words, print), class)

-- ClassifyLicense permits a text exactly when its tokens are the print of a tree of the grammar
-- with valid ids in which some alternative of every OR that matters leaves only licences of the
-- class permits.
pub classify_permits_iff :
    (spdx : Text)
    → (classify_license spdx ≡ permits) ↔ ((e : OrExpr) × Spells spdx e × OrSome (RankLe 0) e)
classify_permits_iff spdx = (
  λ h.
      let (e, spells, class) = tree_of_class spdx (λ r. cc) in
      (
        e,
        spells,
        (or_class_meaning 0 e).0
            (subst (RankLe 0) (sym (class ∙ h)) (unfold license_rank in omega arith)),
      ),
  λ h. class_of_tree spdx h.0 h.1 ∙ permits_of_rank (or_class h.0) ((or_class_meaning 0 h.0).1 h.2),
)

-- ClassifyLicense refuses a text exactly when its tokens are the print of a tree of the grammar with
-- valid ids in which no choice of alternatives leaves only licences of the classes permits and
-- review.
classify_refuses_iff :
    (spdx : Text)
    → (classify_license spdx ≡ refuses) ↔ ((e : OrExpr) × Spells spdx e × (¬ OrSome (RankLe 1) e))
classify_refuses_iff spdx = (
  λ h.
      let (e, spells, class) = tree_of_class spdx (λ r. cc) in
      (
        e,
        spells,
        λ some_choice. absurd (
            unfold license_rank in
            two-le-one (subst (RankLe 1) (class ∙ h) ((or_class_meaning 1 e).1 some_choice))),
      ),
  λ h.
      class_of_tree spdx h.0 h.1
      ∙ refuses_of_rank (or_class h.0) (λ le. h.2 ((or_class_meaning 1 h.0).0 le)),
)
  where
    two-le-one : 2 ≤ 1 → ⊥
    two-le-one le = omega arith

-- Written out with a space behind each token, a tree of the grammar with valid ids whose printed
-- words are tokens is given by ClassifyLicense the class of the tree.
classify_license-spell :
    (e : OrExpr)
    → OrWords e
    → All IsToken (print_or e [])
    → classify_license (spell (print_or e [])) ≡ or_class e
classify_license-spell e words tokens =
    class_of_tree (spell (print_or e [])) e
      (words, sym (tokenize_spdx-spell (print_or e []) tokens))

-- The printed tokens of a tree of the grammar with valid ids are classified as at most as
-- restrictive as a class exactly when some choice of an alternative in every OR that matters leaves
-- only licences that are at most as restrictive as it.
pub classify_tokens-choices :
    (e : OrExpr)
    → OrWords e
    → (c : LicenseClass)
    → (license_rank (classify_tokens (print_or e [])) ≤ license_rank c)
      ↔ OrSome (λ d. license_rank d ≤ license_rank c) e
classify_tokens-choices e words c =
    subst (λ d. RankLe (license_rank c) d ↔ OrSome (RankLe (license_rank c)) e)
      (sym (classify_tokens-print e words)) (or_class_meaning (license_rank c) e)

-- For an id that is no keyword, not empty and no parenthesis, the tokens `<id> WITH (` are
-- classified as the id is, although the parenthesis is unbalanced.
pub unbalanced_exception :
    (id : Text)
    → is_open id ≡ false
    → is_reserved id ≡ false
    → classify_tokens (id ∷ with_word ∷ open_word ∷ []) ≡ classify_license_id id
unbalanced_exception id closed word =
    unfold print_or or_class in
    classify_tokens-print (or_expr (and_expr (license_with id open_word) and_end) or_end)
      (unfold OrWords is_reserved text_eq in (((closed, word, refl), tt), tt))
