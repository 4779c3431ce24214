-- ===== src/License/Grammar.antt =====
-- The grammar of internal/audit/license.go's comment on spdxParser as syntax trees, with the tokens
-- that a tree is written as and the class that it stands for.
use mcp_library.Common.{◌≡◌, false, List, ◌∷◌, ◌⊎◌}
use mcp_library.Common.Text.{Text, codes}
use mcp_library.License.{LicenseClass, classify_license_id, is_open, is_reserved, best_of, worst_of}

mutual
  pub data OrExpr : Type 0 where
    or_expr : AndExpr → OrTail → OrExpr

  pub data OrTail : Type 0 where
    or_end : OrTail
    or_more : AndExpr → OrTail → OrTail

  pub data AndExpr : Type 0 where
    and_expr : Term → AndTail → AndExpr

  pub data AndTail : Type 0 where
    and_end : AndTail
    and_more : Term → AndTail → AndTail

  pub data Term : Type 0 where
    group : OrExpr → Term
    license : Text → Term
    license_with : Text → Text → Term

abbrev pub or_word : Text
or_word = codes "OR"

abbrev pub and_word : Text
and_word = codes "AND"

abbrev pub with_word : Text
with_word = codes "WITH"

abbrev pub open_word : Text
open_word = codes "("

abbrev pub close_word : Text
close_word = codes ")"

-- The tokens of a tree, in front of `rest`.
unfoldable mutual
  pub print_or : OrExpr → List Text → List Text
  print_or (or_expr a t) rest = print_and a (print_or_tail t rest)

  pub print_or_tail : OrTail → List Text → List Text
  print_or_tail or_end rest = rest
  print_or_tail (or_more a t) rest = or_word ∷ print_and a (print_or_tail t rest)

  pub print_and : AndExpr → List Text → List Text
  print_and (and_expr f t) rest = print_term f (print_and_tail t rest)

  pub print_and_tail : AndTail → List Text → List Text
  print_and_tail and_end rest = rest
  print_and_tail (and_more f t) rest = and_word ∷ print_term f (print_and_tail t rest)

  pub print_term : Term → List Text → List Text
  print_term (group e) rest = open_word ∷ print_or e (close_word ∷ rest)
  print_term (license id) rest = id ∷ rest
  print_term (license_with id exception) rest = id ∷ with_word ∷ exception ∷ rest

-- Ids are no keywords, not empty and no parentheses; the code lets an exception id be "(".
unfoldable mutual
  pub OrWords : OrExpr → Type 0
  OrWords (or_expr a t) = AndWords a × OrTailWords t

  pub OrTailWords : OrTail → Type 0
  OrTailWords or_end = Unit
  OrTailWords (or_more a t) = AndWords a × OrTailWords t

  pub AndWords : AndExpr → Type 0
  AndWords (and_expr f t) = TermWords f × AndTailWords t

  pub AndTailWords : AndTail → Type 0
  AndTailWords and_end = Unit
  AndTailWords (and_more f t) = TermWords f × AndTailWords t

  pub TermWords : Term → Type 0
  TermWords (group e) = OrWords e
  TermWords (license id) = (is_open id ≡ false) × (is_reserved id ≡ false)
  TermWords (license_with id exception) =
      (is_open id ≡ false) × (is_reserved id ≡ false) × (is_reserved exception ≡ false)

-- The class of a tree as the loops accumulate it.
unfoldable mutual
  pub or_class : OrExpr → LicenseClass
  or_class (or_expr a t) = or_tail_class (and_class a) t

  pub or_tail_class : LicenseClass → OrTail → LicenseClass
  or_tail_class best or_end = best
  or_tail_class best (or_more a t) = or_tail_class (best_of best (and_class a)) t

  pub and_class : AndExpr → LicenseClass
  and_class (and_expr f t) = and_tail_class (term_class f) t

  pub and_tail_class : LicenseClass → AndTail → LicenseClass
  and_tail_class worst and_end = worst
  and_tail_class worst (and_more f t) = and_tail_class (worst_of worst (term_class f)) t

  pub term_class : Term → LicenseClass
  term_class (group e) = or_class e
  term_class (license id) = classify_license_id id
  term_class (license_with id exception) = classify_license_id id

-- The redistributor has a choice of alternatives whose every licence has a class of `Good`, and
-- every licence of some alternative chosen in each group counts.
module _ (Good : LicenseClass → Type 0) where
  unfoldable mutual
    pub OrSome : OrExpr → Type 0
    OrSome (or_expr a t) = AndEvery a ⊎ OrTailSome t

    pub OrTailSome : OrTail → Type 0
    OrTailSome or_end = ⊥
    OrTailSome (or_more a t) = AndEvery a ⊎ OrTailSome t

    pub AndEvery : AndExpr → Type 0
    AndEvery (and_expr f t) = TermGood f × AndTailEvery t

    pub AndTailEvery : AndTail → Type 0
    AndTailEvery and_end = Unit
    AndTailEvery (and_more f t) = TermGood f × AndTailEvery t

    pub TermGood : Term → Type 0
    TermGood (group e) = OrSome e
    TermGood (license id) = Good (classify_license_id id)
    TermGood (license_with id exception) = Good (classify_license_id id)
