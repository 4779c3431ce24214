-- ===== src/License/Sound.antt =====
-- What the parser accepts is the print of a tree, and the class that it returns is the tree's.
use mcp_library.Common.{
  ℕ, zero, suc, ◌≡◌, refl, sym, ap, ◌∙◌, subst, true, false, List, [], ◌∷◌, on_if, on_elim,
}
use mcp_library.Common.Text.{Text, codes, text_eq, text_eq→eq}
use mcp_library.License.{
  LicenseClass, Parsed, parsed, failed, exhausted, and_then, close_group, parse_license,
  is_reserved, is_or, is_and, is_open, is_close, is_with, peek, advance, parse_or, or_loop,
  parse_and, and_loop, parse_term, best_of, worst_of, classify_license_id,
}
use mcp_library.License.Grammar.{
  OrExpr, or_expr, OrTail, or_end, or_more, AndExpr, and_expr, AndTail, and_end, and_more, Term,
  group, license, license_with, or_class, or_tail_class, and_class, and_tail_class, term_class,
  print_or, print_or_tail, print_and, print_and_tail, print_term, OrWords, OrTailWords, AndWords,
  AndTailWords, TermWords, or_word, and_word, with_word, open_word,
}

-- `ts` is the print of a tree, in front of what the parser left, and the class is the tree's.
abbrev OrRead : List Text → Parsed → Type 0
OrRead ts (parsed c rest) = (e : OrExpr) × OrWords e × (print_or e rest ≡ ts) × (or_class e ≡ c)
OrRead ts _ = Unit

abbrev OrTailRead : LicenseClass → List Text → Parsed → Type 0
OrTailRead b ts (parsed c rest) =
    (t : OrTail) × OrTailWords t × (print_or_tail t rest ≡ ts) × (or_tail_class b t ≡ c)
OrTailRead b ts _ = Unit

abbrev AndRead : List Text → Parsed → Type 0
AndRead ts (parsed c rest) =
    (e : AndExpr) × AndWords e × (print_and e rest ≡ ts) × (and_class e ≡ c)
AndRead ts _ = Unit

abbrev AndTailRead : LicenseClass → List Text → Parsed → Type 0
AndTailRead b ts (parsed c rest) =
    (t : AndTail) × AndTailWords t × (print_and_tail t rest ≡ ts) × (and_tail_class b t ≡ c)
AndTailRead b ts _ = Unit

abbrev TermRead : List Text → Parsed → Type 0
TermRead ts (parsed c rest) =
    (f : Term) × TermWords f × (print_term f rest ≡ ts) × (term_class f ≡ c)
TermRead ts _ = Unit

-- A keyword that the parser peeks at stands at the head of the tokens.
peeked :
    (c : ℕ) (w : Text) (ts : List Text)
    → text_eq (peek ts) (c ∷ w) ≡ true
    → (c ∷ w) ∷ advance ts ≡ ts
peeked c w [] h = unfold text_eq in cc h
peeked c w (t ∷ ts) h = ap (λ x. x ∷ ts) (sym (text_eq→eq t (c ∷ w) h))

with_exception :
    (t : Text) (us ts : List Text)
    → is_open t ≡ false
    → is_reserved t ≡ false
    → is_reserved (peek us) ≡ false
    → with_word ∷ us ≡ ts
    → TermRead (t ∷ ts) (parsed (classify_license_id t) (advance us))
unfolding print_term TermWords term_class
with_exception t [] ts closed id exception e = unfold is_reserved text_eq in cc exception
with_exception t (x ∷ us) ts closed id exception e =
    (license_with t x, (closed, id, exception), ap (λ l. t ∷ l) e, refl)

parse_license-TermRead :
    (ts : List Text) → is_open (peek ts) ≡ false → TermRead ts (parse_license ts)
unfolding parse_license print_term TermWords term_class
parse_license-TermRead [] closed = unfold is_reserved text_eq in tt
parse_license-TermRead (t ∷ ts) closed =
    on_if (TermRead (t ∷ ts)) (is_reserved t) (λ _. tt)
      λ id.
        on_if (TermRead (t ∷ ts)) (is_with (peek ts))
          (λ joined.
            on_if (TermRead (t ∷ ts)) (is_reserved (peek (advance ts))) (λ _. tt)
              λ exception.
                with_exception t (advance ts) ts closed id exception
                  (peeked b'W' (codes "ITH") ts joined))
          (λ _. (license t, (closed, id), refl, refl))

grammar : Unit {0}
unfolding parse_or or_loop parse_and and_loop parse_term print_or print_or_tail print_and
    print_and_tail print_term or_class or_tail_class and_class and_tail_class term_class OrWords
    OrTailWords AndWords AndTailWords TermWords
grammar = tt

-- A tree from the trees of its parts.
or_expr_read :
    (ts : List Text) (c : LicenseClass) (rest : List Text) (q : Parsed)
    → AndRead ts (parsed c rest)
    → OrTailRead c rest q
    → OrRead ts q
unfolding grammar
or_expr_read ts c rest (parsed d left) (a, wa, pa, ca) (t, wt, pt, ct) =
    (or_expr a t, (wa, wt), ap (print_and a) pt ∙ pa, ap (λ x. or_tail_class x t) ca ∙ ct)
or_expr_read ts c rest failed h k = tt
or_expr_read ts c rest exhausted h k = tt

or_more_read :
    (b c : LicenseClass) (us ts rest : List Text) (q : Parsed)
    → or_word ∷ us ≡ ts
    → AndRead us (parsed c rest)
    → OrTailRead (best_of b c) rest q
    → OrTailRead b ts q
unfolding grammar
or_more_read b c us ts rest (parsed d left) e (a, wa, pa, ca) (t, wt, pt, ct) = (
  or_more a t,
  (wa, wt),
  ap (λ l. or_word ∷ l) (ap (print_and a) pt ∙ pa) ∙ e,
  ap (λ x. or_tail_class (best_of b x) t) ca ∙ ct,
)
or_more_read b c us ts rest failed e h k = tt
or_more_read b c us ts rest exhausted e h k = tt

and_expr_read :
    (ts : List Text) (c : LicenseClass) (rest : List Text) (q : Parsed)
    → TermRead ts (parsed c rest)
    → AndTailRead c rest q
    → AndRead ts q
unfolding grammar
and_expr_read ts c rest (parsed d left) (a, wa, pa, ca) (t, wt, pt, ct) =
    (and_expr a t, (wa, wt), ap (print_term a) pt ∙ pa, ap (λ x. and_tail_class x t) ca ∙ ct)
and_expr_read ts c rest failed h k = tt
and_expr_read ts c rest exhausted h k = tt

and_more_read :
    (b c : LicenseClass) (us ts rest : List Text) (q : Parsed)
    → and_word ∷ us ≡ ts
    → TermRead us (parsed c rest)
    → AndTailRead (worst_of b c) rest q
    → AndTailRead b ts q
unfolding grammar
and_more_read b c us ts rest (parsed d left) e (a, wa, pa, ca) (t, wt, pt, ct) = (
  and_more a t,
  (wa, wt),
  ap (λ l. and_word ∷ l) (ap (print_term a) pt ∙ pa) ∙ e,
  ap (λ x. and_tail_class (worst_of b x) t) ca ∙ ct,
)
and_more_read b c us ts rest failed e h k = tt
and_more_read b c us ts rest exhausted e h k = tt

group_read :
    (us ts : List Text) (c : LicenseClass) (rest : List Text)
    → open_word ∷ us ≡ ts
    → OrRead us (parsed c rest)
    → TermRead ts (close_group c rest)
unfolding grammar
group_read us ts c rest e (a, wa, pa, ca) =
    on_if (TermRead ts) (is_close (peek rest))
      (λ closed. (
        group a,
        wa,
        ap (λ l. open_word ∷ l) (ap (print_or a) (peeked b')' [] rest closed) ∙ pa) ∙ e,
        ca,
      ))
      (λ _. tt)

-- The parse of what follows, where the first part parsed.
module _ (S : Parsed → Type 0) (failed_S : S failed) (exhausted_S : S exhausted) where
  read_then :
      (P : Parsed → Type 0) (r : Parsed) (k : LicenseClass → List Text → Parsed)
      → P r
      → ((c : LicenseClass) (rest : List Text) → P (parsed c rest) → S (k c rest))
      → S (and_then r k)
  read_then P (parsed c rest) k h g = g c rest h
  read_then P failed k h g = failed_S
  read_then P exhausted k h g = exhausted_S

mutual
  unfolding grammar

  parse_or-OrRead : (n : ℕ) (ts : List Text) → OrRead ts (parse_or n ts)
  parse_or-OrRead zero ts = tt
  parse_or-OrRead (suc n) ts =
      read_then (OrRead ts) tt tt (AndRead ts) (parse_and n ts) (or_loop n) (parse_and-AndRead n ts)
        (λ c rest h. or_expr_read ts c rest (or_loop n c rest) h (or_loop-OrTailRead n c rest))

  or_loop-OrTailRead :
      (n : ℕ) (b : LicenseClass) (ts : List Text) → OrTailRead b ts (or_loop n b ts)
  or_loop-OrTailRead zero b ts = tt
  or_loop-OrTailRead (suc n) b ts =
      on_elim (OrTailRead b ts) (is_or (peek ts))
        (λ more.
          read_then (OrTailRead b ts) tt tt (AndRead (advance ts)) (parse_and n (advance ts)) _
            (parse_and-AndRead n (advance ts))
            (λ c rest h.
              or_more_read b c (advance ts) ts rest (or_loop n (best_of b c) rest)
                (peeked b'O' (codes "R") ts more) h (or_loop-OrTailRead n (best_of b c) rest)))
        (λ done. (or_end, tt, refl, refl))

  parse_and-AndRead : (n : ℕ) (ts : List Text) → AndRead ts (parse_and n ts)
  parse_and-AndRead zero ts = tt
  parse_and-AndRead (suc n) ts =
      read_then (AndRead ts) tt tt (TermRead ts) (parse_term n ts) (and_loop n)
        (parse_term-TermRead n ts)
        (λ c rest h. and_expr_read ts c rest (and_loop n c rest) h (and_loop-AndTailRead n c rest))

  and_loop-AndTailRead :
      (n : ℕ) (w : LicenseClass) (ts : List Text) → AndTailRead w ts (and_loop n w ts)
  and_loop-AndTailRead zero w ts = tt
  and_loop-AndTailRead (suc n) w ts =
      on_elim (AndTailRead w ts) (is_and (peek ts))
        (λ more.
          read_then (AndTailRead w ts) tt tt (TermRead (advance ts)) (parse_term n (advance ts)) _
            (parse_term-TermRead n (advance ts))
            (λ c rest h.
              and_more_read w c (advance ts) ts rest (and_loop n (worst_of w c) rest)
                (peeked b'A' (codes "ND") ts more) h (and_loop-AndTailRead n (worst_of w c) rest)))
        (λ done. (and_end, tt, refl, refl))

  parse_term-TermRead : (n : ℕ) (ts : List Text) → TermRead ts (parse_term n ts)
  parse_term-TermRead zero ts = tt
  parse_term-TermRead (suc n) ts =
      on_elim (TermRead ts) (is_open (peek ts))
        (λ opened.
          read_then (TermRead ts) tt tt (OrRead (advance ts)) (parse_or n (advance ts)) close_group
            (parse_or-OrRead n (advance ts))
            (λ c rest h. group_read (advance ts) ts c rest (peeked b'(' [] ts opened) h))
        (λ plain. parse_license-TermRead ts plain)

-- Where parseOr, on whatever fuel, accepts and leaves some tokens, those it has read are the print
-- of a tree of the grammar with valid ids, and the class that it returns is the tree's.
pub parse_or_sound :
    (n : ℕ) (ts rest : List Text) (c : LicenseClass)
    → parse_or n ts ≡ parsed c rest
    → (e : OrExpr) × OrWords e × (print_or e rest ≡ ts) × (or_class e ≡ c)
parse_or_sound n ts rest c h = subst (OrRead ts) h (parse_or-OrRead n ts)
