-- ===== src/License/Complete.antt =====
-- Every print of a tree is parsed to the tree's class, and the classifier decides the grammar.
use mcp_library.Common.{
  ℕ, zero, suc, ◌+◌, ◌*◌, ◌≤◌, ◌<◌, ◌≡◌, ◌≢◌, refl, ap, ◌∙◌, false, List, [], ◌∷◌, arith, length,
}
use mcp_library.Common.Text.{Text, text_eq, text_eq_refl}
use mcp_library.License.{
  LicenseClass, review, Parsed, parsed, failed, exhausted, and_then, close_group, parse_license,
  is_reserved, is_or, is_and, is_with, peek, parse_or, or_loop, parse_and, and_loop, parse_term,
  best_of, worst_of, classify_license_id, classify_tokens, parse_fuel, whole_class,
}
use mcp_library.License.Grammar.{
  OrExpr, or_expr, OrTail, or_end, or_more, AndExpr, and_expr, AndTail, and_end, and_more, Term,
  group, license, license_with, or_class, or_tail_class, and_class, and_tail_class, term_class,
  print_or, print_or_tail, print_and, print_and_tail, print_term, OrWords, OrTailWords, AndWords,
  AndTailWords, TermWords, or_word, and_word, with_word, open_word, close_word,
}
use mcp_library.License.Sound.{parse_or_sound}

grammar : Unit {0}
unfolding print_or print_or_tail print_and print_and_tail print_term or_class or_tail_class
    and_class and_tail_class term_class OrWords OrTailWords AndWords AndTailWords TermWords
grammar = tt

parser : Unit {0}
unfolding grammar parse_or or_loop parse_and and_loop parse_term
parser = tt

mutual
  unfolding grammar

  print_or_longer : (e : OrExpr) (rest : List Text) → length rest < length (print_or e rest)
  print_or_longer (or_expr a t) rest =
      omega (arith, print_and_longer a (print_or_tail t rest), print_or_tail_longer t rest)

  print_or_tail_longer :
      (t : OrTail) (rest : List Text) → length rest ≤ length (print_or_tail t rest)
  print_or_tail_longer or_end rest = omega arith
  print_or_tail_longer (or_more a t) rest =
      omega (arith, print_and_longer a (print_or_tail t rest), print_or_tail_longer t rest)

  print_and_longer : (e : AndExpr) (rest : List Text) → length rest < length (print_and e rest)
  print_and_longer (and_expr f t) rest =
      omega (arith, print_term_longer f (print_and_tail t rest), print_and_tail_longer t rest)

  print_and_tail_longer :
      (t : AndTail) (rest : List Text) → length rest ≤ length (print_and_tail t rest)
  print_and_tail_longer and_end rest = omega arith
  print_and_tail_longer (and_more f t) rest =
      omega (arith, print_term_longer f (print_and_tail t rest), print_and_tail_longer t rest)

  print_term_longer : (f : Term) (rest : List Text) → length rest < length (print_term f rest)
  print_term_longer (group e) rest = omega (arith, print_or_longer e (close_word ∷ rest))
  print_term_longer (license id) rest = omega arith
  print_term_longer (license_with id exception) rest = omega arith

-- What follows does not go on with an operator of these levels.
abbrev NoWith : List Text → Type 0
NoWith rest = is_with (peek rest) ≡ false

abbrev NoAnd : List Text → Type 0
NoAnd rest = (is_and (peek rest) ≡ false) × NoWith rest

abbrev NoOr : List Text → Type 0
NoOr rest = (is_or (peek rest) ≡ false) × NoAnd rest

print_or_tail-NoAnd : (t : OrTail) (rest : List Text) → NoOr rest → NoAnd (print_or_tail t rest)
unfolding grammar text_eq
print_or_tail-NoAnd or_end rest h = h.1
print_or_tail-NoAnd (or_more a t) rest h = (refl, refl)

print_and_tail-NoWith :
    (t : AndTail) (rest : List Text) → NoAnd rest → NoWith (print_and_tail t rest)
unfolding grammar text_eq
print_and_tail-NoWith and_end rest h = h.1
print_and_tail-NoWith (and_more a t) rest h = refl

close_NoOr : (rest : List Text) → NoOr (close_word ∷ rest)
unfolding text_eq
close_NoOr rest = (refl, (refl, refl))

parse_plain :
    (id : Text) (rest : List Text)
    → is_reserved id ≡ false
    → NoWith rest
    → parse_license (id ∷ rest) ≡ parsed (classify_license_id id) rest
unfolding parse_license
parse_plain id rest word stop = rw (word, stop) refl

parse_with :
    (id exception : Text) (rest : List Text)
    → is_reserved id ≡ false
    → is_reserved exception ≡ false
    → parse_license (id ∷ with_word ∷ exception ∷ rest) ≡ parsed (classify_license_id id) rest
unfolding parse_license
parse_with id exception rest word other = rw (word, text_eq_refl with_word, other) refl

mutual
  unfolding parser

  parse-print_or :
      (n : ℕ) (e : OrExpr) (rest : List Text)
      → 3 * length (print_or e rest) + 3 ≤ n
      → OrWords e
      → NoOr rest
      → parse_or n (print_or e rest) ≡ parsed (or_class e) rest
  parse-print_or zero e rest fuel w stop = absurd (omega arith)
  parse-print_or (suc n) (or_expr a t) rest fuel w stop =
      ap (λ r. and_then r (or_loop n))
        (parse-print_and n a (print_or_tail t rest) (omega arith) w.0
          (print_or_tail-NoAnd t rest stop))
      ∙ loop-print_or n (and_class a) t rest
          (omega (arith, print_and_longer a (print_or_tail t rest))) w.1 stop

  loop-print_or :
      (n : ℕ) (b : LicenseClass) (t : OrTail) (rest : List Text)
      → 3 * length (print_or_tail t rest) + 1 ≤ n
      → OrTailWords t
      → NoOr rest
      → or_loop n b (print_or_tail t rest) ≡ parsed (or_tail_class b t) rest
  loop-print_or zero b t rest fuel w stop = absurd (omega arith)
  loop-print_or (suc n) b or_end rest fuel w stop = rw (stop.0, or_loop) refl
  loop-print_or (suc n) b (or_more a t) rest fuel w stop =
      rw (text_eq_refl or_word, or_loop)
        (ap (λ r. and_then r (λ c left. or_loop n (best_of b c) left))
            (parse-print_and n a (print_or_tail t rest) (omega arith) w.0
              (print_or_tail-NoAnd t rest stop))
          ∙ loop-print_or n (best_of b (and_class a)) t rest
              (omega (arith, print_and_longer a (print_or_tail t rest))) w.1 stop)

  parse-print_and :
      (n : ℕ) (e : AndExpr) (rest : List Text)
      → 3 * length (print_and e rest) + 2 ≤ n
      → AndWords e
      → NoAnd rest
      → parse_and n (print_and e rest) ≡ parsed (and_class e) rest
  parse-print_and zero e rest fuel w stop = absurd (omega arith)
  parse-print_and (suc n) (and_expr f t) rest fuel w stop =
      ap (λ r. and_then r (and_loop n))
        (parse-print_term n f (print_and_tail t rest) (omega arith) w.0
          (print_and_tail-NoWith t rest stop))
      ∙ loop-print_and n (term_class f) t rest
          (omega (arith, print_term_longer f (print_and_tail t rest))) w.1 stop

  loop-print_and :
      (n : ℕ) (b : LicenseClass) (t : AndTail) (rest : List Text)
      → 3 * length (print_and_tail t rest) + 1 ≤ n
      → AndTailWords t
      → NoAnd rest
      → and_loop n b (print_and_tail t rest) ≡ parsed (and_tail_class b t) rest
  loop-print_and zero b t rest fuel w stop = absurd (omega arith)
  loop-print_and (suc n) b and_end rest fuel w stop = rw (stop.0, and_loop) refl
  loop-print_and (suc n) b (and_more f t) rest fuel w stop =
      rw (text_eq_refl and_word, and_loop)
        (ap (λ r. and_then r (λ c left. and_loop n (worst_of b c) left))
            (parse-print_term n f (print_and_tail t rest) (omega arith) w.0
              (print_and_tail-NoWith t rest stop))
          ∙ loop-print_and n (worst_of b (term_class f)) t rest
              (omega (arith, print_term_longer f (print_and_tail t rest))) w.1 stop)

  parse-print_term :
      (n : ℕ) (f : Term) (rest : List Text)
      → 3 * length (print_term f rest) + 1 ≤ n
      → TermWords f
      → NoWith rest
      → parse_term n (print_term f rest) ≡ parsed (term_class f) rest
  parse-print_term zero f rest fuel w stop = absurd (omega arith)
  parse-print_term (suc n) (group e) rest fuel w stop =
      rw (text_eq_refl open_word, parse_term)
        (ap (λ r. and_then r close_group)
            (parse-print_or n e (close_word ∷ rest) (omega arith) w (close_NoOr rest))
          ∙ rw (text_eq_refl close_word) refl)
  parse-print_term (suc n) (license id) rest fuel w stop =
      rw (w.0, parse_term) (parse_plain id rest w.1 stop)
  parse-print_term (suc n) (license_with id exception) rest fuel w stop =
      rw (w.0, parse_term) (parse_with id exception rest w.1 w.2)

parse-print_whole :
    (e : OrExpr)
    → OrWords e
    → parse_or (parse_fuel (print_or e [])) (print_or e []) ≡ parsed (or_class e) []
parse-print_whole e w =
    parse-print_or (parse_fuel (print_or e [])) e [] (omega arith) w
      (unfold text_eq in (refl, (refl, refl)))

-- The tokens of a tree of the grammar with valid ids are classified as the loops accumulate its class.
pub classify_tokens-print : (e : OrExpr) → OrWords e → classify_tokens (print_or e []) ≡ or_class e
classify_tokens-print e w = on_tokens (print_or e []) (parse-print_whole e w) (print_or_longer e [])
  where
    on_tokens :
        (ts : List Text)
        → parse_or (parse_fuel ts) ts ≡ parsed (or_class e) []
        → 0 < length ts
        → classify_tokens ts ≡ or_class e
    on_tokens [] h lt = absurd (omega arith)
    on_tokens (t ∷ ts) h lt = unfold classify_tokens in ap whole_class h

whole_read :
    (ts : List Text) (r : Parsed)
    → parse_or (parse_fuel ts) ts ≡ r
    → whole_class r ≢ review
    → (e : OrExpr) × OrWords e × (print_or e [] ≡ ts) × (or_class e ≡ whole_class r)
whole_read ts (parsed c []) h other = parse_or_sound (parse_fuel ts) ts [] c h
whole_read ts (parsed c (t ∷ rest)) h other = absurd (other refl)
whole_read ts failed h other = absurd (other refl)
whole_read ts exhausted h other = absurd (other refl)

-- A class other than review comes only from the tree of the whole expression.
pub classify_tokens_sound :
    (ts : List Text)
    → classify_tokens ts ≢ review
    → (e : OrExpr) × OrWords e × (print_or e [] ≡ ts) × (or_class e ≡ classify_tokens ts)
unfolding classify_tokens
classify_tokens_sound [] other = absurd (other refl)
classify_tokens_sound (t ∷ ts) other = whole_read (t ∷ ts) _ refl other
