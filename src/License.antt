-- ===== src/License.antt =====
-- internal/audit/license.go: the classes, the tokenizer, and the recursive-descent parser of SPDX
-- expressions. The parser's position is the list of tokens that are left: it reads a token past the
-- end as "", and every such read is an error.
pub mod Grammar
pub mod Fuel
pub mod Sound
pub mod Complete
pub mod Meaning
pub mod Tokens
pub mod Verdict
pub mod Tests
use mcp_library.Common.{
  ℕ, zero, suc, ◌+◌, ◌*◌, Bool, true, false, ◌||◌, List, [], ◌∷◌, ◌++◌, map, ltb, ◌==◌, length, any,
  if◌then◌else◌,
}
use mcp_library.Common.Text.{Text, codes, text_eq, has_prefix, mem, trim_space, to_upper}

pub data LicenseClass : Type 0 where
  permits review refuses : LicenseClass

unfoldable pub license_rank : LicenseClass → ℕ
license_rank permits = 0
license_rank review = 1
license_rank refuses = 2

abbrev license_permits : List Text
license_permits =
    codes "MIT"
    ∷ codes "APACHE-2.0"
    ∷ codes "BSD-2-CLAUSE"
    ∷ codes "BSD-3-CLAUSE"
    ∷ codes "ISC"
    ∷ codes "MPL-2.0"
    ∷ []

abbrev license_refuses_prefixes : List Text
license_refuses_prefixes =
    codes "GPL" ∷ codes "AGPL" ∷ codes "SSPL" ∷ codes "BUSL" ∷ codes "FSL" ∷ []

unfoldable pub classify_license_id : Text → LicenseClass
unfolding text_eq has_prefix mem trim_space to_upper
classify_license_id raw =
    let id = trim_space raw in
    let upper = map to_upper id in
    if text_eq id []
    then review
    else if text_eq upper (codes "UNLICENSED")
    then refuses
    else if any (λ prefix. has_prefix prefix upper) license_refuses_prefixes
    then refuses
    else if mem upper license_permits
    then permits
    else review

-- `flush`, in front of the tokens that follow.
flush : Text → List Text → List Text
flush [] later = later
flush (c ∷ cur) later = (c ∷ cur) ∷ later

-- `cur` is the builder's text.
tokenize_from : Text → Text → List Text
tokenize_from cur [] = flush cur []
tokenize_from cur (r ∷ expr) =
    let lone = flush cur ((r ∷ []) ∷ tokenize_from [] expr) in
    let gap = flush cur (tokenize_from [] expr) in
    let longer = tokenize_from (cur ++ r ∷ []) expr in
    if r == b'(' || r == b')'
    then lone
    else if r == 32 || r == 9 || r == 10 || r == 13
    then gap
    else longer

unfoldable pub tokenize_spdx : Text → List Text
unfolding tokenize_from flush
tokenize_spdx expr = tokenize_from [] expr

-- The keywords; "" is what the parser reads at the end.
abbrev pub is_or : Text → Bool
is_or t = text_eq t (codes "OR")

abbrev pub is_and : Text → Bool
is_and t = text_eq t (codes "AND")

abbrev pub is_with : Text → Bool
is_with t = text_eq t (codes "WITH")

abbrev pub is_open : Text → Bool
is_open t = text_eq t (codes "(")

abbrev pub is_close : Text → Bool
is_close t = text_eq t (codes ")")

-- What neither a licence id nor an exception id may be.
unfoldable pub is_reserved : Text → Bool
is_reserved t = text_eq t [] || is_or t || is_and t || is_with t || is_close t

abbrev pub peek : List Text → Text
peek [] = []
peek (t ∷ ts) = t

abbrev pub advance : List Text → List Text
advance [] = []
advance (t ∷ ts) = ts

-- A class and the tokens left, an error, or a parser that ran out of fuel.
pub data Parsed : Type 0 where
  parsed : LicenseClass → List Text → Parsed
  failed : Parsed
  exhausted : Parsed

abbrev pub and_then : Parsed → (LicenseClass → List Text → Parsed) → Parsed
and_then (parsed c ts) k = k c ts
and_then failed k = failed
and_then exhausted k = exhausted

abbrev pub best_of : LicenseClass → LicenseClass → LicenseClass
best_of best operand = if ltb (license_rank operand) (license_rank best) then operand else best

abbrev pub worst_of : LicenseClass → LicenseClass → LicenseClass
worst_of worst operand = if ltb (license_rank worst) (license_rank operand) then operand else worst

-- The part of `parseTerm` behind the parenthesis test.
unfoldable pub parse_license : List Text → Parsed
parse_license ts =
    if is_reserved (peek ts)
    then failed
    else if is_with (peek (advance ts))
    then (if is_reserved (peek (advance (advance ts)))
        then failed
        else parsed (classify_license_id (peek ts)) (advance (advance (advance ts))))
    else parsed (classify_license_id (peek ts)) (advance ts)

abbrev pub close_group : LicenseClass → List Text → Parsed
close_group c ts = if is_close (peek ts) then parsed c (advance ts) else failed

-- `parseOr`, `parseAnd`, their loops and `parseTerm`, on fuel.
unfoldable mutual
  pub parse_or : ℕ → List Text → Parsed
  parse_or zero ts = exhausted
  parse_or (suc n) ts = and_then (parse_and n ts) (λ best rest. or_loop n best rest)

  pub or_loop : ℕ → LicenseClass → List Text → Parsed
  or_loop zero best ts = exhausted
  or_loop (suc n) best ts = elim (is_or (peek ts)) [
    | true ↦ and_then (parse_and n (advance ts)) (λ c rest. or_loop n (best_of best c) rest)
    | false ↦ parsed best ts
  ]

  pub parse_and : ℕ → List Text → Parsed
  parse_and zero ts = exhausted
  parse_and (suc n) ts = and_then (parse_term n ts) (λ worst rest. and_loop n worst rest)

  pub and_loop : ℕ → LicenseClass → List Text → Parsed
  and_loop zero worst ts = exhausted
  and_loop (suc n) worst ts = elim (is_and (peek ts)) [
    | true ↦ and_then (parse_term n (advance ts)) (λ c rest. and_loop n (worst_of worst c) rest)
    | false ↦ parsed worst ts
  ]

  pub parse_term : ℕ → List Text → Parsed
  parse_term zero ts = exhausted
  parse_term (suc n) ts = elim (is_open (peek ts)) [
    | true ↦ and_then (parse_or n (advance ts)) close_group
    | false ↦ parse_license ts
  ]

-- Each level of the parser consumes a token or goes one of three levels down.
abbrev pub parse_fuel : List Text → ℕ
parse_fuel ts = 3 * length ts + 3

abbrev pub whole_class : Parsed → LicenseClass
whole_class (parsed c []) = c
whole_class _ = review

unfoldable pub classify_tokens : List Text → LicenseClass
unfolding parse_or
classify_tokens [] = review
classify_tokens (t ∷ ts) = whole_class (parse_or (parse_fuel (t ∷ ts)) (t ∷ ts))

unfoldable pub classify_license : Text → LicenseClass
unfolding tokenize_spdx classify_tokens
classify_license spdx = classify_tokens (tokenize_spdx spdx)
