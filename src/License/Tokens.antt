-- ===== src/License/Tokens.antt =====
-- `tokenizeSPDX`: the tokens that it makes, and the texts that it makes given tokens of.
use mcp_library.Common.{
  ℕ, ◌≡◌, refl, ◌∙◌, ap, Bool, true, false, ◌||◌, List, [], ◌∷◌, ◌++◌, append_assoc, append-nil,
  ◌==◌, All, ◌⊎◌, inl, inr, on_if,
}
use mcp_library.Common.Text.{Text}
use mcp_library.License.{tokenize_spdx, tokenize_from, flush}

abbrev is_paren : ℕ → Bool
is_paren r = r == b'(' || r == b')'

abbrev is_gap : ℕ → Bool
is_gap r = r == 32 || r == 9 || r == 10 || r == 13

-- A character of a token that is no parenthesis.
abbrev IsWordChar : ℕ → Type 0
IsWordChar r = (is_paren r ≡ false) × (is_gap r ≡ false)

abbrev IsWord : Text → Type 0
IsWord [] = ⊥
IsWord (c ∷ s) = IsWordChar c × All IsWordChar s

abbrev IsParen : Text → Type 0
IsParen [] = ⊥
IsParen (c ∷ []) = is_paren c ≡ true
IsParen (c ∷ d ∷ s) = ⊥

abbrev pub IsToken : Text → Type 0
IsToken t = IsWord t ⊎ IsParen t

flush-IsToken :
    (cur : Text) (later : List Text)
    → All IsWordChar cur
    → All IsToken later
    → All IsToken (flush cur later)
unfolding flush
flush-IsToken [] later h k = k
flush-IsToken (c ∷ cur) later h k = (inl h, k)

All-snoc : (cur : Text) (r : ℕ) → All IsWordChar cur → IsWordChar r → All IsWordChar (cur ++ r ∷ [])
All-snoc [] r h k = (k, tt)
All-snoc (c ∷ cur) r h k = (h.0, All-snoc cur r h.1 k)

tokenize_from-IsToken :
    (cur expr : Text) → All IsWordChar cur → All IsToken (tokenize_from cur expr)
unfolding tokenize_from
tokenize_from-IsToken cur [] h = flush-IsToken cur [] h tt
tokenize_from-IsToken cur (r ∷ expr) h =
    on_if (All IsToken) (is_paren r)
      (λ lone. flush-IsToken cur _ h (inr lone, tokenize_from-IsToken [] expr tt))
      (λ other.
        on_if (All IsToken) (is_gap r)
          (λ gap. flush-IsToken cur _ h (tokenize_from-IsToken [] expr tt))
          (λ word. tokenize_from-IsToken (cur ++ r ∷ []) expr (All-snoc cur r h (other, word))))

-- Every token that tokenizeSPDX makes is a lone parenthesis or a non-empty run of characters that
-- are neither parentheses nor white space.
tokenize_spdx-IsToken : (expr : Text) → All IsToken (tokenize_spdx expr)
unfolding tokenize_spdx
tokenize_spdx-IsToken expr = tokenize_from-IsToken [] expr tt

-- The tokens with a space behind each.
abbrev pub spell : List Text → Text
spell [] = []
spell (t ∷ ts) = t ++ 32 ∷ spell ts

read_word :
    (cur s rest : Text)
    → All IsWordChar s
    → tokenize_from cur (s ++ rest) ≡ tokenize_from (cur ++ s) rest
unfolding tokenize_from
read_word cur [] rest h = rw append-nil
read_word cur (c ∷ s) rest h =
    rw (h.0.0, h.0.1) (read_word (cur ++ c ∷ []) s rest h.1 ∙ rw append_assoc)

spell_word :
    (c : ℕ) (s : Text) (ts : List Text)
    → IsWordChar c × All IsWordChar s
    → tokenize_from [] ((c ∷ s) ++ 32 ∷ spell ts) ≡ (c ∷ s) ∷ tokenize_from [] (spell ts)
spell_word c s ts h = read_word [] (c ∷ s) (32 ∷ spell ts) h ∙ unfold tokenize_from flush in refl

-- Words that are tokens, written out with a space behind each, are cut by tokenizeSPDX into just
-- those words.
pub tokenize_spdx-spell : (ts : List Text) → All IsToken ts → tokenize_spdx (spell ts) ≡ ts
unfolding tokenize_spdx tokenize_from flush
tokenize_spdx-spell [] h = refl
tokenize_spdx-spell ((c ∷ s) ∷ ts) (inl word, h) =
    spell_word c s ts word ∙ ap (λ l. (c ∷ s) ∷ l) (tokenize_spdx-spell ts h)
tokenize_spdx-spell ((c ∷ []) ∷ ts) (inr paren, h) =
    rw paren (ap (λ l. (c ∷ []) ∷ l) (tokenize_spdx-spell ts h))
tokenize_spdx-spell ([] ∷ ts) (inl word, h) = absurd word
tokenize_spdx-spell ([] ∷ ts) (inr paren, h) = absurd paren
tokenize_spdx-spell ((c ∷ d ∷ s) ∷ ts) (inr paren, h) = absurd paren
