-- ===== src/Filter/Spelling.antt =====
-- crates/tryke_types/src/filter.rs: tokens spelt out, which is what the lexer undoes. The source
-- spells no tokens.
use tryke.Prelude.{
  ℕ, zero, suc, ◌≤◌, ◌≡◌, ◌≢◌, refl, ap, false, [], ◌∷◌, ◌++◌, Text, codes, ◌==◌, list_eq, nat_eq,
  length, length-append, All, arith,
}
use tryke.Filter.Syntax.{Token, ident, lparen, rparen, kw_and, kw_or, kw_not, token_eq, Tokens}
use tryke.Filter.Lexer.{
  is_blank, is_delimiter, take_word, drop_word, word_token, tokens_from, tokenize,
}

unfoldable pub spell : Token → Text
spell (ident s) = s
spell lparen = codes "("
spell rparen = codes ")"
spell kw_and = codes "and"
spell kw_or = codes "or"
spell kw_not = codes "not"

-- The tokens' spellings, a space behind each.
unfoldable pub render : Tokens → Text
unfolding spell
render [] = []
render (t ∷ ts) = spell t ++ 32 ∷ render ts

abbrev pub IsBareWord : Text → Type 0
IsBareWord s = All (λ c. is_delimiter c ≡ false) s

-- A word that the lexer reads as this identifier.
abbrev pub IsSpelt : Token → Type 0
IsSpelt (ident s) = (s ≢ []) × IsBareWord s × (word_token s ≡ ident s)
IsSpelt _ = Unit

take_word-append : (s rest : Text) → IsBareWord s → take_word (s ++ 32 ∷ rest) ≡ s
unfolding take_word
take_word-append [] rest h = unfold is_delimiter is_blank in refl
take_word-append (c ∷ s) rest h = rw (h.0, take_word-append s rest h.1)

drop_word-append : (s rest : Text) → IsBareWord s → drop_word (s ++ 32 ∷ rest) ≡ 32 ∷ rest
unfolding drop_word
drop_word-append [] rest h = unfold is_delimiter is_blank in refl
drop_word-append (c ∷ s) rest h = rw (h.0, drop_word-append s rest h.1)

tokens_from-blank : (f : ℕ) (rest : Text) → tokens_from (suc f) (32 ∷ rest) ≡ tokens_from f rest
unfolding tokens_from is_blank
tokens_from-blank f rest = refl

not_delimiter :
    (c : ℕ)
    → is_delimiter c ≡ false
    → (is_blank c ≡ false) × (((c == b'(') ≡ false) × ((c == b')') ≡ false))
unfolding is_delimiter
not_delimiter c h = ground arith

tokens_from-word :
    (f c : ℕ) (w rest : Text)
    → IsBareWord (c ∷ w)
    → tokens_from (suc (suc f)) ((c ∷ w) ++ 32 ∷ rest) ≡ word_token (c ∷ w) ∷ tokens_from f rest
unfolding tokens_from
tokens_from-word f c w rest h =
    let (blank, (open_paren, close_paren)) = not_delimiter c h.0 in
    rw
      (
        blank,
        open_paren,
        close_paren,
        take_word-append (c ∷ w) rest h,
        drop_word-append (c ∷ w) rest h,
      )
      (ap (λ l. word_token (c ∷ w) ∷ l) (tokens_from-blank f rest))

tokens_from-paren :
    (f : ℕ) (rest : Text)
    → (tokens_from (suc (suc f)) (b'(' ∷ 32 ∷ rest) ≡ lparen ∷ tokens_from f rest)
      × (tokens_from (suc (suc f)) (b')' ∷ 32 ∷ rest) ≡ rparen ∷ tokens_from f rest)
unfolding tokens_from is_blank
tokens_from-paren f rest = (refl, refl)

-- The words of the source's keywords.
keyword-IsBareWord : IsBareWord (codes "and") × IsBareWord (codes "or") × IsBareWord (codes "not")
unfolding is_delimiter is_blank
keyword-IsBareWord = ground arith

abbrev Lexes : Tokens → Type 0
Lexes ts = (f : ℕ) → length (render ts) ≤ f → tokens_from f (render ts) ≡ ts

-- One token and its space, in front of text that lexes.
lex_word :
    (w : Text) (t : Token) (ts : Tokens)
    → w ≢ []
    → IsBareWord w
    → word_token w ≡ t
    → Lexes ts
    → (f : ℕ) → length (w ++ 32 ∷ render ts) ≤ f
    → tokens_from f (w ++ 32 ∷ render ts) ≡ t ∷ ts
lex_word [] t ts some_char bare e ih f h = absurd (some_char refl)
lex_word (c ∷ w) t ts some_char bare e ih zero h = absurd (omega arith)
lex_word (c ∷ w) t ts some_char bare e ih (suc zero) h =
    absurd (omega (arith, length-append {0} w (32 ∷ render ts)))
lex_word (c ∷ w) t ts some_char bare e ih (suc (suc f)) h = rw (
  tokens_from-word f c w (render ts) bare,
  e,
  ih f (omega (arith, length-append {0} w (32 ∷ render ts))),
)

lex_paren :
    (c : ℕ) (t : Token) (ts : Tokens)
    → ((f : ℕ) → tokens_from (suc (suc f)) (c ∷ 32 ∷ render ts) ≡ t ∷ tokens_from f (render ts))
    → Lexes ts
    → (f : ℕ) → length (c ∷ 32 ∷ render ts) ≤ f
    → tokens_from f (c ∷ 32 ∷ render ts) ≡ t ∷ ts
lex_paren c t ts e ih zero h = absurd (omega arith)
lex_paren c t ts e ih (suc zero) h = absurd (omega arith)
lex_paren c t ts e ih (suc (suc f)) h = rw (e f, ih f (omega arith))

lex_nothing : Lexes []
unfolding tokens_from render
lex_nothing zero h = refl
lex_nothing (suc f) h = refl

render-Lexes : (ts : Tokens) → All IsSpelt ts → Lexes ts
unfolding render spell word_token
render-Lexes [] h = lex_nothing
render-Lexes (ident s ∷ ts) h = lex_word s (ident s) ts h.0.0 h.0.1 h.0.2 (render-Lexes ts h.1)
render-Lexes (lparen ∷ ts) h =
    lex_paren b'(' lparen ts (λ f. (tokens_from-paren f (render ts)).0) (render-Lexes ts h.1)
render-Lexes (rparen ∷ ts) h =
    lex_paren b')' rparen ts (λ f. (tokens_from-paren f (render ts)).1) (render-Lexes ts h.1)
render-Lexes (kw_and ∷ ts) h =
    lex_word (codes "and") kw_and ts (cc) keyword-IsBareWord.0 refl (render-Lexes ts h.1)
render-Lexes (kw_or ∷ ts) h =
    lex_word (codes "or") kw_or ts (cc) keyword-IsBareWord.1 refl (render-Lexes ts h.1)
render-Lexes (kw_not ∷ ts) h =
    lex_word (codes "not") kw_not ts (cc) keyword-IsBareWord.2 refl (render-Lexes ts h.1)

-- The lexer reads tokens that are spelt out, with a space behind each, back as they were, where
-- each word among them is not empty, has no delimiter and is no keyword.
pub tokenize-render : (ts : Tokens) → All IsSpelt ts → tokenize (render ts) ≡ ts
unfolding tokenize
tokenize-render ts h = render-Lexes ts h (length (render ts)) (omega arith)
