-- ===== src/Filter/Lexer.antt =====
-- crates/tryke_types/src/filter.rs: `tokenize`.
use tryke.Prelude.{
  ℕ, zero, suc, ◌≡◌, Bool, ◌||◌, [], ◌∷◌, Text, codes, ◌==◌, nat_eq, list_eq, if◌then◌else◌, length,
  refl,
}
use tryke.Filter.Syntax.{Token, ident, lparen, rparen, kw_and, kw_or, kw_not, Tokens}

unfoldable pub is_blank : ℕ → Bool
is_blank c = c == 32 || c == 9

-- Where the inner loop stops.
unfoldable pub is_delimiter : ℕ → Bool
unfolding is_blank
is_delimiter c = is_blank c || (c == b'(' || c == b')')

-- The inner loop: the word at the front of the input, and what follows it.
unfoldable pub take_word : Text → Text
unfolding is_delimiter
take_word [] = []
take_word (c ∷ s) = if is_delimiter c then [] else c ∷ take_word s

unfoldable pub drop_word : Text → Text
unfolding is_delimiter
drop_word [] = []
drop_word (c ∷ s) = if is_delimiter c then c ∷ s else drop_word s

unfoldable pub word_token : Text → Token
word_token word =
    if word == codes "and"
    then kw_and
    else if word == codes "or"
    then kw_or
    else if word == codes "not"
    then kw_not
    else ident word

-- The outer loop, with fuel: each round takes at least one character.
unfoldable pub tokens_from : ℕ → Text → Tokens
tokens_from zero s = []
tokens_from (suc f) [] = []
tokens_from (suc f) (c ∷ s) =
    let next = tokens_from f s in
    let after_word = word_token (take_word (c ∷ s)) ∷ tokens_from f (drop_word (c ∷ s)) in
    if is_blank c
    then next
    else if c == b'('
    then lparen ∷ next
    else if c == b')'
    then rparen ∷ next
    else after_word

unfoldable pub tokenize : Text → Tokens
unfolding tokens_from take_word drop_word word_token is_blank
tokenize s = tokens_from (length s) s

tokenize_runs :
    tokenize (codes "(add or\tsub)and not slow")
    ≡ lparen
      ∷ ident (codes "add")
      ∷ kw_or
      ∷ ident (codes "sub")
      ∷ rparen
      ∷ kw_and
      ∷ kw_not
      ∷ ident (codes "slow")
      ∷ []
unfolding tokenize
tokenize_runs = refl
