-- ===== src/Filter/Print.antt =====
-- crates/tryke_types/src/filter.rs: a printer for filter expressions, with parentheses only where
-- the grammar needs them. The source has none: it describes what the lexer and the parser undo.
use tryke.Prelude.{◌≡◌, refl, [], ◌∷◌, ◌++◌, list_eq, nat_eq, All, All-append}
use tryke.Filter.Syntax.{
  FilterExpr, substring, conj, disj, neg, Token, ident, lparen, rparen, kw_and, kw_or, kw_not,
  token_eq, Tokens, ok,
}
use tryke.Filter.Parser.{parse}
use tryke.Filter.Grammar.{
  IsOr, or_one, or_more, IsAnd, and_one, and_more, IsNot, not_more, word, parens,
}
use tryke.Filter.Reads.{parse-eq-ok_iff}
use tryke.Filter.Spelling.{render, IsSpelt, tokenize-render}

-- Where an expression stands: as a whole, as an operand of `or`, or as one of `and` or `not`.
pub data Place : Type 0 where
  whole of_or of_and : Place

abbrev bracket : Tokens → Tokens
bracket ts = lparen ∷ (ts ++ rparen ∷ [])

unfoldable pub print : Place → FilterExpr → Tokens
print place (substring s) = ident s ∷ []
print place (neg e) = kw_not ∷ print of_and e
print of_and (conj l r) = bracket (print of_or l ++ kw_and ∷ print of_and r)
print place (conj l r) = print of_or l ++ kw_and ∷ print of_and r
print whole (disj l r) = print whole l ++ kw_or ∷ print of_or r
print place (disj l r) = bracket (print whole l ++ kw_or ∷ print of_or r)

abbrev IsAt : Place → FilterExpr → Tokens → Type 0
IsAt whole = IsOr
IsAt of_or = IsAnd
IsAt of_and = IsNot

from_not : (place : Place) {e : FilterExpr} {ts : Tokens} → IsNot e ts → IsAt place e ts
from_not whole d = or_one (and_one d)
from_not of_or d = and_one d
from_not of_and d = d

-- What is printed is in the grammar, with the tree that was printed.
pub print-IsAt : (place : Place) (e : FilterExpr) → IsAt place e (print place e)
unfolding print
print-IsAt place (substring s) = from_not place (word refl)
print-IsAt place (neg e) = from_not place (not_more (print-IsAt of_and e) refl)
print-IsAt of_and (conj l r) =
    parens (or_one (and_more (print-IsAt of_or l) (print-IsAt of_and r) refl)) refl
print-IsAt of_or (conj l r) = and_more (print-IsAt of_or l) (print-IsAt of_and r) refl
print-IsAt whole (conj l r) = or_one (and_more (print-IsAt of_or l) (print-IsAt of_and r) refl)
print-IsAt whole (disj l r) = or_more (print-IsAt whole l) (print-IsAt of_or r) refl
print-IsAt of_or (disj l r) =
    and_one (parens (or_more (print-IsAt whole l) (print-IsAt of_or r) refl) refl)
print-IsAt of_and (disj l r) = parens (or_more (print-IsAt whole l) (print-IsAt of_or r) refl) refl

-- The words of an expression.
abbrev pub HasSpeltWords : FilterExpr → Type 0
HasSpeltWords (substring s) = IsSpelt (ident s)
HasSpeltWords (neg e) = HasSpeltWords e
HasSpeltWords (conj l r) = HasSpeltWords l × HasSpeltWords r
HasSpeltWords (disj l r) = HasSpeltWords l × HasSpeltWords r

All-bracket : (ts : Tokens) → All IsSpelt ts → All IsSpelt (bracket ts)
All-bracket ts h = (tt, All-append IsSpelt ts (rparen ∷ []) h (tt, tt))

All-operator :
    (op : Token) (ls rs : Tokens)
    → IsSpelt op
    → All IsSpelt ls
    → All IsSpelt rs
    → All IsSpelt (ls ++ op ∷ rs)
All-operator op ls rs h hl hr = All-append IsSpelt ls (op ∷ rs) hl (h, hr)

print-IsSpelt : (place : Place) (e : FilterExpr) → HasSpeltWords e → All IsSpelt (print place e)
unfolding print
print-IsSpelt place (substring s) h = (h, tt)
print-IsSpelt place (neg e) h = (tt, print-IsSpelt of_and e h)
print-IsSpelt of_and (conj l r) h = All-bracket (print of_or l ++ kw_and ∷ print of_and r) (
    All-operator kw_and (print of_or l) (print of_and r) tt (print-IsSpelt of_or l h.0)
      (print-IsSpelt of_and r h.1))
print-IsSpelt whole (conj l r) h =
    All-operator kw_and (print of_or l) (print of_and r) tt (print-IsSpelt of_or l h.0)
      (print-IsSpelt of_and r h.1)
print-IsSpelt of_or (conj l r) h =
    All-operator kw_and (print of_or l) (print of_and r) tt (print-IsSpelt of_or l h.0)
      (print-IsSpelt of_and r h.1)
print-IsSpelt whole (disj l r) h =
    All-operator kw_or (print whole l) (print of_or r) tt (print-IsSpelt whole l h.0)
      (print-IsSpelt of_or r h.1)
print-IsSpelt of_or (disj l r) h = All-bracket (print whole l ++ kw_or ∷ print of_or r) (
    All-operator kw_or (print whole l) (print of_or r) tt (print-IsSpelt whole l h.0)
      (print-IsSpelt of_or r h.1))
print-IsSpelt of_and (disj l r) h = All-bracket (print whole l ++ kw_or ∷ print of_or r) (
    All-operator kw_or (print whole l) (print of_or r) tt (print-IsSpelt whole l h.0)
      (print-IsSpelt of_or r h.1))

-- A printed expression parses back to itself, from its text, where the lexer reads each of its
-- words as one word that is no keyword: the parentheses that precedence and grouping to the left
-- make needless may be left out.
pub parse-render-print : (e : FilterExpr) → HasSpeltWords e → parse (render (print whole e)) ≡ ok e
parse-render-print e h =
    ((parse-eq-ok_iff (render (print whole e))).0 e).1
      (rw (tokenize-render (print whole e) (print-IsSpelt whole e h)) (print-IsAt whole e))
