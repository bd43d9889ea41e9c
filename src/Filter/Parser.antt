-- ===== src/Filter/Parser.antt =====
-- crates/tryke_types/src/filter.rs: the parser. The state is the list of the tokens from `pos` on.
use tryke.Prelude.{
  ℕ, zero, suc, ◌-◌, ◌≡◌, refl, [], ◌∷◌, ◌++◌, Text, codes, decimal, ◌==◌, if◌then◌else◌, length,
}
use tryke.Filter.Syntax.{
  FilterExpr, substring, conj, disj, neg, Token, ident, lparen, rparen, kw_and, kw_or, kw_not,
  token_eq, Tokens, parse_error, Result, ok, err, out_of_fuel, ◌>>=◌,
}
use tryke.Filter.Lexer.{tokenize}

abbrev pub Parsed : Type 0
Parsed = Result (FilterExpr × Tokens)

abbrev pub Parser : Type 0
Parser = Tokens → Parsed

module _ (op : Token) (join_by : FilterExpr → FilterExpr → FilterExpr)
    (parse_operand : Parser) where
  -- `while self.peek() == Some(op)`: each round takes the operator at least.
  unfoldable pub operands : ℕ → FilterExpr → Parser
  operands n left [] = ok (left, [])
  operands zero left (t ∷ ts) = if t == op then out_of_fuel else ok (left, t ∷ ts)
  operands (suc n) left (t ∷ ts) =
      let more = parse_operand ts >>= λ (right, rest). operands n (join_by left right) rest in
      if t == op then more else ok (left, t ∷ ts)

  -- An operand, and the loop; the fuel of the loop is the number of tokens there are.
  unfoldable pub chain : Parser
  unfolding operands
  chain ts = parse_operand ts >>= λ (left, rest). operands (length ts) left rest

unfoldable pub parse_or : Parser → Parser
unfolding chain
parse_or parse_not = chain kw_or disj (chain kw_and conj parse_not)

unexpected : Text → Parsed
unexpected name = err (parse_error (codes "unexpected token: " ++ name))

-- What `parse_atom` does after the expression in parentheses.
unfoldable pub close : FilterExpr × Tokens → Parsed
close (e, rparen ∷ rest) = ok (e, rest)
close (e, _) = err (parse_error (codes "expected closing ')'"))

abbrev pub negate : FilterExpr × Tokens → Parsed
negate (e, rest) = ok (neg e, rest)

-- `parse_not`, with `parse_atom` as its last clauses: the tokens that begin no atom are refused
-- with their debug form. A unit of fuel for each nested call.
unfoldable pub parse_not : ℕ → Parser
unfolding parse_or unexpected close
parse_not zero ts = out_of_fuel
parse_not (suc f) (kw_not ∷ ts) = parse_not f ts >>= negate
parse_not (suc f) (lparen ∷ ts) = parse_or (parse_not f) ts >>= close
parse_not (suc f) (ident s ∷ ts) = ok (substring s, ts)
parse_not (suc f) (rparen ∷ ts) = unexpected (codes "RParen")
parse_not (suc f) (kw_and ∷ ts) = unexpected (codes "And")
parse_not (suc f) (kw_or ∷ ts) = unexpected (codes "Or")
parse_not (suc f) [] = err (parse_error (codes "unexpected end of expression"))

-- The check of `FilterExpr::parse` that all tokens were read; `pos` is how many were.
unfoldable pub finish : Tokens → FilterExpr × Tokens → Result FilterExpr
finish ts (e, []) = ok e
finish ts (e, t ∷ rest) =
    err (
      parse_error
        (codes "unexpected token at position " ++ decimal (length ts - length (t ∷ rest))))

unfoldable pub parse_tokens : Tokens → Result FilterExpr
unfolding parse_not finish
parse_tokens [] = err (parse_error (codes "empty expression"))
parse_tokens (t ∷ ts) = parse_or (parse_not (suc (length (t ∷ ts)))) (t ∷ ts) >>= finish (t ∷ ts)

-- `FilterExpr::parse`.
unfoldable pub parse : Text → Result FilterExpr
unfolding tokenize parse_tokens
parse input = parse_tokens (tokenize input)

parse_runs :
    parse (codes "not a or b and c and d")
    ≡ ok (
        disj
          (neg (substring (codes "a")))
          (conj (conj (substring (codes "b")) (substring (codes "c"))) (substring (codes "d"))))
unfolding parse
parse_runs = refl

parse_stops : parse (codes "a b") ≡ err (parse_error (codes "unexpected token at position 1"))
unfolding parse decimal
parse_stops = refl
