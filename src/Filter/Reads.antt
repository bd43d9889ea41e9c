-- ===== src/Filter/Reads.antt =====
-- crates/tryke_types/src/filter.rs: what the grammar derives, the parser accepts with that tree.
use tryke.Prelude.{
  ℕ, zero, suc, ◌-◌, ◌≤◌, ◌<◌, ◌≡◌, ◌≢◌, ◌↔◌, refl, ◌∙◌, ap, Bool, true, not, [], ◌∷◌, ◌++◌,
  append_assoc, append-nil, Text, ◌==◌, ==_refl, length, length-append, arith,
}
use tryke.Filter.Syntax.{
  FilterExpr, disj, conj, Token, rparen, kw_and, kw_or, token_eq, Tokens, ok, out_of_fuel, ◌>>=◌,
  Yields-ok, Yields-out_of_fuel,
}
use tryke.Filter.Lexer.{tokenize}
use tryke.Filter.Parser.{
  Parser, Parsed, operands, chain, parse_or, close, parse_not, finish, parse_tokens, parse,
}
use tryke.Filter.Grammar.{
  IsOr, or_one, or_more, IsAnd, and_one, and_more, IsNot, not_more, word, parens,
}
use tryke.Filter.Sound.{parse_tokens-Yields}

-- The loop of `op` ends at such input.
abbrev stops : Token → Tokens → Bool
stops op [] = true
stops op (t ∷ ts) = not (t == op)

module _ (op : Token) (join_by : FilterExpr → FilterExpr → FilterExpr) (p : Parser) where
  operands_stop :
      (k : ℕ) (e : FilterExpr) (rest : Tokens)
      → stops op rest ≡ true
      → operands op join_by p k e rest ≡ ok (e, rest)
  unfolding operands
  operands_stop k e [] h = refl
  operands_stop zero e (t ∷ ts) h = ground arith
  operands_stop (suc k) e (t ∷ ts) h = ground arith

  operands_step :
      (k j : ℕ) (l : FilterExpr) (ts : Tokens)
      → k ≡ suc j
      → operands op join_by p k l (op ∷ ts)
        ≡ (p ts >>= λ (r, rest). operands op join_by p j (join_by l r) rest)
  unfolding operands
  operands_step k j l ts e = rw e (rw (==_refl op))

  -- An operand, and the loop with `k` rounds to go.
  abbrev run : ℕ → Tokens → Parsed
  run k ts = p ts >>= λ (l, rest). operands op join_by p k l rest

  -- The run on `used ++ rest` has come to `rest`, with `e` read and rounds enough to go on.
  abbrev Reaches : FilterExpr → Tokens → Tokens → ℕ → Type 0
  Reaches e used rest k =
      (k' : ℕ) × (length rest ≤ k') × (run k (used ++ rest) ≡ operands op join_by p k' e rest)

  Reaches-more :
      (l r : FilterExpr) (ls rs rest : Tokens) (k : ℕ)
      → Reaches l ls (op ∷ (rs ++ rest)) k
      → p (rs ++ rest) ≡ ok (r, rest)
      → Reaches (join_by l r) (ls ++ op ∷ rs) rest k
  Reaches-more l r ls rs rest k (k', enough, e) h = (
    k' - 1,
    omega (arith, length-append {0} rs rest),
    rw append_assoc (e ∙ (operands_step k' (k' - 1) l (rs ++ rest) (omega (arith, enough)) ∙ rw h)),
  )

  chain-Reaches :
      (e : FilterExpr) (used rest : Tokens)
      → stops op rest ≡ true
      → Reaches e used rest (length (used ++ rest))
      → chain op join_by p (used ++ rest) ≡ ok (e, rest)
  unfolding chain
  chain-Reaches e used rest h (k, enough, eq) = eq ∙ operands_stop k e rest h

spread :
    (op : Token) (ls rs rest : Tokens)
    → length ((ls ++ op ∷ rs) ++ rest) ≡ length (ls ++ op ∷ (rs ++ rest))
spread op ls rs rest = ap length (append_assoc ls (op ∷ rs) rest)

mutual
  unfolding parse_not parse_or close

  IsNot-reads :
      {e : FilterExpr} {ts : Tokens}
      → IsNot e ts
      → (f : ℕ) (rest : Tokens) → length ts < f
      → parse_not f (ts ++ rest) ≡ ok (e, rest)
  IsNot-reads d zero rest h = absurd (omega arith)
  IsNot-reads (not_more {es = es} d eq) (suc f) rest h =
      rw eq (rw (IsNot-reads d f rest (omega (arith, ap length eq))))
  IsNot-reads (word eq) (suc f) rest h = rw eq
  IsNot-reads (parens {e = e} {es = es} d eq) (suc f) rest h =
      rw (eq, append_assoc)
        (rw (
          chain-Reaches kw_or disj (chain kw_and conj (parse_not f)) e es (rparen ∷ rest) refl (
            IsOr-reads d f (rparen ∷ rest) _ refl
              (omega (arith, ap length eq, length-append {0} es (rparen ∷ []))) (omega arith))))

  IsAnd-reads :
      {e : FilterExpr} {ts : Tokens}
      → IsAnd e ts
      → (f : ℕ) (rest : Tokens) (k : ℕ) → length ts < f
      → length (ts ++ rest) ≤ k
      → Reaches kw_and conj (parse_not f) e ts rest k
  IsAnd-reads (and_one {ts = ts} d) f rest k hf hk =
      (k, omega (arith, length-append {0} ts rest), rw (IsNot-reads d f rest hf))
  IsAnd-reads (and_more {l = l} {r = r} {ls = ls} {rs = rs} dl dr eq) f rest k hf hk = rw eq (
      Reaches-more kw_and conj (parse_not f) l r ls rs rest k
        (IsAnd-reads dl f (kw_and ∷ (rs ++ rest)) k
          (omega (arith, ap length eq, length-append {0} ls (kw_and ∷ rs)))
          (omega (arith, spread kw_and ls rs rest, ap (λ l. length (l ++ rest)) eq)))
        (IsNot-reads dr f rest (omega (arith, ap length eq, length-append {0} ls (kw_and ∷ rs)))))

  IsOr-reads :
      {e : FilterExpr} {ts : Tokens}
      → IsOr e ts
      → (f : ℕ) (rest : Tokens) (k : ℕ) → stops kw_and rest ≡ true
      → length ts < f
      → length (ts ++ rest) ≤ k
      → Reaches kw_or disj (chain kw_and conj (parse_not f)) e ts rest k
  IsOr-reads (or_one {e = e} {ts = ts} d) f rest k stop hf hk = (
    k,
    omega (arith, length-append {0} ts rest),
    rw (
        chain-Reaches kw_and conj (parse_not f) e ts rest stop
          (IsAnd-reads d f rest _ hf (omega arith))),
  )
  IsOr-reads (or_more {l = l} {r = r} {ls = ls} {rs = rs} dl dr eq) f rest k stop hf hk = rw eq (
      Reaches-more kw_or disj (chain kw_and conj (parse_not f)) l r ls rs rest k
        (IsOr-reads dl f (kw_or ∷ (rs ++ rest)) k refl
          (omega (arith, ap length eq, length-append {0} ls (kw_or ∷ rs)))
          (omega (arith, spread kw_or ls rs rest, ap (λ l. length (l ++ rest)) eq)))
        (chain-Reaches kw_and conj (parse_not f) r rs rest stop (
          IsAnd-reads dr f rest _ (omega (arith, ap length eq, length-append {0} ls (kw_or ∷ rs)))
            (omega arith))))

mutual
  IsNot-length : {e : FilterExpr} {ts : Tokens} → IsNot e ts → 0 < length ts
  IsNot-length (not_more d eq) = omega (arith, ap length eq)
  IsNot-length (word eq) = omega (arith, ap length eq)
  IsNot-length (parens d eq) = omega (arith, ap length eq)

  IsAnd-length : {e : FilterExpr} {ts : Tokens} → IsAnd e ts → 0 < length ts
  IsAnd-length (and_one d) = IsNot-length d
  IsAnd-length (and_more {ls = ls} {rs = rs} dl dr eq) =
      omega (arith, ap length eq, length-append {0} ls (kw_and ∷ rs))

  IsOr-length : {e : FilterExpr} {ts : Tokens} → IsOr e ts → 0 < length ts
  IsOr-length (or_one d) = IsAnd-length d
  IsOr-length (or_more {ls = ls} {rs = rs} dl dr eq) =
      omega (arith, ap length eq, length-append {0} ls (kw_or ∷ rs))

IsOr→ok : (ts : Tokens) (e : FilterExpr) → IsOr e ts → parse_tokens ts ≡ ok e
unfolding parse_tokens finish parse_or
IsOr→ok [] e d = let some_token : 0 < 0 = IsOr-length d in absurd (omega arith)
IsOr→ok (t ∷ ts) e d =
    let n = suc (length (t ∷ ts)) in
    let whole =
      chain-Reaches kw_or disj (chain kw_and conj (parse_not n)) e (t ∷ ts) [] refl
        (IsOr-reads d n [] (length ((t ∷ ts) ++ [])) refl (omega arith) (omega arith)) in
    rw (rw append-nil at whole)

-- The parser accepts a token list with a tree exactly when the grammar derives that tree from it.
pub parse_tokens-eq-ok_iff : (ts : Tokens) (e : FilterExpr) → (parse_tokens ts ≡ ok e) ↔ IsOr e ts
parse_tokens-eq-ok_iff ts e = (Yields-ok (parse_tokens-Yields ts), IsOr→ok ts e)

-- `FilterExpr::parse` accepts an input with a tree exactly when the grammar derives that tree from
-- its tokens, and it ends on every input.
pub parse-eq-ok_iff :
    (input : Text)
    → ((e : FilterExpr) → (parse input ≡ ok e) ↔ IsOr e (tokenize input))
      × (parse input ≢ out_of_fuel)
unfolding parse
parse-eq-ok_iff input = (
  parse_tokens-eq-ok_iff (tokenize input),
  Yields-out_of_fuel (parse_tokens-Yields (tokenize input)),
)

-- The grammar gives no tokens two trees.
pub IsOr-unique : (ts : Tokens) (d e : FilterExpr) → IsOr d ts → IsOr e ts → d ≡ e
IsOr-unique ts d e hd he = cc (IsOr→ok ts d hd, IsOr→ok ts e he)
