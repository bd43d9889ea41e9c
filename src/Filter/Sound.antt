-- ===== src/Filter/Sound.antt =====
-- crates/tryke_types/src/filter.rs: what the parser accepts is in the grammar, and its fuel
-- suffices for every input.
use tryke.Prelude.{
  ℕ, zero, suc, ◌≤◌, ◌<◌, ◌≡◌, refl, sym, ◌∙◌, subst, ap, inl, inr, [], ◌∷◌, ◌++◌, append_assoc,
  append-nil, ==-cases, ==_refl, length, length-append, arith,
}
use tryke.Filter.Syntax.{
  FilterExpr, disj, conj, Token, ident, lparen, rparen, kw_and, kw_or, kw_not, token_eq, Tokens,
  Yields, value, refusal, Yields->>=,
}
use tryke.Filter.Parser.{Parser, operands, chain, parse_or, close, parse_not, finish, parse_tokens}
use tryke.Filter.Grammar.{
  IsOr, or_one, or_more, IsAnd, and_one, and_more, IsNot, not_more, word, parens,
}

-- The parser took tokens that `G` derives, and left the rest.
abbrev Took : (FilterExpr → Tokens → Type 0) → Tokens → FilterExpr × Tokens → Type 0
Took G ts (e, rest) = (used : Tokens) × G e used × (ts ≡ used ++ rest)

-- On inputs of at most `n` tokens.
abbrev IsSound : (FilterExpr → Tokens → Type 0) → ℕ → Parser → Type 0
IsSound G n p = (ts : Tokens) → length ts ≤ n → Yields (Took G ts) (p ts)

shorter : (used rest : Tokens) {ts : Tokens} → ts ≡ used ++ rest → length rest ≤ length ts
shorter used rest e = omega (arith, ap length e, length-append {0} used rest)

module _ (op : Token) (join_by : FilterExpr → FilterExpr → FilterExpr)
    (Operand Chain : FilterExpr → Tokens → Type 0)
    (one : (e : FilterExpr) (ts : Tokens) → Operand e ts → Chain e ts)
    (more : (l r : FilterExpr) (ls rs ts : Tokens)
      → Chain l ls
      → Operand r rs
      → ts ≡ ls ++ op ∷ rs
      → Chain (join_by l r) ts)
    (p : Parser) (n : ℕ) (sound : IsSound Operand n p) where
  operands-IsSound :
      (k : ℕ) (left : FilterExpr) (used ts : Tokens)
      → length ts ≤ k
      → length ts ≤ n
      → Chain left used
      → Yields (Took Chain (used ++ ts)) (operands op join_by p k left ts)
  unfolding operands
  operands-IsSound k left used [] hk hn d = value (used, d, refl)
  operands-IsSound zero left used (t ∷ ts) hk hn d = absurd (omega arith)
  operands-IsSound (suc k) left used (t ∷ ts) hk hn d = elim (==-cases t op) [
    | inl h ↦
        rw (h, ==_refl op)
          (Yields->>= (sound ts (omega arith)) λ (right, rest) (taken, d', e).
            let whole = ap (λ l. used ++ op ∷ l) e ∙ sym (append_assoc used (op ∷ taken) rest) in
            rw whole (
              operands-IsSound k (join_by left right) (used ++ op ∷ taken) rest
                (omega (arith, shorter taken rest e)) (omega (arith, shorter taken rest e))
                (more left right used taken _ d d' refl)))
    | inr h ↦ rw h (value (used, d, refl))
  ]

  chain-IsSound : IsSound Chain n (chain op join_by p)
  unfolding chain
  chain-IsSound ts hn = Yields->>= (sound ts hn) λ (left, rest) (used, d, e). rw e (
      operands-IsSound (length (used ++ rest)) left used rest
        (omega (arith, length-append {0} used rest)) (omega (arith, shorter used rest e))
        (one left used d))

parse_or-IsSound : (p : Parser) (n : ℕ) → IsSound IsNot n p → IsSound IsOr n (parse_or p)
unfolding parse_or
parse_or-IsSound p n sound =
    chain-IsSound kw_or disj IsAnd IsOr (λ e ts. or_one) (λ l r ls rs ts. or_more) _ n
      (chain-IsSound kw_and conj IsNot IsAnd (λ e ts. and_one) (λ l r ls rs ts. and_more) p n sound)

close-Took :
    (ts : Tokens) (r : FilterExpr × Tokens)
    → Took IsOr ts r
    → Yields (Took IsNot (lparen ∷ ts)) (close r)
unfolding close
close-Took ts (e, []) h = refusal
close-Took ts (e, rparen ∷ rest) (used, d, eq) = value (
  lparen ∷ (used ++ rparen ∷ []),
  parens d refl,
  ap (λ l. lparen ∷ l) (eq ∙ sym (append_assoc used (rparen ∷ []) rest)),
)
close-Took ts (e, ident s ∷ rest) h = refusal
close-Took ts (e, _ ∷ rest) h = refusal

parse_not-IsSound : (f n : ℕ) → n < f → IsSound IsNot n (parse_not f)
unfolding parse_not
parse_not-IsSound zero n h ts hn = absurd (omega arith)
parse_not-IsSound (suc f) n h [] hn = refusal
parse_not-IsSound (suc f) n h (kw_not ∷ ts) hn =
    Yields->>= (parse_not-IsSound f (length ts) (omega arith) ts (omega arith))
      λ (e, rest) (used, d, eq). value (kw_not ∷ used, not_more d refl, ap (λ l. kw_not ∷ l) eq)
parse_not-IsSound (suc f) n h (lparen ∷ ts) hn =
    Yields->>=
      (parse_or-IsSound (parse_not f) (length ts) (parse_not-IsSound f (length ts) (omega arith)) ts
        (omega arith))
      (close-Took ts)
parse_not-IsSound (suc f) n h (ident s ∷ ts) hn = value (ident s ∷ [], word refl, refl)
parse_not-IsSound (suc f) n h (rparen ∷ ts) hn = refusal
parse_not-IsSound (suc f) n h (kw_and ∷ ts) hn = refusal
parse_not-IsSound (suc f) n h (kw_or ∷ ts) hn = refusal

finish-Yields :
    (ts : Tokens) (r : FilterExpr × Tokens) → Took IsOr ts r → Yields (λ e. IsOr e ts) (finish ts r)
unfolding finish
finish-Yields ts (e, []) (used, d, eq) = value (subst (IsOr e) (sym (eq ∙ append-nil used)) d)
finish-Yields ts (e, t ∷ rest) h = refusal

-- Every run of the parser ends within its fuel, in an error or in a tree that the grammar derives
-- from all the tokens.
pub parse_tokens-Yields : (ts : Tokens) → Yields (λ e. IsOr e ts) (parse_tokens ts)
unfolding parse_tokens
parse_tokens-Yields [] = refusal
parse_tokens-Yields (t ∷ ts) =
    Yields->>=
      (parse_or-IsSound _ (length (t ∷ ts))
        (parse_not-IsSound (suc (length (t ∷ ts))) (length (t ∷ ts)) (omega arith)) (t ∷ ts)
        (omega arith))
      (finish-Yields (t ∷ ts))
