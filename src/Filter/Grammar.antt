-- ===== src/Filter/Grammar.antt =====
-- crates/tryke_types/src/filter.rs: the grammar of filter expressions, as derivations. `not` binds
-- tightest, then `and`, then `or`, both to the left.
use tryke.Prelude.{◌≡◌, [], ◌∷◌, ◌++◌, Text}
use tryke.Filter.Syntax.{
  FilterExpr, substring, conj, disj, neg, ident, lparen, rparen, kw_and, kw_or, kw_not, Tokens,
}

-- `IsOr e ts`: the tokens `ts` are an expression, and `e` is its tree. The tokens are given by
-- equations, so that any list can be matched.
mutual
  pub data IsOr : FilterExpr → Tokens → Type 0 where
    or_one : {e : FilterExpr} {ts : Tokens} → IsAnd e ts → IsOr e ts
    or_more :
        {l r : FilterExpr} {ls rs ts : Tokens}
        → IsOr l ls
        → IsAnd r rs
        → ts ≡ ls ++ kw_or ∷ rs
        → IsOr (disj l r) ts

  pub data IsAnd : FilterExpr → Tokens → Type 0 where
    and_one : {e : FilterExpr} {ts : Tokens} → IsNot e ts → IsAnd e ts
    and_more :
        {l r : FilterExpr} {ls rs ts : Tokens}
        → IsAnd l ls
        → IsNot r rs
        → ts ≡ ls ++ kw_and ∷ rs
        → IsAnd (conj l r) ts

  pub data IsNot : FilterExpr → Tokens → Type 0 where
    not_more : {e : FilterExpr} {es ts : Tokens} → IsNot e es → ts ≡ kw_not ∷ es → IsNot (neg e) ts
    word : {s : Text} {ts : Tokens} → ts ≡ ident s ∷ [] → IsNot (substring s) ts
    parens :
        {e : FilterExpr} {es ts : Tokens}
        → IsOr e es
        → ts ≡ lparen ∷ (es ++ rparen ∷ [])
        → IsNot e ts
