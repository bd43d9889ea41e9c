-- ===== src/Filter/Syntax.antt =====
-- crates/tryke_types/src/filter.rs: filter expressions, their tokens, and the outcome of parsing.
use tryke.Prelude.{
  ℕ, ◌≡◌, ◌≢◌, subst, ◌↔◌, Bool, true, false, List, Text, Eq, ◌==◌, list_eq, nat_eq, arith,
}

pub data FilterExpr : Type 0 where
  substring : Text → FilterExpr
  conj : FilterExpr → FilterExpr → FilterExpr
  disj : FilterExpr → FilterExpr → FilterExpr
  neg : FilterExpr → FilterExpr

pub data Token : Type 0 where
  ident : Text → Token
  lparen rparen kw_and kw_or kw_not : Token

abbrev token_beq : Token → Token → Bool
token_beq (ident s) (ident t) = s == t
token_beq lparen lparen = true
token_beq rparen rparen = true
token_beq kw_and kw_and = true
token_beq kw_or kw_or = true
token_beq kw_not kw_not = true
token_beq _ _ = false

pub token_beq_iff : (a b : Token) → (token_beq a b ≡ true) ↔ (a ≡ b)
token_beq_iff (ident s) (ident t) = ground (arith, (list_eq {A = ℕ}).beq_iff s t)
token_beq_iff (ident s) lparen = ground arith
token_beq_iff (ident s) rparen = ground arith
token_beq_iff (ident s) kw_and = ground arith
token_beq_iff (ident s) kw_or = ground arith
token_beq_iff (ident s) kw_not = ground arith
token_beq_iff lparen b = ground arith
token_beq_iff rparen b = ground arith
token_beq_iff kw_and b = ground arith
token_beq_iff kw_or b = ground arith
token_beq_iff kw_not b = ground arith

instance abbrev pub token_eq : Eq Token
token_eq = record { beq = token_beq; beq_iff = token_beq_iff }

abbrev pub Tokens : Type 0
Tokens = List Token

-- The message of each error is the text that the source formats.
pub data FilterError : Type 0 where
  parse_error : Text → FilterError
  path_spec_error : Text → FilterError

-- `out_of_fuel` has no counterpart in the source: `Filter.Sound` shows that it does not occur.
pub data Result {ℓ} (A : Type ℓ) : Type ℓ where
  ok : A → Result A
  err : FilterError → Result A
  out_of_fuel : Result A

infixl 5 ◌>>=◌
abbrev pub ◌>>=◌ {ℓ κ} : {A : Type ℓ} {B : Type κ} → Result A → (A → Result B) → Result B
ok a >>= f = f a
err e >>= f = err e
out_of_fuel >>= f = out_of_fuel

-- The run ended within its fuel, and `P` holds of its value if it has one.
pub data Yields {ℓ κ} {A : Type ℓ} (P : A → Type κ) : Result A → Type (ℓ ⊔ κ) where
  value : {a : A} → P a → Yields P (ok a)
  refusal : {e : FilterError} → Yields P (err e)

module _ {ℓ κ ℓ' κ'} {A : Type ℓ} {B : Type ℓ'} {P : A → Type κ} {Q : B → Type κ'} where
  pub Yields->>= :
      {r : Result A} {f : A → Result B}
      → Yields P r
      → ((a : A) → P a → Yields Q (f a))
      → Yields Q (r >>= f)
  Yields->>= (value {a} h) k = k a h
  Yields->>= refusal k = refusal

module _ {ℓ κ} {A : Type ℓ} {P : A → Type κ} where
  pub Yields-ok : {r : Result A} {a : A} → Yields P r → r ≡ ok a → P a
  Yields-ok (value h) e = subst P (cc) h
  Yields-ok refusal e = cc

  pub Yields-out_of_fuel : {r : Result A} → Yields P r → r ≢ out_of_fuel
  Yields-out_of_fuel (value h) = cc
  Yields-out_of_fuel refusal = cc
