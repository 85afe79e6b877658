-- ===== src/Exec/Expression/Logic.antt =====
-- The three-valued logic of `AND`, `OR`, `XOR` and `NOT`.
use synaptica.Prelude.{ℕ, ◌≡◌, refl, true, false, ok, err, ◌>>=◌}
use synaptica.Core.Values.{Scalars, Value, null, bool}
use synaptica.Gql.Ast.{Expression, binary_op, unary_op, BinaryOp, UnaryOp}
use synaptica.Exec.Record.{Outcome, Record}
use synaptica.Exec.Arithmetic.{eval_binary_op, eval_unary_op}
use synaptica.Exec.Expression.{evaluate, eval_operator}

-- false, unknown and true, in this order
pub data Truth : Type 0 where
  fails unknown holds : Truth

-- Kleene's connectives: the lesser and the greater in the order, and its reversal
unfoldable pub both : Truth → Truth → Truth
both fails b = fails
both unknown fails = fails
both unknown _ = unknown
both holds b = b

unfoldable pub reverse : Truth → Truth
reverse fails = holds
reverse unknown = unknown
reverse holds = fails

unfoldable pub either : Truth → Truth → Truth
either fails b = b
either unknown holds = holds
either unknown _ = unknown
either holds b = holds

pub data Formula : Type 0 where
  atom : ℕ → Formula
  negation : Formula → Formula
  conjunction disjunction exclusive : Formula → Formula → Formula

-- the meaning of a formula, given that of its atoms; the exclusive disjunction by the others
unfoldable pub meaning : Formula → (ℕ → Truth) → Truth
meaning (atom i) ρ = ρ i
meaning (negation f) ρ = reverse (meaning f ρ)
meaning (conjunction f g) ρ = both (meaning f ρ) (meaning g ρ)
meaning (disjunction f g) ρ = either (meaning f ρ) (meaning g ρ)
meaning (exclusive f g) ρ =
    let a = meaning f ρ in let b = meaning g ρ in either (both a (reverse b)) (both (reverse a) b)

-- the expression that a formula stands for
unfoldable pub expression : Formula → (ℕ → Expression) → Expression
expression (atom i) atoms = atoms i
expression (negation f) atoms = unary_op UnaryOp.not (expression f atoms)
expression (conjunction f g) atoms =
    binary_op (expression f atoms) BinaryOp.and (expression g atoms)
expression (disjunction f g) atoms = binary_op (expression f atoms) BinaryOp.or (expression g atoms)
expression (exclusive f g) atoms = binary_op (expression f atoms) BinaryOp.xor (expression g atoms)

module _ {S : Scalars} where
  abbrev pub truth_value : Truth → Value S
  truth_value fails = bool false
  truth_value unknown = null
  truth_value holds = bool true

  -- a truth value or an error
  abbrev pub IsTruth : Outcome (Value S) → Type 0
  IsTruth (ok (bool b)) = Unit
  IsTruth (ok null) = Unit
  IsTruth (ok _) = ⊥
  IsTruth (err e) = Unit

  and-both :
      (a b : Truth)
      → eval_operator BinaryOp.and (truth_value a) (ok (truth_value b))
        ≡ ok (truth_value (both a b))
  unfolding both
  and-both fails b = refl
  and-both unknown fails = refl
  and-both unknown unknown = refl
  and-both unknown holds = refl
  and-both holds fails = refl
  and-both holds unknown = refl
  and-both holds holds = refl

  or-either :
      (a b : Truth)
      → eval_operator BinaryOp.or (truth_value a) (ok (truth_value b))
        ≡ ok (truth_value (either a b))
  unfolding either
  or-either fails fails = refl
  or-either fails unknown = refl
  or-either fails holds = refl
  or-either unknown fails = refl
  or-either unknown unknown = refl
  or-either unknown holds = refl
  or-either holds b = refl

  xor-either :
      (a b : Truth)
      → eval_operator BinaryOp.xor (truth_value a) (ok (truth_value b))
        ≡ ok (truth_value (either (both a (reverse b)) (both (reverse a) b)))
  unfolding both either reverse eval_binary_op
  xor-either fails fails = refl
  xor-either fails unknown = refl
  xor-either fails holds = refl
  xor-either unknown fails = refl
  xor-either unknown unknown = refl
  xor-either unknown holds = refl
  xor-either holds fails = refl
  xor-either holds unknown = refl
  xor-either holds holds = refl

  not-reverse :
      (a : Truth) → eval_unary_op UnaryOp.not (truth_value a) ≡ ok (truth_value (reverse a))
  unfolding reverse eval_unary_op
  not-reverse fails = refl
  not-reverse unknown = refl
  not-reverse holds = refl

  -- If the atoms of a formula evaluate over a record to truth values (`true`, `false` or null for
  -- unknown), the expression of `AND`, `OR`, `XOR` and `NOT` that the formula stands for evaluates to
  -- the truth value of the formula in Kleene's three-valued logic.
  pub evaluate-expression :
      (f : Formula) (atoms : ℕ → Expression) (ρ : ℕ → Truth) (r : Record S)
      → ((i : ℕ) → evaluate (atoms i) r ≡ ok (truth_value (ρ i)))
      → evaluate (expression f atoms) r ≡ ok (truth_value (meaning f ρ))
  unfolding expression meaning evaluate
  evaluate-expression (atom i) atoms ρ r h = h i
  evaluate-expression (negation f) atoms ρ r h =
      rw (evaluate-expression f atoms ρ r h) (not-reverse (meaning f ρ))
  evaluate-expression (conjunction f g) atoms ρ r h =
      rw (evaluate-expression f atoms ρ r h, evaluate-expression g atoms ρ r h)
        (and-both (meaning f ρ) (meaning g ρ))
  evaluate-expression (disjunction f g) atoms ρ r h =
      rw (evaluate-expression f atoms ρ r h, evaluate-expression g atoms ρ r h)
        (or-either (meaning f ρ) (meaning g ρ))
  evaluate-expression (exclusive f g) atoms ρ r h =
      rw (evaluate-expression f atoms ρ r h, evaluate-expression g atoms ρ r h)
        (xor-either (meaning f ρ) (meaning g ρ))

  -- If each of two expressions evaluates to a truth value or fails, `NOT (a AND b)` has the outcome of
  -- `NOT a OR NOT b`, the error included: both forms leave `b` out in the same cases.
  pub de_morgan :
      (a b : Expression) (r : Record S)
      → IsTruth (evaluate a r)
      → IsTruth (evaluate b r)
      → evaluate (unary_op UnaryOp.not (binary_op a BinaryOp.and b)) r
        ≡ evaluate (binary_op (unary_op UnaryOp.not a) BinaryOp.or (unary_op UnaryOp.not b)) r
  unfolding evaluate eval_unary_op
  de_morgan a b r h k = outcomes (evaluate a r) (evaluate b r) h k
    where
      outcomes :
          (x y : Outcome (Value S))
          → IsTruth x
          → IsTruth y
          → ((x >>= λ v. eval_operator BinaryOp.and v y) >>= eval_unary_op UnaryOp.not) ≡ (
              (x >>= eval_unary_op UnaryOp.not) >>= λ v.
              eval_operator BinaryOp.or v (y >>= eval_unary_op UnaryOp.not))
      outcomes (err e) y h k = refl
      outcomes (ok (bool false)) y h k = refl
      outcomes (ok (bool true)) (err e) h k = refl
      outcomes (ok (bool true)) (ok null) h k = refl
      outcomes (ok (bool true)) (ok (bool false)) h k = refl
      outcomes (ok (bool true)) (ok (bool true)) h k = refl
      outcomes (ok (bool true)) (ok _) h k = absurd k
      outcomes (ok null) (err e) h k = refl
      outcomes (ok null) (ok null) h k = refl
      outcomes (ok null) (ok (bool false)) h k = refl
      outcomes (ok null) (ok (bool true)) h k = refl
      outcomes (ok null) (ok _) h k = absurd k
      outcomes (ok _) y h k = absurd h
