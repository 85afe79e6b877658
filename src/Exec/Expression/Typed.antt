-- ===== src/Exec/Expression/Typed.antt =====
-- `evaluate` on a well-formed record: the value is well-formed, and the run panics only in a build with
-- overflow checks, where `DURATION` does.
use synaptica.Prelude.{
  ◌≡◌, ◌>>=◌, arith, true, Option, none, some, Bytes, ok, Post, returns, raises, Post-bind,
}
use synaptica.Prelude.Integers.{IsI64}
use synaptica.Core.Values.{Scalars, Value, Fields, null, bool, no_fields, value_eq, insert_field}
use synaptica.Core.Values.WellFormed.{IsValue, AreValues, AreFields, insert_field-AreFields}
use synaptica.Gql.Ast.{
  Expression, Expressions, OptionalExpression, Entries, WhenClauses, identifier, property_access,
  function_call, binary_op, unary_op, case, aggregate, is_not_null, in_list, no_expressions,
  more_expressions, no_expression, some_expression, no_entries, more_entries, no_when_clauses,
  more_when_clauses, AggregateFunction,
}
use synaptica.Exec.Record.{Outcome, Record, position}
use synaptica.Exec.Arithmetic.Typed.{IsExpected, IsTyped, Post-if, eval_unary_op-IsTyped}
use synaptica.Exec.Functions.Typed.{eval_function-IsTyped}
use synaptica.Exec.Expression.{
  property_of, evaluate, evaluate_all, evaluate_entries, evaluate_or, evaluate_when,
}
use synaptica.Exec.Expression.WellFormed.{
  IsRecord, IsInRange, AreInRange, EntriesAreInRange, OptionIsInRange, ClausesAreInRange,
}
use synaptica.Exec.Expression.Parts.{
  IsFound, property_of-IsValue, identifier-IsTyped, column_first-Post, operator-IsTyped, in-IsTyped,
  eval_literal-IsTyped,
}

module _ (S : Scalars) (U : Type 0) where
  found_or :
      (o : Option (Value S)) (r : Outcome (Value S)) (p : Bytes)
      → IsFound S U Unit o
      → IsTyped S U r
      → IsTyped S U (elim o [ some v ↦ ok v | none ↦ (do obj ← r; ok (property_of p obj)) ])
  found_or none r p h k = Post-bind k (λ v j. returns (property_of-IsValue S U p v j))
  found_or (some v) r p h k = returns h

module _ (S : Scalars) (U : Type 0) (float_cast : (x : S.Float) → IsI64 (S.i64_of_float x))
    (N : Bytes → Type 0) (r : Record S) (k : IsRecord r)
    (u : (name : Bytes) → N name → position name r.columns ≡ none → U) where
  mutual
    unfolding IsInRange evaluate IsValue

    pub evaluated : (e : Expression) → IsInRange N e → IsTyped S U (evaluate e r)
    evaluated (Expression.literal l) h = eval_literal-IsTyped S U l h
    evaluated (identifier name) h = identifier-IsTyped S U r name k (u name h)
    evaluated (property_access object property) h =
        Post-bind (column_first-Post S U r object property k)
          (λ o j. found_or S U o (evaluate object r) property j (evaluated object h))
    evaluated (binary_op left op right) (hl, hr) =
        Post-bind (evaluated left hl)
          (λ lv j. operator-IsTyped S U op lv (evaluate right r) j (evaluated right hr))
    evaluated (unary_op op operand) h =
        Post-bind (evaluated operand h) (λ v j. eval_unary_op-IsTyped S U op v j)
    evaluated (Expression.is_null inner) h = Post-bind (evaluated inner h) (λ v j. returns tt)
    evaluated (is_not_null inner) h = Post-bind (evaluated inner h) (λ v j. returns tt)
    evaluated (in_list operand l) (ho, hl) =
        Post-bind (evaluated operand ho)
          (λ v _. Post-bind (evaluated l hl) (λ w _. in-IsTyped S U v w))
    evaluated (function_call name args) h =
        Post-bind (evaluate_all-AreTyped args h)
          (λ vs j. eval_function-IsTyped S U float_cast name vs j)
    evaluated (aggregate AggregateFunction.count distinct arg) h =
        evaluate_or-IsTyped arg _ h (omega arith)
    evaluated (aggregate _ distinct arg) h = evaluate_or-IsTyped arg _ h tt
    evaluated (Expression.list exprs) h =
        Post-bind (evaluate_all-AreTyped exprs h) (λ vs j. returns j)
    evaluated (Expression.map entries) h =
        Post-bind (evaluate_entries-AreTyped entries no_fields h tt) (λ m j. returns j)
    evaluated (case operand when_clauses else_clause) (ho, (hw, he)) =
        Post-bind (evaluate_or-IsTyped operand (bool true) ho tt) (λ v _.
          evaluate_when-IsTyped when_clauses v _ hw (evaluate_or-IsTyped else_clause null he tt))
    evaluated _ h = raises tt

    evaluate_all-AreTyped :
        (es : Expressions) → AreInRange N es → Post AreValues (IsExpected S U) (evaluate_all es r)
    evaluate_all-AreTyped no_expressions h = returns tt
    evaluate_all-AreTyped (more_expressions e es) (h, hs) =
        Post-bind (evaluated e h)
          (λ v j. Post-bind (evaluate_all-AreTyped es hs) (λ vs js. returns (j, js)))

    evaluate_entries-AreTyped :
        (es : Entries) (m : Fields S)
        → EntriesAreInRange N es
        → AreFields m
        → Post AreFields (IsExpected S U) (evaluate_entries es m r)
    evaluate_entries-AreTyped no_entries m h i = returns i
    evaluate_entries-AreTyped (more_entries key e es) m (h, hs) i =
        Post-bind (evaluated e h) (λ v j.
          evaluate_entries-AreTyped es (insert_field key v m) hs
            (insert_field-AreFields key v m j i))

    evaluate_or-IsTyped :
        (o : OptionalExpression) (d : Value S)
        → OptionIsInRange N o
        → IsValue d
        → IsTyped S U (evaluate_or o d r)
    evaluate_or-IsTyped no_expression d h j = returns j
    evaluate_or-IsTyped (some_expression e) d h j = evaluated e h

    evaluate_when-IsTyped :
        (ws : WhenClauses) (v : Value S) (o : Outcome (Value S))
        → ClausesAreInRange N ws
        → IsTyped S U o
        → IsTyped S U (evaluate_when ws v o r)
    evaluate_when-IsTyped no_when_clauses v o h j = j
    evaluate_when-IsTyped (more_when_clauses w t rest) v o (hw, (ht, hs)) j =
        Post-bind (evaluated w hw) (λ x _.
          Post-if (IsTyped S U) (value_eq v x) (evaluated t ht)
            (evaluate_when-IsTyped rest v o hs j))

-- In a build where `as i64` of a float saturates, `evaluate` on a record with one well-formed value for
-- each column and an expression whose integer literals are of `i64` returns a well-formed value (integers
-- of `i64`, durations of `i32` and `i64`, maps sorted by key), or an `ExecError`, or panics in a build
-- with overflow checks.
pub evaluate-IsTyped :
    (S : Scalars)
    → ((x : S.Float) → IsI64 (S.i64_of_float x))
    → (e : Expression) (r : Record S) → IsInRange (λ _. Unit) e
    → IsRecord r
    → IsTyped S Unit (evaluate e r)
evaluate-IsTyped S float_cast e r h k =
    evaluated S Unit float_cast (λ _. Unit) r k (λ _ _ _. tt) e h
