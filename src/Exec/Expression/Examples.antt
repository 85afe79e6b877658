-- ===== src/Exec/Expression/Examples.antt =====
-- Runs of `evaluate`, with floats as whole numbers, and the theorems at concrete inputs.
use synaptica.Prelude.{
  ℕ, zero, suc, ◌≡◌, refl, Bool, true, false, none, some, [], ◌∷◌, Bytes, ok, err, Result, codes,
  arith, bytes_eq,
}
use synaptica.Prelude.Integers.{ℤ, pos, negsuc, ◌+ℤ◌, ◌-ℤ◌, ◌*ℤ◌, tdiv, trem, neg_ℤ, eqb_ℤ, IsI64}
use synaptica.Prelude.Decimals.{value}
use synaptica.Core.Values.{
  Scalars, null, integer, string, map, no_values, more_values, no_fields, more_fields,
  length_values,
}
use synaptica.Core.Values.WellFormed.{IsValue}
use synaptica.Core.Values.Display.{show_ℤ}
use synaptica.Gql.Ast.{
  Expression, literal, identifier, property_access, binary_op, unary_op, BinaryOp, UnaryOp, Literal,
  more_expressions, no_expressions, function_call,
}
use synaptica.Gql.Semantic.{in_scope, check_expression}
use synaptica.Exec.Record.{Record, exec, panic, expression_error, position, value_at, get}
use synaptica.Exec.Arithmetic.{cmp_ℤ, checked, eval_binary_op, eval_arithmetic}
use synaptica.Exec.Arithmetic.Typed.{IsTyped}
use synaptica.Exec.Functions.{eval_function}
use synaptica.Exec.Durations.{
  all_digits, parse_integer, arith_result, split_at_t, add_date_unit, parse_date_part,
  parse_iso_duration,
}
use synaptica.Exec.Expression.{evaluate, eval_literal, column_for}
use synaptica.Exec.Expression.WellFormed.{IsInRange, HasI64Literal}
use synaptica.Exec.Expression.Typed.{evaluate-IsTyped}
use synaptica.Exec.Expression.Logic.{
  Truth, unknown, holds, Formula, atom, negation, conjunction, exclusive, expression, meaning,
  truth_value, evaluate-expression, de_morgan,
}
use synaptica.Exec.Expression.Scoped.{columns-HasColumns, evaluate-check_expression}

abbrev unparsed : Bytes → Bytes → Result Bytes Bytes
unparsed s format = ok s

-- floats are whole numbers below 2^63
abbrev pub whole_floats : Bool → Scalars
whole_floats checks = record {
  Float = ℤ;
  eq_float = eqb_ℤ;
  partial_cmp_float = λ a b. some (cmp_ℤ a b);
  add_float = ◌+ℤ◌;
  sub_float = ◌-ℤ◌;
  mul_float = ◌*ℤ◌;
  div_float = tdiv;
  rem_float = trem;
  neg_float = neg_ℤ;
  float_of_i64 = λ i. i;
  i64_of_float = λ x. pos 0;
  parse_float = λ s. none;
  show_float = show_ℤ;
  Date = Bytes;
  eq_date = bytes_eq;
  show_date = λ d. d;
  parse_date = unparsed;
  Time = Bytes;
  eq_time = bytes_eq;
  show_time = λ d. d;
  parse_time = unparsed;
  Timestamp = Bytes;
  eq_timestamp = bytes_eq;
  show_timestamp = λ d. d;
  parse_timestamp = unparsed;
  to_lowercase = λ s. s;
  trim = λ s. s;
  overflow_checks = checks;
}

abbrev pub released : Scalars
released = whole_floats false

abbrev tested : Scalars
tested = whole_floats true

abbrev cast-IsI64 : (checks : Bool) (x : ℤ) → IsI64 ((whole_floats checks).i64_of_float x)
cast-IsI64 checks x = omega arith

-- `a` is 5 and `b` is null
abbrev row : (S : Scalars) → Record S
row S = record {
  columns = codes "a" ∷ codes "b" ∷ [];
  values = more_values (integer (pos 5)) (more_values null no_values);
}

abbrev number : ℤ → Expression
number i = literal (Literal.integer i)

abbrev one : Expression
one = literal (Literal.integer (pos 1))

abbrev sum : Expression
sum = binary_op (identifier (codes "a")) BinaryOp.add one

abbrev greatest : ℕ
greatest = 9223372036854775807

-- A released build adds past the greatest integer without an error, and one with overflow checks fails.
wrapped :
    evaluate (binary_op (number (pos greatest)) BinaryOp.add one) (row released)
    ≡ ok (integer (negsuc greatest))
unfolding evaluate eval_literal eval_binary_op eval_arithmetic checked
wrapped = refl

overflown :
    evaluate (binary_op (number (pos greatest)) BinaryOp.add one) (row tested)
    ≡ err (exec (expression_error (codes "integer arithmetic overflow")))
unfolding evaluate eval_literal eval_binary_op eval_arithmetic checked
overflown = refl

-- A column with the property's name hides the property of the variable's own value.
abbrev hiding : Record released
hiding = record {
  columns = codes "n" ∷ codes "name" ∷ [];
  values =
      more_values (map (more_fields (codes "name") (string (codes "Ada")) no_fields))
        (more_values (string (codes "Bob")) no_values);
}

hidden :
    evaluate (property_access (identifier (codes "n")) (codes "name")) hiding
    ≡ ok (string (codes "Bob"))
unfolding evaluate column_for get position value_at bytes_eq
hidden = refl

-- A count of months past `i32` panics in a build with overflow checks.
months_overflow :
    evaluate
      (function_call
        (codes "duration")
        (more_expressions (literal (Literal.string (codes "P999999999Y"))) no_expressions))
      (row tested)
    ≡ err panic
unfolding evaluate eval_literal eval_function parse_iso_duration split_at_t parse_date_part
    add_date_unit parse_integer arith_result all_digits value bytes_eq
months_overflow = refl

evaluate-IsTyped_example : IsTyped released Unit (evaluate sum (row released))
unfolding IsInRange HasI64Literal IsValue length_values
evaluate-IsTyped_example =
    evaluate-IsTyped released (cast-IsI64 false) sum (row released) (tt, omega arith)
      (refl, (omega arith, (tt, tt)))

-- `NOT (a AND b) XOR a` with `a` unknown and `b` true
abbrev formula : Formula
formula = exclusive (negation (conjunction (atom 0) (atom 1))) (atom 0)

abbrev atoms : ℕ → Expression
atoms zero = literal Literal.null
atoms (suc i) = literal (Literal.bool true)

abbrev values : ℕ → Truth
values zero = unknown
values (suc i) = holds

evaluates : (i : ℕ) → evaluate (atoms i) (row released) ≡ ok (truth_value (values i))
unfolding evaluate eval_literal
evaluates zero = refl
evaluates (suc i) = refl

evaluate-expression_example :
    evaluate (expression formula atoms) (row released) ≡ ok (truth_value (meaning formula values))
evaluate-expression_example = evaluate-expression formula atoms values (row released) evaluates

de_morgan_example :
    evaluate (unary_op UnaryOp.not (binary_op (atoms 0) BinaryOp.and (atoms 1))) (row released)
    ≡ evaluate
        (binary_op (unary_op UnaryOp.not (atoms 0)) BinaryOp.or (unary_op UnaryOp.not (atoms 1)))
        (row released)
unfolding evaluate eval_literal
de_morgan_example = de_morgan (atoms 0) (atoms 1) (row released) tt tt

evaluate-check_expression_example : IsTyped released ⊥ (evaluate sum (row released))
unfolding IsInRange HasI64Literal IsValue length_values check_expression in_scope bytes_eq
evaluate-check_expression_example =
    evaluate-check_expression released (cast-IsI64 false) sum (row released).columns (row released)
      (tt, omega arith) (refl, (omega arith, (tt, tt))) tt (columns-HasColumns (row released))
