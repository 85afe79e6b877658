-- ===== src/Exec/Arithmetic.antt =====
-- crates/synaptica-exec/src/expression.rs: the binary and the unary operators. The integer operators
-- stand as the two Rust builds have them: with overflow checks a result outside `i64` panics, which
-- `catch_unwind` turns into an error, and without them it wraps around; `/` and `%` of the least integer
-- by -1 panic in both.
pub mod Typed
use synaptica.Prelude.{
  Bool, true, false, not, Option, none, some, Bytes, ◌++◌, Ordering, lex, if◌then◌else◌, codes, ok,
  err,
}
use synaptica.Prelude.Integers.{
  ℤ, pos, ◌+ℤ◌, ◌-ℤ◌, ◌*ℤ◌, tdiv, trem, neg_ℤ, ltb_ℤ, eqb_ℤ, is_i64, wrap_i64,
}
use synaptica.Core.Values.{
  Scalars, Value, null, bool, integer, float, string, list, type_name, value_eq, append_values,
  bool_eq,
}
use synaptica.Gql.Ast.{
  BinaryOp, add, sub, mul, div, modulo, and, or, xor, concat, eq, neq, lt, gt, le, ge, UnaryOp,
}
use synaptica.Exec.Record.{type_error, expression_error, exec, Outcome}

abbrev pub type_err : {A : Type 0} → Bytes → Outcome A
type_err m = err (exec (type_error m))

abbrev pub expression_err : {A : Type 0} → Bytes → Outcome A
expression_err m = err (exec (expression_error m))

abbrev pub cmp_ℤ : ℤ → ℤ → Ordering
cmp_ℤ a b = if ltb_ℤ a b then Ordering.lt else if eqb_ℤ a b then Ordering.eq else Ordering.gt

-- the result of an `i64` operator whose exact result is `z`
unfoldable pub checked : Bool → ℤ → Option ℤ
checked overflow_checks z =
    if is_i64 z then some z else if overflow_checks then none else some (wrap_i64 z)

-- the operators of `/` and `%`
unfoldable pub checked_exact : ℤ → ℤ → Option ℤ
checked_exact quotient z = if is_i64 quotient then some z else none

-- `== 0.0`
abbrev pub is_zero_float : (S : Scalars) → S.Float → Bool
is_zero_float S x = S.eq_float x (S.float_of_i64 (pos 0))

-- the tests on the ordering of `<`, `>`, `<=` and `>=`
abbrev pub is_lt : Ordering → Bool
is_lt o = elim o [ Ordering.lt ↦ true | _ ↦ false ]

abbrev pub is_gt : Ordering → Bool
is_gt o = elim o [ Ordering.gt ↦ true | _ ↦ false ]

-- `i64::checked_neg`
abbrev pub checked_neg : ℤ → Option ℤ
checked_neg z = if is_i64 (neg_ℤ z) then some (neg_ℤ z) else none

module _ {S : Scalars} where
  -- `eval_arithmetic`: `int_op` is `none` where the operator panics
  unfoldable pub eval_arithmetic :
      Value S → Value S → (ℤ → ℤ → Option ℤ) → (S.Float → S.Float → S.Float) → Outcome (Value S)
  eval_arithmetic (integer a) (integer b) int_op float_op = elim (int_op a b) [
    | some z ↦ ok (integer z)
    | none ↦ expression_err (codes "integer arithmetic overflow")
  ]
  eval_arithmetic (float a) (float b) int_op float_op = ok (float (float_op a b))
  eval_arithmetic (integer a) (float b) int_op float_op = ok (float (float_op (S.float_of_i64 a) b))
  eval_arithmetic (float a) (integer b) int_op float_op = ok (float (float_op a (S.float_of_i64 b)))
  eval_arithmetic lv rv int_op float_op =
      type_err
        (codes "cannot perform arithmetic on " ++ type_name lv ++ codes " and " ++ type_name rv)

  -- the ordering that `eval_comparison` computes: `ok none` where the result is null
  unfoldable pub compare_values : Value S → Value S → Outcome (Option Ordering)
  compare_values (integer a) (integer b) = ok (some (cmp_ℤ a b))
  compare_values (float a) (float b) = ok (S.partial_cmp_float a b)
  compare_values (integer a) (float b) = ok (S.partial_cmp_float (S.float_of_i64 a) b)
  compare_values (float a) (integer b) = ok (S.partial_cmp_float a (S.float_of_i64 b))
  compare_values (string a) (string b) = ok (some (lex a b))
  compare_values null rv = ok none
  compare_values lv null = ok none
  compare_values lv rv =
      type_err (codes "cannot compare " ++ type_name lv ++ codes " and " ++ type_name rv)

  unfoldable pub eval_comparison : Value S → (Ordering → Bool) → Value S → Outcome (Value S)
  eval_comparison lv test rv = elim (compare_values lv rv) [
    | ok (some o) ↦ ok (bool (test o))
    | ok none ↦ ok null
    | err e ↦ err e
  ]

  -- whether the right operand of `/` or `%` is zero
  abbrev pub is_zero_value : Value S → Bool
  is_zero_value (integer i) = eqb_ℤ i (pos 0)
  is_zero_value (float x) = is_zero_float S x
  is_zero_value _ = false

  abbrev pub eval_and : Value S → Value S → Value S
  eval_and (bool false) rv = bool false
  eval_and lv (bool false) = bool false
  eval_and (bool true) (bool true) = bool true
  eval_and _ _ = null

  abbrev pub eval_or : Value S → Value S → Value S
  eval_or (bool true) rv = bool true
  eval_or lv (bool true) = bool true
  eval_or (bool false) (bool false) = bool false
  eval_or _ _ = null

  abbrev pub eval_xor : Value S → Value S → Value S
  eval_xor (bool a) (bool b) = bool (not (bool_eq a b))
  eval_xor _ _ = null

  abbrev pub eval_concat : Value S → Value S → Outcome (Value S)
  eval_concat (string a) (string b) = ok (string (a ++ b))
  eval_concat (list a) (list b) = ok (list (append_values a b))
  eval_concat lv rv =
      type_err (codes "cannot concatenate " ++ type_name lv ++ codes " and " ++ type_name rv)

  unfoldable pub eval_binary_op : Value S → BinaryOp → Value S → Outcome (Value S)
  eval_binary_op lv eq rv = ok (bool (value_eq lv rv))
  eval_binary_op lv neq rv = ok (bool (not (value_eq lv rv)))
  eval_binary_op lv lt rv = eval_comparison lv is_lt rv
  eval_binary_op lv gt rv = eval_comparison lv is_gt rv
  eval_binary_op lv le rv = eval_comparison lv (λ o. not (is_gt o)) rv
  eval_binary_op lv ge rv = eval_comparison lv (λ o. not (is_lt o)) rv
  eval_binary_op lv add rv =
      eval_arithmetic lv rv (λ a b. checked S.overflow_checks (a +ℤ b)) S.add_float
  eval_binary_op lv sub rv =
      eval_arithmetic lv rv (λ a b. checked S.overflow_checks (a -ℤ b)) S.sub_float
  eval_binary_op lv mul rv =
      eval_arithmetic lv rv (λ a b. checked S.overflow_checks (a *ℤ b)) S.mul_float
  eval_binary_op lv div rv =
      if is_zero_value rv
      then expression_err (codes "division by zero")
      else eval_arithmetic lv rv (λ a b. checked_exact (tdiv a b) (tdiv a b)) S.div_float
  eval_binary_op lv modulo rv =
      if is_zero_value rv
      then expression_err (codes "modulo by zero")
      else eval_arithmetic lv rv (λ a b. checked_exact (tdiv a b) (trem a b)) S.rem_float
  eval_binary_op lv and rv = ok (eval_and lv rv)
  eval_binary_op lv or rv = ok (eval_or lv rv)
  eval_binary_op lv xor rv = ok (eval_xor lv rv)
  eval_binary_op lv concat rv = eval_concat lv rv

  abbrev pub eval_not : Value S → Outcome (Value S)
  eval_not (bool b) = ok (bool (not b))
  eval_not null = ok null
  eval_not v = type_err (codes "NOT requires boolean, got " ++ type_name v)

  unfoldable pub eval_neg : Value S → Outcome (Value S)
  eval_neg (integer i) = elim (checked_neg i) [
    | some z ↦ ok (integer z)
    | none ↦ expression_err (codes "integer overflow in negation")
  ]
  eval_neg (float x) = ok (float (S.neg_float x))
  eval_neg null = ok null
  eval_neg v = type_err (codes "cannot negate " ++ type_name v)

  abbrev pub eval_pos : Value S → Outcome (Value S)
  eval_pos (integer i) = ok (integer i)
  eval_pos (float x) = ok (float x)
  eval_pos null = ok null
  eval_pos v = type_err (codes "cannot apply unary + to " ++ type_name v)

  unfoldable pub eval_unary_op : UnaryOp → Value S → Outcome (Value S)
  eval_unary_op UnaryOp.not v = eval_not v
  eval_unary_op UnaryOp.neg v = eval_neg v
  eval_unary_op UnaryOp.pos v = eval_pos v
