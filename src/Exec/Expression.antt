-- ===== src/Exec/Expression.antt =====
-- crates/synaptica-exec/src/expression.rs: `evaluate`, over a record. A float literal holds its text,
-- whose value is the lexer's `parse::<f64>`.
pub mod WellFormed
pub mod Parts
pub mod Typed
pub mod Logic
pub mod Scoped
pub mod Examples
use synaptica.Prelude.{
  true, false, not, Option, none, some, ◌++◌, Bytes, if◌then◌else◌, ok, err, ◌>>=◌, codes,
}
use synaptica.Prelude.Integers.{pos}
use synaptica.Core.Values.{
  Scalars, Value, Values, Fields, null, bool, integer, float, string, list, map, node, edge,
  no_values, more_values, no_fields, is_null, value_eq, get_field, insert_field, contains,
}
use synaptica.Gql.Ast.{
  Literal, Literals, LiteralEntries, no_literals, more_literals, no_literal_entries,
  more_literal_entries, Expression, Expressions, OptionalExpression, Entries, WhenClauses,
  identifier, property_access, function_call, binary_op, unary_op, case, exists, aggregate,
  parameter, subquery, is_not_null, in_list, like, type_cast, path, no_expressions,
  more_expressions, no_expression, some_expression, no_entries, more_entries, no_when_clauses,
  more_when_clauses, BinaryOp, AggregateFunction,
}
use synaptica.Exec.Record.{not_implemented, exec, Outcome, Record, get}
use synaptica.Exec.Arithmetic.{
  type_err, expression_err, eval_and, eval_or, eval_binary_op, eval_unary_op,
}
use synaptica.Exec.Functions.{eval_function}

-- the error for a form that is not evaluated; the source prints its discriminant
abbrev pub not_evaluated : {A : Type 0} → Bytes → Outcome A
not_evaluated form = err (exec (not_implemented form))

module _ {S : Scalars} where
  -- the value of a float literal's text
  abbrev pub float_literal : Bytes → Outcome (Value S)
  float_literal text = elim (S.parse_float text) [
    | some x ↦ ok (float x)
    | none ↦ not_evaluated (codes "literal: Float")
  ]

  unfoldable mutual
    pub eval_literal : Literal → Outcome (Value S)
    eval_literal (Literal.integer i) = ok (integer i)
    eval_literal (Literal.float text) = float_literal text
    eval_literal (Literal.string s) = ok (string s)
    eval_literal (Literal.bool b) = ok (bool b)
    eval_literal Literal.null = ok null
    eval_literal (Literal.list items) = do vs ← eval_literals items; ok (list vs)
    eval_literal (Literal.map entries) = do m ← eval_literal_entries entries no_fields; ok (map m)
    eval_literal (Literal.date s) = not_evaluated (codes "literal: Date")
    eval_literal (Literal.time s) = not_evaluated (codes "literal: Time")
    eval_literal (Literal.timestamp s) = not_evaluated (codes "literal: Timestamp")
    eval_literal (Literal.duration s) = not_evaluated (codes "literal: Duration")

    pub eval_literals : Literals → Outcome (Values S)
    eval_literals no_literals = ok no_values
    eval_literals (more_literals l ls) = do
      v ← eval_literal l
      vs ← eval_literals ls
      ok (more_values v vs)

    -- the loop over the entries of a map, with the map so far
    pub eval_literal_entries : LiteralEntries → Fields S → Outcome (Fields S)
    eval_literal_entries no_literal_entries m = ok m
    eval_literal_entries (more_literal_entries k l ls) m = do
      v ← eval_literal l
      eval_literal_entries ls (insert_field k v m)

  -- the value under a name, or null
  abbrev pub field_or_null : Bytes → Fields S → Value S
  field_or_null k m = elim (get_field k m) [ none ↦ null | some v ↦ v ]

  abbrev pub property_of : Bytes → Value S → Value S
  property_of p (map m) = field_or_null p m
  property_of p (node id labels m) = field_or_null p m
  property_of p (edge id label source target m) = field_or_null p m
  property_of p _ = null

  abbrev pub eval_identifier : Record S → Bytes → Outcome (Value S)
  eval_identifier context name = do
    found ← get context name
    elim found [ some v ↦ ok v | none ↦ expression_err (codes "unknown identifier: " ++ name) ]

  -- the columns that a property access on an identifier tries first
  unfoldable pub column_for : Record S → Bytes → Bytes → Outcome (Option (Value S))
  column_for context var property = do
    found ← get context (var ++ codes "." ++ property)
    elim found [ some v ↦ ok (some v) | none ↦ get context property ]

  abbrev pub column_first : Record S → Expression → Bytes → Outcome (Option (Value S))
  column_first context (identifier var) property = column_for context var property
  column_first context _ property = ok none

  -- `AND` and `OR` behind the left value: the right one is evaluated unless the left one decides
  abbrev pub and_then : Value S → Outcome (Value S) → Outcome (Value S)
  and_then (bool false) right = ok (bool false)
  and_then lv right = do rv ← right; ok (eval_and lv rv)

  abbrev pub or_then : Value S → Outcome (Value S) → Outcome (Value S)
  or_then (bool true) right = ok (bool true)
  or_then lv right = do rv ← right; ok (eval_or lv rv)

  abbrev pub eval_operator : BinaryOp → Value S → Outcome (Value S) → Outcome (Value S)
  eval_operator BinaryOp.and lv right = and_then lv right
  eval_operator BinaryOp.or lv right = or_then lv right
  eval_operator op lv right = do rv ← right; eval_binary_op lv op rv

  abbrev pub eval_in : Value S → Value S → Outcome (Value S)
  eval_in v (list items) = ok (bool (contains items v))
  eval_in v _ = type_err (codes "IN requires a list")

  -- an aggregate without an argument, over one record
  abbrev pub single_aggregate : AggregateFunction → Value S
  single_aggregate AggregateFunction.count = integer (pos 1)
  single_aggregate _ = null

  unfoldable mutual
    pub evaluate : Expression → Record S → Outcome (Value S)
    evaluate (Expression.literal l) context = eval_literal l
    evaluate (identifier name) context = eval_identifier context name
    evaluate (property_access object property) context =
        let behind = evaluate object context in
        (do
          column ← column_first context object property
          elim column [ some v ↦ ok v | none ↦ (do obj ← behind; ok (property_of property obj)) ])
    evaluate (binary_op left op right) context =
        let behind = evaluate right context in
        (do lv ← evaluate left context; eval_operator op lv behind)
    evaluate (unary_op op operand) context = do v ← evaluate operand context; eval_unary_op op v
    evaluate (Expression.is_null inner) context = do
      v ← evaluate inner context
      ok (bool (is_null v))
    evaluate (is_not_null inner) context = do
      v ← evaluate inner context
      ok (bool (not (is_null v)))
    evaluate (in_list operand l) context = do
      v ← evaluate operand context
      items ← evaluate l context
      eval_in v items
    evaluate (function_call name args) context = do
      vs ← evaluate_all args context
      eval_function name vs
    evaluate (aggregate function distinct arg) context =
        evaluate_or arg (single_aggregate function) context
    evaluate (Expression.list exprs) context = do vs ← evaluate_all exprs context; ok (list vs)
    evaluate (Expression.map entries) context = do
      m ← evaluate_entries entries no_fields context
      ok (map m)
    evaluate (case operand when_clauses else_clause) context =
        let otherwise = evaluate_or else_clause null context in
        (do
          subject ← evaluate_or operand (bool true) context
          evaluate_when when_clauses subject otherwise context)
    evaluate (like operand pattern) context = not_evaluated (codes "expression: Like")
    evaluate (parameter name) context = not_evaluated (codes "expression: Parameter")
    evaluate (exists s) context = not_evaluated (codes "expression: Exists")
    evaluate (subquery s) context = not_evaluated (codes "expression: Subquery")
    evaluate (type_cast e t) context = not_evaluated (codes "expression: TypeCast")
    evaluate (path p) context = not_evaluated (codes "expression: Path")

    pub evaluate_all : Expressions → Record S → Outcome (Values S)
    evaluate_all no_expressions context = ok no_values
    evaluate_all (more_expressions e es) context = do
      v ← evaluate e context
      vs ← evaluate_all es context
      ok (more_values v vs)

    -- the loop over the entries of a map, with the map so far
    pub evaluate_entries : Entries → Fields S → Record S → Outcome (Fields S)
    evaluate_entries no_entries m context = ok m
    evaluate_entries (more_entries k e es) m context = do
      v ← evaluate e context
      evaluate_entries es (insert_field k v m) context

    -- an expression that may be missing
    pub evaluate_or : OptionalExpression → Value S → Record S → Outcome (Value S)
    evaluate_or no_expression default context = ok default
    evaluate_or (some_expression e) default context = evaluate e context

    -- the loop of `CASE`: a clause is taken if its value equals the operand's, or `true` without one
    pub evaluate_when : WhenClauses → Value S → Outcome (Value S) → Record S → Outcome (Value S)
    evaluate_when no_when_clauses subject otherwise context = otherwise
    evaluate_when (more_when_clauses when_expr then_expr rest) subject otherwise context =
        let taken = evaluate then_expr context in
        let next = evaluate_when rest subject otherwise context in
        (do w ← evaluate when_expr context; if value_eq subject w then taken else next)
