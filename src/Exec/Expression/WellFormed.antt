-- ===== src/Exec/Expression/WellFormed.antt =====
-- Well-formed records, and the expressions whose integer literals are those of the lexer.
use synaptica.Prelude.{◌≡◌, length}
use synaptica.Prelude.Integers.{IsI64}
use synaptica.Core.Values.{Scalars, length_values}
use synaptica.Core.Values.WellFormed.{AreValues}
use synaptica.Prelude.{Bytes}
use synaptica.Gql.Ast.{
  identifier, Literal, Literals, LiteralEntries, no_literals, more_literals, no_literal_entries,
  more_literal_entries, Expression, Expressions, OptionalExpression, Entries, WhenClauses,
  property_access, function_call, binary_op, unary_op, case, aggregate, is_not_null, in_list,
  no_expressions, more_expressions, no_expression, some_expression, no_entries, more_entries,
  no_when_clauses, more_when_clauses,
}
use synaptica.Exec.Record.{Record}

-- as many values as columns, all of them well-formed
abbrev pub IsRecord : {S : Scalars} → Record S → Type 0
IsRecord r = (length r.columns ≡ length_values r.values) × AreValues r.values

-- The integer literals are in the range of `i64`, as in the lexer's tokens.
unfoldable mutual
  pub HasI64Literal : Literal → Type 0
  HasI64Literal (Literal.integer i) = IsI64 i
  HasI64Literal (Literal.list items) = HaveI64Literals items
  HasI64Literal (Literal.map entries) = EntriesHaveI64Literals entries
  HasI64Literal _ = Unit

  pub HaveI64Literals : Literals → Type 0
  HaveI64Literals no_literals = Unit
  HaveI64Literals (more_literals l ls) = HasI64Literal l × HaveI64Literals ls

  pub EntriesHaveI64Literals : LiteralEntries → Type 0
  EntriesHaveI64Literals no_literal_entries = Unit
  EntriesHaveI64Literals (more_literal_entries k l ls) = HasI64Literal l × EntriesHaveI64Literals ls

-- The integer literals are in range, and `N` holds of the identifiers.
module _ (N : Bytes → Type 0) where
  unfoldable mutual
    pub IsInRange : Expression → Type 0
    IsInRange (Expression.literal l) = HasI64Literal l
    IsInRange (property_access object property) = IsInRange object
    IsInRange (binary_op left op right) = IsInRange left × IsInRange right
    IsInRange (unary_op op operand) = IsInRange operand
    IsInRange (Expression.is_null inner) = IsInRange inner
    IsInRange (is_not_null inner) = IsInRange inner
    IsInRange (in_list operand l) = IsInRange operand × IsInRange l
    IsInRange (function_call name args) = AreInRange args
    IsInRange (aggregate function distinct arg) = OptionIsInRange arg
    IsInRange (Expression.list exprs) = AreInRange exprs
    IsInRange (Expression.map entries) = EntriesAreInRange entries
    IsInRange (case operand when_clauses else_clause) =
        OptionIsInRange operand × (ClausesAreInRange when_clauses × OptionIsInRange else_clause)
    IsInRange (identifier name) = N name
    IsInRange _ = Unit

    pub AreInRange : Expressions → Type 0
    AreInRange no_expressions = Unit
    AreInRange (more_expressions e es) = IsInRange e × AreInRange es

    pub EntriesAreInRange : Entries → Type 0
    EntriesAreInRange no_entries = Unit
    EntriesAreInRange (more_entries k e es) = IsInRange e × EntriesAreInRange es

    pub OptionIsInRange : OptionalExpression → Type 0
    OptionIsInRange no_expression = Unit
    OptionIsInRange (some_expression e) = IsInRange e

    pub ClausesAreInRange : WhenClauses → Type 0
    ClausesAreInRange no_when_clauses = Unit
    ClausesAreInRange (more_when_clauses w t rest) =
        IsInRange w × (IsInRange t × ClausesAreInRange rest)
