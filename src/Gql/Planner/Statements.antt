-- ===== src/Gql/Planner/Statements.antt =====
-- crates/synaptica-gql/src/planner.rs: `plan_statement` of the other statements, and `plan`.
use synaptica.Prelude.{
  Option, none, some, List, [], ◌∷◌, Bytes, if◌then◌else◌, ok, err, ◌>>=◌, codes,
}
use synaptica.Gql.Ast.{
  Expression, Expressions, identifier, no_expressions, more_expressions, ReturnStatement,
  return_statement, WithStatement, with_statement, delete_statement, set_statement, SetItems,
  set_property, no_set_items, more_set_items, OptionalOrderBy, no_order_by, some_order_by,
  order_by_clause, GqlStatement, GqlStatements, no_statements, more_statements, GqlProgram,
  call_statement,
}
use synaptica.Gql.Planner.{
  LogicalPlan, failed, unsupported_statement, project, sort, distinct, empty, delete_node,
  call_procedure, list_graphs, resolve_order_alias, order_keys, item_expressions, item_aliases,
  plan_limit,
}
use synaptica.Gql.Planner.Insertions.{
  Planned, internal_err, ok_or, plan_match, plan_insert, plan_where,
}

-- `unwrap_or(LogicalPlan::Empty)`
abbrev pub input_or_empty : Option LogicalPlan → LogicalPlan
input_or_empty none = empty
input_or_empty (some plan) = plan

unfoldable pub plan_order : OptionalOrderBy → (Expression → Expression) → LogicalPlan → LogicalPlan
plan_order no_order_by resolve plan = plan
plan_order (some_order_by (order_by_clause items)) resolve plan =
    sort plan (order_keys resolve items)

unfoldable pub plan_return : ReturnStatement → Option LogicalPlan → LogicalPlan
plan_return (return_statement unique items _ _ order range) input =
    let exprs = item_expressions items in
    let aliases = item_aliases items in
    let sorted =
      plan_order order (λ e. resolve_order_alias e exprs aliases) (input_or_empty input) in
    let projected = project sorted exprs aliases in
    plan_limit range (if unique then distinct projected else projected)

unfoldable pub plan_with : WithStatement → Option LogicalPlan → LogicalPlan
plan_with (with_statement unique items condition order range) input =
    let projected = project (input_or_empty input) (item_expressions items) (item_aliases items) in
    let filtered = plan_where condition (if unique then distinct projected else projected) in
    plan_limit range (plan_order order (λ e. e) filtered)

-- the names among the targets of `DELETE`
unfoldable pub target_names : Expressions → List Bytes
target_names no_expressions = []
target_names (more_expressions (identifier name) es) = name ∷ target_names es
target_names (more_expressions _ es) = target_names es

abbrev pub identifier_name : Expression → Option Bytes
identifier_name (identifier name) = some name
identifier_name _ = none

-- the loop over the items of `SET`
unfoldable pub plan_set_items : SetItems → LogicalPlan → Planned LogicalPlan
plan_set_items no_set_items plan = ok plan
plan_set_items (more_set_items (set_property target property v) items) plan =
    plan_set_items items (LogicalPlan.set_property plan (identifier_name target) property v)
plan_set_items (more_set_items _ items) plan = internal_err (codes "unsupported SET item")

unfoldable pub plan_statement : GqlStatement → Option LogicalPlan → Planned LogicalPlan
plan_statement (GqlStatement.match m) input = plan_match m input
plan_statement (GqlStatement.return r) input = ok (plan_return r input)
plan_statement (GqlStatement.insert i) input = plan_insert i input
plan_statement (GqlStatement.with w) input = ok (plan_with w input)
plan_statement (GqlStatement.call (call_statement procedure arguments yield_items)) input =
    ok (call_procedure procedure arguments yield_items)
plan_statement (GqlStatement.delete (delete_statement detach targets)) input = do
  base ← ok_or (codes "DELETE requires a preceding MATCH") input
  ok (delete_node base (target_names targets) detach)
plan_statement (GqlStatement.set (set_statement items)) input = do
  base ← ok_or (codes "SET requires a preceding MATCH") input
  plan_set_items items base
plan_statement (GqlStatement.create_index c) input =
    ok (LogicalPlan.create_index c.name c.unique c.entity_type c.label c.property_names)
plan_statement (GqlStatement.drop_index d) input = ok (LogicalPlan.drop_index d.name)
plan_statement (GqlStatement.create_graph c) input =
    ok (LogicalPlan.create_graph c.name c.if_not_exists)
plan_statement (GqlStatement.drop_graph d) input = ok (LogicalPlan.drop_graph d.name d.if_exists)
plan_statement GqlStatement.list_graphs input = ok list_graphs
plan_statement _ input = err (failed unsupported_statement)

-- the loop over the statements, each with the plan of those before it
unfoldable pub plan_from : GqlStatements → Option LogicalPlan → Planned (Option LogicalPlan)
plan_from no_statements current = ok current
plan_from (more_statements s ss) current = do
  next ← plan_statement s current
  plan_from ss (some next)

unfoldable pub plan : GqlProgram → Planned LogicalPlan
plan program = elim program.statements [
  | no_statements ↦ ok empty
  | more_statements s ss ↦ (do
    current ← plan_from (more_statements s ss) none
    ok_or (codes "empty plan") current)
]
