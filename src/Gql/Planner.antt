-- ===== src/Gql/Planner.antt =====
-- crates/synaptica-gql/src/planner.rs: logical plans, and the planner that builds them from a program.
pub mod Insertions
pub mod Statements
pub mod Variables
pub mod Scopes
pub mod Examples
use synaptica.Prelude.{
  ℕ, Bool, true, false, Option, none, some, List, [], ◌∷◌, Bytes, if◌then◌else◌, bytes_eq,
}
use synaptica.Prelude.Integers.{to_bits}
use synaptica.Gql.Ast.{
  Direction, SortDirection, Expression, Expressions, Entries, identifier, property_access,
  binary_op, BinaryOp, no_expressions, more_expressions, no_entries, more_entries, NodePattern,
  node_pattern, EdgePattern, edge_pattern, PatternElement, PatternElements, node, edge, no_elements,
  more_elements, OptionalExpression, no_expression, some_expression, literal, Literal,
  LimitOffsetClause, limit_offset_clause, OptionalLimitOffset, no_limit_offset, some_limit_offset,
  ReturnItems, no_return_items, more_return_items, return_item, OrderByItems, no_order_by_items,
  more_order_by_items, order_by_item,
}

pub data PlanError : Type 0 where
  unsupported_statement : PlanError
  internal : Bytes → PlanError

-- a `PlanError`, or a panic
pub data PlanFailure : Type 0 where
  failed : PlanError → PlanFailure
  panic : PlanFailure

-- The fields stand in the source's order.
pub data LogicalPlan : Type 0 where
  scan : List Bytes → Option Bytes → Option Bytes → LogicalPlan
  filter : LogicalPlan → Expression → LogicalPlan
  project : LogicalPlan → Expressions → List (Option Bytes) → LogicalPlan
  expand : LogicalPlan → Bytes → Direction → List Bytes → Option Bytes → Option Bytes → LogicalPlan
  join : LogicalPlan → LogicalPlan → LogicalPlan
  aggregate : LogicalPlan → Expressions → Expressions → LogicalPlan
  sort : LogicalPlan → List (Expression × SortDirection) → LogicalPlan
  limit : LogicalPlan → Option ℕ → Option ℕ → LogicalPlan
  distinct : LogicalPlan → LogicalPlan
  create_node : List Bytes → Entries → LogicalPlan
  create_edge : Bytes → LogicalPlan → LogicalPlan → Entries → LogicalPlan
  delete_node : LogicalPlan → List Bytes → Bool → LogicalPlan
  set_property : LogicalPlan → Option Bytes → Bytes → Expression → LogicalPlan
  union : LogicalPlan → LogicalPlan → Bool → LogicalPlan
  call_procedure : Bytes → Expressions → Option (List Bytes) → LogicalPlan
  empty : LogicalPlan
  create_edge_from_match : LogicalPlan → Bytes → Bytes → Bytes → Entries → LogicalPlan
  index_scan :
      Bytes
      → List Bytes
      → Option Bytes
      → List Bytes
      → Expressions
      → OptionalExpression
      → LogicalPlan
  create_index : Bytes → Bool → Bytes → Option Bytes → List Bytes → LogicalPlan
  drop_index : Bytes → LogicalPlan
  create_graph : Bytes → Bool → LogicalPlan
  drop_graph : Bytes → Bool → LogicalPlan
  list_graphs : LogicalPlan

-- `resolve_order_alias`, with its loop over the aliases
unfoldable pub expression_of_alias : Bytes → Expressions → List (Option Bytes) → Option Expression
expression_of_alias name no_expressions aliases = none
expression_of_alias name (more_expressions e es) [] = none
expression_of_alias name (more_expressions e es) (none ∷ aliases) =
    expression_of_alias name es aliases
expression_of_alias name (more_expressions e es) (some a ∷ aliases) =
    if bytes_eq a name then some e else expression_of_alias name es aliases

unfoldable pub resolve_order_alias : Expression → Expressions → List (Option Bytes) → Expression
resolve_order_alias (identifier name) exprs aliases =
    elim (expression_of_alias name exprs aliases) [ some e ↦ e | none ↦ identifier name ]
resolve_order_alias e exprs aliases = e

-- `unwrap_or("")`
abbrev pub name_or_empty : Option Bytes → Bytes
name_or_empty none = []
name_or_empty (some x) = x

unfoldable pub apply_inline_property_filters : LogicalPlan → Entries → Option Bytes → LogicalPlan
apply_inline_property_filters plan no_entries variable = plan
apply_inline_property_filters plan (more_entries key val rest) variable =
    let access = property_access (identifier (name_or_empty variable)) key in
    apply_inline_property_filters (filter plan (binary_op access BinaryOp.eq val)) rest variable

abbrev pub node_variable : NodePattern → Option Bytes
node_variable (node_pattern v labels properties) = v

abbrev pub node_labels : NodePattern → List Bytes
node_labels (node_pattern v labels properties) = labels

abbrev pub node_properties : NodePattern → Entries
node_properties (node_pattern v labels properties) = properties

abbrev pub edge_variable : EdgePattern → Option Bytes
edge_variable (edge_pattern v direction labels properties quantifier) = v

abbrev pub edge_labels : EdgePattern → List Bytes
edge_labels (edge_pattern v direction labels properties quantifier) = labels

abbrev pub edge_properties : EdgePattern → Entries
edge_properties (edge_pattern v direction labels properties quantifier) = properties

abbrev pub edge_direction : EdgePattern → Direction
edge_direction (edge_pattern v direction labels properties quantifier) = direction

-- the node and the edge patterns of a path, in order
unfoldable pub nodes_of : PatternElements → List NodePattern
nodes_of no_elements = []
nodes_of (more_elements (node n) es) = n ∷ nodes_of es
nodes_of (more_elements (edge e) es) = nodes_of es

unfoldable pub edges_of : PatternElements → List EdgePattern
edges_of no_elements = []
edges_of (more_elements (node n) es) = edges_of es
edges_of (more_elements (edge e) es) = e ∷ edges_of es

-- `first().cloned().unwrap_or_default()`
abbrev pub first_label : List Bytes → Bytes
first_label [] = []
first_label (l ∷ ls) = l

-- one `Expand`, with the filters of its edge and of its target node
unfoldable pub expand_edge : LogicalPlan → EdgePattern → Option NodePattern → LogicalPlan
expand_edge plan e none =
    let step =
      expand plan (first_label (edge_labels e)) (edge_direction e) [] (edge_variable e) none in
    apply_inline_property_filters step (edge_properties e) (edge_variable e)
expand_edge plan e (some n) =
    let step =
      expand plan (first_label (edge_labels e)) (edge_direction e) (node_labels n) (edge_variable e)
        (node_variable n) in
    let filtered = apply_inline_property_filters step (edge_properties e) (edge_variable e) in
    apply_inline_property_filters filtered (node_properties n) (node_variable n)

-- the chain of `Expand`s over the edges, with the nodes behind the source
unfoldable pub expand_edges : LogicalPlan → List EdgePattern → List NodePattern → LogicalPlan
expand_edges plan [] targets = plan
expand_edges plan (e ∷ es) [] = expand_edges (expand_edge plan e none) es []
expand_edges plan (e ∷ es) (n ∷ ns) = expand_edges (expand_edge plan e (some n)) es ns

-- `flatten` of the node patterns' labels and properties
unfoldable pub append_names : List Bytes → List Bytes → List Bytes
append_names [] ys = ys
append_names (x ∷ xs) ys = x ∷ append_names xs ys

unfoldable pub all_labels : List NodePattern → List Bytes
all_labels [] = []
all_labels (n ∷ ns) = append_names (node_labels n) (all_labels ns)

unfoldable pub append_entries : Entries → Entries → Entries
append_entries no_entries fs = fs
append_entries (more_entries k e es) fs = more_entries k e (append_entries es fs)

unfoldable pub all_properties : List NodePattern → Entries
all_properties [] = no_entries
all_properties (n ∷ ns) = append_entries (node_properties n) (all_properties ns)

-- the variables of the node patterns that have one
unfoldable pub node_variables : List NodePattern → List Bytes
node_variables [] = []
node_variables (n ∷ ns) = elim (node_variable n) [
  | none ↦ node_variables ns
  | some x ↦ x ∷ node_variables ns
]

abbrev pub first_of : List Bytes → Option Bytes
first_of [] = none
first_of (x ∷ xs) = some x

-- the plan that a path starts from: the input if there is one and the pattern has a variable
unfoldable pub scan_or_input :
    Option LogicalPlan → Option Bytes → List Bytes → Option Bytes → LogicalPlan
scan_or_input (some input) graph labels (some x) = input
scan_or_input _ graph labels variable = scan labels graph variable

-- `*n as u64` of an integer literal
abbrev pub integer_of : OptionalExpression → Option ℕ
integer_of (some_expression (literal (Literal.integer n))) = some (to_bits n)
integer_of _ = none

unfoldable pub plan_limit : OptionalLimitOffset → LogicalPlan → LogicalPlan
plan_limit no_limit_offset plan = plan
plan_limit (some_limit_offset (limit_offset_clause count offset)) plan =
    limit plan (integer_of count) (integer_of offset)

-- the expressions and the aliases of the items
unfoldable pub item_expressions : ReturnItems → Expressions
item_expressions no_return_items = no_expressions
item_expressions (more_return_items (return_item e alias) items) =
    more_expressions e (item_expressions items)

unfoldable pub item_aliases : ReturnItems → List (Option Bytes)
item_aliases no_return_items = []
item_aliases (more_return_items (return_item e alias) items) = alias ∷ item_aliases items

-- the keys of `ORDER BY`, each expression by `resolve`
unfoldable pub order_keys :
    (Expression → Expression) → OrderByItems → List (Expression × SortDirection)
order_keys resolve no_order_by_items = []
order_keys resolve (more_order_by_items (order_by_item e direction) items) =
    (resolve e, direction) ∷ order_keys resolve items
