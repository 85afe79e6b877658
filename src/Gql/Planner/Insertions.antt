-- ===== src/Gql/Planner/Insertions.antt =====
-- crates/synaptica-gql/src/planner.rs: `plan_statement` of `MATCH` and `INSERT`.
use synaptica.Prelude.{Option, none, some, List, [], ◌∷◌, Bytes, Result, ok, err, ◌>>=◌, codes}
use synaptica.Gql.Ast.{
  NodePattern, EdgePattern, PatternElements, no_elements, more_elements, PathPatterns, path_pattern,
  no_paths, more_paths, MatchStatement, match_statement, graph_pattern, OptionalWhere, no_where,
  some_where, where_clause, InsertStatement, insert_statement,
}
use synaptica.Gql.Planner.{
  LogicalPlan, PlanFailure, internal, failed, panic, join, filter, create_node,
  create_edge_from_match, nodes_of, edges_of, scan_or_input, apply_inline_property_filters,
  expand_edges, node_variable, node_labels, node_properties, all_labels, all_properties,
  node_variables, first_of, edge_labels, edge_properties,
}

abbrev pub Planned : Type 0 → Type 0
Planned = Result PlanFailure

abbrev pub internal_err : {A : Type 0} → Bytes → Planned A
internal_err message = err (failed (internal message))

-- `ok_or`
abbrev pub ok_or : {A : Type 0} → Bytes → Option A → Planned A
ok_or message none = internal_err message
ok_or message (some a) = ok a

-- a path with edges
unfoldable pub plan_traversal :
    Option LogicalPlan → Option Bytes → List NodePattern → List EdgePattern → Planned LogicalPlan
plan_traversal input graph [] edges = internal_err (codes "edge pattern missing source node")
plan_traversal input graph (n ∷ ns) edges =
    let start = scan_or_input input graph (node_labels n) (node_variable n) in
    let filtered = apply_inline_property_filters start (node_properties n) (node_variable n) in
    ok (expand_edges filtered edges ns)

-- a path without edges
unfoldable pub plan_nodes : Option LogicalPlan → Option Bytes → List NodePattern → LogicalPlan
plan_nodes input graph nodes =
    let variable = first_of (node_variables nodes) in
    apply_inline_property_filters (scan_or_input input graph (all_labels nodes) variable)
      (all_properties nodes) variable

unfoldable pub plan_path : Option LogicalPlan → Option Bytes → PatternElements → Planned LogicalPlan
plan_path input graph es = elim (edges_of es) [
  | [] ↦ ok (plan_nodes input graph (nodes_of es))
  | e ∷ edges ↦ plan_traversal input graph (nodes_of es) (e ∷ edges)
]

-- the loop over the paths, with one plan each
unfoldable pub plan_paths :
    Option LogicalPlan → Option Bytes → PathPatterns → Planned (List LogicalPlan)
plan_paths input graph no_paths = ok []
plan_paths input graph (more_paths (path_pattern v mode shortest es quantifier w) paths) = do
  p ← plan_path input graph es
  ps ← plan_paths input graph paths
  ok (p ∷ ps)

-- the loop of `Join`s
unfoldable pub join_all : LogicalPlan → List LogicalPlan → LogicalPlan
join_all plan [] = plan
join_all plan (p ∷ ps) = join_all (join plan p) ps

abbrev pub plan_where : OptionalWhere → LogicalPlan → LogicalPlan
plan_where no_where plan = plan
plan_where (some_where (where_clause condition)) plan = filter plan condition

-- `scans.remove(0)` panics without a path
unfoldable pub plan_match : MatchStatement → Option LogicalPlan → Planned LogicalPlan
plan_match (match_statement graph optional (graph_pattern paths mode) w _ _) input = do
  scans ← plan_paths input graph paths
  elim scans [ [] ↦ err panic | p ∷ ps ↦ ok (plan_where w (join_all p ps)) ]

-- the elements of all the patterns, in order
unfoldable pub append_elements : PatternElements → PatternElements → PatternElements
append_elements no_elements fs = fs
append_elements (more_elements e es) fs = more_elements e (append_elements es fs)

unfoldable pub all_elements : PathPatterns → PatternElements
all_elements no_paths = no_elements
all_elements (more_paths (path_pattern v mode shortest es quantifier w) paths) =
    append_elements es (all_elements paths)

-- `nth(1)`
abbrev pub second_of : List Bytes → Option Bytes
second_of [] = none
second_of (x ∷ []) = none
second_of (x ∷ y ∷ ys) = some y

unfoldable pub plan_insert_edge : LogicalPlan → List NodePattern → EdgePattern → Planned LogicalPlan
plan_insert_edge base nodes e = do
  source ←
      ok_or (codes "edge INSERT requires source node variable") (first_of (node_variables nodes))
  target ←
      ok_or (codes "edge INSERT requires target node variable") (second_of (node_variables nodes))
  label ← ok_or (codes "edge INSERT requires a label") (first_of (edge_labels e))
  ok (create_edge_from_match base source target label (edge_properties e))

unfoldable pub plan_insert_node : List NodePattern → Planned LogicalPlan
plan_insert_node [] = internal_err (codes "INSERT requires at least one node pattern")
plan_insert_node (n ∷ ns) = ok (create_node (node_labels n) (node_properties n))

unfoldable pub plan_insert : InsertStatement → Option LogicalPlan → Planned LogicalPlan
plan_insert (insert_statement paths) none = plan_insert_node (nodes_of (all_elements paths))
plan_insert (insert_statement paths) (some base) =
    let elements = all_elements paths in
    elim (edges_of elements) [
      | [] ↦ plan_insert_node (nodes_of elements)
      | e ∷ edges ↦ plan_insert_edge base (nodes_of elements) e
    ]
