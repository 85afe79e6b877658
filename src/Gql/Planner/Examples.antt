-- ===== src/Gql/Planner/Examples.antt =====
-- Plans of small programs, and the theorems on plans at concrete inputs.
use synaptica.Prelude.{◌≡◌, refl, false, none, some, [], ◌∷◌, ok, codes}
use synaptica.Gql.Ast.{
  literal, Literal, node_pattern, edge_pattern, outgoing, PatternElement, PatternElements, node,
  edge, no_elements, more_elements, path_pattern, PathPatterns, no_paths, more_paths, graph_pattern,
  MatchStatement, match_statement, no_entries, more_entries, no_where, no_order_by, no_limit_offset,
  insert_statement,
}
use synaptica.Gql.Semantic.{analyze_match}
use synaptica.Gql.Planner.{
  all_properties, append_entries, LogicalPlan, scan, create_node, scan_or_input,
  apply_inline_property_filters, nodes_of, edges_of, node_variables,
}
use synaptica.Gql.Planner.Insertions.{
  plan_match, plan_paths, plan_path, plan_nodes, join_all, plan_insert, plan_insert_node,
  all_elements, append_elements,
}
use synaptica.Gql.Planner.Variables.{bound, path_variables, match_paths}
use synaptica.Gql.Planner.Scopes.{Reaches, reverse_onto, plan_match-analyze_match}

abbrev ada : PatternElement
ada = node (
    node_pattern (some (codes "a")) (codes "Person" ∷ [])
      (more_entries (codes "name") (literal (Literal.string (codes "Ada"))) no_entries))

abbrev knows : PatternElement
knows = edge (edge_pattern (some (codes "r")) outgoing (codes "KNOWS" ∷ []) no_entries none)

abbrev friend : PatternElement
friend = node (node_pattern (some (codes "b")) [] no_entries)

abbrev chain : PatternElements
chain = more_elements ada (more_elements knows (more_elements friend no_elements))

abbrev one_path : PatternElements → PathPatterns
one_path es = more_paths (path_pattern none none none es none no_where) no_paths

-- MATCH (a:Person {name: 'Ada'})-[r:KNOWS]->(b)
abbrev friends : MatchStatement
friends =
    match_statement none false (graph_pattern (one_path chain) none) no_where no_order_by
      no_limit_offset

-- An `INSERT` of an edge with its two nodes, without an input, is planned as its first node alone.
inserted :
    plan_insert (insert_statement (one_path chain)) none
    ≡ ok (
        create_node
          (codes "Person" ∷ [])
          (more_entries (codes "name") (literal (Literal.string (codes "Ada"))) no_entries))
unfolding plan_insert plan_insert_node all_elements append_elements nodes_of
inserted = refl

-- A `MATCH` of one node behind another plan is planned as that plan: its variable and labels are lost.
abbrev lone : MatchStatement
lone =
    match_statement none false (graph_pattern (one_path (more_elements friend no_elements)) none)
      no_where no_order_by no_limit_offset

lost :
    plan_match lone (some (scan (codes "Person" ∷ []) none (some (codes "a"))))
    ≡ ok (scan (codes "Person" ∷ []) none (some (codes "a")))
unfolding plan_match plan_paths plan_path plan_nodes edges_of nodes_of node_variables scan_or_input
    apply_inline_property_filters join_all all_properties append_entries
lost = refl

plan_match-analyze_match_example :
    (p : LogicalPlan) × ((plan_match friends none ≡ ok p)
      × ((bound p ≡ path_variables (match_paths friends))
          × Reaches (analyze_match friends []) (reverse_onto (bound p) [])))
plan_match-analyze_match_example = plan_match-analyze_match friends (tt, tt)
