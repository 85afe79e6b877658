-- ===== src/Gql/Planner/Variables.antt =====
-- The variables that the plan of a `MATCH` binds are those of its patterns.
use synaptica.Prelude.{
  ◌≡◌, refl, sym, ◌∙◌, ap, Option, none, some, List, [], ◌∷◌, ◌++◌, append-nil, append_assoc, Bytes,
  ok,
}
use synaptica.Gql.Ast.{
  Entries, no_entries, more_entries, NodePattern, node_pattern, EdgePattern, edge_pattern,
  PatternElements, node, edge, no_elements, more_elements, PathPatterns, path_pattern, no_paths,
  more_paths, MatchStatement, match_statement, graph_pattern, OptionalWhere, no_where, some_where,
  where_clause,
}
use synaptica.Gql.Semantic.{variable}
use synaptica.Gql.Planner.{
  LogicalPlan, scan, filter, expand, join, sort, limit, distinct, scan_or_input,
  apply_inline_property_filters, nodes_of, edges_of, expand_edge, expand_edges, node_variable,
  node_variables, node_properties, edge_variable, edge_properties,
}
use synaptica.Gql.Planner.Insertions.{
  plan_traversal, plan_nodes, plan_path, plan_paths, join_all, plan_where, plan_match,
}

abbrev pub variables_of_option : Option Bytes → List Bytes
variables_of_option none = []
variables_of_option (some x) = x ∷ []

-- the variables that the scans and the expansions of a plan bind, in order
unfoldable pub bound : LogicalPlan → List Bytes
bound (scan labels graph v) = variables_of_option v
bound (filter input e) = bound input
bound (expand input label direction labels e v) =
    bound input ++ (variables_of_option e ++ variables_of_option v)
bound (join l r) = bound l ++ bound r
bound (sort input keys) = bound input
bound (limit input count offset) = bound input
bound (distinct input) = bound input
bound _ = []

-- the variables of patterns, in order
unfoldable pub element_variables : PatternElements → List Bytes
element_variables no_elements = []
element_variables (more_elements e es) = variables_of_option (variable e) ++ element_variables es

unfoldable pub path_variables : PathPatterns → List Bytes
path_variables no_paths = []
path_variables (more_paths (path_pattern v mode shortest es q w) ps) =
    element_variables es ++ path_variables ps

-- edges, each with its target node behind it
abbrev pub IsTail : PatternElements → Type 0
IsTail no_elements = Unit
IsTail (more_elements (edge e) (more_elements (node n) es)) = IsTail es
IsTail _ = ⊥

-- a node pattern, then edges and nodes in turn, as the parser builds a path
abbrev pub IsPath : PatternElements → Type 0
IsPath (more_elements (node n) es) = IsTail es
IsPath _ = ⊥

abbrev pub ArePaths : PathPatterns → Type 0
ArePaths no_paths = Unit
ArePaths (more_paths (path_pattern v mode shortest es q w) ps) = IsPath es × ArePaths ps

abbrev pub HasPaths : MatchStatement → Type 0
HasPaths (match_statement graph optional (graph_pattern no_paths mode) w _ _) = ⊥
HasPaths (match_statement graph optional (graph_pattern (more_paths p ps) mode) w _ _) =
    ArePaths (more_paths p ps)

bound-apply_inline_property_filters :
    (p : LogicalPlan) (es : Entries) (v : Option Bytes)
    → bound (apply_inline_property_filters p es v) ≡ bound p
unfolding bound apply_inline_property_filters
bound-apply_inline_property_filters p no_entries v = refl
bound-apply_inline_property_filters p (more_entries k e es) v =
    bound-apply_inline_property_filters (filter p _) es v

bound-expand_edge :
    (p : LogicalPlan) (e : EdgePattern) (n : NodePattern)
    → bound (expand_edge p e (some n))
      ≡ bound p ++ (variables_of_option (edge_variable e) ++ variables_of_option (node_variable n))
unfolding bound expand_edge
bound-expand_edge p e n =
    bound-apply_inline_property_filters _ (node_properties n) (node_variable n)
    ∙ bound-apply_inline_property_filters _ (edge_properties e) (edge_variable e)

bound-expand_edges :
    (p : LogicalPlan) (es : PatternElements)
    → IsTail es
    → bound (expand_edges p (edges_of es) (nodes_of es)) ≡ bound p ++ element_variables es
unfolding expand_edges edges_of nodes_of element_variables
bound-expand_edges p no_elements h = sym (append-nil (bound p))
bound-expand_edges p
      (more_elements
        (edge (edge_pattern v d l ps q))
        (more_elements (node (node_pattern w ls qs)) es))
      h =
    let e = edge_pattern v d l ps q in
    let n = node_pattern w ls qs in
    bound-expand_edges (expand_edge p e (some n)) es h
    ∙ ap (λ t. t ++ element_variables es) (bound-expand_edge p e n)
    ∙ append_assoc (bound p) (variables_of_option v ++ variables_of_option w) (element_variables es)
    ∙ ap (λ t. bound p ++ t)
        (append_assoc (variables_of_option v) (variables_of_option w) (element_variables es))
bound-expand_edges p _ h = absurd h

bound-scan_or_input :
    (graph : Option Bytes) (labels : List Bytes) (v : Option Bytes)
    → bound (scan_or_input none graph labels v) ≡ variables_of_option v
unfolding bound scan_or_input
bound-scan_or_input graph labels none = refl
bound-scan_or_input graph labels (some x) = refl

-- The plan of a path, which starts from a scan, binds the path's variables.
bound-plan_path :
    (graph : Option Bytes) (es : PatternElements)
    → IsPath es
    → (p : LogicalPlan) × ((plan_path none graph es ≡ ok p) × (bound p ≡ element_variables es))
unfolding plan_path plan_traversal plan_nodes edges_of nodes_of element_variables node_variables
bound-plan_path graph (more_elements (node (node_pattern none ls qs)) no_elements) h =
    (_, (refl, bound-apply_inline_property_filters _ _ none ∙ bound-scan_or_input graph _ none))
bound-plan_path graph (more_elements (node (node_pattern (some x) ls qs)) no_elements) h = (
  _,
  (refl, bound-apply_inline_property_filters _ _ (some x) ∙ bound-scan_or_input graph _ (some x)),
)
bound-plan_path graph
      (more_elements
        (node (node_pattern v ls qs))
        (more_elements (edge e) (more_elements (node n) es)))
      h =
    (
      _,
      (
        refl,
        bound-expand_edges _ (more_elements (edge e) (more_elements (node n) es)) h
            ∙ ap (λ t. t ++ element_variables (more_elements (edge e) (more_elements (node n) es)))
                (bound-apply_inline_property_filters _ qs v ∙ bound-scan_or_input graph ls v),
      ),
    )
bound-plan_path graph (more_elements (node n) _) h = absurd h
bound-plan_path graph _ h = absurd h

unfoldable pub all_bound : List LogicalPlan → List Bytes
all_bound [] = []
all_bound (p ∷ ps) = bound p ++ all_bound ps

bound-plan_paths :
    (graph : Option Bytes) (paths : PathPatterns)
    → ArePaths paths
    → (ps : List LogicalPlan) × ((plan_paths none graph paths ≡ ok ps)
        × (all_bound ps ≡ path_variables paths))
unfolding plan_paths path_variables all_bound
bound-plan_paths graph no_paths h = ([], (refl, refl))
bound-plan_paths graph (more_paths (path_pattern v mode shortest es q w) paths) (h, hs) =
    let (p, (e, b)) = bound-plan_path graph es h in
    let (ps, (f, c)) = bound-plan_paths graph paths hs in (p ∷ ps, (rw (e, f) refl, rw (b, c) refl))

bound-join_all :
    (p : LogicalPlan) (ps : List LogicalPlan) → bound (join_all p ps) ≡ bound p ++ all_bound ps
unfolding join_all all_bound bound
bound-join_all p [] = sym (append-nil (bound p))
bound-join_all p (r ∷ rs) =
    bound-join_all (join p r) rs ∙ append_assoc (bound p) (bound r) (all_bound rs)

bound-plan_where : (w : OptionalWhere) (p : LogicalPlan) → bound (plan_where w p) ≡ bound p
unfolding bound
bound-plan_where no_where p = refl
bound-plan_where (some_where (where_clause e)) p = refl

abbrev pub match_paths : MatchStatement → PathPatterns
match_paths (match_statement graph optional (graph_pattern paths mode) w _ _) = paths

pub bound-plan_match :
    (m : MatchStatement)
    → HasPaths m
    → (p : LogicalPlan) × ((plan_match m none ≡ ok p) × (bound p ≡ path_variables (match_paths m)))
unfolding plan_match plan_paths path_variables
bound-plan_match (match_statement graph optional (graph_pattern no_paths mode) w _ _) h = absurd h
bound-plan_match
      (match_statement graph optional
        (graph_pattern (more_paths (path_pattern v path_mode shortest es q c) paths) mode)
        w
        _
        _)
      (h, hs) =
    let (p, (e, b)) = bound-plan_path graph es h in
    let (ps, (f, d)) = bound-plan_paths graph paths hs in
    let eq = bound-plan_where w (join_all p ps) ∙ bound-join_all p ps in
    (plan_where w (join_all p ps), (rw (e, f) refl, eq ∙ rw (b, d) refl))
