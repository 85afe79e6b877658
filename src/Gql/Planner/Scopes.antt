-- ===== src/Gql/Planner/Scopes.antt =====
-- The scope that the semantic analysis of a `MATCH` reaches holds the variables that its plan binds.
use synaptica.Prelude.{
  if◌then◌else◌, subst, ◌≡◌, refl, sym, Bool, true, false, Option, none, some, List, [], ◌∷◌, ◌++◌,
  Bytes, ok, err, Result, ◌>>=◌,
}
use synaptica.Gql.Ast.{
  PatternElements, no_elements, more_elements, PathPatterns, path_pattern, no_paths, more_paths,
  MatchStatement, match_statement, graph_pattern,
}
use synaptica.Gql.Semantic.{
  duplicate_variable, SemanticError, Scope, in_scope, variable, declare, declare_elements,
  declare_paths, check_where, analyze_match,
}
use synaptica.Gql.Planner.{LogicalPlan}
use synaptica.Gql.Planner.Insertions.{plan_match}
use synaptica.Gql.Planner.Variables.{
  variables_of_option, bound, element_variables, path_variables, HasPaths, match_paths,
  bound-plan_match,
}

-- `xs`, the last one first, in front of `scope`
unfoldable pub reverse_onto : List Bytes → Scope → Scope
reverse_onto [] scope = scope
reverse_onto (x ∷ xs) scope = reverse_onto xs (x ∷ scope)

reverse_onto-append :
    (xs ys : List Bytes) (scope : Scope)
    → reverse_onto (xs ++ ys) scope ≡ reverse_onto ys (reverse_onto xs scope)
unfolding reverse_onto
reverse_onto-append [] ys scope = refl
reverse_onto-append (x ∷ xs) ys scope = reverse_onto-append xs ys (x ∷ scope)

-- the scope that a successful run reaches
abbrev pub Reaches : Result SemanticError Scope → Scope → Type 0
Reaches (ok s) t = s ≡ t
Reaches (err e) t = Unit

Reaches-bind :
    (r : Result SemanticError Scope) (f : Scope → Result SemanticError Scope) (s t : Scope)
    → Reaches r s
    → Reaches (f s) t
    → Reaches (r >>= f) t
Reaches-bind (ok a) f s t h k = subst (λ x. Reaches (f x) t) (sym h) k
Reaches-bind (err e) f s t h k = tt

declare-Reaches :
    (o : Option Bytes) (scope : Scope)
    → Reaches (declare o scope) (reverse_onto (variables_of_option o) scope)
unfolding declare reverse_onto
declare-Reaches none scope = refl
declare-Reaches (some x) scope = added (in_scope x scope)
  where
    added :
        (b : Bool) → Reaches (if b then err (duplicate_variable x) else ok (x ∷ scope)) (x ∷ scope)
    added true = tt
    added false = refl

declare_elements-Reaches :
    (es : PatternElements) (scope : Scope)
    → Reaches (declare_elements es scope) (reverse_onto (element_variables es) scope)
unfolding declare_elements element_variables reverse_onto
declare_elements-Reaches no_elements scope = refl
declare_elements-Reaches (more_elements e es) scope =
    rw (reverse_onto-append (variables_of_option (variable e)) (element_variables es) scope) (
      Reaches-bind (declare (variable e) scope) _ _ _ (declare-Reaches (variable e) scope)
        (declare_elements-Reaches es _))

declare_paths-Reaches :
    (ps : PathPatterns) (scope : Scope)
    → Reaches (declare_paths ps scope) (reverse_onto (path_variables ps) scope)
unfolding declare_paths path_variables reverse_onto
declare_paths-Reaches no_paths scope = refl
declare_paths-Reaches (more_paths (path_pattern v mode shortest es q w) ps) scope =
    rw (reverse_onto-append (element_variables es) (path_variables ps) scope) (
      Reaches-bind (declare_elements es scope) _ _ _ (declare_elements-Reaches es scope)
        (declare_paths-Reaches ps _))

analyze_match-Reaches :
    (m : MatchStatement) (scope : Scope)
    → Reaches (analyze_match m scope) (reverse_onto (path_variables (match_paths m)) scope)
unfolding analyze_match
analyze_match-Reaches (match_statement graph optional (graph_pattern paths mode) w _ _) scope =
    Reaches-bind (declare_paths paths scope) _ _ _ (declare_paths-Reaches paths scope)
      (checked (check_where w _) _)
  where
    checked : (r : Result SemanticError (Unit {0})) (s : Scope) → Reaches (r >>= λ _. ok s) s
    checked (ok u) s = refl
    checked (err e) s = tt

-- A `MATCH` whose paths (one at least) are node patterns with an edge pattern between each two of them,
-- planned without an input, has a plan, whose scans and expansions bind the variables of the patterns in
-- their order; if the semantic analysis accepts the `MATCH` in the empty scope, the scope that it reaches
-- is these variables, the last one first.
pub plan_match-analyze_match :
    (m : MatchStatement)
    → HasPaths m
    → (p : LogicalPlan) × ((plan_match m none ≡ ok p)
        × ((bound p ≡ path_variables (match_paths m))
            × Reaches (analyze_match m []) (reverse_onto (bound p) [])))
plan_match-analyze_match m h =
    let (p, (e, b)) = bound-plan_match m h in
    (
      p,
      (
        e,
        (
          b,
          subst (λ xs. Reaches (analyze_match m []) (reverse_onto xs [])) (sym b)
              (analyze_match-Reaches m []),
        ),
      ),
    )
