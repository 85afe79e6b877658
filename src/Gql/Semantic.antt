-- ===== src/Gql/Semantic.antt =====
-- crates/synaptica-gql/src/semantic.rs: the semantic analyzer. Its state is the scope, a set of names,
-- as a list; a run that fails ends with the scope it has reached.
use synaptica.Prelude.{
  Bool, true, false, Option, none, some, List, [], ◌∷◌, Bytes, bytes_eq, if◌then◌else◌, Result, ok,
  err, ◌>>=◌,
}
use synaptica.Gql.Ast.{
  Expression, Expressions, OptionalExpression, Entries, WhenClauses, literal, identifier,
  property_access, function_call, binary_op, unary_op, case, exists, aggregate, list, map,
  parameter, subquery, is_null, is_not_null, in_list, like, type_cast, path, no_expressions,
  more_expressions, no_expression, some_expression, no_entries, more_entries, no_when_clauses,
  more_when_clauses, ReturnItem, ReturnItems, return_item, no_return_items, more_return_items,
  node_pattern, edge_pattern, PatternElement, PatternElements, node, edge, no_elements,
  more_elements, PathPatterns, path_pattern, no_paths, more_paths, graph_pattern, OptionalWhere,
  where_clause, no_where, some_where, MatchStatement, match_statement, ReturnStatement,
  return_statement, GqlStatement, GqlStatements, no_statements, more_statements, match, return,
  GqlProgram,
}

pub data SemanticError : Type 0 where
  undefined_variable : Bytes → SemanticError
  duplicate_variable : Bytes → SemanticError
  type_mismatch : Bytes → Bytes → SemanticError
  invalid_label_reference : Bytes → SemanticError
  invalid_property_reference : Bytes → SemanticError

abbrev pub Scope : Type 0
Scope = List Bytes

-- `HashSet::contains`
unfoldable pub in_scope : Bytes → Scope → Bool
in_scope x [] = false
in_scope x (y ∷ ys) = if bytes_eq y x then true else in_scope x ys

-- `check_expression`, and its loops
unfoldable mutual
  pub check_expression : Expression → Scope → Result SemanticError (Unit {0})
  check_expression (identifier name) scope =
      if in_scope name scope then ok tt else err (undefined_variable name)
  check_expression (property_access object property) scope = check_expression object scope
  check_expression (binary_op left op right) scope = do
    _ ← check_expression left scope
    check_expression right scope
  check_expression (unary_op op operand) scope = check_expression operand scope
  check_expression (function_call name args) scope = check_expressions args scope
  check_expression (aggregate function distinct arg) scope = check_optional arg scope
  check_expression (is_null inner) scope = check_expression inner scope
  check_expression (is_not_null inner) scope = check_expression inner scope
  check_expression (in_list operand l) scope = do
    _ ← check_expression operand scope
    check_expression l scope
  check_expression (like operand pattern) scope = do
    _ ← check_expression operand scope
    check_expression pattern scope
  check_expression (list items) scope = check_expressions items scope
  check_expression (map entries) scope = check_entries entries scope
  check_expression (case operand when_clauses else_clause) scope = do
    _ ← check_optional operand scope
    _ ← check_when_clauses when_clauses scope
    check_optional else_clause scope
  check_expression (type_cast e t) scope = check_expression e scope
  check_expression (literal l) scope = ok tt
  check_expression (exists s) scope = ok tt
  check_expression (parameter name) scope = ok tt
  check_expression (subquery s) scope = ok tt
  check_expression (path p) scope = ok tt

  pub check_expressions : Expressions → Scope → Result SemanticError (Unit {0})
  check_expressions no_expressions scope = ok tt
  check_expressions (more_expressions e es) scope = do
    _ ← check_expression e scope
    check_expressions es scope

  pub check_entries : Entries → Scope → Result SemanticError (Unit {0})
  check_entries no_entries scope = ok tt
  check_entries (more_entries k e es) scope = do
    _ ← check_expression e scope
    check_entries es scope

  pub check_optional : OptionalExpression → Scope → Result SemanticError (Unit {0})
  check_optional no_expression scope = ok tt
  check_optional (some_expression e) scope = check_expression e scope

  pub check_when_clauses : WhenClauses → Scope → Result SemanticError (Unit {0})
  check_when_clauses no_when_clauses scope = ok tt
  check_when_clauses (more_when_clauses w t rest) scope = do
    _ ← check_expression w scope
    _ ← check_expression t scope
    check_when_clauses rest scope

-- the variable of a pattern's element
abbrev pub variable : PatternElement → Option Bytes
variable (node (node_pattern v labels properties)) = v
variable (edge (edge_pattern v direction labels properties quantifier)) = v

-- `scope.insert` of an element's variable, if it has one
unfoldable pub declare : Option Bytes → Scope → Result SemanticError Scope
declare none scope = ok scope
declare (some x) scope = if in_scope x scope then err (duplicate_variable x) else ok (x ∷ scope)

unfoldable pub declare_elements : PatternElements → Scope → Result SemanticError Scope
declare_elements no_elements scope = ok scope
declare_elements (more_elements e es) scope = do
  scope ← declare (variable e) scope
  declare_elements es scope

unfoldable pub declare_paths : PathPatterns → Scope → Result SemanticError Scope
declare_paths no_paths scope = ok scope
declare_paths (more_paths (path_pattern v mode shortest es q w) ps) scope = do
  scope ← declare_elements es scope
  declare_paths ps scope

unfoldable pub check_where : OptionalWhere → Scope → Result SemanticError (Unit {0})
check_where no_where scope = ok tt
check_where (some_where (where_clause condition)) scope = check_expression condition scope

unfoldable pub analyze_match : MatchStatement → Scope → Result SemanticError Scope
analyze_match (match_statement g optional (graph_pattern paths mode) w _ _) scope = do
  scope ← declare_paths paths scope
  _ ← check_where w scope
  ok scope

abbrev pub check_return_item : ReturnItem → Scope → Result SemanticError (Unit {0})
check_return_item (return_item e alias) scope = check_expression e scope

unfoldable pub check_return_items : ReturnItems → Scope → Result SemanticError (Unit {0})
check_return_items no_return_items scope = ok tt
check_return_items (more_return_items item items) scope = do
  _ ← check_return_item item scope
  check_return_items items scope

abbrev pub analyze_return : ReturnStatement → Scope → Result SemanticError (Unit {0})
analyze_return (return_statement distinct items group _ _ _) scope = check_return_items items scope

unfoldable pub analyze_statement : GqlStatement → Scope → Result SemanticError Scope
analyze_statement (match m) scope = analyze_match m scope
analyze_statement (return r) scope = do _ ← analyze_return r scope; ok scope
analyze_statement _ scope = ok scope

-- `analyze`: the scope behind the statements
unfoldable pub analyze_from : GqlStatements → Scope → Result SemanticError Scope
analyze_from no_statements scope = ok scope
analyze_from (more_statements s ss) scope = do
  scope ← analyze_statement s scope
  analyze_from ss scope

abbrev pub analyze : GqlProgram → Scope → Result SemanticError Scope
analyze program scope = analyze_from program.statements scope
