-- ===== src/Gql/Token.antt =====
-- crates/synaptica-gql/src/lexer.rs: the tokens, and the table of keywords. Characters are code
-- points, a `String` is the list of them. The keyword variants carry the prefix `kw_`.
use synaptica.Prelude.{
  ℕ, ◌-◌, ◌&&◌, Bool, Option, List, [], ◌∷◌, map, Bytes, leb, if◌then◌else◌, codes, get_key,
}

pub record Span : Type 0 where
  pub line : ℕ
  pub column : ℕ
  pub offset : ℕ

-- The value of a float literal is its text: parsing it as an `f64` is left to the standard library.
pub data Token : Type 0 where
  kw_match kw_where kw_return kw_create kw_insert kw_delete kw_set kw_remove kw_drop kw_graph :
      Token
  kw_type kw_node kw_edge kw_true kw_false kw_null kw_not kw_and kw_or kw_xor kw_is kw_in : Token
  kw_like kw_as kw_by kw_order kw_asc kw_desc kw_limit kw_offset kw_group kw_having kw_with : Token
  kw_let kw_for kw_filter kw_call kw_yield kw_optional kw_mandatory kw_exists kw_case kw_when :
      Token
  kw_then kw_else kw_end kw_union kw_intersect kw_except kw_all kw_distinct kw_count kw_sum : Token
  kw_avg kw_min kw_max kw_collect kw_walk kw_trail kw_simple kw_acyclic kw_shortest kw_path : Token
  kw_any kw_commit kw_rollback kw_begin kw_if kw_detach kw_nodetach kw_cost kw_of kw_to kw_from :
      Token
  kw_index kw_unique kw_on kw_list : Token
  integer_lit : ℕ → Token
  float_lit string_lit : Bytes → Token
  bool_lit : Bool → Token
  null_lit : Token
  ident parameter : Bytes → Token
  plus minus star slash percent eq neq lt gt le ge double_pipe dot double_dot arrow left_arrow
        tilde :
      Token
  l_paren r_paren l_bracket r_bracket l_brace r_brace comma colon semicolon at : Token
  eof : Token
  comment : Bytes → Token

pub record SpannedToken : Type 0 where
  pub token : Token
  pub span : Span

pub record LexerError : Type 0 where
  pub message : Bytes
  pub line : ℕ
  pub column : ℕ

unfoldable pub to_ascii_uppercase : ℕ → ℕ
to_ascii_uppercase c = if leb 97 c && leb c 122 then c - 32 else c

unfoldable pub keywords : List (Bytes × Token)
keywords =
    (codes "MATCH", Token.kw_match)
    ∷ (codes "WHERE", Token.kw_where)
    ∷ (codes "RETURN", Token.kw_return)
    ∷ (codes "CREATE", Token.kw_create)
    ∷ (codes "INSERT", Token.kw_insert)
    ∷ (codes "DELETE", Token.kw_delete)
    ∷ (codes "SET", Token.kw_set)
    ∷ (codes "REMOVE", Token.kw_remove)
    ∷ (codes "DROP", Token.kw_drop)
    ∷ (codes "GRAPH", Token.kw_graph)
    ∷ (codes "TYPE", Token.kw_type)
    ∷ (codes "NODE", Token.kw_node)
    ∷ (codes "EDGE", Token.kw_edge)
    ∷ (codes "TRUE", Token.kw_true)
    ∷ (codes "FALSE", Token.kw_false)
    ∷ (codes "NULL", Token.kw_null)
    ∷ (codes "NOT", Token.kw_not)
    ∷ (codes "AND", Token.kw_and)
    ∷ (codes "OR", Token.kw_or)
    ∷ (codes "XOR", Token.kw_xor)
    ∷ (codes "IS", Token.kw_is)
    ∷ (codes "IN", Token.kw_in)
    ∷ (codes "LIKE", Token.kw_like)
    ∷ (codes "AS", Token.kw_as)
    ∷ (codes "BY", Token.kw_by)
    ∷ (codes "ORDER", Token.kw_order)
    ∷ (codes "ASC", Token.kw_asc)
    ∷ (codes "DESC", Token.kw_desc)
    ∷ (codes "LIMIT", Token.kw_limit)
    ∷ (codes "OFFSET", Token.kw_offset)
    ∷ (codes "GROUP", Token.kw_group)
    ∷ (codes "HAVING", Token.kw_having)
    ∷ (codes "WITH", Token.kw_with)
    ∷ (codes "LET", Token.kw_let)
    ∷ (codes "FOR", Token.kw_for)
    ∷ (codes "FILTER", Token.kw_filter)
    ∷ (codes "CALL", Token.kw_call)
    ∷ (codes "YIELD", Token.kw_yield)
    ∷ (codes "OPTIONAL", Token.kw_optional)
    ∷ (codes "MANDATORY", Token.kw_mandatory)
    ∷ (codes "EXISTS", Token.kw_exists)
    ∷ (codes "CASE", Token.kw_case)
    ∷ (codes "WHEN", Token.kw_when)
    ∷ (codes "THEN", Token.kw_then)
    ∷ (codes "ELSE", Token.kw_else)
    ∷ (codes "END", Token.kw_end)
    ∷ (codes "UNION", Token.kw_union)
    ∷ (codes "INTERSECT", Token.kw_intersect)
    ∷ (codes "EXCEPT", Token.kw_except)
    ∷ (codes "ALL", Token.kw_all)
    ∷ (codes "DISTINCT", Token.kw_distinct)
    ∷ (codes "COUNT", Token.kw_count)
    ∷ (codes "SUM", Token.kw_sum)
    ∷ (codes "AVG", Token.kw_avg)
    ∷ (codes "MIN", Token.kw_min)
    ∷ (codes "MAX", Token.kw_max)
    ∷ (codes "COLLECT", Token.kw_collect)
    ∷ (codes "WALK", Token.kw_walk)
    ∷ (codes "TRAIL", Token.kw_trail)
    ∷ (codes "SIMPLE", Token.kw_simple)
    ∷ (codes "ACYCLIC", Token.kw_acyclic)
    ∷ (codes "SHORTEST", Token.kw_shortest)
    ∷ (codes "PATH", Token.kw_path)
    ∷ (codes "ANY", Token.kw_any)
    ∷ (codes "COMMIT", Token.kw_commit)
    ∷ (codes "ROLLBACK", Token.kw_rollback)
    ∷ (codes "BEGIN", Token.kw_begin)
    ∷ (codes "IF", Token.kw_if)
    ∷ (codes "DETACH", Token.kw_detach)
    ∷ (codes "NODETACH", Token.kw_nodetach)
    ∷ (codes "COST", Token.kw_cost)
    ∷ (codes "OF", Token.kw_of)
    ∷ (codes "TO", Token.kw_to)
    ∷ (codes "FROM", Token.kw_from)
    ∷ (codes "INDEX", Token.kw_index)
    ∷ (codes "UNIQUE", Token.kw_unique)
    ∷ (codes "ON", Token.kw_on)
    ∷ (codes "LIST", Token.kw_list)
    ∷ []

unfoldable pub keyword_token : Bytes → Option Token
keyword_token word = get_key (map to_ascii_uppercase word) keywords
