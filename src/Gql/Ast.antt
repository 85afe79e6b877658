-- ===== src/Gql/Ast.antt =====
-- crates/synaptica-gql/src/ast.rs. Expressions hold statements and statements hold expressions, so
-- that these types stand in one block. A `struct` in it is a data type with one constructor, its
-- fields in the source's order; `Vec<T>` is a type with the constructors `no_…` and `more_…`, and
-- `Option<T>` one with `no_…` and `some_…`. A float literal is its text, as in the lexer.
use synaptica.Prelude.{ℕ, Bool, Option, List, Bytes}
use synaptica.Prelude.Integers.{ℤ}

pub data SetOp : Type 0 where
  union intersect except : SetOp

pub data PathMode : Type 0 where
  walk trail simple acyclic : PathMode

pub data Direction : Type 0 where
  outgoing incoming undirected : Direction

pub record Quantifier : Type 0 where
  pub min : Option ℕ
  pub max : Option ℕ

pub data ShortestPathMode : Type 0 where
  shortest all_shortest any_shortest_path : ShortestPathMode

pub data BinaryOp : Type 0 where
  add sub mul div modulo : BinaryOp
  and or xor concat : BinaryOp
  eq neq lt gt le ge : BinaryOp

pub data UnaryOp : Type 0 where
  not neg pos : UnaryOp

pub data AggregateFunction : Type 0 where
  count sum avg min max collect std_dev percentile : AggregateFunction

pub data SortDirection : Type 0 where
  asc desc : SortDirection

-- Literals

mutual
  pub data Literal : Type 0 where
    integer : ℤ → Literal
    float : Bytes → Literal
    string : Bytes → Literal
    bool : Bool → Literal
    null : Literal
    date time timestamp duration : Bytes → Literal
    list : Literals → Literal
    map : LiteralEntries → Literal

  pub data Literals : Type 0 where
    no_literals : Literals
    more_literals : Literal → Literals → Literals

  pub data LiteralEntries : Type 0 where
    no_literal_entries : LiteralEntries
    more_literal_entries : Bytes → Literal → LiteralEntries → LiteralEntries

-- Schema and graph types

pub record PropertyDecl : Type 0 where
  pub name : Bytes
  pub property_type : Bytes
  pub required : Bool

pub record NodeType : Type 0 where
  pub labels : List Bytes
  pub properties : List PropertyDecl

pub record EdgeType : Type 0 where
  pub labels : List Bytes
  pub source : List Bytes
  pub destination : List Bytes
  pub direction : Direction
  pub properties : List PropertyDecl

pub record GraphType : Type 0 where
  pub node_types : List NodeType
  pub edge_types : List EdgeType

-- Statements without expressions

pub record CreateGraphStatement : Type 0 where
  pub name : Bytes
  pub if_not_exists : Bool
  pub graph_type : Option GraphType

pub record DropGraphStatement : Type 0 where
  pub name : Bytes
  pub if_exists : Bool

pub record CreateGraphTypeStatement : Type 0 where
  pub name : Bytes
  pub if_not_exists : Bool
  pub graph_type : GraphType

pub record CreateIndexStatement : Type 0 where
  pub name : Bytes
  pub unique : Bool
  pub entity_type : Bytes
  pub label : Option Bytes
  pub property_names : List Bytes
  pub if_not_exists : Bool

pub record DropIndexStatement : Type 0 where
  pub name : Bytes
  pub if_exists : Bool

mutual
  -- Expressions
  pub data Expression : Type 0 where
    literal : Literal → Expression
    identifier : Bytes → Expression
    property_access : Expression → Bytes → Expression
    function_call : Bytes → Expressions → Expression
    binary_op : Expression → BinaryOp → Expression → Expression
    unary_op : UnaryOp → Expression → Expression
    case : OptionalExpression → WhenClauses → OptionalExpression → Expression
    exists : GqlStatement → Expression
    aggregate : AggregateFunction → Bool → OptionalExpression → Expression
    list : Expressions → Expression
    map : Entries → Expression
    parameter : Bytes → Expression
    subquery : GqlStatement → Expression
    is_null : Expression → Expression
    is_not_null : Expression → Expression
    in_list : Expression → Expression → Expression
    like : Expression → Expression → Expression
    type_cast : Expression → Bytes → Expression
    path : PathPattern → Expression

  pub data Expressions : Type 0 where
    no_expressions : Expressions
    more_expressions : Expression → Expressions → Expressions

  pub data OptionalExpression : Type 0 where
    no_expression : OptionalExpression
    some_expression : Expression → OptionalExpression

  -- names with an expression each
  pub data Entries : Type 0 where
    no_entries : Entries
    more_entries : Bytes → Expression → Entries → Entries

  pub data WhenClauses : Type 0 where
    no_when_clauses : WhenClauses
    more_when_clauses : Expression → Expression → WhenClauses → WhenClauses

  -- Clauses
  pub data WhereClause : Type 0 where
    where_clause : Expression → WhereClause

  pub data OptionalWhere : Type 0 where
    no_where : OptionalWhere
    some_where : WhereClause → OptionalWhere

  pub data OrderByItem : Type 0 where
    order_by_item : Expression → SortDirection → OrderByItem

  pub data OrderByItems : Type 0 where
    no_order_by_items : OrderByItems
    more_order_by_items : OrderByItem → OrderByItems → OrderByItems

  pub data OrderByClause : Type 0 where
    order_by_clause : OrderByItems → OrderByClause

  pub data OptionalOrderBy : Type 0 where
    no_order_by : OptionalOrderBy
    some_order_by : OrderByClause → OptionalOrderBy

  pub data LimitOffsetClause : Type 0 where
    limit_offset_clause : OptionalExpression → OptionalExpression → LimitOffsetClause

  pub data OptionalLimitOffset : Type 0 where
    no_limit_offset : OptionalLimitOffset
    some_limit_offset : LimitOffsetClause → OptionalLimitOffset

  pub data GroupByClause : Type 0 where
    group_by_clause : Expressions → GroupByClause

  pub data OptionalGroupBy : Type 0 where
    no_group_by : OptionalGroupBy
    some_group_by : GroupByClause → OptionalGroupBy

  pub data HavingClause : Type 0 where
    having_clause : Expression → HavingClause

  pub data OptionalHaving : Type 0 where
    no_having : OptionalHaving
    some_having : HavingClause → OptionalHaving

  pub data ReturnItem : Type 0 where
    return_item : Expression → Option Bytes → ReturnItem

  pub data ReturnItems : Type 0 where
    no_return_items : ReturnItems
    more_return_items : ReturnItem → ReturnItems → ReturnItems

  -- Graph patterns
  pub data NodePattern : Type 0 where
    node_pattern : Option Bytes → List Bytes → Entries → NodePattern

  pub data EdgePattern : Type 0 where
    edge_pattern : Option Bytes → Direction → List Bytes → Entries → Option Quantifier → EdgePattern

  pub data PatternElement : Type 0 where
    node : NodePattern → PatternElement
    edge : EdgePattern → PatternElement

  pub data PatternElements : Type 0 where
    no_elements : PatternElements
    more_elements : PatternElement → PatternElements → PatternElements

  pub data PathPattern : Type 0 where
    path_pattern :
        Option Bytes
        → Option PathMode
        → Option ShortestPathMode
        → PatternElements
        → Option Quantifier
        → OptionalWhere
        → PathPattern

  pub data PathPatterns : Type 0 where
    no_paths : PathPatterns
    more_paths : PathPattern → PathPatterns → PathPatterns

  pub data GraphPattern : Type 0 where
    graph_pattern : PathPatterns → Option PathMode → GraphPattern

  -- Statements
  pub data GqlStatement : Type 0 where
    match : MatchStatement → GqlStatement
    return : ReturnStatement → GqlStatement
    insert : InsertStatement → GqlStatement
    set : SetStatement → GqlStatement
    delete : DeleteStatement → GqlStatement
    remove : RemoveStatement → GqlStatement
    create_graph : CreateGraphStatement → GqlStatement
    drop_graph : DropGraphStatement → GqlStatement
    create_graph_type : CreateGraphTypeStatement → GqlStatement
    call : CallStatement → GqlStatement
    with : WithStatement → GqlStatement
    composite_query : CompositeQueryStatement → GqlStatement
    create_index : CreateIndexStatement → GqlStatement
    drop_index : DropIndexStatement → GqlStatement
    list_graphs : GqlStatement

  pub data GqlStatements : Type 0 where
    no_statements : GqlStatements
    more_statements : GqlStatement → GqlStatements → GqlStatements

  pub data MatchStatement : Type 0 where
    match_statement :
        Option Bytes
        → Bool
        → GraphPattern
        → OptionalWhere
        → OptionalOrderBy
        → OptionalLimitOffset
        → MatchStatement

  pub data ReturnStatement : Type 0 where
    return_statement :
        Bool
        → ReturnItems
        → OptionalGroupBy
        → OptionalHaving
        → OptionalOrderBy
        → OptionalLimitOffset
        → ReturnStatement

  pub data WithStatement : Type 0 where
    with_statement :
        Bool → ReturnItems → OptionalWhere → OptionalOrderBy → OptionalLimitOffset → WithStatement

  pub data InsertStatement : Type 0 where
    insert_statement : PathPatterns → InsertStatement

  pub data SetItem : Type 0 where
    set_property : Expression → Bytes → Expression → SetItem
    set_label : Expression → Bytes → SetItem
    set_all_properties : Expression → Expression → SetItem

  pub data SetItems : Type 0 where
    no_set_items : SetItems
    more_set_items : SetItem → SetItems → SetItems

  pub data SetStatement : Type 0 where
    set_statement : SetItems → SetStatement

  pub data DeleteStatement : Type 0 where
    delete_statement : Bool → Expressions → DeleteStatement

  pub data RemoveItem : Type 0 where
    remove_property : Expression → Bytes → RemoveItem
    remove_label : Expression → Bytes → RemoveItem

  pub data RemoveItems : Type 0 where
    no_remove_items : RemoveItems
    more_remove_items : RemoveItem → RemoveItems → RemoveItems

  pub data RemoveStatement : Type 0 where
    remove_statement : RemoveItems → RemoveStatement

  pub data CallStatement : Type 0 where
    call_statement : Bytes → Expressions → Option (List Bytes) → CallStatement

  pub data SetOperation : Type 0 where
    set_operation : SetOp → Bool → SetOperand → SetOperand → SetOperation

  pub data SetOperand : Type 0 where
    query : GqlStatements → SetOperand
    nested : SetOperation → SetOperand

  pub data CompositeQueryStatement : Type 0 where
    composite_query_statement :
        SetOperation → OptionalOrderBy → OptionalLimitOffset → CompositeQueryStatement

pub record GqlProgram : Type 0 where
  pub statements : GqlStatements
