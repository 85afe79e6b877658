-- ===== src/Exec/Expression/Parts.antt =====
-- The parts of `evaluate` that are not recursive, and literals, on a well-formed record.
use synaptica.Prelude.{
  refl, Post-imp, ◌≡◌, ℕ, zero, suc, ◌<◌, arith, true, false, Option, none, some, List, [], ◌∷◌,
  ◌++◌, Bytes, ok, err, Post, returns, raises, Post-bind, Option-cases, inl, inr, bytes_eq, length,
  codes, subst,
}
use synaptica.Core.Values.{
  Scalars, Value, Values, Fields, bool, float, list, map, node, edge, no_values, more_values,
  no_fields, get_field, insert_field, length_values,
}
use synaptica.Core.Values.WellFormed.{
  IsValue, AreValues, AreFields, insert_field-AreFields, get_field-IsValue,
}
use synaptica.Gql.Ast.{
  Literal, Literals, LiteralEntries, no_literals, more_literals, no_literal_entries,
  more_literal_entries, Expression, identifier, BinaryOp,
}
use synaptica.Exec.Record.{Outcome, Record, get, position, value_at}
use synaptica.Exec.Arithmetic.{expression_err}
use synaptica.Exec.Arithmetic.Typed.{
  IsExpected, IsTyped, Post-if, eval_binary_op-IsTyped, eval_and-IsValue, eval_or-IsValue,
}
use synaptica.Exec.Expression.{
  not_evaluated, float_literal, eval_literal, eval_literals, eval_literal_entries, field_or_null,
  property_of, eval_identifier, column_for, column_first, and_then, or_then, eval_operator, eval_in,
}
use synaptica.Exec.Expression.WellFormed.{
  IsRecord, HasI64Literal, HaveI64Literals, EntriesHaveI64Literals,
}

abbrev pub IsBelow : ℕ → Option ℕ → Type 0
IsBelow n none = Unit
IsBelow n (some i) = i < n

position-IsBelow : (name : Bytes) (cs : List Bytes) → IsBelow (length cs) (position name cs)
unfolding position
position-IsBelow name [] = tt
position-IsBelow name (c ∷ cs) =
    Post-if (IsBelow (suc (length cs))) (bytes_eq c name) (omega arith)
      (next (position name cs) (position-IsBelow name cs))
  where
    next :
        (o : Option ℕ)
        → IsBelow (length cs) o
        → IsBelow (suc (length cs)) (elim o [ none ↦ none | some i ↦ some (suc i) ])
    next none h = tt
    next (some i) h = omega arith

module _ (S : Scalars) (U : Type 0) where
  pub field_or_null-IsValue : (k : Bytes) (m : Fields S) → AreFields m → IsValue (field_or_null k m)
  unfolding IsValue
  field_or_null-IsValue k m h = elim (Option-cases (get_field k m)) [
    | inl e ↦ rw (field_or_null, e) tt
    | inr (v, e) ↦ rw (field_or_null, e) (get_field-IsValue k m v h e)
  ]

  value_at-IsTyped :
      (vs : Values S) (i : ℕ) → i < length_values vs → AreValues vs → IsTyped S U (value_at vs i)
  unfolding value_at length_values IsValue
  value_at-IsTyped no_values i h k = absurd (omega arith)
  value_at-IsTyped (more_values v vs) zero h k = returns k.0
  value_at-IsTyped (more_values v vs) (suc i) h k = value_at-IsTyped vs i (omega arith) k.1

  -- a value, or else `P`
  abbrev pub IsFound : Type 0 → Option (Value S) → Type 0
  IsFound P none = P
  IsFound P (some v) = IsValue v

  get-Post :
      (r : Record S) (name : Bytes)
      → IsRecord r
      → Post (IsFound (position name r.columns ≡ none)) (IsExpected S U) (get r name)
  unfolding get
  get-Post r name (h, k) = from (position name r.columns) refl (position-IsBelow name r.columns)
    where
      found :
          (P : Type 0) (o : Outcome (Value S))
          → IsTyped S U o
          → Post (IsFound P) (IsExpected S U) (elim o [ ok v ↦ ok (some v) | err e ↦ err e ])
      found P (ok v) (returns h) = returns h
      found P (err e) (raises h) = raises h

      from :
          (o : Option ℕ)
          → position name r.columns ≡ o
          → IsBelow (length r.columns) o
          → Post (IsFound (position name r.columns ≡ none)) (IsExpected S U) (elim o [
            | none ↦ ok none
            | some i ↦ elim (value_at r.values i) [ ok v ↦ ok (some v) | err e ↦ err e ]
          ])
      from none e f = returns e
      from (some i) e f =
          found _ (value_at r.values i) (value_at-IsTyped r.values i (subst (λ n. i < n) h f) k)

  pub property_of-IsValue : (p : Bytes) (v : Value S) → IsValue v → IsValue (property_of p v)
  unfolding IsValue
  property_of-IsValue p (map m) h = field_or_null-IsValue p m h
  property_of-IsValue p (node id labels m) h = field_or_null-IsValue p m h
  property_of-IsValue p (edge id label source target m) h = field_or_null-IsValue p m h
  property_of-IsValue p _ h = tt

  -- An identifier is a column, or else `U` holds.
  pub identifier-IsTyped :
      (r : Record S) (name : Bytes)
      → IsRecord r
      → (position name r.columns ≡ none → U)
      → IsTyped S U (eval_identifier r name)
  identifier-IsTyped r name h u = Post-bind (get-Post r name h) from
    where
      from :
          (o : Option (Value S))
          → IsFound (position name r.columns ≡ none) o
          → IsTyped S U (elim o [
            | some v ↦ ok v
            | none ↦ expression_err (codes "unknown identifier: " ++ name)
          ])
      from none h = raises (λ _. u h)
      from (some v) h = returns h

  IsFound-any : (P : Type 0) (o : Option (Value S)) → IsFound P o → IsFound Unit o
  IsFound-any P none h = tt
  IsFound-any P (some v) h = h

  column_for-Post :
      (r : Record S) (var property : Bytes)
      → IsRecord r
      → Post (IsFound Unit) (IsExpected S U) (column_for r var property)
  unfolding column_for
  column_for-Post r var property h = Post-bind (get-Post r (var ++ codes "." ++ property) h) from
    where
      from :
          (o : Option (Value S))
          → IsFound (position (var ++ codes "." ++ property) r.columns ≡ none) o
          → Post
              (IsFound Unit)
              (IsExpected S U)
              (elim o [ some v ↦ ok (some v) | none ↦ get r property ])
      from none k = Post-imp (IsFound-any _) (get-Post r property h)
      from (some v) k = returns k

  pub column_first-Post :
      (r : Record S) (e : Expression) (property : Bytes)
      → IsRecord r
      → Post (IsFound Unit) (IsExpected S U) (column_first r e property)
  column_first-Post r (identifier var) property h = column_for-Post r var property h
  column_first-Post r _ property h = returns tt

  and_then-IsTyped :
      (v : Value S) (r : Outcome (Value S)) → IsTyped S U r → IsTyped S U (and_then v r)
  unfolding IsValue
  and_then-IsTyped (bool false) r h = returns tt
  and_then-IsTyped (bool true) r h = Post-bind h (λ w _. returns (eval_and-IsValue (bool true) w))
  and_then-IsTyped v r h = Post-bind h (λ w _. returns (eval_and-IsValue v w))

  or_then-IsTyped :
      (v : Value S) (r : Outcome (Value S)) → IsTyped S U r → IsTyped S U (or_then v r)
  unfolding IsValue
  or_then-IsTyped (bool true) r h = returns tt
  or_then-IsTyped (bool false) r h = Post-bind h (λ w _. returns (eval_or-IsValue (bool false) w))
  or_then-IsTyped v r h = Post-bind h (λ w _. returns (eval_or-IsValue v w))

  pub operator-IsTyped :
      (op : BinaryOp) (v : Value S) (r : Outcome (Value S))
      → IsValue v
      → IsTyped S U r
      → IsTyped S U (eval_operator op v r)
  operator-IsTyped BinaryOp.and v r k h = and_then-IsTyped v r h
  operator-IsTyped BinaryOp.or v r k h = or_then-IsTyped v r h
  operator-IsTyped op v r k h = Post-bind h (λ w j. eval_binary_op-IsTyped S U v op w k j)

  pub in-IsTyped : (v w : Value S) → IsTyped S U (eval_in v w)
  unfolding IsValue
  in-IsTyped v (list items) = returns tt
  in-IsTyped v _ = raises tt

  literal_float-IsTyped : (o : Bytes) → IsTyped S U (float_literal {S = S} o)
  unfolding IsValue
  literal_float-IsTyped text = from (S.parse_float text)
    where
      from :
          (o : Option S.Float)
          → IsTyped S U
              (elim o [ some x ↦ ok (float x) | none ↦ not_evaluated (codes "literal: Float") ])
      from none = raises tt
      from (some x) = returns tt

  mutual
    unfolding HasI64Literal eval_literal IsValue

    pub eval_literal-IsTyped :
        (l : Literal) → HasI64Literal l → IsTyped S U (eval_literal {S = S} l)
    eval_literal-IsTyped (Literal.integer i) h = returns h
    eval_literal-IsTyped (Literal.float text) h = literal_float-IsTyped text
    eval_literal-IsTyped (Literal.string s) h = returns tt
    eval_literal-IsTyped (Literal.bool b) h = returns tt
    eval_literal-IsTyped Literal.null h = returns tt
    eval_literal-IsTyped (Literal.list items) h =
        Post-bind (eval_literals-AreTyped items h) (λ vs k. returns k)
    eval_literal-IsTyped (Literal.map entries) h =
        Post-bind (eval_literal_entries-AreTyped entries no_fields h tt) (λ m k. returns k)
    eval_literal-IsTyped _ h = raises tt

    eval_literals-AreTyped :
        (ls : Literals)
        → HaveI64Literals ls
        → Post AreValues (IsExpected S U) (eval_literals {S = S} ls)
    eval_literals-AreTyped no_literals h = returns tt
    eval_literals-AreTyped (more_literals l ls) (h, hs) =
        Post-bind (eval_literal-IsTyped l h)
          (λ v k. Post-bind (eval_literals-AreTyped ls hs) (λ vs ks. returns (k, ks)))

    eval_literal_entries-AreTyped :
        (ls : LiteralEntries) (m : Fields S)
        → EntriesHaveI64Literals ls
        → AreFields m
        → Post AreFields (IsExpected S U) (eval_literal_entries ls m)
    eval_literal_entries-AreTyped no_literal_entries m h k = returns k
    eval_literal_entries-AreTyped (more_literal_entries key l ls) m (h, hs) k =
        Post-bind (eval_literal-IsTyped l h) (λ v j.
          eval_literal_entries-AreTyped ls (insert_field key v m) hs
            (insert_field-AreFields key v m j k))
