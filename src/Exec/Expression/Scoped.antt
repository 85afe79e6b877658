-- ===== src/Exec/Expression/Scoped.antt =====
-- Expressions that pass the semantic analysis do not meet an unknown identifier.
use mathlib.Core.Bool.{false≢true}
use synaptica.Prelude.{
  ℕ, suc, bytes_eq, inl, inr, Bool-cases, ◌≡◌, refl, Bool, true, false, Option, none, some, List,
  [], ◌∷◌, Bytes, Result, ok, err, ◌>>=◌, inl, inr, if◌then◌else◌,
}
use synaptica.Prelude.Integers.{IsI64}
use synaptica.Core.Values.{Scalars}
use synaptica.Gql.Ast.{
  Expression, Expressions, OptionalExpression, Entries, WhenClauses, identifier, property_access,
  function_call, binary_op, unary_op, case, aggregate, is_not_null, in_list, no_expressions,
  more_expressions, no_expression, some_expression, no_entries, more_entries, no_when_clauses,
  more_when_clauses,
}
use synaptica.Gql.Semantic.{
  SemanticError, Scope, in_scope, check_expression, check_expressions, check_entries,
  check_optional, check_when_clauses,
}
use synaptica.Exec.Record.{Record, position}
use synaptica.Exec.Arithmetic.Typed.{IsTyped}
use synaptica.Exec.Expression.{evaluate}
use synaptica.Exec.Expression.WellFormed.{
  IsRecord, IsInRange, AreInRange, EntriesAreInRange, OptionIsInRange, ClausesAreInRange,
}
use synaptica.Exec.Expression.Typed.{evaluated}

-- the analysis accepts
abbrev pub IsAccepted : Result SemanticError (Unit {0}) → Type 0
IsAccepted (ok u) = Unit
IsAccepted (err e) = ⊥

both-IsAccepted :
    (x y : Result SemanticError (Unit {0}))
    → IsAccepted (x >>= λ _. y)
    → IsAccepted x × IsAccepted y
both-IsAccepted (ok u) y h = (tt, h)
both-IsAccepted (err e) y h = absurd h

-- every name of the scope is a column
abbrev pub HasColumns : {S : Scalars} → Scope → Record S → Type 0
HasColumns scope r = (x : Bytes) → in_scope x scope ≡ true → position x r.columns ≡ none → ⊥

columns-position : (x : Bytes) (cs : List Bytes) → in_scope x cs ≡ true → position x cs ≡ none → ⊥
unfolding in_scope position
columns-position x [] h = λ e. absurd (false≢true h)
columns-position x (c ∷ cs) h = elim (Bool-cases (bytes_eq c x)) [
  | inl e ↦ rw e (λ k. absurd (cc))
  | inr e ↦ rw e (later (position x cs) (columns-position x cs (rw e at h)))
]
  where
    later :
        (o : Option ℕ) → (o ≡ none → ⊥) → elim o [ none ↦ none | some i ↦ some (suc i) ] ≡ none → ⊥
    later none f k = f refl
    later (some i) f k = absurd (cc)

-- A record has its own columns.
pub columns-HasColumns : {S : Scalars} (r : Record S) → HasColumns r.columns r
columns-HasColumns r x h = columns-position x r.columns h

module _ (scope : Scope) where
  abbrev pub InScope : Bytes → Type 0
  InScope x = in_scope x scope ≡ true

  name_accepted :
      (x : Bytes) (b : Bool) (e : SemanticError)
      → IsAccepted (if b then ok tt else err e)
      → b ≡ true
  name_accepted x true e h = refl
  name_accepted x false e h = absurd h

  mutual
    unfolding IsInRange check_expression

    accepted :
        (e : Expression)
        → IsInRange (λ _. Unit) e
        → IsAccepted (check_expression e scope)
        → IsInRange InScope e
    accepted (identifier name) h k = name_accepted name _ _ k
    accepted (property_access object property) h k = accepted object h k
    accepted (binary_op left op right) (hl, hr) k =
        let (kl, kr) = both-IsAccepted _ _ k in (accepted left hl kl, accepted right hr kr)
    accepted (unary_op op operand) h k = accepted operand h k
    accepted (Expression.is_null inner) h k = accepted inner h k
    accepted (is_not_null inner) h k = accepted inner h k
    accepted (in_list operand l) (ho, hl) k =
        let (ko, kl) = both-IsAccepted _ _ k in (accepted operand ho ko, accepted l hl kl)
    accepted (function_call name args) h k = all_accepted args h k
    accepted (aggregate function distinct arg) h k = optional_accepted arg h k
    accepted (Expression.list items) h k = all_accepted items h k
    accepted (Expression.map entries) h k = entries_accepted entries h k
    accepted (case operand clauses else_clause) (ho, (hc, he)) k =
        let (ko, rest) = both-IsAccepted _ _ k in
        let (kc, ke) = both-IsAccepted _ _ rest in
        (
          optional_accepted operand ho ko,
          (clauses_accepted clauses hc kc, optional_accepted else_clause he ke),
        )
    accepted (Expression.literal l) h k = h
    accepted _ h k = tt

    all_accepted :
        (es : Expressions)
        → AreInRange (λ _. Unit) es
        → IsAccepted (check_expressions es scope)
        → AreInRange InScope es
    all_accepted no_expressions h k = tt
    all_accepted (more_expressions e es) (h, hs) k =
        let (a, b) = both-IsAccepted _ _ k in (accepted e h a, all_accepted es hs b)

    entries_accepted :
        (es : Entries)
        → EntriesAreInRange (λ _. Unit) es
        → IsAccepted (check_entries es scope)
        → EntriesAreInRange InScope es
    entries_accepted no_entries h k = tt
    entries_accepted (more_entries key e es) (h, hs) k =
        let (a, b) = both-IsAccepted _ _ k in (accepted e h a, entries_accepted es hs b)

    optional_accepted :
        (o : OptionalExpression)
        → OptionIsInRange (λ _. Unit) o
        → IsAccepted (check_optional o scope)
        → OptionIsInRange InScope o
    optional_accepted no_expression h k = tt
    optional_accepted (some_expression e) h k = accepted e h k

    clauses_accepted :
        (ws : WhenClauses)
        → ClausesAreInRange (λ _. Unit) ws
        → IsAccepted (check_when_clauses ws scope)
        → ClausesAreInRange InScope ws
    clauses_accepted no_when_clauses h k = tt
    clauses_accepted (more_when_clauses w t rest) (hw, (ht, hs)) k =
        let (a, both) = both-IsAccepted _ _ k in
        let (b, c) = both-IsAccepted _ _ both in
        (accepted w hw a, (accepted t ht b, clauses_accepted rest hs c))

-- If the semantic analysis accepts an expression under a scope and a record has a column for each name
-- of the scope, `evaluate` does not fail with an unknown identifier: the outcome is as `IsTyped` with
-- `⊥` has it. The hypotheses on the build, the literals and the record are those of
-- `evaluate-IsTyped`.
pub evaluate-check_expression :
    (S : Scalars)
    → ((x : S.Float) → IsI64 (S.i64_of_float x))
    → (e : Expression) (scope : Scope) (r : Record S) → IsInRange (λ _. Unit) e
    → IsRecord r
    → IsAccepted (check_expression e scope)
    → HasColumns scope r
    → IsTyped S ⊥ (evaluate e r)
evaluate-check_expression S float_cast e scope r h k a c =
    evaluated S ⊥ float_cast (InScope scope) r k c e (accepted scope e h a)
