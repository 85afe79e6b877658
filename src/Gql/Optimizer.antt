-- ===== src/Gql/Optimizer.antt =====
-- crates/synaptica-gql/src/optimizer.rs: rules that rewrite a plan, and the rule of the default set.
use synaptica.Prelude.{Option, none, some, List, [], ◌∷◌, Bytes, codes}
use synaptica.Gql.Planner.{LogicalPlan, filter, project}

-- the trait `OptimizerRule`
pub record OptimizerRule : Type 0 where
  pub name : Bytes
  pub apply : LogicalPlan → Option LogicalPlan

unfoldable pub filter_pushdown : LogicalPlan → Option LogicalPlan
filter_pushdown (filter (project input expressions aliases) predicate) =
    some (project (filter input predicate) expressions aliases)
filter_pushdown _ = none

abbrev pub FilterPushdown : OptimizerRule
FilterPushdown = record { name = codes "FilterPushdown"; apply = filter_pushdown }

pub record QueryOptimizer : Type 0 where
  pub rules : List OptimizerRule

abbrev pub new : QueryOptimizer
new = record { rules = FilterPushdown ∷ [] }

abbrev pub with_rules : List OptimizerRule → QueryOptimizer
with_rules rules = record { rules = rules }

-- the loop of `optimize`
unfoldable pub optimize_with : List OptimizerRule → LogicalPlan → LogicalPlan
optimize_with [] current = current
optimize_with (rule ∷ rules) current = elim (rule.apply current) [
  | some rewritten ↦ optimize_with rules rewritten
  | none ↦ optimize_with rules current
]

abbrev pub optimize : QueryOptimizer → LogicalPlan → LogicalPlan
optimize o plan = optimize_with o.rules plan
