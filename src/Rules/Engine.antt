-- ===== src/Rules/Engine.antt =====
-- `RulesEngine` of packages/job-engine/src/rules.ts: `set_rules` gives the list that the engine keeps.
use jaa.Prelude.{
  Bool, true, false, String, Option, none, some, List, [], ◌∷◌, ℤ, int_le, all, if◌then◌else◌,
}
use jaa.Prelude.Sorting.{sort}
use jaa.Rules.Conditions.{Condition, Locale, Context, evaluate_condition}

pub data Action : Type 0 where
  auto_apply skip review queue : Action

pub record Rule : Type 0 where
  pub id : String
  pub name : String
  pub enabled : Bool
  pub conditions : List Condition
  pub action : Action
  pub priority : ℤ

pub record Evaluation : Type 0 where
  pub action : Action
  pub matched_rule : Option Rule
  pub all_results : List (Rule × Bool)

-- `b.priority - a.priority <= 0`.
abbrev pub by_priority : Rule → Rule → Bool
by_priority a b = int_le b.priority a.priority

unfoldable pub set_rules : List Rule → List Rule
set_rules rules = sort by_priority rules

unfoldable pub evaluate_conditions : Locale → Context → List Condition → Bool
evaluate_conditions l context conditions = all (evaluate_condition l context) conditions

abbrev with_result : Rule → Evaluation → Evaluation
with_result rule e = record e { all_results = (rule, false) ∷ e.all_results }

unfoldable pub evaluate : Locale → Context → List Rule → Evaluation
evaluate l context [] = record { action = review; matched_rule = none; all_results = [] }
evaluate l context (rule ∷ rules) =
    let rest = evaluate l context rules in
    if rule.enabled
    then if evaluate_conditions l context rule.conditions
      then record {
        action = rule.action;
        matched_rule = some rule;
        all_results = (rule, true) ∷ [];
      }
      else with_result rule rest
    else rest
