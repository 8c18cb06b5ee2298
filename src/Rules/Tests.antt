-- ===== src/Rules/Tests.antt =====
-- Runs of the rules engine and of the quality gate, and each theorem at a concrete input.
use mathlib.Core.List.{Memᴰ}
use jaa.Prelude.{
  true, false, String, none, some, List, [], ◌∷◌, ◌≡◌, refl, ℤ, pos, ◌⊎◌, int_le, if◌then◌else◌,
}
use jaa.Prelude.Sorting.{sort, insert_sorted}
use jaa.Rules.Conditions.{
  text, number, gte, contains, Condition, Locale, Context, includes_text, joined, to_text,
  to_number, holds, evaluate_condition,
}
use jaa.Rules.Engine.{Rule, auto_apply, skip, set_rules, evaluate, evaluate_conditions}
use jaa.Rules.Quality.{
  QualityDecision, QualityUserRule, QualityInput, evaluate_application_quality, includes_normalized,
  rule_context, matched_rule, hard_gates, preference_rules, user_rule, quality_rules, rule_before,
  all_hold,
}
use jaa.Rules.Best.{applies, evaluate_best}
use jaa.Rules.Decision.{gates_met, all_met, quality_decision}
use jaa.Rules.Match.{matched_rule_first}

machine : Unit {0}
unfolding sort insert_sorted includes_text joined to_text to_number holds evaluate_condition
    set_rules evaluate evaluate_conditions evaluate_application_quality includes_normalized
    rule_context matched_rule hard_gates preference_rules user_rule quality_rules
machine = tt

-- Texts as they stand, all equal in order.
abbrev plain : Locale
plain = record {
  lower = λ s. s;
  normalized = λ s. s;
  number_of = λ s. none;
  number_text = λ n. "0";
  text_le = λ a b. true;
}

abbrev high_score : Condition
high_score = record { field = "matchScore"; operator = gte; value = number (pos 80) }

abbrev at_acme : Condition
at_acme = record { field = "company"; operator = contains; value = text "Acme" }

abbrev apply_rule : Rule
apply_rule = record {
  id = "r1";
  name = "good match";
  enabled = true;
  conditions = high_score ∷ [];
  action = auto_apply;
  priority = pos 1;
}

abbrev avoid_rule : Rule
avoid_rule = record {
  id = "r2";
  name = "not there";
  enabled = true;
  conditions = at_acme ∷ [];
  action = skip;
  priority = pos 5;
}

abbrev both_rules : List Rule
both_rules = apply_rule ∷ avoid_rule ∷ []

abbrev acme_job : Context
acme_job = ("matchScore", number (pos 90)) ∷ ("company", text "The Acme Group") ∷ []

abbrev poor_job : Context
poor_job = ("matchScore", number (pos 10)) ∷ []

engine_tests :
    ((evaluate plain acme_job (set_rules both_rules)).action ≡ skip)
    × ((evaluate plain acme_job (set_rules (apply_rule ∷ []))).action ≡ auto_apply)
    × ((evaluate plain poor_job (set_rules both_rules)).all_results
        ≡ (avoid_rule, false) ∷ (apply_rule, false) ∷ [])
unfolding machine
engine_tests = (refl, refl, refl)

best_run : (evaluate plain acme_job (set_rules both_rules)).matched_rule ≡ some avoid_rule
unfolding machine
best_run = refl

apply_holds : applies plain acme_job apply_rule ≡ true
unfolding machine
apply_holds = refl

evaluate_best_example :
    ((evaluate plain acme_job (set_rules both_rules)).action ≡ skip)
    × ((apply_rule ≡ avoid_rule) ⊎ (int_le (pos 1) (pos 5) ≡ true))
evaluate_best_example =
    evaluate_best plain acme_job both_rules avoid_rule apply_rule best_run (Memᴰ.head refl)
      apply_holds

abbrev user_rule_of : String → ℤ → String → QualityUserRule
user_rule_of id priority action = record {
  id = id;
  name = id;
  enabled = true;
  conditions = high_score ∷ [];
  action = action;
  priority = priority;
}

abbrev application : List QualityUserRule → QualityInput
application rules = record {
  job = record { active = true; company = "Acme"; title = "Engineer"; source = "LEVER" };
  profile = record {
    target_roles = "Engineer" ∷ [];
    excluded_companies = [];
    sources = [];
    min_match_score = pos 70;
    min_ats_score = pos 60;
    max_applications_per_day = pos 5;
  };
  match_score = some (pos 90);
  ats_score = some (pos 65);
  verified_claim_count = 3;
  truth_valid = true;
  content_ready = true;
  ats_evidence_ready = true;
  reserved = 1;
  available = true;
  rules = rules;
}

abbrev two_rules : QualityInput
two_rules =
    application (user_rule_of "a" (pos 1) "AUTO_APPLY" ∷ user_rule_of "b" (pos 2) "SKIP" ∷ [])

abbrev no_score : QualityInput
no_score = record (application []) { match_score = none }

quality_tests :
    ((evaluate_application_quality plain (application [])).decision ≡ QualityDecision.pass)
    × ((evaluate_application_quality plain two_rules).decision ≡ QualityDecision.skipped)
    × ((evaluate_application_quality plain no_score).decision ≡ QualityDecision.fail)
unfolding machine
quality_tests = (refl, refl, refl)

quality_decision_example : (evaluate_application_quality plain two_rules).decision ≡ (
    if gates_met two_rules
    then if all_met plain two_rules then QualityDecision.pass else QualityDecision.skipped
    else QualityDecision.fail)
quality_decision_example = quality_decision plain two_rules

match_run : matched_rule plain two_rules ≡ some (user_rule_of "b" (pos 2) "SKIP")
unfolding machine
match_run = refl

other_holds : all_hold plain two_rules (user_rule_of "a" (pos 1) "AUTO_APPLY") ≡ true
unfolding machine
other_holds = refl

matched_rule_first_example :
    (user_rule_of "a" (pos 1) "AUTO_APPLY" ≡ user_rule_of "b" (pos 2) "SKIP")
    ⊎ (rule_before plain (user_rule_of "b" (pos 2) "SKIP") (user_rule_of "a" (pos 1) "AUTO_APPLY")
        ≡ true)
matched_rule_first_example =
    matched_rule_first plain two_rules (user_rule_of "b" (pos 2) "SKIP")
      (user_rule_of "a" (pos 1) "AUTO_APPLY") (λ a b e. refl) (λ a b c e k. refl) match_run
      (Memᴰ.head refl) refl other_holds
