-- ===== src/Rules/Decision.antt =====
-- What decides the quality gate of packages/job-engine/src/application-quality.ts.
use jaa.Prelude.{
  Bool, true, false, not, ◌≡◌, refl, ◌&&◌, ◌||◌, String, Option, none, some, List, [], ◌∷◌, ◌++◌,
  arith, ◌===◌, any, ltb, is_some, if◌then◌else◌,
}
use jaa.Rules.Conditions.{Locale}
use jaa.Rules.Quality.{
  QualityDecision, QualityRuleEvidence, QualityUserRule, QualityInput, includes_normalized, is_fail,
  is_skipped, skip_if, is_below, is_nonempty, hard_gates, preference_rules, user_rule, matched_rule,
  quality_rules, decide, evaluate_application_quality,
}

any-append :
    (p : QualityRuleEvidence → Bool) (xs ys : List QualityRuleEvidence)
    → any p (xs ++ ys) ≡ (any p xs || any p ys)
any-append p [] ys = refl
any-append p (x ∷ xs) ys = ground (arith, any-append p xs ys)

-- The six facts without which an application fails.
abbrev pub gates_met : QualityInput → Bool
gates_met input =
    input.job.active
    && input.content_ready
    && input.ats_evidence_ready
    && (input.truth_valid && ltb 0 input.verified_claim_count)
    && is_some input.match_score
    && is_some input.ats_score

-- What the profile wants.
abbrev pub preferences_met : Locale → QualityInput → Bool
preferences_met l input =
    not (is_below input.match_score input.profile.min_match_score)
    && not (is_below input.ats_score input.profile.min_ats_score)
    && not (includes_normalized l input.profile.excluded_companies input.job.company)
    && not (
        is_nonempty input.profile.sources
        && not (includes_normalized l input.profile.sources input.job.source))
    && not (
        is_nonempty input.profile.target_roles
        && not (includes_normalized l input.profile.target_roles input.job.title))

-- Whether the user's first matching rule says SKIP.
abbrev pub is_skip_rule : Option QualityUserRule → Bool
is_skip_rule none = false
is_skip_rule (some rule) = rule.action === "SKIP"

gates_fail : (input : QualityInput) → any is_fail (hard_gates input) ≡ not (gates_met input)
unfolding hard_gates
gates_fail input = ground arith

gates_skip : (input : QualityInput) → any is_skipped (hard_gates input) ≡ false
unfolding hard_gates
gates_skip input = ground arith

skip_if_fail : (test : Bool) (code : String) → any is_fail (skip_if test code) ≡ false
skip_if_fail true code = refl
skip_if_fail false code = refl

skip_if_skip : (test : Bool) (code : String) → any is_skipped (skip_if test code) ≡ test
skip_if_skip true code = refl
skip_if_skip false code = refl

user_rule_fail : (o : Option QualityUserRule) → any is_fail (user_rule o) ≡ false
unfolding user_rule
user_rule_fail none = refl
user_rule_fail (some rule) = ground arith

user_rule_skip : (o : Option QualityUserRule) → any is_skipped (user_rule o) ≡ is_skip_rule o
unfolding user_rule
user_rule_skip none = refl
user_rule_skip (some rule) = ground arith

ruleset quality = (any-append, skip_if_fail, skip_if_skip, user_rule_fail, user_rule_skip)

preferences_fail :
    (l : Locale) (input : QualityInput) → any is_fail (preference_rules l input) ≡ false
unfolding preference_rules
preferences_fail l input = simp quality

preferences_or :
    (a b c d e : Bool)
    → any is_skipped (
        skip_if a "MATCH_THRESHOLD"
        ++ (skip_if b "ATS_THRESHOLD"
            ++ (skip_if c "COMPANY_EXCLUDED"
                ++ (skip_if d "SOURCE_PREFERENCE" ++ skip_if e "ROLE_PREFERENCE"))))
      ≡ not (not a && not b && not c && not d && not e)
preferences_or true b c d e = refl
preferences_or false true c d e = refl
preferences_or false false true d e = refl
preferences_or false false false true e = refl
preferences_or false false false false true = refl
preferences_or false false false false false = refl

preferences_skip :
    (l : Locale) (input : QualityInput)
    → any is_skipped (preference_rules l input) ≡ not (preferences_met l input)
unfolding preference_rules
preferences_skip l input =
    preferences_or (is_below input.match_score input.profile.min_match_score)
      (is_below input.ats_score input.profile.min_ats_score)
      (includes_normalized l input.profile.excluded_companies input.job.company)
      (is_nonempty input.profile.sources
        && not (includes_normalized l input.profile.sources input.job.source))
      (is_nonempty input.profile.target_roles
        && not (includes_normalized l input.profile.target_roles input.job.title))

-- All the facts that an application needs to pass.
abbrev pub all_met : Locale → QualityInput → Bool
all_met l input =
    preferences_met l input && not (is_skip_rule (matched_rule l input)) && input.available

or_false : (a : Bool) → (a || false) ≡ a
or_false true = refl
or_false false = refl

or_nots : (a b c : Bool) → (not a || (b || not c)) ≡ not (a && not b && c)
or_nots true true c = refl
or_nots true false true = refl
or_nots true false false = refl
or_nots false b c = refl

rules_fail :
    (l : Locale) (input : QualityInput)
    → any is_fail (quality_rules l input) ≡ not (gates_met input)
unfolding quality_rules
rules_fail l input =
    simp (quality, gates_fail input, preferences_fail l input) (or_false (not (gates_met input)))

rules_skip :
    (l : Locale) (input : QualityInput)
    → any is_skipped (quality_rules l input) ≡ not (all_met l input)
unfolding quality_rules
rules_skip l input =
    simp (quality, gates_skip input, preferences_skip l input)
      (or_nots (preferences_met l input) (is_skip_rule (matched_rule l input)) input.available)

decide_of :
    (rules : List QualityRuleEvidence) (a b : Bool)
    → any is_fail rules ≡ not a
    → any is_skipped rules ≡ not b
    → decide rules ≡ (
        if a
        then if b then QualityDecision.pass else QualityDecision.skipped
        else QualityDecision.fail)
decide_of rules true true h k = rw (h, k) refl
decide_of rules true false h k = rw (h, k) refl
decide_of rules false b h k = rw (h) refl

-- The decision is FAIL exactly if one of the six facts about job, documents and scores is missing,
-- whatever the user's preferences and rules say; with all six it is PASS exactly if the preferences of
-- the profile are met, the first matching user rule does not say SKIP and capacity is left, and else
-- SKIPPED.
pub quality_decision :
    (l : Locale) (input : QualityInput)
    → (evaluate_application_quality l input).decision ≡ (
        if gates_met input
        then if all_met l input then QualityDecision.pass else QualityDecision.skipped
        else QualityDecision.fail)
unfolding evaluate_application_quality
quality_decision l input =
    decide_of (quality_rules l input) (gates_met input) (all_met l input) (rules_fail l input)
      (rules_skip l input)
