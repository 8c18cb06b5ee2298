-- ===== src/Rules/Quality.antt =====
-- `evaluateApplicationQuality` of packages/job-engine/src/application-quality.ts. Of the evidence of a
-- rule its code and its status are kept; the message and the details are for people to read.
use jaa.Prelude.{
  ℕ, Bool, true, false, not, ◌&&◌, String, Option, none, some, List, [], ◌∷◌, ◌++◌, ℤ, pos, negsuc,
  int_le, int_eq, ◌===◌, all, any, find, keep, ltb, is_some, some_and, or_else, if◌then◌else◌,
}
use jaa.Prelude.Sorting.{sort}
use jaa.Rules.Conditions.{text, number, truth, Condition, Locale, Context, evaluate_condition}

pub data QualityDecision : Type 0 where
  pass fail skipped : QualityDecision

pub data QualityRuleStatus : Type 0 where
  pass fail skipped info : QualityRuleStatus

pub record QualityRuleEvidence : Type 0 where
  pub code : String
  pub status : QualityRuleStatus

pub record QualityUserRule : Type 0 where
  pub id : String
  pub name : String
  pub enabled : Bool
  pub conditions : List Condition
  pub action : String
  pub priority : ℤ

pub record QualityJob : Type 0 where
  pub active : Bool
  pub company : String
  pub title : String
  pub source : String

pub record QualityProfile : Type 0 where
  pub target_roles : List String
  pub excluded_companies : List String
  pub sources : List String
  pub min_match_score : ℤ
  pub min_ats_score : ℤ
  pub max_applications_per_day : ℤ

pub record QualityInput : Type 0 where
  pub job : QualityJob
  pub profile : QualityProfile
  pub match_score : Option ℤ
  pub ats_score : Option ℤ
  pub verified_claim_count : ℕ
  pub truth_valid : Bool
  pub content_ready : Bool
  pub ats_evidence_ready : Bool
  pub reserved : ℕ
  pub available : Bool
  pub rules : List QualityUserRule

pub record QualityResult : Type 0 where
  pub decision : QualityDecision
  pub rules : List QualityRuleEvidence

unfoldable pub includes_normalized : Locale → List String → String → Bool
includes_normalized l values value = any (λ item. l.normalized item === l.normalized value) values

unfoldable pub rule_context : QualityInput → Context
rule_context input =
    ("matchScore", number (or_else input.match_score (negsuc 0)))
    ∷ ("atsScore", number (or_else input.ats_score (negsuc 0)))
    ∷ ("jobTitle", text input.job.title)
    ∷ ("company", text input.job.company)
    ∷ ("source", text input.job.source)
    ∷ ("isActive", truth input.job.active)
    ∷ ("dailyReserved", number (pos input.reserved))
    ∷ ("dailyLimit", number input.profile.max_applications_per_day)
    ∷ ("verifiedClaimCount", number (pos input.verified_claim_count))
    ∷ []

-- `right.priority - left.priority || left.id.localeCompare(right.id)` at most 0.
abbrev pub rule_before : Locale → QualityUserRule → QualityUserRule → Bool
rule_before l left right =
    if int_eq left.priority right.priority
    then l.text_le left.id right.id
    else int_le right.priority left.priority

abbrev pub all_hold : Locale → QualityInput → QualityUserRule → Bool
all_hold l input rule = all (evaluate_condition l (rule_context input)) rule.conditions

unfoldable pub matched_rule : Locale → QualityInput → Option QualityUserRule
matched_rule l input =
    find (all_hold l input) (sort (rule_before l) (keep (λ rule. rule.enabled) input.rules))

abbrev pub is_fail : QualityRuleEvidence → Bool
is_fail rule = elim rule.status [ QualityRuleStatus.fail ↦ true | _ ↦ false ]

abbrev pub is_skipped : QualityRuleEvidence → Bool
is_skipped rule = elim rule.status [ QualityRuleStatus.skipped ↦ true | _ ↦ false ]

-- A push that passes or fails.
abbrev pub gate : String → Bool → QualityRuleEvidence
gate code test = record {
  code = code;
  status = if test then QualityRuleStatus.pass else QualityRuleStatus.fail;
}

-- A push under a condition that marks the application as skipped.
abbrev pub skip_if : Bool → String → List QualityRuleEvidence
skip_if test code =
    if test then record { code = code; status = QualityRuleStatus.skipped } ∷ [] else []

-- `score !== null && score < minimum`.
abbrev pub is_below : Option ℤ → ℤ → Bool
is_below score minimum = some_and score (λ s. not (int_le minimum s))

abbrev pub is_nonempty : List String → Bool
is_nonempty [] = false
is_nonempty (x ∷ xs) = true

unfoldable pub hard_gates : QualityInput → List QualityRuleEvidence
hard_gates input =
    gate "JOB_ACTIVE" input.job.active
    ∷ gate "RESUME_CONTENT_READY" input.content_ready
    ∷ gate "ATS_EVIDENCE_READY" input.ats_evidence_ready
    ∷ gate "TRUTH_PROVENANCE" (input.truth_valid && ltb 0 input.verified_claim_count)
    ∷ gate "MATCH_SCORE_AVAILABLE" (is_some input.match_score)
    ∷ gate "ATS_SCORE_AVAILABLE" (is_some input.ats_score)
    ∷ []

unfoldable pub preference_rules : Locale → QualityInput → List QualityRuleEvidence
preference_rules l input =
    skip_if (is_below input.match_score input.profile.min_match_score) "MATCH_THRESHOLD"
    ++ (skip_if (is_below input.ats_score input.profile.min_ats_score) "ATS_THRESHOLD"
        ++ (skip_if (includes_normalized l input.profile.excluded_companies input.job.company)
              "COMPANY_EXCLUDED"
            ++ (skip_if
                  (is_nonempty input.profile.sources
                    && not (includes_normalized l input.profile.sources input.job.source))
                  "SOURCE_PREFERENCE"
                ++ skip_if
                    (is_nonempty input.profile.target_roles
                      && not (includes_normalized l input.profile.target_roles input.job.title))
                    "ROLE_PREFERENCE")))

unfoldable pub user_rule : Option QualityUserRule → List QualityRuleEvidence
user_rule none = []
user_rule (some rule) =
    record {
      code = "USER_RULE";
      status = if rule.action === "SKIP" then QualityRuleStatus.skipped else QualityRuleStatus.info;
    }
    ∷ []

unfoldable pub quality_rules : Locale → QualityInput → List QualityRuleEvidence
quality_rules l input =
    hard_gates input
    ++ (preference_rules l input
        ++ (user_rule (matched_rule l input) ++ skip_if (not input.available) "DAILY_CAPACITY"))

abbrev pub decide : List QualityRuleEvidence → QualityDecision
decide rules =
    if any is_fail rules
    then QualityDecision.fail
    else if any is_skipped rules
    then QualityDecision.skipped
    else QualityDecision.pass

unfoldable pub evaluate_application_quality : Locale → QualityInput → QualityResult
evaluate_application_quality l input = record {
  decision = decide (quality_rules l input);
  rules = quality_rules l input;
}
