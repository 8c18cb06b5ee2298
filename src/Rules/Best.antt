-- ===== src/Rules/Best.antt =====
-- Which rule the engine of packages/job-engine/src/rules.ts takes.
use mathlib.Core.List.{Memᴰ}
use jaa.Prelude.{
  Bool, true, false, ◌≡◌, refl, Option, none, some, List, [], ◌∷◌, arith, ℤ, pos, negsuc, int_le,
  find, ◌&&◌, ◌⊎◌, inl, inr, Bool-cases,
}
use jaa.Prelude.Sorting.{find-sort_first}
use jaa.Rules.Conditions.{Locale, Context}
use jaa.Rules.Engine.{Rule, Action, review, by_priority, set_rules, evaluate, evaluate_conditions}

-- An enabled rule all of whose conditions hold.
abbrev pub applies : Locale → Context → Rule → Bool
applies l context rule = rule.enabled && evaluate_conditions l context rule.conditions

int_le_total : (a b : ℤ) → int_le a b ≡ false → int_le b a ≡ true
int_le_total (pos a) (pos b) h = ground arith
int_le_total (pos a) (negsuc b) h = refl
int_le_total (negsuc a) (pos b) h = cc
int_le_total (negsuc a) (negsuc b) h = ground arith

int_le_trans : (a b c : ℤ) → int_le a b ≡ true → int_le b c ≡ true → int_le a c ≡ true
int_le_trans (pos a) (pos b) (pos c) h k = ground arith
int_le_trans (pos a) (pos b) (negsuc c) h k = cc
int_le_trans (pos a) (negsuc b) c h k = cc
int_le_trans (negsuc a) (pos b) (pos c) h k = refl
int_le_trans (negsuc a) (pos b) (negsuc c) h k = cc
int_le_trans (negsuc a) (negsuc b) (pos c) h k = refl
int_le_trans (negsuc a) (negsuc b) (negsuc c) h k = ground arith

-- The loop of the engine is a search.
abbrev action_of : Option Rule → Action
action_of none = review
action_of (some rule) = rule.action

evaluate-find :
    (l : Locale) (context : Context) (rules : List Rule)
    → ((evaluate l context rules).matched_rule ≡ find (applies l context) rules)
      × ((evaluate l context rules).action ≡ action_of (find (applies l context) rules))
unfolding evaluate
evaluate-find l context [] = (refl, refl)
evaluate-find l context (rule ∷ rules) =
    let (m, a) = evaluate-find l context rules in
    elim (Bool-cases rule.enabled) [
      | inr off ↦ rw (off) (m, a)
      | inl on ↦ elim (Bool-cases (evaluate_conditions l context rule.conditions)) [
        | inl met ↦ rw (on) (rw (met) (refl, refl))
        | inr out ↦ rw (on) (rw (out) (m, a))
      ]
    ]

-- A rule that the engine reports gives the action, and every other rule that is enabled and whose
-- conditions all hold has no higher priority.
pub evaluate_best :
    (l : Locale) (context : Context) (rules : List Rule) (best other : Rule)
    → (evaluate l context (set_rules rules)).matched_rule ≡ some best
    → Memᴰ other rules
    → applies l context other ≡ true
    → ((evaluate l context (set_rules rules)).action ≡ best.action)
      × ((other ≡ best) ⊎ (int_le other.priority best.priority ≡ true))
unfolding set_rules
evaluate_best l context rules best other e m h =
    let (matched, action) = evaluate-find l context (set_rules rules) in
    let found : find (applies l context) (set_rules rules) ≡ some best = ground arith in
    (
      rw action (rw (found) refl),
      find-sort_first by_priority (λ a b. int_le_total b.priority a.priority)
          (λ a b c h k. int_le_trans c.priority b.priority a.priority k h) (applies l context) rules
          best other found m h,
    )
