-- ===== src/Rules/Match.antt =====
-- The user rule that the quality gate of packages/job-engine/src/application-quality.ts reports.
use mathlib.Core.List.{Memᴰ}
use jaa.Prelude.{
  Bool, true, false, ◌≡◌, String, some, arith, ℤ, pos, negsuc, int_eq, int_le, ◌⊎◌, if◌then◌else◌,
  keep,
}
use jaa.Prelude.Sorting.{find-sort_first}
use jaa.Prelude.Members.{mem_keep}
use jaa.Rules.Conditions.{Locale}
use jaa.Rules.Quality.{QualityUserRule, QualityInput, matched_rule, all_hold, rule_before}

-- An order by priority, with a second test between equal ones.
key_total :
    (p q : ℤ) (t u : Bool)
    → (t ≡ false → u ≡ true)
    → (if int_eq p q then t else int_le q p) ≡ false
    → (if int_eq q p then u else int_le p q) ≡ true
key_total (pos p) (pos q) t u k h = ground (arith, k)
key_total (pos p) (negsuc q) t u k h = ground (arith, k)
key_total (negsuc p) (pos q) t u k h = ground (arith, k)
key_total (negsuc p) (negsuc q) t u k h = ground (arith, k)

key_trans :
    (p q r : ℤ) (t u v : Bool)
    → (t ≡ true → u ≡ true → v ≡ true)
    → (if int_eq p q then t else int_le q p) ≡ true
    → (if int_eq q r then u else int_le r q) ≡ true
    → (if int_eq p r then v else int_le r p) ≡ true
key_trans (pos p) (pos q) (pos r) t u v k h i = ground (arith, k)
key_trans (pos p) (pos q) (negsuc r) t u v k h i = ground (arith, k)
key_trans (pos p) (negsuc q) (pos r) t u v k h i = ground (arith, k)
key_trans (pos p) (negsuc q) (negsuc r) t u v k h i = ground (arith, k)
key_trans (negsuc p) (pos q) (pos r) t u v k h i = ground (arith, k)
key_trans (negsuc p) (pos q) (negsuc r) t u v k h i = ground (arith, k)
key_trans (negsuc p) (negsuc q) (pos r) t u v k h i = ground (arith, k)
key_trans (negsuc p) (negsuc q) (negsuc r) t u v k h i = ground (arith, k)

-- The rule that the gate reports stands before every other enabled rule whose conditions all hold: it has
-- a higher priority, or the same one and an id that does not come later, if the comparison of texts is a
-- total order.
pub matched_rule_first :
    (l : Locale) (input : QualityInput) (best other : QualityUserRule)
    → ((a b : String) → l.text_le a b ≡ false → l.text_le b a ≡ true)
    → ((a b c : String) → l.text_le a b ≡ true → l.text_le b c ≡ true → l.text_le a c ≡ true)
    → matched_rule l input ≡ some best
    → Memᴰ other input.rules
    → other.enabled ≡ true
    → all_hold l input other ≡ true
    → (other ≡ best) ⊎ (rule_before l best other ≡ true)
unfolding matched_rule
matched_rule_first l input best other total trans e m on h =
    find-sort_first (rule_before l)
      (λ a b.
        key_total a.priority b.priority (l.text_le a.id b.id) (l.text_le b.id a.id)
          (total a.id b.id))
      (λ a b c.
        key_trans a.priority b.priority c.priority (l.text_le a.id b.id) (l.text_le b.id c.id)
          (l.text_le a.id c.id) (trans a.id b.id c.id))
      (all_hold l input) (keep (λ rule. rule.enabled) input.rules) best other e
      (mem_keep (λ rule. rule.enabled) input.rules other m on) h
