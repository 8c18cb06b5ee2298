-- ===== src/Automation/Checks.antt =====
-- The input checks of apps/api/src/services/automation-jobs.ts.
use jaa.Prelude.{
  ℕ, max, String, Option, none, some, Number, nat, int, other, pos, negsuc, max_safe_integer,
  positive, Date, at, invalid, is_blank, leb, if◌then◌else◌, or_else, Result, ok, err,
}
use jaa.Automation.Jobs.{JobError, invalid_input}

abbrev pub Checked : Type 0 → Type 0
Checked A = Result JobError A

unfoldable pub require_text : String → Checked (Unit {0})
require_text value = if is_blank value then err invalid_input else ok tt

abbrev or_invalid : Option ℕ → Checked ℕ
or_invalid none = err invalid_input
or_invalid (some n) = ok n

unfoldable pub positive_integer : Number → Checked ℕ
positive_integer value = or_invalid (positive value)

abbrev pub max_automation_attempts : ℕ
max_automation_attempts = 100

abbrev at_most_max : Checked ℕ → Checked ℕ
at_most_max (ok n) = if leb n max_automation_attempts then ok n else err invalid_input
at_most_max (err e) = err e

unfoldable pub validate_max_attempts : Number → Checked ℕ
unfolding positive_integer
validate_max_attempts value = at_most_max (positive_integer value)

unfoldable pub validate_now : Date → Checked ℕ
validate_now (at t) = ok t
validate_now invalid = err invalid_input

-- `none` where the value is no safe integer at least 0.
unfoldable pub validated_retry_after_ms : Number → Option ℕ
validated_retry_after_ms (int (pos n)) = if leb n max_safe_integer then some n else none
validated_retry_after_ms (int (negsuc n)) = none
validated_retry_after_ms other = none

abbrev pub provider_delay : Option Number → ℕ
provider_delay none = 0
provider_delay (some value) = or_else (validated_retry_after_ms value) 0

abbrev at_least_provider : Option Number → Checked ℕ → Checked ℕ
at_least_provider provider (ok delay) = ok (max delay (provider_delay provider))
at_least_provider provider (err e) = err e

unfoldable pub effective_retry_delay_ms : Number → Option Number → Checked ℕ
effective_retry_delay_ms retry_delay provider =
    at_least_provider provider (positive_integer retry_delay)

infixl 5 ◌>>=◌ ◌>>◌
abbrev ◌>>=◌ : {A B : Type 0} → Checked A → (A → Checked B) → Checked B
ok a >>= f = f a
err e >>= f = err e

abbrev ◌>>◌ : {B : Type 0} → Checked (Unit {0}) → Checked B → Checked B
ok a >> c = c
err e >> c = err e

-- The checks of a renewal: the length of the lease and the time.
unfoldable pub renew_checks : ℕ → String → Option Number → Option Date → Checked (ℕ × ℕ)
renew_checks clock worker lease now = do
  require_text worker
  lease_ms ← positive_integer (or_else lease (nat 30000))
  at_time ← validate_now (or_else now (at clock))
  ok (lease_ms, at_time)

-- The checks of a completion: the time.
unfoldable pub complete_checks : ℕ → String → Option Date → Checked ℕ
complete_checks clock worker now = do require_text worker; validate_now (or_else now (at clock))

-- The checks of a failure: the delay before the next attempt, and the time.
unfoldable pub fail_checks :
    ℕ → String → String → Option Number → Option Number → Option Date → Checked (ℕ × ℕ)
fail_checks clock worker error retry_delay provider now = do
  require_text worker
  require_text error
  delay ← effective_retry_delay_ms (or_else retry_delay (nat 1000)) provider
  at_time ← validate_now (or_else now (at clock))
  ok (delay, at_time)
