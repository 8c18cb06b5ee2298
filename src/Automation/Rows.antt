-- ===== src/Automation/Rows.antt =====
-- When a job row is well formed, and the rows that the operations write.
use jaa.Prelude.{ℕ, ◌+◌, ◌≤◌, true, false, ◌≡◌, String, Option, arith, ℤ, is_some}
use jaa.Json.Locale.{JsonRules}
use jaa.Automation.Jobs.{AutomationJob, is_leased, is_finished}
use jaa.Automation.Checks.{max_automation_attempts}
use jaa.Automation.Creation.{CreateInput, new_job}
use jaa.Automation.Leasing.{is_spent, is_recoverable, to_dead_letter, to_available, to_leased}
use jaa.Automation.Ownership.{is_held, renewed, completed, after_failure}
use jaa.Automation.Recovery.{replay_row, is_cancelled, cancelled_row}

-- A job has an owner and an expiry exactly while it is leased, has used no more than its budget of
-- one to a hundred attempts, at least one while it is leased, has a cancellation time exactly when
-- it is cancelled, and a completion time exactly when it is finished.
pub record IsWellFormed (job : AutomationJob) : Type 0 where
  pub owned : is_leased job.status ≡ is_some job.lease_owner
  pub timed : is_leased job.status ≡ is_some job.lease_expires_at
  pub within : job.attempt_count ≤ job.max_attempts
  pub budgeted : (1 ≤ job.max_attempts) × (job.max_attempts ≤ max_automation_attempts)
  pub started : is_leased job.status ≡ true → 1 ≤ job.attempt_count
  pub fenced : 1 ≤ job.delivery_generation
  pub stopped : is_cancelled job.status ≡ is_some job.cancelled_at
  pub ended : is_finished job.status ≡ is_some job.completed_at

pub new_job-IsWellFormed :
    (rules : JsonRules) (id : String) (clock : ℕ) (input : CreateInput) (priority : ℤ)
    (version attempts : ℕ) (at_time : Option ℕ)
    → 1 ≤ attempts
    → attempts ≤ max_automation_attempts
    → IsWellFormed (new_job rules id clock input priority version attempts at_time)
unfolding new_job
new_job-IsWellFormed rules id clock input priority version attempts at_time h k = ground arith

pub replay_row-IsWellFormed :
    (id : String) (clock : ℕ) (current : AutomationJob) (correlation_id : String) (attempts : ℕ)
    → 1 ≤ attempts
    → attempts ≤ max_automation_attempts
    → IsWellFormed (replay_row id clock current correlation_id attempts)
unfolding replay_row
replay_row-IsWellFormed id clock current correlation_id attempts h k = ground arith

pub to_dead_letter-IsWellFormed :
    (now : ℕ) (job : AutomationJob)
    → is_spent now job ≡ true
    → IsWellFormed job
    → IsWellFormed (to_dead_letter now job)
unfolding to_dead_letter
to_dead_letter-IsWellFormed now job h w = ground arith

pub to_available-IsWellFormed :
    (now : ℕ) (job : AutomationJob)
    → is_recoverable now job ≡ true
    → IsWellFormed job
    → IsWellFormed (to_available now job)
unfolding to_available
to_available-IsWellFormed now job h w = ground arith

-- What the leasing statements have tested of a row.
pub to_leased-IsWellFormed :
    (worker : String) (expires now : ℕ) (job : AutomationJob)
    → is_some job.cancelled_at ≡ false
    → is_finished job.status ≡ false
    → job.attempt_count + 1 ≤ job.max_attempts
    → IsWellFormed job
    → IsWellFormed (to_leased worker expires now job)
unfolding to_leased
to_leased-IsWellFormed worker expires now job alive open_ room w = ground arith

pub renewed-IsWellFormed :
    (clock expires now : ℕ) (worker : String) (job : AutomationJob)
    → is_held worker now job ≡ true
    → IsWellFormed job
    → IsWellFormed (renewed clock expires job)
unfolding renewed
renewed-IsWellFormed clock expires now worker job h w = ground arith

pub completed-IsWellFormed :
    (clock now : ℕ) (worker : String) (job : AutomationJob)
    → is_held worker now job ≡ true
    → IsWellFormed job
    → IsWellFormed (completed clock now job)
unfolding completed
completed-IsWellFormed clock now worker job h w = ground arith

pub after_failure-IsWellFormed :
    (clock now delay : ℕ) (worker message : String) (seen job : AutomationJob)
    → is_held worker now job ≡ true
    → IsWellFormed job
    → IsWellFormed (after_failure clock now delay message seen job)
unfolding after_failure
after_failure-IsWellFormed clock now delay worker message seen job h w = ground arith

pub cancelled_row-IsWellFormed :
    (clock now : ℕ) (job : AutomationJob)
    → is_finished job.status ≡ false
    → IsWellFormed job
    → IsWellFormed (cancelled_row clock now job)
unfolding cancelled_row
cancelled_row-IsWellFormed clock now job h w = ground arith
