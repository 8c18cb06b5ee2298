-- ===== src/Automation/Ownership.antt =====
-- `getOwnedJob`, `renewAutomationJobLease`, `completeAutomationJob` and `failAutomationJob` of
-- apps/api/src/services/automation-jobs.ts. Each reads the job, updates it and reads it again in
-- three transactions; `others` and `others'` are what is committed between them.
use jaa.Prelude.{
  ℕ, ◌+◌, Bool, ◌&&◌, String, Option, none, some, Number, Date, null_eq, ◌===◌, ◌==◌, leb, ltb,
  find, count, update, some_and, if◌then◌else◌, Result, ok, err,
}
use jaa.Prelude.Sessions.{Op, ◌>>=◌, ◌>>◌, check, meanwhile}
use jaa.Automation.Jobs.{
  available, succeeded, dead_letter, is_leased, AutomationJob, has_id, Db, JobError, not_found,
  lease_lost, no_row,
}
use jaa.Automation.Checks.{renew_checks, complete_checks, fail_checks}

pub record OwnedInput : Type 0 where
  pub job_id : String
  pub worker_id : String
  pub now : Option Date

abbrev pub M : Type 0 → Type 0
M A = Op JobError Db A

-- A lease of this worker that has not run out.
abbrev pub is_held : String → ℕ → AutomationJob → Bool
is_held worker now job =
    is_leased job.status
    && null_eq job.lease_owner (some worker)
    && some_and job.lease_expires_at (λ t. ltb now t)

abbrev pub is_held_job : String → String → ℕ → AutomationJob → Bool
is_held_job id worker now job = job.id === id && is_held worker now job

abbrev pub owned_or_err : String → ℕ → Option AutomationJob → Result JobError AutomationJob
owned_or_err worker now none = err not_found
owned_or_err worker now (some job) = if is_held worker now job then ok job else err lease_lost

unfoldable pub get_owned_job : String → String → ℕ → M AutomationJob
get_owned_job id worker now db = (owned_or_err worker now (find (has_id id) db.jobs), db)

-- `updateMany` on a lease that is still held, then `if (updated.count !== 1) throw`.
unfoldable pub update_held : String → String → ℕ → (AutomationJob → AutomationJob) → M (Unit {0})
update_held id worker now change db = (
  if count (is_held_job id worker now) db.jobs == 1 then ok tt else err lease_lost,
  record db { jobs = update (is_held_job id worker now) change db.jobs },
)

abbrev row_or_err : Option AutomationJob → Result JobError AutomationJob
row_or_err none = err no_row
row_or_err (some job) = ok job

unfoldable pub find_or_throw : String → M AutomationJob
find_or_throw id db = (row_or_err (find (has_id id) db.jobs), db)

-- What the three operations share after their checks.
unfoldable pub change_owned :
    (Db → Db)
    → (Db → Db)
    → String
    → String
    → ℕ
    → (AutomationJob → AutomationJob → AutomationJob)
    → M AutomationJob
change_owned others others' id worker now change = do
  job ← get_owned_job id worker now
  meanwhile others
  update_held id worker now (change job)
  meanwhile others'
  find_or_throw id

-- `clock` is the time of the call, by which the client stamps `updatedAt`.
unfoldable pub renewed : ℕ → ℕ → AutomationJob → AutomationJob
renewed clock expires job = record job { lease_expires_at = some expires; updated_at = clock }

unfoldable pub renew_lease :
    (Db → Db) → (Db → Db) → ℕ → OwnedInput → Option Number → M AutomationJob
renew_lease others others' clock input lease = do
  r ← check (renew_checks clock input.worker_id lease input.now)
  change_owned others others' input.job_id input.worker_id r.1 (λ seen. renewed clock (r.1 + r.0))

unfoldable pub completed : ℕ → ℕ → AutomationJob → AutomationJob
completed clock now job = record job {
  status = succeeded;
  completed_at = some now;
  lease_owner = none;
  lease_expires_at = none;
  last_error = none;
  updated_at = clock;
}

unfoldable pub complete_automation_job : (Db → Db) → (Db → Db) → ℕ → OwnedInput → M AutomationJob
complete_automation_job others others' clock input = do
  now ← check (complete_checks clock input.worker_id input.now)
  change_owned others others' input.job_id input.worker_id now (λ seen. completed clock now)

-- The row after a failure; the budget is read from the row that `getOwnedJob` gave.
unfoldable pub after_failure : ℕ → ℕ → ℕ → String → AutomationJob → AutomationJob → AutomationJob
after_failure clock now delay message seen job =
    let exhausted = leb seen.max_attempts seen.attempt_count in
    record job {
      status = if exhausted then dead_letter else available;
      lease_owner = none;
      lease_expires_at = none;
      last_error = some message;
      completed_at = if exhausted then some now else job.completed_at;
      available_at = if exhausted then job.available_at else now + delay;
      updated_at = clock;
    }

pub record FailInput : Type 0 where
  pub owned : OwnedInput
  pub error : String
  pub retry_delay_ms : Option Number
  pub provider_retry_after_ms : Option Number

-- `safe_error_message` is that of apps/api/src/observability/structured-log.ts.
unfoldable pub fail_automation_job :
    (String → String) → (Db → Db) → (Db → Db) → ℕ → FailInput → M AutomationJob
fail_automation_job safe_error_message others others' clock input = do
  r ← check (
      fail_checks clock input.owned.worker_id input.error input.retry_delay_ms
        input.provider_retry_after_ms input.owned.now)
  change_owned others others' input.owned.job_id input.owned.worker_id r.1
      (after_failure clock r.1 r.0 (safe_error_message input.error))
