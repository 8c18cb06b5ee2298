-- ===== src/Automation/Leasing.antt =====
-- `claimAutomationJobs`, `leaseAutomationJob`, `validateAutomationJobRetry` and
-- `reconcileExpiredAutomationJobLeases` of apps/api/src/services/automation-jobs.ts. Each runs one
-- transaction; an UPDATE statement is a function over the rows.
use mathlib.Core.Option
use jaa.Prelude.{
  ℕ, ◌+◌, Bool, true, not, ◌&&◌, ◌||◌, String, Option, none, some, List, [], ◌∷◌, Number, nat,
  int_eq, int_le, Date, at, ◌===◌, ◌==◌, leb, ltb, take, find, any, keep, update, count, or_else,
  some_and, if◌then◌else◌, map, Tx, Result, ok, err, ◌>>=◌, ◌>>◌, return, require, expect, get, put,
  lift, is_some,
}
use jaa.Automation.Jobs.{
  available, leased, dead_letter, is_leased, is_waiting, is_available, AutomationJob, has_id,
  AutomationRun, Db, JobError, invalid_input, not_found, lease_lost,
}
use jaa.Automation.Checks.{require_text, positive_integer, validate_now}

abbrev pub M : Type 0 → Type 0
M A = Tx JobError Db A

pub record RetryInput : Type 0 where
  pub job_id : String
  pub delivery_generation : Number
  pub expected_attempt : Number
  pub next_dispatch_attempt : Number

unfoldable pub is_authorized_retry : ℕ → ℕ → ℕ → AutomationJob → Bool
is_authorized_retry generation attempt next job =
    is_available job.status
    && not (is_some job.cancelled_at)
    && job.delivery_generation == generation
    && job.attempt_count == attempt
    && ltb job.attempt_count job.max_attempts
    && leb next job.max_attempts

unfoldable pub validate_retry : RetryInput → M (Unit {0})
validate_retry input = do
  lift (require_text input.job_id)
  generation ← lift (positive_integer input.delivery_generation)
  attempt ← lift (positive_integer input.expected_attempt)
  next ← lift (positive_integer input.next_dispatch_attempt)
  require (next == attempt + 1) invalid_input
  db ← get
  job ← expect (find (has_id input.job_id) db.jobs) not_found
  require (is_authorized_retry generation attempt next job) lease_lost
  return tt

-- The rows that the recovery statements pick: a lease that has run out.
abbrev pub is_expired : ℕ → AutomationJob → Bool
is_expired now job = is_leased job.status && some_and job.lease_expires_at (λ t. leb t now)

abbrev pub is_spent : ℕ → AutomationJob → Bool
is_spent now job = is_expired now job && leb job.max_attempts job.attempt_count

unfoldable pub to_dead_letter : ℕ → AutomationJob → AutomationJob
to_dead_letter now job = record job {
  status = dead_letter;
  delivery_generation = job.delivery_generation + 1;
  completed_at = some now;
  lease_owner = none;
  lease_expires_at = none;
  last_error = some "Lease expired after the final permitted attempt";
  updated_at = now;
}

-- The first UPDATE of a claim, and of the reconciliation.
abbrev pub bury_spent : ℕ → List AutomationJob → List AutomationJob
bury_spent now jobs = update (is_spent now) (to_dead_letter now) jobs

unfoldable pub is_claimable : ℕ → AutomationJob → Bool
is_claimable now job =
    ((is_waiting job.status && leb job.available_at now) || is_expired now job)
    && not (is_some job.cancelled_at)
    && ltb job.attempt_count job.max_attempts

-- ORDER BY priority DESC, "availableAt", "createdAt", id: whether `a` stands before `b`. The
-- database's order of texts is an argument.
unfoldable pub precedes : (String → String → Bool) → AutomationJob → AutomationJob → Bool
precedes text_le a b =
    if int_eq a.priority b.priority
    then if a.available_at == b.available_at
      then if a.created_at == b.created_at then text_le a.id b.id else ltb a.created_at b.created_at
      else ltb a.available_at b.available_at
    else int_le b.priority a.priority

unfoldable pub insert_ordered :
    (String → String → Bool) → AutomationJob → List AutomationJob → List AutomationJob
insert_ordered text_le job [] = job ∷ []
insert_ordered text_le job (j ∷ js) =
    if precedes text_le job j then job ∷ j ∷ js else j ∷ insert_ordered text_le job js

unfoldable pub ordered : (String → String → Bool) → List AutomationJob → List AutomationJob
unfolding insert_ordered
ordered text_le [] = []
ordered text_le (j ∷ js) = insert_ordered text_le j (ordered text_le js)

unfoldable pub to_leased : String → ℕ → ℕ → AutomationJob → AutomationJob
to_leased worker expires now job = record job {
  status = leased;
  lease_owner = some worker;
  lease_expires_at = some expires;
  attempt_count = job.attempt_count + 1;
  updated_at = now;
}

abbrev pub is_among : List AutomationJob → AutomationJob → Bool
is_among chosen job = any (has_id job.id) chosen

-- The rows that a claim takes: `locked` are those that FOR UPDATE SKIP LOCKED passes over.
unfoldable pub chosen_for :
    (String → String → Bool)
    → (AutomationJob → Bool)
    → ℕ
    → ℕ
    → List AutomationJob
    → List AutomationJob
chosen_for text_le locked limit now jobs =
    take limit (ordered text_le (keep (λ j. is_claimable now j && not (locked j)) jobs))

pub record ClaimInput : Type 0 where
  pub worker_id : String
  pub limit : Option Number
  pub lease_ms : Option Number
  pub now : Option Date

-- The two statements of the transaction.
unfoldable pub claim_rows :
    (String → String → Bool) → (AutomationJob → Bool) → String → ℕ → ℕ → ℕ → M (List AutomationJob)
claim_rows text_le locked worker limit lease_ms now = do
  db ← get
  let buried = bury_spent now db.jobs
  let chosen = chosen_for text_le locked limit now buried
  put (record db { jobs = update (is_among chosen) (to_leased worker (now + lease_ms) now) buried })
  return (map (to_leased worker (now + lease_ms) now) chosen)

unfoldable pub claim_automation_jobs :
    (String → String → Bool) → (AutomationJob → Bool) → ℕ → ClaimInput → M (List AutomationJob)
claim_automation_jobs text_le locked clock input = do
  lift (require_text input.worker_id)
  limit ← lift (positive_integer (or_else input.limit (nat 10)))
  lease_ms ← lift (positive_integer (or_else input.lease_ms (nat 30000)))
  now ← lift (validate_now (or_else input.now (at clock)))
  claim_rows text_le locked input.worker_id limit lease_ms now

pub record LeaseInput : Type 0 where
  pub job_id : String
  pub worker_id : String
  pub now : Option Date
  pub lease_ms : Option Number
  pub expected_attempt : Option Number
  pub delivery_generation : Option Number

-- `if (value !== undefined) positiveInteger(value)`.
abbrev pub optional_integer : Option Number → Result JobError (Option ℕ)
optional_integer none = ok none
optional_integer (some value) = elim (positive_integer value) [ ok n ↦ ok (some n) | err e ↦ err e ]

abbrev pub is_null_or : Option ℕ → ℕ → Bool
is_null_or none n = true
is_null_or (some m) n = n == m

abbrev pub run_allows : List AutomationRun → Option String → Bool
run_allows runs none = true
run_allows runs (some id) = any (λ run. run.id === id && run.running) runs

unfoldable pub is_leasable :
    String → Option ℕ → Option ℕ → ℕ → List AutomationRun → AutomationJob → Bool
is_leasable id attempt generation now runs job =
    job.id === id
    && is_waiting job.status
    && leb job.available_at now
    && not (is_some job.cancelled_at)
    && ltb job.attempt_count job.max_attempts
    && is_null_or attempt (job.attempt_count + 1)
    && is_null_or generation job.delivery_generation
    && run_allows runs job.automation_run_id

-- The UPDATE … RETURNING of a lease, `leased[0] ?? null`.
unfoldable pub lease_rows : String → String → Option ℕ → Option ℕ → ℕ → ℕ → M (Option AutomationJob)
lease_rows id worker attempt generation lease_ms now = do
  db ← get
  let fits = is_leasable id attempt generation now db.runs
  put (record db { jobs = update fits (to_leased worker (now + lease_ms) now) db.jobs })
  return (Option.map (to_leased worker (now + lease_ms) now) (find fits db.jobs))

unfoldable pub lease_automation_job : ℕ → LeaseInput → M (Option AutomationJob)
lease_automation_job clock input = do
  lift (require_text input.job_id)
  lift (require_text input.worker_id)
  lease_ms ← lift (positive_integer (or_else input.lease_ms (nat 30000)))
  attempt ← lift (optional_integer input.expected_attempt)
  generation ← lift (optional_integer input.delivery_generation)
  now ← lift (validate_now (or_else input.now (at clock)))
  lease_rows input.job_id input.worker_id attempt generation lease_ms now

unfoldable pub to_available : ℕ → AutomationJob → AutomationJob
to_available now job = record job {
  status = available;
  delivery_generation = job.delivery_generation + 1;
  available_at = now;
  lease_owner = none;
  lease_expires_at = none;
  last_error = some "Worker lease expired before completion";
  updated_at = now;
}

abbrev pub is_recoverable : ℕ → AutomationJob → Bool
is_recoverable now job = is_expired now job && ltb job.attempt_count job.max_attempts

-- The counts are those of rows made available, and of rows buried.
unfoldable pub reconcile_expired_leases : Date → M (ℕ × ℕ)
reconcile_expired_leases date = do
  now ← lift (validate_now date)
  db ← get
  let buried = bury_spent now db.jobs
  put (record db { jobs = update (is_recoverable now) (to_available now) buried })
  return (count (is_recoverable now) buried, count (is_spent now) db.jobs)
