-- ===== src/Automation/Recovery.antt =====
-- `replayDeadLetterAutomationJob` and `cancelAutomationJob` of
-- apps/api/src/services/automation-jobs.ts.
use Prim.Native.String
use jaa.Prelude.{
  ℕ, ◌+◌, Bool, true, false, not, ◌&&◌, String, Option, none, some, List, [], ◌∷◌, ◌++◌, Number,
  nat, Date, ◌===◌, null_eq, ◌==◌, find, any, count, update, or_else, if◌then◌else◌, Tx, Result, ok,
  err, ◌>>=◌, ◌>>◌, return, require, expect, get, put, lift, pos,
}
use jaa.Prelude.Sessions.{commit}
use jaa.Json.Value.{num, str, obj, end, field}
use jaa.Automation.Jobs.{
  JobStatus, pending, available, leased, succeeded, failed, cancelled, dead_letter, is_dead_letter,
  is_finished, AutomationJob, has_id, DiscoveryRunStatus, DiscoveryRun, JobAudit, Db, JobError,
  not_found, terminal, unique_violation, no_row,
}
use jaa.Automation.Checks.{require_text, validate_max_attempts, validate_now}

abbrev pub M : Type 0 → Type 0
M A = Tx JobError Db A

pub record ReplayInput : Type 0 where
  pub job_id : String
  pub user_id : String
  pub reason : String
  pub correlation_id : String
  pub max_attempts : Option Number

abbrev pub owns : String → String → AutomationJob → Bool
owns id user_id job = job.id === id && job.user_id === user_id

unfoldable pub replay_key : String → String → String
replay_key id correlation_id =
    String.◌++◌ "replay:" (String.◌++◌ id (String.◌++◌ ":" correlation_id))

unfoldable pub replay_row : String → ℕ → AutomationJob → String → ℕ → AutomationJob
replay_row id clock current correlation_id max_attempts = record {
  id = id;
  user_id = current.user_id;
  application_id = current.application_id;
  automation_run_id = current.automation_run_id;
  type = current.type;
  status = available;
  priority = current.priority;
  payload = current.payload;
  payload_version = current.payload_version;
  attempt_count = 0;
  max_attempts = max_attempts;
  delivery_generation = 1;
  available_at = clock;
  requested_available_at = none;
  lease_owner = none;
  lease_expires_at = none;
  correlation_id = correlation_id;
  idempotency_key = replay_key current.id correlation_id;
  replay_of_id = some current.id;
  last_error = none;
  cancelled_at = none;
  completed_at = none;
  created_at = clock;
  updated_at = clock;
}

abbrev pub is_replay_of : String → AutomationJob → Bool
is_replay_of id job = null_eq job.replay_of_id (some id)

-- The audit row; `cut` takes the first 2,000 code units of the reason.
replay_audit : (String → String) → ReplayInput → AutomationJob → AutomationJob → JobAudit
replay_audit cut input current replay = record {
  user_id = input.user_id;
  action = "AUTOMATION_JOB_REPLAYED";
  resource_id = replay.id;
  details = obj (
      field "replayOfId" (str current.id) (
        field "reason" (str (cut input.reason)) (
          field "correlationId" (str input.correlation_id)
            (field "payloadVersion" (num (pos current.payload_version)) end))));
}

-- The transaction, after the checks. `id`, `replayOfId` and (`userId`, `idempotencyKey`)
-- are unique.
unfoldable pub replay_rows : (String → String) → String → ℕ → ReplayInput → ℕ → M AutomationJob
unfolding replay_audit
replay_rows cut id clock input max_attempts = do
  db ← get
  current ← expect (find (owns input.job_id input.user_id) db.jobs) not_found
  require (is_dead_letter current.status) terminal
  require (not (any (is_replay_of current.id) db.jobs)) terminal
  let row = replay_row id clock current input.correlation_id max_attempts
  require (not (any (has_id row.id) db.jobs)) unique_violation
  require
      (not
        (any (λ j. j.user_id === row.user_id && j.idempotency_key === row.idempotency_key) db.jobs))
      unique_violation
  put (record db {
    jobs = db.jobs ++ row ∷ [];
    audit_logs = db.audit_logs ++ replay_audit cut input current row ∷ [];
  })
  return row

unfoldable pub replay_in_tenant : (String → String) → String → ℕ → ReplayInput → M AutomationJob
replay_in_tenant cut id clock input = do
  lift (require_text input.job_id)
  lift (require_text input.user_id)
  lift (require_text input.reason)
  lift (require_text input.correlation_id)
  max_attempts ← lift (validate_max_attempts (or_else input.max_attempts (nat 3)))
  replay_rows cut id clock input max_attempts

unfoldable pub cancelled_row : ℕ → ℕ → AutomationJob → AutomationJob
cancelled_row clock now job = record job {
  status = cancelled;
  cancelled_at = some now;
  completed_at = some now;
  lease_owner = none;
  lease_expires_at = none;
  updated_at = clock;
}

abbrev pub job_status_eq : JobStatus → JobStatus → Bool
job_status_eq pending pending = true
job_status_eq available available = true
job_status_eq leased leased = true
job_status_eq succeeded succeeded = true
job_status_eq failed failed = true
job_status_eq cancelled cancelled = true
job_status_eq dead_letter dead_letter = true
job_status_eq _ _ = false

abbrev pub is_cancelled : JobStatus → Bool
is_cancelled cancelled = true
is_cancelled _ = false

-- The `where` of the update: nothing changed since the read.
abbrev pub is_unchanged : AutomationJob → String → String → AutomationJob → Bool
is_unchanged current id user_id job =
    job.id === id
    && job.user_id === user_id
    && job_status_eq job.status current.status
    && job.updated_at == current.updated_at

abbrev is_true : Option Bool → Bool
is_true (some true) = true
is_true _ = false

unfoldable pub is_cancellable : DiscoveryRun → Bool
is_cancellable run = elim run.status [
  | DiscoveryRunStatus.pending ↦ true
  | DiscoveryRunStatus.running ↦ true
  | DiscoveryRunStatus.failed ↦ is_true run.error_retryable
  | DiscoveryRunStatus.partial ↦ is_true run.error_retryable
  | _ ↦ false
]

unfoldable pub cancelled_run : ℕ → ℕ → DiscoveryRun → DiscoveryRun
cancelled_run clock now run = record run {
  status = DiscoveryRunStatus.cancelled;
  started_at = some (or_else run.started_at now);
  heartbeat_at = some now;
  completed_at = some now;
  error_count = run.error_count + 1;
  error_class = some "CANCELLED";
  error_code = some "DISCOVERY_CANCELLED";
  error_message = some "Discovery run was cancelled by the user";
  error_retryable = some false;
  updated_at = clock;
}

-- The discovery run that a DISCOVER_JOBS job names by its correlation id.
unfoldable pub cancel_discovery :
    ℕ → ℕ → AutomationJob → String → List DiscoveryRun → List DiscoveryRun
cancel_discovery clock now job user_id runs =
    if job.type === "DISCOVER_JOBS"
    then update
        (λ run. run.id === job.correlation_id && run.user_id === user_id && is_cancellable run)
        (cancelled_run clock now) runs
    else runs

-- The part of `cancelAutomationJob` after the row was read; `others` commits before the update.
unfoldable pub cancel_rows : (Db → Db) → ℕ → ℕ → String → String → AutomationJob → M AutomationJob
cancel_rows others clock now id user_id current = do
  require (not (is_finished current.status)) terminal
  before ← get
  put (others before)
  db ← get
  require (count (is_unchanged current id user_id) db.jobs == 1) terminal
  put (record db {
    jobs = update (is_unchanged current id user_id) (cancelled_row clock now) db.jobs;
    discovery_runs = cancel_discovery clock now current user_id db.discovery_runs;
  })
  after ← get
  expect (find (has_id id) after.jobs) no_row

unfoldable pub cancel_in_tenant : (Db → Db) → ℕ → String → String → Date → M AutomationJob
cancel_in_tenant others clock id user_id date = do
  lift (require_text id)
  lift (require_text user_id)
  now ← lift (validate_now date)
  db ← get
  current ← expect (find (owns id user_id) db.jobs) not_found
  (if is_cancelled current.status
      then return current
      else cancel_rows others clock now id user_id current)

-- A throw rolls this transaction back; what the others committed stays.
unfoldable pub cancel_automation_job :
    (Db → Db) → ℕ → String → String → Date → Db → Result JobError AutomationJob × Db
cancel_automation_job others clock id user_id date db =
    elim (cancel_in_tenant others clock id user_id date db) [
      | ok r ↦ (ok r.0, r.1)
      | err e ↦ (err e, others db)
    ]

unfoldable pub replay_dead_letter :
    (String → String) → String → ℕ → ReplayInput → Db → Result JobError AutomationJob × Db
replay_dead_letter cut id clock input db = commit (replay_in_tenant cut id clock input) db
