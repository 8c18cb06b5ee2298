-- ===== src/Automation/Creation.antt =====
-- `createAutomationJobInTransaction` and `createAutomationJob` of
-- apps/api/src/services/automation-jobs.ts. `rules` has the locale's order of keys, and what the jsonb column of
-- the payload gives back.
use jaa.Prelude.{
  ℕ, Bool, true, false, not, ◌&&◌, String, Option, none, some, List, [], ◌∷◌, ◌++◌, Number, nat, ℤ,
  safe_integer, int_eq, Date, at, invalid, is_blank, ◌===◌, null_eq, ◌==◌, find, any, or_else,
  if◌then◌else◌, Tx, Result, ok, err, ◌>>=◌, ◌>>◌, return, require, expect, get, put, lift,
}
use jaa.Json.Value.{Json}
use jaa.Json.Locale.{JsonRules, payload_equals}
use jaa.Automation.Jobs.{
  available, AutomationJob, has_id, AutomationRun, Db, JobError, invalid_input, not_found,
  idempotency_conflict, tenant_required, unique_violation, bad_value,
}
use jaa.Automation.Checks.{require_text, positive_integer, validate_max_attempts}

pub record CreateInput : Type 0 where
  pub user_id : String
  pub application_id : Option String
  pub automation_run_id : Option String
  pub type : String
  pub priority : Option Number
  pub payload : Json
  pub payload_version : Option Number
  pub max_attempts : Option Number
  pub available_at : Option Date
  pub correlation_id : String
  pub idempotency_key : String

abbrev pub M : Type 0 → Type 0
M A = Tx JobError Db A

abbrev pub same_time : Option ℕ → Option Date → Bool
same_time none none = true
same_time (some t) (some (at u)) = t == u
same_time _ _ = false

-- Whether `mismatches` is empty.
unfoldable pub is_same_job : JsonRules → CreateInput → ℤ → ℕ → ℕ → AutomationJob → Bool
is_same_job rules input priority payload_version max_attempts job =
    job.user_id === input.user_id
    && job.type === input.type
    && null_eq job.application_id input.application_id
    && null_eq job.automation_run_id input.automation_run_id
    && int_eq job.priority priority
    && job.payload_version == payload_version
    && job.max_attempts == max_attempts
    && job.correlation_id === input.correlation_id
    && same_time job.requested_available_at input.available_at
    && payload_equals rules.locale_le job.payload input.payload

abbrev pub has_key : String → String → AutomationJob → Bool
has_key user_id key job = job.user_id === user_id && job.idempotency_key === key

-- `if (input.automationRunId)`: an empty text passes.
abbrev pub run_known : Option String → String → List AutomationRun → Bool
run_known none user_id runs = true
run_known (some id) user_id runs =
    if id === "" then true else any (λ run. run.id === id && run.user_id === user_id) runs

-- The value of a date column; `none` where the date is invalid.
abbrev pub stored_date : Option Date → Option (Option ℕ)
stored_date none = some none
stored_date (some (at t)) = some (some t)
stored_date (some invalid) = none

unfoldable pub new_job : JsonRules → String → ℕ → CreateInput → ℤ → ℕ → ℕ → Option ℕ → AutomationJob
new_job rules id clock input priority payload_version max_attempts available_at = record {
  id = id;
  user_id = input.user_id;
  application_id = input.application_id;
  automation_run_id = input.automation_run_id;
  type = input.type;
  status = available;
  priority = priority;
  payload = rules.stored input.payload;
  payload_version = payload_version;
  attempt_count = 0;
  max_attempts = max_attempts;
  delivery_generation = 1;
  available_at = or_else available_at clock;
  requested_available_at = available_at;
  lease_owner = none;
  lease_expires_at = none;
  correlation_id = input.correlation_id;
  idempotency_key = input.idempotency_key;
  replay_of_id = none;
  last_error = none;
  cancelled_at = none;
  completed_at = none;
  created_at = clock;
  updated_at = clock;
}

-- The insert after no row with the key was found; `id` is the primary key, and (`userId`,
-- `idempotencyKey`) is unique.
unfoldable pub insert_job : AutomationJob → M (AutomationJob × Bool)
insert_job job = do
  db ← get
  require (not (any (has_id job.id) db.jobs)) unique_violation
  require (not (any (has_key job.user_id job.idempotency_key) db.jobs)) unique_violation
  put (record db { jobs = db.jobs ++ job ∷ [] })
  return (job, false)

-- `existing`, or a new row; the flag is `replayed`.
unfoldable pub reuse_or_insert :
    JsonRules
    → String
    → ℕ
    → CreateInput
    → ℤ
    → ℕ
    → ℕ
    → Option AutomationJob
    → M (AutomationJob × Bool)
unfolding insert_job
reuse_or_insert rules id clock input priority payload_version max_attempts (some existing) = do
  require (is_same_job rules input priority payload_version max_attempts existing)
      idempotency_conflict
  return (existing, true)
reuse_or_insert rules id clock input priority payload_version max_attempts none = do
  available_at ← expect (stored_date input.available_at) bad_value
  insert_job (new_job rules id clock input priority payload_version max_attempts available_at)

-- `id` is the identifier that the database generates.
unfoldable pub create_in_transaction :
    JsonRules → String → ℕ → CreateInput → M (AutomationJob × Bool)
create_in_transaction rules id clock input = do
  lift (require_text input.user_id)
  lift (require_text input.type)
  lift (require_text input.correlation_id)
  lift (require_text input.idempotency_key)
  priority ← expect (safe_integer (or_else input.priority (nat 0))) invalid_input
  payload_version ← lift (positive_integer (or_else input.payload_version (nat 1)))
  max_attempts ← lift (validate_max_attempts (or_else input.max_attempts (nat 3)))
  db ← get
  require (run_known input.automation_run_id input.user_id db.runs) not_found
  reuse_or_insert rules id clock input priority payload_version max_attempts
      (find (has_key input.user_id input.idempotency_key) db.jobs)

unfoldable pub create_automation_job :
    JsonRules → String → ℕ → CreateInput → Db → Result JobError (AutomationJob × Bool) × Db
create_automation_job rules id clock input db =
    if is_blank input.user_id
    then (err tenant_required, db)
    else elim (create_in_transaction rules id clock input db) [
      | ok r ↦ (ok r.0, r.1)
      | err e ↦ (err e, db)
    ]
