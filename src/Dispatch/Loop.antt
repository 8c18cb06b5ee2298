-- ===== src/Dispatch/Loop.antt =====
-- `dispatchAutomationJobs`. Each job is one `enqueue`; a failed one leaves an audit row in a transaction of
-- its own. `accepts` says whether BullMQ's `add` resolves.
use jaa.Prelude.{
  ℕ, ◌+◌, ◌-◌, String, Bool, true, ◌&&◌, not, Option, none, some, List, [], ◌∷◌, Number, nat, int,
  positive, at, or_else, max, ◌===◌, ◌==◌, leb, ltb, take, find, keep, length, is_some,
  if◌then◌else◌,
}
use jaa.Automation.Jobs.{AutomationJob, AutomationRun, is_waiting}
use jaa.Automation.Leasing.{ordered}
use jaa.Queue.Envelope.{EnqueueAutomationJobInput, Added, enqueue}

-- The LEFT JOIN: no run, or a run that is RUNNING.
abbrev pub run_is_running : Option AutomationRun → Bool
run_is_running none = true
run_is_running (some run) = run.running

abbrev pub joins_running : List AutomationRun → Option String → Bool
joins_running runs none = true
joins_running runs (some id) = run_is_running (find (λ run. run.id === id) runs)

abbrev pub is_of_requested_user : Option String → AutomationJob → Bool
is_of_requested_user none job = true
is_of_requested_user (some user_id) job = job.user_id === user_id

unfoldable pub is_dispatchable : ℕ → Option String → List AutomationRun → AutomationJob → Bool
is_dispatchable now user_id runs job =
    is_waiting job.status
    && leb job.available_at now
    && not (is_some job.cancelled_at)
    && ltb job.attempt_count job.max_attempts
    && is_of_requested_user user_id job
    && joins_running runs job.automation_run_id

-- The order is that of a claim.
unfoldable pub select_dispatchable :
    (String → String → Bool)
    → ℕ
    → ℕ
    → Option String
    → List AutomationRun
    → List AutomationJob
    → List AutomationJob
select_dispatchable text_le batch_size now user_id runs jobs =
    take batch_size (ordered text_le (keep (is_dispatchable now user_id runs) jobs))

unfoldable pub dispatch_available_at : AutomationJob → ℕ
dispatch_available_at job =
    if job.attempt_count == 0
    then or_else job.requested_available_at job.available_at
    else job.available_at

unfoldable pub dispatch_input : AutomationJob → EnqueueAutomationJobInput
dispatch_input job = record {
  automation_job_id = job.id;
  type = job.type;
  correlation_id = job.correlation_id;
  payload_version = nat job.payload_version;
  delivery_generation = nat job.delivery_generation;
  dispatch_attempt = nat (job.attempt_count + 1);
  priority = int job.priority;
  available_at = at (dispatch_available_at job);
  max_attempts = nat (max 1 (job.max_attempts - job.attempt_count));
}

pub record DispatchAudit : Type 0 where
  pub user_id : String
  pub resource_id : String
  pub correlation_id : String

-- The result so far, the jobs that BullMQ took, and the audit rows of failures.
pub record Dispatch : Type 0 where
  pub dispatched : ℕ
  pub failed : ℕ
  pub added : List Added
  pub audits : List DispatchAudit

abbrev pub failure_audit : AutomationJob → DispatchAudit
failure_audit job = record {
  user_id = job.user_id;
  resource_id = job.id;
  correlation_id = job.correlation_id;
}

abbrev pub record_outcome : AutomationJob → Dispatch → Option (List Added) → Dispatch
record_outcome job d none = record d {
  failed = d.failed + 1;
  audits = failure_audit job ∷ d.audits;
}
record_outcome job d (some added) = record d { dispatched = d.dispatched + 1; added = added }

unfoldable pub dispatch_one :
    (String → String) → (Added → Bool) → ℕ → AutomationJob → Dispatch → Dispatch
dispatch_one normalize accepts clock job d =
    record_outcome job d (enqueue normalize accepts clock (dispatch_input job) d.added)

unfoldable pub dispatch_all :
    (String → String) → (Added → Bool) → ℕ → List AutomationJob → Dispatch → Dispatch
dispatch_all normalize accepts clock [] d = d
dispatch_all normalize accepts clock (job ∷ jobs) d =
    dispatch_all normalize accepts clock jobs (dispatch_one normalize accepts clock job d)

abbrev pub start : List Added → Dispatch
start added = record { dispatched = 0; failed = 0; added = added; audits = [] }

abbrev pub dispatch_selected :
    (String → String) → (Added → Bool) → ℕ → List Added → List AutomationJob → ℕ × Dispatch
dispatch_selected normalize accepts clock added jobs =
    (length jobs, dispatch_all normalize accepts clock jobs (start added))

-- `selected` with the rest of the result; none where the batch size is no positive integer.
abbrev pub dispatch_batch :
    (String → String → Bool)
    → (String → String)
    → (Added → Bool)
    → ℕ
    → ℕ
    → Option String
    → List AutomationRun
    → List AutomationJob
    → List Added
    → Option ℕ
    → Option (ℕ × Dispatch)
dispatch_batch text_le normalize accepts clock now user_id runs jobs added none = none
dispatch_batch text_le normalize accepts clock now user_id runs jobs added (some batch_size) =
    some (
      dispatch_selected normalize accepts clock added
        (select_dispatchable text_le batch_size now user_id runs jobs))

unfoldable pub dispatch_automation_jobs :
    (String → String → Bool)
    → (String → String)
    → (Added → Bool)
    → (clock now : ℕ) → Option Number
    → Option String
    → List AutomationRun
    → List AutomationJob
    → List Added
    → Option (ℕ × Dispatch)
dispatch_automation_jobs text_le normalize accepts clock now batch_size user_id runs jobs added =
    dispatch_batch text_le normalize accepts clock now user_id runs jobs added
      (positive (or_else batch_size (nat 100)))
