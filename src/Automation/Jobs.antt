-- ===== src/Automation/Jobs.antt =====
-- The tables of apps/api/src/services/automation-jobs.ts. Times are milliseconds.
use jaa.Prelude.{ℕ, ℤ, Bool, true, false, String, Option, List, ◌===◌}
use jaa.Json.Value.{Json}

pub data JobStatus : Type 0 where
  pending available leased succeeded failed cancelled dead_letter : JobStatus

pub record AutomationJob : Type 0 where
  pub id : String
  pub user_id : String
  pub application_id : Option String
  pub automation_run_id : Option String
  pub type : String
  pub status : JobStatus
  pub priority : ℤ
  pub payload : Json
  pub payload_version : ℕ
  pub attempt_count : ℕ
  pub max_attempts : ℕ
  pub delivery_generation : ℕ
  pub available_at : ℕ
  pub requested_available_at : Option ℕ
  pub lease_owner : Option String
  pub lease_expires_at : Option ℕ
  pub correlation_id : String
  pub idempotency_key : String
  pub replay_of_id : Option String
  pub last_error : Option String
  pub cancelled_at : Option ℕ
  pub completed_at : Option ℕ
  pub created_at : ℕ
  pub updated_at : ℕ

pub record AutomationRun : Type 0 where
  pub id : String
  pub user_id : String
  pub running : Bool

pub data DiscoveryRunStatus : Type 0 where
  pending running succeeded partial failed cancelled : DiscoveryRunStatus

pub record DiscoveryRun : Type 0 where
  pub id : String
  pub user_id : String
  pub status : DiscoveryRunStatus
  pub error_retryable : Option Bool
  pub started_at : Option ℕ
  pub heartbeat_at : Option ℕ
  pub completed_at : Option ℕ
  pub error_count : ℕ
  pub error_class : Option String
  pub error_code : Option String
  pub error_message : Option String
  pub updated_at : ℕ

pub record JobAudit : Type 0 where
  pub user_id : String
  pub action : String
  pub resource_id : String
  pub details : Json

pub record Db : Type 0 where
  pub jobs : List AutomationJob
  pub runs : List AutomationRun
  pub discovery_runs : List DiscoveryRun
  pub audit_logs : List JobAudit

-- The codes of `AutomationJobError`; then what `withTenant`, a unique index, `findUniqueOrThrow`
-- and a date that the database cannot hold throw.
pub data JobError : Type 0 where
  invalid_input not_found lease_lost terminal idempotency_conflict : JobError
  tenant_required unique_violation no_row bad_value : JobError

abbrev pub is_leased : JobStatus → Bool
is_leased leased = true
is_leased _ = false

-- `status IN ('PENDING', 'AVAILABLE')`.
abbrev pub is_waiting : JobStatus → Bool
is_waiting pending = true
is_waiting available = true
is_waiting _ = false

abbrev pub is_available : JobStatus → Bool
is_available available = true
is_available _ = false

abbrev pub is_dead_letter : JobStatus → Bool
is_dead_letter dead_letter = true
is_dead_letter _ = false

abbrev pub is_finished : JobStatus → Bool
is_finished succeeded = true
is_finished failed = true
is_finished cancelled = true
is_finished dead_letter = true
is_finished _ = false

abbrev pub has_id : String → AutomationJob → Bool
has_id id job = job.id === id
