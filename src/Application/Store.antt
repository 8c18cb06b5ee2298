-- ===== src/Application/Store.antt =====
-- The tables that a transition of apps/api/src/services/application-state-machine.ts touches. A
-- row has the columns that the code reads or writes; ids and creation times that the database
-- assigns to log rows are left out.
use jaa.Prelude.{ℕ, Bool, String, Option, List, Number, Date}
use jaa.Json.Value.{Json}
use jaa.Application.Status.{ApplicationStatus}

pub data TransitionActor : Type 0 where
  user system worker verifier : TransitionActor

pub record Application : Type 0 where
  pub id : String
  pub user_id : String
  pub status : ApplicationStatus
  pub version : ℕ
  pub applied_at : Option ℕ
  pub confirmed_at : Option ℕ
  pub failed_at : Option ℕ
  pub failure_reason : Option String

-- `metadata` is JSON null where none was given.
pub record Transition : Type 0 where
  pub application_id : String
  pub user_id : String
  pub from_status : ApplicationStatus
  pub to_status : ApplicationStatus
  pub actor_type : TransitionActor
  pub actor_id : Option String
  pub reason : String
  pub metadata : Json
  pub idempotency_key : String
  pub correlation_id : String
  pub version : ℕ

pub record AuditLog : Type 0 where
  pub user_id : String
  pub action : String
  pub resource : String
  pub resource_id : String
  pub details : Json

pub record OutboxData : Type 0 where
  pub user_id : String
  pub aggregate_type : String
  pub aggregate_id : String
  pub event_type : String
  pub payload : Json
  pub schema_version : ℕ
  pub correlation_id : String
  pub idempotency_key : String

pub record Db : Type 0 where
  pub applications : List Application
  pub transitions : List Transition
  pub audit_logs : List AuditLog
  pub outbox_events : List OutboxData

pub record TransitionInput : Type 0 where
  pub application_id : String
  pub user_id : String
  pub to_status : ApplicationStatus
  pub expected_version : Number
  pub actor_type : TransitionActor
  pub actor_id : Option String
  pub reason : String
  pub idempotency_key : String
  pub correlation_id : String
  pub metadata : Option Json
  pub effective_at : Option Date

-- The codes of `ApplicationTransitionError`; then what `withTenant`, a unique index and
-- `findUniqueOrThrow` throw.
pub data TransitionError : Type 0 where
  not_found invalid_transition stale_version idempotency_conflict verification_required :
      TransitionError
  tenant_required unique_violation no_row : TransitionError

pub record TransitionResult : Type 0 where
  pub application : Application
  pub transition : Transition
  pub replayed : Bool
