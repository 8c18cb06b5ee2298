-- ===== src/Verification/Store.antt =====
-- The table of human verifications, next to the tables of an application transition, and the resume
-- commands, which are rows of the table of automation jobs.
use jaa.Prelude.{ℕ, String, Bool, true, false, Option, List, Date}
use jaa.Json.Value.{Json}
use jaa.Application.Status.{ApplicationStatus}
use jaa.Application.Store.{TransitionError}
use jaa.Application.Store

pub data VerificationStatus : Type 0 where
  pending resolved expired cancelled : VerificationStatus

-- The `resolution` column; each has `credentialMaterialStored: false`.
pub data Resolution : Type 0 where
  expired_at acknowledged_at : ℕ → Resolution
  cancelled_by_user : Resolution

pub record HumanVerification : Type 0 where
  pub id : String
  pub user_id : String
  pub application_id : String
  pub type : String
  pub status : VerificationStatus
  pub prompt : String
  pub context : Json
  pub expires_at : ℕ
  pub resume_to_status : ApplicationStatus
  pub idempotency_key : String
  pub correlation_id : String
  pub resolved_at : Option ℕ
  pub resolution : Option Resolution

-- A job of type RESUME_APPLICATION_AFTER_VERIFICATION, AVAILABLE, with three attempts.
pub record ResumeJob : Type 0 where
  pub id : String
  pub user_id : String
  pub application_id : String
  pub verification_id : String
  pub correlation_id : String
  pub idempotency_key : String

pub record Tables : Type 0 where
  pub core : Store.Db
  pub verifications : List HumanVerification
  pub resume_jobs : List ResumeJob

-- The codes of `HumanVerificationError`; what a transition throws; a unique index, and a row that is gone.
pub data VerificationError : Type 0 where
  invalid not_found conflict expired : VerificationError
  transition : TransitionError → VerificationError
  unique_violation no_row tenant_required : VerificationError

abbrev pub is_pending : VerificationStatus → Bool
is_pending pending = true
is_pending _ = false

abbrev pub is_resolved : VerificationStatus → Bool
is_resolved resolved = true
is_resolved _ = false

abbrev pub is_cancelled : VerificationStatus → Bool
is_cancelled cancelled = true
is_cancelled _ = false

pub record RequestHumanVerificationInput : Type 0 where
  pub user_id : String
  pub application_id : String
  pub type : String
  pub prompt : String
  pub context : Option Json
  pub expires_at : Date
  pub correlation_id : String
  pub idempotency_key : String

pub record ResolveHumanVerificationInput : Type 0 where
  pub user_id : String
  pub verification_id : String
  pub correlation_id : String
