-- ===== src/Verification/Machine.antt =====
-- `requestHumanVerification`, and what the operations share. The advisory locks make those on one
-- application or key run one after the other, and are left out; `others` is what other transactions commit
-- during an application transition. Times, new ids, `JSON.stringify`, what a jsonb column keeps of a value
-- (`stored`) and the text of a time are arguments.
use Prim.Native.String
use jaa.Prelude.{
  ℕ, ◌-◌, Bool, true, false, not, ◌&&◌, ◌||◌, String, Option, none, some, List, [], ◌∷◌, ◌++◌, Date,
  at, invalid, nat, is_blank, utf16_length, includes, ◌===◌, ◌==◌, leb, ltb, if◌then◌else◌, find,
  any, update, or_else, Tx, Result, ok, err, ◌>>=◌, ◌>>◌, return, require, expect, get, put,
}
use jaa.Json.Value.{Json, null, str, obj, end, field}
use jaa.Application.Status.{
  ApplicationStatus, application_started, form_filled, ready_to_submit, submission_pending,
  waiting_for_user, status_eq,
}
use jaa.Application.Store
use jaa.Application.Store.{
  Application, AuditLog, OutboxData, TransitionInput, TransitionResult, TransitionActor, worker,
  user, TransitionError,
}
use jaa.Application.Machine.{owns, transition_application_in_tenant}
use jaa.Verification.Classification.{human_verification_kinds}
use jaa.Verification.Store.{
  VerificationStatus, pending, expired, Resolution, expired_at, HumanVerification, Tables,
  VerificationError, not_found, conflict, transition, unique_violation, is_pending,
  RequestHumanVerificationInput,
}

abbrev pub M : Type 0 → Type 0
M A = Tx VerificationError Tables A

pub record Surroundings : Type 0 where
  pub others : Store.Db → Store.Db
  pub stringify : Json → String
  pub stored : Json → Json
  pub iso : ℕ → String
  pub new_id : String
  pub now : ℕ

-- A transition inside the transaction.
abbrev pub lifted :
    Tables
    → Result TransitionError (TransitionResult × Store.Db)
    → Result VerificationError (TransitionResult × Tables)
lifted s (ok r) = ok (r.0, record s { core = r.1 })
lifted s (err e) = err (transition e)

unfoldable pub move : Surroundings → TransitionInput → M TransitionResult
move around input s =
    lifted s (transition_application_in_tenant around.others around.now input s.core)

unfoldable pub require_text : String → M (Unit {0})
require_text value = require (not (is_blank value)) VerificationError.invalid

abbrev pub resume_status_for : ApplicationStatus → ApplicationStatus
resume_status_for status =
    if status_eq status ready_to_submit || status_eq status submission_pending
    then ready_to_submit
    else form_filled

-- The time of an expiry within the next 24 hours.
unfoldable pub valid_expiry : Date → ℕ → Option ℕ
valid_expiry invalid now = none
valid_expiry (at t) now = if ltb now t && leb (t - now) 86400000 then some t else none

unfoldable pub same_request :
    (Json → String) → ℕ → RequestHumanVerificationInput → HumanVerification → Bool
same_request stringify expires_at input v =
    v.application_id === input.application_id
    && v.type === input.type
    && v.prompt === input.prompt
    && stringify v.context === stringify (or_else input.context null)
    && v.expires_at == expires_at
    && v.correlation_id === input.correlation_id

abbrev pub resume_job_key : String → String → String
resume_job_key user_id id =
    String.◌++◌ "resume-after-human-verification:" (String.◌++◌ user_id (String.◌++◌ ":" id))

abbrev pub is_checkpoint : ApplicationStatus → Bool
is_checkpoint status =
    status_eq status application_started
    || status_eq status form_filled
    || status_eq status ready_to_submit
    || status_eq status submission_pending
    || status_eq status waiting_for_user

abbrev pub has_request_key : String → String → HumanVerification → Bool
has_request_key user_id key v = v.user_id === user_id && v.idempotency_key === key

abbrev pub is_pending_for : String → String → HumanVerification → Bool
is_pending_for user_id application_id v =
    v.user_id === user_id && v.application_id === application_id && is_pending v.status

-- The row as `data` of an update leaves it.
abbrev pub ended : VerificationStatus → ℕ → Resolution → HumanVerification → HumanVerification
ended status now resolution v = record v {
  status = status;
  resolved_at = some now;
  resolution = some resolution;
}

abbrev pub has_verification_id : String → HumanVerification → Bool
has_verification_id id v = v.id === id

abbrev pub audit : String → String → String → Json → AuditLog
audit user_id action id details = record {
  user_id = user_id;
  action = action;
  resource = "HumanVerification";
  resource_id = id;
  details = details;
}

abbrev pub event : String → String → String → Json → String → String → OutboxData
event user_id id type payload correlation_id key = record {
  user_id = user_id;
  aggregate_type = "HumanVerification";
  aggregate_id = id;
  event_type = type;
  payload = payload;
  schema_version = 1;
  correlation_id = correlation_id;
  idempotency_key = key;
}

-- `Promise.all([auditLog.create, outboxEvent.create])`.
unfoldable pub record_event : AuditLog → OutboxData → M (Unit {0})
record_event log event = do
  s ← get
  require (not (any (λ e. e.idempotency_key === event.idempotency_key) s.core.outbox_events))
      unique_violation
  put (record s {
    core = record s.core {
      audit_logs = s.core.audit_logs ++ log ∷ [];
      outbox_events = s.core.outbox_events ++ event ∷ [];
    };
  })

abbrev pub new_verification :
    Surroundings → ℕ → RequestHumanVerificationInput → Application → HumanVerification
new_verification around expires_at input application = record {
  id = around.new_id;
  user_id = input.user_id;
  application_id = application.id;
  type = input.type;
  status = pending;
  prompt = input.prompt;
  context = around.stored (or_else input.context null);
  expires_at = expires_at;
  resume_to_status = resume_status_for application.status;
  idempotency_key = input.idempotency_key;
  correlation_id = input.correlation_id;
  resolved_at = none;
  resolution = none;
}

unfoldable pub wait_transition :
    Surroundings → ℕ → RequestHumanVerificationInput → Application → TransitionInput
wait_transition around expires_at input application = record {
  application_id = application.id;
  user_id = input.user_id;
  to_status = waiting_for_user;
  expected_version = nat application.version;
  actor_type = worker;
  actor_id = none;
  reason = String.◌++◌ "Human verification required: " input.type;
  idempotency_key = String.◌++◌ "human-verification-wait:" around.new_id;
  correlation_id = input.correlation_id;
  metadata = some (
      obj (
        field "verificationId" (str around.new_id)
          (field "type" (str input.type) (field "expiresAt" (str (around.iso expires_at)) end))));
  effective_at = none;
}

abbrev pub ignore : TransitionResult → M (Unit {0})
ignore result = return tt

-- The transition, unless the application waits already.
unfoldable pub wait_for_user :
    Surroundings → ℕ → RequestHumanVerificationInput → Application → M (Unit {0})
wait_for_user around expires_at input application =
    if status_eq application.status waiting_for_user
    then return tt
    else move around (wait_transition around expires_at input application) >>= ignore

abbrev pub requested_event :
    Surroundings → ℕ → RequestHumanVerificationInput → Application → M (Unit {0})
requested_event around expires_at input application =
    record_event
      (audit input.user_id "HUMAN_VERIFICATION_REQUESTED" around.new_id (
        obj (
          field "applicationId" (str application.id)
            (field "type" (str input.type) (field "expiresAt" (str (around.iso expires_at)) end)))))
      (event input.user_id around.new_id "human-verification.requested"
        (obj (
          field "applicationId" (str application.id) (
            field "verificationId" (str around.new_id) (
              field "type" (str input.type)
                (field "expiresAt" (str (around.iso expires_at)) end)))))
        input.correlation_id (String.◌++◌ "human-verification-requested:" around.new_id))

-- The `updateMany` that expires what is overdue.
unfoldable pub expire_overdue :
    String → String → ℕ → List HumanVerification → List HumanVerification
expire_overdue user_id application_id now rows =
    update (λ v. is_pending_for user_id application_id v && leb v.expires_at now)
      (ended expired now (expired_at now)) rows

-- After the row was created.
unfoldable pub announce_request :
    Surroundings → ℕ → RequestHumanVerificationInput → Application → M (HumanVerification × Bool)
announce_request around expires_at input application = do
  wait_for_user around expires_at input application
  requested_event around expires_at input application
  return (new_verification around expires_at input application, false)

-- The checks on the application and on `rows`, the verifications without what is overdue, and the new row.
unfoldable pub insert_verification :
    Surroundings
    → ℕ
    → RequestHumanVerificationInput
    → Application
    → List HumanVerification
    → M (HumanVerification × Bool)
insert_verification around expires_at input application rows = do
  require (is_checkpoint application.status) conflict
  require (not (any (is_pending_for input.user_id input.application_id) rows)) conflict
  require (not (any (has_verification_id around.new_id) rows)) unique_violation
  s ← get
  put (record s {
    verifications = rows ++ new_verification around expires_at input application ∷ [];
  })
  announce_request around expires_at input application

-- The part of a request after the key was not found.
unfoldable pub create_request :
    Surroundings → ℕ → RequestHumanVerificationInput → M (HumanVerification × Bool)
create_request around expires_at input = do
  s ← get
  application ←
      expect (find (owns input.application_id input.user_id) s.core.applications) not_found
  insert_verification around expires_at input application
      (expire_overdue input.user_id input.application_id around.now s.verifications)

abbrev pub answer_request :
    Surroundings
    → ℕ
    → RequestHumanVerificationInput
    → Option HumanVerification
    → M (HumanVerification × Bool)
answer_request around expires_at input none = create_request around expires_at input
answer_request around expires_at input (some v) = do
  require (same_request around.stringify expires_at input v) conflict
  return (v, true)

-- The verification, and whether it is a replay.
unfoldable pub request_human_verification :
    Surroundings → RequestHumanVerificationInput → M (HumanVerification × Bool)
request_human_verification around input = do
  require_text input.user_id
  require_text input.application_id
  require_text input.type
  require_text input.prompt
  require_text input.correlation_id
  require_text input.idempotency_key
  require (includes human_verification_kinds input.type) VerificationError.invalid
  require (leb (utf16_length input.prompt) 2000) VerificationError.invalid
  expires_at ← expect (valid_expiry input.expires_at around.now) VerificationError.invalid
  s ← get
  answer_request around expires_at input
      (find (has_request_key input.user_id input.idempotency_key) s.verifications)
