-- ===== src/Application/Machine.antt =====
-- `validateInput`, `findReplay`, `transitionApplicationInTenant` and `transitionApplication` of
-- apps/api/src/services/application-state-machine.ts.
use Prim.Native.String
use jaa.Prelude.{
  ℕ, ◌+◌, Bool, true, false, not, ◌&&◌, String, Option, none, some, [], ◌∷◌, ◌++◌, Date, at,
  invalid, positive, pos, is_blank, ◌===◌, null_eq, ◌==◌, if◌then◌else◌, find, any, count, update,
  or_else, Tx, Result, ok, err, ◌>>=◌, ◌>>◌, return, require, expect, get, put,
}
use jaa.Json.Value.{null, num, str, obj, end, field}
use jaa.Json.Canonical.{same_json}
use jaa.Application.Status.{unconfirmed, confirmed, failed, can_transition, status_eq, status_name}
use jaa.Application.Store.{
  TransitionActor, user, system, worker, verifier, Application, Transition, AuditLog, OutboxData,
  Db, TransitionInput, TransitionError, not_found, invalid_transition, stale_version,
  idempotency_conflict, verification_required, tenant_required, unique_violation, no_row,
  TransitionResult,
}

abbrev pub M : Type 0 → Type 0
M A = Tx TransitionError Db A

abbrev pub actor_name : TransitionActor → String
actor_name user = "USER"
actor_name system = "SYSTEM"
actor_name worker = "WORKER"
actor_name verifier = "VERIFIER"

abbrev pub is_verifier : TransitionActor → Bool
is_verifier verifier = true
is_verifier _ = false

abbrev pub actor_eq : TransitionActor → TransitionActor → Bool
actor_eq user user = true
actor_eq system system = true
actor_eq worker worker = true
actor_eq verifier verifier = true
actor_eq _ _ = false

abbrev valid_date : Option Date → Bool
valid_date none = true
valid_date (some (at t)) = true
valid_date (some invalid) = false

-- Gives the version that the input expects.
unfoldable pub validate_input : TransitionInput → M ℕ
validate_input input = do
  version ← expect (positive input.expected_version) stale_version
  require (not (is_blank input.reason)) invalid_transition
  require (not (is_blank input.idempotency_key)) idempotency_conflict
  require (not (is_blank input.correlation_id)) invalid_transition
  require (valid_date input.effective_at) invalid_transition
  require (not (status_eq input.to_status confirmed && not (is_verifier input.actor_type)))
      verification_required
  return version

abbrev pub owns : String → String → Application → Bool
owns id user_id a = a.id === id && a.user_id === user_id

abbrev pub has_key : String → String → Transition → Bool
has_key user_id key t = t.user_id === user_id && t.idempotency_key === key

-- Whether a recorded transition is the one that the input asks for.
unfoldable pub is_same_request : ℕ → TransitionInput → Transition → Bool
is_same_request version input t =
    t.application_id === input.application_id
    && t.user_id === input.user_id
    && status_eq t.to_status input.to_status
    && t.version == version + 1
    && actor_eq t.actor_type input.actor_type
    && null_eq t.actor_id input.actor_id
    && t.reason === input.reason
    && t.correlation_id === input.correlation_id
    && same_json t.metadata (or_else input.metadata null)

replay_of : ℕ → TransitionInput → Option Transition → M (Option TransitionResult)
replay_of version input none = return none
replay_of version input (some t) = do
  require (is_same_request version input t) idempotency_conflict
  db ← get
  a ← expect (find (owns input.application_id input.user_id) db.applications) not_found
  return (some (record { application = a; transition = t; replayed = true }))

unfoldable pub find_replay : ℕ → TransitionInput → M (Option TransitionResult)
unfolding replay_of
find_replay version input = do
  db ← get
  replay_of version input (find (has_key input.user_id input.idempotency_key) db.transitions)

-- The columns that `updateMany` sets.
unfoldable pub apply_status : TransitionInput → ℕ → Application → Application
apply_status input now a = record a {
  status = input.to_status;
  version = a.version + 1;
  applied_at = if status_eq input.to_status unconfirmed then some now else a.applied_at;
  confirmed_at = if status_eq input.to_status confirmed then some now else a.confirmed_at;
  failed_at = if status_eq input.to_status failed then some now else a.failed_at;
  failure_reason = if status_eq input.to_status failed then some input.reason else a.failure_reason;
}

abbrev pub is_current : Application → ℕ → TransitionInput → Application → Bool
is_current current version input a =
    a.id === current.id
    && a.user_id === input.user_id
    && status_eq a.status current.status
    && a.version == version

unfoldable pub new_transition : Application → ℕ → TransitionInput → Transition
new_transition current version input = record {
  application_id = current.id;
  user_id = input.user_id;
  from_status = current.status;
  to_status = input.to_status;
  actor_type = input.actor_type;
  actor_id = input.actor_id;
  reason = input.reason;
  metadata = or_else input.metadata null;
  idempotency_key = input.idempotency_key;
  correlation_id = input.correlation_id;
  version = version + 1;
}

unfoldable pub new_audit : Application → TransitionInput → AuditLog
new_audit current input = record {
  user_id = input.user_id;
  action = "APPLICATION_STATUS_TRANSITIONED";
  resource = "Application";
  resource_id = current.id;
  details = obj (
      field "fromStatus" (str (status_name current.status)) (
        field "toStatus" (str (status_name input.to_status)) (
          field "actorType" (str (actor_name input.actor_type)) (
            field "reason" (str input.reason)
              (field "correlationId" (str input.correlation_id) end)))));
}

abbrev pub outbox_key : TransitionInput → String
outbox_key input =
    String.◌++◌ "application-transition:"
      (String.◌++◌ input.user_id (String.◌++◌ ":" input.idempotency_key))

unfoldable pub new_event : Application → ℕ → TransitionInput → OutboxData
new_event current version input = record {
  user_id = input.user_id;
  aggregate_type = "Application";
  aggregate_id = current.id;
  event_type = "application.status.transitioned";
  payload = obj (
      field "fromStatus" (str (status_name current.status)) (
        field "toStatus" (str (status_name input.to_status)) (
          field "version" (num (pos (version + 1))) (
            field "actorType" (str (actor_name input.actor_type))
              (field "reason" (str input.reason) end)))));
  schema_version = 1;
  correlation_id = input.correlation_id;
  idempotency_key = outbox_key input;
}

-- The part after the row was read: the guarded update, the log row, the audit row, the event.
unfoldable pub write_transition : Application → ℕ → TransitionInput → ℕ → M TransitionResult
write_transition current version input now = do
  db ← get
  require (count (is_current current version input) db.applications == 1) stale_version
  require (not (any (has_key input.user_id input.idempotency_key) db.transitions)) unique_violation
  require (not (any (λ e. e.idempotency_key === outbox_key input) db.outbox_events))
      unique_violation
  put (record {
    applications =
        update (is_current current version input) (apply_status input now) db.applications;
    transitions = db.transitions ++ new_transition current version input ∷ [];
    audit_logs = db.audit_logs ++ new_audit current input ∷ [];
    outbox_events = db.outbox_events ++ new_event current version input ∷ [];
  })
  after ← get
  a ← expect (find (λ row. row.id === current.id) after.applications) no_row
  return (record {
    application = a;
    transition = new_transition current version input;
    replayed = false;
  })

abbrev pub effective_time : ℕ → Option Date → ℕ
effective_time clock (some (at t)) = t
effective_time clock _ = clock

-- `others` is what other transactions commit between the read of the row and its update.
unfoldable pub fresh_transition : (Db → Db) → ℕ → ℕ → TransitionInput → M TransitionResult
fresh_transition others clock version input = do
  db ← get
  current ← expect (find (owns input.application_id input.user_id) db.applications) not_found
  require (current.version == version) stale_version
  require (can_transition current.status input.to_status) invalid_transition
  put (others db)
  write_transition current version input (effective_time clock input.effective_at)

-- `if (replay) return replay`.
abbrev pub resume :
    (Db → Db) → ℕ → ℕ → TransitionInput → Option TransitionResult → M TransitionResult
resume others clock version input (some result) = return result
resume others clock version input none = fresh_transition others clock version input

unfoldable pub transition_application_in_tenant :
    (Db → Db) → ℕ → TransitionInput → M TransitionResult
transition_application_in_tenant others clock input = do
  version ← validate_input input
  replay ← find_replay version input
  elim replay [ some result ↦ return result | none ↦ fresh_transition others clock version input ]

-- `withTenant` refuses a blank owner, and rolls back on a throw: then what the others committed is
-- all that is left.
unfoldable pub transition_application :
    (Db → Db) → ℕ → TransitionInput → Db → Result TransitionError TransitionResult × Db
transition_application others clock input db =
    if is_blank input.user_id
    then (err tenant_required, db)
    else elim (transition_application_in_tenant others clock input db) [
      | ok r ↦ (ok r.0, r.1)
      | err e ↦ (err e, others db)
    ]
