-- ===== src/Verification/Handoff.antt =====
-- `cancelHumanVerification` and `resumeHumanVerification`.
use Prim.Native.String
use jaa.Prelude.{
  Bool, true, false, not, ◌&&◌, ◌||◌, ◌===◌, String, is_blank, none, some, nat, if◌then◌else◌, find,
  update, ◌>>=◌, ◌>>◌, return, require, expect, get, put,
}
use jaa.Json.Value.{bool, str, obj, end, field}
use jaa.Application.Status.{
  ApplicationStatus, form_filled, ready_to_submit, waiting_for_user, withdrawn, can_transition,
  status_eq,
}
use jaa.Application.Store.{Application, TransitionInput, user, worker}
use jaa.Verification.Store.{
  VerificationStatus, cancelled, pending, cancelled_by_user, HumanVerification, not_found, conflict,
  no_row, tenant_required, is_resolved, ResolveHumanVerificationInput,
}
use jaa.Verification.Machine.{
  M, Surroundings, move, require_text, ended, has_verification_id, audit, event, record_event,
  ignore,
}
use jaa.Verification.Resolution.{owns_verification}

abbrev pub application_of : HumanVerification → Application → Bool
application_of v a = a.id === v.application_id

unfoldable pub withdrawal :
    ResolveHumanVerificationInput → HumanVerification → Application → TransitionInput
withdrawal input v application = record {
  application_id = v.application_id;
  user_id = input.user_id;
  to_status = withdrawn;
  expected_version = nat application.version;
  actor_type = user;
  actor_id = some input.user_id;
  reason = "User cancelled required human verification";
  idempotency_key = String.◌++◌ "human-verification-cancel:" v.id;
  correlation_id = input.correlation_id;
  metadata = some (obj (field "verificationId" (str v.id) end));
  effective_at = none;
}

unfoldable pub withdraw :
    Surroundings → ResolveHumanVerificationInput → HumanVerification → Application → M (Unit {0})
withdraw around input v application =
    if status_eq application.status waiting_for_user
    then move around (withdrawal input v application) >>= ignore
    else return tt

unfoldable pub cancel_pending :
    Surroundings
    → ResolveHumanVerificationInput
    → HumanVerification
    → Application
    → M (HumanVerification × Bool)
cancel_pending around input v application = do
  s ← get
  put (record s {
    verifications =
        update (has_verification_id v.id) (ended cancelled around.now cancelled_by_user)
          s.verifications;
  })
  withdraw around input v application
  record_event
      (audit input.user_id "HUMAN_VERIFICATION_CANCELLED" v.id
        (obj (field "applicationId" (str v.application_id) end)))
      (event input.user_id v.id "human-verification.cancelled"
        (obj (field "applicationId" (str v.application_id) end)) input.correlation_id
        (String.◌++◌ "human-verification-cancelled:" v.id))
  return (ended cancelled around.now cancelled_by_user v, false)

abbrev pub cancel_found :
    Surroundings
    → ResolveHumanVerificationInput
    → HumanVerification
    → Application
    → VerificationStatus
    → M (HumanVerification × Bool)
cancel_found around input v application cancelled = return (v, true)
cancel_found around input v application pending = cancel_pending around input v application
cancel_found around input v application _ = require false conflict >> return (v, true)

-- `no_row` where the application of the row is gone, which the foreign key rules out.
unfoldable pub cancel_human_verification :
    Surroundings → ResolveHumanVerificationInput → M (HumanVerification × Bool)
cancel_human_verification around input = do
  require_text input.user_id
  require_text input.verification_id
  require_text input.correlation_id
  s ← get
  v ←
      expect (find (owns_verification input.verification_id input.user_id) s.verifications)
        not_found
  application ← expect (find (application_of v) s.core.applications) no_row
  cancel_found around input v application v.status

-- `resumeToStatus` is a status to resume at, which the table of transitions allows.
abbrev pub is_safe_target : ApplicationStatus → Bool
is_safe_target status =
    (status_eq status form_filled || status_eq status ready_to_submit)
    && can_transition waiting_for_user status

unfoldable pub resumption : String → String → HumanVerification → Application → TransitionInput
resumption user_id correlation_id v application = record {
  application_id = v.application_id;
  user_id = user_id;
  to_status = v.resume_to_status;
  expected_version = nat application.version;
  actor_type = worker;
  actor_id = none;
  reason = "Human verification was acknowledged; resuming at the safe handoff point";
  idempotency_key = String.◌++◌ "human-verification-resume:" v.id;
  correlation_id = correlation_id;
  metadata =
      some (
        obj
          (field "verificationId" (str v.id) (field "credentialMaterialStored" (bool false) end)));
  effective_at = none;
}

unfoldable pub resume_waiting :
    Surroundings → String → String → HumanVerification → Application → M Bool
resume_waiting around user_id correlation_id v application = do
  move around (resumption user_id correlation_id v application) >>= ignore
  return true

abbrev pub resume_if_waiting :
    Surroundings → String → String → HumanVerification → Application → M Bool
resume_if_waiting around user_id correlation_id v application =
    if status_eq application.status waiting_for_user
    then resume_waiting around user_id correlation_id v application
    else return false

-- Whether the application was resumed.
unfoldable pub resume_human_verification :
    Surroundings → (user_id id correlation_id : String) → M Bool
resume_human_verification around user_id id correlation_id = do
  require (not (is_blank user_id)) tenant_required
  s ← get
  v ← expect (find (owns_verification id user_id) s.verifications) not_found
  application ← expect (find (application_of v) s.core.applications) no_row
  require (is_resolved v.status) conflict
  require (is_safe_target v.resume_to_status) conflict
  resume_if_waiting around user_id correlation_id v application
