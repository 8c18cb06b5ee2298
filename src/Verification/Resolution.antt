-- ===== src/Verification/Resolution.antt =====
-- `resolveHumanVerification`.
use Prim.Native.String
use jaa.Prelude.{
  Bool, true, false, not, ◌&&◌, String, [], ◌∷◌, ◌++◌, ◌===◌, ltb, find, any, update, ◌>>=◌, ◌>>◌,
  return, require, expect, get, put,
}
use jaa.Json.Value.{str, obj, end, field}
use jaa.Verification.Store.{
  VerificationStatus, pending, resolved, acknowledged_at, HumanVerification, ResumeJob,
  VerificationError, not_found, conflict, unique_violation, ResolveHumanVerificationInput,
}
use jaa.Verification.Machine.{
  M, Surroundings, require_text, resume_job_key, ended, has_verification_id, audit, event,
  record_event,
}

abbrev pub owns_verification : String → String → HumanVerification → Bool
owns_verification id user_id v = v.id === id && v.user_id === user_id

abbrev pub has_resume_key : String → String → ResumeJob → Bool
has_resume_key user_id key job = job.user_id === user_id && job.idempotency_key === key

abbrev pub new_resume_job :
    Surroundings → ResolveHumanVerificationInput → HumanVerification → ResumeJob
new_resume_job around input v = record {
  id = around.new_id;
  user_id = input.user_id;
  application_id = v.application_id;
  verification_id = v.id;
  correlation_id = input.correlation_id;
  idempotency_key = resume_job_key input.user_id v.id;
}

abbrev pub resolved_event :
    Surroundings → ResolveHumanVerificationInput → HumanVerification → M (Unit {0})
resolved_event around input v =
    record_event
      (audit input.user_id "HUMAN_VERIFICATION_RESOLVED" v.id (
        obj (
          field "applicationId" (str v.application_id)
            (field "resumeAutomationJobId" (str around.new_id) end))))
      (event input.user_id v.id "human-verification.resolved"
        (obj (
          field "applicationId" (str v.application_id)
            (field "resumeAutomationJobId" (str around.new_id) end)))
        input.correlation_id (String.◌++◌ "human-verification-resolved:" v.id))

-- The UPDATE, the resume command, the audit row and the event of a pending verification.
unfoldable pub resolve_pending :
    Surroundings
    → ResolveHumanVerificationInput
    → HumanVerification
    → M (HumanVerification × ResumeJob × Bool)
resolve_pending around input v = do
  require (ltb around.now v.expires_at) VerificationError.expired
  s ← get
  require
      (not (any (has_resume_key input.user_id (resume_job_key input.user_id v.id)) s.resume_jobs))
      unique_violation
  put (record s {
    verifications =
        update (has_verification_id v.id) (ended resolved around.now (acknowledged_at around.now))
          s.verifications;
    resume_jobs = s.resume_jobs ++ new_resume_job around input v ∷ [];
  })
  resolved_event around input v
  return (
    ended resolved around.now (acknowledged_at around.now) v,
    new_resume_job around input v,
    false,
  )

unfoldable pub replay_resolution :
    ResolveHumanVerificationInput → HumanVerification → M (HumanVerification × ResumeJob × Bool)
replay_resolution input v = do
  s ← get
  job ←
      expect (find (has_resume_key input.user_id (resume_job_key input.user_id v.id)) s.resume_jobs)
        conflict
  return (v, job, true)

abbrev pub resolve_found :
    Surroundings
    → ResolveHumanVerificationInput
    → HumanVerification
    → VerificationStatus
    → M (HumanVerification × ResumeJob × Bool)
resolve_found around input v resolved = replay_resolution input v
resolve_found around input v pending = resolve_pending around input v
resolve_found around input v _ = require false conflict >> replay_resolution input v

unfoldable pub resolve_human_verification :
    Surroundings → ResolveHumanVerificationInput → M (HumanVerification × ResumeJob × Bool)
resolve_human_verification around input = do
  require_text input.user_id
  require_text input.verification_id
  require_text input.correlation_id
  s ← get
  v ←
      expect (find (owns_verification input.verification_id input.user_id) s.verifications)
        not_found
  resolve_found around input v v.status
