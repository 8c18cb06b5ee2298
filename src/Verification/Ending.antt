-- ===== src/Verification/Ending.antt =====
-- Every operation on verifications, in any order.
use jaa.Prelude.{
  Bool, true, false, not, String, is_blank, List, [], ◌∷◌, ◌++◌, ◌≡◌, refl, sym, arith, ltb, any,
  find, update, Result, Result-cases, ok, err, return, expect_inv, require_inv, inl, inr,
}
use mathlib.Core.Path.{subst}
use jaa.Application.Store.{Application}
use jaa.Application.Status.{status_eq, waiting_for_user}
use jaa.Verification.Store.{
  VerificationStatus, pending, resolved, expired, cancelled, acknowledged_at, cancelled_by_user,
  HumanVerification, ResumeJob, Tables, VerificationError, is_resolved, not_found, conflict,
  unique_violation, no_row, tenant_required, RequestHumanVerificationInput,
  ResolveHumanVerificationInput,
}
use jaa.Verification.Machine.{
  M, Surroundings, ended, has_verification_id, request_human_verification, resume_job_key,
  record_event,
}
use jaa.Verification.Resolution.{
  owns_verification, resolve_pending, replay_resolution, resolve_found, resolve_human_verification,
  resolved_event, has_resume_key, new_resume_job,
}
use jaa.Verification.Handoff.{
  withdraw, cancel_pending, cancel_found, cancel_human_verification, resume_human_verification,
  application_of, is_safe_target,
}
use jaa.Verification.Pending.{
  Keeps, then-Keeps, return-Keeps, if-Keeps, record_event-Keeps, withdraw-Keeps,
  resume_waiting-Keeps,
}
use jaa.Verification.Single.{IsSingle, text_inv, closes-IsSingle, kept-IsSingle, request-IsSingle}

replay_resolution-Keeps :
    (input : ResolveHumanVerificationInput) (v : HumanVerification)
    → Keeps (replay_resolution input v)
unfolding replay_resolution
replay_resolution-Keeps input v s s' r h =
    let (job, found, h1) =
      expect_inv
        (find (has_resume_key input.user_id (resume_job_key input.user_id v.id)) s.resume_jobs)
        conflict _ s h in
    return-Keeps (v, job, true) s s' r h1

resolve_pending-IsSingle :
    (around : Surroundings) (input : ResolveHumanVerificationInput) (v : HumanVerification)
    (s s' : Tables) (r : HumanVerification × ResumeJob × Bool)
    → resolve_pending around input v s ≡ ok (r, s')
    → IsSingle s
    → IsSingle s'
unfolding resolve_pending
resolve_pending-IsSingle around input v s s' r h single =
    let (live, h1) = require_inv (ltb around.now v.expires_at) VerificationError.expired _ s h in
    let (fresh, h2) =
      require_inv
        (not (any (has_resume_key input.user_id (resume_job_key input.user_id v.id)) s.resume_jobs))
        unique_violation _ s h1 in
    let f = ended resolved around.now (acknowledged_at around.now) in
    let written : Tables = record s {
      verifications = update (has_verification_id v.id) f s.verifications;
      resume_jobs = s.resume_jobs ++ (new_resume_job around input v ∷ []);
    } in
    let kept =
      then-Keeps (resolved_event around input v)
        (return (f v, new_resume_job around input v, false)) (record_event-Keeps _ _)
        (return-Keeps _) written s' r h2 in
    closes-IsSingle s s' (has_verification_id v.id) f (λ x. refl) kept single

resolve_found-IsSingle :
    (around : Surroundings) (input : ResolveHumanVerificationInput) (v : HumanVerification)
    (status : VerificationStatus) (s s' : Tables) (r : HumanVerification × ResumeJob × Bool)
    → resolve_found around input v status s ≡ ok (r, s')
    → IsSingle s
    → IsSingle s'
resolve_found-IsSingle around input v resolved s s' r h single =
    kept-IsSingle s s' (replay_resolution-Keeps input v s s' r h) single
resolve_found-IsSingle around input v pending s s' r h single =
    resolve_pending-IsSingle around input v s s' r h single
resolve_found-IsSingle around input v expired s s' r h single = absurd (ground (arith, h))
resolve_found-IsSingle around input v cancelled s s' r h single = absurd (ground (arith, h))

resolve-IsSingle :
    (around : Surroundings) (input : ResolveHumanVerificationInput) (s s' : Tables)
    (r : HumanVerification × ResumeJob × Bool)
    → resolve_human_verification around input s ≡ ok (r, s')
    → IsSingle s
    → IsSingle s'
unfolding resolve_human_verification
resolve-IsSingle around input s s' r h single =
    let h1 = text_inv input.user_id _ s h in
    let h2 = text_inv input.verification_id _ s h1 in
    let h3 = text_inv input.correlation_id _ s h2 in
    let (v, found, h4) =
      expect_inv (find (owns_verification input.verification_id input.user_id) s.verifications)
        not_found _ s h3 in
    resolve_found-IsSingle around input v v.status s s' r h4 single

cancel_pending-IsSingle :
    (around : Surroundings) (input : ResolveHumanVerificationInput) (v : HumanVerification)
    (a : Application) (s s' : Tables) (r : HumanVerification × Bool)
    → cancel_pending around input v a s ≡ ok (r, s')
    → IsSingle s
    → IsSingle s'
unfolding cancel_pending
cancel_pending-IsSingle around input v a s s' r h single =
    let f = ended cancelled around.now cancelled_by_user in
    let written : Tables = record s {
      verifications = update (has_verification_id v.id) f s.verifications;
    } in
    let kept =
      then-Keeps (withdraw around input v a) _ (withdraw-Keeps around input v a)
        (then-Keeps (record_event _ _) (return (f v, false)) (record_event-Keeps _ _)
          (return-Keeps _))
        written s' r h in
    closes-IsSingle s s' (has_verification_id v.id) f (λ x. refl) kept single

cancel_found-IsSingle :
    (around : Surroundings) (input : ResolveHumanVerificationInput) (v : HumanVerification)
    (a : Application) (status : VerificationStatus) (s s' : Tables) (r : HumanVerification × Bool)
    → cancel_found around input v a status s ≡ ok (r, s')
    → IsSingle s
    → IsSingle s'
cancel_found-IsSingle around input v a cancelled s s' r h single =
    kept-IsSingle s s' (return-Keeps (v, true) s s' r h) single
cancel_found-IsSingle around input v a pending s s' r h single =
    cancel_pending-IsSingle around input v a s s' r h single
cancel_found-IsSingle around input v a expired s s' r h single = absurd (ground (arith, h))
cancel_found-IsSingle around input v a resolved s s' r h single = absurd (ground (arith, h))

cancel-IsSingle :
    (around : Surroundings) (input : ResolveHumanVerificationInput) (s s' : Tables)
    (r : HumanVerification × Bool)
    → cancel_human_verification around input s ≡ ok (r, s')
    → IsSingle s
    → IsSingle s'
unfolding cancel_human_verification
cancel-IsSingle around input s s' r h single =
    let h1 = text_inv input.user_id _ s h in
    let h2 = text_inv input.verification_id _ s h1 in
    let h3 = text_inv input.correlation_id _ s h2 in
    let (v, found, h4) =
      expect_inv (find (owns_verification input.verification_id input.user_id) s.verifications)
        not_found _ s h3 in
    let (a, there, h5) = expect_inv (find (application_of v) s.core.applications) no_row _ s h4 in
    cancel_found-IsSingle around input v a v.status s s' r h5 single

resume-IsSingle :
    (around : Surroundings) (u id c : String) (s s' : Tables) (r : Bool)
    → resume_human_verification around u id c s ≡ ok (r, s')
    → IsSingle s
    → IsSingle s'
unfolding resume_human_verification
resume-IsSingle around u id c s s' r h single =
    let (named, h0) = require_inv (not (is_blank u)) tenant_required _ s h in
    let (v, found, h1) =
      expect_inv (find (owns_verification id u) s.verifications) not_found _ s h0 in
    let (a, there, h2) = expect_inv (find (application_of v) s.core.applications) no_row _ s h1 in
    let (done, h3) = require_inv (is_resolved v.status) conflict _ s h2 in
    let (safe, h4) = require_inv (is_safe_target v.resume_to_status) conflict _ s h3 in
    kept-IsSingle s s'
      (if-Keeps (status_eq a.status waiting_for_user) _ _ (resume_waiting-Keeps around u c v a)
        (return-Keeps false) s s' r h4)
      single

pub data Call : Type 0 where
  requesting : Surroundings → RequestHumanVerificationInput → Call
  resolving : Surroundings → ResolveHumanVerificationInput → Call
  cancelling : Surroundings → ResolveHumanVerificationInput → Call
  resuming : Surroundings → (user_id id correlation_id : String) → Call

-- The tables after a transaction: those before where it threw.
abbrev pub committed : {A : Type 0} → Tables → Result VerificationError (A × Tables) → Tables
committed s (ok r) = r.1
committed s (err e) = s

abbrev pub perform : Call → Tables → Tables
perform (requesting around input) s = committed s (request_human_verification around input s)
perform (resolving around input) s = committed s (resolve_human_verification around input s)
perform (cancelling around input) s = committed s (cancel_human_verification around input s)
perform (resuming around u id c) s = committed s (resume_human_verification around u id c s)

abbrev pub perform_all : List Call → Tables → Tables
perform_all [] s = s
perform_all (call ∷ calls) s = perform_all calls (perform call s)

committed-IsSingle :
    {A : Type 0} (s : Tables) (m : M A)
    → ((s' : Tables) (r : A) → m s ≡ ok (r, s') → IsSingle s → IsSingle s')
    → IsSingle s
    → IsSingle (committed s (m s))
committed-IsSingle s m keeps single = elim (Result-cases (m s)) [
  | inl (r, e) ↦ subst (λ x. IsSingle (committed s x)) (sym e) (keeps r.1 r.0 e single)
  | inr (x, e) ↦ subst (λ x. IsSingle (committed s x)) (sym e) single
]

perform-IsSingle : (call : Call) (s : Tables) → IsSingle s → IsSingle (perform call s)
perform-IsSingle (requesting around input) s single =
    committed-IsSingle s (request_human_verification around input) (request-IsSingle around input s)
      single
perform-IsSingle (resolving around input) s single =
    committed-IsSingle s (resolve_human_verification around input) (resolve-IsSingle around input s)
      single
perform-IsSingle (cancelling around input) s single =
    committed-IsSingle s (cancel_human_verification around input) (cancel-IsSingle around input s)
      single
perform-IsSingle (resuming around u id c) s single =
    committed-IsSingle s (resume_human_verification around u id c) (resume-IsSingle around u id c s)
      single

-- From tables where every application of a user has at most one pending verification, any sequence of
-- requests, resolutions, cancellations and resumptions, whether each commits or throws, leads to tables
-- where that holds.
pub perform_all-IsSingle :
    (calls : List Call) (s : Tables) → IsSingle s → IsSingle (perform_all calls s)
perform_all-IsSingle [] s single = single
perform_all-IsSingle (call ∷ calls) s single =
    perform_all-IsSingle calls (perform call s) (perform-IsSingle call s single)
