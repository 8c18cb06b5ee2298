-- ===== src/Verification/Replays.antt =====
-- Resolving a verification twice.
use mathlib.Core.Path.{subst}
use jaa.Prelude.{
  Bool, true, false, not, String, some, List, [], ◌∷◌, ◌++◌, ◌≡◌, refl, ap, ◌∙◌, arith, ltb, any,
  find, update, Result, ok, ◌>>◌, return, expect_inv, require_inv, inl, inr, ◌===◌, eq_refl,
  is_blank, find-append, find-eq-none, Bool-cases, >>=-eq-ok,
}
use jaa.Application.Store
use jaa.Verification.Store.{
  VerificationStatus, pending, resolved, expired, cancelled, acknowledged_at, HumanVerification,
  ResumeJob, Tables, VerificationError, not_found, conflict, unique_violation,
  ResolveHumanVerificationInput,
}
use jaa.Verification.Machine.{
  M, Surroundings, ended, has_verification_id, record_event, resume_job_key, require_text,
}
use jaa.Verification.Resolution.{
  owns_verification, resolve_pending, replay_resolution, resolve_found, resolve_human_verification,
  resolved_event, has_resume_key, new_resume_job,
}

-- What a replay needs.
record Settled (input : ResolveHumanVerificationInput) (s : Tables) (v : HumanVerification)
    (job : ResumeJob) : Type 0 where
  found : find (owns_verification input.verification_id input.user_id) s.verifications ≡ some v
  done : v.status ≡ resolved
  resume :
      find (has_resume_key input.user_id (resume_job_key input.user_id v.id)) s.resume_jobs
      ≡ some job

text_ok :
    {B : Type 0} (value : String) (k : M B) (s : Tables) {r : B × Tables}
    → (require_text value >> k) s ≡ ok r
    → (is_blank value ≡ false) × (k s ≡ ok r)
unfolding require_text
text_ok value k s h =
    let (t, rest) = require_inv (not (is_blank value)) VerificationError.invalid k s h in
    (ground (arith, t), rest)

replayed :
    (around : Surroundings) (input : ResolveHumanVerificationInput) (s : Tables)
    (v : HumanVerification) (job : ResumeJob)
    → is_blank input.user_id ≡ false
    → is_blank input.verification_id ≡ false
    → is_blank input.correlation_id ≡ false
    → Settled input s v job
    → resolve_human_verification around input s ≡ ok ((v, job, true), s)
unfolding resolve_human_verification replay_resolution require_text
replayed around input s v job b1 b2 b3 settled =
    rw (b1, b2, b3, settled.found) (rw (settled.done) (rw (settled.resume) refl))

-- The store after an event was recorded.
record_event_rest :
    (log : Store.AuditLog) (e : Store.OutboxData) (s s' : Tables) (u : Unit {0})
    → record_event log e s ≡ ok (u, s')
    → (s'.verifications ≡ s.verifications) × (s'.resume_jobs ≡ s.resume_jobs)
unfolding record_event
record_event_rest log e s s' u h =
    let (fresh, written) =
      require_inv (not (any (λ x. x.idempotency_key === e.idempotency_key) s.core.outbox_events))
        unique_violation _ s h in
    (ground (arith, written), ground (arith, written))

find_ended :
    (id u : String) (v : HumanVerification) (f : HumanVerification → HumanVerification)
    (rows : List HumanVerification)
    → ((x : HumanVerification) → ((f x).id ≡ x.id) × ((f x).user_id ≡ x.user_id))
    → find (owns_verification id u) rows ≡ some v
    → find (owns_verification id u) (update (has_verification_id v.id) f rows) ≡ some (f v)
find_ended id u v f [] same found = cc
find_ended id u v f (r ∷ rows) same found = elim (Bool-cases (owns_verification id u r)) [
  | inl hit ↦
      let here : r ≡ v = ground (arith, rw (hit, find) at found) in
      let picked : has_verification_id v.id r ≡ true = rw here (eq_refl v.id) in
      let kept : owns_verification id u (f r) ≡ true = rw ((same r).0, (same r).1) hit in
      rw (picked, update) (rw (kept, find) (ap (λ x. some (f x)) here))
  | inr miss ↦
      let rest = find_ended id u v f rows same (rw (miss, find) at found) in
      elim (Bool-cases (has_verification_id v.id r)) [
        | inl e ↦
            let still : owns_verification id u (f r) ≡ false = rw ((same r).0, (same r).1) miss in
            rw (e, update) (rw (still, find) rest)
        | inr e ↦ rw (e, update) (rw (miss, find) rest)
      ]
]

ok_inj : {A : Type 0} {a b : A} → ◌≡◌ {A = Result VerificationError A} (ok a) (ok b) → a ≡ b
ok_inj h = ground (arith, h)

moved_Settled :
    (input : ResolveHumanVerificationInput) (t s' : Tables) (v w : HumanVerification)
    (new job : ResumeJob)
    → v ≡ w
    → new ≡ job
    → t ≡ s'
    → Settled input t v new
    → Settled input s' w job
moved_Settled input t s' v w new job e1 e2 e3 h =
    subst (λ x. Settled input x w job) e3
      (subst (λ x. Settled input t x job) e1 (subst (λ x. Settled input t v x) e2 h))

find_new :
    (u key : String) (jobs : List ResumeJob) (new : ResumeJob)
    → not (any (has_resume_key u key) jobs) ≡ true
    → new.user_id ≡ u
    → new.idempotency_key ≡ key
    → find (has_resume_key u key) (jobs ++ (new ∷ [])) ≡ some new
find_new u key jobs new fresh eu ek =
    find-append (has_resume_key u key) jobs (new ∷ [])
      (find-eq-none (has_resume_key u key) jobs (ground (arith, fresh)))
    ∙ rw (eu, ek, eq_refl u, eq_refl key) refl

resolve_pending-Settled :
    (around : Surroundings) (input : ResolveHumanVerificationInput) (v : HumanVerification)
    (s s' : Tables) (w : HumanVerification) (job : ResumeJob) (flag : Bool)
    → find (owns_verification input.verification_id input.user_id) s.verifications ≡ some v
    → resolve_pending around input v s ≡ ok ((w, job, flag), s')
    → Settled input s' w job
unfolding resolve_pending
resolve_pending-Settled around input v s s' w job flag found h =
    let (live, h1) = require_inv (ltb around.now v.expires_at) VerificationError.expired _ s h in
    let (fresh, h2) =
      require_inv
        (not (any (has_resume_key input.user_id (resume_job_key input.user_id v.id)) s.resume_jobs))
        unique_violation _ s h1 in
    let f = ended resolved around.now (acknowledged_at around.now) in
    let new = new_resume_job around input v in
    let written : Tables = record s {
      verifications = update (has_verification_id v.id) f s.verifications;
      resume_jobs = s.resume_jobs ++ (new ∷ []);
    } in
    let (u, t, e1, e2) =
      >>=-eq-ok (resolved_event around input v) (λ _. return (f v, new, false)) written h2 in
    let (rows, jobs) = record_event_rest _ _ written t u e1 in
    let same_v : f v ≡ w = ap (λ r. r.0.0) (ok_inj e2) in
    let same_job : new ≡ job = ap (λ r. r.0.1) (ok_inj e2) in
    let same_t : t ≡ s' = ap (λ r. r.1) (ok_inj e2) in
    moved_Settled input t s' (f v) w new job same_v same_job same_t (record {
      found = rw rows (
          find_ended input.verification_id input.user_id v f s.verifications (λ x. (refl, refl))
            found);
      done = refl;
      resume = rw jobs (
          find_new input.user_id (resume_job_key input.user_id v.id) s.resume_jobs new fresh refl
            refl);
    })

replay_resolution-Settled :
    (input : ResolveHumanVerificationInput) (v : HumanVerification) (s s' : Tables)
    (w : HumanVerification) (job : ResumeJob) (flag : Bool)
    → find (owns_verification input.verification_id input.user_id) s.verifications ≡ some v
    → v.status ≡ resolved
    → replay_resolution input v s ≡ ok ((w, job, flag), s')
    → Settled input s' w job
unfolding replay_resolution
replay_resolution-Settled input v s s' w job flag found done h =
    let (j, there, h1) =
      expect_inv
        (find (has_resume_key input.user_id (resume_job_key input.user_id v.id)) s.resume_jobs)
        conflict _ s h in
    moved_Settled input s s' v w j job (ap (λ r. r.0.0) (ok_inj h1)) (ap (λ r. r.0.1) (ok_inj h1))
      (ap (λ r. r.1) (ok_inj h1)) (record { found = found; done = done; resume = there })

resolve_found-Settled :
    (around : Surroundings) (input : ResolveHumanVerificationInput) (v : HumanVerification)
    (status : VerificationStatus) (s s' : Tables) (w : HumanVerification) (job : ResumeJob)
    (flag : Bool)
    → find (owns_verification input.verification_id input.user_id) s.verifications ≡ some v
    → v.status ≡ status
    → resolve_found around input v status s ≡ ok ((w, job, flag), s')
    → Settled input s' w job
resolve_found-Settled around input v resolved s s' w job flag found done h =
    replay_resolution-Settled input v s s' w job flag found done h
resolve_found-Settled around input v pending s s' w job flag found done h =
    resolve_pending-Settled around input v s s' w job flag found h
resolve_found-Settled around input v expired s s' w job flag found done h =
    absurd (ground (arith, h))
resolve_found-Settled around input v cancelled s s' w job flag found done h =
    absurd (ground (arith, h))

-- If resolving a verification returned, resolving it again with the same input, at any later time and with
-- any new id, returns the same verification and the same resume command as a replay, and changes nothing.
pub resolve_again :
    (around later : Surroundings) (input : ResolveHumanVerificationInput) (s s' : Tables)
    (v : HumanVerification) (job : ResumeJob) (flag : Bool)
    → resolve_human_verification around input s ≡ ok ((v, job, flag), s')
    → resolve_human_verification later input s' ≡ ok ((v, job, true), s')
unfolding resolve_human_verification
resolve_again around later input s s' v job flag h =
    let (b1, h1) = text_ok input.user_id _ s h in
    let (b2, h2) = text_ok input.verification_id _ s h1 in
    let (b3, h3) = text_ok input.correlation_id _ s h2 in
    let (row, found, h4) =
      expect_inv (find (owns_verification input.verification_id input.user_id) s.verifications)
        not_found _ s h3 in
    replayed later input s' v job b1 b2 b3
      (resolve_found-Settled around input row row.status s s' v job flag found refl h4)
