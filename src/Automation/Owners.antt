-- ===== src/Automation/Owners.antt =====
-- The operations of a lease's holder, and soundness of the job table.
use jaa.Prelude.{
  ℕ, ◌+◌, true, ◌≡◌, refl, String, Option, arith, Number, find, update, count, ◌==◌, Result-cases,
  Bool-cases, inl, inr,
}
use jaa.Prelude.Sessions.{◌>>=◌, ◌>>◌, check-bind}
use jaa.Automation.Jobs.{AutomationJob, Db, has_id}
use jaa.Automation.Checks.{renew_checks, complete_checks, fail_checks}
use jaa.Automation.Ownership.{
  OwnedInput, FailInput, is_held, is_held_job, owned_or_err, get_owned_job, update_held,
  find_or_throw, change_owned, renewed, renew_lease, completed, complete_automation_job,
  after_failure, fail_automation_job,
}
use jaa.Automation.Rows.{
  IsWellFormed, renewed-IsWellFormed, completed-IsWellFormed, after_failure-IsWellFormed,
}
use jaa.Automation.Keys.{IsSound, IsSound-update}

-- What other transactions do keeps the table sound.
abbrev pub KeepsSound : (Db → Db) → Type 0
KeepsSound others = (db : Db) → IsSound db → IsSound (others db)

module _ (others others' : Db → Db) (first : KeepsSound others) (second : KeepsSound others') where
  change_owned-IsSound :
      (id worker : String) (now : ℕ) (change : AutomationJob → AutomationJob → AutomationJob)
      → ((seen j : AutomationJob) → (change seen j).id ≡ j.id)
      → ((seen j : AutomationJob)
          → is_held worker now j ≡ true
          → IsWellFormed j
          → IsWellFormed (change seen j))
      → (db : Db) → IsSound db
      → IsSound (change_owned others others' id worker now change db).1
  unfolding change_owned get_owned_job update_held find_or_throw
  change_owned-IsSound id worker now change same keeps db w =
      elim (Result-cases (owned_or_err worker now (find (has_id id) db.jobs))) [
        | inr (e, lost) ↦ rw (lost, ◌>>=◌) w
        | inl (seen, owned) ↦
            let step : IsSound (record (others db) {
              jobs = update (is_held_job id worker now) (change seen) (others db).jobs;
            }) =
              IsSound-update (is_held_job id worker now) (change seen) (others db).jobs (same seen)
                (λ j h. keeps seen j (ground arith)) (first db w) in
            elim (Bool-cases (count (is_held_job id worker now) (others db).jobs == 1)) [
              | inl one ↦ rw (owned, ◌>>=◌) (rw (one, ◌>>◌) (second _ step))
              | inr none_ ↦ rw (owned, ◌>>=◌) (rw (none_, ◌>>◌) step)
            ]
      ]

  pub renew-IsSound :
      (clock : ℕ) (input : OwnedInput) (lease : Option Number) (db : Db)
      → IsSound db
      → IsSound (renew_lease others others' clock input lease db).1
  unfolding renew_lease renewed
  renew-IsSound clock input lease db w =
      check-bind IsSound (renew_checks clock input.worker_id lease input.now)
        (λ r.
          change_owned others others' input.job_id input.worker_id r.1
            (λ seen. renewed clock (r.1 + r.0)))
        db w
        (λ r valid.
          change_owned-IsSound input.job_id input.worker_id r.1 (λ seen. renewed clock (r.1 + r.0))
            (λ seen j. refl)
            (λ seen j. renewed-IsWellFormed clock (r.1 + r.0) r.1 input.worker_id j) db w)

  pub complete-IsSound :
      (clock : ℕ) (input : OwnedInput) (db : Db)
      → IsSound db
      → IsSound (complete_automation_job others others' clock input db).1
  unfolding complete_automation_job completed
  complete-IsSound clock input db w =
      check-bind IsSound (complete_checks clock input.worker_id input.now)
        (λ now.
          change_owned others others' input.job_id input.worker_id now
            (λ seen. completed clock now))
        db w
        (λ now valid.
          change_owned-IsSound input.job_id input.worker_id now (λ seen. completed clock now)
            (λ seen j. refl) (λ seen j. completed-IsWellFormed clock now input.worker_id j) db w)

  pub fail-IsSound :
      (safe : String → String) (clock : ℕ) (input : FailInput) (db : Db)
      → IsSound db
      → IsSound (fail_automation_job safe others others' clock input db).1
  unfolding fail_automation_job after_failure
  fail-IsSound safe clock input db w =
      check-bind IsSound
        (fail_checks clock input.owned.worker_id input.error input.retry_delay_ms
          input.provider_retry_after_ms input.owned.now)
        (λ r.
          change_owned others others' input.owned.job_id input.owned.worker_id r.1
            (after_failure clock r.1 r.0 (safe input.error)))
        db w
        (λ r valid.
          change_owned-IsSound input.owned.job_id input.owned.worker_id r.1
            (after_failure clock r.1 r.0 (safe input.error)) (λ seen j. refl)
            (λ seen j.
              after_failure-IsWellFormed clock r.1 r.0 input.owned.worker_id (safe input.error) seen
                j)
            db w)
