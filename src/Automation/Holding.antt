-- ===== src/Automation/Holding.antt =====
-- What the operations of a lease's holder, in apps/api/src/services/automation-jobs.ts, give when
-- they return.
use mathlib.Core.List.{Memᴰ}
use jaa.Prelude.{
  ℕ, ◌+◌, true, false, ◌≡◌, refl, sym, ap, ◌∙◌, String, Option, none, some, List, arith, Number,
  nat, at, invalid, Date, find, find_holds, update, count, ◌==◌, or_else, ok, Result-cases,
  Bool-cases, inl, inr, eq_iff, leb,
}
use jaa.Prelude.Members.{find_mem, count_mem, update_mem_hit}
use jaa.Prelude.Sessions.{◌>>=◌, ◌>>◌}
use jaa.Automation.Jobs.{AutomationJob, Db, has_id, dead_letter, available}
use jaa.Automation.Checks.{fail_checks, validate_now, effective_retry_delay_ms}
use jaa.Automation.Ownership.{
  FailInput, is_held, is_held_job, owned_or_err, get_owned_job, update_held, find_or_throw,
  change_owned, after_failure, fail_automation_job,
}
use jaa.Automation.Keys.{HasDistinctIds, HasDistinctIds-unique, HasDistinctIds-update}

owned_or_err_inv :
    (worker : String) (now : ℕ) (o : Option AutomationJob) (seen : AutomationJob)
    → owned_or_err worker now o ≡ ok seen
    → (o ≡ some seen) × (is_held worker now seen ≡ true)
owned_or_err_inv worker now none seen e = cc
owned_or_err_inv worker now (some job) seen e = ground arith

-- The row that `getOwnedJob` read, and the row that the update changed into the row given.
record Changed (others : Db → Db) (id worker : String) (now : ℕ)
    (change : AutomationJob → AutomationJob → AutomationJob) (db : Db) (job : AutomationJob)
    : Type 0 where
  pub seen : AutomationJob
  pub row : AutomationJob
  pub found : find (has_id id) db.jobs ≡ some seen
  pub seen_held : is_held worker now seen ≡ true
  pub there : Memᴰ row (others db).jobs
  pub held : is_held_job id worker now row ≡ true
  pub given : job ≡ change seen row

-- The update hit one row, and it is the one read back.
changed_row :
    (id worker : String) (now : ℕ) (f : AutomationJob → AutomationJob) (js : List AutomationJob)
    (job : AutomationJob)
    → ((j : AutomationJob) → (f j).id ≡ j.id)
    → HasDistinctIds js
    → (count (is_held_job id worker now) js == 1) ≡ true
    → find (has_id id) (update (is_held_job id worker now) f js) ≡ some job
    → (row : AutomationJob) × Memᴰ row js × (is_held_job id worker now row ≡ true) × (job ≡ f row)
changed_row id worker now f js job same distinct one found =
    let (row, there, held) = count_mem (is_held_job id worker now) js (ground arith) in
    let rows = update (is_held_job id worker now) f js in
    let named : row.id ≡ id = (eq_iff row.id id).0 (ground arith) in
    let back : job.id ≡ id = (eq_iff job.id id).0 (find_holds (has_id id) rows found) in
    (
      row,
      there,
      held,
      HasDistinctIds-unique rows job (f row)
          (HasDistinctIds-update (is_held_job id worker now) f js same distinct)
          (find_mem (has_id id) rows job found)
          (update_mem_hit (is_held_job id worker now) f js row there held)
          (back ∙ sym (same row ∙ named)),
    )

change_owned_gives :
    (others : Db → Db) (id worker : String) (now : ℕ)
    (change : AutomationJob → AutomationJob → AutomationJob) (db db' : Db) (job : AutomationJob)
    → ((seen j : AutomationJob) → (change seen j).id ≡ j.id)
    → HasDistinctIds (others db).jobs
    → change_owned others (λ s. s) id worker now change db ≡ (ok job, db')
    → Changed others id worker now change db job
unfolding change_owned get_owned_job update_held find_or_throw
change_owned_gives others id worker now change db db' job same distinct e =
    elim (Result-cases (owned_or_err worker now (find (has_id id) db.jobs))) [
      | inr (x, lost) ↦ absurd (ground (arith, rw (lost, ◌>>=◌) at e))
      | inl (seen, owned) ↦
          elim (Bool-cases (count (is_held_job id worker now) (others db).jobs == 1)) [
            | inr none_ ↦ absurd (ground (arith, rw (none_, ◌>>◌) at (rw (owned, ◌>>=◌) at e)))
            | inl one ↦
                let back : find (has_id id)
                      (update (is_held_job id worker now) (change seen) (others db).jobs)
                    ≡ some job =
                  ground (arith, rw (one, ◌>>◌) at (rw (owned, ◌>>=◌) at e)) in
                let (row, there, held, given) =
                  changed_row id worker now (change seen) (others db).jobs job (same seen) distinct
                    one back in
                let (found, seen_held) =
                  owned_or_err_inv worker now (find (has_id id) db.jobs) seen owned in
                record {
                  seen = seen;
                  row = row;
                  found = found;
                  seen_held = seen_held;
                  there = there;
                  held = held;
                  given = given;
                }
          ]
    ]

-- What a failure leaves: the job has no lease; it is a dead letter exactly if its budget, as it was
-- read, is used up, and is otherwise available again after the longer of the two delays.
pub record Failed (others : Db → Db) (clock : ℕ) (input : FailInput) (message : String) (db : Db)
    (job : AutomationJob) : Type 0 where
  pub seen : AutomationJob
  pub now : ℕ
  pub delay : ℕ
  pub timed : or_else input.owned.now (at clock) ≡ at now
  pub held : find (has_id input.owned.job_id) db.jobs ≡ some seen
  pub holder : is_held input.owned.worker_id now seen ≡ true
  pub freed : (job.lease_owner ≡ none) × (job.lease_expires_at ≡ none)
  pub told : job.last_error ≡ some message
  pub exhausted :
      leb seen.max_attempts seen.attempt_count ≡ true
      → (job.status ≡ dead_letter) × (job.completed_at ≡ some now)
  pub retried :
      leb seen.max_attempts seen.attempt_count ≡ false
      → (job.status ≡ available) × (job.available_at ≡ now + delay)
  pub waits :
      effective_retry_delay_ms
        (or_else input.retry_delay_ms (nat 1000))
        input.provider_retry_after_ms
      ≡ ok delay

fail_checks_inv :
    (clock : ℕ) (worker error : String) (retry_delay provider : Option Number) (date : Option Date)
    (delay now : ℕ)
    → fail_checks clock worker error retry_delay provider date ≡ ok (delay, now)
    → (effective_retry_delay_ms (or_else retry_delay (nat 1000)) provider ≡ ok delay)
      × (validate_now (or_else date (at clock)) ≡ ok now)
unfolding fail_checks
fail_checks_inv clock worker error retry_delay provider date delay now e =
    (ground arith, ground arith)

validated_date : (d : Date) (now : ℕ) → validate_now d ≡ ok now → d ≡ at now
unfolding validate_now
validated_date (at t) now h = ground arith
validated_date invalid now h = cc

after_failure_id :
    (clock now delay : ℕ) (message : String) (seen j : AutomationJob)
    → (after_failure clock now delay message seen j).id ≡ j.id
unfolding after_failure
after_failure_id clock now delay message seen j = refl

row-Failed :
    (others : Db → Db) (clock : ℕ) (input : FailInput) (message : String) (db : Db)
    (job : AutomationJob) (delay now : ℕ)
    → effective_retry_delay_ms
        (or_else input.retry_delay_ms (nat 1000))
        input.provider_retry_after_ms
      ≡ ok delay
    → or_else input.owned.now (at clock) ≡ at now
    → Changed others input.owned.job_id input.owned.worker_id now
        (after_failure clock now delay message)
        db
        job
    → Failed others clock input message db job
unfolding after_failure
row-Failed others clock input message db job delay now waits timed c = record {
  seen = c.seen;
  now = now;
  delay = delay;
  timed = timed;
  held = c.found;
  holder = c.seen_held;
  freed = (ap (λ x. x.lease_owner) c.given, ap (λ x. x.lease_expires_at) c.given);
  told = ap (λ x. x.last_error) c.given;
  exhausted = λ used. (ground (arith, c.given), ground (arith, c.given));
  retried = λ left. (ground (arith, c.given), ground (arith, c.given));
  waits = waits;
}

-- A failure that returns a job, whatever others commit before its update, as long as ids are distinct
-- then, and when nothing is committed between the update and the last read: the worker held the job's
-- lease; the lease is gone and the error recorded; the job is a dead letter if its budget is used up, and
-- else available again after the longer of the local and the provider's delay.
pub failure_outcome :
    (safe : String → String) (others : Db → Db) (clock : ℕ) (input : FailInput) (db db' : Db)
    (job : AutomationJob)
    → HasDistinctIds (others db).jobs
    → fail_automation_job safe others (λ s. s) clock input db ≡ (ok job, db')
    → Failed others clock input (safe input.error) db job
unfolding fail_automation_job
failure_outcome safe others clock input db db' job distinct e =
    elim (Result-cases (
      fail_checks clock input.owned.worker_id input.error input.retry_delay_ms
        input.provider_retry_after_ms input.owned.now)) [
          | inr (x, bad) ↦ absurd (ground (arith, rw (bad, ◌>>=◌) at e))
          | inl ((delay, now), good) ↦
              let (waits, valid) =
                fail_checks_inv clock input.owned.worker_id input.error input.retry_delay_ms
                  input.provider_retry_after_ms input.owned.now delay now good in
              row-Failed others clock input (safe input.error) db job delay now waits
                (validated_date (or_else input.owned.now (at clock)) now valid)
                (change_owned_gives others input.owned.job_id input.owned.worker_id now
                  (after_failure clock now delay (safe input.error)) db db' job
                  (after_failure_id clock now delay (safe input.error)) distinct
                  (rw (good, ◌>>=◌) at e))
        ]
