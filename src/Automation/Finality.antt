-- ===== src/Automation/Finality.antt =====
-- Finished jobs and held leases of apps/api/src/services/automation-jobs.ts: which calls leave a
-- row as it is.
use mathlib.Core.List.{Memᴰ}
use jaa.Prelude.{
  ℕ, Bool, true, false, ◌≡◌, String, Option, [], ◌∷◌, ◌++◌, arith, Date, Number, at, update,
  Bool-cases, inl, inr, Result-cases, or_else, ok, ◌+◌, find, count, ◌==◌, is_blank, lift_then_inv,
  lift_inv, expect_inv, nat,
}
use jaa.Prelude.Sessions.{commit-keeps, ◌>>=◌, ◌>>◌, check-bind}
use jaa.Prelude.Members.{append_mem, update_mem_miss}
use jaa.Json.Locale.{JsonRules}
use jaa.Automation.Jobs.{AutomationJob, Db, has_id, is_finished, is_leased, not_found}
use jaa.Automation.Checks.{
  require_text, validate_max_attempts, validate_now, renew_checks, complete_checks, fail_checks,
}
use jaa.Automation.Creation.{CreateInput, create_in_transaction, create_automation_job}
use jaa.Automation.Leasing.{
  ClaimInput, LeaseInput, claim_automation_jobs, lease_automation_job, is_claimable, is_leasable,
  reconcile_expired_leases, validate_retry,
}
use jaa.Automation.Ownership.{
  OwnedInput, FailInput, is_held, is_held_job, owned_or_err, get_owned_job, update_held,
  find_or_throw, change_owned, renewed, renew_lease, completed, complete_automation_job,
  after_failure, fail_automation_job,
}
use jaa.Automation.Recovery.{
  ReplayInput, replay_in_tenant, replay_rows, replay_row, replay_dead_letter, cancel_in_tenant,
  cancel_automation_job, owns,
}
use jaa.Automation.Keys.{IsSound}
use jaa.Automation.Admission.{create_keeps}
use jaa.Automation.Stays.{Has, claim_keeps, lease_keeps, reconcile_keeps, cancel_keeps_finished}
use jaa.Automation.Invariant.{
  Call, create, retry, claim, lease, renew, complete, fail, reconcile, replay, cancel, Surroundings,
  perform, validate_retry_reads,
}

replay_keeps :
    (cut : String → String) (id : String) (clock : ℕ) (input : ReplayInput) (db db' : Db)
    (r j : AutomationJob)
    → Has j db
    → replay_in_tenant cut id clock input db ≡ ok (r, db')
    → Has j db'
unfolding replay_in_tenant replay_rows
replay_keeps cut id clock input db db' r j m e =
    let e1 = lift_then_inv (require_text input.job_id) _ db e in
    let e2 = lift_then_inv (require_text input.user_id) _ db e1 in
    let e3 = lift_then_inv (require_text input.reason) _ db e2 in
    let e4 = lift_then_inv (require_text input.correlation_id) _ db e3 in
    let (attempts, _, e5) =
      lift_inv (validate_max_attempts (or_else input.max_attempts (nat 3))) _ db e4 in
    let (current, _, e6) =
      expect_inv (find (owns input.job_id input.user_id) db.jobs) not_found _ db e5 in
    let grown : db'.jobs
        ≡ db.jobs ++ replay_row id clock current input.correlation_id attempts ∷ [] =
      ground arith in
    rw grown (append_mem db.jobs _ j m)

-- A row stays if the other transactions keep it and the lease's holder does not change it.
module _ (others others' : Db → Db) (j : AutomationJob)
    (first : (db : Db) → Has j db → Has j (others db))
    (second : (db : Db) → Has j db → Has j (others' db)) (free : is_leased j.status ≡ false) where
  owned_keeps :
      (id worker : String) (now : ℕ) (change : AutomationJob → AutomationJob → AutomationJob)
      (db : Db)
      → Has j db
      → Has j (change_owned others others' id worker now change db).1
  unfolding change_owned get_owned_job update_held find_or_throw
  owned_keeps id worker now change db m =
      elim (Result-cases (owned_or_err worker now (find (has_id id) db.jobs))) [
        | inr (e, lost) ↦ rw (lost, ◌>>=◌) m
        | inl (seen, owned) ↦
            let step : Has j (record (others db) {
              jobs = update (is_held_job id worker now) (change seen) (others db).jobs;
            }) =
              update_mem_miss (is_held_job id worker now) (change seen) (others db).jobs j
                (first db m) (ground arith) in
            elim (Bool-cases (count (is_held_job id worker now) (others db).jobs == 1)) [
              | inl one ↦ rw (owned, ◌>>=◌) (rw (one, ◌>>◌) (second _ step))
              | inr none_ ↦ rw (owned, ◌>>=◌) (rw (none_, ◌>>◌) step)
            ]
      ]

  renew_keeps :
      (clock : ℕ) (input : OwnedInput) (lease_ms : Option Number) (db : Db)
      → Has j db
      → Has j (renew_lease others others' clock input lease_ms db).1
  unfolding renew_lease
  renew_keeps clock input lease_ms db m =
      check-bind (Has j) (renew_checks clock input.worker_id lease_ms input.now)
        (λ r.
          change_owned others others' input.job_id input.worker_id r.1
            (λ seen. renewed clock (r.1 + r.0)))
        db m (λ r valid. owned_keeps input.job_id input.worker_id r.1 _ db m)

  complete_keeps :
      (clock : ℕ) (input : OwnedInput) (db : Db)
      → Has j db
      → Has j (complete_automation_job others others' clock input db).1
  unfolding complete_automation_job
  complete_keeps clock input db m =
      check-bind (Has j) (complete_checks clock input.worker_id input.now)
        (λ now.
          change_owned others others' input.job_id input.worker_id now
            (λ seen. completed clock now))
        db m (λ now valid. owned_keeps input.job_id input.worker_id now _ db m)

  fail_keeps :
      (safe : String → String) (clock : ℕ) (input : FailInput) (db : Db)
      → Has j db
      → Has j (fail_automation_job safe others others' clock input db).1
  unfolding fail_automation_job
  fail_keeps safe clock input db m =
      check-bind (Has j)
        (fail_checks clock input.owned.worker_id input.error input.retry_delay_ms
          input.provider_retry_after_ms input.owned.now)
        (λ r.
          change_owned others others' input.owned.job_id input.owned.worker_id r.1
            (after_failure clock r.1 r.0 (safe input.error)))
        db m (λ r valid. owned_keeps input.owned.job_id input.owned.worker_id r.1 _ db m)

creation_keeps :
    (rules : JsonRules) (id : String) (clock : ℕ) (input : CreateInput) (db : Db)
    (j : AutomationJob)
    → Has j db
    → Has j (create_automation_job rules id clock input db).1
unfolding create_automation_job
creation_keeps rules id clock input db j m = elim (Bool-cases (is_blank input.user_id)) [
  | inl blank ↦ rw (blank) m
  | inr named ↦ rw (named) (
      commit-keeps (Has j) (create_in_transaction rules id clock input) db m
        (λ a db' e. create_keeps rules id clock input db db' a j m e))
]

cancellation_keeps :
    (others : Db → Db) (clock : ℕ) (id user_id : String) (date : Date) (db : Db) (j : AutomationJob)
    → Has j db
    → Has j (others db)
    → is_finished j.status ≡ true
    → Has j (cancel_automation_job others clock id user_id date db).1
unfolding cancel_automation_job
cancellation_keeps others clock id user_id date db j m m' done =
    elim (Result-cases (cancel_in_tenant others clock id user_id date db)) [
      | inl (r, e) ↦
          rw (e, cancel_automation_job)
            (cancel_keeps_finished others clock id user_id date db r.1 r.0 j m m' done e)
      | inr (x, e) ↦ rw (e, cancel_automation_job) m'
    ]

-- In a sound table a finished job's row stays as it is through every call of every operation, if what
-- others commit during the call leaves it: nothing leases, retries, completes, fails, recovers or cancels it again.
pub finished_stays :
    (w : Surroundings) (call : Call) (db : Db) (j : AutomationJob)
    → ((s : Db) → Memᴰ j s.jobs → Memᴰ j (w.others s).jobs)
    → ((s : Db) → Memᴰ j s.jobs → Memᴰ j (w.others' s).jobs)
    → IsSound db
    → Memᴰ j db.jobs
    → is_finished j.status ≡ true
    → Memᴰ j (perform w call db).jobs
unfolding perform replay_dead_letter is_claimable is_leasable
finished_stays w (create id clock input) db j h h' s m done =
    creation_keeps w.rules id clock input db j m
finished_stays w (retry input) db j h h' s m done =
    commit-keeps (Has j) (validate_retry input) db m
      (λ a db' e. rw (validate_retry_reads input db db' a e) m)
finished_stays w (claim locked clock input) db j h h' s m done =
    commit-keeps (Has j) (claim_automation_jobs w.text_le locked clock input) db m (λ a db' e.
      claim_keeps w.text_le locked clock input db db' a j s m
        (λ now valid. (ground arith, ground arith)) e)
finished_stays w (lease clock input) db j h h' s m done =
    commit-keeps (Has j) (lease_automation_job clock input) db m
      (λ a db' e. lease_keeps clock input db db' a j m (λ attempt generation now. ground arith) e)
finished_stays w (renew clock input lease_ms) db j h h' s m done =
    renew_keeps w.others w.others' j h h' (ground arith) clock input lease_ms db m
finished_stays w (complete clock input) db j h h' s m done =
    complete_keeps w.others w.others' j h h' (ground arith) clock input db m
finished_stays w (fail clock input) db j h h' s m done =
    fail_keeps w.others w.others' j h h' (ground arith) w.safe_error_message clock input db m
finished_stays w (reconcile date) db j h h' s m done =
    commit-keeps (Has j) (reconcile_expired_leases date) db m
      (λ a db' e. reconcile_keeps date db db' a j m (λ now valid. ground arith) e)
finished_stays w (replay id clock input) db j h h' s m done =
    commit-keeps (Has j) (replay_in_tenant w.cut id clock input) db m
      (λ a db' e. replay_keeps w.cut id clock input db db' a j m e)
finished_stays w (cancel clock id user_id date) db j h h' s m done =
    cancellation_keeps w.others clock id user_id date db j m (h db m) done

-- The calls of the dispatch loop at the time `now`: they give leases out, or take them back.
pub data DispatchesAt (now : ℕ) : Call → Type 0 where
  claims :
      (locked : AutomationJob → Bool) (clock : ℕ) (input : ClaimInput)
      → or_else input.now (at clock) ≡ at now
      → DispatchesAt now (claim locked clock input)
  leases : (clock : ℕ) (input : LeaseInput) → DispatchesAt now (lease clock input)
  reconciles : DispatchesAt now (reconcile (at now))

-- In a sound table a lease that has not run out at the time of a call of the dispatch loop is not
-- touched by it: a job is never given to
-- a second worker, nor taken back, while the first one holds it.
pub held_survives :
    (w : Surroundings) (call : Call) (db : Db) (worker : String) (now : ℕ) (j : AutomationJob)
    → DispatchesAt now call
    → IsSound db
    → Memᴰ j db.jobs
    → is_held worker now j ≡ true
    → Memᴰ j (perform w call db).jobs
unfolding perform is_claimable is_leasable validate_now
held_survives w call db worker now j (claims locked clock input timed) s m held =
    commit-keeps (Has j) (claim_automation_jobs w.text_le locked clock input) db m (λ a db' e.
      claim_keeps w.text_le locked clock input db db' a j s m
        (λ t valid.
          let same : t ≡ now = ground (arith, rw timed at valid) in
          rw same (ground arith, ground arith))
        e)
held_survives w call db worker now j (leases clock input) s m held =
    commit-keeps (Has j) (lease_automation_job clock input) db m
      (λ a db' e. lease_keeps clock input db db' a j m (λ attempt generation t. ground arith) e)
held_survives w call db worker now j reconciles s m held =
    commit-keeps (Has j) (reconcile_expired_leases (at now)) db m (λ a db' e.
      reconcile_keeps (at now) db db' a j m
        (λ t valid. let same : t ≡ now = ground arith in rw same (ground arith)) e)
