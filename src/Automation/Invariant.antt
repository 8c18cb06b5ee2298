-- ===== src/Automation/Invariant.antt =====
-- The operations of apps/api/src/services/automation-jobs.ts as calls, and soundness of the job table.
use jaa.Prelude.{
  ℕ, String, Option, Bool, Number, Date, Result-cases, inl, inr, ok, Bool-cases, is_blank, ◌≡◌,
  arith,
}
use jaa.Prelude.Sessions.{commit, commit-keeps}
use jaa.Json.Locale.{JsonRules}
use jaa.Automation.Jobs.{AutomationJob, Db}
use jaa.Automation.Creation.{CreateInput, create_automation_job, create_in_transaction}
use jaa.Automation.Leasing.{
  RetryInput, ClaimInput, LeaseInput, validate_retry, claim_automation_jobs, lease_automation_job,
  reconcile_expired_leases,
}
use jaa.Automation.Ownership.{
  OwnedInput, FailInput, renew_lease, complete_automation_job, fail_automation_job,
}
use jaa.Automation.Recovery.{
  ReplayInput, replay_in_tenant, replay_dead_letter, cancel_in_tenant, cancel_automation_job,
}
use jaa.Automation.Keys.{IsSound}
use jaa.Automation.Calls.{
  create-IsSound, replay-IsSound, claim-IsSound, lease-IsSound, reconcile-IsSound, cancel-IsSound,
}
use jaa.Automation.Owners.{KeepsSound, renew-IsSound, complete-IsSound, fail-IsSound}

-- A call with its arguments; `id` is an identifier that the database generates, `clock` the time.
pub data Call : Type 0 where
  create : (id : String) (clock : ℕ) → CreateInput → Call
  retry : RetryInput → Call
  claim : (locked : AutomationJob → Bool) (clock : ℕ) → ClaimInput → Call
  lease : (clock : ℕ) → LeaseInput → Call
  renew : (clock : ℕ) → OwnedInput → Option Number → Call
  complete : (clock : ℕ) → OwnedInput → Call
  fail : (clock : ℕ) → FailInput → Call
  reconcile : Date → Call
  replay : (id : String) (clock : ℕ) → ReplayInput → Call
  cancel : (clock : ℕ) (id user_id : String) → Date → Call

-- The functions that the model takes as arguments, and what others commit during a call.
pub record Surroundings : Type 0 where
  pub rules : JsonRules
  pub text_le : String → String → Bool
  pub safe_error_message : String → String
  pub cut : String → String
  pub others : Db → Db
  pub others' : Db → Db

-- The store after a call, whether it returns or throws.
unfoldable pub perform : Surroundings → Call → Db → Db
perform w (create id clock input) db = (create_automation_job w.rules id clock input db).1
perform w (retry input) db = (commit (validate_retry input) db).1
perform w (claim locked clock input) db =
    (commit (claim_automation_jobs w.text_le locked clock input) db).1
perform w (lease clock input) db = (commit (lease_automation_job clock input) db).1
perform w (renew clock input lease_ms) db =
    (renew_lease w.others w.others' clock input lease_ms db).1
perform w (complete clock input) db = (complete_automation_job w.others w.others' clock input db).1
perform w (fail clock input) db =
    (fail_automation_job w.safe_error_message w.others w.others' clock input db).1
perform w (reconcile date) db = (commit (reconcile_expired_leases date) db).1
perform w (replay id clock input) db = (replay_dead_letter w.cut id clock input db).1
perform w (cancel clock id user_id date) db =
    (cancel_automation_job w.others clock id user_id date db).1

pub validate_retry_reads :
    (input : RetryInput) (db db' : Db) (r : Unit {0})
    → validate_retry input db ≡ ok (r, db')
    → db' ≡ db
unfolding validate_retry
validate_retry_reads input db db' r e = ground arith

create_automation_job-IsSound :
    (rules : JsonRules) (id : String) (clock : ℕ) (input : CreateInput) (db : Db)
    → IsSound db
    → IsSound (create_automation_job rules id clock input db).1
unfolding create_automation_job
create_automation_job-IsSound rules id clock input db w =
    elim (Bool-cases (is_blank input.user_id)) [
      | inl blank ↦ rw (blank) w
      | inr named ↦ rw (named) (
          commit-keeps IsSound (create_in_transaction rules id clock input) db w
            (λ a db' e. create-IsSound rules id clock input db db' a w e))
    ]

cancel_automation_job-IsSound :
    (others : Db → Db) (clock : ℕ) (id user_id : String) (date : Date) (db : Db)
    → IsSound db
    → IsSound (others db)
    → IsSound (cancel_automation_job others clock id user_id date db).1
unfolding cancel_automation_job
cancel_automation_job-IsSound others clock id user_id date db w meanwhile =
    elim (Result-cases (cancel_in_tenant others clock id user_id date db)) [
      | inl (r, e) ↦
          rw (e, cancel_automation_job)
            (cancel-IsSound others clock id user_id date db r.1 r.0 w meanwhile e)
      | inr (x, e) ↦ rw (e, cancel_automation_job) meanwhile
    ]

-- Every call of an operation, whether it returns or throws, keeps the job table sound, if what
-- others commit during it does: ids stay distinct, and each job has an owner and an expiry exactly
-- while it is leased, has used at most its budget of 1 to 100 attempts, at least one while leased,
-- has a cancellation time exactly when it is cancelled, and a completion time exactly when it is
-- finished.
pub perform-IsSound :
    (w : Surroundings) (call : Call) (db : Db)
    → KeepsSound w.others
    → KeepsSound w.others'
    → IsSound db
    → IsSound (perform w call db)
unfolding perform replay_dead_letter
perform-IsSound w (create id clock input) db h h' s =
    create_automation_job-IsSound w.rules id clock input db s
perform-IsSound w (retry input) db h h' s =
    commit-keeps IsSound (validate_retry input) db s
      (λ a db' e. rw (validate_retry_reads input db db' a e) s)
perform-IsSound w (claim locked clock input) db h h' s =
    commit-keeps IsSound (claim_automation_jobs w.text_le locked clock input) db s
      (λ a db' e. claim-IsSound w.text_le locked clock input db db' a s e)
perform-IsSound w (lease clock input) db h h' s =
    commit-keeps IsSound (lease_automation_job clock input) db s
      (λ a db' e. lease-IsSound clock input db db' a s e)
perform-IsSound w (renew clock input lease_ms) db h h' s =
    renew-IsSound w.others w.others' h h' clock input lease_ms db s
perform-IsSound w (complete clock input) db h h' s =
    complete-IsSound w.others w.others' h h' clock input db s
perform-IsSound w (fail clock input) db h h' s =
    fail-IsSound w.others w.others' h h' w.safe_error_message clock input db s
perform-IsSound w (reconcile date) db h h' s =
    commit-keeps IsSound (reconcile_expired_leases date) db s
      (λ a db' e. reconcile-IsSound date db db' a s e)
perform-IsSound w (replay id clock input) db h h' s =
    commit-keeps IsSound (replay_in_tenant w.cut id clock input) db s
      (λ a db' e. replay-IsSound w.cut id clock input db db' a s e)
perform-IsSound w (cancel clock id user_id date) db h h' s =
    cancel_automation_job-IsSound w.others clock id user_id date db s (h db s)
