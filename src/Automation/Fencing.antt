-- ===== src/Automation/Fencing.antt =====
-- Delivery generations in apps/api/src/services/automation-jobs.ts, and messages from before a recovery.
use mathlib.Core.List.{Memᴰ}
use jaa.Prelude.{
  ℕ, zero, suc, true, ◌≡◌, refl, sym, ap, ◌∙◌, Option, none, some, arith, Number, nat, at, update,
  Bool-cases, inl, inr, ok, ◌+◌, positive, eq_iff,
}
use jaa.Prelude.Members.{update_mem_hit, update_mem_miss}
use jaa.Automation.Jobs.{AutomationJob, Db}
use jaa.Automation.Checks.{positive_integer, validate_now}
use jaa.Automation.Leasing.{
  LeaseInput, lease_automation_job, reconcile_expired_leases, bury_spent, is_spent, is_recoverable,
  is_expired, is_leasable, to_available, to_dead_letter, optional_integer,
}
use jaa.Automation.Keys.{IsSound, HasDistinctIds, HasDistinctIds-unique, HasDistinctIds-update}
use jaa.Automation.Calls.{bury_spent-IsSound}
use jaa.Automation.Outcomes.{lease_gives}

-- The rows of a sound table after the recovery of expired leases: the recovered job has left its
-- delivery generation.
recovered_row :
    (now : ℕ) (db db1 : Db) (r : ℕ × ℕ) (j : AutomationJob)
    → IsSound db
    → Memᴰ j db.jobs
    → is_expired now j ≡ true
    → reconcile_expired_leases (at now) db ≡ ok (r, db1)
    → (k : AutomationJob) × Memᴰ k db1.jobs
      × HasDistinctIds db1.jobs
      × (k.id ≡ j.id)
      × (k.delivery_generation ≡ j.delivery_generation + 1)
unfolding reconcile_expired_leases validate_now to_available to_dead_letter
recovered_row now db db1 r j s m expired e =
    let buried = bury_spent now db.jobs in
    let written : db1.jobs ≡ update (is_recoverable now) (to_available now) buried = ground arith in
    let distinct : HasDistinctIds db1.jobs = rw written (
      HasDistinctIds-update (is_recoverable now) (to_available now) buried (λ j. refl)
        (bury_spent-IsSound now db.jobs s).1) in
    elim (Bool-cases (is_spent now j)) [
      | inl spent ↦
          let dead = to_dead_letter now j in
          let m1 = update_mem_hit (is_spent now) (to_dead_letter now) db.jobs j m spent in
          let m2 = update_mem_miss (is_recoverable now) (to_available now) buried dead m1 refl in
          (dead, rw written m2, distinct, refl, refl)
      | inr room ↦
          let m1 = update_mem_miss (is_spent now) (to_dead_letter now) db.jobs j m room in
          let m2 =
            update_mem_hit (is_recoverable now) (to_available now) buried j m1 (ground arith) in
          (to_available now j, rw written m2, distinct, refl, refl)
    ]

positive-nat : (n m : ℕ) → optional_integer (some (nat n)) ≡ ok (some m) → m ≡ n
unfolding positive_integer positive
positive-nat zero m e = cc
positive-nat (suc n) m e = ground arith

generation_sent :
    (n : ℕ) (generation : Option ℕ)
    → optional_integer (some (nat n)) ≡ ok generation
    → generation ≡ some n
generation_sent n none e = absurd (sent_some (nat n) e)
  where
    sent_some : (x : Number) → optional_integer (some x) ≡ ok none → ⊥
    sent_some x e = ground arith
generation_sent n (some m) e = ap some (positive-nat n m e)

-- In a sound table, a queue message that was sent before a job's lease ran out and was recovered gives
-- no lease any more: the recovery has moved the job to its next delivery generation.
pub recovery_fences :
    (now : ℕ) (db db1 db2 : Db) (r : ℕ × ℕ) (j : AutomationJob) (clock : ℕ) (input : LeaseInput)
    (given : Option AutomationJob)
    → IsSound db
    → Memᴰ j db.jobs
    → is_expired now j ≡ true
    → reconcile_expired_leases (at now) db ≡ ok (r, db1)
    → input.job_id ≡ j.id
    → input.delivery_generation ≡ some (nat j.delivery_generation)
    → lease_automation_job clock input db1 ≡ ok (given, db2)
    → given ≡ none
unfolding is_leasable
recovery_fences now db db1 db2 r j clock input none s m expired swept same sent e = refl
recovery_fences now db db1 db2 r j clock input (some job) s m expired swept same sent e =
    let l = lease_gives clock input db1 db2 job e in
    let (k, there, distinct, named, moved) = recovered_row now db db1 r j s m expired swept in
    let id : l.seen.id ≡ input.job_id =
      (eq_iff l.seen.id input.job_id).0 (ground (arith, l.fits)) in
    let one : l.seen ≡ k =
      HasDistinctIds-unique db1.jobs l.seen k distinct l.there there (id ∙ same ∙ sym named) in
    let asked : l.generation ≡ some j.delivery_generation =
      generation_sent j.delivery_generation l.generation (rw sent at l.sent) in
    let same_generation : l.seen.delivery_generation ≡ j.delivery_generation =
      ground (arith, l.fits, asked) in
    absurd (omega (arith, same_generation, ap (λ x. x.delivery_generation) one, moved))
