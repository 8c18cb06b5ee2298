-- ===== src/Automation/Stays.antt =====
-- Which rows the operations on automation jobs leave as they are.
use mathlib.Core.List.{Memᴰ}
use jaa.Prelude.{
  ℕ, Bool, true, false, ◌≡◌, String, Option, List, arith, Date, nat, at, update, eq_iff, Bool-cases,
  inl, inr, or_else, lift_inv, lift_then_inv, expect_inv, require_inv, ok, ◌+◌, find, not,
}
use jaa.Prelude.Members.{any_mem, update_mem_miss}
use jaa.Automation.Jobs.{AutomationJob, Db, has_id, is_finished, not_found, terminal}
use jaa.Automation.Checks.{require_text, positive_integer, validate_now}
use jaa.Automation.Leasing.{
  ClaimInput, LeaseInput, claim_automation_jobs, claim_rows, lease_automation_job, lease_rows,
  reconcile_expired_leases, bury_spent, is_spent, is_recoverable, is_expired, is_claimable,
  is_leasable, is_among, chosen_for, to_dead_letter, to_available, to_leased, optional_integer,
}
use jaa.Automation.Recovery.{
  cancel_in_tenant, cancel_rows, cancelled_row, is_unchanged, is_cancelled, owns,
}
use jaa.Automation.Keys.{IsSound, HasDistinctIds-unique}
use jaa.Automation.Calls.{chosen_mem, bury_spent-IsSound}

abbrev pub Has : AutomationJob → Db → Type 0
Has j db = Memᴰ j db.jobs

claim_rows_keep :
    (text_le : String → String → Bool) (locked : AutomationJob → Bool) (worker : String)
    (limit lease_ms now : ℕ) (db db' : Db) (r : List AutomationJob) (j : AutomationJob)
    → IsSound db
    → Has j db
    → is_spent now j ≡ false
    → is_claimable now j ≡ false
    → claim_rows text_le locked worker limit lease_ms now db ≡ ok (r, db')
    → Has j db'
unfolding claim_rows
claim_rows_keep text_le locked worker limit lease_ms now db db' r j w m alive busy e =
    let buried = bury_spent now db.jobs in
    let chosen = chosen_for text_le locked limit now buried in
    let (formed, distinct) = bury_spent-IsSound now db.jobs w in
    let m1 : Memᴰ j buried =
      update_mem_miss (is_spent now) (to_dead_letter now) db.jobs j m alive in
    let f = to_leased worker (now + lease_ms) now in
    let written : db'.jobs ≡ update (is_among chosen) f buried = ground arith in
    let passed : is_among chosen j ≡ false = elim (Bool-cases (is_among chosen j)) [
      | inr out ↦ out
      | inl among ↦
          let (c, picked, same) = any_mem (has_id j.id) chosen among in
          let (listed, fits, _) = chosen_mem text_le locked limit now buried c picked in
          let one : c ≡ j =
            HasDistinctIds-unique buried c j distinct listed m1 ((eq_iff c.id j.id).0 same) in
          let taken : is_claimable now j ≡ true = rw one at fits in cc (taken, busy)
    ] in
    rw written (update_mem_miss (is_among chosen) f buried j m1 passed)

pub claim_keeps :
    (text_le : String → String → Bool) (locked : AutomationJob → Bool) (clock : ℕ)
    (input : ClaimInput) (db db' : Db) (r : List AutomationJob) (j : AutomationJob)
    → IsSound db
    → Has j db
    → ((now : ℕ)
        → validate_now (or_else input.now (at clock)) ≡ ok now
        → (is_spent now j ≡ false) × (is_claimable now j ≡ false))
    → claim_automation_jobs text_le locked clock input db ≡ ok (r, db')
    → Has j db'
unfolding claim_automation_jobs
claim_keeps text_le locked clock input db db' r j w m h e =
    let e1 = lift_then_inv (require_text input.worker_id) _ db e in
    let (limit, _, e2) = lift_inv (positive_integer (or_else input.limit (nat 10))) _ db e1 in
    let (lease_ms, _, e3) =
      lift_inv (positive_integer (or_else input.lease_ms (nat 30000))) _ db e2 in
    let (now, valid, e4) = lift_inv (validate_now (or_else input.now (at clock))) _ db e3 in
    let (alive, busy) = h now valid in
    claim_rows_keep text_le locked input.worker_id limit lease_ms now db db' r j w m alive busy e4

pub lease_keeps :
    (clock : ℕ) (input : LeaseInput) (db db' : Db) (r : Option AutomationJob) (j : AutomationJob)
    → Has j db
    → ((attempt generation : Option ℕ) (now : ℕ)
        → is_leasable input.job_id attempt generation now db.runs j ≡ false)
    → lease_automation_job clock input db ≡ ok (r, db')
    → Has j db'
unfolding lease_automation_job lease_rows
lease_keeps clock input db db' r j m h e =
    let e1 = lift_then_inv (require_text input.job_id) _ db e in
    let e2 = lift_then_inv (require_text input.worker_id) _ db e1 in
    let (lease_ms, _, e3) =
      lift_inv (positive_integer (or_else input.lease_ms (nat 30000))) _ db e2 in
    let (attempt, _, e4) = lift_inv (optional_integer input.expected_attempt) _ db e3 in
    let (generation, _, e5) = lift_inv (optional_integer input.delivery_generation) _ db e4 in
    let (now, _, e6) = lift_inv (validate_now (or_else input.now (at clock))) _ db e5 in
    let fits = is_leasable input.job_id attempt generation now db.runs in
    let f = to_leased input.worker_id (now + lease_ms) now in
    let written : db'.jobs ≡ update fits f db.jobs = ground arith in
    rw written (update_mem_miss fits f db.jobs j m (h attempt generation now))

pub reconcile_keeps :
    (date : Date) (db db' : Db) (r : ℕ × ℕ) (j : AutomationJob)
    → Has j db
    → ((now : ℕ) → validate_now date ≡ ok now → is_expired now j ≡ false)
    → reconcile_expired_leases date db ≡ ok (r, db')
    → Has j db'
unfolding reconcile_expired_leases
reconcile_keeps date db db' r j m h e =
    let (now, valid, e1) = lift_inv (validate_now date) _ db e in
    let written : db'.jobs
        ≡ update (is_recoverable now) (to_available now) (bury_spent now db.jobs) =
      ground arith in
    let fresh = h now valid in
    rw written (
      update_mem_miss (is_recoverable now) (to_available now) (bury_spent now db.jobs) j
        (update_mem_miss (is_spent now) (to_dead_letter now) db.jobs j m (ground arith))
        (ground arith))

pub cancel_keeps_finished :
    (others : Db → Db) (clock : ℕ) (id user_id : String) (date : Date) (db db' : Db)
    (r j : AutomationJob)
    → Has j db
    → Has j (others db)
    → is_finished j.status ≡ true
    → cancel_in_tenant others clock id user_id date db ≡ ok (r, db')
    → Has j db'
unfolding cancel_in_tenant cancel_rows
cancel_keeps_finished others clock id user_id date db db' r j m m' done e =
    let e1 = lift_then_inv (require_text id) _ db e in
    let e2 = lift_then_inv (require_text user_id) _ db e1 in
    let (now, _, e3) = lift_inv (validate_now date) _ db e2 in
    let (current, _, e4) = expect_inv (find (owns id user_id) db.jobs) not_found _ db e3 in
    elim (Bool-cases (is_cancelled current.status)) [
      | inl already ↦ let same : db' ≡ db = ground arith in rw same m
      | inr active ↦
          let e5 : cancel_rows others clock now id user_id current db ≡ ok (r, db') =
            ground arith in
          let (open_, e6) = require_inv (not (is_finished current.status)) terminal _ db e5 in
          let written : db'.jobs
              ≡ update (is_unchanged current id user_id) (cancelled_row clock now)
                  (others db).jobs =
            ground arith in
          rw written (
            update_mem_miss (is_unchanged current id user_id) (cancelled_row clock now)
              (others db).jobs j m' (ground arith))
    ]
