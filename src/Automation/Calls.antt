-- ===== src/Automation/Calls.antt =====
-- The operations on automation jobs that run one transaction, and soundness of the job table.
use mathlib.Core.List.{Memᴰ}
use jaa.Prelude.Members.{any_mem, take_mem, keep_mem, All-update_mem}
use jaa.Automation.Keys.{
  HasDistinctIds, HasDistinctIds-update, HasDistinctIds-unique, IsSound, IsSound-snoc,
  IsSound-update,
}
use jaa.Automation.Order.{ordered_mem}
use jaa.Prelude.{
  ℕ, ◌+◌, ◌≤◌, Bool, true, false, ◌≡◌, refl, String, Option, none, some, List, arith, ℤ, Number,
  nat, Date, at, All, find, ok, lift_inv, lift_then_inv, expect_inv, require_inv, safe_integer,
  positive-pos, or_else, update, eq_iff, Bool-cases, inl, inr, not,
}
use jaa.Json.Locale.{JsonRules}
use jaa.Automation.Jobs.{AutomationJob, Db, not_found, terminal, has_id, is_finished}
use jaa.Automation.Checks.{
  validate_max_attempts, positive_integer, max_automation_attempts, require_text, validate_now,
}
use jaa.Automation.Creation.{
  CreateInput, create_in_transaction, reuse_or_insert, new_job, stored_date, run_known, has_key,
}
use jaa.Automation.Leasing.{
  ClaimInput, LeaseInput, claim_automation_jobs, claim_rows, chosen_for, lease_automation_job,
  lease_rows, reconcile_expired_leases, bury_spent, is_spent, is_recoverable, to_dead_letter,
  to_available, to_leased, is_claimable, is_leasable, is_among, optional_integer,
}
use jaa.Automation.Recovery.{
  ReplayInput, owns, replay_in_tenant, replay_rows, replay_row, cancel_in_tenant, cancel_rows,
  cancelled_row, is_unchanged, is_cancelled,
}
use jaa.Automation.Rows.{
  IsWellFormed, new_job-IsWellFormed, replay_row-IsWellFormed, to_dead_letter-IsWellFormed,
  to_available-IsWellFormed, to_leased-IsWellFormed, cancelled_row-IsWellFormed,
}

validate_max_attempts_bounds :
    (value : Number) {n : ℕ}
    → validate_max_attempts value ≡ ok n
    → (1 ≤ n) × (n ≤ max_automation_attempts)
unfolding validate_max_attempts
validate_max_attempts_bounds value {n} h =
    (ground (arith, positive-pos value {n = n}), ground arith)

reuse_or_insert-IsSound :
    (rules : JsonRules) (id : String) (clock : ℕ) (input : CreateInput) (priority : ℤ)
    (version attempts : ℕ) (existing : Option AutomationJob) (db db' : Db)
    (r : AutomationJob × Bool)
    → 1 ≤ attempts
    → attempts ≤ max_automation_attempts
    → IsSound db
    → reuse_or_insert rules id clock input priority version attempts existing db ≡ ok (r, db')
    → IsSound db'
unfolding reuse_or_insert
reuse_or_insert-IsSound rules id clock input priority version attempts (some job) db db' r h k w e =
    let same : db' ≡ db = ground arith in rw same w
reuse_or_insert-IsSound rules id clock input priority version attempts none db db' r h k w e =
    let (at_time, _, e1) = expect_inv (stored_date input.available_at) _ _ db e in
    let row = new_job rules id clock input priority version attempts at_time in
    IsSound-snoc db db' row w
      (new_job-IsWellFormed rules id clock input priority version attempts at_time h k)
      (ground arith) (ground arith)

pub create-IsSound :
    (rules : JsonRules) (id : String) (clock : ℕ) (input : CreateInput) (db db' : Db)
    (r : AutomationJob × Bool)
    → IsSound db
    → create_in_transaction rules id clock input db ≡ ok (r, db')
    → IsSound db'
unfolding create_in_transaction
create-IsSound rules id clock input db db' r w e =
    let e1 = lift_then_inv (require_text input.user_id) _ db e in
    let e2 = lift_then_inv (require_text input.type) _ db e1 in
    let e3 = lift_then_inv (require_text input.correlation_id) _ db e2 in
    let e4 = lift_then_inv (require_text input.idempotency_key) _ db e3 in
    let (priority, _, e5) = expect_inv (safe_integer (or_else input.priority (nat 0))) _ _ db e4 in
    let (version, _, e6) =
      lift_inv (positive_integer (or_else input.payload_version (nat 1))) _ db e5 in
    let (attempts, budget, e7) =
      lift_inv (validate_max_attempts (or_else input.max_attempts (nat 3))) _ db e6 in
    let (low, high) = validate_max_attempts_bounds _ budget in
    let existing = find (has_key input.user_id input.idempotency_key) db.jobs in
    let (_, e8) =
      require_inv (run_known input.automation_run_id input.user_id db.runs) not_found
        (reuse_or_insert rules id clock input priority version attempts existing) db e7 in
    reuse_or_insert-IsSound rules id clock input priority version attempts existing db db' r low
      high w e8

replay_rows-IsSound :
    (cut : String → String) (id : String) (clock : ℕ) (input : ReplayInput) (attempts : ℕ)
    (db db' : Db) (r : AutomationJob)
    → 1 ≤ attempts
    → attempts ≤ max_automation_attempts
    → IsSound db
    → replay_rows cut id clock input attempts db ≡ ok (r, db')
    → IsSound db'
unfolding replay_rows
replay_rows-IsSound cut id clock input attempts db db' r h k w e =
    let (current, _, e1) =
      expect_inv (find (owns input.job_id input.user_id) db.jobs) not_found _ db e in
    let row = replay_row id clock current input.correlation_id attempts in
    IsSound-snoc db db' row w
      (replay_row-IsWellFormed id clock current input.correlation_id attempts h k) (ground arith)
      (ground arith)

pub replay-IsSound :
    (cut : String → String) (id : String) (clock : ℕ) (input : ReplayInput) (db db' : Db)
    (r : AutomationJob)
    → IsSound db
    → replay_in_tenant cut id clock input db ≡ ok (r, db')
    → IsSound db'
unfolding replay_in_tenant
replay-IsSound cut id clock input db db' r w e =
    let e1 = lift_then_inv (require_text input.job_id) _ db e in
    let e2 = lift_then_inv (require_text input.user_id) _ db e1 in
    let e3 = lift_then_inv (require_text input.reason) _ db e2 in
    let e4 = lift_then_inv (require_text input.correlation_id) _ db e3 in
    let (attempts, budget, e5) =
      lift_inv (validate_max_attempts (or_else input.max_attempts (nat 3))) _ db e4 in
    let (low, high) = validate_max_attempts_bounds _ budget in
    replay_rows-IsSound cut id clock input attempts db db' r low high w e5

-- A row is in the table, and fits the claim.
pub chosen_mem :
    (text_le : String → String → Bool) (locked : AutomationJob → Bool) (limit now : ℕ)
    (jobs : List AutomationJob) (c : AutomationJob)
    → Memᴰ c (chosen_for text_le locked limit now jobs)
    → Memᴰ c jobs × (is_claimable now c ≡ true) × (locked c ≡ false)
unfolding chosen_for
chosen_mem text_le locked limit now jobs c m =
    let (listed, fits) = keep_mem _ jobs c (ordered_mem text_le _ c (take_mem limit _ c m)) in
    (listed, ground arith, ground arith)

pub bury_spent-IsSound :
    (now : ℕ) (jobs : List AutomationJob)
    → All IsWellFormed jobs × HasDistinctIds jobs
    → All IsWellFormed (bury_spent now jobs) × HasDistinctIds (bury_spent now jobs)
unfolding to_dead_letter
bury_spent-IsSound now jobs w =
    IsSound-update (is_spent now) (to_dead_letter now) jobs (λ j. refl)
      (to_dead_letter-IsWellFormed now) w

-- A row that a claim may take.
to_leased-of-claimable :
    (worker : String) (expires now : ℕ) (job : AutomationJob)
    → is_claimable now job ≡ true
    → IsWellFormed job
    → IsWellFormed (to_leased worker expires now job)
unfolding is_claimable
to_leased-of-claimable worker expires now job h w =
    to_leased-IsWellFormed worker expires now job (ground arith) (ground arith) (ground arith) w

claim_rows-IsSound :
    (text_le : String → String → Bool) (locked : AutomationJob → Bool) (worker : String)
    (limit lease_ms now : ℕ) (db db' : Db) (r : List AutomationJob)
    → IsSound db
    → claim_rows text_le locked worker limit lease_ms now db ≡ ok (r, db')
    → IsSound db'
unfolding claim_rows to_leased
claim_rows-IsSound text_le locked worker limit lease_ms now db db' r w e =
    let buried = bury_spent now db.jobs in
    let chosen = chosen_for text_le locked limit now buried in
    let (formed, distinct) = bury_spent-IsSound now db.jobs w in
    let f = to_leased worker (now + lease_ms) now in
    let written : db'.jobs ≡ update (is_among chosen) f buried = ground arith in
    rw written (
      All-update_mem IsWellFormed (is_among chosen) f buried
          (λ j m among formed_j.
            let (c, picked, same) = any_mem (has_id j.id) chosen among in
            let (listed, fits, _) = chosen_mem text_le locked limit now buried c picked in
            let one : c ≡ j =
              HasDistinctIds-unique buried c j distinct listed m ((eq_iff c.id j.id).0 same) in
            to_leased-of-claimable worker (now + lease_ms) now j (rw one at fits) formed_j)
          formed,
      HasDistinctIds-update (is_among chosen) f buried (λ j. refl) distinct,
    )

pub claim-IsSound :
    (text_le : String → String → Bool) (locked : AutomationJob → Bool) (clock : ℕ)
    (input : ClaimInput) (db db' : Db) (r : List AutomationJob)
    → IsSound db
    → claim_automation_jobs text_le locked clock input db ≡ ok (r, db')
    → IsSound db'
unfolding claim_automation_jobs
claim-IsSound text_le locked clock input db db' r w e =
    let e1 = lift_then_inv (require_text input.worker_id) _ db e in
    let (limit, _, e2) = lift_inv (positive_integer (or_else input.limit (nat 10))) _ db e1 in
    let (lease_ms, _, e3) =
      lift_inv (positive_integer (or_else input.lease_ms (nat 30000))) _ db e2 in
    let (now, _, e4) = lift_inv (validate_now (or_else input.now (at clock))) _ db e3 in
    claim_rows-IsSound text_le locked input.worker_id limit lease_ms now db db' r w e4

lease_rows-IsSound :
    (id worker : String) (attempt generation : Option ℕ) (lease_ms now : ℕ) (db db' : Db)
    (r : Option AutomationJob)
    → IsSound db
    → lease_rows id worker attempt generation lease_ms now db ≡ ok (r, db')
    → IsSound db'
unfolding lease_rows to_leased is_leasable
lease_rows-IsSound id worker attempt generation lease_ms now db db' r w e =
    let f = to_leased worker (now + lease_ms) now in
    let written : db'.jobs ≡ update (is_leasable id attempt generation now db.runs) f db.jobs =
      ground arith in
    rw written (
      IsSound-update (is_leasable id attempt generation now db.runs) f db.jobs (λ j. refl)
        (λ j h.
          to_leased-IsWellFormed worker (now + lease_ms) now j (ground arith) (ground arith)
            (ground arith))
        w)

pub lease-IsSound :
    (clock : ℕ) (input : LeaseInput) (db db' : Db) (r : Option AutomationJob)
    → IsSound db
    → lease_automation_job clock input db ≡ ok (r, db')
    → IsSound db'
unfolding lease_automation_job
lease-IsSound clock input db db' r w e =
    let e1 = lift_then_inv (require_text input.job_id) _ db e in
    let e2 = lift_then_inv (require_text input.worker_id) _ db e1 in
    let (lease_ms, _, e3) =
      lift_inv (positive_integer (or_else input.lease_ms (nat 30000))) _ db e2 in
    let (attempt, _, e4) = lift_inv (optional_integer input.expected_attempt) _ db e3 in
    let (generation, _, e5) = lift_inv (optional_integer input.delivery_generation) _ db e4 in
    let (now, _, e6) = lift_inv (validate_now (or_else input.now (at clock))) _ db e5 in
    lease_rows-IsSound input.job_id input.worker_id attempt generation lease_ms now db db' r w e6

pub reconcile-IsSound :
    (date : Date) (db db' : Db) (r : ℕ × ℕ)
    → IsSound db
    → reconcile_expired_leases date db ≡ ok (r, db')
    → IsSound db'
unfolding reconcile_expired_leases to_available
reconcile-IsSound date db db' r w e =
    let (now, _, e1) = lift_inv (validate_now date) _ db e in
    let written : db'.jobs
        ≡ update (is_recoverable now) (to_available now) (bury_spent now db.jobs) =
      ground arith in
    rw written (
      IsSound-update (is_recoverable now) (to_available now) (bury_spent now db.jobs) (λ j. refl)
        (to_available-IsWellFormed now) (bury_spent-IsSound now db.jobs w))

cancel_rows-IsSound :
    (others : Db → Db) (clock now : ℕ) (id user_id : String) (current : AutomationJob) (db db' : Db)
    (r : AutomationJob)
    → IsSound (others db)
    → cancel_rows others clock now id user_id current db ≡ ok (r, db')
    → IsSound db'
unfolding cancel_rows cancelled_row
cancel_rows-IsSound others clock now id user_id current db db' r w e =
    let (open_, e1) = require_inv (not (is_finished current.status)) terminal _ db e in
    let written : db'.jobs
        ≡ update (is_unchanged current id user_id) (cancelled_row clock now) (others db).jobs =
      ground arith in
    rw written (
      IsSound-update (is_unchanged current id user_id) (cancelled_row clock now) (others db).jobs
        (λ j. refl) (λ j h. cancelled_row-IsWellFormed clock now j (ground arith)) w)

pub cancel-IsSound :
    (others : Db → Db) (clock : ℕ) (id user_id : String) (date : Date) (db db' : Db)
    (r : AutomationJob)
    → IsSound db
    → IsSound (others db)
    → cancel_in_tenant others clock id user_id date db ≡ ok (r, db')
    → IsSound db'
unfolding cancel_in_tenant
cancel-IsSound others clock id user_id date db db' r w meanwhile e =
    let e1 = lift_then_inv (require_text id) _ db e in
    let e2 = lift_then_inv (require_text user_id) _ db e1 in
    let (now, _, e3) = lift_inv (validate_now date) _ db e2 in
    let (current, _, e4) = expect_inv (find (owns id user_id) db.jobs) not_found _ db e3 in
    elim (Bool-cases (is_cancelled current.status)) [
      | inl already ↦ let same : db' ≡ db = ground arith in rw same w
      | inr active ↦
          cancel_rows-IsSound others clock now id user_id current db db' r meanwhile (ground arith)
    ]
