-- ===== src/Automation/Admission.antt =====
-- What a creation of an automation job has checked, and what sending it again does.
use mathlib.Core.List.{Memᴰ, append-nil}
use jaa.Prelude.{
  ℕ, Bool, true, false, ◌≡◌, refl, String, Option, none, some, List, [], ◌∷◌, ◌++◌, arith, ℤ, pos,
  negsuc, nat, Date, at, invalid, find, find-append, or_else, Result, ok, err, lift_inv,
  lift_then_inv, expect_inv, require_inv, safe_integer, int_eq, null_eq, eq_refl, Option-cases, inl,
  inr, lift, ◌∙◌, sym, ◌>>=◌, ◌>>◌,
}
use jaa.Prelude.Members.{append_mem}
use jaa.Json.Locale.{JsonRules, payload_equals, payload_equals_refl}
use jaa.Automation.Jobs.{AutomationJob, Db, JobError, not_found}
use jaa.Automation.Checks.{require_text, positive_integer, validate_max_attempts}
use jaa.Automation.Creation.{
  CreateInput, create_in_transaction, reuse_or_insert, run_known, has_key, is_same_job, same_time,
  new_job, stored_date,
}

-- The numbers that a creation works with, and what its checks have found.
record Admitted (input : CreateInput) (db : Db) : Type 0 where
  pub priority : ℤ
  pub version : ℕ
  pub attempts : ℕ
  pub texts :
      (require_text input.user_id ≡ ok tt)
      × (require_text input.type ≡ ok tt)
      × (require_text input.correlation_id ≡ ok tt)
      × (require_text input.idempotency_key ≡ ok tt)
  pub ranked : safe_integer (or_else input.priority (nat 0)) ≡ some priority
  pub versioned : positive_integer (or_else input.payload_version (nat 1)) ≡ ok version
  pub budget : validate_max_attempts (or_else input.max_attempts (nat 3)) ≡ ok attempts
  pub known : run_known input.automation_run_id input.user_id db.runs ≡ true

lift_then_ok :
    {B : Type 0} (c : Result JobError (Unit {0})) (k : Db → Result JobError (B × Db)) (s : Db)
    {r : B × Db}
    → (lift c >> k) s ≡ ok r
    → c ≡ ok tt
lift_then_ok (ok tt) k s h = refl
lift_then_ok (err e) k s h = cc

admitted :
    (rules : JsonRules) (id : String) (clock : ℕ) (input : CreateInput) (db db' : Db)
    (r : AutomationJob × Bool)
    → create_in_transaction rules id clock input db ≡ ok (r, db')
    → (a : Admitted input db) × (reuse_or_insert rules id clock input a.priority a.version
          a.attempts
          (find (has_key input.user_id input.idempotency_key) db.jobs)
          db
        ≡ ok (r, db'))
unfolding create_in_transaction
admitted rules id clock input db db' r e =
    let e1 = lift_then_inv (require_text input.user_id) _ db e in
    let e2 = lift_then_inv (require_text input.type) _ db e1 in
    let e3 = lift_then_inv (require_text input.correlation_id) _ db e2 in
    let e4 = lift_then_inv (require_text input.idempotency_key) _ db e3 in
    let (priority, ranked, e5) =
      expect_inv (safe_integer (or_else input.priority (nat 0))) _ _ db e4 in
    let (version, versioned, e6) =
      lift_inv (positive_integer (or_else input.payload_version (nat 1))) _ db e5 in
    let (attempts, budget, e7) =
      lift_inv (validate_max_attempts (or_else input.max_attempts (nat 3))) _ db e6 in
    let (known, e8) =
      require_inv (run_known input.automation_run_id input.user_id db.runs) not_found _ db e7 in
    (
      record {
        priority = priority;
        version = version;
        attempts = attempts;
        texts = (
          lift_then_ok (require_text input.user_id) _ db e,
          lift_then_ok (require_text input.type) _ db e1,
          lift_then_ok (require_text input.correlation_id) _ db e2,
          lift_then_ok (require_text input.idempotency_key) _ db e3,
        );
        ranked = ranked;
        versioned = versioned;
        budget = budget;
        known = known;
      },
      e8,
    )

-- The other way round: the checks of a request pass again.
admit_again :
    (rules : JsonRules) (id : String) (clock : ℕ) (input : CreateInput) (db db' : Db)
    (a : Admitted input db)
    → db'.runs ≡ db.runs
    → create_in_transaction rules id clock input db'
      ≡ reuse_or_insert rules id clock input a.priority a.version a.attempts
          (find (has_key input.user_id input.idempotency_key) db'.jobs)
          db'
unfolding create_in_transaction
admit_again rules id clock input db db' a same =
    let (t1, t2, t3, t4) = a.texts in
    let known : run_known input.automation_run_id input.user_id db'.runs ≡ true = rw same a.known in
    rw (t1, ◌>>◌)
      (rw (t2, ◌>>◌)
        (rw (t3, ◌>>◌)
          (rw (t4, ◌>>◌)
            (rw (a.ranked, ◌>>=◌)
              (rw (a.versioned, ◌>>=◌) (rw (a.budget, ◌>>=◌) (rw (known, ◌>>◌) refl)))))))

-- What a creation has done: it gave a row that was there, or added one.
data Outcome (rules : JsonRules) (id : String) (clock : ℕ) (input : CreateInput) (priority : ℤ)
    (version attempts : ℕ) (db db' : Db) (r : AutomationJob × Bool) : Type 0 where
  reused :
      find (has_key input.user_id input.idempotency_key) db.jobs ≡ some r.0
      → is_same_job rules input priority version attempts r.0 ≡ true
      → r.1 ≡ true
      → db' ≡ db
      → Outcome rules id clock input priority version attempts db db' r
  inserted :
      (start : Option ℕ)
      → find (has_key input.user_id input.idempotency_key) db.jobs ≡ none
      → stored_date input.available_at ≡ some start
      → r.0 ≡ new_job rules id clock input priority version attempts start
      → r.1 ≡ false
      → db' ≡ record db { jobs = db.jobs ++ r.0 ∷ [] }
      → Outcome rules id clock input priority version attempts db db' r

outcome :
    (rules : JsonRules) (id : String) (clock : ℕ) (input : CreateInput) (priority : ℤ)
    (version attempts : ℕ) (db db' : Db) (r : AutomationJob × Bool)
    → reuse_or_insert rules id clock input priority version attempts
        (find (has_key input.user_id input.idempotency_key) db.jobs)
        db
      ≡ ok (r, db')
    → Outcome rules id clock input priority version attempts db db' r
unfolding reuse_or_insert
outcome rules id clock input priority version attempts db db' r e =
    elim (Option-cases (find (has_key input.user_id input.idempotency_key) db.jobs)) [
      | inr (job, found) ↦ reused (ground arith) (ground arith) (ground arith) (ground arith)
      | inl absent ↦
          let (start, dated, e1) =
            expect_inv (stored_date input.available_at) _ _ db
              (rw (absent, reuse_or_insert) at e) in
          inserted start absent dated (ground arith) (ground arith) (ground arith)
    ]

int_eq_refl : (z : ℤ) → int_eq z z ≡ true
int_eq_refl (pos n) = ground arith
int_eq_refl (negsuc n) = ground arith

null_eq_refl : (o : Option String) → null_eq o o ≡ true
null_eq_refl none = refl
null_eq_refl (some s) = eq_refl s

same_time_stored :
    (d : Option Date) (start : Option ℕ) → stored_date d ≡ some start → same_time start d ≡ true
same_time_stored none start h = ground arith
same_time_stored (some (at t)) start h = ground arith
same_time_stored (some invalid) start h = cc

kept_payload :
    (rules : JsonRules) (input : CreateInput)
    → rules.stored input.payload ≡ input.payload
    → payload_equals rules.locale_le (rules.stored input.payload) input.payload ≡ true
kept_payload rules input kept = rw kept (payload_equals_refl rules.locale_le input.payload)

-- A request agrees with the row it made.
new_job-is_same :
    (rules : JsonRules) (id : String) (clock : ℕ) (input : CreateInput) (priority : ℤ)
    (version attempts : ℕ) (start : Option ℕ)
    → stored_date input.available_at ≡ some start
    → rules.stored input.payload ≡ input.payload
    → is_same_job rules input priority version attempts
        (new_job rules id clock input priority version attempts start)
      ≡ true
unfolding is_same_job new_job
new_job-is_same rules id clock input priority version attempts start h kept = ground (
  arith,
  eq_refl input.user_id,
  eq_refl input.type,
  eq_refl input.correlation_id,
  null_eq_refl input.application_id,
  null_eq_refl input.automation_run_id,
  int_eq_refl priority,
  same_time_stored input.available_at start h,
  kept_payload rules input kept,
)

reuse_same :
    (rules : JsonRules) (id : String) (clock : ℕ) (input : CreateInput) (priority : ℤ)
    (version attempts : ℕ) (db : Db) (job : AutomationJob)
    → is_same_job rules input priority version attempts job ≡ true
    → reuse_or_insert rules id clock input priority version attempts (some job) db
      ≡ ok ((job, true), db)
unfolding reuse_or_insert
reuse_same rules id clock input priority version attempts db job h = rw (h, ◌>>◌) refl

new_job-has_key :
    (rules : JsonRules) (id : String) (clock : ℕ) (input : CreateInput) (priority : ℤ)
    (version attempts : ℕ) (start : Option ℕ)
    → has_key input.user_id input.idempotency_key
        (new_job rules id clock input priority version attempts start)
      ≡ true
unfolding new_job
new_job-has_key rules id clock input priority version attempts start =
    ground (arith, eq_refl input.user_id, eq_refl input.idempotency_key)

found_again :
    (rules : JsonRules) (id : String) (clock : ℕ) (input : CreateInput) (priority : ℤ)
    (version attempts : ℕ) (db db' : Db) (r : AutomationJob × Bool)
    → rules.stored input.payload ≡ input.payload
    → Outcome rules id clock input priority version attempts db db' r
    → (find (has_key input.user_id input.idempotency_key) db'.jobs ≡ some r.0)
      × (is_same_job rules input priority version attempts r.0 ≡ true)
      × (db'.runs ≡ db.runs)
found_again rules id clock input priority version attempts db db' r plain
      (reused found same again kept) =
    (rw kept found, same, rw kept refl)
found_again rules id clock input priority version attempts db db' r plain
      (inserted start absent dated made new grown) =
    let key : has_key input.user_id input.idempotency_key r.0 ≡ true =
      rw made (new_job-has_key rules id clock input priority version attempts start) in
    (
      rw grown (
          find-append (has_key input.user_id input.idempotency_key) db.jobs (r.0 ∷ []) absent
          ∙ rw (key, find) refl),
      rw made (new_job-is_same rules id clock input priority version attempts start dated plain),
      rw grown refl,
    )

-- Sending a creation again after it returned, at any time and with any new identifier, gives the
-- same job as a replay and leaves the store as it is, if the column gives the payload back as it is, with
-- its keys in their order.
pub create_again :
    (rules : JsonRules) (id id' : String) (clock clock' : ℕ) (input : CreateInput) (db db' : Db)
    (r : AutomationJob × Bool)
    → rules.stored input.payload ≡ input.payload
    → create_in_transaction rules id clock input db ≡ ok (r, db')
    → create_in_transaction rules id' clock' input db' ≡ ok ((r.0, true), db')
create_again rules id id' clock clock' input db db' r plain e =
    let (a, reused_or_made) = admitted rules id clock input db db' r e in
    let (found, same, runs) =
      found_again rules id clock input a.priority a.version a.attempts db db' r plain
        (outcome rules id clock input a.priority a.version a.attempts db db' r reused_or_made) in
    admit_again rules id' clock' input db db' a runs
    ∙ rw found (reuse_same rules id' clock' input a.priority a.version a.attempts db' r.0 same)

grown_rows :
    (rules : JsonRules) (id : String) (clock : ℕ) (input : CreateInput) (priority : ℤ)
    (version attempts : ℕ) (db db' : Db) (r : AutomationJob × Bool)
    → Outcome rules id clock input priority version attempts db db' r
    → (ks : List AutomationJob) × (db'.jobs ≡ db.jobs ++ ks)
grown_rows rules id clock input priority version attempts db db' r (reused found same again kept) =
    ([], rw kept (sym (append-nil db.jobs)))
grown_rows rules id clock input priority version attempts db db' r
      (inserted start absent dated made new grown) =
    (r.0 ∷ [], rw grown refl)

-- A creation keeps every row.
pub create_keeps :
    (rules : JsonRules) (id : String) (clock : ℕ) (input : CreateInput) (db db' : Db)
    (r : AutomationJob × Bool) (j : AutomationJob)
    → Memᴰ j db.jobs
    → create_in_transaction rules id clock input db ≡ ok (r, db')
    → Memᴰ j db'.jobs
create_keeps rules id clock input db db' r j m e =
    let (a, done) = admitted rules id clock input db db' r e in
    let (ks, grown) =
      grown_rows rules id clock input a.priority a.version a.attempts db db' r
        (outcome rules id clock input a.priority a.version a.attempts db db' r done) in
    rw grown (append_mem db.jobs ks j m)
