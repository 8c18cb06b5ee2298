-- ===== src/Dispatch/Leases.antt =====
-- What a worker does with a dispatched job.
use mathlib.Core.List.{Memᴰ}
use mathlib.Core.Option
use mathlib.Core.Path.{subst}
use jaa.Prelude.{
  ℕ, ◌+◌, String, Bool, true, false, ◌&&◌, not, Option, none, some, List, [], ◌∷◌, ◌≡◌, refl, ap,
  sym, ◌∙◌, arith, Number, nat, positive, or_else, inl, inr, find, any, update, ◌===◌, leb, ltb,
  is_some, eq_refl, eq_iff, at, find_holds, ok, Bool-cases, is_blank,
}
use jaa.Prelude.Members.{take_mem, keep_mem, find_of_mem}
use jaa.Prelude.Units.Blank.{identifier_not_blank}
use jaa.Automation.Jobs.{AutomationJob, AutomationRun, Db, is_waiting}
use jaa.Automation.Order.{ordered_mem}
use jaa.Automation.Leasing.{
  is_leasable, run_allows, LeaseInput, lease_automation_job, lease_rows, to_leased,
  optional_integer,
}
use jaa.Automation.Checks.{require_text, positive_integer, validate_now}
use jaa.Queue.Envelope.{AutomationQueueMessage, Added, added, Envelope}
use jaa.Dispatch.Loop.{
  Dispatch, start, run_is_running, joins_running, is_of_requested_user, is_dispatchable,
  dispatch_all, select_dispatchable, dispatch_automation_jobs,
}
use jaa.Dispatch.Counts.{dispatch_batch_inv}
use jaa.Dispatch.Envelopes.{Matches, dispatch_all-Comes}

-- What the processor of apps/api/src/services/automation-worker.ts asks for, at a given time.
abbrev pub lease_of : AutomationQueueMessage → String → ℕ → LeaseInput
lease_of message worker now = record {
  job_id = message.automation_job_id;
  worker_id = worker;
  now = some (at now);
  lease_ms = none;
  expected_attempt = some (nat message.dispatch_attempt);
  delivery_generation = some (nat message.delivery_generation);
}

-- Every run that a job names is in the table.
abbrev pub HasRuns : Db → Type 0
HasRuns db =
    (job : AutomationJob) (id : String)
    → Memᴰ job db.jobs
    → job.automation_run_id ≡ some id
    → any (λ run. run.id === id) db.runs ≡ true

running_run :
    (runs : List AutomationRun) (id : String)
    → any (λ run. run.id === id) runs ≡ true
    → run_is_running (find (λ run. run.id === id) runs) ≡ true
    → any (λ run. run.id === id && run.running) runs ≡ true
running_run [] id there h = cc
running_run (run ∷ runs) id there h = elim (Bool-cases (run.id === id)) [
  | inl e ↦ let here : run.running ≡ true = rw (e, find) at h in rw (e, here) refl
  | inr e ↦ rw (e, any) (running_run runs id (rw (e, any) at there) (rw (e, find) at h))
]

run_allows_lem :
    (runs : List AutomationRun) (o : Option String)
    → ((id : String) → o ≡ some id → any (λ run. run.id === id) runs ≡ true)
    → joins_running runs o ≡ true
    → run_allows runs o ≡ true
run_allows_lem runs none there h = refl
run_allows_lem runs (some id) there h = running_run runs id (there id refl) h

select_dispatchable_mem :
    (text_le : String → String → Bool) (n now : ℕ) (user_id : Option String)
    (runs : List AutomationRun) (jobs : List AutomationJob) (job : AutomationJob)
    → Memᴰ job (select_dispatchable text_le n now user_id runs jobs)
    → Memᴰ job jobs × (is_dispatchable now user_id runs job ≡ true)
unfolding select_dispatchable
select_dispatchable_mem text_le n now user_id runs jobs job m =
    keep_mem _ jobs job (ordered_mem text_le _ job (take_mem n _ job m))

last_test : (a b c d e f : Bool) → a && b && c && d && e && f ≡ true → f ≡ true
last_test a b c d e f h = ground (arith, h)

is_leasable-dispatchable :
    (now : ℕ) (user_id : Option String) (db : Db) (job : AutomationJob) (envelope : Envelope)
    → HasRuns db
    → Memᴰ job db.jobs
    → is_dispatchable now user_id db.runs job ≡ true
    → Matches job envelope
    → is_leasable envelope.message.automation_job_id
        (some envelope.message.dispatch_attempt)
        (some envelope.message.delivery_generation)
        now
        db.runs
        job
      ≡ true
unfolding is_leasable is_dispatchable
is_leasable-dispatchable now user_id db job envelope runs there h fits =
    let joins : joins_running db.runs job.automation_run_id ≡ true =
      last_test (is_waiting job.status) (leb job.available_at now) (not (is_some job.cancelled_at))
        (ltb job.attempt_count job.max_attempts) (is_of_requested_user user_id job) _ h in
    let allowed =
      run_allows_lem db.runs job.automation_run_id (λ id e. runs job id there e) joins in
    rw (fits.same_id, fits.next_attempt, fits.same_generation, eq_refl job.id, allowed)
      (ground (arith, h))

optional_integer_lem :
    (n : ℕ) → positive (nat n) ≡ some n → optional_integer (some (nat n)) ≡ ok (some n)
unfolding positive_integer positive
optional_integer_lem n h = rw (h, optional_integer) refl

not_blank_lem : (s : String) → is_blank s ≡ false → require_text s ≡ ok tt
unfolding require_text
not_blank_lem s h = rw h refl

lease_rows-found :
    (id worker : String) (attempt generation : Option ℕ) (lease_ms now : ℕ) (db : Db)
    (seen : AutomationJob)
    → find (is_leasable id attempt generation now db.runs) db.jobs ≡ some seen
    → (db' : Db) × (lease_rows id worker attempt generation lease_ms now db
        ≡ ok (some (to_leased worker (now + lease_ms) now seen), db'))
unfolding lease_rows
lease_rows-found id worker attempt generation lease_ms now db seen found =
    let db' : Db = record db {
      jobs =
          update (is_leasable id attempt generation now db.runs)
            (to_leased worker (now + lease_ms) now) db.jobs;
    } in
    (db', ap (λ o. ok (Option.map (to_leased worker (now + lease_ms) now) o, db')) found)

-- A lease whose checks pass is its statement.
lease-lease_rows :
    (clock now : ℕ) (input : LeaseInput) (attempt generation : Option ℕ) (db : Db)
    → input.now ≡ some (at now)
    → input.lease_ms ≡ none
    → require_text input.job_id ≡ ok tt
    → require_text input.worker_id ≡ ok tt
    → optional_integer input.expected_attempt ≡ ok attempt
    → optional_integer input.delivery_generation ≡ ok generation
    → lease_automation_job clock input db
      ≡ lease_rows input.job_id input.worker_id attempt generation 30000 now db
unfolding lease_automation_job validate_now positive_integer positive
lease-lease_rows clock now input attempt generation db t l id_ok worker_ok a g =
    rw (id_ok, worker_ok, t, l, a, g) refl

-- What a worker has of a dispatched message.
pub record IsLeasedFor (x : Added) (leased : AutomationJob) : Type 0 where
  pub same_id : leased.id ≡ x.message.automation_job_id
  pub same_attempt : leased.attempt_count ≡ x.message.dispatch_attempt
  pub same_generation : leased.delivery_generation ≡ x.message.delivery_generation

-- A message, after the checks, for a row that the lease picks.
record IsFor (now : ℕ) (db : Db) (job : AutomationJob) (message : AutomationQueueMessage)
    : Type 0 where
  valid_attempt : positive (nat message.dispatch_attempt) ≡ some message.dispatch_attempt
  valid_generation : positive (nat message.delivery_generation) ≡ some message.delivery_generation
  not_blank : is_blank message.automation_job_id ≡ false
  fits :
      is_leasable message.automation_job_id
        (some message.dispatch_attempt)
        (some message.delivery_generation)
        now
        db.runs
        job
      ≡ true

seen-IsLeasedFor :
    (now expires : ℕ) (worker : String) (runs : List AutomationRun) (x : Added)
    (seen : AutomationJob)
    → is_leasable x.message.automation_job_id
        (some x.message.dispatch_attempt)
        (some x.message.delivery_generation)
        now
        runs
        seen
      ≡ true
    → IsLeasedFor x (to_leased worker expires now seen)
unfolding is_leasable to_leased
seen-IsLeasedFor now expires worker runs x seen h = record {
  same_id = (eq_iff seen.id x.message.automation_job_id).0 (ground (arith, h));
  same_attempt = ground (arith, h);
  same_generation = ground (arith, h);
}

message_of :
    (normalize : String → String) (clock : ℕ) (envelope : Envelope) (x : Added)
    → x ≡ added normalize clock envelope
    → x.message ≡ envelope.message
unfolding added
message_of normalize clock envelope x same = ap (λ y. y.message) same

message_leases :
    (lease_clock now : ℕ) (db : Db) (worker : String) (x : Added) (job : AutomationJob)
    → is_blank worker ≡ false
    → Memᴰ job db.jobs
    → IsFor now db job x.message
    → (leased : AutomationJob) × (db' : Db) × (lease_automation_job lease_clock
          (lease_of x.message worker now)
          db
        ≡ ok (some leased, db'))
      × IsLeasedFor x leased
message_leases lease_clock now db worker x job awake there for =
    let picks =
      is_leasable x.message.automation_job_id (some x.message.dispatch_attempt)
        (some x.message.delivery_generation) now db.runs in
    let (seen, found) = find_of_mem picks db.jobs job there for.fits in
    let (db', given) =
      lease_rows-found x.message.automation_job_id worker (some x.message.dispatch_attempt)
        (some x.message.delivery_generation) 30000 now db seen found in
    let opened =
      lease-lease_rows lease_clock now (lease_of x.message worker now)
        (some x.message.dispatch_attempt) (some x.message.delivery_generation) db refl refl
        (not_blank_lem x.message.automation_job_id for.not_blank) (not_blank_lem worker awake)
        (optional_integer_lem x.message.dispatch_attempt for.valid_attempt)
        (optional_integer_lem x.message.delivery_generation for.valid_generation) in
    (
      to_leased worker (now + 30000) now seen,
      db',
      opened ∙ given,
      seen-IsLeasedFor now (now + 30000) worker db.runs x seen (find_holds picks db.jobs found),
    )

module _ (text_le : String → String → Bool) (normalize : String → String) (accepts : Added → Bool)
    (clock : ℕ) where
  selected_leases :
      (lease_clock now n : ℕ) (user_id : Option String) (db : Db) (worker : String) (x : Added)
      (job : AutomationJob) (envelope : Envelope)
      → HasRuns db
      → is_blank worker ≡ false
      → Memᴰ job (select_dispatchable text_le n now user_id db.runs db.jobs)
      → Matches job envelope
      → x ≡ added normalize clock envelope
      → (leased : AutomationJob) × (db' : Db) × (lease_automation_job lease_clock
            (lease_of x.message worker now)
            db
          ≡ ok (some leased, db'))
        × IsLeasedFor x leased
  selected_leases lease_clock now n user_id db worker x job envelope runs awake m fits same =
      let (there, h) = select_dispatchable_mem text_le n now user_id db.runs db.jobs job m in
      let of_envelope : IsFor now db job envelope.message = record {
        valid_attempt = fits.valid_attempt;
        valid_generation = fits.valid_generation;
        not_blank = rw (fits.same_id) (identifier_not_blank job.id fits.safe_id);
        fits = is_leasable-dispatchable now user_id db job envelope runs there h fits;
      } in
      message_leases lease_clock now db worker x job awake there
        (subst (IsFor now db job) (sym (message_of normalize clock envelope x same)) of_envelope)

  -- If a dispatch at a time ran on a job table whose runs all exist, then for each job that it handed to
  -- BullMQ, a worker with a name that is not blank, which asks for the message's job on that
  -- table and at that time, gets it leased, at the attempt and the delivery generation of the message.
  pub dispatched_leases :
      (lease_clock now : ℕ) (batch_size : Option Number) (user_id : Option String) (db : Db)
      (before : List Added) (worker : String) (x : Added) {selected : ℕ} {d : Dispatch}
      → dispatch_automation_jobs text_le normalize accepts clock now batch_size user_id db.runs
          db.jobs before
        ≡ some (selected, d)
      → Memᴰ x d.added
      → ¬ Memᴰ x before
      → HasRuns db
      → is_blank worker ≡ false
      → (leased : AutomationJob) × (db' : Db) × (lease_automation_job lease_clock
            (lease_of x.message worker now)
            db
          ≡ ok (some leased, db'))
        × IsLeasedFor x leased
  unfolding dispatch_automation_jobs
  dispatched_leases lease_clock now batch_size user_id db before worker x {selected} {d} h m new
        runs awake =
      let (n, size, same) =
        dispatch_batch_inv normalize accepts clock text_le now user_id db.runs db.jobs before
          (positive (or_else batch_size (nat 100))) h in
      let end : dispatch_all normalize accepts clock
            (select_dispatchable text_le n now user_id db.runs db.jobs) (start before)
          ≡ d =
        ap (λ r. r.1) same in
      elim (dispatch_all-Comes normalize accepts clock
        (select_dispatchable text_le n now user_id db.runs db.jobs) (start before) x
        (subst (λ d. Memᴰ x d.added) (sym end) m)) [
          | inl old ↦ absurd (new old)
          | inr (job, k, envelope, fits, made) ↦
              selected_leases lease_clock now n user_id db worker x job envelope runs awake k fits
                made
        ]
