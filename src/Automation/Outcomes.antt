-- ===== src/Automation/Outcomes.antt =====
-- What the leasing operations of apps/api/src/services/automation-jobs.ts give to a worker.
use mathlib.Core.List.{Memᴰ}
use mathlib.Core.Option
use jaa.Prelude.{
  ℕ, ◌≤◌, Bool, true, false, ◌≡◌, refl, sym, ap, String, Option, none, some, List, arith, Date,
  Number, nat, at, invalid, eq_refl, update, or_else, ok, ◌+◌, find, positive-pos, lift_then_inv,
  lift_inv, length, map, length-take_le, find_holds, Result,
}
use jaa.Prelude.Members.{find_mem, any_of_mem, map_mem, length-map, update_mem_hit}
use jaa.Automation.Jobs.{AutomationJob, has_id, Db}
use jaa.Automation.Checks.{require_text, positive_integer, validate_now}
use jaa.Automation.Leasing.{
  ClaimInput, LeaseInput, claim_automation_jobs, claim_rows, chosen_for, is_among,
  lease_automation_job, lease_rows, bury_spent, is_claimable, is_leasable, to_leased,
  optional_integer,
}
use jaa.Automation.Ownership.{is_held}
use jaa.Automation.Calls.{chosen_mem}

positive_integer-pos : (x : Number) {n : ℕ} → positive_integer x ≡ ok n → 1 ≤ n
unfolding positive_integer
positive_integer-pos x {n} h = ground (arith, positive-pos x {n = n})

to_leased-is_held :
    (worker : String) (lease_ms now : ℕ) (job : AutomationJob)
    → 1 ≤ lease_ms
    → is_held worker now (to_leased worker (now + lease_ms) now job) ≡ true
unfolding to_leased
to_leased-is_held worker lease_ms now job h = ground (arith, eq_refl worker)

validate_now_inv : (d : Date) (now : ℕ) → validate_now d ≡ ok now → d ≡ at now
unfolding validate_now
validate_now_inv (at t) now h = ground arith
validate_now_inv invalid now h = cc

ok_inv :
    {E A S : Type 0} {a b : A} {s t : S}
    → ◌≡◌ {A = Result E (A × S)} (ok (a, s)) (ok (b, t))
    → (a ≡ b) × (s ≡ t)
ok_inv e = (ground arith, ground arith)

map_inv :
    {A B : Type 0} (f : A → B) (o : Option A) (b : B)
    → Option.map f o ≡ some b
    → (a : A) × (o ≡ some a) × (b ≡ f a)
map_inv f none b e = cc
map_inv f (some a) b e = (a, refl, ground arith)

lease_rows_gives :
    (id worker : String) (attempt generation : Option ℕ) (lease_ms now : ℕ) (db db' : Db)
    (job : AutomationJob)
    → lease_rows id worker attempt generation lease_ms now db ≡ ok (some job, db')
    → (seen : AutomationJob) × (find (is_leasable id attempt generation now db.runs) db.jobs
        ≡ some seen)
      × (job ≡ to_leased worker (now + lease_ms) now seen)
      × (db'.jobs
          ≡ update
              (is_leasable id attempt generation now db.runs)
              (to_leased worker (now + lease_ms) now)
              db.jobs)
unfolding lease_rows
lease_rows_gives id worker attempt generation lease_ms now db db' job e =
    let fits = is_leasable id attempt generation now db.runs in
    let f = to_leased worker (now + lease_ms) now in
    let (r, written) = ok_inv e in
    let (seen, found, given) = map_inv f (find fits db.jobs) job r in
    (seen, found, given, sym (ap (λ s. s.jobs) written))

-- A row as it was before a lease, and what the lease has checked and stored.
pub record Leased (clock : ℕ) (input : LeaseInput) (db db' : Db) (job : AutomationJob)
    : Type 0 where
  pub seen : AutomationJob
  pub attempt : Option ℕ
  pub generation : Option ℕ
  pub now : ℕ
  pub tried : optional_integer input.expected_attempt ≡ ok attempt
  pub sent : optional_integer input.delivery_generation ≡ ok generation
  pub timed : or_else input.now (at clock) ≡ at now
  pub there : Memᴰ seen db.jobs
  pub fits : is_leasable input.job_id attempt generation now db.runs seen ≡ true
  pub counted : job.attempt_count ≡ seen.attempt_count + 1
  pub same : job.delivery_generation ≡ seen.delivery_generation
  pub stored : Memᴰ job db'.jobs
  pub held : is_held input.worker_id now job ≡ true

row-Leased :
    (clock : ℕ) (input : LeaseInput) (db db' : Db) (job seen : AutomationJob)
    (attempt generation : Option ℕ) (lease_ms now : ℕ)
    → 1 ≤ lease_ms
    → optional_integer input.expected_attempt ≡ ok attempt
    → optional_integer input.delivery_generation ≡ ok generation
    → or_else input.now (at clock) ≡ at now
    → find (is_leasable input.job_id attempt generation now db.runs) db.jobs ≡ some seen
    → job ≡ to_leased input.worker_id (now + lease_ms) now seen
    → db'.jobs
      ≡ update
          (is_leasable input.job_id attempt generation now db.runs)
          (to_leased input.worker_id (now + lease_ms) now)
          db.jobs
    → Leased clock input db db' job
unfolding to_leased
row-Leased clock input db db' job seen attempt generation lease_ms now long tried sent timed found
      given written =
    let fits = is_leasable input.job_id attempt generation now db.runs in
    let f = to_leased input.worker_id (now + lease_ms) now in
    let there = find_mem fits db.jobs seen found in
    let hit = find_holds fits db.jobs found in
    let stored : Memᴰ (f seen) db'.jobs =
      rw written (update_mem_hit fits f db.jobs seen there hit) in
    let held : is_held input.worker_id now (f seen) ≡ true =
      to_leased-is_held input.worker_id lease_ms now seen long in
    record {
      seen = seen;
      attempt = attempt;
      generation = generation;
      now = now;
      tried = tried;
      sent = sent;
      timed = timed;
      there = there;
      fits = hit;
      counted = rw given refl;
      same = rw given refl;
      stored = rw given stored;
      held = rw given held;
    }

-- A direct lease that gives a job: the row was waiting, due, not cancelled and within its budget, the
-- attempt and the delivery generation of the message were its own where the message named them, its
-- run, if any, was running; the row given is stored, and its lease is held by the worker.
pub lease_gives :
    (clock : ℕ) (input : LeaseInput) (db db' : Db) (job : AutomationJob)
    → lease_automation_job clock input db ≡ ok (some job, db')
    → Leased clock input db db' job
unfolding lease_automation_job
lease_gives clock input db db' job e =
    let e1 = lift_then_inv (require_text input.job_id) _ db e in
    let e2 = lift_then_inv (require_text input.worker_id) _ db e1 in
    let (lease_ms, long, e3) =
      lift_inv (positive_integer (or_else input.lease_ms (nat 30000))) _ db e2 in
    let (attempt, tried, e4) = lift_inv (optional_integer input.expected_attempt) _ db e3 in
    let (generation, sent, e5) = lift_inv (optional_integer input.delivery_generation) _ db e4 in
    let (now, valid, e6) = lift_inv (validate_now (or_else input.now (at clock))) _ db e5 in
    let (seen, found, given, written) =
      lease_rows_gives input.job_id input.worker_id attempt generation lease_ms now db db' job e6 in
    row-Leased clock input db db' job seen attempt generation lease_ms now
      (positive_integer-pos (or_else input.lease_ms (nat 30000)) long) tried sent
      (validate_now_inv (or_else input.now (at clock)) now valid) found given written

chosen_few :
    (text_le : String → String → Bool) (locked : AutomationJob → Bool) (limit now : ℕ)
    (jobs : List AutomationJob)
    → length (chosen_for text_le locked limit now jobs) ≤ limit
unfolding chosen_for
chosen_few text_le locked limit now jobs = length-take_le limit _

-- What a claim by `worker` at `now` tells of a row that it gives: the table after has it, its lease is
-- held, and it comes from a claimable row of the table before.
abbrev pub IsClaimed : (AutomationJob → Bool) → String → ℕ → Db → Db → AutomationJob → Type 0
IsClaimed locked worker now db db' job =
    Memᴰ job db'.jobs
    × (is_held worker now job ≡ true)
    × ((seen : AutomationJob) × Memᴰ seen (bury_spent now db.jobs)
        × (is_claimable now seen ≡ true)
        × (locked seen ≡ false)
        × (job.id ≡ seen.id)
        × (job.attempt_count ≡ seen.attempt_count + 1))

to_leased-IsClaimed :
    (locked : AutomationJob → Bool) (worker : String) (lease_ms now : ℕ) (db db' : Db)
    (job seen : AutomationJob)
    → 1 ≤ lease_ms
    → Memᴰ (to_leased worker (now + lease_ms) now seen) db'.jobs
    → Memᴰ seen (bury_spent now db.jobs)
    → is_claimable now seen ≡ true
    → locked seen ≡ false
    → job ≡ to_leased worker (now + lease_ms) now seen
    → IsClaimed locked worker now db db' job
unfolding to_leased
to_leased-IsClaimed locked worker lease_ms now db db' job seen long stored there fits open_ given =
    let held : is_held worker now (to_leased worker (now + lease_ms) now seen) ≡ true =
      to_leased-is_held worker lease_ms now seen long in
    (rw given stored, rw given held, (seen, there, fits, open_, rw given refl, rw given refl))

claim_rows_give :
    (text_le : String → String → Bool) (locked : AutomationJob → Bool) (worker : String)
    (limit lease_ms now : ℕ) (db db' : Db) (given : List AutomationJob)
    → 1 ≤ lease_ms
    → claim_rows text_le locked worker limit lease_ms now db ≡ ok (given, db')
    → (length given ≤ limit)
      × ((job : AutomationJob) → Memᴰ job given → IsClaimed locked worker now db db' job)
unfolding claim_rows
claim_rows_give text_le locked worker limit lease_ms now db db' given long e =
    let buried = bury_spent now db.jobs in
    let chosen = chosen_for text_le locked limit now buried in
    let f = to_leased worker (now + lease_ms) now in
    let listed : map f chosen ≡ given = (ok_inv e).0 in
    let written : update (is_among chosen) f buried ≡ db'.jobs = ap (λ s. s.jobs) (ok_inv e).1 in
    let few : length (map f chosen) ≤ limit =
      omega (arith, length-map f chosen, chosen_few text_le locked limit now buried) in
    (
      rw listed at few,
      λ job m.
          let among : Memᴰ job (map f chosen) = rw (← listed) at m in
          let (seen, picked, made) = map_mem f chosen job among in
          let (there, fits, open_) = chosen_mem text_le locked limit now buried seen picked in
          let hit = any_of_mem (has_id seen.id) chosen seen picked (eq_refl seen.id) in
          let stored : Memᴰ (f seen) db'.jobs =
            rw (← written) (update_mem_hit (is_among chosen) f buried seen there hit) in
          to_leased-IsClaimed locked worker lease_ms now db db' job seen long stored there fits
            open_ made,
    )

-- A claim gives at most `limit` rows (10 where no limit is given); the table after the claim has each as it
-- is given, with a lease that the claimant holds; every row was claimable at the time of the claim and not locked by another claim.
pub claim_gives :
    (text_le : String → String → Bool) (locked : AutomationJob → Bool) (clock : ℕ)
    (input : ClaimInput) (db db' : Db) (given : List AutomationJob)
    → claim_automation_jobs text_le locked clock input db ≡ ok (given, db')
    → (limit : ℕ) × (now : ℕ) × (positive_integer (or_else input.limit (nat 10)) ≡ ok limit)
      × (or_else input.now (at clock) ≡ at now)
      × (length given ≤ limit)
      × ((job : AutomationJob) → Memᴰ job given → IsClaimed locked input.worker_id now db db' job)
unfolding claim_automation_jobs
claim_gives text_le locked clock input db db' given e =
    let e1 = lift_then_inv (require_text input.worker_id) _ db e in
    let (limit, asked, e2) = lift_inv (positive_integer (or_else input.limit (nat 10))) _ db e1 in
    let (lease_ms, long, e3) =
      lift_inv (positive_integer (or_else input.lease_ms (nat 30000))) _ db e2 in
    let (now, valid, e4) = lift_inv (validate_now (or_else input.now (at clock))) _ db e3 in
    let (few, each) =
      claim_rows_give text_le locked input.worker_id limit lease_ms now db db' given
        (positive_integer-pos (or_else input.lease_ms (nat 30000)) long) e4 in
    (limit, now, asked, validate_now_inv (or_else input.now (at clock)) now valid, few, each)
