-- ===== src/Automation/Tests.antt =====
-- Runs of the operations on automation jobs, and each theorem at a concrete input.
use mathlib.Core.List.{Memᴰ}
use jaa.Prelude.{
  ℕ, Bool, true, false, String, Option, none, some, [], ◌∷◌, ◌≡◌, refl, arith, nat, pos, at, ok,
  Result, err, length, positive, is_blank, safe_integer, is_safe_integer, ◌≤◌,
}
use jaa.Json.Value.{Json, null, bool, obj, field, end}
use jaa.Prelude.Sorting.{sort, insert_sorted}
use jaa.Json.Canonical.{quote, units}
use jaa.Json.Locale.{JsonRules, payload_equals, ordered_entries, array_index, locale_json}
use jaa.Automation.Jobs.{
  available, leased, dead_letter, AutomationJob, Db, JobError, idempotency_conflict, lease_lost,
  terminal,
}
use jaa.Automation.Checks.{
  require_text, positive_integer, validate_max_attempts, validate_now, validated_retry_after_ms,
  effective_retry_delay_ms, renew_checks, complete_checks, fail_checks,
}
use jaa.Automation.Creation.{
  CreateInput, create_in_transaction, create_automation_job, reuse_or_insert, insert_job, new_job,
  is_same_job,
}
use jaa.Automation.Leasing.{
  ClaimInput, LeaseInput, claim_automation_jobs, claim_rows, chosen_for, ordered, insert_ordered,
  precedes, is_claimable, to_leased, to_available, to_dead_letter, lease_automation_job, lease_rows,
  is_leasable, reconcile_expired_leases,
}
use jaa.Automation.Ownership.{
  OwnedInput, FailInput, fail_automation_job, change_owned, get_owned_job, update_held,
  find_or_throw, after_failure, complete_automation_job, completed, renew_lease, renewed,
}
use jaa.Automation.Recovery.{
  ReplayInput, replay_in_tenant, replay_rows, replay_row, replay_key, replay_dead_letter,
  cancel_in_tenant, cancel_rows, cancelled_row, cancel_automation_job, cancel_discovery,
}
use jaa.Automation.Rows.{IsWellFormed}
use jaa.Automation.Keys.{IsSound}
use jaa.Automation.Invariant.{claim, fail, Surroundings, perform, perform-IsSound}
use jaa.Automation.Admission.{create_again}
use jaa.Automation.Finality.{finished_stays, held_survives, claims}
use jaa.Automation.Outcomes.{Leased, lease_gives, claim_gives, IsClaimed}
use jaa.Automation.Fencing.{recovery_fences}
use jaa.Automation.Holding.{Failed, failure_outcome}
use jaa.Automation.Replays.{replay_once}

machine : Unit {0}
unfolding require_text positive_integer validate_max_attempts validate_now validated_retry_after_ms
    effective_retry_delay_ms renew_checks complete_checks fail_checks create_in_transaction
    create_automation_job reuse_or_insert insert_job new_job is_same_job claim_automation_jobs
    claim_rows chosen_for ordered insert_ordered precedes is_claimable to_leased to_available
    to_dead_letter lease_automation_job lease_rows is_leasable reconcile_expired_leases
    fail_automation_job change_owned get_owned_job update_held find_or_throw after_failure
    complete_automation_job completed renew_lease renewed replay_in_tenant replay_rows replay_row
    replay_key replay_dead_letter cancel_in_tenant cancel_rows cancelled_row cancel_automation_job
    cancel_discovery perform positive is_blank safe_integer is_safe_integer quote units
    payload_equals ordered_entries array_index locale_json sort insert_sorted
machine = tt

abbrev start : Db
start = record { jobs = []; runs = []; discovery_runs = []; audit_logs = [] }

abbrev wanted : CreateInput
wanted = record {
  user_id = "u1";
  application_id = none;
  automation_run_id = none;
  type = "SUBMIT_APPLICATION";
  priority = none;
  payload = null;
  payload_version = none;
  max_attempts = some (nat 2);
  available_at = none;
  correlation_id = "c1";
  idempotency_key = "k1";
}

abbrev made : AutomationJob
made = record {
  id = "j1";
  user_id = "u1";
  application_id = none;
  automation_run_id = none;
  type = "SUBMIT_APPLICATION";
  status = available;
  priority = pos 0;
  payload = null;
  payload_version = 1;
  attempt_count = 0;
  max_attempts = 2;
  delivery_generation = 1;
  available_at = 10;
  requested_available_at = none;
  lease_owner = none;
  lease_expires_at = none;
  correlation_id = "c1";
  idempotency_key = "k1";
  replay_of_id = none;
  last_error = none;
  cancelled_at = none;
  completed_at = none;
  created_at = 10;
  updated_at = 10;
}

abbrev with_job : AutomationJob → Db
with_job job = record start { jobs = job ∷ [] }

abbrev running_job : AutomationJob
running_job = record made {
  status = leased;
  attempt_count = 1;
  lease_owner = some "w1";
  lease_expires_at = some 30020;
  updated_at = 20;
}

abbrev dead_job : AutomationJob
dead_job = record made {
  status = dead_letter;
  attempt_count = 2;
  last_error = some "timeout";
  completed_at = some 50;
}

abbrev ask : String → ClaimInput
ask worker = record { worker_id = worker; limit = none; lease_ms = none; now = none }

abbrev message : ℕ → LeaseInput
message generation = record {
  job_id = "j1";
  worker_id = "w2";
  now = none;
  lease_ms = none;
  expected_attempt = none;
  delivery_generation = some (nat generation);
}

abbrev owner : OwnedInput
owner = record { job_id = "j1"; worker_id = "w1"; now = none }

abbrev failure : FailInput
failure = record {
  owned = owner;
  error = "timeout";
  retry_delay_ms = none;
  provider_retry_after_ms = some (nat 5000);
}

abbrev reissue : String → ReplayInput
reissue correlation_id = record {
  job_id = "j1";
  user_id = "u1";
  reason = "network was down";
  correlation_id = correlation_id;
  max_attempts = none;
}

abbrev alone : Db → Db
alone db = db

abbrev same_text : String → String
same_text s = s

abbrev any_order : String → String → Bool
any_order a b = true

abbrev unlocked : AutomationJob → Bool
unlocked job = false

-- Keys in the order of a locale that takes all as equal, and a column that keeps a payload as it is.
abbrev plain : JsonRules
plain = record { locale_le = any_order; stored = λ json. json }

abbrev world : Surroundings
world = record {
  rules = plain;
  text_le = any_order;
  safe_error_message = same_text;
  cut = same_text;
  others = alone;
  others' = alone;
}

abbrev waiting_again : AutomationJob
waiting_again = record running_job {
  status = available;
  lease_owner = none;
  lease_expires_at = none;
  last_error = some "timeout";
  available_at = 5030;
  updated_at = 30;
}

run_tests :
    (create_in_transaction plain "j1" 10 wanted start ≡ ok ((made, false), with_job made))
    × (claim_automation_jobs any_order unlocked 20 (ask "w1") (with_job made)
        ≡ ok (running_job ∷ [], with_job running_job))
    × (claim_automation_jobs any_order unlocked 30 (ask "w2") (with_job running_job)
        ≡ ok ([], with_job running_job))
    × (fail_automation_job same_text alone alone 30 failure (with_job running_job)
        ≡ (ok waiting_again, with_job waiting_again))
    × ((complete_automation_job alone alone 30020 owner (with_job running_job)).0 ≡ err lease_lost)
    × ((replay_dead_letter same_text "j2" 60 (reissue "c2") (with_job made)).0 ≡ err terminal)
unfolding machine
run_tests = (refl, refl, refl, refl, refl, refl)

running_job-IsWellFormed : IsWellFormed running_job
running_job-IsWellFormed = record {
  owned = refl;
  timed = refl;
  within = omega arith;
  budgeted = (omega arith, omega arith);
  started = λ e. omega arith;
  fenced = omega arith;
  stopped = refl;
  ended = refl;
}

dead_job-IsWellFormed : IsWellFormed dead_job
dead_job-IsWellFormed = record {
  owned = refl;
  timed = refl;
  within = omega arith;
  budgeted = (omega arith, omega arith);
  started = λ e. cc;
  fenced = omega arith;
  stopped = refl;
  ended = refl;
}

running-IsSound : IsSound (with_job running_job)
running-IsSound = ((running_job-IsWellFormed, tt), (refl, tt))

dead-IsSound : IsSound (with_job dead_job)
dead-IsSound = ((dead_job-IsWellFormed, tt), (refl, tt))

perform-IsSound_example : IsSound (perform world (fail 30 failure) (with_job running_job))
perform-IsSound_example =
    perform-IsSound world (fail 30 failure) (with_job running_job) (λ db s. s) (λ db s. s)
      running-IsSound

finished_stays_example :
    Memᴰ dead_job (perform world (claim unlocked 60 (ask "w1")) (with_job dead_job)).jobs
finished_stays_example =
    finished_stays world (claim unlocked 60 (ask "w1")) (with_job dead_job) dead_job (λ s m. m)
      (λ s m. m) dead-IsSound (Memᴰ.head refl) refl

held_survives_example :
    Memᴰ running_job (perform world (claim unlocked 30 (ask "w2")) (with_job running_job)).jobs
held_survives_example =
    held_survives world (claim unlocked 30 (ask "w2")) (with_job running_job) "w1" 30 running_job
      (claims unlocked 30 (ask "w2") refl) running-IsSound (Memᴰ.head refl) refl

first_run : create_in_transaction plain "j1" 10 wanted start ≡ ok ((made, false), with_job made)
first_run = run_tests.0

create_again_example :
    create_in_transaction plain "j2" 11 wanted (with_job made) ≡ ok ((made, true), with_job made)
create_again_example =
    create_again plain "j1" "j2" 10 11 wanted start (with_job made) (made, false) refl first_run

-- A payload of two keys which the locale takes as equal and which the column turns round: sent again, the
-- creation is refused.
abbrev turned : Json → Json
turned (obj (field a v (field b w end))) = obj (field b w (field a v end))
turned json = json

abbrev turning : JsonRules
turning = record { locale_le = any_order; stored = turned }

abbrev tied : CreateInput
tied = record wanted { payload = obj (field "a" (bool true) (field "b" (bool false) end)) }

abbrev db_of : Result JobError ((AutomationJob × Bool) × Db) → Db
db_of (ok r) = r.1
db_of (err e) = start

tied_keys :
    create_in_transaction turning "j2" 11 tied
      (db_of (create_in_transaction turning "j1" 10 tied start))
    ≡ err idempotency_conflict
unfolding machine
tied_keys = refl

abbrev taken : AutomationJob
taken = record made {
  status = leased;
  attempt_count = 1;
  lease_owner = some "w2";
  lease_expires_at = some 30020;
  updated_at = 20;
}

taken_run : lease_automation_job 20 (message 1) (with_job made) ≡ ok (some taken, with_job taken)
unfolding machine
taken_run = refl

lease_gives_example : Leased 20 (message 1) (with_job made) (with_job taken) taken
lease_gives_example = lease_gives 20 (message 1) (with_job made) (with_job taken) taken taken_run

abbrev Claimed : Type 0
Claimed =
    (limit : ℕ) × (now : ℕ) × (positive_integer (nat 10) ≡ ok limit)
    × (at 20 ≡ at now)
    × (length (running_job ∷ []) ≤ limit)
    × ((job : AutomationJob)
        → Memᴰ job (running_job ∷ [])
        → IsClaimed unlocked "w1" now (with_job made) (with_job running_job) job)

claim_run :
    claim_automation_jobs any_order unlocked 20 (ask "w1") (with_job made)
    ≡ ok (running_job ∷ [], with_job running_job)
unfolding machine
claim_run = refl

claim_gives_example : Claimed
claim_gives_example =
    claim_gives any_order unlocked 20 (ask "w1") (with_job made) (with_job running_job)
      (running_job ∷ []) claim_run

abbrev recovered : AutomationJob
recovered = record running_job {
  status = available;
  delivery_generation = 2;
  available_at = 40000;
  lease_owner = none;
  lease_expires_at = none;
  last_error = some "Worker lease expired before completion";
  updated_at = 40000;
}

sweep_run :
    reconcile_expired_leases (at 40000) (with_job running_job) ≡ ok ((1, 0), with_job recovered)
unfolding machine
sweep_run = refl

late_run :
    lease_automation_job 40001 (message 1) (with_job recovered) ≡ ok (none, with_job recovered)
unfolding machine
late_run = refl

abbrev late : Option AutomationJob
late = none

recovery_fences_example : late ≡ none
recovery_fences_example =
    recovery_fences 40000 (with_job running_job) (with_job recovered) (with_job recovered) (1, 0)
      running_job 40001 (message 1) late running-IsSound (Memᴰ.head refl) refl sweep_run refl refl
      late_run

failure_run :
    fail_automation_job same_text alone alone 30 failure (with_job running_job)
    ≡ (ok waiting_again, with_job waiting_again)
unfolding machine
failure_run = refl

failure_outcome_example : Failed alone 30 failure "timeout" (with_job running_job) waiting_again
failure_outcome_example =
    failure_outcome same_text alone 30 failure (with_job running_job) (with_job waiting_again)
      waiting_again (refl, tt) failure_run

abbrev reissued : AutomationJob
reissued = record made {
  id = "j2";
  max_attempts = 3;
  available_at = 60;
  correlation_id = "c2";
  idempotency_key = "replay:j1:c2";
  replay_of_id = some "j1";
  created_at = 60;
  updated_at = 60;
}

abbrev after_replay : Db
after_replay = (replay_dead_letter same_text "j2" 60 (reissue "c2") (with_job dead_job)).1

replay_run :
    replay_in_tenant same_text "j2" 60 (reissue "c2") (with_job dead_job)
    ≡ ok (reissued, after_replay)
unfolding machine
replay_run = refl

replay_once_example :
    ¬ (replay_in_tenant same_text "j3" 70 (reissue "c3") after_replay ≡ ok (reissued, after_replay))
replay_once_example =
    replay_once same_text "j2" "j3" 60 70 (reissue "c2") (reissue "c3") (with_job dead_job)
      after_replay after_replay reissued reissued replay_run refl refl
