-- ===== src/Dispatch/Tests.antt =====
-- Dispatching at concrete values, and each theorem at a concrete input.
use mathlib.Core.List.{Memᴰ}
use jaa.Prelude.{
  ◌+◌, ◌≤◌, Bool, true, false, String, none, some, [], ◌∷◌, ◌≡◌, refl, nat, pos, ok, length,
  positive, is_blank, safe_integer, is_safe_integer, is_space,
}
use jaa.Prelude.Units.{units, radix_digits, is_identifier}
use jaa.Json.Value.{null}
use jaa.Automation.Jobs.{available, AutomationJob, Db}
use jaa.Automation.Leasing.{ordered, insert_ordered, precedes, lease_automation_job}
use jaa.Queue.Names.{maintenance, queue_for_job_type, bull_priority}
use jaa.Queue.Envelope.{Added, added, enqueue, queue_job_id, validate_enqueue_automation_job_input}
use jaa.Dispatch.Loop.{
  Dispatch, select_dispatchable, is_dispatchable, dispatch_available_at, dispatch_input,
  dispatch_one, dispatch_all, dispatch_automation_jobs,
}
use jaa.Dispatch.Counts.{dispatch-Counts}
use jaa.Dispatch.Leases.{HasRuns, IsLeasedFor, lease_of, dispatched_leases}

machine : Unit {0}
unfolding ordered insert_ordered precedes queue_for_job_type bull_priority added enqueue
    queue_job_id validate_enqueue_automation_job_input select_dispatchable is_dispatchable
    dispatch_available_at dispatch_input dispatch_one dispatch_all dispatch_automation_jobs positive
    is_blank safe_integer is_safe_integer is_space radix_digits is_identifier
machine = tt

abbrev waiting_job : AutomationJob
waiting_job = record {
  id = "j1";
  user_id = "u1";
  application_id = none;
  automation_run_id = none;
  type = "OUTBOX_SWEEP";
  status = available;
  priority = pos 3;
  payload = null;
  payload_version = 1;
  attempt_count = 1;
  max_attempts = 3;
  delivery_generation = 2;
  available_at = 10;
  requested_available_at = none;
  lease_owner = none;
  lease_expires_at = none;
  correlation_id = "c1";
  idempotency_key = "k1";
  replay_of_id = none;
  last_error = none;
  cancelled_at = none;
  completed_at = none;
  created_at = 10;
  updated_at = 10;
}

-- The second job's identifier is refused, and the third has no attempts left.
abbrev table : Db
table = record {
  jobs =
      waiting_job
      ∷ record waiting_job { id = "j 2"; priority = pos 9 }
      ∷ record waiting_job { id = "j3"; attempt_count = 3 }
      ∷ [];
  runs = [];
  discovery_runs = [];
  audit_logs = [];
}

abbrev le : String → String → Bool
le a b = true

abbrev same : String → String
same s = s

abbrev all_accepted : Added → Bool
all_accepted x = true

abbrev sent : Added
sent = record {
  queue = maintenance;
  name = "OUTBOX_SWEEP";
  message = record {
    automation_job_id = "j1";
    type = "OUTBOX_SWEEP";
    correlation_id = "c1";
    payload_version = 1;
    delivery_generation = 2;
    dispatch_attempt = 2;
  };
  job_id = units "j1-2";
  priority = 999998;
  delay = 0;
  attempts = 2;
}

abbrev done : Dispatch
done = record {
  dispatched = 1;
  failed = 1;
  added = sent ∷ [];
  audits = record { user_id = "u1"; resource_id = "j 2"; correlation_id = "c1" } ∷ [];
}

dispatched :
    dispatch_automation_jobs le same all_accepted 20 20 (some (nat 5)) none table.runs table.jobs []
    ≡ some (2, done)
unfolding machine
dispatched = refl

bad_batch :
    dispatch_automation_jobs le same all_accepted 20 20 (some (nat 0)) none table.runs table.jobs []
    ≡ none
unfolding machine
bad_batch = refl

dispatch-Counts_example :
    (2 ≤ 5)
    × (done.dispatched + done.failed ≡ 2)
    × (length done.audits ≡ done.failed)
    × (length done.added ≡ length {A = Added} [] + done.dispatched)
dispatch-Counts_example =
    dispatch-Counts same all_accepted 20 le 20 5 none table.runs table.jobs [] {selected = 2}
      {d = done} dispatched

nothing_before : ¬ Memᴰ sent []
nothing_before m = elim m [ ]

table-HasRuns : HasRuns table
table-HasRuns job id (Memᴰ.head e) run = cc (e, run)
table-HasRuns job id (Memᴰ.tail (Memᴰ.head e)) run = cc (e, run)
table-HasRuns job id (Memᴰ.tail (Memᴰ.tail (Memᴰ.head e))) run = cc (e, run)
table-HasRuns job id (Memᴰ.tail (Memᴰ.tail (Memᴰ.tail m))) run = elim m [ ]

worker_awake : is_blank "w1" ≡ false
unfolding is_blank
worker_awake = refl

dispatched_leases_example :
    (leased : AutomationJob) × (db' : Db) × (lease_automation_job 20
        (lease_of sent.message "w1" 20)
        table
      ≡ ok (some leased, db'))
    × IsLeasedFor sent leased
dispatched_leases_example =
    dispatched_leases le same all_accepted 20 20 20 (some (nat 5)) none table [] "w1" sent
      {selected = 2} {d = done} dispatched (Memᴰ.head refl) nothing_before table-HasRuns
      worker_awake
