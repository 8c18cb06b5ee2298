-- ===== src/Queue/Tests.antt =====
-- The routing and the priorities at concrete values, and each theorem at a concrete input.
use jaa.Prelude.{
  ℕ, ◌+◌, ◌*◌, Option, none, some, nat, positive, [], ◌∷◌, ◌⊎◌, arith, ok, err, ◌≤◌, String, ◌≡◌,
  refl, ◌↔◌, true, false, pos, negsuc, includes,
}
use jaa.Queue.Names.{analysis, maintenance, queue_for_job_type, handled_job_types, bull_priority}
use jaa.Prelude.Units.{units, radix_digits}
use jaa.Queue.Envelope.{AutomationQueueMessage, Added, queue_job_id, remove}
use jaa.Queue.Delay.{hash_units, retry_jitter, retry_delay_ms, scaled, exponential}
use jaa.Queue.Worker.{
  Outcome, executed, dead_letter, Handlers, completing, caught, process_delivery,
}
use jaa.Queue.Bounds.{retry_delay_ms_lem}
use jaa.Queue.Settling.{IsFailed, process_delivery-settles}
use jaa.Queue.Routing.{maintenance_iff}

abbrev same : String → String
same s = s

queue_tests :
    (queue_for_job_type same "TAILOR_RESUME" ≡ analysis)
    × (queue_for_job_type same "OUTBOX_SWEEP" ≡ maintenance)
    × (bull_priority (pos 0) ≡ 1000001)
    × (bull_priority (pos 5000000) ≡ 1)
    × (bull_priority (negsuc 4999999) ≡ 2000001)
unfolding queue_for_job_type bull_priority
queue_tests = (refl, refl, refl, refl, refl)

maintenance_iff_example :
    (queue_for_job_type same "OUTBOX_SWEEP" ≡ maintenance)
    ↔ (includes handled_job_types "OUTBOX_SWEEP" ≡ false)
maintenance_iff_example = maintenance_iff same "OUTBOX_SWEEP"

abbrev half : Option ℕ
half = some 4294967295

first_delay : retry_delay_ms (nat 1) (nat 1000) half ≡ some 1000
unfolding retry_delay_ms scaled exponential positive
first_delay = refl

third_delay : retry_delay_ms (nat 3) (nat 1000) half ≡ some 4000
unfolding retry_delay_ms scaled exponential positive
third_delay = refl

-- The hash of "a:1", and a delay that is capped.
delay_tests :
    (retry_jitter "a" 1 ≡ 2 * 3686612585)
    × (retry_delay_ms (nat 40) (nat 1000) half ≡ some 86400000)
    × (retry_delay_ms (nat 0) (nat 1000) half ≡ none)
    × (queue_job_id "job" 12 ≡ units "job-12")
unfolding retry_jitter hash_units radix_digits retry_delay_ms scaled exponential positive
    queue_job_id
delay_tests = (refl, refl, refl, refl)

retry_delay_ms_lem_example :
    (1 ≤ 1000)
    × (1000 ≤ 86400000)
    × (3 * exponential 1 1000 ≤ 4 * 1000 + 2)
    × (4 * 1000 ≤ 5 * exponential 1 1000 + 2)
    × (1000 ≤ 4000)
retry_delay_ms_lem_example =
    retry_delay_ms_lem 1 3 1000 1000 4000 half (omega arith) first_delay third_delay

-- The processor throws, and the job is given up.
abbrev giving_up : Handlers ℕ
giving_up = record {
  processor = λ message. err 7;
  on_complete = λ message result. ok tt;
  on_failure = λ message error delay. ok dead_letter;
  add_dead_letter = λ message job_id. ok tt;
  log_dead_letter = λ message error. ok tt;
}

abbrev message : AutomationQueueMessage
message = record {
  automation_job_id = "j1";
  type = "ANALYZE_JOB";
  correlation_id = "c1";
  payload_version = 1;
  delivery_generation = 1;
  dispatch_attempt = 1;
}

abbrev waiting : Added
waiting = record {
  queue = analysis;
  name = "ANALYZE_JOB";
  message = message;
  job_id = units "j1-1";
  priority = 1000001;
  delay = 0;
  attempts = 3;
}

remove_tests :
    (remove same "j1" "ANALYZE_JOB" 1 (waiting ∷ []) ≡ (true, []))
    × (remove same "j1" "ANALYZE_JOB" 2 (waiting ∷ []) ≡ (false, waiting ∷ []))
    × (remove same "j1" "OUTBOX_SWEEP" 1 (waiting ∷ []) ≡ (false, waiting ∷ []))
unfolding remove queue_job_id radix_digits queue_for_job_type
remove_tests = (refl, refl, refl)

given_up : (process_delivery giving_up message 0 9).0 ≡ ok (some executed)
unfolding process_delivery caught retry_delay_ms positive
given_up = refl

process_delivery-settles_example :
    ((result : Option Outcome) × (giving_up.processor message ≡ ok result)
      × (giving_up.on_complete message result ≡ ok tt)
      × (process_delivery giving_up message 0 9 ≡ (ok result, completing result ∷ [])))
    ⊎ ((error : ℕ) × (giving_up.processor message ≡ err error)
        × IsFailed giving_up message 0 9 error [] (process_delivery giving_up message 0 9))
    ⊎ ((result : Option Outcome) × (error : ℕ) × (giving_up.processor message ≡ ok result)
        × (giving_up.on_complete message result ≡ err error)
        × IsFailed giving_up message 0 9 error
            (completing result ∷ [])
            (process_delivery giving_up message 0 9))
process_delivery-settles_example = process_delivery-settles giving_up message 0 9 (omega arith)
