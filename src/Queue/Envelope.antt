-- ===== src/Queue/Envelope.antt =====
-- packages/queue/src/registry.ts: the envelope of a job, its checks, and what is handed to BullMQ. `none`
-- is a thrown error.
use jaa.Prelude.{
  ℕ, ◌-◌, ◌==◌, String, Bool, not, ◌&&◌, Option, some, List, ◌∷◌, ◌++◌, any, keep, ℤ, Number,
  positive, safe_integer, Date, time_of,
}
use jaa.Prelude.Units.{Units, units, same_units, trim, to_radix, is_identifier}
use jaa.Prelude.Options.{◌>>=◌, ◌>>◌, require}
use jaa.Queue.Names.{
  QueueName, discovery, analysis, documents, applications, notifications, maintenance,
  queue_for_job_type, bull_priority,
}

pub record AutomationQueueMessage : Type 0 where
  pub automation_job_id : String
  pub type : String
  pub correlation_id : String
  pub payload_version : ℕ
  pub delivery_generation : ℕ
  pub dispatch_attempt : ℕ

pub record EnqueueAutomationJobInput : Type 0 where
  pub automation_job_id : String
  pub type : String
  pub correlation_id : String
  pub payload_version : Number
  pub delivery_generation : Number
  pub dispatch_attempt : Number
  pub priority : Number
  pub available_at : Date
  pub max_attempts : Number

-- The values of an input that passes the checks.
pub record Envelope : Type 0 where
  pub message : AutomationQueueMessage
  pub priority : ℤ
  pub available_at : ℕ
  pub max_attempts : ℕ

abbrev pub is_safe_queue_text : String → Bool
is_safe_queue_text value = is_identifier (trim (units value))

unfoldable pub validate_enqueue_automation_job_input : EnqueueAutomationJobInput → Option Envelope
validate_enqueue_automation_job_input input = do
  require (is_safe_queue_text input.automation_job_id)
  require (is_safe_queue_text input.type)
  require (is_safe_queue_text input.correlation_id)
  payload_version ← positive input.payload_version
  delivery_generation ← positive input.delivery_generation
  dispatch_attempt ← positive input.dispatch_attempt
  max_attempts ← positive input.max_attempts
  priority ← safe_integer input.priority
  available_at ← time_of input.available_at
  let message : AutomationQueueMessage = record {
    automation_job_id = input.automation_job_id;
    type = input.type;
    correlation_id = input.correlation_id;
    payload_version = payload_version;
    delivery_generation = delivery_generation;
    dispatch_attempt = dispatch_attempt;
  }
  some (record {
    message = message;
    priority = priority;
    available_at = available_at;
    max_attempts = max_attempts;
  })

unfoldable pub queue_job_id : String → ℕ → Units
queue_job_id automation_job_id dispatch_attempt =
    units automation_job_id ++ (45 ∷ to_radix 10 dispatch_attempt)

-- The arguments of `queue.add`.
pub record Added : Type 0 where
  pub queue : QueueName
  pub name : String
  pub message : AutomationQueueMessage
  pub job_id : Units
  pub priority : ℕ
  pub delay : ℕ
  pub attempts : ℕ

-- `add` with what the envelope says, at the time `clock`; subtraction stops at 0.
unfoldable pub added : (String → String) → ℕ → Envelope → Added
added normalize clock envelope = record {
  queue = queue_for_job_type normalize envelope.message.type;
  name = envelope.message.type;
  message = envelope.message;
  job_id = queue_job_id envelope.message.automation_job_id envelope.message.dispatch_attempt;
  priority = bull_priority envelope.priority;
  delay = envelope.available_at - clock;
  attempts = envelope.max_attempts;
}

-- `enqueue`: `accepts` says whether BullMQ's `add` resolves; the list is a log of what it resolved for,
-- the last first. BullMQ itself ignores an id that it has.
unfoldable pub enqueue :
    (String → String)
    → (Added → Bool)
    → ℕ
    → EnqueueAutomationJobInput
    → List Added
    → Option (List Added)
enqueue normalize accepts clock input jobs = do
  envelope ← validate_enqueue_automation_job_input input
  require (accepts (added normalize clock envelope))
  some (added normalize clock envelope ∷ jobs)

abbrev pub queue_number : QueueName → ℕ
queue_number discovery = 0
queue_number analysis = 1
queue_number documents = 2
queue_number applications = 3
queue_number notifications = 4
queue_number maintenance = 5

-- `getJob` of a queue.
abbrev pub is_job : QueueName → Units → Added → Bool
is_job queue job_id job =
    queue_number job.queue == queue_number queue && same_units job.job_id job_id

-- `remove`: whether the queue of the type has a job under the id, and the jobs without it.
unfoldable pub remove :
    (String → String) → (automation_job_id type : String) → ℕ → List Added → Bool × List Added
remove normalize automation_job_id type dispatch_attempt jobs =
    let is_it =
      is_job (queue_for_job_type normalize type)
        (queue_job_id automation_job_id dispatch_attempt) in
    (any is_it jobs, keep (λ job. not (is_it job)) jobs)
