-- ===== src/Queue/Worker.antt =====
-- The processing of one delivery and the back-off of packages/queue/src/worker.ts. The handlers are
-- arguments, each with its answer or a thrown error, and so are the calls of `deadLetterQueue.add` and `job.log`;
-- timers are left out.
use jaa.Prelude.{
  ℕ, ◌+◌, Bool, Option, none, some, List, [], ◌∷◌, nat, Result, ok, err, if◌then◌else◌,
}
use jaa.Prelude.Units.{Units}
use jaa.Queue.Envelope.{AutomationQueueMessage, queue_job_id}
use jaa.Queue.Delay.{retry_jitter, retry_delay_ms}

pub data Outcome : Type 0 where
  executed skipped : Outcome

pub data Disposition : Type 0 where
  retry dead_letter ignored : Disposition

pub record Handlers (E : Type 0) : Type 0 where
  pub processor : AutomationQueueMessage → Result E (Option Outcome)
  pub on_complete : AutomationQueueMessage → Option Outcome → Result E (Unit {0})
  pub on_failure : AutomationQueueMessage → E → ℕ → Result E Disposition
  pub add_dead_letter : AutomationQueueMessage → Units → Result E (Unit {0})
  pub log_dead_letter : AutomationQueueMessage → E → Result E (Unit {0})

-- What a delivery did: the calls of `onComplete` and `onFailure`, and the job that was added to the dead
-- letter queue.
pub data Step (E : Type 0) : Type 0 where
  completing : Option Outcome → Step E
  failing : E → ℕ → Step E
  dead_lettering : Units → Step E

abbrev pub dead_letter_id : AutomationQueueMessage → ℕ → Units
dead_letter_id message made = queue_job_id message.automation_job_id (made + 1)

module _ {E : Type 0} where
  -- `deadLetter`, and the answer after it: what `add` and `log` give.
  abbrev pub dead_letter_with :
      Units → Result E (Unit {0}) → Result E (Unit {0}) → Result E (Option Outcome) × List (Step E)
  dead_letter_with job_id (err e) logged = (err e, [])
  dead_letter_with job_id (ok done) (err e) = (err e, dead_lettering job_id ∷ [])
  dead_letter_with job_id (ok done) (ok logged) = (ok (some executed), dead_lettering job_id ∷ [])

  abbrev pub after_failure_handler :
      Handlers E
      → AutomationQueueMessage
      → ℕ
      → E
      → Result E Disposition
      → Result E (Option Outcome) × List (Step E)
  after_failure_handler handlers message made error (err e) = (err e, [])
  after_failure_handler handlers message made error (ok dead_letter) =
      dead_letter_with (dead_letter_id message made)
        (handlers.add_dead_letter message (dead_letter_id message made))
        (handlers.log_dead_letter message error)
  after_failure_handler handlers message made error (ok retry) = (err error, [])
  after_failure_handler handlers message made error (ok ignored) = (ok (some skipped), [])

  -- The `catch` block, with what `retryDelayMs` gives; `bad_delay` is the error that it throws.
  abbrev pub caught_with :
      Handlers E
      → AutomationQueueMessage
      → ℕ
      → E
      → E
      → Option ℕ
      → Result E (Option Outcome) × List (Step E)
  caught_with handlers message made bad_delay error none = (err bad_delay, [])
  caught_with handlers message made bad_delay error (some delay) =
      let rest =
        after_failure_handler handlers message made error
          (handlers.on_failure message error delay) in
      (rest.0, failing error delay ∷ rest.1)

  unfoldable pub caught :
      Handlers E → AutomationQueueMessage → ℕ → E → E → Result E (Option Outcome) × List (Step E)
  caught handlers message made bad_delay error = caught_with handlers message made bad_delay error (
      retry_delay_ms (nat (made + 1)) (nat 1000)
        (some (retry_jitter message.automation_job_id (made + 1))))

  abbrev pub completed_with :
      Handlers E
      → AutomationQueueMessage
      → ℕ
      → E
      → Option Outcome
      → Result E (Unit {0})
      → Result E (Option Outcome) × List (Step E)
  completed_with handlers message made bad_delay result (ok done) =
      (ok result, completing result ∷ [])
  completed_with handlers message made bad_delay result (err e) =
      let rest = caught handlers message made bad_delay e in (rest.0, completing result ∷ rest.1)

  abbrev pub processed_with :
      Handlers E
      → AutomationQueueMessage
      → ℕ
      → E
      → Result E (Option Outcome)
      → Result E (Option Outcome) × List (Step E)
  processed_with handlers message made bad_delay (err e) = caught handlers message made bad_delay e
  processed_with handlers message made bad_delay (ok result) =
      completed_with handlers message made bad_delay result (handlers.on_complete message result)

  -- The result of a delivery, or the error that BullMQ sees, with the steps; `made` is `attemptsMade`.
  unfoldable pub process_delivery :
      Handlers E → AutomationQueueMessage → ℕ → E → Result E (Option Outcome) × List (Step E)
  process_delivery handlers message made bad_delay =
      processed_with handlers message made bad_delay (handlers.processor message)

-- `backoffStrategy`: none stands for -1, no retry; else the message for the next attempt, and the delay.
abbrev pub next_message : AutomationQueueMessage → AutomationQueueMessage
next_message message = record message { dispatch_attempt = message.dispatch_attempt + 1 }

unfoldable pub backoff :
    (AutomationQueueMessage → Bool)
    → ℕ
    → AutomationQueueMessage
    → Option (AutomationQueueMessage × Option ℕ)
backoff should_retry attempts_made message =
    if should_retry message
    then some (
      next_message message,
      retry_delay_ms (nat attempts_made) (nat 1000)
          (some (retry_jitter message.automation_job_id attempts_made)),
    )
    else none
