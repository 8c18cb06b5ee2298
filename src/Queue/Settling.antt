-- ===== src/Queue/Settling.antt =====
-- How a delivery ends.
use jaa.Prelude.{
  ℕ, zero, suc, ◌+◌, ◌≤◌, ◌<◌, Option, some, List, [], ◌∷◌, ◌≡◌, refl, ap, sym, ◌∙◌, ◌⊎◌, inl, inr,
  arith, ◌++◌, nat, positive, max_safe_integer, Result, ok, err, Result-cases,
}
use mathlib.Core.Path.{subst}
use jaa.Queue.Envelope.{AutomationQueueMessage, queue_job_id}
use jaa.Queue.Delay.{max_retry_delay_ms, retry_jitter, retry_delay_ms, delay_of}
use jaa.Queue.Bounds.{retry_delay_ms_lem}
use jaa.Queue.Worker.{
  Outcome, executed, skipped, Disposition, retry, dead_letter, ignored, Handlers, Step, completing,
  failing, dead_lettering, dead_letter_id, after_failure_handler, caught_with, caught,
  completed_with, processed_with, process_delivery,
}

positive_of_nat : (n : ℕ) → 1 ≤ n → n ≤ max_safe_integer → positive (nat n) ≡ some n
unfolding positive
positive_of_nat zero h k = absurd (omega arith)
positive_of_nat (suc n) h k = ground arith

-- The delay of a delivery's failure exists.
delay_exists :
    (made jitter : ℕ)
    → made < max_safe_integer
    → (d : ℕ) × (retry_delay_ms (nat (made + 1)) (nat 1000) (some jitter) ≡ some d)
unfolding retry_delay_ms
delay_exists made jitter h = (
  delay_of (made + 1) 1000 (some jitter),
  rw
      (
        positive_of_nat (made + 1) (omega arith) (omega arith),
        positive_of_nat 1000 (omega arith) (omega arith),
      )
      refl,
)

module _ {E : Type 0} where
  module _ (handlers : Handlers E) (message : AutomationQueueMessage) (made : ℕ)
      (bad_delay : E) where
    -- The job was added to the dead letter queue under the delivery's id.
    abbrev pub Added : List (Step E) → Type 0
    Added steps = steps ≡ dead_lettering (queue_job_id message.automation_job_id (made + 1)) ∷ []

    -- What BullMQ gets and what the dead letter queue gets for an error, by what `onFailure` made of it:
    -- to fail, to retry, to bury and to skip.
    pub data IsJudged (error : E) (result : Result E (Option Outcome)) (steps : List (Step E))
        : Result E Disposition → Type 0 where
      threw : (e : E) → result ≡ err e → steps ≡ [] → IsJudged error result steps (err e)
      retried : result ≡ err error → steps ≡ [] → IsJudged error result steps (ok retry)
      dropped : result ≡ ok (some skipped) → steps ≡ [] → IsJudged error result steps (ok ignored)
      buried :
          handlers.add_dead_letter message (queue_job_id message.automation_job_id (made + 1))
            ≡ ok tt
          → handlers.log_dead_letter message error ≡ ok tt
          → result ≡ ok (some executed)
          → Added steps
          → IsJudged error result steps (ok dead_letter)
      not_added :
          (e : E)
          → handlers.add_dead_letter message (queue_job_id message.automation_job_id (made + 1))
            ≡ err e
          → result ≡ err e
          → steps ≡ []
          → IsJudged error result steps (ok dead_letter)
      not_logged :
          (e : E)
          → handlers.add_dead_letter message (queue_job_id message.automation_job_id (made + 1))
            ≡ ok tt
          → handlers.log_dead_letter message error ≡ err e
          → result ≡ err e
          → Added steps
          → IsJudged error result steps (ok dead_letter)

    -- The delivery failed with an error, after the steps `before`.
    abbrev pub IsFailed : E → List (Step E) → Result E (Option Outcome) × List (Step E) → Type 0
    IsFailed error before end =
        (delay : ℕ) × (1 ≤ delay)
        × (delay ≤ max_retry_delay_ms)
        × (steps : List (Step E)) × (end.1 ≡ before ++ (failing error delay ∷ steps))
        × IsJudged error end.0 steps (handlers.on_failure message error delay)

    after_failure_handler_lem :
        (error : E) (r : Result E Disposition)
        → IsJudged error
            (after_failure_handler handlers message made error r).0
            (after_failure_handler handlers message made error r).1
            r
    after_failure_handler_lem error (err e) = threw e refl refl
    after_failure_handler_lem error (ok retry) = retried refl refl
    after_failure_handler_lem error (ok ignored) = dropped refl refl
    after_failure_handler_lem error (ok dead_letter) =
        elim (Result-cases (handlers.add_dead_letter message (dead_letter_id message made))) [
          | inr (e, failed) ↦ rw failed (not_added e failed refl refl)
          | inl (done, added) ↦ elim (Result-cases (handlers.log_dead_letter message error)) [
            | inr (e, failed) ↦ rw added (rw failed (not_logged e added failed refl refl))
            | inl (logged, kept) ↦ rw added (rw kept (buried added kept refl refl))
          ]
        ]

    -- A delivery's end after the delay was found.
    caught_with-IsFailed :
        (error : E) (d : ℕ)
        → 1 ≤ d
        → d ≤ max_retry_delay_ms
        → IsFailed error [] (caught_with handlers message made bad_delay error (some d))
    caught_with-IsFailed error d low high = (
      d,
      low,
      high,
      (after_failure_handler handlers message made error (handlers.on_failure message error d)).1,
      refl,
      after_failure_handler_lem error (handlers.on_failure message error d),
    )

    caught-IsFailed :
        (error : E)
        → made < max_safe_integer
        → IsFailed error [] (caught handlers message made bad_delay error)
    unfolding caught
    caught-IsFailed error h =
        let (d, e) = delay_exists made (retry_jitter message.automation_job_id (made + 1)) h in
        let bounds =
          retry_delay_ms_lem (made + 1) (made + 1) 1000 d d
            (some (retry_jitter message.automation_job_id (made + 1))) (omega arith) e e in
        subst (λ o. IsFailed error [] (caught_with handlers message made bad_delay error o)) (sym e)
          (caught_with-IsFailed error d bounds.0 bounds.1)

    -- The call of `onComplete` stands before.
    completing-IsFailed :
        (result : Option Outcome) (error : E) (r : Result E (Option Outcome) × List (Step E))
        → IsFailed error [] r
        → IsFailed error (completing result ∷ []) (r.0, completing result ∷ r.1)
    completing-IsFailed result error r (d, low, high, steps, end, judged) =
        (d, low, high, steps, ap (λ l. completing result ∷ l) end, judged)

    -- Every delivery of a job that did not fail 2^53 times before settles: the processor and `onComplete`
    -- return, and the result is the processor's; or one of them throws, and `onFailure` is called once, with a
    -- delay from 1 ms to a day: BullMQ then gets the error if the answer is to retry, what `onFailure`, the
    -- adding to the dead letter queue or the log threw if one of these throws, and no error otherwise; the
    -- job is added to the dead letter queue exactly if that is the answer and the adding returns.
    pub process_delivery-settles :
        made < max_safe_integer
        → ((result : Option Outcome) × (handlers.processor message ≡ ok result)
            × (handlers.on_complete message result ≡ ok tt)
            × (process_delivery handlers message made bad_delay
                ≡ (ok result, completing result ∷ [])))
          ⊎ ((error : E) × (handlers.processor message ≡ err error)
              × IsFailed error [] (process_delivery handlers message made bad_delay))
          ⊎ ((result : Option Outcome) × (error : E) × (handlers.processor message ≡ ok result)
              × (handlers.on_complete message result ≡ err error)
              × IsFailed error
                  (completing result ∷ [])
                  (process_delivery handlers message made bad_delay))
    unfolding process_delivery
    process_delivery-settles h = elim (Result-cases (handlers.processor message)) [
      | inr (error, e) ↦ inr (
          inl (
            error,
            e,
            subst (IsFailed error []) (sym (ap (processed_with handlers message made bad_delay) e))
                (caught-IsFailed error h),
          ))
      | inl (result, e) ↦ elim (Result-cases (handlers.on_complete message result)) [
        | inl (done, k) ↦ inl (
          result,
          e,
          k,
          ap (processed_with handlers message made bad_delay) e
              ∙ ap (completed_with handlers message made bad_delay result) k,
        )
        | inr (error, k) ↦
            let end =
              completing-IsFailed result error (caught handlers message made bad_delay error)
                (caught-IsFailed error h) in
            let same =
              ap (processed_with handlers message made bad_delay) e
              ∙ ap (completed_with handlers message made bad_delay result) k in
            inr (
              inr (
                result,
                error,
                e,
                k,
                subst (IsFailed error (completing result ∷ [])) (sym same) end,
              ))
      ]
    ]
