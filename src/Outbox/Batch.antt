-- ===== src/Outbox/Batch.antt =====
-- The options of a call, and `publishOutboxBatch` with them. `generated` is the name for a worker that gives
-- none.
use jaa.Prelude.{
  ℕ, Bool, String, Option, none, some, List, Number, nat, positive, Date, at, or_else, is_blank,
  if◌then◌else◌, Result,
}
use jaa.Outbox.Publisher.{
  OutboxEvent, OutboxEnvelope, PublishOptions, Publication, publish_configured,
}

-- The options of a call, with the defaults of the code.
pub record RawOptions : Type 0 where
  pub worker_id : Option String
  pub user_id : Option String
  pub batch_size : Option Number
  pub max_attempts : Option Number
  pub lease_ms : Option Number
  pub base_retry_ms : Option Number
  pub now : Option Date

abbrev configured :
    Option ℕ
    → Option ℕ
    → Option ℕ
    → Option ℕ
    → Date
    → String
    → Option String
    → Option PublishOptions
configured (some batch_size) (some max_attempts) (some lease_ms) (some base_retry_ms) (at now)
      worker user =
    if is_blank worker
    then none
    else some (record {
      worker_id = worker;
      user_id = user;
      batch_size = batch_size;
      max_attempts = max_attempts;
      lease_ms = lease_ms;
      base_retry_ms = base_retry_ms;
      now = now;
    })
configured _ _ _ _ _ worker user = none

-- The defaults, `validateOptions` and the check of the date; `none` where one throws.
unfoldable pub validate_options : String → ℕ → RawOptions → Option PublishOptions
validate_options generated clock raw =
    configured (positive (or_else raw.batch_size (nat 50)))
      (positive (or_else raw.max_attempts (nat 8))) (positive (or_else raw.lease_ms (nat 30000)))
      (positive (or_else raw.base_retry_ms (nat 1000))) (or_else raw.now (at clock))
      (or_else raw.worker_id generated) raw.user_id

module _ (takes_time : ℕ → Bool) (delivers : OutboxEnvelope → Result String (Unit {0}))
    (safe : String → String) (others : List OutboxEvent → List OutboxEvent) (clock : ℕ) where
  abbrev publish_if_valid :
      (String → String → Bool)
      → (OutboxEvent → Bool)
      → List OutboxEvent
      → Option PublishOptions
      → Publication
  publish_if_valid text_le locked events none = (none, events)
  publish_if_valid text_le locked events (some o) =
      publish_configured takes_time delivers safe others clock o text_le locked events

  -- The counts, none where it throws, and the table after the call.
  unfoldable pub publish_outbox_batch :
      String
      → RawOptions
      → (String → String → Bool)
      → (OutboxEvent → Bool)
      → List OutboxEvent
      → Publication
  publish_outbox_batch generated raw text_le locked events =
      publish_if_valid text_le locked events (validate_options generated clock raw)
