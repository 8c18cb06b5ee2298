-- ===== src/Outbox/Settling.antt =====
-- A call of `publishOutboxBatch` with its options.
use mathlib.Core.List.{Memᴰ}
use jaa.Prelude.{ℕ, ◌≤◌, Bool, false, ◌≡◌, String, Option-cases, inl, inr, some, List, Result}
use jaa.Outbox.Publisher.{OutboxEvent, OutboxEnvelope, PublishOptions, PublishResult, is_open}
use jaa.Outbox.Batch.{RawOptions, validate_options, publish_outbox_batch}
use jaa.Outbox.Batches.{HasUniqueIds, configured_stays}
use jaa.Outbox.Counts.{IsStorable, settled, configured_counts}

module _ (takes_time : ℕ → Bool) (delivers : OutboxEnvelope → Result String (Unit {0}))
    (safe : String → String) (others : List OutboxEvent → List OutboxEvent) (clock : ℕ)
    (generated : String) (raw : RawOptions) (text_le : String → String → Bool)
    (locked : OutboxEvent → Bool) (events : List OutboxEvent) where
  -- A call, whether it returns or throws, leaves an event that was published, or has failed for good, as it
  -- is, if ids are unique and what others commit meanwhile leaves it.
  pub settled_stays :
      (e : OutboxEvent)
      → ((xs : List OutboxEvent) → Memᴰ e xs → Memᴰ e (others xs))
      → HasUniqueIds events
      → Memᴰ e events
      → is_open e ≡ false
      → Memᴰ e
          (publish_outbox_batch takes_time delivers safe others clock generated raw text_le locked
            events).1
  unfolding publish_outbox_batch
  settled_stays e kept unique m done = elim (Option-cases (validate_options generated clock raw)) [
    | inl refused ↦ rw (refused) m
    | inr (o, valid) ↦ rw (valid) (
        configured_stays takes_time delivers safe others clock o text_le locked events e kept unique
          m done)
  ]

  -- If the options are valid, and the database takes the arguments of the claim and the time of every retry
  -- before the last attempt, a batch returns, claims at most its size, and counts each claimed event as
  -- published, retried or failed, exactly once.
  pub batch_counts :
      (o : PublishOptions)
      → validate_options generated clock raw ≡ some o
      → IsStorable takes_time o
      → (r : PublishResult) × ((publish_outbox_batch takes_time delivers safe others clock generated
            raw text_le locked events).0
          ≡ some r)
        × (settled r ≡ r.claimed)
        × (r.claimed ≤ o.batch_size)
  unfolding publish_outbox_batch
  batch_counts o valid storable =
      rw (valid)
        (configured_counts takes_time delivers safe others clock o text_le locked events storable)
