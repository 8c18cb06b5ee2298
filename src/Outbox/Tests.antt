-- ===== src/Outbox/Tests.antt =====
-- Runs of the publisher, and each theorem at a concrete input.
use mathlib.Core.List.{Memᴰ}
use jaa.Prelude.{
  inl, inr, nat, at, ℕ, leb, Option, positive, is_blank, ◌≤◌, Bool, true, false, String, none, some,
  List, [], ◌∷◌, ◌≡◌, refl, sym, ◌∙◌, Result, ok, err,
}
use jaa.Prelude.Sorting.{sort, insert_sorted}
use jaa.Prelude.Members.{mem-cons_cases}
use jaa.Json.Value.{null}
use jaa.Outbox.Publisher.{
  OutboxEvent, OutboxEnvelope, PublishOptions, PublishResult, Publication, retry_time, can_claim,
  is_abandoned, to_failed, is_ready, to_claimed, ready_events, claim_events, envelope, to_published,
  is_terminal, after_error, give_up, mark, publish_event, publish_events, publish_configured,
}
use jaa.Outbox.Batch.{RawOptions, validate_options, publish_outbox_batch}
use jaa.Outbox.Batches.{HasUniqueIds}
use jaa.Outbox.Counts.{IsStorable, settled}
use jaa.Outbox.Settling.{settled_stays, batch_counts}

machine : Unit {0}
unfolding positive is_blank sort insert_sorted is_abandoned to_failed is_ready to_claimed
    ready_events claim_events envelope to_published is_terminal after_error give_up mark
    publish_event publish_events publish_configured validate_options publish_outbox_batch can_claim
    retry_time
machine = tt

abbrev fresh : OutboxEvent
fresh = record {
  id = "e1";
  user_id = some "u1";
  aggregate_type = "Application";
  aggregate_id = "a1";
  event_type = "application.status.transitioned";
  payload = null;
  schema_version = 1;
  correlation_id = "c1";
  idempotency_key = "k1";
  occurred_at = 5;
  available_at = 5;
  publish_attempts = 0;
  published_at = none;
  failed_at = none;
  lease_owner = none;
  lease_expires_at = none;
  last_error = none;
}

abbrev sent : OutboxEvent
sent = record fresh { publish_attempts = 1; published_at = some 20 }

abbrev retried : OutboxEvent
retried = record fresh { publish_attempts = 1; available_at = 1010; last_error = some "down" }

abbrev options : RawOptions
options = record {
  worker_id = some "w1";
  user_id = none;
  batch_size = none;
  max_attempts = none;
  lease_ms = none;
  base_retry_ms = some (nat 1000);
  now = some (at 10);
}

abbrev valid_options : PublishOptions
valid_options = record {
  worker_id = "w1";
  user_id = none;
  batch_size = 50;
  max_attempts = 8;
  lease_ms = 30000;
  base_retry_ms = 1000;
  now = 10;
}

abbrev up : OutboxEnvelope → Result String (Unit {0})
up message = ok tt

abbrev down : OutboxEnvelope → Result String (Unit {0})
down message = err "down"

abbrev same : String → String
same s = s

abbrev alone : List OutboxEvent → List OutboxEvent
alone events = events

-- The times of a valid Date.
abbrev dates : ℕ → Bool
dates t = leb t 8640000000000000

abbrev any_order : String → String → Bool
any_order a b = true

abbrev unlocked : OutboxEvent → Bool
unlocked e = false

abbrev publish :
    (OutboxEnvelope → Result String (Unit {0})) → RawOptions → List OutboxEvent → Publication
publish delivers raw events =
    publish_outbox_batch dates delivers same alone 20 "w" raw any_order unlocked events

abbrev result : (claimed published retried failed : ℕ) → Option PublishResult
result claimed published retried failed =
    some (record { claimed = claimed; published = published; retried = retried; failed = failed })

publish_tests :
    (publish up options (fresh ∷ []) ≡ (result 1 1 0 0, sent ∷ []))
    × (publish down options (fresh ∷ []) ≡ (result 1 0 1 0, retried ∷ []))
    × (publish up options (sent ∷ []) ≡ (result 0 0 0 0, sent ∷ []))
    × (publish up (record options { batch_size = some (nat 0) }) (fresh ∷ []) ≡ (none, fresh ∷ []))
unfolding machine
publish_tests = (refl, refl, refl, refl)

-- An event that failed 45 times before, with a budget of 60 attempts.
abbrev tired : OutboxEvent
tired = record fresh { publish_attempts = 45 }

-- A lease that ends after the last Date, a budget beyond INT4, and a retry after the last Date: the first
-- two throw in the claim, the third leaves the event claimed.
beyond_tests :
    (publish up (record options { lease_ms = some (nat 9000000000000000) }) (fresh ∷ [])
      ≡ (none, fresh ∷ []))
    × (publish up (record options { max_attempts = some (nat 2147483648) }) (fresh ∷ [])
        ≡ (none, fresh ∷ []))
    × ((publish down (record options { max_attempts = some (nat 60) }) (tired ∷ [])).0 ≡ none)
unfolding machine
beyond_tests = (refl, refl, refl)

options-IsStorable : IsStorable dates valid_options
unfolding machine
options-IsStorable = record { claim = refl; retries = refl }

options_valid : validate_options "w" 20 options ≡ some valid_options
unfolding machine
options_valid = refl

sent-HasUniqueIds : HasUniqueIds (sent ∷ [])
sent-HasUniqueIds a b m n e = elim (mem-cons_cases a sent [] m) [
  | inl x ↦ elim (mem-cons_cases b sent [] n) [ inl y ↦ x ∙ sym y | inr k ↦ elim k [ ] ]
  | inr k ↦ elim k [ ]
]

settled_stays_example : Memᴰ sent (publish up options (sent ∷ [])).1
settled_stays_example =
    settled_stays dates up same alone 20 "w" options any_order unlocked (sent ∷ []) sent (λ xs m. m)
      sent-HasUniqueIds (Memᴰ.head refl) refl

batch_counts_example :
    (r : PublishResult) × ((publish down options (fresh ∷ [])).0 ≡ some r)
    × (settled r ≡ r.claimed)
    × (r.claimed ≤ 50)
batch_counts_example =
    batch_counts dates down same alone 20 "w" options any_order unlocked (fresh ∷ []) valid_options
      options_valid options-IsStorable
