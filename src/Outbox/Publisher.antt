-- ===== src/Outbox/Publisher.antt =====
-- `publishOutboxBatch` of apps/api/src/services/outbox-publisher.ts. The transport and `afterPublish`
-- are one argument: whether they resolve, or the error that they throw. What other transactions
-- commit before an event's update is an argument; `text_le` is the database's order of texts, `locked`
-- the rows that SKIP LOCKED passes over, `safe` is safeErrorMessage, `takes_time` says which times the
-- database client takes: not an invalid Date, beyond 8640000000000000 ms.
use Prim.Native.String
use jaa.Prelude.{
  ℕ, ◌+◌, ◌-◌, ◌*◌, ◌^◌, Bool, true, not, ◌&&◌, ◌||◌, String, Option, none, some, List, [], ◌∷◌,
  ◌===◌, ◌==◌, null_eq, leb, ltb, is_some, some_and, take, any, keep, update, count, length, map,
  if◌then◌else◌, Result, ok, err,
}
use jaa.Prelude.Sorting.{sort}
use jaa.Json.Value.{Json}

pub record OutboxEvent : Type 0 where
  pub id : String
  pub user_id : Option String
  pub aggregate_type : String
  pub aggregate_id : String
  pub event_type : String
  pub payload : Json
  pub schema_version : ℕ
  pub correlation_id : String
  pub idempotency_key : String
  pub occurred_at : ℕ
  pub available_at : ℕ
  pub publish_attempts : ℕ
  pub published_at : Option ℕ
  pub failed_at : Option ℕ
  pub lease_owner : Option String
  pub lease_expires_at : Option ℕ
  pub last_error : Option String

pub record OutboxEnvelope : Type 0 where
  pub id : String
  pub user_id : Option String
  pub aggregate_type : String
  pub aggregate_id : String
  pub event_type : String
  pub payload : Json
  pub schema_version : ℕ
  pub correlation_id : String
  pub idempotency_key : String
  pub occurred_at : ℕ
  pub publish_attempts : ℕ

pub record PublishOptions : Type 0 where
  pub worker_id : String
  pub user_id : Option String
  pub batch_size : ℕ
  pub max_attempts : ℕ
  pub lease_ms : ℕ
  pub base_retry_ms : ℕ
  pub now : ℕ

pub record PublishResult : Type 0 where
  pub claimed : ℕ
  pub published : ℕ
  pub retried : ℕ
  pub failed : ℕ

-- Neither published nor failed.
abbrev pub is_open : OutboxEvent → Bool
is_open e = not (is_some e.published_at) && not (is_some e.failed_at)

-- `userId ? { userId } : {}` of the first statement; an empty text is no condition.
abbrev pub is_of_user : Option String → OutboxEvent → Bool
is_of_user none e = true
is_of_user (some id) e = id === "" || null_eq e.user_id (some id)

-- `${userId ?? null} IS NULL OR "userId" = ...` of the second.
abbrev pub is_of_tenant : Option String → OutboxEvent → Bool
is_of_tenant none e = true
is_of_tenant (some id) e = null_eq e.user_id (some id)

unfoldable pub is_abandoned : PublishOptions → OutboxEvent → Bool
is_abandoned o e =
    is_open e
    && some_and e.lease_expires_at (λ t. leb t o.now)
    && leb o.max_attempts e.publish_attempts
    && is_of_user o.user_id e

unfoldable pub to_failed : ℕ → OutboxEvent → OutboxEvent
to_failed now e = record e {
  failed_at = some now;
  lease_owner = none;
  lease_expires_at = none;
  last_error = some "Publisher lease expired after the final permitted attempt";
}

abbrev pub lease_free : ℕ → Option ℕ → Bool
lease_free now none = true
lease_free now (some t) = leb t now

unfoldable pub is_ready : PublishOptions → OutboxEvent → Bool
is_ready o e =
    is_open e
    && is_of_tenant o.user_id e
    && leb e.available_at o.now
    && lease_free o.now e.lease_expires_at
    && ltb e.publish_attempts o.max_attempts

-- ORDER BY "occurredAt", id.
abbrev pub event_before : (String → String → Bool) → OutboxEvent → OutboxEvent → Bool
event_before text_le a b =
    if a.occurred_at == b.occurred_at then text_le a.id b.id else ltb a.occurred_at b.occurred_at

unfoldable pub to_claimed : PublishOptions → OutboxEvent → OutboxEvent
to_claimed o e = record e {
  lease_owner = some o.worker_id;
  lease_expires_at = some (o.now + o.lease_ms);
  publish_attempts = e.publish_attempts + 1;
}

abbrev pub is_among : List OutboxEvent → OutboxEvent → Bool
is_among chosen e = any (λ c. c.id === e.id) chosen

abbrev pub bury : PublishOptions → List OutboxEvent → List OutboxEvent
bury o events = update (is_abandoned o) (to_failed o.now) events

unfoldable pub ready_events :
    (String → String → Bool)
    → (OutboxEvent → Bool)
    → PublishOptions
    → List OutboxEvent
    → List OutboxEvent
ready_events text_le locked o events =
    take o.batch_size
      (sort (event_before text_le) (keep (λ e. is_ready o e && not (locked e)) events))

-- The claimed events, and the table after both statements.
unfoldable pub claim_events :
    (String → String → Bool)
    → (OutboxEvent → Bool)
    → PublishOptions
    → List OutboxEvent
    → List OutboxEvent × List OutboxEvent
claim_events text_le locked o events =
    let buried = bury o events in
    let ready = ready_events text_le locked o buried in
    (map (to_claimed o) ready, update (is_among ready) (to_claimed o) buried)

unfoldable pub envelope : OutboxEvent → OutboxEnvelope
envelope e = record {
  id = e.id;
  user_id = e.user_id;
  aggregate_type = e.aggregate_type;
  aggregate_id = e.aggregate_id;
  event_type = e.event_type;
  payload = e.payload;
  schema_version = e.schema_version;
  correlation_id = e.correlation_id;
  idempotency_key = e.idempotency_key;
  occurred_at = e.occurred_at;
  publish_attempts = e.publish_attempts;
}

-- `where: { id, leaseOwner, publishedAt: null, failedAt: null }`.
abbrev pub is_owned : PublishOptions → OutboxEvent → OutboxEvent → Bool
is_owned o event e = e.id === event.id && null_eq e.lease_owner (some o.worker_id) && is_open e

unfoldable pub to_published : ℕ → OutboxEvent → OutboxEvent
to_published clock e = record e {
  published_at = some clock;
  lease_owner = none;
  lease_expires_at = none;
  last_error = none;
}

unfoldable pub is_terminal : PublishOptions → OutboxEvent → Bool
is_terminal o event = leb o.max_attempts event.publish_attempts

-- When an event is tried again; the delay doubles with each attempt.
unfoldable pub retry_time : PublishOptions → ℕ → ℕ
retry_time o attempts = o.now + o.base_retry_ms * 2 ^ (attempts - 1)

-- The row after an attempt that threw.
unfoldable pub after_error : ℕ → PublishOptions → OutboxEvent → String → OutboxEvent → OutboxEvent
after_error clock o event message e = record e {
  lease_owner = none;
  lease_expires_at = none;
  last_error = some message;
  failed_at = if is_terminal o event then some clock else e.failed_at;
  available_at =
      if is_terminal o event then e.available_at else retry_time o event.publish_attempts;
}

abbrev add_published : PublishResult → PublishResult
add_published r = record r { published = r.published + 1 }

abbrev add_failed : PublishResult → PublishResult
add_failed r = record r { failed = r.failed + 1 }

abbrev add_retried : PublishResult → PublishResult
add_retried r = record r { retried = r.retried + 1 }

-- The result of a batch, none where it threw, and the table; a throw ends the batch.
abbrev pub Publication : Type 0
Publication = Option PublishResult × List OutboxEvent

-- What the statements of the claim need of their arguments: dates, and a number of an INT4 column.
unfoldable pub can_claim : (ℕ → Bool) → PublishOptions → Bool
can_claim takes_time o =
    takes_time o.now && takes_time (o.now + o.lease_ms) && leb o.max_attempts 2147483647

module _ (takes_time : ℕ → Bool) (delivers : OutboxEnvelope → Result String (Unit {0}))
    (safe : String → String) (others : List OutboxEvent → List OutboxEvent) (clock : ℕ)
    (o : PublishOptions) where
  -- The `catch` branch; its update throws where the client does not take the time of the retry.
  unfoldable pub give_up : OutboxEvent → String → List OutboxEvent → PublishResult → Publication
  give_up event error events r =
      if is_terminal o event || takes_time (retry_time o event.publish_attempts)
      then (
        some (if is_terminal o event then add_failed r else add_retried r),
        update (is_owned o event) (after_error clock o event (safe error)) (others events),
      )
      else (none, others events)

  -- The marking; where the lease is lost, what it throws is caught by the same `try`.
  unfoldable pub mark : OutboxEvent → List OutboxEvent → PublishResult → Publication
  mark event events r =
      let found = others events in
      let marked = update (is_owned o event) (to_published clock) found in
      if count (is_owned o event) found == 1
      then (some (add_published r), marked)
      else give_up event (String.◌++◌ "Lost outbox lease for " event.id) marked r

  unfoldable pub publish_event : OutboxEvent → List OutboxEvent → PublishResult → Publication
  publish_event event events r = elim (delivers (envelope event)) [
    | ok done ↦ mark event events r
    | err error ↦ give_up event error events r
  ]

  unfoldable pub publish_events : List OutboxEvent → List OutboxEvent → PublishResult → Publication
  publish_events [] events r = (some r, events)
  publish_events (event ∷ rest) events r =
      let next = publish_event event events r in
      elim next.0 [ none ↦ (none, next.1) | some counted ↦ publish_events rest next.1 counted ]

  unfoldable pub publish_configured :
      (String → String → Bool) → (OutboxEvent → Bool) → List OutboxEvent → Publication
  publish_configured text_le locked events =
      let claimed = claim_events text_le locked o events in
      if can_claim takes_time o
      then publish_events claimed.0 claimed.1
          (record { claimed = length claimed.0; published = 0; retried = 0; failed = 0 })
      else (none, events)
