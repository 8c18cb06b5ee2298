-- ===== src/Outbox/Batches.antt =====
-- Which events a batch of apps/api/src/services/outbox-publisher.ts touches, and what it counts.
use mathlib.Core.List.{Memᴰ}
use jaa.Prelude.{
  ℕ, Bool, true, false, ◌≡◌, String, List, [], ◌∷◌, arith, Result, Result-cases, Bool-cases,
  Option-cases, inl, inr, ◌||◌, count, ◌==◌, ◌===◌, eq_iff,
}
use jaa.Prelude.Sorting.{sort_within}
use jaa.Prelude.Members.{any_mem, take_mem, keep_mem, update_mem_miss, update_origin}
use jaa.Outbox.Publisher.{
  OutboxEvent, OutboxEnvelope, PublishOptions, PublishResult, is_open, is_abandoned, to_failed,
  is_ready, event_before, to_claimed, is_among, bury, ready_events, claim_events, envelope,
  is_owned, to_published, is_terminal, retry_time, can_claim, after_error, give_up, mark,
  publish_event, publish_events, publish_configured,
}

-- The primary key: rows with the same id are the same row.
abbrev pub HasUniqueIds : List OutboxEvent → Type 0
HasUniqueIds events = (a b : OutboxEvent) → Memᴰ a events → Memᴰ b events → a.id ≡ b.id → a ≡ b

ready_mem :
    (text_le : String → String → Bool) (locked : OutboxEvent → Bool) (o : PublishOptions)
    (events : List OutboxEvent) (e : OutboxEvent)
    → Memᴰ e (ready_events text_le locked o events)
    → Memᴰ e events × (is_open e ≡ true)
unfolding ready_events is_ready
ready_mem text_le locked o events e m =
    let (listed, fits) =
      keep_mem _ events e (sort_within (event_before text_le) _ e (take_mem o.batch_size _ e m)) in
    (listed, ground arith)

-- An event with the id of a settled one is that one, and no claim takes it.
not_among :
    (text_le : String → String → Bool) (locked : OutboxEvent → Bool) (o : PublishOptions)
    (events : List OutboxEvent) (e : OutboxEvent)
    → HasUniqueIds events
    → Memᴰ e events
    → is_open e ≡ false
    → is_among (ready_events text_le locked o (bury o events)) e ≡ false
unfolding is_abandoned to_failed
not_among text_le locked o events e unique m done =
    let ready = ready_events text_le locked o (bury o events) in
    elim (Bool-cases (is_among ready e)) [
      | inr out ↦ out
      | inl among ↦
          let (c, picked, same) = any_mem (λ c. c.id === e.id) ready among in
          let (listed, alive) = ready_mem text_le locked o (bury o events) c picked in
          let named : c.id ≡ e.id = (eq_iff c.id e.id).0 same in
          elim (update_origin (is_abandoned o) (to_failed o.now) events c listed) [
            | inl (x, k, made) ↦ absurd (ground (arith, rw made at alive))
            | inr k ↦
                let one : c ≡ e = unique c e k m named in
                let alive_e : is_open e ≡ true = rw one at alive in cc (alive_e, done)
          ]
    ]

claim_keeps :
    (text_le : String → String → Bool) (locked : OutboxEvent → Bool) (o : PublishOptions)
    (events : List OutboxEvent) (e : OutboxEvent)
    → HasUniqueIds events
    → Memᴰ e events
    → is_open e ≡ false
    → Memᴰ e (claim_events text_le locked o events).1
unfolding claim_events is_abandoned
claim_keeps text_le locked o events e unique m done =
    let buried = bury o events in
    update_mem_miss (is_among (ready_events text_le locked o buried)) (to_claimed o) buried e
      (update_mem_miss (is_abandoned o) (to_failed o.now) events e m (ground arith))
      (not_among text_le locked o events e unique m done)

module _ (takes_time : ℕ → Bool) (delivers : OutboxEnvelope → Result String (Unit {0}))
    (safe : String → String) (others : List OutboxEvent → List OutboxEvent) (clock : ℕ)
    (o : PublishOptions) (e : OutboxEvent)
    (kept : (xs : List OutboxEvent) → Memᴰ e xs → Memᴰ e (others xs))
    (done : is_open e ≡ false) where
  give_up_keeps :
      (event : OutboxEvent) (error : String) (events : List OutboxEvent) (r : PublishResult)
      → Memᴰ e events
      → Memᴰ e (give_up takes_time delivers safe others clock o event error events r).1
  unfolding give_up
  give_up_keeps event error events r m =
      elim (Bool-cases (is_terminal o event || takes_time (retry_time o event.publish_attempts))) [
        | inl stored ↦ rw (stored) (
            update_mem_miss (is_owned o event) (after_error clock o event (safe error))
              (others events) e (kept events m) (ground arith))
        | inr thrown ↦ rw (thrown) (kept events m)
      ]

  mark_keeps :
      (event : OutboxEvent) (events : List OutboxEvent) (r : PublishResult)
      → Memᴰ e events
      → Memᴰ e (mark takes_time delivers safe others clock o event events r).1
  unfolding mark
  mark_keeps event events r m =
      let step =
        update_mem_miss (is_owned o event) (to_published clock) (others events) e (kept events m)
          (ground arith) in
      elim (Bool-cases (count (is_owned o event) (others events) == 1)) [
        | inl one ↦ rw (one) step
        | inr lost ↦ rw (lost) (give_up_keeps event _ _ r step)
      ]

  publish_event_keeps :
      (event : OutboxEvent) (events : List OutboxEvent) (r : PublishResult)
      → Memᴰ e events
      → Memᴰ e (publish_event takes_time delivers safe others clock o event events r).1
  unfolding publish_event
  publish_event_keeps event events r m = elim (Result-cases (delivers (envelope event))) [
    | inl (a, sent) ↦ rw (sent, publish_event) (mark_keeps event events r m)
    | inr (x, failed) ↦ rw (failed, publish_event) (give_up_keeps event x events r m)
  ]

  publish_events_keep :
      (claimed events : List OutboxEvent) (r : PublishResult)
      → Memᴰ e events
      → Memᴰ e (publish_events takes_time delivers safe others clock o claimed events r).1
  unfolding publish_events
  publish_events_keep [] events r m = m
  publish_events_keep (event ∷ rest) events r m =
      let next = publish_event takes_time delivers safe others clock o event events r in
      let there = publish_event_keeps event events r m in
      elim (Option-cases next.0) [
        | inl thrown ↦ rw (thrown, publish_events) there
        | inr (counted, returned) ↦
            rw (returned, publish_events) (publish_events_keep rest next.1 counted there)
      ]

pub configured_stays :
    (takes_time : ℕ → Bool) (delivers : OutboxEnvelope → Result String (Unit {0}))
    (safe : String → String) (others : List OutboxEvent → List OutboxEvent) (clock : ℕ)
    (o : PublishOptions) (text_le : String → String → Bool) (locked : OutboxEvent → Bool)
    (events : List OutboxEvent) (e : OutboxEvent)
    → ((xs : List OutboxEvent) → Memᴰ e xs → Memᴰ e (others xs))
    → HasUniqueIds events
    → Memᴰ e events
    → is_open e ≡ false
    → Memᴰ e (publish_configured takes_time delivers safe others clock o text_le locked events).1
unfolding publish_configured
configured_stays takes_time delivers safe others clock o text_le locked events e kept unique m
      done =
    elim (Bool-cases (can_claim takes_time o)) [
      | inr thrown ↦ rw (thrown) m
      | inl taken ↦ rw (taken) (
          publish_events_keep takes_time delivers safe others clock o e kept done
            (claim_events text_le locked o events).0 (claim_events text_le locked o events).1 _
            (claim_keeps text_le locked o events e unique m done))
    ]
