-- ===== src/Outbox/Counts.antt =====
-- The counts of a batch.
use jaa.Prelude.{
  ℕ, zero, suc, ◌+◌, ◌≤◌, ◌<◌, Bool, true, not, ◌&&◌, ◌||◌, ◌≡◌, refl, ◌∙◌, String, some, List, [],
  ◌∷◌, arith, Result, Result-cases, Bool-cases, inl, inr, keep, length, length-take_le, count, ◌==◌,
}
use jaa.Prelude.Sorting.{sort}
use jaa.Prelude.Members.{length-map}
use jaa.Outbox.Publisher.{
  OutboxEvent, OutboxEnvelope, PublishOptions, PublishResult, Publication, is_ready, event_before,
  to_claimed, bury, ready_events, claim_events, envelope, is_owned, is_terminal, retry_time,
  can_claim, give_up, mark, publish_event, publish_events, publish_configured,
}

-- The sum of the outcomes.
abbrev pub settled : PublishResult → ℕ
settled r = r.published + r.retried + r.failed

abbrev pub all_below : (ℕ → Bool) → ℕ → Bool
all_below p zero = true
all_below p (suc n) = p n && all_below p n

all_below_lem : (p : ℕ → Bool) (n k : ℕ) → all_below p n ≡ true → k < n → p k ≡ true
all_below_lem p zero k h lt = absurd (omega arith)
all_below_lem p (suc n) k h lt = elim (Bool-cases (k == n)) [
  | inl same ↦ ground arith
  | inr other ↦ all_below_lem p n k (ground arith) (ground arith)
]

-- The database takes the arguments of the claim, and the time of each retry that is not the last attempt.
pub record IsStorable (takes_time : ℕ → Bool) (o : PublishOptions) : Type 0 where
  pub claim : can_claim takes_time o ≡ true
  pub retries : all_below (λ n. takes_time (retry_time o n)) o.max_attempts ≡ true

-- A publication that returns, with `n` more events settled.
record Settles (n : ℕ) (r : PublishResult) (end : Publication) : Type 0 where
  pub result : PublishResult
  pub returned : end.0 ≡ some result
  pub total : settled result ≡ settled r + n
  pub same : result.claimed ≡ r.claimed

module _ (takes_time : ℕ → Bool) (delivers : OutboxEnvelope → Result String (Unit {0}))
    (safe : String → String) (others : List OutboxEvent → List OutboxEvent) (clock : ℕ)
    (o : PublishOptions) (storable : IsStorable takes_time o) where
  can_give_up :
      (event : OutboxEvent)
      → is_terminal o event || takes_time (retry_time o event.publish_attempts) ≡ true
  unfolding is_terminal
  can_give_up event = elim (Bool-cases (is_terminal o event)) [
    | inl last ↦ ground arith
    | inr more ↦
        let taken =
          all_below_lem (λ n. takes_time (retry_time o n)) o.max_attempts event.publish_attempts
            storable.retries (ground arith) in
        ground (arith, taken)
  ]

  give_up-Settles :
      (event : OutboxEvent) (error : String) (events : List OutboxEvent) (r : PublishResult)
      → Settles 1 r (give_up takes_time delivers safe others clock o event error events r)
  unfolding give_up
  give_up-Settles event error events r =
      rw (can_give_up event) (elim (Bool-cases (is_terminal o event)) [
        | inl last ↦
            rw (last) (record { result = _; returned = refl; total = omega arith; same = refl })
        | inr more ↦
            rw (more) (record { result = _; returned = refl; total = omega arith; same = refl })
      ])

  publish_event-Settles :
      (event : OutboxEvent) (events : List OutboxEvent) (r : PublishResult)
      → Settles 1 r (publish_event takes_time delivers safe others clock o event events r)
  unfolding publish_event mark
  publish_event-Settles event events r = elim (Result-cases (delivers (envelope event))) [
    | inr (x, failed) ↦ rw (failed, publish_event) (give_up-Settles event x events r)
    | inl (a, sent) ↦ elim (Bool-cases (count (is_owned o event) (others events) == 1)) [
      | inl one ↦
          rw (sent, publish_event)
            (rw (one) (record { result = _; returned = refl; total = omega arith; same = refl }))
      | inr lost ↦ rw (sent, publish_event) (rw (lost) (give_up-Settles event _ _ r))
    ]
  ]

  publish_events-Settles :
      (claimed events : List OutboxEvent) (r : PublishResult)
      → Settles
          (length claimed)
          r
          (publish_events takes_time delivers safe others clock o claimed events r)
  unfolding publish_events
  publish_events-Settles [] events r = record {
    result = r;
    returned = refl;
    total = omega arith;
    same = refl;
  }
  publish_events-Settles (event ∷ rest) events r =
      let next = publish_event takes_time delivers safe others clock o event events r in
      let first = publish_event-Settles event events r in
      let more = publish_events-Settles rest next.1 first.result in
      let more_total : settled more.result ≡ settled first.result + length rest = more.total in
      record {
        result = more.result;
        returned = rw (first.returned, publish_events) more.returned;
        total = omega (arith, more_total, first.total);
        same = more.same ∙ first.same;
      }

claimed_few :
    (text_le : String → String → Bool) (locked : OutboxEvent → Bool) (o : PublishOptions)
    (events : List OutboxEvent)
    → length (claim_events text_le locked o events).0 ≤ o.batch_size
unfolding claim_events ready_events
claimed_few text_le locked o events = omega (
  arith,
  length-map (to_claimed o) (ready_events text_le locked o (bury o events)),
  length-take_le o.batch_size
      (sort (event_before text_le) (keep (λ e. is_ready o e && not (locked e)) (bury o events))),
)

pub configured_counts :
    (takes_time : ℕ → Bool) (delivers : OutboxEnvelope → Result String (Unit {0}))
    (safe : String → String) (others : List OutboxEvent → List OutboxEvent) (clock : ℕ)
    (o : PublishOptions) (text_le : String → String → Bool) (locked : OutboxEvent → Bool)
    (events : List OutboxEvent)
    → IsStorable takes_time o
    → (r : PublishResult) × ((publish_configured takes_time delivers safe others clock o text_le
          locked events).0
        ≡ some r)
      × (settled r ≡ r.claimed)
      × (r.claimed ≤ o.batch_size)
unfolding publish_configured
configured_counts takes_time delivers safe others clock o text_le locked events storable =
    let claimed = claim_events text_le locked o events in
    let end =
      publish_events-Settles takes_time delivers safe others clock o storable claimed.0 claimed.1
        (record { claimed = length claimed.0; published = 0; retried = 0; failed = 0 }) in
    (
      end.result,
      rw storable.claim end.returned,
      omega (arith, end.total, end.same),
      omega (arith, end.same, claimed_few text_le locked o events),
    )
