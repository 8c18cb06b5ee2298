-- ===== src/Dispatch/Envelopes.antt =====
-- The envelopes of a dispatch, against the jobs they come from.
use mathlib.Core.List.{Memᴰ}
use mathlib.Core.Path.{subst}
use jaa.Prelude.{
  ℕ, ◌+◌, ◌-◌, String, Bool, true, some, List, [], ◌∷◌, ◌≡◌, refl, sym, nat, positive, Option-cases,
  inl, inr, ◌⊎◌, max, ℤ, int, safe_integer,
}
use jaa.Prelude.Members.{mem-cons_cases, append_mem}
use jaa.Prelude.Options.{bind_inv, require_inv}
use jaa.Automation.Jobs.{AutomationJob}
use jaa.Queue.Envelope.{
  Added, added, Envelope, enqueue, validate_enqueue_automation_job_input, is_safe_queue_text,
}
use jaa.Queue.Bounds.{positive-nat}
use jaa.Dispatch.Loop.{Dispatch, dispatch_input, dispatch_available_at, dispatch_one, dispatch_all}
use jaa.Dispatch.Counts.{enqueue-eq-some, some_inj}

-- What an accepted envelope says.
pub record Matches (job : AutomationJob) (envelope : Envelope) : Type 0 where
  pub same_id : envelope.message.automation_job_id ≡ job.id
  pub same_type : envelope.message.type ≡ job.type
  pub next_attempt : envelope.message.dispatch_attempt ≡ job.attempt_count + 1
  pub same_generation : envelope.message.delivery_generation ≡ job.delivery_generation
  pub budget : envelope.max_attempts ≡ max 1 (job.max_attempts - job.attempt_count)
  pub valid_attempt :
      positive (nat envelope.message.dispatch_attempt) ≡ some envelope.message.dispatch_attempt
  pub valid_generation :
      positive (nat envelope.message.delivery_generation)
      ≡ some envelope.message.delivery_generation
  pub safe_id : is_safe_queue_text job.id ≡ true

abbrev built : AutomationJob → (version generation attempt attempts : ℕ) → ℤ → ℕ → Envelope
built job version generation attempt attempts priority available = record {
  message = record {
    automation_job_id = job.id;
    type = job.type;
    correlation_id = job.correlation_id;
    payload_version = version;
    delivery_generation = generation;
    dispatch_attempt = attempt;
  };
  priority = priority;
  available_at = available;
  max_attempts = attempts;
}

built-Matches :
    (job : AutomationJob) (version generation attempt attempts : ℕ) (priority : ℤ) (available : ℕ)
    → positive (nat job.delivery_generation) ≡ some generation
    → positive (nat (job.attempt_count + 1)) ≡ some attempt
    → positive (nat (max 1 (job.max_attempts - job.attempt_count))) ≡ some attempts
    → is_safe_queue_text job.id ≡ true
    → (envelope : Envelope)
    → built job version generation attempt attempts priority available ≡ envelope
    → Matches job envelope
built-Matches job version generation attempt attempts priority available e5 e6 e7 safe envelope e =
    let same_generation : job.delivery_generation ≡ generation =
      positive-nat job.delivery_generation generation e5 in
    let same_attempt : job.attempt_count + 1 ≡ attempt =
      positive-nat (job.attempt_count + 1) attempt e6 in
    subst (Matches job) e (record {
      same_id = refl;
      same_type = refl;
      next_attempt = sym same_attempt;
      same_generation = sym same_generation;
      budget = sym (positive-nat _ attempts e7);
      valid_attempt = subst (λ n. positive (nat n) ≡ some attempt) same_attempt e6;
      valid_generation = subst (λ n. positive (nat n) ≡ some generation) same_generation e5;
      safe_id = safe;
    })

validate-Matches :
    (job : AutomationJob) (envelope : Envelope)
    → validate_enqueue_automation_job_input (dispatch_input job) ≡ some envelope
    → Matches job envelope
unfolding validate_enqueue_automation_job_input dispatch_input
validate-Matches job envelope h =
    let (id_ok, h1) = require_inv (is_safe_queue_text job.id) _ h in
    let (type_ok, h2) = require_inv (is_safe_queue_text job.type) _ h1 in
    let (correlation_ok, h3) = require_inv (is_safe_queue_text job.correlation_id) _ h2 in
    let (version, e4, h4) = bind_inv (positive (nat job.payload_version)) _ h3 in
    let (generation, e5, h5) = bind_inv (positive (nat job.delivery_generation)) _ h4 in
    let (attempt, e6, h6) = bind_inv (positive (nat (job.attempt_count + 1))) _ h5 in
    let (attempts, e7, h7) =
      bind_inv (positive (nat (max 1 (job.max_attempts - job.attempt_count)))) _ h6 in
    let (priority, e8, h8) = bind_inv (safe_integer (int job.priority)) _ h7 in
    built-Matches job version generation attempt attempts priority (dispatch_available_at job) e5 e6
      e7 id_ok envelope (some_inj h8)

module _ (normalize : String → String) (accepts : Added → Bool) (clock : ℕ) where
  -- A job that BullMQ took was there before, or comes from a selected job.
  abbrev pub Comes : List AutomationJob → List Added → Added → Type 0
  Comes jobs before x =
      Memᴰ x before
      ⊎ ((job : AutomationJob) × Memᴰ job jobs
          × (envelope : Envelope) × Matches job envelope
          × (x ≡ added normalize clock envelope))

  dispatch_one-Comes :
      (job : AutomationJob) (d : Dispatch) (x : Added)
      → Memᴰ x (dispatch_one normalize accepts clock job d).added
      → Comes (job ∷ []) d.added x
  unfolding dispatch_one
  dispatch_one-Comes job d x m =
      elim (Option-cases (enqueue normalize accepts clock (dispatch_input job) d.added)) [
        | inl e ↦ inl (rw e at m)
        | inr (out, e) ↦
            let (envelope, valid, same) = enqueue-eq-some normalize accepts clock job d.added e in
            let listed : Memᴰ x (added normalize clock envelope ∷ d.added) =
              subst (λ js. Memᴰ x js) same (rw e at m) in
            elim (mem-cons_cases x (added normalize clock envelope) d.added listed) [
              | inl new ↦
                  inr (job, Memᴰ.head refl, envelope, validate-Matches job envelope valid, new)
              | inr old ↦ inl old
            ]
      ]

  from_one :
      (job : AutomationJob) (jobs : List AutomationJob) (before : List Added) (x : Added)
      → Comes (job ∷ []) before x
      → Comes (job ∷ jobs) before x
  from_one job jobs before x (inl m) = inl m
  from_one job jobs before x (inr (j, m, envelope, fits, same)) =
      inr (j, append_mem (job ∷ []) jobs j m, envelope, fits, same)

  pub dispatch_all-Comes :
      (jobs : List AutomationJob) (d : Dispatch) (x : Added)
      → Memᴰ x (dispatch_all normalize accepts clock jobs d).added
      → Comes jobs d.added x
  unfolding dispatch_all
  dispatch_all-Comes [] d x m = inl m
  dispatch_all-Comes (job ∷ jobs) d x m =
      elim (dispatch_all-Comes jobs (dispatch_one normalize accepts clock job d) x m) [
        | inl k ↦ from_one job jobs d.added x (dispatch_one-Comes job d x k)
        | inr (j, k, envelope, fits, same) ↦ inr (j, Memᴰ.tail k, envelope, fits, same)
      ]
