-- ===== src/Dispatch/Counts.antt =====
-- The counts of a dispatch.
use jaa.Prelude.{
  ℕ, suc, ◌+◌, ◌≤◌, String, Bool, Option, none, some, List, [], ◌∷◌, ◌≡◌, refl, ap, sym, arith, nat,
  positive, length, length-take_le, Option-cases, inl, inr,
}
use mathlib.Core.Path.{subst}
use jaa.Prelude.Options.{bind_inv, require_inv}
use jaa.Automation.Jobs.{AutomationJob, AutomationRun}
use jaa.Queue.Envelope.{Added, added, Envelope, enqueue, validate_enqueue_automation_job_input}
use jaa.Queue.Bounds.{positive-nat}
use jaa.Dispatch.Loop.{
  Dispatch, start, dispatch_input, dispatch_one, dispatch_all, dispatch_selected, dispatch_batch,
  select_dispatchable, dispatch_automation_jobs,
}

pub some_inj : {A : Type 0} {a b : A} → ◌≡◌ {A = Option A} (some a) (some b) → a ≡ b
some_inj h = ground (arith, h)

select_dispatchable_le :
    (text_le : String → String → Bool) (n now : ℕ) (user_id : Option String)
    (runs : List AutomationRun) (jobs : List AutomationJob)
    → length (select_dispatchable text_le n now user_id runs jobs) ≤ n
unfolding select_dispatchable
select_dispatchable_le text_le n now user_id runs jobs = length-take_le n _

module _ (normalize : String → String) (accepts : Added → Bool) (clock : ℕ) where
  -- An accepted envelope goes in front of the jobs.
  pub enqueue-eq-some :
      (job : AutomationJob) (jobs : List Added) {out : List Added}
      → enqueue normalize accepts clock (dispatch_input job) jobs ≡ some out
      → (envelope : Envelope) × (validate_enqueue_automation_job_input (dispatch_input job)
          ≡ some envelope)
        × (out ≡ added normalize clock envelope ∷ jobs)
  unfolding enqueue
  enqueue-eq-some job jobs {out} h =
      let (envelope, valid, h1) =
        bind_inv (validate_enqueue_automation_job_input (dispatch_input job)) _ h in
      let (accepted, h2) = require_inv (accepts (added normalize clock envelope)) _ h1 in
      (envelope, valid, ground (arith, h2))

  pub record Counts (jobs : List AutomationJob) (d d' : Dispatch) : Type 0 where
    pub all_counted : d'.dispatched + d'.failed ≡ d.dispatched + d.failed + length jobs
    pub audited : length d'.audits + d.failed ≡ length d.audits + d'.failed
    pub enqueued : length d'.added + d.dispatched ≡ length d.added + d'.dispatched

  dispatch_one-Counts :
      (job : AutomationJob) (d : Dispatch)
      → Counts (job ∷ []) d (dispatch_one normalize accepts clock job d)
  unfolding dispatch_one
  dispatch_one-Counts job d =
      elim (Option-cases (enqueue normalize accepts clock (dispatch_input job) d.added)) [
        | inl e ↦ rw e (omega arith)
        | inr (out, e) ↦
            let (envelope, valid, same) = enqueue-eq-some job d.added e in
            let longer : length out ≡ suc (length d.added) = ap length same in
            rw e (omega (arith, longer))
      ]

  dispatch_all-Counts :
      (jobs : List AutomationJob) (d : Dispatch)
      → Counts jobs d (dispatch_all normalize accepts clock jobs d)
  unfolding dispatch_all
  dispatch_all-Counts [] d = omega arith
  dispatch_all-Counts (job ∷ jobs) d =
      let one = dispatch_one-Counts job d in
      let rest = dispatch_all-Counts jobs (dispatch_one normalize accepts clock job d) in
      omega (arith, one, rest)

  pub dispatch_batch_inv :
      (text_le : String → String → Bool) (now : ℕ) (user_id : Option String)
      (runs : List AutomationRun) (jobs : List AutomationJob) (before : List Added)
      (size : Option ℕ) {r : ℕ × Dispatch}
      → dispatch_batch text_le normalize accepts clock now user_id runs jobs before size ≡ some r
      → (n : ℕ) × (size ≡ some n)
        × (dispatch_selected normalize accepts clock before
              (select_dispatchable text_le n now user_id runs jobs)
            ≡ r)
  dispatch_batch_inv text_le now user_id runs jobs before none h = cc
  dispatch_batch_inv text_le now user_id runs jobs before (some n) h = (n, refl, some_inj h)

  counts_of :
      (before : List Added) (chosen : List AutomationJob) (batch_size : ℕ) {selected : ℕ}
      {d : Dispatch}
      → length chosen ≤ batch_size
      → dispatch_selected normalize accepts clock before chosen ≡ (selected, d)
      → (selected ≤ batch_size)
        × (d.dispatched + d.failed ≡ selected)
        × (length d.audits ≡ d.failed)
        × (length d.added ≡ length before + d.dispatched)
  counts_of before chosen batch_size {selected} {d} h same =
      let c = dispatch_all-Counts chosen (start before) in
      let first : length chosen ≡ selected = ap (λ r. r.0) same in
      let second : dispatch_all normalize accepts clock chosen (start before) ≡ d =
        ap (λ r. r.1) same in
      let c' : Counts chosen (start before) d = subst (Counts chosen (start before)) second c in
      omega (arith, first, h, c')

  -- If a dispatch runs, with a batch size that is given, it selects at most that many jobs, and counts each
  -- as dispatched or as failed; each failure leaves one audit row, and each dispatched job is one more that
  -- BullMQ took.
  pub dispatch-Counts :
      (text_le : String → String → Bool) (now : ℕ) (batch_size : ℕ) (user_id : Option String)
      (runs : List AutomationRun) (jobs : List AutomationJob) (before : List Added) {selected : ℕ}
      {d : Dispatch}
      → dispatch_automation_jobs text_le normalize accepts clock now
          (some (nat batch_size))
          user_id
          runs
          jobs
          before
        ≡ some (selected, d)
      → (selected ≤ batch_size)
        × (d.dispatched + d.failed ≡ selected)
        × (length d.audits ≡ d.failed)
        × (length d.added ≡ length before + d.dispatched)
  unfolding dispatch_automation_jobs
  dispatch-Counts text_le now batch_size user_id runs jobs before {selected} {d} h =
      let (n, size, same) =
        dispatch_batch_inv text_le now user_id runs jobs before (positive (nat batch_size)) h in
      counts_of before (select_dispatchable text_le n now user_id runs jobs) batch_size
        (subst (λ b. length (select_dispatchable text_le n now user_id runs jobs) ≤ b)
          (sym (positive-nat batch_size n size))
          (select_dispatchable_le text_le n now user_id runs jobs))
        same
