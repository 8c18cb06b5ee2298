-- ===== src/Verification/Pending.antt =====
-- Pending verifications of one application.
use jaa.Prelude.{
  ℕ, ◌+◌, ◌≤◌, Bool, true, false, not, String, List, [], ◌∷◌, ◌++◌, ◌≡◌, ap, sym, ◌∙◌, arith, ◌===◌,
  if◌then◌else◌, any, count, update, Result, ok, err, ◌>>=◌, ◌>>◌, return, >>=-eq-ok, require_inv,
}
use jaa.Prelude.Members.{count-append, count-update_le}
use jaa.Application.Store.{Application, AuditLog, OutboxData, TransitionResult, TransitionInput}
use jaa.Application.Machine.{transition_application_in_tenant}
use jaa.Application.Status.{status_eq, waiting_for_user}
use jaa.Verification.Store.{
  HumanVerification, Tables, VerificationError, is_pending, unique_violation,
  RequestHumanVerificationInput, ResolveHumanVerificationInput,
}
use jaa.Verification.Machine.{
  M, Surroundings, move, lifted, is_pending_for, record_event, wait_for_user, wait_transition,
  ignore,
}
use jaa.Verification.Handoff.{withdraw, withdrawal, resumption, resume_waiting}

module _ (user_id application_id : String) where
  abbrev pub open_count : List HumanVerification → ℕ
  open_count rows = count (is_pending_for user_id application_id) rows

  pending_only :
      (v : HumanVerification)
      → is_pending v.status ≡ false
      → is_pending_for user_id application_id v ≡ false
  pending_only v h = ground (arith, h)

  -- An update that ends rows opens none.
  pub open_count-update_le :
      (p : HumanVerification → Bool) (f : HumanVerification → HumanVerification)
      (rows : List HumanVerification)
      → ((v : HumanVerification) → is_pending (f v).status ≡ false)
      → open_count (update p f rows) ≤ open_count rows
  open_count-update_le p f rows closes =
      count-update_le p (is_pending_for user_id application_id) f rows
        (λ v. pending_only (f v) (closes v))

  pub open_count-append_one :
      (rows : List HumanVerification) (v : HumanVerification)
      → open_count (rows ++ (v ∷ [])) ≡ open_count rows + open_count (v ∷ [])
  open_count-append_one rows v = count-append (is_pending_for user_id application_id) rows (v ∷ [])

-- Steps that leave the verifications as they are.
abbrev pub Keeps : {A : Type 0} → M A → Type 0
Keeps {A} m = (s s' : Tables) (a : A) → m s ≡ ok (a, s') → s'.verifications ≡ s.verifications

pub if-Keeps : {A : Type 0} (b : Bool) (m k : M A) → Keeps m → Keeps k → Keeps (if b then m else k)
if-Keeps true m k hm hk = hm
if-Keeps false m k hm hk = hk

pub return-Keeps : {A : Type 0} (a : A) → Keeps (return a)
return-Keeps a s s' b h = sym (ap (λ t. t.verifications) (stored h))
  where
    stored :
        {A : Type 0} {a b : A} {s s' : Tables}
        → ◌≡◌ {A = Result VerificationError (A × Tables)} (ok (a, s)) (ok (b, s'))
        → s ≡ s'
    stored h = ground (arith, h)

pub bind-Keeps :
    {A B : Type 0} (m : M A) (f : A → M B) → Keeps m → ((a : A) → Keeps (f a)) → Keeps (m >>= f)
bind-Keeps m f hm hf s s' b h =
    let (a, t, first, second) = >>=-eq-ok m f s h in hf a t s' b second ∙ hm s t a first

pub then-Keeps : {B : Type 0} (m : M (Unit {0})) (k : M B) → Keeps m → Keeps k → Keeps (m >> k)
then-Keeps m k hm hk = bind-Keeps m (λ _. k) hm (λ _. hk)

lifted-Keeps :
    (s s' : Tables) (a : TransitionResult) (r : _)
    → lifted s r ≡ ok (a, s')
    → s'.verifications ≡ s.verifications
lifted-Keeps s s' a (ok r) h = ground (arith, h)
lifted-Keeps s s' a (err e) h = absurd (ground (arith, h))

move-Keeps : (around : Surroundings) (input : TransitionInput) → Keeps (move around input)
unfolding move
move-Keeps around input s s' a h =
    lifted-Keeps s s' a (transition_application_in_tenant around.others around.now input s.core) h

pub record_event-Keeps : (log : AuditLog) (e : OutboxData) → Keeps (record_event log e)
unfolding record_event
record_event-Keeps log e s s' a h =
    let (fresh, written) =
      require_inv (not (any (λ x. x.idempotency_key === e.idempotency_key) s.core.outbox_events))
        unique_violation _ s h in
    ground (arith, written)

pub wait_for_user-Keeps :
    (around : Surroundings) (t : ℕ) (input : RequestHumanVerificationInput) (a : Application)
    → Keeps (wait_for_user around t input a)
unfolding wait_for_user
wait_for_user-Keeps around t input a =
    if-Keeps (status_eq a.status waiting_for_user) _ _ (return-Keeps tt) (
      bind-Keeps (move around (wait_transition around t input a)) ignore (move-Keeps around _)
        (λ r. return-Keeps tt))

pub withdraw-Keeps :
    (around : Surroundings) (input : ResolveHumanVerificationInput) (v : HumanVerification)
    (a : Application)
    → Keeps (withdraw around input v a)
unfolding withdraw
withdraw-Keeps around input v a =
    if-Keeps (status_eq a.status waiting_for_user) _ _
      (bind-Keeps (move around (withdrawal input v a)) ignore (move-Keeps around _)
        (λ r. return-Keeps tt))
      (return-Keeps tt)

pub resume_waiting-Keeps :
    (around : Surroundings) (u c : String) (v : HumanVerification) (a : Application)
    → Keeps (resume_waiting around u c v a)
unfolding resume_waiting
resume_waiting-Keeps around u c v a =
    then-Keeps (move around (resumption u c v a) >>= ignore) (return true)
      (bind-Keeps (move around (resumption u c v a)) ignore (move-Keeps around _)
        (λ r. return-Keeps tt))
      (return-Keeps true)
