-- ===== src/Verification/Single.antt =====
-- One pending verification for an application at most.
use jaa.Prelude.{
  ℕ, ◌≤◌, Bool, true, false, not, ◌&&◌, String, Option, none, some, List, [], ◌∷◌, ◌++◌, ◌≡◌, refl,
  sym, arith, eq_iff, leb, any, find, find_holds, update, ok, ◌>>◌, expect_inv, require_inv,
  Bool-cases, inl, inr, is_blank, includes, utf16_length,
}
use mathlib.Core.Path.{subst}
use jaa.Application.Store.{Application}
use jaa.Application.Machine.{owns}
use jaa.Verification.Classification.{human_verification_kinds}
use jaa.Verification.Store.{
  expired, expired_at, HumanVerification, Tables, VerificationError, is_pending, not_found,
  conflict, unique_violation, RequestHumanVerificationInput,
}
use jaa.Verification.Machine.{
  M, Surroundings, is_pending_for, is_checkpoint, ended, has_request_key, has_verification_id,
  new_verification, wait_for_user, expire_overdue, valid_expiry, same_request, announce_request,
  insert_verification, create_request, answer_request, request_human_verification, requested_event,
  require_text,
}
use jaa.Verification.Pending.{
  open_count, open_count-update_le, open_count-append_one, Keeps, then-Keeps, return-Keeps,
  record_event-Keeps, wait_for_user-Keeps,
}

-- For every user and application.
abbrev pub IsSingle : Tables → Type 0
IsSingle s =
    (user_id application_id : String) → open_count user_id application_id s.verifications ≤ 1

pub text_inv :
    {B : Type 0} (value : String) (k : M B) (s : Tables) {r : B × Tables}
    → (require_text value >> k) s ≡ ok r
    → k s ≡ ok r
unfolding require_text
text_inv value k s h = (require_inv (not (is_blank value)) VerificationError.invalid k s h).1

none_open :
    (u a : String) (rows : List HumanVerification)
    → any (is_pending_for u a) rows ≡ false
    → open_count u a rows ≡ 0
none_open u a [] h = refl
none_open u a (v ∷ rows) h = ground (arith, none_open u a rows)

same_owner :
    (u a : String) (v : HumanVerification)
    → is_pending_for u a v ≡ true
    → (v.user_id ≡ u) × (v.application_id ≡ a)
same_owner u a v h =
    ((eq_iff v.user_id u).0 (ground (arith, h)), (eq_iff v.application_id a).0 (ground (arith, h)))

-- A new row where none is open.
appended :
    (rows : List HumanVerification) (v : HumanVerification)
    → any (is_pending_for v.user_id v.application_id) rows ≡ false
    → ((u a : String) → open_count u a rows ≤ 1)
    → (u a : String) → open_count u a (rows ++ (v ∷ [])) ≤ 1
appended rows v fresh single u a = elim (Bool-cases (is_pending_for u a v)) [
  | inr e ↦ ground (arith, open_count-append_one u a rows v, single u a, e)
  | inl e ↦
      let (user, application) = same_owner u a v e in
      let none : open_count u a rows ≡ 0 = none_open u a rows (rw (user, application) at fresh) in
      ground (arith, open_count-append_one u a rows v, none, e)
]

announce_request-Keeps :
    (around : Surroundings) (t : ℕ) (input : RequestHumanVerificationInput) (a : Application)
    → Keeps (announce_request around t input a)
unfolding announce_request
announce_request-Keeps around t input a =
    then-Keeps (wait_for_user around t input a) _ (wait_for_user-Keeps around t input a)
      (then-Keeps (requested_event around t input a) _ (record_event-Keeps _ _) (return-Keeps _))

insert_verification-IsSingle :
    (around : Surroundings) (t : ℕ) (input : RequestHumanVerificationInput) (a : Application)
    (rows : List HumanVerification) (s s' : Tables) (r : HumanVerification × Bool)
    → a.id ≡ input.application_id
    → ((u x : String) → open_count u x rows ≤ 1)
    → insert_verification around t input a rows s ≡ ok (r, s')
    → IsSingle s'
unfolding insert_verification
insert_verification-IsSingle around t input a rows s s' r same single h =
    let (checkpoint, h1) = require_inv (is_checkpoint a.status) conflict _ s h in
    let (fresh, h2) =
      require_inv (not (any (is_pending_for input.user_id input.application_id) rows)) conflict _ s
        h1 in
    let (new_id, h3) =
      require_inv (not (any (has_verification_id around.new_id) rows)) unique_violation _ s h2 in
    let new = new_verification around t input a in
    let kept =
      announce_request-Keeps around t input a (record s { verifications = rows ++ (new ∷ []) }) s' r
        h3 in
    let none : any (is_pending_for input.user_id a.id) rows ≡ false =
      rw same (ground (arith, fresh)) in
    λ u x. subst (λ vs. open_count u x vs ≤ 1) (sym kept) (appended rows new none single u x)

overdue_IsSingle :
    (u a : String) (now : ℕ) (s : Tables)
    → IsSingle s
    → (v x : String) → open_count v x (expire_overdue u a now s.verifications) ≤ 1
unfolding expire_overdue
overdue_IsSingle u a now s single v x = omega (
  arith,
  single v x,
  open_count-update_le v x (λ r. is_pending_for u a r && leb r.expires_at now)
      (ended expired now (expired_at now)) s.verifications (λ r. refl),
)

create_request-IsSingle :
    (around : Surroundings) (t : ℕ) (input : RequestHumanVerificationInput) (s s' : Tables)
    (r : HumanVerification × Bool)
    → create_request around t input s ≡ ok (r, s')
    → IsSingle s
    → IsSingle s'
unfolding create_request
create_request-IsSingle around t input s s' r h single =
    let (application, found, h1) =
      expect_inv (find (owns input.application_id input.user_id) s.core.applications) not_found _ s
        h in
    insert_verification-IsSingle around t input application
      (expire_overdue input.user_id input.application_id around.now s.verifications) s s' r
      (owned_id input.application_id input.user_id application
        (find_holds (owns input.application_id input.user_id) s.core.applications found))
      (overdue_IsSingle input.user_id input.application_id around.now s single) h1
  where
    owned_id : (id u : String) (a : Application) → owns id u a ≡ true → a.id ≡ id
    owned_id id u a e = (eq_iff a.id id).0 (ground (arith, e))

-- A change after which no more are open.
pub closes-IsSingle :
    (s s' : Tables) (p : HumanVerification → Bool) (f : HumanVerification → HumanVerification)
    → ((v : HumanVerification) → is_pending (f v).status ≡ false)
    → s'.verifications ≡ update p f s.verifications
    → IsSingle s
    → IsSingle s'
closes-IsSingle s s' p f closes e single u a =
    subst (λ vs. open_count u a vs ≤ 1) (sym e)
      (omega (arith, single u a, open_count-update_le u a p f s.verifications closes))

pub kept-IsSingle : (s s' : Tables) → s'.verifications ≡ s.verifications → IsSingle s → IsSingle s'
kept-IsSingle s s' e single u a = subst (λ vs. open_count u a vs ≤ 1) (sym e) (single u a)

answer_request-IsSingle :
    (around : Surroundings) (t : ℕ) (input : RequestHumanVerificationInput) (s s' : Tables)
    (r : HumanVerification × Bool) (o : Option HumanVerification)
    → answer_request around t input o s ≡ ok (r, s')
    → IsSingle s
    → IsSingle s'
answer_request-IsSingle around t input s s' r none h single =
    create_request-IsSingle around t input s s' r h single
answer_request-IsSingle around t input s s' r (some v) h single =
    let (same, h1) = require_inv (same_request around.stringify t input v) conflict _ s h in
    kept-IsSingle s s' (return-Keeps (v, true) s s' r h1) single

pub request-IsSingle :
    (around : Surroundings) (input : RequestHumanVerificationInput) (s s' : Tables)
    (r : HumanVerification × Bool)
    → request_human_verification around input s ≡ ok (r, s')
    → IsSingle s
    → IsSingle s'
unfolding request_human_verification
request-IsSingle around input s s' r h single =
    let h1 = text_inv input.user_id _ s h in
    let h2 = text_inv input.application_id _ s h1 in
    let h3 = text_inv input.type _ s h2 in
    let h4 = text_inv input.prompt _ s h3 in
    let h5 = text_inv input.correlation_id _ s h4 in
    let h6 = text_inv input.idempotency_key _ s h5 in
    let (known, h7) =
      require_inv (includes human_verification_kinds input.type) VerificationError.invalid _ s h6 in
    let (short, h8) =
      require_inv (leb (utf16_length input.prompt) 2000) VerificationError.invalid _ s h7 in
    let (t, soon, h9) =
      expect_inv (valid_expiry input.expires_at around.now) VerificationError.invalid _ s h8 in
    answer_request-IsSingle around t input s s' r
      (find (has_request_key input.user_id input.idempotency_key) s.verifications) h9 single
