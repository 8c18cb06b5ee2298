-- ===== src/Application/Status.antt =====
-- The transition table of apps/api/src/services/application-state-machine.ts.
use jaa.Prelude.{ℕ, Bool, true, List, [], ◌∷◌, ◌≡◌, refl, sym, ap, ◌∙◌, ◌==◌, ==_iff, any, String}

pub data ApplicationStatus : Type 0 where
  discovered qualified skipped resume_generated resume_validated ats_validated queued
        application_started form_filled waiting_for_user ready_to_submit submission_pending
        submitted unconfirmed confirmed assessment failed retry_pending interview rejected offer
        accepted withdrawn :
      ApplicationStatus

unfoldable pub transitions : ApplicationStatus → List ApplicationStatus
transitions discovered = qualified ∷ skipped ∷ []
transitions qualified = resume_generated ∷ skipped ∷ failed ∷ []
transitions skipped = []
transitions resume_generated = resume_validated ∷ failed ∷ []
transitions resume_validated = ats_validated ∷ failed ∷ []
transitions ats_validated = queued ∷ skipped ∷ failed ∷ []
transitions queued = application_started ∷ retry_pending ∷ failed ∷ withdrawn ∷ []
transitions application_started =
    form_filled ∷ waiting_for_user ∷ retry_pending ∷ failed ∷ withdrawn ∷ []
transitions form_filled =
    waiting_for_user ∷ ready_to_submit ∷ retry_pending ∷ failed ∷ withdrawn ∷ []
transitions waiting_for_user = form_filled ∷ ready_to_submit ∷ failed ∷ withdrawn ∷ []
transitions ready_to_submit = submission_pending ∷ waiting_for_user ∷ failed ∷ withdrawn ∷ []
transitions submission_pending =
    ready_to_submit ∷ waiting_for_user ∷ unconfirmed ∷ retry_pending ∷ failed ∷ []
transitions submitted = unconfirmed ∷ []
transitions unconfirmed = confirmed ∷ retry_pending ∷ failed ∷ []
transitions confirmed = assessment ∷ interview ∷ rejected ∷ offer ∷ withdrawn ∷ []
transitions assessment = interview ∷ offer ∷ rejected ∷ withdrawn ∷ []
transitions failed = retry_pending ∷ withdrawn ∷ []
transitions retry_pending = queued ∷ application_started ∷ failed ∷ withdrawn ∷ []
transitions interview = interview ∷ offer ∷ rejected ∷ withdrawn ∷ []
transitions rejected = []
transitions offer = accepted ∷ rejected ∷ withdrawn ∷ []
transitions accepted = []
transitions withdrawn = []

-- The place of a status in the enumeration, by which two are compared.
abbrev index : ApplicationStatus → ℕ
index discovered = 0
index qualified = 1
index skipped = 2
index resume_generated = 3
index resume_validated = 4
index ats_validated = 5
index queued = 6
index application_started = 7
index form_filled = 8
index waiting_for_user = 9
index ready_to_submit = 10
index submission_pending = 11
index submitted = 12
index unconfirmed = 13
index confirmed = 14
index assessment = 15
index failed = 16
index retry_pending = 17
index interview = 18
index rejected = 19
index offer = 20
index accepted = 21
index withdrawn = 22

abbrev nth : ℕ → List ApplicationStatus → ApplicationStatus
nth n [] = withdrawn
nth Prim.Native.Nat.zero (s ∷ ss) = s
nth (Prim.Native.Nat.suc n) (s ∷ ss) = nth n ss

abbrev pub all_statuses : List ApplicationStatus
all_statuses =
    discovered ∷ qualified ∷ skipped ∷ resume_generated ∷ resume_validated ∷ ats_validated ∷ queued
    ∷ application_started ∷ form_filled ∷ waiting_for_user ∷ ready_to_submit ∷ submission_pending
    ∷ submitted ∷ unconfirmed ∷ confirmed ∷ assessment ∷ failed ∷ retry_pending ∷ interview
    ∷ rejected ∷ offer ∷ accepted ∷ withdrawn ∷ []

nth-index : (s : ApplicationStatus) → nth (index s) all_statuses ≡ s
nth-index discovered = refl
nth-index _ = refl

-- `===` on statuses.
unfoldable pub status_eq : ApplicationStatus → ApplicationStatus → Bool
status_eq a b = index a == index b

pub status_eq_sound : (a b : ApplicationStatus) → status_eq a b ≡ true → a ≡ b
unfolding status_eq
status_eq_sound a b h =
    sym (nth-index a) ∙ (ap (λ n. nth n all_statuses) ((==_iff _ _).0 h) ∙ nth-index b)

pub status_eq_refl : (a : ApplicationStatus) → status_eq a a ≡ true
unfolding status_eq
status_eq_refl a = (==_iff _ _).1 refl

-- `transitions[from].includes(to)`.
unfoldable pub can_transition : ApplicationStatus → ApplicationStatus → Bool
can_transition from to = any (status_eq to) (transitions from)

unfoldable pub allowed_transitions : ApplicationStatus → List ApplicationStatus
allowed_transitions from = transitions from

-- The text that the enumeration's value is.
abbrev pub status_name : ApplicationStatus → String
status_name discovered = "DISCOVERED"
status_name qualified = "QUALIFIED"
status_name skipped = "SKIPPED"
status_name resume_generated = "RESUME_GENERATED"
status_name resume_validated = "RESUME_VALIDATED"
status_name ats_validated = "ATS_VALIDATED"
status_name queued = "QUEUED"
status_name application_started = "APPLICATION_STARTED"
status_name form_filled = "FORM_FILLED"
status_name waiting_for_user = "WAITING_FOR_USER"
status_name ready_to_submit = "READY_TO_SUBMIT"
status_name submission_pending = "SUBMISSION_PENDING"
status_name submitted = "SUBMITTED"
status_name unconfirmed = "UNCONFIRMED"
status_name confirmed = "CONFIRMED"
status_name assessment = "ASSESSMENT"
status_name failed = "FAILED"
status_name retry_pending = "RETRY_PENDING"
status_name interview = "INTERVIEW"
status_name rejected = "REJECTED"
status_name offer = "OFFER"
status_name accepted = "ACCEPTED"
status_name withdrawn = "WITHDRAWN"
