-- ===== src/Application/Graph.antt =====
-- What the transition table allows over any number of transitions.
use jaa.Prelude.{
  Bool, true, false, List, [], ◌∷◌, ◌≡◌, ◌≢◌, inl, inr, refl, all, any, ◌||◌, Bool-cases,
}
use mathlib.Core.Bool.{and-eq-true_iff}
use jaa.Application.Status.{
  ApplicationStatus, discovered, ready_to_submit, submission_pending, submitted, unconfirmed,
  confirmed, assessment, interview, rejected, offer, accepted, withdrawn, transitions,
  can_transition, status_eq, status_eq_sound,
}

-- A walk through the table.
pub data Reach (s : ApplicationStatus) : ApplicationStatus → Type 0 where
  here : Reach s s
  next : {t u : ApplicationStatus} → Reach s t → can_transition t u ≡ true → Reach s u

-- A walk of which no status but the last is `avoided`.
pub data ReachAvoiding (avoided s : ApplicationStatus) : ApplicationStatus → Type 0 where
  here : ReachAvoiding avoided s s
  next :
      {t u : ApplicationStatus}
      → ReachAvoiding avoided s t
      → t ≢ avoided
      → can_transition t u ≡ true
      → ReachAvoiding avoided s u

all-any :
    (p : ApplicationStatus → Bool) (u : ApplicationStatus) (l : List ApplicationStatus)
    → all p l ≡ true
    → any (status_eq u) l ≡ true
    → p u ≡ true
all-any p u [] h k = cc
all-any p u (s ∷ l) h k = elim (Bool-cases (status_eq u s)) [
  | inl e ↦ rw (status_eq_sound u s e) ((and-eq-true_iff _ _).0 h).0
  | inr e ↦ all-any p u l ((and-eq-true_iff _ _).0 h).1 (rw (e, ◌||◌) at k)
]

-- A set of statuses that the table does not leave.
abbrev IsClosed : (ApplicationStatus → Bool) → Type 0
IsClosed p = (s : ApplicationStatus) → p s ≡ true → all p (transitions s) ≡ true

Reach-closed :
    (p : ApplicationStatus → Bool)
    → IsClosed p
    → {s t : ApplicationStatus} → p s ≡ true
    → Reach s t
    → p t ≡ true
unfolding can_transition
Reach-closed p c h here = h
Reach-closed p c h (next {t} {u} r step) =
    all-any p u (transitions t) (c t (Reach-closed p c h r)) step

is_not_submitted : ApplicationStatus → Bool
is_not_submitted submitted = false
is_not_submitted _ = true

is_not_submitted-IsClosed : IsClosed is_not_submitted
unfolding is_not_submitted transitions
is_not_submitted-IsClosed submitted h = cc
is_not_submitted-IsClosed _ h = refl

-- The statuses after a confirmation.
abbrev pub is_outcome : ApplicationStatus → Bool
is_outcome confirmed = true
is_outcome assessment = true
is_outcome interview = true
is_outcome rejected = true
is_outcome offer = true
is_outcome accepted = true
is_outcome withdrawn = true
is_outcome _ = false

is_outcome-IsClosed : IsClosed is_outcome
unfolding transitions
is_outcome-IsClosed discovered h = cc
is_outcome-IsClosed confirmed h = refl
is_outcome-IsClosed assessment h = refl
is_outcome-IsClosed interview h = refl
is_outcome-IsClosed rejected h = refl
is_outcome-IsClosed offer h = refl
is_outcome-IsClosed accepted h = refl
is_outcome-IsClosed withdrawn h = refl
is_outcome-IsClosed _ h = cc

-- The statuses that need no submission.
abbrev pub is_unsubmitted : ApplicationStatus → Bool
is_unsubmitted submitted = false
is_unsubmitted unconfirmed = false
is_unsubmitted confirmed = false
is_unsubmitted assessment = false
is_unsubmitted interview = false
is_unsubmitted rejected = false
is_unsubmitted offer = false
is_unsubmitted accepted = false
is_unsubmitted _ = true

is_unsubmitted-step :
    (s : ApplicationStatus)
    → is_unsubmitted s ≡ true
    → s ≢ submission_pending
    → all is_unsubmitted (transitions s) ≡ true
unfolding transitions
is_unsubmitted-step submission_pending h ne = absurd (ne refl)
is_unsubmitted-step submitted h ne = cc
is_unsubmitted-step unconfirmed h ne = cc
is_unsubmitted-step confirmed h ne = cc
is_unsubmitted-step assessment h ne = cc
is_unsubmitted-step interview h ne = cc
is_unsubmitted-step rejected h ne = cc
is_unsubmitted-step offer h ne = cc
is_unsubmitted-step accepted h ne = cc
is_unsubmitted-step _ h ne = refl

ReachAvoiding-is_unsubmitted :
    {s t : ApplicationStatus}
    → is_unsubmitted s ≡ true
    → ReachAvoiding submission_pending s t
    → is_unsubmitted t ≡ true
unfolding can_transition
ReachAvoiding-is_unsubmitted h here = h
ReachAvoiding-is_unsubmitted h (next {t} {u} r ne step) =
    all-any is_unsubmitted u (transitions t)
      (is_unsubmitted-step t (ReachAvoiding-is_unsubmitted h r) ne) step

-- An application that starts as discovered is never unconfirmed, confirmed, under assessment, in
-- interviews, rejected, offered or accepted without having been in SUBMISSION_PENDING before.
pub outcome_needs_submission :
    (t : ApplicationStatus)
    → ReachAvoiding submission_pending discovered t
    → is_unsubmitted t ≡ true
outcome_needs_submission t r = ReachAvoiding-is_unsubmitted refl r

-- No walk from DISCOVERED reaches SUBMITTED.
pub submitted_unreachable : (t : ApplicationStatus) → Reach discovered t → t ≢ submitted
unfolding is_not_submitted
submitted_unreachable t r e =
    let h : is_not_submitted t ≡ true =
      Reach-closed is_not_submitted is_not_submitted-IsClosed refl r in
    cc (rw e at h)

-- A confirmed application is never submitted again: it stays among the outcomes.
pub confirmed_stays : (t : ApplicationStatus) → Reach confirmed t → is_outcome t ≡ true
confirmed_stays t r = Reach-closed is_outcome is_outcome-IsClosed refl r

-- CONFIRMED is entered only from UNCONFIRMED, SUBMISSION_PENDING only from READY_TO_SUBMIT, and
-- ACCEPTED only from OFFER.
pub entries :
    (s : ApplicationStatus)
    → (can_transition s confirmed ≡ true → s ≡ unconfirmed)
      × (can_transition s submission_pending ≡ true → s ≡ ready_to_submit)
      × (can_transition s accepted ≡ true → s ≡ offer)
unfolding can_transition transitions status_eq
entries unconfirmed = (λ h. refl, λ h. cc, λ h. cc)
entries ready_to_submit = (λ h. cc, λ h. refl, λ h. cc)
entries offer = (λ h. cc, λ h. cc, λ h. refl)
entries _ = (λ h. cc, λ h. cc, λ h. cc)
