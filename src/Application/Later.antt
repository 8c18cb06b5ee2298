-- ===== src/Application/Later.antt =====
-- What later calls of `transitionApplication` leave of a store: log rows and applications stay findable.
use mathlib.Core.Option
use jaa.Prelude.{
  ℕ, true, false, String, some, List, [], ◌∷◌, ◌++◌, ◌≡◌, refl, ap, ◌∙◌, arith, Bool, find,
  find-update_keeps, Bool-cases, Result-cases, inl, inr, is_blank, if◌then◌else◌,
}
use jaa.Application.Store.{Application, Transition, Db, TransitionInput}
use jaa.Application.Machine.{
  has_key, owns, apply_status, is_current, transition_application, transition_application_in_tenant,
}
use jaa.Application.Steps.{committed, transition_commits, transition_replays}
use jaa.Application.History.{apply_all}

-- A row that a search finds is still found when rows are added behind.
find-append_hit :
    {A : Type 0} (p : A → Bool) (xs ys : List A) (y : A)
    → find p xs ≡ some y
    → find p (xs ++ ys) ≡ some y
find-append_hit p [] ys y h = cc
find-append_hit p (x ∷ xs) ys y h = ground (arith, find-append_hit p xs ys y)

-- Under a key a log row is recorded, and the user owns the application.
pub record IsRecorded (id user_id key : String) (t : Transition) (db : Db) : Type 0 where
  pub application : Application
  pub logged : find (has_key user_id key) db.transitions ≡ some t
  pub owned : find (owns id user_id) db.applications ≡ some application

apply_status-owns :
    (id user_id : String) (input : TransitionInput) (now : ℕ) (p : Bool) (a : Application)
    → owns id user_id (if p then apply_status input now a else a) ≡ owns id user_id a
unfolding apply_status
apply_status-owns id user_id input now true a = refl
apply_status-owns id user_id input now false a = refl

committed-IsRecorded :
    (current : Application) (version : ℕ) (input : TransitionInput) (now : ℕ) (db : Db)
    (id user_id key : String) (t : Transition)
    → IsRecorded id user_id key t db
    → IsRecorded id user_id key t (committed current version input now db)
committed-IsRecorded current version input now db id user_id key t r =
    let p = is_current current version input in
    let f = apply_status input now in
    record {
      application = if p r.application then f r.application else r.application;
      logged = find-append_hit (has_key user_id key) db.transitions _ t r.logged;
      owned =
          find-update_keeps p (owns id user_id) f db.applications
            (λ a. apply_status-owns id user_id input now (p a) a)
          ∙ ap (λ o. Option.map (λ x. if p x then f x else x) o) r.owned;
    }

step-IsRecorded :
    (clock : ℕ) (input : TransitionInput) (db : Db) (id user_id key : String) (t : Transition)
    → IsRecorded id user_id key t db
    → IsRecorded id user_id key t (transition_application (λ meanwhile. meanwhile) clock input db).1
unfolding transition_application
step-IsRecorded clock input db id user_id key t h = elim (Bool-cases (is_blank input.user_id)) [
  | inl blank ↦ rw blank h
  | inr named ↦
      elim (Result-cases
        (transition_application_in_tenant (λ meanwhile. meanwhile) clock input db)) [
          | inr (x, e) ↦ rw (named, e) h
          | inl ((r, db'), e) ↦ elim (Bool-cases r.replayed) [
            | inl replayed ↦
                let (kept, _, _, _, _) =
                  transition_replays (λ meanwhile. meanwhile) clock input db db' r e replayed in
                rw (named, e) (rw kept h)
            | inr fresh ↦
                let (c, _) =
                  transition_commits (λ meanwhile. meanwhile) clock input db db' r e fresh in
                rw (named, e)
                  (rw c.written
                    (committed-IsRecorded c.current c.version input _ db id user_id key t h))
          ]
        ]
]

pub apply_all-IsRecorded :
    (calls : List (ℕ × TransitionInput)) (db : Db) (id user_id key : String) (t : Transition)
    → IsRecorded id user_id key t db
    → IsRecorded id user_id key t (apply_all calls db)
unfolding apply_all
apply_all-IsRecorded [] db id user_id key t h = h
apply_all-IsRecorded ((clock, input) ∷ calls) db id user_id key t h =
    apply_all-IsRecorded calls _ id user_id key t
      (step-IsRecorded clock input db id user_id key t h)
