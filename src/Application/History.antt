-- ===== src/Application/History.antt =====
-- The log of transitions accounts for the status of every application, over any sequence of calls
-- of `transitionApplication` (apps/api/src/services/application-state-machine.ts).
use mathlib.Core.List.{Memᴰ}
use jaa.Prelude.{
  ℕ, ◌+◌, true, String, some, List, [], ◌∷◌, ◌≡◌, ◌≢◌, arith, find, length, All-keep, ok,
  Result-cases, Bool-cases, inl, inr, is_blank,
}
use jaa.Application.Status.{discovered, confirmed, submitted}
use jaa.Application.Graph.{Reach, here, submitted_unreachable}
use jaa.Application.Store.{Application, Transition, Db, TransitionInput, TransitionResult}
use jaa.Application.Machine.{
  owns, is_verifier, transition_application, transition_application_in_tenant,
}
use jaa.Application.Steps.{transition_commits, transition_replays}
use jaa.Application.Chain.{
  Chain-length, Chain-Reach, Chain-last, All-Memᴰ, belongs, history, IsConsistent,
}
use jaa.Application.Commits.{committed-IsConsistent}

-- A step keeps the store consistent.
step-IsConsistent :
    (others : Db → Db) (clock : ℕ) (input : TransitionInput) (db db' : Db) (r : TransitionResult)
    → IsConsistent db
    → IsConsistent (others db)
    → transition_application_in_tenant others clock input db ≡ ok (r, db')
    → IsConsistent db'
step-IsConsistent others clock input db db' r before meanwhile e = elim (Bool-cases r.replayed) [
  | inl replayed ↦
      let (kept, _, _, _, _) = transition_replays others clock input db db' r e replayed in
      rw kept before
  | inr fresh ↦
      let (c, by_verifier) = transition_commits others clock input db db' r e fresh in
      rw c.written (
        committed-IsConsistent c.current c.version input _ (others db) meanwhile c.still_current
          c.allowed by_verifier)
]

-- `transitionApplication` keeps the store consistent, on every path, if what other transactions
-- commit meanwhile keeps it so: each application's log leads by allowed moves from DISCOVERED at
-- version 1 to its status and version, and only the verifier has confirmed.
pub transition-IsConsistent :
    (others : Db → Db) (clock : ℕ) (input : TransitionInput) (db : Db)
    → IsConsistent db
    → IsConsistent (others db)
    → IsConsistent (transition_application others clock input db).1
unfolding transition_application
transition-IsConsistent others clock input db before meanwhile =
    elim (Bool-cases (is_blank input.user_id)) [
      | inl blank ↦ rw blank before
      | inr named ↦ elim (Result-cases (transition_application_in_tenant others clock input db)) [
        | inl ((r, db'), e) ↦
            rw (named, e) (step-IsConsistent others clock input db db' r before meanwhile e)
        | inr (x, e) ↦ rw (named, e) meanwhile
      ]
    ]

-- A sequence of calls, one after the other.
unfoldable pub apply_all : List (ℕ × TransitionInput) → Db → Db
apply_all [] db = db
apply_all ((clock, input) ∷ calls) db =
    apply_all calls (transition_application (λ meanwhile. meanwhile) clock input db).1

pub apply_all-IsConsistent :
    (calls : List (ℕ × TransitionInput)) (db : Db)
    → IsConsistent db
    → IsConsistent (apply_all calls db)
unfolding apply_all
apply_all-IsConsistent [] db h = h
apply_all-IsConsistent ((clock, input) ∷ calls) db h =
    apply_all-IsConsistent calls _
      (transition-IsConsistent (λ meanwhile. meanwhile) clock input db h h)

-- In a consistent store an application's version is one more than the number of its log rows, its
-- status is reachable from DISCOVERED by the table, and it is never SUBMITTED.
pub version_counts_log :
    (db : Db) (id user_id : String) (a : Application)
    → IsConsistent db
    → find (owns id user_id) db.applications ≡ some a
    → (a.version ≡ length (history id user_id db) + 1)
      × Reach discovered a.status
      × (a.status ≢ submitted)
version_counts_log db id user_id a consistent found =
    let chain = consistent.recorded id user_id a found in
    let reach : Reach discovered a.status =
      Chain-Reach discovered discovered 1 _ a.status a.version here chain in
    (
      omega (arith, Chain-length discovered 1 (history id user_id db) a.status a.version chain),
      reach,
      submitted_unreachable a.status reach,
    )

-- After any calls of `transitionApplication`, one after the other, on a consistent store, a confirmed
-- application has a log row of its own by which the verifier moved it to CONFIRMED.
pub confirmed_by_verifier :
    (calls : List (ℕ × TransitionInput)) (db : Db) (id user_id : String) (a : Application)
    → IsConsistent db
    → find (owns id user_id) (apply_all calls db).applications ≡ some a
    → a.status ≡ confirmed
    → (t : Transition) × Memᴰ t (history id user_id (apply_all calls db))
      × (t.to_status ≡ confirmed)
      × (is_verifier t.actor_type ≡ true)
confirmed_by_verifier calls db id user_id a before found status =
    let after = apply_all calls db in
    let consistent = apply_all-IsConsistent calls db before in
    let (t, m, to) =
      Chain-last discovered 1 (history id user_id after) confirmed a.version
        (rw status at (consistent.recorded id user_id a found)) (λ e. cc) in
    let mine = All-keep _ (belongs id user_id) after.transitions consistent.verified in
    (t, m, to, All-Memᴰ _ (history id user_id after) t mine m to)
