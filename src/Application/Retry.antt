-- ===== src/Application/Retry.antt =====
-- A request that is sent again after it was committed: `findReplay` of
-- apps/api/src/services/application-state-machine.ts recognises it.
use jaa.Prelude.{
  ℕ, ◌+◌, true, false, String, List, Option, none, some, ◌≡◌, refl, sym, arith, positive, find, any,
  count, ok, ==_iff, ◌===◌, eq_iff, eq_refl, null_eq, find_holds, find-append, find-update,
  find-eq-none, >>=-eq-ok, ◌>>=◌, ◌∙◌,
}
use mathlib.Core.Bool.{and-eq-true_iff}
use mathlib.Core.Path.{subst}
use jaa.Json.Reordering.{same_json_refl}
use jaa.Application.Status.{status_eq_refl}
use jaa.Application.Store.{
  Application, Db, Transition, TransitionActor, user, TransitionInput, TransitionResult,
}
use jaa.Application.Machine.{
  validate_input, find_replay, has_key, owns, is_same_request, apply_status, is_current,
  new_transition, actor_eq, effective_time, transition_application_in_tenant,
}
use jaa.Application.History.{apply_all}
use jaa.Application.Later.{IsRecorded, apply_all-IsRecorded}
use jaa.Application.Steps.{committed, validate_input_inv, transition_commits}

actor_eq_refl : (a : TransitionActor) → actor_eq a a ≡ true
actor_eq_refl user = refl
actor_eq_refl _ = refl

null_eq_refl : (s : Option String) → null_eq s s ≡ true
null_eq_refl none = refl
null_eq_refl (some s) = eq_refl s

-- The input is checked before the store is read.
validate_input_elsewhere :
    (input : TransitionInput) (db db' db'' : Db) (version : ℕ)
    → validate_input input db ≡ ok (version, db')
    → validate_input input db'' ≡ ok (version, db'')
unfolding validate_input
validate_input_elsewhere input db db' db'' version e = ground arith

-- What a step that returns shows of its input, at any store.
validated :
    (others : Db → Db) (clock : ℕ) (input : TransitionInput) (db db' : Db) (r : TransitionResult)
    → transition_application_in_tenant others clock input db ≡ ok (r, db')
    → (version : ℕ) × (positive input.expected_version ≡ some version)
      × ((db'' : Db) → validate_input input db'' ≡ ok (version, db''))
unfolding transition_application_in_tenant
validated others clock input db db' r e =
    let (version, db1, valid, _) = >>=-eq-ok (validate_input input) _ db e in
    (
      version,
      (validate_input_inv input db db1 version valid).0,
      λ db''. validate_input_elsewhere input db db1 db'' version valid,
    )

new_transition-is_same_request :
    (current : Application) (version : ℕ) (input : TransitionInput)
    → current.id === input.application_id ≡ true
    → is_same_request version input (new_transition current version input) ≡ true
unfolding is_same_request new_transition
new_transition-is_same_request current version input h = simp (
  h,
  eq_refl,
  status_eq_refl,
  actor_eq_refl,
  null_eq_refl,
  same_json_refl,
  (==_iff (version + 1) (version + 1)).1 refl,
)

new_transition-has_key :
    (current : Application) (version : ℕ) (input : TransitionInput)
    → has_key input.user_id input.idempotency_key (new_transition current version input) ≡ true
unfolding new_transition
new_transition-has_key current version input = simp (eq_refl)

owns-apply_status :
    (current : Application) (version : ℕ) (input : TransitionInput) (now : ℕ)
    → owns input.application_id input.user_id current ≡ true
    → (a : Application) → is_current current version input a ≡ true
    → owns input.application_id input.user_id (apply_status input now a) ≡ true
unfolding apply_status
owns-apply_status current version input now h a k = ground (
  arith,
  eq_iff a.id current.id,
  eq_iff a.user_id input.user_id,
  eq_iff current.id input.application_id,
  eq_iff a.id input.application_id,
  eq_iff current.user_id input.user_id,
)

replay_found :
    (version : ℕ) (input : TransitionInput) (db : Db) (t : Transition) (a : Application)
    → find (has_key input.user_id input.idempotency_key) db.transitions ≡ some t
    → is_same_request version input t ≡ true
    → find (owns input.application_id input.user_id) db.applications ≡ some a
    → find_replay version input db
      ≡ ok (some (record { application = a; transition = t; replayed = true }), db)
unfolding find_replay
replay_found version input db t a logged same found = ground arith

-- What a commit records under its key.
new_transition-IsRecorded :
    (current : Application) (version : ℕ) (input : TransitionInput) (now : ℕ) (db : Db)
    → owns input.application_id input.user_id current ≡ true
    → any (has_key input.user_id input.idempotency_key) db.transitions ≡ false
    → count (is_current current version input) db.applications ≡ 1
    → IsRecorded input.application_id input.user_id input.idempotency_key
        (new_transition current version input)
        (committed current version input now db)
new_transition-IsRecorded current version input now db mine unused one =
    let (a, found) =
      find-update (is_current current version input) (owns input.application_id input.user_id)
        (apply_status input now) db.applications (owns-apply_status current version input now mine)
        (omega arith) in
    record {
      application = a;
      logged =
          find-append _ db.transitions _ (find-eq-none _ db.transitions unused)
          ∙ rw (new_transition-has_key current version input) refl;
      owned = found;
    }

resume_replay :
    (others : Db → Db) (clock version : ℕ) (input : TransitionInput) (db : Db)
    (found : TransitionResult)
    → validate_input input db ≡ ok (version, db)
    → find_replay version input db ≡ ok (some found, db)
    → transition_application_in_tenant others clock input db ≡ ok (found, db)
unfolding transition_application_in_tenant
resume_replay others clock version input db found valid searched =
    rw (valid, ◌>>=◌) (rw (searched, ◌>>=◌) refl)

-- A recorded request is answered from the log.
replay_recorded :
    (others : Db → Db) (clock version : ℕ) (input : TransitionInput) (t : Transition) (db : Db)
    → IsRecorded input.application_id input.user_id input.idempotency_key t db
    → is_same_request version input t ≡ true
    → validate_input input db ≡ ok (version, db)
    → (a : Application) × (transition_application_in_tenant others clock input db
        ≡ ok (record { application = a; transition = t; replayed = true }, db))
replay_recorded others clock version input t db recorded same valid = (
  recorded.application,
  resume_replay others clock version input db _ valid
      (replay_found version input db t recorded.application recorded.logged same recorded.owned),
)

-- A request that committed a transition is safe to send again: after any further calls of
-- `transitionApplication`, one after the other, and whatever the clock then says, it returns the same transition as a replay,
-- and the store does not change.
pub retry_replays :
    (others : Db → Db) (clock : ℕ) (input : TransitionInput) (db db' : Db) (r : TransitionResult)
    → transition_application_in_tenant others clock input db ≡ ok (r, db')
    → r.replayed ≡ false
    → (calls : List (ℕ × TransitionInput)) (others' : Db → Db) (clock' : ℕ)
    → (a : Application) × (transition_application_in_tenant others' clock' input
          (apply_all calls db')
        ≡ ok (
          record { application = a; transition = r.transition; replayed = true },
          apply_all calls db',
        ))
retry_replays others clock input db db' r e fresh calls others' clock' =
    let (c, _) = transition_commits others clock input db db' r e fresh in
    let (version, positive_version, valid) = validated others clock input db db' r e in
    let same : c.version ≡ version = cc (c.expected, positive_version) in
    let mine = find_holds _ db.applications c.found in
    let recorded =
      new_transition-IsRecorded c.current c.version input (effective_time clock input.effective_at)
        (others db) mine c.still_unused c.still_current in
    let later =
      apply_all-IsRecorded calls db' input.application_id input.user_id input.idempotency_key
        (new_transition c.current c.version input) (rw c.written recorded) in
    let agrees =
      new_transition-is_same_request c.current c.version input ((and-eq-true_iff _ _).0 mine).0 in
    subst
      (λ t.
        (a : Application) × (transition_application_in_tenant others' clock' input
            (apply_all calls db')
          ≡ ok (record { application = a; transition = t; replayed = true }, apply_all calls db')))
      (sym c.logged)
      (replay_recorded others' clock' c.version input (new_transition c.current c.version input)
        (apply_all calls db') later agrees (rw same (valid (apply_all calls db'))))
