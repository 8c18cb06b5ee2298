-- ===== src/Application/Steps.antt =====
-- What a transition has done when it returns, whatever other transactions commit meanwhile.
use jaa.Prelude.{
  ℕ, true, false, Option, none, some, [], ◌∷◌, ◌++◌, ◌≡◌, ◌⊎◌, inl, inr, >>=-eq-ok, arith, positive,
  find, any, count, update, ok, Option-cases,
}
use jaa.Application.Status.{can_transition, confirmed, status_eq_refl}
use jaa.Application.Store.{Application, Db, TransitionInput, TransitionResult}
use jaa.Application.Machine.{
  validate_input, find_replay, has_key, owns, is_same_request, apply_status, is_current,
  new_transition, new_audit, new_event, is_verifier, effective_time, resume, write_transition,
  fresh_transition, transition_application_in_tenant,
}

-- The store after a commit: one application row moved, and one row added to each log.
abbrev pub committed : Application → ℕ → TransitionInput → ℕ → Db → Db
committed current version input now db = record {
  applications = update (is_current current version input) (apply_status input now) db.applications;
  transitions = db.transitions ++ new_transition current version input ∷ [];
  audit_logs = db.audit_logs ++ new_audit current input ∷ [];
  outbox_events = db.outbox_events ++ new_event current version input ∷ [];
}

write_transition_inv :
    (current : Application) (version : ℕ) (input : TransitionInput) (now : ℕ) (db db' : Db)
    (r : TransitionResult)
    → write_transition current version input now db ≡ ok (r, db')
    → (count (is_current current version input) db.applications ≡ 1)
      × (any (has_key input.user_id input.idempotency_key) db.transitions ≡ false)
      × (db' ≡ committed current version input now db)
      × (r.transition ≡ new_transition current version input)
      × (r.replayed ≡ false)
unfolding write_transition
write_transition_inv current version input now db db' r e = ground arith

-- What a committed transition rests on.
pub record IsCommit (others : Db → Db) (clock : ℕ) (input : TransitionInput) (db db' : Db)
    (r : TransitionResult) : Type 0 where
  pub version : ℕ
  pub current : Application
  pub expected : positive input.expected_version ≡ some version
  pub unused : find (has_key input.user_id input.idempotency_key) db.transitions ≡ none
  pub found : find (owns input.application_id input.user_id) db.applications ≡ some current
  pub matching : current.version ≡ version
  pub allowed : can_transition current.status input.to_status ≡ true
  pub still_current : count (is_current current version input) (others db).applications ≡ 1
  pub still_unused :
      any (has_key input.user_id input.idempotency_key) (others db).transitions ≡ false
  pub written :
      db' ≡ committed current version input (effective_time clock input.effective_at) (others db)
  pub logged : r.transition ≡ new_transition current version input

fresh_transition_inv :
    (others : Db → Db) (clock version : ℕ) (input : TransitionInput) (db db' : Db)
    (r : TransitionResult)
    → positive input.expected_version ≡ some version
    → find (has_key input.user_id input.idempotency_key) db.transitions ≡ none
    → fresh_transition others clock version input db ≡ ok (r, db')
    → IsCommit others clock input db db' r × (r.replayed ≡ false)
unfolding fresh_transition
fresh_transition_inv others clock version input db db' r ex un e =
    elim (Option-cases (find (owns input.application_id input.user_id) db.applications)) [
      | inl none_found ↦ absurd (ground (arith, none_found))
      | inr (current, found) ↦
          let matching : current.version ≡ version = ground arith in
          let allowed : can_transition current.status input.to_status ≡ true = ground arith in
          let wrote : write_transition current version input
                (effective_time clock input.effective_at) (others db)
              ≡ ok (r, db') =
            ground arith in
          let (one, unused, written, logged, not_replayed) =
            write_transition_inv current version input _ (others db) db' r wrote in
          (
            record {
              version = version;
              current = current;
              expected = ex;
              unused = un;
              found = found;
              matching = matching;
              allowed = allowed;
              still_current = one;
              still_unused = unused;
              written = written;
              logged = logged;
            },
            not_replayed,
          )
    ]

pub validate_input_inv :
    (input : TransitionInput) (db db' : Db) (version : ℕ)
    → validate_input input db ≡ ok (version, db')
    → (positive input.expected_version ≡ some version)
      × (db' ≡ db)
      × ((input.to_status ≡ confirmed) → is_verifier input.actor_type ≡ true)
unfolding validate_input
validate_input_inv input db db' version e =
    (ground arith, ground arith, λ h. ground (arith, status_eq_refl confirmed))

find_replay-none_inv :
    (version : ℕ) (input : TransitionInput) (db db' : Db)
    → find_replay version input db ≡ ok (none, db')
    → (find (has_key input.user_id input.idempotency_key) db.transitions ≡ none) × (db' ≡ db)
unfolding find_replay
find_replay-none_inv version input db db' e = ground arith

find_replay-some_inv :
    (version : ℕ) (input : TransitionInput) (db db' : Db) (r : TransitionResult)
    → find_replay version input db ≡ ok (some r, db')
    → (find (has_key input.user_id input.idempotency_key) db.transitions ≡ some r.transition)
      × (is_same_request version input r.transition ≡ true)
      × (find (owns input.application_id input.user_id) db.applications ≡ some r.application)
      × (r.replayed ≡ true)
      × (db' ≡ db)
unfolding find_replay
find_replay-some_inv version input db db' r e = ground arith

resume_cases :
    (others : Db → Db) (clock version : ℕ) (input : TransitionInput) (db db2 db' : Db)
    (r : TransitionResult) (replay : Option TransitionResult)
    → find_replay version input db ≡ ok (replay, db2)
    → resume others clock version input replay db2 ≡ ok (r, db')
    → (find_replay version input db ≡ ok (some r, db'))
      ⊎ ((find_replay version input db ≡ ok (none, db))
          × (fresh_transition others clock version input db ≡ ok (r, db')))
resume_cases others clock version input db db2 db' r none searched e =
    let same : db2 ≡ db = (find_replay-none_inv version input db db2 searched).1 in
    inr (rw same at searched, rw same at e)
resume_cases others clock version input db db2 db' r (some found) searched e = inl (cc)

-- A step that returns either replayed a recorded transition or committed a new one.
transition_cases :
    (others : Db → Db) (clock : ℕ) (input : TransitionInput) (db db' : Db) (r : TransitionResult)
    → transition_application_in_tenant others clock input db ≡ ok (r, db')
    → (version : ℕ) × (positive input.expected_version ≡ some version)
      × ((input.to_status ≡ confirmed) → is_verifier input.actor_type ≡ true)
      × ((find_replay version input db ≡ ok (some r, db'))
          ⊎ ((find_replay version input db ≡ ok (none, db))
              × (fresh_transition others clock version input db ≡ ok (r, db'))))
unfolding transition_application_in_tenant
transition_cases others clock input db db' r e =
    let (version, db1, validated, e1) = >>=-eq-ok (validate_input input) _ db e in
    let (ex, same, needs) = validate_input_inv input db db1 version validated in
    let (replay, db2, searched, e2) = >>=-eq-ok (find_replay version input) _ db1 e1 in
    (
      version,
      ex,
      needs,
      resume_cases others clock version input db db2 db' r replay (rw same at searched) e2,
    )

-- A transition that returns a new row, whatever other transactions commit between the read of the
-- application and its update: the key was unused; the row was found for that owner at the expected
-- version, and the table allows the move; exactly one row still had that status and version at the
-- update; and the store then holds the others' writes with that row moved and one row added to
-- each of the three logs. For CONFIRMED the actor is the verifier.
pub transition_commits :
    (others : Db → Db) (clock : ℕ) (input : TransitionInput) (db db' : Db) (r : TransitionResult)
    → transition_application_in_tenant others clock input db ≡ ok (r, db')
    → r.replayed ≡ false
    → IsCommit others clock input db db' r
      × ((input.to_status ≡ confirmed) → is_verifier input.actor_type ≡ true)
transition_commits others clock input db db' r e fresh =
    let (version, ex, needs, cases) = transition_cases others clock input db db' r e in
    elim cases [
      | inl replay ↦
          let (_, _, _, replayed, _) = find_replay-some_inv version input db db' r replay in cc
      | inr (searched, wrote) ↦ (
        (fresh_transition_inv others clock version input db db' r ex
            (find_replay-none_inv version input db db searched).0 wrote).0,
        needs,
      )
    ]

-- A transition that returns as a replay writes nothing, and gives back the recorded row of that
-- owner and key, which agrees with the request in every field, the metadata by canonical text.
pub transition_replays :
    (others : Db → Db) (clock : ℕ) (input : TransitionInput) (db db' : Db) (r : TransitionResult)
    → transition_application_in_tenant others clock input db ≡ ok (r, db')
    → r.replayed ≡ true
    → (db' ≡ db)
      × (find (has_key input.user_id input.idempotency_key) db.transitions ≡ some r.transition)
      × (version : ℕ) × (positive input.expected_version ≡ some version)
      × (is_same_request version input r.transition ≡ true)
transition_replays others clock input db db' r e replayed =
    let (version, ex, needs, cases) = transition_cases others clock input db db' r e in
    elim cases [
      | inl replay ↦
          let (row, same, _, _, kept) = find_replay-some_inv version input db db' r replay in
          (kept, row, version, ex, same)
      | inr (searched, wrote) ↦
          let (_, fresh) =
            fresh_transition_inv others clock version input db db' r ex
              (find_replay-none_inv version input db db searched).0 wrote in
          cc
    ]
