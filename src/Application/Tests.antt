-- ===== src/Application/Tests.antt =====
-- Runs of the transition, and each theorem at a concrete input.
use jaa.Prelude.{
  ℕ, ◌+◌, true, false, String, Option, none, some, List, [], ◌∷◌, ◌≡◌, ◌≢◌, refl, arith, Number,
  nat, Result, ok, err, find, length, positive, is_blank,
}
use mathlib.Core.List.{Memᴰ}
use jaa.Json.Value.{null}
use jaa.Json.Canonical.{same_json, before}
use jaa.Application.Status.{
  ApplicationStatus, discovered, qualified, skipped, resume_generated, resume_validated,
  ats_validated, queued, application_started, form_filled, submission_pending, ready_to_submit,
  confirmed, withdrawn, submitted, unconfirmed, accepted, offer, can_transition, transitions,
  status_eq,
}
use jaa.Application.Graph.{
  Reach, here, next, is_unsubmitted, is_outcome, outcome_needs_submission, submitted_unreachable,
  confirmed_stays, entries,
}
use jaa.Application.Store.{
  Application, Transition, Db, TransitionInput, TransitionResult, TransitionError, worker, verifier,
  invalid_transition, stale_version, verification_required, idempotency_conflict,
}
use jaa.Application.Machine.{
  transition_application, transition_application_in_tenant, is_verifier, owns, is_same_request,
  validate_input, find_replay, fresh_transition, write_transition, apply_status, new_transition,
  new_audit, new_event,
}
use jaa.Application.Steps.{IsCommit, transition_commits}
use jaa.Application.Retry.{retry_replays}
use jaa.Application.Chain.{IsConsistent, history}
use jaa.Application.History.{
  apply_all, transition-IsConsistent, version_counts_log, confirmed_by_verifier,
}

machine : Unit {0}
unfolding transition_application transition_application_in_tenant validate_input find_replay
    fresh_transition write_transition apply_status new_transition new_audit new_event can_transition
    transitions status_eq is_same_request positive is_blank same_json before
machine = tt

abbrev draft : Application
draft = record {
  id = "a1";
  user_id = "u1";
  status = discovered;
  version = 1;
  applied_at = none;
  confirmed_at = none;
  failed_at = none;
  failure_reason = none;
}

abbrev start : Db
start = record { applications = draft ∷ []; transitions = []; audit_logs = []; outbox_events = [] }

abbrev ask : ApplicationStatus → Number → String → TransitionInput
ask to version key = record {
  application_id = "a1";
  user_id = "u1";
  to_status = to;
  expected_version = version;
  actor_type = worker;
  actor_id = none;
  reason = "because";
  idempotency_key = key;
  correlation_id = "c1";
  metadata = none;
  effective_at = none;
}

abbrev qualify : TransitionInput
qualify = ask qualified (nat 1) "k1"

abbrev alone : Db → Db
alone db = db

abbrev after : Db
after = (transition_application alone 5 qualify start).1

outcome : Result TransitionError TransitionResult × Db → Option TransitionError
outcome (ok r, db) = none
outcome (err e, db) = some e

transition_tests :
    (outcome (transition_application alone 5 qualify start) ≡ none)
    × (outcome (transition_application alone 6 qualify after) ≡ none)
    × (outcome (transition_application alone 6 (ask skipped (nat 2) "k1") after)
        ≡ some idempotency_conflict)
    × (outcome (transition_application alone 6 (ask skipped (nat 1) "k2") after)
        ≡ some stale_version)
    × (outcome (transition_application alone 6 (ask submitted (nat 2) "k2") after)
        ≡ some invalid_transition)
    × (outcome (transition_application alone 6 (ask confirmed (nat 2) "k2") after)
        ≡ some verification_required)
    × (outcome (transition_application (λ db. after) 6 (ask skipped (nat 1) "k2") start)
        ≡ some stale_version)
unfolding machine outcome
transition_tests = (refl, refl, refl, refl, refl, refl, refl)

abbrev moved : Application
moved = record draft { status = qualified; version = 2 }

abbrev logged : Transition
logged = record {
  application_id = "a1";
  user_id = "u1";
  from_status = discovered;
  to_status = qualified;
  actor_type = worker;
  actor_id = none;
  reason = "because";
  metadata = null;
  idempotency_key = "k1";
  correlation_id = "c1";
  version = 2;
}

abbrev first_result : TransitionResult
first_result = record { application = moved; transition = logged; replayed = false }

first_commit : transition_application_in_tenant alone 5 qualify start ≡ ok (first_result, after)
unfolding machine
first_commit = refl

abbrev second_result : TransitionResult
second_result = record { application = moved; transition = logged; replayed = true }

second_replay : transition_application_in_tenant alone 6 qualify after ≡ ok (second_result, after)
unfolding machine
second_replay = refl

start-IsConsistent : IsConsistent start
start-IsConsistent = record {
  unique = λ id user_id. ground arith;
  recorded = λ id user_id a found. ground arith;
  verified = tt;
}

outcome_needs_submission_example : is_unsubmitted qualified ≡ true
outcome_needs_submission_example =
    outcome_needs_submission qualified
      (next {u = qualified} here (λ e. cc) (unfold machine in refl))

submitted_unreachable_example : qualified ≢ submitted
submitted_unreachable_example =
    submitted_unreachable qualified (next {u = qualified} here (unfold machine in refl))

confirmed_stays_example : is_outcome withdrawn ≡ true
confirmed_stays_example =
    confirmed_stays withdrawn (next {u = withdrawn} here (unfold machine in refl))

entries_example :
    (can_transition unconfirmed confirmed ≡ true → unconfirmed ≡ unconfirmed)
    × (can_transition unconfirmed submission_pending ≡ true → unconfirmed ≡ ready_to_submit)
    × (can_transition unconfirmed accepted ≡ true → unconfirmed ≡ offer)
entries_example = entries unconfirmed

transition_commits_example :
    IsCommit alone 5 qualify start after first_result
    × ((qualified ≡ confirmed) → is_verifier worker ≡ true)
transition_commits_example =
    transition_commits alone 5 qualify start after first_result first_commit refl

-- In between, the application moves on.
abbrev on_the_way : List (ℕ × TransitionInput)
on_the_way = (6, ask resume_generated (nat 2) "k2") ∷ (7, ask resume_validated (nat 3) "k3") ∷ []

retry_replays_example :
    (a : Application) × (transition_application_in_tenant
        (λ db. start)
        9
        qualify
        (apply_all on_the_way after)
      ≡ ok (
        record { application = a; transition = logged; replayed = true },
        apply_all on_the_way after,
      ))
retry_replays_example =
    retry_replays alone 5 qualify start after first_result first_commit refl on_the_way
      (λ db. start) 9

transition-IsConsistent_example : IsConsistent after
transition-IsConsistent_example =
    transition-IsConsistent alone 5 qualify start start-IsConsistent start-IsConsistent

found_after : find (owns "a1" "u1") after.applications ≡ some moved
unfolding machine
found_after = refl

version_counts_log_example :
    (2 ≡ length (history "a1" "u1" after) + 1)
    × Reach discovered qualified
    × (qualified ≢ submitted)
version_counts_log_example =
    version_counts_log after "a1" "u1" moved transition-IsConsistent_example found_after

-- An application that is taken through every status up to CONFIRMED.
abbrev by_verifier : TransitionInput → TransitionInput
by_verifier input = record input { actor_type = verifier }

abbrev whole_life : List (ℕ × TransitionInput)
whole_life =
    (1, ask qualified (nat 1) "k1")
    ∷ (2, ask resume_generated (nat 2) "k2")
    ∷ (3, ask resume_validated (nat 3) "k3")
    ∷ (4, ask ats_validated (nat 4) "k4")
    ∷ (5, ask queued (nat 5) "k5")
    ∷ (6, ask application_started (nat 6) "k6")
    ∷ (7, ask form_filled (nat 7) "k7")
    ∷ (8, ask ready_to_submit (nat 8) "k8")
    ∷ (9, ask submission_pending (nat 9) "k9")
    ∷ (10, ask unconfirmed (nat 10) "k10")
    ∷ (11, by_verifier (ask confirmed (nat 11) "k11"))
    ∷ []

abbrev won : Application
won = record draft {
  status = confirmed;
  version = 12;
  applied_at = some 10;
  confirmed_at = some 11;
}

found_won : find (owns "a1" "u1") (apply_all whole_life start).applications ≡ some won
unfolding machine apply_all
found_won = refl

confirmed_by_verifier_example :
    (t : Transition) × Memᴰ t (history "a1" "u1" (apply_all whole_life start))
    × (t.to_status ≡ confirmed)
    × (is_verifier t.actor_type ≡ true)
confirmed_by_verifier_example =
    confirmed_by_verifier whole_life start "a1" "u1" won start-IsConsistent found_won refl
