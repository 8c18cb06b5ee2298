-- ===== src/Automation/Replays.antt =====
-- How often a dead letter is replayed (`replayDeadLetterAutomationJob` of
-- apps/api/src/services/automation-jobs.ts).
use jaa.Prelude.{
  ℕ, Bool, true, false, ◌≡◌, String, some, List, [], ◌∷◌, ◌++◌, arith, nat, or_else, ok, find, any,
  lift_then_inv, lift_inv, expect_inv, require_inv, not, eq_refl,
}
use jaa.Automation.Jobs.{AutomationJob, Db, not_found, terminal, is_dead_letter}
use jaa.Automation.Checks.{require_text, validate_max_attempts}
use jaa.Automation.Recovery.{
  ReplayInput, owns, replay_in_tenant, replay_rows, replay_row, is_replay_of,
}

find-append_some :
    {A : Type 0} (p : A → Bool) (xs ys : List A) (a : A)
    → find p xs ≡ some a
    → find p (xs ++ ys) ≡ some a
find-append_some p [] ys a h = cc
find-append_some p (x ∷ xs) ys a h = ground (arith, find-append_some p xs ys a)

any-append :
    {A : Type 0} (p : A → Bool) (xs : List A) (y : A) → p y ≡ true → any p (xs ++ y ∷ []) ≡ true
any-append p [] y h = ground arith
any-append p (x ∷ xs) y h = ground (arith, any-append p xs y h)

-- What a replay that returns has found and done.
record Replayed (input : ReplayInput) (db db' : Db) (row : AutomationJob) : Type 0 where
  pub current : AutomationJob
  pub found : find (owns input.job_id input.user_id) db.jobs ≡ some current
  pub dead : is_dead_letter current.status ≡ true
  pub unreplayed : any (is_replay_of current.id) db.jobs ≡ false
  pub names : row.replay_of_id ≡ some current.id
  pub grown : db'.jobs ≡ db.jobs ++ row ∷ []

replayed :
    (cut : String → String) (id : String) (clock : ℕ) (input : ReplayInput) (db db' : Db)
    (row : AutomationJob)
    → replay_in_tenant cut id clock input db ≡ ok (row, db')
    → Replayed input db db' row
unfolding replay_in_tenant replay_rows replay_row
replayed cut id clock input db db' row e =
    let e1 = lift_then_inv (require_text input.job_id) _ db e in
    let e2 = lift_then_inv (require_text input.user_id) _ db e1 in
    let e3 = lift_then_inv (require_text input.reason) _ db e2 in
    let e4 = lift_then_inv (require_text input.correlation_id) _ db e3 in
    let (attempts, _, e5) =
      lift_inv (validate_max_attempts (or_else input.max_attempts (nat 3))) _ db e4 in
    let (current, found, e6) =
      expect_inv (find (owns input.job_id input.user_id) db.jobs) not_found _ db e5 in
    let (dead, e7) = require_inv (is_dead_letter current.status) terminal _ db e6 in
    let (fresh, e8) = require_inv (not (any (is_replay_of current.id) db.jobs)) terminal _ db e7 in
    record {
      current = current;
      found = found;
      dead = dead;
      unreplayed = ground arith;
      names = ground arith;
      grown = ground arith;
    }

-- After a replay that returns, no replay of the same job by the same user returns: at any time, for any
-- reason, with any correlation id and budget.
pub replay_once :
    (cut : String → String) (id id' : String) (clock clock' : ℕ) (input input' : ReplayInput)
    (db db' db2 : Db) (row row' : AutomationJob)
    → replay_in_tenant cut id clock input db ≡ ok (row, db')
    → input'.job_id ≡ input.job_id
    → input'.user_id ≡ input.user_id
    → ¬ (replay_in_tenant cut id' clock' input' db' ≡ ok (row', db2))
replay_once cut id id' clock clock' input input' db db' db2 row row' first same_job same_user
      again =
    let a = replayed cut id clock input db db' row first in
    let b = replayed cut id' clock' input' db' db2 row' again in
    let there : find (owns input.job_id input.user_id) db'.jobs ≡ some a.current =
      rw (a.grown)
        (find-append_some (owns input.job_id input.user_id) db.jobs (row ∷ []) a.current a.found) in
    let here : find (owns input.job_id input.user_id) db'.jobs ≡ some b.current =
      rw (same_job, same_user) at b.found in
    let one : b.current ≡ a.current = ground (arith, there, here) in
    let named : is_replay_of a.current.id row ≡ true = rw (a.names) (eq_refl a.current.id) in
    let taken : any (is_replay_of a.current.id) db'.jobs ≡ true =
      rw (a.grown) (any-append (is_replay_of a.current.id) db.jobs row named) in
    let fresh : any (is_replay_of a.current.id) db'.jobs ≡ false = rw one at b.unreplayed in
    cc (taken, fresh)
