-- ===== src/Idempotency/Tests.antt =====
-- Runs of an idempotent command, and each theorem at a concrete input.
use jaa.Prelude.{
  ℕ, zero, suc, ◌+◌, ◌≢◌, Bool, true, false, String, none, some, [], ◌∷◌, ◌≡◌, refl, arith, Result,
  ok, err, is_blank,
}
use jaa.Json.Value.{Json, null, str}
use jaa.Idempotency.Command.{
  CommandResult, CommandError, in_progress, CommandInput, IdempotencyRecord, request_conflict,
  out_of_fuel, Db, Times, execute_in_transaction, execute_idempotent_command, run_reserved,
  replay_existing, response_of, reserved, completed, validate_input,
}
use jaa.Idempotency.Rounds.{two_rounds_enough}
use jaa.Idempotency.Retry.{execute_again}

machine : Unit {0}
unfolding execute_in_transaction execute_idempotent_command run_reserved replay_existing response_of
    reserved completed validate_input is_blank
machine = tt

abbrev input : CommandInput
input = record {
  user_id = some "u1";
  scope = "discovery";
  key = "k1";
  request = null;
  expires_at = some 100;
}

abbrev times : ℕ → Times
times t = record { validated = t; checked = t; completed = t }

-- A column that keeps a body as it is.
abbrev kept_as_is : Json → Json
kept_as_is json = json

abbrev body : Json
body = str "queued"

abbrev response : CommandResult
response = record {
  response_code = 202;
  response_body = body;
  resource_type = some "Run";
  resource_id = none;
}

-- A command that counts its runs.
abbrev tick : ℕ → Result String (CommandResult × ℕ)
tick n = ok (response, n + 1)

abbrev ids : ℕ → String
ids zero = "r0"
ids (suc zero) = "r1"
ids (suc (suc n)) = "r2"

abbrev empty : Db ℕ
empty = record { records = []; rest = 0 }

abbrev saved : String → ℕ → IdempotencyRecord
saved id t = record {
  id = id;
  user_id = some "u1";
  scope = "discovery";
  key = "k1";
  request_hash = "h";
  response_code = some 202;
  response_body = some body;
  resource_type = some "Run";
  resource_id = none;
  expires_at = some 100;
  completed_at = some t;
}

abbrev once : Db ℕ
once = record { records = saved "r2" 5 ∷ []; rest = 1 }

-- Two requests, one after the other.
abbrev then_again :
    (ℕ → Result String (CommandResult × ℕ))
    → Times
    → Result (CommandError String) ((CommandResult × Bool) × Db ℕ)
    → Result (CommandError String) ((CommandResult × Bool) × Db ℕ)
then_again command later (ok r) =
    execute_in_transaction kept_as_is command later input "h" ids 2 r.1
then_again command later (err e) = err e

abbrev run_twice :
    (ℕ → Result String (CommandResult × ℕ))
    → Times
    → Times
    → Result (CommandError String) ((CommandResult × Bool) × Db ℕ)
run_twice command now later =
    then_again command later (execute_in_transaction kept_as_is command now input "h" ids 2 empty)

first_run :
    execute_in_transaction kept_as_is tick (times 5) input "h" ids 2 empty
    ≡ ok ((response, false), once)
unfolding machine
first_run = refl

-- A second request, one with another body, and one after the record expired.
later_tests :
    (execute_in_transaction kept_as_is tick (times 6) input "h" ids 2 once
      ≡ ok ((response, true), once))
    × (execute_in_transaction kept_as_is tick (times 6) input "other" ids 2 once
        ≡ err request_conflict)
    × (execute_in_transaction kept_as_is tick (times 100) input "h" ids 2 once
        ≡ ok ((response, false), record { records = saved "r1" 100 ∷ []; rest = 2 }))
unfolding machine
later_tests = (refl, refl, refl)

-- A JSON null as the body counts as no body.
abbrev silent : ℕ → Result String (CommandResult × ℕ)
silent n = ok (record response { response_body = null }, n + 1)

null_body :
    (run_twice silent (times 5) (times 6) ≡ err in_progress)
    × (run_twice tick (times 5) (times 6) ≡ ok ((response, true), once))
unfolding machine
null_body = (refl, refl)

execute_again_example :
    execute_in_transaction kept_as_is tick (times 6) input "h" ids 2 once
    ≡ ok ((response, true), once)
execute_again_example =
    execute_again kept_as_is tick tick (times 5) (times 6) input "h" ids ids 2 1 empty once response
      false first_run (λ e. cc) (λ r e. ground (arith, e))

two_rounds_enough_example :
    execute_in_transaction kept_as_is tick (times 100) input "h" ids 2 once ≢ err out_of_fuel
two_rounds_enough_example =
    two_rounds_enough kept_as_is tick (times 100) input "h" ids 0 once (omega arith)
