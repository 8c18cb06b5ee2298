-- ===== src/Idempotency/Command.antt =====
-- `executeIdempotentCommand` of apps/api/src/services/idempotency.ts. The command is an argument, a
-- transaction over the rest of the store; so are the hash (sha256, here of code units), the generated
-- identifiers, one for each round of the recursion, the times at which the code reads the clock, and what a
-- jsonb column gives back of a value (`stored`), which has its own order of keys.
use jaa.Prelude.{
  ℕ, zero, suc, Bool, true, false, not, ◌&&◌, ◌||◌, String, Option, none, some, List, [], ◌∷◌, ◌++◌,
  ◌===◌, null_eq, is_blank, leb, some_and, find, any, keep, update, if◌then◌else◌, Tx, Result, ok,
  err, ◌>>=◌, ◌>>◌, return, require, expect, get, put,
}
use jaa.Json.Value.{Json, null}
use jaa.Json.Canonical.{canonical_json}

pub record CommandResult : Type 0 where
  pub response_code : ℕ
  pub response_body : Json
  pub resource_type : Option String
  pub resource_id : Option String

pub record CommandInput : Type 0 where
  pub user_id : Option String
  pub scope : String
  pub key : String
  pub request : Json
  pub expires_at : Option ℕ

pub record IdempotencyRecord : Type 0 where
  pub id : String
  pub user_id : Option String
  pub scope : String
  pub key : String
  pub request_hash : String
  pub response_code : Option ℕ
  pub response_body : Option Json
  pub resource_type : Option String
  pub resource_id : Option String
  pub expires_at : Option ℕ
  pub completed_at : Option ℕ

-- The codes of `IdempotencyError`; what `withTenant` and the primary key throw, and the command; and
-- the end of the fuel, which the code does not have.
pub data CommandError (E : Type 0) : Type 0 where
  invalid_input request_conflict in_progress : CommandError E
  tenant_required unique_violation : CommandError E
  command_error : E → CommandError E
  out_of_fuel : CommandError E

pub record Db (S : Type 0) : Type 0 where
  pub records : List IdempotencyRecord
  pub rest : S

-- When the code reads the clock: in the validation, in the test of an old record, and at the end.
pub record Times : Type 0 where
  pub validated : ℕ
  pub checked : ℕ
  pub completed : ℕ

abbrev pub M : Type 0 → Type 0 → Type 0 → Type 0
M E S A = Tx (CommandError E) (Db S) A

-- The unique index is over these three, and takes two nulls as equal.
abbrev pub has_key : CommandInput → IdempotencyRecord → Bool
has_key input r = null_eq r.user_id input.user_id && r.scope === input.scope && r.key === input.key

unfoldable pub reserved : CommandInput → String → String → IdempotencyRecord
reserved input id request_hash = record {
  id = id;
  user_id = input.user_id;
  scope = input.scope;
  key = input.key;
  request_hash = request_hash;
  response_code = none;
  response_body = none;
  resource_type = none;
  resource_id = none;
  expires_at = input.expires_at;
  completed_at = none;
}

unfoldable pub completed : (Json → Json) → CommandResult → ℕ → IdempotencyRecord → IdempotencyRecord
completed stored result now r = record r {
  response_code = some result.response_code;
  response_body = some (stored result.response_body);
  resource_type = result.resource_type;
  resource_id = result.resource_id;
  completed_at = some now;
}

-- `...(value ? { value } : {})`: an empty text is dropped.
abbrev pub truthy : Option String → Option String
truthy none = none
truthy (some s) = if s === "" then none else some s

-- `responseBody === null`, which a JSON null is too.
abbrev pub non_null : Option Json → Option Json
non_null (some null) = none
non_null body = body

abbrev pub stored_result :
    Option ℕ → Option ℕ → Option Json → Option String → Option String → Option CommandResult
stored_result (some done) (some code) (some body) resource_type resource_id = some (record {
  response_code = code;
  response_body = body;
  resource_type = truthy resource_type;
  resource_id = truthy resource_id;
})
stored_result _ _ _ _ _ = none

-- The response of a record that is complete.
unfoldable pub response_of : IdempotencyRecord → Option CommandResult
response_of r =
    stored_result r.completed_at r.response_code (non_null r.response_body) r.resource_type
      r.resource_id

abbrev pub is_expired : Times → IdempotencyRecord → Bool
is_expired times r = some_and r.expires_at (λ t. leb t times.checked)

abbrev pub delete_record : {S : Type 0} → IdempotencyRecord → Db S → Db S
delete_record existing db = record db {
  records = keep (λ r. not (r.id === existing.id)) db.records;
}

unfoldable pub validate_input : Times → CommandInput → Bool
validate_input times input =
    not (is_blank input.scope || is_blank input.key)
    && not (some_and input.expires_at (λ t. leb t times.validated))

-- `if (input.userId) withTenant`, which refuses a blank owner.
abbrev pub tenant_allowed : Option String → Bool
tenant_allowed none = true
tenant_allowed (some id) = id === "" || not (is_blank id)

module _ {E S : Type 0} where
  abbrev pub run_command : (S → Result E (CommandResult × S)) → M E S CommandResult
  run_command command db = elim (command db.rest) [
    | ok r ↦ ok (r.0, record db { rest = r.1 })
    | err e ↦ err (command_error e)
  ]

  unfoldable pub replay_existing :
      CommandInput → String → IdempotencyRecord → M E S (CommandResult × Bool)
  replay_existing input request_hash existing = do
    require (existing.request_hash === request_hash && null_eq existing.user_id input.user_id)
        request_conflict
    result ← expect (response_of existing) in_progress
    return (result, true)

module _ {E S : Type 0} (stored : Json → Json) where
  -- After the reservation was inserted.
  unfoldable pub run_reserved :
      (S → Result E (CommandResult × S))
      → Times
      → CommandInput
      → String
      → String
      → M E S (CommandResult × Bool)
  run_reserved command times input request_hash id = do
    db ← get
    require (not (any (λ r. r.id === id) db.records)) unique_violation
    put (record db { records = db.records ++ reserved input id request_hash ∷ [] })
    result ← run_command command
    after ← get
    put (record after {
      records = update (λ r. r.id === id) (completed stored result times.completed) after.records;
    })
    return (result, false)

  -- The recursion after an expired record was deleted is on fuel.
  unfoldable pub execute_in_transaction :
      (S → Result E (CommandResult × S))
      → Times
      → CommandInput
      → String
      → (ℕ → String)
      → ℕ
      → M E S (CommandResult × Bool)
  execute_in_transaction command times input request_hash ids zero db = err out_of_fuel
  execute_in_transaction command times input request_hash ids (suc n) db =
      let again = execute_in_transaction command times input request_hash ids n in
      elim (find (has_key input) db.records) [
        | none ↦ run_reserved command times input request_hash (ids (suc n)) db
        | some existing ↦
            if is_expired times existing
            then again (delete_record existing db)
            else replay_existing input request_hash existing db
      ]

  unfoldable pub execute_idempotent_command :
      (List ℕ → String)
      → (S → Result E (CommandResult × S))
      → Times
      → CommandInput
      → (ℕ → String)
      → ℕ
      → M E S (CommandResult × Bool)
  execute_idempotent_command hash command times input ids fuel = do
    require (validate_input times input) invalid_input
    require (tenant_allowed input.user_id) tenant_required
    execute_in_transaction command times input (hash (canonical_json input.request)) ids fuel
