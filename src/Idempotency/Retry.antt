-- ===== src/Idempotency/Retry.antt =====
-- A command sent again under its key (apps/api/src/services/idempotency.ts).
use jaa.Prelude.{
  ℕ, zero, suc, Bool, true, false, ◌≡◌, ◌≢◌, refl, sym, ap, ◌∙◌, String, Option, none, some, [],
  ◌∷◌, ◌++◌, arith, Result, ok, find, find-append, find-update_keeps, update, Bool-cases,
  Option-cases, inl, inr, ◌===◌, eq_refl, if◌then◌else◌, null_eq,
}
use jaa.Json.Value.{Json, null, bool, num, str, arr, obj}
use jaa.Idempotency.Command.{
  stored_result, CommandResult, CommandInput, IdempotencyRecord, Db, Times, has_key, is_expired,
  delete_record, execute_in_transaction, run_reserved, replay_existing, response_of, reserved,
  completed, truthy, non_null,
}

-- What a replay gives for a result: empty texts are dropped, and the body of a fresh result is what its
-- column gives back.
abbrev pub as_replayed : (Json → Json) → Bool → CommandResult → CommandResult
as_replayed stored replayed r = record r {
  response_body = if replayed then r.response_body else stored r.response_body;
  resource_type = truthy r.resource_type;
  resource_id = truthy r.resource_id;
}

-- A store in which the key has a complete record of the request.
record Settled {S : Type 0} (input : CommandInput) (request_hash : String) (result : CommandResult)
    (db : Db S) : Type 0 where
  pub existing : IdempotencyRecord
  pub found : find (has_key input) db.records ≡ some existing
  pub hashed : existing.request_hash === request_hash ≡ true
  pub owned : null_eq existing.user_id input.user_id ≡ true
  pub response : response_of existing ≡ some result

completed_has_key :
    (stored : Json → Json) (input : CommandInput) (result : CommandResult) (now : ℕ)
    (r : IdempotencyRecord)
    → has_key input (completed stored result now r) ≡ has_key input r
unfolding completed
completed_has_key stored input result now r = refl

null_eq_refl : (o : Option String) → null_eq o o ≡ true
null_eq_refl none = refl
null_eq_refl (some s) = eq_refl s

reserved_has_key :
    (input : CommandInput) (id request_hash : String)
    → has_key input (reserved input id request_hash) ≡ true
unfolding reserved
reserved_has_key input id request_hash =
    ground (arith, null_eq_refl input.user_id, eq_refl input.scope, eq_refl input.key)

stored_body :
    (code done : ℕ) (body : Json) (t i : Option String)
    → body ≢ null
    → stored_result (some done) (some code) (non_null (some body)) t i
      ≡ some (record {
        response_code = code;
        response_body = body;
        resource_type = truthy t;
        resource_id = truthy i;
      })
stored_body code done null t i h = absurd (h refl)
stored_body code done (bool b) t i h = refl
stored_body code done (num n) t i h = refl
stored_body code done (str s) t i h = refl
stored_body code done (arr items) t i h = refl
stored_body code done (obj fields) t i h = refl

completed_response :
    (stored : Json → Json) (result : CommandResult) (now : ℕ) (r : IdempotencyRecord)
    → stored result.response_body ≢ null
    → response_of (completed stored result now r) ≡ some (as_replayed stored false result)
unfolding completed response_of
completed_response stored result now r h =
    stored_body result.response_code now (stored result.response_body) result.resource_type
      result.resource_id h

truthy_twice : (o : Option String) → truthy (truthy o) ≡ truthy o
truthy_twice none = refl
truthy_twice (some s) = elim (Bool-cases (s === "")) [
  | inl e ↦ rw (e) refl
  | inr e ↦ rw (e) (rw (e) refl)
]

stored_twice :
    (stored : Json → Json) (a b : Option ℕ) (c : Option Json) (t i : Option String)
    (result : CommandResult)
    → stored_result a b c t i ≡ some result
    → as_replayed stored true result ≡ result
stored_twice stored none b c t i result e = cc
stored_twice stored (some a) none c t i result e = cc
stored_twice stored (some a) (some b) none t i result e = cc
stored_twice stored (some a) (some b) (some c) t i result e =
    let made : CommandResult = record {
      response_code = b;
      response_body = c;
      resource_type = truthy t;
      resource_id = truthy i;
    } in
    let one : made ≡ result = ground arith in
    let again : as_replayed stored true made ≡ made =
      rw (truthy_twice t) (rw (truthy_twice i) refl) in
    ap (as_replayed stored true) (sym one) ∙ (again ∙ one)

response_as_replayed :
    (stored : Json → Json) (r : IdempotencyRecord) (result : CommandResult)
    → response_of r ≡ some result
    → as_replayed stored true result ≡ result
unfolding response_of
response_as_replayed stored r result e =
    stored_twice stored r.completed_at r.response_code (non_null r.response_body) r.resource_type
      r.resource_id result e

module _ {E S : Type 0} (stored : Json → Json) (command : S → Result E (CommandResult × S))
    (times : Times) (input : CommandInput) (request_hash : String) (ids : ℕ → String) where
  reserved_rows :
      (id : String) (db db' : Db S) (result : CommandResult) (replayed : Bool)
      → run_reserved stored command times input request_hash id db ≡ ok ((result, replayed), db')
      → (replayed ≡ false)
        × (db'.records
            ≡ update
                (λ r. r.id === id)
                (completed stored result times.completed)
                (db.records ++ reserved input id request_hash ∷ []))
  unfolding run_reserved
  reserved_rows id db db' result replayed e = (ground arith, ground arith)

  replay_rows :
      (existing : IdempotencyRecord) (db db' : Db S) (result : CommandResult) (replayed : Bool)
      → replay_existing {E = E} input request_hash existing db ≡ ok ((result, replayed), db')
      → (replayed ≡ true)
        × (existing.request_hash === request_hash ≡ true)
        × (null_eq existing.user_id input.user_id ≡ true)
        × (response_of existing ≡ some result)
        × (db' ≡ db)
  unfolding replay_existing
  replay_rows existing db db' result replayed e =
      (ground arith, ground arith, ground arith, ground arith, ground arith)

  same_key :
      (id : String) (result : CommandResult) (now : ℕ) (r : IdempotencyRecord)
      → has_key input (if r.id === id then completed stored result now r else r) ≡ has_key input r
  same_key id result now r = elim (Bool-cases (r.id === id)) [
    | inl e ↦ rw (e) (completed_has_key stored input result now r)
    | inr e ↦ rw (e) refl
  ]

  own_id : (id : String) → (reserved input id request_hash).id === id ≡ true
  unfolding reserved
  own_id id = eq_refl id

  hash_kept :
      (id : String) (result : CommandResult) (now : ℕ)
      → (completed stored result now (reserved input id request_hash)).request_hash === request_hash
        ≡ true
  unfolding reserved completed
  hash_kept id result now = eq_refl request_hash

  owner_kept :
      (id : String) (result : CommandResult) (now : ℕ)
      → null_eq (completed stored result now (reserved input id request_hash)).user_id input.user_id
        ≡ true
  unfolding reserved completed
  owner_kept id result now = null_eq_refl input.user_id

  reserved_settles :
      (id : String) (db db' : Db S) (result : CommandResult) (replayed : Bool)
      → find (has_key input) db.records ≡ none
      → run_reserved stored command times input request_hash id db ≡ ok ((result, replayed), db')
      → (as_replayed stored replayed result).response_body ≢ null
      → Settled input request_hash (as_replayed stored replayed result) db'
  reserved_settles id db db' result replayed absent e full =
      let row = reserved input id request_hash in
      let done = completed stored result times.completed in
      let (new, written) = reserved_rows id db db' result replayed e in
      let there : find (has_key input) (db.records ++ row ∷ []) ≡ some row =
        find-append (has_key input) db.records (row ∷ []) absent
        ∙ rw (reserved_has_key input id request_hash, find) refl in
      let kept =
        find-update_keeps (λ r. r.id === id) (has_key input) done (db.records ++ row ∷ [])
          (λ r. same_key id result times.completed r) in
      record {
        existing = done row;
        found = rw written (kept ∙ rw there (rw (own_id id) refl));
        hashed = hash_kept id result times.completed;
        owned = owner_kept id result times.completed;
        response = rw new (completed_response stored result times.completed row (rw new at full));
      }

  -- After an execution that returns, the key has a complete record of the request, with its response.
  execution_settles :
      (n : ℕ) (db db' : Db S) (result : CommandResult) (replayed : Bool)
      → execute_in_transaction stored command times input request_hash ids n db
        ≡ ok ((result, replayed), db')
      → (as_replayed stored replayed result).response_body ≢ null
      → Settled input request_hash (as_replayed stored replayed result) db'
  unfolding execute_in_transaction
  execution_settles zero db db' result replayed e full = cc
  execution_settles (suc n) db db' result replayed e full =
      elim (Option-cases (find (has_key input) db.records)) [
        | inl absent ↦
            reserved_settles (ids (suc n)) db db' result replayed absent
              (rw (absent, execute_in_transaction) at e) full
        | inr (existing, found) ↦
            let e1 = rw (found, execute_in_transaction) at e in
            elim (Bool-cases (is_expired times existing)) [
              | inl old ↦
                  execution_settles n (delete_record existing db) db' result replayed
                    (rw (old) at e1) full
              | inr valid ↦
                  let (old, hashed, owned, response, same) =
                    replay_rows existing db db' result replayed (rw (valid) at e1) in
                  record {
                    existing = existing;
                    found = rw same found;
                    hashed = hashed;
                    owned = owned;
                    response = rw old (
                        response
                        ∙ ap some (sym (response_as_replayed stored existing result response)));
                  }
            ]
      ]

replay-Settled :
    {E S : Type 0} (stored : Json → Json) (command : S → Result E (CommandResult × S))
    (times : Times) (input : CommandInput) (request_hash : String) (ids : ℕ → String) (n : ℕ)
    (db : Db S) (result : CommandResult)
    → (s : Settled input request_hash result db) → is_expired times s.existing ≡ false
    → execute_in_transaction stored command times input request_hash ids (suc n) db
      ≡ ok ((result, true), db)
unfolding execute_in_transaction replay_existing
replay-Settled stored command times input request_hash ids n db result s valid =
    rw (s.found, execute_in_transaction)
      (rw (valid) (rw (s.hashed) (rw (s.owned) (rw (s.response) refl))))

-- After an execution that returns, with a response body that is not null as stored, another one with the
-- same input, before the record expires, gives the same response as a replay (with empty texts dropped,
-- and a fresh body as its column gives it back) and leaves the store as it is: its command is not run,
-- whatever it is.
pub execute_again :
    {E S : Type 0} (stored : Json → Json) (command command' : S → Result E (CommandResult × S))
    (times times' : Times) (input : CommandInput) (request_hash : String) (ids ids' : ℕ → String)
    (n m : ℕ) (db db' : Db S) (result : CommandResult) (replayed : Bool)
    → execute_in_transaction stored command times input request_hash ids n db
      ≡ ok ((result, replayed), db')
    → (as_replayed stored replayed result).response_body ≢ null
    → ((r : IdempotencyRecord)
        → find (has_key input) db'.records ≡ some r
        → is_expired times' r ≡ false)
    → execute_in_transaction stored command' times' input request_hash ids' (suc m) db'
      ≡ ok ((as_replayed stored replayed result, true), db')
execute_again stored command command' times times' input request_hash ids ids' n m db db' result
      replayed e full valid =
    let s =
      execution_settles stored command times input request_hash ids n db db' result replayed e
        full in
    replay-Settled stored command' times' input request_hash ids' m db'
      (as_replayed stored replayed result) s (valid s.existing s.found)
