-- ===== src/Idempotency/Rounds.antt =====
-- The recursion of apps/api/src/services/idempotency.ts.
use jaa.Prelude.{
  ℕ, suc, ◌≤◌, Bool, true, false, not, ◌≡◌, ◌≢◌, refl, String, some, List, [], ◌∷◌, arith, Result,
  err, find, find-eq-none, count, any, keep, Bool-cases, Option-cases, inl, inr, ◌===◌, eq_refl,
}
use jaa.Json.Value.{Json}
use jaa.Idempotency.Command.{
  CommandResult, CommandInput, IdempotencyRecord, out_of_fuel, Db, Times, has_key, is_expired,
  delete_record, execute_in_transaction, run_reserved, replay_existing,
}

no_match :
    (p : IdempotencyRecord → Bool) (id : String) (rs : List IdempotencyRecord)
    → count p rs ≡ 0
    → any p (keep (λ r. not (r.id === id)) rs) ≡ false
no_match p id [] h = refl
no_match p id (r ∷ rs) h = elim (Bool-cases (r.id === id)) [
  | inl e ↦ rw (e, keep) (no_match p id rs (ground arith))
  | inr e ↦ rw (e, keep) (ground (arith, no_match p id rs))
]

-- After the only match of a search is deleted by its id, nothing matches.
deleted_match :
    (p : IdempotencyRecord → Bool) (rs : List IdempotencyRecord) (a : IdempotencyRecord)
    → count p rs ≤ 1
    → find p rs ≡ some a
    → any p (keep (λ r. not (r.id === a.id)) rs) ≡ false
deleted_match p [] a h e = cc
deleted_match p (r ∷ rs) a h e = elim (Bool-cases (p r)) [
  | inl hit ↦
      let here : r ≡ a = ground arith in
      let same : r.id === a.id ≡ true = rw here (eq_refl a.id) in
      rw (same, keep) (no_match p a.id rs (ground arith))
  | inr miss ↦ elim (Bool-cases (r.id === a.id)) [
    | inl same ↦ rw (same, keep) (deleted_match p rs a (ground arith) (ground arith))
    | inr other ↦
        rw (other, keep) (ground (arith, miss, deleted_match p rs a (ground arith) (ground arith)))
  ]
]

module _ {E S : Type 0} (stored : Json → Json) (command : S → Result E (CommandResult × S))
    (times : Times) (input : CommandInput) (request_hash : String) (ids : ℕ → String) where
  reserved_ends :
      (id : String) (db : Db S)
      → run_reserved stored command times input request_hash id db ≢ err out_of_fuel
  unfolding run_reserved
  reserved_ends id db e = ground arith

  replay_ends :
      (existing : IdempotencyRecord) (db : Db S)
      → replay_existing {E = E} input request_hash existing db ≢ err out_of_fuel
  unfolding replay_existing
  replay_ends existing db e = ground arith

  fresh_ends :
      (n : ℕ) (db : Db S)
      → any (has_key input) db.records ≡ false
      → execute_in_transaction stored command times input request_hash ids (suc n) db
        ≢ err out_of_fuel
  unfolding execute_in_transaction
  fresh_ends n db h e =
      reserved_ends (ids (suc n)) db
        (rw (find-eq-none (has_key input) db.records h, execute_in_transaction) at e)

  -- Two rounds are enough where, as the unique index says, at most one record has the key: after an
  -- expired record was deleted, the reservation succeeds.
  pub two_rounds_enough :
      (n : ℕ) (db : Db S)
      → count (has_key input) db.records ≤ 1
      → execute_in_transaction stored command times input request_hash ids (suc (suc n)) db
        ≢ err out_of_fuel
  unfolding execute_in_transaction
  two_rounds_enough n db one e = elim (Option-cases (find (has_key input) db.records)) [
    | inl absent ↦ reserved_ends (ids (suc (suc n))) db (rw (absent, execute_in_transaction) at e)
    | inr (existing, found) ↦ elim (Bool-cases (is_expired times existing)) [
      | inl old ↦
          fresh_ends n (delete_record existing db)
            (deleted_match (has_key input) db.records existing one found)
            (rw (old) at (rw (found, execute_in_transaction) at e))
      | inr valid ↦
          replay_ends existing db (rw (valid) at (rw (found, execute_in_transaction) at e))
    ]
  ]
