-- ===== src/Credentials/Isolation.antt =====
-- The credentials of one owner under the calls of others.
use jaa.Prelude.{
  String, Bool, true, false, not, Option, none, some, List, [], ◌∷◌, ◌++◌, ◌≡◌, refl, ◌∙◌, arith,
  ◌≢◌, inl, inr, Result, ok, err, ◌===◌, eq_iff, any, find, keep, update, Bool-cases, All,
  if◌then◌else◌,
}
use jaa.Prelude.Units.{is_identifier, units, Units}
use jaa.Credentials.Encryption.{Cipher, EncryptionError, encrypt}
use jaa.Credentials.Vault.{
  StoredCredential, Fresh, is_valid_name, is_valid_value, set_credential, find_owned,
  new_credential, store, store_encrypted, retrieve, retrieve_owned, update_credential, update_owned,
  write_encrypted, delete_credential, delete_owned, Call, storing, retrieving, updating, deleting,
  caller, draws, run_call, run_calls,
}

find-append_some :
    (p : StoredCredential → Bool) (xs ys : List StoredCredential) (c : StoredCredential)
    → find p xs ≡ some c
    → find p (xs ++ ys) ≡ some c
find-append_some p [] ys c h = cc
find-append_some p (x ∷ xs) ys c h = ground (arith, find-append_some p xs ys c)

module _ (owner id : String) (c : StoredCredential) where
  abbrev IsKept : List StoredCredential → Type 0
  IsKept rows = find (λ r. r.id === id) rows ≡ some c

  find-update_other :
      (other : String) (f : StoredCredential → StoredCredential) (rows : List StoredCredential)
      → ((r : StoredCredential) → r.id ≡ other → (f r).id ≡ other)
      → other ≢ id
      → IsKept rows
      → IsKept (update (λ r. r.id === other) f rows)
  find-update_other other f [] same apart k = k
  find-update_other other f (r ∷ rows) same apart k = elim (Bool-cases (r.id === other)) [
    | inl hit ↦
        let here : r.id ≡ other = (eq_iff r.id other).0 hit in
        let moved : (f r).id ≡ other = same r here in
        rw (hit, update)
          (ground (
            arith,
            here,
            moved,
            eq_iff r.id id,
            eq_iff (f r).id id,
            find-update_other other f rows same apart,
          ))
    | inr miss ↦ rw (miss, update) (ground (arith, find-update_other other f rows same apart))
  ]

  find-keep_other :
      (other : String) (rows : List StoredCredential)
      → other ≢ id
      → IsKept rows
      → IsKept (keep (λ r. not (r.id === other)) rows)
  find-keep_other other [] apart k = k
  find-keep_other other (r ∷ rows) apart k =
      ground (arith, eq_iff r.id other, eq_iff r.id id, find-keep_other other rows apart)

  set_credential_other :
      (new : StoredCredential) (rows : List StoredCredential)
      → new.id ≢ id
      → IsKept rows
      → IsKept (set_credential new rows)
  set_credential_other new rows apart k = elim (Bool-cases (any (λ r. r.id === new.id) rows)) [
    | inl e ↦
        rw (e, set_credential) (find-update_other new.id (λ _. new) rows (λ r here. refl) apart k)
    | inr e ↦ rw (e, set_credential) (find-append_some (λ r. r.id === id) rows (new ∷ []) c k)
  ]

  -- Another owner does not find it.
  find_owned-other :
      (other : String) (rows : List StoredCredential)
      → c.owner_id ≢ other
      → IsKept rows
      → find_owned other id rows ≡ none
  unfolding find_owned
  find_owned-other other rows apart k = rw k (ground (arith, eq_iff c.owner_id other))

  -- What another owner finds is under another id.
  distinct :
      (other target : String) (rows : List StoredCredential) (found : StoredCredential)
      → c.owner_id ≢ other
      → find_owned other target rows ≡ some found
      → IsKept rows
      → target ≢ id
  distinct other target rows found apart own k e =
      let own_id : find_owned other id rows ≡ some found = rw e at own in
      cc (own_id, find_owned-other other rows apart k)

  own_update :
      (other target : String) (f : StoredCredential → StoredCredential)
      (rows : List StoredCredential) (found : StoredCredential)
      → ((r : StoredCredential) → (f r).id ≡ r.id)
      → c.owner_id ≢ other
      → find_owned other target rows ≡ some found
      → IsKept rows
      → IsKept (update (λ r. r.id === target) f rows)
  own_update other target f rows found same apart own k =
      find-update_other target f rows (λ r here. same r ∙ here)
        (distinct other target rows found apart own k) k

  if-IsKept :
      {A : Type 0} (b : Bool) (x y : A × List StoredCredential)
      → IsKept x.1
      → IsKept y.1
      → IsKept (if b then x else y).1
  if-IsKept true x y h k = h
  if-IsKept false x y h k = k

  module _ (cipher : Cipher) (env_key : Option Units) where
    store_encrypted-IsKept :
        (fresh : Fresh) (other : String) (name : Units) (rows : List StoredCredential)
        (r : Result EncryptionError Units)
        → fresh.new_id ≢ id
        → IsKept rows
        → IsKept (store_encrypted fresh other name rows r).1
    store_encrypted-IsKept fresh other name rows (err e) apart k = k
    store_encrypted-IsKept fresh other name rows (ok encrypted) apart k =
        set_credential_other (new_credential fresh other name encrypted) rows apart k

    store-IsKept :
        (fresh : Fresh) (other : String) (name value : Units) (rows : List StoredCredential)
        → fresh.new_id ≢ id
        → IsKept rows
        → IsKept (store cipher env_key fresh other name value rows).1
    unfolding store
    store-IsKept fresh other name value rows apart k =
        if-IsKept (not (is_identifier (units other))) _ _ k (
          if-IsKept (not (is_valid_name name)) _ _ k (
            if-IsKept (not (is_valid_value value)) _ _ k (
              store_encrypted-IsKept fresh other name rows
                (encrypt cipher env_key fresh.salt fresh.iv value) apart k)))

    module _ (fresh : Fresh) (other target : String) (rows : List StoredCredential)
        (apart : c.owner_id ≢ other) (k : IsKept rows) where
      retrieve_owned-IsKept :
          (o : Option StoredCredential)
          → find_owned other target rows ≡ o
          → IsKept (retrieve_owned cipher env_key fresh target rows o).1
      retrieve_owned-IsKept none e = k
      retrieve_owned-IsKept (some found) e =
          own_update other target _ rows found (λ r. refl) apart e k

      retrieve-IsKept : IsKept (retrieve cipher env_key fresh other target rows).1
      unfolding retrieve
      retrieve-IsKept =
          if-IsKept (not (is_identifier (units other))) _ _ k
            (retrieve_owned-IsKept (find_owned other target rows) refl)

      write_encrypted-IsKept :
          (found : StoredCredential) (r : Result EncryptionError Units)
          → find_owned other target rows ≡ some found
          → IsKept (write_encrypted fresh target rows r).1
      write_encrypted-IsKept found (err x) e = k
      write_encrypted-IsKept found (ok encrypted) e =
          own_update other target _ rows found (λ r. refl) apart e k

      update_owned-IsKept :
          (value : Units) (o : Option StoredCredential)
          → find_owned other target rows ≡ o
          → IsKept (update_owned cipher env_key fresh target value rows o).1
      update_owned-IsKept value none e = k
      update_owned-IsKept value (some found) e =
          write_encrypted-IsKept found (encrypt cipher env_key fresh.salt fresh.iv value) e

      update_credential-IsKept :
          (value : Units)
          → IsKept (update_credential cipher env_key fresh other target value rows).1
      unfolding update_credential
      update_credential-IsKept value = if-IsKept (not (is_identifier (units other))) _ _ k (
          if-IsKept (not (is_valid_value value)) _ _ k
            (update_owned-IsKept value (find_owned other target rows) refl))

      delete_owned-IsKept :
          (o : Option StoredCredential)
          → find_owned other target rows ≡ o
          → IsKept (delete_owned target rows o).1
      delete_owned-IsKept none e = k
      delete_owned-IsKept (some found) e =
          find-keep_other target rows (distinct other target rows found apart e k) k

      delete_credential-IsKept : IsKept (delete_credential other target rows).1
      unfolding delete_credential
      delete_credential-IsKept =
          if-IsKept (not (is_identifier (units other))) _ _ k
            (delete_owned-IsKept (find_owned other target rows) refl)

    abbrev pub IsForeign : Call → Type 0
    IsForeign call = (c.owner_id ≢ caller call) × (draws call id ≡ false)

    run_call-IsKept :
        (call : Call) (rows : List StoredCredential)
        → IsForeign call
        → IsKept rows
        → IsKept (run_call cipher env_key call rows)
    run_call-IsKept (storing fresh other name value) rows (apart, new) k =
        store-IsKept fresh other name value rows (λ same. cc (new, (eq_iff fresh.new_id id).1 same))
          k
    run_call-IsKept (retrieving fresh other target) rows (apart, new) k =
        retrieve-IsKept fresh other target rows apart k
    run_call-IsKept (updating fresh other target value) rows (apart, new) k =
        update_credential-IsKept fresh other target rows apart k value
    run_call-IsKept (deleting other target) rows (apart, new) k =
        delete_credential-IsKept (record { new_id = id; salt = []; iv = []; now = 0 }) other target
          rows apart k

    pub run_calls-IsKept :
        (calls : List Call) (rows : List StoredCredential)
        → All IsForeign calls
        → IsKept rows
        → IsKept (run_calls cipher env_key calls rows)
    run_calls-IsKept [] rows h k = k
    run_calls-IsKept (call ∷ calls) rows (f, h) k =
        run_calls-IsKept calls (run_call cipher env_key call rows) h (run_call-IsKept call rows f k)
