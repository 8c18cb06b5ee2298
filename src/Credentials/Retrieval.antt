-- ===== src/Credentials/Retrieval.antt =====
-- What an owner stored is what the owner retrieves.
use jaa.Prelude.{
  String, Bool, true, false, not, Option, some, List, [], ◌∷◌, ◌++◌, ◌≡◌, refl, ap, sym, ◌∙◌, arith,
  ◌≤◌, ◌≢◌, inl, inr, Result, ok, err, ◌===◌, eq_refl, any, find, update, length, Bool-cases, All,
  if◌then◌else◌,
}
use mathlib.Core.Path.{subst}
use jaa.Prelude.Units.{is_identifier, units, Units}
use jaa.Credentials.Encryption.{Cipher, EncryptionError, encrypt, decrypt}
use jaa.Credentials.Roundtrip.{IsSealing, AreRandom, decrypt-encrypt}
use jaa.Credentials.Vault.{
  StoredCredential, Fresh, VaultError, is_valid_name, is_valid_value, set_credential, find_owned,
  new_credential, store, store_encrypted, retrieve, retrieve_owned, revealed, Call, caller, draws,
  run_calls,
}
use jaa.Credentials.Isolation.{run_calls-IsKept}

not_thrown :
    {A : Type 0} (b : Bool) (e : VaultError) (rows : List StoredCredential)
    (y : Result VaultError A × List StoredCredential) {a : A} {rows' : List StoredCredential}
    → (if b then (err e, rows) else y) ≡ (ok a, rows')
    → (b ≡ false) × (y ≡ (ok a, rows'))
not_thrown true e rows y h = absurd (ground (arith, h))
not_thrown false e rows y h = (refl, h)

find-set_credential :
    (new : StoredCredential) (rows : List StoredCredential)
    → find (λ r. r.id === new.id) (set_credential new rows) ≡ some new
find-set_credential new rows = elim (Bool-cases (any (λ r. r.id === new.id) rows)) [
  | inl e ↦ rw (e, set_credential) (replaced rows e)
  | inr e ↦ rw (e, set_credential) (appended rows e)
]
  where
    replaced :
        (rows : List StoredCredential)
        → any (λ r. r.id === new.id) rows ≡ true
        → find (λ r. r.id === new.id) (update (λ r. r.id === new.id) (λ _. new) rows) ≡ some new
    replaced [] e = cc
    replaced (r ∷ rows) e = elim (Bool-cases (r.id === new.id)) [
      | inl hit ↦ rw (hit, update) (rw (eq_refl new.id) refl)
      | inr miss ↦ rw (miss, update) (rw (miss, find) (replaced rows (ground (arith, e, miss))))
    ]

    appended :
        (rows : List StoredCredential)
        → any (λ r. r.id === new.id) rows ≡ false
        → find (λ r. r.id === new.id) (rows ++ (new ∷ [])) ≡ some new
    appended [] e = rw (eq_refl new.id) refl
    appended (r ∷ rows) e = ground (arith, e, appended rows)

result_inj : {A : Type 0} {a b : A} → ◌≡◌ {A = Result EncryptionError A} (ok a) (ok b) → a ≡ b
result_inj h = ground (arith, h)

ok_inj : {A : Type 0} {a b : A} → ◌≡◌ {A = Result VaultError A} (ok a) (ok b) → a ≡ b
ok_inj h = ground (arith, h)

not-eq-false : (b : Bool) → not b ≡ false → b ≡ true
not-eq-false true h = refl
not-eq-false false h = cc

store_encrypted-eq-ok :
    (fresh : Fresh) (owner : String) (name : Units) (rows rows' : List StoredCredential)
    (r : Result EncryptionError Units) (id : String)
    → store_encrypted fresh owner name rows r ≡ (ok id, rows')
    → (encrypted : Units) × (r ≡ ok encrypted)
      × (fresh.new_id ≡ id)
      × (set_credential (new_credential fresh owner name encrypted) rows ≡ rows')
store_encrypted-eq-ok fresh owner name rows rows' (err e) id h = absurd (ground (arith, h))
store_encrypted-eq-ok fresh owner name rows rows' (ok encrypted) id h =
    (encrypted, refl, ok_inj (ap (λ r. r.0) h), ap (λ r. r.1) h)

store-eq-ok :
    (cipher : Cipher) (env_key : Option Units) (fresh : Fresh) (owner : String) (name value : Units)
    (rows rows' : List StoredCredential) (id : String)
    → store cipher env_key fresh owner name value rows ≡ (ok id, rows')
    → (is_identifier (units owner) ≡ true)
      × ((encrypted : Units) × (encrypt cipher env_key fresh.salt fresh.iv value ≡ ok encrypted)
          × (fresh.new_id ≡ id)
          × (set_credential (new_credential fresh owner name encrypted) rows ≡ rows'))
unfolding store
store-eq-ok cipher env_key fresh owner name value rows rows' id h =
    let (valid, h1) = not_thrown (not (is_identifier (units owner))) _ rows _ h in
    let (name_ok, h2) = not_thrown (not (is_valid_name name)) _ rows _ h1 in
    let (value_ok, h3) = not_thrown (not (is_valid_value value)) _ rows _ h2 in
    (
      not-eq-false (is_identifier (units owner)) valid,
      store_encrypted-eq-ok fresh owner name rows rows'
          (encrypt cipher env_key fresh.salt fresh.iv value) id h3,
    )

find_owned_lem :
    (owner id : String) (rows : List StoredCredential) (c : StoredCredential)
    → find (λ r. r.id === id) rows ≡ some c
    → c.owner_id ≡ owner
    → find_owned owner id rows ≡ some c
unfolding find_owned
find_owned_lem owner id rows c found own = rw (found, own, eq_refl owner) refl

find_stored :
    (new : StoredCredential) (rows rows' : List StoredCredential) (id : String)
    → new.id ≡ id
    → set_credential new rows ≡ rows'
    → find (λ r. r.id === id) rows' ≡ some new
find_stored new rows rows' id same set =
    subst (λ rs. find (λ r. r.id === id) rs ≡ some new) set
      (subst (λ i. find (λ r. r.id === i) (set_credential new rows) ≡ some new) same
        (find-set_credential new rows))

retrieve_lem :
    (cipher : Cipher) (env_key : Option Units) (fresh : Fresh) (owner id : String)
    (rows : List StoredCredential) (c : StoredCredential)
    → is_identifier (units owner) ≡ true
    → find (λ r. r.id === id) rows ≡ some c
    → c.owner_id ≡ owner
    → (retrieve cipher env_key fresh owner id rows).0
      ≡ revealed (decrypt cipher env_key c.encrypted_value)
unfolding retrieve
retrieve_lem cipher env_key fresh owner id rows c valid found own = rw valid (
    ap (λ o. (retrieve_owned cipher env_key fresh id rows o).0)
      (find_owned_lem owner id rows c found own))

-- If an owner stores a value and gets an id, then after any calls of other owners, none of which draws
-- that id again, the owner retrieves the value under the id; the cipher opens the value as it sealed it,
-- the salt has 32 bytes, the IV 16, and the key 32 characters at least.
pub retrieve-store :
    (cipher : Cipher) (env_key : Units) (fresh later : Fresh) (owner id : String)
    (name value : Units) (rows rows' : List StoredCredential) (calls : List Call)
    → IsSealing cipher value
    → AreRandom fresh.salt fresh.iv
    → 32 ≤ length env_key
    → store cipher (some env_key) fresh owner name value rows ≡ (ok id, rows')
    → All (λ call. (owner ≢ caller call) × (draws call id ≡ false)) calls
    → (retrieve cipher
        (some env_key)
        later
        owner
        id
        (run_calls cipher (some env_key) calls rows')).0
      ≡ ok (some value)
retrieve-store cipher env_key fresh later owner id name value rows rows' calls sealing random long
      stored foreign =
    let (valid, (encrypted, enc, same_id, set)) =
      store-eq-ok cipher (some env_key) fresh owner name value rows rows' id stored in
    let new = new_credential fresh owner name encrypted in
    let at_once : find (λ r. r.id === id) rows' ≡ some new =
      find_stored new rows rows' id same_id set in
    let kept = run_calls-IsKept owner id new cipher (some env_key) calls rows' foreign at_once in
    let (encrypted', enc', dec) =
      decrypt-encrypt cipher env_key fresh.salt fresh.iv value sealing random long in
    retrieve_lem cipher (some env_key) later owner id (run_calls cipher (some env_key) calls rows')
      new valid kept refl
    ∙ ap revealed (ap (decrypt cipher (some env_key)) (result_inj (sym enc ∙ enc')) ∙ dec)
