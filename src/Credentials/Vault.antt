-- ===== src/Credentials/Vault.antt =====
-- `CredentialVault`. The store is a map from ids, a list in the order of insertion; an operation gives its
-- result with the store as it is then, also where it throws. `Fresh` is what a call draws: the id, the
-- random bytes, and the time.
use jaa.Prelude.{
  ℕ, String, Bool, true, false, ◌&&◌, not, Option, none, some, List, [], ◌∷◌, ◌++◌, map, Result, ok,
  err, leb, if◌then◌else◌, ◌===◌, any, find, keep, update, length,
}
use jaa.Prelude.Units.{is_identifier, units, Units, is_empty, trim}
use jaa.Credentials.Encryption.{Bytes, Cipher, EncryptionError, encrypt, decrypt}

pub record StoredCredential : Type 0 where
  pub id : String
  pub owner_id : String
  pub name : Units
  pub encrypted_value : Units
  pub created_at : ℕ
  pub updated_at : ℕ
  pub last_accessed_at : Option ℕ

pub record Fresh : Type 0 where
  pub new_id : String
  pub salt : Bytes
  pub iv : Bytes
  pub now : ℕ

pub data VaultError : Type 0 where
  disabled_in_production owner_required bad_name bad_value : VaultError
  encryption : EncryptionError → VaultError

-- The constructor, where `NODE_ENV` is production or not.
unfoldable pub make_vault : Bool → Result VaultError (List StoredCredential)
make_vault production = if production then err disabled_in_production else ok []

abbrev pub is_valid_value : Units → Bool
is_valid_value value = not (is_empty value) && leb (length value) 100000

abbrev pub is_valid_name : Units → Bool
is_valid_name name = not (is_empty (trim name)) && leb (length (trim name)) 200

-- `credentialStore.set(id, credential)`.
abbrev pub set_credential : StoredCredential → List StoredCredential → List StoredCredential
set_credential credential rows =
    if any (λ c. c.id === credential.id) rows
    then update (λ c. c.id === credential.id) (λ _. credential) rows
    else rows ++ (credential ∷ [])

abbrev pub owned : String → Option StoredCredential → Option StoredCredential
owned owner none = none
owned owner (some c) = if c.owner_id === owner then some c else none

-- The credential under an id, if the owner has it.
unfoldable pub find_owned : String → String → List StoredCredential → Option StoredCredential
find_owned owner id rows = owned owner (find (λ c. c.id === id) rows)

abbrev pub new_credential : Fresh → String → Units → Units → StoredCredential
new_credential fresh owner name encrypted = record {
  id = fresh.new_id;
  owner_id = owner;
  name = trim name;
  encrypted_value = encrypted;
  created_at = fresh.now;
  updated_at = fresh.now;
  last_accessed_at = none;
}

abbrev pub store_encrypted :
    Fresh
    → String
    → Units
    → List StoredCredential
    → Result EncryptionError Units
    → Result VaultError String × List StoredCredential
store_encrypted fresh owner name rows (err e) = (err (encryption e), rows)
store_encrypted fresh owner name rows (ok encrypted) =
    (ok fresh.new_id, set_credential (new_credential fresh owner name encrypted) rows)

unfoldable pub store :
    Cipher
    → Option Units
    → Fresh
    → (owner : String) → (name value : Units) → List StoredCredential
    → Result VaultError String × List StoredCredential
store cipher env_key fresh owner name value rows =
    if not (is_identifier (units owner))
    then (err owner_required, rows)
    else (if not (is_valid_name name)
        then (err bad_name, rows)
        else (if not (is_valid_value value)
            then (err bad_value, rows)
            else store_encrypted fresh owner name rows
                (encrypt cipher env_key fresh.salt fresh.iv value)))

abbrev pub touched : ℕ → StoredCredential → StoredCredential
touched now c = record c { last_accessed_at = some now }

abbrev pub revealed : Result EncryptionError Units → Result VaultError (Option Units)
revealed (err e) = err (encryption e)
revealed (ok text) = ok (some text)

abbrev pub retrieve_owned :
    Cipher
    → Option Units
    → Fresh
    → String
    → List StoredCredential
    → Option StoredCredential
    → Result VaultError (Option Units) × List StoredCredential
retrieve_owned cipher env_key fresh id rows none = (ok none, rows)
retrieve_owned cipher env_key fresh id rows (some c) = (
  revealed (decrypt cipher env_key c.encrypted_value),
  update (λ c. c.id === id) (touched fresh.now) rows,
)

unfoldable pub retrieve :
    Cipher
    → Option Units
    → Fresh
    → (owner id : String) → List StoredCredential
    → Result VaultError (Option Units) × List StoredCredential
retrieve cipher env_key fresh owner id rows =
    if not (is_identifier (units owner))
    then (err owner_required, rows)
    else retrieve_owned cipher env_key fresh id rows (find_owned owner id rows)

abbrev pub changed : ℕ → Units → StoredCredential → StoredCredential
changed now encrypted c = record c { encrypted_value = encrypted; updated_at = now }

abbrev pub write_encrypted :
    Fresh
    → String
    → List StoredCredential
    → Result EncryptionError Units
    → Result VaultError Bool × List StoredCredential
write_encrypted fresh id rows (err e) = (err (encryption e), rows)
write_encrypted fresh id rows (ok encrypted) =
    (ok true, update (λ c. c.id === id) (changed fresh.now encrypted) rows)

abbrev pub update_owned :
    Cipher
    → Option Units
    → Fresh
    → String
    → Units
    → List StoredCredential
    → Option StoredCredential
    → Result VaultError Bool × List StoredCredential
update_owned cipher env_key fresh id value rows none = (ok false, rows)
update_owned cipher env_key fresh id value rows (some c) =
    write_encrypted fresh id rows (encrypt cipher env_key fresh.salt fresh.iv value)

unfoldable pub update_credential :
    Cipher
    → Option Units
    → Fresh
    → (owner id : String) → Units
    → List StoredCredential
    → Result VaultError Bool × List StoredCredential
update_credential cipher env_key fresh owner id value rows =
    if not (is_identifier (units owner))
    then (err owner_required, rows)
    else (if not (is_valid_value value)
        then (err bad_value, rows)
        else update_owned cipher env_key fresh id value rows (find_owned owner id rows))

abbrev pub delete_owned :
    String
    → List StoredCredential
    → Option StoredCredential
    → Result VaultError Bool × List StoredCredential
delete_owned id rows none = (ok false, rows)
delete_owned id rows (some c) = (ok true, keep (λ c. not (c.id === id)) rows)

unfoldable pub delete_credential :
    (owner id : String) → List StoredCredential → Result VaultError Bool × List StoredCredential
delete_credential owner id rows =
    if not (is_identifier (units owner))
    then (err owner_required, rows)
    else delete_owned id rows (find_owned owner id rows)

-- The id, the name and the creation time.
abbrev pub listed : StoredCredential → String × Units × ℕ
listed c = (c.id, c.name, c.created_at)

unfoldable pub list_credentials :
    String → List StoredCredential → Result VaultError (List (String × Units × ℕ))
list_credentials owner rows =
    if not (is_identifier (units owner))
    then err owner_required
    else ok (map listed (keep (λ c. c.owner_id === owner) rows))

-- The calls that change the store.
pub data Call : Type 0 where
  storing : Fresh → (owner : String) → (name value : Units) → Call
  retrieving : Fresh → (owner id : String) → Call
  updating : Fresh → (owner id : String) → Units → Call
  deleting : (owner id : String) → Call

abbrev pub caller : Call → String
caller (storing fresh owner name value) = owner
caller (retrieving fresh owner id) = owner
caller (updating fresh owner id value) = owner
caller (deleting owner id) = owner

abbrev pub draws : Call → String → Bool
draws (storing fresh owner name value) id = fresh.new_id === id
draws _ id = false

abbrev pub run_call : Cipher → Option Units → Call → List StoredCredential → List StoredCredential
run_call cipher env_key (storing fresh owner name value) rows =
    (store cipher env_key fresh owner name value rows).1
run_call cipher env_key (retrieving fresh owner id) rows =
    (retrieve cipher env_key fresh owner id rows).1
run_call cipher env_key (updating fresh owner id value) rows =
    (update_credential cipher env_key fresh owner id value rows).1
run_call cipher env_key (deleting owner id) rows = (delete_credential owner id rows).1

abbrev pub run_calls :
    Cipher → Option Units → List Call → List StoredCredential → List StoredCredential
run_calls cipher env_key [] rows = rows
run_calls cipher env_key (call ∷ calls) rows =
    run_calls cipher env_key calls (run_call cipher env_key call rows)
