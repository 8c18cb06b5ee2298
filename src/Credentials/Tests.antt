-- ===== src/Credentials/Tests.antt =====
-- Encryption and the vault at concrete values, and each theorem at a concrete input.
use jaa.Prelude.{
  ℕ, zero, suc, String, true, false, none, some, List, [], ◌∷◌, ◌≡◌, ◌≢◌, refl, arith, Result, ok,
  err, is_space, eq_iff, utf16_length,
}
use jaa.Prelude.Units.{is_identifier, Units, units, same_units, digit_value}
use jaa.Credentials.Encryption.{
  Bytes, Cipher, invalid_format, hex_of, bytes_of_hex, get_key, encrypt, decrypt,
}
use jaa.Credentials.Roundtrip.{IsSealing, AreRandom, decrypt-encrypt}
use jaa.Credentials.Vault.{
  StoredCredential, Fresh, VaultError, owner_required, disabled_in_production, make_vault,
  find_owned, store, retrieve, delete_credential, list_credentials, Call, storing, updating,
  deleting, run_calls,
}
use jaa.Credentials.Retrieval.{retrieve-store}

abbrev repeat : ℕ → ℕ → Bytes
repeat zero b = []
repeat (suc n) b = b ∷ repeat n b

-- A cipher that hides nothing: the tag is always the same sixteen bytes.
abbrev toy : Cipher
toy = record {
  derive = λ key salt. salt;
  seal = λ key iv text. (text, repeat 16 7);
  unseal = λ key iv tag sealed. elim (same_units tag (repeat 16 7)) [
    | true ↦ some sealed
    | false ↦ none
  ];
}

abbrev secret : Units
secret = units "s3cret"

abbrev master : Units
master = repeat 32 65

abbrev draw : Fresh
draw = record { new_id = "c1"; salt = repeat 32 1; iv = repeat 16 2; now = 5 }

abbrev later : Fresh
later = record { new_id = "c2"; salt = repeat 32 3; iv = repeat 16 4; now = 9 }

toy_seals : IsSealing toy secret
toy_seals = record {
  sealed_bytes = λ key iv. refl;
  tag_bytes = λ key iv. refl;
  tag_length = λ key iv. refl;
  unsealed = λ key iv. refl;
}

draw_random : AreRandom draw.salt draw.iv
draw_random = record { salt_bytes = refl; iv_bytes = refl; salt_length = refl; iv_length = refl }

abbrev kept : Result VaultError String × List StoredCredential
unfolding store
kept = store toy (some master) draw "alice" (units " mail ") secret []

decrypt_tests :
    (decrypt toy (some master) (units "00:11:22") ≡ err invalid_format)
    × (decrypt toy (some master) (units "00:11:22:33") ≡ err invalid_format)
    × (make_vault true ≡ err disabled_in_production)
    × ((store toy (some master) draw "" (units "mail") secret []).0 ≡ err owner_required)
    × ((retrieve toy (some master) later "bob" "c1" kept.1).0 ≡ ok none)
    × (list_credentials "alice" kept.1 ≡ ok (("c1", units "mail", 5) ∷ []))
    × ((delete_credential "bob" "c1" kept.1).0 ≡ ok false)
unfolding decrypt make_vault store retrieve list_credentials delete_credential find_owned encrypt
    get_key hex_of bytes_of_hex digit_value is_identifier utf16_length is_space
decrypt_tests = (refl, refl, refl, refl, refl, refl, refl)

decrypt-encrypt_example :
    (encrypted : Units) × (encrypt toy (some master) draw.salt draw.iv secret ≡ ok encrypted)
    × (decrypt toy (some master) encrypted ≡ ok secret)
decrypt-encrypt_example =
    decrypt-encrypt toy master draw.salt draw.iv secret toy_seals draw_random (omega arith)

stored : store toy (some master) draw "alice" (units " mail ") secret [] ≡ (ok "c1", kept.1)
unfolding store encrypt get_key hex_of digit_value is_identifier utf16_length is_space
stored = refl

abbrev intruder : List Call
intruder =
    storing later "bob" (units "x") (units "y")
    ∷ deleting "bob" "c1"
    ∷ updating later "bob" "c1" (units "z")
    ∷ []

alice_not_bob : ◌≢◌ {A = String} "alice" "bob"
alice_not_bob = ground (arith, eq_iff "alice" "bob")

retrieve-store_example :
    (retrieve toy (some master) later "alice" "c1" (run_calls toy (some master) intruder kept.1)).0
    ≡ ok (some secret)
retrieve-store_example =
    retrieve-store toy master draw later "alice" "c1" (units " mail ") secret [] kept.1 intruder
      toy_seals draw_random (omega arith) stored
      ((alice_not_bob, refl), ((alice_not_bob, refl), ((alice_not_bob, refl), tt)))
