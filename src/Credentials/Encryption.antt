-- ===== src/Credentials/Encryption.antt =====
-- `encrypt` and `decrypt`. A `Cipher` stands for node:crypto: scrypt, and AES-256-GCM with its conversions
-- between text and bytes. Random bytes and the environment's key are arguments.
use jaa.Prelude.{
  ℕ, ◌+◌, ◌*◌, ◌/◌, ◌%◌, Bool, ◌&&◌, not, Option, none, some, List, [], ◌∷◌, ◌++◌, Result, ok, err,
  ltb, ◌==◌, if◌then◌else◌, all, length, is_some,
}
use jaa.Prelude.Units.{Units, is_empty, split, digit, digit_value}

abbrev pub Bytes : Type 0
Bytes = List ℕ

pub record Cipher : Type 0 where
  -- `scryptSync(key, salt, 32)`.
  pub derive : Units → Bytes → Bytes
  -- The encrypted bytes and the tag of a text.
  pub seal : (key iv : Bytes) → Units → Bytes × Bytes
  -- The text, or `none` where the tag does not fit.
  pub unseal : (key iv tag sealed : Bytes) → Option Units

pub data EncryptionError : Type 0 where
  key_missing invalid_format not_authentic : EncryptionError

-- `buffer.toString('hex')`, and `Buffer.from(text, 'hex')`.
unfoldable pub hex_of : Bytes → Units
hex_of [] = []
hex_of (b ∷ bs) = digit (b / 16) ∷ digit (b % 16) ∷ hex_of bs

abbrev pub byte_of : Option ℕ → Option ℕ → Option ℕ
byte_of (some a) (some b) = some (a * 16 + b)
byte_of _ _ = none

abbrev pub push_byte : Option ℕ → Bytes → Bytes
push_byte none rest = []
push_byte (some b) rest = b ∷ rest

unfoldable pub bytes_of_hex : Units → Bytes
bytes_of_hex [] = []
bytes_of_hex (x ∷ []) = []
bytes_of_hex (x ∷ y ∷ rest) =
    push_byte (byte_of (digit_value x) (digit_value y)) (bytes_of_hex rest)

-- `/^[0-9a-f]*$/i`.
abbrev pub is_hex_text : Units → Bool
is_hex_text s = all (λ c. is_some (digit_value c)) s

unfoldable pub get_key : Cipher → Option Units → Bytes → Result EncryptionError Bytes
get_key cipher none salt = err key_missing
get_key cipher (some key) salt =
    if ltb (length key) 32 then err key_missing else ok (cipher.derive key salt)

-- `[…].join(':')` for four texts.
abbrev pub join_parts : Units → Units → Units → Units → Units
join_parts a b c d = a ++ (58 ∷ b ++ (58 ∷ c ++ (58 ∷ d)))

abbrev pub sealed_text : Bytes → Bytes → Bytes × Bytes → Units
sealed_text salt iv sealed =
    join_parts (hex_of salt) (hex_of iv) (hex_of sealed.1) (hex_of sealed.0)

unfoldable pub encrypt :
    Cipher → Option Units → (salt iv : Bytes) → Units → Result EncryptionError Units
encrypt cipher env_key salt iv plaintext = elim (get_key cipher env_key salt) [
  | err e ↦ err e
  | ok key ↦ ok (sealed_text salt iv (cipher.seal key iv plaintext))
]

abbrev pub unsealed_text : Option Units → Result EncryptionError Units
unsealed_text none = err not_authentic
unsealed_text (some text) = ok text

abbrev pub decrypt_bytes :
    Cipher → Option Units → (salt iv tag sealed : Bytes) → Result EncryptionError Units
decrypt_bytes cipher env_key salt iv tag sealed = elim (get_key cipher env_key salt) [
  | err e ↦ err e
  | ok key ↦
      if length salt == 32 && length iv == 16 && length tag == 16
      then unsealed_text (cipher.unseal key iv tag sealed)
      else err invalid_format
]

abbrev pub well_formed_parts : Units → Units → Units → Units → Bool
well_formed_parts salt iv tag sealed =
    not (is_empty salt)
    && not (is_empty iv)
    && not (is_empty tag)
    && is_hex_text salt
    && is_hex_text iv
    && is_hex_text tag
    && is_hex_text sealed
    && length sealed % 2 == 0

abbrev pub decrypt_parts : Cipher → Option Units → List Units → Result EncryptionError Units
decrypt_parts cipher env_key (salt ∷ iv ∷ tag ∷ sealed ∷ []) =
    if well_formed_parts salt iv tag sealed
    then decrypt_bytes cipher env_key (bytes_of_hex salt) (bytes_of_hex iv) (bytes_of_hex tag)
        (bytes_of_hex sealed)
    else err invalid_format
decrypt_parts cipher env_key _ = err invalid_format

unfoldable pub decrypt : Cipher → Option Units → Units → Result EncryptionError Units
decrypt cipher env_key ciphertext = decrypt_parts cipher env_key (split 58 ciphertext)
