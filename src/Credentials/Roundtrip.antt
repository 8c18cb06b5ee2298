-- ===== src/Credentials/Roundtrip.antt =====
-- What is encrypted is read back.
use jaa.Prelude.{
  ℕ, ◌+◌, ◌*◌, ◌/◌, ◌%◌, ◌≤◌, Bool, true, false, Option, some, [], ◌∷◌, ◌≡◌, refl, ap, ◌∙◌, arith,
  ok, leb, ◌==◌, all, length,
}
use jaa.Prelude.Units.{Units, is_empty, has_unit, digit_value}
use jaa.Prelude.Units.Splitting.{has_unit-eq-false, split_four}
use jaa.Prelude.Units.Radix.{is_hex, digit_lem}
use jaa.Credentials.Encryption.{
  Bytes, Cipher, hex_of, bytes_of_hex, is_hex_text, get_key, sealed_text, encrypt, decrypt,
  decrypt_parts, decrypt_bytes, well_formed_parts,
}

abbrev pub is_bytes : Bytes → Bool
is_bytes bs = all (λ b. leb b 255) bs

hex_of-all : (bs : Bytes) → is_bytes bs ≡ true → all is_hex (hex_of bs) ≡ true
unfolding hex_of
hex_of-all [] h = refl
hex_of-all (b ∷ bs) h =
    rw ((digit_lem (b / 16) (ground arith)).1, (digit_lem (b % 16) (omega arith)).1)
      (hex_of-all bs (ground arith))

hex_of-IsHexText : (bs : Bytes) → is_bytes bs ≡ true → is_hex_text (hex_of bs) ≡ true
unfolding hex_of
hex_of-IsHexText [] h = refl
hex_of-IsHexText (b ∷ bs) h =
    rw ((digit_lem (b / 16) (ground arith)).0, (digit_lem (b % 16) (omega arith)).0)
      (hex_of-IsHexText bs (ground arith))

length-hex_of : (bs : Bytes) → length (hex_of bs) ≡ 2 * length bs
unfolding hex_of
length-hex_of [] = refl
length-hex_of (b ∷ bs) = omega (arith, length-hex_of bs)

byte_parts : (b : ℕ) → b / 16 * 16 + b % 16 ≡ b
byte_parts b = omega arith

bytes_of_hex-hex_of : (bs : Bytes) → is_bytes bs ≡ true → bytes_of_hex (hex_of bs) ≡ bs
unfolding hex_of bytes_of_hex
bytes_of_hex-hex_of [] h = refl
bytes_of_hex-hex_of (b ∷ bs) h =
    rw
      (
        (digit_lem (b / 16) (ground arith)).0,
        (digit_lem (b % 16) (omega arith)).0,
        bytes_of_hex-hex_of bs (ground arith),
      )
      (ap (λ x. x ∷ bs) (byte_parts b))

no_colon : (bs : Bytes) → is_bytes bs ≡ true → has_unit 58 (hex_of bs) ≡ false
unfolding digit_value
no_colon bs h = has_unit-eq-false is_hex 58 refl (hex_of bs) (hex_of-all bs h)

full : (bs : Bytes) → 1 ≤ length bs → is_empty (hex_of bs) ≡ false
unfolding hex_of
full [] h = absurd (omega arith)
full (b ∷ bs) h = refl

even : (bs : Bytes) → length (hex_of bs) % 2 == 0 ≡ true
even bs = ground (arith, length-hex_of bs)

module _ (cipher : Cipher) (env_key : Option Units) (salt iv tag sealed : Bytes) where
  abbrev pub AreBytes : Type 0
  AreBytes =
      (is_bytes salt ≡ true)
      × (is_bytes iv ≡ true)
      × (is_bytes tag ≡ true)
      × (is_bytes sealed ≡ true)

  well_formed :
      AreBytes
      → 1 ≤ length salt
      → 1 ≤ length iv
      → 1 ≤ length tag
      → well_formed_parts (hex_of salt) (hex_of iv) (hex_of tag) (hex_of sealed) ≡ true
  well_formed (hs, hi, ht, hc) ls li lt =
      rw
        (
          full salt ls,
          full iv li,
          full tag lt,
          hex_of-IsHexText salt hs,
          hex_of-IsHexText iv hi,
          hex_of-IsHexText tag ht,
          hex_of-IsHexText sealed hc,
        )
        (even sealed)

  decrypt_parts-hex :
      AreBytes
      → 1 ≤ length salt
      → 1 ≤ length iv
      → 1 ≤ length tag
      → decrypt_parts cipher env_key (hex_of salt ∷ hex_of iv ∷ hex_of tag ∷ hex_of sealed ∷ [])
        ≡ decrypt_bytes cipher env_key salt iv tag sealed
  decrypt_parts-hex (hs, hi, ht, hc) ls li lt =
      rw
        (
          well_formed (hs, hi, ht, hc) ls li lt,
          bytes_of_hex-hex_of salt hs,
          bytes_of_hex-hex_of iv hi,
          bytes_of_hex-hex_of tag ht,
          bytes_of_hex-hex_of sealed hc,
        )
        refl

  decrypt-sealed_text :
      AreBytes
      → 1 ≤ length salt
      → 1 ≤ length iv
      → 1 ≤ length tag
      → decrypt cipher env_key (sealed_text salt iv (sealed, tag))
        ≡ decrypt_bytes cipher env_key salt iv tag sealed
  unfolding decrypt
  decrypt-sealed_text (hs, hi, ht, hc) ls li lt =
      ap (decrypt_parts cipher env_key) (
        split_four 58 (hex_of salt) (hex_of iv) (hex_of tag) (hex_of sealed) (no_colon salt hs)
          (no_colon iv hi) (no_colon tag ht) (no_colon sealed hc))
      ∙ decrypt_parts-hex (hs, hi, ht, hc) ls li lt

get_key_lem :
    (cipher : Cipher) (env_key : Units) (salt : Bytes)
    → 32 ≤ length env_key
    → get_key cipher (some env_key) salt ≡ ok (cipher.derive env_key salt)
unfolding get_key
get_key_lem cipher env_key salt h = ground arith

decrypt_bytes_lem :
    (cipher : Cipher) (env_key : Option Units) (salt iv tag sealed key : Bytes) (text : Units)
    → get_key cipher env_key salt ≡ ok key
    → length salt ≡ 32
    → length iv ≡ 16
    → length tag ≡ 16
    → cipher.unseal key iv tag sealed ≡ some text
    → decrypt_bytes cipher env_key salt iv tag sealed ≡ ok text
decrypt_bytes_lem cipher env_key salt iv tag sealed key text k ls li lt u =
    rw (k, decrypt_bytes) (rw (ls, li, lt) (rw u refl))

-- What AES-256-GCM promises for a text: bytes, a tag of 16, and the text again under the same key, IV and
-- tag.
pub record IsSealing (cipher : Cipher) (text : Units) : Type 0 where
  pub sealed_bytes : (key iv : Bytes) → is_bytes (cipher.seal key iv text).0 ≡ true
  pub tag_bytes : (key iv : Bytes) → is_bytes (cipher.seal key iv text).1 ≡ true
  pub tag_length : (key iv : Bytes) → length (cipher.seal key iv text).1 ≡ 16
  pub unsealed :
      (key iv : Bytes)
      → cipher.unseal key iv (cipher.seal key iv text).1 (cipher.seal key iv text).0 ≡ some text

-- A salt of 32 bytes and an IV of 16.
pub record AreRandom (salt iv : Bytes) : Type 0 where
  pub salt_bytes : is_bytes salt ≡ true
  pub iv_bytes : is_bytes iv ≡ true
  pub salt_length : length salt ≡ 32
  pub iv_length : length iv ≡ 16

-- For a text that the cipher opens as it sealed it, a salt of 32 bytes, an IV of 16 and a key of 32
-- characters at least, encrypting succeeds, and decrypting what it gives yields the text again.
pub decrypt-encrypt :
    (cipher : Cipher) (env_key : Units) (salt iv : Bytes) (text : Units)
    → IsSealing cipher text
    → AreRandom salt iv
    → 32 ≤ length env_key
    → (encrypted : Units) × (encrypt cipher (some env_key) salt iv text ≡ ok encrypted)
      × (decrypt cipher (some env_key) encrypted ≡ ok text)
unfolding encrypt
decrypt-encrypt cipher env_key salt iv text s r long =
    let key = cipher.derive env_key salt in
    let sealed = cipher.seal key iv text in
    (
      sealed_text salt iv sealed,
      rw (get_key_lem cipher env_key salt long, encrypt) refl,
      decrypt-sealed_text cipher (some env_key) salt iv sealed.1 sealed.0
            (r.salt_bytes, r.iv_bytes, s.tag_bytes key iv, s.sealed_bytes key iv)
            (omega (arith, r.salt_length)) (omega (arith, r.iv_length))
            (omega (arith, s.tag_length key iv))
          ∙ decrypt_bytes_lem cipher (some env_key) salt iv sealed.1 sealed.0 key text
              (get_key_lem cipher env_key salt long) r.salt_length r.iv_length (s.tag_length key iv)
              (s.unsealed key iv),
    )
