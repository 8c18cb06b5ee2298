-- ===== src/Prelude/Units/Radix.antt =====
-- Numbers written in a radix, and read again.
use jaa.Prelude.{
  ℕ, zero, suc, ◌+◌, ◌*◌, ◌/◌, ◌%◌, ◌<◌, Bool, true, false, ◌&&◌, not, some, [], ◌∷◌, ◌++◌, ◌≡◌,
  refl, ap, ◌∙◌, arith, ltb, ◌==◌, all, some_and, inl, inr, Bool-cases, Option-cases,
}
use jaa.Prelude.Units.{
  Units, is_decimal, is_empty, digit, digit_value, digits_value, parse_digits, radix_digits,
  to_radix,
}
use jaa.Prelude.Units.Splitting.{all-append}

abbrev pub is_hex : ℕ → Bool
is_hex c = some_and (digit_value c) (λ d. ltb d 16) && not (c == 58)

pub digit_lem : (d : ℕ) → d < 16 → (digit_value (digit d) ≡ some d) × (is_hex (digit d) ≡ true)
unfolding digit_value
digit_lem d h = ground arith

digits_value-append :
    (n d : ℕ) (xs : Units)
    → d < 16
    → all is_hex xs ≡ true
    → digits_value 16 n (xs ++ (digit d ∷ [])) ≡ digits_value 16 n xs * 16 + d
digits_value-append n d [] h k = ground (arith, digit_lem d h)
digits_value-append n d (x ∷ xs) h k = elim (Option-cases (digit_value x)) [
  | inl e ↦ absurd (ground (arith, e))
  | inr (v, e) ↦
      let lt : ltb v 16 ≡ true = ground (arith, e) in
      rw (e, digits_value) (rw lt (digits_value-append (n * 16 + v) d xs h (ground (arith, e))))
]

is_empty-append : (xs : Units) (y : ℕ) (ys : Units) → is_empty (xs ++ (y ∷ ys)) ≡ false
is_empty-append [] y ys = refl
is_empty-append (x ∷ xs) y ys = refl

radix_digits_lem :
    (k n : ℕ)
    → n < k
    → (all is_hex (radix_digits 16 k n) ≡ true)
      × (is_empty (radix_digits 16 k n) ≡ false)
      × (digits_value 16 0 (radix_digits 16 k n) ≡ n)
unfolding radix_digits
radix_digits_lem zero n h = absurd (omega arith)
radix_digits_lem (suc k) n h = elim (Bool-cases (ltb n 16)) [
  | inl e ↦ rw e (ground (arith, digit_lem n (ground arith)))
  | inr e ↦
      let (hex, full, value) = radix_digits_lem k (n / 16) (ground (arith, e)) in
      let (shown, known) = digit_lem (n % 16) (omega arith) in
      rw e (
        all-append is_hex (radix_digits 16 k (n / 16)) (digit (n % 16) ∷ []) hex
            (ground (arith, known)),
        is_empty-append (radix_digits 16 k (n / 16)) (digit (n % 16)) [],
        omega (
          arith,
          value,
          digits_value-append 0 (n % 16) (radix_digits 16 k (n / 16)) (omega arith) hex,
        ),
      )
]

zero_start : (v : ℕ) → v ≡ 0 * 16 + v
zero_start v = omega arith

parse_digits_lem :
    (xs : Units)
    → all is_hex xs ≡ true
    → is_empty xs ≡ false
    → parse_digits 16 xs ≡ some (digits_value 16 0 xs)
parse_digits_lem [] h k = cc
parse_digits_lem (x ∷ xs) h k = elim (Option-cases (digit_value x)) [
  | inl e ↦ absurd (ground (arith, e))
  | inr (v, e) ↦
      let lt : ltb v 16 ≡ true = ground (arith, e) in
      rw (e, parse_digits, digits_value)
        (rw lt (ap (λ m. some (digits_value 16 m xs)) (zero_start v)))
]

-- A number in hexadecimal: its digits, and what they are read as.
pub to_radix_hex :
    (n : ℕ)
    → (all is_hex (to_radix 16 n) ≡ true)
      × (is_empty (to_radix 16 n) ≡ false)
      × (parse_digits 16 (to_radix 16 n) ≡ some n)
to_radix_hex n =
    let (hex, full, value) = radix_digits_lem (suc n) n (omega arith) in
    (hex, full, parse_digits_lem (to_radix 16 n) hex full ∙ ap some value)

-- Over a small range, every value is checked by evaluation.
abbrev all_below : ℕ → (ℕ → Bool) → Bool
all_below zero p = true
all_below (suc n) p = p n && all_below n p

all_below_lem : (n : ℕ) (p : ℕ → Bool) (x : ℕ) → all_below n p ≡ true → x < n → p x ≡ true
all_below_lem zero p x h lt = absurd (omega arith)
all_below_lem (suc n) p x h lt = ground (arith, all_below_lem n p x)

abbrev is_octet_text : ℕ → Bool
is_octet_text n =
    all is_decimal (to_radix 10 n)
    && not (is_empty (to_radix 10 n))
    && some_and (parse_digits 10 (to_radix 10 n)) (λ v. v == n)

octet_texts : all_below 256 is_octet_text ≡ true
unfolding radix_digits digit_value
octet_texts = refl

octet_text_parts :
    (xs : Units) (n : ℕ)
    → all is_decimal xs && not (is_empty xs) && some_and (parse_digits 10 xs) (λ v. v == n) ≡ true
    → (all is_decimal xs ≡ true) × (is_empty xs ≡ false) × (parse_digits 10 xs ≡ some n)
octet_text_parts xs n h = elim (Option-cases (parse_digits 10 xs)) [
  | inl e ↦ absurd (ground (arith, e))
  | inr (v, e) ↦ (ground arith, ground arith, ground (arith, e))
]

-- An octet in decimal.
pub to_radix_octet :
    (n : ℕ)
    → n < 256
    → (all is_decimal (to_radix 10 n) ≡ true)
      × (is_empty (to_radix 10 n) ≡ false)
      × (parse_digits 10 (to_radix 10 n) ≡ some n)
to_radix_octet n h =
    octet_text_parts (to_radix 10 n) n (all_below_lem 256 is_octet_text n octet_texts h)
