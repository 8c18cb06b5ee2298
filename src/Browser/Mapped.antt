-- ===== src/Browser/Mapped.antt =====
-- IPv4 addresses inside IPv6 addresses.
use jaa.Prelude.{
  ℕ, ◌+◌, ◌*◌, ◌/◌, ◌%◌, ◌<◌, ◌≤◌, Bool, true, false, ◌&&◌, ◌||◌, not, Option, some, List, [], ◌∷◌,
  ◌++◌, ◌≡◌, refl, ap, ◌∙◌, arith, length, leb, ◌==◌, all, map,
}
use jaa.Prelude.Units.{
  Units, units, is_empty, is_decimal, has_unit, lower, parts, split, double_parts, cut_last,
  to_radix, parse_digits, digit_value,
}
use jaa.Prelude.Units.Splitting.{
  all-append, all_weaken, has_unit-eq-false, lower_fixed, parts_whole, parts-append, split_four,
  starts_other, starts_other-append, double_parts_whole, double_parts-append,
}
use jaa.Prelude.Units.Radix.{is_hex, to_radix_hex, to_radix_octet}
use jaa.Browser.Addresses.{
  classify_octets, classify_ipv4, classify_ipv6, classify_words, parse_ipv4, part_number,
  quad_words, is_dotted_quad, replace_ipv4_tail, replace_quad, words_of_halves, parse_ipv6_words,
  dotted, without_zone, first_part, words_of_candidate, classify_parsed, element, word_number,
  checked_values, pad_words,
}

-- Texts of decimal digits and dots.
abbrev is_dotted : ℕ → Bool
is_dotted c = is_decimal c || c == 46

abbrev is_plain : ℕ → Bool
is_plain c = not (leb 65 c && leb c 90)

dotted_plain : (c : ℕ) → is_dotted c ≡ true → is_plain c ≡ true
dotted_plain c h = ground arith

decimal_dotted : (c : ℕ) → is_decimal c ≡ true → is_dotted c ≡ true
decimal_dotted c h = ground arith

-- A part, a separator and a rest that are all dotted.
dotted_joined :
    (xs ys : Units)
    → all is_decimal xs ≡ true
    → all is_dotted ys ≡ true
    → all is_dotted (xs ++ (46 ∷ ys)) ≡ true
dotted_joined xs ys h k =
    all-append is_dotted xs (46 ∷ ys) (all_weaken is_decimal is_dotted decimal_dotted xs h) k

no_dot : (xs : Units) → all is_decimal xs ≡ true → has_unit 46 xs ≡ false
no_dot xs h = has_unit-eq-false is_decimal 46 refl xs h

part_number_lem :
    (xs : Units)
    → all is_decimal xs ≡ true
    → is_empty xs ≡ false
    → part_number xs ≡ parse_digits 10 xs
part_number_lem [] h k = cc
part_number_lem (x ∷ xs) h k = rw (h, part_number) refl

part_number-octet : (n : ℕ) → n < 256 → part_number (to_radix 10 n) ≡ some n
part_number-octet n h =
    let (decimal, full, value) = to_radix_octet n h in
    part_number_lem (to_radix 10 n) decimal full ∙ value

abbrev is_quad : List Units → Bool
is_quad octets =
    length octets == 4 && all (λ part. not (is_empty part) && all is_decimal part) octets

abbrev IsDecimalText : Units → Type 0
IsDecimalText xs = (all is_decimal xs ≡ true) × (is_empty xs ≡ false)

text : (n : ℕ) → n < 256 → IsDecimalText (to_radix 10 n)
text n h = ((to_radix_octet n h).0, (to_radix_octet n h).1)

is_quad_lem :
    (p q r s : Units)
    → IsDecimalText p
    → IsDecimalText q
    → IsDecimalText r
    → IsDecimalText s
    → is_quad (p ∷ q ∷ r ∷ s ∷ []) ≡ true
is_quad_lem p q r s (hp, kp) (hq, kq) (hr, kr) (hs, ks) = rw (hp, kp, hq, kq, hr, kr, hs, ks) refl

all_octets :
    (a b c d : ℕ)
    → a < 256
    → b < 256
    → c < 256
    → d < 256
    → leb a 255 && leb b 255 && leb c 255 && leb d 255 ≡ true
all_octets a b c d ha hb hc hd = ground arith

-- What a dotted quad at the end is replaced with.
tail_of_cut :
    (candidate front quad tail : Units) (octets : List (Option ℕ))
    → cut_last 58 candidate ≡ (front, quad)
    → is_dotted_quad quad ≡ true
    → parse_ipv4 quad ≡ octets
    → quad_words octets ≡ some tail
    → replace_ipv4_tail candidate ≡ some (front ++ tail)
unfolding replace_ipv4_tail
tail_of_cut candidate front quad tail octets cut is parsed words =
    ap (replace_quad candidate) cut ∙ rw (is, parsed, words) refl

word_number_lem : (n : ℕ) → word_number (to_radix 16 n) ≡ some n
word_number_lem n = rw ((to_radix_hex n).1) (to_radix_hex n).2

in_range :
    (y z : ℕ)
    → y ≤ 0xffff
    → z ≤ 0xffff
    → checked_values
        (some 0 ∷ some 0 ∷ some 0 ∷ some 0 ∷ some 0 ∷ some 0xffff ∷ some y ∷ some z ∷ [])
      ≡ some (0 ∷ 0 ∷ 0 ∷ 0 ∷ 0 ∷ 0xffff ∷ y ∷ z ∷ [])
in_range y z hy hz = ground arith

high_byte : (x y : ℕ) → y < 256 → (x * 256 + y) / 256 ≡ x
high_byte x y h = omega arith

low_byte : (x y : ℕ) → y < 256 → (x * 256 + y) % 256 ≡ y
low_byte x y h = omega arith

starts_other_lem : (c : ℕ) (xs : Units) → has_unit c xs ≡ false → starts_other c xs ≡ true
starts_other_lem c [] h = refl
starts_other_lem c (x ∷ xs) h = ground arith

module _ (a b c d : ℕ) (ha : a < 256) (hb : b < 256) (hc : c < 256) (hd : d < 256) where
  dotted-all : all is_dotted (dotted a b c d) ≡ true
  dotted-all = dotted_joined (to_radix 10 a) _ (to_radix_octet a ha).0 (
      dotted_joined (to_radix 10 b) _ (to_radix_octet b hb).0 (
        dotted_joined (to_radix 10 c) _ (to_radix_octet c hc).0
          (all_weaken is_decimal is_dotted decimal_dotted (to_radix 10 d) (to_radix_octet d hd).0)))

  split-dotted :
      split 46 (dotted a b c d) ≡ to_radix 10 a ∷ to_radix 10 b ∷ to_radix 10 c ∷ to_radix 10 d ∷ []
  split-dotted =
      split_four 46 (to_radix 10 a) (to_radix 10 b) (to_radix 10 c) (to_radix 10 d)
        (no_dot (to_radix 10 a) (text a ha).0) (no_dot (to_radix 10 b) (text b hb).0)
        (no_dot (to_radix 10 c) (text c hc).0) (no_dot (to_radix 10 d) (text d hd).0)

  parse_ipv4-dotted : parse_ipv4 (dotted a b c d) ≡ some a ∷ some b ∷ some c ∷ some d ∷ []
  unfolding parse_ipv4
  parse_ipv4-dotted =
      ap (map part_number) split-dotted
      ∙ rw
          (
            part_number-octet a ha,
            part_number-octet b hb,
            part_number-octet c hc,
            part_number-octet d hd,
          )
          refl

  is_dotted_quad-dotted : is_dotted_quad (dotted a b c d) ≡ true
  unfolding is_dotted_quad
  is_dotted_quad-dotted =
      ap is_quad split-dotted
      ∙ is_quad_lem (to_radix 10 a) (to_radix 10 b) (to_radix 10 c) (to_radix 10 d) (text a ha)
          (text b hb) (text c hc) (text d hd)

  low_word :
      quad_words (some a ∷ some b ∷ some c ∷ some d ∷ [])
      ≡ some (to_radix 16 (a * 256 + b) ++ (58 ∷ to_radix 16 (c * 256 + d)))
  low_word = rw (all_octets a b c d ha hb hc hd) refl

  no_colon : has_unit 58 (dotted a b c d) ≡ false
  no_colon = has_unit-eq-false is_dotted 58 refl (dotted a b c d) dotted-all

  cut_last-mapped :
      cut_last 58 (units "::ffff:" ++ dotted a b c d) ≡ (units "::ffff:", dotted a b c d)
  cut_last-mapped = rw no_colon refl

  replace_ipv4_tail-mapped :
      replace_ipv4_tail (units "::ffff:" ++ dotted a b c d)
      ≡ some (units "::ffff:" ++ (to_radix 16 (a * 256 + b) ++ (58 ∷ to_radix 16 (c * 256 + d))))
  unfolding replace_ipv4_tail
  replace_ipv4_tail-mapped =
      tail_of_cut (units "::ffff:" ++ dotted a b c d) _ _ _ _ cut_last-mapped is_dotted_quad-dotted
        parse_ipv4-dotted low_word

  hex_text : (n : ℕ) → has_unit 58 (to_radix 16 n) ≡ false
  unfolding digit_value
  hex_text n = has_unit-eq-false is_hex 58 refl (to_radix 16 n) (to_radix_hex n).0

  -- The four words after `::`.
  abbrev tail_words : Units
  tail_words = units "ffff:" ++ (to_radix 16 (a * 256 + b) ++ (58 ∷ to_radix 16 (c * 256 + d)))

  two_words :
      double_parts 58 (to_radix 16 (a * 256 + b) ++ (58 ∷ to_radix 16 (c * 256 + d)))
      ≡ (to_radix 16 (a * 256 + b) ++ (58 ∷ to_radix 16 (c * 256 + d)), [])
  two_words =
      double_parts-append 58 (to_radix 16 (a * 256 + b)) (to_radix 16 (c * 256 + d))
        (hex_text (a * 256 + b))
        (starts_other_lem 58 (to_radix 16 (c * 256 + d)) (hex_text (c * 256 + d)))
        (double_parts_whole 58 (to_radix 16 (c * 256 + d)) (hex_text (c * 256 + d)))

  double_parts-tail : double_parts 58 tail_words ≡ (tail_words, [])
  double_parts-tail =
      double_parts-append 58 (units "ffff")
        (to_radix 16 (a * 256 + b) ++ (58 ∷ to_radix 16 (c * 256 + d))) refl
        (starts_other-append 58 (to_radix 16 (a * 256 + b)) (58 ∷ to_radix 16 (c * 256 + d))
          (hex_text (a * 256 + b)) (to_radix_hex (a * 256 + b)).1)
        two_words

  split-tail :
      split 58 tail_words
      ≡ units "ffff" ∷ to_radix 16 (a * 256 + b) ∷ to_radix 16 (c * 256 + d) ∷ []
  split-tail =
      rw
        (
          parts-append 58 (to_radix 16 (a * 256 + b)) (to_radix 16 (c * 256 + d))
              (hex_text (a * 256 + b)),
          parts_whole 58 (to_radix 16 (c * 256 + d)) (hex_text (c * 256 + d)),
        )
        refl

  words_read :
      map word_number (
        (48 ∷ [])
        ∷ (48 ∷ [])
        ∷ (48 ∷ [])
        ∷ (48 ∷ [])
        ∷ (48 ∷ [])
        ∷ units "ffff"
        ∷ to_radix 16 (a * 256 + b)
        ∷ to_radix 16 (c * 256 + d)
        ∷ [])
      ≡ some 0
        ∷ some 0
        ∷ some 0
        ∷ some 0
        ∷ some 0
        ∷ some 0xffff
        ∷ some (a * 256 + b)
        ∷ some (c * 256 + d)
        ∷ []
  unfolding digit_value
  words_read = rw (word_number_lem (a * 256 + b), word_number_lem (c * 256 + d)) refl

  words_of_halves-mapped :
      words_of_halves ([] ∷ tail_words ∷ [])
      ≡ some (0 ∷ 0 ∷ 0 ∷ 0 ∷ 0 ∷ 0xffff ∷ (a * 256 + b) ∷ (c * 256 + d) ∷ [])
  unfolding words_of_halves
  words_of_halves-mapped =
      ap (pad_words []) split-tail
      ∙ (ap checked_values words_read
          ∙ in_range (a * 256 + b) (c * 256 + d) (omega arith) (omega arith))

  lower-mapped : lower (units "::ffff:" ++ dotted a b c d) ≡ units "::ffff:" ++ dotted a b c d
  lower-mapped =
      ap (λ rest. units "::ffff:" ++ rest)
        (lower_fixed (dotted a b c d)
          (all_weaken is_dotted is_plain dotted_plain (dotted a b c d) dotted-all))

  no_zone : parts 37 (dotted a b c d) ≡ (dotted a b c d, [])
  no_zone =
      parts_whole 37 (dotted a b c d)
        (has_unit-eq-false is_dotted 37 refl (dotted a b c d) dotted-all)

  without_zone-mapped :
      without_zone (units "::ffff:" ++ dotted a b c d) ≡ units "::ffff:" ++ dotted a b c d
  without_zone-mapped =
      ap (λ text. first_part (split 37 text)) lower-mapped
      ∙ ap (λ r. units "::ffff:" ++ r.0) no_zone

  parse_ipv6_words-mapped :
      parse_ipv6_words (units "::ffff:" ++ dotted a b c d)
      ≡ some (0 ∷ 0 ∷ 0 ∷ 0 ∷ 0 ∷ 0xffff ∷ (a * 256 + b) ∷ (c * 256 + d) ∷ [])
  unfolding parse_ipv6_words
  parse_ipv6_words-mapped =
      ap (λ candidate. words_of_candidate (replace_ipv4_tail candidate)) without_zone-mapped
      ∙ (ap words_of_candidate replace_ipv4_tail-mapped
          ∙ (ap words_of_halves (ap (λ r. [] ∷ r.0 ∷ r.1) double_parts-tail)
              ∙ words_of_halves-mapped))

  classify_words-mapped :
      classify_words (0 ∷ 0 ∷ 0 ∷ 0 ∷ 0 ∷ 0xffff ∷ (a * 256 + b) ∷ (c * 256 + d) ∷ [])
      ≡ classify_ipv4 (dotted a b c d)
  unfolding classify_words
  classify_words-mapped =
      rw (high_byte a b hb, low_byte a b hb, high_byte c d hd, low_byte c d hd) refl

  -- An IPv4 address written in an IPv6 address, `::ffff:a.b.c.d`, is blocked as the IPv4 address is, by
  -- its first three octets, for all octets below 256.
  pub classify_ipv6-mapped :
      (classify_ipv6 (units "::ffff:" ++ dotted a b c d) ≡ classify_ipv4 (dotted a b c d))
      × (classify_ipv4 (dotted a b c d) ≡ classify_octets (some a) (some b) (some c))
  unfolding classify_ipv6 classify_ipv4
  classify_ipv6-mapped = (
    ap classify_parsed parse_ipv6_words-mapped ∙ classify_words-mapped,
    ap (λ octets. classify_octets (element 0 octets) (element 1 octets) (element 2 octets))
        parse_ipv4-dotted,
  )
