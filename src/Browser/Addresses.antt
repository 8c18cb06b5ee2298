-- ===== src/Browser/Addresses.antt =====
-- The classification of IP addresses. Texts are lists of UTF-16 code units; the addresses that reach
-- this code are ASCII. `is_ip` stands for `isIP` of node:net.
use Prim.Native.Nat.{bit_and}
use jaa.Prelude.{
  ℕ, zero, suc, ◌+◌, ◌-◌, ◌*◌, ◌/◌, ◌%◌, ◌++◌, Bool, ◌&&◌, ◌||◌, not, Option, none, some, List, [],
  ◌∷◌, map, leb, ◌==◌, if◌then◌else◌, all, length, some_and,
}
use jaa.Prelude.Units.{
  Units, units, is_empty, starts_with, ends_with, slice_from, slice_last, lower, split,
  double_parts, cut_last, to_radix, parse_digits, is_decimal,
}

pub data BlockedIpCategory : Type 0 where
  unspecified private_use loopback link_local reserved multicast : BlockedIpCategory

unfoldable pub strip_ipv6_brackets : Units → Units
strip_ipv6_brackets hostname =
    if starts_with (units "[") hostname && ends_with (units "]") hostname
    then slice_last (slice_from 1 hostname)
    else hostname

-- `Number(part)`: 0 for the empty text, and NaN, `none`, for a text with another character than a
-- decimal digit (the signs, exponents and prefixes that `Number` reads are no part of an address).
abbrev pub part_number : Units → Option ℕ
part_number [] = some 0
part_number (c ∷ cs) = if all is_decimal (c ∷ cs) then parse_digits 10 (c ∷ cs) else none

unfoldable pub parse_ipv4 : Units → List (Option ℕ)
parse_ipv4 ip = map part_number (split 46 ip)

-- A variable that a destructuring assignment gives the element at an index.
abbrev pub element : ℕ → List (Option ℕ) → Option ℕ
element n [] = none
element zero (x ∷ xs) = x
element (suc n) (x ∷ xs) = element n xs

-- `x === n`, `lo <= x && x <= hi`, `x >= n`, false for NaN.
abbrev pub is_value : Option ℕ → ℕ → Bool
is_value x n = some_and x (λ v. v == n)

abbrev pub is_between : ℕ → Option ℕ → ℕ → Bool
is_between lo x hi = some_and x (λ v. leb lo v && leb v hi)

abbrev pub is_from : Option ℕ → ℕ → Bool
is_from x n = some_and x (λ v. leb n v)

unfoldable pub classify_octets : Option ℕ → Option ℕ → Option ℕ → Option BlockedIpCategory
classify_octets a b c =
    if is_value a 0
    then some unspecified
    else (if is_value a 10
          || (is_value a 172 && is_between 16 b 31)
          || (is_value a 192 && is_value b 168)
        then some private_use
        else (if is_value a 127
            then some loopback
            else (if is_value a 169 && is_value b 254
                then some link_local
                else (if is_between 224 a 239
                    then some multicast
                    else (if (is_value a 100 && is_between 64 b 127)
                          || (is_value a 192 && is_value b 0 && is_value c 0)
                          || (is_value a 192 && is_value b 0 && is_value c 2)
                          || (is_value a 198 && (is_value b 18 || is_value b 19))
                          || (is_value a 198 && is_value b 51 && is_value c 100)
                          || (is_value a 203 && is_value b 0 && is_value c 113)
                          || is_from a 240
                        then some reserved
                        else none)))))

unfoldable pub classify_ipv4 : Units → Option BlockedIpCategory
classify_ipv4 ip =
    let octets = parse_ipv4 ip in
    classify_octets (element 0 octets) (element 1 octets) (element 2 octets)

-- `\d+\.\d+\.\d+\.\d+` on a whole text.
unfoldable pub is_dotted_quad : Units → Bool
is_dotted_quad s =
    let octets = split 46 s in
    length octets == 4 && all (λ part. not (is_empty part) && all is_decimal part) octets

-- The two words of a dotted quad with octets up to 255, in hexadecimal.
abbrev pub quad_words : List (Option ℕ) → Option Units
quad_words (some a ∷ some b ∷ some c ∷ some d ∷ []) =
    if leb a 255 && leb b 255 && leb c 255 && leb d 255
    then some (to_radix 16 (a * 256 + b) ++ (58 ∷ to_radix 16 (c * 256 + d)))
    else none
quad_words _ = none

abbrev pub placed_after : Units → Option Units → Option Units
placed_after front none = none
placed_after front (some tail) = some (front ++ tail)

abbrev pub replace_quad : Units → Units × Units → Option Units
replace_quad candidate cut =
    if is_dotted_quad cut.1
    then placed_after cut.0 (quad_words (parse_ipv4 cut.1))
    else some candidate

-- A dotted quad at the end of an address becomes its two words; `none` where an octet is above 255.
unfoldable pub replace_ipv4_tail : Units → Option Units
replace_ipv4_tail candidate = replace_quad candidate (cut_last 58 candidate)

-- `half ? half.split(':') : []`.
abbrev pub half_words : Units → List Units
half_words half = if is_empty half then [] else split 58 half

abbrev pub zeros : ℕ → List Units
zeros zero = []
zeros (suc n) = (48 ∷ []) ∷ zeros n

-- `Number.parseInt(word || '0', 16)`.
abbrev pub word_number : Units → Option ℕ
word_number word = if is_empty word then some 0 else parse_digits 16 word

abbrev pub is_word : Option ℕ → Bool
is_word w = some_and w (λ v. leb v 0xffff)

abbrev pub values_of : List (Option ℕ) → List ℕ
values_of [] = []
values_of (none ∷ ws) = values_of ws
values_of (some w ∷ ws) = w ∷ values_of ws

abbrev pub checked_values : List (Option ℕ) → Option (List ℕ)
checked_values words =
    if length words == 8 && all is_word words then some (values_of words) else none

abbrev pub checked_words : List Units → Option (List ℕ)
checked_words texts = checked_values (map word_number texts)

-- `left`, as many zeros as are missing, and `right`; `none` where there are more than 8 words.
abbrev pub pad_words : List Units → List Units → Option (List ℕ)
pad_words left right =
    let present = length left + length right in
    if leb present 8 then checked_words (left ++ (zeros (8 - present) ++ right)) else none

-- The words of an address that `::` splits in one or two halves.
unfoldable pub words_of_halves : List Units → Option (List ℕ)
words_of_halves [] = none
words_of_halves (whole ∷ []) =
    let left = half_words whole in if length left == 8 then checked_words left else none
words_of_halves (first ∷ second ∷ []) = pad_words (half_words first) (half_words second)
words_of_halves (_ ∷ _ ∷ _ ∷ _) = none

abbrev pub halves_of : Units → List Units
halves_of candidate = (double_parts 58 candidate).0 ∷ (double_parts 58 candidate).1

abbrev pub first_part : List Units → Units
first_part [] = []
first_part (x ∷ _) = x

-- `ip.toLowerCase().split('%', 1)[0]`.
abbrev pub without_zone : Units → Units
without_zone ip = first_part (split 37 (lower ip))

abbrev pub words_of_candidate : Option Units → Option (List ℕ)
words_of_candidate none = none
words_of_candidate (some candidate) = words_of_halves (halves_of candidate)

unfoldable pub parse_ipv6_words : Units → Option (List ℕ)
parse_ipv6_words ip = words_of_candidate (replace_ipv4_tail (without_zone ip))

-- `${words[6] >> 8}.${words[6] & 255}.${words[7] >> 8}.${words[7] & 255}`.
abbrev pub dotted : ℕ → ℕ → ℕ → ℕ → Units
dotted a b c d =
    to_radix 10 a ++ (46 ∷ to_radix 10 b ++ (46 ∷ to_radix 10 c ++ (46 ∷ to_radix 10 d)))

abbrev pub all_zero : List ℕ → Bool
all_zero words = all (λ word. word == 0) words

abbrev pub classify_first_words : ℕ → ℕ → Option BlockedIpCategory
classify_first_words first second =
    if bit_and first 0xfe00 == 0xfc00
    then some private_use
    else (if bit_and first 0xffc0 == 0xfe80
        then some link_local
        else (if bit_and first 0xff00 == 0xff00
            then some multicast
            else (if bit_and first 0xffc0 == 0xfec0 || (first == 0x2001 && second == 0x0db8)
                then some reserved
                else none)))

unfoldable pub classify_words : List ℕ → Option BlockedIpCategory
classify_words (s ∷ t ∷ u ∷ v ∷ w ∷ x ∷ y ∷ z ∷ []) =
    let front = s ∷ t ∷ u ∷ v ∷ w ∷ [] in
    if all_zero (front ++ (x ∷ y ∷ z ∷ []))
    then some unspecified
    else (if all_zero (front ++ (x ∷ y ∷ [])) && z == 1
        then some loopback
        else (if all_zero front && x == 0xffff
            then classify_ipv4 (dotted (y / 256) (y % 256) (z / 256) (z % 256))
            else classify_first_words s t))
classify_words _ = some reserved

abbrev pub classify_parsed : Option (List ℕ) → Option BlockedIpCategory
classify_parsed none = some reserved
classify_parsed (some words) = classify_words words

unfoldable pub classify_ipv6 : Units → Option BlockedIpCategory
classify_ipv6 ip = classify_parsed (parse_ipv6_words ip)

unfoldable pub classify_blocked_ip_literal : (Units → ℕ) → Units → Option BlockedIpCategory
classify_blocked_ip_literal is_ip hostname =
    let candidate = lower (strip_ipv6_brackets hostname) in
    let family = is_ip candidate in
    if family == 4
    then classify_ipv4 candidate
    else (if family == 6 then classify_ipv6 candidate else none)
