-- ===== src/Prelude/Units.antt =====
-- Strings as JavaScript has them, lists of UTF-16 code units, with the operations of `String.prototype`
-- and the radix conversions that the code uses.
pub mod Splitting
pub mod Radix
pub mod Blank
use Prim.Native.Char.{code}
use Prim.Native.String
use jaa.Prelude.{
  ℕ, zero, suc, ◌+◌, ◌-◌, ◌*◌, ◌/◌, ◌%◌, String, Bool, true, false, ◌&&◌, ◌||◌, not, Option, none,
  some, List, [], ◌∷◌, ◌++◌, map, leb, ltb, ◌==◌, if◌then◌else◌, any, all, length, is_space,
}

abbrev pub Units : Type 0
Units = List ℕ

abbrev pub units : String → Units
units String.[] = []
units (String.◌∷◌ c s) =
    let rest = units s in
    let offset = code c - 0x10000 in
    if leb (code c) 0xffff
    then code c ∷ rest
    else (0xd800 + offset / 1024) ∷ (0xdc00 + offset % 1024) ∷ rest

-- `a === b`.
abbrev pub same_units : Units → Units → Bool
same_units [] [] = true
same_units (x ∷ xs) (y ∷ ys) = x == y && same_units xs ys
same_units _ _ = false

-- `!s`.
abbrev pub is_empty : Units → Bool
is_empty [] = true
is_empty (_ ∷ _) = false

-- `s.includes(c)` for one code unit.
abbrev pub has_unit : ℕ → Units → Bool
has_unit c s = any (λ x. x == c) s

-- `s.startsWith(prefix)`, `s.endsWith(suffix)`.
abbrev pub starts_with : Units → Units → Bool
starts_with [] s = true
starts_with (p ∷ ps) [] = false
starts_with (p ∷ ps) (x ∷ xs) = p == x && starts_with ps xs

abbrev pub ends_with : Units → Units → Bool
ends_with suffix [] = is_empty suffix
ends_with suffix (x ∷ xs) = same_units (x ∷ xs) suffix || ends_with suffix xs

-- `s.slice(n)`, and `s.slice(0, -1)`.
abbrev pub slice_from : ℕ → Units → Units
slice_from zero s = s
slice_from (suc n) [] = []
slice_from (suc n) (x ∷ xs) = slice_from n xs

abbrev pub slice_last : Units → Units
slice_last [] = []
slice_last (x ∷ []) = []
slice_last (x ∷ y ∷ ys) = x ∷ slice_last (y ∷ ys)

-- `s.trim()`.
abbrev pub trim_start : Units → Units
trim_start [] = []
trim_start (x ∷ xs) = let rest = trim_start xs in if is_space x then rest else x ∷ xs

abbrev pub trim_end : Units → Units
trim_end [] = []
trim_end (x ∷ xs) = let rest = trim_end xs in if is_space x && is_empty rest then [] else x ∷ rest

abbrev pub trim : Units → Units
trim s = trim_end (trim_start s)

-- `s.toLowerCase()` on ASCII text.
abbrev pub lower_unit : ℕ → ℕ
lower_unit c = if leb 65 c && leb c 90 then c + 32 else c

abbrev pub lower : Units → Units
lower s = map lower_unit s

-- `s.split(c)` for one code unit: the part before the first `c`, and the others.
abbrev pub parts : ℕ → Units → Units × List Units
parts c [] = ([], [])
parts c (x ∷ xs) =
    let rest = parts c xs in if x == c then ([], rest.0 ∷ rest.1) else (x ∷ rest.0, rest.1)

abbrev pub split : ℕ → Units → List Units
split c s = (parts c s).0 ∷ (parts c s).1

-- `s.split(cc)` for a separator of two equal code units.
abbrev pub double_parts : ℕ → Units → Units × List Units
double_parts c [] = ([], [])
double_parts c (x ∷ []) = (x ∷ [], [])
double_parts c (x ∷ y ∷ ys) = elim (x == c && y == c) [
  | true ↦ ([], (double_parts c ys).0 ∷ (double_parts c ys).1)
  | false ↦ (x ∷ (double_parts c (y ∷ ys)).0, (double_parts c (y ∷ ys)).1)
]

-- The text up to and with the last `c`, and the text after it.
abbrev pub cut_last : ℕ → Units → Units × Units
cut_last c [] = ([], [])
cut_last c (x ∷ xs) =
    let rest = cut_last c xs in
    if has_unit c xs then (x ∷ rest.0, rest.1) else (if x == c then (x ∷ [], xs) else ([], x ∷ xs))

-- `n.toString(radix)`; `k` digits at most.
abbrev pub digit : ℕ → ℕ
digit d = if ltb d 10 then 48 + d else 87 + d

unfoldable pub radix_digits : ℕ → ℕ → ℕ → Units
radix_digits radix zero n = []
radix_digits radix (suc k) n =
    let rest = radix_digits radix k (n / radix) in
    if ltb n radix then digit n ∷ [] else rest ++ (digit (n % radix) ∷ [])

abbrev pub to_radix : ℕ → ℕ → Units
to_radix radix n = radix_digits radix (suc n) n

-- The value of a digit, or `none`.
unfoldable pub digit_value : ℕ → Option ℕ
digit_value c =
    if leb 48 c && leb c 57
    then some (c - 48)
    else (if leb 97 c && leb c 102
        then some (c - 87)
        else (if leb 65 c && leb c 70 then some (c - 55) else none))

-- The number that the leading digits of a text give; `none` where there is no digit.
abbrev pub digits_value : ℕ → ℕ → Units → ℕ
digits_value radix n [] = n
digits_value radix n (c ∷ cs) = elim (digit_value c) [
  | none ↦ n
  | some d ↦ if ltb d radix then digits_value radix (n * radix + d) cs else n
]

abbrev pub parse_digits : ℕ → Units → Option ℕ
parse_digits radix [] = none
parse_digits radix (c ∷ cs) = elim (digit_value c) [
  | none ↦ none
  | some d ↦ if ltb d radix then some (digits_value radix d cs) else none
]

abbrev pub is_decimal : ℕ → Bool
is_decimal c = leb 48 c && leb c 57

-- The characters of `[A-Za-z0-9._:-]`, and `^[A-Za-z0-9._:-]{1,200}$`.
abbrev pub is_identifier_unit : ℕ → Bool
is_identifier_unit c =
    is_decimal c
    || (leb 65 c && leb c 90)
    || (leb 97 c && leb c 122)
    || c == 46
    || c == 95
    || c == 58
    || c == 45

unfoldable pub is_identifier : Units → Bool
is_identifier s = leb 1 (length s) && leb (length s) 200 && all is_identifier_unit s
