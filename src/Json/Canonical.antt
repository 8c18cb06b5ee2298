-- ===== src/Json/Canonical.antt =====
-- The canonical text of a value: the keys of each object in the order of their UTF-16 code units.
-- Texts are lists of code units, as the program's strings are.
use Prim.Native.Char.{code}
use jaa.Prelude.{
  ℕ, zero, suc, ◌+◌, ◌-◌, ◌/◌, ◌%◌, Bool, true, false, String, List, [], ◌∷◌, ◌++◌, ℤ, pos, negsuc,
  leb, ltb, ◌==◌, if◌then◌else◌,
}
use jaa.Json.Value.{Json, null, bool, num, str, arr, obj, Items, nil, cons, Fields, end, field}

-- The code units of a string.
abbrev pub units_of_code : ℕ → List ℕ
units_of_code c =
    if leb c 0xffff
    then c ∷ []
    else (0xd800 + (c - 0x10000) / 0x400) ∷ (0xdc00 + (c - 0x10000) % 0x400) ∷ []

unfoldable pub units : String → List ℕ
units String.[] = []
units (String.◌∷◌ c s) = units_of_code (code c) ++ units s

-- The decimal digits of `n`, most significant first; `suc n` rounds are enough.
digits_from : ℕ → ℕ → List ℕ → List ℕ
digits_from zero n out = out
digits_from (suc fuel) n out =
    let rest = digits_from fuel (n / 10) ((b'0' + n % 10) ∷ out) in
    if ltb n 10 then (b'0' + n) ∷ out else rest

decimal : ℕ → List ℕ
unfolding digits_from
decimal n = digits_from (suc n) n []

hex_digit : ℕ → ℕ
hex_digit n = if ltb n 10 then b'0' + n else b'a' + (n - 10)

-- `JSON.stringify` on one code unit inside a string.
escaped : ℕ → List ℕ
unfolding hex_digit
escaped c =
    if c == b'"'
    then b'\\' ∷ b'"' ∷ []
    else if c == b'\\'
    then b'\\' ∷ b'\\' ∷ []
    else if c == 8
    then b'\\' ∷ b'b' ∷ []
    else if c == 9
    then b'\\' ∷ b't' ∷ []
    else if c == 10
    then b'\\' ∷ b'n' ∷ []
    else if c == 12
    then b'\\' ∷ b'f' ∷ []
    else if c == 13
    then b'\\' ∷ b'r' ∷ []
    else if ltb c 32
    then b'\\' ∷ b'u' ∷ b'0' ∷ b'0' ∷ hex_digit (c / 16) ∷ hex_digit (c % 16) ∷ []
    else c ∷ []

escape_all : List ℕ → List ℕ
unfolding escaped
escape_all [] = []
escape_all (c ∷ cs) = escaped c ++ escape_all cs

-- `JSON.stringify` on a string, and on a number.
unfoldable pub quote : String → List ℕ
unfolding escape_all units
quote s = b'"' ∷ (escape_all (units s) ++ b'"' ∷ [])

unfoldable pub show : ℤ → List ℕ
unfolding decimal
show (pos n) = decimal n
show (negsuc n) = b'-' ∷ decimal (suc n)

-- Whether the first text sorts strictly before the second.
unfoldable pub before : List ℕ → List ℕ → Bool
before [] [] = false
before [] (y ∷ ys) = true
before (x ∷ xs) [] = false
before (x ∷ xs) (y ∷ ys) = if ltb x y then true else if x == y then before xs ys else false

-- A key with its printed entry, `"key":value`.
abbrev pub Entry : Type 0
Entry = List ℕ × List ℕ

unfoldable pub insert : Entry → List Entry → List Entry
insert e [] = e ∷ []
insert e (f ∷ l) = if before f.0 e.0 then f ∷ insert e l else e ∷ f ∷ l

-- `texts.join(',')`, and the same of the entries.
abbrev pub join : List (List ℕ) → List ℕ
join [] = []
join (t ∷ []) = t
join (t ∷ u ∷ rest) = t ++ b',' ∷ join (u ∷ rest)

abbrev pub texts : List Entry → List (List ℕ)
texts [] = []
texts (e ∷ l) = e.1 ∷ texts l

abbrev pub entry : String → List ℕ → Entry
entry k text = (units k, quote k ++ b':' ∷ text)

unfoldable mutual
  unfolding quote show insert before

  pub canonical_json : Json → List ℕ
  canonical_json null = b'n' ∷ b'u' ∷ b'l' ∷ b'l' ∷ []
  canonical_json (bool true) = b't' ∷ b'r' ∷ b'u' ∷ b'e' ∷ []
  canonical_json (bool false) = b'f' ∷ b'a' ∷ b'l' ∷ b's' ∷ b'e' ∷ []
  canonical_json (num n) = show n
  canonical_json (str s) = quote s
  canonical_json (arr items) = b'[' ∷ (join (canonical_items items) ++ b']' ∷ [])
  canonical_json (obj fields) = b'{' ∷ (join (texts (sorted_entries fields)) ++ b'}' ∷ [])

  pub canonical_items : Items → List (List ℕ)
  canonical_items nil = []
  canonical_items (cons v vs) = canonical_json v ∷ canonical_items vs

  pub sorted_entries : Fields → List Entry
  sorted_entries end = []
  sorted_entries (field k v fs) = insert (entry k (canonical_json v)) (sorted_entries fs)

-- `canonicalJson(left) === canonicalJson(right)`.
abbrev pub text_eq : List ℕ → List ℕ → Bool
text_eq [] [] = true
text_eq (x ∷ xs) (y ∷ ys) = if x == y then text_eq xs ys else false
text_eq _ _ = false

unfoldable pub same_json : Json → Json → Bool
unfolding canonical_json
same_json a b = text_eq (canonical_json a) (canonical_json b)
