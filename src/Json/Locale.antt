-- ===== src/Json/Locale.antt =====
-- `canonicalJson` and `payloadEquals` of apps/api/src/services/automation-jobs.ts: the keys of each object are
-- sorted with `localeCompare`, where keys that compare equal keep their order, and `Object.fromEntries` puts
-- array indices first. The keys of an object are distinct.
use jaa.Prelude.{
  ℕ, ◌+◌, ◌-◌, ◌*◌, Bool, true, false, ◌&&◌, String, Option, none, some, List, [], ◌∷◌, ◌++◌, leb,
  ltb, ◌==◌, if◌then◌else◌, ◌≡◌,
}
use jaa.Prelude.Sorting.{sort}
use jaa.Json.Value.{Json, null, bool, num, str, arr, obj, Items, nil, cons, Fields, end, field}
use jaa.Json.Canonical.{units, quote, show, join, text_eq}
use jaa.Json.Reordering.{text_eq_refl}

-- What decides the text of a stored value: whether `a.localeCompare(b) <= 0`, and what a jsonb column gives
-- back of a value.
pub record JsonRules : Type 0 where
  pub locale_le : String → String → Bool
  pub stored : Json → Json

abbrev digits_value : ℕ → List ℕ → Option ℕ
digits_value n [] = some n
digits_value n (c ∷ cs) =
    let rest = digits_value (n * 10 + (c - 48)) cs in if leb 48 c && leb c 57 then rest else none

abbrev below_limit : Option ℕ → Option ℕ
below_limit none = none
below_limit (some n) = if ltb n 4294967295 then some n else none

-- The array index that a key writes: decimal, without a leading zero, below 2^32 - 1.
abbrev index_of_units : List ℕ → Option ℕ
index_of_units [] = none
index_of_units (c ∷ []) = below_limit (digits_value 0 (c ∷ []))
index_of_units (c ∷ d ∷ cs) = if c == 48 then none else below_limit (digits_value 0 (c ∷ d ∷ cs))

unfoldable pub array_index : String → Option ℕ
array_index key = index_of_units (units key)

-- Indices come first, in their order; other keys stay as they are.
abbrev index_le : Option ℕ → Option ℕ → Bool
index_le (some m) (some n) = leb m n
index_le (some m) none = true
index_le none (some n) = false
index_le none none = true

abbrev pub LocaleEntry : Type 0
LocaleEntry = String × List ℕ

unfoldable pub ordered_entries : (String → String → Bool) → List LocaleEntry → List LocaleEntry
ordered_entries locale_le entries =
    sort (λ a b. index_le (array_index a.0) (array_index b.0))
      (sort (λ a b. locale_le a.0 b.0) entries)

abbrev entry_texts : List LocaleEntry → List (List ℕ)
entry_texts [] = []
entry_texts (e ∷ es) = (quote e.0 ++ (b':' ∷ e.1)) ∷ entry_texts es

unfoldable mutual
  -- `JSON.stringify(canonicalJson(value))`.
  pub locale_json : (String → String → Bool) → Json → List ℕ
  locale_json locale_le null = b'n' ∷ b'u' ∷ b'l' ∷ b'l' ∷ []
  locale_json locale_le (bool true) = b't' ∷ b'r' ∷ b'u' ∷ b'e' ∷ []
  locale_json locale_le (bool false) = b'f' ∷ b'a' ∷ b'l' ∷ b's' ∷ b'e' ∷ []
  locale_json locale_le (num n) = show n
  locale_json locale_le (str s) = quote s
  locale_json locale_le (arr items) = b'[' ∷ (join (locale_items locale_le items) ++ b']' ∷ [])
  locale_json locale_le (obj fields) =
      b'{'
      ∷ (join (entry_texts (ordered_entries locale_le (locale_entries locale_le fields)))
          ++ b'}' ∷ [])

  pub locale_items : (String → String → Bool) → Items → List (List ℕ)
  locale_items locale_le nil = []
  locale_items locale_le (cons v vs) = locale_json locale_le v ∷ locale_items locale_le vs

  pub locale_entries : (String → String → Bool) → Fields → List LocaleEntry
  locale_entries locale_le end = []
  locale_entries locale_le (field k v fs) =
      (k, locale_json locale_le v) ∷ locale_entries locale_le fs

unfoldable pub payload_equals : (String → String → Bool) → Json → Json → Bool
payload_equals locale_le left right =
    text_eq (locale_json locale_le left) (locale_json locale_le right)

pub payload_equals_refl :
    (locale_le : String → String → Bool) (a : Json) → payload_equals locale_le a a ≡ true
unfolding payload_equals
payload_equals_refl locale_le a = text_eq_refl (locale_json locale_le a)
