-- ===== src/Rules/Conditions.antt =====
-- Conditions on a context, as packages/job-engine/src/rules.ts and
-- packages/job-engine/src/application-quality.ts test them. Numbers are integers: fractions are left
-- out, and so are the fields that every JavaScript object inherits.
use Prim.Native.String
use jaa.Prelude.{
  Bool, true, false, not, ◌&&◌, ◌||◌, String, Option, none, some, List, [], ◌∷◌, ℤ, pos, int_eq,
  int_le, ◌===◌, includes, find, if◌then◌else◌,
}

pub data Value : Type 0 where
  text : String → Value
  number : ℤ → Value
  truth : Bool → Value
  texts : List String → Value

pub data Operator : Type 0 where
  gte lte eq neq contains not_contains in_ not_in : Operator

pub record Condition : Type 0 where
  pub field : String
  pub operator : Operator
  pub value : Value

-- What the code takes from the language's Unicode tables and number syntax: lower case, `normalized`,
-- `Number` of a text (`none` is NaN), a number as text, and `localeCompare(a, b) <= 0`.
pub record Locale : Type 0 where
  pub lower : String → String
  pub normalized : String → String
  pub number_of : String → Option ℤ
  pub number_text : ℤ → String
  pub text_le : String → String → Bool

starts_with : String → String → Bool
starts_with String.[] s = true
starts_with (String.◌∷◌ c p) String.[] = false
starts_with (String.◌∷◌ c p) (String.◌∷◌ d s) =
    let rest = starts_with p s in (String.◌∷◌ c String.[] === String.◌∷◌ d String.[]) && rest

-- `s.includes(part)`.
unfoldable pub includes_text : String → String → Bool
unfolding starts_with
includes_text String.[] part = part === String.[]
includes_text (String.◌∷◌ c s) part =
    let rest = includes_text s part in starts_with part (String.◌∷◌ c s) || rest

-- `String(array)`.
unfoldable pub joined : List String → String
joined [] = ""
joined (x ∷ []) = x
joined (x ∷ y ∷ ys) = String.◌++◌ x (String.◌++◌ "," (joined (y ∷ ys)))

abbrev truth_text : Bool → String
truth_text true = "true"
truth_text false = "false"

unfoldable pub to_text : Locale → Value → String
to_text l (text s) = s
to_text l (number n) = l.number_text n
to_text l (truth b) = truth_text b
to_text l (texts xs) = joined xs

unfoldable pub to_number : Locale → Value → Option ℤ
to_number l (text s) = l.number_of s
to_number l (number n) = some n
to_number l (truth b) = some (pos (if b then 1 else 0))
to_number l (texts xs) = l.number_of (joined xs)

-- `a <= b`; false where one is NaN.
abbrev pub number_le : Option ℤ → Option ℤ → Bool
number_le (some a) (some b) = int_le a b
number_le _ _ = false

-- `===`; two arrays are never the same object here.
abbrev pub same_value : Value → Value → Bool
same_value (text a) (text b) = a === b
same_value (number a) (number b) = int_eq a b
same_value (truth true) (truth true) = true
same_value (truth false) (truth false) = true
same_value _ _ = false

abbrev pub is_member : Value → String → Bool
is_member (texts xs) s = includes xs s
is_member _ s = false

abbrev pub is_no_member : Value → String → Bool
is_no_member (texts xs) s = not (includes xs s)
is_no_member _ s = false

unfoldable pub holds : Locale → Operator → Value → Value → Bool
holds l gte actual value = number_le (to_number l value) (to_number l actual)
holds l lte actual value = number_le (to_number l actual) (to_number l value)
holds l eq actual value = same_value actual value
holds l neq actual value = not (same_value actual value)
holds l contains actual value =
    includes_text (l.lower (to_text l actual)) (l.lower (to_text l value))
holds l not_contains actual value =
    not (includes_text (l.lower (to_text l actual)) (l.lower (to_text l value)))
holds l in_ actual value = is_member value (to_text l actual)
holds l not_in actual value = is_no_member value (to_text l actual)

abbrev pub Context : Type 0
Context = List (String × Value)

abbrev pub holds_or_absent : Locale → Condition → Option (String × Value) → Bool
holds_or_absent l condition none = false
holds_or_absent l condition (some entry) = holds l condition.operator entry.1 condition.value

-- A field that the context does not have fails every operator.
unfoldable pub evaluate_condition : Locale → Context → Condition → Bool
evaluate_condition l context condition =
    holds_or_absent l condition (find (λ entry. entry.0 === condition.field) context)
