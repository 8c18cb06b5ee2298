-- ===== src/Json/Tests.antt =====
-- The canonical text at concrete values.
use jaa.Prelude.{ℕ, ◌≡◌, ◌≢◌, refl, ap, true, false, List, [], ◌∷◌, arith, pos, negsuc}
use jaa.Json.Value.{Json, null, bool, num, str, arr, obj, nil, cons, end, field}
use jaa.Prelude.Sorting.{sort, insert_sorted}
use jaa.Json.Canonical.{canonical_json, same_json, units, quote}
use jaa.Json.Locale.{locale_json, ordered_entries, array_index}
use jaa.Json.Reordering.{in_object, swap, same_json_of_Reordered}

abbrev left : Json
left = obj (field "b" (num (pos 120)) (field "a" (arr (cons null (cons (bool true) nil))) end))

abbrev right : Json
right = obj (field "a" (arr (cons null (cons (bool true) nil))) (field "b" (num (pos 120)) end))

canonical_json_test :
    (canonical_json left ≡ units "{\"a\":[null,true],\"b\":120}")
    × (canonical_json (str "q\"\n") ≡ units "\"q\\\"\\n\"")
    × (same_json left right ≡ true)
    × (same_json left (num (negsuc 0)) ≡ false)
unfolding canonical_json same_json units
canonical_json_test = (refl, refl, refl, refl)

-- Array indices stand first, then the keys in the order of the locale; here all are equal.
abbrev indexed : Json
indexed =
    obj (field "b" null (field "10" null (field "a" null (field "9" null (field "01" null end)))))

locale_json_test :
    locale_json (λ a b. true) indexed
    ≡ units "{\"9\":null,\"10\":null,\"b\":null,\"a\":null,\"01\":null}"
unfolding locale_json ordered_entries array_index sort insert_sorted quote units
locale_json_test = refl

abbrev head_or : List ℕ → ℕ
head_or [] = 0
head_or (x ∷ xs) = x

keys_differ : units "b" ≢ units "a"
unfolding units
keys_differ e = absurd (omega (arith, ap (λ (l : List ℕ). head_or l) e))

same_json_of_Reordered_example : same_json left right ≡ true
same_json_of_Reordered_example = same_json_of_Reordered left right (
    in_object
      (swap "b" "a" (num (pos 120)) (arr (cons null (cons (bool true) nil))) end keys_differ))
