-- ===== src/Json/Reordering.antt =====
-- Canonical texts, and the order of an object's keys at any depth.
use jaa.Prelude.{◌≡◌, ◌≢◌, refl, sym, ap, ◌∙◌, String, List, [], ◌∷◌, true, ℕ, arith}
use jaa.Json.Value.{Json, arr, obj, Items, nil, cons, Fields, end, field}
use jaa.Json.Canonical.{canonical_json, canonical_items, sorted_entries, units, same_json, text_eq}
use jaa.Json.Order.{insert_comm}

-- Two values that differ in the order of keys only.
mutual
  pub data Reordered : Json → Json → Type 0 where
    same : (v : Json) → Reordered v v
    in_array : {vs ws : Items} → ReorderedItems vs ws → Reordered (arr vs) (arr ws)
    in_object : {fs gs : Fields} → ReorderedFields fs gs → Reordered (obj fs) (obj gs)

  pub data ReorderedItems : Items → Items → Type 0 where
    done : ReorderedItems nil nil
    item :
        {v w : Json} {vs ws : Items}
        → Reordered v w
        → ReorderedItems vs ws
        → ReorderedItems (cons v vs) (cons w ws)

  pub data ReorderedFields : Fields → Fields → Type 0 where
    stop : ReorderedFields end end
    keep_key :
        (k : String) {v w : Json} {fs gs : Fields}
        → Reordered v w
        → ReorderedFields fs gs
        → ReorderedFields (field k v fs) (field k w gs)
    swap :
        (k j : String) (v w : Json) (fs : Fields)
        → units k ≢ units j
        → ReorderedFields (field k v (field j w fs)) (field j w (field k v fs))
    trans :
        {fs gs hs : Fields} → ReorderedFields fs gs → ReorderedFields gs hs → ReorderedFields fs hs

mutual
  unfolding canonical_json

  reordered : {v w : Json} → Reordered v w → canonical_json v ≡ canonical_json w
  reordered (same v) = refl
  reordered (in_array r) = cc (reordered_items r)
  reordered (in_object r) = cc (reordered_fields r)

  reordered_items : {vs ws : Items} → ReorderedItems vs ws → canonical_items vs ≡ canonical_items ws
  reordered_items done = refl
  reordered_items (item r rs) = cc (reordered r, reordered_items rs)

  reordered_fields :
      {fs gs : Fields} → ReorderedFields fs gs → sorted_entries fs ≡ sorted_entries gs
  reordered_fields stop = refl
  reordered_fields (keep_key k r rs) = cc (reordered r, reordered_fields rs)
  reordered_fields (swap k j v w fs ne) = insert_comm _ _ (sorted_entries fs) ne
  reordered_fields (trans r s) = reordered_fields r ∙ reordered_fields s

pub text_eq_refl : (a : List ℕ) → text_eq a a ≡ true
text_eq_refl [] = refl
text_eq_refl (x ∷ xs) = ground (arith, text_eq_refl xs)

-- Two values that differ only in the order of the keys of objects, at any depth and with distinct
-- keys, have the same canonical text and so compare equal.
pub same_json_of_Reordered : (v w : Json) → Reordered v w → same_json v w ≡ true
unfolding same_json
same_json_of_Reordered v w r =
    ap (text_eq (canonical_json v)) (sym (reordered r)) ∙ text_eq_refl (canonical_json v)

pub same_json_refl : (v : Json) → same_json v v ≡ true
unfolding same_json
same_json_refl v = text_eq_refl (canonical_json v)
