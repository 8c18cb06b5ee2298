-- ===== src/Prelude/Members.antt =====
-- Membership in the lists that searches, filters and updates give.
use Prim.Native.Nat.{ℕ, zero, suc, ◌+◌, ◌<◌, ◌≤◌}
use mathlib.Core.Path.{◌≡◌, refl, ap}
use mathlib.Core.Bool.{Bool, true, false}
use mathlib.Core.List.{List, [], ◌∷◌, ◌++◌, Memᴰ, map}
use native.Mathlib.Omega.{arith}
use mathlib.Core.Logic.{◌⊎◌, inl, inr}
use mathlib.Core.Option.{some}
use jaa.Prelude.Tests.{Bool-cases}
use jaa.Prelude.Lists.{any, count, find, keep, take, update, All, length}

module _ {ℓ} {A : Type ℓ} where
  pub mem-cons_cases : (x y : A) (ys : List A) → Memᴰ x (y ∷ ys) → (x ≡ y) ⊎ Memᴰ x ys
  mem-cons_cases x y ys (Memᴰ.head e) = inl e
  mem-cons_cases x y ys (Memᴰ.tail m) = inr m

  pub any_mem : (p : A → Bool) (xs : List A) → any p xs ≡ true → (x : A) × Memᴰ x xs × (p x ≡ true)
  any_mem p [] h = cc
  any_mem p (x ∷ xs) h = elim (Bool-cases (p x)) [
    | inl e ↦ (x, Memᴰ.head refl, e)
    | inr e ↦ let (y, m, k) = any_mem p xs (ground arith) in (y, Memᴰ.tail m, k)
  ]

  pub any_of_mem : (p : A → Bool) (xs : List A) (x : A) → Memᴰ x xs → p x ≡ true → any p xs ≡ true
  any_of_mem p [] x m h = elim m [ ]
  any_of_mem p (y ∷ ys) x (Memᴰ.head e) h = ground arith
  any_of_mem p (y ∷ ys) x (Memᴰ.tail m) h = ground (arith, any_of_mem p ys x m h)

  pub take_mem : (n : ℕ) (xs : List A) (x : A) → Memᴰ x (take n xs) → Memᴰ x xs
  take_mem zero xs x m = elim m [ ]
  take_mem (suc n) [] x m = m
  take_mem (suc n) (y ∷ ys) x (Memᴰ.head e) = Memᴰ.head e
  take_mem (suc n) (y ∷ ys) x (Memᴰ.tail m) = Memᴰ.tail (take_mem n ys x m)

  pub keep_mem :
      (p : A → Bool) (xs : List A) (x : A) → Memᴰ x (keep p xs) → Memᴰ x xs × (p x ≡ true)
  keep_mem p [] x m = elim m [ ]
  keep_mem p (y ∷ ys) x m = elim (Bool-cases (p y)) [
    | inr f ↦ let (a, b) = keep_mem p ys x (rw (f, keep) at m) in (Memᴰ.tail a, b)
    | inl t ↦ elim (mem-cons_cases x y (keep p ys) (rw (t, keep) at m)) [
      | inl e ↦ (Memᴰ.head e, rw e t)
      | inr k ↦ let (a, b) = keep_mem p ys x k in (Memᴰ.tail a, b)
    ]
  ]

  pub mem_keep : (p : A → Bool) (xs : List A) (x : A) → Memᴰ x xs → p x ≡ true → Memᴰ x (keep p xs)
  mem_keep p [] x m h = elim m [ ]
  mem_keep p (y ∷ ys) x (Memᴰ.head e) h =
      let t : p y ≡ true = rw (← e) h in rw (t, keep) (Memᴰ.head e)
  mem_keep p (y ∷ ys) x (Memᴰ.tail m) h = elim (Bool-cases (p y)) [
    | inl t ↦ rw (t, keep) (Memᴰ.tail (mem_keep p ys x m h))
    | inr f ↦ rw (f, keep) (mem_keep p ys x m h)
  ]

  pub append_mem : (xs ys : List A) (x : A) → Memᴰ x xs → Memᴰ x (xs ++ ys)
  append_mem [] ys x m = elim m [ ]
  append_mem (z ∷ zs) ys x (Memᴰ.head e) = Memᴰ.head e
  append_mem (z ∷ zs) ys x (Memᴰ.tail m) = Memᴰ.tail (append_mem zs ys x m)

  -- A row that an update does not pick stays.
  pub update_mem_miss :
      (p : A → Bool) (f : A → A) (xs : List A) (x : A)
      → Memᴰ x xs
      → p x ≡ false
      → Memᴰ x (update p f xs)
  update_mem_miss p f [] x m h = elim m [ ]
  update_mem_miss p f (y ∷ ys) x (Memᴰ.head e) h =
      let miss : p y ≡ false = rw (← e) h in rw (miss, update) (Memᴰ.head e)
  update_mem_miss p f (y ∷ ys) x (Memᴰ.tail m) h = Memᴰ.tail (update_mem_miss p f ys x m h)

  -- A row that an update picks is there as changed.
  pub update_mem_hit :
      (p : A → Bool) (f : A → A) (xs : List A) (x : A)
      → Memᴰ x xs
      → p x ≡ true
      → Memᴰ (f x) (update p f xs)
  update_mem_hit p f [] x m h = elim m [ ]
  update_mem_hit p f (y ∷ ys) x (Memᴰ.head e) h =
      let hit : p y ≡ true = rw (← e) h in rw (hit, update) (Memᴰ.head (ap f e))
  update_mem_hit p f (y ∷ ys) x (Memᴰ.tail m) h = Memᴰ.tail (update_mem_hit p f ys x m h)

  pub find_mem : (p : A → Bool) (xs : List A) (x : A) → find p xs ≡ some x → Memᴰ x xs
  find_mem p [] x h = cc
  find_mem p (y ∷ ys) x h = elim (Bool-cases (p y)) [
    | inl t ↦ Memᴰ.head (ground arith)
    | inr f ↦ Memᴰ.tail (find_mem p ys x (ground arith))
  ]

  -- A search for a row that exists finds one.
  pub find_of_mem :
      (p : A → Bool) (xs : List A) (x : A) → Memᴰ x xs → p x ≡ true → (y : A) × (find p xs ≡ some y)
  find_of_mem p [] x m h = elim m [ ]
  find_of_mem p (y ∷ ys) x m h = elim (Bool-cases (p y)) [
    | inl t ↦ (y, rw (t, find) refl)
    | inr f ↦ elim (mem-cons_cases x y ys m) [
      | inl e ↦ let t : p y ≡ true = rw (← e) h in cc (t, f)
      | inr k ↦ let (z, found) = find_of_mem p ys x k h in (z, rw (f, find) found)
    ]
  ]

  pub map_mem :
      {B : Type 0} (f : A → B) (xs : List A) (y : B)
      → Memᴰ y (map f xs)
      → (x : A) × Memᴰ x xs × (y ≡ f x)
  map_mem f [] y m = elim m [ ]
  map_mem f (x ∷ xs) y (Memᴰ.head e) = (x, Memᴰ.head refl, e)
  map_mem f (x ∷ xs) y (Memᴰ.tail m) = let (z, k, e) = map_mem f xs y m in (z, Memᴰ.tail k, e)

  pub length-map : {B : Type 0} (f : A → B) (xs : List A) → length (map f xs) ≡ length xs
  length-map f [] = refl
  length-map f (x ∷ xs) = ap suc (length-map f xs)

  pub count_mem : (p : A → Bool) (xs : List A) → 0 < count p xs → (x : A) × Memᴰ x xs × (p x ≡ true)
  count_mem p [] h = absurd (omega arith)
  count_mem p (x ∷ xs) h = elim (Bool-cases (p x)) [
    | inl t ↦ (x, Memᴰ.head refl, t)
    | inr f ↦ let (y, m, k) = count_mem p xs (ground arith) in (y, Memᴰ.tail m, k)
  ]

  pub count-append : (p : A → Bool) (xs ys : List A) → count p (xs ++ ys) ≡ count p xs + count p ys
  count-append p [] ys = omega arith
  count-append p (x ∷ xs) ys = ground (arith, count-append p xs ys)

  -- An update after which a row does not count leaves no more rows that count.
  pub count-update_le :
      (p q : A → Bool) (f : A → A) (xs : List A)
      → ((x : A) → q (f x) ≡ false)
      → count q (update p f xs) ≤ count q xs
  count-update_le p q f [] dead = omega arith
  count-update_le p q f (x ∷ xs) dead =
      let rest = count-update_le p q f xs dead in
      elim (Bool-cases (p x)) [
        | inl hit ↦ ground (arith, dead x, rest)
        | inr miss ↦ ground (arith, rest)
      ]

  -- Where a row of an append, or of an update, comes from.
  pub append_cases : (xs ys : List A) (x : A) → Memᴰ x (xs ++ ys) → Memᴰ x xs ⊎ Memᴰ x ys
  append_cases [] ys x m = inr m
  append_cases (z ∷ zs) ys x (Memᴰ.head e) = inl (Memᴰ.head e)
  append_cases (z ∷ zs) ys x (Memᴰ.tail m) = elim (append_cases zs ys x m) [
    | inl k ↦ inl (Memᴰ.tail k)
    | inr k ↦ inr k
  ]

  pub update_origin :
      (p : A → Bool) (f : A → A) (xs : List A) (y : A)
      → Memᴰ y (update p f xs)
      → ((x : A) × Memᴰ x xs × (y ≡ f x)) ⊎ Memᴰ y xs
  update_origin p f [] y m = elim m [ ]
  update_origin p f (x ∷ xs) y (Memᴰ.head e) = elim (Bool-cases (p x)) [
    | inl hit ↦ inl (x, Memᴰ.head refl, rw (hit, update) at e)
    | inr miss ↦ inr (Memᴰ.head (rw (miss, update) at e))
  ]
  update_origin p f (x ∷ xs) y (Memᴰ.tail m) = elim (update_origin p f xs y m) [
    | inl (z, k, e) ↦ inl (z, Memᴰ.tail k, e)
    | inr k ↦ inr (Memᴰ.tail k)
  ]

module _ {ℓ κ} {A : Type ℓ} (P : A → Type κ) where
  pub All-mem : (xs : List A) (x : A) → All P xs → Memᴰ x xs → P x
  All-mem [] x h m = elim m [ ]
  All-mem (y ∷ ys) x (p, h) (Memᴰ.head e) = rw e p
  All-mem (y ∷ ys) x (p, h) (Memᴰ.tail m) = All-mem ys x h m

  pub All-update_mem :
      (q : A → Bool) (f : A → A) (xs : List A)
      → ((x : A) → Memᴰ x xs → q x ≡ true → P x → P (f x))
      → All P xs
      → All P (update q f xs)
  All-update_mem q f [] keeps h = tt
  All-update_mem q f (x ∷ xs) keeps (p, h) =
      let rest = All-update_mem q f xs (λ y m. keeps y (Memᴰ.tail m)) h in
      elim (Bool-cases (q x)) [
        | inl e ↦ rw (e, update) (keeps x (Memᴰ.head refl) e p, rest)
        | inr e ↦ rw (e, update) (p, rest)
      ]
