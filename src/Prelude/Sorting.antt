-- ===== src/Prelude/Sorting.antt =====
-- `sort` with a comparison, which keeps the order of equals, and what a search after it finds.
use mathlib.Core.Path.{◌≡◌}
use mathlib.Core.Bool.{Bool, true, false}
use mathlib.Core.List.{List, [], ◌∷◌, Memᴰ}
use mathlib.Core.Option.{some}
use mathlib.Core.Logic.{◌⊎◌, inl, inr}
use native.Mathlib.Omega.{arith}
use jaa.Prelude.Tests.{if◌then◌else◌, Bool-cases}
use jaa.Prelude.Lists.{find, All}
use jaa.Prelude.Members.{All-mem, mem-cons_cases}

-- `le a b` where `compare(a, b) <= 0`.
module _ {A : Type 0} (le : A → A → Bool) where
  unfoldable pub insert_sorted : A → List A → List A
  insert_sorted x [] = x ∷ []
  insert_sorted x (y ∷ ys) =
      let rest = insert_sorted x ys in if le x y then x ∷ y ∷ ys else y ∷ rest

  unfoldable pub sort : List A → List A
  unfolding insert_sorted
  sort [] = []
  sort (x ∷ xs) = insert_sorted x (sort xs)

  -- Each element stands before the later ones.
  abbrev IsSorted : List A → Type 0
  IsSorted [] = Unit
  IsSorted (x ∷ xs) = All (λ y. le x y ≡ true) xs × IsSorted xs

  insert_mem : (x : A) (ys : List A) (z : A) → (z ≡ x) ⊎ Memᴰ z ys → Memᴰ z (insert_sorted x ys)
  unfolding insert_sorted
  insert_mem x [] z (inl e) = Memᴰ.head e
  insert_mem x [] z (inr m) = elim m [ ]
  insert_mem x (y ∷ ys) z h = elim (Bool-cases (le x y)) [
    | inl e ↦ rw (e, insert_sorted) (elim h [ inl a ↦ Memᴰ.head a | inr m ↦ Memᴰ.tail m ])
    | inr e ↦
        rw (e, insert_sorted)
          (elim h [
            | inl a ↦ Memᴰ.tail (insert_mem x ys z (inl a))
            | inr m ↦ elim (mem-cons_cases z y ys m) [
              | inl b ↦ Memᴰ.head b
              | inr k ↦ Memᴰ.tail (insert_mem x ys z (inr k))
            ]
          ])
  ]

  -- Sorting loses nothing.
  pub sort_mem : (xs : List A) (z : A) → Memᴰ z xs → Memᴰ z (sort xs)
  unfolding sort
  sort_mem [] z m = m
  sort_mem (x ∷ xs) z m = elim (mem-cons_cases z x xs m) [
    | inl e ↦ insert_mem x (sort xs) z (inl e)
    | inr k ↦ insert_mem x (sort xs) z (inr (sort_mem xs z k))
  ]

  insert_All : (P : A → Type 0) (x : A) (ys : List A) → P x → All P ys → All P (insert_sorted x ys)
  unfolding insert_sorted
  insert_All P x [] p h = (p, tt)
  insert_All P x (y ∷ ys) p (q, h) = elim (Bool-cases (le x y)) [
    | inl e ↦ rw (e, insert_sorted) (p, (q, h))
    | inr e ↦ rw (e, insert_sorted) (q, insert_All P x ys p h)
  ]

  insert_within : (x : A) (ys : List A) (z : A) → Memᴰ z (insert_sorted x ys) → Memᴰ z (x ∷ ys)
  unfolding insert_sorted
  insert_within x [] z m = m
  insert_within x (y ∷ ys) z m = elim (Bool-cases (le x y)) [
    | inl e ↦ rw (e, insert_sorted) at m
    | inr e ↦ elim (mem-cons_cases z y (insert_sorted x ys) (rw (e, insert_sorted) at m)) [
      | inl a ↦ Memᴰ.tail (Memᴰ.head a)
      | inr k ↦ elim (mem-cons_cases z x ys (insert_within x ys z k)) [
        | inl b ↦ Memᴰ.head b
        | inr l ↦ Memᴰ.tail (Memᴰ.tail l)
      ]
    ]
  ]

  -- An element of the sorted list is one of the list.
  pub sort_within : (xs : List A) (z : A) → Memᴰ z (sort xs) → Memᴰ z xs
  unfolding sort
  sort_within [] z m = m
  sort_within (x ∷ xs) z m = elim (mem-cons_cases z x (sort xs) (insert_within x (sort xs) z m)) [
    | inl e ↦ Memᴰ.head e
    | inr k ↦ Memᴰ.tail (sort_within xs z k)
  ]

  module _ (total : (a b : A) → le a b ≡ false → le b a ≡ true)
      (trans : (a b c : A) → le a b ≡ true → le b c ≡ true → le a c ≡ true) where
    weaken :
        (x y : A) (ys : List A)
        → le x y ≡ true
        → All (λ z. le y z ≡ true) ys
        → All (λ z. le x z ≡ true) ys
    weaken x y [] h k = tt
    weaken x y (z ∷ zs) h (p, k) = (trans x y z h p, weaken x y zs h k)

    insert-IsSorted : (x : A) (ys : List A) → IsSorted ys → IsSorted (insert_sorted x ys)
    unfolding insert_sorted
    insert-IsSorted x [] h = (tt, tt)
    insert-IsSorted x (y ∷ ys) (k, h) = elim (Bool-cases (le x y)) [
      | inl e ↦ rw (e, insert_sorted) ((e, weaken x y ys e k), (k, h))
      | inr e ↦
          rw (e, insert_sorted)
            (insert_All (λ z. le y z ≡ true) x ys (total x y e) k, insert-IsSorted x ys h)
    ]

    sort-IsSorted : (xs : List A) → IsSorted (sort xs)
    unfolding sort
    sort-IsSorted [] = tt
    sort-IsSorted (x ∷ xs) = insert-IsSorted x (sort xs) (sort-IsSorted xs)

    find_first :
        (p : A → Bool) (xs : List A) (a z : A)
        → IsSorted xs
        → find p xs ≡ some a
        → Memᴰ z xs
        → p z ≡ true
        → (z ≡ a) ⊎ (le a z ≡ true)
    find_first p [] a z s f m h = elim m [ ]
    find_first p (x ∷ xs) a z (k, s) f m h = elim (Bool-cases (p x)) [
      | inl hit ↦
          let here : x ≡ a = ground arith in
          elim (mem-cons_cases z x xs m) [
            | inl e ↦ inl (ground (arith, e, here))
            | inr l ↦
                let after : le x z ≡ true = All-mem (λ y. le x y ≡ true) xs z k l in
                inr (rw here at after)
          ]
      | inr miss ↦ elim (mem-cons_cases z x xs m) [
        | inl e ↦ let hit : p x ≡ true = rw (← e) h in cc (hit, miss)
        | inr l ↦ find_first p xs a z s (ground arith) l h
      ]
    ]

    -- The first match after a sort stands before every other match.
    pub find-sort_first :
        (p : A → Bool) (xs : List A) (a z : A)
        → find p (sort xs) ≡ some a
        → Memᴰ z xs
        → p z ≡ true
        → (z ≡ a) ⊎ (le a z ≡ true)
    find-sort_first p xs a z f m h =
        find_first p (sort xs) a z (sort-IsSorted xs) f (sort_mem xs z m) h
