-- ===== src/Prelude/Lists.antt =====
-- Lists measured by native numbers, Boolean searches, and predicates by recursion.
use Prim.Native.Nat.{ℕ, zero, suc, ◌≤◌, ◌<◌}
use mathlib.Core.Path.{◌≡◌, refl}
use mathlib.Core.Logic.{inl, inr}
use mathlib.Core.Bool.{Bool, true, false, ◌&&◌, ◌||◌}
use mathlib.Core.List.{List, [], ◌∷◌, ◌++◌}
use mathlib.Core.Option
use mathlib.Core.Option.{Option, none, some}
use native.Mathlib.Omega.{arith}
use jaa.Prelude.Tests.{if◌then◌else◌, Bool-cases}

module _ {ℓ} {A : Type ℓ} where
  abbrev pub length : List A → ℕ
  length [] = 0
  length (x ∷ xs) = suc (length xs)

  abbrev pub take : ℕ → List A → List A
  take zero xs = []
  take (suc n) [] = []
  take (suc n) (x ∷ xs) = x ∷ take n xs

  -- `xs.some(p)`, `xs.every(p)`, `xs.find(p)`, `xs.filter(p)`.
  abbrev pub any : (A → Bool) → List A → Bool
  any p [] = false
  any p (x ∷ xs) = p x || any p xs

  abbrev pub all : (A → Bool) → List A → Bool
  all p [] = true
  all p (x ∷ xs) = p x && all p xs

  abbrev pub find : (A → Bool) → List A → Option A
  find p [] = none
  find p (x ∷ xs) = if p x then some x else find p xs

  abbrev pub keep : (A → Bool) → List A → List A
  keep p [] = []
  keep p (x ∷ xs) = let rest = keep p xs in if p x then x ∷ rest else rest

  abbrev pub count : (A → Bool) → List A → ℕ
  count p [] = 0
  count p (x ∷ xs) = let rest = count p xs in if p x then suc rest else rest

  -- `UPDATE … SET f WHERE p`.
  abbrev pub update : (A → Bool) → (A → A) → List A → List A
  update p f [] = []
  update p f (x ∷ xs) = (if p x then f x else x) ∷ update p f xs

  pub length-take_le : (n : ℕ) (xs : List A) → length (take n xs) ≤ n
  length-take_le zero xs = omega arith
  length-take_le (suc n) [] = omega arith
  length-take_le (suc n) (x ∷ xs) = omega (arith, length-take_le n xs)

  pub find_holds : (p : A → Bool) (xs : List A) {a : A} → find p xs ≡ some a → p a ≡ true
  find_holds p [] h = cc
  find_holds p (x ∷ xs) {a} h = ground (arith, find_holds p xs {a = a})

  pub find-eq-none : (p : A → Bool) (xs : List A) → any p xs ≡ false → find p xs ≡ none
  find-eq-none p [] h = refl
  find-eq-none p (x ∷ xs) h = ground (arith, find-eq-none p xs)

  pub find-append :
      (p : A → Bool) (xs ys : List A) → find p xs ≡ none → find p (xs ++ ys) ≡ find p ys
  find-append p [] ys h = refl
  find-append p (x ∷ xs) ys h = ground (arith, find-append p xs ys)

  -- A search after an update that hits some row, if the update makes the row fit.
  pub find-update :
      (p q : A → Bool) (f : A → A) (xs : List A)
      → ((x : A) → p x ≡ true → q (f x) ≡ true)
      → 0 < count p xs
      → (y : A) × (find q (update p f xs) ≡ some y)
  find-update p q f [] fits h = absurd (omega arith)
  find-update p q f (x ∷ xs) fits h = elim (Bool-cases (p x)) [
    | inl hit ↦ (f x, ground (arith, fits x hit))
    | inr miss ↦ elim (Bool-cases (q x)) [
      | inl e ↦ (x, rw (miss, update) (rw (e, find) refl))
      | inr e ↦
          let (y, found) = find-update p q f xs fits (ground arith) in
          (y, rw (miss, update) (rw (e, find) found))
    ]
  ]

  -- A search after an update that does not change what is searched for.
  pub find-update_keeps :
      (p q : A → Bool) (f : A → A) (xs : List A)
      → ((x : A) → q (if p x then f x else x) ≡ q x)
      → find q (update p f xs) ≡ Option.map (λ x. if p x then f x else x) (find q xs)
  find-update_keeps p q f [] keeps = refl
  find-update_keeps p q f (x ∷ xs) keeps = elim (Bool-cases (q x)) [
    | inl e ↦ rw (keeps x, e)
    | inr e ↦ rw (keeps x, e) (find-update_keeps p q f xs keeps)
  ]

  pub count-update_keeps :
      (p q : A → Bool) (f : A → A) (xs : List A)
      → ((x : A) → q (if p x then f x else x) ≡ q x)
      → count q (update p f xs) ≡ count q xs
  count-update_keeps p q f [] keeps = refl
  count-update_keeps p q f (x ∷ xs) keeps =
      rw (keeps x) (rw (count-update_keeps p q f xs keeps) refl)

  pub count-eq-zero :
      (p q : A → Bool) (xs : List A)
      → ((x : A) → p x ≡ true → q x ≡ true)
      → count q xs ≡ 0
      → count p xs ≡ 0
  count-eq-zero p q [] sub h = refl
  count-eq-zero p q (x ∷ xs) sub h = ground (arith, sub x, count-eq-zero p q xs sub)

  -- If one row at most is `q` and some row is `p`, which implies `q`, the row found by `q` is `p`.
  pub find_is_the_one :
      (p q : A → Bool) (xs : List A) (a : A)
      → ((x : A) → p x ≡ true → q x ≡ true)
      → count q xs ≤ 1
      → 0 < count p xs
      → find q xs ≡ some a
      → p a ≡ true
  find_is_the_one p q [] a sub h k e = absurd (omega arith)
  find_is_the_one p q (x ∷ xs) a sub h k e = elim (Bool-cases (q x)) [
    | inl hit ↦
        let rest : count p xs ≡ 0 = count-eq-zero p q xs sub (ground arith) in
        let same : x ≡ a = ground arith in let here : p x ≡ true = ground arith in rw same at here
    | inr miss ↦ find_is_the_one p q xs a sub (ground arith) (ground (arith, sub x)) (ground arith)
  ]

  pub keep-append : (p : A → Bool) (xs ys : List A) → keep p (xs ++ ys) ≡ keep p xs ++ keep p ys
  keep-append p [] ys = refl
  keep-append p (x ∷ xs) ys = ground (arith, keep-append p xs ys)

module _ {ℓ κ} {A : Type ℓ} (P : A → Type κ) where
  abbrev pub All : List A → Type κ
  All [] = Unit
  All (x ∷ xs) = P x × All xs

  pub All-append : (xs ys : List A) → All xs → All ys → All (xs ++ ys)
  All-append [] ys h k = k
  All-append (x ∷ xs) ys (p, h) k = (p, All-append xs ys h k)

  pub All-keep : (q : A → Bool) (xs : List A) → All xs → All (keep q xs)
  All-keep q [] h = tt
  All-keep q (x ∷ xs) (p, h) = elim (Bool-cases (q x)) [
    | inl e ↦ rw (e, keep) (p, All-keep q xs h)
    | inr e ↦ rw (e, keep) (All-keep q xs h)
  ]

  pub All-update :
      (q : A → Bool) (f : A → A) (xs : List A)
      → ((x : A) → q x ≡ true → P x → P (f x))
      → All xs
      → All (update q f xs)
  All-update q f [] keeps h = tt
  All-update q f (x ∷ xs) keeps (p, h) = elim (Bool-cases (q x)) [
    | inl e ↦ rw (e, update) (keeps x e p, All-update q f xs keeps h)
    | inr e ↦ rw (e, update) (p, All-update q f xs keeps h)
  ]

  pub find-All : (q : A → Bool) (xs : List A) {a : A} → All xs → find q xs ≡ some a → P a
  find-All q [] h e = cc
  find-All q (x ∷ xs) (p, h) e = elim (Bool-cases (q x)) [
    | inl t ↦ let same : x ≡ _ = ground arith in rw same at p
    | inr f ↦ find-All q xs h (ground arith)
  ]
