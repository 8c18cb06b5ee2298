-- ===== src/Prelude/Units/Splitting.antt =====
-- Splitting texts at separators.
use jaa.Prelude.{
  ℕ, Bool, true, false, ◌&&◌, not, [], ◌∷◌, ◌++◌, ◌≡◌, refl, arith, leb, ◌==◌, all, inl, inr,
  Bool-cases,
}
use jaa.Prelude.Units.{Units, is_empty, has_unit, lower, parts, split, double_parts}

pub all-append :
    (p : ℕ → Bool) (xs ys : Units) → all p xs ≡ true → all p ys ≡ true → all p (xs ++ ys) ≡ true
all-append p [] ys h k = k
all-append p (x ∷ xs) ys h k = ground (arith, all-append p xs ys)

pub all_weaken :
    (p q : ℕ → Bool)
    → ((c : ℕ) → p c ≡ true → q c ≡ true)
    → (xs : Units) → all p xs ≡ true
    → all q xs ≡ true
all_weaken p q sub [] h = refl
all_weaken p q sub (x ∷ xs) h = ground (arith, sub x, all_weaken p q sub xs)

pub has_unit-eq-false :
    (p : ℕ → Bool) (c : ℕ) → p c ≡ false → (xs : Units) → all p xs ≡ true → has_unit c xs ≡ false
has_unit-eq-false p c out [] h = refl
has_unit-eq-false p c out (x ∷ xs) h = elim (Bool-cases (x == c)) [
  | inl same ↦
      let one : x ≡ c = ground arith in
      let there : p x ≡ false = rw one out in ground (arith, there)
  | inr other ↦ ground (arith, other, has_unit-eq-false p c out xs)
]

pub lower_fixed : (xs : Units) → all (λ c. not (leb 65 c && leb c 90)) xs ≡ true → lower xs ≡ xs
lower_fixed [] h = refl
lower_fixed (x ∷ xs) h = ground (arith, lower_fixed xs)

pub parts_whole : (c : ℕ) (xs : Units) → has_unit c xs ≡ false → parts c xs ≡ (xs, [])
parts_whole c [] h = refl
parts_whole c (x ∷ xs) h = ground (arith, parts_whole c xs)

pub parts-append :
    (c : ℕ) (xs ys : Units) → has_unit c xs ≡ false → parts c (xs ++ (c ∷ ys)) ≡ (xs, split c ys)
parts-append c [] ys h = ground arith
parts-append c (x ∷ xs) ys h = ground (arith, parts-append c xs ys)

-- The first unit of a text is not `c`.
abbrev pub starts_other : ℕ → Units → Bool
starts_other c [] = true
starts_other c (x ∷ _) = not (x == c)

pub double_parts_whole : (c : ℕ) (xs : Units) → has_unit c xs ≡ false → double_parts c xs ≡ (xs, [])
double_parts_whole c [] h = refl
double_parts_whole c (x ∷ []) h = refl
double_parts_whole c (x ∷ y ∷ ys) h = ground (arith, double_parts_whole c (y ∷ ys))

pub double_parts-append :
    (c : ℕ) (xs ys : Units)
    → has_unit c xs ≡ false
    → starts_other c ys ≡ true
    → double_parts c ys ≡ (ys, [])
    → double_parts c (xs ++ (c ∷ ys)) ≡ (xs ++ (c ∷ ys), [])
double_parts-append c [] [] h s k = refl
double_parts-append c [] (y ∷ ys) h s k = ground arith
double_parts-append c (x ∷ []) ys h s k = ground (arith, double_parts-append c [] ys)
double_parts-append c (x ∷ z ∷ zs) ys h s k = ground (arith, double_parts-append c (z ∷ zs) ys)

pub starts_other-append :
    (c : ℕ) (xs ys : Units)
    → has_unit c xs ≡ false
    → is_empty xs ≡ false
    → starts_other c (xs ++ ys) ≡ true
starts_other-append c [] ys h k = cc
starts_other-append c (x ∷ xs) ys h k = ground arith

-- Four parts joined by `c`.
pub split_four :
    (c : ℕ) (p q r s : Units)
    → has_unit c p ≡ false
    → has_unit c q ≡ false
    → has_unit c r ≡ false
    → has_unit c s ≡ false
    → split c (p ++ (c ∷ q ++ (c ∷ r ++ (c ∷ s)))) ≡ p ∷ q ∷ r ∷ s ∷ []
split_four c p q r s hp hq hr hs =
    rw
      (
        parts-append c p (q ++ (c ∷ r ++ (c ∷ s))) hp,
        parts-append c q (r ++ (c ∷ s)) hq,
        parts-append c r s hr,
        parts_whole c s hs,
      )
      refl
