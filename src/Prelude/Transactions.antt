-- ===== src/Prelude/Transactions.antt =====
-- A database transaction: it reads and writes the store, and may throw. A throw carries no store:
-- the transaction is rolled back.
use mathlib.Core.Bool.{Bool, true, false}
use mathlib.Core.Path.{◌≡◌, refl}
use mathlib.Core.Logic.{◌⊎◌, inl, inr}
use native.Mathlib.Omega.{arith}
use mathlib.Core.Option.{Option, none, some}

pub data Result (E A : Type 0) : Type 0 where
  ok : A → Result E A
  err : E → Result E A

pub Result-cases :
    {E A : Type 0} (r : Result E A) → ((a : A) × (r ≡ ok a)) ⊎ ((e : E) × (r ≡ err e))
Result-cases (ok a) = inl (a, refl)
Result-cases (err e) = inr (e, refl)

abbrev pub Tx : Type 0 → Type 0 → Type 0 → Type 0
Tx E S A = S → Result E (A × S)

module _ {E S : Type 0} where
  infixl 5 ◌>>=◌ ◌>>◌
  abbrev pub ◌>>=◌ : {A B : Type 0} → Tx E S A → (A → Tx E S B) → Tx E S B
  ◌>>=◌ m f s = elim (m s) [ ok r ↦ f r.0 r.1 | err e ↦ err e ]

  abbrev pub ◌>>◌ : {B : Type 0} → Tx E S (Unit {0}) → Tx E S B → Tx E S B
  ◌>>◌ m k s = elim (m s) [ ok r ↦ k r.1 | err e ↦ err e ]

  abbrev pub return : {A : Type 0} → A → Tx E S A
  return a s = ok (a, s)

  -- `if (!test) throw e`.
  abbrev pub require : Bool → E → Tx E S (Unit {0})
  require true e s = ok (tt, s)
  require false e s = err e

  -- `if (value === null) throw e`.
  abbrev pub expect : {A : Type 0} → Option A → E → Tx E S A
  expect none e s = err e
  expect (some a) e s = ok (a, s)

  abbrev pub get : Tx E S S
  get s = ok (s, s)

  abbrev pub put : S → Tx E S (Unit {0})
  put s' s = ok (tt, s')

  -- Inversion of a bind that returns.
  pub >>=-eq-ok :
      {A B : Type 0} (m : Tx E S A) (f : A → Tx E S B) (s : S) {r : B × S}
      → (m >>= f) s ≡ ok r
      → (a : A) × (s' : S) × (m s ≡ ok (a, s')) × (f a s' ≡ ok r)
  >>=-eq-ok m f s {r} h = elim (Result-cases (m s)) [
    | inl (a, e) ↦ (a.0, a.1, e, rw (e, ◌>>=◌) at h)
    | inr (x, e) ↦ absurd (ground (arith, e))
  ]

  -- A check that reads no store.
  abbrev pub lift : {A : Type 0} → Result E A → Tx E S A
  lift (ok a) s = ok (a, s)
  lift (err e) s = err e

  -- Inversions of the steps of a `do` block that returns.
  pub lift_inv :
      {A B : Type 0} (c : Result E A) (f : A → Tx E S B) (s : S) {r : B × S}
      → (lift c >>= f) s ≡ ok r
      → (a : A) × (c ≡ ok a) × (f a s ≡ ok r)
  lift_inv (ok a) f s h = (a, refl, h)
  lift_inv (err e) f s h = cc

  pub lift_then_inv :
      {B : Type 0} (c : Result E (Unit {0})) (k : Tx E S B) (s : S) {r : B × S}
      → (lift c >> k) s ≡ ok r
      → k s ≡ ok r
  lift_then_inv (ok a) k s h = h
  lift_then_inv (err e) k s h = cc

  pub expect_inv :
      {A B : Type 0} (o : Option A) (e : E) (f : A → Tx E S B) (s : S) {r : B × S}
      → (expect o e >>= f) s ≡ ok r
      → (a : A) × (o ≡ some a) × (f a s ≡ ok r)
  expect_inv (some a) e f s h = (a, refl, h)
  expect_inv none e f s h = cc

  pub require_inv :
      {B : Type 0} (b : Bool) (e : E) (k : Tx E S B) (s : S) {r : B × S}
      → (require b e >> k) s ≡ ok r
      → (b ≡ true) × (k s ≡ ok r)
  require_inv true e k s h = (refl, h)
  require_inv false e k s h = cc
