-- ===== src/Prelude/Sessions.antt =====
-- Code that runs several transactions one after the other: a throw ends it, but what was committed
-- before stays.
use mathlib.Core.Path.{◌≡◌, refl}
use mathlib.Core.Logic.{inl, inr}
use jaa.Prelude.Transactions.{Result, ok, err, Tx, Result-cases}

abbrev pub Op : Type 0 → Type 0 → Type 0 → Type 0
Op E S A = S → Result E A × S

module _ {E S : Type 0} where
  -- A transaction of its own: a throw rolls it back.
  abbrev pub commit : {A : Type 0} → Tx E S A → Op E S A
  commit m s = elim (m s) [ ok r ↦ (ok r.0, r.1) | err e ↦ (err e, s) ]

  infixl 5 ◌>>=◌ ◌>>◌
  abbrev pub ◌>>=◌ : {A B : Type 0} → Op E S A → (A → Op E S B) → Op E S B
  ◌>>=◌ m f s = elim (m s).0 [ ok a ↦ f a (m s).1 | err e ↦ (err e, (m s).1) ]

  abbrev pub ◌>>◌ : {B : Type 0} → Op E S (Unit {0}) → Op E S B → Op E S B
  ◌>>◌ m k s = elim (m s).0 [ ok a ↦ k (m s).1 | err e ↦ (err e, (m s).1) ]

  abbrev pub check : {A : Type 0} → Result E A → Op E S A
  check r s = (r, s)

  -- What other transactions commit at this point.
  abbrev pub meanwhile : (S → S) → Op E S (Unit {0})
  meanwhile others s = (ok tt, others s)

  -- What holds of the store before a check holds after the code that follows, on either path.
  pub check-bind :
      (P : S → Type 0) {A B : Type 0} (c : Result E A) (f : A → Op E S B) (s : S)
      → P s
      → ((a : A) → c ≡ ok a → P (f a s).1)
      → P ((check c >>= f) s).1
  check-bind P (ok a) f s h k = k a refl
  check-bind P (err e) f s h k = h

  -- What a transaction keeps when it returns it keeps when it is committed or rolled back.
  pub commit-keeps :
      (P : S → Type 0) {A : Type 0} (m : Tx E S A) (s : S)
      → P s
      → ((a : A) (s' : S) → m s ≡ ok (a, s') → P s')
      → P (commit m s).1
  commit-keeps P m s h k = elim (Result-cases (m s)) [
    | inl (a, e) ↦ rw (e, commit) (k a.0 a.1 e)
    | inr (x, e) ↦ rw (e, commit) h
  ]
