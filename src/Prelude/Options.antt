-- ===== src/Prelude/Options.antt =====
-- Code that throws without a store: `none` is a thrown error.
use mathlib.Core.Path.{◌≡◌, refl}
use mathlib.Core.Bool.{Bool, true, false}
use mathlib.Core.Option.{Option, none, some}

infixl 5 ◌>>=◌ ◌>>◌
abbrev pub ◌>>=◌ : {A B : Type 0} → Option A → (A → Option B) → Option B
none >>= f = none
some a >>= f = f a

abbrev pub ◌>>◌ : {B : Type 0} → Option (Unit {0}) → Option B → Option B
none >> k = none
some a >> k = k

-- `if (!test) throw`.
abbrev pub require : Bool → Option (Unit {0})
require true = some tt
require false = none

-- Inversions of the steps of a `do` block that returns.
pub bind_inv :
    {A B : Type 0} (o : Option A) (f : A → Option B) {b : B}
    → (o >>= f) ≡ some b
    → (a : A) × (o ≡ some a) × (f a ≡ some b)
bind_inv none f h = cc
bind_inv (some a) f h = (a, refl, h)

pub require_inv :
    {B : Type 0} (t : Bool) (k : Option B) {b : B}
    → (require t >> k) ≡ some b
    → (t ≡ true) × (k ≡ some b)
require_inv true k h = (refl, h)
require_inv false k h = cc
