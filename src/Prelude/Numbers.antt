-- ===== src/Prelude/Numbers.antt =====
-- The numbers and dates that come with a request. A field typed `number` can hold a fraction, NaN
-- or an infinity (`other`); a `Date` can be invalid. Times are milliseconds since 1970.
use Prim.Native.Nat.{ℕ, zero, suc, ◌≤◌}
use mathlib.Core.Path.{◌≡◌}
use mathlib.Core.Bool.{Bool, true, false}
use mathlib.Core.Option.{Option, none, some}
use native.Mathlib.Omega.{arith}
use jaa.Prelude.Tests.{leb, ltb, ◌==◌, if◌then◌else◌}

-- `negsuc n` is -(n + 1).
pub data ℤ : Type 0 where
  pos : ℕ → ℤ
  negsuc : ℕ → ℤ

pub data Number : Type 0 where
  int : ℤ → Number
  other : Number

abbrev pub nat : ℕ → Number
nat n = int (pos n)

abbrev pub max_safe_integer : ℕ
max_safe_integer = 9007199254740991

-- `Number.isSafeInteger(x)`.
unfoldable pub is_safe_integer : Number → Bool
is_safe_integer (int (pos n)) = leb n max_safe_integer
is_safe_integer (int (negsuc n)) = ltb n max_safe_integer
is_safe_integer other = false

-- The value of a safe integer at least 1; `none` where `!Number.isSafeInteger(x) || x <= 0`.
unfoldable pub positive : Number → Option ℕ
positive (int (pos zero)) = none
positive (int (pos (suc n))) = if leb (suc n) max_safe_integer then some (suc n) else none
positive (int (negsuc n)) = none
positive other = none

pub positive-pos : (x : Number) {n : ℕ} → positive x ≡ some n → 1 ≤ n
unfolding positive
positive-pos (int (pos zero)) h = cc
positive-pos (int (pos (suc k))) h = ground arith
positive-pos (int (negsuc k)) h = cc
positive-pos other h = cc

pub data Date : Type 0 where
  at : ℕ → Date
  invalid : Date

-- The time of a valid date.
abbrev pub time_of : Date → Option ℕ
time_of (at t) = some t
time_of invalid = none

-- The value of a safe integer of either sign.
unfoldable pub safe_integer : Number → Option ℤ
unfolding is_safe_integer
safe_integer (int z) = if is_safe_integer (int z) then some z else none
safe_integer other = none

-- `===` on integers.
abbrev pub int_eq : ℤ → ℤ → Bool
int_eq (pos a) (pos b) = a == b
int_eq (negsuc a) (negsuc b) = a == b
int_eq _ _ = false

abbrev pub int_le : ℤ → ℤ → Bool
int_le (pos a) (pos b) = leb a b
int_le (pos a) (negsuc b) = false
int_le (negsuc a) (pos b) = true
int_le (negsuc a) (negsuc b) = leb b a
