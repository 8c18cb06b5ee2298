-- ===== src/Prelude/Text.antt =====
-- Strings: `===`, `trim`, and what is compared with null.
use Prim.Native.Nat.{ℕ, ◌+◌}
use Prim.Native.Char.{code}
use Prim.Native.String.{String}
use mathlib.Core.Bool.{Bool, true, false, ◌&&◌, ◌||◌}
use mathlib.Core.Option.{Option, none, some}
use mathlib.Core.List.{List, [], ◌∷◌}
use text.Mathlib.Text.{◌==◌ as str_eq}
use jaa.Prelude.Tests.{◌==◌, leb, if◌then◌else◌}

-- `===` on strings.
infix 50 ◌===◌
abbrev pub ◌===◌ : String → String → Bool
a === b = str_eq a b

-- `===` on strings that may be null.
abbrev pub null_eq : Option String → Option String → Bool
null_eq none none = true
null_eq (some a) (some b) = a === b
null_eq _ _ = false

-- `values.includes(value)`.
abbrev pub includes : List String → String → Bool
includes [] value = false
includes (x ∷ xs) value = x === value || includes xs value

-- The white space and line terminators that `trim` removes.
unfoldable pub is_space : ℕ → Bool
is_space c =
    (leb 9 c && leb c 13)
    || c == 32
    || c == 160
    || c == 0x1680
    || (leb 0x2000 c && leb c 0x200a)
    || c == 0x2028
    || c == 0x2029
    || c == 0x202f
    || c == 0x205f
    || c == 0x3000
    || c == 0xfeff

-- `!value.trim()`.
unfoldable pub is_blank : String → Bool
unfolding is_space
is_blank String.[] = true
is_blank (String.◌∷◌ c s) = is_space (code c) && is_blank s

-- The length in UTF-16 code units.
unfoldable pub utf16_length : String → ℕ
utf16_length String.[] = 0
utf16_length (String.◌∷◌ c s) = (if leb (code c) 0xffff then 1 else 2) + utf16_length s

-- A control character among the code points.
unfoldable pub has_control : String → Bool
has_control String.[] = false
has_control (String.◌∷◌ c s) = leb (code c) 31 || code c == 127 || has_control s
