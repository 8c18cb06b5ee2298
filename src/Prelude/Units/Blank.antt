-- ===== src/Prelude/Units/Blank.antt =====
-- Texts that `trim` leaves nothing of.
use Prim.Native.Char.{code}
use jaa.Prelude.{
  ℕ, String, true, false, [], ◌≡◌, refl, arith, leb, is_space, is_blank, inl, inr, Bool-cases,
}
use mathlib.Core.Path.{subst}
use jaa.Prelude.Units.{units, trim, trim_start, trim_end, is_identifier}

space_le : (c : ℕ) → is_space c ≡ true → leb c 0xffff ≡ true
unfolding is_space
space_le c h = ground arith

trim_start-blank : (s : String) → is_blank s ≡ true → trim_start (units s) ≡ []
unfolding is_blank
trim_start-blank String.[] h = refl
trim_start-blank (String.◌∷◌ c s) h =
    let first : is_space (code c) ≡ true = ground (arith, h) in
    rw (space_le (code c) first) (rw (first, trim_start) (trim_start-blank s (ground (arith, h))))

-- A text that is an identifier after trimming is not blank.
pub identifier_not_blank : (s : String) → is_identifier (trim (units s)) ≡ true → is_blank s ≡ false
unfolding is_identifier
identifier_not_blank s h = elim (Bool-cases (is_blank s)) [
  | inr e ↦ e
  | inl e ↦
      let nothing : is_identifier (trim_end []) ≡ true =
        subst (λ t. is_identifier (trim_end t) ≡ true) (trim_start-blank s e) h in
      cc nothing
]
