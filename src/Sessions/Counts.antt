-- ===== src/Sessions/Counts.antt =====
-- How many live sessions a family has after an update.
use mathlib.Core.List.{Memᴰ}
use jaa.Prelude.{
  ℕ, ◌+◌, ◌≤◌, Bool, true, false, ◌≡◌, refl, String, List, [], ◌∷◌, arith, count, update,
  Bool-cases, inl, inr,
}
use jaa.Prelude.Members.{count-update_le}
use jaa.Sessions.Rows.{RefreshTokenSession, Db, is_live_in}
use jaa.Sessions.Rotation.{used, revoked}

abbrev pub live_count : String → String → Db → ℕ
live_count user_id family_id db = count (is_live_in user_id family_id) db.sessions

-- One less where it hits a live one.
pub count-update_lt :
    (p q : RefreshTokenSession → Bool) (f : RefreshTokenSession → RefreshTokenSession)
    (xs : List RefreshTokenSession) (s : RefreshTokenSession)
    → ((s : RefreshTokenSession) → q (f s) ≡ false)
    → Memᴰ s xs
    → p s ≡ true
    → q s ≡ true
    → count q (update p f xs) + 1 ≤ count q xs
count-update_lt p q f [] s dead m hit live = elim m [ ]
count-update_lt p q f (x ∷ xs) s dead (Memᴰ.head e) hit live =
    let here : p x ≡ true = rw (← e) hit in
    let alive : q x ≡ true = rw (← e) live in ground (arith, dead x, count-update_le p q f xs dead)
count-update_lt p q f (x ∷ xs) s dead (Memᴰ.tail m) hit live =
    let rest = count-update_lt p q f xs s dead m hit live in
    elim (Bool-cases (p x)) [
      | inl here ↦ ground (arith, dead x, rest)
      | inr miss ↦ ground (arith, rest)
    ]

-- None where it hits every live one.
pub count-update_zero :
    (q : RefreshTokenSession → Bool) (f : RefreshTokenSession → RefreshTokenSession)
    (xs : List RefreshTokenSession)
    → ((s : RefreshTokenSession) → q (f s) ≡ false)
    → count q (update q f xs) ≡ 0
count-update_zero q f [] dead = refl
count-update_zero q f (x ∷ xs) dead = ground (arith, dead x, count-update_zero q f xs dead)

pub used_is_dead :
    (user_id family_id : String) (now : ℕ) (s : RefreshTokenSession)
    → is_live_in user_id family_id (used now s) ≡ false
unfolding used
used_is_dead user_id family_id now s = ground arith

pub revoked_is_dead :
    (user_id family_id : String) (now : ℕ) (s : RefreshTokenSession)
    → is_live_in user_id family_id (revoked now s) ≡ false
unfolding revoked
revoked_is_dead user_id family_id now s = ground arith
