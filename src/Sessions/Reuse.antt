-- ===== src/Sessions/Reuse.antt =====
-- Families of refresh tokens whose sessions are all revoked.
use mathlib.Core.List.{Memᴰ}
use jaa.Prelude.{
  ℕ, ◌≤◌, Bool, true, false, ◌≡◌, refl, sym, ◌∙◌, String, Option, some, List, [], ◌∷◌, ◌++◌, arith,
  count, update, any, Bool-cases, inl, inr, ◌===◌, eq_iff,
}
use jaa.Prelude.Members.{any_mem, any_of_mem}
use jaa.Sessions.Rows.{RefreshTokenSession, Db, JwtPayload, is_live_in, in_family}
use jaa.Sessions.Rotation.{used, revoked, successor, opened}
use jaa.Prelude.Members.{count-append, count-update_le}
use jaa.Sessions.Counts.{live_count, used_is_dead, revoked_is_dead}
use jaa.Sessions.Families.{
  Event, step, Moves, same, killed, turned, joined, family_opened, token_of, step-Moves,
}
use jaa.Sessions.Liveness.{IsFresh, successor_family, opened_family}

-- A family with sessions, all of them revoked.
abbrev pub IsDead : String → String → Db → Type 0
IsDead user_id family_id db =
    (any (in_family user_id family_id) db.sessions ≡ true) × (live_count user_id family_id db ≡ 0)

pub any-update_same :
    (p q : RefreshTokenSession → Bool) (f : RefreshTokenSession → RefreshTokenSession)
    (xs : List RefreshTokenSession)
    → ((s : RefreshTokenSession) → q (f s) ≡ q s)
    → any q (update p f xs) ≡ any q xs
any-update_same p q f [] keeps = refl
any-update_same p q f (x ∷ xs) keeps = elim (Bool-cases (p x)) [
  | inl hit ↦ rw (hit, update) (rw (keeps x, any-update_same p q f xs keeps) refl)
  | inr miss ↦ rw (miss, update) (rw (any-update_same p q f xs keeps) refl)
]

pub any-append_left :
    (q : RefreshTokenSession → Bool) (xs ys : List RefreshTokenSession)
    → any q xs ≡ true
    → any q (xs ++ ys) ≡ true
any-append_left q [] ys h = cc
any-append_left q (x ∷ xs) ys h = ground (arith, any-append_left q xs ys)

pub revoked_family :
    (u f : String) (now : ℕ) (s : RefreshTokenSession)
    → in_family u f (revoked now s) ≡ in_family u f s
unfolding revoked
revoked_family u f now s = refl

pub used_family :
    (u f : String) (now : ℕ) (s : RefreshTokenSession)
    → in_family u f (used now s) ≡ in_family u f s
unfolding used
used_family u f now s = refl

-- A live session counts.
pub live_counts :
    (u f : String) (xs : List RefreshTokenSession) (s : RefreshTokenSession)
    → Memᴰ s xs
    → is_live_in u f s ≡ true
    → 1 ≤ count (is_live_in u f) xs
live_counts u f [] s m h = elim m [ ]
live_counts u f (x ∷ xs) s (Memᴰ.head e) h =
    let here : is_live_in u f x ≡ true = rw (← e) h in ground (arith, here)
live_counts u f (x ∷ xs) s (Memᴰ.tail m) h =
    let rest = live_counts u f xs s m h in ground (arith, rest)

moved_IsDead :
    (digest : String → String) (token opens : Option String) (db db' : Db) (u f : String)
    → IsFresh opens db
    → IsDead u f db
    → Moves digest token opens db db'
    → IsDead u f db'
moved_IsDead digest token opens db db' u f fresh d (same e) = rw e d
moved_IsDead digest token opens db db' u f fresh (there, none_)
      (killed now user_id family_id e _ _ _ _ _) =
    let fewer =
      count-update_le (is_live_in user_id family_id) (is_live_in u f) (revoked now) db.sessions
        (revoked_is_dead u f now) in
    rw e (
      any-update_same (is_live_in user_id family_id) (in_family u f) (revoked now) db.sessions
            (revoked_family u f now)
          ∙ there,
      omega (arith, fewer, none_),
    )
moved_IsDead digest token opens db db' u f fresh (there, none_)
      (turned mint user_id hash current m live owned valid e _ _ _) =
    let row = successor mint user_id hash current in
    let hit = λ (s : RefreshTokenSession). s.id === current.id in
    let moved = update hit (used mint.now) db.sessions in
    let split = count-append (is_live_in u f) moved (row ∷ []) in
    let alike = successor_family mint user_id hash current u f live owned in
    let fewer =
      count-update_le hit (is_live_in u f) (used mint.now) db.sessions
        (used_is_dead u f mint.now) in
    let kept : any (in_family u f) moved ≡ true =
      any-update_same hit (in_family u f) (used mint.now) db.sessions (used_family u f mint.now)
      ∙ there in
    let gone : is_live_in u f current ≡ false = elim (Bool-cases (is_live_in u f current)) [
      | inr out ↦ out
      | inl alive ↦ absurd (omega (arith, live_counts u f db.sessions current m alive, none_))
    ] in
    rw e (
      any-append_left (in_family u f) moved (row ∷ []) kept,
      ground (arith, split, alike, gone, fewer, none_),
    )
moved_IsDead digest token opens db db' u f fresh (there, none_)
      (joined mint user_id hash family_id names e _ _) =
    let row = opened mint user_id hash family_id in
    let split = count-append (is_live_in u f) db.sessions (row ∷ []) in
    let free : IsFresh (some family_id) db = rw names at fresh in
    let (s, listed, member) = any_mem (in_family u f) db.sessions there in
    let gone : is_live_in u f row ≡ false = elim (Bool-cases (is_live_in u f row)) [
      | inr out ↦ out
      | inl alive ↦
          let one : family_id ≡ f = opened_family mint user_id hash family_id u f alive in
          let named : s.family_id ≡ f = (eq_iff s.family_id f).0 (ground arith) in
          let taken =
            any_of_mem (λ t. t.family_id === family_id) db.sessions s listed
              ((eq_iff s.family_id family_id).1 (named ∙ sym one)) in
          cc (taken, free)
    ] in
    rw e (
      any-append_left (in_family u f) db.sessions (row ∷ []) there,
      ground (arith, split, gone, none_),
    )

-- A family whose sessions are all revoked stays so through any request: no successor escapes.
pub step-IsDead :
    (hash : String → String) (verify : String → Option JwtPayload) (event : Event) (db : Db)
    (u f : String)
    → IsFresh (family_opened event) db
    → IsDead u f db
    → IsDead u f (step hash verify event db)
step-IsDead hash verify event db u f fresh d =
    moved_IsDead hash (token_of event) (family_opened event) db (step hash verify event db) u f
      fresh d (step-Moves hash verify event db)
