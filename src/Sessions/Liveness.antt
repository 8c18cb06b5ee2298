-- ===== src/Sessions/Liveness.antt =====
-- How many live sessions a family of refresh tokens has.
use jaa.Prelude.{
  ◌≤◌, true, false, ◌≡◌, refl, String, Option, none, some, List, [], ◌∷◌, arith, count, update, any,
  Bool-cases, inl, inr, ◌===◌, eq_iff, eq_refl,
}
use jaa.Sessions.Rows.{RefreshTokenSession, Db, JwtPayload, is_live, is_live_in}
use jaa.Sessions.Rotation.{Mint, used, revoked, successor, opened}
use jaa.Prelude.Members.{count-append, count-update_le}
use jaa.Sessions.Counts.{live_count, count-update_lt, used_is_dead, revoked_is_dead}
use jaa.Sessions.Families.{
  Event, step, Moves, same, killed, turned, joined, family_opened, token_of, step-Moves,
}

-- The random identifier of a new family is not that of an old one.
abbrev pub IsFresh : Option String → Db → Type 0
IsFresh none db = Unit
IsFresh (some family_id) db = any (λ s. s.family_id === family_id) db.sessions ≡ false

abbrev pub IsRotating : Db → Type 0
IsRotating db = (user_id family_id : String) → live_count user_id family_id db ≤ 1

pub count_of_fresh :
    (user_id family_id : String) (xs : List RefreshTokenSession)
    → any (λ s. s.family_id === family_id) xs ≡ false
    → count (is_live_in user_id family_id) xs ≡ 0
count_of_fresh user_id family_id [] h = refl
count_of_fresh user_id family_id (x ∷ xs) h = ground (arith, count_of_fresh user_id family_id xs)

-- A successor is in the family of its predecessor.
pub successor_family :
    (mint : Mint) (user_id hash : String) (current : RefreshTokenSession) (u f : String)
    → is_live current ≡ true
    → current.user_id ≡ user_id
    → is_live_in u f (successor mint user_id hash current) ≡ is_live_in u f current
unfolding successor
successor_family mint user_id hash current u f live owned = rw owned (ground arith)

pub opened_family :
    (mint : Mint) (user_id hash family_id u f : String)
    → is_live_in u f (opened mint user_id hash family_id) ≡ true
    → family_id ≡ f
unfolding opened
opened_family mint user_id hash family_id u f h = (eq_iff family_id f).0 (ground arith)

moved_IsRotating :
    (digest : String → String) (token opens : Option String) (db db' : Db)
    → IsFresh opens db
    → IsRotating db
    → Moves digest token opens db db'
    → IsRotating db'
moved_IsRotating digest token opens db db' fresh w (same e) u f = rw e (w u f)
moved_IsRotating digest token opens db db' fresh w (killed now user_id family_id e _ _ _ _ _) u f =
    let fewer =
      count-update_le (is_live_in user_id family_id) (is_live_in u f) (revoked now) db.sessions
        (revoked_is_dead u f now) in
    rw e (omega (arith, fewer, w u f))
moved_IsRotating digest token opens db db' fresh w
      (turned mint user_id hash current m live owned valid e _ _ _) u f =
    let row = successor mint user_id hash current in
    let hit = λ (s : RefreshTokenSession). s.id === current.id in
    let split = count-append (is_live_in u f) (update hit (used mint.now) db.sessions) (row ∷ []) in
    let alike = successor_family mint user_id hash current u f live owned in
    let before = w u f in
    elim (Bool-cases (is_live_in u f current)) [
      | inl there ↦
          let fewer =
            count-update_lt hit (is_live_in u f) (used mint.now) db.sessions current
              (used_is_dead u f mint.now) m (eq_refl current.id) there in
          rw e (ground (arith, split, alike, fewer, before))
      | inr elsewhere ↦
          let fewer =
            count-update_le hit (is_live_in u f) (used mint.now) db.sessions
              (used_is_dead u f mint.now) in
          rw e (ground (arith, split, alike, fewer, before))
    ]
moved_IsRotating digest token opens db db' fresh w (joined mint user_id hash family_id names e _ _)
      u f =
    let row = opened mint user_id hash family_id in
    let split = count-append (is_live_in u f) db.sessions (row ∷ []) in
    let before = w u f in
    elim (Bool-cases (is_live_in u f row)) [
      | inr elsewhere ↦ rw e (ground (arith, split, elsewhere, before))
      | inl there ↦
          let one : family_id ≡ f = opened_family mint user_id hash family_id u f there in
          let free : IsFresh (some family_id) db = rw names at fresh in
          let empty = count_of_fresh u f db.sessions (rw one at free) in
          rw e (ground (arith, split, there, empty))
    ]

-- Any request keeps that each family of a user has at most one session that is not revoked, so that
-- of all its tokens one at most is good for a rotation, if the identifier of a family that a login
-- opens is new.
pub step-IsRotating :
    (hash : String → String) (verify : String → Option JwtPayload) (event : Event) (db : Db)
    → IsFresh (family_opened event) db
    → IsRotating db
    → IsRotating (step hash verify event db)
step-IsRotating hash verify event db fresh w =
    moved_IsRotating hash (token_of event) (family_opened event) db (step hash verify event db)
      fresh w (step-Moves hash verify event db)
