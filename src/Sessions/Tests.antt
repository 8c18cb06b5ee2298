-- ===== src/Sessions/Tests.antt =====
-- Runs of the session operations, and each theorem at a concrete input.
use jaa.Prelude.{
  ℕ, true, String, Option, none, some, List, [], ◌∷◌, ◌≡◌, refl, arith, ok, err, is_blank,
  utf16_length, has_control,
}
use jaa.Sessions.Rows.{RefreshTokenSession, Db, JwtPayload, refresh_session_error}
use jaa.Sessions.Rotation.{
  Mint, Tokens, rotate_refresh_session, rotate_for, rotate_in_tenant, rotate_found, rotate_current,
  detect_reuse, revoke_family, revoked, used, successor, insert_session, is_presented,
  validate_payload, revoke_refresh_session_family, revoke_found, valid_session_identity,
  valid_presented, issue_tokens, opened,
}
use jaa.Sessions.Families.{Event, rotate, log_in, step, Moves, step-Moves}
use jaa.Sessions.Liveness.{IsRotating, step-IsRotating}
use jaa.Sessions.Death.{run, Presents, reuse_ends_family}
use jaa.Sessions.Lifetime.{seven_days}

machine : Unit {0}
unfolding rotate_refresh_session rotate_for rotate_in_tenant rotate_found rotate_current
    detect_reuse revoke_family revoked used successor insert_session is_presented validate_payload
    revoke_refresh_session_family revoke_found valid_session_identity valid_presented issue_tokens
    opened step is_blank utf16_length has_control
machine = tt

abbrev owner : JwtPayload
owner = record { user_id = "u1"; email = "a@b.c" }

abbrev hash : String → String
hash token = token

abbrev verify : String → Option JwtPayload
verify token = some owner

abbrev mint : String → ℕ → Mint
mint name now = record { refresh_token = name; access_token = "access"; id = name; now = now }

abbrev empty : Db
empty = record {
  users = record { id = "u1"; is_active = true } ∷ [];
  sessions = [];
  audit_logs = [];
}

abbrev tokens : String → Tokens
tokens name = record { token = "access"; refresh_token = name }

-- A login, and a rotation of its token.
abbrev logged_in : Db
logged_in = (issue_tokens hash (mint "t1" 0) "f1" owner empty).1

abbrev rotated : Db
rotated = (rotate_refresh_session hash verify (mint "t2" 10) "t1" logged_in).1

abbrev session : String → RefreshTokenSession
session name = record {
  id = name;
  user_id = "u1";
  token_hash = name;
  family_id = "f1";
  expires_at = 604800000;
  revoked_at = none;
  last_used_at = none;
}

abbrev spent : RefreshTokenSession
spent = record (session "t1") { revoked_at = some 10; last_used_at = some 10 }

abbrev killed_session : RefreshTokenSession
killed_session = record (session "t2") { revoked_at = some 20 }

log_in_run : issue_tokens hash (mint "t1" 0) "f1" owner empty ≡ (ok (tokens "t1"), logged_in)
unfolding machine
log_in_run = refl

rotation_tests :
    (logged_in.sessions ≡ session "t1" ∷ [])
    × ((rotate_refresh_session hash verify (mint "t2" 10) "t1" logged_in).0 ≡ ok (tokens "t2"))
    × (rotated.sessions ≡ spent ∷ session "t2" ∷ [])
    × ((rotate_refresh_session hash verify (mint "t3" 20) "t1" rotated).0
        ≡ err refresh_session_error)
    × ((step hash verify (rotate (mint "t3" 20) "t1") rotated).sessions
        ≡ spent ∷ killed_session ∷ [])
    × ((rotate_refresh_session hash verify (mint "t3" 20) "t2" rotated).0 ≡ ok (tokens "t3"))
    × ((rotate_refresh_session hash verify (mint "t3" 604800000) "t2" rotated).0
        ≡ err refresh_session_error)
unfolding machine
rotation_tests = (refl, refl, refl, refl, refl, refl, refl)

empty-IsRotating : IsRotating empty
empty-IsRotating user_id family_id = omega arith

step-IsRotating_example : IsRotating (step hash verify (log_in (mint "t1" 0) "f1" owner) empty)
step-IsRotating_example =
    step-IsRotating hash verify (log_in (mint "t1" 0) "f1" owner) empty refl empty-IsRotating

step-Moves_example :
    Moves hash (some "t1") none logged_in (step hash verify (rotate (mint "t2" 10) "t1") logged_in)
step-Moves_example = step-Moves hash verify (rotate (mint "t2" 10) "t1") logged_in

stolen : Presents hash verify "t1" rotated spent
unfolding machine
stolen = record { payload = owner; verified = refl; named = refl; found = refl }

abbrev after_reuse : Db
after_reuse = step hash verify (rotate (mint "t3" 20) "t1") rotated

held : Presents hash verify "t2" after_reuse killed_session
unfolding machine
held = record { payload = owner; verified = refl; named = refl; found = refl }

reuse_ends_family_example :
    (rotate_refresh_session hash verify (mint "t4" 30) "t2" after_reuse).0
    ≡ err refresh_session_error
reuse_ends_family_example =
    reuse_ends_family hash verify (mint "t3" 20) (mint "t4" 30) "t1" "t2" [] rotated spent
      killed_session stolen refl refl tt held refl

abbrev one_rotation : List Event
one_rotation = rotate (mint "t2" 10) "t1" ∷ []

rotated_token : Presents hash verify "t2" (run hash verify one_rotation logged_in) (session "t2")
unfolding machine
rotated_token = record { payload = owner; verified = refl; named = refl; found = refl }

seven_days_example :
    (rotate_refresh_session hash verify
      (mint "t3" 604800000)
      "t2"
      (run hash verify one_rotation logged_in)).0
    ≡ err refresh_session_error
seven_days_example =
    seven_days hash verify (mint "t1" 0) (mint "t3" 604800000) "f1" owner empty logged_in
      (tokens "t1") one_rotation "t2" (session "t2") refl log_in_run (tt, tt) rotated_token refl
      (omega arith)
