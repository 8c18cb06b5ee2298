-- ===== src/Sessions/Rotation.antt =====
-- `rotateRefreshSession` and `revokeRefreshSessionFamily` of
-- apps/api/src/services/refresh-sessions.ts, and `issueTokens` of apps/api/src/routes/auth.ts. The
-- hash (sha256), the verification of a token (jsonwebtoken) and what a call generates (signed tokens,
-- identifiers, the time) are arguments. The advisory lock makes an owner's rotations and logouts run
-- one after the other, so each is one step.
use jaa.Prelude.{
  ℕ, ◌+◌, ◌*◌, Bool, not, ◌&&◌, ◌||◌, String, Option, none, some, List, [], ◌∷◌, ◌++◌, ◌===◌, leb,
  is_some, is_blank, has_control, utf16_length, find, any, update, if◌then◌else◌, Tx, Result, ok,
  err, ◌>>=◌, ◌>>◌, return, require, get, put,
}
use jaa.Prelude.Sessions.{commit}
use jaa.Sessions.Rows.{
  User, RefreshTokenSession, Db, SessionError, refresh_session_error, tenant_required,
  unique_violation, bad_payload, JwtPayload, is_live_in,
}

-- What a call generates: the signed tokens, the id of a new row, and the time.
pub record Mint : Type 0 where
  pub refresh_token : String
  pub access_token : String
  pub id : String
  pub now : ℕ

pub record Tokens : Type 0 where
  pub token : String
  pub refresh_token : String

abbrev pub M : Type 0 → Type 0
M A = Tx SessionError Db A

-- Whether the session is the presented one, of an active owner.
unfoldable pub is_presented : List User → String → String → RefreshTokenSession → Bool
is_presented users user_id hash s =
    s.user_id === user_id
    && s.token_hash === hash
    && any (λ u. u.id === s.user_id && u.is_active) users

unfoldable pub validate_payload : JwtPayload → Bool
validate_payload payload = not (is_blank payload.user_id) && not (is_blank payload.email)

unfoldable pub revoked : ℕ → RefreshTokenSession → RefreshTokenSession
revoked now s = record s { revoked_at = some now }

unfoldable pub used : ℕ → RefreshTokenSession → RefreshTokenSession
used now s = record s { revoked_at = some now; last_used_at = some now }

-- The update of a family and the audit row.
unfoldable pub revoke_family : ℕ → String → String → RefreshTokenSession → Db → Db
revoke_family now user_id action current db = record db {
  sessions = update (is_live_in user_id current.family_id) (revoked now) db.sessions;
  audit_logs =
      db.audit_logs ++ record { user_id = user_id; action = action; resource_id = current.id } ∷ [];
}

unfoldable pub successor : Mint → String → String → RefreshTokenSession → RefreshTokenSession
successor mint user_id hash current = record {
  id = mint.id;
  user_id = user_id;
  token_hash = hash;
  family_id = current.family_id;
  expires_at = current.expires_at;
  revoked_at = none;
  last_used_at = none;
}

-- An insert; `id` is the primary key, `tokenHash` is unique.
unfoldable pub insert_session : RefreshTokenSession → M (Unit {0})
insert_session row = do
  db ← get
  require (not (any (λ s. s.id === row.id || s.token_hash === row.token_hash) db.sessions))
      unique_violation
  put (record db { sessions = db.sessions ++ row ∷ [] })

unfoldable pub rotate_current :
    (String → String) → Mint → JwtPayload → RefreshTokenSession → M (Option Tokens)
rotate_current hash mint payload current = do
  require (validate_payload payload) bad_payload
  db ← get
  put (record db { sessions = update (λ s. s.id === current.id) (used mint.now) db.sessions })
  insert_session (successor mint payload.user_id (hash mint.refresh_token) current)
  return (some (record { token = mint.access_token; refresh_token = mint.refresh_token }))

-- The branch of a revoked session; it returns, so that the revocation is committed.
unfoldable pub detect_reuse : ℕ → String → RefreshTokenSession → M (Option Tokens)
detect_reuse now user_id current = do
  db ← get
  put (revoke_family now user_id "AUTH_REFRESH_REUSE_DETECTED" current db)
  return none

unfoldable pub rotate_found :
    (String → String) → Mint → JwtPayload → Option RefreshTokenSession → M (Option Tokens)
rotate_found hash mint payload none = return none
rotate_found hash mint payload (some current) =
    if leb current.expires_at mint.now
    then return none
    else if is_some current.revoked_at
    then detect_reuse mint.now payload.user_id current
    else rotate_current hash mint payload current

unfoldable pub rotate_in_tenant : (String → String) → Mint → JwtPayload → String → M (Option Tokens)
rotate_in_tenant hash mint payload presented = do
  db ← get
  rotate_found hash mint payload
      (find (is_presented db.users payload.user_id (hash presented)) db.sessions)

abbrev pub tokens_or_err : Result SessionError (Option Tokens) → Result SessionError Tokens
tokens_or_err (ok none) = err refresh_session_error
tokens_or_err (ok (some tokens)) = ok tokens
tokens_or_err (err e) = err e

-- The transaction, committed, and then `if (!result) throw`.
unfoldable pub rotate_for :
    (String → String) → Mint → String → Option JwtPayload → Db → Result SessionError Tokens × Db
rotate_for hash mint presented none db = (err refresh_session_error, db)
rotate_for hash mint presented (some payload) db =
    if is_blank payload.user_id then (err tenant_required, db) else (
      tokens_or_err (commit (rotate_in_tenant hash mint payload presented) db).0,
      (commit (rotate_in_tenant hash mint payload presented) db).1,
    )

unfoldable pub rotate_refresh_session :
    (String → String)
    → (String → Option JwtPayload)
    → Mint
    → String
    → Db
    → Result SessionError Tokens × Db
rotate_refresh_session hash verify mint presented db =
    rotate_for hash mint presented (verify presented) db

unfoldable pub valid_session_identity : String → Bool
valid_session_identity value =
    not (is_blank value) && leb (utf16_length value) 200 && not (has_control value)

unfoldable pub valid_presented : String → Bool
valid_presented token =
    not (is_blank token) && leb (utf16_length token) 4096 && not (has_control token)

unfoldable pub revoke_found : ℕ → String → Option RefreshTokenSession → Db → Db
revoke_found now user_id none db = db
revoke_found now user_id (some current) db = revoke_family now user_id "AUTH_LOGOUT" current db

abbrev pub is_presented_by : String → String → RefreshTokenSession → Bool
is_presented_by user_id hash s = s.user_id === user_id && s.token_hash === hash

unfoldable pub revoke_refresh_session_family :
    (String → String) → ℕ → String → String → Db → Result SessionError (Unit {0}) × Db
revoke_refresh_session_family hash now user_id presented db =
    if valid_session_identity user_id && valid_presented presented
    then (
      ok tt,
      revoke_found now user_id (find (is_presented_by user_id (hash presented)) db.sessions) db,
    )
    else (err refresh_session_error, db)

-- A session of seven days in a family of its own; `family_id` is a new random identifier.
unfoldable pub opened : Mint → String → String → String → RefreshTokenSession
opened mint user_id hash family_id = record {
  id = mint.id;
  user_id = user_id;
  token_hash = hash;
  family_id = family_id;
  expires_at = mint.now + 7 * 24 * 60 * 60 * 1000;
  revoked_at = none;
  last_used_at = none;
}

unfoldable pub issue_tokens :
    (String → String) → Mint → String → JwtPayload → Db → Result SessionError Tokens × Db
issue_tokens hash mint family_id payload db =
    if validate_payload payload
    then elim (insert_session (opened mint payload.user_id (hash mint.refresh_token) family_id)
        db) [
          | ok r ↦
              (ok (record { token = mint.access_token; refresh_token = mint.refresh_token }), r.1)
          | err e ↦ (err e, db)
        ]
    else (err bad_payload, db)
