-- ===== src/Sessions/Rows.antt =====
-- The tables of apps/api/src/services/refresh-sessions.ts. Times are milliseconds.
use jaa.Prelude.{ℕ, Bool, String, Option, List, ◌===◌, ◌&&◌, not, is_some}

pub record User : Type 0 where
  pub id : String
  pub is_active : Bool

pub record RefreshTokenSession : Type 0 where
  pub id : String
  pub user_id : String
  pub token_hash : String
  pub family_id : String
  pub expires_at : ℕ
  pub revoked_at : Option ℕ
  pub last_used_at : Option ℕ

pub record SessionAudit : Type 0 where
  pub user_id : String
  pub action : String
  pub resource_id : String

pub record Db : Type 0 where
  pub users : List User
  pub sessions : List RefreshTokenSession
  pub audit_logs : List SessionAudit

-- `RefreshSessionError`; then what `withTenant`, a unique index and an update of a missing row throw.
pub data SessionError : Type 0 where
  refresh_session_error tenant_required unique_violation bad_payload : SessionError

pub record JwtPayload : Type 0 where
  pub user_id : String
  pub email : String

abbrev pub is_live : RefreshTokenSession → Bool
is_live s = not (is_some s.revoked_at)

abbrev pub in_family : String → String → RefreshTokenSession → Bool
in_family user_id family_id s = s.user_id === user_id && s.family_id === family_id

-- `where: { userId, familyId, revokedAt: null }`.
abbrev pub is_live_in : String → String → RefreshTokenSession → Bool
is_live_in user_id family_id s = in_family user_id family_id s && is_live s
