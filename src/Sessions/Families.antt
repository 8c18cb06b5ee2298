-- ===== src/Sessions/Families.antt =====
-- The events on the sessions of apps/api/src/services/refresh-sessions.ts, and how many live sessions
-- they leave in a family.
use mathlib.Core.List.{Memᴰ}
use jaa.Prelude.{
  ℕ, ◌+◌, true, false, ◌≡◌, refl, sym, String, Option, none, some, [], ◌∷◌, ◌++◌, arith, update,
  find, find_holds, Bool-cases, Result-cases, inl, inr, ok, ◌&&◌, ◌===◌, eq_iff, is_some, is_blank,
  leb,
}
use jaa.Prelude.Members.{find_mem}
use jaa.Prelude.Sessions.{commit-keeps}
use jaa.Sessions.Rows.{RefreshTokenSession, Db, JwtPayload, is_live, is_live_in}
use jaa.Sessions.Rotation.{
  Mint, Tokens, rotate_refresh_session, rotate_for, rotate_in_tenant, rotate_found, rotate_current,
  detect_reuse, revoke_family, revoked, used, successor, insert_session, is_presented,
  validate_payload, revoke_refresh_session_family, revoke_found, issue_tokens, opened,
  is_presented_by, valid_session_identity, valid_presented,
}

-- A request, with what its call generates.
pub data Event : Type 0 where
  rotate : Mint → (presented : String) → Event
  log_out : (now : ℕ) (user_id presented : String) → Event
  log_in : Mint → (family_id : String) → JwtPayload → Event

-- The store after a request, whether it succeeds or fails.
unfoldable pub step : (String → String) → (String → Option JwtPayload) → Event → Db → Db
step hash verify (rotate mint presented) db =
    (rotate_refresh_session hash verify mint presented db).1
step hash verify (log_out now user_id presented) db =
    (revoke_refresh_session_family hash now user_id presented db).1
step hash verify (log_in mint family_id payload) db =
    (issue_tokens hash mint family_id payload db).1

-- The family that an event opens.
abbrev pub family_opened : Event → Option String
family_opened (log_in mint family_id payload) = some family_id
family_opened _ = none

-- The token that a request presents.
abbrev pub token_of : Event → Option String
token_of (rotate mint presented) = some presented
token_of (log_out now user_id presented) = some presented
token_of (log_in mint family_id payload) = none

-- A stored session of the presented token.
pub record IsPresented (digest : String → String) (token : Option String) (db : Db)
    (current : RefreshTokenSession) : Type 0 where
  pub presented : String
  pub given : token ≡ some presented
  pub listed : Memᴰ current db.sessions
  pub hashed : current.token_hash ≡ digest presented

-- A row that takes the place of `current`, with its owner, family and expiry.
pub record IsSuccessor (current row : RefreshTokenSession) : Type 0 where
  pub same_user : row.user_id ≡ current.user_id
  pub same_family : row.family_id ≡ current.family_id
  pub same_expiry : row.expires_at ≡ current.expires_at
  pub live : row.revoked_at ≡ none

-- What an event does to the sessions; `token` is what it presents, `opens` the family that it opens.
pub data Moves (digest : String → String) (token opens : Option String) (db db' : Db) : Type 0 where
  same : db'.sessions ≡ db.sessions → Moves digest token opens db db'
  killed :
      (now : ℕ) (user_id family_id : String)
      → db'.sessions ≡ update (is_live_in user_id family_id) (revoked now) db.sessions
      → (current : RefreshTokenSession) → IsPresented digest token db current
      → current.user_id ≡ user_id
      → current.family_id ≡ family_id
      → ((s : RefreshTokenSession) → revoked now s ≡ record s { revoked_at = some now })
      → Moves digest token opens db db'
  turned :
      (mint : Mint) (user_id hash : String) (current : RefreshTokenSession)
      → Memᴰ current db.sessions
      → is_live current ≡ true
      → current.user_id ≡ user_id
      → leb current.expires_at mint.now ≡ false
      → db'.sessions
        ≡ update (λ s. s.id === current.id) (used mint.now) db.sessions
          ++ successor mint user_id hash current ∷ []
      → IsPresented digest token db current
      → IsSuccessor current (successor mint user_id hash current)
      → is_live (used mint.now current) ≡ false
      → Moves digest token opens db db'
  joined :
      (mint : Mint) (user_id hash family_id : String)
      → opens ≡ some family_id
      → db'.sessions ≡ db.sessions ++ opened mint user_id hash family_id ∷ []
      → (opened mint user_id hash family_id).family_id ≡ family_id
      → (opened mint user_id hash family_id).expires_at ≡ mint.now + 604800000
      → Moves digest token opens db db'

insert_session_inv :
    (row : RefreshTokenSession) (db : Db) {r : Unit × Db}
    → insert_session row db ≡ ok r
    → r.1.sessions ≡ db.sessions ++ row ∷ []
unfolding insert_session
insert_session_inv row db e = ground arith

successor-IsSuccessor :
    (mint : Mint) (user_id hash : String) (current : RefreshTokenSession)
    → current.user_id ≡ user_id
    → IsSuccessor current (successor mint user_id hash current)
unfolding successor
successor-IsSuccessor mint user_id hash current owned = record {
  same_user = sym owned;
  same_family = refl;
  same_expiry = refl;
  live = refl;
}

used_dead : (now : ℕ) (s : RefreshTokenSession) → is_live (used now s) ≡ false
unfolding used
used_dead now s = refl

revoked_lem :
    (now : ℕ) (s : RefreshTokenSession) → revoked now s ≡ record s { revoked_at = some now }
unfolding revoked
revoked_lem now s = refl

opened_lem :
    (mint : Mint) (user_id hash family_id : String)
    → ((opened mint user_id hash family_id).family_id ≡ family_id)
      × ((opened mint user_id hash family_id).expires_at ≡ mint.now + 604800000)
unfolding opened
opened_lem mint user_id hash family_id = (refl, refl)

rotate_current-Moves :
    (hash : String → String) (mint : Mint) (payload : JwtPayload) (presented : String)
    (current : RefreshTokenSession) (db db' : Db) (r : Option Tokens)
    → IsPresented hash (some presented) db current
    → is_live current ≡ true
    → current.user_id ≡ payload.user_id
    → leb current.expires_at mint.now ≡ false
    → rotate_current hash mint payload current db ≡ ok (r, db')
    → Moves hash (some presented) none db db'
unfolding rotate_current insert_session
rotate_current-Moves hash mint payload presented current db db' r shown live owned fresh e =
    turned mint payload.user_id (hash mint.refresh_token) current shown.listed live owned fresh
      (ground arith) shown
      (successor-IsSuccessor mint payload.user_id (hash mint.refresh_token) current owned)
      (used_dead mint.now current)

rotate_found-Moves :
    (hash : String → String) (mint : Mint) (payload : JwtPayload) (presented : String)
    (o : Option RefreshTokenSession) (db db' : Db) (r : Option Tokens)
    → ((s : RefreshTokenSession)
        → o ≡ some s
        → IsPresented hash (some presented) db s × (s.user_id ≡ payload.user_id))
    → rotate_found hash mint payload o db ≡ ok (r, db')
    → Moves hash (some presented) none db db'
unfolding rotate_found detect_reuse revoke_family
rotate_found-Moves hash mint payload presented none db db' r found e = same (ground arith)
rotate_found-Moves hash mint payload presented (some current) db db' r found e =
    let (shown, owned) = found current refl in
    elim (Bool-cases (leb current.expires_at mint.now)) [
      | inl late ↦ same (ground arith)
      | inr fresh ↦ elim (Bool-cases (is_some current.revoked_at)) [
        | inl dead ↦
            killed mint.now payload.user_id current.family_id (ground arith) current shown owned
              refl (revoked_lem mint.now)
        | inr alive ↦
            rotate_current-Moves hash mint payload presented current db db' r shown (ground arith)
              owned fresh (ground arith)
      ]
    ]

rotate_in_tenant-Moves :
    (hash : String → String) (mint : Mint) (payload : JwtPayload) (presented : String) (db db' : Db)
    (r : Option Tokens)
    → rotate_in_tenant hash mint payload presented db ≡ ok (r, db')
    → Moves hash (some presented) none db db'
unfolding rotate_in_tenant is_presented
rotate_in_tenant-Moves hash mint payload presented db db' r e =
    let p = is_presented db.users payload.user_id (hash presented) in
    rotate_found-Moves hash mint payload presented (find p db.sessions) db db' r
      (λ s h. (
        record {
          presented = presented;
          given = refl;
          listed = find_mem p db.sessions s h;
          hashed =
              (eq_iff s.token_hash (hash presented)).0 (ground (arith, find_holds p db.sessions h));
        },
        (eq_iff s.user_id payload.user_id).0 (ground (arith, find_holds p db.sessions h)),
      ))
      e

rotate_for-Moves :
    (hash : String → String) (mint : Mint) (presented : String) (o : Option JwtPayload) (db : Db)
    → Moves hash (some presented) none db (rotate_for hash mint presented o db).1
unfolding rotate_for
rotate_for-Moves hash mint presented none db = same refl
rotate_for-Moves hash mint presented (some payload) db =
    elim (Bool-cases (is_blank payload.user_id)) [
      | inl blank ↦ rw (blank) (same refl)
      | inr named ↦ rw (named) (
          commit-keeps (Moves hash (some presented) none db)
            (rotate_in_tenant hash mint payload presented) db (same refl)
            (λ r db' e. rotate_in_tenant-Moves hash mint payload presented db db' r e))
    ]

revoke_found-Moves :
    (hash : String → String) (now : ℕ) (user_id presented : String) (o : Option RefreshTokenSession)
    (db : Db)
    → ((s : RefreshTokenSession)
        → o ≡ some s
        → IsPresented hash (some presented) db s × (s.user_id ≡ user_id))
    → Moves hash (some presented) none db (revoke_found now user_id o db)
unfolding revoke_found revoke_family
revoke_found-Moves hash now user_id presented none db found = same refl
revoke_found-Moves hash now user_id presented (some current) db found =
    let (shown, owned) = found current refl in
    killed now user_id current.family_id refl current shown owned refl (revoked_lem now)

log_out-Moves :
    (hash : String → String) (now : ℕ) (user_id presented : String) (db : Db)
    → Moves hash
        (some presented)
        none
        db
        (revoke_refresh_session_family hash now user_id presented db).1
unfolding revoke_refresh_session_family
log_out-Moves hash now user_id presented db =
    let p = is_presented_by user_id (hash presented) in
    elim (Bool-cases (valid_session_identity user_id && valid_presented presented)) [
      | inl valid ↦ rw (valid) (
          revoke_found-Moves hash now user_id presented (find p db.sessions) db (λ s h. (
            record {
              presented = presented;
              given = refl;
              listed = find_mem p db.sessions s h;
              hashed =
                  (eq_iff s.token_hash (hash presented)).0
                    (ground (arith, find_holds p db.sessions h));
            },
            (eq_iff s.user_id user_id).0 (ground (arith, find_holds p db.sessions h)),
          )))
      | inr bad ↦ rw (bad) (same refl)
    ]

log_in-Moves :
    (hash : String → String) (mint : Mint) (family_id : String) (payload : JwtPayload) (db : Db)
    → Moves hash none (some family_id) db (issue_tokens hash mint family_id payload db).1
unfolding issue_tokens
log_in-Moves hash mint family_id payload db =
    let row = opened mint payload.user_id (hash mint.refresh_token) family_id in
    let (named, ends) = opened_lem mint payload.user_id (hash mint.refresh_token) family_id in
    elim (Bool-cases (validate_payload payload)) [
      | inr bad ↦ rw (bad) (same refl)
      | inl valid ↦ elim (Result-cases (insert_session row db)) [
        | inl (r, e) ↦
            rw (valid, e, issue_tokens)
              (joined mint payload.user_id (hash mint.refresh_token) family_id refl
                (insert_session_inv row db e) named ends)
        | inr (x, e) ↦ rw (valid, e, issue_tokens) (same refl)
      ]
    ]

-- Every request leaves the sessions as they are; or revokes the live ones of the family of the session
-- that it presents; or, if it presents a live session that has not expired, revokes it and adds one live
-- successor with the same owner, family and expiry; or adds the session of a login, which ends in seven
-- days.
pub step-Moves :
    (hash : String → String) (verify : String → Option JwtPayload) (event : Event) (db : Db)
    → Moves hash (token_of event) (family_opened event) db (step hash verify event db)
unfolding step rotate_refresh_session
step-Moves hash verify (rotate mint presented) db =
    rotate_for-Moves hash mint presented (verify presented) db
step-Moves hash verify (log_out now user_id presented) db =
    log_out-Moves hash now user_id presented db
step-Moves hash verify (log_in mint family_id payload) db =
    log_in-Moves hash mint family_id payload db
