-- ===== src/Sessions/Death.antt =====
-- What presenting a revoked refresh token does, to its request and to later ones.
use jaa.Prelude.{
  true, false, ◌≡◌, refl, sym, ap, ◌∙◌, String, Option, some, List, [], ◌∷◌, arith, find,
  find_holds, any, Bool-cases, inl, inr, err, eq_iff, eq_refl, leb, is_some, is_blank,
}
use mathlib.Core.Path.{subst}
use jaa.Prelude.Members.{any_of_mem, find_mem}
use jaa.Prelude.Sessions.{commit}
use jaa.Sessions.Rows.{
  RefreshTokenSession, Db, JwtPayload, is_live_in, in_family, refresh_session_error,
}
use jaa.Sessions.Rotation.{
  Mint, tokens_or_err, revoked, rotate_refresh_session, rotate_for, rotate_in_tenant, rotate_found,
  detect_reuse, revoke_family, is_presented,
}
use jaa.Sessions.Counts.{count-update_zero, revoked_is_dead}
use jaa.Sessions.Families.{Event, rotate, step, family_opened}
use jaa.Sessions.Liveness.{IsFresh}
use jaa.Sessions.Reuse.{IsDead, step-IsDead, any-update_same, revoked_family, live_counts}

-- Requests one after the other.
abbrev pub run : (String → String) → (String → Option JwtPayload) → List Event → Db → Db
run hash verify [] db = db
run hash verify (event ∷ events) db = run hash verify events (step hash verify event db)

-- Each login opens a family with a new identifier.
abbrev pub AllFresh : (String → String) → (String → Option JwtPayload) → List Event → Db → Type 0
AllFresh hash verify [] db = Unit
AllFresh hash verify (event ∷ events) db =
    IsFresh (family_opened event) db × AllFresh hash verify events (step hash verify event db)

run-IsDead :
    (hash : String → String) (verify : String → Option JwtPayload) (events : List Event) (db : Db)
    (u f : String)
    → AllFresh hash verify events db
    → IsDead u f db
    → IsDead u f (run hash verify events db)
run-IsDead hash verify [] db u f fresh d = d
run-IsDead hash verify (event ∷ events) db u f (fresh, rest) d =
    run-IsDead hash verify events (step hash verify event db) u f rest
      (step-IsDead hash verify event db u f fresh d)

-- The session of a token, as `rotateRefreshSession` looks it up.
pub record Presents (hash : String → String) (verify : String → Option JwtPayload)
    (presented : String) (db : Db) (current : RefreshTokenSession) : Type 0 where
  pub payload : JwtPayload
  pub verified : verify presented ≡ some payload
  pub named : is_blank payload.user_id ≡ false
  pub found :
      find (is_presented db.users payload.user_id (hash presented)) db.sessions ≡ some current

presented_owner :
    (hash : String → String) (verify : String → Option JwtPayload) (presented : String) (db : Db)
    (current : RefreshTokenSession) (p : Presents hash verify presented db current)
    → current.user_id ≡ p.payload.user_id
unfolding is_presented
presented_owner hash verify presented db current p = (eq_iff current.user_id p.payload.user_id).0 (
    ground (
      arith,
      find_holds (is_presented db.users p.payload.user_id (hash presented)) db.sessions p.found,
    ))

looked_up :
    (hash : String → String) (verify : String → Option JwtPayload) (mint : Mint)
    (presented : String) (db : Db) (current : RefreshTokenSession)
    (p : Presents hash verify presented db current)
    → rotate_in_tenant hash mint p.payload presented db
      ≡ rotate_found hash mint p.payload (some current) db
unfolding rotate_in_tenant
looked_up hash verify mint presented db current p = rw (p.found) refl

-- The rotation of a session that was found.
pub rotation_of :
    (hash : String → String) (verify : String → Option JwtPayload) (mint : Mint)
    (presented : String) (db : Db) (current : RefreshTokenSession)
    (p : Presents hash verify presented db current)
    → rotate_refresh_session hash verify mint presented db ≡ (
      tokens_or_err (commit (rotate_found hash mint p.payload (some current)) db).0,
      (commit (rotate_found hash mint p.payload (some current)) db).1,
    )
unfolding rotate_refresh_session rotate_for
rotation_of hash verify mint presented db current p = rw (p.verified) (
    rw (p.named) (
      ap (λ x. (tokens_or_err (commit (λ s. x) db).0, (commit (λ s. x) db).1))
        (looked_up hash verify mint presented db current p)))

nothing_given :
    (hash : String → String) (mint : Mint) (payload : JwtPayload) (current : RefreshTokenSession)
    (db : Db)
    → is_some current.revoked_at ≡ true
    → tokens_or_err (commit (rotate_found hash mint payload (some current)) db).0
      ≡ err refresh_session_error
unfolding rotate_found detect_reuse
nothing_given hash mint payload current db dead =
    elim (Bool-cases (leb current.expires_at mint.now)) [
      | inl late ↦ rw (late) refl
      | inr valid ↦ rw (valid) (rw (dead) refl)
    ]

family_revoked :
    (hash : String → String) (mint : Mint) (payload : JwtPayload) (current : RefreshTokenSession)
    (db : Db)
    → is_some current.revoked_at ≡ true
    → leb current.expires_at mint.now ≡ false
    → (commit (rotate_found hash mint payload (some current)) db).1
      ≡ revoke_family mint.now payload.user_id "AUTH_REFRESH_REUSE_DETECTED" current db
unfolding rotate_found detect_reuse
family_revoked hash mint payload current db dead valid = rw (valid) (rw (dead) refl)

revoked_refused :
    (hash : String → String) (verify : String → Option JwtPayload) (mint : Mint)
    (presented : String) (db : Db) (current : RefreshTokenSession)
    (p : Presents hash verify presented db current)
    → is_some current.revoked_at ≡ true
    → (rotate_refresh_session hash verify mint presented db).0 ≡ err refresh_session_error
revoked_refused hash verify mint presented db current p dead =
    ap (λ r. r.0) (rotation_of hash verify mint presented db current p)
    ∙ nothing_given hash mint p.payload current db dead

reuse-IsDead :
    (hash : String → String) (verify : String → Option JwtPayload) (mint : Mint)
    (presented : String) (db : Db) (current : RefreshTokenSession)
    (p : Presents hash verify presented db current)
    → is_some current.revoked_at ≡ true
    → leb current.expires_at mint.now ≡ false
    → IsDead current.user_id current.family_id (step hash verify (rotate mint presented) db)
unfolding step revoke_family
reuse-IsDead hash verify mint presented db current p dead valid =
    let owned = presented_owner hash verify presented db current p in
    let hit = is_live_in p.payload.user_id current.family_id in
    let there : any (in_family current.user_id current.family_id) db.sessions ≡ true =
      any_of_mem (in_family current.user_id current.family_id) db.sessions current
        (find_mem (is_presented db.users p.payload.user_id (hash presented)) db.sessions current
          p.found)
        (ground (arith, eq_refl current.user_id, eq_refl current.family_id)) in
    let after : (rotate_refresh_session hash verify mint presented db).1 ≡ _ =
      ap (λ r. r.1) (rotation_of hash verify mint presented db current p)
      ∙ family_revoked hash mint p.payload current db dead valid in
    subst (IsDead current.user_id current.family_id) (sym after) (
      any-update_same hit (in_family current.user_id current.family_id) (revoked mint.now)
            db.sessions (revoked_family current.user_id current.family_id mint.now)
          ∙ there,
      rw owned (
          count-update_zero hit (revoked mint.now) db.sessions
            (revoked_is_dead p.payload.user_id current.family_id mint.now)),
    )

-- Once a revoked token that has not expired is presented, no token of its family gives new tokens any
-- more: not now, and not after any further requests, as long as logins open new families.
pub reuse_ends_family :
    (hash : String → String) (verify : String → Option JwtPayload) (mint later : Mint)
    (stolen presented : String) (events : List Event) (db : Db) (current c : RefreshTokenSession)
    → Presents hash verify stolen db current
    → is_some current.revoked_at ≡ true
    → leb current.expires_at mint.now ≡ false
    → AllFresh hash verify events (step hash verify (rotate mint stolen) db)
    → Presents hash verify presented
        (run hash verify events (step hash verify (rotate mint stolen) db))
        c
    → in_family current.user_id current.family_id c ≡ true
    → (rotate_refresh_session hash verify later presented
        (run hash verify events (step hash verify (rotate mint stolen) db))).0
      ≡ err refresh_session_error
reuse_ends_family hash verify mint later stolen presented events db current c p dead valid fresh q
      family =
    let db1 = step hash verify (rotate mint stolen) db in
    let db2 = run hash verify events db1 in
    let (there, none_) =
      run-IsDead hash verify events db1 current.user_id current.family_id fresh
        (reuse-IsDead hash verify mint stolen db current p dead valid) in
    revoked_refused hash verify later presented db2 c q (elim (Bool-cases (is_some c.revoked_at)) [
      | inl gone ↦ gone
      | inr alive ↦
          let listed =
            find_mem (is_presented db2.users q.payload.user_id (hash presented)) db2.sessions c
              q.found in
          let one =
            live_counts current.user_id current.family_id db2.sessions c listed (ground arith) in
          absurd (omega (arith, one, none_))
    ])
