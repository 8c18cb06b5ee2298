-- ===== src/Sessions/Lifetime.antt =====
-- How long a family of refresh tokens lives.
use mathlib.Core.List.{Memᴰ}
use jaa.Prelude.{
  ℕ, ◌+◌, ◌*◌, ◌≤◌, Bool, true, ◌≡◌, refl, sym, ap, ◌∙◌, String, Option, some, List, [], ◌∷◌, ◌++◌,
  arith, update, any, Bool-cases, Result-cases, inl, inr, ok, err, ◌===◌, eq_iff, eq_refl, leb,
  leb_iff,
}
use jaa.Prelude.Members.{any_mem, any_of_mem, find_mem, mem-cons_cases, append_cases, update_origin}
use jaa.Prelude.Sessions.{commit}
use jaa.Sessions.Rows.{
  RefreshTokenSession, Db, JwtPayload, is_live_in, in_family, refresh_session_error,
}
use jaa.Sessions.Rotation.{
  Mint, Tokens, tokens_or_err, used, revoked, successor, opened, rotate_refresh_session,
  rotate_found, issue_tokens, insert_session, validate_payload, is_presented,
}
use jaa.Sessions.Families.{
  Event, step, Moves, same, killed, turned, joined, family_opened, token_of, step-Moves,
}
use jaa.Sessions.Liveness.{IsFresh}
use jaa.Sessions.Reuse.{any-update_same, any-append_left, revoked_family, used_family}
use jaa.Sessions.Death.{run, AllFresh, Presents, rotation_of}

-- A family with sessions, all of which expire at `expiry`.
abbrev Expires : String → String → ℕ → Db → Type 0
Expires u f expiry db =
    (any (in_family u f) db.sessions ≡ true)
    × ((c : RefreshTokenSession)
        → Memᴰ c db.sessions
        → in_family u f c ≡ true
        → c.expires_at ≡ expiry)

in_family-successor :
    (mint : Mint) (user_id hash : String) (current : RefreshTokenSession) (u f : String)
    → current.user_id ≡ user_id
    → in_family u f (successor mint user_id hash current) ≡ in_family u f current
unfolding successor
in_family-successor mint user_id hash current u f owned = rw owned refl

opened_elsewhere :
    (mint : Mint) (user_id hash family_id u f : String) (db : Db)
    → any (in_family u f) db.sessions ≡ true
    → IsFresh (some family_id) db
    → ¬ (in_family u f (opened mint user_id hash family_id) ≡ true)
unfolding opened
opened_elsewhere mint user_id hash family_id u f db there free inside =
    let (s, listed, member) = any_mem (in_family u f) db.sessions there in
    let one : family_id ≡ f = (eq_iff family_id f).0 (ground arith) in
    let named : s.family_id ≡ f = (eq_iff s.family_id f).0 (ground arith) in
    let taken =
      any_of_mem (λ t. t.family_id === family_id) db.sessions s listed
        ((eq_iff s.family_id family_id).1 (named ∙ sym one)) in
    cc (taken, free)

moved-Expires :
    (digest : String → String) (token opens : Option String) (db db' : Db) (u f : String)
    (expiry : ℕ)
    → IsFresh opens db
    → Expires u f expiry db
    → Moves digest token opens db db'
    → Expires u f expiry db'
unfolding revoked used successor opened
moved-Expires digest token opens db db' u f expiry fresh w (same e) = rw e w
moved-Expires digest token opens db db' u f expiry fresh (there, each)
      (killed now user_id family_id e _ _ _ _ _) =
    let hit = is_live_in user_id family_id in
    rw e (
      any-update_same hit (in_family u f) (revoked now) db.sessions (revoked_family u f now)
          ∙ there,
      λ c m member. elim (update_origin hit (revoked now) db.sessions c m) [
        | inl (x, k, made) ↦ rw made (each x k (rw made at member))
        | inr k ↦ each c k member
      ],
    )
moved-Expires digest token opens db db' u f expiry fresh (there, each)
      (turned mint user_id hash current m live owned valid e _ _ _) =
    let row = successor mint user_id hash current in
    let hit = λ (s : RefreshTokenSession). s.id === current.id in
    let moved = update hit (used mint.now) db.sessions in
    let kept : any (in_family u f) moved ≡ true =
      any-update_same hit (in_family u f) (used mint.now) db.sessions (used_family u f mint.now)
      ∙ there in
    rw e (
      any-append_left (in_family u f) moved (row ∷ []) kept,
      λ c k member. elim (append_cases moved (row ∷ []) c k) [
        | inl old ↦ elim (update_origin hit (used mint.now) db.sessions c old) [
          | inl (x, listed, made) ↦ rw made (each x listed (rw made at member))
          | inr listed ↦ each c listed member
        ]
        | inr new ↦ elim (mem-cons_cases c row [] new) [
          | inl one ↦
              let inside : in_family u f row ≡ true = rw one at member in
              let before : in_family u f current ≡ true =
                sym (in_family-successor mint user_id hash current u f owned) ∙ inside in
              ap (λ x. x.expires_at) one ∙ each current m before
          | inr none_ ↦ elim none_ [ ]
        ]
      ],
    )
moved-Expires digest token opens db db' u f expiry fresh (there, each)
      (joined mint user_id hash family_id names e _ _) =
    let row = opened mint user_id hash family_id in
    let free : IsFresh (some family_id) db = rw names at fresh in
    rw e (
      any-append_left (in_family u f) db.sessions (row ∷ []) there,
      λ c k member. elim (append_cases db.sessions (row ∷ []) c k) [
        | inl listed ↦ each c listed member
        | inr new ↦ elim (mem-cons_cases c row [] new) [
          | inl one ↦
              absurd
                (opened_elsewhere mint user_id hash family_id u f db there free (rw one at member))
          | inr none_ ↦ elim none_ [ ]
        ]
      ],
    )

run-Expires :
    (hash : String → String) (verify : String → Option JwtPayload) (events : List Event) (db : Db)
    (u f : String) (expiry : ℕ)
    → AllFresh hash verify events db
    → Expires u f expiry db
    → Expires u f expiry (run hash verify events db)
run-Expires hash verify [] db u f expiry fresh w = w
run-Expires hash verify (event ∷ events) db u f expiry (fresh, rest) w =
    run-Expires hash verify events (step hash verify event db) u f expiry rest (
      moved-Expires hash (token_of event) (family_opened event) db (step hash verify event db) u f
        expiry fresh w (step-Moves hash verify event db))

insert_session_rows :
    (row : RefreshTokenSession) (db : Db) {r : Unit × Db}
    → insert_session row db ≡ ok r
    → r.1.sessions ≡ db.sessions ++ row ∷ []
unfolding insert_session
insert_session_rows row db e = ground arith

-- A login that returns adds one session.
log_in_rows :
    (hash : String → String) (mint : Mint) (family_id : String) (payload : JwtPayload) (db db' : Db)
    (tokens : Tokens)
    → issue_tokens hash mint family_id payload db ≡ (ok tokens, db')
    → db'.sessions
      ≡ db.sessions ++ opened mint payload.user_id (hash mint.refresh_token) family_id ∷ []
unfolding issue_tokens
log_in_rows hash mint family_id payload db db' tokens e =
    let row = opened mint payload.user_id (hash mint.refresh_token) family_id in
    elim (Bool-cases (validate_payload payload)) [
      | inr bad ↦ absurd (ground (arith, bad))
      | inl valid ↦ elim (Result-cases (insert_session row db)) [
        | inr (x, lost) ↦ absurd (ground (arith, rw (valid, lost, issue_tokens) at e))
        | inl (r, done) ↦
            let stored : r.1 ≡ db' = ap (λ p. p.1) (rw (valid, done, issue_tokens) at e) in
            rw (← stored) (insert_session_rows row db done)
      ]
    ]

any-append_last :
    (q : RefreshTokenSession → Bool) (xs : List RefreshTokenSession) (y : RefreshTokenSession)
    → q y ≡ true
    → any q (xs ++ y ∷ []) ≡ true
any-append_last q [] y h = ground arith
any-append_last q (x ∷ xs) y h = ground (arith, any-append_last q xs y)

log_in-Expires :
    (hash : String → String) (mint : Mint) (family_id : String) (payload : JwtPayload) (db db' : Db)
    (tokens : Tokens)
    → IsFresh (some family_id) db
    → issue_tokens hash mint family_id payload db ≡ (ok tokens, db')
    → Expires payload.user_id family_id (mint.now + 7 * 24 * 60 * 60 * 1000) db'
unfolding opened
log_in-Expires hash mint family_id payload db db' tokens fresh e =
    let row = opened mint payload.user_id (hash mint.refresh_token) family_id in
    let self : in_family payload.user_id family_id row ≡ true =
      ground (arith, eq_refl payload.user_id, eq_refl family_id) in
    rw (log_in_rows hash mint family_id payload db db' tokens e) (
      any-append_last (in_family payload.user_id family_id) db.sessions row self,
      λ c k member. elim (append_cases db.sessions (row ∷ []) c k) [
        | inl listed ↦
            let taken =
              any_of_mem (λ t. t.family_id === family_id) db.sessions c listed (ground arith) in
            cc (taken, fresh)
        | inr new ↦ elim (mem-cons_cases c row [] new) [
          | inl one ↦ ap (λ x. x.expires_at) one
          | inr none_ ↦ elim none_ [ ]
        ]
      ],
    )

expired_refused :
    (hash : String → String) (mint : Mint) (payload : JwtPayload) (current : RefreshTokenSession)
    (db : Db)
    → leb current.expires_at mint.now ≡ true
    → tokens_or_err (commit (rotate_found hash mint payload (some current)) db).0
      ≡ err refresh_session_error
unfolding rotate_found
expired_refused hash mint payload current db late = rw (late) refl

-- Seven days after a login, no token of its family gives new tokens, whatever rotations and other
-- requests came between, as long as logins open new families.
pub seven_days :
    (hash : String → String) (verify : String → Option JwtPayload) (mint later : Mint)
    (family_id : String) (payload : JwtPayload) (db db' : Db) (tokens : Tokens)
    (events : List Event) (presented : String) (c : RefreshTokenSession)
    → IsFresh (some family_id) db
    → issue_tokens hash mint family_id payload db ≡ (ok tokens, db')
    → AllFresh hash verify events db'
    → Presents hash verify presented (run hash verify events db') c
    → in_family payload.user_id family_id c ≡ true
    → mint.now + 7 * 24 * 60 * 60 * 1000 ≤ later.now
    → (rotate_refresh_session hash verify later presented (run hash verify events db')).0
      ≡ err refresh_session_error
seven_days hash verify mint later family_id payload db db' tokens events presented c new e fresh p
      family late =
    let end = run hash verify events db' in
    let (there, each) =
      run-Expires hash verify events db' payload.user_id family_id
        (mint.now + 7 * 24 * 60 * 60 * 1000) fresh
        (log_in-Expires hash mint family_id payload db db' tokens new e) in
    let listed =
      find_mem (is_presented end.users p.payload.user_id (hash presented)) end.sessions c p.found in
    let expiry = each c listed family in
    let over : leb c.expires_at later.now ≡ true =
      (leb_iff c.expires_at later.now).1 (omega (arith, expiry, late)) in
    ap (λ r. r.0) (rotation_of hash verify later presented end c p)
    ∙ expired_refused hash later p.payload c end over
