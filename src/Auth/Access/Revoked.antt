-- ===== src/Auth/Access/Revoked.antt =====
-- services/session_service.py and auth/deps.py: a token whose session was ended opens nothing.
use pos_pay.Base.{
  suc, ◌≤◌, true, false, Option, none, some, ◌==◌, ==-refl, find, update_found, find-update,
  find-append_none, is_some, if◌then◌else◌, ◌≡◌, refl, ap, sym, ◌∙◌, ◌⊎◌, inl, inr, arith,
  Bool-cases, Option-cases,
}
use pos_pay.Store.Rows.{Uuid}
use pos_pay.Store.Db.{Db, User, RevokedSession}
use pos_pay.Store.Exec.{err, access_revoked, wrong_token_type, refresh_failed}
use pos_pay.Auth.Tokens.{TokenType, Claims, valid, Jwt, AuthEnv, same_token_type, given_or}
use pos_pay.Auth.Sessions.{
  is_session_revoked, claims_are_current, drop_expired, revoke_once, revoke_session,
  revoke_all_sessions, current_user, refresh_session,
}
use pos_pay.Auth.Access.{build_context, decode_and_build_context}

-- The token opens no page and no API route, and is not refreshed.
pub record IsRefused {Token : Type 0} (jwt : Jwt Token) (env : AuthEnv) (token : Token) (db : Db)
    : Type 0 where
  pub opens :
      (expected : TokenType)
      → (decode_and_build_context jwt env expected token db ≡ err access_revoked)
        ⊎ (decode_and_build_context jwt env expected token db ≡ err wrong_token_type)
  pub refreshes : refresh_session jwt env token db ≡ (err refresh_failed, db)

-- No user of these claims has them current.
not_current :
    (c : Claims) (db : Db) (o : Option User)
    → ((u : User) → o ≡ some u → claims_are_current c u db ≡ false)
    → current_user c db o ≡ none
not_current c db none h = refl
not_current c db (some u) h = ground (arith, h u refl)

refuses_token :
    {Token : Type 0} (jwt : Jwt Token) (env : AuthEnv) (token : Token) (db : Db) (c : Claims)
    → jwt.decode env.now token ≡ valid c
    → current_user c db (find (λ u. u.id == c.sub) db.users) ≡ none
    → IsRefused jwt env token db
unfolding decode_and_build_context build_context refresh_session
refuses_token jwt env token db c read gone = record {
  opens = λ expected. elim (Bool-cases (same_token_type c.token_type expected)) [
    | inl e ↦ inl (rw read (rw e (rw gone refl)))
    | inr e ↦ inr (rw read (rw e refl))
  ];
  refreshes = elim (Bool-cases (same_token_type c.token_type TokenType.refresh)) [
    | inl e ↦ rw read (rw e (rw gone refl))
    | inr e ↦ rw read (rw e refl)
  ];
}

revoked_row :
    (env : AuthEnv) (sid user_id : Uuid) (db : Db)
    → is_session_revoked sid (revoke_once env sid user_id db) ≡ true
unfolding is_session_revoked
revoked_row env sid user_id db =
    let is_it = λ (r : RevokedSession). r.session_id == sid in
    elim (Option-cases (find is_it db.revoked_sessions)) [
      | inr (r, e) ↦ rw e (rw e refl)
      | inl e ↦
          rw e (ap is_some (find-append_none is_it db.revoked_sessions _ e) ∙ rw (==-refl sid) refl)
    ]

-- A session that was signed out is over: on the tables that `revoke_session` leaves, a token that
-- names the session gives no context, whatever type is expected, and is not refreshed.
pub signed_out_session :
    {Token : Type 0} (jwt : Jwt Token) (env env' : AuthEnv) (sid user_id : Uuid) (db : Db)
    (token : Token) (c : Claims)
    → jwt.decode env'.now token ≡ valid c
    → c.sid ≡ some sid
    → IsRefused jwt env' token (revoke_session env sid user_id db).1
unfolding revoke_session claims_are_current
signed_out_session jwt env env' sid user_id db token c read named =
    let after = revoke_once env sid user_id (drop_expired env.now db) in
    refuses_token jwt env' token after c read (
      not_current c after (find (λ u. u.id == c.sub) after.users) (λ u e.
        rw named (rw (revoked_row env sid user_id (drop_expired env.now db)) (ground arith))))

-- Signing out everywhere ends every session: on the tables that `revoke_all_sessions` leaves, no
-- token of the user whose version is not above the version before the call gives a context,
-- whatever type is expected, or is refreshed.
pub signed_out_everywhere :
    {Token : Type 0} (jwt : Jwt Token) (env : AuthEnv) (u : User) (db : Db) (token : Token)
    (c : Claims)
    → find (λ x. x.id == c.sub) db.users ≡ some u
    → jwt.decode env.now token ≡ valid c
    → given_or c.tv 0 ≤ u.token_version
    → IsRefused jwt env token (revoke_all_sessions u db).1
unfolding revoke_all_sessions claims_are_current
signed_out_everywhere jwt env u db token c stored read old =
    let after = (revoke_all_sessions u db).1 in
    refuses_token jwt env token after c read (
      not_current c after (find (λ u. u.id == c.sub) after.users)
        (λ v e. ground (arith, old, new_version v e)))
  where
    new_version :
        (v : User)
        → find (λ x. x.id == c.sub) (revoke_all_sessions u db).1.users ≡ some v
        → v.token_version ≡ suc u.token_version
    new_version v e =
        let found =
          sym e
          ∙ find-update (λ x. x.id == c.sub) (λ x. x.id == u.id)
              (λ x. record x { token_version = suc u.token_version }) db.users (λ x. refl)
          ∙ ap
              (update_found (λ x. x.id == u.id)
                (λ x. record x { token_version = suc u.token_version }))
              stored
          ∙ ap (λ b. some (if b then record u { token_version = suc u.token_version } else u))
              (==-refl u.id) in
        cc
