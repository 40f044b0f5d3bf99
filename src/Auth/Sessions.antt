-- ===== src/Auth/Sessions.antt =====
-- services/session_service.py: ending sessions, and continuing one with its refresh token.
pub mod Continued
use pos_pay.Base.{
  ℕ, suc, ◌+◌, ◌*◌, max, Bool, true, false, not, ◌&&◌, Option, none, some, List, [], ◌∷◌, ◌++◌,
  ◌==◌, ltb, if◌then◌else◌, select, find, update, is_some, same_id,
}
use pos_pay.Store.Rows.{Uuid, Tenant}
use pos_pay.Store.Db.{Db, User, TenantMembership, RevokedSession}
use pos_pay.Store.Exec.{
  Exec, Result, ok, err, pure, raise, gets, reads, modify, raise_if, or_raise, one_or_none,
  and_then, refresh_failed, ◌>>=◌, ◌>>◌,
}
use pos_pay.Auth.Tokens.{
  TokenType, Claims, Decoded, valid, expired, invalid, Jwt, AuthEnv, SessionOf, SessionTokens,
  same_token_type, given_or, create_session_tokens,
}

unfoldable pub is_session_revoked : Uuid → Db → Bool
is_session_revoked session_id db =
    is_some (find (λ r. r.session_id == session_id) db.revoked_sessions)

abbrev pub sid_revoked : Option Uuid → Db → Bool
sid_revoked none db = false
sid_revoked (some i) db = is_session_revoked i db

unfoldable pub claims_are_current : Claims → User → Db → Bool
claims_are_current c u db = given_or c.tv 0 == u.token_version && not (sid_revoked c.sid db)

-- `max(Tenant.refresh_token_expire_minutes) or 0`
abbrev longest_minutes : List Tenant → ℕ
longest_minutes [] = 0
longest_minutes (t ∷ ts) = max (given_or t.refresh_token_expire_minutes 0) (longest_minutes ts)

abbrev pub drop_expired : ℕ → Db → Db
drop_expired now db = record db {
  revoked_sessions = select (λ r. not (ltb r.expires_at now)) db.revoked_sessions;
}

abbrev pub add_revoked : AuthEnv → Uuid → Uuid → Db → Db
add_revoked env session_id user_id db = record db {
  revoked_sessions =
      db.revoked_sessions
      ++ record {
        session_id = session_id;
        user_id = user_id;
        expires_at =
            env.now + max env.jwt_refresh_token_expire_minutes (longest_minutes db.tenants) * 60;
      }
        ∷ [];
}

abbrev pub revoke_once : AuthEnv → Uuid → Uuid → Db → Db
revoke_once env session_id user_id db =
    if is_session_revoked session_id db then db else add_revoked env session_id user_id db

unfoldable pub revoke_session : AuthEnv → Uuid → Uuid → Exec (Unit {0})
revoke_session env session_id user_id = do
  modify (drop_expired env.now)
  modify (revoke_once env session_id user_id)

unfoldable pub revoke_all_sessions : User → Exec (Unit {0})
revoke_all_sessions u = modify (λ db. record db {
  users =
      update (λ x. x.id == u.id) (λ x. record x { token_version = suc u.token_version }) db.users;
})

-- The user of the claims, if it is active and the claims are current.
abbrev pub current_user : Claims → Db → Option User → Option User
current_user c db none = none
current_user c db (some u) = if u.is_active && claims_are_current c u db then some u else none

abbrev pub is_membership : Uuid → Uuid → Option Uuid → TenantMembership → Bool
is_membership user_id tenant_id customer_id m =
    m.user_id == user_id && (m.tenant_id == tenant_id && same_id m.customer_id customer_id)

abbrev pub active_membership : Option TenantMembership → Option TenantMembership
active_membership none = none
active_membership (some m) = if m.is_active then some m else none

abbrev pub open_tenant : Option Tenant → Option Tenant
open_tenant none = none
open_tenant (some t) = if t.is_active then some t else none

-- The current group, not the one in the claims.
abbrev pub session_of : Claims → User → TenantMembership → SessionOf
session_of c u m = record {
  user_id = u.id;
  tenant_id = c.tenant_id;
  security_group_id = m.security_group_id;
  customer_id = c.customer_id;
  token_version = u.token_version;
}

module _ {Token : Type 0} (jwt : Jwt Token) (env : AuthEnv) where
  abbrev pub refresh_claims : Decoded → Option Claims
  refresh_claims (valid c) = if same_token_type c.token_type TokenType.refresh then some c else none
  refresh_claims expired = none
  refresh_claims invalid = none

  unfoldable pub refresh_session : Token → Exec (SessionTokens Token × Tenant)
  refresh_session token = do
    c ← or_raise (refresh_claims (jwt.decode env.now token)) refresh_failed
    found ← gets (λ db. current_user c db (find (λ u. u.id == c.sub) db.users))
    u ← or_raise found refresh_failed
    members ←
        reads
          (λ db. one_or_none (select (is_membership u.id c.tenant_id c.customer_id) db.memberships))
    m ← or_raise (active_membership members) refresh_failed
    tenants ← gets (λ db. open_tenant (find (λ t. t.id == c.tenant_id) db.tenants))
    tenant ← or_raise tenants refresh_failed
    tokens ←
        create_session_tokens jwt env (session_of c u m) tenant.access_token_expire_minutes
          tenant.refresh_token_expire_minutes c.sid (some c.exp)
    pure (tokens, tenant)
