-- ===== src/Auth/Login.antt =====
-- auth/login_service.py: a password sign-in, with the lock after too many wrong ones. Instants are
-- counted in seconds.
pub mod Memberships
pub mod SignIn
pub mod Standing
pub mod Lockout
use pos_pay.Base.{
  encode_utf_8, ℕ, suc, ◌+◌, ◌*◌, String, Text, Bool, true, false, not, ◌&&◌, ◌||◌, Option, none,
  some, List, [], ◌∷◌, ltb, leb, ◌==◌, if◌then◌else◌, select, find, update, take, any, is_none,
  is_some, str_eq,
}
use pos_pay.Store.Rows.{Uuid, Tenant, Customer}
use pos_pay.Store.Db.{Db, TenantMembership, User, WebauthnCredential}
use pos_pay.Store.Exec.{Exec, Result, ok, pure, gets, reads, modify, one_or_none, ◌>>=◌, ◌>>◌}
use pos_pay.Notify.{notify_account_locked}

-- bcrypt's check of the password's bytes, the clock, and the settings of config.py.
pub record LoginEnv : Type 0 where
  pub checkpw : Text → Text → Bool
  pub now : ℕ
  pub login_max_failed_attempts : ℕ
  pub login_lockout_minutes : ℕ

pub record AuthenticatedIdentity : Type 0 where
  pub user : User
  pub tenant : Tenant
  pub membership : TenantMembership
  pub mfa_required : Bool
  pub needs_webauthn_enrollment : Bool

pub data PasswordLoginResult : Type 0 where
  success : AuthenticatedIdentity → PasswordLoginResult
  invalid_credentials sso_required locked : PasswordLoginResult

-- auth/security.py: bcrypt reads the first 72 bytes of the UTF-8 encoding.
unfoldable pub verify_password : LoginEnv → Text → Text → Bool
verify_password env password hashed = env.checkpw (take 72 (encode_utf_8 password)) hashed

-- `is None or not is_active`
abbrev pub active_tenant : Option Tenant → Option Tenant
active_tenant none = none
active_tenant (some t) = if t.is_active then some t else none

abbrev pub active_user : Option User → Option User
active_user none = none
active_user (some u) = if u.is_active then some u else none

abbrev pub is_locked : ℕ → Option ℕ → Bool
is_locked now none = false
is_locked now (some t) = ltb now t

abbrev pub count_failures : User → ℕ → Option ℕ → Db → Db
count_failures u n until db = record db {
  users =
      update (λ x. x.id == u.id) (λ x. record x { failed_login_attempts = n; locked_until = until })
        db.users;
}

abbrev pub lock : User → ℕ → Option ℕ → Exec PasswordLoginResult
lock u attempts until = do
  modify (count_failures u attempts until)
  notify_account_locked (record u { failed_login_attempts = attempts; locked_until = until })
  pure locked

-- A wrong password: one failure more, and the lock when the threshold is reached.
unfoldable pub reject : LoginEnv → User → Exec PasswordLoginResult
reject env u =
    let attempts = suc u.failed_login_attempts in
    let until = some (env.now + env.login_lockout_minutes * 60) in
    if leb env.login_max_failed_attempts attempts
    then lock u attempts until
    else (do modify (count_failures u attempts u.locked_until); pure invalid_credentials)

-- `_scope_allows_password_login`
abbrev pub customer_allows : Option Customer → Bool
customer_allows none = false
customer_allows (some c) = c.password_login_enabled

unfoldable pub scope_allows_password_login : Db → Tenant → TenantMembership → Bool
scope_allows_password_login db tenant m = m.require_webauthn || elim m.customer_id [
  | none ↦ tenant.password_login_enabled
  | some c ↦ customer_allows (find (λ x. x.id == c) db.customers)
]

-- `sorted(..., key=lambda m: (m.created_at, m.id))[0]`
abbrev pub comes_before : TenantMembership → TenantMembership → Bool
comes_before m n = ltb m.created_at n.created_at || m.created_at == n.created_at && ltb m.id n.id

abbrev pub earliest : TenantMembership → List TenantMembership → TenantMembership
earliest m [] = m
earliest m (n ∷ ms) = earliest (if comes_before n m then n else m) ms

abbrev pub or_else : Option TenantMembership → TenantMembership → TenantMembership
or_else none m = m
or_else (some n) m = n

-- The tenant-wide membership if there is one.
abbrev pub default_membership : TenantMembership → List TenantMembership → TenantMembership
default_membership m ms = or_else (find (λ x. is_none x.customer_id) (m ∷ ms)) (earliest m ms)

unfoldable pub user_has_webauthn_credentials : Uuid → Uuid → Db → Bool
user_has_webauthn_credentials tenant_id user_id db =
    any (λ c. c.tenant_id == tenant_id && c.user_id == user_id) db.webauthn_credentials

abbrev pub identity : Bool → User → Tenant → TenantMembership → AuthenticatedIdentity
identity has_key u tenant m = record {
  user = u;
  tenant = tenant;
  membership = m;
  mfa_required = has_key || m.require_webauthn;
  needs_webauthn_enrollment = m.require_webauthn && not has_key;
}

abbrev pub active_memberships : User → Tenant → Db → List TenantMembership
active_memberships u tenant db =
    select (λ m. m.is_active)
      (select (λ m. m.user_id == u.id && m.tenant_id == tenant.id) db.memberships)

-- Nothing is distinguished before the password is known to be right.
abbrev pub choose :
    User → Tenant → Db → List TenantMembership → List TenantMembership → PasswordLoginResult
choose u tenant db [] allowed = invalid_credentials
choose u tenant db (m ∷ ms) [] = sso_required
choose u tenant db (m ∷ ms) (a ∷ rest) = success (
    identity (user_has_webauthn_credentials tenant.id u.id db) u tenant (default_membership a rest))

-- `if user.failed_login_attempts or user.locked_until is not None`
abbrev pub forget_failures : User → Db → Db
forget_failures u db =
    if not (u.failed_login_attempts == 0) || is_some u.locked_until
    then count_failures u 0 none db
    else db

-- The memberships that give access, and the one that the sign-in picks.
abbrev pub signed_in : User → Tenant → Db → PasswordLoginResult
signed_in u tenant db =
    choose (record u { failed_login_attempts = 0; locked_until = none }) tenant db
      (active_memberships u tenant db)
      (select (scope_allows_password_login db tenant) (active_memberships u tenant db))

unfoldable pub accept : User → Tenant → Exec PasswordLoginResult
accept u tenant = do modify (forget_failures u); gets (signed_in u tenant)

unfoldable pub check_password : LoginEnv → Text → Tenant → User → Exec PasswordLoginResult
check_password env password tenant u =
    if is_locked env.now u.locked_until
    then pure locked
    else if verify_password env password u.hashed_password
    then accept u tenant
    else reject env u

abbrev pub for_user : LoginEnv → Text → Tenant → Option User → Exec PasswordLoginResult
for_user env password tenant none = pure invalid_credentials
for_user env password tenant (some u) = check_password env password tenant u

abbrev pub for_tenant : LoginEnv → String → Text → Option Tenant → Exec PasswordLoginResult
for_tenant env email password none = pure invalid_credentials
for_tenant env email password (some tenant) = do
  found ← reads (λ db. one_or_none (select (λ u. str_eq u.email email) db.users))
  for_user env password tenant (active_user found)

unfoldable pub authenticate_password : LoginEnv → String → String → Text → Exec PasswordLoginResult
authenticate_password env tenant_slug email password = do
  found ← reads (λ db. one_or_none (select (λ t. str_eq t.slug tenant_slug) db.tenants))
  for_tenant env email password (active_tenant found)
