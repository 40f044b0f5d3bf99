-- ===== src/Auth/Login/SignIn.antt =====
-- auth/login_service.py: who is signed in.
use pos_pay.Notify.{notify_account_locked}
use pos_pay.Base.{
  ℕ, suc, ◌+◌, ◌*◌, leb, String, Text, true, false, ◌||◌, Option, none, some, [], ◌∷◌, select,
  str_eq, not, is_some, ◌≡◌, ◌≢◌, refl, ap, sym, subst, ◌∙◌, inl, inr, arith, Bool-cases,
  Option-cases, ◌==◌,
}
use pos_pay.Store.Rows.{Tenant}
use pos_pay.Store.Db.{Db, User}
use pos_pay.Store.Exec.{ok, one_or_none, one_or_none-one, Result-cases}
use pos_pay.Auth.Login.{
  LoginEnv, AuthenticatedIdentity, success, lock, verify_password, active_tenant, active_user,
  is_locked, forget_failures, count_failures, reject, scope_allows_password_login,
  user_has_webauthn_credentials, accept, signed_in, check_password, for_tenant,
  authenticate_password,
}
use pos_pay.Auth.Login.Memberships.{choose-success, allowed-Allows, Allows}

-- What it takes to be signed in as this identity.
pub record SignsIn (env : LoginEnv) (slug email : String) (password : Text) (db : Db)
    (i : AuthenticatedIdentity) : Type 0 where
  pub one_tenant : select (λ t. str_eq t.slug slug) db.tenants ≡ i.tenant ∷ []
  pub tenant_active : i.tenant.is_active ≡ true
  pub user : User
  pub one_user : select (λ u. str_eq u.email email) db.users ≡ user ∷ []
  pub same_user : i.user.id ≡ user.id
  pub user_active : user.is_active ≡ true
  pub not_locked : is_locked env.now user.locked_until ≡ false
  pub right_password : verify_password env password user.hashed_password ≡ true
  pub allowed : Allows db i.tenant user i.membership
  pub second_factor :
      i.mfa_required
      ≡ (user_has_webauthn_credentials i.tenant.id user.id db || i.membership.require_webauthn)

-- Forgetting the failures changes the users alone.
forgets :
    (u : User) (db : Db) (P : Db → Type 0)
    → P db
    → P (count_failures u 0 none db)
    → P (forget_failures u db)
forgets u db P same counted =
    elim (Bool-cases (not (u.failed_login_attempts == 0) || is_some u.locked_until)) [
      | inl e ↦ rw e counted
      | inr e ↦ rw e same
    ]

accept-signed_in :
    (u : User) (tenant : Tenant) (db : Db) → (accept u tenant db).0 ≡ ok (signed_in u tenant db)
unfolding accept user_has_webauthn_credentials scope_allows_password_login
accept-signed_in u tenant db =
    forgets u db (λ d. ok (signed_in u tenant d) ≡ ok (signed_in u tenant db)) refl refl

lock-fails :
    (u : User) (n : ℕ) (until : Option ℕ) (db : Db) (i : AuthenticatedIdentity)
    → (lock u n until db).0 ≢ ok (success i)
lock-fails u n until db i h =
    let told =
      notify_account_locked (record u { failed_login_attempts = n; locked_until = until })
        (count_failures u n until db) in
    elim (Result-cases told.0) [ inl (_, e) ↦ cc (h, e) | inr (x, e) ↦ cc (h, e) ]

reject-fails :
    (env : LoginEnv) (u : User) (db : Db) (i : AuthenticatedIdentity)
    → (reject env u db).0 ≢ ok (success i)
unfolding reject
reject-fails env u db i h =
    let attempts = suc u.failed_login_attempts in
    let until = some (env.now + env.login_lockout_minutes * 60) in
    elim (Bool-cases (leb env.login_max_failed_attempts attempts)) [
      | inr e ↦ cc (rw e at h)
      | inl e ↦ lock-fails u attempts until db i (rw e at h)
    ]

check_password-SignsIn :
    (env : LoginEnv) (password : Text) (tenant : Tenant) (u : User) (db : Db)
    (i : AuthenticatedIdentity)
    → (check_password env password tenant u db).0 ≡ ok (success i)
    → (is_locked env.now u.locked_until ≡ false)
      × ((verify_password env password u.hashed_password ≡ true)
          × (signed_in u tenant db ≡ success i))
unfolding check_password
check_password-SignsIn env password tenant u db i h =
    elim (Bool-cases (is_locked env.now u.locked_until)) [
      | inl e ↦ absurd (cc (rw e at h))
      | inr e ↦ elim (Bool-cases (verify_password env password u.hashed_password)) [
        | inr w ↦ absurd (reject-fails env u db i (rw w at (rw e at h)))
        | inl w ↦ (e, (w, cc (accept-signed_in u tenant db, rw w at (rw e at h))))
      ]
    ]

active_tenant-some :
    (o : Option Tenant) (t : Tenant)
    → active_tenant o ≡ some t
    → (o ≡ some t) × (t.is_active ≡ true)
active_tenant-some none t h = cc
active_tenant-some (some x) t h = elim (Bool-cases x.is_active) [
  | inl e ↦ ground (arith, e, h)
  | inr e ↦ absurd (cc (rw e at h))
]

active_user-some :
    (o : Option User) (u : User) → active_user o ≡ some u → (o ≡ some u) × (u.is_active ≡ true)
active_user-some none u h = cc
active_user-some (some x) u h = elim (Bool-cases x.is_active) [
  | inl e ↦ ground (arith, e, h)
  | inr e ↦ absurd (cc (rw e at h))
]

-- The user whom a sign-in that succeeds has found.
record Found (env : LoginEnv) (email : String) (password : Text) (t : Tenant) (db : Db)
    (i : AuthenticatedIdentity) : Type 0 where
  user : User
  one_user : select (λ u. str_eq u.email email) db.users ≡ user ∷ []
  user_active : user.is_active ≡ true
  accepted : (check_password env password t user db).0 ≡ ok (success i)

for_tenant-Found :
    (env : LoginEnv) (email : String) (password : Text) (t : Tenant) (db : Db)
    (i : AuthenticatedIdentity)
    → (for_tenant env email password (some t) db).0 ≡ ok (success i)
    → Found env email password t db i
for_tenant-Found env email password t db i h =
    let users = select (λ u. str_eq u.email email) db.users in
    elim (Result-cases (one_or_none users)) [
      | inr (x, e) ↦ absurd (cc (rw e at h))
      | inl (found, e) ↦ elim (Option-cases (active_user found)) [
        | inl gone ↦ absurd (cc (rw gone at (rw e at h)))
        | inr (u, active) ↦
            let facts = active_user-some found u active in
            record {
              user = u;
              one_user = one_or_none-one users u (e ∙ ap ok facts.0);
              user_active = facts.1;
              accepted = rw active at (rw e at h);
            }
      ]
    ]

Found-SignsIn :
    (env : LoginEnv) (slug email : String) (password : Text) (db : Db) (t : Tenant)
    (i : AuthenticatedIdentity)
    → select (λ t. str_eq t.slug slug) db.tenants ≡ t ∷ []
    → t.is_active ≡ true
    → Found env email password t db i
    → SignsIn env slug email password db i
Found-SignsIn env slug email password db t i one active f =
    let (free, (right, signed)) = check_password-SignsIn env password t f.user db i f.accepted in
    let (m, (kept, same)) = choose-success _ t db _ _ i signed in
    record {
      one_tenant = one ∙ ap (λ i. i.tenant ∷ []) (sym same);
      tenant_active = ap (λ i. i.tenant.is_active) same ∙ active;
      user = f.user;
      one_user = f.one_user;
      same_user = ap (λ i. i.user.id) same;
      user_active = f.user_active;
      not_locked = free;
      right_password = right;
      allowed =
          subst (λ j. Allows db j.tenant f.user j.membership) (sym same)
            (allowed-Allows db t f.user m kept);
      second_factor =
          subst
            (λ j. j.mfa_required ≡ (
              user_has_webauthn_credentials j.tenant.id f.user.id db
              || j.membership.require_webauthn))
            (sym same) refl;
    }

-- Who is signed in: where a password sign-in succeeds, the slug is that of one tenant, which is
-- active, the address is that of one user, who is active and not locked, the password is that
-- user's, the membership of the identity is stored, active, the user's own in this tenant and of a
-- scope that allows a password, and the second factor is asked for if the user has a key there or
-- the membership requires one.
pub sign_in_only_if :
    (env : LoginEnv) (slug email : String) (password : Text) (db : Db) (i : AuthenticatedIdentity)
    → (authenticate_password env slug email password db).0 ≡ ok (success i)
    → SignsIn env slug email password db i
unfolding authenticate_password
sign_in_only_if env slug email password db i h =
    let tenants = select (λ t. str_eq t.slug slug) db.tenants in
    elim (Result-cases (one_or_none tenants)) [
      | inr (x, e) ↦ absurd (cc (rw e at h))
      | inl (found, e) ↦ elim (Option-cases (active_tenant found)) [
        | inl gone ↦ absurd (cc (rw gone at (rw e at h)))
        | inr (t, active) ↦
            let facts = active_tenant-some found t active in
            Found-SignsIn env slug email password db t i
              (one_or_none-one tenants t (e ∙ ap ok facts.0)) facts.1
              (for_tenant-Found env email password t db i (rw active at (rw e at h)))
      ]
    ]
