-- ===== src/Auth/Login/Memberships.antt =====
-- auth/login_service.py: the membership that a sign-in picks.
use pos_pay.Base.{
  Bool, true, false, List, [], ◌∷◌, select, find, find-Has, Has, is_none, ◌&&◌, ◌≡◌, refl, ap, sym,
  subst, ◌∙◌, ◌⊎◌, inl, inr, arith, Bool-cases, Option-cases, if◌then◌else◌, ◌==◌,
}
use pos_pay.Store.Rows.{Tenant}
use pos_pay.Store.Db.{Db, TenantMembership, User}
use pos_pay.Auth.Login.{
  AuthenticatedIdentity, success, scope_allows_password_login, earliest, or_else, comes_before,
  default_membership, user_has_webauthn_credentials, identity, active_memberships, choose,
}

-- The membership gives access: it is the user's own in this tenant, it is active, and its scope
-- allows a password.
pub record Allows (db : Db) (tenant : Tenant) (u : User) (m : TenantMembership) : Type 0 where
  pub stored : Has m db.memberships
  pub user_id : m.user_id ≡ u.id
  pub tenant_id : m.tenant_id ≡ tenant.id
  pub active : m.is_active ≡ true
  pub scope : scope_allows_password_login db tenant m ≡ true

Has-or :
    (b : Bool) (x m n : TenantMembership) (ms : List TenantMembership)
    → Has x ((if b then n else m) ∷ ms)
    → Has x (m ∷ n ∷ ms)
Has-or true x m n ms h = inr h
Has-or false x m n ms (inl e) = inl e
Has-or false x m n ms (inr h) = inr (inr h)

earliest-Has : (m : TenantMembership) (ms : List TenantMembership) → Has (earliest m ms) (m ∷ ms)
earliest-Has m [] = inl refl
earliest-Has m (n ∷ ms) =
    Has-or (comes_before n m) _ m n ms (earliest-Has (if comes_before n m then n else m) ms)

default_membership-Has :
    (m : TenantMembership) (ms : List TenantMembership) → Has (default_membership m ms) (m ∷ ms)
default_membership-Has m ms = elim (Option-cases (find (λ x. is_none x.customer_id) (m ∷ ms))) [
  | inl e ↦ subst (λ o. Has (or_else o (earliest m ms)) (m ∷ ms)) (sym e) (earliest-Has m ms)
  | inr (n, e) ↦
      subst (λ o. Has (or_else o (earliest m ms)) (m ∷ ms)) (sym e)
        (find-Has (λ x. is_none x.customer_id) (m ∷ ms) e)
]

pub choose-success :
    (u : User) (t : Tenant) (db : Db) (active allowed : List TenantMembership)
    (i : AuthenticatedIdentity)
    → choose u t db active allowed ≡ success i
    → (m : TenantMembership) × (Has m allowed
        × (i ≡ identity (user_has_webauthn_credentials t.id u.id db) u t m))
choose-success u t db [] allowed i h = cc
choose-success u t db (m ∷ ms) [] i h = cc
choose-success u t db (m ∷ ms) (a ∷ rest) i h =
    (default_membership a rest, (default_membership-Has a rest, cc))

-- A stored membership that both queries keep.
Has-select :
    (p : TenantMembership → Bool) (m : TenantMembership) (ms : List TenantMembership)
    → Has m (select p ms)
    → Has m ms × (p m ≡ true)
Has-select p m [] h = absurd h
Has-select p m (x ∷ ms) h = elim (Bool-cases (p x)) [
  | inr e ↦ let k = Has-select p m ms (rw e at h) in (inr k.0, k.1)
  | inl e ↦ elim (the_first_or_later (rw e at h)) [
    | inl same ↦ (inl same, ap p (sym same) ∙ e)
    | inr later ↦ let k = Has-select p m ms later in (inr k.0, k.1)
  ]
]
  where
    the_first_or_later : Has m (x ∷ select p ms) → (x ≡ m) ⊎ Has m (select p ms)
    the_first_or_later h = h

pub allowed-Allows :
    (db : Db) (tenant : Tenant) (u : User) (m : TenantMembership)
    → Has m (select (scope_allows_password_login db tenant) (active_memberships u tenant db))
    → Allows db tenant u m
allowed-Allows db tenant u m h =
    let scope = Has-select (scope_allows_password_login db tenant) m _ h in
    let active = Has-select (λ m. m.is_active) m _ scope.0 in
    let own =
      Has-select (λ m. m.user_id == u.id && m.tenant_id == tenant.id) m db.memberships active.0 in
    record {
      stored = own.0;
      user_id = ground (arith, own.1);
      tenant_id = ground (arith, own.1);
      active = active.1;
      scope = scope.1;
    }
