-- ===== src/Auth/Access/Granted.antt =====
-- auth/deps.py: what stands behind every permission that a request has.
use pos_pay.Base.{
  String, Bool, true, false, not, ◌&&◌, Option, none, some, List, [], ◌∷◌, ◌==◌, select, find,
  str_eq, eq_iff, is_some, ◌≡◌, refl, ap, sym, subst, ◌∙◌, ◌⊎◌, inl, inr, arith, Bool-cases,
}
use pos_pay.Store.Rows.{Uuid}
use pos_pay.Store.Db.{Db, User, TenantMembership, SecurityGroup}
use pos_pay.Store.Exec.{
  Result, ok, err, required, access_revoked, one_or_none, one_or_none-one, and_then-ok, required-ok,
}
use pos_pay.Auth.Tokens.{TokenType, Claims, valid, Jwt, AuthEnv}
use pos_pay.Auth.Sessions.{claims_are_current, current_user, is_membership, active_membership}
use pos_pay.Auth.Access.{
  masked_permissions, includes, effective_permissions, TenantContext, group_of, customer_present,
  of_type, check, build_context, decode_and_build_context,
}

-- A permission that these tables give to these claims now.
pub record Grants (c : Claims) (db : Db) (p : String) : Type 0 where
  pub user : User
  pub found : find (λ u. u.id == c.sub) db.users ≡ some user
  pub user_active : user.is_active ≡ true
  pub current : claims_are_current c user db ≡ true
  pub membership : TenantMembership
  pub stored :
      select (is_membership user.id c.tenant_id c.customer_id) db.memberships ≡ membership ∷ []
  pub membership_active : membership.is_active ≡ true
  pub group : SecurityGroup
  pub group_stored : find (λ g. g.id == membership.security_group_id) db.groups ≡ some group
  pub group_tenant : group.tenant_id ≡ c.tenant_id
  pub granted : includes p group.permissions ≡ true
  pub unmasked : (c.customer_id ≡ none) ⊎ (includes p masked_permissions ≡ false)
  pub customer_active : customer_present c.customer_id db ≡ true

check-ok : (b : Bool) {u : Unit {0}} → check b ≡ ok u → b ≡ true
check-ok true h = refl
check-ok false h = cc

pub active_membership-some :
    (o : Option TenantMembership) (m : TenantMembership)
    → active_membership o ≡ some m
    → (o ≡ some m) × (m.is_active ≡ true)
active_membership-some none m h = cc
active_membership-some (some x) m h = elim (Bool-cases x.is_active) [
  | inl e ↦ ground (arith, e, h)
  | inr e ↦ absurd (cc (rw e at h))
]

pub current_user-some :
    (c : Claims) (db : Db) (o : Option User) (u : User)
    → current_user c db o ≡ some u
    → (o ≡ some u) × ((u.is_active ≡ true) × (claims_are_current c u db ≡ true))
current_user-some c db none u h = cc
current_user-some c db (some x) u h = elim (Bool-cases (x.is_active && claims_are_current c x db)) [
  | inl e ↦ ground (arith, e, h)
  | inr e ↦ absurd (cc (rw e at h))
]

group_of-some :
    (t : Uuid) (o : Option SecurityGroup) (g : SecurityGroup)
    → group_of t o ≡ some g
    → (o ≡ some g) × (g.tenant_id ≡ t)
group_of-some t none g h = cc
group_of-some t (some x) g h = ground (arith, h)

includes-select :
    (p : String) (q : String → Bool) (ps : List String)
    → includes p (select q ps) ≡ true
    → (includes p ps ≡ true) × (q p ≡ true)
includes-select p q [] h = absurd (cc)
includes-select p q (x ∷ ps) h = elim (Bool-cases (q x)) [
  | inr e ↦ let k = includes-select p q ps (rw e at h) in (ground (arith, k.0), k.1)
  | inl e ↦ elim (Bool-cases (str_eq p x)) [
    | inl same ↦ (rw same refl, ap q ((eq_iff p x).0 same) ∙ e)
    | inr other ↦
        let k = includes-select p q ps (rw other at (rw e at h)) in (ground (arith, k.0), k.1)
  ]
]

unmask :
    (p : String) (customer : Option Uuid) (ps : List String)
    → includes p (effective_permissions customer ps) ≡ true
    → (includes p ps ≡ true) × ((customer ≡ none) ⊎ (includes p masked_permissions ≡ false))
unfolding effective_permissions
unmask p none ps h = (h, inl refl)
unmask p (some i) ps h =
    let k = includes-select p (λ p. not (includes p masked_permissions)) ps h in
    (k.0, inr (ground (arith, k.1)))

build_context-Grants :
    (expected : TokenType) (c : Claims) (db : Db) (ctx : TenantContext) (p : String)
    → build_context expected c db ≡ ok ctx
    → includes p ctx.permissions ≡ true
    → Grants c db p
unfolding build_context
build_context-Grants expected c db ctx p h has =
    let (_, (_, h1)) = and_then-ok (of_type expected c) _ h in
    let (u, (u_ok, h2)) =
      and_then-ok (required (current_user c db (find (λ u. u.id == c.sub) db.users)) access_revoked)
        _ h1 in
    let (found, (found_ok, h3)) =
      and_then-ok
        (one_or_none (select (is_membership u.id c.tenant_id c.customer_id) db.memberships)) _ h2 in
    let (m, (m_ok, h4)) = and_then-ok (required (active_membership found) access_revoked) _ h3 in
    let (g, (g_ok, h5)) =
      and_then-ok
        (required (group_of c.tenant_id (find (λ g. g.id == m.security_group_id) db.groups))
          access_revoked)
        _ h4 in
    let (_, (_, h6)) =
      and_then-ok (check (is_some (find (λ t. t.id == c.tenant_id) db.tenants))) _ h5 in
    let (_, (customer_ok, h7)) = and_then-ok (check (customer_present c.customer_id db)) _ h6 in
    let user = current_user-some c db _ u (required-ok _ access_revoked u_ok) in
    let member = active_membership-some found m (required-ok _ access_revoked m_ok) in
    let group = group_of-some c.tenant_id _ g (required-ok _ access_revoked g_ok) in
    let mask =
      unmask p c.customer_id g.permissions (subst (λ r. has_permission p r ≡ true) (sym h7) has) in
    record {
      user = u;
      found = user.0;
      user_active = user.1.0;
      current = user.1.1;
      membership = m;
      stored = one_or_none-one _ m (found_ok ∙ ap ok member.0);
      membership_active = member.1;
      group = g;
      group_stored = group.0;
      group_tenant = group.1;
      granted = mask.0;
      unmasked = mask.1;
      customer_active = check-ok (customer_present c.customer_id db) customer_ok;
    }
  where
    has_permission : String → Result TenantContext → Bool
    has_permission p (ok ctx) = includes p ctx.permissions
    has_permission p (err e) = false

-- Where a request has a permission, the tables give it now: the token's user is active and its
-- claims are current, the one membership for its tenant and customer is active, the group of that
-- membership is the tenant's own and holds the permission, a customer's session has none that is
-- masked, and its customer is active.
pub permission_granted :
    {Token : Type 0} (jwt : Jwt Token) (env : AuthEnv) (expected : TokenType) (token : Token)
    (db : Db) (c : Claims) (ctx : TenantContext) (p : String)
    → jwt.decode env.now token ≡ valid c
    → decode_and_build_context jwt env expected token db ≡ ok ctx
    → includes p ctx.permissions ≡ true
    → Grants c db p
unfolding decode_and_build_context
permission_granted jwt env expected token db c ctx p read h has =
    build_context-Grants expected c db ctx p (rw read at h) has
