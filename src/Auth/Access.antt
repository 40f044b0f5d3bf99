-- ===== src/Auth/Access.antt =====
-- auth/deps.py: what a token gives access to, decided anew on every request; with the permissions
-- that auth/permissions.py masks for a customer's session. The names, addresses and colours of the
-- tenant that the context also carries are left out.
pub mod Granted
pub mod Revoked
use pos_pay.Base.{
  ℕ, String, Bool, true, false, not, ◌&&◌, Option, none, some, List, [], ◌∷◌, ◌==◌, if◌then◌else◌,
  select, find, any, length, str_eq, same_id, is_some,
}
use pos_pay.Store.Rows.{Uuid, Tenant, Customer, ExceptionItem, ExceptionStatus}
use pos_pay.Store.Db.{Db, User, TenantMembership, SecurityGroup}
use pos_pay.Store.Exec.{
  Result, ok, err, one_or_none, and_then, required, token_expired, token_invalid, wrong_token_type,
  access_revoked,
}
use pos_pay.Auth.Tokens.{
  TokenType, Claims, Decoded, valid, expired, invalid, Jwt, AuthEnv, same_token_type,
}
use pos_pay.Auth.Sessions.{current_user, is_membership, active_membership}

-- `CUSTOMER_SCOPE_MASKED_PERMISSIONS`
abbrev pub masked_permissions : List String
masked_permissions =
    "user:manage" ∷ "security_group:manage" ∷ "tenant:manage" ∷ "customer:manage" ∷ "admin:manage"
    ∷ "audit_log:read" ∷ "ach_return_reason:manage" ∷ "wsud:read" ∷ []

abbrev pub includes : String → List String → Bool
includes p ps = any (str_eq p) ps

unfoldable pub effective_permissions : Option Uuid → List String → List String
effective_permissions none ps = ps
effective_permissions (some customer) ps = select (λ p. not (includes p masked_permissions)) ps

abbrev is_pending : ExceptionStatus → Bool
is_pending ExceptionStatus.pending_approval = true
is_pending _ = false

-- The exceptions that wait for someone else's approval.
unfoldable pub pending_approval_count : Uuid → Option Uuid → Uuid → Db → ℕ
pending_approval_count tenant_id customer_id user_id db = length (
    select
      (λ e.
        e.tenant_id == tenant_id
        && (is_pending e.status
            && (not (same_id e.recommended_by_user_id (some user_id))
                && elim customer_id [ none ↦ true | some c ↦ same_id e.customer_id (some c) ])))
      db.exceptions)

pub record TenantContext : Type 0 where
  pub tenant_id : Uuid
  pub user_id : Uuid
  pub security_group_id : Uuid
  pub permissions : List String
  pub customer_id : Option Uuid
  pub must_change_password : Bool
  pub session_id : Option Uuid
  pub access_expires_at : ℕ
  pub session_expires_at : Option ℕ
  pub pending_approval_count : ℕ

abbrev pub context : Claims → User → TenantMembership → SecurityGroup → Db → TenantContext
context c u m group db =
    let permissions = effective_permissions c.customer_id group.permissions in
    record {
      tenant_id = c.tenant_id;
      user_id = u.id;
      security_group_id = m.security_group_id;
      permissions = permissions;
      customer_id = c.customer_id;
      must_change_password = u.must_change_password;
      session_id = c.sid;
      access_expires_at = c.exp;
      session_expires_at = c.sxp;
      pending_approval_count =
          if includes "exception:decide" permissions
          then pending_approval_count c.tenant_id c.customer_id u.id db
          else 0;
    }

-- `group is None or group.tenant_id != tenant_id`
abbrev pub group_of : Uuid → Option SecurityGroup → Option SecurityGroup
group_of tenant_id none = none
group_of tenant_id (some g) = if g.tenant_id == tenant_id then some g else none

-- Of a customer's session, the customer is there and active.
abbrev active_customer : Option Customer → Bool
active_customer none = false
active_customer (some c) = c.is_active

abbrev pub customer_present : Option Uuid → Db → Bool
customer_present none db = true
customer_present (some i) db = active_customer (find (λ c. c.id == i) db.customers)

abbrev pub decoded : Decoded → Result Claims
decoded (valid c) = ok c
decoded expired = err token_expired
decoded invalid = err token_invalid

abbrev pub check : Bool → Result (Unit {0})
check b = if b then ok tt else err access_revoked

abbrev pub of_type : TokenType → Claims → Result (Unit {0})
of_type expected c = if same_token_type c.token_type expected then ok tt else err wrong_token_type

unfoldable pub build_context : TokenType → Claims → Db → Result TenantContext
build_context expected_type c db = and_then (of_type expected_type c) λ _.
    and_then (required (current_user c db (find (λ u. u.id == c.sub) db.users)) access_revoked) λ u.
      and_then (one_or_none (select (is_membership u.id c.tenant_id c.customer_id) db.memberships))
        λ members. and_then (required (active_membership members) access_revoked) λ m.
          and_then
            (required (group_of c.tenant_id (find (λ g. g.id == m.security_group_id) db.groups))
              access_revoked)
            λ group. and_then (check (is_some (find (λ t. t.id == c.tenant_id) db.tenants))) λ _.
              and_then (check (customer_present c.customer_id db)) λ _. ok (context c u m group db)

unfoldable pub decode_and_build_context :
    {Token : Type 0} → Jwt Token → AuthEnv → TokenType → Token → Db → Result TenantContext
decode_and_build_context jwt env expected_type token db =
    and_then (decoded (jwt.decode env.now token)) λ c. build_context expected_type c db
