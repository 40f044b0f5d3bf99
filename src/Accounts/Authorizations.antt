-- ===== src/Accounts/Authorizations.antt =====
-- services/ach_authorization_service.py: authorizations are created, revoked and listed.
pub mod Withdrawn
use pos_pay.Base.{
  ℕ, ℤ, String, Bool, true, false, Option, none, some, List, [], ◌∷◌, ◌++◌, ◌==◌, update,
}
use pos_pay.Store.Rows.{Uuid, Account, AchAuthorizationRule, AchAuthorizationStatus}
use pos_pay.Store.Db.{Db}
use pos_pay.Store.Exec.{
  Exec, ok, err, pure, gets, modify, new_uuid, or_raise, account_not_found, ◌>>=◌, ◌>>◌,
}
use pos_pay.Store.Scope
use pos_pay.Store.Scope.{Repository, tenant_wide}
use pos_pay.Store.Columns.{account_columns, authorization_columns}

pub record AchAuthorizationInput : Type 0 where
  pub account_id : Uuid
  pub originator_id : String
  pub originator_name : String
  pub receiver_id : Option String
  pub max_amount : Option ℤ
  pub frequency_limit : Option ℤ
  pub allowed_sec_codes : Option (List String)
  pub effective_date : ℕ
  pub expiration_date : Option ℕ

abbrev pub new_rule :
    Uuid → Uuid → Account → AchAuthorizationInput → Option Uuid → AchAuthorizationRule
new_rule i tenant_id account data_ created_by =
    Scope.stamped authorization_columns (tenant_wide tenant_id) (record {
      id = i;
      tenant_id = tenant_id;
      account_id = data_.account_id;
      customer_id = account.customer_id;
      originator_id = data_.originator_id;
      originator_name = data_.originator_name;
      receiver_id = data_.receiver_id;
      status = AchAuthorizationStatus.active;
      max_amount = data_.max_amount;
      frequency_limit = data_.frequency_limit;
      allowed_sec_codes = data_.allowed_sec_codes;
      effective_date = data_.effective_date;
      expiration_date = data_.expiration_date;
      created_by_user_id = created_by;
    })

unfoldable pub create_ach_authorization :
    Uuid → AchAuthorizationInput → Option Uuid → Option Uuid → Exec AchAuthorizationRule
create_ach_authorization tenant_id data_ created_by scoped_customer_id = do
  found ← gets (λ db.
      Scope.get account_columns (record { tenant_id = tenant_id; customer_id = scoped_customer_id })
        data_.account_id db.accounts)
  account ← or_raise found account_not_found
  i ← new_uuid
  let rule = new_rule i tenant_id account data_ created_by
  modify (λ db. record db { authorizations = db.authorizations ++ rule ∷ [] })
  pure rule

abbrev pub revoked : AchAuthorizationRule → AchAuthorizationRule
revoked rule = record rule { status = AchAuthorizationStatus.revoked }

abbrev pub revoke_found : Option AchAuthorizationRule → Exec (Option AchAuthorizationRule)
revoke_found none = pure none
revoke_found (some rule) = do
  modify (λ db. record db {
    authorizations = update (λ row. row.id == rule.id) revoked db.authorizations;
  })
  pure (some (revoked rule))

unfoldable pub revoke_ach_authorization :
    Uuid → Uuid → Option Uuid → Exec (Option AchAuthorizationRule)
revoke_ach_authorization tenant_id rule_id scoped_customer_id = do
  found ← gets (λ db.
      Scope.get authorization_columns
        (record { tenant_id = tenant_id; customer_id = scoped_customer_id }) rule_id
        db.authorizations)
  revoke_found found

abbrev pub has_status : AchAuthorizationStatus → AchAuthorizationRule → Bool
has_status AchAuthorizationStatus.active rule = elim rule.status [
  | AchAuthorizationStatus.active ↦ true
  | AchAuthorizationStatus.revoked ↦ false
]
has_status AchAuthorizationStatus.revoked rule = elim rule.status [
  | AchAuthorizationStatus.active ↦ false
  | AchAuthorizationStatus.revoked ↦ true
]

abbrev pub status_filter : Option AchAuthorizationStatus → Option (AchAuthorizationRule → Bool)
status_filter none = none
status_filter (some status) = some (has_status status)

unfoldable pub list_ach_authorizations :
    Uuid
    → Option AchAuthorizationStatus
    → Option Uuid
    → Option ℕ
    → Option ℕ
    → (List AchAuthorizationRule → List AchAuthorizationRule)
    → Db
    → List AchAuthorizationRule
list_ach_authorizations tenant_id status customer_id limit offset order db =
    Scope.list authorization_columns (record { tenant_id = tenant_id; customer_id = customer_id })
      limit offset order (status_filter status ∷ []) db.authorizations
