-- ===== src/Tests/AccountRuns.antt =====
-- Accounts found by number, and a revoked authorization, on concrete tables.
use pos_pay.Base.{false, ◌≡◌, refl, some, All, ◌==◌}
use pos_pay.Store.Rows.{Account, AchAuthorizationRule}
use pos_pay.Store.Exec.{ok}
use pos_pay.Store.Scope
use pos_pay.Ach.Adapter.{find_candidate_authorizations}
use pos_pay.Accounts.Numbers.{
  new_account, missing_account, create_account, get_account_by_number,
  get_or_create_account_by_number,
}
use pos_pay.Accounts.Numbers.Lookup.{returned_is_found}
use pos_pay.Accounts.Authorizations.{revoked, revoke_ach_authorization}
use pos_pay.Accounts.Authorizations.Withdrawn.{revoked_no_candidate}
use pos_pay.Tests.Data.{bank, utility_rule}
use pos_pay.Tests.AchRuns.{entry}

-- No account has this number: it is created for the customer of the upload.
abbrev created : Account
created = new_account bank.next_id 1 (missing_account "4001" (some "") (some 5))

created_run : (get_or_create_account_by_number 1 "4001" (some "") (some 5) bank).0 ≡ ok created
unfolding get_or_create_account_by_number get_account_by_number create_account Scope.list
    Scope.filtered_query Scope.in_scope Scope.stamped
created_run = refl

returned_is_found_example :
    get_account_by_number 1 "4001"
      (some 5)
      (get_or_create_account_by_number 1 "4001" (some "") (some 5) bank).1
    ≡ some created
returned_is_found_example = returned_is_found 1 "4001" (some "") (some 5) bank created created_run

revoked_run : (revoke_ach_authorization 1 30 (some 5) bank).0 ≡ ok (some (revoked utility_rule))
unfolding revoke_ach_authorization Scope.get Scope.in_scope
revoked_run = refl

revoked_no_candidate_example :
    All
      (λ (r : AchAuthorizationRule). (r.id == 30) ≡ false)
      (find_candidate_authorizations entry (revoke_ach_authorization 1 30 (some 5) bank).1)
revoked_no_candidate_example =
    revoked_no_candidate 1 30 (some 5) bank (revoked utility_rule) revoked_run entry
