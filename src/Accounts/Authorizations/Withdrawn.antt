-- ===== src/Accounts/Authorizations/Withdrawn.antt =====
-- A revoked authorization authorizes nothing.
use pos_pay.Base.{
  Bool, true, false, Option, some, List, [], ◌∷◌, ◌≡◌, inl, inr, arith, Bool-cases, Option-cases,
  select, update, All, ◌==◌, ◌&&◌, find, find-passes, ==→eq,
}
use pos_pay.Store.Rows.{Uuid, AchAuthorizationRule, AchTransaction}
use pos_pay.Store.Db.{Db}
use pos_pay.Store.Exec.{ok}
use pos_pay.Store.Scope
use pos_pay.Store.Scope.{Repository}
use pos_pay.Store.Columns.{authorization_columns}
use pos_pay.Ach.Adapter.{is_rule_for, not_expired, find_candidate_authorizations}
use pos_pay.Accounts.Authorizations.{revoked, revoke_ach_authorization}

-- No rule that the query keeps is one that was revoked.
revoked_not_kept :
    (t : AchTransaction) (i : Uuid) (rules : List AchAuthorizationRule)
    → All
        (λ r. (r.id == i) ≡ false)
        (select
          (λ r. not_expired r.expiration_date t.effective_date)
          (select (is_rule_for t) (update (λ r. r.id == i) revoked rules)))
revoked_not_kept t i [] = tt
revoked_not_kept t i (r ∷ rules) = elim (Bool-cases (r.id == i)) [
  | inl e ↦ rw e (ground (arith, revoked_not_kept t i rules))
  | inr e ↦ rw e (ground (arith, e, revoked_not_kept t i rules))
]

abbrev is_found : Uuid → Uuid → Option Uuid → AchAuthorizationRule → Bool
is_found tenant_id rule_id customer_id row =
    Scope.in_scope authorization_columns
      (record { tenant_id = tenant_id; customer_id = customer_id }) row
    && row.id == rule_id

abbrev found_rule : Uuid → Uuid → Option Uuid → Db → Option AchAuthorizationRule
found_rule tenant_id rule_id customer_id db =
    find (is_found tenant_id rule_id customer_id) db.authorizations

-- A revoked authorization authorizes nothing: where `revoke_ach_authorization` has returned a
-- rule, no entry has the rule of that id among the candidates that the adapter finds on the tables
-- after it, whatever its account, originator and date.
pub revoked_no_candidate :
    (tenant_id rule_id : Uuid) (scoped_customer_id : Option Uuid) (db : Db)
    (rule : AchAuthorizationRule)
    → (revoke_ach_authorization tenant_id rule_id scoped_customer_id db).0 ≡ ok (some rule)
    → (t : AchTransaction)
    → All
        (λ r. (r.id == rule_id) ≡ false)
        (find_candidate_authorizations t
          (revoke_ach_authorization tenant_id rule_id scoped_customer_id db).1)
unfolding revoke_ach_authorization find_candidate_authorizations Scope.get
revoked_no_candidate tenant_id rule_id scoped_customer_id db rule h t =
    elim (Option-cases (found_rule tenant_id rule_id scoped_customer_id db)) [
      | inl e ↦ absurd (cc (rw e at h))
      | inr (r, e) ↦
          let this : (r.id == rule_id) ≡ true = ground (
            arith,
            find-passes (is_found tenant_id rule_id scoped_customer_id) db.authorizations e,
          ) in
          rw e (rw (==→eq r.id rule_id this) (revoked_not_kept t rule_id db.authorizations))
    ]
