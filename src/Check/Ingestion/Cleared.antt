-- ===== src/Check/Ingestion/Cleared.antt =====
-- A check that was paid did clear: nothing else is ever paid.
use pos_pay.Base.{
  ◌≡◌, refl, sym, subst, ◌∙◌, ap, true, inl, inr, Option, none, some, List, [], ◌∷◌, ◌==◌, arith,
  Bool-cases, Option-cases, find, select,
}
use pos_pay.Store.Rows.{Uuid, Tenant, Account, IssuedItem, PaidItem, PaidItemSettlementStatus}
use pos_pay.Store.Db.{Db, Env}
use pos_pay.Store.Exec.{ok, Result-cases, one_or_none}
use pos_pay.Store.Match.{is_empty_nil, MatchResult, is_empty}
use pos_pay.Check.Rules.{evaluate_check_rules}
use pos_pay.Check.Rules.Exact.{Agrees, matched_iff}
use pos_pay.Check.Adapter.{
  snapshot, is_issued_for, find_candidate_issued_item, match_inputs, evaluate,
}
use pos_pay.Check.Ingestion.{
  PaidItemSubmission, find_account, put_paid_item, unmatched, open_exception, ingest_paid_item,
}
use pos_pay.Scoring.{score_exception}
use pos_pay.Scoring.FollowUp.{follow_up-result}
use pos_pay.Notify.{notify_exception_created}
use pos_pay.Check.Ingestion.Outcome.{
  presented, opened, inserted, judged, act, ingest_known, ingest_unknown_account,
}
use pos_pay.Check.Ingestion.Settled.{Clears, match_inputs-inserted}

one_or_none-some : {A : Type 0} (xs : List A) {a : A} → one_or_none xs ≡ ok (some a) → xs ≡ a ∷ []
one_or_none-some [] h = cc
one_or_none-some (x ∷ []) h = ground arith
one_or_none-some (x ∷ y ∷ xs) h = cc

-- What `evaluate` returns, once the candidate and the tenant are known.
evaluate_known :
    (env : Env) (p : PaidItem) (db : Db) {candidate : Option IssuedItem} {tenant : Tenant}
    {r : MatchResult}
    → find_candidate_issued_item p db ≡ ok candidate
    → find (λ t. t.id == p.tenant_id) db.tenants ≡ some tenant
    → evaluate env p db ≡ ok r
    → is_empty (evaluate_check_rules env.token_set_ratio (match_inputs env p tenant candidate db)).0
      ≡ r.matched
unfolding evaluate
evaluate_known env p db got tenant_found h = ground arith

Clears-of_matched :
    (env : Env) (p : PaidItem) (db : Db) (candidate : Option IssuedItem) (tenant : Tenant)
    → find_candidate_issued_item p db ≡ ok candidate
    → find (λ t. t.id == p.tenant_id) db.tenants ≡ some tenant
    → (evaluate_check_rules env.token_set_ratio (match_inputs env p tenant candidate db)).0 ≡ []
    → (item : IssuedItem) × Clears env p item db
unfolding match_inputs find_candidate_issued_item
Clears-of_matched env p db none tenant got tenant_found no_exceptions =
    let inputs = match_inputs env p tenant none db in
    let (once, unstopped, (c, on_file, agrees)) =
      (matched_iff env.token_set_ratio inputs).0 no_exceptions in
    absurd (ground arith)
Clears-of_matched env p db (some item) tenant got tenant_found no_exceptions =
    let inputs = match_inputs env p tenant (some item) db in
    let (once, unstopped, (c, on_file, agrees)) =
      (matched_iff env.token_set_ratio inputs).0 no_exceptions in
    let same : c ≡ snapshot item = cc in
    (
      item,
      record {
        tenant = tenant;
        tenant_found = tenant_found;
        on_file = one_or_none-some (select (is_issued_for p) db.issued_items) got;
        once = once;
        unstopped = ground arith;
        agrees = subst (λ c. Agrees env.token_set_ratio inputs c) same agrees;
      },
    )

matched-Clears :
    (env : Env) (p : PaidItem) (db : Db) {r : MatchResult}
    → evaluate env p (inserted p db) ≡ ok r
    → r.matched ≡ true
    → (item : IssuedItem) × Clears env p item db
unfolding evaluate find_candidate_issued_item
matched-Clears env p db {r} h matched = elim (Result-cases (find_candidate_issued_item p db)) [
  | inr (x, raised) ↦ ground arith
  | inl (candidate, got) ↦ elim (Option-cases (find (λ t. t.id == p.tenant_id) db.tenants)) [
    | inl missing ↦ ground arith
    | inr (tenant, tenant_found) ↦
        let rules = evaluate_known env p (inserted p db) got tenant_found h in
        Clears-of_matched env p db candidate tenant got tenant_found (
          is_empty_nil _ (
            ap (λ i. is_empty (evaluate_check_rules env.token_set_ratio i).0)
              (sym (match_inputs-inserted env p tenant candidate db))
            ∙ rules
            ∙ matched))
  ]
]

opened_ok :
    (env : Env) (p : PaidItem) (r : MatchResult) (db : Db) {q : PaidItem}
    → (open_exception env p r db).0 ≡ ok q
    → q ≡ unmatched p r.related_reference_id
unfolding open_exception
opened_ok env p r db h =
    follow_up-result
      (score_exception env (opened env p r (put_paid_item (unmatched p r.related_reference_id) db)))
      (notify_exception_created
        (opened env p r (put_paid_item (unmatched p r.related_reference_id) db)))
      _ _ h

paid_by_judgement :
    (env : Env) (p : PaidItem) (db : Db) {q : PaidItem} {r : MatchResult}
    → evaluate env p (inserted p db) ≡ ok r
    → (judged env p (inserted p db) (ok r)).0 ≡ ok q
    → p.settlement_status ≡ PaidItemSettlementStatus.pending
    → q.settlement_status ≡ PaidItemSettlementStatus.paid
    → r.matched ≡ true
paid_by_judgement env p db {q} {r} evaluated h pending paid = elim (Bool-cases r.matched) [
  | inl matched ↦ matched
  | inr not_matched ↦
      let same =
        opened_ok env p r (inserted p db)
          (ap (λ b. (act env p r b (inserted p db)).0) (sym not_matched) ∙ h) in
      ground arith
]

pub ingest_paid_only_if_Clears :
    (env : Env) (tenant_id : Uuid) (scope : Option Uuid) (s : PaidItemSubmission) (db : Db)
    {q : PaidItem}
    → (ingest_paid_item env tenant_id scope s db).0 ≡ ok q
    → q.settlement_status ≡ PaidItemSettlementStatus.paid
    → (account : Account) × (find_account tenant_id scope s.account_id db ≡ some account)
      × ((item : IssuedItem) × Clears env (presented tenant_id account s db) item db)
ingest_paid_only_if_Clears env tenant_id scope s db {q} h paid =
    elim (Option-cases (find_account tenant_id scope s.account_id db)) [
      | inl missing ↦
          let refused = ingest_unknown_account env tenant_id scope s db missing in ground arith
      | inr (account, known) ↦
          let p = presented tenant_id account s db in
          let steps = ingest_known env tenant_id scope s db known in
          let h' = ap (λ x. x.0) (sym steps) ∙ h in
          elim (Result-cases (evaluate env p (inserted p db))) [
            | inr (x, raised) ↦ ground arith
            | inl (r, evaluated) ↦
                let judgement = ap (λ x. (judged env p (inserted p db) x).0) (sym evaluated) ∙ h' in
                (
                  account,
                  known,
                  matched-Clears env p db evaluated
                      (paid_by_judgement env p db evaluated judgement refl paid),
                )
          ]
    ]
