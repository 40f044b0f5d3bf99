-- ===== src/Check/Ingestion/Outcome.antt =====
-- What becomes of a presented check: settled against the item issued for it, or put up for review.
use pos_pay.Base.{
  ◌+◌, ◌≡◌, refl, ◌∙◌, ap, Bool, true, false, inl, inr, Option, none, some, [], ◌∷◌, ◌++◌, ◌==◌,
  map, arith, update,
}
use pos_pay.Store.Rows.{Uuid, Account, PaidItem, ExceptionItem}
use pos_pay.Store.Db.{Db, Env}
use pos_pay.Store.Exec.{Exec, Result, ok, err, Result-cases, account_not_found}
use pos_pay.Store.Match.{MatchResult}
use pos_pay.Scoring.{score_exception}
use pos_pay.Notify.{notify_exception_created}
use pos_pay.Scoring.Frame.{unscored}
use pos_pay.Scoring.FollowUp.{answer_after, follow_up-IsFollowedUp}
use pos_pay.Review.Disposition.{compute_decision_deadline}
use pos_pay.Review.Disposition.Settings.{compute_decision_deadline_lem}
use pos_pay.Check.Adapter.{evaluate}
use pos_pay.Check.Ingestion.{
  PaidItemSubmission, find_account, new_paid_item, put_paid_item, unmatched, new_exception, settle,
  open_exception, ingest_paid_item,
}

-- The row that is written, and the tables when the adapter judges it.
abbrev pub presented : Uuid → Account → PaidItemSubmission → Db → PaidItem
presented tenant_id account s db = new_paid_item db.next_id tenant_id account s

abbrev pub inserted : PaidItem → Db → Db
inserted p db = record db { paid_items = db.paid_items ++ p ∷ []; next_id = db.next_id + 1 }

abbrev pub act : Env → PaidItem → MatchResult → Bool → Exec PaidItem
act env p result true = settle p result
act env p result false = open_exception env p result

abbrev pub judged : Env → PaidItem → Db → Result MatchResult → Result PaidItem × Db
judged env p db (err e) = (err e, db)
judged env p db (ok result) = act env p result result.matched db

module _ (env : Env) (tenant_id : Uuid) (scope : Option Uuid) (s : PaidItemSubmission)
    (db : Db) where
  pub ingest_known :
      {account : Account}
      → find_account tenant_id scope s.account_id db ≡ some account
      → let p = presented tenant_id account s db in
        ingest_paid_item env tenant_id scope s db
        ≡ judged env p (inserted p db) (evaluate env p (inserted p db))
  unfolding ingest_paid_item
  ingest_known {account} found =
      let p = presented tenant_id account s db in
      elim (Result-cases (evaluate env p (inserted p db))) [
        | inl (r, e) ↦ ground arith
        | inr (x, e) ↦ ground arith
      ]

  -- A submission for an account outside the caller's tenant and scope is refused, and writes nothing.
  pub ingest_unknown_account :
      find_account tenant_id scope s.account_id db ≡ none
      → ingest_paid_item env tenant_id scope s db ≡ (err account_not_found, db)
  unfolding ingest_paid_item
  ingest_unknown_account missing = ground arith

-- The exception that is opened when a payment is not matched.
abbrev pub opened : Env → PaidItem → MatchResult → Db → ExceptionItem
opened env p result db =
    new_exception db.next_id p result
      (compute_decision_deadline env p.tenant_id p.customer_id "check" db)

abbrev pub with_exception : PaidItem → ExceptionItem → MatchResult → Db → Db
with_exception p e result db =
    let db' = put_paid_item (unmatched p result.related_reference_id) db in
    record db' { exceptions = db.exceptions ++ e ∷ []; next_id = db.next_id + 1 }

-- The exception, and the tables, when scoring begins.
abbrev pub to_score : Env → PaidItem → MatchResult → Db → ExceptionItem
to_score env p result db =
    opened env p result (put_paid_item (unmatched p result.related_reference_id) db)

abbrev pub when_scored : Env → PaidItem → MatchResult → Db → Db
when_scored env p result db = with_exception p (to_score env p result db) result db

-- How the call ends: with the row, or as scoring or notifying does where one of them raises.
abbrev pub answer : Env → PaidItem → MatchResult → Db → Result PaidItem
answer env p result db =
    let scored = score_exception env (to_score env p result db) (when_scored env p result db) in
    answer_after scored.0 (notify_exception_created (to_score env p result db) scored.1).0
      (unmatched p result.related_reference_id)

pub record IsPutUp (env : Env) (p : PaidItem) (result : MatchResult) (db db' : Db) : Type 0 where
  pub rest : db' ≡ record db {
    paid_items =
        update (λ x. x.id == p.id) (λ _. unmatched p result.related_reference_id) db.paid_items;
    exceptions = db'.exceptions;
    notifications = db'.notifications;
    model_cache = db'.model_cache;
    next_id = db.next_id + 1;
  }
  pub exceptions :
      map unscored db'.exceptions ≡ map unscored (db.exceptions ++ opened env p result db ∷ [])

pub open_exception-IsPutUp :
    (env : Env) (p : PaidItem) (result : MatchResult) (db : Db)
    → IsPutUp env p result db (open_exception env p result db).1
unfolding open_exception
open_exception-IsPutUp env p result db =
    let e = opened env p result (put_paid_item (unmatched p result.related_reference_id) db) in
    let db1 = with_exception p e result db in
    let after = follow_up-IsFollowedUp env e (unmatched p result.related_reference_id) db1 in
    record {
      rest = ground (arith, after.rest);
      exceptions =
          after.exceptions
          ∙ ap (λ d. map unscored (db.exceptions ++ new_exception db.next_id p result d ∷ []))
              (compute_decision_deadline_lem env p.tenant_id p.customer_id "check" db _ refl);
    }
