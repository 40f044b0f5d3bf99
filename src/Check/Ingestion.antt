-- ===== src/Check/Ingestion.antt =====
-- networks/check/ingestion.py: a presented check is stored, matched, and settled or put up for
-- review.
pub mod Outcome
pub mod Settled
pub mod Cleared
pub mod Duplicates
use pos_pay.Base.{
  ℕ, ◌+◌, ℤ, suc, String, Bool, true, false, Option, none, some, List, [], ◌∷◌, ◌++◌, ◌==◌,
  if◌then◌else◌, find, update,
}
use pos_pay.Store.Rows.{
  Uuid, Account, IssuedItem, IssuedItemStatus, PaidItem, PaidItemSettlementStatus, MatchStatus,
  ItemSource, ExceptionItem, ExceptionStatus,
}
use pos_pay.Store.Db.{Db, Env}
use pos_pay.Store.Exec.{
  Exec, Result, ok, err, Error, Session, in_transaction, pure, gets, reads, modify, new_uuid,
  required, or_raise, no_row, account_not_found, ◌>>=◌, ◌>>◌,
}
use pos_pay.Store.Match.{MatchResult}
use pos_pay.Store.Scope
use pos_pay.Store.Columns.{account_columns}
use pos_pay.Scoring.{score_exception}
use pos_pay.Notify.{notify_exception_created}
use pos_pay.Review.Disposition.{compute_decision_deadline}
use pos_pay.Check.Adapter.{evaluate}

pub record PaidItemSubmission : Type 0 where
  pub account_id : Uuid
  pub check_number : String
  pub presented_amount : ℤ
  pub presented_date : ℕ
  pub source : ItemSource

-- `AccountRepository(session, tenant_id, scoped_customer_id).get(account_id)`
unfoldable pub find_account : Uuid → Option Uuid → Uuid → Db → Option Account
find_account tenant_id customer_id i db =
    Scope.get account_columns (record { tenant_id = tenant_id; customer_id = customer_id }) i
      db.accounts

abbrev pub new_paid_item : Uuid → Uuid → Account → PaidItemSubmission → PaidItem
new_paid_item i tenant_id account s = record {
  id = i;
  tenant_id = tenant_id;
  account_id = s.account_id;
  customer_id = account.customer_id;
  check_number = s.check_number;
  presented_amount = s.presented_amount;
  presented_date = s.presented_date;
  matched_issued_item_id = none;
  match_status = MatchStatus.pending;
  settlement_status = PaidItemSettlementStatus.pending;
  source = s.source;
}

abbrev pub put_paid_item : PaidItem → Db → Db
put_paid_item p db = record db { paid_items = update (λ x. x.id == p.id) (λ _. p) db.paid_items }

abbrev pub set_issued_paid : Uuid → Db → Db
set_issued_paid i db = record db {
  issued_items =
      update (λ x. x.id == i) (λ x. record x { status = IssuedItemStatus.paid }) db.issued_items;
}

-- `session.get(IssuedItem, …).status = PAID`, where the match has a reference.
abbrev pay_related : Option Uuid → Exec (Unit {0})
pay_related none = pure tt
pay_related (some i) = do
  reads (λ db. required (find (λ x. x.id == i) db.issued_items) no_row)
  modify (set_issued_paid i)

abbrev pub settled : PaidItem → Option Uuid → PaidItem
settled p related = record p {
  matched_issued_item_id = related;
  match_status = MatchStatus.matched;
  settlement_status = PaidItemSettlementStatus.paid;
}

abbrev pub unmatched : PaidItem → Option Uuid → PaidItem
unmatched p related = record p {
  matched_issued_item_id = related;
  match_status = MatchStatus.exception;
}

abbrev pub new_exception : Uuid → PaidItem → MatchResult → Option ℕ → ExceptionItem
new_exception i p result deadline = record {
  id = i;
  tenant_id = p.tenant_id;
  network_code = "check";
  customer_id = p.customer_id;
  source_item_id = p.id;
  related_reference_id = result.related_reference_id;
  exception_types = result.exception_types;
  status = ExceptionStatus.open_;
  ml_score = none;
  ml_model_version = none;
  recommended_outcome = none;
  recommended_reason_code = none;
  recommended_return_transaction_code = none;
  recommended_notes = none;
  recommended_ach_return_reason_id = none;
  recommended_by_user_id = none;
  decision_deadline = deadline;
}

unfoldable pub settle : PaidItem → MatchResult → Exec PaidItem
settle p result = do
  modify (put_paid_item (settled p result.related_reference_id))
  pay_related result.related_reference_id
  pure (settled p result.related_reference_id)

unfoldable pub open_exception : Env → PaidItem → MatchResult → Exec PaidItem
open_exception env p result = do
  modify (put_paid_item (unmatched p result.related_reference_id))
  deadline ← gets (compute_decision_deadline env p.tenant_id p.customer_id "check")
  i ← new_uuid
  let e = new_exception i p result deadline
  modify (λ db. record db { exceptions = db.exceptions ++ e ∷ [] })
  score_exception env e
  notify_exception_created e
  pure (unmatched p result.related_reference_id)

unfoldable pub ingest_paid_item : Env → Uuid → Option Uuid → PaidItemSubmission → Exec PaidItem
ingest_paid_item env tenant_id scoped_customer_id s = do
  found ← gets (find_account tenant_id scoped_customer_id s.account_id)
  account ← or_raise found account_not_found
  i ← new_uuid
  let p = new_paid_item i tenant_id account s
  modify (λ db. record db { paid_items = db.paid_items ++ p ∷ [] })
  result ← reads (evaluate env p)
  if result.matched then settle p result else open_exception env p result

pub record BulkRowResult : Type 0 where
  pub index : ℕ
  pub outcome : Result (Uuid × MatchStatus)

abbrev row_outcome : Result PaidItem → Result (Uuid × MatchStatus)
row_outcome (ok p) = ok (p.id, p.match_status)
row_outcome (err e) = err e

unfoldable pub ingest_from :
    Env → Uuid → Option Uuid → ℕ → List PaidItemSubmission → Session → List BulkRowResult × Session
ingest_from env tenant_id scoped_customer_id index [] session = ([], session)
ingest_from env tenant_id scoped_customer_id index (s ∷ rest) session =
    let (r, session') =
      in_transaction (ingest_paid_item env tenant_id scoped_customer_id s) session in
    let (results, final) = ingest_from env tenant_id scoped_customer_id (suc index) rest session' in
    (record { index = index; outcome = row_outcome r } ∷ results, final)

unfoldable pub ingest_paid_items_bulk :
    Env → Uuid → Option Uuid → List PaidItemSubmission → Session → List BulkRowResult × Session
ingest_paid_items_bulk env tenant_id scoped_customer_id =
    ingest_from env tenant_id scoped_customer_id 0
