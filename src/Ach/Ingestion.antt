-- ===== src/Ach/Ingestion.antt =====
-- networks/ach/ingestion.py: an ACH entry is stored, matched, and settled or put up for review.
pub mod Outcome
pub mod Authorized
pub mod Traces
pub mod Bulk
use pos_pay.Base.{
  ℕ, suc, ℤ, String, Bool, true, false, ◌&&◌, Option, none, some, List, [], ◌∷◌, ◌++◌, ◌==◌,
  if◌then◌else◌, find, update, any, str_eq,
}
use pos_pay.Store.Rows.{
  Uuid, Account, AchTransaction, AchTransactionType, AchSettlementStatus, MatchStatus, ItemSource,
  ExceptionItem, ExceptionStatus,
}
use pos_pay.Store.Db.{Db, Env}
use pos_pay.Store.Exec.{
  Exec, Result, ok, err, Error, Session, in_transaction, pure, gets, reads, modify, raise_if,
  new_uuid, or_raise, account_not_found, integrity_error, ◌>>=◌, ◌>>◌,
}
use pos_pay.Store.Match.{MatchResult}
use pos_pay.Store.Scope
use pos_pay.Store.Columns.{account_columns}
use pos_pay.Scoring.{score_exception}
use pos_pay.Notify.{notify_exception_created}
use pos_pay.Review.Disposition.{compute_decision_deadline}
use pos_pay.Ach.Adapter.{evaluate}

pub record AchTransactionSubmission : Type 0 where
  pub account_id : Uuid
  pub originator_id : String
  pub originator_name : String
  pub amount : ℤ
  pub transaction_type : AchTransactionType
  pub sec_code : String
  pub trace_number : String
  pub effective_date : ℕ
  pub receiver_id : Option String
  pub source : ItemSource

unfoldable pub find_account : Uuid → Option Uuid → Uuid → Db → Option Account
find_account tenant_id customer_id i db =
    Scope.get account_columns (record { tenant_id = tenant_id; customer_id = customer_id }) i
      db.accounts

abbrev pub new_transaction : Uuid → Uuid → Account → AchTransactionSubmission → AchTransaction
new_transaction i tenant_id account s = record {
  id = i;
  tenant_id = tenant_id;
  account_id = s.account_id;
  customer_id = account.customer_id;
  originator_id = s.originator_id;
  originator_name = s.originator_name;
  receiver_id = s.receiver_id;
  amount = s.amount;
  transaction_type = s.transaction_type;
  sec_code = s.sec_code;
  trace_number = s.trace_number;
  effective_date = s.effective_date;
  match_status = MatchStatus.pending;
  settlement_status = AchSettlementStatus.pending;
  source = s.source;
}

-- The unique constraint on (tenant_id, trace_number), which the flush enforces.
abbrev pub is_trace_taken : Uuid → String → Db → Bool
is_trace_taken tenant_id trace db =
    any (λ t. t.tenant_id == tenant_id && str_eq t.trace_number trace) db.transactions

abbrev pub put_transaction : AchTransaction → Db → Db
put_transaction t db = record db {
  transactions = update (λ x. x.id == t.id) (λ _. t) db.transactions;
}

abbrev pub settled : AchTransaction → AchTransaction
settled t = record t {
  match_status = MatchStatus.matched;
  settlement_status = AchSettlementStatus.paid;
}

abbrev pub unmatched : AchTransaction → AchTransaction
unmatched t = record t { match_status = MatchStatus.exception }

abbrev pub new_exception : Uuid → AchTransaction → MatchResult → Option ℕ → ExceptionItem
new_exception i t result deadline = record {
  id = i;
  tenant_id = t.tenant_id;
  network_code = "ach";
  customer_id = t.customer_id;
  source_item_id = t.id;
  related_reference_id = result.related_reference_id;
  exception_types = result.exception_types;
  status = ExceptionStatus.open_;
  ml_score = none;
  ml_model_version = none;
  recommended_outcome = none;
  recommended_reason_code = none;
  recommended_return_transaction_code = none;
  recommended_notes = none;
  recommended_ach_return_reason_id = none;
  recommended_by_user_id = none;
  decision_deadline = deadline;
}

unfoldable pub settle : AchTransaction → Exec AchTransaction
settle t = do modify (put_transaction (settled t)); pure (settled t)

unfoldable pub open_exception : Env → AchTransaction → MatchResult → Exec AchTransaction
open_exception env t result = do
  modify (put_transaction (unmatched t))
  deadline ← gets (compute_decision_deadline env t.tenant_id t.customer_id "ach")
  i ← new_uuid
  let e = new_exception i t result deadline
  modify (λ db. record db { exceptions = db.exceptions ++ e ∷ [] })
  score_exception env e
  notify_exception_created e
  pure (unmatched t)

unfoldable pub ingest_ach_transaction :
    Env → Uuid → Option Uuid → AchTransactionSubmission → Exec AchTransaction
ingest_ach_transaction env tenant_id scoped_customer_id s = do
  found ← gets (find_account tenant_id scoped_customer_id s.account_id)
  account ← or_raise found account_not_found
  i ← new_uuid
  let t = new_transaction i tenant_id account s
  taken ← gets (is_trace_taken tenant_id s.trace_number)
  raise_if taken integrity_error
  modify (λ db. record db { transactions = db.transactions ++ t ∷ [] })
  result ← reads (evaluate t)
  if result.matched then settle t else open_exception env t result

pub record BulkRowResult : Type 0 where
  pub index : ℕ
  pub outcome : Result (Uuid × MatchStatus)

abbrev pub row_outcome : Result AchTransaction → Result (Uuid × MatchStatus)
row_outcome (ok t) = ok (t.id, t.match_status)
row_outcome (err e) = err e

unfoldable pub ingest_from :
    Env
    → Uuid
    → Option Uuid
    → ℕ
    → List AchTransactionSubmission
    → Session
    → List BulkRowResult × Session
ingest_from env tenant_id scoped_customer_id index [] session = ([], session)
ingest_from env tenant_id scoped_customer_id index (s ∷ rest) session =
    let (r, session') =
      in_transaction (ingest_ach_transaction env tenant_id scoped_customer_id s) session in
    let (results, final) = ingest_from env tenant_id scoped_customer_id (suc index) rest session' in
    (record { index = index; outcome = row_outcome r } ∷ results, final)

unfoldable pub ingest_ach_transactions_bulk :
    Env
    → Uuid
    → Option Uuid
    → List AchTransactionSubmission
    → Session
    → List BulkRowResult × Session
ingest_ach_transactions_bulk env tenant_id scoped_customer_id =
    ingest_from env tenant_id scoped_customer_id 0
