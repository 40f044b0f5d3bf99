-- ===== src/Review/Record.antt =====
-- The steps that services/decision_service.py::decide and
-- services/auto_disposition_service.py::auto_decide_exception share: the decision's row, the
-- exception's final status, and the settlement of a returned ACH entry.
pub mod Effect
use pos_pay.Base.{
  ℕ, String, Bool, true, false, ◌&&◌, Option, none, some, List, [], ◌∷◌, ◌++◌, ◌==◌, if◌then◌else◌,
  find, update, any, str_eq,
}
use pos_pay.Store.Rows.{
  Uuid, ExceptionItem, ExceptionStatus, Decision, DecisionOutcome, DecisionSource, ReasonText,
  AchTransaction, AchSettlementStatus,
}
use pos_pay.Store.Db.{Db, Env, Features}
use pos_pay.Store.Exec.{
  Exec, ok, err, pure, raise_if, new_uuid, gets, reads, modify, integrity_error, ◌>>=◌, ◌>>◌,
}
use pos_pay.Networks.{Adapter, get_adapter, build_features, load_ach_source_item}

abbrev pub is_return : DecisionOutcome → Bool
is_return DecisionOutcome.return = true
is_return DecisionOutcome.pay = false

abbrev pub status_for : DecisionOutcome → ExceptionStatus
status_for DecisionOutcome.pay = ExceptionStatus.pay
status_for DecisionOutcome.return = ExceptionStatus.return

-- What the two callers put into the row.
pub record Verdict : Type 0 where
  pub outcome : DecisionOutcome
  pub reason_code : ReasonText
  pub return_transaction_code : Option String
  pub notes : Option String
  pub submitted_by_user_id : Option Uuid
  pub decided_by_user_id : Option Uuid
  pub source : DecisionSource

abbrev pub decision_row : Uuid → ExceptionItem → Verdict → Features → Decision Features
decision_row i e v features = record {
  id = i;
  tenant_id = e.tenant_id;
  exception_item_id = e.id;
  outcome = v.outcome;
  reason_code = v.reason_code;
  return_transaction_code = v.return_transaction_code;
  notes = v.notes;
  submitted_by_user_id = v.submitted_by_user_id;
  decided_by_user_id = v.decided_by_user_id;
  source = v.source;
  features_json = features;
}

abbrev pub set_status : Uuid → ExceptionStatus → Db → Db
set_status i status db = record db {
  exceptions = update (λ x. x.id == i) (λ x. record x { status = status }) db.exceptions;
}

abbrev pub set_returned : Uuid → Db → Db
set_returned i db = record db {
  transactions =
      update (λ t. t.id == i) (λ t. record t { settlement_status = AchSettlementStatus.returned })
        db.transactions;
}

abbrev pub settle_found : Option AchTransaction → Db → Db
settle_found none db = db
settle_found (some t) db = set_returned t.id db

-- `if outcome == RETURN and network_code == "ach"`: the entry behind the exception is returned.
unfoldable pub settle_return : Adapter → ExceptionItem → DecisionOutcome → Db → Db
settle_return adapter e outcome db =
    if is_return outcome && str_eq e.network_code "ach"
    then settle_found (load_ach_source_item adapter e.source_item_id db) db
    else db

-- The unique constraint on `decision.exception_item_id`, which the flush enforces.
abbrev pub is_decided : Uuid → Db → Bool
is_decided i db = any (λ d. d.exception_item_id == i) db.decisions

unfoldable pub record_decision : Env → ExceptionItem → Verdict → Exec (Decision Features)
record_decision env e v = do
  adapter ← reads (λ _. get_adapter e.network_code)
  features ← reads (build_features env adapter e)
  i ← new_uuid
  decided ← gets (is_decided e.id)
  raise_if decided integrity_error
  modify (λ db. record db { decisions = db.decisions ++ decision_row i e v features ∷ [] })
  modify (set_status e.id (status_for v.outcome))
  modify (settle_return adapter e v.outcome)
  pure (decision_row i e v features)
