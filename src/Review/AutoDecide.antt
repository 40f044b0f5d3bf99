-- ===== src/Review/AutoDecide.antt =====
-- services/auto_disposition_service.py::auto_decide_exception: the decision of an exception whose
-- deadline has passed.
pub mod Steps
pub mod Outcome
use pos_pay.Base.{
  ℕ, ◌^◌, String, Bool, true, false, ◌&&◌, Option, none, some, List, [], ◌∷◌, ◌==◌, leb,
  if◌then◌else◌, find, str_eq,
}
use pos_pay.Store.Rows.{
  Uuid, ExceptionItem, Decision, DecisionOutcome, DecisionSource, AchReturnReason, ReasonText,
  given, no_response_within, decided_by_score,
}
use pos_pay.Store.Db.{
  Db, Env, Features, DispositionMode, none_, fixed_pay, fixed_return, ml_determined,
  DispositionSetting,
}
use pos_pay.Store.Exec.{Exec, pure, gets, ◌>>=◌, ◌>>◌}
use pos_pay.Store.Scope
use pos_pay.Store.Scope.{tenant_wide}
use pos_pay.Store.Columns.{return_reason_columns}
use pos_pay.Scoring.{score_exception}
use pos_pay.Notify.{notify_exception_auto_decided}
use pos_pay.Review.Disposition.{get_setting, get_disposition_mode, get_response_window_hours}
use pos_pay.Review.Record.{is_return, Verdict, record_decision}

-- The bit pattern of the float 0.5.
abbrev pub ml_pay_threshold : ℕ
ml_pay_threshold = 0x3fe0000000000000

-- Outcome, source and reason, once they are known.
abbrev pub Choice : Type 0
Choice = DecisionOutcome × DecisionSource × ReasonText

abbrev pub choice_of_score : Option ℕ → Option Choice
choice_of_score none = none
choice_of_score (some score) = some (
  if leb ml_pay_threshold score then DecisionOutcome.pay else DecisionOutcome.return,
  DecisionSource.auto_ml,
  decided_by_score score,
)

unfoldable pub choose : Env → ExceptionItem → Uuid → DispositionMode → Exec (Option Choice)
choose env e customer none_ = pure none
choose env e customer fixed_pay = do
  hours ← gets (get_response_window_hours env e.tenant_id customer e.network_code)
  pure (some (DecisionOutcome.pay, DecisionSource.auto_default, no_response_within hours))
choose env e customer fixed_return = do
  hours ← gets (get_response_window_hours env e.tenant_id customer e.network_code)
  pure (some (DecisionOutcome.return, DecisionSource.auto_default, no_response_within hours))
choose env e customer ml_determined = do score ← score_exception env e; pure (choice_of_score score)

abbrev pub verdict_of : Choice → ReasonText → Option String → Verdict
verdict_of c reason transaction_code = record {
  outcome = c.0;
  reason_code = reason;
  return_transaction_code = transaction_code;
  notes = none;
  submitted_by_user_id = none;
  decided_by_user_id = none;
  source = c.1;
}

abbrev active_reason : Choice → Option AchReturnReason → Option Verdict
active_reason c none = none
active_reason c (some reason) =
    if reason.is_active
    then some (verdict_of c (given reason.reason_text) reason.transaction_code)
    else none

-- `setting.default_ach_return_reason_id if setting else None`
abbrev pub default_reason_id : Option DispositionSetting → Option Uuid
default_reason_id none = none
default_reason_id (some setting) = setting.default_ach_return_reason_id

abbrev reason_with_id : ExceptionItem → Choice → Option Uuid → Db → Option Verdict
reason_with_id e c none db = none
reason_with_id e c (some i) db =
    active_reason c (Scope.get return_reason_columns (tenant_wide e.tenant_id) i db.return_reasons)

-- An ACH return takes its reason from the catalog, or there is no decision.
unfoldable pub complete : ExceptionItem → Uuid → Choice → Db → Option Verdict
complete e customer c db =
    if is_return c.0 && str_eq e.network_code "ach"
    then reason_with_id e c (default_reason_id (get_setting e.tenant_id customer e.network_code db))
        db
    else some (verdict_of c c.2 none)

abbrev pub finish : Env → ExceptionItem → Option Verdict → Exec (Option (Decision Features))
finish env e none = pure none
finish env e (some v) = do
  d ← record_decision env e v
  notify_exception_auto_decided e
  pure (some d)

abbrev pub complete_choice :
    Env → ExceptionItem → Uuid → Option Choice → Exec (Option (Decision Features))
complete_choice env e customer none = pure none
complete_choice env e customer (some c) = do v ← gets (complete e customer c); finish env e v

abbrev pub auto_decide_for : Env → ExceptionItem → Option Uuid → Exec (Option (Decision Features))
auto_decide_for env e none = pure none
auto_decide_for env e (some customer) = do
  mode ← gets (get_disposition_mode e.tenant_id customer e.network_code)
  choice ← choose env e customer mode
  complete_choice env e customer choice

unfoldable pub auto_decide_exception : Env → ExceptionItem → Exec (Option (Decision Features))
auto_decide_exception env e = auto_decide_for env e e.customer_id
