-- ===== src/Review/Decide.antt =====
-- services/decision_service.py: recommendations of makers and decisions of checkers.
pub mod Decided
pub mod DualControl
pub mod Final
pub mod Effect
pub mod Success
use pos_pay.Base.{
  ℕ, String, Bool, true, false, not, ◌&&◌, ◌||◌, Option, none, some, List, [], ◌∷◌, ◌==◌,
  if◌then◌else◌, find, update, str_eq, same_id,
}
use pos_pay.Store.Rows.{
  Uuid, Tenant, ExceptionItem, ExceptionStatus, Decision, DecisionOutcome, DecisionSource,
  AchReturnReason, given,
}
use pos_pay.Store.Db.{Db, Env, Features}
use pos_pay.Store.Exec.{
  Exec, Result, ok, err, pure, gets, reads, modify, required, no_row, ◌>>=◌, ◌>>◌,
}
use pos_pay.Store.Scope
use pos_pay.Store.Scope.{Repository, tenant_wide}
use pos_pay.Store.Columns.{exception_columns, return_reason_columns}
use pos_pay.Notify.{notify_recommendation_awaiting_approval}
use pos_pay.Review.Record.{is_return, Verdict, record_decision, status_for}

pub data DecisionError : Type 0 where
  not_found already_decided recommendation_required : DecisionError
  maker_cannot_approve_own_recommendation withdrawn : DecisionError
  return_reason_required invalid_return_reason : DecisionError

pub record ServiceResult : Type 0 where
  pub decision : Option (Decision Features)
  pub exception : Option ExceptionItem
  pub error : Option DecisionError

-- What db/tenancy.py::TenantContext says of the caller.
pub record Context : Type 0 where
  pub user_id : Uuid
  pub customer_id : Option Uuid

-- What the caller submits.
pub record Submission : Type 0 where
  pub outcome : DecisionOutcome
  pub reason_code : String
  pub notes : Option String
  pub ach_return_reason_id : Option Uuid

abbrev pub failed : DecisionError → ServiceResult
failed error = record { decision = none; exception = none; error = some error }

pub record ResolvedReason : Type 0 where
  pub reason_code : String
  pub transaction_code : Option String

abbrev pub is_ach_return : String → DecisionOutcome → Bool
is_ach_return network_code outcome = str_eq network_code "ach" && is_return outcome

abbrev check_reason : String → Option AchReturnReason → ResolvedReason × Option DecisionError
check_reason reason_code none =
    (record { reason_code = reason_code; transaction_code = none }, some invalid_return_reason)
check_reason reason_code (some reason) =
    if reason.is_active
    then (
      record { reason_code = reason.reason_text; transaction_code = reason.transaction_code },
      none,
    )
    else (record { reason_code = reason_code; transaction_code = none }, some invalid_return_reason)

abbrev look_up_reason : Uuid → String → Option Uuid → Db → ResolvedReason × Option DecisionError
look_up_reason tenant_id reason_code none db =
    (record { reason_code = reason_code; transaction_code = none }, some return_reason_required)
look_up_reason tenant_id reason_code (some i) db =
    check_reason reason_code
      (Scope.get return_reason_columns (tenant_wide tenant_id) i db.return_reasons)

unfoldable pub resolve_ach_return_reason :
    Uuid → String → Submission → Db → ResolvedReason × Option DecisionError
resolve_ach_return_reason tenant_id network_code s db =
    if is_ach_return network_code s.outcome
    then look_up_reason tenant_id s.reason_code s.ach_return_reason_id db
    else (record { reason_code = s.reason_code; transaction_code = none }, none)

-- `ExceptionRepository(session, tenant_id, customer_id).get(exception_id)`
unfoldable pub get_exception : Uuid → Option Uuid → Uuid → Db → Option ExceptionItem
get_exception tenant_id customer_id i db =
    Scope.get exception_columns (record { tenant_id = tenant_id; customer_id = customer_id }) i
      db.exceptions

-- The status tests of `submit_recommendation`, in their order.
unfoldable pub recommend_refusal : ExceptionStatus → Option DecisionError
recommend_refusal ExceptionStatus.withdrawn = some withdrawn
recommend_refusal ExceptionStatus.open_ = none
recommend_refusal ExceptionStatus.pending_approval = none
recommend_refusal _ = some already_decided

abbrev pub recommended : Context → Submission → ResolvedReason → ExceptionItem → ExceptionItem
recommended ctx s resolved e = record e {
  recommended_outcome = some s.outcome;
  recommended_reason_code = some resolved.reason_code;
  recommended_return_transaction_code = resolved.transaction_code;
  recommended_notes = s.notes;
  recommended_ach_return_reason_id =
      if is_ach_return e.network_code s.outcome then s.ach_return_reason_id else none;
  recommended_by_user_id = some ctx.user_id;
  status = ExceptionStatus.pending_approval;
}

abbrev write_recommendation :
    Context
    → Submission
    → ExceptionItem
    → ResolvedReason × Option DecisionError
    → Exec ServiceResult
write_recommendation ctx s e (resolved, some error) = pure (failed error)
write_recommendation ctx s e (resolved, none) = do
  let e' = recommended ctx s resolved e
  modify (λ db. record db {
    exceptions = update (λ x. x.id == e.id) (recommended ctx s resolved) db.exceptions;
  })
  notify_recommendation_awaiting_approval e'
  pure (record { decision = none; exception = some e'; error = none })

abbrev unless_refused : Option DecisionError → Exec ServiceResult → Exec ServiceResult
unless_refused (some error) m = pure (failed error)
unless_refused none m = m

abbrev recommend_found : Uuid → Context → Submission → Option ExceptionItem → Exec ServiceResult
recommend_found tenant_id ctx s none = pure (failed not_found)
recommend_found tenant_id ctx s (some e) = unless_refused (recommend_refusal e.status) do
  resolution ← gets (resolve_ach_return_reason tenant_id e.network_code s)
  write_recommendation ctx s e resolution

unfoldable pub submit_recommendation : Uuid → Uuid → Context → Submission → Exec ServiceResult
submit_recommendation tenant_id exception_id ctx s = do
  found ← gets (get_exception tenant_id ctx.customer_id exception_id)
  recommend_found tenant_id ctx s found

-- The status tests of `decide`, in their order.
unfoldable pub decide_refusal : ExceptionStatus → Option DecisionError
decide_refusal ExceptionStatus.withdrawn = some withdrawn
decide_refusal ExceptionStatus.pay = some already_decided
decide_refusal ExceptionStatus.return = some already_decided
decide_refusal _ = none

abbrev pub is_pending : ExceptionStatus → Bool
is_pending ExceptionStatus.pending_approval = true
is_pending _ = false

-- Maker is not checker, where the tenant requires dual control.
unfoldable pub dual_control_refusal : Tenant → Context → ExceptionItem → Option DecisionError
dual_control_refusal tenant ctx e =
    if tenant.require_dual_control
    then if not (is_pending e.status)
      then some recommendation_required
      else if same_id e.recommended_by_user_id (some ctx.user_id)
      then some maker_cannot_approve_own_recommendation
      else none
    else none

abbrev pub verdict : Tenant → Context → Submission → ExceptionItem → ResolvedReason → Verdict
verdict tenant ctx s e resolved = record {
  outcome = s.outcome;
  reason_code = given resolved.reason_code;
  return_transaction_code = resolved.transaction_code;
  notes = s.notes;
  submitted_by_user_id = if tenant.require_dual_control then e.recommended_by_user_id else none;
  decided_by_user_id = some ctx.user_id;
  source = DecisionSource.human;
}

abbrev decide_resolved :
    Env
    → Tenant
    → Context
    → Submission
    → ExceptionItem
    → ResolvedReason × Option DecisionError
    → Exec ServiceResult
decide_resolved env tenant ctx s e (resolved, some error) = pure (failed error)
decide_resolved env tenant ctx s e (resolved, none) = do
  let v = verdict tenant ctx s e resolved
  d ← record_decision env e v
  pure (record {
    decision = some d;
    exception = some (record e { status = status_for s.outcome });
    error = none;
  })

abbrev decide_found : Env → Uuid → Context → Submission → Option ExceptionItem → Exec ServiceResult
decide_found env tenant_id ctx s none = pure (failed not_found)
decide_found env tenant_id ctx s (some e) = unless_refused (decide_refusal e.status) do
  tenant ← reads (λ db. required (find (λ t. t.id == tenant_id) db.tenants) no_row)
  unless_refused (dual_control_refusal tenant ctx e) do
    resolution ← gets (resolve_ach_return_reason tenant_id e.network_code s)
    decide_resolved env tenant ctx s e resolution

unfoldable pub decide : Env → Uuid → Uuid → Context → Submission → Exec ServiceResult
decide env tenant_id exception_id ctx s = do
  found ← gets (get_exception tenant_id ctx.customer_id exception_id)
  decide_found env tenant_id ctx s found

unfoldable pub get_decision_for_exception :
    Uuid → Uuid → Option Uuid → Db → Option (Decision Features)
get_decision_for_exception tenant_id exception_id customer_id db =
    elim (get_exception tenant_id customer_id exception_id db) [
      | none ↦ none
      | some e ↦
          find (λ d. d.tenant_id == tenant_id && d.exception_item_id == exception_id) db.decisions
    ]
