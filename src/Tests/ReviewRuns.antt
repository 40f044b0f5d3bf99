-- ===== src/Tests/ReviewRuns.antt =====
-- Decisions of people and automatic ones, on concrete tables.
use pos_pay.Base.{
  Option, ap, arith, ◌⊎◌, inr, str_eq, All, ℕ, ◌≡◌, ◌≢◌, refl, true, false, none, some, [], ◌∷◌,
  ◌++◌, ◌==◌, update, same_id,
}
use pos_pay.Store.Rows.{
  ExceptionItem, ExceptionStatus, Decision, DecisionOutcome, DecisionSource, AchSettlementStatus,
  AchReturnReason, ReasonText, given,
}
use pos_pay.Store.Db.{Features}
use pos_pay.Store.Exec.{ok, err}
use pos_pay.Store.Scope
use pos_pay.Store.Scope.{tenant_wide}
use pos_pay.Store.Columns.{return_reason_columns}
use pos_pay.Networks.{ach, get_adapter, build_features, load_ach_source_item}
use pos_pay.Ach.Features.{build_ach_features}
use pos_pay.Notify.{
  notify_exception_auto_decided, recipients_for_permission, collect, queue, queue_all,
  effective_preference,
}
use pos_pay.Review.Disposition.{get_disposition_mode, get_setting, get_response_window_hours}
use pos_pay.Review.Record.{record_decision, is_decided, decision_row, settle_return}
use pos_pay.Review.Decide.{
  ServiceResult, Context, Submission, ResolvedReason, resolve_ach_return_reason, get_exception,
  decide_refusal, dual_control_refusal, verdict, decide, submit_recommendation, failed,
  already_decided, maker_cannot_approve_own_recommendation,
}
use pos_pay.Review.Decide.DualControl.{decide_dual_control}
use pos_pay.Review.Decide.Effect.{decide_effect, decide_refusal_unchanged, decide_ach_return}
use pos_pay.Review.Decide.Final.{decide_final}
use pos_pay.Review.Decide.Success.{Allowed, decide_succeeds}
use pos_pay.Review.Queue.{needs_attention, list_exceptions}
use pos_pay.Review.Queue.Decided.{decided_leaves_queue}
use pos_pay.Review.AutoDecide.{auto_decide_exception, choose, complete}
use pos_pay.Review.AutoDecide.Steps.{Follows}
use pos_pay.Review.AutoDecide.Outcome.{auto_decide-Follows_mode}
use pos_pay.Tests.Data.{
  test_env, bank, bank_tenant, no_authorization, pending_exception, reviewed_entry,
}

abbrev by_checker : Context
by_checker = record { user_id = 71; customer_id = none }

abbrev by_maker : Context
by_maker = record { user_id = 70; customer_id = none }

abbrev return_it : Submission
return_it = record {
  outcome = DecisionOutcome.return;
  reason_code = "";
  notes = none;
  ach_return_reason_id = some 40;
}

abbrev features : Features
features = elim (build_ach_features pending_exception bank) as (λ _. Features) [
  | ok f ↦ f
  | err x ↦ []
]

abbrev resolved : ResolvedReason
resolved = record { reason_code = "Unauthorized debit"; transaction_code = some "R29" }

abbrev row : Decision Features
row =
    decision_row 100 pending_exception
      (verdict bank_tenant by_checker return_it pending_exception resolved) features

abbrev answer : ServiceResult
answer = record {
  decision = some row;
  exception = some (record pending_exception { status = ExceptionStatus.return });
  error = none;
}

approved : (decide test_env 1 60 by_checker return_it bank).0 ≡ ok answer
unfolding decide get_exception Scope.get Scope.in_scope decide_refusal dual_control_refusal
    resolve_ach_return_reason record_decision get_adapter build_features build_ach_features
approved = refl

found_pending : get_exception 1 none 60 bank ≡ some pending_exception
unfolding get_exception Scope.get Scope.in_scope
found_pending = refl

abbrev maker_or_zero : Option ℕ → ℕ
maker_or_zero none = 0
maker_or_zero (some i) = i

other_person : pending_exception.recommended_by_user_id ≢ some by_checker.user_id
other_person e = let same : ◌≡◌ {A = ℕ} 70 71 = ap maker_or_zero e in omega (arith, same)

pending-Allowed :
    Allowed test_env 1 60 by_checker return_it bank pending_exception bank_tenant features
      no_authorization.reason_text no_authorization.transaction_code
unfolding get_exception Scope.get Scope.in_scope get_adapter build_features build_ach_features
pending-Allowed = record {
  found = refl;
  undecided = tt;
  tenant_found = refl;
  second_person = inr (refl, other_person);
  reason = inr (inr (refl, refl, 40, no_authorization, refl, refl, refl, refl, refl));
  adapter = ach;
  registered = refl;
  built = refl;
  first = refl;
}

decide_succeeds_example :
    (decide test_env 1 60 by_checker return_it bank).0
    ≡ ok (record {
      decision = some row;
      exception = some (record pending_exception { status = ExceptionStatus.return });
      error = none;
    })
decide_succeeds_example =
    decide_succeeds test_env 1 60 by_checker return_it bank pending_exception bank_tenant features
      no_authorization.reason_text no_authorization.transaction_code pending-Allowed

decide_dual_control_example :
    (e : ExceptionItem) × (get_exception 1 none 60 bank ≡ some e)
    × (e.status ≡ ExceptionStatus.pending_approval)
    × (same_id e.recommended_by_user_id (some 71) ≡ false)
    × (row.submitted_by_user_id ≡ e.recommended_by_user_id)
    × (row.decided_by_user_id ≡ some 71)
decide_dual_control_example =
    decide_dual_control test_env 1 60 by_checker return_it bank {tenant = bank_tenant} refl refl
      approved refl

decide_effect_example :
    let db' = (decide test_env 1 60 by_checker return_it bank).1 in
    (row.outcome ≡ DecisionOutcome.return)
    × (row.source ≡ DecisionSource.human)
    × (is_decided 60 bank ≡ false)
    × (db'.decisions ≡ bank.decisions ++ row ∷ [])
    × (db'.exceptions
        ≡ update
            (λ x. x.id == 60)
            (λ x. record x { status = ExceptionStatus.return })
            bank.exceptions)
    × (db'.paid_items ≡ bank.paid_items)
decide_effect_example = decide_effect test_env 1 60 by_checker return_it bank approved refl

decide_ach_return_example :
    ((reason : AchReturnReason) × (i : ℕ) × (some 40 ≡ some i)
      × (Scope.get return_reason_columns (tenant_wide 1) i bank.return_reasons ≡ some reason)
      × (reason.is_active ≡ true)
      × (row.return_transaction_code ≡ reason.transaction_code)
      × (row.reason_code ≡ given reason.reason_text))
    × ((decide test_env 1 60 by_checker return_it bank).1.transactions
        ≡ update
            (λ x. x.id == 50)
            (λ x. record x { settlement_status = AchSettlementStatus.returned })
            bank.transactions)
decide_ach_return_example =
    decide_ach_return test_env 1 60 by_checker return_it bank {t = reviewed_entry} approved refl
      refl found_pending refl refl

-- The maker of the recommendation is turned away.
turned_away :
    (decide test_env 1 60 by_maker return_it bank).0
    ≡ ok (failed maker_cannot_approve_own_recommendation)
unfolding decide get_exception Scope.get Scope.in_scope decide_refusal dual_control_refusal
turned_away = refl

decided_leaves_queue_example :
    All
      (λ (x : ExceptionItem). (x.id == 60) ≡ false)
      (list_exceptions 1
        (some "ach")
        none
        (some needs_attention)
        (some 5)
        none
        none
        (λ rows. rows)
        (decide test_env 1 60 by_checker return_it bank).1)
decided_leaves_queue_example =
    decided_leaves_queue test_env 1 60 by_checker return_it bank approved refl 1 (some "ach") none
      (some 5)

decide_refusal_unchanged_example : (decide test_env 1 60 by_maker return_it bank).1 ≡ bank
decide_refusal_unchanged_example =
    decide_refusal_unchanged test_env 1 60 by_maker return_it bank turned_away refl

decide_final_example :
    let db' = (decide test_env 1 60 by_checker return_it bank).1 in
    (decide test_env 1 60 by_maker return_it db' ≡ (ok (failed already_decided), db'))
    × (submit_recommendation 1 60 by_maker return_it db' ≡ (ok (failed already_decided), db'))
decide_final_example =
    decide_final test_env test_env 1 60 by_checker by_maker return_it return_it bank approved refl
      refl

-- The deadline has passed: the customer's setting returns ACH entries.
abbrev auto_row : Decision Features
auto_row = record row {
  submitted_by_user_id = none;
  decided_by_user_id = none;
  source = DecisionSource.auto_default;
}

auto_run : (auto_decide_exception test_env pending_exception bank).0 ≡ ok (some auto_row)
unfolding auto_decide_exception choose complete get_disposition_mode get_setting
    get_response_window_hours Scope.get Scope.in_scope record_decision get_adapter build_features
    build_ach_features notify_exception_auto_decided recipients_for_permission collect queue
    queue_all effective_preference settle_return load_ach_source_item
auto_run = refl

auto_decide-Follows_mode_example :
    (auto_row.decided_by_user_id ≡ none)
    × (auto_row.submitted_by_user_id ≡ none)
    × (auto_row.source ≢ DecisionSource.human)
    × ((customer : ℕ) × (some 5 ≡ some customer)
        × (reason : ReasonText) × Follows test_env pending_exception customer bank
            (get_disposition_mode 1 customer "ach" bank)
            (auto_row.outcome, auto_row.source, reason)
        × ((auto_row.reason_code ≡ reason)
            ⊎ ((auto_row.outcome ≡ DecisionOutcome.return) × (str_eq "ach" "ach" ≡ true))))
auto_decide-Follows_mode_example = auto_decide-Follows_mode test_env pending_exception bank auto_run
