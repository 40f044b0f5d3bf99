-- ===== src/Tests/CheckRuns.antt =====
-- The matching and ingestion of checks, on concrete tables.
use pos_pay.Base.{pos, ◌≡◌, refl, true, false, none, some, [], ◌∷◌, Has, ◌↔◌}
use pos_pay.Store.Rows.{PaidItem, PaidItemSettlementStatus, ItemSource}
use pos_pay.Store.Db.{Db}
use pos_pay.Store.Exec.{ok}
use pos_pay.Store.Match.{MatchResult}
use pos_pay.Store.Scope
use pos_pay.Check.Rules.{
  value, is_payee_mismatch, candidate_exceptions, evaluate_check_rules, stopped, CheckMatchInputs,
}
use pos_pay.Check.Rules.Exact.{Condition, reported_iff}
use pos_pay.Check.Adapter.{
  find_candidate_issued_item, is_duplicate_paid, find_completed_ocr, find_active_stop, match_inputs,
  evaluate, status_value, snapshot,
}
use pos_pay.Scoring.{
  resolve_scoring_source, bank_level_model, scoring_mode, get_active_model_row, score_exception,
}
use pos_pay.Notify.{
  notify_exception_created, recipients_for_permission, collect, queue, queue_all,
  effective_preference,
}
use pos_pay.Review.Disposition.{
  compute_decision_deadline, get_disposition_mode, get_setting, get_response_window_hours,
}
use pos_pay.Check.Ingestion.{
  PaidItemSubmission, find_account, settled, unmatched, set_issued_paid, settle, open_exception,
  ingest_paid_item,
}
use pos_pay.Check.Ingestion.Outcome.{presented}
use pos_pay.Check.Ingestion.Duplicates.{never_paid_twice}
use pos_pay.Tests.Data.{test_env, bank, checking, issued_check}

abbrev presentment : PaidItemSubmission
presentment = record {
  account_id = 10;
  check_number = "1001";
  presented_amount = pos 12500;
  presented_date = 738010;
  source = ItemSource.api;
}

abbrev payment : PaidItem
payment = presented 1 checking presentment bank

abbrev after_payment : Db
after_payment = record (set_issued_paid 20 bank) {
  paid_items = settled payment (some 20) ∷ [];
  next_id = 101;
}

first_run : (ingest_paid_item test_env 1 none presentment bank).0 ≡ ok (settled payment (some 20))
unfolding ingest_paid_item find_account Scope.get Scope.in_scope evaluate find_candidate_issued_item
    match_inputs is_duplicate_paid find_active_stop find_completed_ocr status_value
    evaluate_check_rules candidate_exceptions is_payee_mismatch settle
first_run = refl

-- The same check again, on a later date and by the customer's own staff.
abbrev again : PaidItemSubmission
again = record presentment { presented_date = 738020 }

second_run :
    (ingest_paid_item test_env 1
      (some 5)
      again
      (ingest_paid_item test_env 1 none presentment bank).1).0
    ≡ ok (unmatched (presented 1 checking again after_payment) (some 20))
unfolding ingest_paid_item find_account Scope.get Scope.in_scope evaluate find_candidate_issued_item
    match_inputs is_duplicate_paid find_active_stop find_completed_ocr status_value
    evaluate_check_rules candidate_exceptions is_payee_mismatch settle open_exception
    score_exception resolve_scoring_source bank_level_model scoring_mode get_active_model_row
    notify_exception_created recipients_for_permission collect queue queue_all effective_preference
    compute_decision_deadline get_disposition_mode get_setting get_response_window_hours value
second_run = refl

never_paid_twice_example : ¬ (
    (unmatched (presented 1 checking again after_payment) (some 20)).settlement_status
    ≡ PaidItemSettlementStatus.paid)
never_paid_twice_example =
    never_paid_twice test_env test_env 1 none (some 5) presentment again bank tt first_run refl refl
      refl refl second_run

-- A check of another amount is judged against the same item.
abbrev altered : PaidItemSubmission
altered = record presentment { presented_amount = pos 92500 }

abbrev altered_payment : PaidItem
altered_payment = presented 1 checking altered bank

abbrev amount_differs : MatchResult
amount_differs = record {
  matched = false;
  exception_types = "amount_mismatch" ∷ [];
  related_reference_id = some 20;
}

abbrev inputs : CheckMatchInputs
inputs = record {
  presented_amount = pos 12500;
  presented_date = 738010;
  is_duplicate_paid = false;
  active_stop_found = true;
  candidate_issued_item = some (snapshot issued_check);
  stale_date_threshold_days = pos 180;
  payee_fuzzy_threshold = 85;
  ocr_payee = none;
  ocr_confidence = none;
}

reported_iff_example :
    Has stopped (evaluate_check_rules test_env.token_set_ratio inputs).0
    ↔ Condition test_env.token_set_ratio inputs stopped
reported_iff_example = reported_iff test_env.token_set_ratio inputs stopped
