-- ===== src/Tests/IssuingRuns.antt =====
-- Stops, voids and bulk files of issued checks, on concrete tables.
use pos_pay.Base.{pos, ◌≡◌, refl, none, some, List, [], ◌∷◌, find, codes}
use pos_pay.Store.Rows.{IssuedItem, ItemSource, PaidItem, PaidItemSettlementStatus, StopPayment}
use pos_pay.Store.Exec.{ok, Session}
use pos_pay.Store.Scope
use pos_pay.Check.Rules.{value, is_payee_mismatch, candidate_exceptions, evaluate_check_rules}
use pos_pay.Check.Adapter.{
  is_issued_for, find_candidate_issued_item, is_duplicate_paid, find_completed_ocr,
  find_active_stop, match_inputs, evaluate, status_value,
}
use pos_pay.Scoring.{
  resolve_scoring_source, bank_level_model, scoring_mode, get_active_model_row, score_exception,
}
use pos_pay.Notify.{
  notify_exception_created, recipients_for_permission, collect, queue, queue_all,
  effective_preference,
}
use pos_pay.Review.Disposition.{
  compute_decision_deadline, get_disposition_mode, get_setting, get_response_window_hours,
}
use pos_pay.Check.Ingestion.{
  PaidItemSubmission, find_account, unmatched, open_exception, ingest_paid_item,
}
use pos_pay.Check.Ingestion.Outcome.{presented}
use pos_pay.Issuing.Stops.{StopPaymentInput, new_stop}
use pos_pay.Issuing.Items.{IssuedItemInput, voided_row, void_issued_item, create_issued_items_bulk}
use pos_pay.Issuing.Items.Voided.{voided_not_paid}
use pos_pay.Issuing.Items.Distinct.{IsDistinct, find_candidate-IsDistinct}
use pos_pay.Tests.Data.{test_env, bank, checking, issued_check}

abbrev presentment : PaidItemSubmission
presentment = record {
  account_id = 10;
  check_number = "1001";
  presented_amount = pos 12500;
  presented_date = 738010;
  source = ItemSource.api;
}

abbrev order : StopPaymentInput
order = record {
  account_id = 10;
  check_number = "1001";
  amount = none;
  effective_date = 738001;
  expiration_date = some 738180;
  reason = some "lost";
}

abbrev stop : StopPayment
stop = new_stop 100 1 checking order (some 71)

abbrev payment : PaidItem
payment = unmatched (record (presented 1 checking presentment bank) { id = 101 }) (some 20)

abbrev void : IssuedItem
void = voided_row test_env "spoiled" issued_check

voided : (void_issued_item test_env 1 20 "spoiled" (some 5) bank).0 ≡ ok (some void)
unfolding void_issued_item Scope.get Scope.in_scope
voided = refl

voided_run :
    (ingest_paid_item test_env 1 none presentment
      (void_issued_item test_env 1 20 "spoiled" (some 5) bank).1).0
    ≡ ok (unmatched (presented 1 checking presentment bank) (some 20))
unfolding void_issued_item ingest_paid_item find_account Scope.get Scope.in_scope evaluate
    find_candidate_issued_item match_inputs is_duplicate_paid find_active_stop find_completed_ocr
    status_value evaluate_check_rules candidate_exceptions is_payee_mismatch open_exception
    score_exception resolve_scoring_source bank_level_model scoring_mode get_active_model_row
    notify_exception_created recipients_for_permission collect queue queue_all effective_preference
    compute_decision_deadline get_disposition_mode get_setting get_response_window_hours value
voided_run = refl

voided_not_paid_example : ¬ (
    (unmatched (presented 1 checking presentment bank) (some 20)).settlement_status
    ≡ PaidItemSettlementStatus.paid)
voided_not_paid_example =
    voided_not_paid test_env 1 20 "spoiled" (some 5) bank test_env none presentment voided refl refl
      voided_run

-- A file of two rows, of which the first repeats the check that is on file.
abbrev file : List IssuedItemInput
file =
    record {
      account_id = 10;
      check_number = "1001";
      amount = pos 100;
      payee_name = codes "Dup";
      issue_date = 738000;
    }
    ∷ record {
      account_id = 10;
      check_number = "1002";
      amount = pos 200;
      payee_name = codes "New";
      issue_date = 738000;
    }
    ∷ []

abbrev session : Session
session = record { db = bank; saved = bank }

find_candidate-IsDistinct_example :
    let db' = (create_issued_items_bulk 1 file none none session).1.db in
    let p = presented 1 checking presentment bank in
    IsDistinct db'.issued_items
    × (find_candidate_issued_item p db' ≡ ok (find (is_issued_for p) db'.issued_items))
find_candidate-IsDistinct_example =
    find_candidate-IsDistinct 1 file none none session (presented 1 checking presentment bank)
      (refl, tt) (refl, tt)
