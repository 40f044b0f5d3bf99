-- ===== src/Tests/AchRuns.antt =====
-- The matching and ingestion of ACH entries, on concrete tables.
use pos_pay.Base.{pos, ◌≡◌, refl, true, false, none, some, List, [], ◌∷◌, arith, ◌↔◌, ◌⊎◌, length}
use pos_pay.Store.Rows.{AchTransaction, AchTransactionType, ItemSource}
use pos_pay.Store.Exec.{ok, Session}
use pos_pay.Store.Match.{MatchResult}
use pos_pay.Store.Scope
use pos_pay.Scoring.{
  resolve_scoring_source, bank_level_model, scoring_mode, get_active_model_row, score_exception,
  load_row, cache_get, verified_bytes, cache_put,
}
use pos_pay.Networks.{get_adapter, build_features}
use pos_pay.Ach.Features.{build_ach_features}
use pos_pay.Notify.{
  notify_exception_created, recipients_for_permission, collect, queue, queue_all,
  effective_preference,
}
use pos_pay.Review.Disposition.{
  compute_decision_deadline, get_disposition_mode, get_setting, get_response_window_hours,
}
use pos_pay.Ach.Rules.{
  AchMatchInputs, select_authorization, exceeds_amount, exceeds_frequency, bad_sec_code,
  limit_exceptions, evaluate_ach_rules, value,
}
use pos_pay.Ach.Rules.Exact.{WithinLimits, authorized_iff}
use pos_pay.Ach.Adapter.{
  is_debit_type, find_candidate_authorizations, count_prior_settled_debits, match_inputs, evaluate,
  snapshot,
}
use pos_pay.Ach.Ingestion.{
  AchTransactionSubmission, find_account, is_trace_taken, settled, unmatched, settle,
  ingest_ach_transaction, ingest_ach_transactions_bulk,
}
use pos_pay.Ach.Ingestion.Outcome.{received, inserted, answer}
use pos_pay.Ach.Ingestion.Authorized.{
  Authorized, paid_debits_before, ingest_paid_only_if_Authorized,
}
use pos_pay.Ach.Ingestion.Traces.{IsValid, IsSound}
use pos_pay.Ach.Ingestion.Bulk.{IsSaved, ingest_bulk-IsSaved}
use pos_pay.Tests.Data.{test_env, bank, checking, utility_rule}

abbrev utility_debit : AchTransactionSubmission
utility_debit = record {
  account_id = 10;
  originator_id = "9876543210";
  originator_name = "Utility";
  amount = pos 42000;
  transaction_type = AchTransactionType.debit;
  sec_code = "CCD";
  trace_number = "091000010000002";
  effective_date = 738006;
  receiver_id = none;
  source = ItemSource.bulk_file;
}

abbrev pub entry : AchTransaction
entry = received 1 checking utility_debit bank

bank-IsValid : IsValid bank
bank-IsValid = record { below = (omega arith, tt); distinct = (refl, tt) }

paid_run : (ingest_ach_transaction test_env 1 none utility_debit bank).0 ≡ ok (settled entry)
unfolding ingest_ach_transaction find_account Scope.get Scope.in_scope evaluate
    find_candidate_authorizations count_prior_settled_debits match_inputs select_authorization
    evaluate_ach_rules limit_exceptions exceeds_amount exceeds_frequency bad_sec_code value settle
paid_run = refl

ingest_paid_only_if_Authorized_example :
    (account : _) × (find_account 1 none 10 bank ≡ some account)
    × (is_trace_taken 1 "091000010000002" bank ≡ false)
    × ((is_debit_type AchTransactionType.debit ≡ false)
        ⊎ ((a : Authorized (received 1 account utility_debit bank) bank) × (a.debit_count
              ≡ length (paid_debits_before 1 utility_debit bank))))
ingest_paid_only_if_Authorized_example =
    ingest_paid_only_if_Authorized test_env 1 none utility_debit bank paid_run refl

-- A debit of an originator that nobody authorized.
abbrev stranger : AchTransactionSubmission
stranger = record utility_debit { originator_id = "5555555555"; trace_number = "091000010000003" }

abbrev unauthorized : MatchResult
unauthorized = record {
  matched = false;
  exception_types = "unauthorized_originator" ∷ [];
  related_reference_id = none;
}

-- With no model on file the entry is not scored, and the call returns it.
stranger_returned :
    answer test_env
      (received 1 checking stranger bank)
      unauthorized
      (inserted (received 1 checking stranger bank) bank)
    ≡ ok (unmatched (received 1 checking stranger bank))
unfolding score_exception resolve_scoring_source bank_level_model scoring_mode get_active_model_row
    load_row cache_get verified_bytes cache_put get_adapter build_features build_ach_features
    notify_exception_created recipients_for_permission collect queue queue_all effective_preference
    compute_decision_deadline get_disposition_mode get_setting get_response_window_hours Scope.get
    Scope.in_scope
stranger_returned = refl

abbrev session : Session
session = record { db = bank; saved = bank }

-- A file of three rows, of which the second repeats a trace number of the tenant.
abbrev file : List AchTransactionSubmission
file = utility_debit ∷ record stranger { trace_number = "091000010000001" } ∷ stranger ∷ []

ingest_bulk-IsSaved_example :
    let r = ingest_ach_transactions_bulk test_env 1 none file session in
    IsSaved 1 0 file bank.transactions r × IsSound r.1
ingest_bulk-IsSaved_example =
    ingest_bulk-IsSaved test_env 1 none file session (bank-IsValid, bank-IsValid) refl

abbrev inputs : AchMatchInputs
inputs = record {
  is_debit = true;
  debit_block_all = false;
  amount = pos 42000;
  sec_code = "CCD";
  receiver_id = some "DEPT7";
  candidate_authorizations =
      snapshot utility_rule
      ∷ record (snapshot utility_rule) { id = 31; receiver_id = some "DEPT7" }
      ∷ [];
  debit_count_this_period = 0;
}

chosen :
    select_authorization inputs
    ≡ some (record (snapshot utility_rule) { id = 31; receiver_id = some "DEPT7" })
unfolding select_authorization
chosen = refl

authorized_iff_example : ((evaluate_ach_rules inputs).0 ≡ []) ↔ (
    (inputs.is_debit ≡ false)
    ⊎ ((inputs.debit_block_all ≡ false)
        × ((a : _) × (select_authorization inputs ≡ some a) × WithinLimits inputs a)))
authorized_iff_example = authorized_iff inputs
