-- ===== src/Check/Adapter.antt =====
-- networks/check/adapter.py: the facts that the rules judge, gathered from the tables.
use pos_pay.Base.{
  ℕ, String, Text, Bool, true, false, not, ◌&&◌, Option, none, some, map, ◌==◌, leb, select, find,
  any, eqb_ℤ, str_eq, same_id, is_some,
}
use pos_pay.Store.Rows.{
  Uuid, Tenant, IssuedItem, IssuedItemStatus, PaidItem, PaidItemSettlementStatus, StopPayment,
  StopPaymentStatus, CheckImage, OcrStatus,
}
use pos_pay.Store.Db.{Db, Env}
use pos_pay.Store.Exec.{Result, ok, one_or_none, and_then, required, no_row}
use pos_pay.Store.Match.{MatchResult, is_empty}
use pos_pay.Check.Rules.{IssuedItemSnapshot, CheckMatchInputs, value, evaluate_check_rules}

-- `IssuedItemStatus.value`
unfoldable pub status_value : IssuedItemStatus → String
status_value IssuedItemStatus.outstanding = "outstanding"
status_value IssuedItemStatus.paid = "paid"
status_value IssuedItemStatus.voided = "voided"
status_value IssuedItemStatus.stopped = "stopped"
status_value IssuedItemStatus.stale = "stale"

abbrev pub snapshot : IssuedItem → IssuedItemSnapshot
snapshot item = record {
  id = item.id;
  amount = item.amount;
  payee_name = item.payee_name;
  issue_date = item.issue_date;
  status = status_value item.status;
}

abbrev pub is_issued_for : PaidItem → IssuedItem → Bool
is_issued_for p item =
    item.tenant_id == p.tenant_id
    && (item.account_id == p.account_id && str_eq item.check_number p.check_number)

unfoldable pub find_candidate_issued_item : PaidItem → Db → Result (Option IssuedItem)
find_candidate_issued_item p db = one_or_none (select (is_issued_for p) db.issued_items)

abbrev pub is_paid : PaidItemSettlementStatus → Bool
is_paid PaidItemSettlementStatus.paid = true
is_paid _ = false

-- The WHERE clause of `_is_duplicate_paid`.
abbrev pub is_prior_payment : PaidItem → PaidItem → Bool
is_prior_payment p q =
    q.tenant_id == p.tenant_id
    && (q.account_id == p.account_id
        && (str_eq q.check_number p.check_number
            && (eqb_ℤ q.presented_amount p.presented_amount
                && (is_paid q.settlement_status && not (q.id == p.id)))))

unfoldable pub is_duplicate_paid : PaidItem → Db → Bool
is_duplicate_paid p db = any (is_prior_payment p) db.paid_items

abbrev pub is_completed : OcrStatus → Bool
is_completed OcrStatus.completed = true
is_completed _ = false

unfoldable pub find_completed_ocr : Uuid → Db → Option CheckImage
find_completed_ocr paid_item_id db =
    find (λ i. same_id i.paid_item_id (some paid_item_id) && is_completed i.ocr_status)
      db.check_images

abbrev pub is_active : StopPaymentStatus → Bool
is_active StopPaymentStatus.active = true
is_active _ = false

abbrev pub covers_date : Option ℕ → ℕ → Bool
covers_date none date = true
covers_date (some expiration) date = leb date expiration

-- The WHERE clause of `_find_active_stop`, and the test in its loop.
abbrev pub is_stop_query : PaidItem → StopPayment → Bool
is_stop_query p s =
    s.tenant_id == p.tenant_id
    && (s.account_id == p.account_id
        && (str_eq s.check_number p.check_number
            && (is_active s.status && leb s.effective_date p.presented_date)))

unfoldable pub find_active_stop : PaidItem → Db → Option StopPayment
find_active_stop p db =
    find (λ s. covers_date s.expiration_date p.presented_date)
      (select (is_stop_query p) db.stop_payments)

abbrev ocr_payee_of : Option CheckImage → Option Text
ocr_payee_of none = none
ocr_payee_of (some image) = image.ocr_extracted_payee

abbrev ocr_confidence_of : Option CheckImage → Option ℕ
ocr_confidence_of none = none
ocr_confidence_of (some image) = image.ocr_confidence

abbrev pub snapshot_of : Option IssuedItem → Option IssuedItemSnapshot
snapshot_of none = none
snapshot_of (some item) = some (snapshot item)

unfoldable pub match_inputs : Env → PaidItem → Tenant → Option IssuedItem → Db → CheckMatchInputs
match_inputs env p tenant candidate db = record {
  presented_amount = p.presented_amount;
  presented_date = p.presented_date;
  is_duplicate_paid = is_duplicate_paid p db;
  active_stop_found = is_some (find_active_stop p db);
  candidate_issued_item = snapshot_of candidate;
  stale_date_threshold_days = tenant.stale_date_threshold_days;
  payee_fuzzy_threshold = env.payee_match_fuzzy_threshold;
  ocr_payee = ocr_payee_of (find_completed_ocr p.id db);
  ocr_confidence = ocr_confidence_of (find_completed_ocr p.id db);
}

-- `CheckAdapter.evaluate`. A missing tenant raises where its threshold is read.
unfoldable pub evaluate : Env → PaidItem → Db → Result MatchResult
evaluate env p db = and_then (find_candidate_issued_item p db) λ candidate.
    and_then (required (find (λ t. t.id == p.tenant_id) db.tenants) no_row) λ tenant.
      let (types, related) =
        evaluate_check_rules env.token_set_ratio (match_inputs env p tenant candidate db) in
      ok (record {
        matched = is_empty types;
        exception_types = map value types;
        related_reference_id = related;
      })
