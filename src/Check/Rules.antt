-- ===== src/Check/Rules.antt =====
-- networks/check/rules.py and networks/check/types.py: the pure matching rules.
pub mod Exact
use pos_pay.Base.{
  ℕ, ℤ, String, Text, Bool, true, false, not, ◌&&◌, ◌||◌, Option, none, some, List, [], ◌∷◌, ◌++◌,
  ◌-◌, leb, ltb, ◌==◌, if◌then◌else◌, when, select, strip, ltb_ℤ, eqb_ℤ, sub_ℕ, str_eq, map,
}
use pos_pay.Store.Rows.{Uuid}

pub data CheckExceptionType : Type 0 where
  duplicate_paid stopped voided not_in_file amount_mismatch payee_mismatch : CheckExceptionType
  stale_dated : CheckExceptionType

-- `CheckExceptionType.value`
unfoldable pub value : CheckExceptionType → String
value duplicate_paid = "duplicate_paid"
value stopped = "stopped"
value voided = "voided"
value not_in_file = "not_in_file"
value amount_mismatch = "amount_mismatch"
value payee_mismatch = "payee_mismatch"
value stale_dated = "stale_dated"

pub record IssuedItemSnapshot : Type 0 where
  pub id : Uuid
  pub amount : ℤ
  pub payee_name : Text
  pub issue_date : ℕ
  pub status : String

pub record CheckMatchInputs : Type 0 where
  pub presented_amount : ℤ
  pub presented_date : ℕ
  pub is_duplicate_paid : Bool
  pub active_stop_found : Bool
  pub candidate_issued_item : Option IssuedItemSnapshot
  pub stale_date_threshold_days : ℤ
  pub payee_fuzzy_threshold : ℕ
  pub ocr_payee : Option Text
  pub ocr_confidence : Option ℕ

-- `str.upper`, for ASCII names.
abbrev pub upper : ℕ → ℕ
upper c = if leb 97 c && leb c 122 then c - 32 else c

-- What `[^A-Z0-9 ]` leaves.
abbrev pub is_kept : ℕ → Bool
is_kept c = leb 65 c && leb c 90 || leb 48 c && leb c 57 || c == 32

unfoldable pub normalize_payee : Text → Text
normalize_payee name = strip (select is_kept (map upper name))

module _ (token_set_ratio : Text → Text → ℕ) where
  unfoldable pub is_payee_mismatch : CheckMatchInputs → IssuedItemSnapshot → Bool
  is_payee_mismatch inputs candidate = elim inputs.ocr_payee [
    | none ↦ false
    | some payee ↦
        ltb (token_set_ratio (normalize_payee payee) (normalize_payee candidate.payee_name))
          inputs.payee_fuzzy_threshold
  ]

  -- The exceptions that are decided against the candidate, in the order they are appended.
  unfoldable pub candidate_exceptions :
      CheckMatchInputs → IssuedItemSnapshot → List CheckExceptionType
  candidate_exceptions inputs candidate =
      let days_since_issue = sub_ℕ inputs.presented_date candidate.issue_date in
      when (str_eq candidate.status "voided") voided
      ++ (when (not (eqb_ℤ inputs.presented_amount candidate.amount)) amount_mismatch
          ++ (when (is_payee_mismatch inputs candidate) payee_mismatch
              ++ when (ltb_ℤ inputs.stale_date_threshold_days days_since_issue) stale_dated))

  abbrev related_id : Option IssuedItemSnapshot → Option Uuid
  related_id none = none
  related_id (some candidate) = some candidate.id

  abbrev judge_candidate :
      CheckMatchInputs
      → List CheckExceptionType
      → Option IssuedItemSnapshot
      → List CheckExceptionType × Option Uuid
  judge_candidate inputs exceptions none = (exceptions ++ not_in_file ∷ [], none)
  judge_candidate inputs exceptions (some candidate) =
      (exceptions ++ candidate_exceptions inputs candidate, some candidate.id)

  unfoldable pub evaluate_check_rules : CheckMatchInputs → List CheckExceptionType × Option Uuid
  evaluate_check_rules inputs =
      let exceptions = when inputs.is_duplicate_paid duplicate_paid in
      if inputs.active_stop_found
      then (exceptions ++ stopped ∷ [], related_id inputs.candidate_issued_item)
      else judge_candidate inputs exceptions inputs.candidate_issued_item
