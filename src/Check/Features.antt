-- ===== src/Check/Features.antt =====
-- networks/check/features.py: the feature vector of a check exception.
use pos_pay.Base.{
  ℕ, ℤ, pos, String, Text, ◌+◌, ◌-◌, Option, none, some, [], ◌∷◌, ◌==◌, find, any, str_eq, pos_part,
  neg_part, sub_ℕ, if◌then◌else◌, eqb_ℤ,
}
use pos_pay.Store.Rows.{Uuid, IssuedItem, PaidItem, CheckImage, ExceptionItem}
use pos_pay.Store.Db.{Db, Env, Features, FeatureValue, cents, fraction, days, float_bits, flag}
use pos_pay.Store.Exec.{Result, ok, no_row, and_then, required}
use pos_pay.Check.Rules.{normalize_payee}
use pos_pay.Check.Adapter.{find_completed_ocr}

-- `abs(a - b)`, in cents.
abbrev distance : ℤ → ℤ → ℕ
distance a b =
    (pos_part a + neg_part b - (pos_part b + neg_part a))
    + (pos_part b + neg_part a - (pos_part a + neg_part b))

abbrev related_item : Option Uuid → Db → Option IssuedItem
related_item none db = none
related_item (some i) db = find (λ item. item.id == i) db.issued_items

abbrev amount_delta_abs : PaidItem → Option IssuedItem → FeatureValue
amount_delta_abs p none = cents (pos 0)
amount_delta_abs p (some item) = cents (pos (distance p.presented_amount item.amount))

abbrev amount_delta_pct : PaidItem → Option IssuedItem → FeatureValue
amount_delta_pct p none = cents (pos 0)
amount_delta_pct p (some item) =
    if eqb_ℤ item.amount (pos 0)
    then cents (pos 0)
    else fraction (pos (distance p.presented_amount item.amount)) item.amount

abbrev days_since_issue : PaidItem → Option IssuedItem → FeatureValue
days_since_issue p none = days (pos 0)
days_since_issue p (some item) = days (sub_ℕ p.presented_date item.issue_date)

-- An absent or empty payee leaves the score at zero.
abbrev payee_score : Env → IssuedItem → Option Text → ℕ
payee_score env item none = 0
payee_score env item (some []) = 0
payee_score env item (some (c ∷ payee)) =
    env.token_set_ratio (normalize_payee (c ∷ payee)) (normalize_payee item.payee_name)

abbrev payee_similarity_score : Env → Option IssuedItem → Option CheckImage → ℕ
payee_similarity_score env none image = 0
payee_similarity_score env (some item) none = 0
payee_similarity_score env (some item) (some image) = payee_score env item image.ocr_extracted_payee

abbrev confidence : Option CheckImage → ℕ
confidence none = 0
confidence (some image) = elim image.ocr_confidence [ none ↦ 0 | some c ↦ c ]

unfoldable pub build_check_features : Env → ExceptionItem → Db → Result Features
build_check_features env e db =
    and_then (required (find (λ p. p.id == e.source_item_id) db.paid_items) no_row) λ p.
      let issued_item = related_item e.related_reference_id db in
      let check_image = find_completed_ocr p.id db in
      let is_reported = λ (t : String). flag (any (str_eq t) e.exception_types) in
      ok (
        ("amount_delta_abs", amount_delta_abs p issued_item)
        ∷ ("amount_delta_pct", amount_delta_pct p issued_item)
        ∷ ("days_since_issue", days_since_issue p issued_item)
        ∷ (
          "payee_similarity_score",
          float_bits (payee_similarity_score env issued_item check_image),
        )
        ∷ ("ocr_confidence", float_bits (confidence check_image))
        ∷ ("is_duplicate_paid", is_reported "duplicate_paid")
        ∷ ("is_stopped", is_reported "stopped")
        ∷ ("is_not_in_file", is_reported "not_in_file")
        ∷ ("is_voided", is_reported "voided")
        ∷ [])
