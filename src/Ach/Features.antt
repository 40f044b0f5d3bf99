-- ===== src/Ach/Features.antt =====
-- networks/ach/features.py: the feature vector of an ACH exception.
use pos_pay.Base.{
  pos, String, Bool, true, false, Option, none, some, [], ◌∷◌, ◌==◌, find, any, str_eq,
}
use pos_pay.Store.Rows.{AchTransaction, ExceptionItem}
use pos_pay.Store.Db.{Db, Features, FeatureValue, cents, text, flag}
use pos_pay.Store.Exec.{Result, ok}
use pos_pay.Ach.Adapter.{is_debit_type}

-- `bool(txn.receiver_id)`
abbrev is_filled : Option String → Bool
is_filled none = false
is_filled (some s) = elim (str_eq s "") [ true ↦ false | false ↦ true ]

abbrev amount_of : Option AchTransaction → FeatureValue
amount_of none = cents (pos 0)
amount_of (some t) = cents t.amount

abbrev sec_code_of : Option AchTransaction → FeatureValue
sec_code_of none = text ""
sec_code_of (some t) = text t.sec_code

abbrev has_receiver_id : Option AchTransaction → Bool
has_receiver_id none = false
has_receiver_id (some t) = is_filled t.receiver_id

abbrev is_debit : Option AchTransaction → Bool
is_debit none = false
is_debit (some t) = is_debit_type t.transaction_type

unfoldable pub build_ach_features : ExceptionItem → Db → Result Features
build_ach_features e db =
    let txn = find (λ t. t.id == e.source_item_id) db.transactions in
    let is_reported = λ (t : String). flag (any (str_eq t) e.exception_types) in
    ok (
      ("amount", amount_of txn)
      ∷ ("sec_code", sec_code_of txn)
      ∷ ("has_receiver_id", flag (has_receiver_id txn))
      ∷ ("is_debit", flag (is_debit txn))
      ∷ ("is_unauthorized_originator", is_reported "unauthorized_originator")
      ∷ ("is_receiver_id_not_permitted", is_reported "receiver_id_not_permitted")
      ∷ ("is_amount_exceeds_limit", is_reported "amount_exceeds_limit")
      ∷ ("is_frequency_exceeded", is_reported "frequency_exceeded")
      ∷ ("is_sec_code_not_permitted", is_reported "sec_code_not_permitted")
      ∷ [])
