-- ===== src/Issuing/Stops.antt =====
-- services/stop_payment_service.py: stops are placed, cancelled and listed.
pub mod Placed
use pos_pay.Base.{
  ℕ, ℤ, String, Bool, true, false, Option, none, some, List, [], ◌∷◌, ◌++◌, ◌==◌, update,
}
use pos_pay.Store.Rows.{Uuid, Account, StopPayment, StopPaymentStatus}
use pos_pay.Store.Db.{Db}
use pos_pay.Store.Exec.{
  Exec, ok, err, pure, gets, modify, new_uuid, or_raise, account_not_found, ◌>>=◌, ◌>>◌,
}
use pos_pay.Store.Scope
use pos_pay.Store.Scope.{Repository, tenant_wide}
use pos_pay.Store.Columns.{account_columns, stop_payment_columns}

pub record StopPaymentInput : Type 0 where
  pub account_id : Uuid
  pub check_number : String
  pub amount : Option ℤ
  pub effective_date : ℕ
  pub expiration_date : Option ℕ
  pub reason : Option String

abbrev pub new_stop : Uuid → Uuid → Account → StopPaymentInput → Option Uuid → StopPayment
new_stop i tenant_id account data_ created_by =
    Scope.stamped stop_payment_columns (tenant_wide tenant_id) (record {
      id = i;
      tenant_id = tenant_id;
      account_id = data_.account_id;
      customer_id = account.customer_id;
      check_number = data_.check_number;
      amount = data_.amount;
      effective_date = data_.effective_date;
      expiration_date = data_.expiration_date;
      reason = data_.reason;
      status = StopPaymentStatus.active;
      created_by_user_id = created_by;
    })

unfoldable pub create_stop_payment :
    Uuid → StopPaymentInput → Option Uuid → Option Uuid → Exec StopPayment
create_stop_payment tenant_id data_ created_by scoped_customer_id = do
  found ← gets (λ db.
      Scope.get account_columns (record { tenant_id = tenant_id; customer_id = scoped_customer_id })
        data_.account_id db.accounts)
  account ← or_raise found account_not_found
  i ← new_uuid
  let stop = new_stop i tenant_id account data_ created_by
  modify (λ db. record db { stop_payments = db.stop_payments ++ stop ∷ [] })
  pure stop

abbrev pub cancelled : StopPayment → StopPayment
cancelled stop = record stop { status = StopPaymentStatus.cancelled }

abbrev cancel_found : Option StopPayment → Exec (Option StopPayment)
cancel_found none = pure none
cancel_found (some stop) = do
  modify
      (λ db. record db { stop_payments = update (λ x. x.id == stop.id) cancelled db.stop_payments })
  pure (some (cancelled stop))

unfoldable pub cancel_stop_payment : Uuid → Uuid → Option Uuid → Exec (Option StopPayment)
cancel_stop_payment tenant_id stop_id scoped_customer_id = do
  found ← gets (λ db.
      Scope.get stop_payment_columns
        (record { tenant_id = tenant_id; customer_id = scoped_customer_id }) stop_id
        db.stop_payments)
  cancel_found found

abbrev is_status : StopPaymentStatus → StopPayment → Bool
is_status StopPaymentStatus.active stop = elim stop.status [
  | StopPaymentStatus.active ↦ true
  | _ ↦ false
]
is_status StopPaymentStatus.expired stop = elim stop.status [
  | StopPaymentStatus.expired ↦ true
  | _ ↦ false
]
is_status StopPaymentStatus.cancelled stop = elim stop.status [
  | StopPaymentStatus.cancelled ↦ true
  | _ ↦ false
]

abbrev status_filter : Option StopPaymentStatus → Option (StopPayment → Bool)
status_filter none = none
status_filter (some status) = some (is_status status)

unfoldable pub list_stop_payments :
    Uuid
    → Option StopPaymentStatus
    → Option Uuid
    → Option ℕ
    → Option ℕ
    → (List StopPayment → List StopPayment)
    → Db
    → List StopPayment
list_stop_payments tenant_id status customer_id limit offset order db =
    Scope.list stop_payment_columns (record { tenant_id = tenant_id; customer_id = customer_id })
      limit offset order (status_filter status ∷ []) db.stop_payments
