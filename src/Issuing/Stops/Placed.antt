-- ===== src/Issuing/Stops/Placed.antt =====
-- A stop that was placed keeps its check from being paid.
use pos_pay.Base.{◌≤◌, ◌≡◌, true, [], ◌∷◌, ◌++◌}
use pos_pay.Store.Rows.{Uuid, PaidItem, StopPayment, StopPaymentStatus}
use pos_pay.Store.Db.{Db}
use pos_pay.Store.Scope
use pos_pay.Check.Adapter.{covers_date}
use pos_pay.Issuing.Stops.{StopPaymentInput}

-- The stop covers the payment.
record Covers (p : PaidItem) (stop : StopPayment) : Type 0 where
  pub tenant : stop.tenant_id ≡ p.tenant_id
  pub account : stop.account_id ≡ p.account_id
  pub number : stop.check_number ≡ p.check_number
  pub active : stop.status ≡ StopPaymentStatus.active
  pub begun : stop.effective_date ≤ p.presented_date
  pub not_over : covers_date stop.expiration_date p.presented_date ≡ true

-- What `create_stop_payment` stores, where it returns.
record IsPlaced (tenant_id : Uuid) (data_ : StopPaymentInput) (db db' : Db) (stop : StopPayment)
    : Type 0 where
  pub stored : db'.stop_payments ≡ db.stop_payments ++ stop ∷ []
  pub tenant : stop.tenant_id ≡ tenant_id
  pub account : stop.account_id ≡ data_.account_id
  pub number : stop.check_number ≡ data_.check_number
  pub active : stop.status ≡ StopPaymentStatus.active
  pub begins : stop.effective_date ≡ data_.effective_date
  pub ends : stop.expiration_date ≡ data_.expiration_date
