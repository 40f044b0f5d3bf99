-- ===== src/Store/Columns.antt =====
-- The scoped columns of each table: the CustomerScopedRepository and TenantScopedRepository
-- subclasses of src/pospay/repositories.
use pos_pay.Base.{none}
use pos_pay.Store.Rows.{
  Account, IssuedItem, PaidItem, StopPayment, AchReturnReason, ExceptionItem, AchTransaction,
  AchAuthorizationRule,
}
use pos_pay.Store.Scope.{Columns}

abbrev pub account_columns : Columns Account
account_columns = record {
  id = λ r. r.id;
  tenant_id = λ r. r.tenant_id;
  customer_id = λ r. r.customer_id;
  set_tenant_id = λ t r. record r { tenant_id = t };
}

abbrev pub issued_item_columns : Columns IssuedItem
issued_item_columns = record {
  id = λ r. r.id;
  tenant_id = λ r. r.tenant_id;
  customer_id = λ r. r.customer_id;
  set_tenant_id = λ t r. record r { tenant_id = t };
}

abbrev pub paid_item_columns : Columns PaidItem
paid_item_columns = record {
  id = λ r. r.id;
  tenant_id = λ r. r.tenant_id;
  customer_id = λ r. r.customer_id;
  set_tenant_id = λ t r. record r { tenant_id = t };
}

abbrev pub stop_payment_columns : Columns StopPayment
stop_payment_columns = record {
  id = λ r. r.id;
  tenant_id = λ r. r.tenant_id;
  customer_id = λ r. r.customer_id;
  set_tenant_id = λ t r. record r { tenant_id = t };
}

abbrev pub transaction_columns : Columns AchTransaction
transaction_columns = record {
  id = λ r. r.id;
  tenant_id = λ r. r.tenant_id;
  customer_id = λ r. r.customer_id;
  set_tenant_id = λ t r. record r { tenant_id = t };
}

abbrev pub authorization_columns : Columns AchAuthorizationRule
authorization_columns = record {
  id = λ r. r.id;
  tenant_id = λ r. r.tenant_id;
  customer_id = λ r. r.customer_id;
  set_tenant_id = λ t r. record r { tenant_id = t };
}

-- The catalog is tenant-wide: it has no customer column.
abbrev pub return_reason_columns : Columns AchReturnReason
return_reason_columns = record {
  id = λ r. r.id;
  tenant_id = λ r. r.tenant_id;
  customer_id = λ r. none;
  set_tenant_id = λ t r. record r { tenant_id = t };
}

abbrev pub exception_columns : Columns ExceptionItem
exception_columns = record {
  id = λ r. r.id;
  tenant_id = λ r. r.tenant_id;
  customer_id = λ r. r.customer_id;
  set_tenant_id = λ t r. record r { tenant_id = t };
}
