-- ===== src/Review/Queue.antt =====
-- services/exception_service.py: the queue of exceptions that a person sees.
pub mod Decided
use pos_pay.Base.{
  ℕ, String, Bool, true, false, ◌&&◌, Option, none, some, List, [], ◌∷◌, select, any, length,
  str_eq,
}
use pos_pay.Store.Rows.{Uuid, ExceptionItem, ExceptionStatus}
use pos_pay.Store.Db.{Db}
use pos_pay.Store.Scope
use pos_pay.Store.Scope.{Repository, skip_first, limit_to}
use pos_pay.Store.Columns.{exception_columns}

abbrev pub same_status : ExceptionStatus → ExceptionStatus → Bool
same_status ExceptionStatus.open_ ExceptionStatus.open_ = true
same_status ExceptionStatus.pending_approval ExceptionStatus.pending_approval = true
same_status ExceptionStatus.pay ExceptionStatus.pay = true
same_status ExceptionStatus.return ExceptionStatus.return = true
same_status ExceptionStatus.escalated ExceptionStatus.escalated = true
same_status ExceptionStatus.withdrawn ExceptionStatus.withdrawn = true
same_status _ _ = false

abbrev pub needs_attention : List ExceptionStatus
needs_attention = ExceptionStatus.open_ ∷ ExceptionStatus.pending_approval ∷ []

abbrev pub of_network : Option String → ExceptionItem → Bool
of_network none e = true
of_network (some network_code) e = str_eq e.network_code network_code

-- `None` and the empty tuple do not filter.
abbrev pub of_statuses : Option (List ExceptionStatus) → ExceptionItem → Bool
of_statuses none e = true
of_statuses (some []) e = true
of_statuses (some (s ∷ statuses)) e = any (same_status e.status) (s ∷ statuses)

unfoldable pub query :
    Uuid → Option String → Option (List ExceptionStatus) → Option Uuid → Db → List ExceptionItem
query tenant_id network_code statuses customer_id db =
    select
      (λ e.
        Scope.in_scope exception_columns
          (record { tenant_id = tenant_id; customer_id = customer_id }) e
        && (of_network network_code e && of_statuses statuses e))
      db.exceptions

-- `statuses or ((status,) if status else None)`
abbrev pub statuses_or :
    Option (List ExceptionStatus) → Option ExceptionStatus → Option (List ExceptionStatus)
statuses_or (some (s ∷ statuses)) _ = some (s ∷ statuses)
statuses_or _ none = none
statuses_or _ (some status) = some (status ∷ [])

-- `order` is the database's ORDER BY, where one is given.
unfoldable pub list_exceptions :
    Uuid
    → Option String
    → Option ExceptionStatus
    → Option (List ExceptionStatus)
    → Option Uuid
    → Option ℕ
    → Option ℕ
    → (List ExceptionItem → List ExceptionItem)
    → Db
    → List ExceptionItem
list_exceptions tenant_id network_code status statuses customer_id limit offset order db =
    limit_to limit (
      skip_first offset
        (order (query tenant_id network_code (statuses_or statuses status) customer_id db)))

unfoldable pub count_exceptions :
    Uuid → Option String → Option (List ExceptionStatus) → Option Uuid → Db → ℕ
count_exceptions tenant_id network_code statuses customer_id db =
    length (query tenant_id network_code statuses customer_id db)

unfoldable pub get_exception : Uuid → Uuid → Option Uuid → Db → Option ExceptionItem
get_exception tenant_id exception_id customer_id db =
    Scope.get exception_columns (record { tenant_id = tenant_id; customer_id = customer_id })
      exception_id db.exceptions
