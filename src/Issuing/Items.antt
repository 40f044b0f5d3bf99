-- ===== src/Issuing/Items.antt =====
-- services/issued_item_service.py: issued checks are created, one by one or in bulk, and voided.
pub mod Distinct
pub mod Voided
use pos_pay.Base.{
  ℕ, suc, ℤ, String, Text, Bool, true, false, ◌&&◌, Option, none, some, List, [], ◌∷◌, ◌++◌, ◌==◌,
  update, any, str_eq, if◌then◌else◌,
}
use pos_pay.Store.Rows.{Uuid, Account, IssuedItem, IssuedItemStatus, ItemSource}
use pos_pay.Store.Db.{Db, Env}
use pos_pay.Store.Exec.{
  Exec, Result, ok, err, Error, Session, in_transaction, pure, gets, modify, raise_if, new_uuid,
  or_raise, account_not_found, integrity_error, ◌>>=◌, ◌>>◌,
}
use pos_pay.Store.Scope
use pos_pay.Store.Scope.{Repository, tenant_wide}
use pos_pay.Store.Columns.{account_columns, issued_item_columns}

pub record IssuedItemInput : Type 0 where
  pub account_id : Uuid
  pub check_number : String
  pub amount : ℤ
  pub payee_name : Text
  pub issue_date : ℕ

abbrev pub new_issued_item :
    Uuid → Uuid → Account → IssuedItemInput → Option Uuid → ItemSource → IssuedItem
new_issued_item i tenant_id account data_ submitted_by source =
    Scope.stamped issued_item_columns (tenant_wide tenant_id) (record {
      id = i;
      tenant_id = tenant_id;
      account_id = data_.account_id;
      customer_id = account.customer_id;
      check_number = data_.check_number;
      amount = data_.amount;
      payee_name = data_.payee_name;
      issue_date = data_.issue_date;
      status = IssuedItemStatus.outstanding;
      source = source;
      void_reason = none;
      voided_at = none;
      submitted_by_user_id = submitted_by;
    })

-- The unique constraint on (tenant_id, account_id, check_number), which the flush enforces.
abbrev pub same_check : IssuedItem → IssuedItem → Bool
same_check a b =
    b.tenant_id == a.tenant_id
    && (b.account_id == a.account_id && str_eq b.check_number a.check_number)

unfoldable pub create_issued_item :
    Uuid → IssuedItemInput → Option Uuid → ItemSource → Option Uuid → Exec IssuedItem
create_issued_item tenant_id data_ submitted_by source scoped_customer_id = do
  found ← gets (λ db.
      Scope.get account_columns (record { tenant_id = tenant_id; customer_id = scoped_customer_id })
        data_.account_id db.accounts)
  account ← or_raise found account_not_found
  i ← new_uuid
  let item = new_issued_item i tenant_id account data_ submitted_by source
  taken ← gets (λ db. any (same_check item) db.issued_items)
  raise_if taken integrity_error
  modify (λ db. record db { issued_items = db.issued_items ++ item ∷ [] })
  pure item

pub record BulkRowResult : Type 0 where
  pub index : ℕ
  pub outcome : Result Uuid

abbrev row_outcome : Result IssuedItem → Result Uuid
row_outcome (ok item) = ok item.id
row_outcome (err e) = err e

unfoldable pub create_from :
    Uuid
    → Option Uuid
    → Option Uuid
    → ℕ
    → List IssuedItemInput
    → Session
    → List BulkRowResult × Session
create_from tenant_id submitted_by scoped_customer_id index [] session = ([], session)
create_from tenant_id submitted_by scoped_customer_id index (item ∷ rest) session =
    let (r, session') =
      in_transaction
        (create_issued_item tenant_id item submitted_by ItemSource.bulk_file scoped_customer_id)
        session in
    let (results, final) =
      create_from tenant_id submitted_by scoped_customer_id (suc index) rest session' in
    (record { index = index; outcome = row_outcome r } ∷ results, final)

unfoldable pub create_issued_items_bulk :
    Uuid → List IssuedItemInput → Option Uuid → Option Uuid → Session → List BulkRowResult × Session
create_issued_items_bulk tenant_id items submitted_by scoped_customer_id =
    create_from tenant_id submitted_by scoped_customer_id 0 items

abbrev pub voided_row : Env → String → IssuedItem → IssuedItem
voided_row env reason item = record item {
  status = IssuedItemStatus.voided;
  void_reason = some reason;
  voided_at = some env.now;
}

abbrev void_found : Env → String → Option IssuedItem → Exec (Option IssuedItem)
void_found env reason none = pure none
void_found env reason (some item) = do
  modify (λ db. record db {
    issued_items = update (λ x. x.id == item.id) (voided_row env reason) db.issued_items;
  })
  pure (some (voided_row env reason item))

unfoldable pub void_issued_item :
    Env → Uuid → Uuid → String → Option Uuid → Exec (Option IssuedItem)
void_issued_item env tenant_id item_id reason scoped_customer_id = do
  found ← gets (λ db.
      Scope.get issued_item_columns
        (record { tenant_id = tenant_id; customer_id = scoped_customer_id }) item_id
        db.issued_items)
  void_found env reason found
