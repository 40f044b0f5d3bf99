-- ===== src/Accounts/Numbers.antt =====
-- services/account_service.py: accounts are created, listed, and found by the number that a file
-- carries.
pub mod Lookup
use pos_pay.Base.{
  ℕ, String, Bool, true, false, ◌&&◌, ◌||◌, Option, none, some, List, [], ◌∷◌, ◌++◌, ◌==◌, update,
  any, str_eq, str_append, if◌then◌else◌,
}
use pos_pay.Store.Rows.{Uuid, Account, AchDebitBlockMode}
use pos_pay.Store.Db.{Db}
use pos_pay.Store.Exec.{
  Exec, ok, err, pure, gets, modify, raise_if, new_uuid, integrity_error, ◌>>=◌, ◌>>◌,
}
use pos_pay.Store.Scope
use pos_pay.Store.Scope.{Repository, tenant_wide}
use pos_pay.Store.Columns.{account_columns}

pub record AccountInput : Type 0 where
  pub account_number : String
  pub name : String
  pub customer_id : Option Uuid
  pub ach_debit_block_mode : Option AchDebitBlockMode
  pub external_account_id : Option String

-- The column's default.
abbrev pub mode_or_default : Option AchDebitBlockMode → AchDebitBlockMode
mode_or_default none = AchDebitBlockMode.filter_by_authorization
mode_or_default (some mode) = mode

abbrev pub new_account : Uuid → Uuid → AccountInput → Account
new_account i tenant_id data_ = Scope.stamped account_columns (tenant_wide tenant_id) (record {
  id = i;
  tenant_id = tenant_id;
  customer_id = data_.customer_id;
  account_number = data_.account_number;
  external_account_id = data_.external_account_id;
  name = data_.name;
  ach_debit_block_mode = mode_or_default data_.ach_debit_block_mode;
})

-- A null external id never collides.
abbrev pub is_external : String → Account → Bool
is_external number row = elim row.external_account_id [
  | none ↦ false
  | some external ↦ str_eq external number
]

abbrev pub same_external : Account → Option String → Bool
same_external row none = false
same_external row (some external) = is_external external row

-- `uq_account_tenant_number`, `uq_account_tenant_external_id`
abbrev pub collides : Account → Account → Bool
collides new row =
    row.tenant_id == new.tenant_id
    && (str_eq row.account_number new.account_number || same_external row new.external_account_id)

unfoldable pub create_account : Uuid → AccountInput → Exec Account
create_account tenant_id data_ = do
  i ← new_uuid
  let account = new_account i tenant_id data_
  taken ← gets (λ db. any (collides account) db.accounts)
  raise_if taken integrity_error
  modify (λ db. record db { accounts = db.accounts ++ account ∷ [] })
  pure account

unfoldable pub list_accounts :
    Uuid → Option Uuid → Option ℕ → Option ℕ → (List Account → List Account) → Db → List Account
list_accounts tenant_id customer_id limit offset order db =
    Scope.list account_columns (record { tenant_id = tenant_id; customer_id = customer_id }) limit
      offset order [] db.accounts

abbrev pub has_number : String → Account → Bool
has_number number row = str_eq row.account_number number

-- `matches[0]`, of the first list that is not empty.
abbrev pub first_match : List Account → List Account → Option Account
first_match (row ∷ _) _ = some row
first_match [] (row ∷ _) = some row
first_match [] [] = none

unfoldable pub get_account_by_number : Uuid → String → Option Uuid → Db → Option Account
get_account_by_number tenant_id account_number customer_id db =
    first_match
      (Scope.list account_columns (record { tenant_id = tenant_id; customer_id = customer_id }) none
        none (λ rows. rows) (some (has_number account_number) ∷ []) db.accounts)
      (Scope.list account_columns (record { tenant_id = tenant_id; customer_id = customer_id }) none
        none (λ rows. rows) (some (is_external account_number) ∷ []) db.accounts)

-- `default_name or f"Account {account_number}"`
abbrev pub name_or_placeholder : Option String → String → String
name_or_placeholder none number = str_append "Account " number
name_or_placeholder (some name) number =
    if str_eq name "" then str_append "Account " number else name

abbrev pub missing_account : String → Option String → Option Uuid → AccountInput
missing_account number default_name customer_id = record {
  account_number = number;
  name = name_or_placeholder default_name number;
  customer_id = customer_id;
  ach_debit_block_mode = none;
  external_account_id = none;
}

abbrev pub or_create : Uuid → AccountInput → Option Account → Exec Account
or_create tenant_id data_ (some account) = pure account
or_create tenant_id data_ none = create_account tenant_id data_

unfoldable pub get_or_create_account_by_number :
    Uuid → String → Option String → Option Uuid → Exec Account
get_or_create_account_by_number tenant_id account_number default_name customer_id = do
  found ← gets (get_account_by_number tenant_id account_number customer_id)
  or_create tenant_id (missing_account account_number default_name customer_id) found

abbrev pub with_mode : AchDebitBlockMode → Account → Account
with_mode mode account = record account { ach_debit_block_mode = mode }

abbrev pub set_found_mode : AchDebitBlockMode → Option Account → Exec (Option Account)
set_found_mode mode none = pure none
set_found_mode mode (some account) = do
  modify (λ db. record db {
    accounts = update (λ row. row.id == account.id) (with_mode mode) db.accounts;
  })
  pure (some (with_mode mode account))

unfoldable pub set_ach_debit_block_mode : Uuid → Uuid → AchDebitBlockMode → Exec (Option Account)
set_ach_debit_block_mode tenant_id account_id mode = do
  found ← gets (λ db. Scope.get account_columns (tenant_wide tenant_id) account_id db.accounts)
  set_found_mode mode found
