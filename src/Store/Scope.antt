-- ===== src/Store/Scope.antt =====
-- repositories/base.py: the tenant and customer scope that every repository read goes through.
pub mod Isolation
use pos_pay.Base.{
  ℕ, Bool, true, ◌&&◌, Option, none, some, List, [], ◌∷◌, ◌==◌, same_id, select, find, any, length,
  take, drop,
}
use pos_pay.Store.Rows.{Uuid}

-- The columns that scoping reads, and the one that `add` stamps.
pub record Columns (A : Type 0) : Type 0 where
  pub id : A → Uuid
  pub tenant_id : A → Uuid
  pub customer_id : A → Option Uuid
  pub set_tenant_id : Uuid → A → A

-- A repository is bound to the caller's tenant and, for a customer-scoped caller, its customer.
pub record Repository : Type 0 where
  pub tenant_id : Uuid
  pub customer_id : Option Uuid

abbrev pub tenant_wide : Uuid → Repository
tenant_wide t = record { tenant_id = t; customer_id = none }

-- `.offset(n)` and `.limit(n)`, where given.
abbrev pub skip_first : {A : Type 0} → Option ℕ → List A → List A
skip_first none rows = rows
skip_first (some n) rows = drop n rows

abbrev pub limit_to : {A : Type 0} → Option ℕ → List A → List A
limit_to none rows = rows
limit_to (some n) rows = take n rows

module _ {A : Type 0} (c : Columns A) (repo : Repository) where
  -- The WHERE clause of `query`, in both classes.
  unfoldable pub in_scope : A → Bool
  in_scope row =
      c.tenant_id row == repo.tenant_id
      && elim repo.customer_id [ none ↦ true | some k ↦ same_id (c.customer_id row) (some k) ]

  -- `get`: a primary key picks at most one row.
  unfoldable pub get : Uuid → List A → Option A
  get id_ rows = find (λ row. in_scope row && c.id row == id_) rows

  unfoldable pub get_many : List Uuid → List A → List A
  get_many [] rows = []
  get_many (i ∷ ids) rows = select (λ row. in_scope row && any (λ j. c.id row == j) (i ∷ ids)) rows

  -- An equality filter whose value is None is skipped.
  abbrev pub passes : List (Option (A → Bool)) → A → Bool
  passes [] row = true
  passes (none ∷ fs) row = passes fs row
  passes (some f ∷ fs) row = f row && passes fs row

  unfoldable pub filtered_query : List (Option (A → Bool)) → List A → List A
  filtered_query fs rows = select (λ row. in_scope row && passes fs row) rows

  -- `order` is the database's ORDER BY.
  unfoldable pub list :
      Option ℕ → Option ℕ → (List A → List A) → List (Option (A → Bool)) → List A → List A
  list limit offset order fs rows =
      limit_to limit (skip_first offset (order (filtered_query fs rows)))

  unfoldable pub count : List (Option (A → Bool)) → List A → ℕ
  count fs rows = length (filtered_query fs rows)

  -- `add` stamps the tenant of the session, whatever the row says.
  unfoldable pub stamped : A → A
  stamped row = c.set_tenant_id repo.tenant_id row
