-- ===== src/Store/Scope/Isolation.antt =====
-- What a scoped read can see: the rows of its tenant and customer, and nothing else.
use pos_pay.Base.{
  ◌≡◌, Bool, true, ◌&&◌, Option, some, List, [], ◌∷◌, arith, select, All, ◌==◌, find-passes, ◌≢◌,
  ◌⊎◌, none,
}
use pos_pay.Store.Rows.{Uuid}
use pos_pay.Store.Scope.{Columns, Repository, in_scope, get, passes, filtered_query}

All-select :
    {A : Type 0} (p q : A → Bool) (rows : List A)
    → All (λ r. p r ≡ true) (select (λ r. p r && q r) rows)
All-select p q [] = tt
All-select p q (x ∷ rows) = ground (arith, All-select p q rows)

module _ {A : Type 0} (c : Columns A) (repo : Repository) where
  -- What a scoped read finds is in scope, and has the id asked for.
  pub get-in_scope :
      (i : Uuid) (rows : List A) {row : A}
      → get c repo i rows ≡ some row
      → (in_scope c repo row ≡ true) × (c.id row ≡ i)
  unfolding get
  get-in_scope i rows {row} h =
      let e = find-passes (λ r. in_scope c repo r && c.id r == i) rows h in ground (arith, e)

  pub filtered_query-in_scope :
      (fs : List (Option (A → Bool))) (rows : List A)
      → All (λ r. in_scope c repo r ≡ true) (filtered_query c repo fs rows)
  unfolding filtered_query
  filtered_query-in_scope fs rows = All-select (in_scope c repo) (passes c repo fs) rows

-- A row that the caller is not to see: of another tenant, or, for a caller of one customer, not
-- of that customer.
abbrev pub IsForeign : {A : Type 0} → Columns A → Repository → A → Type 0
IsForeign c repo row =
    (c.tenant_id row ≢ repo.tenant_id)
    ⊎ ((k : Uuid) × (repo.customer_id ≡ some k) × (c.customer_id row ≢ some k))

-- A row of the caller's tenant, and of its customer where it is of one.
abbrev pub IsOwn : {A : Type 0} → Columns A → Repository → A → Type 0
IsOwn c repo row =
    (c.tenant_id row ≡ repo.tenant_id)
    × ((repo.customer_id ≡ none) ⊎ (c.customer_id row ≡ repo.customer_id))

-- The second table is the first with rows put in between that the caller is not to see.
pub data ForeignAdded {A : Type 0} (c : Columns A) (repo : Repository)
    : List A → List A → Type 0 where
  no_more : ForeignAdded c repo [] []
  kept :
      (row : A) {xs ys : List A}
      → ForeignAdded c repo xs ys
      → ForeignAdded c repo (row ∷ xs) (row ∷ ys)
  added :
      (row : A) {xs ys : List A}
      → IsForeign c repo row
      → ForeignAdded c repo xs ys
      → ForeignAdded c repo xs (row ∷ ys)
