-- ===== src/Accounts/Numbers/Lookup.antt =====
-- The account that a file's row gets is the one that its number finds from then on.
use pos_pay.Base.{
  String, Bool, true, Option, none, some, List, [], ◌∷◌, ◌++◌, ◌≡◌, refl, ◌∙◌, inl, inr, Bool-cases,
  Option-cases, select, ==-refl, str_eq_refl, any, ◌&&◌,
}
use pos_pay.Store.Rows.{Uuid, Account}
use pos_pay.Store.Db.{Db}
use pos_pay.Store.Exec.{ok}
use pos_pay.Store.Scope
use pos_pay.Store.Scope.{Repository}
use pos_pay.Store.Columns.{account_columns}
use pos_pay.Accounts.Numbers.{
  new_account, missing_account, has_number, first_match, collides, create_account,
  get_account_by_number, get_or_create_account_by_number,
}

numbered-append :
    (p : Account → Bool) (rows others : List Account) (new : Account)
    → p new ≡ true
    → first_match (select p rows) others ≡ none
    → (more : List Account) → first_match (select p (rows ++ new ∷ [])) more ≡ some new
numbered-append p [] others new h k more = rw h refl
numbered-append p (x ∷ rows) others new h k more = elim (Bool-cases (p x)) [
  | inl e ↦ absurd (cc (rw e at k))
  | inr e ↦ rw e (numbered-append p rows others new h (rw e at k) more)
]

-- The query by number, in one scope.
abbrev numbered : Uuid → String → Option Uuid → Account → Bool
numbered tenant_id number customer_id row =
    Scope.in_scope account_columns (record { tenant_id = tenant_id; customer_id = customer_id }) row
    && (has_number number row && true)

new_is_numbered :
    (i tenant_id : Uuid) (number : String) (name : Option String) (customer_id : Option Uuid)
    → numbered tenant_id number customer_id
        (new_account i tenant_id (missing_account number name customer_id))
      ≡ true
unfolding Scope.in_scope Scope.stamped
new_is_numbered i tenant_id number name none = rw (==-refl tenant_id) (rw (str_eq_refl number) refl)
new_is_numbered i tenant_id number name (some c) =
    rw (==-refl tenant_id) (rw (==-refl c) (rw (str_eq_refl number) refl))

created_is_found :
    (tenant_id : Uuid) (number : String) (name : Option String) (customer_id : Option Uuid)
    (db : Db) (a : Account)
    → get_account_by_number tenant_id number customer_id db ≡ none
    → (create_account tenant_id (missing_account number name customer_id) db).0 ≡ ok a
    → get_account_by_number tenant_id number customer_id
        (create_account tenant_id (missing_account number name customer_id) db).1
      ≡ some a
unfolding create_account get_account_by_number Scope.list Scope.filtered_query
created_is_found tenant_id number name customer_id db a missing h =
    let new : Account =
      new_account db.next_id tenant_id (missing_account number name customer_id) in
    elim (Bool-cases (any (collides new) db.accounts)) [
      | inl e ↦ absurd (cc (rw e at h))
      | inr e ↦ rw e (
          numbered-append (numbered tenant_id number customer_id) db.accounts _ new
            (new_is_numbered db.next_id tenant_id number name customer_id) missing _
          ∙ (cc (rw e at h)))
    ]

-- The account that a file's row gets is the one its number names: where
-- `get_or_create_account_by_number` returns an account, found or created, `get_account_by_number`
-- for the same tenant, number and customer finds that account on the tables after the call.
pub returned_is_found :
    (tenant_id : Uuid) (number : String) (name : Option String) (customer_id : Option Uuid)
    (db : Db) (a : Account)
    → (get_or_create_account_by_number tenant_id number name customer_id db).0 ≡ ok a
    → get_account_by_number tenant_id number customer_id
        (get_or_create_account_by_number tenant_id number name customer_id db).1
      ≡ some a
unfolding get_or_create_account_by_number create_account
returned_is_found tenant_id number name customer_id db a h =
    elim (Option-cases (get_account_by_number tenant_id number customer_id db)) [
      | inr (b, e) ↦ rw e (e ∙ cc (rw e at h))
      | inl e ↦ rw e (created_is_found tenant_id number name customer_id db a e (rw e at h))
    ]
