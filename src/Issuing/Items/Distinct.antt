-- ===== src/Issuing/Items/Distinct.antt =====
-- One issued item for each check: the table keeps its unique key, so the matching query finds it.
use pos_pay.Base.{
  ℕ, suc, ◌≡◌, refl, sym, subst, true, false, Option, List, [], ◌∷◌, ◌++◌, arith, inl, inr,
  Option-cases, Bool-cases, select, find, any, any-append, ==-sym, str_eq-sym, ==→eq, eq_iff,
}
use pos_pay.Store.Rows.{Uuid, IssuedItem, ItemSource, PaidItem}
use pos_pay.Store.Db.{Db}
use pos_pay.Store.Exec.{
  Exec, ok, Result-cases, one_or_none, Session, in_transaction, end_transaction,
}
use pos_pay.Store.Scope
use pos_pay.Store.Columns.{account_columns}
use pos_pay.Check.Adapter.{is_issued_for, find_candidate_issued_item}
use pos_pay.Issuing.Items.{
  IssuedItemInput, new_issued_item, same_check, create_issued_item, create_from,
  create_issued_items_bulk,
}

-- No two rows share tenant, account and check number.
abbrev pub IsDistinct : List IssuedItem → Type 0
IsDistinct [] = Unit
IsDistinct (x ∷ xs) = (any (same_check x) xs ≡ false) × IsDistinct xs

same_check-sym : (a b : IssuedItem) → same_check a b ≡ same_check b a
same_check-sym a b = ground (
  arith,
  ==-sym a.tenant_id b.tenant_id,
  ==-sym a.account_id b.account_id,
  str_eq-sym a.check_number b.check_number,
)

IsDistinct-append :
    (xs : List IssuedItem) (x : IssuedItem)
    → IsDistinct xs
    → any (same_check x) xs ≡ false
    → IsDistinct (xs ++ x ∷ [])
IsDistinct-append [] x h free = (refl, tt)
IsDistinct-append (y ∷ xs) x h free = ground (
  arith,
  any-append (same_check y) xs x,
  same_check-sym x y,
  IsDistinct-append xs x h.1 (ground arith),
)

pub create-IsDistinct :
    (tenant_id : Uuid) (data_ : IssuedItemInput) (by : Option Uuid) (source : ItemSource)
    (scope : Option Uuid) (db : Db)
    → IsDistinct db.issued_items
    → IsDistinct (create_issued_item tenant_id data_ by source scope db).1.issued_items
unfolding create_issued_item
create-IsDistinct tenant_id data_ by source scope db distinct =
    elim (Option-cases (
      Scope.get account_columns (record { tenant_id = tenant_id; customer_id = scope })
        data_.account_id db.accounts)) [
          | inl missing ↦ ground arith
          | inr (account, found) ↦
              let item = new_issued_item db.next_id tenant_id account data_ by source in
              elim (Bool-cases (any (same_check item) db.issued_items)) [
                | inl taken ↦ ground arith
                | inr free ↦ ground (arith, IsDistinct-append db.issued_items item distinct free)
              ]
        ]

-- A row of the payment's check has the key of any other such row.
any_of_select :
    (p : PaidItem) (x : IssuedItem) (xs : List IssuedItem)
    → is_issued_for p x ≡ true
    → any (same_check x) xs ≡ false
    → select (is_issued_for p) xs ≡ []
any_of_select p x [] h none_same = refl
any_of_select p x (y ∷ xs) h none_same = ground (
  arith,
  any_of_select p x xs h (ground arith),
  ==→eq x.tenant_id p.tenant_id,
  ==→eq x.account_id p.account_id,
  eq_iff x.check_number p.check_number,
)

select-find :
    (p : PaidItem) (xs : List IssuedItem)
    → IsDistinct xs
    → one_or_none (select (is_issued_for p) xs) ≡ ok (find (is_issued_for p) xs)
select-find p [] h = refl
select-find p (x ∷ xs) h = elim (Bool-cases (is_issued_for p x)) [
  | inl e ↦ rw (e, any_of_select p x xs e h.0) refl
  | inr e ↦ rw e (select-find p xs h.1)
]

in_transaction-IsDistinct :
    (m : Exec IssuedItem) (session : Session)
    → IsDistinct (m session.db).1.issued_items
    → IsDistinct session.saved.issued_items
    → IsDistinct (in_transaction m session).1.db.issued_items
      × IsDistinct (in_transaction m session).1.saved.issued_items
in_transaction-IsDistinct m session done kept =
    let pending = record session { db = (m session.db).1 } in
    elim (Result-cases (m session.db).0) [
      | inl (a, e) ↦
          subst
            (λ r.
              IsDistinct (end_transaction r pending).1.db.issued_items
              × IsDistinct (end_transaction r pending).1.saved.issued_items)
            (sym e) (done, done)
      | inr (x, e) ↦
          subst
            (λ r.
              IsDistinct (end_transaction r pending).1.db.issued_items
              × IsDistinct (end_transaction r pending).1.saved.issued_items)
            (sym e) (kept, kept)
    ]

create_from-IsDistinct :
    (tenant_id : Uuid) (by scope : Option Uuid) (index : ℕ) (items : List IssuedItemInput)
    (session : Session)
    → IsDistinct session.db.issued_items
    → IsDistinct session.saved.issued_items
    → IsDistinct (create_from tenant_id by scope index items session).1.db.issued_items
unfolding create_from
create_from-IsDistinct tenant_id by scope index [] session h k = h
create_from-IsDistinct tenant_id by scope index (item ∷ rest) session h k =
    let m = create_issued_item tenant_id item by ItemSource.bulk_file scope in
    let kept =
      in_transaction-IsDistinct m session
        (create-IsDistinct tenant_id item by ItemSource.bulk_file scope session.db h) k in
    create_from-IsDistinct tenant_id by scope (suc index) rest (in_transaction m session).1 kept.0
      kept.1

-- Where no two issued items share tenant, account and check number, pending and saved, none do
-- after a bulk file of issued items, of which any rows may be refused, and the query of the
-- matching engine for a payment's issued item returns the one there is or none, and does not fail
-- for several.
pub find_candidate-IsDistinct :
    (tenant_id : Uuid) (items : List IssuedItemInput) (by scope : Option Uuid) (session : Session)
    (p : PaidItem)
    → IsDistinct session.db.issued_items
    → IsDistinct session.saved.issued_items
    → let db' = (create_issued_items_bulk tenant_id items by scope session).1.db in
      IsDistinct db'.issued_items
      × (find_candidate_issued_item p db' ≡ ok (find (is_issued_for p) db'.issued_items))
unfolding create_issued_items_bulk find_candidate_issued_item
find_candidate-IsDistinct tenant_id items by scope session p h k =
    let kept = create_from-IsDistinct tenant_id by scope 0 items session h k in
    (kept, select-find p _ kept)
