-- ===== src/Issuing/Items/Voided.antt =====
-- A check that was voided is not paid.
use pos_pay.Base.{
  String, ◌≡◌, refl, sym, subst, ap, ◌∙◌, Bool, true, ◌&&◌, ◌==◌, Option, some, List, [], ◌∷◌,
  arith, inl, inr, Option-cases, Bool-cases, select, find, find-Has, find-passes, update, Has,
  str_eq, str_eq_refl, ==-refl,
}
use pos_pay.Store.Rows.{Uuid, IssuedItem, IssuedItemStatus, PaidItem, PaidItemSettlementStatus}
use pos_pay.Store.Db.{Db, Env}
use pos_pay.Store.Exec.{ok}
use pos_pay.Store.Scope
use pos_pay.Store.Columns.{issued_item_columns}
use pos_pay.Check.Adapter.{is_issued_for, status_value}
use pos_pay.Check.Ingestion.{PaidItemSubmission, ingest_paid_item}
use pos_pay.Check.Ingestion.Outcome.{presented}
use pos_pay.Check.Ingestion.Cleared.{ingest_paid_only_if_Clears}
use pos_pay.Issuing.Items.{voided_row, void_issued_item}

-- A row that the assignment reaches is in the table after it.
Has-update :
    (i : Uuid) (f : IssuedItem → IssuedItem) (xs : List IssuedItem) (x : IssuedItem)
    → x.id ≡ i
    → Has x xs
    → Has (f x) (update (λ y. y.id == i) f xs)
Has-update i f [] x same h = absurd h
Has-update i f (y ∷ xs) x same (inl e) =
    let reached : (y.id == i) ≡ true = rw (ap (λ (r : IssuedItem). r.id) e ∙ same) (==-refl i) in
    inl (ground (arith, ap f e))
Has-update i f (y ∷ xs) x same (inr h) = inr (Has-update i f xs x same h)

not_empty :
    (p : IssuedItem → Bool) (xs : List IssuedItem) (x : IssuedItem)
    → Has x xs
    → p x ≡ true
    → ¬ (select p xs ≡ [])
not_empty p [] x h keeps e = absurd h
not_empty p (z ∷ xs) x (inl same) keeps e =
    let kept : p z ≡ true = ap p same ∙ keeps in ground arith
not_empty p (z ∷ xs) x (inr h) keeps e = elim (Bool-cases (p z)) [
  | inl kept ↦ ground arith
  | inr passed ↦ not_empty p xs x h keeps (rw passed at e)
]

-- What is alone in a query is any row that the query keeps.
only_one :
    (p : IssuedItem → Bool) (xs : List IssuedItem) (x y : IssuedItem)
    → Has x xs
    → p x ≡ true
    → select p xs ≡ y ∷ []
    → x ≡ y
only_one p [] x y h keeps one = absurd h
only_one p (z ∷ xs) x y (inl same) keeps one =
    let kept : p z ≡ true = ap p same ∙ keeps in ground arith
only_one p (z ∷ xs) x y (inr h) keeps one = elim (Bool-cases (p z)) [
  | inl kept ↦ absurd (not_empty p xs x h keeps (ground arith))
  | inr passed ↦ only_one p xs x y h keeps (rw passed at one)
]

-- What `void_issued_item` does, where it finds the item.
record IsVoided (env : Env) (reason : String) (i tenant_id : Uuid) (db db' : Db) (v : IssuedItem)
    : Type 0 where
  pub item : IssuedItem
  pub there : Has item db.issued_items
  pub tenant : item.tenant_id ≡ tenant_id
  pub row : v ≡ voided_row env reason item
  pub stored :
      db'.issued_items ≡ update (λ y. y.id == item.id) (voided_row env reason) db.issued_items

void-IsVoided :
    (env : Env) (tenant_id i : Uuid) (reason : String) (scope : Option Uuid) (db : Db)
    {v : IssuedItem}
    → (void_issued_item env tenant_id i reason scope db).0 ≡ ok (some v)
    → IsVoided env reason i tenant_id db (void_issued_item env tenant_id i reason scope db).1 v
unfolding void_issued_item Scope.get Scope.in_scope
void-IsVoided env tenant_id i reason scope db h =
    let repo : Scope.Repository = record { tenant_id = tenant_id; customer_id = scope } in
    let p = λ (row : IssuedItem). Scope.in_scope issued_item_columns repo row && row.id == i in
    elim (Option-cases (find p db.issued_items)) [
      | inl missing ↦ ground arith
      | inr (item, found) ↦
          let passes = find-passes p db.issued_items found in
          record {
            item = item;
            there = find-Has p db.issued_items found;
            tenant = ground arith;
            row = ground arith;
            stored = ground arith;
          }
    ]

-- A voided check is not paid: after `void_issued_item` has returned the item, no presentment of
-- its number for its account in the tenant is paid, in whatever scope, on whatever date and for
-- whatever amount it is presented.
pub voided_not_paid :
    (env : Env) (tenant_id i : Uuid) (reason : String) (scope : Option Uuid) (db : Db) (env' : Env)
    (scope' : Option Uuid) (s : PaidItemSubmission) {v : IssuedItem} {q : PaidItem}
    → (void_issued_item env tenant_id i reason scope db).0 ≡ ok (some v)
    → s.account_id ≡ v.account_id
    → s.check_number ≡ v.check_number
    → let db' = (void_issued_item env tenant_id i reason scope db).1 in
      (ingest_paid_item env' tenant_id scope' s db').0 ≡ ok q
      → ¬ (q.settlement_status ≡ PaidItemSettlementStatus.paid)
unfolding status_value
voided_not_paid env tenant_id i reason scope db env' scope' s {v = v} voided account number h paid =
    let db' = (void_issued_item env tenant_id i reason scope db).1 in
    let w = void-IsVoided env tenant_id i reason scope db voided in
    let (a, known, (item, c)) = ingest_paid_only_if_Clears env' tenant_id scope' s db' h paid in
    let p = presented tenant_id a s db' in
    let reached =
      Has-update w.item.id (voided_row env reason) db.issued_items w.item refl w.there in
    let there : Has v db'.issued_items =
      subst (λ l. Has v l) (sym w.stored)
        (subst
          (λ r. Has r (update (λ y. y.id == w.item.id) (voided_row env reason) db.issued_items))
          (sym w.row) reached) in
    let tenant : v.tenant_id ≡ tenant_id = ap (λ (r : IssuedItem). r.tenant_id) w.row ∙ w.tenant in
    let keeps : is_issued_for p v ≡ true = ground (
      arith,
      ==-refl tenant_id,
      ==-refl s.account_id,
      str_eq_refl s.check_number,
      tenant,
      account,
      number,
    ) in
    let same = only_one (is_issued_for p) db'.issued_items v item there keeps c.on_file in
    let status : item.status ≡ IssuedItemStatus.voided =
      ap (λ (r : IssuedItem). r.status) (sym same) ∙ ap (λ (r : IssuedItem). r.status) w.row in
    let is_voided : str_eq (status_value item.status) "voided" ≡ true =
      ap (λ x. str_eq (status_value x) "voided") status in
    cc (sym is_voided ∙ c.agrees.not_voided)
