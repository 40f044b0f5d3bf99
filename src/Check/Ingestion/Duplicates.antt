-- ===== src/Check/Ingestion/Duplicates.antt =====
-- A check that was paid is not paid again.
use pos_pay.Base.{
  ◌+◌, ◌≡◌, ap, true, Option, some, List, [], ◌∷◌, ◌++◌, arith, any, any-append, eqb_ℤ-refl,
  ==-refl, str_eq_refl,
}
use pos_pay.Store.Rows.{Uuid, Account, PaidItem, PaidItemSettlementStatus}
use pos_pay.Store.Db.{Db, Env}
use pos_pay.Store.Exec.{ok}
use pos_pay.Check.Adapter.{is_prior_payment, is_duplicate_paid}
use pos_pay.Check.Ingestion.{PaidItemSubmission, settled, ingest_paid_item}
use pos_pay.Check.Ingestion.Outcome.{presented}
use pos_pay.Check.Ingestion.Settled.{IdsBelow, ingest-Clears}
use pos_pay.Check.Ingestion.Cleared.{ingest_paid_only_if_Clears}

duplicate_of_stored :
    (p q : PaidItem) (ps : List PaidItem) (db : Db)
    → db.paid_items ≡ ps ++ q ∷ []
    → is_prior_payment p q ≡ true
    → is_duplicate_paid p db ≡ true
unfolding is_duplicate_paid
duplicate_of_stored p q ps db stored prior =
    ground (arith, ap (any (is_prior_payment p)) stored, any-append (is_prior_payment p) ps q)

prior_of_same :
    (tenant_id : Uuid) (a a' : Account) (s s' : PaidItemSubmission) (db db' : Db) (i : Uuid)
    → s'.account_id ≡ s.account_id
    → s'.check_number ≡ s.check_number
    → s'.presented_amount ≡ s.presented_amount
    → db'.next_id ≡ db.next_id + 1
    → is_prior_payment
        (presented tenant_id a' s' db')
        (settled (presented tenant_id a s db) (some i))
      ≡ true
prior_of_same tenant_id a a' s s' db db' i account number amount next = ground (
  arith,
  ==-refl tenant_id,
  ==-refl s.account_id,
  eqb_ℤ-refl s.presented_amount,
  str_eq_refl s.check_number,
  account,
  number,
  amount,
  next,
)

-- A check is paid once: after a call that paid it, on tables whose payments have ids below the
-- next one, no second presentment of the same number for the same account and amount in the tenant
-- is paid, in whatever scope and on whatever date it is presented.
pub never_paid_twice :
    (env env' : Env) (tenant_id : Uuid) (scope scope' : Option Uuid) (s s' : PaidItemSubmission)
    (db : Db) {q q' : PaidItem}
    → IdsBelow db
    → (ingest_paid_item env tenant_id scope s db).0 ≡ ok q
    → q.settlement_status ≡ PaidItemSettlementStatus.paid
    → s'.account_id ≡ s.account_id
    → s'.check_number ≡ s.check_number
    → s'.presented_amount ≡ s.presented_amount
    → let db' = (ingest_paid_item env tenant_id scope s db).1 in
      (ingest_paid_item env' tenant_id scope' s' db').0 ≡ ok q'
      → ¬ (q'.settlement_status ≡ PaidItemSettlementStatus.paid)
never_paid_twice env env' tenant_id scope scope' s s' db below first paid account number amount
      second again =
    let db' = (ingest_paid_item env tenant_id scope s db).1 in
    let (a, known, (item, c)) = ingest_paid_only_if_Clears env tenant_id scope s db first paid in
    let (a', known', (item', c')) =
      ingest_paid_only_if_Clears env' tenant_id scope' s' db' second again in
    let wrote = ingest-Clears env tenant_id scope s db known below c in
    let stored = ap (λ x. x.1.paid_items) wrote in
    let next = ap (λ x. x.1.next_id) wrote in
    let prior = prior_of_same tenant_id a a' s s' db db' item.id account number amount next in
    let twice =
      duplicate_of_stored (presented tenant_id a' s' db') _ db.paid_items db' stored prior in
    cc (twice, c'.once)
