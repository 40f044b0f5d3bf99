-- ===== src/Check/Ingestion/Settled.antt =====
-- A check that agrees with what was issued is settled, and its issued item marked as paid.
use pos_pay.Base.{
  ◌+◌, ◌<◌, ◌≡◌, refl, ◌∙◌, ap, Bool, true, false, inl, inr, Option, none, some, List, [], ◌∷◌,
  ◌++◌, ◌==◌, arith, Bool-cases, find, select, update, All, Has, any-append, is_some, ==-refl,
}
use pos_pay.Store.Rows.{Uuid, Tenant, Account, IssuedItem, PaidItem}
use pos_pay.Store.Db.{Db, Env}
use pos_pay.Store.Exec.{ok}
use pos_pay.Store.Match.{MatchResult}
use pos_pay.Check.Rules.{evaluate_check_rules, CheckMatchInputs, IssuedItemSnapshot}
use pos_pay.Check.Rules.Exact.{Agrees, no_exceptions_of_Agrees}
use pos_pay.Check.Adapter.{
  snapshot, is_issued_for, find_candidate_issued_item, is_duplicate_paid, is_prior_payment,
  find_active_stop, match_inputs, evaluate, find_completed_ocr,
}
use pos_pay.Check.Ingestion.{
  PaidItemSubmission, find_account, put_paid_item, settled, set_issued_paid, settle,
  ingest_paid_item,
}
use pos_pay.Check.Ingestion.Outcome.{presented, inserted, judged, ingest_known}

-- A payment is no duplicate of itself: its own row does not count.
duplicate-inserted :
    (p : PaidItem) (db : Db) → is_duplicate_paid p (inserted p db) ≡ is_duplicate_paid p db
unfolding is_duplicate_paid
duplicate-inserted p db =
    ground (arith, any-append (is_prior_payment p) db.paid_items p, ==-refl p.id)

pub match_inputs-inserted :
    (env : Env) (p : PaidItem) (tenant : Tenant) (candidate : Option IssuedItem) (db : Db)
    → match_inputs env p tenant candidate (inserted p db) ≡ match_inputs env p tenant candidate db
unfolding match_inputs find_active_stop find_completed_ocr
match_inputs-inserted env p tenant candidate db = rw (duplicate-inserted p db)

rules_of_Agrees :
    (ratio : _) (inputs : CheckMatchInputs) {c : IssuedItemSnapshot}
    → inputs.is_duplicate_paid ≡ false
    → inputs.active_stop_found ≡ false
    → inputs.candidate_issued_item ≡ some c
    → Agrees ratio inputs c
    → evaluate_check_rules ratio inputs ≡ ([], some c.id)
unfolding evaluate_check_rules
rules_of_Agrees ratio inputs {c} once unstopped on_file agrees =
    ground (arith, no_exceptions_of_Agrees ratio inputs c agrees)

-- What a check that is to clear satisfies, before it is presented.
pub record Clears (env : Env) (p : PaidItem) (item : IssuedItem) (db : Db) : Type 0 where
  pub tenant : Tenant
  pub tenant_found : find (λ t. t.id == p.tenant_id) db.tenants ≡ some tenant
  pub on_file : select (is_issued_for p) db.issued_items ≡ item ∷ []
  pub once : is_duplicate_paid p db ≡ false
  pub unstopped : find_active_stop p db ≡ none
  pub agrees : Agrees env.token_set_ratio (match_inputs env p tenant (some item) db) (snapshot item)

evaluate_of_Clears :
    (env : Env) (p : PaidItem) (item : IssuedItem) (db : Db)
    → Clears env p item db
    → evaluate env p (inserted p db)
      ≡ ok (record { matched = true; exception_types = []; related_reference_id = some item.id })
unfolding evaluate find_candidate_issued_item
evaluate_of_Clears env p item db c =
    let inputs = match_inputs env p c.tenant (some item) db in
    let rules =
      rules_of_Agrees env.token_set_ratio inputs {c = snapshot item} (unfold match_inputs in c.once)
        (unfold match_inputs in rw c.unstopped) (unfold match_inputs in refl) c.agrees in
    rw (c.on_file, c.tenant_found, match_inputs-inserted env p c.tenant (some item) db, rules)

-- A row that is in the table is found under its id.
Has-find :
    (item : IssuedItem) (items : List IssuedItem)
    → Has item items
    → is_some (find (λ x. x.id == item.id) items) ≡ true
Has-find item [] h = absurd h
Has-find item (x ∷ items) (inl same) = rw (same, ==-refl item.id)
Has-find item (x ∷ items) (inr h) = ground (arith, Has-find item items h)

Has-select :
    (p : IssuedItem → Bool) (items rest : List IssuedItem) {item : IssuedItem}
    → select p items ≡ item ∷ rest
    → Has item items × (p item ≡ true)
Has-select p [] rest h = cc
Has-select p (x ∷ items) rest h = elim (Bool-cases (p x)) [
  | inl e ↦ ground arith
  | inr e ↦ ground (arith, Has-select p items rest (rw e at h))
]

-- The payments of the table have ids below the next one.
abbrev pub IdsBelow : Db → Type 0
IdsBelow db = All (λ (x : PaidItem). x.id < db.next_id) db.paid_items

replace-last :
    (p q : PaidItem) (ps : List PaidItem)
    → All (λ (x : PaidItem). x.id < p.id) ps
    → update (λ x. x.id == p.id) (λ _. q) (ps ++ p ∷ []) ≡ ps ++ q ∷ []
replace-last p q [] h = rw (==-refl p.id)
replace-last p q (x ∷ ps) h = ground (arith, replace-last p q ps h.1)

settle_found :
    (p : PaidItem) (r : MatchResult) (i : Uuid) (db : Db)
    → r.related_reference_id ≡ some i
    → is_some (find (λ x. x.id == i) db.issued_items) ≡ true
    → settle p r db
      ≡ (ok (settled p (some i)), set_issued_paid i (put_paid_item (settled p (some i)) db))
unfolding settle
settle_found p r i db related found = ground arith

pub ingest-Clears :
    (env : Env) (tenant_id : Uuid) (scope : Option Uuid) (s : PaidItemSubmission) (db : Db)
    {account : Account} {item : IssuedItem}
    → find_account tenant_id scope s.account_id db ≡ some account
    → IdsBelow db
    → let p = presented tenant_id account s db in
      Clears env p item db
      → ingest_paid_item env tenant_id scope s db ≡ (
        ok (settled p (some item.id)),
        record (set_issued_paid item.id db) {
          paid_items = db.paid_items ++ settled p (some item.id) ∷ [];
          next_id = db.next_id + 1;
        },
      )
ingest-Clears env tenant_id scope s db {account} {item} known below c =
    let p = presented tenant_id account s db in
    let there =
      Has-find item db.issued_items (Has-select (is_issued_for p) db.issued_items [] c.on_file).0 in
    let stored = replace-last p (settled p (some item.id)) db.paid_items below in
    ingest_known env tenant_id scope s db known
    ∙ ap (judged env p (inserted p db)) (evaluate_of_Clears env p item db c)
    ∙ settle_found p _ item.id (inserted p db) refl there
    ∙ rw stored
