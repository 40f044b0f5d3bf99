-- ===== src/Ach/Ingestion/Outcome.antt =====
-- What becomes of an ACH entry: settled, put up for review, or refused before anything is kept.
use pos_pay.Base.{
  ◌+◌, ◌≡◌, refl, ◌∙◌, ap, Bool, true, false, Option, none, some, [], ◌∷◌, ◌++◌, ◌==◌, map, arith,
  inl, inr, update,
}
use pos_pay.Store.Rows.{Uuid, Account, AchTransaction, ExceptionItem}
use pos_pay.Store.Db.{Db, Env}
use pos_pay.Store.Exec.{Exec, Result, ok, err, Result-cases, account_not_found, integrity_error}
use pos_pay.Store.Match.{MatchResult}
use pos_pay.Scoring.{score_exception}
use pos_pay.Scoring.Frame.{unscored}
use pos_pay.Scoring.FollowUp.{answer_after, follow_up-IsFollowedUp, follow_up-result}
use pos_pay.Notify.{notify_exception_created}
use pos_pay.Review.Disposition.{compute_decision_deadline}
use pos_pay.Review.Disposition.Settings.{compute_decision_deadline_lem}
use pos_pay.Ach.Adapter.{evaluate}
use pos_pay.Ach.Ingestion.{
  AchTransactionSubmission, find_account, new_transaction, is_trace_taken, put_transaction,
  unmatched, new_exception, settle, open_exception, ingest_ach_transaction,
}

-- The row that is written, and the tables when the adapter judges it.
abbrev pub received : Uuid → Account → AchTransactionSubmission → Db → AchTransaction
received tenant_id account s db = new_transaction db.next_id tenant_id account s

abbrev pub inserted : AchTransaction → Db → Db
inserted t db = record db { transactions = db.transactions ++ t ∷ []; next_id = db.next_id + 1 }

abbrev pub act : Env → AchTransaction → MatchResult → Bool → Exec AchTransaction
act env t result true = settle t
act env t result false = open_exception env t result

abbrev pub judged : Env → AchTransaction → Db → Result MatchResult → Result AchTransaction × Db
judged env t db (err e) = (err e, db)
judged env t db (ok result) = act env t result result.matched db

module _ (env : Env) (tenant_id : Uuid) (scope : Option Uuid) (s : AchTransactionSubmission)
    (db : Db) where
  pub ingest_known :
      {account : Account}
      → find_account tenant_id scope s.account_id db ≡ some account
      → is_trace_taken tenant_id s.trace_number db ≡ false
      → let t = received tenant_id account s db in
        ingest_ach_transaction env tenant_id scope s db
        ≡ judged env t (inserted t db) (evaluate t (inserted t db))
  unfolding ingest_ach_transaction
  ingest_known {account} found free =
      let t = received tenant_id account s db in
      elim (Result-cases (evaluate t (inserted t db))) [
        | inl (r, e) ↦ ground arith
        | inr (x, e) ↦ ground arith
      ]

  -- An entry for an account outside the caller's tenant and scope is refused and writes nothing.
  pub ingest_unknown_account :
      find_account tenant_id scope s.account_id db ≡ none
      → ingest_ach_transaction env tenant_id scope s db ≡ (err account_not_found, db)
  unfolding ingest_ach_transaction
  ingest_unknown_account missing = ground arith

  -- One whose trace number the tenant already has is refused, and uses up an id.
  pub ingest_taken :
      {account : Account}
      → find_account tenant_id scope s.account_id db ≡ some account
      → is_trace_taken tenant_id s.trace_number db ≡ true
      → ingest_ach_transaction env tenant_id scope s db
        ≡ (err integrity_error, record db { next_id = db.next_id + 1 })
  unfolding ingest_ach_transaction
  ingest_taken found taken = ground arith

-- The exception that is opened for an entry that is not matched.
abbrev pub opened : Env → AchTransaction → MatchResult → Db → ExceptionItem
opened env t result db =
    new_exception db.next_id t result
      (compute_decision_deadline env t.tenant_id t.customer_id "ach" db)

abbrev pub with_exception : AchTransaction → ExceptionItem → Db → Db
with_exception t e db =
    let db' = put_transaction (unmatched t) db in
    record db' { exceptions = db.exceptions ++ e ∷ []; next_id = db.next_id + 1 }

-- The exception, and the tables, when scoring begins.
abbrev pub to_score : Env → AchTransaction → MatchResult → Db → ExceptionItem
to_score env t result db = opened env t result (put_transaction (unmatched t) db)

abbrev pub when_scored : Env → AchTransaction → MatchResult → Db → Db
when_scored env t result db = with_exception t (to_score env t result db) db

-- How the call ends: with the row, or as scoring or notifying does where one of them raises.
abbrev pub answer : Env → AchTransaction → MatchResult → Db → Result AchTransaction
answer env t result db =
    let scored = score_exception env (to_score env t result db) (when_scored env t result db) in
    answer_after scored.0 (notify_exception_created (to_score env t result db) scored.1).0
      (unmatched t)

pub record IsPutUp (env : Env) (t : AchTransaction) (result : MatchResult) (db db' : Db)
    : Type 0 where
  pub rest : db' ≡ record db {
    transactions = update (λ x. x.id == t.id) (λ _. unmatched t) db.transactions;
    exceptions = db'.exceptions;
    notifications = db'.notifications;
    model_cache = db'.model_cache;
    next_id = db.next_id + 1;
  }
  pub exceptions :
      map unscored db'.exceptions ≡ map unscored (db.exceptions ++ opened env t result db ∷ [])

pub open_exception-IsPutUp :
    (env : Env) (t : AchTransaction) (result : MatchResult) (db : Db)
    → IsPutUp env t result db (open_exception env t result db).1
unfolding open_exception
open_exception-IsPutUp env t result db =
    let e = opened env t result (put_transaction (unmatched t) db) in
    let db1 = with_exception t e db in
    let after = follow_up-IsFollowedUp env e (unmatched t) db1 in
    record {
      rest = ground (arith, after.rest);
      exceptions =
          after.exceptions
          ∙ ap (λ d. map unscored (db.exceptions ++ new_exception db.next_id t result d ∷ []))
              (compute_decision_deadline_lem env t.tenant_id t.customer_id "ach" db _ refl);
    }

pub opened_ok :
    (env : Env) (t : AchTransaction) (r : MatchResult) (db : Db) {q : AchTransaction}
    → (open_exception env t r db).0 ≡ ok q
    → q ≡ unmatched t
unfolding open_exception
opened_ok env t r db h =
    let e = opened env t r (put_transaction (unmatched t) db) in
    follow_up-result (score_exception env e) (notify_exception_created e) _ _ h
