-- ===== src/Review/Decide/Effect.antt =====
-- What a decision writes, and that a refusal writes nothing.
use pos_pay.Base.{
  String, true, false, ◌&&◌, Option, none, some, [], ◌∷◌, ◌++◌, ◌≡◌, sym, ◌∙◌, ap, ◌==◌, inl, inr,
  arith, Option-cases, find, update, str_eq,
}
use pos_pay.Store.Rows.{
  Uuid, ExceptionItem, Decision, DecisionOutcome, DecisionSource, AchReturnReason, AchTransaction,
  AchSettlementStatus, given,
}
use pos_pay.Store.Db.{Db, Env, Features}
use pos_pay.Store.Exec.{ok}
use pos_pay.Store.Scope
use pos_pay.Store.Scope.{Repository, tenant_wide}
use pos_pay.Store.Scope.Isolation.{get-in_scope}
use pos_pay.Store.Columns.{exception_columns, return_reason_columns}
use pos_pay.Review.Record.{status_for, is_decided, is_return}
use pos_pay.Review.Record.Effect.{record_decision-Recorded}
use pos_pay.Review.Decide.{
  is_ach_return, ServiceResult, Context, Submission, resolve_ach_return_reason, get_exception,
  decide,
}
use pos_pay.Review.Decide.Decided.{decide-Decided}

get_exception_id :
    (tenant_id : Uuid) (customer_id : Option Uuid) (i : Uuid) (db : Db) {e : ExceptionItem}
    → get_exception tenant_id customer_id i db ≡ some e
    → e.id ≡ i
unfolding get_exception
get_exception_id tenant_id customer_id i db found =
    (get-in_scope exception_columns (record { tenant_id = tenant_id; customer_id = customer_id }) i
      db.exceptions found).1

-- What a decision writes: where `decide` returns one, the exception gets the status of the outcome
-- and no other row of that table changes, the decision is appended and is the first on its
-- exception, it carries the outcome submitted and is marked as a human's, and no paid item
-- changes.
pub decide_effect :
    (env : Env) (tenant_id exception_id : Uuid) (ctx : Context) (s : Submission) (db : Db)
    {r : ServiceResult} {d : Decision Features}
    → (decide env tenant_id exception_id ctx s db).0 ≡ ok r
    → r.decision ≡ some d
    → let db' = (decide env tenant_id exception_id ctx s db).1 in
      (d.outcome ≡ s.outcome)
      × (d.source ≡ DecisionSource.human)
      × (is_decided exception_id db ≡ false)
      × (db'.decisions ≡ db.decisions ++ d ∷ [])
      × (db'.exceptions
          ≡ update
              (λ x. x.id == exception_id)
              (λ x. record x { status = status_for s.outcome })
              db.exceptions)
      × (db'.paid_items ≡ db.paid_items)
decide_effect env tenant_id exception_id ctx s db h k =
    let w = decide-Decided env tenant_id exception_id ctx s db h k in
    let rec = record_decision-Recorded env w.e _ db w.recorded in
    let same = get_exception_id tenant_id ctx.customer_id exception_id db w.found in
    (
      ground (arith, rec.row),
      ground (arith, rec.row),
      rw same at rec.first,
      rec.decisions,
      rw same at rec.exceptions,
      rec.paid_items,
    )

-- Where `decide` returns with no decision, whatever the refusal, no table has changed.
pub decide_refusal_unchanged :
    (env : Env) (tenant_id exception_id : Uuid) (ctx : Context) (s : Submission) (db : Db)
    {r : ServiceResult}
    → (decide env tenant_id exception_id ctx s db).0 ≡ ok r
    → r.decision ≡ none
    → (decide env tenant_id exception_id ctx s db).1 ≡ db
unfolding decide
decide_refusal_unchanged env tenant_id exception_id ctx s db h k = ground arith

-- A reason that was resolved for an ACH return is an active entry of the tenant's catalog.
resolved_from_catalog :
    (tenant_id : Uuid) (code : String) (s : Submission) (db : Db)
    → is_ach_return code s.outcome ≡ true
    → (resolve_ach_return_reason tenant_id code s db).1 ≡ none
    → (reason : AchReturnReason) × (i : Uuid) × (s.ach_return_reason_id ≡ some i)
      × (Scope.get return_reason_columns (tenant_wide tenant_id) i db.return_reasons ≡ some reason)
      × (reason.is_active ≡ true)
      × ((resolve_ach_return_reason tenant_id code s db).0
          ≡ record { reason_code = reason.reason_text; transaction_code = reason.transaction_code })
unfolding resolve_ach_return_reason
resolved_from_catalog tenant_id code s db applies h = elim (Option-cases s.ach_return_reason_id) [
  | inl missing ↦ ground arith
  | inr (i, chosen) ↦
      elim (Option-cases
        (Scope.get return_reason_columns (tenant_wide tenant_id) i db.return_reasons)) [
          | inl missing ↦ ground arith
          | inr (reason, found) ↦ (reason, i, chosen, found, ground arith, ground arith)
        ]
]

-- Where `decide` returns a return of an ACH exception whose entry exists, the reason chosen is an
-- active entry of the tenant's own catalog, the decision carries that entry's text and transaction
-- code, and the ACH entry behind the exception is settled as returned.
pub decide_ach_return :
    (env : Env) (tenant_id exception_id : Uuid) (ctx : Context) (s : Submission) (db : Db)
    {r : ServiceResult} {d : Decision Features} {e : ExceptionItem} {t : AchTransaction}
    → (decide env tenant_id exception_id ctx s db).0 ≡ ok r
    → r.decision ≡ some d
    → s.outcome ≡ DecisionOutcome.return
    → get_exception tenant_id ctx.customer_id exception_id db ≡ some e
    → str_eq e.network_code "ach" ≡ true
    → find (λ t. t.id == e.source_item_id) db.transactions ≡ some t
    → ((reason : AchReturnReason) × (i : Uuid) × (s.ach_return_reason_id ≡ some i)
        × (Scope.get return_reason_columns (tenant_wide tenant_id) i db.return_reasons
            ≡ some reason)
        × (reason.is_active ≡ true)
        × (d.return_transaction_code ≡ reason.transaction_code)
        × (d.reason_code ≡ given reason.reason_text))
      × ((decide env tenant_id exception_id ctx s db).1.transactions
          ≡ update
              (λ x. x.id == t.id)
              (λ x. record x { settlement_status = AchSettlementStatus.returned })
              db.transactions)
decide_ach_return env tenant_id exception_id ctx s db {e = e} {t = t} h k ret found is_ach source =
    let w = decide-Decided env tenant_id exception_id ctx s db h k in
    let rec = record_decision-Recorded env w.e _ db w.recorded in
    let same : some w.e ≡ some e = sym w.found ∙ found in
    let item : w.e ≡ e = cc in
    let applies : is_ach_return w.e.network_code s.outcome ≡ true = ground arith in
    let settles : (is_return s.outcome && str_eq w.e.network_code "ach") ≡ true = ground arith in
    let source' : find (λ t. t.id == w.e.source_item_id) db.transactions ≡ some t =
      ap (λ (x : ExceptionItem). find (λ t. t.id == x.source_item_id) db.transactions) item
      ∙ source in
    let (reason, i, chosen, entry, active, taken) =
      resolved_from_catalog tenant_id w.e.network_code s db applies w.reason in
    (
      (reason, i, chosen, entry, active, ground (arith, rec.row), ground (arith, rec.row)),
      rec.returned settles t source',
    )
