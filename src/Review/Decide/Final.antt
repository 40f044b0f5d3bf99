-- ===== src/Review/Decide/Final.antt =====
-- A decided exception stays decided.
use pos_pay.Base.{
  Bool, ◌&&◌, Option, some, ◌≡◌, refl, ◌∙◌, ap, ◌==◌, arith, find, update, find-update,
  update_found, ==-refl,
}
use pos_pay.Store.Rows.{Uuid, ExceptionItem, ExceptionStatus, Decision, DecisionOutcome}
use pos_pay.Store.Db.{Db, Env, Features}
use pos_pay.Store.Exec.{ok}
use pos_pay.Store.Scope
use pos_pay.Store.Scope.{Repository, tenant_wide}
use pos_pay.Store.Columns.{exception_columns}
use pos_pay.Review.Record.{status_for}
use pos_pay.Review.Record.Effect.{record_decision-Recorded}
use pos_pay.Review.Decide.{
  failed, recommend_refusal, already_decided, submit_recommendation, DecisionError, ServiceResult,
  Context, Submission, get_exception, decide_refusal, decide,
}
use pos_pay.Review.Decide.Decided.{decide-Decided}

-- An exception whose status is set is found again with that status.
get_exception-set_status :
    (tenant_id : Uuid) (customer_id : Option Uuid) (i : Uuid) (st : ExceptionStatus) (db db' : Db)
    {e : ExceptionItem}
    → get_exception tenant_id customer_id i db ≡ some e
    → db'.exceptions ≡ update (λ x. x.id == e.id) (λ x. record x { status = st }) db.exceptions
    → get_exception tenant_id customer_id i db' ≡ some (record e { status = st })
unfolding get_exception Scope.get Scope.in_scope
get_exception-set_status tenant_id customer_id i st db db' {e} found changed =
    let repo : Repository = record { tenant_id = tenant_id; customer_id = customer_id } in
    let p : (ExceptionItem → Bool) =
      λ row. Scope.in_scope exception_columns repo row && row.id == i in
    ap (find p) changed
    ∙ find-update p (λ x. x.id == e.id) (λ x. record x { status = st }) db.exceptions (λ x. refl)
    ∙ ap (update_found (λ x. x.id == e.id) (λ x. record x { status = st })) found
    ∙ rw (==-refl e.id)

decide_refused :
    (env : Env) (tenant_id i : Uuid) (ctx : Context) (s : Submission) (db : Db) {e : ExceptionItem}
    {x : DecisionError}
    → get_exception tenant_id ctx.customer_id i db ≡ some e
    → decide_refusal e.status ≡ some x
    → decide env tenant_id i ctx s db ≡ (ok (failed x), db)
unfolding decide
decide_refused env tenant_id i ctx s db found refused = ground arith

recommend_refused :
    (tenant_id i : Uuid) (ctx : Context) (s : Submission) (db : Db) {e : ExceptionItem}
    {x : DecisionError}
    → get_exception tenant_id ctx.customer_id i db ≡ some e
    → recommend_refusal e.status ≡ some x
    → submit_recommendation tenant_id i ctx s db ≡ (ok (failed x), db)
unfolding submit_recommendation
recommend_refused tenant_id i ctx s db found refused = ground arith

decided_refusals :
    (outcome : DecisionOutcome)
    → (decide_refusal (status_for outcome) ≡ some already_decided)
      × (recommend_refusal (status_for outcome) ≡ some already_decided)
unfolding decide_refusal recommend_refusal
decided_refusals DecisionOutcome.pay = (refl, refl)
decided_refusals DecisionOutcome.return = (refl, refl)

-- A decision is final: once `decide` has returned one, a caller of the same customer scope who
-- decides or recommends on that exception again is told that it has been decided, and no table
-- changes.
pub decide_final :
    (env env' : Env) (tenant_id exception_id : Uuid) (ctx ctx' : Context) (s s' : Submission)
    (db : Db) {r : ServiceResult} {d : Decision Features}
    → (decide env tenant_id exception_id ctx s db).0 ≡ ok r
    → r.decision ≡ some d
    → ctx'.customer_id ≡ ctx.customer_id
    → let db' = (decide env tenant_id exception_id ctx s db).1 in
      (decide env' tenant_id exception_id ctx' s' db' ≡ (ok (failed already_decided), db'))
      × (submit_recommendation tenant_id exception_id ctx' s' db'
          ≡ (ok (failed already_decided), db'))
decide_final env env' tenant_id exception_id ctx ctx' s s' db h k scope =
    let w = decide-Decided env tenant_id exception_id ctx s db h k in
    let rec = record_decision-Recorded env w.e _ db w.recorded in
    let db' = (decide env tenant_id exception_id ctx s db).1 in
    let found =
      get_exception-set_status tenant_id ctx.customer_id exception_id (status_for s.outcome) db db'
        w.found rec.exceptions in
    let again : get_exception tenant_id ctx'.customer_id exception_id db'
        ≡ some (record (w.e) { status = status_for s.outcome }) =
      rw scope found in
    let refusals = decided_refusals s.outcome in
    (
      decide_refused env' tenant_id exception_id ctx' s' db' again refusals.0,
      recommend_refused tenant_id exception_id ctx' s' db' again refusals.1,
    )
