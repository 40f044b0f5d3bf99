-- ===== src/Review/Decide/DualControl.antt =====
-- Maker and checker under dual control.
use pos_pay.Base.{true, false, some, ◌≡◌, sym, ◌∙◌, ◌==◌, arith, find, same_id}
use pos_pay.Store.Rows.{Uuid, Tenant, ExceptionItem, ExceptionStatus, Decision}
use pos_pay.Store.Db.{Db, Env, Features}
use pos_pay.Store.Exec.{ok}
use pos_pay.Review.Record.Effect.{record_decision-Recorded}
use pos_pay.Review.Decide.{
  ServiceResult, Context, Submission, get_exception, dual_control_refusal, decide,
}
use pos_pay.Review.Decide.Decided.{decide-Decided}

-- Where the tenant requires dual control and `decide` returns a decision, the exception was
-- awaiting approval, its recommendation is another user's than the caller's, and the decision
-- names that maker and the caller as the one who decided.
pub decide_dual_control :
    (env : Env) (tenant_id exception_id : Uuid) (ctx : Context) (s : Submission) (db : Db)
    {r : ServiceResult} {d : Decision Features} {tenant : Tenant}
    → find (λ t. t.id == tenant_id) db.tenants ≡ some tenant
    → tenant.require_dual_control ≡ true
    → (decide env tenant_id exception_id ctx s db).0 ≡ ok r
    → r.decision ≡ some d
    → (e : ExceptionItem) × (get_exception tenant_id ctx.customer_id exception_id db ≡ some e)
      × (e.status ≡ ExceptionStatus.pending_approval)
      × (same_id e.recommended_by_user_id (some ctx.user_id) ≡ false)
      × (d.submitted_by_user_id ≡ e.recommended_by_user_id)
      × (d.decided_by_user_id ≡ some ctx.user_id)
unfolding dual_control_refusal
decide_dual_control env tenant_id exception_id ctx s db {tenant = tenant} found dual h k =
    let w = decide-Decided env tenant_id exception_id ctx s db h k in
    let e = w.e in
    let same : some w.tenant ≡ some tenant = sym w.tenant_found ∙ found in
    let dual' : w.tenant.require_dual_control ≡ true = ground arith in
    let rec = record_decision-Recorded env e _ db w.recorded in
    (
      e,
      w.found,
      ground (arith, w.allowed),
      ground (arith, w.allowed),
      ground (arith, rec.row),
      ground (arith, rec.row),
    )
