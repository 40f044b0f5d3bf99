-- ===== src/Review/Decide/Decided.antt =====
-- `decide` inverted: what held at each of its guards where it returned a decision.
use pos_pay.Base.{none, some, ◌≡◌, ◌==◌, inl, inr, arith, Option-cases, find}
use pos_pay.Store.Rows.{Uuid, Tenant, ExceptionItem, Decision}
use pos_pay.Store.Db.{Db, Env, Features}
use pos_pay.Store.Exec.{ok, Result-cases}
use pos_pay.Review.Record.{record_decision}
use pos_pay.Review.Decide.{
  ServiceResult, Context, Submission, resolve_ach_return_reason, get_exception, decide_refusal,
  dual_control_refusal, verdict, decide,
}

-- What has happened where `decide` returned a decision.
pub record Decided (env : Env) (tenant_id exception_id : Uuid) (ctx : Context) (s : Submission)
    (db : Db) (d : Decision Features) : Type 0 where
  pub e : ExceptionItem
  pub tenant : Tenant
  pub found : get_exception tenant_id ctx.customer_id exception_id db ≡ some e
  pub open_status : decide_refusal e.status ≡ none
  pub tenant_found : find (λ t. t.id == tenant_id) db.tenants ≡ some tenant
  pub allowed : dual_control_refusal tenant ctx e ≡ none
  pub reason : (resolve_ach_return_reason tenant_id e.network_code s db).1 ≡ none
  pub recorded :
      record_decision env e
        (verdict tenant ctx s e (resolve_ach_return_reason tenant_id e.network_code s db).0)
        db
      ≡ (ok d, (decide env tenant_id exception_id ctx s db).1)

-- The last two steps: the reason, then the record.
Decided-by_record :
    (env : Env) (tenant_id exception_id : Uuid) (ctx : Context) (s : Submission) (db : Db)
    (e : ExceptionItem) (tenant : Tenant) {r : ServiceResult} {d : Decision Features}
    → (decide env tenant_id exception_id ctx s db).0 ≡ ok r
    → r.decision ≡ some d
    → get_exception tenant_id ctx.customer_id exception_id db ≡ some e
    → decide_refusal e.status ≡ none
    → find (λ t. t.id == tenant_id) db.tenants ≡ some tenant
    → dual_control_refusal tenant ctx e ≡ none
    → Decided env tenant_id exception_id ctx s db d
unfolding decide
Decided-by_record env tenant_id exception_id ctx s db e tenant h k found open_status tenant_found
      allowed =
    let resolution = resolve_ach_return_reason tenant_id e.network_code s db in
    let m = record_decision env e (verdict tenant ctx s e resolution.0) db in
    elim (Option-cases resolution.1) [
      | inr (x, refused) ↦ ground arith
      | inl reason ↦ elim (Result-cases m.0) [
        | inr (x, raised) ↦ ground arith
        | inl (d', returned) ↦ record {
          e = e;
          tenant = tenant;
          found = found;
          open_status = open_status;
          tenant_found = tenant_found;
          allowed = allowed;
          reason = reason;
          recorded = ground arith;
        }
      ]
    ]

pub decide-Decided :
    (env : Env) (tenant_id exception_id : Uuid) (ctx : Context) (s : Submission) (db : Db)
    {r : ServiceResult} {d : Decision Features}
    → (decide env tenant_id exception_id ctx s db).0 ≡ ok r
    → r.decision ≡ some d
    → Decided env tenant_id exception_id ctx s db d
unfolding decide
decide-Decided env tenant_id exception_id ctx s db h k =
    elim (Option-cases (get_exception tenant_id ctx.customer_id exception_id db)) [
      | inl missing ↦ ground arith
      | inr (e, found) ↦ elim (Option-cases (decide_refusal e.status)) [
        | inr (x, refused) ↦ ground arith
        | inl open_status ↦ elim (Option-cases (find (λ t. t.id == tenant_id) db.tenants)) [
          | inl missing ↦ ground arith
          | inr (tenant, tenant_found) ↦ elim (Option-cases (dual_control_refusal tenant ctx e)) [
            | inr (x, refused) ↦ ground arith
            | inl allowed ↦
                Decided-by_record env tenant_id exception_id ctx s db e tenant h k found open_status
                  tenant_found allowed
          ]
        ]
      ]
    ]
