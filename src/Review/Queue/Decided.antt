-- ===== src/Review/Queue/Decided.antt =====
-- What is decided leaves the queue.
use pos_pay.Base.{
  String, Bool, false, ◌&&◌, Option, none, some, List, [], ◌∷◌, ◌≡◌, inl, inr, arith, Bool-cases,
  select, update, All, ◌==◌,
}
use pos_pay.Store.Rows.{Uuid, ExceptionItem, ExceptionStatus, Decision, DecisionOutcome}
use pos_pay.Store.Db.{Db, Env, Features}
use pos_pay.Store.Exec.{ok}
use pos_pay.Store.Scope
use pos_pay.Store.Scope.{Repository}
use pos_pay.Store.Columns.{exception_columns}
use pos_pay.Review.Record.{status_for}
use pos_pay.Review.Decide.{Context, Submission, ServiceResult, decide}
use pos_pay.Review.Decide.Effect.{decide_effect}
use pos_pay.Review.Queue.{needs_attention, of_network, of_statuses, query, list_exceptions}

-- The rows that a status of its own keeps from waiting.
decided_not_kept :
    (p q : ExceptionItem → Bool) (i : Uuid) (outcome : DecisionOutcome) (rows : List ExceptionItem)
    → All
        (λ (x : ExceptionItem). (x.id == i) ≡ false)
        (select
          (λ x. p x && (q x && of_statuses (some needs_attention) x))
          (update (λ x. x.id == i) (λ x. record x { status = status_for outcome }) rows))
decided_not_kept p q i outcome [] = tt
decided_not_kept p q i DecisionOutcome.pay (x ∷ rows) = elim (Bool-cases (x.id == i)) [
  | inl e ↦ rw e (ground (arith, decided_not_kept p q i DecisionOutcome.pay rows))
  | inr e ↦ rw e (ground (arith, e, decided_not_kept p q i DecisionOutcome.pay rows))
]
decided_not_kept p q i DecisionOutcome.return (x ∷ rows) = elim (Bool-cases (x.id == i)) [
  | inl e ↦ rw e (ground (arith, decided_not_kept p q i DecisionOutcome.return rows))
  | inr e ↦ rw e (ground (arith, e, decided_not_kept p q i DecisionOutcome.return rows))
]

-- What is decided leaves the queue: where `decide` returns a decision, no list of the exceptions
-- that need attention, unpaged and in the order of the table, for any tenant, customer and network
-- and whatever single status is asked for besides, holds the exception of that id on the tables
-- after the call.
pub decided_leaves_queue :
    (env : Env) (tenant_id exception_id : Uuid) (ctx : Context) (s : Submission) (db : Db)
    {r : ServiceResult} {d : Decision Features}
    → (decide env tenant_id exception_id ctx s db).0 ≡ ok r
    → r.decision ≡ some d
    → (viewer : Uuid) (network_code : Option String) (status : Option ExceptionStatus)
      (customer_id : Option Uuid)
    → All
        (λ (x : ExceptionItem). (x.id == exception_id) ≡ false)
        (list_exceptions viewer network_code status
          (some needs_attention)
          customer_id
          none
          none
          (λ rows. rows)
          (decide env tenant_id exception_id ctx s db).1)
unfolding list_exceptions query
decided_leaves_queue env tenant_id exception_id ctx s db h k viewer network_code status
      customer_id =
    let (_, _, _, _, after, _) = decide_effect env tenant_id exception_id ctx s db h k in
    rw after (
      decided_not_kept
        (Scope.in_scope exception_columns
          (record { tenant_id = viewer; customer_id = customer_id }))
        (of_network network_code) exception_id s.outcome db.exceptions)
