-- ===== src/Review/AutoDecide/Outcome.antt =====
-- What an automatic decision may be.
use pos_pay.Base.{
  true, none, some, ◌≡◌, ◌≢◌, sym, subst, ap, ◌∙◌, ◌⊎◌, inl, inr, arith, Option-cases, str_eq,
}
use pos_pay.Store.Rows.{
  Uuid, ExceptionItem, Decision, DecisionOutcome, DecisionSource, AchReturnReason, ReasonText,
  given,
}
use pos_pay.Store.Db.{
  Db, Env, Features, DispositionMode, none_, fixed_pay, fixed_return, ml_determined,
}
use pos_pay.Store.Exec.{ok}
use pos_pay.Review.Disposition.{get_disposition_mode}
use pos_pay.Review.Record.Effect.{record_decision-Recorded}
use pos_pay.Review.AutoDecide.Steps.{
  Follows, choose-Follows, complete-Completed, auto_decide_for-AutoDecided,
}
use pos_pay.Review.AutoDecide.{Choice, auto_decide_for, auto_decide_exception}

not_human :
    (env : Env) (e : ExceptionItem) (customer : Uuid) (db : Db) (mode : DispositionMode)
    (c : Choice)
    → Follows env e customer db mode c
    → c.1 ≢ DecisionSource.human
not_human env e customer db none_ c f by_human = f
not_human env e customer db fixed_pay c f by_human = cc
not_human env e customer db fixed_return c f by_human = cc
not_human env e customer db ml_determined c f by_human = cc

-- An automatic decision is nobody's and follows the customer's mode: where one is returned, the
-- exception has a customer with automatic disposition; a fixed mode gets its outcome, marked as
-- the default; the model's mode gets the outcome of the score that scoring returned on this
-- exception, payment from one half on and return below it, marked as the model's. The reason is
-- the customer's response window, or that score, except for the return of an ACH entry. It is
-- never marked as a human's.
pub auto_decide-Follows_mode :
    (env : Env) (e : ExceptionItem) (db : Db) {d : Decision Features}
    → (auto_decide_exception env e db).0 ≡ ok (some d)
    → (d.decided_by_user_id ≡ none)
      × (d.submitted_by_user_id ≡ none)
      × (d.source ≢ DecisionSource.human)
      × ((customer : Uuid) × (e.customer_id ≡ some customer)
          × (reason : ReasonText) × Follows env e customer db
              (get_disposition_mode e.tenant_id customer e.network_code db)
              (d.outcome, d.source, reason)
          × ((d.reason_code ≡ reason)
              ⊎ ((d.outcome ≡ DecisionOutcome.return) × (str_eq e.network_code "ach" ≡ true))))
unfolding auto_decide_exception
auto_decide-Follows_mode env e db {d = d} h = elim (Option-cases e.customer_id) [
  | inl nobody ↦ ground arith
  | inr (customer, owner) ↦
      let w =
        auto_decide_for-AutoDecided env e customer db
          (ap (λ o. (auto_decide_for env e o db).0) (sym owner) ∙ h) in
      let rec = record_decision-Recorded env e w.v w.db' w.recorded in
      let done = complete-Completed e customer w.choice w.db' w.completed in
      let mode = get_disposition_mode e.tenant_id customer e.network_code db in
      let follows = choose-Follows env e customer mode db (ap (λ x. x.0) w.chosen) in
      let outcome : d.outcome ≡ w.choice.0 = ap (λ x. x.outcome) rec.row ∙ done.outcome in
      let source : d.source ≡ w.choice.1 = ap (λ x. x.source) rec.row ∙ done.source in
      let text : d.reason_code ≡ w.v.reason_code = ap (λ x. x.reason_code) rec.row in
      (
        ap (λ x. x.decided_by_user_id) rec.row ∙ done.nobody,
        ap (λ x. x.submitted_by_user_id) rec.row ∙ done.no_maker,
        λ by_human. not_human env e customer db mode w.choice follows (sym source ∙ by_human),
        (
          customer,
          owner,
          w.choice.2,
          subst (Follows env e customer db mode) (λ i. (sym outcome i, sym source i, w.choice.2))
              follows,
          elim done.own_reason [
            | inl own ↦ inl (text ∙ own)
            | inr (returns, is_ach) ↦ inr (outcome ∙ returns, is_ach)
          ],
        ),
      )
]

-- Where an exception of the network ach and of some customer is automatically decided as a return,
-- the decision carries the text and the transaction code of an active reason.
pub auto_ach_return :
    (env : Env) (e : ExceptionItem) (db : Db) {d : Decision Features} {customer : Uuid}
    → (auto_decide_exception env e db).0 ≡ ok (some d)
    → e.customer_id ≡ some customer
    → str_eq e.network_code "ach" ≡ true
    → d.outcome ≡ DecisionOutcome.return
    → (reason : AchReturnReason) × (reason.is_active ≡ true)
      × (d.reason_code ≡ given reason.reason_text)
      × (d.return_transaction_code ≡ reason.transaction_code)
unfolding auto_decide_exception
auto_ach_return env e db {d} {customer} h owner is_ach returned =
    let w =
      auto_decide_for-AutoDecided env e customer db
        (ap (λ o. (auto_decide_for env e o db).0) (sym owner) ∙ h) in
    let rec = record_decision-Recorded env e w.v w.db' w.recorded in
    let done = complete-Completed e customer w.choice w.db' w.completed in
    let outcome : w.choice.0 ≡ DecisionOutcome.return =
      sym (ap (λ x. x.outcome) rec.row ∙ done.outcome) ∙ returned in
    let (reason, i, named, found, active, text, code) = done.reason (ground arith) in
    (
      reason,
      active,
      ap (λ x. x.reason_code) rec.row ∙ text,
      ap (λ x. x.return_transaction_code) rec.row ∙ code,
    )
