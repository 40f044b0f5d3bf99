-- ===== src/Review/Decide/Success.antt =====
-- A decision that nothing forbids is made.
use pos_pay.Base.{
  same_id-other, true, false, Option, none, some, ◌≡◌, ◌≢◌, ◌⊎◌, inl, inr, refl, arith, ◌==◌, find,
  String, str_eq, if◌then◌else◌,
}
use pos_pay.Store.Rows.{
  Uuid, Tenant, ExceptionItem, ExceptionStatus, DecisionOutcome, DecisionSource, AchReturnReason,
  given,
}
use pos_pay.Store.Db.{Db, Env, Features}
use pos_pay.Store.Exec.{ok}
use pos_pay.Store.Scope
use pos_pay.Store.Scope.{tenant_wide}
use pos_pay.Store.Columns.{return_reason_columns}
use pos_pay.Networks.{Adapter, get_adapter, build_features}
use pos_pay.Review.Record.{is_decided, record_decision, status_for}
use pos_pay.Review.Decide.{
  Context, Submission, resolve_ach_return_reason, get_exception, decide_refusal,
  dual_control_refusal, decide,
}

-- An exception that is neither decided nor withdrawn.
abbrev pub IsUndecided : ExceptionStatus → Type 0
IsUndecided ExceptionStatus.pay = ⊥
IsUndecided ExceptionStatus.return = ⊥
IsUndecided ExceptionStatus.withdrawn = ⊥
IsUndecided _ = Unit

-- Where the tenant asks for two people, a recommendation waits, and it is not the caller's.
abbrev pub IsSecondPerson : Tenant → Context → ExceptionItem → Type 0
IsSecondPerson tenant ctx e =
    (tenant.require_dual_control ≡ false)
    ⊎ ((e.status ≡ ExceptionStatus.pending_approval)
        × (e.recommended_by_user_id ≢ some ctx.user_id))

-- The text and the transaction code that the decision gets: of the tenant's active catalog entry
-- that is named, for the return of an ACH entry, and else the text submitted.
abbrev pub HasReason : Uuid → ExceptionItem → Submission → Db → String → Option String → Type 0
HasReason tenant_id e s db text code =
    ((str_eq e.network_code "ach" ≡ false) × (text ≡ s.reason_code) × (code ≡ none))
    ⊎ ((s.outcome ≡ DecisionOutcome.pay) × (text ≡ s.reason_code) × (code ≡ none))
    ⊎ ((str_eq e.network_code "ach" ≡ true)
        × (s.outcome ≡ DecisionOutcome.return)
        × (i : Uuid) × (reason : AchReturnReason) × (s.ach_return_reason_id ≡ some i)
        × (Scope.get return_reason_columns (tenant_wide tenant_id) i db.return_reasons
            ≡ some reason)
        × (reason.is_active ≡ true)
        × (text ≡ reason.reason_text)
        × (code ≡ reason.transaction_code))

-- Nothing stands in the way of a decision, and the features of the exception can be built.
pub record Allowed (env : Env) (tenant_id exception_id : Uuid) (ctx : Context) (s : Submission)
    (db : Db) (e : ExceptionItem) (tenant : Tenant) (features : Features) (text : String)
    (code : Option String) : Type 0 where
  pub found : get_exception tenant_id ctx.customer_id exception_id db ≡ some e
  pub undecided : IsUndecided e.status
  pub tenant_found : find (λ t. t.id == tenant_id) db.tenants ≡ some tenant
  pub second_person : IsSecondPerson tenant ctx e
  pub reason : HasReason tenant_id e s db text code
  pub adapter : Adapter
  pub registered : get_adapter e.network_code ≡ ok adapter
  pub built : build_features env adapter e db ≡ ok features
  pub first : is_decided e.id db ≡ false

undecided-refusal : (status : ExceptionStatus) → IsUndecided status → decide_refusal status ≡ none
unfolding decide_refusal
undecided-refusal ExceptionStatus.open_ h = refl
undecided-refusal ExceptionStatus.pending_approval h = refl
undecided-refusal ExceptionStatus.pay h = absurd h
undecided-refusal ExceptionStatus.return h = absurd h
undecided-refusal ExceptionStatus.escalated h = refl
undecided-refusal ExceptionStatus.withdrawn h = absurd h

second_person-refusal :
    (tenant : Tenant) (ctx : Context) (e : ExceptionItem)
    → IsSecondPerson tenant ctx e
    → dual_control_refusal tenant ctx e ≡ none
unfolding dual_control_refusal
second_person-refusal tenant ctx e (inl single) = rw single refl
second_person-refusal tenant ctx e (inr (pending, other)) =
    ground (arith, pending, same_id-other e.recommended_by_user_id ctx.user_id other)

resolved_reason :
    (tenant_id : Uuid) (e : ExceptionItem) (s : Submission) (db : Db) (text : String)
    (code : Option String)
    → HasReason tenant_id e s db text code
    → resolve_ach_return_reason tenant_id e.network_code s db
      ≡ (record { reason_code = text; transaction_code = code }, none)
unfolding resolve_ach_return_reason
resolved_reason tenant_id e s db text code (inl (other, t, c)) = rw other (rw t (rw c refl))
resolved_reason tenant_id e s db text code (inr (inl (pays, t, c))) = ground arith
resolved_reason tenant_id e s db text code
      (inr (inr (is_ach, returns, i, reason, named, found, active, t, c))) =
    rw (is_ach, returns, named, found, active, t, c)

status_after :
    (o : DecisionOutcome)
    → status_for o ≡ elim o as (λ _. ExceptionStatus) [
      | DecisionOutcome.pay ↦ ExceptionStatus.pay
      | DecisionOutcome.return ↦ ExceptionStatus.return
    ]
status_after DecisionOutcome.pay = refl
status_after DecisionOutcome.return = refl

-- A caller who finds the exception in its scope, neither decided nor withdrawn, who is another
-- than the maker of a recommendation that waits where the tenant asks for two people, and who
-- names an active reason of the tenant's catalog where an ACH entry is returned, on an exception
-- whose features can be built and that has no decision yet, gets the decision: the call returns a
-- row of the outcome submitted, made by the caller for that exception, with the reason of the
-- catalog or else the one submitted, and the exception as paid or returned.
pub decide_succeeds :
    (env : Env) (tenant_id exception_id : Uuid) (ctx : Context) (s : Submission) (db : Db)
    (e : ExceptionItem) (tenant : Tenant) (features : Features) (text : String)
    (code : Option String)
    → Allowed env tenant_id exception_id ctx s db e tenant features text code
    → (decide env tenant_id exception_id ctx s db).0
      ≡ ok (record {
        decision = some (record {
          id = db.next_id;
          tenant_id = e.tenant_id;
          exception_item_id = e.id;
          outcome = s.outcome;
          reason_code = given text;
          return_transaction_code = code;
          notes = s.notes;
          submitted_by_user_id =
              if tenant.require_dual_control then e.recommended_by_user_id else none;
          decided_by_user_id = some ctx.user_id;
          source = DecisionSource.human;
          features_json = features;
        });
        exception = some (record e {
          status = elim s.outcome [
            | DecisionOutcome.pay ↦ ExceptionStatus.pay
            | DecisionOutcome.return ↦ ExceptionStatus.return
          ];
        });
        error = none;
      })
unfolding decide record_decision
decide_succeeds env tenant_id exception_id ctx s db e tenant features text code a = rw (
  a.found,
  undecided-refusal e.status a.undecided,
  a.tenant_found,
  second_person-refusal tenant ctx e a.second_person,
  resolved_reason tenant_id e s db text code a.reason,
  a.registered,
  a.built,
  a.first,
  status_after s.outcome,
)
