-- ===== src/Review/AutoDecide/Steps.antt =====
-- The steps of an automatic decision: the choice, the completed verdict, the record.
use pos_pay.Base.{
  ℕ, true, ◌&&◌, none, some, ◌≡◌, inl, inr, arith, Option-cases, Bool-cases, leb, if◌then◌else◌,
  str_eq, ◌≤◌, ◌<◌, ◌⊎◌, refl, sym, subst, ap, ◌∙◌,
}
use pos_pay.Store.Rows.{
  Uuid, ExceptionItem, Decision, DecisionOutcome, DecisionSource, AchReturnReason, given,
  decided_by_score, no_response_within,
}
use pos_pay.Store.Db.{
  Db, Env, Features, DispositionMode, none_, fixed_pay, fixed_return, ml_determined,
}
use pos_pay.Store.Exec.{ok, Result-cases}
use pos_pay.Store.Scope
use pos_pay.Store.Scope.{tenant_wide}
use pos_pay.Store.Columns.{return_reason_columns}
use pos_pay.Scoring.{score_exception}
use pos_pay.Notify.{notify_exception_auto_decided}
use pos_pay.Review.Disposition.{get_setting, get_disposition_mode, get_response_window_hours}
use pos_pay.Review.Record.{is_return, Verdict, record_decision}
use pos_pay.Review.AutoDecide.{
  Choice, choice_of_score, ml_pay_threshold, choose, complete, finish, auto_decide_for,
  default_reason_id,
}

-- What a choice may be under each mode: a fixed outcome with the customer's response window, or
-- the outcome of the score that was just computed, which pays from one half on.
abbrev pub Follows : Env → ExceptionItem → Uuid → Db → DispositionMode → Choice → Type 0
Follows env e customer db none_ c = ⊥
Follows env e customer db fixed_pay c =
    (c.0 ≡ DecisionOutcome.pay)
    × (c.1 ≡ DecisionSource.auto_default)
    × (c.2
        ≡ no_response_within (get_response_window_hours env e.tenant_id customer e.network_code db))
Follows env e customer db fixed_return c =
    (c.0 ≡ DecisionOutcome.return)
    × (c.1 ≡ DecisionSource.auto_default)
    × (c.2
        ≡ no_response_within (get_response_window_hours env e.tenant_id customer e.network_code db))
Follows env e customer db ml_determined c =
    (c.1 ≡ DecisionSource.auto_ml)
    × (score : ℕ) × ((score_exception env e db).0 ≡ ok (some score))
    × (c.2 ≡ decided_by_score score)
    × (((0x3fe0000000000000 ≤ score) × (c.0 ≡ DecisionOutcome.pay))
        ⊎ ((score < 0x3fe0000000000000) × (c.0 ≡ DecisionOutcome.return)))

by_threshold :
    (score : ℕ)
    → let o = if leb ml_pay_threshold score then DecisionOutcome.pay else DecisionOutcome.return in
      ((0x3fe0000000000000 ≤ score) × (o ≡ DecisionOutcome.pay))
      ⊎ ((score < 0x3fe0000000000000) × (o ≡ DecisionOutcome.return))
by_threshold score = elim (Bool-cases (leb ml_pay_threshold score)) [
  | inl e ↦ inl (ground arith, rw e refl)
  | inr e ↦ inr (ground arith, rw e refl)
]

pub choose-Follows :
    (env : Env) (e : ExceptionItem) (customer : Uuid) (mode : DispositionMode) (db : Db)
    {c : Choice}
    → (choose env e customer mode db).0 ≡ ok (some c)
    → Follows env e customer db mode c
unfolding choose
choose-Follows env e customer none_ db h = cc
choose-Follows env e customer fixed_pay db h = ground arith
choose-Follows env e customer fixed_return db h = ground arith
choose-Follows env e customer ml_determined db {c} h =
    elim (Result-cases (score_exception env e db).0) [
      | inr (x, raised) ↦ ground arith
      | inl (score, scored) ↦ elim (Option-cases score) [
        | inl missing ↦ ground arith
        | inr (bits, present) ↦
            let is_c : some c ≡ choice_of_score (some bits) = ground arith in
            let outcome : c.0 ≡ (
                if leb ml_pay_threshold bits then DecisionOutcome.pay else DecisionOutcome.return) =
              (ground arith) in
            (
              ground arith,
              bits,
              scored ∙ ap (λ o. ok o) present,
              ground arith,
              subst
                  (λ o.
                    ((0x3fe0000000000000 ≤ bits) × (o ≡ DecisionOutcome.pay))
                    ⊎ ((bits < 0x3fe0000000000000) × (o ≡ DecisionOutcome.return)))
                  (sym outcome) (by_threshold bits),
            )
      ]
    ]

-- What a completed verdict says: the choice, no person, and for an ACH return the active entry of
-- the tenant's catalog that the customer's setting names.
pub record Completed (e : ExceptionItem) (customer : Uuid) (c : Choice) (db : Db) (v : Verdict)
    : Type 0 where
  pub outcome : v.outcome ≡ c.0
  pub source : v.source ≡ c.1
  pub nobody : v.decided_by_user_id ≡ none
  pub no_maker : v.submitted_by_user_id ≡ none
  pub own_reason :
      (v.reason_code ≡ c.2)
      ⊎ ((c.0 ≡ DecisionOutcome.return) × (str_eq e.network_code "ach" ≡ true))
  pub reason :
      (is_return c.0 && str_eq e.network_code "ach") ≡ true
      → (reason : AchReturnReason) × (i : Uuid) × (default_reason_id
            (get_setting e.tenant_id customer e.network_code db)
          ≡ some i)
        × (Scope.get return_reason_columns (tenant_wide e.tenant_id) i db.return_reasons
            ≡ some reason)
        × (reason.is_active ≡ true)
        × (v.reason_code ≡ given reason.reason_text)
        × (v.return_transaction_code ≡ reason.transaction_code)

returned_ach :
    (c : Choice) (e : ExceptionItem)
    → (is_return c.0 && str_eq e.network_code "ach") ≡ true
    → (c.0 ≡ DecisionOutcome.return) × (str_eq e.network_code "ach" ≡ true)
returned_ach (DecisionOutcome.pay, source, text) e h = cc
returned_ach (DecisionOutcome.return, source, text) e h = (refl, h)

pub complete-Completed :
    (e : ExceptionItem) (customer : Uuid) (c : Choice) (db : Db) {v : Verdict}
    → complete e customer c db ≡ some v
    → Completed e customer c db v
unfolding complete
complete-Completed e customer c db h =
    elim (Bool-cases (is_return c.0 && str_eq e.network_code "ach")) [
      | inr other ↦ record {
        outcome = ground arith;
        source = ground arith;
        nobody = ground arith;
        no_maker = ground arith;
        own_reason = inl (ground arith);
        reason = λ z. ground arith;
      }
      | inl applies ↦
          elim (Option-cases
            (default_reason_id (get_setting e.tenant_id customer e.network_code db))) [
              | inl missing ↦ ground arith
              | inr (i, named) ↦
                  elim (Option-cases (
                    Scope.get return_reason_columns (tenant_wide e.tenant_id) i
                      db.return_reasons)) [
                        | inl missing ↦ ground arith
                        | inr (reason, found) ↦ record {
                          outcome = ground arith;
                          source = ground arith;
                          nobody = ground arith;
                          no_maker = ground arith;
                          own_reason = inr (returned_ach c e applies);
                          reason = λ z.
                              (reason, i, named, found, ground arith, ground arith, ground arith);
                        }
                      ]
            ]
    ]

finish_recorded :
    (env : Env) (e : ExceptionItem) (v : Verdict) (db : Db) {d : Decision Features}
    → (finish env e (some v) db).0 ≡ ok (some d)
    → record_decision env e v db ≡ (ok d, (record_decision env e v db).1)
finish_recorded env e v db h = elim (Result-cases (record_decision env e v db).0) [
  | inr (x, raised) ↦ ground arith
  | inl (d', made) ↦
      elim (Result-cases (notify_exception_auto_decided e (record_decision env e v db).1).0) [
        | inr (x, raised) ↦ ground arith
        | inl (told, done) ↦ ground arith
      ]
]

-- What has happened where an automatic decision was returned: the tables as they stand after the
-- choice, and the verdict that was recorded.
pub record AutoDecided (env : Env) (e : ExceptionItem) (customer : Uuid) (db : Db)
    (d : Decision Features) : Type 0 where
  pub choice : Choice
  pub db' : Db
  pub v : Verdict
  pub chosen :
      choose env e customer (get_disposition_mode e.tenant_id customer e.network_code db) db
      ≡ (ok (some choice), db')
  pub completed : complete e customer choice db' ≡ some v
  pub recorded : record_decision env e v db' ≡ (ok d, (record_decision env e v db').1)

pub auto_decide_for-AutoDecided :
    (env : Env) (e : ExceptionItem) (customer : Uuid) (db : Db) {d : Decision Features}
    → (auto_decide_for env e (some customer) db).0 ≡ ok (some d)
    → AutoDecided env e customer db d
auto_decide_for-AutoDecided env e customer db h =
    let m =
      choose env e customer (get_disposition_mode e.tenant_id customer e.network_code db) db in
    elim (Result-cases m.0) [
      | inr (x, raised) ↦ ground arith
      | inl (choice, chosen) ↦ elim (Option-cases choice) [
        | inl nothing ↦ ground arith
        | inr (c, is_c) ↦ elim (Option-cases (complete e customer c m.1)) [
          | inl nothing ↦ ground arith
          | inr (v, is_v) ↦ record {
            choice = c;
            db' = m.1;
            v = v;
            chosen = ground arith;
            completed = is_v;
            recorded = finish_recorded env e v m.1 (ground arith);
          }
        ]
      ]
    ]
