-- ===== src/Ach/Ingestion/Authorized.antt =====
-- An ACH entry is paid exactly when it is a credit, or a debit that an authorization covers.
use pos_pay.Base.{
  select-append_none, ℕ, ◌<◌, ◌≡◌, refl, sym, ◌∙◌, ap, true, false, ◌⊎◌, inl, inr, Option, some,
  List, [], ◌∷◌, ◌++◌, ◌==◌, arith, Bool-cases, Option-cases, find, update, All, ==-refl, length,
  select, str_eq, leb, ltb, not, ◌-◌, ◌&&◌,
}
use pos_pay.Store.Rows.{Uuid, Account, AchTransaction, AchSettlementStatus}
use pos_pay.Store.Db.{Db, Env}
use pos_pay.Store.Exec.{ok, Result-cases}
use pos_pay.Store.Match.{is_empty_nil, MatchResult, is_empty}
use pos_pay.Ach.Rules.{
  AuthorizationSnapshot, AchMatchInputs, select_authorization, evaluate_ach_rules,
}
use pos_pay.Ach.Rules.Exact.{WithinLimits, authorized_iff}
use pos_pay.Ach.Adapter.{
  is_settled, is_debit_type, is_prior_debit, find_candidate_authorizations,
  count_prior_settled_debits, match_inputs, evaluate, is_block_all,
}
use pos_pay.Ach.Ingestion.{
  AchTransactionSubmission, find_account, is_trace_taken, settled, settle, ingest_ach_transaction,
}
use pos_pay.Ach.Ingestion.Outcome.{
  received, inserted, act, judged, ingest_known, ingest_unknown_account, ingest_taken, opened_ok,
}

-- An entry does not count towards its own limit.
count-inserted :
    (t : AchTransaction) (db : Db)
    → count_prior_settled_debits t (inserted t db) ≡ count_prior_settled_debits t db
unfolding count_prior_settled_debits
count-inserted t db =
    ground (
      arith,
      select-append_none (is_prior_debit t) db.transactions t (ground (arith, ==-refl t.id)),
    )

-- The inputs that the rules get for a debit.
abbrev pub debit_inputs : AchTransaction → Account → ℕ → Db → AchMatchInputs
debit_inputs t account debit_count db =
    match_inputs t account (find_candidate_authorizations t db) debit_count

-- What a debit that is to be paid satisfies, before it arrives.
pub record Authorized (t : AchTransaction) (db : Db) : Type 0 where
  pub account : Account
  pub account_found : find (λ a. a.id == t.account_id) db.accounts ≡ some account
  pub not_blocked : is_block_all account.ach_debit_block_mode ≡ false
  pub debit_count : ℕ
  pub counted : count_prior_settled_debits t db ≡ ok debit_count
  pub authorization : AuthorizationSnapshot
  pub selected : select_authorization (debit_inputs t account debit_count db) ≡ some authorization
  pub within : WithinLimits (debit_inputs t account debit_count db) authorization

-- What `evaluate` returns for a debit, once the count and the account are known.
evaluate_debit :
    (t : AchTransaction) (db : Db) {n : ℕ} {account : Account} {r : MatchResult}
    → is_debit_type t.transaction_type ≡ true
    → count_prior_settled_debits t db ≡ ok n
    → find (λ a. a.id == t.account_id) db.accounts ≡ some account
    → evaluate t db ≡ ok r
    → is_empty (evaluate_ach_rules (debit_inputs t account n db)).0 ≡ r.matched
unfolding evaluate
evaluate_debit t db debit counted found h = ground arith

matched-Authorized :
    (t : AchTransaction) (db : Db) {r : MatchResult}
    → is_debit_type t.transaction_type ≡ true
    → evaluate t (inserted t db) ≡ ok r
    → r.matched ≡ true
    → Authorized t db
unfolding evaluate match_inputs find_candidate_authorizations
matched-Authorized t db {r} debit h matched =
    elim (Result-cases (count_prior_settled_debits t (inserted t db))) [
      | inr (x, raised) ↦ ground arith
      | inl (n, counted) ↦ elim (Option-cases (find (λ a. a.id == t.account_id) db.accounts)) [
        | inl missing ↦ ground arith
        | inr (account, found) ↦
            let inputs = debit_inputs t account n (inserted t db) in
            let rules =
              is_empty_nil _ (evaluate_debit t (inserted t db) debit counted found h ∙ matched) in
            elim ((authorized_iff inputs).0 rules) [
              | inl credit ↦ ground arith
              | inr (open_account, (a, selected, w)) ↦ record {
                account = account;
                account_found = found;
                not_blocked = open_account;
                debit_count = n;
                counted = sym (count-inserted t db) ∙ counted;
                authorization = a;
                selected = selected;
                within = w;
              }
            ]
      ]
    ]

-- The entries of the table have ids below the next one.
abbrev pub IdsBelow : Db → Type 0
IdsBelow db = All (λ (x : AchTransaction). x.id < db.next_id) db.transactions

pub replace-last :
    (p q : AchTransaction) (ps : List AchTransaction)
    → All (λ (x : AchTransaction). x.id < p.id) ps
    → update (λ x. x.id == p.id) (λ _. q) (ps ++ p ∷ []) ≡ ps ++ q ∷ []
replace-last p q [] h = rw (==-refl p.id)
replace-last p q (x ∷ ps) h = ground (arith, replace-last p q ps h.1)

pub settle_stored :
    (t : AchTransaction) (db : Db)
    → t.id ≡ db.next_id
    → IdsBelow db
    → settle t (inserted t db) ≡ (ok (settled t), inserted (settled t) db)
unfolding settle
settle_stored t db fresh below = rw (replace-last t (settled t) db.transactions (rw fresh below))

paid_by_judgement :
    (env : Env) (t : AchTransaction) (db : Db) (r : MatchResult) {q : AchTransaction}
    → (judged env t (inserted t db) (ok r)).0 ≡ ok q
    → t.settlement_status ≡ AchSettlementStatus.pending
    → q.settlement_status ≡ AchSettlementStatus.paid
    → r.matched ≡ true
paid_by_judgement env t db r {q} h pending paid = elim (Bool-cases r.matched) [
  | inl matched ↦ matched
  | inr not_matched ↦
      let same =
        opened_ok env t r (inserted t db)
          (ap (λ b. (act env t r b (inserted t db)).0) (sym not_matched) ∙ h) in
      ground arith
]

-- The debits that a frequency limit counts for an entry: those already paid, of the tenant, the
-- account and the originator, with an effective date in the 30 days before the entry's, the day
-- of the entry not included.
abbrev pub paid_debits_before : Uuid → AchTransactionSubmission → Db → List AchTransaction
paid_debits_before tenant_id s db =
    select
      (λ q.
        q.tenant_id == tenant_id
        && (q.account_id == s.account_id
            && (str_eq q.originator_id s.originator_id
                && (is_debit_type q.transaction_type
                    && (is_settled q.settlement_status
                        && (leb (s.effective_date - 30) q.effective_date
                            && (ltb q.effective_date s.effective_date
                                && not (q.id == db.next_id))))))))
      db.transactions

count-paid_debits :
    (tenant_id : Uuid) (account : Account) (s : AchTransactionSubmission) (db : Db) {n : ℕ}
    → count_prior_settled_debits (received tenant_id account s db) db ≡ ok n
    → n ≡ length (paid_debits_before tenant_id s db)
unfolding count_prior_settled_debits
count-paid_debits tenant_id account s db h = ground arith

-- An ACH entry is paid only if it is a credit or an authorized debit: where the call returns an
-- entry that is paid, its account is in the caller's scope, its trace number was free in the
-- tenant, and a debit is covered by the authorization that is selected, within its amount and its
-- SEC codes and below its frequency limit, on an account that does not block all debits. What the
-- limit counts is the paid debits of the tenant, account and originator with an effective date in
-- the 30 days before the entry's, those of the entry's own date not included.
pub ingest_paid_only_if_Authorized :
    (env : Env) (tenant_id : Uuid) (scope : Option Uuid) (s : AchTransactionSubmission) (db : Db)
    {q : AchTransaction}
    → (ingest_ach_transaction env tenant_id scope s db).0 ≡ ok q
    → q.settlement_status ≡ AchSettlementStatus.paid
    → (account : Account) × (find_account tenant_id scope s.account_id db ≡ some account)
      × (is_trace_taken tenant_id s.trace_number db ≡ false)
      × ((is_debit_type s.transaction_type ≡ false)
          ⊎ ((a : Authorized (received tenant_id account s db) db) × (a.debit_count
                ≡ length (paid_debits_before tenant_id s db))))
ingest_paid_only_if_Authorized env tenant_id scope s db {q} h paid =
    elim (Option-cases (find_account tenant_id scope s.account_id db)) [
      | inl missing ↦
          let refused = ingest_unknown_account env tenant_id scope s db missing in ground arith
      | inr (account, known) ↦ elim (Bool-cases (is_trace_taken tenant_id s.trace_number db)) [
        | inl taken ↦
            let refused = ingest_taken env tenant_id scope s db known taken in ground arith
        | inr free ↦
            let t = received tenant_id account s db in
            let steps = ingest_known env tenant_id scope s db known free in
            let h' = ap (λ x. x.0) (sym steps) ∙ h in
            elim (Result-cases (evaluate t (inserted t db))) [
              | inr (x, raised) ↦ ground arith
              | inl (r, evaluated) ↦
                  let judgement =
                    ap (λ x. (judged env t (inserted t db) x).0) (sym evaluated) ∙ h' in
                  let matched = paid_by_judgement env t db r judgement refl paid in
                  (
                    account,
                    known,
                    free,
                    elim (Bool-cases (is_debit_type s.transaction_type)) [
                      | inl debit ↦
                          let a = matched-Authorized t db debit evaluated matched in
                          inr (a, count-paid_debits tenant_id account s db a.counted)
                      | inr credit ↦ inl credit
                    ],
                  )
            ]
      ]
    ]
