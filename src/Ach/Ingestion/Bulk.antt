-- ===== src/Ach/Ingestion/Bulk.antt =====
-- A bulk file row by row: what is refused leaves nothing, what is accepted is saved.
use pos_pay.Base.{
  ℕ, suc, ◌≡◌, refl, sym, subst, ◌∙◌, ap, Option, List, [], ◌∷◌, ◌++◌, ◌⊎◌, arith, inl, inr,
  Bool-cases, Option-cases,
}
use pos_pay.Store.Rows.{Uuid, Account, AchTransaction}
use pos_pay.Store.Db.{Db, Env}
use pos_pay.Store.Exec.{
  Result, ok, err, Error, Result-cases, Session, in_transaction, end_transaction,
}
use pos_pay.Store.Match.{MatchResult}
use pos_pay.Ach.Adapter.{evaluate}
use pos_pay.Ach.Ingestion.{
  AchTransactionSubmission, new_transaction, BulkRowResult, find_account, is_trace_taken, settled,
  unmatched, row_outcome, ingest_ach_transaction, ingest_from, ingest_ach_transactions_bulk,
}
use pos_pay.Ach.Ingestion.Outcome.{
  received, inserted, act, judged, ingest_known, ingest_unknown_account, ingest_taken,
  open_exception-IsPutUp, opened_ok,
}
use pos_pay.Ach.Ingestion.Authorized.{IdsBelow, replace-last, settle_stored}
use pos_pay.Ach.Ingestion.Traces.{IsValid, IsSound, ingest-IsValid, ingest_bulk-IsSound}

-- The entry is the one that was submitted.
abbrev pub IsRowOf : Uuid → AchTransactionSubmission → AchTransaction → Type 0
IsRowOf tenant_id s t =
    (t.tenant_id ≡ tenant_id)
    × (t.account_id ≡ s.account_id)
    × (t.amount ≡ s.amount)
    × (t.originator_id ≡ s.originator_id)
    × (t.transaction_type ≡ s.transaction_type)
    × (t.sec_code ≡ s.sec_code)
    × (t.trace_number ≡ s.trace_number)
    × (t.effective_date ≡ s.effective_date)

-- A result for each submission, in order and numbered, and the entries of those that were
-- accepted.
pub data Accepted (tenant_id : Uuid)
    : ℕ → List AchTransactionSubmission → List BulkRowResult → List AchTransaction → Type 0 where
  no_more : (index : ℕ) → Accepted tenant_id index [] [] []
  accepted :
      (index : ℕ) (s : AchTransactionSubmission) (t : AchTransaction)
      {rest : List AchTransactionSubmission} {results : List BulkRowResult}
      {kept : List AchTransaction}
      → IsRowOf tenant_id s t
      → Accepted tenant_id (suc index) rest results kept
      → Accepted tenant_id index
          (s ∷ rest)
          (record { index = index; outcome = ok (t.id, t.match_status) } ∷ results)
          (t ∷ kept)
  refused :
      (index : ℕ) (s : AchTransactionSubmission) (x : Error) {rest : List AchTransactionSubmission}
      {results : List BulkRowResult} {kept : List AchTransaction}
      → Accepted tenant_id (suc index) rest results kept
      → Accepted tenant_id index
          (s ∷ rest)
          (record { index = index; outcome = err x } ∷ results)
          kept

-- An entry that is judged and returned is stored behind the others.
judged_stored :
    (env : Env) (t : AchTransaction) (db : Db) (r : MatchResult) {q : AchTransaction}
    → t.id ≡ db.next_id
    → IdsBelow db
    → (act env t r r.matched (inserted t db)).0 ≡ ok q
    → ((act env t r r.matched (inserted t db)).1.transactions ≡ db.transactions ++ q ∷ [])
      × ((q ≡ settled t) ⊎ (q ≡ unmatched t))
judged_stored env t db r {q} fresh below h = elim (Bool-cases r.matched) [
  | inl matched ↦
      let run : act env t r r.matched (inserted t db) ≡ (ok (settled t), inserted (settled t) db) =
        ap (λ b. act env t r b (inserted t db)) matched ∙ settle_stored t db fresh below in
      let same : q ≡ settled t = cc (ap (λ x. x.0) run, h) in
      (ap (λ x. x.1.transactions) run ∙ ap (λ x. db.transactions ++ x ∷ []) (sym same), inl same)
  | inr not_matched ↦
      let to_review = ap (λ b. act env t r b (inserted t db)) not_matched in
      let same = opened_ok env t r (inserted t db) (ap (λ x. x.0) (sym to_review) ∙ h) in
      let put = open_exception-IsPutUp env t r (inserted t db) in
      (
        ap (λ x. x.1.transactions) to_review
            ∙ (ap (λ d. d.transactions) put.rest
                ∙ (replace-last t (unmatched t) db.transactions (rw fresh below)
                    ∙ ap (λ x. db.transactions ++ x ∷ []) (sym same))),
        inr same,
      )
]

settled_or_not :
    (tenant_id i : Uuid) (account : Account) (s : AchTransactionSubmission) (q : AchTransaction)
    → let t = new_transaction i tenant_id account s in
      (q ≡ settled t) ⊎ (q ≡ unmatched t) → IsRowOf tenant_id s q
settled_or_not tenant_id i account s q (inl same) =
    rw same (refl, refl, refl, refl, refl, refl, refl, refl)
settled_or_not tenant_id i account s q (inr same) =
    rw same (refl, refl, refl, refl, refl, refl, refl, refl)

ingest_stored :
    (env : Env) (tenant_id : Uuid) (scope : Option Uuid) (s : AchTransactionSubmission) (db : Db)
    {q : AchTransaction}
    → IdsBelow db
    → (ingest_ach_transaction env tenant_id scope s db).0 ≡ ok q
    → ((ingest_ach_transaction env tenant_id scope s db).1.transactions ≡ db.transactions ++ q ∷ [])
      × IsRowOf tenant_id s q
ingest_stored env tenant_id scope s db {q} below h =
    elim (Option-cases (find_account tenant_id scope s.account_id db)) [
      | inl missing ↦
          let run = ingest_unknown_account env tenant_id scope s db missing in ground arith
      | inr (account, known) ↦ elim (Bool-cases (is_trace_taken tenant_id s.trace_number db)) [
        | inl taken ↦ let run = ingest_taken env tenant_id scope s db known taken in ground arith
        | inr free ↦
            let t = received tenant_id account s db in
            let run = ingest_known env tenant_id scope s db known free in
            elim (Result-cases (evaluate t (inserted t db))) [
              | inr (x, raised) ↦ ground arith
              | inl (r, evaluated) ↦
                  let judgement = run ∙ ap (judged env t (inserted t db)) evaluated in
                  let (stored, form) =
                    judged_stored env t db r refl below (ap (λ x. x.0) (sym judgement) ∙ h) in
                  (
                    ap (λ x. x.1.transactions) judgement ∙ stored,
                    settled_or_not tenant_id db.next_id account s q form,
                  )
            ]
      ]
    ]

-- The entries before a file, those it adds, and the session after it.
pub record IsSaved (tenant_id : Uuid) (index : ℕ) (submissions : List AchTransactionSubmission)
    (before : List AchTransaction) (r : List BulkRowResult × Session) : Type 0 where
  pub kept : List AchTransaction
  pub accepted_rows : Accepted tenant_id index submissions r.0 kept
  pub saved : r.1.saved.transactions ≡ before ++ kept
  pub pending : r.1.db.transactions ≡ r.1.saved.transactions

append_nil : {A : Type 0} (xs : List A) → xs ++ [] ≡ xs
append_nil [] = refl
append_nil (x ∷ xs) = ap (λ l. x ∷ l) (append_nil xs)

append-one : {A : Type 0} (xs : List A) (y : A) (ys : List A) → (xs ++ y ∷ []) ++ ys ≡ xs ++ y ∷ ys
append-one [] y ys = refl
append-one (x ∷ xs) y ys = ap (λ l. x ∷ l) (append-one xs y ys)

-- The results and the session after a row, of which the transaction ended as told.
abbrev after_row :
    Env
    → Uuid
    → Option Uuid
    → ℕ
    → List AchTransactionSubmission
    → Result AchTransaction × Session
    → List BulkRowResult × Session
after_row env tenant_id scope index rest x =
    let later = ingest_from env tenant_id scope (suc index) rest x.1 in
    (record { index = index; outcome = row_outcome x.0 } ∷ later.0, later.1)

ingest_from-IsSaved :
    (env : Env) (tenant_id : Uuid) (scope : Option Uuid) (index : ℕ)
    (submissions : List AchTransactionSubmission) (session : Session)
    → IsSound session
    → session.db.transactions ≡ session.saved.transactions
    → IsSaved tenant_id index submissions session.saved.transactions
        (ingest_from env tenant_id scope index submissions session)
unfolding ingest_from
ingest_from-IsSaved env tenant_id scope index [] session sound same = record {
  kept = [];
  accepted_rows = no_more index;
  saved = sym (append_nil session.saved.transactions);
  pending = same;
}
ingest_from-IsSaved env tenant_id scope index (s ∷ rest) session sound same =
    let m = ingest_ach_transaction env tenant_id scope s in
    let after = (m session.db).1 in
    let valid = ingest-IsValid env tenant_id scope s session.db sound.0 in
    elim (Result-cases (m session.db).0) [
      | inl (q, done) ↦
          let next : Session = record { db = after; saved = after } in
          let (stored, row) = ingest_stored env tenant_id scope s session.db sound.0.below done in
          let w =
            ingest_from-IsSaved env tenant_id scope (suc index) rest next (valid, valid) refl in
          let step : in_transaction m session ≡ (ok q, next) =
            ap (λ r. end_transaction r (record session { db = after })) done in
          subst
            (λ x.
              IsSaved tenant_id index (s ∷ rest) session.saved.transactions
                (after_row env tenant_id scope index rest x))
            (sym step)
            (record {
              kept = q ∷ w.kept;
              accepted_rows = accepted index s q row w.accepted_rows;
              saved =
                  w.saved
                  ∙ (ap (λ l. l ++ w.kept) (stored ∙ ap (λ l. l ++ q ∷ []) same)
                      ∙ append-one session.saved.transactions q w.kept);
              pending = w.pending;
            })
      | inr (x, raised) ↦
          let next : Session = record {
            db = record session.saved { model_cache = after.model_cache };
            saved = session.saved;
          } in
          let step : in_transaction m session ≡ (err x, next) =
            ap (λ r. end_transaction r (record session { db = after })) raised in
          let unchanged : IsValid next.db = record {
            below = sound.1.below;
            distinct = sound.1.distinct;
          } in
          let w =
            ingest_from-IsSaved env tenant_id scope (suc index) rest next (unchanged, sound.1)
              refl in
          subst
            (λ y.
              IsSaved tenant_id index (s ∷ rest) session.saved.transactions
                (after_row env tenant_id scope index rest y))
            (sym step)
            (record {
              kept = w.kept;
              accepted_rows = refused index s x w.accepted_rows;
              saved = w.saved;
              pending = w.pending;
            })
    ]

-- A bulk file of ACH entries keeps what it accepts and nothing of what it refuses: on a session
-- with nothing of that table pending, where ids are below the next one and no two entries of a
-- tenant share a trace number, there is one result for each row, numbered in order; the entries
-- saved after the file are those before it, followed by one for each accepted row, in order, with
-- the id and status of its result and the tenant, account, amount, originator, type, SEC code,
-- trace number and date submitted; a refused row adds none; nothing of that table is pending; and
-- ids and trace numbers are still so.
pub ingest_bulk-IsSaved :
    (env : Env) (tenant_id : Uuid) (scope : Option Uuid)
    (submissions : List AchTransactionSubmission) (session : Session)
    → IsSound session
    → session.db.transactions ≡ session.saved.transactions
    → let r = ingest_ach_transactions_bulk env tenant_id scope submissions session in
      IsSaved tenant_id 0 submissions session.saved.transactions r × IsSound r.1
unfolding ingest_ach_transactions_bulk
ingest_bulk-IsSaved env tenant_id scope submissions session sound same = (
  ingest_from-IsSaved env tenant_id scope 0 submissions session sound same,
  (ingest_bulk-IsSound env tenant_id scope submissions session sound).0,
)
