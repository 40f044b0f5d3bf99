-- ===== src/Ach/Ingestion/Traces.antt =====
-- The tenant's trace numbers stay distinct, through single calls and through bulk files.
use pos_pay.Base.{
  ℕ, suc, ◌+◌, ◌<◌, ◌≡◌, refl, sym, subst, ◌∙◌, ap, Bool, false, ◌&&◌, Option, List, [], ◌∷◌, ◌++◌,
  ◌==◌, arith, inl, inr, Bool-cases, Option-cases, any, any-append, ==-sym, str_eq-sym, All, str_eq,
  length,
}
use pos_pay.Store.Rows.{Uuid, AchTransaction}
use pos_pay.Store.Db.{Db, Env}
use pos_pay.Store.Exec.{
  Exec, Result, ok, err, Result-cases, Session, in_transaction, end_transaction,
}
use pos_pay.Store.Match.{MatchResult}
use pos_pay.Ach.Adapter.{evaluate}
use pos_pay.Ach.Ingestion.{
  AchTransactionSubmission, find_account, is_trace_taken, settled, unmatched,
  ingest_ach_transaction, ingest_from, ingest_ach_transactions_bulk,
}
use pos_pay.Ach.Ingestion.Outcome.{
  received, inserted, act, judged, ingest_known, ingest_unknown_account, ingest_taken,
  open_exception-IsPutUp,
}
use pos_pay.Ach.Ingestion.Authorized.{IdsBelow, replace-last, settle_stored}

abbrev pub same_trace : AchTransaction → AchTransaction → Bool
same_trace a b = b.tenant_id == a.tenant_id && str_eq b.trace_number a.trace_number

-- No two rows of a tenant share a trace number.
abbrev pub IsDistinct : List AchTransaction → Type 0
IsDistinct [] = Unit
IsDistinct (t ∷ ts) = (any (same_trace t) ts ≡ false) × IsDistinct ts

pub record IsValid (db : Db) : Type 0 where
  pub below : IdsBelow db
  pub distinct : IsDistinct db.transactions

below_mono :
    (m n : ℕ) (ts : List AchTransaction)
    → m < suc n
    → All (λ (x : AchTransaction). x.id < m) ts
    → All (λ (x : AchTransaction). x.id < n) ts
below_mono m n [] le h = tt
below_mono m n (t ∷ ts) le h = (omega (arith, h.0), below_mono m n ts le h.1)

below_append :
    (n : ℕ) (ts : List AchTransaction) (t : AchTransaction)
    → All (λ (x : AchTransaction). x.id < n) ts
    → t.id < n
    → All (λ (x : AchTransaction). x.id < n) (ts ++ t ∷ [])
below_append n [] t h lt = (lt, tt)
below_append n (u ∷ ts) t h lt = (h.0, below_append n ts t h.1 lt)

IsDistinct-append :
    (ts : List AchTransaction) (t : AchTransaction)
    → IsDistinct ts
    → any (λ u. u.tenant_id == t.tenant_id && str_eq u.trace_number t.trace_number) ts ≡ false
    → IsDistinct (ts ++ t ∷ [])
IsDistinct-append [] t h free = (refl, tt)
IsDistinct-append (u ∷ ts) t h free = ground (
  arith,
  any-append (same_trace u) ts t,
  ==-sym u.tenant_id t.tenant_id,
  str_eq-sym u.trace_number t.trace_number,
  IsDistinct-append ts t h.1 (ground arith),
)

-- One more row of a free trace number, whatever its statuses are.
IsValid-added :
    (t : AchTransaction) (db db' : Db)
    → IsValid db
    → t.id ≡ db.next_id
    → is_trace_taken t.tenant_id t.trace_number db ≡ false
    → db'.transactions ≡ db.transactions ++ t ∷ []
    → db.next_id < db'.next_id
    → IsValid db'
IsValid-added t db db' v fresh free stored lt = record {
  below =
      subst (λ ts. All (λ (x : AchTransaction). x.id < db'.next_id) ts) (sym stored)
        (below_append db'.next_id db.transactions t
          (below_mono db.next_id db'.next_id db.transactions (omega arith) v.below) (omega arith));
  distinct = subst IsDistinct (sym stored) (IsDistinct-append db.transactions t v.distinct free);
}

judged-IsValid :
    (env : Env) (t : AchTransaction) (db : Db) (r : Result MatchResult)
    → IsValid db
    → t.id ≡ db.next_id
    → is_trace_taken t.tenant_id t.trace_number db ≡ false
    → IsValid (judged env t (inserted t db) r).1
judged-IsValid env t db (err x) v fresh free = IsValid-added t db _ v fresh free refl (omega arith)
judged-IsValid env t db (ok r) v fresh free = elim (Bool-cases r.matched) [
  | inl matched ↦
      subst (λ b. IsValid (act env t r b (inserted t db)).1) (sym matched)
        (let wrote = settle_stored t db fresh v.below in
          IsValid-added (settled t) db _ v fresh free (ap (λ x. x.1.transactions) wrote)
            (omega (arith, ap (λ x. x.1.next_id) wrote)))
  | inr not_matched ↦
      subst (λ b. IsValid (act env t r b (inserted t db)).1) (sym not_matched)
        (let put = open_exception-IsPutUp env t r (inserted t db) in
          IsValid-added (unmatched t) db _ v fresh free
            (ap (λ d. d.transactions) put.rest
              ∙ replace-last t (unmatched t) db.transactions (rw fresh v.below))
            (omega (arith, ap (λ d. d.next_id) put.rest)))
]

-- Ingesting an ACH entry keeps the table valid on every branch, errors included: ids stay below
-- the next one, and no two entries of a tenant have the same trace number.
pub ingest-IsValid :
    (env : Env) (tenant_id : Uuid) (scope : Option Uuid) (s : AchTransactionSubmission) (db : Db)
    → IsValid db
    → IsValid (ingest_ach_transaction env tenant_id scope s db).1
ingest-IsValid env tenant_id scope s db v =
    elim (Option-cases (find_account tenant_id scope s.account_id db)) [
      | inl missing ↦ rw (ingest_unknown_account env tenant_id scope s db missing) v
      | inr (account, known) ↦ elim (Bool-cases (is_trace_taken tenant_id s.trace_number db)) [
        | inl taken ↦ rw (ingest_taken env tenant_id scope s db known taken) (record {
          below = below_mono db.next_id (db.next_id + 1) db.transactions (omega arith) v.below;
          distinct = v.distinct;
        })
        | inr free ↦
            let t = received tenant_id account s db in
            rw (ingest_known env tenant_id scope s db known free)
              (judged-IsValid env t db (evaluate t (inserted t db)) v refl free)
      ]
    ]

-- A session whose rows, pending and saved, are valid.
abbrev pub IsSound : Session → Type 0
IsSound session = IsValid session.db × IsValid session.saved

in_transaction-IsSound :
    (m : Exec AchTransaction) (session : Session)
    → IsValid (m session.db).1
    → IsSound session
    → IsSound (in_transaction m session).1
in_transaction-IsSound m session v sound = elim (Result-cases (m session.db).0) [
  | inl (a, done) ↦
      subst (λ r. IsSound (end_transaction r (record session { db = (m session.db).1 })).1)
        (sym done) (v, v)
  | inr (x, raised) ↦
      subst (λ r. IsSound (end_transaction r (record session { db = (m session.db).1 })).1)
        (sym raised) (record { below = sound.1.below; distinct = sound.1.distinct }, sound.1)
]

ingest_from-IsSound :
    (env : Env) (tenant_id : Uuid) (scope : Option Uuid) (index : ℕ)
    (submissions : List AchTransactionSubmission) (session : Session)
    → IsSound session
    → IsSound (ingest_from env tenant_id scope index submissions session).1
      × (length (ingest_from env tenant_id scope index submissions session).0 ≡ length submissions)
unfolding ingest_from
ingest_from-IsSound env tenant_id scope index [] session sound = (sound, refl)
ingest_from-IsSound env tenant_id scope index (s ∷ rest) session sound =
    let m = ingest_ach_transaction env tenant_id scope s in
    let kept =
      in_transaction-IsSound m session (ingest-IsValid env tenant_id scope s session.db sound.0)
        sound in
    let (final, count) =
      ingest_from-IsSound env tenant_id scope (suc index) rest (in_transaction m session).1 kept in
    (final, ap suc count)

-- A bulk file of ACH entries, of which any rows may be refused, leaves valid tables, pending and
-- saved, where they were valid before, and has one result for each row.
pub ingest_bulk-IsSound :
    (env : Env) (tenant_id : Uuid) (scope : Option Uuid)
    (submissions : List AchTransactionSubmission) (session : Session)
    → IsSound session
    → IsSound (ingest_ach_transactions_bulk env tenant_id scope submissions session).1
      × (length (ingest_ach_transactions_bulk env tenant_id scope submissions session).0
          ≡ length submissions)
unfolding ingest_ach_transactions_bulk
ingest_bulk-IsSound env tenant_id scope submissions session sound =
    ingest_from-IsSound env tenant_id scope 0 submissions session sound
