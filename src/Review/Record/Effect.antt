-- ===== src/Review/Record/Effect.antt =====
-- What recording a decision does to the tables.
use pos_pay.Base.{
  ◌+◌, String, true, false, ◌&&◌, some, [], ◌∷◌, ◌++◌, ◌≡◌, refl, sym, ap, ◌∙◌, ◌==◌, arith,
  Bool-cases, inl, inr, find, update, str_eq, eq_iff,
}
use pos_pay.Store.Rows.{
  Uuid, ExceptionItem, Decision, DecisionOutcome, AchTransaction, AchSettlementStatus,
}
use pos_pay.Store.Db.{Db, Env, Features}
use pos_pay.Store.Exec.{ok, Result-cases}
use pos_pay.Networks.{Adapter, ach, get_adapter, build_features, load_ach_source_item}
use pos_pay.Review.Record.{
  Verdict, decision_row, is_decided, is_return, settle_return, record_decision, status_for,
  set_status,
}

pub record Recorded (e : ExceptionItem) (v : Verdict) (db db' : Db) (d : Decision Features)
    : Type 0 where
  pub row : d ≡ decision_row db.next_id e v d.features_json
  pub first : is_decided e.id db ≡ false
  pub decisions : db'.decisions ≡ db.decisions ++ d ∷ []
  pub exceptions :
      db'.exceptions
      ≡ update (λ x. x.id == e.id) (λ x. record x { status = status_for v.outcome }) db.exceptions
  pub paid_items : db'.paid_items ≡ db.paid_items
  pub transactions :
      (is_return v.outcome && str_eq e.network_code "ach") ≡ false
      → db'.transactions ≡ db.transactions
  pub returned :
      (is_return v.outcome && str_eq e.network_code "ach") ≡ true
      → (t : AchTransaction) → find (λ t. t.id == e.source_item_id) db.transactions ≡ some t
      → db'.transactions
        ≡ update
            (λ x. x.id == t.id)
            (λ x. record x { settlement_status = AchSettlementStatus.returned })
            db.transactions

get_adapter-ach : (code : String) → str_eq code "ach" ≡ true → get_adapter code ≡ ok ach
unfolding get_adapter
get_adapter-ach code h = rw ((eq_iff code "ach").0 h) refl

load_of_ach :
    (code : String) (adapter : Adapter) (i : Uuid) (db : Db)
    → get_adapter code ≡ ok adapter
    → str_eq code "ach" ≡ true
    → load_ach_source_item adapter i db ≡ find (λ t. t.id == i) db.transactions
unfolding load_ach_source_item
load_of_ach code adapter i db got is_ach =
    let same : ok adapter ≡ ok ach = sym got ∙ get_adapter-ach code is_ach in ground arith

transactions-settle_return :
    (adapter : Adapter) (e : ExceptionItem) (outcome : DecisionOutcome) (db : Db)
    (t : AchTransaction)
    → (is_return outcome && str_eq e.network_code "ach") ≡ true
    → load_ach_source_item adapter e.source_item_id db ≡ some t
    → (settle_return adapter e outcome db).transactions
      ≡ update
          (λ x. x.id == t.id)
          (λ x. record x { settlement_status = AchSettlementStatus.returned })
          db.transactions
unfolding settle_return
transactions-settle_return adapter e outcome db t applies found = rw (applies, found)

-- The tables as they stand where the settlement is reached.
abbrev decided_db : ExceptionItem → Verdict → Features → Db → Db
decided_db e v features db = set_status e.id (status_for v.outcome) (record db {
  next_id = db.next_id + 1;
  decisions = db.decisions ++ decision_row db.next_id e v features ∷ [];
})

pub record_decision-Recorded :
    (env : Env) (e : ExceptionItem) (v : Verdict) (db : Db) {db' : Db} {d : Decision Features}
    → record_decision env e v db ≡ (ok d, db')
    → Recorded e v db db' d
unfolding record_decision
record_decision-Recorded env e v db {db'} h = elim (Result-cases (get_adapter e.network_code)) [
  | inr (x, raised) ↦ ground arith
  | inl (adapter, got) ↦ elim (Result-cases (build_features env adapter e db)) [
    | inr (x, raised) ↦ ground arith
    | inl (features, built) ↦ elim (Bool-cases (is_decided e.id db)) [
      | inl decided ↦ ground arith
      | inr fresh ↦ record {
        row = ground arith;
        first = fresh;
        decisions = unfold settle_return in ground arith;
        exceptions = unfold settle_return in ground arith;
        paid_items = unfold settle_return in ground arith;
        transactions = λ z. unfold settle_return in ground arith;
        returned = λ z t f.
            let before = decided_db e v features db in
            let loaded =
              load_of_ach e.network_code adapter e.source_item_id before got (ground arith) ∙ f in
            let settled = transactions-settle_return adapter e v.outcome before t z loaded in
            let final : db' ≡ settle_return adapter e v.outcome before = ground arith in
            ap (λ (s : Db). s.transactions) final ∙ settled;
      }
    ]
  ]
]
