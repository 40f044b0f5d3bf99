-- ===== src/Scoring/Frame.antt =====
-- Scoring writes the score of exceptions and the cache, and nothing else.
use pos_pay.Base.{
  ℕ, Text, String, Option, none, some, List, [], ◌∷◌, map, ◌≡◌, refl, ◌∙◌, ◌==◌, arith, inl, inr,
  update,
}
use pos_pay.Store.Rows.{Uuid, ExceptionItem}
use pos_pay.Store.Db.{Db, Env, MlModel}
use pos_pay.Store.Exec.{Result-cases, bind-ok, bind-err}
use pos_pay.Networks.{get_adapter, build_features}
use pos_pay.Scoring.{resolve_scoring_source, load_row, score_with, score_row, score_exception}

-- An exception with its score left out.
abbrev pub unscored : ExceptionItem → ExceptionItem
unscored e = record e { ml_score = none; ml_model_version = none }

pub record IsScored (db db' : Db) : Type 0 where
  pub rest : db' ≡ record db { exceptions = db'.exceptions; model_cache = db'.model_cache }
  pub exceptions : map unscored db'.exceptions ≡ map unscored db.exceptions

unscored-update :
    (i : Uuid) (score : ℕ) (version : String) (es : List ExceptionItem)
    → map unscored (
        update
          (λ x. x.id == i)
          (λ x. record x { ml_score = some score; ml_model_version = some version })
          es)
      ≡ map unscored es
unscored-update i score version [] = refl
unscored-update i score version (e ∷ es) = ground (arith, unscored-update i score version es)

load_row-IsScored : (env : Env) (m : MlModel) (db : Db) → IsScored db (load_row env m db).1
unfolding load_row
load_row-IsScored env m db = record { rest = ground arith; exceptions = ground arith }

score_with-IsScored :
    (env : Env) (e : ExceptionItem) (m : MlModel) (model : Option Text) (db : Db)
    → IsScored db (score_with env e m model db).1
score_with-IsScored env e m none db = record { rest = refl; exceptions = refl }
score_with-IsScored env e m (some model) db = elim (Result-cases (get_adapter e.network_code)) [
  | inr (x, raised) ↦ record { rest = ground arith; exceptions = ground arith }
  | inl (adapter, got) ↦ elim (Result-cases (build_features env adapter e db)) [
    | inr (x, raised) ↦ record { rest = ground arith; exceptions = ground arith }
    | inl (features, built) ↦ record {
      rest = ground arith;
      exceptions =
          ground (
            arith,
            unscored-update e.id (env.predict_proba model features) m.version db.exceptions,
          );
    }
  ]
]

IsScored-trans : {a b c : Db} → IsScored a b → IsScored b c → IsScored a c
IsScored-trans {a} {b} {c} h k = record {
  rest = ground (arith, h.rest, k.rest);
  exceptions = k.exceptions ∙ h.exceptions;
}

score_row-IsScored :
    (env : Env) (e : ExceptionItem) (m : Option MlModel) (db : Db)
    → IsScored db (score_row env e m db).1
score_row-IsScored env e none db = record { rest = refl; exceptions = refl }
score_row-IsScored env e (some m) db =
    let loading = load_row-IsScored env m db in
    elim (Result-cases (load_row env m db).0) [
      | inl (model, loaded) ↦
          rw (bind-ok (load_row env m) (score_with env e m) db loaded)
            (IsScored-trans loading (score_with-IsScored env e m model (load_row env m db).1))
      | inr (x, raised) ↦ rw (bind-err (load_row env m) (score_with env e m) db raised) loading
    ]

-- Scoring an exception, whether it succeeds or raises, changes only scores and the cache of
-- models: every table but that of the exceptions is the same, and so are the exceptions but for
-- their scores.
pub score_exception-IsScored :
    (env : Env) (e : ExceptionItem) (db : Db) → IsScored db (score_exception env e db).1
unfolding score_exception
score_exception-IsScored env e db =
    score_row-IsScored env e (resolve_scoring_source e.tenant_id e.network_code e.customer_id db) db
