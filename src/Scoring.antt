-- ===== src/Scoring.antt =====
-- ml/predict.py and the parts of ml/registry.py that it calls: which model scores an exception,
-- the verified load of its artifact, and the process's cache of loaded models.
pub mod Cache
pub mod Frame
pub mod FollowUp
use pos_pay.Base.{
  ℕ, String, Text, Bool, true, false, ◌&&◌, Option, none, some, List, [], ◌∷◌, ◌==◌, if◌then◌else◌,
  select, find, update, head?, str_eq, same_id,
}
use pos_pay.Store.Rows.{Uuid, MlModelSource, ExceptionItem}
use pos_pay.Store.Db.{
  Db, Env, Features, MlModel, MlModelStatus, MlSetting, MlScoringMode, CachedModel,
}
use pos_pay.Store.Exec.{
  Exec, Result, ok, err, pure, raise, gets, reads, modify, file_not_found, ◌>>=◌, ◌>>◌,
}
use pos_pay.Networks.{get_adapter, build_features}

abbrev pub is_active : MlModelStatus → Bool
is_active MlModelStatus.active = true
is_active _ = false

-- `_slot_filter`
abbrev pub in_slot : Option Uuid → Option Uuid → MlModel → Bool
in_slot tenant_id (some customer) m = same_id m.customer_id (some customer)
in_slot tenant_id none m = same_id m.customer_id none && same_id m.tenant_id tenant_id

unfoldable pub get_active_model_row : String → Option Uuid → Option Uuid → Db → Option MlModel
get_active_model_row network_code customer_id tenant_id db =
    find
      (λ m.
        str_eq m.network_code network_code
        && (is_active m.status && in_slot tenant_id customer_id m))
      db.ml_models

abbrev is_private : MlModelSource → Bool
is_private MlModelSource.private = true
is_private MlModelSource.shared = false

unfoldable pub bank_level_model : Uuid → String → Db → Option MlModel
bank_level_model tenant_id network_code db = elim (find (λ t. t.id == tenant_id) db.tenants) [
  | none ↦ get_active_model_row network_code none none db
  | some tenant ↦
      if is_private tenant.ml_model_source
      then get_active_model_row network_code none (some tenant_id) db
      else get_active_model_row network_code none none db
]

-- `settings[0].mode if settings else AUTO`
abbrev mode_of : Option MlSetting → MlScoringMode
mode_of none = MlScoringMode.auto
mode_of (some setting) = setting.mode

abbrev is_global : MlScoringMode → Bool
is_global MlScoringMode.global = true
is_global _ = false

abbrev pub or_else : {A : Type 0} → Option A → Option A → Option A
or_else none b = b
or_else (some a) b = some a

unfoldable pub scoring_mode : Uuid → Uuid → String → Db → MlScoringMode
scoring_mode tenant_id customer network_code db = mode_of (
    find
      (λ s.
        s.tenant_id == tenant_id
        && (s.customer_id == customer && str_eq s.network_code network_code))
      db.ml_settings)

unfoldable pub resolve_scoring_source : Uuid → String → Option Uuid → Db → Option MlModel
resolve_scoring_source tenant_id network_code none db = bank_level_model tenant_id network_code db
resolve_scoring_source tenant_id network_code (some customer) db =
    if is_global (scoring_mode tenant_id customer network_code db)
    then bank_level_model tenant_id network_code db
    else or_else (get_active_model_row network_code (some customer) none db)
        (bank_level_model tenant_id network_code db)

-- `ArtifactStore.load_model`: `ok none` is an ArtifactIntegrityError, which `_load_model` catches;
-- a file that cannot be read raises past it.
unfoldable pub verified_bytes : Env → String → Option String → Result (Option Text)
verified_bytes env path none = ok none
verified_bytes env path (some expected) =
    if str_eq expected "" then ok none else elim (env.read_bytes path) [
      | none ↦ err file_not_found
      | some bytes ↦ if str_eq (env.sha256 bytes) expected then ok (some bytes) else ok none
    ]

-- `cache_key == entry's key`
abbrev pub is_key : MlModel → CachedModel → Bool
is_key m c =
    str_eq c.network_code m.network_code
    && (same_id c.tenant_id m.tenant_id && same_id c.customer_id m.customer_id)

abbrev pub cached_entry : MlModel → Text → CachedModel
cached_entry m model = record {
  network_code = m.network_code;
  tenant_id = m.tenant_id;
  customer_id = m.customer_id;
  model_id = m.id;
  model = model;
}

-- `_MODEL_CACHE[cache_key] = …`
unfoldable pub cache_put : MlModel → Text → List CachedModel → List CachedModel
cache_put m model [] = cached_entry m model ∷ []
cache_put m model (c ∷ cs) =
    if is_key m c then cached_entry m model ∷ cs else c ∷ cache_put m model cs

-- `cached is not None and cached[0] == model_row.id`
abbrev pub hit : MlModel → Option CachedModel → Option Text
hit m none = none
hit m (some c) = if c.model_id == m.id then some c.model else none

unfoldable pub cache_get : MlModel → List CachedModel → Option Text
cache_get m cs = hit m (find (is_key m) cs)

abbrev pub store_loaded : MlModel → Option Text → Exec (Option Text)
store_loaded m none = pure none
store_loaded m (some model) =
    modify (λ db. record db { model_cache = cache_put m model db.model_cache }) >> pure (some model)

unfoldable pub load_row : Env → MlModel → Exec (Option Text)
load_row env m db = elim (cache_get m db.model_cache) [
  | some model ↦ (ok (some model), db)
  | none ↦
      (do
        loaded ← reads (λ _. verified_bytes env m.artifact_path m.artifact_sha256)
        store_loaded m loaded)
        db
]

abbrev pub set_score : Uuid → ℕ → String → Db → Db
set_score i score version db = record db {
  exceptions =
      update (λ x. x.id == i)
        (λ x. record x { ml_score = some score; ml_model_version = some version }) db.exceptions;
}

abbrev pub score_with : Env → ExceptionItem → MlModel → Option Text → Exec (Option ℕ)
score_with env e m none = pure none
score_with env e m (some model) = do
  adapter ← reads (λ _. get_adapter e.network_code)
  features ← reads (build_features env adapter e)
  modify (set_score e.id (env.predict_proba model features) m.version)
  pure (some (env.predict_proba model features))

abbrev pub score_row : Env → ExceptionItem → Option MlModel → Exec (Option ℕ)
score_row env e none = pure none
score_row env e (some m) = do model ← load_row env m; score_with env e m model

-- `score_exception`
unfoldable pub score_exception : Env → ExceptionItem → Exec (Option ℕ)
score_exception env e = do
  m ← gets (resolve_scoring_source e.tenant_id e.network_code e.customer_id)
  score_row env e m
