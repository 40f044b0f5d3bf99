-- ===== src/Scoring/Cache.antt =====
-- The cache of loaded models is transparent: it never changes what a load returns.
use pos_pay.Base.{
  Text, none, some, List, [], ◌∷◌, ◌≡◌, sym, subst, ap, ◌∙◌, ◌==◌, inl, inr, arith, Option-cases,
  Bool-cases, All, find, ==→eq,
}
use pos_pay.Store.Db.{Db, Env, MlModel, CachedModel}
use pos_pay.Store.Exec.{Error, ok, err, Result-cases}
use pos_pay.Scoring.{is_key, verified_bytes, cache_put, hit, cache_get, load_row}

-- What the cache holds for a model's row is what a verified load of that row returns.
abbrev pub IsCoherent : Env → MlModel → List CachedModel → Type 0
IsCoherent env m cs =
    All
      (λ (c : CachedModel).
        c.model_id ≡ m.id
        → verified_bytes env m.artifact_path m.artifact_sha256 ≡ ok (some c.model))
      cs

hit_coherent :
    (env : Env) (m k : MlModel) (cs : List CachedModel) {model : Text}
    → IsCoherent env m cs
    → hit m (find (is_key k) cs) ≡ some model
    → verified_bytes env m.artifact_path m.artifact_sha256 ≡ ok (some model)
hit_coherent env m k [] h found = cc
hit_coherent env m k (c ∷ cs) h found = elim (Bool-cases (is_key k c)) [
  | inr other ↦ hit_coherent env m k cs h.1 (rw other at found)
  | inl its ↦ elim (Bool-cases (c.model_id == m.id)) [
    | inl same ↦ h.0 (==→eq c.model_id m.id same) ∙ ground arith
    | inr stale ↦ ground arith
  ]
]

put-IsCoherent :
    (env : Env) (m k : MlModel) (model : Text) (cs : List CachedModel)
    → IsCoherent env m cs
    → (k.id ≡ m.id → verified_bytes env m.artifact_path m.artifact_sha256 ≡ ok (some model))
    → IsCoherent env m (cache_put k model cs)
unfolding cache_put
put-IsCoherent env m k model [] h new = (new, tt)
put-IsCoherent env m k model (c ∷ cs) h new = elim (Bool-cases (is_key k c)) [
  | inl its ↦ rw its (new, h.1)
  | inr other ↦ rw other (h.0, put-IsCoherent env m k model cs h.1 new)
]

get_coherent :
    (env : Env) (m : MlModel) (cs : List CachedModel) {model : Text}
    → IsCoherent env m cs
    → cache_get m cs ≡ some model
    → verified_bytes env m.artifact_path m.artifact_sha256 ≡ ok (some model)
unfolding cache_get
get_coherent env m cs h found = hit_coherent env m m cs h found

module _ (env : Env) (m : MlModel) (db : Db) where
  load_hit :
      {model : Text}
      → cache_get m db.model_cache ≡ some model
      → load_row env m db ≡ (ok (some model), db)
  unfolding load_row
  load_hit cached = ground arith

  load_failed :
      {x : Error}
      → cache_get m db.model_cache ≡ none
      → verified_bytes env m.artifact_path m.artifact_sha256 ≡ err x
      → load_row env m db ≡ (err x, db)
  unfolding load_row
  load_failed missed raised = ground arith

  load_refused :
      cache_get m db.model_cache ≡ none
      → verified_bytes env m.artifact_path m.artifact_sha256 ≡ ok none
      → load_row env m db ≡ (ok none, db)
  unfolding load_row
  load_refused missed refused = ground arith

  load_stored :
      {model : Text}
      → cache_get m db.model_cache ≡ none
      → verified_bytes env m.artifact_path m.artifact_sha256 ≡ ok (some model)
      → load_row env m db
        ≡ (ok (some model), record db { model_cache = cache_put m model db.model_cache })
  unfolding load_row
  load_stored missed loaded = ground arith

-- The cache of models is transparent: where it is coherent, a load returns what a verified load
-- from the file returns, an error for an unreadable file and nothing for a failed check included,
-- whether the cache answers it or not; and the cache stays coherent for every row that is that one
-- or has another id.
pub load_transparent :
    (env : Env) (m k : MlModel) (db : Db)
    → IsCoherent env m db.model_cache
    → IsCoherent env k db.model_cache
    → (m.id ≡ k.id → m ≡ k)
    → ((load_row env m db).0 ≡ verified_bytes env m.artifact_path m.artifact_sha256)
      × IsCoherent env k (load_row env m db).1.model_cache
load_transparent env m k db own other unique = elim (Option-cases (cache_get m db.model_cache)) [
  | inr (model, cached) ↦
      let e = load_hit env m db cached in
      (rw e (sym (get_coherent env m db.model_cache own cached)), rw e other)
  | inl missed ↦ elim (Result-cases (verified_bytes env m.artifact_path m.artifact_sha256)) [
    | inr (x, raised) ↦
        let e = load_failed env m db missed raised in (rw e (sym raised), rw e other)
    | inl (loaded, done) ↦ elim (Option-cases loaded) [
      | inl refused ↦
          let none_loaded = done ∙ ap ok refused in
          let e = load_refused env m db missed none_loaded in (rw e (sym none_loaded), rw e other)
      | inr (model, present) ↦
          let some_loaded = done ∙ ap ok present in
          let e = load_stored env m db missed some_loaded in
          (
            rw e (sym some_loaded),
            rw e (
                put-IsCoherent env k m model db.model_cache other λ same.
                  subst
                    (λ (r : MlModel).
                      verified_bytes env r.artifact_path r.artifact_sha256 ≡ ok (some model))
                    (unique same) some_loaded),
          )
    ]
  ]
]
