-- ===== src/Review/Disposition/Settings.antt =====
-- The disposition settings: what a caller sets is what is read, and who a deadline depends on.
use pos_pay.Base.{
  ℕ, String, true, false, Option, none, some, List, [], ◌∷◌, ◌≡◌, refl, arith, find, ==-refl,
  str_eq_refl, Bool-cases, inl, inr, ==→eq, eq_iff,
}
use pos_pay.Store.Rows.{Uuid}
use pos_pay.Store.Db.{Db, Env, DispositionMode, DispositionSetting}
use pos_pay.Review.Disposition.{
  is_setting_for, put_setting, get_setting, get_disposition_mode, get_response_window_hours,
  set_disposition_setting, compute_decision_deadline,
}

-- A deadline is read off the settings alone.
pub compute_decision_deadline_lem :
    (env : Env) (tenant : Uuid) (customer : Option Uuid) (code : String) (db db' : Db)
    → db'.disposition_settings ≡ db.disposition_settings
    → compute_decision_deadline env tenant customer code db'
      ≡ compute_decision_deadline env tenant customer code db
unfolding compute_decision_deadline get_disposition_mode get_response_window_hours get_setting
compute_decision_deadline_lem env tenant none code db db' same = refl
compute_decision_deadline_lem env tenant (some c) code db db' same = rw same

is_its_own :
    (s : DispositionSetting) → is_setting_for s.tenant_id s.customer_id s.network_code s ≡ true
is_its_own s =
    ground (arith, ==-refl s.tenant_id, ==-refl s.customer_id, str_eq_refl s.network_code)

find-put_same :
    (new : DispositionSetting) (ss : List DispositionSetting)
    → find (is_setting_for new.tenant_id new.customer_id new.network_code) (put_setting new ss)
      ≡ some new
find-put_same new [] = rw (is_its_own new)
find-put_same new (s ∷ ss) = ground (arith, is_its_own new, find-put_same new ss)

-- A row that is replaced had the same key, so a query for another key passes both over.
other_key :
    (new s : DispositionSetting) (t c : Uuid) (code : String)
    → is_setting_for new.tenant_id new.customer_id new.network_code s ≡ true
    → is_setting_for t c code s ≡ is_setting_for t c code new
other_key new s t c code h = ground (
  arith,
  ==→eq s.tenant_id new.tenant_id,
  ==→eq s.customer_id new.customer_id,
  eq_iff s.network_code new.network_code,
)

find-put_other :
    (new : DispositionSetting) (ss : List DispositionSetting) (t c : Uuid) (code : String)
    → is_setting_for t c code new ≡ false
    → find (is_setting_for t c code) (put_setting new ss) ≡ find (is_setting_for t c code) ss
find-put_other new [] t c code h = rw h
find-put_other new (s ∷ ss) t c code h =
    elim (Bool-cases (is_setting_for new.tenant_id new.customer_id new.network_code s)) [
      | inl same ↦ ground (arith, other_key new s t c code same)
      | inr other ↦ ground (arith, find-put_other new ss t c code h)
    ]

-- A disposition setting that is set is the one that is read under its key, whether or not there
-- was one before, and what is read under any other key is unchanged.
pub set_then_get :
    (tenant customer : Uuid) (code : String) (mode : DispositionMode) (hours : Option ℕ)
    (reason : Option Uuid) (db : Db) (t c : Uuid) (other : String)
    → let new : DispositionSetting = record {
      tenant_id = tenant;
      customer_id = customer;
      network_code = code;
      mode = mode;
      response_window_hours = hours;
      default_ach_return_reason_id = reason;
    } in
      is_setting_for t c other new ≡ false
      → let r = set_disposition_setting tenant customer code mode hours reason db in
        (get_setting tenant customer code r.1 ≡ some new)
        × (get_setting t c other r.1 ≡ get_setting t c other db)
unfolding set_disposition_setting get_setting
set_then_get tenant customer code mode hours reason db t c other apart =
    let new : DispositionSetting = record {
      tenant_id = tenant;
      customer_id = customer;
      network_code = code;
      mode = mode;
      response_window_hours = hours;
      default_ach_return_reason_id = reason;
    } in
    (
      find-put_same new db.disposition_settings,
      find-put_other new db.disposition_settings t c other apart,
    )
