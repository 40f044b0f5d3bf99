-- ===== src/Review/Disposition.antt =====
-- services/auto_disposition_service.py: the per-customer settings and the decision deadline.
pub mod Settings
use pos_pay.Base.{
  ℕ, ◌+◌, ◌*◌, String, Bool, true, false, ◌&&◌, Option, none, some, List, [], ◌∷◌, ◌++◌, map, ◌==◌,
  if◌then◌else◌, find, update, str_eq, is_some,
}
use pos_pay.Store.Rows.{Uuid}
use pos_pay.Store.Db.{Db, Env, DispositionMode, none_, DispositionSetting}
use pos_pay.Store.Exec.{Exec, ok}
use pos_pay.Networks.{registered_codes}

-- The instants are counted in seconds.
abbrev pub seconds_per_hour : ℕ
seconds_per_hour = 3600

abbrev pub is_setting_for : Uuid → Uuid → String → DispositionSetting → Bool
is_setting_for tenant_id customer_id network_code s =
    s.tenant_id == tenant_id && (s.customer_id == customer_id && str_eq s.network_code network_code)

unfoldable pub get_setting : Uuid → Uuid → String → Db → Option DispositionSetting
get_setting tenant_id customer_id network_code db =
    find (is_setting_for tenant_id customer_id network_code) db.disposition_settings

abbrev pub mode_of : Option DispositionSetting → DispositionMode
mode_of none = none_
mode_of (some setting) = setting.mode

unfoldable pub get_disposition_mode : Uuid → Uuid → String → Db → DispositionMode
get_disposition_mode tenant_id customer_id network_code db =
    mode_of (get_setting tenant_id customer_id network_code db)

abbrev pub window_of : ℕ → Option DispositionSetting → ℕ
window_of default none = default
window_of default (some setting) = elim setting.response_window_hours [
  | none ↦ default
  | some h ↦ h
]

unfoldable pub get_response_window_hours : Env → Uuid → Uuid → String → Db → ℕ
get_response_window_hours env tenant_id customer_id network_code db =
    window_of env.default_disposition_response_window_hours
      (get_setting tenant_id customer_id network_code db)

-- The row in place of the first that is there, or added behind the others.
abbrev pub put_setting : DispositionSetting → List DispositionSetting → List DispositionSetting
put_setting new [] = new ∷ []
put_setting new (s ∷ ss) =
    if is_setting_for new.tenant_id new.customer_id new.network_code s
    then new ∷ ss
    else s ∷ put_setting new ss

unfoldable pub set_disposition_setting :
    Uuid → Uuid → String → DispositionMode → Option ℕ → Option Uuid → Exec DispositionSetting
set_disposition_setting tenant_id customer_id network_code mode hours reason_id db =
    let new : DispositionSetting = record {
      tenant_id = tenant_id;
      customer_id = customer_id;
      network_code = network_code;
      mode = mode;
      response_window_hours = hours;
      default_ach_return_reason_id = reason_id;
    } in
    (ok new, record db { disposition_settings = put_setting new db.disposition_settings })

pub record DispositionSummary : Type 0 where
  pub network_code : String
  pub mode : DispositionMode
  pub response_window_hours : ℕ
  pub default_ach_return_reason_id : Option Uuid

abbrev reason_of : Option DispositionSetting → Option Uuid
reason_of none = none
reason_of (some setting) = setting.default_ach_return_reason_id

unfoldable pub get_disposition_summary : Env → Uuid → Uuid → Db → List DispositionSummary
get_disposition_summary env tenant_id customer_id db =
    map
      (λ code. record {
        network_code = code;
        mode = mode_of (get_setting tenant_id customer_id code db);
        response_window_hours = get_response_window_hours env tenant_id customer_id code db;
        default_ach_return_reason_id = reason_of (get_setting tenant_id customer_id code db);
      })
      registered_codes

abbrev pub is_no_disposition : DispositionMode → Bool
is_no_disposition none_ = true
is_no_disposition _ = false

unfoldable pub compute_decision_deadline : Env → Uuid → Option Uuid → String → Db → Option ℕ
compute_decision_deadline env tenant_id none network_code db = none
compute_decision_deadline env tenant_id (some customer) network_code db =
    if is_no_disposition (get_disposition_mode tenant_id customer network_code db)
    then none
    else some (
        env.now
        + get_response_window_hours env tenant_id customer network_code db * seconds_per_hour)
