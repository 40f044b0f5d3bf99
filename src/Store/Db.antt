-- ===== src/Store/Db.antt =====
-- The tables, with the rows that notifications and scoring add, and what lies outside the
-- program: the string matcher, the hash, the files, the clock and the settings.
use pos_pay.Base.{ℕ, ℤ, String, Text, Bool, Option, List}
use pos_pay.Store.Rows.{
  Uuid, Tenant, Customer, Account, IssuedItem, PaidItem, StopPayment, CheckImage,
  AchAuthorizationRule, AchTransaction, AchReturnReason, ExceptionItem, Decision,
}

-- domain/customer_disposition_setting.py
pub data DispositionMode : Type 0 where
  none_ fixed_pay fixed_return ml_determined : DispositionMode

pub record DispositionSetting : Type 0 where
  pub tenant_id : Uuid
  pub customer_id : Uuid
  pub network_code : String
  pub mode : DispositionMode
  pub response_window_hours : Option ℕ
  pub default_ach_return_reason_id : Option Uuid

-- domain/customer_ml_setting.py
pub data MlScoringMode : Type 0 where
  auto global customer : MlScoringMode

pub record MlSetting : Type 0 where
  pub tenant_id : Uuid
  pub customer_id : Uuid
  pub network_code : String
  pub mode : MlScoringMode

-- domain/ml_model.py
pub data MlModelStatus : Type 0 where
  training active retired failed : MlModelStatus

pub record MlModel : Type 0 where
  pub id : Uuid
  pub network_code : String
  pub customer_id : Option Uuid
  pub tenant_id : Option Uuid
  pub version : String
  pub artifact_path : String
  pub artifact_sha256 : Option String
  pub status : MlModelStatus

-- domain/tenant_membership.py, domain/security_group.py, domain/user.py
pub record TenantMembership : Type 0 where
  pub id : Uuid
  pub user_id : Uuid
  pub tenant_id : Uuid
  pub customer_id : Option Uuid
  pub security_group_id : Uuid
  pub is_active : Bool
  pub require_webauthn : Bool
  pub created_at : ℕ

pub record SecurityGroup : Type 0 where
  pub id : Uuid
  pub tenant_id : Uuid
  pub permissions : List String

pub record User : Type 0 where
  pub id : Uuid
  pub email : String
  pub phone : Option String
  pub hashed_password : Text
  pub is_active : Bool
  pub failed_login_attempts : ℕ
  pub locked_until : Option ℕ
  pub must_change_password : Bool
  pub token_version : ℕ

-- domain/webauthn_credential.py, domain/revoked_session.py
pub record WebauthnCredential : Type 0 where
  pub id : Uuid
  pub tenant_id : Uuid
  pub user_id : Uuid

pub record RevokedSession : Type 0 where
  pub session_id : Uuid
  pub user_id : Uuid
  pub expires_at : ℕ

-- domain/notification.py
pub data NotificationType : Type 0 where
  exception_created recommendation_awaiting_approval account_locked : NotificationType
  account_unlocked exception_auto_decided password_changed : NotificationType

pub data NotificationChannel : Type 0 where
  email sms : NotificationChannel

pub record NotificationPreference : Type 0 where
  pub user_id : Uuid
  pub notification_type : NotificationType
  pub email_enabled : Bool
  pub sms_enabled : Bool

-- The body is a rendered template and is left out.
pub record Notification : Type 0 where
  pub tenant_id : Option Uuid
  pub recipient_user_id : Uuid
  pub notification_type : NotificationType
  pub channel : NotificationChannel
  pub destination : String
  pub resource_id : Option Uuid

-- A feature vector's values: exact amounts, differences and quotients where the program rounds
-- them to floats, and the bit pattern of a float that it stores as it is.
pub data FeatureValue : Type 0 where
  cents : ℤ → FeatureValue
  fraction : ℤ → ℤ → FeatureValue
  days : ℤ → FeatureValue
  float_bits : ℕ → FeatureValue
  text : String → FeatureValue
  flag : Bool → FeatureValue

abbrev pub Features : Type 0
Features = List (String × FeatureValue)

-- `model_cache` is the process's `_MODEL_CACHE`: slot, id of the model row, loaded bytes.
pub record CachedModel : Type 0 where
  pub network_code : String
  pub tenant_id : Option Uuid
  pub customer_id : Option Uuid
  pub model_id : Uuid
  pub model : Text

pub record Db : Type 0 where
  pub tenants : List Tenant
  pub customers : List Customer
  pub accounts : List Account
  pub issued_items : List IssuedItem
  pub paid_items : List PaidItem
  pub stop_payments : List StopPayment
  pub check_images : List CheckImage
  pub authorizations : List AchAuthorizationRule
  pub transactions : List AchTransaction
  pub return_reasons : List AchReturnReason
  pub disposition_settings : List DispositionSetting
  pub ml_settings : List MlSetting
  pub ml_models : List MlModel
  pub exceptions : List ExceptionItem
  pub decisions : List (Decision Features)
  pub memberships : List TenantMembership
  pub groups : List SecurityGroup
  pub users : List User
  pub webauthn_credentials : List WebauthnCredential
  pub revoked_sessions : List RevokedSession
  pub preferences : List NotificationPreference
  pub notifications : List Notification
  pub model_cache : List CachedModel
  -- The next value of `new_uuid`: ids are fresh.
  pub next_id : Uuid

-- What is not the program's own: rapidfuzz, SHA-256, the artifact files, the unpickled model's
-- `predict_proba`, and config.Settings with the clock.
pub record Env : Type 0 where
  pub token_set_ratio : Text → Text → ℕ
  pub read_bytes : String → Option Text
  pub sha256 : Text → String
  pub predict_proba : Text → Features → ℕ
  pub payee_match_fuzzy_threshold : ℕ
  pub default_disposition_response_window_hours : ℕ
  pub now : ℕ
