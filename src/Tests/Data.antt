-- ===== src/Tests/Data.antt =====
-- A small bank: one tenant under dual control, one account of one customer, one issued check, one
-- authorization, two open exceptions, a maker and a checker.
use pos_pay.Base.{pos, true, false, none, some, [], ◌∷◌, codes}
use pos_pay.Store.Rows.{
  Tenant, MlModelSource, Account, AchDebitBlockMode, IssuedItem, IssuedItemStatus, ItemSource,
  MatchStatus, AchAuthorizationRule, AchAuthorizationStatus, AchTransaction, AchTransactionType,
  AchSettlementStatus, AchReturnReason, ExceptionItem, ExceptionStatus, DecisionOutcome,
}
use pos_pay.Store.Db.{
  Db, Env, DispositionSetting, DispositionMode, TenantMembership, SecurityGroup, User, MlModel,
  MlModelStatus,
}

abbrev pub test_env : Env
test_env = record {
  token_set_ratio = λ a b. 100;
  read_bytes = λ path. some (codes "model");
  sha256 = λ bytes. "5f";
  predict_proba = λ model features. 0x3fe8000000000000;
  payee_match_fuzzy_threshold = 85;
  default_disposition_response_window_hours = 24;
  now = 1000;
}

abbrev pub bank_tenant : Tenant
bank_tenant = record {
  id = 1;
  require_dual_control = true;
  stale_date_threshold_days = pos 180;
  ml_model_source = MlModelSource.shared;
  slug = "bank";
  is_active = true;
  password_login_enabled = true;
  access_token_expire_minutes = none;
  refresh_token_expire_minutes = none;
}

abbrev pub checking : Account
checking = record {
  id = 10;
  tenant_id = 1;
  customer_id = some 5;
  account_number = "4000";
  external_account_id = none;
  name = "Operating";
  ach_debit_block_mode = AchDebitBlockMode.filter_by_authorization;
}

abbrev pub issued_check : IssuedItem
issued_check = record {
  id = 20;
  tenant_id = 1;
  account_id = 10;
  customer_id = some 5;
  check_number = "1001";
  amount = pos 12500;
  payee_name = codes "ACME Corp.";
  issue_date = 738000;
  status = IssuedItemStatus.outstanding;
  source = ItemSource.api;
  void_reason = none;
  voided_at = none;
  submitted_by_user_id = none;
}

abbrev pub utility_rule : AchAuthorizationRule
utility_rule = record {
  id = 30;
  tenant_id = 1;
  account_id = 10;
  customer_id = some 5;
  originator_id = "9876543210";
  originator_name = "City Utilities";
  receiver_id = none;
  status = AchAuthorizationStatus.active;
  max_amount = some (pos 50000);
  frequency_limit = none;
  allowed_sec_codes = some ("CCD" ∷ []);
  effective_date = 737000;
  expiration_date = none;
  created_by_user_id = none;
}

abbrev pub no_authorization : AchReturnReason
no_authorization = record {
  id = 40;
  tenant_id = 1;
  reason_text = "Unauthorized debit";
  transaction_code = some "R29";
  is_active = true;
}

-- An entry under review, and its exception with the recommendation of user 70.
abbrev pub reviewed_entry : AchTransaction
reviewed_entry = record {
  id = 50;
  tenant_id = 1;
  account_id = 10;
  customer_id = some 5;
  originator_id = "1111111111";
  originator_name = "Unknown";
  receiver_id = none;
  amount = pos 9900;
  transaction_type = AchTransactionType.debit;
  sec_code = "PPD";
  trace_number = "091000010000001";
  effective_date = 738005;
  match_status = MatchStatus.exception;
  settlement_status = AchSettlementStatus.pending;
  source = ItemSource.bulk_file;
}

abbrev pub pending_exception : ExceptionItem
pending_exception = record {
  id = 60;
  tenant_id = 1;
  network_code = "ach";
  customer_id = some 5;
  source_item_id = 50;
  related_reference_id = none;
  exception_types = "unauthorized_originator" ∷ [];
  status = ExceptionStatus.pending_approval;
  ml_score = none;
  ml_model_version = none;
  recommended_outcome = some DecisionOutcome.return;
  recommended_reason_code = some "Unauthorized debit";
  recommended_return_transaction_code = some "R29";
  recommended_notes = none;
  recommended_ach_return_reason_id = some 40;
  recommended_by_user_id = some 70;
  decision_deadline = none;
}

abbrev pub reviewers : SecurityGroup
reviewers = record {
  id = 80;
  tenant_id = 1;
  permissions = "exception:recommend" ∷ "exception:decide" ∷ [];
}

abbrev pub membership_of_maker : TenantMembership
membership_of_maker = record {
  id = 90;
  user_id = 70;
  tenant_id = 1;
  customer_id = none;
  security_group_id = 80;
  is_active = true;
  require_webauthn = false;
  created_at = 1;
}

abbrev pub membership_of_checker : TenantMembership
membership_of_checker = record membership_of_maker { id = 91; user_id = 71 }

abbrev pub maker : User
maker = record {
  id = 70;
  email = "maker@bank.example";
  phone = none;
  hashed_password = codes "secret";
  is_active = true;
  failed_login_attempts = 0;
  locked_until = none;
  must_change_password = false;
  token_version = 0;
}

abbrev pub checker : User
checker = record maker { id = 71; email = "checker@bank.example" }

abbrev pub return_setting : DispositionSetting
return_setting = record {
  tenant_id = 1;
  customer_id = 5;
  network_code = "ach";
  mode = DispositionMode.fixed_return;
  response_window_hours = none;
  default_ach_return_reason_id = some 40;
}

abbrev pub shared_model : MlModel
shared_model = record {
  id = 95;
  network_code = "check";
  customer_id = none;
  tenant_id = none;
  version = "v1";
  artifact_path = "models/v1";
  artifact_sha256 = some "5f";
  status = MlModelStatus.active;
}

abbrev pub bank : Db
bank = record {
  tenants = bank_tenant ∷ [];
  customers = [];
  accounts = checking ∷ [];
  issued_items = issued_check ∷ [];
  paid_items = [];
  stop_payments = [];
  check_images = [];
  authorizations = utility_rule ∷ [];
  transactions = reviewed_entry ∷ [];
  return_reasons = no_authorization ∷ [];
  disposition_settings = return_setting ∷ [];
  ml_settings = [];
  ml_models = [];
  exceptions = pending_exception ∷ [];
  decisions = [];
  memberships = membership_of_maker ∷ membership_of_checker ∷ [];
  groups = reviewers ∷ [];
  users = maker ∷ checker ∷ [];
  webauthn_credentials = [];
  revoked_sessions = [];
  preferences = [];
  notifications = [];
  model_cache = [];
  next_id = 100;
}
