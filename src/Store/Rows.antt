-- ===== src/Store/Rows.antt =====
-- The rows of src/pospay/domain that the matching and review code reads and writes. An id is a
-- number, a date its ordinal, an instant a count of time units, an amount (NUMERIC(12, 2)) an
-- integer of cents, and a float that is only compared the bit pattern that orders it. Columns
-- that nothing modelled reads (paths, time stamps of the database) are left out.
use pos_pay.Base.{ℕ, ℤ, String, Text, Bool, Option, List}

abbrev pub Uuid : Type 0
Uuid = ℕ

-- domain/tenant.py
pub data MlModelSource : Type 0 where
  shared private : MlModelSource

pub record Tenant : Type 0 where
  pub id : Uuid
  pub require_dual_control : Bool
  pub stale_date_threshold_days : ℤ
  pub ml_model_source : MlModelSource
  pub slug : String
  pub is_active : Bool
  pub password_login_enabled : Bool
  pub access_token_expire_minutes : Option ℕ
  pub refresh_token_expire_minutes : Option ℕ

-- domain/customer.py
pub record Customer : Type 0 where
  pub id : Uuid
  pub tenant_id : Uuid
  pub is_active : Bool
  pub password_login_enabled : Bool

-- domain/account.py
pub data AchDebitBlockMode : Type 0 where
  block_all filter_by_authorization : AchDebitBlockMode

pub record Account : Type 0 where
  pub id : Uuid
  pub tenant_id : Uuid
  pub customer_id : Option Uuid
  pub account_number : String
  pub external_account_id : Option String
  pub name : String
  pub ach_debit_block_mode : AchDebitBlockMode

-- domain/issued_item.py
pub data IssuedItemStatus : Type 0 where
  outstanding paid voided stopped stale : IssuedItemStatus

pub data ItemSource : Type 0 where
  api bulk_file manual training_backfill : ItemSource

pub record IssuedItem : Type 0 where
  pub id : Uuid
  pub tenant_id : Uuid
  pub account_id : Uuid
  pub customer_id : Option Uuid
  pub check_number : String
  pub amount : ℤ
  pub payee_name : Text
  pub issue_date : ℕ
  pub status : IssuedItemStatus
  pub source : ItemSource
  pub void_reason : Option String
  pub voided_at : Option ℕ
  pub submitted_by_user_id : Option Uuid

-- domain/paid_item.py and the same three values of domain/ach_transaction.py
pub data MatchStatus : Type 0 where
  pending matched exception : MatchStatus

pub data PaidItemSettlementStatus : Type 0 where
  pending paid returned reversed : PaidItemSettlementStatus

pub record PaidItem : Type 0 where
  pub id : Uuid
  pub tenant_id : Uuid
  pub account_id : Uuid
  pub customer_id : Option Uuid
  pub check_number : String
  pub presented_amount : ℤ
  pub presented_date : ℕ
  pub matched_issued_item_id : Option Uuid
  pub match_status : MatchStatus
  pub settlement_status : PaidItemSettlementStatus
  pub source : ItemSource

-- domain/stop_payment.py
pub data StopPaymentStatus : Type 0 where
  active expired cancelled : StopPaymentStatus

pub record StopPayment : Type 0 where
  pub id : Uuid
  pub tenant_id : Uuid
  pub account_id : Uuid
  pub customer_id : Option Uuid
  pub check_number : String
  pub amount : Option ℤ
  pub effective_date : ℕ
  pub expiration_date : Option ℕ
  pub reason : Option String
  pub status : StopPaymentStatus
  pub created_by_user_id : Option Uuid

-- domain/check_image.py
pub data OcrStatus : Type 0 where
  pending completed failed : OcrStatus

pub record CheckImage : Type 0 where
  pub id : Uuid
  pub tenant_id : Uuid
  pub paid_item_id : Option Uuid
  pub ocr_status : OcrStatus
  pub ocr_extracted_payee : Option Text
  pub ocr_confidence : Option ℕ

-- domain/ach_authorization_rule.py
pub data AchAuthorizationStatus : Type 0 where
  active revoked : AchAuthorizationStatus

pub record AchAuthorizationRule : Type 0 where
  pub id : Uuid
  pub tenant_id : Uuid
  pub account_id : Uuid
  pub customer_id : Option Uuid
  pub originator_id : String
  pub originator_name : String
  pub receiver_id : Option String
  pub status : AchAuthorizationStatus
  pub max_amount : Option ℤ
  pub frequency_limit : Option ℤ
  pub allowed_sec_codes : Option (List String)
  pub effective_date : ℕ
  pub expiration_date : Option ℕ
  pub created_by_user_id : Option Uuid

-- domain/ach_transaction.py
pub data AchTransactionType : Type 0 where
  debit credit : AchTransactionType

pub data AchSettlementStatus : Type 0 where
  pending paid returned : AchSettlementStatus

pub record AchTransaction : Type 0 where
  pub id : Uuid
  pub tenant_id : Uuid
  pub account_id : Uuid
  pub customer_id : Option Uuid
  pub originator_id : String
  pub originator_name : String
  pub receiver_id : Option String
  pub amount : ℤ
  pub transaction_type : AchTransactionType
  pub sec_code : String
  pub trace_number : String
  pub effective_date : ℕ
  pub match_status : MatchStatus
  pub settlement_status : AchSettlementStatus
  pub source : ItemSource

-- domain/ach_return_reason.py
pub record AchReturnReason : Type 0 where
  pub id : Uuid
  pub tenant_id : Uuid
  pub reason_text : String
  pub transaction_code : Option String
  pub is_active : Bool

-- domain/exception_item.py
pub data ExceptionStatus : Type 0 where
  open_ pending_approval pay return escalated withdrawn : ExceptionStatus

-- domain/decision.py
pub data DecisionOutcome : Type 0 where
  pay return : DecisionOutcome

pub data DecisionSource : Type 0 where
  human auto_default auto_ml : DecisionSource

pub record ExceptionItem : Type 0 where
  pub id : Uuid
  pub tenant_id : Uuid
  pub network_code : String
  pub customer_id : Option Uuid
  pub source_item_id : Uuid
  pub related_reference_id : Option Uuid
  pub exception_types : List String
  pub status : ExceptionStatus
  pub ml_score : Option ℕ
  pub ml_model_version : Option String
  pub recommended_outcome : Option DecisionOutcome
  pub recommended_reason_code : Option String
  pub recommended_return_transaction_code : Option String
  pub recommended_notes : Option String
  pub recommended_ach_return_reason_id : Option Uuid
  pub recommended_by_user_id : Option Uuid
  pub decision_deadline : Option ℕ

-- `Decision.reason_code`: a text that was given, or one of the two that auto-disposition formats,
-- from the hours of the window and from the score.
pub data ReasonText : Type 0 where
  given : String → ReasonText
  no_response_within : ℕ → ReasonText
  decided_by_score : ℕ → ReasonText

pub record Decision (F : Type 0) : Type 0 where
  pub id : Uuid
  pub tenant_id : Uuid
  pub exception_item_id : Uuid
  pub outcome : DecisionOutcome
  pub reason_code : ReasonText
  pub return_transaction_code : Option String
  pub notes : Option String
  pub submitted_by_user_id : Option Uuid
  pub decided_by_user_id : Option Uuid
  pub source : DecisionSource
  pub features_json : F
