-- ===== src/Ach/Rules.antt =====
-- networks/ach/rules.py and networks/ach/types.py: the pure authorization rules.
pub mod Exact
use pos_pay.Base.{
  ℕ, ℤ, pos, String, Bool, true, false, not, ◌&&◌, Option, none, some, List, [], ◌∷◌, ◌++◌,
  if◌then◌else◌, when, select, any, head?, ltb_ℤ, str_eq, same_text, is_some, is_none,
}
use pos_pay.Store.Rows.{Uuid}

pub data AchExceptionType : Type 0 where
  unauthorized_originator receiver_id_not_permitted amount_exceeds_limit : AchExceptionType
  frequency_exceeded sec_code_not_permitted : AchExceptionType

-- `AchExceptionType.value`
unfoldable pub value : AchExceptionType → String
value unauthorized_originator = "unauthorized_originator"
value receiver_id_not_permitted = "receiver_id_not_permitted"
value amount_exceeds_limit = "amount_exceeds_limit"
value frequency_exceeded = "frequency_exceeded"
value sec_code_not_permitted = "sec_code_not_permitted"

-- A missing `receiver_id` is a wildcard.
pub record AuthorizationSnapshot : Type 0 where
  pub id : Uuid
  pub receiver_id : Option String
  pub max_amount : Option ℤ
  pub frequency_limit : Option ℤ
  pub allowed_sec_codes : Option (List String)

pub record AchMatchInputs : Type 0 where
  pub is_debit : Bool
  pub debit_block_all : Bool
  pub amount : ℤ
  pub sec_code : String
  pub receiver_id : Option String
  pub candidate_authorizations : List AuthorizationSnapshot
  pub debit_count_this_period : ℕ

abbrev pub is_exact : AchMatchInputs → AuthorizationSnapshot → Bool
is_exact inputs auth = is_some auth.receiver_id && same_text auth.receiver_id inputs.receiver_id

abbrev pub is_wildcard : AuthorizationSnapshot → Bool
is_wildcard auth = is_none auth.receiver_id

-- `exact_matches[0] if exact_matches else (wildcard_matches[0] if wildcard_matches else None)`
abbrev pub first_of_either :
    List AuthorizationSnapshot → List AuthorizationSnapshot → Option AuthorizationSnapshot
first_of_either [] wildcards = head? wildcards
first_of_either (auth ∷ exacts) wildcards = some auth

unfoldable pub select_authorization : AchMatchInputs → Option AuthorizationSnapshot
select_authorization inputs =
    first_of_either (select (is_exact inputs) inputs.candidate_authorizations)
      (select is_wildcard inputs.candidate_authorizations)

-- The three limits of an authorization, in the order they are checked.
unfoldable pub exceeds_amount : AchMatchInputs → AuthorizationSnapshot → Bool
exceeds_amount inputs auth = elim auth.max_amount [ none ↦ false | some m ↦ ltb_ℤ m inputs.amount ]

unfoldable pub exceeds_frequency : AchMatchInputs → AuthorizationSnapshot → Bool
exceeds_frequency inputs auth = elim auth.frequency_limit [
  | none ↦ false
  | some limit ↦ not (ltb_ℤ (pos inputs.debit_count_this_period) limit)
]

unfoldable pub bad_sec_code : AchMatchInputs → AuthorizationSnapshot → Bool
bad_sec_code inputs auth = elim auth.allowed_sec_codes [
  | none ↦ false
  | some allowed ↦ not (any (λ code. str_eq code inputs.sec_code) allowed)
]

unfoldable pub limit_exceptions : AchMatchInputs → AuthorizationSnapshot → List AchExceptionType
limit_exceptions inputs auth =
    when (exceeds_amount inputs auth) amount_exceeds_limit
    ++ (when (exceeds_frequency inputs auth) frequency_exceeded
        ++ when (bad_sec_code inputs auth) sec_code_not_permitted)

abbrev judge_authorization :
    AchMatchInputs
    → AuthorizationSnapshot
    → Option AuthorizationSnapshot
    → List AchExceptionType × Option Uuid
judge_authorization inputs first none = (receiver_id_not_permitted ∷ [], some first.id)
judge_authorization inputs first (some auth) = (limit_exceptions inputs auth, some auth.id)

abbrev judge_candidates :
    AchMatchInputs → List AuthorizationSnapshot → List AchExceptionType × Option Uuid
judge_candidates inputs [] = (unauthorized_originator ∷ [], none)
judge_candidates inputs (first ∷ rest) =
    judge_authorization inputs first (select_authorization inputs)

unfoldable pub evaluate_ach_rules : AchMatchInputs → List AchExceptionType × Option Uuid
evaluate_ach_rules inputs =
    if not inputs.is_debit
    then ([], none)
    else if inputs.debit_block_all
    then (unauthorized_originator ∷ [], none)
    else judge_candidates inputs inputs.candidate_authorizations
