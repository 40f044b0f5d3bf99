-- ===== src/Ach/Adapter.antt =====
-- networks/ach/adapter.py: the facts that the rules judge, gathered from the tables.
use pos_pay.Base.{
  ℕ, ◌-◌, Bool, true, false, not, ◌&&◌, Option, none, some, List, [], map, ◌==◌, leb, ltb,
  if◌then◌else◌, select, find, length, str_eq,
}
use pos_pay.Store.Rows.{
  Account, AchDebitBlockMode, AchAuthorizationRule, AchAuthorizationStatus, AchTransaction,
  AchTransactionType, AchSettlementStatus,
}
use pos_pay.Store.Db.{Db}
use pos_pay.Store.Exec.{Result, ok, err, and_then, required, no_row, date_underflow}
use pos_pay.Store.Match.{MatchResult, is_empty}
use pos_pay.Ach.Rules.{AuthorizationSnapshot, AchMatchInputs, value, evaluate_ach_rules}

abbrev pub frequency_window_days : ℕ
frequency_window_days = 30

abbrev pub is_debit_type : AchTransactionType → Bool
is_debit_type AchTransactionType.debit = true
is_debit_type AchTransactionType.credit = false

abbrev pub is_active : AchAuthorizationStatus → Bool
is_active AchAuthorizationStatus.active = true
is_active AchAuthorizationStatus.revoked = false

abbrev pub is_settled : AchSettlementStatus → Bool
is_settled AchSettlementStatus.paid = true
is_settled _ = false

abbrev pub is_block_all : AchDebitBlockMode → Bool
is_block_all AchDebitBlockMode.block_all = true
is_block_all AchDebitBlockMode.filter_by_authorization = false

abbrev pub snapshot : AchAuthorizationRule → AuthorizationSnapshot
snapshot auth = record {
  id = auth.id;
  receiver_id = auth.receiver_id;
  max_amount = auth.max_amount;
  frequency_limit = auth.frequency_limit;
  allowed_sec_codes = auth.allowed_sec_codes;
}

abbrev pub not_expired : Option ℕ → ℕ → Bool
not_expired none date = true
not_expired (some expiration) date = leb date expiration

abbrev pub is_rule_for : AchTransaction → AchAuthorizationRule → Bool
is_rule_for t r =
    r.tenant_id == t.tenant_id
    && (r.account_id == t.account_id
        && (str_eq r.originator_id t.originator_id
            && (is_active r.status && leb r.effective_date t.effective_date)))

unfoldable pub find_candidate_authorizations : AchTransaction → Db → List AchAuthorizationRule
find_candidate_authorizations t db =
    select (λ r. not_expired r.expiration_date t.effective_date)
      (select (is_rule_for t) db.authorizations)

-- The WHERE clause of `_count_prior_settled_debits`; the window starts 30 days before.
abbrev pub is_prior_debit : AchTransaction → AchTransaction → Bool
is_prior_debit t q =
    q.tenant_id == t.tenant_id
    && (q.account_id == t.account_id
        && (str_eq q.originator_id t.originator_id
            && (is_debit_type q.transaction_type
                && (is_settled q.settlement_status
                    && (leb (t.effective_date - frequency_window_days) q.effective_date
                        && (ltb q.effective_date t.effective_date && not (q.id == t.id)))))))

-- `date - timedelta(days=30)` raises where the result would be before the first date, ordinal 1.
unfoldable pub count_prior_settled_debits : AchTransaction → Db → Result ℕ
count_prior_settled_debits t db =
    if leb t.effective_date frequency_window_days
    then err date_underflow
    else ok (length (select (is_prior_debit t) db.transactions))

unfoldable pub match_inputs :
    AchTransaction → Account → List AchAuthorizationRule → ℕ → AchMatchInputs
match_inputs t account candidates debit_count = record {
  is_debit = is_debit_type t.transaction_type;
  debit_block_all = is_block_all account.ach_debit_block_mode;
  amount = t.amount;
  sec_code = t.sec_code;
  receiver_id = t.receiver_id;
  candidate_authorizations = map snapshot candidates;
  debit_count_this_period = debit_count;
}

-- `AchAdapter.evaluate`. A missing account raises where its block mode is read.
unfoldable pub evaluate : AchTransaction → Db → Result MatchResult
evaluate t db =
    let is_debit = is_debit_type t.transaction_type in
    let candidates = if is_debit then find_candidate_authorizations t db else [] in
    and_then (if is_debit then count_prior_settled_debits t db else ok 0) λ debit_count.
      and_then (required (find (λ a. a.id == t.account_id) db.accounts) no_row) λ account.
        let (types, related) = evaluate_ach_rules (match_inputs t account candidates debit_count) in
        ok (record {
          matched = is_empty types;
          exception_types = map value types;
          related_reference_id = related;
        })
