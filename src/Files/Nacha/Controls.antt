-- ===== src/Files/Nacha/Controls.antt =====
-- bulk_import/nacha.py: the running totals, and the control records that they are compared with.
use pos_pay.Base.{
  ℕ, suc, ◌^◌, ℤ, pos, Text, Bool, Option, some, List, [], ◌∷◌, if◌then◌else◌, ◌+ℤ◌, mod_ℤ, any,
  codes, text_eq, slice, int_of,
}
use pos_pay.Files.Nacha.Fields.{
  Parsed, done, refused, ◌>>=◌, ◌>>◌, required, value_error, unsupported_code, is_empty, Scope,
  batch, file, entry_count, entry_hash, total_debit, total_credit, parse_declared_int, compare,
}

-- `_CREDIT_CODES` and `_DEBIT_CODES`
abbrev credit_codes : List Text
credit_codes = codes "22" ∷ codes "23" ∷ codes "24" ∷ codes "32" ∷ codes "33" ∷ codes "34" ∷ []

abbrev debit_codes : List Text
debit_codes = codes "27" ∷ codes "28" ∷ codes "29" ∷ codes "37" ∷ codes "38" ∷ codes "39" ∷ []

unfoldable pub is_credit_code : Text → Bool
is_credit_code code = any (text_eq code) credit_codes

unfoldable pub is_debit_code : Text → Bool
is_debit_code code = any (text_eq code) debit_codes

pub data EntryType : Type 0 where
  credit debit : EntryType

unfoldable pub transaction_type_for_code : Text → Parsed EntryType
transaction_type_for_code code =
    if is_credit_code code
    then done credit
    else if is_debit_code code
    then done debit
    else refused (unsupported_code code)

-- 10 ** 10
abbrev pub entry_hash_modulus : ℕ
entry_hash_modulus = 10 ^ 10

pub record RunningTotals : Type 0 where
  pub entry_count : ℕ
  pub entry_hash_sum : ℤ
  pub total_debit_cents : ℤ
  pub total_credit_cents : ℤ

abbrev pub no_totals : RunningTotals
no_totals = record {
  entry_count = 0;
  entry_hash_sum = pos 0;
  total_debit_cents = pos 0;
  total_credit_cents = pos 0;
}

abbrev pub plus_debit : Text → ℤ → ℤ → ℤ
plus_debit code amount total = if is_debit_code code then total +ℤ amount else total

abbrev pub plus_credit : Text → ℤ → ℤ → ℤ
plus_credit code amount total =
    if is_debit_code code then total else if is_credit_code code then total +ℤ amount else total

-- `int(receiving_dfi_id or "0")`
unfoldable pub receiving_number : Text → Option ℤ
receiving_number id = if is_empty id then some (pos 0) else int_of id

unfoldable pub add_entry : Text → Text → ℤ → RunningTotals → Parsed RunningTotals
add_entry receiving_dfi_id transaction_code amount_cents t = do
  number ← required (receiving_number receiving_dfi_id) value_error
  done (record {
    entry_count = suc t.entry_count;
    entry_hash_sum = t.entry_hash_sum +ℤ number;
    total_debit_cents = plus_debit transaction_code amount_cents t.total_debit_cents;
    total_credit_cents = plus_credit transaction_code amount_cents t.total_credit_cents;
  })

-- What a control record declares, in the order of its fields.
pub record Declared : Type 0 where
  pub count : ℤ
  pub hash : ℤ
  pub debit : ℤ
  pub credit : ℤ

unfoldable pub compare_totals : Declared → RunningTotals → ℕ → Scope → Parsed (Unit {0})
compare_totals d t line_number scope = do
  compare entry_count d.count (pos t.entry_count) line_number scope
  compare entry_hash d.hash (pos (mod_ℤ t.entry_hash_sum entry_hash_modulus)) line_number scope
  compare total_debit d.debit t.total_debit_cents line_number scope
  compare total_credit d.credit t.total_credit_cents line_number scope

unfoldable pub declared_by_batch : Text → ℕ → Parsed Declared
declared_by_batch line n = do
  count ← parse_declared_int (slice 4 10 line) entry_count n
  hash ← parse_declared_int (slice 10 20 line) entry_hash n
  debits ← parse_declared_int (slice 20 32 line) total_debit n
  credits ← parse_declared_int (slice 32 44 line) total_credit n
  done (record { count = count; hash = hash; debit = debits; credit = credits })

unfoldable pub validate_batch_control : Text → RunningTotals → ℕ → Parsed (Unit {0})
validate_batch_control line totals line_number = do
  declared ← declared_by_batch line line_number
  compare_totals declared totals line_number batch

unfoldable pub declared_by_file : Text → ℕ → Parsed Declared
declared_by_file line n = do
  count ← parse_declared_int (slice 13 21 line) entry_count n
  hash ← parse_declared_int (slice 21 31 line) entry_hash n
  debits ← parse_declared_int (slice 31 43 line) total_debit n
  credits ← parse_declared_int (slice 43 55 line) total_credit n
  done (record { count = count; hash = hash; debit = debits; credit = credits })

unfoldable pub validate_file_control : Text → RunningTotals → ℕ → Parsed (Unit {0})
validate_file_control line totals line_number = do
  declared ← declared_by_file line line_number
  compare_totals declared totals line_number file
