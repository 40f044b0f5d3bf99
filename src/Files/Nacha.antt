-- ===== src/Files/Nacha.antt =====
-- bulk_import/nacha.py: the ACH file, read line by line. A batch header names the company of the
-- entries after it, and the control records state the counts and totals of what stands before.
pub mod Fields
pub mod Controls
pub mod Tally
pub mod Runs
pub mod Declares
pub mod Exact
pub mod Batches
use pos_pay.Base.{
  ℕ, suc, ℤ, Text, Bool, Option, none, some, List, [], ◌∷◌, ◌++◌, ◌==◌, if◌then◌else◌, strip,
  rstrip_line_ends, slice, ljust, int_of, decode_ascii, splitlines,
}
use Fields.{
  Parsed, done, refused, ◌>>=◌, ◌>>◌, required, refuse_if, is_empty, entry_before_batch,
  no_account_number, invalid_amount, no_entries, parse_yymmdd,
}
use Controls.{RunningTotals, no_totals, add_entry, validate_batch_control, validate_file_control}

pub record BatchHeader : Type 0 where
  pub company_name : Text
  pub company_id : Text
  pub sec_code : Text
  pub effective_date : ℕ

-- The amount is in cents.
pub record NachaEntry : Type 0 where
  pub line_number : ℕ
  pub dfi_account_number : Text
  pub amount : ℤ
  pub individual_id : Option Text
  pub transaction_code : Text
  pub trace_number : Text
  pub company_id : Text
  pub company_name : Text
  pub sec_code : Text
  pub effective_date : ℕ

-- The local variables of `parse_nacha_file`.
pub record State : Type 0 where
  pub entries : List NachaEntry
  pub current_batch : Option BatchHeader
  pub batch_totals : RunningTotals
  pub file_totals : RunningTotals

abbrev pub initial : State
initial = record {
  entries = [];
  current_batch = none;
  batch_totals = no_totals;
  file_totals = no_totals;
}

unfoldable pub batch_header : Text → ℕ → Parsed BatchHeader
batch_header line line_number = do
  effective ← parse_yymmdd (strip (slice 69 75 line)) line_number
  done (record {
    company_name = strip (slice 4 20 line);
    company_id = strip (slice 40 50 line);
    sec_code = strip (slice 50 53 line);
    effective_date = effective;
  })

-- `s or None`
abbrev or_none : Text → Option Text
or_none s = if is_empty s then none else some s

unfoldable pub entry_detail : Text → ℕ → BatchHeader → Parsed NachaEntry
entry_detail line line_number header = do
  refuse_if (is_empty (strip (slice 12 29 line))) (no_account_number line_number)
  let amount_cents = strip (slice 29 39 line)
  amount ← required (int_of amount_cents) (invalid_amount line_number amount_cents)
  done (record {
    line_number = line_number;
    dfi_account_number = strip (slice 12 29 line);
    amount = amount;
    individual_id = or_none (strip (slice 39 54 line));
    transaction_code = slice 1 3 line;
    trace_number = strip (slice 79 94 line);
    company_id = header.company_id;
    company_name = header.company_name;
    sec_code = header.sec_code;
    effective_date = header.effective_date;
  })

-- Records 5, 6, 8 and 9.
unfoldable pub on_batch_header : Text → ℕ → State → Parsed State
on_batch_header line n st = do
  header ← batch_header line n
  done (record st { current_batch = some header; batch_totals = no_totals })

unfoldable pub on_entry_detail : Text → ℕ → State → Parsed State
on_entry_detail line n st = do
  header ← required st.current_batch (entry_before_batch n)
  entry ← entry_detail line n header
  let id = strip (slice 3 11 line)
  batch_totals ← add_entry id entry.transaction_code entry.amount st.batch_totals
  file_totals ← add_entry id entry.transaction_code entry.amount st.file_totals
  done (record {
    entries = st.entries ++ entry ∷ [];
    current_batch = st.current_batch;
    batch_totals = batch_totals;
    file_totals = file_totals;
  })

unfoldable pub on_batch_control : Text → ℕ → State → Parsed State
on_batch_control line n st = do
  validate_batch_control line st.batch_totals n
  done (record st { current_batch = none })

unfoldable pub on_file_control : Text → ℕ → State → Parsed State
on_file_control line n st = do validate_file_control line st.file_totals n; done st

-- `line[0]`
abbrev record_type : Text → ℕ
record_type [] = 0
record_type (c ∷ s) = c

pub data Kind : Type 0 where
  blank header entry batch_control file_control other : Kind

abbrev kind_of_type : ℕ → Kind
kind_of_type t =
    if t == 53
    then header
    else if t == 54
    then entry
    else if t == 56
    then batch_control
    else if t == 57
    then file_control
    else other

-- `raw_line.rstrip("\n\r")`, padded with blanks to 94 characters.
unfoldable pub padded : Text → Text
padded raw = ljust 94 (rstrip_line_ends raw)

unfoldable pub kind : Text → Kind
kind raw =
    if is_empty (strip (rstrip_line_ends raw))
    then blank
    else kind_of_type (record_type (padded raw))

abbrev pub read_record : Kind → Text → ℕ → State → Parsed State
read_record header line n st = on_batch_header line n st
read_record entry line n st = on_entry_detail line n st
read_record batch_control line n st = on_batch_control line n st
read_record file_control line n st = on_file_control line n st
read_record blank line n st = done st
read_record other line n st = done st

unfoldable pub step : Text → ℕ → State → Parsed State
step raw n st = read_record (kind raw) (padded raw) n st

-- The loop over the numbered lines.
unfoldable pub read_lines : List Text → ℕ → State → Parsed State
read_lines [] n st = done st
read_lines (raw ∷ rest) n st = do next ← step raw n st; read_lines rest (suc n) next

abbrev finish : List NachaEntry → Parsed (List NachaEntry)
finish [] = refused no_entries
finish (e ∷ es) = done (e ∷ es)

unfoldable pub parse_nacha_file : List ℕ → Parsed (List NachaEntry)
parse_nacha_file content = do
  final ← read_lines (splitlines (decode_ascii content)) 1 initial
  finish final.entries
