-- ===== src/Tests/FileRuns.antt =====
-- An ACH file of one batch with one entry, read.
use pos_pay.Base.{
  ℕ, Text, List, [], ◌∷◌, ◌++◌, codes, pos, some, splitlines, decode_ascii, ◌≡◌, refl,
}
use pos_pay.Base.Chars.{int_of}
use pos_pay.Files.Nacha.{
  NachaEntry, parse_nacha_file, kind, padded, header, entry, batch_control, file_control, step,
  read_lines, batch_header, entry_detail, on_batch_header, on_entry_detail, on_batch_control,
  on_file_control,
}
use pos_pay.Files.Nacha.Fields.{done, parse_declared_int, compare, parse_yymmdd}
use pos_pay.Files.Nacha.Controls.{
  is_credit_code, is_debit_code, receiving_number, add_entry, compare_totals, declared_by_batch,
  validate_batch_control, declared_by_file, validate_file_control,
}
use pos_pay.Files.Nacha.Declares.{TellsTruth}
use pos_pay.Files.Nacha.Exact.{batch_control_exact}
use pos_pay.Files.Nacha.Batches.{EntryOf, entry_in_batch}

abbrev opening : Text
opening =
    codes "5220ACME CORP       "
    ++ codes "                    1234567890CCDPAYMENTS"
    ++ codes "        260115   1091000010000001"

abbrev detail : Text
detail =
    codes "6270910000195551"
    ++ codes "2345         0000042000ID1            NAME"
    ++ codes "                    0091000010000002"

abbrev batch_end : Text
batch_end =
    codes "82200000010009100001"
    ++ codes "0000000420000000000000001234567890"
    ++ codes "                         091000010000001"

abbrev file_end : Text
file_end = codes "9000001000001000000010009100001" ++ codes "000000042000000000000000"

abbrev content : List ℕ
content = opening ++ 10 ∷ detail ++ 10 ∷ batch_end ++ 13 ∷ 10 ∷ file_end

abbrev the_entry : NachaEntry
the_entry = record {
  line_number = 2;
  dfi_account_number = codes "55512345";
  amount = pos 42000;
  individual_id = some (codes "ID1");
  transaction_code = codes "27";
  trace_number = codes "091000010000002";
  company_id = codes "1234567890";
  company_name = codes "ACME CORP";
  sec_code = codes "CCD";
  effective_date = 739631;
}

content_lines : splitlines (decode_ascii content) ≡ opening ∷ detail ∷ batch_end ∷ file_end ∷ []
content_lines = refl

content_entries : parse_nacha_file content ≡ done (the_entry ∷ [])
unfolding parse_nacha_file read_lines step kind padded on_batch_header batch_header parse_yymmdd
    on_entry_detail entry_detail int_of add_entry receiving_number is_debit_code is_credit_code
    on_batch_control validate_batch_control declared_by_batch parse_declared_int compare_totals
    compare on_file_control validate_file_control declared_by_file
content_entries = refl

file_end-kind : kind file_end ≡ file_control
unfolding kind padded
file_end-kind = refl

batch_end-kind : kind batch_end ≡ batch_control
unfolding kind padded
batch_end-kind = refl

opening-kind : kind opening ≡ header
unfolding kind padded
opening-kind = refl

detail-kind : kind detail ≡ entry
unfolding kind padded
detail-kind = refl

batch_control_exact_example :
    TellsTruth (declared_by_batch (padded batch_end) 3) (the_entry ∷ []) (pos 9100001)
unfolding kind padded receiving_number int_of
batch_control_exact_example =
    batch_control_exact content [] (detail ∷ []) (file_end ∷ []) opening batch_end (the_entry ∷ [])
      content_lines opening-kind ((λ e. cc (detail-kind, e)), tt) batch_end-kind content_entries

entry_in_batch_example : EntryOf (opening ∷ []) detail (the_entry ∷ [])
entry_in_batch_example =
    entry_in_batch content (opening ∷ []) (batch_end ∷ file_end ∷ []) detail (the_entry ∷ [])
      content_lines detail-kind content_entries
