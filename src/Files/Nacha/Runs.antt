-- ===== src/Files/Nacha/Runs.antt =====
-- bulk_import/nacha.py: what one record changes, and what a run of records has counted.
use pos_pay.Base.{
  ℕ, suc, ℤ, Text, Option, none, some, List, [], ◌∷◌, ◌++◌, append_assoc, append_nil, All, ◌≡◌, ◌≢◌,
  refl, ap, sym, subst, ◌∙◌,
}
use pos_pay.Files.Nacha.{
  NachaEntry, State, BatchHeader, Kind, blank, header, entry, batch_control, file_control, other,
  kind, padded, batch_header, on_batch_header, on_entry_detail, on_batch_control, on_file_control,
  entry_detail, read_record, step, read_lines,
}
use pos_pay.Files.Nacha.Fields.{NachaError, done, ◌>>=◌, bind-done, required, entry_before_batch}
use pos_pay.Files.Nacha.Controls.{add_entry, validate_batch_control, validate_file_control}
use pos_pay.Files.Nacha.Tally.{
  Counted, add_entry-Counted, receiving_id, plus_id, ids_from, plus_line, kept, entry_lines_from,
}

-- What an entry detail that is accepted adds.
pub record Added (line : Text) (n : ℕ) (st st' : State) : Type 0 where
  pub in_batch : BatchHeader
  pub opened : st.current_batch ≡ some in_batch
  pub new : NachaEntry
  pub detail : entry_detail line n in_batch ≡ done new
  pub entries : st'.entries ≡ st.entries ++ new ∷ []
  pub current : st'.current_batch ≡ st.current_batch
  pub to_batch :
      add_entry (receiving_id line) new.transaction_code new.amount st.batch_totals
      ≡ done st'.batch_totals
  pub to_file :
      add_entry (receiving_id line) new.transaction_code new.amount st.file_totals
      ≡ done st'.file_totals

required-done :
    {A : Type 0} (o : Option A) (e : NachaError) {a : A} → required o e ≡ done a → o ≡ some a
required-done none e h = cc
required-done (some b) e h = cc

pub on_entry_detail-Added :
    (line : Text) (n : ℕ) (st st' : State)
    → on_entry_detail line n st ≡ done st'
    → Added line n st st'
unfolding on_entry_detail
on_entry_detail-Added line n st st' h =
    let (in_batch, (opened, h1)) =
      bind-done (required st.current_batch (entry_before_batch n)) _ h in
    let (new, (detail, h2)) = bind-done (entry_detail line n in_batch) _ h1 in
    let (b, (to_batch, h3)) =
      bind-done (add_entry (receiving_id line) new.transaction_code new.amount st.batch_totals) _
        h2 in
    let (f, (to_file, h4)) =
      bind-done (add_entry (receiving_id line) new.transaction_code new.amount st.file_totals) _
        h3 in
    record {
      in_batch = in_batch;
      opened = required-done st.current_batch _ opened;
      new = new;
      detail = detail;
      entries = cc;
      current = cc;
      to_batch = cc;
      to_file = cc;
    }

abbrev FileCounted : State → ℤ → ℕ → Type 0
FileCounted st sum m = Counted [] st.entries st.file_totals sum m

abbrev BatchCounted : List NachaEntry → State → ℤ → ℕ → Type 0
BatchCounted base st sum m = Counted base st.entries st.batch_totals sum m

-- One record, and the totals of the file.
read_record-file :
    (k : Kind) (line : Text) (n : ℕ) (st st' : State) (sum : ℤ) (m : ℕ)
    → read_record k line n st ≡ done st'
    → FileCounted st sum m
    → FileCounted st' (plus_id k line sum) (plus_line k m)
unfolding on_batch_header on_batch_control on_file_control
read_record-file entry line n st st' sum m h c =
    let a = on_entry_detail-Added line n st st' h in
    subst (λ es. Counted [] es st'.file_totals (plus_id entry line sum) (suc m)) (sym a.entries)
      (add_entry-Counted [] st.entries line a.new st.file_totals st'.file_totals sum m a.to_file c)
read_record-file header line n st st' sum m h c =
    let (made, (_, e)) = bind-done (batch_header line n) _ h in kept sum m (cc) (cc) c
read_record-file batch_control line n st st' sum m h c =
    let (_, (_, e)) = bind-done (validate_batch_control line st.batch_totals n) _ h in
    kept sum m (cc) (cc) c
read_record-file file_control line n st st' sum m h c =
    let (_, (_, e)) = bind-done (validate_file_control line st.file_totals n) _ h in
    kept sum m (cc) (cc) c
read_record-file blank line n st st' sum m h c = kept sum m (cc) (cc) c
read_record-file other line n st st' sum m h c = kept sum m (cc) (cc) c

-- One record that opens no batch, and the totals of the batch.
read_record-batch :
    (base : List NachaEntry) (k : Kind) (line : Text) (n : ℕ) (st st' : State) (sum : ℤ) (m : ℕ)
    → k ≢ header
    → read_record k line n st ≡ done st'
    → BatchCounted base st sum m
    → BatchCounted base st' (plus_id k line sum) (plus_line k m)
unfolding on_batch_header on_batch_control on_file_control
read_record-batch base entry line n st st' sum m inside h c =
    let a = on_entry_detail-Added line n st st' h in
    subst (λ es. Counted base es st'.batch_totals (plus_id entry line sum) (suc m)) (sym a.entries)
      (add_entry-Counted base st.entries line a.new st.batch_totals st'.batch_totals sum m
        a.to_batch c)
read_record-batch base header line n st st' sum m inside h c = absurd (inside refl)
read_record-batch base batch_control line n st st' sum m inside h c =
    let (_, (_, e)) = bind-done (validate_batch_control line st.batch_totals n) _ h in
    kept sum m (cc) (cc) c
read_record-batch base file_control line n st st' sum m inside h c =
    let (_, (_, e)) = bind-done (validate_file_control line st.file_totals n) _ h in
    kept sum m (cc) (cc) c
read_record-batch base blank line n st st' sum m inside h c = kept sum m (cc) (cc) c
read_record-batch base other line n st st' sum m inside h c = kept sum m (cc) (cc) c

-- The same of a run.
pub read_lines-file :
    (raws : List Text) (n : ℕ) (st st' : State) (sum : ℤ) (m : ℕ)
    → read_lines raws n st ≡ done st'
    → FileCounted st sum m
    → FileCounted st' (ids_from sum raws) (entry_lines_from m raws)
unfolding read_lines step
read_lines-file [] n st st' sum m h c = kept sum m (cc) (cc) c
read_lines-file (raw ∷ rest) n st st' sum m h c =
    let (next, (first, h1)) = bind-done (step raw n st) _ h in
    read_lines-file rest (suc n) next st' _ _ h1
      (read_record-file (kind raw) (padded raw) n st next sum m first c)

pub read_lines-batch :
    (base : List NachaEntry) (raws : List Text) (n : ℕ) (st st' : State) (sum : ℤ) (m : ℕ)
    → All (λ raw. kind raw ≢ header) raws
    → read_lines raws n st ≡ done st'
    → BatchCounted base st sum m
    → BatchCounted base st' (ids_from sum raws) (entry_lines_from m raws)
unfolding read_lines step
read_lines-batch base [] n st st' sum m inside h c = kept sum m (cc) (cc) c
read_lines-batch base (raw ∷ rest) n st st' sum m inside h c =
    let (next, (first, h1)) = bind-done (step raw n st) _ h in
    read_lines-batch base rest (suc n) next st' _ _ inside.1 h1
      (read_record-batch base (kind raw) (padded raw) n st next sum m inside.0 first c)

-- The number of the line after these.
abbrev pub number_after : List Text → ℕ → ℕ
number_after [] n = n
number_after (raw ∷ rest) n = number_after rest (suc n)

-- A run in two parts.
pub read_lines-append :
    (before after : List Text) (n : ℕ) (st last : State)
    → read_lines (before ++ after) n st ≡ done last
    → (mid : State) × ((read_lines before n st ≡ done mid)
        × (read_lines after (number_after before n) mid ≡ done last))
unfolding read_lines
read_lines-append [] after n st last h = (st, (refl, h))
read_lines-append (raw ∷ before) after n st last h =
    let (next, (first, h1)) = bind-done (step raw n st) _ h in
    let (mid, (done_before, done_after)) = read_lines-append before after (suc n) next last h1 in
    (mid, (ap (λ r. r >>= read_lines before (suc n)) first ∙ done_before, done_after))

-- Entries are only added.
read_record-grows :
    (k : Kind) (line : Text) (n : ℕ) (st st' : State)
    → read_record k line n st ≡ done st'
    → (added : List NachaEntry) × (st'.entries ≡ st.entries ++ added)
unfolding on_batch_header on_batch_control on_file_control
read_record-grows entry line n st st' h =
    let a = on_entry_detail-Added line n st st' h in (a.new ∷ [], a.entries)
read_record-grows header line n st st' h =
    let (made, (_, e)) = bind-done (batch_header line n) _ h in ([], cc (append_nil st.entries))
read_record-grows batch_control line n st st' h =
    let (_, (_, e)) = bind-done (validate_batch_control line st.batch_totals n) _ h in
    ([], cc (append_nil st.entries))
read_record-grows file_control line n st st' h =
    let (_, (_, e)) = bind-done (validate_file_control line st.file_totals n) _ h in
    ([], cc (append_nil st.entries))
read_record-grows blank line n st st' h = ([], cc (append_nil st.entries))
read_record-grows other line n st st' h = ([], cc (append_nil st.entries))

pub read_lines-grows :
    (raws : List Text) (n : ℕ) (st st' : State)
    → read_lines raws n st ≡ done st'
    → (added : List NachaEntry) × (st'.entries ≡ st.entries ++ added)
unfolding read_lines step
read_lines-grows [] n st st' h = ([], cc (append_nil st.entries))
read_lines-grows (raw ∷ rest) n st st' h =
    let (next, (first, h1)) = bind-done (step raw n st) _ h in
    let (added, e) = read_record-grows (kind raw) (padded raw) n st next first in
    let (more, e') = read_lines-grows rest (suc n) next st' h1 in
    (added ++ more, e' ∙ ap (λ l. l ++ more) e ∙ append_assoc st.entries added more)
