-- ===== src/Files/Nacha/Batches.antt =====
-- bulk_import/nacha.py: an entry belongs to the batch header above it.
use pos_pay.Base.{
  ℕ, suc, Text, some, List, [], ◌∷◌, ◌++◌, take, drop, All, All-append, append_assoc, append_nil,
  splitlines, decode_ascii, ◌≡◌, ◌≢◌, refl, ap, sym, subst, ◌∙◌,
}
use pos_pay.Files.Nacha.{
  NachaEntry, State, initial, BatchHeader, Kind, blank, header, entry, batch_control, file_control,
  other, kind, padded, batch_header, entry_detail, on_batch_header, on_batch_control,
  on_file_control, read_record, read_lines, parse_nacha_file,
}
use pos_pay.Files.Nacha.Fields.{done, bind-done}
use pos_pay.Files.Nacha.Controls.{validate_batch_control, validate_file_control}
use pos_pay.Files.Nacha.Tally.{entry_lines}
use pos_pay.Files.Nacha.Runs.{
  number_after, on_entry_detail-Added, read_lines-file, read_lines-append, read_lines-grows,
}
use pos_pay.Files.Nacha.Declares.{drop-front, finish-entries, none_yet, step-kind}

-- A line that neither opens nor closes a batch.
abbrev IsInside : Text → Type 0
IsInside raw = (kind raw ≢ header) × (kind raw ≢ batch_control)

-- The last line of these that opens a batch has this header, and no line closes that batch.
pub record OpenedBy (seen : List Text) (h : BatchHeader) : Type 0 where
  pub outer : List Text
  pub opening : Text
  pub inside : List Text
  pub lines : seen ≡ outer ++ opening ∷ inside
  pub opens : kind opening ≡ header
  pub made : batch_header (padded opening) (number_after outer 1) ≡ done h
  pub stays : All IsInside inside

abbrev Known : List Text → State → Type 0
Known seen st = (h : BatchHeader) → st.current_batch ≡ some h → OpenedBy seen h

number_after-append :
    (seen : List Text) (raw : Text) (n : ℕ)
    → number_after (seen ++ raw ∷ []) n ≡ suc (number_after seen n)
number_after-append [] raw n = refl
number_after-append (x ∷ seen) raw n = number_after-append seen raw (suc n)

longer :
    (seen : List Text) (raw : Text) (h : BatchHeader)
    → IsInside raw
    → OpenedBy seen h
    → OpenedBy (seen ++ raw ∷ []) h
longer seen raw h within o = record {
  outer = o.outer;
  opening = o.opening;
  inside = o.inside ++ raw ∷ [];
  lines = ap (λ l. l ++ raw ∷ []) o.lines ∙ append_assoc o.outer (o.opening ∷ o.inside) (raw ∷ []);
  opens = o.opens;
  made = o.made;
  stays = All-append IsInside o.inside (raw ∷ []) o.stays (within, tt);
}

read_record-Known :
    (k : Kind) (seen : List Text) (raw : Text) (st st' : State)
    → kind raw ≡ k
    → read_record k (padded raw) (number_after seen 1) st ≡ done st'
    → Known seen st
    → Known (seen ++ raw ∷ []) st'
unfolding on_batch_header on_batch_control on_file_control
read_record-Known header seen raw st st' is_k h known x e =
    let (made, (reads, same)) = bind-done (batch_header (padded raw) (number_after seen 1)) _ h in
    record {
      outer = seen;
      opening = raw;
      inside = [];
      lines = refl;
      opens = is_k;
      made = cc;
      stays = tt;
    }
read_record-Known entry seen raw st st' is_k h known x e =
    let a = on_entry_detail-Added (padded raw) (number_after seen 1) st st' h in
    longer seen raw x (λ b. cc, λ b. cc) (known x (sym a.current ∙ e))
read_record-Known batch_control seen raw st st' is_k h known x e =
    let (_, (_, same)) =
      bind-done (validate_batch_control (padded raw) st.batch_totals (number_after seen 1)) _ h in
    absurd (cc)
read_record-Known file_control seen raw st st' is_k h known x e =
    let (_, (_, same)) =
      bind-done (validate_file_control (padded raw) st.file_totals (number_after seen 1)) _ h in
    longer seen raw x (λ b. cc, λ b. cc) (known x (cc))
read_record-Known blank seen raw st st' is_k h known x e =
    longer seen raw x (λ b. cc, λ b. cc) (known x (cc))
read_record-Known other seen raw st st' is_k h known x e =
    longer seen raw x (λ b. cc, λ b. cc) (known x (cc))

read_lines-Known :
    (raws seen : List Text) (st st' : State)
    → read_lines raws (number_after seen 1) st ≡ done st'
    → Known seen st
    → Known (seen ++ raws) st'
unfolding read_lines
read_lines-Known [] seen st st' h known x e =
    subst (λ l. OpenedBy l x) (sym (append_nil seen)) (known x (cc))
read_lines-Known (raw ∷ rest) seen st st' h known x e =
    let (next, (first, h1)) = step-kind (kind raw) raw rest (number_after seen 1) st st' refl h in
    subst (λ l. OpenedBy l x) (append_assoc seen (raw ∷ []) rest)
      (read_lines-Known rest (seen ++ raw ∷ []) next st'
        (subst (λ n. read_lines rest n next ≡ done st') (sym (number_after-append seen raw 1)) h1)
        (read_record-Known (kind raw) seen raw st next refl first known) x e)

-- An entry detail line of a file that is accepted, and the entry made of it.
pub record EntryOf (before : List Text) (raw : Text) (entries : List NachaEntry) : Type 0 where
  pub in_batch : BatchHeader
  pub opened : OpenedBy before in_batch
  pub new : NachaEntry
  pub detail : entry_detail (padded raw) (number_after before 1) in_batch ≡ done new
  pub placed : take 1 (drop (entry_lines before) entries) ≡ new ∷ []

entry-EntryOf :
    (before after : List Text) (raw : Text) (last : State)
    → kind raw ≡ entry
    → read_lines (before ++ raw ∷ after) 1 initial ≡ done last
    → EntryOf before raw last.entries
entry-EntryOf before after raw last is_entry h =
    let n = number_after before 1 in
    let (st, (first, rest)) = read_lines-append before (raw ∷ after) 1 initial last h in
    let (next, (at_entry, following)) = step-kind entry raw after n st last is_entry rest in
    let a = on_entry_detail-Added (padded raw) n st next at_entry in
    let c = read_lines-file before 1 initial st _ _ first none_yet in
    let (added, more) = read_lines-grows after (suc n) next last following in
    record {
      in_batch = a.in_batch;
      opened = read_lines-Known before [] initial st first (λ x e. absurd (cc)) a.in_batch a.opened;
      new = a.new;
      detail = a.detail;
      placed =
          ap (λ l. take 1 (drop (entry_lines before) l))
            (more
              ∙ ap (λ l. l ++ added) (a.entries ∙ ap (λ l. l ++ a.new ∷ []) c.entries)
              ∙ append_assoc c.own (a.new ∷ []) added)
          ∙ ap (take 1) (drop-front (entry_lines before) c.own (a.new ∷ added) c.number);
    }

-- An entry belongs to the batch above it: where an ACH file is read, each entry detail line in it
-- has a batch header above it with no batch header and no batch control between them, that header
-- can be read, and the entry at the line's place in the result is the one that the line's fields
-- and that header make.
pub entry_in_batch :
    (content : List ℕ) (before after : List Text) (raw : Text) (entries : List NachaEntry)
    → splitlines (decode_ascii content) ≡ before ++ raw ∷ after
    → kind raw ≡ entry
    → parse_nacha_file content ≡ done entries
    → EntryOf before raw entries
unfolding parse_nacha_file
entry_in_batch content before after raw entries lines is_entry h =
    let (last, (run, end)) =
      bind-done (read_lines (splitlines (decode_ascii content)) 1 initial) _ h in
    subst (λ es. EntryOf before raw es) (finish-entries last.entries entries end)
      (entry-EntryOf before after raw last is_entry
        (subst (λ l. read_lines l 1 initial ≡ done last) lines run))
