-- ===== src/Files/Nacha/Exact.antt =====
-- bulk_import/nacha.py: in a file that is accepted, each control record tells the truth about the
-- entries that it is for.
use pos_pay.Base.{
  ℕ, suc, Text, List, ◌∷◌, ◌++◌, take, drop, All, append_assoc, splitlines, decode_ascii, ◌≡◌, ◌≢◌,
  ap, sym, subst, ◌∙◌,
}
use pos_pay.Files.Nacha.{
  NachaEntry, State, initial, header, file_control, batch_control, kind, padded, read_lines,
  parse_nacha_file,
}
use pos_pay.Files.Nacha.Fields.{done, bind-done, file, batch}
use pos_pay.Files.Nacha.Controls.{declared_by_file, declared_by_batch}
use pos_pay.Files.Nacha.Tally.{entry_lines, ids}
use pos_pay.Files.Nacha.Runs.{
  number_after, read_lines-file, read_lines-batch, read_lines-append, read_lines-grows,
}
use pos_pay.Files.Nacha.Declares.{
  TellsTruth, IsTrueOf, compare_totals-IsTrueOf, take-front, drop-front, finish-entries, none_yet,
  Counted-start, at_file_control, at_batch_control, at_header, step-kind,
}

-- A file control that is accepted, in a run.
file_control-IsTrueOf :
    (before after : List Text) (control : Text) (last : State)
    → kind control ≡ file_control
    → read_lines (before ++ control ∷ after) 1 initial ≡ done last
    → TellsTruth
        (declared_by_file (padded control) (number_after before 1))
        (take (entry_lines before) last.entries)
        (ids before)
file_control-IsTrueOf before after control last is_control h =
    let n = number_after before 1 in
    let (mid, (first, rest)) = read_lines-append before (control ∷ after) 1 initial last h in
    let (next, (at_control, following)) =
      step-kind file_control control after n mid last is_control rest in
    let (compared, same) = at_file_control (padded control) n mid next at_control in
    let c = read_lines-file before 1 initial mid _ _ first none_yet in
    let (added, more) = read_lines-grows after (suc n) next last following in
    let own =
      ap (take (entry_lines before)) (more ∙ ap (λ l. l ++ added) (same ∙ c.entries))
      ∙ take-front (entry_lines before) c.own added c.number in
    (
      compared.d,
      (
        compared.declares,
        subst (λ es. IsTrueOf compared.d es (ids before)) (sym own)
            (compare_totals-IsTrueOf compared.d mid.file_totals n file _ _ _ _ c compared.agrees),
      ),
    )

-- A file control record is true of the file: where an ACH file is read, each file control record
-- in it declares the number of the entries read before it, the sum of their receiving
-- institutions' numbers modulo 10 ** 10, and the sums of the amounts with a debit code and with a
-- credit code.
pub file_control_exact :
    (content : List ℕ) (before after : List Text) (control : Text) (entries : List NachaEntry)
    → splitlines (decode_ascii content) ≡ before ++ control ∷ after
    → kind control ≡ file_control
    → parse_nacha_file content ≡ done entries
    → TellsTruth
        (declared_by_file (padded control) (number_after before 1))
        (take (entry_lines before) entries)
        (ids before)
unfolding parse_nacha_file
file_control_exact content before after control entries lines is_control h =
    let (last, (run, end)) =
      bind-done (read_lines (splitlines (decode_ascii content)) 1 initial) _ h in
    subst
      (λ es.
        TellsTruth (declared_by_file (padded control) (number_after before 1))
          (take (entry_lines before) es) (ids before))
      (finish-entries last.entries entries end)
      (file_control-IsTrueOf before after control last is_control
        (subst (λ l. read_lines l 1 initial ≡ done last) lines run))

-- A batch control that is accepted, in a run.
batch_control-IsTrueOf :
    (before inside after : List Text) (opening control : Text) (last : State)
    → kind opening ≡ header
    → All (λ raw. kind raw ≢ header) inside
    → kind control ≡ batch_control
    → read_lines (before ++ opening ∷ (inside ++ control ∷ after)) 1 initial ≡ done last
    → TellsTruth
        (declared_by_batch (padded control) (number_after inside (suc (number_after before 1))))
        (take (entry_lines inside) (drop (entry_lines before) last.entries))
        (ids inside)
batch_control-IsTrueOf before inside after opening control last opens none_inside is_control h =
    let n = suc (number_after before 1) in
    let m = number_after inside n in
    let (st, (first, rest)) =
      read_lines-append before (opening ∷ (inside ++ control ∷ after)) 1 initial last h in
    let (st1, (at_opening, rest1)) =
      step-kind header opening (inside ++ control ∷ after) (number_after before 1) st last opens
        rest in
    let (same1, reset) = at_header (padded opening) (number_after before 1) st st1 at_opening in
    let (st2, (run, rest2)) = read_lines-append inside (control ∷ after) n st1 last rest1 in
    let (st3, (at_control, following)) =
      step-kind batch_control control after m st2 last is_control rest2 in
    let (compared, same3) = at_batch_control (padded control) m st2 st3 at_control in
    let c = read_lines-file before 1 initial st _ _ first none_yet in
    let b =
      read_lines-batch c.own inside n st1 st2 _ _ none_inside run
        (Counted-start (same1 ∙ c.entries) reset) in
    let (added, more) = read_lines-grows after (suc m) st3 last following in
    let own =
      ap (λ l. take (entry_lines inside) (drop (entry_lines before) l))
        (more ∙ ap (λ l. l ++ added) (same3 ∙ b.entries) ∙ append_assoc c.own b.own added)
      ∙ ap (take (entry_lines inside))
          (drop-front (entry_lines before) c.own (b.own ++ added) c.number)
      ∙ take-front (entry_lines inside) b.own added b.number in
    (
      compared.d,
      (
        compared.declares,
        subst (λ es. IsTrueOf compared.d es (ids inside)) (sym own)
            (compare_totals-IsTrueOf compared.d st2.batch_totals m batch _ _ _ _ b compared.agrees),
      ),
    )

-- A batch control record is true of its batch: where an ACH file is read, and the lines between a
-- batch header and a batch control record open no other batch, that record declares the number of
-- the entries on these lines, the sum of their receiving institutions' numbers modulo 10 ** 10,
-- and the sums of their amounts with a debit code and with a credit code.
pub batch_control_exact :
    (content : List ℕ) (before inside after : List Text) (opening control : Text)
    (entries : List NachaEntry)
    → splitlines (decode_ascii content) ≡ before ++ opening ∷ (inside ++ control ∷ after)
    → kind opening ≡ header
    → All (λ raw. kind raw ≢ header) inside
    → kind control ≡ batch_control
    → parse_nacha_file content ≡ done entries
    → TellsTruth
        (declared_by_batch (padded control) (number_after inside (suc (number_after before 1))))
        (take (entry_lines inside) (drop (entry_lines before) entries))
        (ids inside)
unfolding parse_nacha_file
batch_control_exact content before inside after opening control entries lines opens none_inside
      is_control h =
    let (last, (run, end)) =
      bind-done (read_lines (splitlines (decode_ascii content)) 1 initial) _ h in
    subst
      (λ es.
        TellsTruth
          (declared_by_batch (padded control) (number_after inside (suc (number_after before 1))))
          (take (entry_lines inside) (drop (entry_lines before) es)) (ids inside))
      (finish-entries last.entries entries end)
      (batch_control-IsTrueOf before inside after opening control last opens none_inside is_control
        (subst (λ l. read_lines l 1 initial ≡ done last) lines run))
