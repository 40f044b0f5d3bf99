-- ===== src/Files/Nacha/Declares.antt =====
-- bulk_import/nacha.py: what it takes for one control record to be accepted.
use pos_pay.Base.{
  ℕ, zero, suc, ℤ, pos, Text, List, [], ◌∷◌, ◌++◌, length, take, drop, append_nil, eqb_ℤ→eq, mod_ℤ,
  ◌≡◌, refl, ap, sym, subst, ◌∙◌, arith,
}
use pos_pay.Files.Nacha.{
  NachaEntry, State, Kind, header, file_control, batch_control, kind, padded, batch_header,
  on_file_control, on_batch_control, on_batch_header, step, read_record, read_lines, finish,
}
use pos_pay.Files.Nacha.Fields.{
  Parsed, done, bind-done, Scope, file, batch, ControlField, entry_count, entry_hash, total_debit,
  compare,
}
use pos_pay.Files.Nacha.Controls.{
  RunningTotals, no_totals, Declared, entry_hash_modulus, compare_totals, declared_by_file,
  declared_by_batch, validate_file_control, validate_batch_control,
}
use pos_pay.Files.Nacha.Tally.{Counted, debits, credits}

-- What a control record declares is true of these entries, whose institutions' numbers have this
-- sum.
pub record IsTrueOf (d : Declared) (es : List NachaEntry) (sum : ℤ) : Type 0 where
  pub count : d.count ≡ pos (length es)
  pub hash : d.hash ≡ pos (mod_ℤ sum entry_hash_modulus)
  pub debit : d.debit ≡ debits es
  pub credit : d.credit ≡ credits es

-- A control record can be read, and what it declares is true.
abbrev pub TellsTruth : Parsed Declared → List NachaEntry → ℤ → Type 0
TellsTruth declared es sum = (d : Declared) × ((declared ≡ done d) × IsTrueOf d es sum)

compare-equal :
    (f : ControlField) (declared actual : ℤ) (n : ℕ) (scope : Scope)
    → compare f declared actual n scope ≡ done tt
    → declared ≡ actual
unfolding compare
compare-equal f declared actual n scope h = eqb_ℤ→eq declared actual (ground arith)

pub compare_totals-IsTrueOf :
    (d : Declared) (t : RunningTotals) (n : ℕ) (scope : Scope) (base es : List NachaEntry) (sum : ℤ)
    (m : ℕ) (c : Counted base es t sum m)
    → compare_totals d t n scope ≡ done tt
    → IsTrueOf d c.own sum
unfolding compare_totals
compare_totals-IsTrueOf d t n scope base es sum m c h =
    let (_, (same_count, h1)) =
      bind-done (compare entry_count d.count (pos t.entry_count) n scope) _ h in
    let (_, (same_hash, h2)) =
      bind-done
        (compare entry_hash d.hash (pos (mod_ℤ t.entry_hash_sum entry_hash_modulus)) n scope) _
        h1 in
    let (_, (same_debit, same_credit)) =
      bind-done (compare total_debit d.debit t.total_debit_cents n scope) _ h2 in
    record {
      count = compare-equal _ _ _ n scope same_count ∙ ap pos (c.count ∙ sym c.number);
      hash =
          compare-equal _ _ _ n scope same_hash ∙ ap (λ s. pos (mod_ℤ s entry_hash_modulus)) c.hash;
      debit = compare-equal _ _ _ n scope same_debit ∙ c.debit;
      credit = compare-equal _ _ _ n scope same_credit ∙ c.credit;
    }

pub take-front : (m : ℕ) (xs ys : List NachaEntry) → length xs ≡ m → take m (xs ++ ys) ≡ xs
take-front zero [] ys h = ground arith
take-front zero (x ∷ xs) ys h = absurd (omega (arith, h))
take-front (suc m) [] ys h = absurd (omega (arith, h))
take-front (suc m) (x ∷ xs) ys h = ap (λ l. x ∷ l) (take-front m xs ys (omega (arith, h)))

pub drop-front : (m : ℕ) (xs ys : List NachaEntry) → length xs ≡ m → drop m (xs ++ ys) ≡ ys
drop-front zero [] ys h = ground arith
drop-front zero (x ∷ xs) ys h = absurd (omega (arith, h))
drop-front (suc m) [] ys h = absurd (omega (arith, h))
drop-front (suc m) (x ∷ xs) ys h = drop-front m xs ys (omega (arith, h))

pub finish-entries : (es entries : List NachaEntry) → finish es ≡ done entries → es ≡ entries
finish-entries [] entries h = cc
finish-entries (e ∷ es) entries h = cc

pub none_yet : Counted [] [] no_totals (pos 0) 0
none_yet = record {
  own = [];
  entries = refl;
  number = refl;
  count = refl;
  hash = refl;
  debit = refl;
  credit = refl;
}

-- A control record that is accepted.
pub record Compared (declared : Parsed Declared) (t : RunningTotals) (n : ℕ) (scope : Scope)
    : Type 0 where
  pub d : Declared
  pub declares : declared ≡ done d
  pub agrees : compare_totals d t n scope ≡ done tt

pub at_file_control :
    (line : Text) (n : ℕ) (st st' : State)
    → read_record file_control line n st ≡ done st'
    → Compared (declared_by_file line n) st.file_totals n file × (st'.entries ≡ st.entries)
unfolding on_file_control validate_file_control
at_file_control line n st st' h =
    let (_, (valid, stays)) = bind-done (validate_file_control line st.file_totals n) _ h in
    let (d, (declares, agrees)) = bind-done (declared_by_file line n) _ valid in
    (record { d = d; declares = declares; agrees = agrees }, cc)

pub at_batch_control :
    (line : Text) (n : ℕ) (st st' : State)
    → read_record batch_control line n st ≡ done st'
    → Compared (declared_by_batch line n) st.batch_totals n batch × (st'.entries ≡ st.entries)
unfolding on_batch_control validate_batch_control
at_batch_control line n st st' h =
    let (_, (valid, stays)) = bind-done (validate_batch_control line st.batch_totals n) _ h in
    let (d, (declares, agrees)) = bind-done (declared_by_batch line n) _ valid in
    (record { d = d; declares = declares; agrees = agrees }, cc)

-- The batch totals start anew at a batch header.
pub at_header :
    (line : Text) (n : ℕ) (st st' : State)
    → read_record header line n st ≡ done st'
    → (st'.entries ≡ st.entries) × (st'.batch_totals ≡ no_totals)
unfolding on_batch_header
at_header line n st st' h = let (made, (_, e)) = bind-done (batch_header line n) _ h in (cc, cc)

-- A line of a known kind, and the lines after it.
pub step-kind :
    (k : Kind) (raw : Text) (rest : List Text) (n : ℕ) (st last : State)
    → kind raw ≡ k
    → read_lines (raw ∷ rest) n st ≡ done last
    → (next : State) × ((read_record k (padded raw) n st ≡ done next)
        × (read_lines rest (suc n) next ≡ done last))
unfolding read_lines step
step-kind k raw rest n st last is_k h =
    let (next, (first, following)) = bind-done (step raw n st) _ h in
    (next, (subst (λ k. read_record k (padded raw) n st ≡ done next) is_k first, following))

-- Totals that start after these entries.
pub Counted-start :
    {base es : List NachaEntry} {t : RunningTotals}
    → es ≡ base
    → t ≡ no_totals
    → Counted base es t (pos 0) 0
Counted-start {base = base} {t = t} same reset = record {
  own = [];
  entries = same ∙ sym (append_nil base);
  number = refl;
  count = ap (λ t. t.entry_count) reset;
  hash = ap (λ t. t.entry_hash_sum) reset;
  debit = ap (λ t. t.total_debit_cents) reset;
  credit = ap (λ t. t.total_credit_cents) reset;
}
