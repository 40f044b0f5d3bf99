-- ===== src/Files/Nacha/Tally.antt =====
-- bulk_import/nacha.py: what the running totals count, as sums over the entries and the lines.
use pos_pay.Base.{
  ℕ, suc, ℤ, pos, Text, Option, none, some, List, [], ◌∷◌, ◌++◌, length, length-append, ◌+ℤ◌, strip,
  slice, append_assoc, ◌≡◌, refl, ap, sym, subst, ◌∙◌, arith, inl, inr, Option-cases,
}
use pos_pay.Files.Nacha.{NachaEntry, Kind, entry, kind, padded}
use pos_pay.Files.Nacha.Fields.{done}
use pos_pay.Files.Nacha.Controls.{
  RunningTotals, add_entry, receiving_number, plus_debit, plus_credit,
}

abbrev debits_from : ℤ → List NachaEntry → ℤ
debits_from total [] = total
debits_from total (e ∷ es) = debits_from (plus_debit e.transaction_code e.amount total) es

abbrev credits_from : ℤ → List NachaEntry → ℤ
credits_from total [] = total
credits_from total (e ∷ es) = credits_from (plus_credit e.transaction_code e.amount total) es

-- The sum of the amounts with a debit code, and of those with a credit code.
abbrev pub debits : List NachaEntry → ℤ
debits = debits_from (pos 0)

abbrev pub credits : List NachaEntry → ℤ
credits = credits_from (pos 0)

-- One more after an entry detail.
abbrev pub plus_line : Kind → ℕ → ℕ
plus_line entry m = suc m
plus_line _ m = m

abbrev pub entry_lines_from : ℕ → List Text → ℕ
entry_lines_from m [] = m
entry_lines_from m (raw ∷ rest) = entry_lines_from (plus_line (kind raw) m) rest

-- How many lines are entry details.
abbrev pub entry_lines : List Text → ℕ
entry_lines = entry_lines_from 0

-- The receiving institution's number in an entry detail.
abbrev pub receiving_id : Text → Text
receiving_id line = strip (slice 3 11 line)

abbrev plus_number : Option ℤ → ℤ → ℤ
plus_number none sum = sum
plus_number (some number) sum = sum +ℤ number

abbrev pub plus_id : Kind → Text → ℤ → ℤ
plus_id entry line sum = plus_number (receiving_number (receiving_id line)) sum
plus_id _ line sum = sum

abbrev pub ids_from : ℤ → List Text → ℤ
ids_from sum [] = sum
ids_from sum (raw ∷ rest) = ids_from (plus_id (kind raw) (padded raw) sum) rest

-- The sum of the receiving institutions' numbers, over the lines that are entry details.
abbrev pub ids : List Text → ℤ
ids = ids_from (pos 0)

-- The totals are those of the entries after `base`, of which there are `m`.
pub record Counted (base es : List NachaEntry) (t : RunningTotals) (sum : ℤ) (m : ℕ) : Type 0 where
  pub own : List NachaEntry
  pub entries : es ≡ base ++ own
  pub number : length own ≡ m
  pub count : t.entry_count ≡ m
  pub hash : t.entry_hash_sum ≡ sum
  pub debit : t.total_debit_cents ≡ debits own
  pub credit : t.total_credit_cents ≡ credits own

debits_from-append :
    (total : ℤ) (es : List NachaEntry) (e : NachaEntry)
    → debits_from total (es ++ e ∷ [])
      ≡ plus_debit e.transaction_code e.amount (debits_from total es)
debits_from-append total [] e = refl
debits_from-append total (x ∷ es) e =
    debits_from-append (plus_debit x.transaction_code x.amount total) es e

credits_from-append :
    (total : ℤ) (es : List NachaEntry) (e : NachaEntry)
    → credits_from total (es ++ e ∷ [])
      ≡ plus_credit e.transaction_code e.amount (credits_from total es)
credits_from-append total [] e = refl
credits_from-append total (x ∷ es) e =
    credits_from-append (plus_credit x.transaction_code x.amount total) es e

-- One entry more, on both sides.
pub add_entry-Counted :
    (base es : List NachaEntry) (line : Text) (e : NachaEntry) (t t' : RunningTotals) (sum : ℤ)
    (m : ℕ)
    → add_entry (receiving_id line) e.transaction_code e.amount t ≡ done t'
    → Counted base es t sum m
    → Counted base (es ++ e ∷ []) t' (plus_id entry line sum) (suc m)
unfolding add_entry
add_entry-Counted base es line e t t' sum m added c =
    elim (Option-cases (receiving_number (receiving_id line))) [
      | inl missing ↦ absurd (ground (arith, added, missing))
      | inr (number, present) ↦ record {
        own = c.own ++ e ∷ [];
        entries = ap (λ l. l ++ e ∷ []) c.entries ∙ append_assoc base c.own (e ∷ []);
        number = omega (arith, length-append c.own (e ∷ []), c.number);
        count = ground (arith, added, present, c.count);
        hash = ground (arith, added, present, c.hash);
        debit =
            step_debit number present
            ∙ ap (plus_debit e.transaction_code e.amount) c.debit
            ∙ sym (debits_from-append (pos 0) c.own e);
        credit =
            step_credit number present
            ∙ ap (plus_credit e.transaction_code e.amount) c.credit
            ∙ sym (credits_from-append (pos 0) c.own e);
      }
    ]
  where
    step_debit :
        (number : ℤ)
        → receiving_number (receiving_id line) ≡ some number
        → t'.total_debit_cents ≡ plus_debit e.transaction_code e.amount t.total_debit_cents
    step_debit number present = cc

    step_credit :
        (number : ℤ)
        → receiving_number (receiving_id line) ≡ some number
        → t'.total_credit_cents ≡ plus_credit e.transaction_code e.amount t.total_credit_cents
    step_credit number present = cc

-- A record that leaves the entries and the totals as they were.
pub kept :
    {base es es' : List NachaEntry} {t t' : RunningTotals} (sum : ℤ) (m : ℕ)
    → es' ≡ es
    → t' ≡ t
    → Counted base es t sum m
    → Counted base es' t' sum m
kept {base = base} {es' = es'} {t = t} sum m same same_t c =
    subst (λ u. Counted base es' u sum m) (sym same_t)
      (subst (λ l. Counted base l t sum m) (sym same) c)
