-- ===== src/Files/Nacha/Fields.antt =====
-- bulk_import/nacha.py: the errors, and the fields of a record that are numbers or dates.
use pos_pay.Base.{
  ℕ, ◌+◌, ◌*◌, ◌-◌, ℤ, pos, Text, Bool, true, false, not, ◌||◌, Option, none, some, [], ◌∷◌, ◌==◌,
  ltb, if◌then◌else◌, length, any, strip, slice, is_digit, int_of, eqb_ℤ, date_of, ◌≡◌, refl,
}

pub data Scope : Type 0 where
  batch file : Scope

pub data ControlField : Type 0 where
  entry_count entry_hash total_debit total_credit : ControlField

-- `NachaParseError`, one constructor for each message, most with the line's number; and the
-- ValueError of an `int` that no handler surrounds.
pub data NachaError : Type 0 where
  unsupported_code : Text → NachaError
  non_numeric : ControlField → ℕ → Text → NachaError
  control_mismatch : Scope → ControlField → ℕ → ℤ → ℤ → NachaError
  entry_before_batch no_account_number : ℕ → NachaError
  invalid_amount invalid_date : ℕ → Text → NachaError
  no_entries value_error : NachaError

pub data Parsed (A : Type 0) : Type 0 where
  done : A → Parsed A
  refused : NachaError → Parsed A

infixl 5 ◌>>=◌
abbrev pub ◌>>=◌ : {A B : Type 0} → Parsed A → (A → Parsed B) → Parsed B
done a >>= f = f a
refused e >>= f = refused e

infixl 5 ◌>>◌
abbrev pub ◌>>◌ : {A B : Type 0} → Parsed A → Parsed B → Parsed B
m >> k = m >>= λ _. k

abbrev pub required : {A : Type 0} → Option A → NachaError → Parsed A
required none e = refused e
required (some a) e = done a

abbrev pub refuse_if : Bool → NachaError → Parsed (Unit {0})
refuse_if c e = if c then refused e else done tt

-- What a chain that succeeds went through.
pub bind-done :
    {A B : Type 0} (m : Parsed A) (f : A → Parsed B) {b : B}
    → (m >>= f) ≡ done b
    → (a : A) × ((m ≡ done a) × (f a ≡ done b))
bind-done (done a) f h = (a, (refl, h))
bind-done (refused e) f h = cc

abbrev pub is_empty : Text → Bool
is_empty [] = true
is_empty (c ∷ s) = false

abbrev text_of_int : NachaError → Text → Parsed ℤ
text_of_int e s = if is_empty s then done (pos 0) else required (int_of s) e

unfoldable pub parse_declared_int : Text → ControlField → ℕ → Parsed ℤ
parse_declared_int raw field_name line_number =
    text_of_int (non_numeric field_name line_number raw) (strip raw)

unfoldable pub compare : ControlField → ℤ → ℤ → ℕ → Scope → Parsed (Unit {0})
compare field_name declared actual line_number scope =
    refuse_if (not (eqb_ℤ declared actual))
      (control_mismatch scope field_name line_number declared actual)

-- `int` of two digits
abbrev two_digits : Text → ℕ
two_digits [] = 0
two_digits (c ∷ []) = c - 48
two_digits (c ∷ d ∷ s) = (c - 48) * 10 + (d - 48)

-- The two-digit year turns over at 80.
abbrev pub full_year : ℕ → ℕ
full_year yy = if ltb yy 80 then 2000 + yy else 1900 + yy

unfoldable pub parse_yymmdd : Text → ℕ → Parsed ℕ
parse_yymmdd raw line_number = do
  refuse_if (not (length raw == 6) || any (λ c. not (is_digit c)) raw)
      (invalid_date line_number raw)
  required
      (date_of (full_year (two_digits (slice 0 2 raw))) (two_digits (slice 2 4 raw))
        (two_digits (slice 4 6 raw)))
      (invalid_date line_number raw)
