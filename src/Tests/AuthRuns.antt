-- ===== src/Tests/AuthRuns.antt =====
-- Password policies, on concrete passwords.
use pos_pay.Base.{Text, true, false, ◌&&◌, ◌||◌, leb, ◌≡◌, refl, some, [], ◌∷◌, All, ◌↔◌, codes}
use pos_pay.Auth.Password.{
  TenantPolicy, CustomerPolicy, PasswordPolicy, CharacterTests, effective_policy, combined,
  strictest, validate_password,
}
use pos_pay.Auth.Password.Strictest.{own_policy, strictest_is_each}

abbrev ascii : CharacterTests
ascii = record {
  is_upper = λ c. leb 65 c && leb c 90;
  is_lower = λ c. leb 97 c && leb c 122;
  is_decimal = λ c. leb 48 c && leb c 57;
  is_alnum = λ c. (leb 65 c && leb c 90) || ((leb 97 c && leb c 122) || (leb 48 c && leb c 57));
}

abbrev bank_policy : TenantPolicy
bank_policy = record {
  password_min_length = 8;
  password_require_uppercase = true;
  password_require_lowercase = true;
  password_require_number = false;
  password_require_symbol = false;
}

-- The customer asks for a number, and for fewer characters than the bank.
abbrev customer_policy : CustomerPolicy
customer_policy = record {
  password_min_length = some 6;
  password_require_uppercase = false;
  password_require_lowercase = false;
  password_require_number = true;
  password_require_symbol = false;
}

abbrev password : Text
password = codes "Payable2026"

passes : validate_password ascii password (effective_policy bank_policy (some customer_policy)) ≡ []
unfolding validate_password effective_policy
passes = refl

abbrev symbols : PasswordPolicy
symbols = record (own_policy bank_policy) { min_length = 5; require_symbol = true }

two :
    strictest (own_policy bank_policy ∷ symbols ∷ [])
    ≡ some (combined (own_policy bank_policy) (symbols ∷ []))
unfolding strictest
two = refl

strictest_is_each_example :
    (validate_password ascii password (combined (own_policy bank_policy) (symbols ∷ [])) ≡ [])
    ↔ All (λ p. validate_password ascii password p ≡ []) (own_policy bank_policy ∷ symbols ∷ [])
strictest_is_each_example =
    strictest_is_each ascii password (own_policy bank_policy ∷ symbols ∷ []) two
