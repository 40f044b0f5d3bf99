-- ===== src/Auth/Password.antt =====
-- auth/password_policy.py: the policy that a tenant sets and a customer adds to, and the check of a
-- password against it.
pub mod Strictest
use pos_pay.Base.{
  ℕ, Text, Bool, true, false, not, ◌&&◌, ◌||◌, Option, none, some, List, [], ◌∷◌, ◌++◌, max, ltb,
  any, when, length, map,
}

-- The columns of domain/tenant.py and domain/customer.py that the policy reads.
pub record TenantPolicy : Type 0 where
  pub password_min_length : ℕ
  pub password_require_uppercase : Bool
  pub password_require_lowercase : Bool
  pub password_require_number : Bool
  pub password_require_symbol : Bool

pub record CustomerPolicy : Type 0 where
  pub password_min_length : Option ℕ
  pub password_require_uppercase : Bool
  pub password_require_lowercase : Bool
  pub password_require_number : Bool
  pub password_require_symbol : Bool

pub record PasswordPolicy : Type 0 where
  pub min_length : ℕ
  pub require_uppercase : Bool
  pub require_lowercase : Bool
  pub require_number : Bool
  pub require_symbol : Bool

abbrev min_length_with : ℕ → Option CustomerPolicy → ℕ
min_length_with n none = n
min_length_with n (some c) = elim c.password_min_length [ none ↦ n | some m ↦ max n m ]

-- `bool(customer and customer.password_require_…)`
abbrev asks : (CustomerPolicy → Bool) → Option CustomerPolicy → Bool
asks f none = false
asks f (some c) = f c

unfoldable pub effective_policy : TenantPolicy → Option CustomerPolicy → PasswordPolicy
effective_policy tenant customer = record {
  min_length = min_length_with tenant.password_min_length customer;
  require_uppercase =
      tenant.password_require_uppercase || asks (λ c. c.password_require_uppercase) customer;
  require_lowercase =
      tenant.password_require_lowercase || asks (λ c. c.password_require_lowercase) customer;
  require_number = tenant.password_require_number || asks (λ c. c.password_require_number) customer;
  require_symbol = tenant.password_require_symbol || asks (λ c. c.password_require_symbol) customer;
}

-- `max(p.min_length for p in policies)`, of a first policy and the others.
abbrev pub longest : ℕ → List PasswordPolicy → ℕ
longest n [] = n
longest n (p ∷ ps) = longest (max n p.min_length) ps

abbrev pub combined : PasswordPolicy → List PasswordPolicy → PasswordPolicy
combined p ps = record {
  min_length = longest p.min_length ps;
  require_uppercase = any (λ q. q.require_uppercase) (p ∷ ps);
  require_lowercase = any (λ q. q.require_lowercase) (p ∷ ps);
  require_number = any (λ q. q.require_number) (p ∷ ps);
  require_symbol = any (λ q. q.require_symbol) (p ∷ ps);
}

unfoldable pub strictest : List PasswordPolicy → Option PasswordPolicy
strictest [] = none
strictest (p ∷ ps) = some (combined p ps)

pub data Problem : Type 0 where
  too_short : ℕ → Problem
  no_uppercase no_lowercase no_number no_symbol : Problem

-- `str.isupper` and the like of one character.
pub record CharacterTests : Type 0 where
  pub is_upper : ℕ → Bool
  pub is_lower : ℕ → Bool
  pub is_decimal : ℕ → Bool
  pub is_alnum : ℕ → Bool

-- The list of problems; an empty one is no ValueError.
unfoldable pub validate_password : CharacterTests → Text → PasswordPolicy → List Problem
validate_password chars password policy =
    when (ltb (length password) policy.min_length) (too_short policy.min_length)
    ++ (when (policy.require_uppercase && not (any chars.is_upper password)) no_uppercase
        ++ (when (policy.require_lowercase && not (any chars.is_lower password)) no_lowercase
            ++ (when (policy.require_number && not (any chars.is_decimal password)) no_number
                ++ when (policy.require_symbol && not (any (λ c. not (chars.is_alnum c)) password))
                    no_symbol)))
