-- ===== src/Auth/Password/Strictest.antt =====
-- A combined policy is never weaker than any it is made of.
use pos_pay.Base.{
  All-map, ℕ, Text, ◌≤◌, ◌≡◌, refl, Bool, false, not, ◌&&◌, Option, some, List, [], ◌∷◌, max, any,
  length, arith, All, ◌↔◌, subst,
}
use pos_pay.Auth.Password.{
  TenantPolicy, CustomerPolicy, PasswordPolicy, effective_policy, longest, combined, strictest,
  CharacterTests, validate_password,
}

-- `q` asks for all that `p` asks for.
pub record IsStricter (q p : PasswordPolicy) : Type 0 where
  pub min_length : p.min_length ≤ q.min_length
  pub uppercase : (p.require_uppercase && not q.require_uppercase) ≡ false
  pub lowercase : (p.require_lowercase && not q.require_lowercase) ≡ false
  pub number : (p.require_number && not q.require_number) ≡ false
  pub symbol : (p.require_symbol && not q.require_symbol) ≡ false

-- What passes a stricter policy passes the other.
passes_stricter :
    (chars : CharacterTests) (password : Text) (q p : PasswordPolicy)
    → IsStricter q p
    → validate_password chars password q ≡ []
    → validate_password chars password p ≡ []
unfolding validate_password
passes_stricter chars password q p s h =
    ground (arith, s.min_length, s.uppercase, s.lowercase, s.number, s.symbol)

-- The policy of the tenant alone.
abbrev pub own_policy : TenantPolicy → PasswordPolicy
own_policy t = record {
  min_length = t.password_min_length;
  require_uppercase = t.password_require_uppercase;
  require_lowercase = t.password_require_lowercase;
  require_number = t.password_require_number;
  require_symbol = t.password_require_symbol;
}

effective-IsStricter :
    (t : TenantPolicy) (c : Option CustomerPolicy)
    → IsStricter (effective_policy t c) (own_policy t)
unfolding effective_policy
effective-IsStricter t c = record {
  min_length = ground arith;
  uppercase = ground arith;
  lowercase = ground arith;
  number = ground arith;
  symbol = ground arith;
}

-- A customer's policy only adds: a password that has no problem under the effective policy of a
-- tenant and a customer has none under the tenant's own.
pub effective_never_weaker :
    (chars : CharacterTests) (password : Text) (t : TenantPolicy) (c : Option CustomerPolicy)
    → validate_password chars password (effective_policy t c) ≡ []
    → validate_password chars password (own_policy t) ≡ []
effective_never_weaker chars password t c h =
    passes_stricter chars password (effective_policy t c) (own_policy t) (effective-IsStricter t c)
      h

longest_first : (n : ℕ) (ps : List PasswordPolicy) → n ≤ longest n ps
longest_first n [] = omega arith
longest_first n (p ∷ ps) = omega (arith, longest_first (max n p.min_length) ps)

any_covers :
    (f : PasswordPolicy → Bool) (ps : List PasswordPolicy) (b : Bool)
    → (any f ps && not b) ≡ false
    → All (λ p. (f p && not b) ≡ false) ps
any_covers f [] b h = tt
any_covers f (p ∷ ps) b h = (ground arith, any_covers f ps b (ground arith))

-- A password that meets a policy, requirement by requirement.
record Meets (chars : CharacterTests) (password : Text) (p : PasswordPolicy) : Type 0 where
  pub long : p.min_length ≤ length password
  pub uppercase : (p.require_uppercase && not (any chars.is_upper password)) ≡ false
  pub lowercase : (p.require_lowercase && not (any chars.is_lower password)) ≡ false
  pub number : (p.require_number && not (any chars.is_decimal password)) ≡ false
  pub symbol : (p.require_symbol && not (any (λ c. not (chars.is_alnum c)) password)) ≡ false

module _ (chars : CharacterTests) (password : Text) where
  Meets-validate :
      (p : PasswordPolicy) → validate_password chars password p ≡ [] → Meets chars password p
  unfolding validate_password
  Meets-validate p h = record {
    long = ground arith;
    uppercase = ground arith;
    lowercase = ground arith;
    number = ground arith;
    symbol = ground arith;
  }

  validate-Meets :
      (p : PasswordPolicy) → Meets chars password p → validate_password chars password p ≡ []
  unfolding validate_password
  validate-Meets p m = ground (arith, m.long, m.uppercase, m.lowercase, m.number, m.symbol)

longest_least :
    (m n : ℕ) (ps : List PasswordPolicy)
    → n ≤ m
    → All (λ (p : PasswordPolicy). p.min_length ≤ m) ps
    → longest n ps ≤ m
longest_least m n [] le h = le
longest_least m n (p ∷ ps) le h =
    longest_least m (max n p.min_length) ps (omega (arith, le, h.0)) h.1

covers_any :
    (f : PasswordPolicy → Bool) (ps : List PasswordPolicy) (b : Bool)
    → All (λ p. (f p && not b) ≡ false) ps
    → (any f ps && not b) ≡ false
covers_any f [] b h = refl
covers_any f (p ∷ ps) b h = ground (arith, h.0, covers_any f ps b h.1)

-- Five facts about each policy are one.
zip_Meets :
    (chars : CharacterTests) (password : Text) (ps : List PasswordPolicy)
    → All (λ (p : PasswordPolicy). p.min_length ≤ length password) ps
    → All
        (λ (p : PasswordPolicy). (p.require_uppercase && not (any chars.is_upper password)) ≡ false)
        ps
    → All
        (λ (p : PasswordPolicy). (p.require_lowercase && not (any chars.is_lower password)) ≡ false)
        ps
    → All
        (λ (p : PasswordPolicy). (p.require_number && not (any chars.is_decimal password)) ≡ false)
        ps
    → All
        (λ (p : PasswordPolicy).
          (p.require_symbol && not (any (λ c. not (chars.is_alnum c)) password)) ≡ false)
        ps
    → All (Meets chars password) ps
zip_Meets chars password [] a b c d e = tt
zip_Meets chars password (p ∷ ps) a b c d e = (
  record { long = a.0; uppercase = b.0; lowercase = c.0; number = d.0; symbol = e.0 },
  zip_Meets chars password ps a.1 b.1 c.1 d.1 e.1,
)

long_each :
    (m n : ℕ) (ps : List PasswordPolicy)
    → longest n ps ≤ m
    → All (λ (p : PasswordPolicy). p.min_length ≤ m) ps
long_each m n [] h = tt
long_each m n (p ∷ ps) h =
    (omega (arith, h, longest_first (max n p.min_length) ps), long_each m (max n p.min_length) ps h)

combined-Meets :
    (chars : CharacterTests) (password : Text) (p : PasswordPolicy) (ps : List PasswordPolicy)
    → Meets chars password (combined p ps) ↔ All (Meets chars password) (p ∷ ps)
combined-Meets chars password p ps = (
  λ m.
      zip_Meets chars password (p ∷ ps)
        (
          omega (arith, m.long, longest_first p.min_length ps),
          long_each (length password) p.min_length ps m.long,
        )
        (any_covers (λ q. q.require_uppercase) (p ∷ ps) _ m.uppercase)
        (any_covers (λ q. q.require_lowercase) (p ∷ ps) _ m.lowercase)
        (any_covers (λ q. q.require_number) (p ∷ ps) _ m.number)
        (any_covers (λ q. q.require_symbol) (p ∷ ps) _ m.symbol),
  λ h. record {
    long =
        longest_least (length password) p.min_length ps h.0.long
          (All-map _ _ ps (λ q m. m.long) h.1);
    uppercase =
        covers_any (λ q. q.require_uppercase) (p ∷ ps) _
          (All-map _ _ (p ∷ ps) (λ q m. m.uppercase) h);
    lowercase =
        covers_any (λ q. q.require_lowercase) (p ∷ ps) _
          (All-map _ _ (p ∷ ps) (λ q m. m.lowercase) h);
    number =
        covers_any (λ q. q.require_number) (p ∷ ps) _ (All-map _ _ (p ∷ ps) (λ q m. m.number) h);
    symbol =
        covers_any (λ q. q.require_symbol) (p ∷ ps) _ (All-map _ _ (p ∷ ps) (λ q m. m.symbol) h);
  },
)

-- The strictest of several policies asks for all that any of them asks for, and for no more: where
-- there is one, a password has no problem under it exactly when it has none under each of them.
pub strictest_is_each :
    (chars : CharacterTests) (password : Text) (ps : List PasswordPolicy) {q : PasswordPolicy}
    → strictest ps ≡ some q
    → (validate_password chars password q ≡ [])
      ↔ All (λ p. validate_password chars password p ≡ []) ps
unfolding strictest
strictest_is_each chars password [] h = cc
strictest_is_each chars password (p ∷ ps) {q} h =
    let same : combined p ps ≡ q = cc in
    let both =
      subst (λ r. Meets chars password r ↔ All (Meets chars password) (p ∷ ps)) same
        (combined-Meets chars password p ps) in
    (
      λ v.
          All-map _ _ (p ∷ ps) (λ r m. validate-Meets chars password r m)
            (both.0 (Meets-validate chars password q v)),
      λ v.
          validate-Meets chars password q
            (both.1 (All-map _ _ (p ∷ ps) (λ r e. Meets-validate chars password r e) v)),
    )
