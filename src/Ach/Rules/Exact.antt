-- ===== src/Ach/Rules/Exact.antt =====
-- A matched ACH entry is a credit, or a debit that the most specific authorization covers.
use pos_pay.Base.{
  ℤ, pos, String, Bool, true, false, ◌⊎◌, Option, none, some, List, [], ◌∷◌, ◌≡◌, refl, ◌↔◌, ◌≤ℤ◌,
  arith, Bool-cases, Option-cases, inl, inr, select, find, head?, All, Has, any, str_eq, find-Has,
  find-passes, find-none, sym, ◌∙◌,
}
use mathlib.Core.Path.{ap₂}
use pos_pay.Ach.Rules.{
  AuthorizationSnapshot, AchMatchInputs, is_exact, is_wildcard, first_of_either,
  select_authorization, exceeds_amount, exceeds_frequency, bad_sec_code, limit_exceptions,
  evaluate_ach_rules,
}

-- The most specific authorization, as a specification: one of the candidates, that names the
-- receiver, or is a wildcard while no candidate names it.
abbrev pub IsMostSpecific : AchMatchInputs → AuthorizationSnapshot → Type 0
IsMostSpecific inputs a =
    Has a inputs.candidate_authorizations
    × ((is_exact inputs a ≡ true)
        ⊎ ((is_wildcard a ≡ true)
            × All (λ b. is_exact inputs b ≡ false) inputs.candidate_authorizations))

-- The limits that an authorization sets, where it sets them.
pub record WithinLimits (inputs : AchMatchInputs) (a : AuthorizationSnapshot) : Type 0 where
  pub amount : (m : ℤ) → a.max_amount ≡ some m → inputs.amount ≤ℤ m
  pub frequency : (n : ℤ) → a.frequency_limit ≡ some n → ¬ (n ≤ℤ pos inputs.debit_count_this_period)
  pub sec_code :
      (codes : List String)
      → a.allowed_sec_codes ≡ some codes
      → any (λ code. str_eq code inputs.sec_code) codes ≡ true

abbrev or_else : {A : Type 0} → Option A → Option A → Option A
or_else none b = b
or_else (some a) b = some a

first_of_either-or_else :
    (xs ys : List AuthorizationSnapshot) → first_of_either xs ys ≡ or_else (head? xs) (head? ys)
first_of_either-or_else [] ys = refl
first_of_either-or_else (x ∷ xs) ys = refl

head?-select : {A : Type 0} (p : A → Bool) (xs : List A) → head? (select p xs) ≡ find p xs
head?-select p [] = refl
head?-select p (x ∷ xs) = ground (arith, head?-select p xs)

module _ (inputs : AchMatchInputs) where
  limits_of_none :
      (a : AuthorizationSnapshot) → limit_exceptions inputs a ≡ [] → WithinLimits inputs a
  unfolding limit_exceptions exceeds_amount exceeds_frequency bad_sec_code
  limits_of_none a h = record {
    amount = λ m e. ground arith;
    frequency = λ n e. ground arith;
    sec_code = λ codes e. ground arith;
  }

  within_amount :
      (a : AuthorizationSnapshot) → WithinLimits inputs a → exceeds_amount inputs a ≡ false
  unfolding exceeds_amount
  within_amount a w = elim (Option-cases a.max_amount) [
    | inl e ↦ rw e
    | inr (m, e) ↦ let fits = w.amount m e in ground arith
  ]

  within_frequency :
      (a : AuthorizationSnapshot) → WithinLimits inputs a → exceeds_frequency inputs a ≡ false
  unfolding exceeds_frequency
  within_frequency a w = elim (Option-cases a.frequency_limit) [
    | inl e ↦ rw e
    | inr (n, e) ↦ let fits = w.frequency n e in ground arith
  ]

  within_sec_code :
      (a : AuthorizationSnapshot) → WithinLimits inputs a → bad_sec_code inputs a ≡ false
  unfolding bad_sec_code
  within_sec_code a w = elim (Option-cases a.allowed_sec_codes) [
    | inl e ↦ rw e
    | inr (codes, e) ↦ let fits = w.sec_code codes e in ground arith
  ]

  none_of_limits :
      (a : AuthorizationSnapshot) → WithinLimits inputs a → limit_exceptions inputs a ≡ []
  unfolding limit_exceptions
  none_of_limits a w = ground (arith, within_amount a w, within_frequency a w, within_sec_code a w)

  select_by_find :
      select_authorization inputs
      ≡ or_else
          (find (is_exact inputs) inputs.candidate_authorizations)
          (find is_wildcard inputs.candidate_authorizations)
  unfolding select_authorization
  select_by_find =
      first_of_either-or_else _ _
      ∙ ap₂ or_else (head?-select (is_exact inputs) inputs.candidate_authorizations)
          (head?-select is_wildcard inputs.candidate_authorizations)

  -- Where an authorization is selected it is one of the candidates, and it names the receiver, or
  -- is a wildcard while no candidate names the receiver.
  pub select-IsMostSpecific :
      {a : AuthorizationSnapshot} → select_authorization inputs ≡ some a → IsMostSpecific inputs a
  select-IsMostSpecific {a} h =
      let cs = inputs.candidate_authorizations in
      let sel = sym select_by_find ∙ h in
      elim (Option-cases (find (is_exact inputs) cs)) [
        | inl e ↦
            let w = rw e at sel in
            (
              find-Has is_wildcard cs w,
              inr (find-passes is_wildcard cs w, find-none (is_exact inputs) cs e),
            )
        | inr (b, e) ↦
            let same = e ∙ (rw e at sel) in
            (find-Has (is_exact inputs) cs same, inl (find-passes (is_exact inputs) cs same))
      ]

  -- Nothing is selected only where no candidate names the receiver and none is a wildcard.
  pub select_none :
      select_authorization inputs ≡ none
      → All (λ b. is_exact inputs b ≡ false) inputs.candidate_authorizations
        × All (λ b. is_wildcard b ≡ false) inputs.candidate_authorizations
  select_none h =
      let cs = inputs.candidate_authorizations in
      let sel = sym select_by_find ∙ h in
      elim (Option-cases (find (is_exact inputs) cs)) [
        | inl e ↦ (find-none (is_exact inputs) cs e, find-none is_wildcard cs (rw e at sel))
        | inr (b, e) ↦ cc (rw e at sel)
      ]

  select_nil : inputs.candidate_authorizations ≡ [] → select_authorization inputs ≡ none
  unfolding select_authorization
  select_nil e = rw e

  -- The ACH rules report nothing exactly for a credit, and for a debit on an account that does not
  -- block all debits for which an authorization is selected whose limits on the amount, on the
  -- frequency and on the SEC code the entry respects.
  pub authorized_iff : ((evaluate_ach_rules inputs).0 ≡ []) ↔ (
      (inputs.is_debit ≡ false)
      ⊎ ((inputs.debit_block_all ≡ false)
          × ((a : AuthorizationSnapshot) × (select_authorization inputs ≡ some a)
              × WithinLimits inputs a)))
  unfolding evaluate_ach_rules
  authorized_iff = (
    λ h. elim (Bool-cases inputs.is_debit) [
      | inl debit ↦ elim (Option-cases (select_authorization inputs)) [
        | inl e ↦ absurd (ground arith)
        | inr (a, e) ↦ inr (ground arith, (a, e, limits_of_none a (ground arith)))
      ]
      | inr credit ↦ inl credit
    ],
    elim [
      | inl credit ↦ ground arith
      | inr (open_account, (a, e, w)) ↦ ground (arith, none_of_limits a w, select_nil)
    ],
  )
