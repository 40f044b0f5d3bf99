-- ===== src/Check/Rules/Exact.antt =====
-- The check rules report each exception exactly under its condition, and match exactly the checks
-- that are on file, unstopped and consistent with what was issued.
use pos_pay.Base.{
  ℕ, Text, true, false, none, some, [], ◌≡◌, ◌≢◌, ◌↔◌, ◌≤ℤ◌, ◌≤◌, arith, Option-cases, inl, inr,
  sub_ℕ, str_eq, Has, eqb_ℤ→eq, eqb_ℤ-refl,
}
use pos_pay.Check.Rules.{
  CheckExceptionType, duplicate_paid, stopped, voided, not_in_file, amount_mismatch, payee_mismatch,
  stale_dated, CheckMatchInputs, IssuedItemSnapshot, normalize_payee, is_payee_mismatch,
  candidate_exceptions, evaluate_check_rules,
}

-- What a check that clears has to satisfy against the item that was issued for it.
pub record Agrees (token_set_ratio : Text → Text → ℕ) (inputs : CheckMatchInputs)
    (c : IssuedItemSnapshot) : Type 0 where
  pub not_voided : str_eq c.status "voided" ≡ false
  pub same_amount : inputs.presented_amount ≡ c.amount
  pub payee_alike :
      (payee : Text)
      → inputs.ocr_payee ≡ some payee
      → inputs.payee_fuzzy_threshold
        ≤ token_set_ratio (normalize_payee payee) (normalize_payee c.payee_name)
  pub fresh : sub_ℕ inputs.presented_date c.issue_date ≤ℤ inputs.stale_date_threshold_days

module _ (ratio : Text → Text → ℕ) (inputs : CheckMatchInputs) where
  payee_alike_of_not_mismatch :
      (c : IssuedItemSnapshot)
      → is_payee_mismatch ratio inputs c ≡ false
      → (payee : Text) → inputs.ocr_payee ≡ some payee
      → inputs.payee_fuzzy_threshold ≤ ratio (normalize_payee payee) (normalize_payee c.payee_name)
  unfolding is_payee_mismatch
  payee_alike_of_not_mismatch c h payee e = ground arith

  not_mismatch_of_payee_alike :
      (c : IssuedItemSnapshot) → Agrees ratio inputs c → is_payee_mismatch ratio inputs c ≡ false
  unfolding is_payee_mismatch
  not_mismatch_of_payee_alike c a = elim (Option-cases inputs.ocr_payee) [
    | inl e ↦ rw e
    | inr (payee, e) ↦ let alike = a.payee_alike payee e in ground arith
  ]

  Agrees-of_no_exceptions :
      (c : IssuedItemSnapshot) → candidate_exceptions ratio inputs c ≡ [] → Agrees ratio inputs c
  unfolding candidate_exceptions
  Agrees-of_no_exceptions c h = record {
    not_voided = ground arith;
    same_amount = eqb_ℤ→eq inputs.presented_amount c.amount (ground arith);
    payee_alike = payee_alike_of_not_mismatch c (ground arith);
    fresh = ground arith;
  }

  pub no_exceptions_of_Agrees :
      (c : IssuedItemSnapshot) → Agrees ratio inputs c → candidate_exceptions ratio inputs c ≡ []
  unfolding candidate_exceptions
  no_exceptions_of_Agrees c a = ground (
    arith,
    not_mismatch_of_payee_alike c a,
    a.not_voided,
    a.same_amount,
    a.fresh,
    eqb_ℤ-refl c.amount,
  )

  -- The check rules report nothing exactly when the check was not paid before, no stop is active,
  -- and an issued item is on file with which it agrees: not voided, the same amount, a payee that
  -- reads alike if one was read, and not stale.
  pub matched_iff : ((evaluate_check_rules ratio inputs).0 ≡ []) ↔ (
      (inputs.is_duplicate_paid ≡ false)
      × (inputs.active_stop_found ≡ false)
      × ((c : IssuedItemSnapshot) × (inputs.candidate_issued_item ≡ some c)
          × Agrees ratio inputs c))
  unfolding evaluate_check_rules
  matched_iff = (
    λ h. elim (Option-cases inputs.candidate_issued_item) [
      | inl e ↦ ground arith
      | inr (c, e) ↦ (ground arith, ground arith, (c, e, Agrees-of_no_exceptions c (ground arith)))
    ],
    λ h. ground (arith, no_exceptions_of_Agrees h.2.0 h.2.2),
  )

-- The condition of each exception, read off the inputs. An active stop hides all that depend on
-- the issued item.
abbrev pub Condition : (Text → Text → ℕ) → CheckMatchInputs → CheckExceptionType → Type 0
Condition ratio inputs duplicate_paid = inputs.is_duplicate_paid ≡ true
Condition ratio inputs stopped = inputs.active_stop_found ≡ true
Condition ratio inputs not_in_file =
    (inputs.active_stop_found ≡ false) × (inputs.candidate_issued_item ≡ none)
Condition ratio inputs voided =
    (inputs.active_stop_found ≡ false)
    × ((c : IssuedItemSnapshot) × (inputs.candidate_issued_item ≡ some c)
        × (str_eq c.status "voided" ≡ true))
Condition ratio inputs amount_mismatch =
    (inputs.active_stop_found ≡ false)
    × ((c : IssuedItemSnapshot) × (inputs.candidate_issued_item ≡ some c)
        × (inputs.presented_amount ≢ c.amount))
Condition ratio inputs payee_mismatch =
    (inputs.active_stop_found ≡ false)
    × ((c : IssuedItemSnapshot) × (inputs.candidate_issued_item ≡ some c)
        × (is_payee_mismatch ratio inputs c ≡ true))
Condition ratio inputs stale_dated =
    (inputs.active_stop_found ≡ false)
    × ((c : IssuedItemSnapshot) × (inputs.candidate_issued_item ≡ some c)
        × (¬ (sub_ℕ inputs.presented_date c.issue_date ≤ℤ inputs.stale_date_threshold_days)))

reported_if :
    (ratio : Text → Text → ℕ) (inputs : CheckMatchInputs) (t : CheckExceptionType)
    → Condition ratio inputs t
    → Has t (evaluate_check_rules ratio inputs).0
unfolding evaluate_check_rules candidate_exceptions
reported_if ratio inputs duplicate_paid h = ground arith
reported_if ratio inputs stopped h = ground arith
reported_if ratio inputs not_in_file h = ground arith
reported_if ratio inputs voided h = ground arith
reported_if ratio inputs amount_mismatch h =
    ground (arith, eqb_ℤ→eq inputs.presented_amount h.1.0.amount)
reported_if ratio inputs payee_mismatch h = ground arith
reported_if ratio inputs stale_dated h = ground arith

condition_of_reported :
    (ratio : Text → Text → ℕ) (inputs : CheckMatchInputs) (t : CheckExceptionType)
    → Has t (evaluate_check_rules ratio inputs).0
    → Condition ratio inputs t
unfolding evaluate_check_rules candidate_exceptions
condition_of_reported ratio inputs duplicate_paid h = ground arith
condition_of_reported ratio inputs stopped h = ground arith
condition_of_reported ratio inputs not_in_file h = ground arith
condition_of_reported ratio inputs voided h = elim (Option-cases inputs.candidate_issued_item) [
  | inl e ↦ ground arith
  | inr (c, e) ↦ (ground arith, (c, e, ground arith))
]
condition_of_reported ratio inputs amount_mismatch h =
    elim (Option-cases inputs.candidate_issued_item) [
      | inl e ↦ ground arith
      | inr (c, e) ↦ (ground arith, (c, e, λ same. ground (arith, same, eqb_ℤ-refl c.amount)))
    ]
condition_of_reported ratio inputs payee_mismatch h =
    elim (Option-cases inputs.candidate_issued_item) [
      | inl e ↦ ground arith
      | inr (c, e) ↦ (ground arith, (c, e, ground arith))
    ]
condition_of_reported ratio inputs stale_dated h =
    elim (Option-cases inputs.candidate_issued_item) [
      | inl e ↦ ground arith
      | inr (c, e) ↦ (ground arith, (c, e, λ late. ground arith))
    ]

-- The check rules report each exception exactly under its condition: a duplicate whatever else
-- holds, a stop whatever else holds, and without a stop a missing item or what the issued item is
-- found at fault for.
pub reported_iff :
    (ratio : Text → Text → ℕ) (inputs : CheckMatchInputs) (t : CheckExceptionType)
    → Has t (evaluate_check_rules ratio inputs).0 ↔ Condition ratio inputs t
reported_iff ratio inputs t = (condition_of_reported ratio inputs t, reported_if ratio inputs t)
