-- ===== src/Store/Match.antt =====
-- networks/base.py: what an adapter's `evaluate` returns.
use pos_pay.Base.{◌≡◌, refl, Bool, true, false, String, Option, List, [], ◌∷◌}
use pos_pay.Store.Rows.{Uuid}

pub record MatchResult : Type 0 where
  pub matched : Bool
  pub exception_types : List String
  pub related_reference_id : Option Uuid

-- `not exception_types`
abbrev pub is_empty : {A : Type 0} → List A → Bool
is_empty [] = true
is_empty (x ∷ xs) = false

pub is_empty_nil : {A : Type 0} (xs : List A) → is_empty xs ≡ true → xs ≡ []
is_empty_nil [] h = refl
is_empty_nil (x ∷ xs) h = cc
