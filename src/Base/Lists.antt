-- ===== src/Base/Lists.antt =====
-- Lists measured by native numbers, and the row operations that queries are made of.
use Prim.Native.Nat.{ℕ, zero, suc, ◌+◌, ◌-◌, min}
use mathlib.Core.Path.{◌≡◌, refl, ap}
use mathlib.Core.Logic.{◌⊎◌, inl, inr}
use mathlib.Core.Bool.{Bool, true, false, ◌||◌}
use mathlib.Core.List.{List, [], ◌∷◌, ◌++◌}
use mathlib.Core.Option.{Option, none, some}
use native.Mathlib.Omega.{arith}
use pos_pay.Base.Tests.{if◌then◌else◌, Bool-cases}

module _ {ℓ} {A : Type ℓ} where
  abbrev pub length : List A → ℕ
  length [] = 0
  length (x ∷ xs) = suc (length xs)

  abbrev pub take : ℕ → List A → List A
  take zero xs = []
  take (suc n) [] = []
  take (suc n) (x ∷ xs) = x ∷ take n xs

  abbrev pub drop : ℕ → List A → List A
  drop zero xs = xs
  drop (suc n) [] = []
  drop (suc n) (x ∷ xs) = drop n xs

  -- `xs[0] if xs else None`, and `.first()` of a query's rows.
  abbrev pub head? : List A → Option A
  head? [] = none
  head? (x ∷ xs) = some x

  -- `append(x)` under a condition.
  abbrev pub when : Bool → A → List A
  when true x = x ∷ []
  when false x = []

  -- The rows that a WHERE clause keeps, in the table's order.
  abbrev pub select : (A → Bool) → List A → List A
  select p [] = []
  select p (x ∷ xs) = if p x then x ∷ select p xs else select p xs

  -- The first row that passes.
  abbrev pub find : (A → Bool) → List A → Option A
  find p [] = none
  find p (x ∷ xs) = if p x then some x else find p xs

  -- An assignment to the columns of the rows that pass.
  abbrev pub update : (A → Bool) → (A → A) → List A → List A
  update p f [] = []
  update p f (x ∷ xs) = (if p x then f x else x) ∷ update p f xs

  abbrev pub update_found : (A → Bool) → (A → A) → Option A → Option A
  update_found p f none = none
  update_found p f (some x) = some (if p x then f x else x)

  abbrev pub any : (A → Bool) → List A → Bool
  any p [] = false
  any p (x ∷ xs) = p x || any p xs

module _ {ℓ κ} {A : Type ℓ} where
  abbrev pub All : (A → Type κ) → List A → Type κ
  All P [] = Unit
  All P (x ∷ xs) = P x × All P xs

module _ {A : Type 0} where
  -- `xs` holds `a` at some place.
  abbrev pub Has : A → List A → Type 0
  Has a [] = ⊥
  Has a (x ∷ xs) = (x ≡ a) ⊎ Has a xs

module _ {ℓ} {A : Type ℓ} where
  pub length-append : (xs ys : List A) → length (xs ++ ys) ≡ length xs + length ys
  length-append [] ys = omega arith
  length-append (x ∷ xs) ys = omega (arith, length-append xs ys)

  pub length-update : (p : A → Bool) (f : A → A) (xs : List A) → length (update p f xs) ≡ length xs
  length-update p f [] = refl
  length-update p f (x ∷ xs) = ap suc (length-update p f xs)

  pub length-take : (n : ℕ) (xs : List A) → length (take n xs) ≡ min n (length xs)
  length-take zero xs = omega arith
  length-take (suc n) [] = omega arith
  length-take (suc n) (x ∷ xs) = omega (arith, length-take n xs)

  pub length-drop : (n : ℕ) (xs : List A) → length (drop n xs) ≡ length xs - n
  length-drop zero xs = omega arith
  length-drop (suc n) [] = omega arith
  length-drop (suc n) (x ∷ xs) = omega (arith, length-drop n xs)

  -- What `find` returns passes, and is in the list.
  pub find-passes : (p : A → Bool) (xs : List A) {a : A} → find p xs ≡ some a → p a ≡ true
  find-passes p [] h = cc
  find-passes p (x ∷ xs) h = elim (Bool-cases (p x)) [
    | inl e ↦ ground (arith, e)
    | inr e ↦ find-passes p xs (rw e at h)
  ]

module _ {A : Type 0} where
  pub find-Has : (p : A → Bool) (xs : List A) {a : A} → find p xs ≡ some a → Has a xs
  find-Has p [] h = cc
  find-Has p (x ∷ xs) h = elim (Bool-cases (p x)) [
    | inl e ↦ inl (ground (arith, e))
    | inr e ↦ inr (find-Has p xs (rw e at h))
  ]

module _ {ℓ} {A : Type ℓ} where
  -- It returns nothing only where no row passes.
  pub find-none : (p : A → Bool) (xs : List A) → find p xs ≡ none → All (λ x. p x ≡ false) xs
  find-none p [] h = tt
  find-none p (x ∷ xs) h = elim (Bool-cases (p x)) [
    | inl e ↦ ground (arith, e)
    | inr e ↦ (e, find-none p xs (rw e at h))
  ]

  -- A search after an assignment that the search does not look at.
  pub find-update :
      (p q : A → Bool) (f : A → A) (xs : List A)
      → ((x : A) → p (f x) ≡ p x)
      → find p (update q f xs) ≡ update_found q f (find p xs)
  find-update p q f [] h = refl
  find-update p q f (x ∷ xs) h = ground (arith, h x, find-update p q f xs h)

  pub find-append_none :
      (p : A → Bool) (xs : List A) (y : A)
      → find p xs ≡ none
      → find p (xs ++ y ∷ []) ≡ (if p y then some y else none)
  find-append_none p [] y h = refl
  find-append_none p (x ∷ xs) y h = ground (arith, find-append_none p xs y)

  pub any-append : (p : A → Bool) (xs : List A) (y : A) → any p (xs ++ y ∷ []) ≡ (any p xs || p y)
  any-append p [] y = ground arith
  any-append p (x ∷ xs) y = ground (arith, any-append p xs y)

pub append_nil : {A : Type 0} (xs : List A) → xs ++ [] ≡ xs
append_nil [] = refl
append_nil (x ∷ xs) = ap (λ ys. x ∷ ys) (append_nil xs)

pub append_assoc : {A : Type 0} (xs ys zs : List A) → (xs ++ ys) ++ zs ≡ xs ++ (ys ++ zs)
append_assoc [] ys zs = refl
append_assoc (x ∷ xs) ys zs = ap (λ l. x ∷ l) (append_assoc xs ys zs)

pub All-append :
    {A : Type 0} (P : A → Type 0) (xs ys : List A) → All P xs → All P ys → All P (xs ++ ys)
All-append P [] ys h k = k
All-append P (x ∷ xs) ys h k = (h.0, All-append P xs ys h.1 k)

pub All-Has-select :
    {A : Type 0} (p : A → Bool) (all xs : List A)
    → ((x : A) → Has x xs → Has x all)
    → All (λ x. Has x all × (p x ≡ true)) (select p xs)
All-Has-select p all [] h = tt
All-Has-select p all (x ∷ xs) h = elim (Bool-cases (p x)) [
  | inl e ↦ rw e ((h x (inl refl), e), All-Has-select p all xs (λ y k. h y (inr k)))
  | inr e ↦ rw e (All-Has-select p all xs (λ y k. h y (inr k)))
]

pub All-select_both :
    {A : Type 0} (P : A → Type 0) (p : A → Bool) (xs : List A)
    → All P xs
    → All (λ x. P x × (p x ≡ true)) (select p xs)
All-select_both P p [] h = tt
All-select_both P p (x ∷ xs) h = elim (Bool-cases (p x)) [
  | inl e ↦ rw e ((h.0, e), All-select_both P p xs h.1)
  | inr e ↦ rw e (All-select_both P p xs h.1)
]

pub All-map :
    {A : Type 0} (P Q : A → Type 0) (xs : List A) → ((x : A) → P x → Q x) → All P xs → All Q xs
All-map P Q [] f h = tt
All-map P Q (x ∷ xs) f h = (f x h.0, All-map P Q xs f h.1)

pub select-append_none :
    {A : Type 0} (p : A → Bool) (xs : List A) (y : A)
    → p y ≡ false
    → select p (xs ++ y ∷ []) ≡ select p xs
select-append_none p [] y h = ground arith
select-append_none p (x ∷ xs) y h = ground (arith, select-append_none p xs y h)
