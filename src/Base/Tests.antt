-- ===== src/Base/Tests.antt =====
-- Boolean tests on the native numbers, the conditional, and the splits that keep an equation.
use Prim.Native.Nat.{ℕ, ◌≤◌, ◌<◌, compare, Ordering}
use Prim.Native.String.{String}
use mathlib.Core.Path.{◌≡◌, refl, sym, ap, ◌∙◌}
use mathlib.Core.Logic.{◌⊎◌, inl, inr}
use mathlib.Core.Bool.{Bool, true, false}
use mathlib.Core.Option.{Option, none, some}
use native.Mathlib.Omega.{arith}
use text.Mathlib.Text.{◌==◌ as str_eq}
use text.Mathlib.TextEquality.{eq_iff}

abbrev pub ltb : ℕ → ℕ → Bool
ltb a b = elim (compare a b) [ Ordering.lt ↦ true | _ ↦ false ]

abbrev pub leb : ℕ → ℕ → Bool
leb a b = elim (compare a b) [ Ordering.gt ↦ false | _ ↦ true ]

infix 50 ◌==◌
abbrev pub ◌==◌ : ℕ → ℕ → Bool
a == b = elim (compare a b) [ Ordering.eq ↦ true | _ ↦ false ]

infix 1 if◌then◌else◌
abbrev pub if◌then◌else◌ {ℓ} : {A : Type ℓ} → Bool → A → A → A
if true then x else y = x
if false then x else y = y

pub ltb→lt : (a b : ℕ) → ltb a b ≡ true → a < b
ltb→lt a b h = ground arith

pub leb→le : (a b : ℕ) → leb a b ≡ true → a ≤ b
leb→le a b h = ground arith

pub ==→eq : (a b : ℕ) → (a == b) ≡ true → a ≡ b
==→eq a b h = ground arith

pub ==-refl : (a : ℕ) → (a == a) ≡ true
==-refl a = ground arith

pub Bool-cases : (b : Bool) → (b ≡ true) ⊎ (b ≡ false)
Bool-cases true = inl refl
Bool-cases false = inr refl

pub Option-cases {ℓ} : {A : Type ℓ} (o : Option A) → (o ≡ none) ⊎ ((a : A) × (o ≡ some a))
Option-cases none = inl refl
Option-cases (some a) = inr (a, refl)

-- `x == y` of two optional ids, and of two optional texts.
abbrev pub same_id : Option ℕ → Option ℕ → Bool
same_id none none = true
same_id none (some b) = false
same_id (some a) none = false
same_id (some a) (some b) = a == b

abbrev pub same_text : Option String → Option String → Bool
same_text none none = true
same_text none (some b) = false
same_text (some a) none = false
same_text (some a) (some b) = str_eq a b

abbrev pub is_none {ℓ} : {A : Type ℓ} → Option A → Bool
is_none none = true
is_none (some a) = false

abbrev pub is_some {ℓ} : {A : Type ℓ} → Option A → Bool
is_some none = false
is_some (some a) = true

pub str_eq_refl : (s : String) → str_eq s s ≡ true
str_eq_refl s = (eq_iff s s).1 refl

pub ==-sym : (a b : ℕ) → (a == b) ≡ (b == a)
==-sym a b = ground arith

pub str_eq-sym : (s t : String) → str_eq s t ≡ str_eq t s
str_eq-sym s t = elim (Bool-cases (str_eq s t)) [
  | inl e ↦ ap (λ x. str_eq x t) ((eq_iff s t).0 e) ∙ ap (str_eq t) (sym ((eq_iff s t).0 e))
  | inr e ↦ elim (Bool-cases (str_eq t s)) [
    | inl back ↦ absurd (cc (e, (eq_iff s t).1 (sym ((eq_iff t s).0 back))))
    | inr back ↦ e ∙ sym back
  ]
]

-- An optional id that is not the one given does not compare equal to it.
pub same_id-other : (a : Option ℕ) (k : ℕ) → ¬ (a ≡ some k) → same_id a (some k) ≡ false
same_id-other none k h = refl
same_id-other (some j) k h = elim (Bool-cases (j == k)) [
  | inl same ↦ absurd (h (ap some (==→eq j k same)))
  | inr e ↦ e
]
