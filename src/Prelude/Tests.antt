-- ===== src/Prelude/Tests.antt =====
-- Boolean tests, the conditional, and the results of fallible code.
use Prim.Native.Nat.{ℕ, compare, Ordering}
use mathlib.Core.Path.{◌≡◌, refl}
use mathlib.Core.Logic.{◌↔◌, ◌⊎◌, inl, inr}
use mathlib.Core.Bool.{Bool, true, false}
use mathlib.Core.Option.{Option, none, some}

abbrev pub ltb : ℕ → ℕ → Bool
ltb a b = elim (compare a b) [ Ordering.lt ↦ true | _ ↦ false ]

abbrev pub leb : ℕ → ℕ → Bool
leb a b = elim (compare a b) [ Ordering.gt ↦ false | _ ↦ true ]

abbrev pub eqb : ℕ → ℕ → Bool
eqb a b = elim (compare a b) [ Ordering.eq ↦ true | _ ↦ false ]

infix 1 if◌then◌else◌
abbrev pub if◌then◌else◌ {ℓ} : {A : Type ℓ} → Bool → A → A → A
if true then x else y = x
if false then x else y = y

-- To split on a computed value and keep the equation.
pub Bool-cases : (b : Bool) → (b ≡ true) ⊎ (b ≡ false)
Bool-cases true = inl refl
Bool-cases false = inr refl

pub Option-cases {ℓ} : {A : Type ℓ} (o : Option A) → (o ≡ none) ⊎ ((a : A) × (o ≡ some a))
Option-cases none = inl refl
Option-cases (some a) = inr (a, refl)

abbrev pub is_some {ℓ} : {A : Type ℓ} → Option A → Bool
is_some none = false
is_some (some a) = true

-- Rust's `Result`, with the error type that each crate declares.
pub data Result {ℓ} (A : Type ℓ) (E : Type ℓ) : Type ℓ where
  ok : A → Result A E
  err : E → Result A E

infixl 5 ◌>>=◌
abbrev pub ◌>>=◌ {ℓ} : {A B E : Type ℓ} → Result A E → (A → Result B E) → Result B E
ok a >>= f = f a
err e >>= f = err e

-- `==` where the type derives it: the answer of a decision.
abbrev pub is_yes {ℓ} : {A : Type ℓ} → Dec A → Bool
is_yes (yes a) = true
is_yes (no n) = false

pub is_yes_iff {ℓ} : {A : Type ℓ} (d : Dec A) → (is_yes d ≡ true) ↔ A
is_yes_iff (yes a) = (λ _. a, λ _. refl)
is_yes_iff (no n) = (λ e. cc, λ a. absurd (n a))
