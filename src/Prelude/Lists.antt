-- ===== src/Prelude/Lists.antt =====
-- Searches and loops over lists, as the program's iterator chains make them.
use Prim.Native.Nat.{ℕ, suc}
use native.Mathlib.Omega.{arith}
use mathlib.Core.Path.{◌≡◌, refl, ap}
use mathlib.Core.Bool.{Bool, true, false, ◌&&◌, ◌||◌}
use mathlib.Core.Option.{Option, none, some}
use mathlib.Core.List.{List, [], ◌∷◌, ◌++◌}
use schemaforge.Prelude.Tests.{if◌then◌else◌}

module _ {ℓ} {A : Type ℓ} where
  abbrev pub length : List A → ℕ
  length [] = 0
  length (x ∷ xs) = suc (length xs)

  abbrev pub any : (A → Bool) → List A → Bool
  any p [] = false
  any p (x ∷ xs) = p x || any p xs

  abbrev pub all : (A → Bool) → List A → Bool
  all p [] = true
  all p (x ∷ xs) = p x && all p xs

  abbrev pub find : (A → Bool) → List A → Option A
  find p [] = none
  find p (x ∷ xs) = if p x then some x else find p xs

  -- `iter().filter(p).collect()`
  abbrev pub keep : (A → Bool) → List A → List A
  keep p [] = []
  keep p (x ∷ xs) = let rest = keep p xs in if p x then x ∷ rest else rest

  abbrev pub All {κ} : (A → Type κ) → List A → Type κ
  All P [] = Unit
  All P (x ∷ xs) = P x × All P xs

module _ {ℓ κ} {A : Type ℓ} {B : Type κ} where
  -- A loop whose body pushes a list for each element.
  abbrev pub for_each : (A → List B) → List A → List B
  for_each f [] = []
  for_each f (x ∷ xs) = f x ++ for_each f xs

module _ {ℓ} {A : Type ℓ} where
  pub any-append : (p : A → Bool) (xs ys : List A) → any p (xs ++ ys) ≡ (any p xs || any p ys)
  any-append p [] ys = refl
  any-append p (x ∷ xs) ys = ground (arith, any-append p xs ys)

  pub any-eq : (p q : A → Bool) → ((x : A) → p x ≡ q x) → (xs : List A) → any p xs ≡ any q xs
  any-eq p q h [] = refl
  any-eq p q h (x ∷ xs) = ground (arith, h x, any-eq p q h xs)

  pub any-none : (p : A → Bool) → ((x : A) → p x ≡ false) → (xs : List A) → any p xs ≡ false
  any-none p h [] = refl
  any-none p h (x ∷ xs) = ground (arith, h x, any-none p h xs)

  pub any-All_none : (p : A → Bool) (xs : List A) → All (λ x. p x ≡ false) xs → any p xs ≡ false
  any-All_none p [] h = refl
  any-All_none p (x ∷ xs) h = ground (arith, any-All_none p xs h.1)

module _ {ℓ κ} {A : Type ℓ} {B : Type κ} where
  pub any-for_each :
      (p : B → Bool) (f : A → List B) (xs : List A)
      → any p (for_each f xs) ≡ any (λ x. any p (f x)) xs
  any-for_each p f [] = refl
  any-for_each p f (x ∷ xs) = rw any-append (ap (λ b. any p (f x) || b) (any-for_each p f xs))

  pub for_each-nil : (f : A → List B) (xs : List A) → All (λ x. f x ≡ []) xs → for_each f xs ≡ []
  for_each-nil f [] h = refl
  for_each-nil f (x ∷ xs) h = rw (h.0, for_each-nil f xs h.1)

module _ {ℓ κ λ'} {A : Type ℓ} {P : A → Type κ} {Q : A → Type λ'} where
  pub All-map : ((x : A) → P x → Q x) → (xs : List A) → All P xs → All Q xs
  All-map k [] h = tt
  All-map k (x ∷ xs) h = (k x h.0, All-map k xs h.1)
