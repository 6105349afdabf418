-- ===== src/Core/Schema/Unique.antt =====
-- What `SchemaDefinition::new` of schema_definition.rs accepts.
use schemaforge.Prelude.{
  String, false, none, some, List, [], ◌∷◌, ◌≡◌, refl, ◌==◌, eq_iff, eq_refl, arith, All, any, ◌↔◌,
  Bool-cases, inl, inr,
}
use schemaforge.Core.Annotation.{Annotation}
use schemaforge.Core.Schema.{FieldDefinition, find_field, find_duplicate}

-- No two fields have one name.
abbrev pub UniqueNames : List FieldDefinition → Type 0
UniqueNames [] = Unit
UniqueNames (f ∷ fs) = (find_field f.name fs ≡ none) × UniqueNames fs

pub name-find_field :
    (m : String) (fs : List FieldDefinition) (f : FieldDefinition)
    → find_field m fs ≡ some f
    → f.name ≡ m
name-find_field m [] f h = ground arith
name-find_field m (g ∷ gs) f h = ground (arith, eq_iff g.name m, name-find_field m gs f)

-- Under the name of a field no other field is found.
fresh-find_field :
    (n : String) (fs : List FieldDefinition)
    → find_field n fs ≡ none
    → All (λ g. (n == g.name) ≡ false) fs
fresh-find_field n [] h = tt
fresh-find_field n (g ∷ gs) h =
    (ground (arith, eq_iff g.name n, eq_iff n g.name), fresh-find_field n gs (ground arith))

pub UniqueNames-find_field :
    (fs : List FieldDefinition) → UniqueNames fs → All (λ g. find_field g.name fs ≡ some g) fs
UniqueNames-find_field [] u = tt
UniqueNames-find_field (f ∷ fs) u =
    (rw (eq_refl f.name), later fs (fresh-find_field f.name fs u.0) (UniqueNames-find_field fs u.1))
  where
    later :
        (gs : List FieldDefinition)
        → All (λ g. (f.name == g.name) ≡ false) gs
        → All (λ g. find_field g.name fs ≡ some g) gs
        → All (λ g. find_field g.name (f ∷ fs) ≡ some g) gs
    later [] a b = tt
    later (g ∷ gs) (p, a) (q, b) = (rw p q, later gs a b)

-- The keys of the list are pairwise different.
abbrev pub Distinct : {A : Type 0} → (A → String) → List A → Type 0
Distinct key [] = Unit
Distinct key (x ∷ xs) = All (λ y. (key x == key y) ≡ false) xs × Distinct key xs

module _ {A : Type 0} (key : A → String) where
  -- Of the keys seen, none is that of `x`.
  abbrev pub IsUnseen : List String → A → Type 0
  IsUnseen seen x = any (λ s. s == key x) seen ≡ false

  pub split-IsUnseen :
      (k : String) (seen : List String) (xs : List A)
      → All (IsUnseen (k ∷ seen)) xs ↔ (All (λ y. (k == key y) ≡ false) xs × All (IsUnseen seen) xs)
  split-IsUnseen k seen [] = (λ h. (tt, tt), λ h. tt)
  split-IsUnseen k seen (x ∷ xs) = (
    λ (p, ps).
        let (a, b) = (split-IsUnseen k seen xs).0 ps in ((ground arith, a), (ground arith, b)),
    λ ((p, ps), (q, qs)). (ground arith, (split-IsUnseen k seen xs).1 (ps, qs)),
  )

  find_duplicate_iff :
      (seen : List String) (xs : List A)
      → (find_duplicate key seen xs ≡ none) ↔ (All (IsUnseen seen) xs × Distinct key xs)
  unfolding find_duplicate
  find_duplicate_iff seen [] = (λ h. (tt, tt), λ h. refl)
  find_duplicate_iff seen (x ∷ xs) = elim (Bool-cases (any (λ s. s == key x) seen)) [
    | inl t ↦ (λ h. cc (rw t at h), λ (a, d). cc (t, a.0))
    | inr f ↦
        let ih = find_duplicate_iff (key x ∷ seen) xs in
        let split = split-IsUnseen (key x) seen xs in
        (
          λ h. let (a, d) = ih.0 (rw f at h) in let (b, c) = split.0 a in ((f, c), (b, d)),
          λ (a, d). rw f (ih.1 (split.1 (d.0, a.1), d.1)),
        )
  ]

pub All-IsUnseen : {A : Type 0} (key : A → String) (xs : List A) → All (IsUnseen key []) xs
All-IsUnseen key [] = tt
All-IsUnseen key (x ∷ xs) = (refl, All-IsUnseen key xs)

pub find_duplicate-Distinct :
    {A : Type 0} (key : A → String) (xs : List A)
    → (find_duplicate key [] xs ≡ none) ↔ Distinct key xs
find_duplicate-Distinct key xs = (
  λ h. ((find_duplicate_iff key [] xs).0 h).1,
  λ h. (find_duplicate_iff key [] xs).1 (All-IsUnseen key xs, h),
)
