-- ===== src/Core/Constraints/Variants.antt =====
-- What `EnumVariants::new` of enum_variants.rs accepts.
use schemaforge.Prelude.{
  String, List, [], ◌∷◌, ◌≡◌, ◌≢◌, ◌↔◌, refl, ◌==◌, eq_iff, any, All, Bool-cases, inl, inr, ok, err,
  ◌>>=◌, Result,
}
use schemaforge.Core.Error.{SchemaError}
use schemaforge.Core.Constraints.{check_variants, enum_variants_new}
use schemaforge.Core.Schema.Unique.{Distinct, IsUnseen, split-IsUnseen, All-IsUnseen}

abbrev pub itself : String → String
itself s = s

-- Distinct texts, none of them empty, and at least one.
abbrev pub GoodVariants : List String → Type 0
GoodVariants vs = (vs ≢ []) × All (λ v. v ≢ "") vs × Distinct itself vs

check_variants_iff :
    (seen vs : List String)
    → (check_variants seen vs ≡ ok tt)
      ↔ (All (λ v. v ≢ "") vs × All (IsUnseen itself seen) vs × Distinct itself vs)
unfolding check_variants
check_variants_iff seen [] = (λ h. (tt, tt, tt), λ h. refl)
check_variants_iff seen (v ∷ vs) = elim (Bool-cases (v == "")) [
  | inl e ↦ (λ h. cc (rw e at h), λ (n, a, d). absurd (n.0 ((eq_iff v "").0 e)))
  | inr e ↦ elim (Bool-cases (any (λ s. s == v) seen)) [
    | inl t ↦ (λ h. cc (rw (e, t) at h), λ (n, a, d). cc (t, a.0))
    | inr f ↦
        let ih = check_variants_iff (v ∷ seen) vs in
        let split = split-IsUnseen itself v seen vs in
        (
          λ h.
              let (n, a, d) = ih.0 (rw (e, f) at h) in
              let (b, c) = split.0 a in ((λ p. cc (e, (eq_iff v "").1 p), n), (f, c), (b, d)),
          λ (n, a, d). rw (e, f) (ih.1 (n.1, split.1 (d.0, a.1), d.1)),
        )
  ]
]

checked_iff :
    {P : Type 0} (r : Result (Unit {0}) SchemaError) (vs ws : List String)
    → (r ≡ ok tt) ↔ P
    → ((r >>= λ _. ok vs) ≡ ok ws) ↔ ((ws ≡ vs) × P)
checked_iff (ok tt) vs ws h = (λ e. (cc e, h.0 refl), λ (e, p). cc e)
checked_iff (err e) vs ws h = (λ q. cc q, λ (q, p). cc (h.1 p))

-- A list of texts becomes the variants of an enum exactly if it has a text, none is empty and no two
-- are equal; the variants are the list itself.
pub enum_variants_new_iff :
    (vs ws : List String) → (enum_variants_new vs ≡ ok ws) ↔ ((ws ≡ vs) × GoodVariants vs)
unfolding enum_variants_new
enum_variants_new_iff [] ws = (λ h. cc h, λ (e, g). absurd (g.0 refl))
enum_variants_new_iff (v ∷ vs) ws =
    let loop = check_variants_iff [] (v ∷ vs) in
    let whole = checked_iff (check_variants [] (v ∷ vs)) (v ∷ vs) ws loop in
    (
      λ h. let (e, (n, a, d)) = whole.0 h in (e, (λ nil. cc nil, n, d)),
      λ (e, (m, n, d)). whole.1 (e, (n, All-IsUnseen itself (v ∷ vs), d)),
    )
