-- ===== src/Core/Names/Valid.antt =====
-- What a validated name of field_name.rs and schema_name.rs is.
use Prim.Native.Char.{Char, code}
use schemaforge.Prelude.{
  sym, ap, ℕ, String, Bool, true, false, ◌&&◌, ◌≡◌, ◌≢◌, ◌↔◌, ◌⊎◌, ◌≤◌, refl, arith, eq_iff, List,
  [], ◌∷◌, All, find, is_some, ◌==◌, ok, err, if◌then◌else◌, Bool-cases, inl, inr,
}
use schemaforge.Core.Error.{SchemaError}
use schemaforge.Core.Names.{
  is_ascii_lowercase, snake_char, all_chars, is_snake_case, reserved_field_names,
  find_reserved_field_name, field_name_new, is_ascii_uppercase, is_ascii_digit,
  is_ascii_alphanumeric, is_pascal_case, reserved_schema_names, find_reserved_schema_name,
  schema_name_new,
}

abbrev pub AllChars : (Char → Type 0) → String → Type 0
AllChars P String.[] = Unit
AllChars P (String.◌∷◌ c s) = P c × AllChars P s

abbrev pub InRange : ℕ → ℕ → Char → Type 0
InRange lo hi c = (lo ≤ code c) × (code c ≤ hi)

-- [a-z0-9_]
abbrev pub SnakeChar : Char → Type 0
SnakeChar c = InRange b'a' b'z' c ⊎ InRange b'0' b'9' c ⊎ (code c ≡ b'_')

-- [a-zA-Z0-9]
abbrev pub AlphanumericChar : Char → Type 0
AlphanumericChar c = InRange b'a' b'z' c ⊎ InRange b'A' b'Z' c ⊎ InRange b'0' b'9' c

-- [a-z][a-z0-9_]*
abbrev pub SnakeCase : String → Type 0
SnakeCase String.[] = ⊥
SnakeCase (String.◌∷◌ c s) = InRange b'a' b'z' c × AllChars SnakeChar s

-- [A-Z][a-zA-Z0-9]*
abbrev pub PascalCase : String → Type 0
PascalCase String.[] = ⊥
PascalCase (String.◌∷◌ c s) = InRange b'A' b'Z' c × AllChars AlphanumericChar s

all_chars_iff :
    (p : Char → Bool) (P : Char → Type 0)
    → ((c : Char) → (p c ≡ true) ↔ P c)
    → (s : String) → (all_chars p s ≡ true) ↔ AllChars P s
all_chars_iff p P h String.[] = (λ _. tt, λ _. refl)
all_chars_iff p P h (String.◌∷◌ c s) = elim (Bool-cases (p c)) [
  | inl t ↦ (
    λ e. ((h c).0 t, (all_chars_iff p P h s).0 (rw t at e)),
    λ (a, b). rw t ((all_chars_iff p P h s).1 b),
  )
  | inr f ↦ (λ e. cc (f, e), λ (a, b). cc (f, (h c).1 a))
]

and_iff :
    {a b : Bool} {P Q : Type 0} → (a ≡ true) ↔ P → (b ≡ true) ↔ Q → ((a && b) ≡ true) ↔ (P × Q)
and_iff {a = true} p q = (λ e. (p.0 refl, q.0 e), λ (x, y). q.1 y)
and_iff {a = false} p q = (λ e. cc, λ (x, y). cc (p.1 x))

snake_cases : (c : Char) → snake_char c ≡ true → SnakeChar c
snake_cases c h = elim (Bool-cases (is_ascii_lowercase c)) [
  | inl a ↦ inl (ground arith)
  | inr a ↦ elim (Bool-cases (is_ascii_digit c)) [
    | inl b ↦ inr (inl (ground arith))
    | inr b ↦ inr (inr (ground arith))
  ]
]

snake_char_iff : (c : Char) → (snake_char c ≡ true) ↔ SnakeChar c
snake_char_iff c = (λ h. snake_cases c h, λ h. ground arith)

lowercase_iff : (c : Char) → (is_ascii_lowercase c ≡ true) ↔ InRange b'a' b'z' c
lowercase_iff c = ground arith

uppercase_iff : (c : Char) → (is_ascii_uppercase c ≡ true) ↔ InRange b'A' b'Z' c
uppercase_iff c = ground arith

alphanumeric_cases : (c : Char) → is_ascii_alphanumeric c ≡ true → AlphanumericChar c
alphanumeric_cases c h = elim (Bool-cases (is_ascii_lowercase c)) [
  | inl a ↦ inl (ground arith)
  | inr a ↦ elim (Bool-cases (is_ascii_uppercase c)) [
    | inl b ↦ inr (inl (ground arith))
    | inr b ↦ inr (inr (ground arith))
  ]
]

alphanumeric_iff : (c : Char) → (is_ascii_alphanumeric c ≡ true) ↔ AlphanumericChar c
alphanumeric_iff c = (λ h. alphanumeric_cases c h, λ h. ground arith)

is_snake_case_iff : (s : String) → (is_snake_case s ≡ true) ↔ SnakeCase s
unfolding is_snake_case
is_snake_case_iff String.[] = (λ h. cc, λ h. absurd h)
is_snake_case_iff (String.◌∷◌ c s) =
    and_iff (lowercase_iff c) (all_chars_iff snake_char SnakeChar snake_char_iff s)

is_pascal_case_iff : (s : String) → (is_pascal_case s ≡ true) ↔ PascalCase s
unfolding is_pascal_case
is_pascal_case_iff String.[] = (λ h. cc, λ h. absurd h)
is_pascal_case_iff (String.◌∷◌ c s) =
    and_iff (uppercase_iff c)
      (all_chars_iff is_ascii_alphanumeric AlphanumericChar alphanumeric_iff s)

find_none_iff :
    (s : String) (rs : List String)
    → (is_some (find (λ r. r == s) rs) ≡ false) ↔ All (λ r. r ≢ s) rs
find_none_iff s [] = (λ _. tt, λ _. refl)
find_none_iff s (r ∷ rs) = elim (Bool-cases (r == s)) [
  | inl e ↦ (λ h. cc (rw e at h), λ (n, ns). absurd (n ((eq_iff r s).0 e)))
  | inr e ↦ (
    λ h. (λ p. cc (e, (eq_iff r s).1 p), (find_none_iff s rs).0 (rw e at h)),
    λ (n, ns). rw e ((find_none_iff s rs).1 ns),
  )
]

not_reserved_field :
    (s : String)
    → (is_some (find_reserved_field_name s) ≡ false) ↔ All (λ r. r ≢ s) reserved_field_names
unfolding find_reserved_field_name
not_reserved_field s = find_none_iff s reserved_field_names

not_reserved_schema :
    (s : String)
    → (is_some (find_reserved_schema_name s) ≡ false) ↔ All (λ r. r ≢ s) reserved_schema_names
unfolding find_reserved_schema_name
not_reserved_schema s = find_none_iff s reserved_schema_names

checked :
    {shape reserved : Bool} {P Q : Type 0} {s n : String} (d e : SchemaError)
    → (shape ≡ true) ↔ P
    → (reserved ≡ false) ↔ Q
    → ((if shape then if reserved then err d else ok s else err e) ≡ ok n) ↔ ((n ≡ s) × P × Q)
checked {shape = true} {reserved = true} d e p q = (λ h. cc, λ (a, b, c). cc (q.1 c))
checked {shape = true} {reserved = false} d e p q =
    (λ h. (ground arith, p.0 refl, q.0 refl), λ (a, b, c). ap ok (sym a))
checked {shape = false} d e p q = (λ h. cc, λ (a, b, c). cc (p.1 b))

-- A text becomes a field name exactly if it is in snake case, `[a-z][a-z0-9_]*`, and no keyword of the
-- policy grammar; the name is the text itself.
pub field_name_new_iff :
    (s n : String)
    → (field_name_new s ≡ ok n) ↔ ((n ≡ s) × SnakeCase s × All (λ r. r ≢ s) reserved_field_names)
unfolding field_name_new
field_name_new_iff s n = checked _ _ (is_snake_case_iff s) (not_reserved_field s)

-- A text becomes a schema name exactly if it is in pascal case, `[A-Z][a-zA-Z0-9]*`, and none of the
-- reserved `Forge`, `SchemaForge`, `Principal` and `Cedar`; the name is the text itself.
pub schema_name_new_iff :
    (s n : String)
    → (schema_name_new s ≡ ok n) ↔ ((n ≡ s) × PascalCase s × All (λ r. r ≢ s) reserved_schema_names)
unfolding schema_name_new
schema_name_new_iff s n = checked _ _ (is_pascal_case_iff s) (not_reserved_schema s)
