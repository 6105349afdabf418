-- ===== src/Migration/Loops.antt =====
-- What a loop over the fields of a schema does to a table, if each round touches its own column only.
use schemaforge.Prelude.{
  Option, none, some, List, [], ◌∷◌, ◌++◌, ◌≡◌, refl, ap, ◌==◌, eq_iff, arith, for_each,
  if◌then◌else◌,
}
use schemaforge.Core.Names.{FieldName}
use schemaforge.Core.Schema.{FieldDefinition, find_field}
use schemaforge.Core.Schema.Unique.{UniqueNames}
use schemaforge.Core.Value.{Externals}
use schemaforge.Migration.Step.{MigrationStep}
use schemaforge.Migration.Effect.{Cell, Table, apply_all, apply_all-append}

-- The steps change only the column `name`, and by `eff`.
pub record IsLocal {X : Externals} (name : FieldName) (steps : List (MigrationStep X))
    (eff : Cell → Cell) : Type 0 where
  pub at :
      (t : Table) (m : FieldName) → apply_all steps t m ≡ (if name == m then eff (t m) else t m)

pub IsLocal-append :
    {X : Externals} {name : FieldName} {xs ys : List (MigrationStep X)} {f g : Cell → Cell}
    → IsLocal name xs f
    → IsLocal name ys g
    → IsLocal name (xs ++ ys) (λ c. g (f c))
IsLocal-append {xs} {ys} hx hy = record {
  at = λ t m. ground (arith, apply_all-append xs ys t, hx.at t m, hy.at (apply_all xs t) m);
}

abbrev pub on_found : (FieldDefinition → Cell → Cell) → Option FieldDefinition → Cell → Cell
on_found eff none c = c
on_found eff (some f) c = eff f c

pub apply_all-for_each :
    {X : Externals} (emit : FieldDefinition → List (MigrationStep X))
    (eff : FieldDefinition → Cell → Cell)
    → ((f : FieldDefinition) → IsLocal f.name (emit f) (eff f))
    → (fs : List FieldDefinition) → UniqueNames fs
    → (t : Table) (m : FieldName)
    → apply_all (for_each emit fs) t m ≡ on_found eff (find_field m fs) (t m)
unfolding apply_all
apply_all-for_each emit eff loc [] u t m = refl
apply_all-for_each emit eff loc (f ∷ fs) u t m = ground (
  arith,
  ap (λ (s : Table). s m) (apply_all-append (emit f) (for_each emit fs) t),
  apply_all-for_each emit eff loc fs u.1 (apply_all (emit f) t) m,
  (loc f).at t m,
  eq_iff f.name m,
)
