-- ===== src/Migration/Hooks.antt =====
-- The hook steps of crates/schema-forge-core/src/migration.rs as changes of the declared hooks.
use schemaforge.Prelude.{
  String, Bool, false, ◌||◌, Option, none, some, List, [], ◌∷◌, ◌==◌, if◌then◌else◌,
}
use schemaforge.Core.Tokens.Lifecycle.{HookEvent}
use schemaforge.Core.Value.{Externals}
use schemaforge.Migration.Step.{MigrationStep, add_hook, remove_hook, change_hook_intent}
use schemaforge.Migration.Diff.Hooks.{HookMap, same_event}

abbrev set_hook : HookEvent → Option String → HookMap → HookMap
set_hook event o m e = if same_event event e then o else m e

-- What a step means for the hooks that the table's services know.
abbrev apply_hook : {X : Externals} → MigrationStep X → HookMap → HookMap
apply_hook (add_hook event intent) m = set_hook event (some intent) m
apply_hook (remove_hook event) m = set_hook event none m
apply_hook (change_hook_intent event old_intent new_intent) m = set_hook event (some new_intent) m
apply_hook _ m = m

pub apply_hooks : {X : Externals} → List (MigrationStep X) → HookMap → HookMap
apply_hooks [] m = m
apply_hooks (s ∷ ss) m = apply_hooks ss (apply_hook s m)

abbrev member : HookEvent → List HookEvent → Bool
member e [] = false
member e (x ∷ xs) = same_event x e || member e xs

abbrev on_declared : Option String → Option String → Option String → Option String
on_declared o none c = c
on_declared none (some n) c = some n
on_declared (some o) (some n) c = if o == n then c else some n

abbrev on_dropped : Option String → Option String → Option String → Option String
on_dropped none n c = c
on_dropped (some o) none c = none
on_dropped (some o) (some n) c = c
