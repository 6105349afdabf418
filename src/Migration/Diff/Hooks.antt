-- ===== src/Migration/Diff/Hooks.antt =====
-- crates/schema-forge-core/src/migration.rs, `DiffEngine`: `diff_hooks`.
use schemaforge.Prelude.{
  String, Bool, Option, none, some, List, [], ◌∷◌, ◌++◌, ◌==◌, for_each, is_yes, if◌then◌else◌,
}
use schemaforge.Core.Annotation.{Annotation, hook}
use schemaforge.Core.Schema.{SchemaDefinition}
use schemaforge.Core.Tokens.Lifecycle.{HookEvent, all_hook}
use schemaforge.Core.Value.{Externals}
use schemaforge.Migration.Step.{MigrationStep, add_hook, remove_hook, change_hook_intent}

-- `==` of two events.
abbrev pub HookEvent-discrete : Discrete HookEvent
HookEvent-discrete = hlevel

abbrev pub same_event : HookEvent → HookEvent → Bool
same_event a b = is_yes (HookEvent-discrete a b)

-- A `BTreeMap` from events to intents, as a function: its keys are visited in the order of `all_hook`.
abbrev pub HookMap : Type 0
HookMap = HookEvent → Option String

unfoldable pub insert_hook : HookEvent → String → HookMap → HookMap
insert_hook event intent m e = if same_event event e then some intent else m e

-- The loop over the annotations: a later hook on an event overwrites an earlier one.
unfoldable pub hook_map : HookMap → List Annotation → HookMap
unfolding insert_hook
hook_map m [] = m
hook_map m (hook event intent ∷ annotations) = hook_map (insert_hook event intent m) annotations
hook_map m (_ ∷ annotations) = hook_map m annotations

module _ {X : Externals} where
  unfoldable pub declared_steps : HookEvent → Option String → Option String → List (MigrationStep X)
  declared_steps event old_intent none = []
  declared_steps event none (some intent) = add_hook event intent ∷ []
  declared_steps event (some old_intent) (some new_intent) =
      if old_intent == new_intent then [] else change_hook_intent event old_intent new_intent ∷ []

  unfoldable pub dropped_steps : HookEvent → Option String → Option String → List (MigrationStep X)
  dropped_steps event none new_intent = []
  dropped_steps event (some old_intent) none = remove_hook event ∷ []
  dropped_steps event (some old_intent) (some new_intent) = []

  unfoldable pub diff_hooks : SchemaDefinition → SchemaDefinition → List (MigrationStep X)
  unfolding declared_steps dropped_steps hook_map
  diff_hooks old new =
      let old_map = hook_map (λ _. none) old.annotations in
      let new_map = hook_map (λ _. none) new.annotations in
      for_each (λ e. declared_steps e (old_map e) (new_map e)) all_hook
      ++ for_each (λ e. dropped_steps e (old_map e) (new_map e)) all_hook
