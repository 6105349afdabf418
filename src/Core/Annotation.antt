-- ===== src/Core/Annotation.antt =====
-- crates/schema-forge-core/src/types/annotation.rs
use schemaforge.Prelude.{String, Option, List}
use schemaforge.Core.Names.{FieldName, SchemaName}
use schemaforge.Core.Constraints.{SchemaVersion}
use schemaforge.Core.Tokens.Lifecycle.{HookEvent}

pub data TenantKind : Type 0 where
  root : TenantKind
  child : SchemaName → TenantKind

pub data Annotation : Type 0 where
  version : SchemaVersion → Annotation
  display : FieldName → Annotation
  system : Annotation
  access : List String → List String → List String → List String → Annotation
  tenant : TenantKind → Annotation
  dashboard : List String → Option String → Option String → Option String → Annotation
  webhook : List String → Option String → Option String → Annotation
  hook : HookEvent → String → Annotation

abbrev pub hook_kind : HookEvent → String
hook_kind HookEvent.before_validate = "hook:before_validate"
hook_kind HookEvent.before_change = "hook:before_change"
hook_kind HookEvent.after_change = "hook:after_change"
hook_kind HookEvent.before_read = "hook:before_read"
hook_kind HookEvent.after_read = "hook:after_read"
hook_kind HookEvent.before_delete = "hook:before_delete"
hook_kind HookEvent.after_delete = "hook:after_delete"
hook_kind HookEvent.before_upload = "hook:before_upload"
hook_kind HookEvent.after_upload = "hook:after_upload"
hook_kind HookEvent.on_scan_complete = "hook:on_scan_complete"

-- The key of the duplicate check.
unfoldable pub kind : Annotation → String
kind (version v) = "version"
kind (display f) = "display"
kind system = "system"
kind (access r w d x) = "access"
kind (tenant k) = "tenant"
kind (dashboard w l g s) = "dashboard"
kind (webhook e u s) = "webhook"
kind (hook event intent) = hook_kind event
