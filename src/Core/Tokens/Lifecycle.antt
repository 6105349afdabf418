-- ===== src/Core/Tokens/Lifecycle.antt =====
-- The lifecycle events of annotation.rs and the file states and access kinds of file_constraints.rs
-- (crates/schema-forge-core/src/types) with their tokens.
use schemaforge.Prelude.{String, List, [], ◌∷◌, Option, Bool, true, false}
use schemaforge.Core.Constraints.{FileAccess}
use schemaforge.Core.Tokens.Match.{find_arm}

pub data HookEvent : Type 0 where
  before_validate before_change after_change before_read after_read before_delete : HookEvent
  after_delete before_upload after_upload on_scan_complete : HookEvent

-- Every variant in declaration order.
abbrev pub all_hook : List HookEvent
all_hook =
    HookEvent.before_validate ∷ HookEvent.before_change ∷ HookEvent.after_change
    ∷ HookEvent.before_read ∷ HookEvent.after_read ∷ HookEvent.before_delete
    ∷ HookEvent.after_delete ∷ HookEvent.before_upload ∷ HookEvent.after_upload
    ∷ HookEvent.on_scan_complete ∷ []

abbrev pub hook_as_str : HookEvent → String
hook_as_str HookEvent.before_validate = "before_validate"
hook_as_str HookEvent.before_change = "before_change"
hook_as_str HookEvent.after_change = "after_change"
hook_as_str HookEvent.before_read = "before_read"
hook_as_str HookEvent.after_read = "after_read"
hook_as_str HookEvent.before_delete = "before_delete"
hook_as_str HookEvent.after_delete = "after_delete"
hook_as_str HookEvent.before_upload = "before_upload"
hook_as_str HookEvent.after_upload = "after_upload"
hook_as_str HookEvent.on_scan_complete = "on_scan_complete"

abbrev pub hook_arms : List (String × HookEvent)
hook_arms =
    ("before_validate", HookEvent.before_validate)
    ∷ ("before_change", HookEvent.before_change)
    ∷ ("after_change", HookEvent.after_change)
    ∷ ("before_read", HookEvent.before_read)
    ∷ ("after_read", HookEvent.after_read)
    ∷ ("before_delete", HookEvent.before_delete)
    ∷ ("after_delete", HookEvent.after_delete)
    ∷ ("before_upload", HookEvent.before_upload)
    ∷ ("after_upload", HookEvent.after_upload)
    ∷ ("on_scan_complete", HookEvent.on_scan_complete)
    ∷ []

unfoldable pub hook_from_str : String → Option HookEvent
unfolding find_arm
hook_from_str s = find_arm s hook_arms

pub data FileStatus : Type 0 where
  pending uploaded scanning available quarantined rejected : FileStatus

-- Every variant in declaration order.
abbrev pub all_status : List FileStatus
all_status =
    FileStatus.pending ∷ FileStatus.uploaded ∷ FileStatus.scanning ∷ FileStatus.available
    ∷ FileStatus.quarantined ∷ FileStatus.rejected ∷ []

abbrev pub status_as_str : FileStatus → String
status_as_str FileStatus.pending = "pending"
status_as_str FileStatus.uploaded = "uploaded"
status_as_str FileStatus.scanning = "scanning"
status_as_str FileStatus.available = "available"
status_as_str FileStatus.quarantined = "quarantined"
status_as_str FileStatus.rejected = "rejected"

abbrev pub status_arms : List (String × FileStatus)
status_arms =
    ("pending", FileStatus.pending)
    ∷ ("uploaded", FileStatus.uploaded)
    ∷ ("scanning", FileStatus.scanning)
    ∷ ("available", FileStatus.available)
    ∷ ("quarantined", FileStatus.quarantined)
    ∷ ("rejected", FileStatus.rejected)
    ∷ []

unfoldable pub status_from_str : String → Option FileStatus
unfolding find_arm
status_from_str s = find_arm s status_arms

-- Every variant in declaration order.
abbrev pub all_access : List FileAccess
all_access = FileAccess.presigned ∷ FileAccess.proxied ∷ []

abbrev pub access_as_str : FileAccess → String
access_as_str FileAccess.presigned = "presigned"
access_as_str FileAccess.proxied = "proxied"

abbrev pub access_arms : List (String × FileAccess)
access_arms = ("presigned", FileAccess.presigned) ∷ ("proxied", FileAccess.proxied) ∷ []

unfoldable pub access_from_str : String → Option FileAccess
unfolding find_arm
access_from_str s = find_arm s access_arms

unfoldable pub is_blocking : HookEvent → Bool
is_blocking HookEvent.before_validate = true
is_blocking HookEvent.before_change = true
is_blocking HookEvent.before_read = true
is_blocking HookEvent.before_delete = true
is_blocking HookEvent.before_upload = true
is_blocking _ = false
