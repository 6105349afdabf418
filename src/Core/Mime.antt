-- ===== src/Core/Mime.antt =====
-- `MimePattern` of crates/schema-forge-core/src/types/file_constraints.rs.
use Prim.Native.Char.{Char, code}
use Prim.Native.String
use schemaforge.Prelude.{
  String, Bool, false, ◌||◌, Option, none, some, ◌==◌, eqb, if◌then◌else◌, Result, ok, err,
}
use schemaforge.Core.Error.{SchemaError, invalid_mime_pattern}
use schemaforge.Core.Constraints.{MimePattern, exact, family}
use schemaforge.Core.Text.{trim, to_ascii_uppercase}

abbrev pub prepend : Char → Option (String × String) → Option (String × String)
prepend c none = none
prepend c (some (kind, subtype)) = some (String.◌∷◌ c kind, subtype)

-- std's `s.split_once('/')`
unfoldable pub split_slash : String → Option (String × String)
split_slash String.[] = none
split_slash (String.◌∷◌ c s) =
    let later = prepend c (split_slash s) in if eqb (code c) b'/' then some ("", s) else later

abbrev pub join_slash : String → String → String
join_slash kind subtype = String.◌++◌ kind (String.◌∷◌ "/" subtype)

abbrev pub from_parts : String → Option (String × String) → Result MimePattern SchemaError
from_parts raw none = err (invalid_mime_pattern raw)
from_parts raw (some (kind, subtype)) =
    if (kind == "") || (subtype == "")
    then err (invalid_mime_pattern raw)
    else if subtype == "*"
    then ok (family kind)
    else ok (exact (join_slash kind subtype))

unfoldable pub mime_parse : String → Result MimePattern SchemaError
unfolding trim split_slash
mime_parse raw =
    let trimmed = trim raw in
    if trimmed == "" then err (invalid_mime_pattern raw) else from_parts raw (split_slash trimmed)

-- std's `eq_ignore_ascii_case`
unfoldable pub eq_ignore_ascii_case : String → String → Bool
unfolding to_ascii_uppercase
eq_ignore_ascii_case a b = to_ascii_uppercase a == to_ascii_uppercase b

unfoldable pub kind_matches : String → Option (String × String) → Bool
unfolding eq_ignore_ascii_case
kind_matches prefix none = false
kind_matches prefix (some (kind, subtype)) = eq_ignore_ascii_case kind prefix

unfoldable pub mime_matches : MimePattern → String → Bool
unfolding split_slash kind_matches eq_ignore_ascii_case
mime_matches (exact m) mime = eq_ignore_ascii_case m mime
mime_matches (family prefix) mime = kind_matches prefix (split_slash mime)

-- `Display`
unfoldable pub mime_to_string : MimePattern → String
mime_to_string (exact m) = m
mime_to_string (family prefix) = join_slash prefix "*"
