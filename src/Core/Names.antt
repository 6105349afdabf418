-- ===== src/Core/Names.antt =====
-- crates/schema-forge-core/src/types: field_name.rs, schema_name.rs, cedar_reserved.rs. A name is
-- its text: the newtypes add only that every value has passed `new`.
pub mod Valid
use Prim.Native.Char.{Char, code}
use Prim.Native.String
use schemaforge.Prelude.{
  ℕ, String, Bool, true, false, Option, none, some, List, [], ◌∷◌, ◌&&◌, ◌||◌, ◌==◌, leb, eqb, find,
  is_some, if◌then◌else◌, Result, ok, err,
}
use schemaforge.Core.Error.{
  SchemaError, invalid_schema_name, invalid_field_name, reserved_schema_name, reserved_field_name,
}

abbrev pub FieldName : Type 0
FieldName = String

abbrev pub SchemaName : Type 0
SchemaName = String

-- std's `char::is_ascii_lowercase` and its siblings.
abbrev pub is_ascii_lowercase : Char → Bool
is_ascii_lowercase c = leb b'a' (code c) && leb (code c) b'z'

abbrev pub is_ascii_uppercase : Char → Bool
is_ascii_uppercase c = leb b'A' (code c) && leb (code c) b'Z'

abbrev pub is_ascii_digit : Char → Bool
is_ascii_digit c = leb b'0' (code c) && leb (code c) b'9'

abbrev pub is_ascii_alphanumeric : Char → Bool
is_ascii_alphanumeric c = is_ascii_lowercase c || is_ascii_uppercase c || is_ascii_digit c

-- `chars.all(p)`
abbrev pub all_chars : (Char → Bool) → String → Bool
all_chars p String.[] = true
all_chars p (String.◌∷◌ c s) = p c && all_chars p s

abbrev snake_char : Char → Bool
snake_char c = is_ascii_lowercase c || is_ascii_digit c || eqb (code c) b'_'

unfoldable pub is_snake_case : String → Bool
is_snake_case String.[] = false
is_snake_case (String.◌∷◌ c s) = is_ascii_lowercase c && all_chars snake_char s

unfoldable pub is_pascal_case : String → Bool
is_pascal_case String.[] = false
is_pascal_case (String.◌∷◌ c s) = is_ascii_uppercase c && all_chars is_ascii_alphanumeric s

abbrev pub reserved_schema_names : List String
reserved_schema_names = "Forge" ∷ "SchemaForge" ∷ "Principal" ∷ "Cedar" ∷ []

abbrev pub reserved_field_names : List String
reserved_field_names =
    "action" ∷ "context" ∷ "else" ∷ "false" ∷ "forbid" ∷ "has" ∷ "if" ∷ "in" ∷ "is" ∷ "like"
    ∷ "permit" ∷ "principal" ∷ "resource" ∷ "then" ∷ "true" ∷ "unless" ∷ "when" ∷ []

unfoldable pub find_reserved_schema_name : String → Option String
find_reserved_schema_name s = find (λ r. r == s) reserved_schema_names

unfoldable pub find_reserved_field_name : String → Option String
find_reserved_field_name s = find (λ r. r == s) reserved_field_names

unfoldable pub field_name_new : String → Result FieldName SchemaError
field_name_new s =
    if is_snake_case s
    then if is_some (find_reserved_field_name s) then err (reserved_field_name s) else ok s
    else err (invalid_field_name s)

unfoldable pub schema_name_new : String → Result SchemaName SchemaError
schema_name_new s =
    if is_pascal_case s
    then if is_some (find_reserved_schema_name s) then err (reserved_schema_name s) else ok s
    else err (invalid_schema_name s)

-- The character of the second text at the place that `c` has in the first, `c` where it has none.
abbrev pub exchange : Char → String → String → Char
exchange c String.[] ls = c
exchange c (String.◌∷◌ u us) String.[] = c
exchange c (String.◌∷◌ u us) (String.◌∷◌ l ls) =
    if eqb (code c) (code u) then l else exchange c us ls

abbrev pub upper_case : String
upper_case = "ABCDEFGHIJKLMNOPQRSTUVWXYZ"

abbrev pub lower_case : String
lower_case = "abcdefghijklmnopqrstuvwxyz"
