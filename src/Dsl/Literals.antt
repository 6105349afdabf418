-- ===== src/Dsl/Literals.antt =====
-- The literals of crates/schema-forge-dsl/src/parser.rs: quoted texts, integers and sizes, with std's
-- `parse::<u32>`, `parse::<u64>` and `parse::<i64>`.
pub mod Bounds
use Prim.Native.Char.{Char, code}
use Prim.Native.String
use schemaforge.Prelude.{
  ℕ, zero, suc, ◌+◌, ◌-◌, ◌*◌, ◌^◌, String, Bool, true, false, not, ◌&&◌, ◌||◌, Option, none, some,
  List, [], ◌∷◌, ◌==◌, leb, ltb, eqb, if◌then◌else◌,
}
use schemaforge.Prelude.Int.{ℤ, pos, negsuc}
use schemaforge.Core.Names.{
  is_ascii_digit, is_ascii_lowercase, is_ascii_uppercase, exchange, upper_case, lower_case,
}
use schemaforge.Core.Text.{trim, to_ascii_uppercase}
use schemaforge.Core.Tokens.Match.{find_arm}

-- The value of digits behind `n`; `none` where a character is no digit.
unfoldable pub parse_digits : ℕ → String → Option ℕ
parse_digits n String.[] = some n
parse_digits n (String.◌∷◌ c s) =
    let rest = parse_digits (n * 10 + (code c - b'0')) s in if is_ascii_digit c then rest else none

unfoldable pub digits_value : String → Option ℕ
unfolding parse_digits
digits_value String.[] = none
digits_value (String.◌∷◌ c s) = parse_digits 0 (String.◌∷◌ c s)

abbrev pub strip_plus : String → String
strip_plus String.[] = String.[]
strip_plus (String.◌∷◌ c s) = if eqb (code c) b'+' then s else String.◌∷◌ c s

-- A number that does not fit is the `PosOverflow` of std.
abbrev pub below : ℕ → Option ℕ → Option ℕ
below bound none = none
below bound (some n) = if ltb n bound then some n else none

-- `parse::<u32>` and `parse::<u64>`, for the width `w`
unfoldable pub parse_unsigned : ℕ → String → Option ℕ
unfolding digits_value
parse_unsigned w s = below (2 ^ w) (digits_value (strip_plus s))

abbrev pub negated : ℕ → ℤ
negated zero = pos 0
negated (suc n) = negsuc n

abbrev pub as_positive : Option ℕ → Option ℤ
as_positive none = none
as_positive (some n) = some (pos n)

abbrev pub as_negative : Option ℕ → Option ℤ
as_negative none = none
as_negative (some n) = some (negated n)

-- `parse::<i64>`
unfoldable pub parse_signed : String → Option ℤ
unfolding digits_value
parse_signed String.[] = none
parse_signed (String.◌∷◌ c s) =
    if eqb (code c) b'-'
    then as_negative (below (2 ^ 63 + 1) (digits_value s))
    else as_positive (below (2 ^ 63) (digits_value (strip_plus (String.◌∷◌ c s))))

-- A text without its first and its last character. A shorter text, on which the slice of the source would
-- panic, is no string literal of the lexer.
unfoldable pub drop_last : String → String
drop_last String.[] = String.[]
drop_last (String.◌∷◌ c s) =
    let rest = drop_last s in if s == "" then String.[] else String.◌∷◌ c rest

unfoldable pub strip_ends : String → String
unfolding drop_last
strip_ends String.[] = String.[]
strip_ends (String.◌∷◌ c s) = drop_last s

-- What is pushed for the character behind a backslash.
abbrev pub escape_sequence : Char → String
escape_sequence c =
    let n = code c in
    if eqb n b'n'
    then "\n"
    else if eqb n b't'
    then "\t"
    else if eqb n b'r'
    then "\r"
    else if eqb n b'\\'
    then "\\"
    else if eqb n b'"'
    then "\""
    else String.◌∷◌ "\\" (String.◌∷◌ c "")

-- The loop over the characters; the flag says that a backslash has been read.
unfoldable pub unescape : Bool → String → String
unescape false String.[] = String.[]
unescape true String.[] = "\\"
unescape true (String.◌∷◌ c s) = String.◌++◌ (escape_sequence c) (unescape false s)
unescape false (String.◌∷◌ c s) =
    let escaped = unescape true s in
    let plain = String.◌∷◌ c (unescape false s) in if eqb (code c) b'\\' then escaped else plain

unfoldable pub unquote_string : String → String
unfolding strip_ends unescape
unquote_string s = unescape false (strip_ends s)

unfoldable pub unquote_triple_string : String → String
unfolding strip_ends
unquote_triple_string s = strip_ends (strip_ends (strip_ends s))

abbrev pub is_ascii_alphabetic : Char → Bool
is_ascii_alphabetic c = is_ascii_lowercase c || is_ascii_uppercase c

-- `s.find(|c| c.is_ascii_alphabetic())` and `s.split_at`: the second text is empty where none is found_text.
unfoldable pub split_suffix : String → String × String
split_suffix String.[] = ("", "")
split_suffix (String.◌∷◌ c s) =
    let (number, suffix) = split_suffix s in
    if is_ascii_alphabetic c then ("", String.◌∷◌ c s) else (String.◌∷◌ c number, suffix)

abbrev pub size_units : List (String × ℕ)
size_units =
    ("B", 1)
    ∷ ("K", 1024)
    ∷ ("KB", 1024)
    ∷ ("KIB", 1024)
    ∷ ("M", 1024 ^ 2)
    ∷ ("MB", 1024 ^ 2)
    ∷ ("MIB", 1024 ^ 2)
    ∷ ("G", 1024 ^ 3)
    ∷ ("GB", 1024 ^ 3)
    ∷ ("GIB", 1024 ^ 3)
    ∷ ("T", 1024 ^ 4)
    ∷ ("TB", 1024 ^ 4)
    ∷ ("TIB", 1024 ^ 4)
    ∷ []

-- `n.checked_mul(mult)` on u64
abbrev pub checked_mul : Option ℕ → Option ℕ → Option ℕ
checked_mul (some n) (some m) = if ltb (n * m) (2 ^ 64) then some (n * m) else none
checked_mul _ _ = none

-- The text that is no bare number.
unfoldable pub with_unit : String → String → Option ℕ
unfolding trim parse_unsigned find_arm to_ascii_uppercase
with_unit number suffix =
    if (number == "") || (suffix == "")
    then none
    else checked_mul (parse_unsigned 64 (trim number))
        (find_arm (to_ascii_uppercase (trim suffix)) size_units)

abbrev pub or_else : Option ℕ → Option ℕ → Option ℕ
or_else (some n) o = some n
or_else none o = o

unfoldable pub parse_size_literal : String → Option ℕ
unfolding trim parse_unsigned with_unit split_suffix
parse_size_literal raw =
    let s = trim raw in
    let (number, suffix) = split_suffix s in
    if s == "" then none else or_else (parse_unsigned 64 s) (with_unit number suffix)
