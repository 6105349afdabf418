-- ===== src/Core/Text.antt =====
-- The functions of std on texts that several parts use.
use Prim.Native.Char.{Char, code}
use schemaforge.Prelude.{String, Bool, ◌&&◌, ◌||◌, ◌==◌, leb, eqb, if◌then◌else◌}
use schemaforge.Core.Names.{exchange, upper_case, lower_case}

-- `char::is_whitespace`
abbrev pub is_whitespace : Char → Bool
is_whitespace c =
    let n = code c in
    (leb 9 n && leb n 13)
    || eqb n 32
    || eqb n 133
    || eqb n 160
    || eqb n 5760
    || (leb 8192 n && leb n 8202)
    || eqb n 8232
    || eqb n 8233
    || eqb n 8239
    || eqb n 8287
    || eqb n 12288

unfoldable pub trim_start : String → String
trim_start String.[] = String.[]
trim_start (String.◌∷◌ c s) = if is_whitespace c then trim_start s else String.◌∷◌ c s

unfoldable pub trim_end : String → String
trim_end String.[] = String.[]
trim_end (String.◌∷◌ c s) =
    let rest = trim_end s in
    if is_whitespace c && (rest == "") then String.[] else String.◌∷◌ c rest

unfoldable pub trim : String → String
unfolding trim_start trim_end
trim s = trim_end (trim_start s)

unfoldable pub to_ascii_uppercase : String → String
to_ascii_uppercase String.[] = String.[]
to_ascii_uppercase (String.◌∷◌ c s) =
    String.◌∷◌ (exchange c lower_case upper_case) (to_ascii_uppercase s)
