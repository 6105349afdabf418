-- ===== src/Core/Tokens/Match.antt =====
-- A Rust `match` on a text with constant arms, as the `from_str` of the vocabularies have it.
use schemaforge.Prelude.{String, List, [], ◌∷◌, Option, none, some, ◌==◌, if◌then◌else◌}

-- A `match` on a text: the first arm whose text is equal.
unfoldable pub find_arm : {A : Type 0} → String → List (String × A) → Option A
find_arm s [] = none
find_arm s ((t, x) ∷ arms) = if s == t then some x else find_arm s arms
