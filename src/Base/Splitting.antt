-- ===== src/Base/Splitting.antt =====
-- `str.split(",")`, `str.strip()` and `in` on texts.
use Prim.Native.Char.{Char, code}
use frappe_dsc.Base.Tests.{leb, eqb, is_some, if◌then◌else◌}
use Prim.Native.Nat.{ℕ}
use Prim.Native.String.{String}
use mathlib.Core.Bool.{Bool, true, false, ◌&&◌, ◌||◌}
use mathlib.Core.List.{List, [], ◌∷◌, map}
use text.Mathlib.Text.{◌==◌, find?}

add_char : Bool → Char → List String → List String
add_char true c parts = "" ∷ parts
add_char false c [] = String.◌∷◌ c "" ∷ []
add_char false c (p ∷ rest) = String.◌∷◌ c p ∷ rest

-- `text.split(sep)` for a separator of one character, given by its code point.
unfoldable pub split_on : ℕ → String → List String
unfolding add_char
split_on sep String.[] = "" ∷ []
split_on sep (String.◌∷◌ c s) = add_char (eqb (code c) sep) c (split_on sep s)

-- The white space that `str.strip` removes.
is_space : ℕ → Bool
is_space c =
    leb 9 c && leb c 13
    || leb 28 c && leb c 32
    || eqb c 133
    || eqb c 160
    || eqb c 5760
    || leb 8192 c && leb c 8202
    || eqb c 8232
    || eqb c 8233
    || eqb c 8239
    || eqb c 8287
    || eqb c 12288

strip_left : String → String
strip_left String.[] = ""
strip_left (String.◌∷◌ c s) = if is_space (code c) then strip_left s else String.◌∷◌ c s

strip_right : String → String
strip_right String.[] = ""
strip_right (String.◌∷◌ c s) =
    let rest = strip_right s in if is_space (code c) && rest == "" then "" else String.◌∷◌ c rest

unfoldable pub strip : String → String
unfolding is_space strip_left strip_right
strip t = strip_right (strip_left t)

-- `[v.strip() for v in text.split(",")]`
unfoldable pub comma_values : String → List String
unfolding split_on strip
comma_values t = map strip (split_on b',' t)

-- `part in text`
unfoldable pub has_part : String → String → Bool
has_part part t = is_some (find? t part)
