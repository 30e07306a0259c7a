-- ===== src/Base/Texts.antt =====
-- Python's texts: truth of a text that may be missing, `x or y`, slices and `str.lower`.
use Prim.Native.Nat.{ℕ, zero, suc, ◌+◌}
use Prim.Native.Char.{code}
use Prim.Native.String.{String}
use mathlib.Core.Bool.{Bool, true, false, not, ◌&&◌}
use mathlib.Core.Option.{Option, none, some}
use mathlib.Core.List.{List, [], ◌∷◌, map}
use text.Mathlib.Text.{◌==◌}
use frappe_dsc.Base.Tests.{leb, eqb, if◌then◌else◌}

-- Whether a text that may be None is true for Python: present and not empty.
abbrev pub truthy : Option String → Bool
truthy none = false
truthy (some t) = not (t == "")

-- `x or default`
abbrev pub or_text : Option String → String → String
or_text none d = d
or_text (some t) d = if t == "" then d else t

-- `x or y or default`
abbrev pub or_else : Option String → Option String → Option String
or_else a b = if truthy a then a else b

-- `x == y` where the left side may be None.
abbrev pub is_text : Option String → String → Bool
is_text none t = false
is_text (some u) t = u == t

-- The code points of a text.
abbrev pub codes : String → List ℕ
codes String.[] = []
codes (String.◌∷◌ c s) = code c ∷ codes s

-- `len(text)`
unfoldable pub text_length : String → ℕ
text_length String.[] = 0
text_length (String.◌∷◌ c s) = suc (text_length s)

-- `text[:n]`
unfoldable pub take_text : ℕ → String → String
take_text zero s = ""
take_text (suc n) String.[] = ""
take_text (suc n) (String.◌∷◌ c s) = String.◌∷◌ c (take_text n s)

-- `str.lower` on one code point, for the ASCII letters.
lower_code : ℕ → ℕ
lower_code c = if leb b'A' c && leb c b'Z' then c + 32 else c

same_codes : List ℕ → List ℕ → Bool
same_codes [] [] = true
same_codes (x ∷ xs) (y ∷ ys) = eqb x y && same_codes xs ys
same_codes _ _ = false

-- `a.lower() == b.lower()`
unfoldable pub same_lower : String → String → Bool
unfolding lower_code same_codes
same_lower a b = same_codes (map lower_code (codes a)) (map lower_code (codes b))

-- `user in users`
abbrev pub contains : List String → String → Bool
contains [] u = false
contains (x ∷ xs) u = if x == u then true else contains xs u

-- `x or default`, for a number.
abbrev pub or_num : ℕ → ℕ → ℕ
or_num n d = if eqb n 0 then d else n
