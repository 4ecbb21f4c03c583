-- ===== src/Text.antt =====
-- Texts as lists of code points, with the operations of Python's `str` that the stack uses.
pub mod Decimal
pub mod Laws
use Prim.Native.Char.{code}
use xrpl_mpp_stack.Prelude.{
  ℕ, zero, suc, ◌+◌, ◌-◌, ◌*◌, String, Bool, true, false, ◌&&◌, ◌||◌, not, List, [], ◌∷◌, ◌++◌, map,
  leb, ◌==◌, length, drop, all, if◌then◌else◌,
}
use mathlib.Core.List.{reverse}

abbrev pub Text : Type 0
Text = List ℕ

-- The code points of a literal.
abbrev pub codes : String → Text
codes String.[] = []
codes (String.◌∷◌ c s) = code c ∷ codes s

unfoldable pub text_eq : Text → Text → Bool
text_eq [] [] = true
text_eq [] (d ∷ t) = false
text_eq (c ∷ s) [] = false
text_eq (c ∷ s) (d ∷ t) = (c == d) && text_eq s t

-- `not value`
abbrev pub is_empty : Text → Bool
is_empty [] = true
is_empty (c ∷ s) = false

-- `c.isascii() and c.isdigit()`, the class [0-9]
abbrev pub is_digit : ℕ → Bool
is_digit c = leb 48 c && leb c 57

-- The class [0-9A-Fa-f].
abbrev pub is_hex : ℕ → Bool
is_hex c = is_digit c || leb 65 c && leb c 70 || leb 97 c && leb c 102

-- `upper` on the letters that the patterns of the schemas admit.
abbrev pub upper_code : ℕ → ℕ
upper_code c = if leb 97 c && leb c 122 then c - 32 else c

unfoldable pub upper : Text → Text
upper [] = []
upper (c ∷ s) = upper_code c ∷ upper s

-- The code points of Unicode's White_Space property.
abbrev pub is_space : ℕ → Bool
is_space c =
    leb 9 c && leb c 13
    || c == 32
    || c == 133
    || c == 160
    || c == 5760
    || leb 8192 c && leb c 8202
    || c == 8232
    || c == 8233
    || c == 8239
    || c == 8287
    || c == 12288

unfoldable pub strip_left : Text → Text
strip_left [] = []
strip_left (c ∷ s) = let rest = strip_left s in if is_space c then rest else c ∷ s

-- pydantic's `str_strip_whitespace`
unfoldable pub strip : Text → Text
unfolding strip_left
strip s = reverse (strip_left (reverse (strip_left s)))

-- `str.isspace` of a character: the separators U+001C to U+001F too.
abbrev pub is_py_space : ℕ → Bool
is_py_space c = is_space c || leb 28 c && leb c 31

unfoldable pub trim_left : (ℕ → Bool) → Text → Text
trim_left p [] = []
trim_left p (c ∷ s) = let rest = trim_left p s in if p c then rest else c ∷ s

-- `str.strip()`
unfoldable pub py_strip : Text → Text
unfolding trim_left
py_strip s = reverse (trim_left is_py_space (reverse (trim_left is_py_space s)))

-- `startswith`
unfoldable pub starts_with : Text → Text → Bool
starts_with [] s = true
starts_with (c ∷ p) [] = false
starts_with (c ∷ p) (d ∷ s) = (c == d) && starts_with p s

-- `replace(old, new, 1)`
unfoldable pub replace_first : Text → Text → Text → Text
unfolding starts_with
replace_first old new [] = if is_empty old then new else []
replace_first old new (c ∷ s) =
    let rest = replace_first old new s in
    if starts_with old (c ∷ s) then new ++ drop (length old) (c ∷ s) else c ∷ rest
