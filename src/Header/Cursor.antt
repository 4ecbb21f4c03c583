-- ===== src/Header/Cursor.antt =====
-- A position in a header value, and the scanners of helpers.py that look at one. An index into the
-- value is a cursor: what stands before it, the nearest first, and what follows.
use xrpl_mpp_stack.Prelude.{
  ℕ, zero, suc, ◌+◌, Bool, true, false, ◌&&◌, ◌||◌, not, Option, none, some, [], ◌∷◌, leb, ◌==◌,
  take, drop, if◌then◌else◌,
}
use xrpl_mpp_stack.Text.{Text, codes, text_eq, is_empty}

pub record Cursor : Type 0 where
  pub before : Text
  pub rest : Text

abbrev pub at : Text → Text → Cursor
at before rest = record { before = before; rest = rest }

-- `lower()` on ASCII letters; no other code point lowers to a letter of a scheme or of a name.
abbrev pub lower_code : ℕ → ℕ
lower_code c = if leb 65 c && leb c 90 then c + 32 else c

unfoldable pub lower : Text → Text
lower [] = []
lower (c ∷ s) = lower_code c ∷ lower s

-- The set {" ", "\t"}.
abbrev pub is_blank : ℕ → Bool
is_blank c = c == 32 || c == 9

abbrev pub is_letter : ℕ → Bool
is_letter c = leb 97 c && leb c 122 || leb 65 c && leb c 90

-- `_AUTH_PARAM_TOKEN_CHARACTERS`: the letters and digits, and !#$%&'*+-.^_`|~
abbrev pub is_token : ℕ → Bool
is_token c =
    is_letter c
    || leb 48 c && leb c 57
    || c == 33
    || leb 35 c && leb c 39
    || c == 42
    || c == 43
    || c == 45
    || c == 46
    || leb 94 c && leb c 96
    || c == 124
    || c == 126

-- `while value[index] in ...: index += 1`: what was passed, and the cursor after it.
unfoldable pub span : (ℕ → Bool) → Text → Text → Text × Cursor
span p before [] = ([], at before [])
span p before (c ∷ s) =
    let more = span p (c ∷ before) s in
    if p c then (c ∷ more.0, more.1) else ([], at before (c ∷ s))

-- `_consume_header_whitespace`
unfoldable pub skip_blanks : Cursor → Cursor
unfolding span
skip_blanks cu = (span is_blank cu.before cu.rest).1

-- The loop over the characters before a scheme: blanks, and then the start or a comma.
unfoldable pub is_boundary : Text → Bool
is_boundary [] = true
is_boundary (c ∷ s) = let more = is_boundary s in if is_blank c then more else c == 44

abbrev pub starts_blank : Text → Bool
starts_blank [] = false
starts_blank (c ∷ s) = is_blank c

abbrev pub payment_scheme : Text
payment_scheme = codes "payment"

-- `_starts_payment_scheme`
unfoldable pub starts_payment_scheme : Cursor → Bool
unfolding is_boundary lower
starts_payment_scheme cu =
    text_eq (lower (take 7 cu.rest)) payment_scheme
    && starts_blank (drop 7 cu.rest)
    && is_boundary cu.before

-- `_find_next_payment_scheme`, for which occurrences of the scheme do not overlap.
unfoldable pub find_from : Text → Text → Option Cursor
unfolding starts_payment_scheme
find_from before [] = none
find_from before (c ∷ s) =
    let later = find_from (c ∷ before) s in
    if starts_payment_scheme (at before (c ∷ s)) then some (at before (c ∷ s)) else later

unfoldable pub find_next_payment_scheme : Cursor → Option Cursor
unfolding find_from
find_next_payment_scheme cu = find_from cu.before cu.rest

-- `_starts_other_auth_scheme`: a token, then blanks, and then the end or no "=".
abbrev pub is_end_or_no_equals : Text → Bool
is_end_or_no_equals [] = true
is_end_or_no_equals (c ∷ s) = not (c == 61)

unfoldable pub starts_other_auth_scheme : Cursor → Bool
unfolding span
starts_other_auth_scheme cu =
    let (name, after) = span is_token cu.before cu.rest in
    let (blanks, next) = span is_blank after.before after.rest in
    not (is_empty name) && not (is_empty blanks) && is_end_or_no_equals next.rest

-- `index + 1`, and `index + n`, within the value.
abbrev pub pass : Cursor → Cursor
pass cu = elim (cu.rest) [ [] ↦ cu | c ∷ s ↦ at (c ∷ cu.before) s ]

unfoldable pub advance : ℕ → Cursor → Cursor
advance zero cu = cu
advance (suc n) cu = advance n (pass cu)
