-- ===== src/Header/Quoted.antt =====
-- Lemmas on the scanners: quoted strings, tokens and blanks.
use xrpl_mpp_stack.Prelude.{
  ℕ, ◌≡◌, refl, ◌∙◌, Bool, true, false, [], ◌∷◌, ◌++◌, ◌==◌, arith, all, ok, Bool-cases, inl, inr,
  and-eq-true, if◌then◌else◌,
}
use xrpl_mpp_stack.Text.{Text}
use xrpl_mpp_stack.Header.Cursor.{at, span, skip_blanks, starts_blank}
use xrpl_mpp_stack.Header.Params.{put_front, quoted}
use xrpl_mpp_stack.Header.Challenge.{escape_header_value}

-- What the two replacements make of a character.
abbrev escape_code : ℕ → Text
escape_code c = if c == 92 then 92 ∷ 92 ∷ [] else if c == 34 then 92 ∷ 34 ∷ [] else c ∷ []

escape-cons :
    (c : ℕ) (s : Text) → escape_header_value (c ∷ s) ≡ escape_code c ++ escape_header_value s
unfolding escape_header_value
escape-cons c s = ground arith

quoted-plain :
    (b : Text) (c : ℕ) (t : Text)
    → (c == 92) ≡ false
    → (c == 34) ≡ false
    → quoted b (c ∷ t) ≡ put_front c (quoted (c ∷ b) t)
unfolding quoted
quoted-plain b c [] h k = rw k refl
quoted-plain b c (d ∷ t) h k = rw (h, k) refl

-- A quoted string is read up to its own closing quote.
pub quoted-escape :
    (v b rest : Text)
    → (b' : Text) × (quoted b (escape_header_value v ++ 34 ∷ rest) ≡ ok (v, at b' rest))
unfolding quoted
quoted-escape [] b [] = (34 ∷ b, unfold escape_header_value in refl)
quoted-escape [] b (c ∷ rest) = (34 ∷ b, unfold escape_header_value in refl)
quoted-escape (c ∷ v) b rest = elim (Bool-cases (c == 92)) [
  | inl e ↦
      let (b', h) = quoted-escape v (92 ∷ 92 ∷ b) rest in
      (b', rw (escape-cons c v, e) (rw h (ground arith)))
  | inr e ↦ elim (Bool-cases (c == 34)) [
    | inl q ↦
        let (b', h) = quoted-escape v (34 ∷ 92 ∷ b) rest in
        (b', rw (escape-cons c v, e, q) (rw h (ground arith)))
    | inr n ↦
        let (b', h) = quoted-escape v (c ∷ b) rest in
        (
          b',
          rw (escape-cons c v, e, n)
              (quoted-plain b c (escape_header_value v ++ 34 ∷ rest) e n ∙ rw h refl),
        )
  ]
]

-- A run ends at the first character outside its class.
pub span-run :
    (p : ℕ → Bool) (name b : Text) (c : ℕ) (rest : Text)
    → all p name ≡ true
    → p c ≡ false
    → (b' : Text) × (span p b (name ++ c ∷ rest) ≡ (name, at b' (c ∷ rest)))
unfolding span
span-run p [] b c rest h k = (b, rw k refl)
span-run p (d ∷ name) b c rest h k =
    let (hd, hs) = and-eq-true (p d) (all p name) h in
    let (b', e) = span-run p name (d ∷ b) c rest hs k in (b', rw (hd, e) refl)

pub skip_blanks-solid :
    (b rest : Text) → starts_blank rest ≡ false → skip_blanks (at b rest) ≡ at b rest
unfolding skip_blanks
skip_blanks-solid b [] h = refl
skip_blanks-solid b (c ∷ s) h = ground arith

pub skip_blanks-space :
    (b rest : Text) → starts_blank rest ≡ false → skip_blanks (at b (32 ∷ rest)) ≡ at (32 ∷ b) rest
unfolding skip_blanks
skip_blanks-space b [] h = refl
skip_blanks-space b (c ∷ s) h = ground arith
