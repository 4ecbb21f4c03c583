-- ===== src/Text/Laws.antt =====
-- Laws of texts: equality, stripping, upper case and prefixes.
use mathlib.Core.List.{reverse, reverse-append, reverse-reverse}
use xrpl_mpp_stack.Prelude.{
  ℕ, suc, ◌≤◌, ◌≡◌, ◌↔◌, refl, sym, ◌∙◌, ap, Bool, true, false, ◌&&◌, not, [], ◌∷◌, ◌++◌, arith,
  subst, length, drop, all, Bool-cases, inl, inr, and-eq-true,
}
use xrpl_mpp_stack.Text.{
  Text, text_eq, is_empty, is_digit, is_hex, is_space, upper, upper_code, strip, strip_left,
  starts_with, replace_first,
}

pub text_eq_refl : (s : Text) → text_eq s s ≡ true
unfolding text_eq
text_eq_refl [] = refl
text_eq_refl (c ∷ s) = ground (arith, text_eq_refl s)

pub text_eq→eq : (s t : Text) → text_eq s t ≡ true → s ≡ t
unfolding text_eq
text_eq→eq [] [] h = refl
text_eq→eq [] (d ∷ t) h = cc
text_eq→eq (c ∷ s) [] h = cc
text_eq→eq (c ∷ s) (d ∷ t) h = ground (arith, text_eq→eq s t)

pub text_eq_iff : (s t : Text) → (text_eq s t ≡ true) ↔ (s ≡ t)
text_eq_iff s t = (text_eq→eq s t, λ e. rw e (text_eq_refl t))

-- Texts of characters that are no spaces are left alone by `strip`.
strip_left-of_solid : (s : Text) → all (λ c. not (is_space c)) s ≡ true → strip_left s ≡ s
unfolding strip_left
strip_left-of_solid [] h = refl
strip_left-of_solid (c ∷ s) h = ground arith

all-append : (p : ℕ → Bool) (s t : Text) → all p (s ++ t) ≡ (all p s && all p t)
all-append p [] t = refl
all-append p (c ∷ s) t = ground (arith, all-append p s t)

all-reverse : (p : ℕ → Bool) (s : Text) → all p (reverse s) ≡ all p s
all-reverse p [] = refl
all-reverse p (c ∷ s) =
    rw (reverse-append (c ∷ []) s)
      (rw (all-append p (reverse s) (c ∷ [])) (ground (arith, all-reverse p s)))

pub strip-of_solid : (s : Text) → all (λ c. not (is_space c)) s ≡ true → strip s ≡ s
unfolding strip
strip-of_solid s h =
    rw (strip_left-of_solid s h)
      (rw (strip_left-of_solid (reverse s) (all-reverse _ s ∙ h)) (reverse-reverse s))

-- `strip` is idempotent: what it leaves begins and ends with no space.
length-strip_left-le : (s : Text) → length (strip_left s) ≤ length s
unfolding strip_left
length-strip_left-le [] = omega arith
length-strip_left-le (c ∷ s) = ground (arith, length-strip_left-le s)

strip_left_idem : (s : Text) → strip_left (strip_left s) ≡ strip_left s
unfolding strip_left
strip_left_idem [] = refl
strip_left_idem (c ∷ s) = elim (Bool-cases (is_space c)) [
  | inl space ↦ rw space (strip_left_idem s)
  | inr solid ↦ ground arith
]

head_solid : (c : ℕ) (s : Text) → strip_left (c ∷ s) ≡ c ∷ s → is_space c ≡ false
unfolding strip_left
head_solid c s h = elim (Bool-cases (is_space c)) [
  | inl space ↦ absurd (omega (arith, length-strip_left-le s, ap length (shorter space)))
  | inr solid ↦ solid
]
  where
    shorter : is_space c ≡ true → strip_left s ≡ c ∷ s
    shorter e = rw e at h

strip_left-prefix : (u v : Text) → strip_left (u ++ v) ≡ u ++ v → strip_left u ≡ u
unfolding strip_left
strip_left-prefix [] v h = refl
strip_left-prefix (c ∷ u) v h = rw (head_solid c (u ++ v) h)

strip_left-suffix : (s : Text) → (w : Text) × (s ≡ w ++ strip_left s)
unfolding strip_left
strip_left-suffix [] = ([], refl)
strip_left-suffix (c ∷ s) = elim (Bool-cases (is_space c)) [
  | inl space ↦ let (w, e) = strip_left-suffix s in (c ∷ w, rw space (ap (λ t. c ∷ t) e))
  | inr solid ↦ ([], rw solid)
]

pub strip_idem : (s : Text) → strip (strip s) ≡ strip s
unfolding strip
strip_idem s =
    let t : Text = strip_left s in
    let b : Text = strip_left (reverse t) in
    let (w, e) = strip_left-suffix (reverse t) in
    let split : t ≡ reverse b ++ reverse w =
      sym (reverse-reverse t) ∙ (ap reverse e ∙ reverse-append w b) in
    let front : strip_left (reverse b) ≡ reverse b =
      strip_left-prefix (reverse b) (reverse w)
        (subst (λ x. strip_left x ≡ x) split (strip_left_idem s)) in
    rw front (rw (reverse-reverse b) (rw (strip_left_idem (reverse t))))

hex_solid : (c : ℕ) → is_hex c ≡ true → not (is_space c) ≡ true
hex_solid c h = ground arith

all-imp :
    (p q : ℕ → Bool)
    → ((c : ℕ) → p c ≡ true → q c ≡ true)
    → (s : Text) → all p s ≡ true
    → all q s ≡ true
all-imp p q f [] h = refl
all-imp p q f (c ∷ s) h =
    let (h0, h1) = and-eq-true (p c) (all p s) h in rw (f c h0) (all-imp p q f s h1)

pub strip-of_hex : (s : Text) → all is_hex s ≡ true → strip s ≡ s
strip-of_hex s h = strip-of_solid s (all-imp _ _ hex_solid s h)

digit_hex : (c : ℕ) → is_digit c ≡ true → is_hex c ≡ true
digit_hex c h = ground arith

pub strip-of_digits : (s : Text) → all is_digit s ≡ true → strip s ≡ s
strip-of_digits s h = strip-of_hex s (all-imp _ _ digit_hex s h)

-- Upper case.
pub upper_idem : (s : Text) → upper (upper s) ≡ upper s
unfolding upper
upper_idem [] = refl
upper_idem (c ∷ s) = rw (upper_idem s) (ground arith)

pub length-upper : (s : Text) → length (upper s) ≡ length s
unfolding upper
length-upper [] = refl
length-upper (c ∷ s) = ap suc (length-upper s)

upper_code_hex : (c : ℕ) → is_hex c ≡ true → is_hex (upper_code c) ≡ true
upper_code_hex c h = ground arith

pub upper-hex : (s : Text) → all is_hex s ≡ true → all is_hex (upper s) ≡ true
unfolding upper
upper-hex [] h = refl
upper-hex (c ∷ s) h =
    let (h0, h1) = and-eq-true (is_hex c) (all is_hex s) h in
    rw (upper_code_hex c h0) (upper-hex s h1)

pub is_empty-upper : (s : Text) → is_empty (upper s) ≡ is_empty s
unfolding upper
is_empty-upper [] = refl
is_empty-upper (c ∷ s) = refl

-- Prefixes.
pub starts_with-append : (p s : Text) → starts_with p (p ++ s) ≡ true
unfolding starts_with
starts_with-append [] s = refl
starts_with-append (c ∷ p) s = ground (arith, starts_with-append p s)

drop-append : (p s : Text) → drop (length p) (p ++ s) ≡ s
drop-append [] s = refl
drop-append (c ∷ p) s = drop-append p s

-- Replacing what a text begins with puts the new prefix in its place.
pub replace_first-prefix :
    (c : ℕ) (p new s : Text) → replace_first (c ∷ p) new ((c ∷ p) ++ s) ≡ new ++ s
unfolding replace_first
replace_first-prefix c p new s = rw (starts_with-append (c ∷ p) s) (rw (drop-append p s))
