-- ===== src/Text/Decimal.antt =====
-- Decimal numerals: `int(text)` and `str(number)`.
use native.Mathlib.Nat.{pow-suc}
use xrpl_mpp_stack.Prelude.{
  ℕ, zero, suc, ◌+◌, ◌-◌, ◌*◌, ◌/◌, ◌%◌, ◌^◌, ◌≤◌, ◌<◌, ◌≡◌, refl, Bool, true, [], ◌∷◌, ◌++◌, arith,
  ltb, length, length-append, all, Bool-cases, inl, inr, and-eq-true, if◌then◌else◌,
}
use xrpl_mpp_stack.Text.{Text, is_digit}

-- `int` of a text of digits, from the left.
int_from : ℕ → Text → ℕ
int_from acc [] = acc
int_from acc (c ∷ s) = int_from (acc * 10 + (c - 48)) s

unfoldable pub int_of : Text → ℕ
unfolding int_from
int_of s = int_from 0 s

-- `str` of a number: the digits of `n`, on fuel.
render : ℕ → ℕ → Text
render zero n = []
render (suc f) n =
    let rest = render f (n / 10) ++ (48 + n % 10) ∷ [] in if ltb n 10 then (48 + n) ∷ [] else rest

unfoldable pub str_of : ℕ → Text
unfolding render
str_of n = render (suc n) n

int_from-append :
    (acc c : ℕ) (s : Text) → int_from acc (s ++ c ∷ []) ≡ int_from acc s * 10 + (c - 48)
unfolding int_from
int_from-append acc c [] = refl
int_from-append acc c (d ∷ s) = int_from-append (acc * 10 + (d - 48)) c s

int_from-render : (f n : ℕ) → n < f → int_from 0 (render f n) ≡ n
unfolding render int_from
int_from-render zero n h = elim h [ ]
int_from-render (suc f) n h = elim (Bool-cases (ltb n 10)) [
  | inl small ↦ rw small (omega arith)
  | inr large ↦ rw large (
      rw (int_from-append 0 (48 + n % 10) (render f (n / 10)))
        (rw (int_from-render f (n / 10) (ground arith)) (omega arith)))
]

-- Reading back what `str` prints gives the number.
pub int_of-str_of : (n : ℕ) → int_of (str_of n) ≡ n
unfolding int_of str_of
int_of-str_of n = int_from-render (suc n) n (omega arith)

all-append : (p : ℕ → Bool) (s t : Text) → all p s ≡ true → all p t ≡ true → all p (s ++ t) ≡ true
all-append p [] t h k = k
all-append p (c ∷ s) t h k = ground (arith, all-append p s t)

render-digits : (f n : ℕ) → all is_digit (render f n) ≡ true
unfolding render
render-digits zero n = refl
render-digits (suc f) n = elim (Bool-cases (ltb n 10)) [
  | inl small ↦ rw small (ground arith)
  | inr large ↦ rw large (
      all-append is_digit (render f (n / 10)) ((48 + n % 10) ∷ []) (render-digits f (n / 10))
        (ground arith))
]

pub str_of-digits : (n : ℕ) → all is_digit (str_of n) ≡ true
unfolding str_of
str_of-digits n = render-digits (suc n) n

render-pos : (f n : ℕ) → 0 < f → 0 < length (render f n)
unfolding render
render-pos zero n h = h
render-pos (suc f) n h = elim (Bool-cases (ltb n 10)) [
  | inl small ↦ rw small (omega arith)
  | inr large ↦ rw large (omega (arith, length-append {0} (render f (n / 10)) ((48 + n % 10) ∷ [])))
]

pub str_of-pos : (n : ℕ) → 0 < length (str_of n)
unfolding str_of
str_of-pos n = render-pos (suc n) n (omega arith)

digit-le : (c : ℕ) → is_digit c ≡ true → c - 48 ≤ 9
digit-le c h = ground arith

-- A number below 10 ^ k prints in at most k digits.
length-render : (f n k : ℕ) → n < 10 ^ suc k → length (render f n) ≤ suc k
unfolding render
length-render zero n k h = omega arith
length-render (suc f) n zero h = elim (Bool-cases (ltb n 10)) [
  | inl small ↦ rw small (omega arith)
  | inr large ↦ absurd (ground arith)
]
length-render (suc f) n (suc k) h = elim (Bool-cases (ltb n 10)) [
  | inl small ↦ rw small (omega arith)
  | inr large ↦ rw large (
      omega (
        arith,
        length-append {0} (render f (n / 10)) ((48 + n % 10) ∷ []),
        length-render f (n / 10) k (omega (arith, pow-suc 10 (suc k))),
      ))
]

scale-le : (a d p : ℕ) → d ≤ 9 → (a * 10 + d + 1) * p ≤ (a + 1) * (p * 10)
scale-le a d p h = grind arith

-- A text of k digits reads as a number below 10 ^ k, above what stands before it.
int_from-lt :
    (acc : ℕ) (s : Text) → all is_digit s ≡ true → int_from acc s < (acc + 1) * 10 ^ length s
unfolding int_from
int_from-lt acc [] h = omega arith
int_from-lt acc (c ∷ s) h =
    let (digit, rest) = and-eq-true (is_digit c) (all is_digit s) h in
    rw (pow-suc 10 (length s)) (
      omega (
        arith,
        int_from-lt (acc * 10 + (c - 48)) s rest,
        scale-le acc (c - 48) (10 ^ length s) (digit-le c digit),
      ))

-- What `str` prints for a number that was read is no longer than what was read.
pub length-str_of-int_of :
    (s : Text) → all is_digit s ≡ true → 0 < length s → length (str_of (int_of s)) ≤ length s
unfolding str_of int_of
length-str_of-int_of [] h p = elim p [ ]
length-str_of-int_of (c ∷ s) h p =
    length-render (suc (int_of (c ∷ s))) (int_of (c ∷ s)) (length s)
      (omega (arith, int_from-lt 0 (c ∷ s) h))
