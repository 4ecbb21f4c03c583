-- ===== src/Binding/Slots.antt =====
-- Joined slots: what the bars in them tell apart.
use xrpl_mpp_stack.Prelude.{
  ℕ, ◌+◌, ◌≡◌, refl, ap, sym, Bool, true, not, List, [], ◌∷◌, ◌++◌, ◌==◌, arith, all, length,
  append_assoc, if◌then◌else◌,
}
use xrpl_mpp_stack.Text.{Text}
use xrpl_mpp_stack.Binding.{join_bars}

abbrev bar : ℕ → ℕ
bar c = if c == 124 then 1 else 0

abbrev pub bars : Text → ℕ
bars [] = 0
bars (c ∷ s) = bar c + bars s

bars-append : (s t : Text) → bars (s ++ t) ≡ bars s + bars t
bars-append [] t = omega arith
bars-append (c ∷ s) t = omega (arith, bars-append s t)

abbrev pub total : List Text → ℕ
total [] = 0
total (s ∷ ss) = bars s + total ss

-- A join has a bar for each slot after the first, and those of the slots.
pub bars-join : (s : Text) (ss : List Text) → bars (join_bars (s ∷ ss)) ≡ length ss + total (s ∷ ss)
unfolding join_bars
bars-join s [] = omega arith
bars-join s (t ∷ ts) = omega (arith, bars-append s (124 ∷ join_bars (t ∷ ts)), bars-join t ts)

-- No bar in a slot.
abbrev pub is_plain : Text → Bool
is_plain s = all (λ c. not (c == 124)) s

pub plain-bars : (s : Text) → is_plain s ≡ true → bars s ≡ 0
plain-bars [] h = refl
plain-bars (c ∷ s) h = ground (arith, plain-bars s)

bars-plain : (s : Text) → bars s ≡ 0 → is_plain s ≡ true
bars-plain [] h = refl
bars-plain (c ∷ s) h = ground (arith, bars-plain s)

-- Up to the first bar.
split_first :
    (s s' t t' : Text)
    → bars s ≡ 0
    → bars s' ≡ 0
    → s ++ 124 ∷ t ≡ s' ++ 124 ∷ t'
    → (s ≡ s') × (t ≡ t')
split_first [] [] t t' h k e = (refl, cc)
split_first [] (d ∷ s') t t' h k e = absurd (let q : 124 ≡ d = cc in ground (arith, q, k))
split_first (c ∷ s) [] t t' h k e = absurd (let q : c ≡ 124 = cc in ground (arith, q, h))
split_first (c ∷ s) (d ∷ s') t t' h k e =
    let (p, q) = split_first s s' t t' (omega (arith, h)) (omega (arith, k)) cc in
    let r : c ≡ d = cc in (cc, q)

-- After the last bar.
pub split_last :
    (a b s s' : Text) → bars s ≡ 0 → bars s' ≡ 0 → a ++ 124 ∷ s ≡ b ++ 124 ∷ s' → s ≡ s'
split_last [] [] s s' h k e = cc
split_last [] (d ∷ b) s s' h k e =
    let q : s ≡ b ++ 124 ∷ s' = cc in absurd (omega (arith, ap bars q, bars-append b (124 ∷ s'), h))
split_last (c ∷ a) [] s s' h k e =
    let q : a ++ 124 ∷ s ≡ s' = cc in absurd (omega (arith, ap bars q, bars-append a (124 ∷ s), k))
split_last (c ∷ a) (d ∷ b) s s' h k e = split_last a b s s' h k cc

-- Joins of as many slots, none of them with a bar.
pub join_injective :
    (ss ts : List Text)
    → length ss ≡ length ts
    → total ss ≡ 0
    → total ts ≡ 0
    → join_bars ss ≡ join_bars ts
    → ss ≡ ts
unfolding join_bars
join_injective [] [] n h k e = refl
join_injective [] (t ∷ ts) n h k e = absurd (omega (arith, n))
join_injective (s ∷ ss) [] n h k e = absurd (omega (arith, n))
join_injective (s ∷ []) (t ∷ []) n h k e = ap (λ x. x ∷ []) e
join_injective (s ∷ []) (t ∷ u ∷ ts) n h k e = absurd (omega (arith, n))
join_injective (s ∷ r ∷ ss) (t ∷ []) n h k e = absurd (omega (arith, n))
join_injective (s ∷ r ∷ ss) (t ∷ u ∷ ts) n h k e =
    let (p, q) =
      split_first s t (join_bars (r ∷ ss)) (join_bars (u ∷ ts)) (omega (arith, h))
        (omega (arith, k)) e in
    let rest =
      join_injective (r ∷ ss) (u ∷ ts) (omega (arith, n)) (omega (arith, h)) (omega (arith, k)) q in
    cc

-- A join ends with a bar and the last slot.
pub join-last :
    (s : Text) (ss : List Text) (l : Text)
    → (a : Text) × (join_bars (s ∷ ss ++ l ∷ []) ≡ a ++ 124 ∷ l)
unfolding join_bars
join-last s [] l = (s, refl)
join-last s (t ∷ ts) l =
    let (a, h) = join-last t ts l in (s ++ 124 ∷ a, rw h (sym (append_assoc s (124 ∷ a) (124 ∷ l))))
