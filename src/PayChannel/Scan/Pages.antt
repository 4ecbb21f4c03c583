-- ===== src/PayChannel/Scan/Pages.antt =====
-- A caller of `scan` that follows its cursors from 0.
use xrpl_mpp_stack.Prelude.{
  ℕ, zero, suc, ◌+◌, ◌-◌, ◌≤◌, ◌<◌, ◌≡◌, refl, sym, ap, ◌∙◌, false, Option, none, some, List, [],
  ◌∷◌, ◌++◌, ltb, ◌==◌, length, take, drop, min, arith, length-drop, take-append-drop, Bool-cases,
  inl, inr, if◌then◌else◌, Result, ok, err,
}
use xrpl_mpp_stack.Schema.{Network}
use xrpl_mpp_stack.PayChannel.Record.{PayChannelRecord}
use xrpl_mpp_stack.PayChannel.Store.{PayChannelStore}
use xrpl_mpp_stack.PayChannel.Scan.{Page, page_of, scan, network_records}

abbrev pub prepend :
    List PayChannelRecord → Option (List PayChannelRecord) → Option (List PayChannelRecord)
prepend front none = none
prepend front (some rest) = some (front ++ rest)

-- A caller that follows the cursors until one is 0, on fuel; `none` means that the fuel ran out
-- or the scan was refused.
unfoldable pub follow :
    (ℕ → Option (List PayChannelRecord))
    → Result (Page PayChannelRecord)
    → Option (List PayChannelRecord)
follow more (err e) = none
follow more (ok page) =
    let rest = prepend page.records (more page.cursor) in
    if page.cursor == 0 then some page.records else rest

unfoldable pub collect : ℕ → Network → ℕ → ℕ → PayChannelStore → Option (List PayChannelRecord)
unfolding follow
collect zero network cursor limit s = none
collect (suc fuel) network cursor limit s =
    follow (λ next. collect fuel network next limit s) (scan network cursor limit s)

module _ {ℓ} {A : Type ℓ} where
  take-all : (n : ℕ) (xs : List A) → length xs ≤ n → take n xs ≡ xs
  take-all zero [] h = refl
  take-all zero (x ∷ xs) h = elim h [ ]
  take-all (suc n) [] h = refl
  take-all (suc n) (x ∷ xs) h = ap (λ t. x ∷ t) (take-all n xs (omega arith))

  drop-drop : (m n : ℕ) (xs : List A) → drop n (drop m xs) ≡ drop (m + n) xs
  drop-drop zero n xs = rw zero_plus refl
    where
      zero_plus : 0 + n ≡ n
      zero_plus = omega arith
  drop-drop (suc m) zero [] = rw plus refl
    where
      plus : suc m + 0 ≡ suc m
      plus = omega arith
  drop-drop (suc m) (suc n) [] = rw plus refl
    where
      plus : suc m + suc n ≡ suc (m + suc n)
      plus = omega arith
  drop-drop (suc m) n (x ∷ xs) = rw plus (drop-drop m n xs)
    where
      plus : suc m + n ≡ suc (m + n)
      plus = omega arith

  -- The last page holds all that is left.
  page_of-last :
      (xs : List A) (cursor limit : ℕ)
      → cursor < length xs
      → length xs ≤ cursor + limit
      → page_of xs cursor limit ≡ record { cursor = 0; records = drop cursor xs }
  unfolding page_of
  page_of-last xs cursor limit lt le = rw stop (
      ground (
        arith,
        take-all (length xs - cursor) (drop cursor xs) (omega (arith, length-drop cursor xs)),
      ))
    where
      stop : min (length xs) (cursor + limit) ≡ length xs
      stop = omega arith

  -- Any other page holds `limit` records and points behind them.
  page_of-more :
      (xs : List A) (cursor limit : ℕ)
      → cursor + limit < length xs
      → page_of xs cursor limit
        ≡ record { cursor = cursor + limit; records = take limit (drop cursor xs) }
  unfolding page_of
  page_of-more xs cursor limit lt = rw (stop, size) (ground arith)
    where
      stop : min (length xs) (cursor + limit) ≡ cursor + limit
      stop = omega arith

      size : cursor + limit - cursor ≡ limit
      size = omega arith

scan-ok :
    (network : Network) (cursor limit : ℕ) (s : PayChannelStore)
    → 0 < limit
    → scan network cursor limit s ≡ ok (page_of (network_records network s) cursor limit)
unfolding scan
scan-ok network cursor limit s p = ground arith

collect-drop :
    (fuel : ℕ) (network : Network) (cursor limit : ℕ) (s : PayChannelStore)
    → 0 < limit
    → cursor < length (network_records network s)
    → length (network_records network s) < fuel + cursor
    → collect fuel network cursor limit s ≡ some (drop cursor (network_records network s))
unfolding collect
collect-drop zero network cursor limit s p lt enough = absurd (omega arith)
collect-drop (suc fuel) network cursor limit s p lt enough =
    let all : List PayChannelRecord = network_records network s in
    elim (Bool-cases (ltb (cursor + limit) (length all))) [
      | inl more ↦
          rw
            (
              scan-ok network cursor limit s p,
              page_of-more all cursor limit (ground arith),
              collect-drop fuel network (cursor + limit) limit s p (ground arith) (omega arith),
            )
            (rw (nonzero cursor limit p) (ap some (joined cursor limit all)))
      | inr last ↦
          rw (scan-ok network cursor limit s p, page_of-last all cursor limit lt (ground arith))
            refl
    ]
  where
    nonzero : (c l : ℕ) → 0 < l → (c + l == 0) ≡ false
    nonzero c l p = ground arith

    joined :
        (c l : ℕ) (xs : List PayChannelRecord) → take l (drop c xs) ++ drop (c + l) xs ≡ drop c xs
    joined c l xs = rw (← drop-drop c l xs) (take-append-drop l (drop c xs))

collect-empty :
    (fuel : ℕ) (network : Network) (limit : ℕ) (s : PayChannelStore)
    → 0 < limit
    → 0 < fuel
    → network_records network s ≡ []
    → collect fuel network 0 limit s ≡ some []
unfolding collect page_of
collect-empty zero network limit s p q e = elim q [ ]
collect-empty (suc fuel) network limit s p q e = rw (scan-ok network 0 limit s p, e) refl

-- For a positive limit and fuel above the number of the network's records, following the cursors
-- of the scan from 0 ends, and its pages are exactly those records in order.
pub collect-all :
    (fuel : ℕ) (network : Network) (limit : ℕ) (s : PayChannelStore)
    → 0 < limit
    → length (network_records network s) < fuel
    → collect fuel network 0 limit s ≡ some (network_records network s)
collect-all fuel network limit s p enough = first fuel p enough (network_records network s) refl
  where
    first :
        (fuel : ℕ)
        → 0 < limit
        → length (network_records network s) < fuel
        → (xs : List PayChannelRecord) → network_records network s ≡ xs
        → collect fuel network 0 limit s ≡ some (network_records network s)
    first fuel p enough [] e =
        collect-empty fuel network limit s p (omega arith) e ∙ ap some (sym e)
    first fuel p enough (x ∷ xs) e =
        collect-drop fuel network 0 limit s p (omega (arith, ap length e)) (omega arith)
