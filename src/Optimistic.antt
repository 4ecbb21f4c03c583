-- ===== src/Optimistic.antt =====
-- The WATCH / MULTI / EXEC loops over Redis: `_mutate` of paychannel_store.py, and the loops of
-- replay_store.py. Redis is not part of the repository: what its WATCH promises is a hypothesis.
use xrpl_mpp_stack.Prelude.{
  ◌≡◌, refl, Bool, true, false, Option, none, some, List, [], ◌∷◌, Result, Bool-cases, ◌⊎◌, inl,
  inr, if◌then◌else◌,
}
use xrpl_mpp_stack.Text.{Text}
use xrpl_mpp_stack.Dict.{Dict, lookup}

-- What other clients do between the WATCH and the EXEC of one round, and whether the server saw a
-- watched key touched, so that EXEC raises `WatchError`.
pub record Interference {ℓ} (V : Type ℓ) : Type ℓ where
  pub effect : Dict V → Dict V
  pub is_touched : Bool

-- WATCH: a round that is not reported as touched has left the watched keys alone.
abbrev pub IsWatched {ℓ} : {V : Type ℓ} → List Text → Interference V → Type ℓ
IsWatched [] i = Unit
IsWatched {V = V} (k ∷ ks) i =
    (i.is_touched ≡ false → (d : Dict V) → lookup k (i.effect d) ≡ lookup k d) × IsWatched ks i

abbrev pub AreWatched {ℓ} : {V : Type ℓ} → List Text → List (Interference V) → Type ℓ
AreWatched ks [] = Unit
AreWatched ks (i ∷ is) = IsWatched ks i × AreWatched ks is

-- The body of a round: it reads, and returns (with no write, after UNWATCH), raises, or queues a
-- write for EXEC.
abbrev pub Body {ℓ} : Type ℓ → Type 0 → Type ℓ
Body V A = Dict V → Result A × Option (Dict V → Dict V)

-- The body as one atomic step.
unfoldable pub atomically {ℓ} :
    {V : Type ℓ} {A : Type 0} → Result A × Option (Dict V → Dict V) → Dict V → Result A × Dict V
atomically (r, none) d = (r, d)
atomically (r, some write) d = (r, write d)

-- The end of a round: `rest` is the loop's next round.
unfoldable pub exec {ℓ} :
    {V : Type ℓ} {A : Type 0}
    → Interference V
    → Result A × Option (Dict V → Dict V)
    → Dict V
    → Option (Result A × Dict V)
    → Option (Result A × Dict V)
exec i (r, none) d rest = some (r, d)
exec i (r, some write) d rest = if i.is_touched then rest else some (r, write (i.effect d))

-- `while True: try ... except WatchError: continue`, over the rounds that the environment plays;
-- `none` means that all of them conflicted.
unfoldable pub optimistic {ℓ} :
    {V : Type ℓ} {A : Type 0}
    → List (Interference V)
    → Body V A
    → Dict V
    → Option (Result A × Dict V)
unfolding exec
optimistic [] body d = none
optimistic (i ∷ is) body d = exec i (body d) d (optimistic is body (i.effect d))

-- The states that the loop can meet: the first, and those after the first n interferences.
abbrev pub IsMet {ℓ} : {V : Type ℓ} → Dict V → List (Interference V) → Dict V → Type ℓ
IsMet d [] d' = d' ≡ d
IsMet d (i ∷ is) d' = (d' ≡ d) ⊎ IsMet (i.effect d) is d'

-- Some round is not touched.
abbrev pub has_quiet {ℓ} : {V : Type ℓ} → List (Interference V) → Bool
has_quiet [] = false
has_quiet (i ∷ is) = if i.is_touched then has_quiet is else true

module _ {ℓ} {V : Type ℓ} {A : Type 0} (ks : List Text) (body : Body V A) where
  -- The body reads the watched keys only.
  abbrev pub SameAt : List Text → Dict V → Dict V → Type ℓ
  SameAt [] d d' = Unit
  SameAt (k ∷ rest) d d' = (lookup k d' ≡ lookup k d) × SameAt rest d d'

  abbrev pub ReadsOnly : Type ℓ
  ReadsOnly = (d d' : Dict V) → SameAt ks d d' → body d' ≡ body d

  untouched-SameAt :
      (js : List Text) (i : Interference V) (d : Dict V)
      → IsWatched js i
      → i.is_touched ≡ false
      → SameAt js d (i.effect d)
  untouched-SameAt [] i d w u = tt
  untouched-SameAt (k ∷ js) i d w u = (w.0 u d, untouched-SameAt js i d w.1 u)

  abbrev Linearized : List (Interference V) → Dict V → Result A × Dict V → Type ℓ
  Linearized is d out = (at : Dict V) × IsMet d is at × (out ≡ atomically (body at) at)

  round :
      (i : Interference V) (is : List (Interference V)) (d : Dict V) (out : Result A × Dict V)
      → ReadsOnly
      → IsWatched ks i
      → (o : Result A × Option (Dict V → Dict V)) → body d ≡ o
      → exec i o d (optimistic is body (i.effect d)) ≡ some out
      → (optimistic is body (i.effect d) ≡ some out → Linearized is (i.effect d) out)
      → Linearized (i ∷ is) d out
  unfolding exec atomically
  round i is d out reads w (r, none) e h ih = (d, inl refl, rw e (injected h))
    where
      injected : some (r, d) ≡ some out → out ≡ (r, d)
      injected h = cc
  round i is d out reads w (r, some write) e h ih = elim (Bool-cases i.is_touched) [
    | inl t ↦ let (at, met, same) = ih (rw t at h) in (at, inr met, same)
    | inr u ↦
        let again : body (i.effect d) ≡ body d =
          reads d (i.effect d) (untouched-SameAt ks i d w u) in
        (i.effect d, inr (met_now is (i.effect d)), rw (again, e) (injected (rw u at h)))
  ]
    where
      injected : some (r, write (i.effect d)) ≡ some out → out ≡ (r, write (i.effect d))
      injected h = cc

      met_now : (is : List (Interference V)) (d : Dict V) → IsMet d is d
      met_now [] d = refl
      met_now (j ∷ js) d = inl refl

  finish :
      (i : Interference V) (d : Dict V) (o : Result A × Option (Dict V → Dict V))
      (rest : Option (Result A × Dict V))
      → (i.is_touched ≡ false) ⊎ ((out : Result A × Dict V) × (rest ≡ some out))
      → (out : Result A × Dict V) × (exec i o d rest ≡ some out)
  unfolding exec
  finish i d (r, none) rest q = ((r, d), refl)
  finish i d (r, some write) rest (inl u) = ((r, write (i.effect d)), rw u)
  finish i d (r, some write) rest (inr (out, e)) = elim (Bool-cases i.is_touched) [
    | inl t ↦ (out, rw t e)
    | inr u ↦ ((r, write (i.effect d)), rw u)
  ]

  -- The loop returns as soon as one round is not touched.
  pub optimistic-returns :
      (is : List (Interference V)) (d : Dict V)
      → has_quiet is ≡ true
      → (out : Result A × Dict V) × (optimistic is body d ≡ some out)
  unfolding optimistic
  optimistic-returns [] d h = absurd (cc)
  optimistic-returns (i ∷ is) d h = elim (Bool-cases i.is_touched) [
    | inl t ↦
        finish i d (body d) (optimistic is body (i.effect d))
          (inr (optimistic-returns is (i.effect d) (rw t at h)))
    | inr u ↦ finish i d (body d) (optimistic is body (i.effect d)) (inl u)
  ]

  -- A loop that returns has the result and the state of its body run atomically on one of the
  -- states that it met.
  pub optimistic-linearizes :
      (is : List (Interference V)) (d : Dict V) (out : Result A × Dict V)
      → ReadsOnly
      → AreWatched ks is
      → optimistic is body d ≡ some out
      → (at : Dict V) × IsMet d is at × (out ≡ atomically (body at) at)
  unfolding optimistic
  optimistic-linearizes [] d out reads w h = absurd (cc)
  optimistic-linearizes (i ∷ is) d out reads w h =
      round i is d out reads w.0 (body d) refl h
        (optimistic-linearizes is (i.effect d) out reads w.1)
