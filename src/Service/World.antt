-- ===== src/Service/World.antt =====
-- The state that the payment-channel service works on, its calls of the stores, and its handling of
-- exceptions (packages/facilitator/src/xrpl_mpp_facilitator/paychannel_service.py).
use xrpl_mpp_stack.Prelude.{
  ℕ, ◌≡◌, refl, Option, Code, Error, Result, ok, err, store_error, service_error,
}
use xrpl_mpp_stack.Dict.{Dict}
use xrpl_mpp_stack.PayChannel.Store.{PayChannelStore, Method}

pub record World : Type 0 where
  pub store : PayChannelStore
  pub claims : Dict (Option ℕ)

-- What the service does: a result or an exception, and the state, which a raise does not undo.
abbrev pub Action : Type 0 → Type 0
Action A = World → Result A × World

module _ {A : Type 0} where
  abbrev pub pure : A → Action A
  pure a w = (ok a, w)

  abbrev pub raise : Error → Action A
  raise e w = (err e, w)

  abbrev pub lift : Result A → Action A
  lift r w = (r, w)

  abbrev pub continue : {B : Type 0} → (A → Action B) → Result A × World → Result B × World
  continue f (ok a, w) = f a w
  continue f (err e, w) = (err e, w)

infixl 5 ◌>>=◌ ◌>>◌
unfoldable pub ◌>>=◌ : {A B : Type 0} → Action A → (A → Action B) → Action B
◌>>=◌ m f w = continue f (m w)

abbrev pub ◌>>◌ : {B : Type 0} → Action (Unit {0}) → Action B → Action B
m >> k = m >>= λ _. k

-- A method of the payment-channel store.
unfoldable pub on_store : {A : Type 0} → Method A → Action A
on_store m w = let (r, s) = m w.store in (r, record w { store = s })

-- `except PayChannelStoreError as exc: raise self._store_error(exc)`
abbrev pub store_to_service : Error → Error
store_to_service (store_error c) = service_error c
store_to_service e = e

-- The same, and `except Exception` with a code of its own.
abbrev pub store_or : Code → Error → Error
store_or code (store_error c) = service_error c
store_or code e = service_error code

-- `except PayChannelVerificationError: raise`, and `except Exception` with a code.
abbrev pub service_or : Code → Error → Error
service_or code (service_error c) = service_error c
service_or code e = service_error code

abbrev pub rewrap {ℓ} : {A : Type ℓ} → (Error → Error) → Result A → Result A
rewrap f (ok a) = ok a
rewrap f (err e) = err (f e)

unfoldable pub catching : {A : Type 0} → (Error → Error) → Action A → Action A
catching f m w = let (r, w') = m w in (rewrap f r, w')

-- `try: m` and `except Exception as exc: handler(exc)`; what `m` did before it raised stays.
abbrev pub handled : {A : Type 0} → (Error → Action A) → Result A × World → Result A × World
handled handler (ok a, w) = (ok a, w)
handled handler (err e, w) = handler e w

unfoldable pub handling : {A : Type 0} → (Error → Action A) → Action A → Action A
handling handler m w = handled handler (m w)

-- A chain that returned, opened one step at a time.
pub bind-inv :
    {A B P : Type 0} (m : Action A) (f : A → Action B) {w : World} {b : B} {w' : World}
    → (m >>= f) w ≡ (ok b, w')
    → ((a : A) (v : World) → m w ≡ (ok a, v) → f a v ≡ (ok b, w') → P)
    → P
unfolding ◌>>=◌
bind-inv {A} {B} {P} m f {w} {b} {w'} h k = step (m w) refl h
  where
    step : (x : Result A × World) → m w ≡ x → continue f x ≡ (ok b, w') → P
    step (ok a, v) e h = k a v e h
    step (err x, v) e h = absurd (cc)
