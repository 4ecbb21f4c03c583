-- ===== src/PayChannel/Store/Invariant.antt =====
-- The store's invariant and contract, for each method.
use xrpl_mpp_stack.Prelude.{
  ◌≡◌, refl, sym, ap, ◌∙◌, subst, Option, none, some, arith, ok, err, Bool-cases, inl, inr,
}
use xrpl_mpp_stack.Text.{Text, text_eq}
use xrpl_mpp_stack.Text.Laws.{text_eq→eq}
use xrpl_mpp_stack.Dict.{lookup, insert, lookup-insert, lookup-insert_ne}
use xrpl_mpp_stack.PayChannel.Record.{PayChannelRecord}
use xrpl_mpp_stack.PayChannel.Record.Laws.{IsRecord}
use xrpl_mpp_stack.PayChannel.Evolution.{Evolves, Evolves-refl, Evolves-trans, IsWrite}
use xrpl_mpp_stack.PayChannel.Key.{channel_key}
use xrpl_mpp_stack.PayChannel.Mutations.{MutationResult}
use xrpl_mpp_stack.PayChannel.Store.{PayChannelStore, commit}

-- Every stored record is well-formed and stands under its own key.
pub record IsStore (s : PayChannelStore) : Type 0 where
  pub at :
      (key : Text) (r : PayChannelRecord)
      → lookup key s.records ≡ some r
      → IsRecord r × (channel_key r.network r.channel_id ≡ ok key)

-- No channel is lost, and each evolves by the contract.
pub record Keeps (s s' : PayChannelStore) : Type 0 where
  pub at :
      (key : Text) (a : PayChannelRecord)
      → lookup key s.records ≡ some a
      → (b : PayChannelRecord) × (lookup key s'.records ≡ some b) × Evolves a b

pub Keeps-refl : (s : PayChannelStore) → Keeps s s
Keeps-refl s = record { at = λ key a h. (a, h, Evolves-refl a) }

pub Keeps-trans : {s t u : PayChannelStore} → Keeps s t → Keeps t u → Keeps s u
Keeps-trans x y = record {
  at = λ key a h.
      let (b, hb, ab) = x.at key a h in
      let (c, hc, bc) = y.at key b hb in (c, hc, Evolves-trans ab bc);
}

-- What a callback may ask for at a key, given what is stored there.
abbrev pub IsWriteAt : Text → Option PayChannelRecord → Option PayChannelRecord → Type 0
IsWriteAt key o none = Unit {0}
IsWriteAt key none (some b) = IsRecord b × (channel_key b.network b.channel_id ≡ ok key)
IsWriteAt key (some a) (some b) = IsWrite a (some b)

abbrev pub IsSafe : PayChannelStore → PayChannelStore → Type 0
IsSafe s s' = IsStore s' × Keeps s s'

put : PayChannelStore → Text → PayChannelRecord → PayChannelStore
put s key b = record s { records = insert key b s.records }

put-IsStore :
    (s : PayChannelStore) (key : Text) (b : PayChannelRecord)
    → IsStore s
    → IsRecord b
    → channel_key b.network b.channel_id ≡ ok key
    → IsStore (put s key b)
unfolding put
put-IsStore s key b w v k = record {
  at = λ j r h. elim (Bool-cases (text_eq key j)) [
    | inl e ↦
        let same : b ≡ r = ground (arith, lookup-insert key j b s.records) in
        (
          subst IsRecord same v,
          subst (λ z. channel_key z.network z.channel_id ≡ ok j) same
              (k ∙ ap ok (text_eq→eq key j e)),
        )
    | inr e ↦ w.at j r (sym (lookup-insert_ne key j b s.records e) ∙ h)
  ];
}

put-Keeps :
    (s : PayChannelStore) (key : Text) (b : PayChannelRecord)
    → ((a : PayChannelRecord) → lookup key s.records ≡ some a → Evolves a b)
    → Keeps s (put s key b)
unfolding put
put-Keeps s key b f = record {
  at = λ j a h. elim (Bool-cases (text_eq key j)) [
    | inl e ↦ (
      b,
      ground (arith, lookup-insert key j b s.records),
      f a (ap (λ t. lookup t s.records) (text_eq→eq key j e) ∙ h),
    )
    | inr e ↦ (a, lookup-insert_ne key j b s.records e ∙ h, Evolves-refl a)
  ];
}

write-IsSafe :
    (s : PayChannelStore) (key : Text) (o : Option PayChannelRecord) (b : PayChannelRecord)
    → IsStore s
    → lookup key s.records ≡ o
    → IsWriteAt key o (some b)
    → IsSafe s (put s key b)
write-IsSafe s key none b w e (v, k) =
    (put-IsStore s key b w v k, put-Keeps s key b (λ a h. absurd (cc (sym e ∙ h))))
write-IsSafe s key (some a) b w e (v, g) = (
  put-IsStore s key b w v (subst2 g (w.at key a e).1),
  put-Keeps s key b (λ z h. subst (λ y. Evolves y b) (some_inj (sym e ∙ h)) g),
)
  where
    subst2 :
        Evolves a b
        → channel_key a.network a.channel_id ≡ ok key
        → channel_key b.network b.channel_id ≡ ok key
    subst2 g k = rw (← g.network, ← g.channel_id) k

    some_inj : {x y : PayChannelRecord} → some x ≡ some y → x ≡ y
    some_inj h = cc

-- A mutation whose write is allowed leaves a safe store.
pub commit-IsSafe :
    {A : Type 0} (s : PayChannelStore) (key : Text) (m : MutationResult A)
    → IsStore s
    → ((x : A × Option PayChannelRecord) → m ≡ ok x → IsWriteAt key (lookup key s.records) x.1)
    → IsSafe s (commit key m s).1
unfolding commit put
commit-IsSafe s key (err e) w f = (w, Keeps-refl s)
commit-IsSafe s key (ok (r, none)) w f = (w, Keeps-refl s)
commit-IsSafe s key (ok (r, some b)) w f =
    write-IsSafe s key (lookup key s.records) b w refl (f (r, some b) refl)
