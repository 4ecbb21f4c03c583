-- ===== src/Replay/Reservation/Laws.antt =====
-- Sequences of steps on the markers of `RedisReplayStore`.
use xrpl_mpp_stack.Prelude.{
  ℕ, ◌≡◌, refl, ◌∙◌, subst, Bool, true, false, ◌||◌, Option, none, some, List, [], ◌∷◌, arith,
  is_some, Result, ok, err, value_error, Bool-cases, Result-cases, inl, inr,
}
use xrpl_mpp_stack.Text.{Text, text_eq}
use xrpl_mpp_stack.Text.Laws.{text_eq→eq, text_eq_iff}
use xrpl_mpp_stack.Dict.{Dict, lookup, lookup-insert_self, lookup-insert_ne, lookup-erase}
use xrpl_mpp_stack.Optimistic.{atomically}
use xrpl_mpp_stack.Replay.Claims.{is_expired, validate_retention}
use xrpl_mpp_stack.Replay.Reservation.{
  Entry, read, deadline, set_value, replay_processed, invoice_key, blob_key, pending_value,
  ReplayReservation, Settings, watched_keys, is_taken, set_all, guard_available, longer,
  reserve_body, mark_processed, release_key, release_all, release_body,
}
use xrpl_mpp_stack.Replay.Reservation.Keys.{
  invoice_key-ne-blob_key, blob_key_injective, processed-ne-pending,
}

-- A committed round of some client, with the time at which the server ran it.
pub data Step : Type 0 where
  reserve : ℕ → Option Text → Text → Text → Option ℕ → Step
  mark : ℕ → ReplayReservation → Step
  release : ℕ → ReplayReservation → Step

abbrev pub written : Dict Entry → Result (Dict Entry) → Dict Entry
written d (ok d') = d'
written d (err e) = d

unfoldable pub apply : Settings → Step → Dict Entry → Dict Entry
apply c (Step.reserve now invoice blob id retention) d =
    (atomically (reserve_body c now invoice blob id retention d) d).1
apply c (Step.mark now r) d = written d (mark_processed c now r d)
apply c (Step.release now r) d = (atomically (release_body c now r d) d).1

unfoldable pub run : Settings → List Step → Dict Entry → Dict Entry
unfolding apply
run c [] d = d
run c (s ∷ ss) d = run c ss (apply c s d)

-- The marker of a blob.
abbrev pub Stands : Settings → Text → Text → Option ℕ → Dict Entry → Type 0
Stands c blob value expires d =
    lookup (blob_key c.network blob) d ≡ some (record { value = value; expires = expires })

-- A step of others, before the expiry: any reservation, the processing of another blob, and the
-- release of a reservation whose pending value is not the marker.
abbrev pub IsForeign : Text → Text → Option ℕ → Step → Type 0
IsForeign blob value expires (Step.reserve now invoice other id retention) =
    is_expired now expires ≡ false
IsForeign blob value expires (Step.mark now r) = text_eq r.blob_hash blob ≡ false
IsForeign blob value expires (Step.release now r) =
    text_eq value (pending_value r.reservation_id) ≡ false

abbrev pub AreForeign : Text → Text → Option ℕ → List Step → Type 0
AreForeign blob value expires [] = Unit {0}
AreForeign blob value expires (s ∷ ss) =
    IsForeign blob value expires s × AreForeign blob value expires ss

abbrev NotIn : Text → List Text → Type 0
NotIn k [] = Unit {0}
NotIn k (j ∷ js) = (text_eq j k ≡ false) × NotIn k js

set_all-other :
    (now : ℕ) (k : Text) (keys : List Text) (value : Text) (ttl : Option ℕ) (d : Dict Entry)
    → NotIn k keys
    → lookup k (set_all now keys value ttl d) ≡ lookup k d
set_all-other now k [] value ttl d n = refl
set_all-other now k (j ∷ js) value ttl d n =
    set_all-other now k js value ttl (set_value now j value ttl d) n.1
    ∙ lookup-insert_ne j k _ d n.0

-- A key that is read as free is not the marker's.
free-NotIn :
    (now : ℕ) (k : Text) (keys : List Text) (d : Dict Entry) (v : Text)
    → read now k d ≡ some v
    → is_taken now keys d ≡ false
    → NotIn k keys
free-NotIn now k [] d v h t = tt
free-NotIn now k (j ∷ js) d v h t =
    let parts : (is_some (read now j d) ≡ false) × (is_taken now js d ≡ false) =
      or-eq-false _ _ t in
    (
      elim (Bool-cases (text_eq j k)) [
        | inl same ↦
            absurd
              (clash (subst (λ z. is_some (read now z d) ≡ false) (text_eq→eq j k same) parts.0) h)
        | inr other ↦ other
      ],
      free-NotIn now k js d v h parts.1,
    )
  where
    or-eq-false : (a b : Bool) → (a || b) ≡ false → (a ≡ false) × (b ≡ false)
    or-eq-false a b h = ground arith

    clash : {o : Option Text} → is_some o ≡ false → o ≡ some v → ⊥
    clash a b = ground arith

release_all-Stands :
    (now : ℕ) (id k : Text) (keys : List Text) (e : Entry) (from d : Dict Entry)
    → text_eq e.value (pending_value id) ≡ false
    → lookup k from ≡ some e
    → lookup k d ≡ some e
    → lookup k (release_all now id keys from d) ≡ some e
release_all-Stands now id k [] e from d ne hf hd = hd
release_all-Stands now id k (j ∷ js) e from d ne hf hd =
    release_all-Stands now id k js e from (release_key now id j from d) ne hf
      (elim (Bool-cases (text_eq j k)) [
        | inl same ↦ rw (text_eq→eq j k same, hf) (ground arith)
        | inr other ↦ ground (arith, lookup-erase j k d)
      ])

blobs-differ :
    (c : Settings) (blob other : Text)
    → text_eq other blob ≡ false
    → text_eq (blob_key c.network other) (blob_key c.network blob) ≡ false
blobs-differ c blob other h = ground (
  arith,
  text_eq_iff (blob_key c.network other) (blob_key c.network blob),
  text_eq_iff other blob,
  blob_key_injective c.network c.network other blob,
)

invoice-differs :
    (c : Settings) (blob i : Text)
    → text_eq (invoice_key c.network i) (blob_key c.network blob) ≡ false
invoice-differs c blob i = ground (
  arith,
  text_eq_iff (invoice_key c.network i) (blob_key c.network blob),
  invoice_key-ne-blob_key c.network c.network i blob,
)

blob-NotIn :
    (c : Settings) (blob other : Text) (invoice : Option Text)
    → text_eq other blob ≡ false
    → NotIn (blob_key c.network blob) (watched_keys c.network invoice other)
blob-NotIn c blob other none h = (blobs-differ c blob other h, tt)
blob-NotIn c blob other (some i) h = (invoice-differs c blob i, (blobs-differ c blob other h, tt))

step-Stands :
    (c : Settings) (blob value : Text) (expires : Option ℕ) (s : Step) (d : Dict Entry)
    → IsForeign blob value expires s
    → Stands c blob value expires d
    → Stands c blob value expires (apply c s d)
unfolding apply reserve_body atomically mark_processed release_body
step-Stands c blob value expires (Step.reserve now invoice other id retention) d f h =
    elim (Bool-cases (is_taken now (watched_keys c.network invoice other) d)) [
      | inl taken ↦ rw (taken, apply) h
      | inr free ↦
          rw (free, apply)
            (set_all-other now _ (watched_keys c.network invoice other) _ _ d (
                free-NotIn now (blob_key c.network blob) (watched_keys c.network invoice other) d
                  value (rw h (rw f)) free)
              ∙ h)
    ]
step-Stands c blob value expires (Step.mark now r) d f h =
    elim (Result-cases (validate_retention r.retention_seconds)) [
      | inl (t, e) ↦ rw e (
          set_all-other now _ (watched_keys c.network r.invoice_id r.blob_hash) _ _ d
            (blob-NotIn c blob r.blob_hash r.invoice_id f)
          ∙ h)
      | inr (x, e) ↦ rw e h
    ]
step-Stands c blob value expires (Step.release now r) d f h =
    release_all-Stands now r.reservation_id (blob_key c.network blob)
      (watched_keys c.network r.invoice_id r.blob_hash)
      (record { value = value; expires = expires }) d d f h h

run-Stands :
    (c : Settings) (blob value : Text) (expires : Option ℕ) (ss : List Step) (d : Dict Entry)
    → AreForeign blob value expires ss
    → Stands c blob value expires d
    → Stands c blob value expires (run c ss d)
unfolding run
run-Stands c blob value expires [] d f h = h
run-Stands c blob value expires (s ∷ ss) d f h =
    run-Stands c blob value expires ss (apply c s d) f.1
      (step-Stands c blob value expires s d f.0 h)

standing-taken :
    (c : Settings) (blob value : Text) (expires : Option ℕ) (now : ℕ) (invoice : Option Text)
    (d : Dict Entry)
    → Stands c blob value expires d
    → is_expired now expires ≡ false
    → is_taken now (watched_keys c.network invoice blob) d ≡ true
standing-taken c blob value expires now none d h live = rw h (rw live)
standing-taken c blob value expires now (some i) d h live = rw h (rw live (ground arith))

-- While a marker of a blob stands, the guard and any new reservation of the blob are refused,
-- whatever others have done since.
pub marker_blocks :
    (c : Settings) (blob value : Text) (expires : Option ℕ) (ss : List Step) (d : Dict Entry)
    (now : ℕ) (invoice : Option Text) (id : Text) (retention : Option ℕ)
    → Stands c blob value expires d
    → AreForeign blob value expires ss
    → is_expired now expires ≡ false
    → (guard_available c now invoice blob (run c ss d) ≡ err value_error)
      × (reserve_body c now invoice blob id retention (run c ss d) ≡ (err value_error, none))
unfolding guard_available reserve_body
marker_blocks c blob value expires ss d now invoice id retention h f live =
    let t : is_taken now (watched_keys c.network invoice blob) (run c ss d) ≡ true =
      standing-taken c blob value expires now invoice (run c ss d)
        (run-Stands c blob value expires ss d f h) live in
    (rw t, rw t)

blob-set :
    (c : Settings) (now : ℕ) (invoice : Option Text) (blob value : Text) (ttl : Option ℕ)
    (d : Dict Entry)
    → Stands c blob value
        (deadline now ttl)
        (set_all now (watched_keys c.network invoice blob) value ttl d)
blob-set c now none blob value ttl d = lookup-insert_self (blob_key c.network blob) _ d
blob-set c now (some i) blob value ttl d = lookup-insert_self (blob_key c.network blob) _ _

reserved :
    (c : Settings) (now : ℕ) (invoice : Option Text) (blob id : Text) (retention : Option ℕ)
    (d : Dict Entry)
    → is_taken now (watched_keys c.network invoice blob) d ≡ false
    → Stands c blob
        (pending_value id)
        (deadline now (longer c.pending_ttl_seconds retention))
        (apply c (Step.reserve now invoice blob id retention) d)
unfolding apply reserve_body atomically
reserved c now invoice blob id retention d free =
    rw (free, apply)
      (blob-set c now invoice blob (pending_value id) (longer c.pending_ttl_seconds retention) d)

processed :
    (c : Settings) (now : ℕ) (r : ReplayReservation) (d : Dict Entry)
    → validate_retention r.retention_seconds ≡ ok r.retention_seconds
    → Stands c r.blob_hash replay_processed
        (deadline now (longer c.processed_ttl_seconds r.retention_seconds))
        (apply c (Step.mark now r) d)
unfolding apply mark_processed
processed c now r d e = rw e (
    blob-set c now r.invoice_id r.blob_hash replay_processed
      (longer c.processed_ttl_seconds r.retention_seconds) d)

-- Let a reservation of a free invoice and blob have been made. After any steps in which
-- reservations come before its expiry, other blobs only are marked processed, and no release is by
-- its identifier, a second reservation of the blob at any time before the expiry is refused with
-- nothing written.
pub reserve_excludes :
    (c : Settings) (now : ℕ) (invoice : Option Text) (blob id : Text) (retention : Option ℕ)
    (d : Dict Entry) (ss : List Step) (now' : ℕ) (invoice' : Option Text) (id' : Text)
    (retention' : Option ℕ)
    → is_taken now (watched_keys c.network invoice blob) d ≡ false
    → AreForeign blob (pending_value id) (deadline now (longer c.pending_ttl_seconds retention)) ss
    → is_expired now' (deadline now (longer c.pending_ttl_seconds retention)) ≡ false
    → reserve_body c now' invoice' blob id' retention'
        (run c ss (apply c (Step.reserve now invoice blob id retention) d))
      ≡ (err value_error, none)
reserve_excludes c now invoice blob id retention d ss now' invoice' id' retention' free f live =
    (marker_blocks c blob (pending_value id) _ ss _ now' invoice' id' retention'
      (reserved c now invoice blob id retention d free) f live).1

-- A release is foreign to every processed marker.
release-IsForeign :
    (r : ReplayReservation) → text_eq replay_processed (pending_value r.reservation_id) ≡ false
release-IsForeign r = ground (
  arith,
  text_eq_iff replay_processed (pending_value r.reservation_id),
  processed-ne-pending r.reservation_id,
)

-- Steps before the expiry: any reservation, any release, and the processing of other blobs.
abbrev pub AreOthers : Text → Option ℕ → List Step → Type 0
AreOthers blob expires [] = Unit {0}
AreOthers blob expires (Step.reserve now invoice other id retention ∷ ss) =
    (is_expired now expires ≡ false) × AreOthers blob expires ss
AreOthers blob expires (Step.mark now r ∷ ss) =
    (text_eq r.blob_hash blob ≡ false) × AreOthers blob expires ss
AreOthers blob expires (Step.release now r ∷ ss) = AreOthers blob expires ss

others-AreForeign :
    (blob : Text) (expires : Option ℕ) (ss : List Step)
    → AreOthers blob expires ss
    → AreForeign blob replay_processed expires ss
others-AreForeign blob expires [] h = tt
others-AreForeign blob expires (Step.reserve now invoice other id retention ∷ ss) h =
    (h.0, others-AreForeign blob expires ss h.1)
others-AreForeign blob expires (Step.mark now r ∷ ss) h =
    (h.0, others-AreForeign blob expires ss h.1)
others-AreForeign blob expires (Step.release now r ∷ ss) h =
    (release-IsForeign r, others-AreForeign blob expires ss h)

-- Let a reservation with a valid retention have been marked processed. After any steps in which
-- reservations come before the marker's expiry and other blobs only are marked processed, any
-- releases included, the guard refuses the blob at any time before the expiry.
pub processed_blocks :
    (c : Settings) (now : ℕ) (r : ReplayReservation) (d : Dict Entry) (ss : List Step) (now' : ℕ)
    (invoice : Option Text)
    → validate_retention r.retention_seconds ≡ ok r.retention_seconds
    → AreOthers r.blob_hash (deadline now (longer c.processed_ttl_seconds r.retention_seconds)) ss
    → is_expired now' (deadline now (longer c.processed_ttl_seconds r.retention_seconds)) ≡ false
    → guard_available c now' invoice r.blob_hash (run c ss (apply c (Step.mark now r) d))
      ≡ err value_error
processed_blocks c now r d ss now' invoice ev f live =
    (marker_blocks c r.blob_hash replay_processed _ ss _ now' invoice [] none
      (processed c now r d ev) (others-AreForeign r.blob_hash _ ss f) live).0
