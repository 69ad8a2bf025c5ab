-- ===== src/Native/Outbox/Missed.antt =====
-- Which recipients of an envelope have to wait for it.
use capsi.Base.{
  ◌≡◌, refl, sym, ap, ◌∙◌, ◌⊎◌, inl, inr, Bool, true, false, ◌&&◌, Option, none, some, List, arith,
  Bool-cases, Option-cases, any, In, any→In, In→any, Text, text_eq, text_eq→eq, text_eq_refl, ok,
  Result-cases,
}
use capsi.Base.Maps.{lookup}
use capsi.Protocol.Message.{Envelope}
use capsi.Identity.Device.{DeviceId, from_hex}
use capsi.Identity.Trust.{
  TrustState, pending, trusted, blocked, trust_eq, KnownDevice, TrustStore, get,
}
use capsi.Workplace.Workspace.{PendingWorkplaceDelivery, Workspace}
use capsi.Workplace.Deliveries.{new_delivery}
use capsi.Native.Disk.{Environment}
use capsi.Native.Outbox.{socket_of, if_trusted, trusted_in, attempt, deliver_workplace_envelope}
use capsi.Native.Outbox.Fate.{entry}
use capsi.Native.Outbox.Delivered.{waits, or_new, is_queued, entry-deliver_workplace_envelope}

-- The trust list has the device, and has it as trusted.
abbrev pub IsTrusted : Option TrustStore → DeviceId → KnownDevice → Type 0
IsTrusted trust id d =
    (list : TrustStore) × (trust ≡ some list)
    × (lookup id list.devices ≡ some d)
    × (d.state ≡ trusted)

is_trusted_state : (state : TrustState) → trust_eq state trusted ≡ true → state ≡ trusted
is_trusted_state pending h = absurd (cc)
is_trusted_state trusted h = refl
is_trusted_state blocked h = absurd (cc)

if_trusted-eq-some :
    (o : Option KnownDevice) (d : KnownDevice)
    → if_trusted o ≡ some d
    → (o ≡ some d) × (d.state ≡ trusted)
if_trusted-eq-some none d h = absurd (cc)
if_trusted-eq-some (some c) d h =
    let same : c ≡ d = ground arith in
    let state : c.state ≡ trusted = is_trusted_state c.state (ground arith) in
    (ap some same, sym (ap (λ (k : KnownDevice). k.state) same) ∙ state)

trusted_in-IsTrusted :
    (trust : Option TrustStore) (id : DeviceId) (d : KnownDevice)
    → trusted_in trust id ≡ some d
    → IsTrusted trust id d
unfolding get
trusted_in-IsTrusted none id d h = absurd (cc)
trusted_in-IsTrusted (some list) id d h =
    let (there, state) = if_trusted-eq-some (lookup id list.devices) d h in
    (list, refl, there, state)

if_trusted-some : (d : KnownDevice) → d.state ≡ trusted → if_trusted (some d) ≡ some d
if_trusted-some d state = let e : trust_eq d.state trusted ≡ true = rw state refl in ground arith

IsTrusted-trusted_in :
    (trust : Option TrustStore) (id : DeviceId) (d : KnownDevice)
    → IsTrusted trust id d
    → trusted_in trust id ≡ some d
unfolding get
IsTrusted-trusted_in trust id d (list, given, there, state) =
    ap (λ t. trusted_in t id) given ∙ ap if_trusted there ∙ if_trusted-some d state

module _ (env : Environment) (trust : Option TrustStore) (envelope : Envelope) where
  -- The recipient is the id of a trusted device whose address is not known or does not answer.
  abbrev pub IsMissed : (recipient : Text) → Type 0
  IsMissed recipient =
      (id : DeviceId) × (d : KnownDevice) × (from_hex recipient ≡ ok id)
      × IsTrusted trust id d
      × ((d.last_address ≡ none)
          ⊎ ((address : Text) × (d.last_address ≡ some address)
              × (env.connect_and_send (socket_of address) id envelope ≡ false)))

  -- A delivery to the recipient has to be queued.
  abbrev pub HasToWait : (recipient : Text) → Type 0
  HasToWait recipient = (env.has_runtime ≡ false) ⊎ IsMissed recipient

  waits-IsMissed :
      (recipient : Text) → waits (attempt env trust envelope recipient) ≡ true → IsMissed recipient
  unfolding attempt
  waits-IsMissed recipient h = elim (Result-cases (from_hex recipient)) [
    | inr (e, bad) ↦ absurd (let h' = rw (attempt, bad) at h in cc)
    | inl (id, fine) ↦ elim (Option-cases (trusted_in trust id)) [
      | inl stranger ↦ absurd (let h' = rw (attempt, fine, stranger) at h in cc)
      | inr (d, known) ↦ (
        id,
        d,
        fine,
        trusted_in-IsTrusted trust id d known,
        elim (Option-cases d.last_address) [
          | inl nowhere ↦ inl nowhere
          | inr (address, there) ↦ inr (address, there, ground arith)
        ],
      )
    ]
  ]

  missed-waits :
      (recipient : Text) → IsMissed recipient → waits (attempt env trust envelope recipient) ≡ true
  unfolding attempt
  missed-waits recipient (id, d, fine, of_trust, inl nowhere) =
      rw (attempt, fine, IsTrusted-trusted_in trust id d of_trust, nowhere) refl
  missed-waits recipient (id, d, fine, of_trust, inr (address, there, failing)) =
      rw (attempt, fine, IsTrusted-trusted_in trust id d of_trust, there, failing) refl

  -- What a delivery to these recipients leaves of an entry.
  abbrev pub IsLeft :
      (recipients : List Text) (e r : Text) (before after : Option PendingWorkplaceDelivery)
      → Type 0
  IsLeft recipients e r (some p) after = after ≡ some p
  IsLeft recipients e r none after =
      ((envelope.id ≡ e)
        × In r recipients
        × HasToWait r
        × (after ≡ some (new_delivery envelope r env.now_millis)))
      ⊎ (((envelope.id ≡ e) × In r recipients × HasToWait r → ⊥) × (after ≡ none))

  or_new-IsLeft :
      (recipients : List Text) (e r : Text) (before after : Option PendingWorkplaceDelivery)
      (wanted : Bool)
      → after ≡ or_new before wanted (new_delivery envelope r env.now_millis)
      → (wanted ≡ true → (envelope.id ≡ e) × In r recipients × HasToWait r)
      → ((envelope.id ≡ e) × In r recipients × HasToWait r → wanted ≡ true)
      → IsLeft recipients e r before after
  or_new-IsLeft recipients e r (some p) after wanted same sound complete = same
  or_new-IsLeft recipients e r none after true same sound complete =
      let (of_envelope, listed, waiting) = sound refl in inl (of_envelope, listed, waiting, same)
  or_new-IsLeft recipients e r none after false same sound complete =
      inr (λ h. absurd (let no = complete h in cc), same)

  queued-HasToWait :
      (recipient : Text) → is_queued env trust envelope recipient ≡ true → HasToWait recipient
  queued-HasToWait recipient h = elim (Bool-cases env.has_runtime) [
    | inr nothing ↦ inl nothing
    | inl runs ↦ inr (waits-IsMissed recipient (ground arith))
  ]

  waiting-is_queued :
      (recipient : Text) → HasToWait recipient → is_queued env trust envelope recipient ≡ true
  waiting-is_queued recipient (inl nothing) = rw nothing refl
  waiting-is_queued recipient (inr missed) = let e = missed-waits recipient missed in ground arith

  -- After a delivery the queue has, for the envelope, each recipient that is the id of a trusted
  -- device whose address is not known or does not answer, and each recipient when no runtime could
  -- be built, beside the entries that were there before, which stay as they were; it has no others.
  pub deliver_workplace_envelope_lem :
      (recipients : List Text) (ws : Workspace) (e r : Text)
      → IsLeft recipients e r (entry e r ws.pending_deliveries) (
          entry e r
            ((deliver_workplace_envelope env trust envelope recipients ws).pending_deliveries))
  deliver_workplace_envelope_lem recipients ws e r =
      let q : Text → Bool = λ x. text_eq x r && is_queued env trust envelope x in
      or_new-IsLeft recipients e r (entry e r ws.pending_deliveries) _
        (text_eq envelope.id e && any q recipients)
        (entry-deliver_workplace_envelope env trust envelope recipients ws e r)
        (λ wanted.
          let (x, listed, of_key) = any→In q recipients (ground arith) in
          let same : x ≡ r = text_eq→eq x r (ground arith) in
          let queued : is_queued env trust envelope x ≡ true = ground arith in
          (
            text_eq→eq envelope.id e (ground arith),
            rw same at listed,
            rw same at (queued-HasToWait x queued),
          ))
        (λ (of_envelope, listed, waiting).
          let mine : text_eq envelope.id e ≡ true = rw of_envelope (text_eq_refl e) in
          let of_key : q r ≡ true = rw (text_eq_refl r, waiting-is_queued r waiting) refl in
          let there = In→any q r recipients listed of_key in ground arith)
