-- ===== src/Native/Outbox/Delivered.antt =====
-- What a delivery leaves in the queue, and what a distribution counts.
use capsi.Base.{
  ℕ, ◌+◌, ◌≡◌, refl, sym, ap, ◌∙◌, inl, inr, Bool, true, false, not, ◌&&◌, ◌||◌, Option, none, some,
  List, [], ◌∷◌, arith, if◌then◌else◌, Bool-cases, Option-cases, length, any, find-append_none,
  find-snoc_ne, Text, text_eq, text_eq→eq, find-eq-none_iff, ℤ,
}
use capsi.Protocol.Message.{Envelope}
use capsi.Identity.Device.{DeviceId}
use capsi.Identity.Trust.{KnownDevice, TrustStore}
use capsi.Workplace.State.{WorkspaceState}
use capsi.Workplace.Workspace.{PendingWorkplaceDelivery, Workspace, new}
use capsi.Workplace.Deliveries.{is_delivery, new_delivery, queue_delivery}
use capsi.Native.Disk.{Environment}
use capsi.Native.Outbox.{
  Attempt, untrusted, unaddressed, unreachable, reached, attempt, after_attempt,
  deliver_workplace_envelope, send_state, send_to_all, counted, sync_with, members_in,
  sync_state_to_members,
}
use capsi.Native.Outbox.Fate.{entry}

-- Whether a delivery to this recipient has to be queued.
abbrev pub waits : Attempt → Bool
waits untrusted = false
waits unaddressed = true
waits unreachable = true
waits reached = false

-- An entry, or a new one if there is none and it is wanted.
abbrev pub or_new :
    Option PendingWorkplaceDelivery
    → (wanted : Bool) → PendingWorkplaceDelivery
    → Option PendingWorkplaceDelivery
or_new (some p) wanted new = some p
or_new none wanted new = if wanted then some new else none

or_new-false :
    (p : Option PendingWorkplaceDelivery) (new : PendingWorkplaceDelivery) → or_new p false new ≡ p
or_new-false none new = refl
or_new-false (some p) new = refl

or_new-or_new :
    (p : Option PendingWorkplaceDelivery) (a b : Bool) (new : PendingWorkplaceDelivery)
    → or_new (or_new p a new) b new ≡ or_new p (a || b) new
or_new-or_new (some p) a b new = refl
or_new-or_new none true b new = refl
or_new-or_new none false b new = refl

after_attempt_lem :
    (a : Attempt) (envelope : Envelope) (x : Text) (now : ℤ) (ws : Workspace)
    → after_attempt a envelope x now ws ≡ (if waits a then queue_delivery envelope x now ws else ws)
after_attempt_lem untrusted envelope x now ws = refl
after_attempt_lem unaddressed envelope x now ws = refl
after_attempt_lem unreachable envelope x now ws = refl
after_attempt_lem reached envelope x now ws = refl

entry-queue_delivery :
    (envelope : Envelope) (x e r : Text) (now : ℤ) (ws : Workspace)
    → entry e r ((queue_delivery envelope x now ws).pending_deliveries)
      ≡ or_new
          (entry e r ws.pending_deliveries)
          (text_eq envelope.id e && text_eq x r)
          (new_delivery envelope r now)
unfolding queue_delivery
entry-queue_delivery envelope x e r now ws =
    let queue = ws.pending_deliveries in
    let absent = find-eq-none_iff (is_delivery e r) queue in
    elim (Bool-cases (text_eq envelope.id e && text_eq x r)) [
      | inl mine ↦
          let same_e : envelope.id ≡ e = text_eq→eq envelope.id e (ground arith) in
          let same_r : x ≡ r = text_eq→eq x r (ground arith) in
          let same : any (is_delivery envelope.id x) queue ≡ any (is_delivery e r) queue =
            rw (same_e, same_r) refl in
          elim (Option-cases (entry e r queue)) [
            | inl missing ↦
                let fresh : any (is_delivery envelope.id x) queue ≡ false = ground arith in
                rw (fresh, missing, mine)
                  (find-append_none (is_delivery e r) queue (new_delivery envelope x now ∷ [])
                      missing
                    ∙ rw (mine, same_r) refl)
            | inr (p, found) ↦
                let there : any (is_delivery envelope.id x) queue ≡ true = ground arith in
                rw (there, found) refl
          ]
      | inr other ↦
          let kept = find-snoc_ne (is_delivery e r) queue (new_delivery envelope x now) other in
          rw other (elim (Bool-cases (any (is_delivery envelope.id x) queue)) [
            | inl there ↦
                rw there (sym (or_new-false (entry e r queue) (new_delivery envelope r now)))
            | inr fresh ↦
                rw fresh (kept ∙ sym (or_new-false (entry e r queue) (new_delivery envelope r now)))
          ])
    ]

module _ (env : Environment) (trust : Option TrustStore) (envelope : Envelope) where
  -- Whether a recipient's delivery is queued.
  abbrev pub is_queued : (recipient : Text) → Bool
  is_queued recipient = not env.has_runtime || waits (attempt env trust envelope recipient)

  -- One recipient.
  abbrev one : (recipient : Text) → Workspace → Workspace
  one x ws =
      if env.has_runtime
      then after_attempt (attempt env trust envelope x) envelope x env.now_millis ws
      else queue_delivery envelope x env.now_millis ws

  -- With a runtime or without one.
  either :
      (b : Bool) (x : Text) (ws : Workspace)
      → (if b
          then after_attempt (attempt env trust envelope x) envelope x env.now_millis ws
          else queue_delivery envelope x env.now_millis ws)
        ≡ (if not b || waits (attempt env trust envelope x)
            then queue_delivery envelope x env.now_millis ws
            else ws)
  either true x ws = after_attempt_lem (attempt env trust envelope x) envelope x env.now_millis ws
  either false x ws = refl

  one_lem :
      (x : Text) (ws : Workspace)
      → one x ws ≡ (if is_queued x then queue_delivery envelope x env.now_millis ws else ws)
  one_lem x ws = either env.has_runtime x ws

  if_queued :
      (x : Text) (ws : Workspace) (e r : Text)
      → entry e r (
          (if is_queued x
            then queue_delivery envelope x env.now_millis ws
            else ws).pending_deliveries)
        ≡ or_new
            (entry e r ws.pending_deliveries)
            (text_eq envelope.id e && (text_eq x r && is_queued x))
            (new_delivery envelope r env.now_millis)
  if_queued x ws e r = elim (Bool-cases (is_queued x)) [
    | inl queued ↦
        let wanted : (text_eq envelope.id e && (text_eq x r && true))
            ≡ (text_eq envelope.id e && text_eq x r) =
          ground arith in
        rw (queued, wanted) (entry-queue_delivery envelope x e r env.now_millis ws)
    | inr dropped ↦
        let unwanted : (text_eq envelope.id e && (text_eq x r && false)) ≡ false = ground arith in
        rw (dropped, unwanted)
          (sym (
            or_new-false (entry e r ws.pending_deliveries)
              (new_delivery envelope r env.now_millis)))
  ]

  -- The entry of a key after a delivery.
  pub entry-deliver_workplace_envelope :
      (recipients : List Text) (ws : Workspace) (e r : Text)
      → entry e r ((deliver_workplace_envelope env trust envelope recipients ws).pending_deliveries)
        ≡ or_new
            (entry e r ws.pending_deliveries)
            (text_eq envelope.id e && any (λ x. text_eq x r && is_queued x) recipients)
            (new_delivery envelope r env.now_millis)
  unfolding deliver_workplace_envelope
  entry-deliver_workplace_envelope [] ws e r =
      let nothing : (text_eq envelope.id e && false) ≡ false = ground arith in
      rw nothing (
        sym
          (or_new-false (entry e r ws.pending_deliveries) (new_delivery envelope r env.now_millis)))
  entry-deliver_workplace_envelope (x ∷ recipients) ws e r =
      let ih = entry-deliver_workplace_envelope recipients (one x ws) e r in
      let new = new_delivery envelope r env.now_millis in
      let others = any (λ y. text_eq y r && is_queued y) recipients in
      let first : entry e r ((one x ws).pending_deliveries)
          ≡ or_new (entry e r ws.pending_deliveries)
              (text_eq envelope.id e && (text_eq x r && is_queued x)) new =
        ap (λ (w : Workspace). entry e r w.pending_deliveries) (one_lem x ws)
        ∙ if_queued x ws e r in
      let joined : ((text_eq envelope.id e && (text_eq x r && is_queued x))
            || (text_eq envelope.id e && others))
          ≡ (text_eq envelope.id e && ((text_eq x r && is_queued x) || others)) =
        ground arith in
      ih
      ∙ (ap (λ t. or_new t (text_eq envelope.id e && others) new) first
          ∙ (or_new-or_new (entry e r ws.pending_deliveries)
                (text_eq envelope.id e && (text_eq x r && is_queued x))
                (text_eq envelope.id e && others) new
              ∙ ap (λ t. or_new (entry e r ws.pending_deliveries) t new) joined))

send_to_all_lem :
    (env : Environment) (local_id : DeviceId) (state : WorkspaceState) (place : ℕ)
    (devices : List KnownDevice) (sent_count lost_count : ℕ)
    → let (sent_count', lost_count') =
        send_to_all env local_id state place devices sent_count lost_count in
      sent_count' + lost_count' ≡ sent_count + lost_count + length devices
unfolding send_to_all
send_to_all_lem env local_id state place [] sent_count lost_count = omega arith
send_to_all_lem env local_id state place (d ∷ devices) sent_count lost_count =
    elim (Bool-cases (send_state env local_id state place d)) [
      | inl sent ↦
          rw (sent, send_to_all)
            (send_to_all_lem env local_id state (place + 1) devices (sent_count + 1) lost_count
              ∙ omega arith)
      | inr lost ↦
          rw (lost, send_to_all)
            (send_to_all_lem env local_id state (place + 1) devices sent_count (lost_count + 1)
              ∙ omega arith)
    ]

counted_lem :
    (b : Bool) (n : ℕ) (counts : ℕ × ℕ)
    → counts.0 + counts.1 ≡ n
    → let status =
        if b then counted counts else record { attempted = n; delivered = 0; failed = n } in
      (status.attempted ≡ n) × (status.delivered + status.failed ≡ status.attempted)
counted_lem true n counts h = (h, refl)
counted_lem false n counts h = (refl, omega arith)

sync_with_lem :
    (env : Environment) (local_id : DeviceId) (state : WorkspaceState) (devices : List KnownDevice)
    → let status = sync_with env local_id state devices in
      (status.attempted ≡ length devices) × (status.delivered + status.failed ≡ status.attempted)
sync_with_lem env local_id state [] = (refl, refl)
sync_with_lem env local_id state (d ∷ devices) =
    counted_lem env.has_runtime (length (d ∷ devices))
      (send_to_all env local_id state 1 (d ∷ devices) 0 0)
      (send_to_all_lem env local_id state 1 (d ∷ devices) 0 0 ∙ omega arith)

-- A distribution attempts exactly the other members that are trusted devices, none when the trust
-- list cannot be read, and counts each of them as delivered or failed.
pub sync_state_to_members_lem :
    (env : Environment) (local_id : DeviceId) (trust : Option TrustStore) (ws : Workspace)
    (state : WorkspaceState)
    → let status = sync_state_to_members env local_id trust ws state in
      (status.attempted ≡ length (members_in local_id trust ws.members))
      × (status.delivered + status.failed ≡ status.attempted)
unfolding sync_state_to_members
sync_state_to_members_lem env local_id trust ws state =
    sync_with_lem env local_id state (members_in local_id trust ws.members)
