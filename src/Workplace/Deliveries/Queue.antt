-- ===== src/Workplace/Deliveries/Queue.antt =====
-- The delivery queue as a map from an envelope and a recipient to one entry.
use capsi.Base.{
  ◌≡◌, refl, ◌≢◌, ◌↔◌, ◌⊎◌, inl, inr, true, false, Option, none, some, arith, Bool-cases, length,
  find, any, find-append_none, find-snoc_ne, Text, text_eq_iff, text_eq_refl, find-update_first_ne,
  find-update_first_self, length-update_first, find-retain_self, find-retain_ne, retain_of_not-any,
  length-retain-lt, find-eq-none_iff, ℤ,
}
use capsi.Protocol.Message.{Envelope}
use capsi.Workplace.Workspace.{PendingWorkplaceDelivery, Workspace}
use capsi.Workplace.Deliveries.{
  is_delivery, new_delivery, queue_delivery, mark_delivery_delivered, postpone, reschedule_delivery,
}

-- The entry of an envelope and a recipient.
abbrev pub delivery :
    (envelope_id recipient_id : Text) → Workspace → Option PendingWorkplaceDelivery
delivery envelope_id recipient_id ws =
    find (is_delivery envelope_id recipient_id) ws.pending_deliveries

-- Two keys that differ in the envelope or in the recipient.
abbrev pub Differs : (e r e' r' : Text) → Type 0
Differs e r e' r' = (e ≢ e') ⊎ (r ≢ r')

is_delivery_ne :
    (e r e' r' : Text) (p : PendingWorkplaceDelivery)
    → Differs e r e' r'
    → is_delivery e r p ≡ true
    → is_delivery e' r' p ≡ false
is_delivery_ne e r e' r' p differs h = ground (
  arith,
  text_eq_iff p.envelope.id e,
  text_eq_iff p.envelope.id e',
  text_eq_iff p.recipient_device_id r,
  text_eq_iff p.recipient_device_id r',
)

-- Queueing an envelope for a recipient adds an entry with no attempts, unless there is one, which
-- then stays as it is; the entries of other envelopes and recipients stay as they are.
pub delivery-queue_delivery :
    (envelope : Envelope) (r : Text) (time : ℤ) (ws : Workspace)
    → let after = queue_delivery envelope r time ws in
      ((p : PendingWorkplaceDelivery) → delivery envelope.id r ws ≡ some p → after ≡ ws)
      × (delivery envelope.id r ws ≡ none
          → delivery envelope.id r after ≡ some (new_delivery envelope r time))
      × ((e' r' : Text) → Differs envelope.id r e' r' → delivery e' r' after ≡ delivery e' r' ws)
unfolding queue_delivery
delivery-queue_delivery envelope r time ws =
    elim (Bool-cases (any (is_delivery envelope.id r) ws.pending_deliveries)) [
      | inl there ↦ rw there (
        λ p found. refl,
        λ missing.
            absurd
              (ground (arith, find-eq-none_iff (is_delivery envelope.id r) ws.pending_deliveries)),
        λ e' r' differs. refl,
      )
      | inr fresh ↦ rw fresh (
        λ p found.
            absurd
              (ground (arith, find-eq-none_iff (is_delivery envelope.id r) ws.pending_deliveries)),
        λ missing.
            rw (find-append_none (is_delivery envelope.id r) ws.pending_deliveries _ missing)
              (rw (text_eq_refl envelope.id, text_eq_refl r)),
        λ e' r' differs.
            find-snoc_ne (is_delivery e' r') ws.pending_deliveries (new_delivery envelope r time) (
              is_delivery_ne envelope.id r e' r' (new_delivery envelope r time) differs
                (rw (text_eq_refl envelope.id, text_eq_refl r))),
      )
    ]

-- A receipt from a recipient removes the entry of its envelope and no other, and reports whether
-- there was one.
pub delivery-mark_delivery_delivered :
    (e r : Text) (ws : Workspace)
    → let (after, removed) = mark_delivery_delivered e r ws in
      (delivery e r after ≡ none)
      × ((e' r' : Text) → Differs e r e' r' → delivery e' r' after ≡ delivery e' r' ws)
      × ((removed ≡ false) ↔ (delivery e r ws ≡ none))
unfolding mark_delivery_delivered
delivery-mark_delivery_delivered e r ws = (
  find-retain_self (is_delivery e r) ws.pending_deliveries,
  λ e' r' differs.
      find-retain_ne (is_delivery e r) (is_delivery e' r')
        (λ p h. is_delivery_ne e r e' r' p differs h) ws.pending_deliveries,
  elim (Bool-cases (any (is_delivery e r) ws.pending_deliveries)) [
    | inl there ↦ ground (
      arith,
      length-retain-lt (is_delivery e r) ws.pending_deliveries there,
      find-eq-none_iff (is_delivery e r) ws.pending_deliveries,
    )
    | inr gone ↦
        rw (retain_of_not-any (is_delivery e r) ws.pending_deliveries gone)
          (ground (arith, find-eq-none_iff (is_delivery e r) ws.pending_deliveries))
  ],
)

-- A failed attempt counts, within 32 bits, and moves the entry's next attempt; the other entries
-- stay as they are, and no entry is added or removed.
pub delivery-reschedule_delivery :
    (e r : Text) (time : ℤ) (ws : Workspace)
    → let after = reschedule_delivery e r time ws in
      ((p : PendingWorkplaceDelivery)
        → delivery e r ws ≡ some p
        → delivery e r after ≡ some (postpone time p))
      × ((e' r' : Text) → Differs e r e' r' → delivery e' r' after ≡ delivery e' r' ws)
      × (length after.pending_deliveries ≡ length ws.pending_deliveries)
unfolding reschedule_delivery
delivery-reschedule_delivery e r time ws = (
  λ p found.
      find-update_first_self (is_delivery e r) (postpone time) (λ p h. h) ws.pending_deliveries p
        found,
  λ e' r' differs.
      find-update_first_ne (is_delivery e r) (postpone time) (is_delivery e' r')
        (λ p h. is_delivery_ne e r e' r' p differs h) (λ p h. is_delivery_ne e r e' r' p differs h)
        ws.pending_deliveries,
  length-update_first (is_delivery e r) (postpone time) ws.pending_deliveries,
)
