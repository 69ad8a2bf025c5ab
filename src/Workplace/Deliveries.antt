-- ===== src/Workplace/Deliveries.antt =====
-- The delivery queue and the journal of received ids of workplace.rs.
pub mod Journal
pub mod Queue
use capsi.Base.{
  ℕ, ◌+◌, ◌-◌, ◌%◌, ◌^◌, Bool, not, ◌&&◌, none, List, [], ◌∷◌, ◌++◌, ltb, ◌==◌, if◌then◌else◌,
  length, drop, any, retain, update_first, Text, text_eq, ℤ,
}
use capsi.Protocol.Message.{Envelope}
use capsi.Workplace.Workspace.{PendingWorkplaceDelivery, Workspace, contains_id}

-- The test of every search of the queue.
abbrev pub is_delivery : (envelope_id recipient_id : Text) → PendingWorkplaceDelivery → Bool
is_delivery envelope_id recipient_id p =
    text_eq p.envelope.id envelope_id && text_eq p.recipient_device_id recipient_id

-- An entry that was not tried yet.
abbrev pub new_delivery :
    Envelope → (recipient_id : Text) (next_attempt_at : ℤ) → PendingWorkplaceDelivery
new_delivery envelope recipient_id next_attempt_at = record {
  envelope = envelope;
  recipient_device_id = recipient_id;
  attempts = 0;
  next_attempt_at = next_attempt_at;
  last_error = none;
}

unfoldable pub queue_delivery :
    Envelope → (recipient_id : Text) (next_attempt_at : ℤ) → Workspace → Workspace
queue_delivery envelope recipient_id next_attempt_at ws =
    if any (is_delivery envelope.id recipient_id) ws.pending_deliveries then ws else record ws {
      pending_deliveries =
          ws.pending_deliveries ++ new_delivery envelope recipient_id next_attempt_at ∷ [];
    }

unfoldable pub remove_pending_delivery : (envelope_id recipient_id : Text) → Workspace → Workspace
remove_pending_delivery envelope_id recipient_id ws = record ws {
  pending_deliveries =
      retain (λ p. not (is_delivery envelope_id recipient_id p)) ws.pending_deliveries;
}

unfoldable pub mark_delivery_delivered :
    (envelope_id recipient_id : Text) → Workspace → Workspace × Bool
unfolding remove_pending_delivery
mark_delivery_delivered envelope_id recipient_id ws =
    let ws' = remove_pending_delivery envelope_id recipient_id ws in
    (ws', not (length ws.pending_deliveries == length ws'.pending_deliveries))

-- `attempts` is a `u32`.
abbrev pub postpone : ℤ → PendingWorkplaceDelivery → PendingWorkplaceDelivery
postpone next_attempt_at p = record p {
  attempts = (p.attempts + 1) % 2 ^ 32;
  next_attempt_at = next_attempt_at;
}

unfoldable pub reschedule_delivery :
    (envelope_id recipient_id : Text) (next_attempt_at : ℤ) → Workspace → Workspace
reschedule_delivery envelope_id recipient_id next_attempt_at ws = record ws {
  pending_deliveries =
      update_first (is_delivery envelope_id recipient_id) (postpone next_attempt_at)
        ws.pending_deliveries;
}

unfoldable pub has_received_message : (envelope_id : Text) → Workspace → Bool
has_received_message envelope_id ws = contains_id envelope_id ws.received_message_ids

abbrev pub max_received_ids : ℕ
max_received_ids = 4096

-- The journal after the push, cut to the newest ids.
unfoldable pub bound_journal : List Text → List Text
bound_journal ids =
    if ltb max_received_ids (length ids) then drop (length ids - max_received_ids) ids else ids

unfoldable pub mark_received_message : (envelope_id : Text) → Workspace → Workspace
unfolding has_received_message bound_journal
mark_received_message envelope_id ws = record ws {
  received_message_ids = bound_journal (
      if has_received_message envelope_id ws
      then ws.received_message_ids
      else ws.received_message_ids ++ envelope_id ∷ []);
}
