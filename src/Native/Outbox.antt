-- ===== src/Native/Outbox.antt =====
-- What leaves the device: `deliver_workplace_envelope`, `flush_workplace_deliveries` and
-- `sync_state_to_members` of flutter/native/src/lib.rs.
pub mod Fate
pub mod Flushed
pub mod Delivered
pub mod Missed
use capsi.Base.{
  ℕ, ◌+◌, Bool, true, false, not, ◌||◌, Option, none, some, List, [], ◌∷◌, ◌++◌, map, ◌==◌,
  if◌then◌else◌, length, any, retain, Text, text_eq, ℤ, pos, ◌<ℤ◌, ◌+ℤ◌, Result, ok, err,
}
use capsi.Base.Decimal.{to_decimal}
use capsi.Protocol.Message.{workplace_sync, Envelope, new_envelope}
use capsi.Identity.Device.{DeviceId, from_hex}
use capsi.Identity.Trust.{trusted, trust_eq, KnownDevice, TrustStore, get}
use capsi.Workplace.State.{Member, WorkspaceState}
use capsi.Workplace.Workspace.{PendingWorkplaceDelivery, Workspace}
use capsi.Workplace.Deliveries.{queue_delivery, remove_pending_delivery, reschedule_delivery}
use capsi.Native.Disk.{Disk, CallError, Environment, load, save}

-- `TCP_SERVICE_PORT`.
abbrev pub tcp_service_port : ℕ
tcp_service_port = 45892

-- `rsplit_once(':')`, the part in front, or the whole address.
unfoldable pub host_of : Text → Text
host_of [] = []
host_of (c ∷ s) =
    let rest = host_of s in
    if any (λ d. d == b':') s then c ∷ rest else if c == b':' then [] else c ∷ s

unfoldable pub socket_of : (address : Text) → Text
unfolding host_of to_decimal
socket_of address = host_of address ++ (b':' ∷ to_decimal tcp_service_port)

-- `trust.get(..).filter(|device| device.is_trusted())`.
abbrev pub if_trusted : Option KnownDevice → Option KnownDevice
if_trusted none = none
if_trusted (some d) = if trust_eq d.state trusted then some d else none

abbrev pub trusted_in : Option TrustStore → DeviceId → Option KnownDevice
trusted_in none id = none
trusted_in (some trust) id = if_trusted (get id trust)

-- What one attempt comes to: no such device is trusted, its address is not known, or the connection
-- fails or succeeds.
pub data Attempt : Type 0 where
  untrusted unaddressed unreachable reached : Attempt

abbrev pub attempt_at : Environment → Envelope → DeviceId → Option KnownDevice → Attempt
attempt_at env envelope id none = untrusted
attempt_at env envelope id (some d) = elim d.last_address [
  | none ↦ unaddressed
  | some address ↦
      if env.connect_and_send (socket_of address) id envelope then reached else unreachable
]

unfoldable pub attempt : Environment → Option TrustStore → Envelope → (recipient : Text) → Attempt
unfolding from_hex get socket_of
attempt env trust envelope recipient = elim (from_hex recipient) [
  | err e ↦ untrusted
  | ok id ↦ attempt_at env envelope id (trusted_in trust id)
]

-- A recipient in the loop of `deliver_workplace_envelope`.
abbrev pub after_attempt :
    Attempt → Envelope → (recipient : Text) (now_millis : ℤ) → Workspace → Workspace
after_attempt untrusted envelope recipient now_millis ws = ws
after_attempt unaddressed envelope recipient now_millis ws =
    queue_delivery envelope recipient now_millis ws
after_attempt unreachable envelope recipient now_millis ws =
    queue_delivery envelope recipient now_millis ws
after_attempt reached envelope recipient now_millis ws = ws

unfoldable pub deliver_workplace_envelope :
    Environment → Option TrustStore → Envelope → (recipients : List Text) → Workspace → Workspace
deliver_workplace_envelope env trust envelope [] ws = ws
deliver_workplace_envelope env trust envelope (recipient ∷ recipients) ws =
    deliver_workplace_envelope env trust envelope recipients (
      if env.has_runtime
      then after_attempt (attempt env trust envelope recipient) envelope recipient env.now_millis ws
      else queue_delivery envelope recipient env.now_millis ws)

-- A due delivery in the loop of `flush_workplace_deliveries`, and whether it changed anything.
abbrev pub settle :
    Attempt → (envelope_id recipient : Text) (now : ℤ) → Workspace → Workspace × Bool
settle untrusted envelope_id recipient now ws =
    (remove_pending_delivery envelope_id recipient ws, true)
settle unaddressed envelope_id recipient now ws = (ws, false)
settle unreachable envelope_id recipient now ws =
    (reschedule_delivery envelope_id recipient (now +ℤ pos 30000) ws, true)
settle reached envelope_id recipient now ws =
    (remove_pending_delivery envelope_id recipient ws, true)

unfoldable pub settle_all :
    Environment → Option TrustStore → (due : List (Envelope × Text)) → Workspace → Workspace × Bool
settle_all env trust [] ws = (ws, false)
settle_all env trust ((envelope, recipient) ∷ due) ws =
    let (ws', changed) =
      settle (attempt env trust envelope recipient) envelope.id recipient env.now_millis ws in
    let (ws'', changed') = settle_all env trust due ws' in (ws'', changed || changed')

abbrev pub is_due : (now : ℤ) → PendingWorkplaceDelivery → Bool
is_due now p = not (now <ℤ p.next_attempt_at)

abbrev pub key_of : PendingWorkplaceDelivery → Envelope × Text
key_of p = (p.envelope, p.recipient_device_id)

-- The workplace that was read, flushed; an empty queue and one without a due delivery need no
-- test of their own, since then nothing changes and nothing is saved.
abbrev pub flush_loaded : Environment → Disk → Result CallError (Option Workspace) → Disk
flush_loaded env disk (err e) = disk
flush_loaded env disk (ok none) = disk
flush_loaded env disk (ok (some ws)) =
    let due = map key_of (retain (is_due env.now_millis) ws.pending_deliveries) in
    let (ws', changed) = settle_all env disk.trust due ws in
    if changed then (save ws' disk).0 else disk

unfoldable pub flush_workplace_deliveries : Environment → Disk → Disk
unfolding load settle_all save
flush_workplace_deliveries env disk = flush_loaded env disk (load disk)

pub record WorkplaceSyncStatus : Type 0 where
  pub attempted : ℕ
  pub delivered : ℕ
  pub failed : ℕ

-- The other members that are trusted devices.
unfoldable pub trusted_members : (local_id : DeviceId) → TrustStore → List Member → List KnownDevice
unfolding from_hex get
trusted_members local_id trust [] = []
trusted_members local_id trust (m ∷ members) =
    let rest = trusted_members local_id trust members in
    if text_eq m.device_id local_id then rest else elim (from_hex m.device_id) [
      | err e ↦ rest
      | ok id ↦ elim (if_trusted (get id trust)) [ none ↦ rest | some d ↦ d ∷ rest ]
    ]

-- One member in the loop of `sync_state_to_members`, with the place of its envelope.
unfoldable pub send_state :
    Environment → (local_id : DeviceId) → WorkspaceState → (place : ℕ) → KnownDevice → Bool
unfolding new_envelope socket_of
send_state env local_id state place d = elim d.last_address [
  | none ↦ false
  | some address ↦ env.connect_and_send (socket_of address) d.device_id (
      new_envelope (env.new_id place) env.now_millis
        (workplace_sync (record { actor_device_id = local_id; state = state })))
]

unfoldable pub send_to_all :
    Environment
    → (local_id : DeviceId) → WorkspaceState
    → (place : ℕ) → List KnownDevice
    → (delivered failed : ℕ) → ℕ × ℕ
unfolding send_state
send_to_all env local_id state place [] delivered failed = (delivered, failed)
send_to_all env local_id state place (d ∷ devices) delivered failed =
    let sent = send_state env local_id state place d in
    send_to_all env local_id state (place + 1) devices (if sent then delivered + 1 else delivered)
      (if sent then failed else failed + 1)

abbrev pub no_sync : WorkplaceSyncStatus
no_sync = record { attempted = 0; delivered = 0; failed = 0 }

abbrev pub counted : ℕ × ℕ → WorkplaceSyncStatus
counted (delivered, failed) = record {
  attempted = delivered + failed;
  delivered = delivered;
  failed = failed;
}

abbrev pub sync_with :
    Environment → (local_id : DeviceId) → WorkspaceState → List KnownDevice → WorkplaceSyncStatus
sync_with env local_id state [] = no_sync
sync_with env local_id state (d ∷ devices) =
    if env.has_runtime
    then counted (send_to_all env local_id state 1 (d ∷ devices) 0 0)
    else record { attempted = length (d ∷ devices); delivered = 0; failed = length (d ∷ devices) }

abbrev pub members_in : (local_id : DeviceId) → Option TrustStore → List Member → List KnownDevice
members_in local_id none members = []
members_in local_id (some trust) members = trusted_members local_id trust members

unfoldable pub sync_state_to_members :
    Environment
    → (local_id : DeviceId) → Option TrustStore
    → Workspace
    → WorkspaceState
    → WorkplaceSyncStatus
unfolding trusted_members send_to_all
sync_state_to_members env local_id trust ws state =
    sync_with env local_id state (members_in local_id trust ws.members)
