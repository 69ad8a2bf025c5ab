-- ===== src/Native/Outbox/Flushed.antt =====
-- A flush of the stored queue: what becomes of each entry.
use capsi.Base.{Option, none, some, List, [], if◌then◌else◌, ℤ}
use capsi.Identity.Trust.{TrustStore}
use capsi.Workplace.Workspace.{PendingWorkplaceDelivery, Workspace}
use capsi.Native.Disk.{Disk, Environment}
use capsi.Native.Outbox.Fate.{outcome}
use capsi.Native.Outbox.{attempt, is_due}

-- The entry that is left of an entry when only the due ones are kept.
abbrev if_due : (now : ℤ) → Option PendingWorkplaceDelivery → Option PendingWorkplaceDelivery
if_due now none = none
if_due now (some p) = if is_due now p then some p else none

-- The entry that a flush leaves of an entry: one that is not due stays as it is; a due one goes
-- when its recipient is not a trusted device or the connection succeeds, stays when the device has
-- no address, and is postponed by 30 seconds when the connection fails.
abbrev pub flushed :
    Environment
    → Option TrustStore
    → Option PendingWorkplaceDelivery
    → Option PendingWorkplaceDelivery
flushed env trust none = none
flushed env trust (some p) =
    if is_due env.now_millis p
    then outcome (attempt env trust p.envelope p.recipient_device_id) env.now_millis (some p)
    else some p

-- A disk that holds a workplace with this queue.
abbrev pub queue_of : Disk → List PendingWorkplaceDelivery
queue_of disk = elim disk.workspace [ none ↦ [] | some ws ↦ ws.pending_deliveries ]
