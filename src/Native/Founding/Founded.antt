-- ===== src/Native/Founding/Founded.antt =====
-- The workplace that `capsi_workplace_create` stores.
use capsi.Base.{◌≡◌, true, some, All, Text, Result, ok}
use capsi.Identity.Device.{DeviceId}
use capsi.Identity.Trust.{KnownDevice}
use capsi.Workplace.Workspace.{Workspace, has_member}
use capsi.Workplace.History.{IsSound}
use capsi.Native.Disk.{Disk, CallError, written}
use capsi.Native.Outbox.{WorkplaceSyncStatus}
use capsi.Native.Calls.{Answer}
use capsi.Native.Founding.{invited_devices}

-- The workplace that is stored belongs to this device, is sound and has all trusted devices.
abbrev pub IsFounded :
    (to_lowercase : Text → Text) (disk after : Disk) → Result CallError Answer → Type 0
IsFounded to_lowercase disk after result =
    (own : DeviceId) × (ws : Workspace) × (status : WorkplaceSyncStatus) × (disk.own_id ≡ some own)
    × (result ≡ ok (ws, status))
    × (after ≡ written ws disk)
    × IsSound ws
    × (ws.owner_device_id ≡ own)
    × All (λ (d : KnownDevice). has_member d.device_id ws.members ≡ true)
        (invited_devices to_lowercase disk.trust)
