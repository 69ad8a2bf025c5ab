-- ===== src/Native/Disk.antt =====
-- What the calls of flutter/native/src/lib.rs read and write: the data directory and the network.
use capsi.Base.{
  ◌≡◌, refl, ◌⊎◌, inl, inr, arith, ℕ, Bool, true, false, ◌&&◌, Option, none, some, if◌then◌else◌,
  Text, ℤ, Result, ok, err, ok_or, ◌>>=◌,
}
use capsi.Protocol.Message.{MessageError, Envelope}
use capsi.Identity.Device.{DeviceId}
use capsi.Identity.Trust.{TrustStore}
use capsi.Workplace.Workspace.{Workspace, WorkplaceError}

-- The data directory: the id behind the keys if they can be read, the trust list if it can be read,
-- the workplace file, and what the file system lets happen to that file. `whole` is false once a
-- write has failed half way: then the file is there, but holds only a part of the workplace.
-- `cuts_short` tells whether a write of a file that fails has emptied it before, as `fs::write` does
-- when the file can be opened.
pub record Disk : Type 0 where
  pub own_id : Option DeviceId
  pub trust : Option TrustStore
  pub workspace : Option Workspace
  pub readable : Bool
  pub whole : Bool
  pub writable : Bool
  pub cuts_short : Bool
  pub removable : Bool

-- The errors of a call, one for each message, and those of the workplace.
pub data CallError : Type 0 where
  no_identity no_workplace unreadable not_saved not_deleted : CallError
  not_allowed not_the_owner : CallError
  name_invalid title_invalid body_invalid : CallError
  group_id_invalid device_id_invalid role_invalid role_unknown : CallError
  creator_not_added member_or_group_not_found not_in_group same_group : CallError
  no_destination broadcast_not_created : CallError
  no_trust_list no_runtime not_in_this_group : CallError
  message_refused : MessageError → CallError
  workplace_error : WorkplaceError → CallError

-- What a call finds around it: readings of the clock, the ids of the envelopes that it makes, one
-- after the other, whether a runtime can be built, and which connections succeed.
pub record Environment : Type 0 where
  pub now : ℕ
  pub now' : ℕ
  pub now_millis : ℤ
  pub new_id : ℕ → Text
  pub has_runtime : Bool
  pub connect_and_send : (socket : Text) (peer : DeviceId) (envelope : Envelope) → Bool

-- `WorkspaceStore::load`.
unfoldable pub load : Disk → Result CallError (Option Workspace)
load disk = elim disk.workspace [
  | none ↦ ok none
  | some ws ↦ if disk.readable && disk.whole then ok (some ws) else err unreadable
]

-- `load()?.ok_or_else(..)?`.
unfoldable pub load_existing : Disk → Result CallError Workspace
unfolding load
load_existing disk = do found ← load disk; ok_or found no_workplace

-- What a write of the workplace file leaves that goes through, and one that fails.
abbrev pub written : Workspace → Disk → Disk
written ws disk = record disk { workspace = some ws; whole = true }

abbrev pub not_written : Workspace → Disk → Disk
not_written ws disk =
    if disk.cuts_short then record disk { workspace = some ws; whole = false } else disk

-- `WorkspaceStore::save`.
unfoldable pub save : Workspace → Disk → Disk × Result CallError (Unit {0})
save ws disk =
    if disk.writable then (written ws disk, ok tt) else (not_written ws disk, err not_saved)

-- What a call that fails leaves: the disk as it was, or, when the write of the workplace failed
-- after it had emptied the file, a file that cannot be read.
abbrev pub IsFailed : (before after : Disk) → CallError → Type 0
IsFailed before after e =
    (after ≡ before)
    ⊎ ((ws : Workspace) × (e ≡ not_saved)
        × (before.writable ≡ false)
        × (before.cuts_short ≡ true)
        × (after ≡ record before { workspace = some ws; whole = false })
        × (load after ≡ err unreadable))

module _ (ws : Workspace) (disk : Disk) (shut : disk.writable ≡ false) where
  cut_or_kept :
      (b : Bool)
      → disk.cuts_short ≡ b
      → IsFailed disk
          (if b then record disk { workspace = some ws; whole = false } else disk)
          not_saved
  unfolding load
  cut_or_kept true cut = inr (ws, refl, shut, cut, refl, ground arith)
  cut_or_kept false kept = inl refl

  pub not_written-IsFailed : IsFailed disk (not_written ws disk) not_saved
  not_written-IsFailed = cut_or_kept disk.cuts_short refl

-- `WorkspaceStore::delete`.
unfoldable pub delete : Disk → Disk × Result CallError (Unit {0})
delete disk = elim disk.workspace [
  | none ↦ (disk, ok tt)
  | some ws ↦
      if disk.removable then (record disk { workspace = none }, ok tt) else (disk, err not_deleted)
]
