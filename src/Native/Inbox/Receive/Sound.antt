-- ===== src/Native/Inbox/Receive/Sound.antt =====
-- The stored workplace stays sound, whatever arrives.
use capsi.Base.{◌≡◌, ◌⊎◌, inl, inr, Option, none, some, ok}
use capsi.Identity.Device.{DeviceId}
use capsi.Identity.Keys.{Primitives}
use capsi.Workplace.State.{WorkspaceState}
use capsi.Workplace.Workspace.{Workspace}
use capsi.Workplace.Sync.{from_network_state}
use capsi.Workplace.History.{synchronized, IsSound, Step-IsSound, Reach-IsSound}
use capsi.Native.Inbox.{DataDir, Arrival}
use capsi.Native.Inbox.Receive.{receive}
use capsi.Native.Inbox.Receive.Structure.{IsAuthorized, kept, stepped, buried, replaced, founded}
use capsi.Native.Inbox.Receive.Authority.{receive-HasAuthority}

-- A workplace that is stored is sound.
abbrev pub IsSoundStore : Option Workspace → Type 0
IsSoundStore none = Unit
IsSoundStore (some ws) = IsSound ws

-- The first copy of a workplace, as its owner has sent it.
abbrev pub IsFirstCopy : (own peer_id : DeviceId) (before after : Option Workspace) → Type 0
IsFirstCopy own peer_id before after =
    (ws : Workspace) × (state : WorkspaceState) × (before ≡ none)
    × (from_network_state state peer_id own ≡ ok ws)
    × (after ≡ some ws)

authorized-IsSound :
    (own peer_id : DeviceId) (before after : Option Workspace)
    → IsSoundStore before
    → IsAuthorized own peer_id before after
    → IsSoundStore after ⊎ IsFirstCopy own peer_id before after
authorized-IsSound own peer_id before after s (kept e) = inl (rw e s)
authorized-IsSound own peer_id before after s (stepped ws ws' there steps same e) =
    inl (rw e (Reach-IsSound (rw there at s) steps))
authorized-IsSound own peer_id before after s (buried ws there of_owner e) = inl (rw e tt)
authorized-IsSound own peer_id before after s (replaced ws m state there inside named ranked e) =
    inl (rw e (Step-IsSound (synchronized state peer_id ws) (rw there at s)))
authorized-IsSound own peer_id before after s (founded ws state there of_owner made e) =
    inr (ws, state, there, made, e)

-- If the references of the stored workplace are consistent and its owner is a member with the role
-- of the owner, then this is still so after any envelope, or there was no workplace and the one
-- that is stored now is the first copy, which its owner has sent.
pub receive-IsSound :
    (p : Primitives) (own : DeviceId) (a : Arrival) (dir : DataDir)
    → IsSoundStore dir.disk.workspace
    → let after = (receive p own a dir).data_dir.disk.workspace in
      IsSoundStore after ⊎ IsFirstCopy own a.peer_id dir.disk.workspace after
receive-IsSound p own a dir s =
    authorized-IsSound own a.peer_id dir.disk.workspace _ s (receive-HasAuthority p own a dir)
