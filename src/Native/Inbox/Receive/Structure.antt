-- ===== src/Native/Inbox/Receive/Structure.antt =====
-- What of the stored workplace a message cannot change, and what a state that was sent can.
use capsi.Native.Disk.{Disk, CallError, load, save, delete}
use capsi.Base.{
  ℕ, ◌≡◌, refl, ◌⊎◌, inl, inr, Bool, true, false, Option, none, some, List, arith, if◌then◌else◌,
  Text, text_eq→eq, In, ℤ, Result, ok, err,
}
use capsi.Protocol.Message.{Envelope}
use capsi.Identity.Device.{DeviceId}
use capsi.Workplace.State.{owner, admin, Member, Group, Department, WorkspaceState}
use capsi.Workplace.Workspace.{Workspace}
use capsi.Workplace.Sync.{apply_network_state, from_network_state}
use capsi.Workplace.Messages.{append_message, receive_broadcast}
use capsi.Workplace.History.{Reach}
use capsi.Native.Inbox.{DataDir, Arrival, Event, Reaction}
use capsi.Native.Inbox.Workplaces.{with_disk, after_save}

-- What a workplace is, without its messages, broadcasts and queues.
pub record Structure : Type 0 where
  pub id : Text
  pub owner_device_id : Text
  pub members : List Member
  pub groups : List Group
  pub departments : List Department

abbrev pub structure_of : Workspace → Structure
structure_of ws = record {
  id = ws.id;
  owner_device_id = ws.owner_device_id;
  members = ws.members;
  groups = ws.groups;
  departments = ws.departments;
}

-- How the stored workplace may come to differ after an envelope of the peer.
pub data IsAuthorized (own peer_id : DeviceId) (before after : Option Workspace) : Type 0 where
  kept : after ≡ before → IsAuthorized own peer_id before after
  stepped :
      (ws ws' : Workspace)
      → before ≡ some ws
      → Reach ws ws'
      → structure_of ws' ≡ structure_of ws
      → after ≡ some ws'
      → IsAuthorized own peer_id before after
  buried :
      (ws : Workspace)
      → before ≡ some ws
      → ws.owner_device_id ≡ peer_id
      → after ≡ none
      → IsAuthorized own peer_id before after
  replaced :
      (ws : Workspace) (m : Member) (state : WorkspaceState)
      → before ≡ some ws
      → In m ws.members
      → m.device_id ≡ peer_id
      → (m.role ≡ owner) ⊎ (m.role ≡ admin)
      → after ≡ some (apply_network_state ws state peer_id).0
      → IsAuthorized own peer_id before after
  founded :
      (ws : Workspace) (state : WorkspaceState)
      → before ≡ none
      → state.owner_device_id ≡ peer_id
      → from_network_state state peer_id own ≡ ok ws
      → after ≡ some ws
      → IsAuthorized own peer_id before after

-- What is read from and written to the disk.
pub load-eq-ok :
    (disk : Disk) (found : Option Workspace) → load disk ≡ ok found → disk.workspace ≡ found
unfolding load
load-eq-ok disk found h = ground arith

pub workspace-save :
    (ws : Workspace) (disk : Disk)
    → ((save ws disk).0.workspace ≡ disk.workspace) ⊎ ((save ws disk).0.workspace ≡ some ws)
unfolding save
workspace-save ws disk = ground arith

pub workspace-delete :
    (disk : Disk)
    → ((delete disk).0.workspace ≡ disk.workspace) ⊎ ((delete disk).0.workspace ≡ none)
unfolding delete
workspace-delete disk = ground arith

pub structure-append_message :
    (group_id sender_id body : Text) (now now' : ℕ) (ws : Workspace)
    → structure_of (append_message group_id sender_id body now now' ws).0 ≡ structure_of ws
unfolding append_message
structure-append_message group_id sender_id body now now' ws = ground arith

pub structure-receive_broadcast :
    (id title body author_id : Text) (department_id : Option Text) (created_at : ℤ) (ws : Workspace)
    → structure_of (receive_broadcast id title body author_id department_id created_at ws).0
      ≡ structure_of ws
unfolding receive_broadcast
structure-receive_broadcast id title body author_id department_id created_at ws = ground arith

pub from_network_state-owner :
    (state : WorkspaceState) (peer_id own : Text) (ws : Workspace)
    → from_network_state state peer_id own ≡ ok ws
    → state.owner_device_id ≡ peer_id
unfolding from_network_state
from_network_state-owner state peer_id own ws h =
    text_eq→eq state.owner_device_id peer_id (ground arith)

module _ (own : DeviceId) (a : Arrival) (dir : DataDir) where
  abbrev pub HasAuthority : DataDir → Type 0
  HasAuthority dir' = IsAuthorized own a.peer_id dir.disk.workspace dir'.disk.workspace

  pub if-HasAuthority :
      (test : Bool) (r r' : Reaction)
      → HasAuthority r.data_dir
      → HasAuthority r'.data_dir
      → HasAuthority (if test then r else r').data_dir
  if-HasAuthority true r r' h h' = h
  if-HasAuthority false r r' h h' = h'

  pub after_save-workspace :
      (event : Event) (replies : List (Text × Envelope)) (r : Disk × Result CallError (Unit {0}))
      → (after_save event replies dir r).data_dir.disk ≡ r.0
  after_save-workspace event replies (disk, err e) = refl
  after_save-workspace event replies (disk, ok _) = refl

  -- A workplace of the same structure that is saved.
  pub save-HasAuthority :
      (ws ws' : Workspace)
      → dir.disk.workspace ≡ some ws
      → Reach ws ws'
      → structure_of ws' ≡ structure_of ws
      → HasAuthority (with_disk ((save ws' dir.disk).0) dir)
  save-HasAuthority ws ws' there steps same = elim (workspace-save ws' dir.disk) [
    | inl unsaved ↦ kept unsaved
    | inr saved ↦ stepped ws ws' there steps same saved
  ]
