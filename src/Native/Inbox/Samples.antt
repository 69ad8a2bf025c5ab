-- ===== src/Native/Inbox/Samples.antt =====
-- The theorems on the listener and on the trust list at one small data directory.
use capsi.Base.{
  ◌≤◌, ◌≡◌, refl, ◌⊎◌, true, false, none, some, List, [], ◌∷◌, ◌++◌, replicate, arith, length, Text,
  codes, text_eq, pos,
}
use capsi.Base.Maps.{lookup}
use capsi.Protocol.Message.{
  WorkplaceTextMessage, workplace_text, workplace_sync, delivery_receipt, Envelope, new_envelope,
}
use capsi.Identity.Trust.{trusted, TrustStore, get, newcomer}
use capsi.Identity.Toy.{toy}
use capsi.Workplace.State.{owner, member, WorkspaceState}
use capsi.Workplace.Workspace.{Workspace, new, network_state}
use capsi.Native.Disk.{Environment}
use capsi.Native.Outbox.{trusted_in}
use capsi.Native.Inbox.{
  DataDir, FileSystem, Arrival, chunk_invalid, Event, problem, workplace_broadcast_event, nothing,
  reply_to,
}
use capsi.Native.Inbox.Workplaces.{take_workplace_text}
use capsi.Native.Inbox.Workplaces.Twice.{take_workplace_text_twice}
use capsi.Native.Inbox.Receive.{max_events, message_events, timed_out, arrived, receive, listen}
use capsi.Native.Inbox.Receive.Queue.{newest, message_events_lem}
use capsi.Native.Inbox.Receive.Isolation.{IsUntouched, listen-IsUntouched}
use capsi.Native.Inbox.Receive.Structure.{IsAuthorized}
use capsi.Native.Inbox.Receive.Authority.{receive-HasAuthority}
use capsi.Native.Trusting.{Sighting, observe_all}
use capsi.Native.Trusting.Race.{Shared, Step, loading, saving, accepting, run, decisions_are_lost}
use capsi.Native.Inbox.Receive.Sound.{IsSoundStore, IsFirstCopy, receive-IsSound}
use capsi.Workplace.History.{new-IsSound}

abbrev own_id : Text
own_id = codes "own"

abbrev peer : Text
peer = codes "peer"

abbrev stranger : Text
stranger = codes "else"

abbrev surroundings : Environment
surroundings = record {
  now = 1000;
  now' = 1000;
  now_millis = pos 1000000;
  new_id = λ n. codes "e";
  has_runtime = true;
  connect_and_send = λ socket peer envelope. true;
}

abbrev all_free : FileSystem
all_free = record {
  root = codes "/data";
  can_make_dir = λ path. true;
  can_create = λ path. true;
  can_open = λ path. true;
  can_read = λ path. true;
  room = λ path. 1000000;
  can_rename = λ from to. true;
  can_remove = λ path. true;
}

abbrev hello : WorkplaceTextMessage
hello = record { group_id = codes "g1"; body = codes "hello" }

abbrev hello_arrives : Arrival
hello_arrives = record {
  env = surroundings;
  fs = all_free;
  ip = codes "10.0.0.2";
  peer_id = peer;
  envelope = new_envelope (codes "e1") (pos 1) (workplace_text hello);
}

abbrev team : Workspace
team = record {
  id = codes "workspace-1";
  name = codes "Team";
  created_at = pos 1;
  updated_at = pos 1;
  owner_device_id = own_id;
  members =
      record { device_id = own_id; display_name = []; role = owner; department_id = none }
      ∷ record { device_id = peer; display_name = []; role = member; department_id = none }
      ∷ [];
  groups =
      record {
        id = codes "g1";
        name = codes "All";
        description = [];
        member_ids = own_id ∷ peer ∷ [];
      }
      ∷ [];
  departments = [];
  broadcasts = [];
  messages = [];
  pending_deliveries = [];
  received_message_ids = [];
}

abbrev trusting : TrustStore
trusting = record {
  devices =
      (
        peer,
        record (newcomer peer (codes "Peer") (codes "10.0.0.2:45892") (pos 1)) { state = trusted },
      )
      ∷ [];
  dirty = false;
}

abbrev small_dir : DataDir
small_dir = record {
  disk = record {
    own_id = some own_id;
    trust = some trusting;
    workspace = some team;
    readable = true;
    whole = true;
    writable = true;
    cuts_short = true;
    removable = true;
  };
  conversations = [];
  listable = true;
  storable = true;
  cuts_short = false;
  files = [];
}

not_trusted_yet : trusted_in (some trusting) stranger ≡ none
unfolding get lookup text_eq
not_trusted_yet = refl

listen-IsUntouched_example :
    IsUntouched toy own_id stranger small_dir
      (listen toy own_id
        ((some surroundings, timed_out) ∷ (none, arrived hello_arrives) ∷ [])
        small_dir
        []).0
listen-IsUntouched_example =
    listen-IsUntouched toy own_id stranger
      ((some surroundings, timed_out) ∷ (none, arrived hello_arrives) ∷ []) small_dir []
      not_trusted_yet

receive-HasAuthority_example :
    IsAuthorized own_id peer
      (some team)
      (receive toy own_id hello_arrives small_dir).data_dir.disk.workspace
receive-HasAuthority_example = receive-HasAuthority toy own_id hello_arrives small_dir

-- A workplace of the peer, and a later state of it.
abbrev office : Workspace
office = new (codes "Office") peer 1 1 (pos 1)

abbrev renamed_state : WorkspaceState
renamed_state =
    let state = network_state office in record state { name = codes "Branch"; updated_at = pos 5 }

abbrev state_arrives : Arrival
state_arrives = record {
  env = surroundings;
  fs = all_free;
  ip = codes "10.0.0.2";
  peer_id = peer;
  envelope =
      new_envelope (codes "e2") (pos 1)
        (workplace_sync (record { actor_device_id = peer; state = renamed_state }));
}

abbrev office_dir : DataDir
office_dir = record small_dir {
  disk = record {
    own_id = some own_id;
    trust = some trusting;
    workspace = some office;
    readable = true;
    whole = true;
    writable = true;
    cuts_short = true;
    removable = true;
  };
}

receive-IsSound_example :
    let after = (receive toy own_id state_arrives office_dir).data_dir.disk.workspace in
    IsSoundStore after ⊎ IsFirstCopy own_id peer (some office) after
receive-IsSound_example =
    receive-IsSound toy own_id state_arrives office_dir
      (new-IsSound (codes "Office") peer 1 1 (pos 1))

abbrev first_reply : Text × Envelope
first_reply = reply_to hello_arrives (delivery_receipt (record { message_id = codes "e1" }))

is_answered : (take_workplace_text own_id hello_arrives hello small_dir).replies ≡ first_reply ∷ []
unfolding take_workplace_text text_eq new_envelope
is_answered = refl

take_workplace_text_twice_example :
    let dir' = (take_workplace_text own_id hello_arrives hello small_dir).data_dir in
    take_workplace_text own_id hello_arrives hello dir' ≡ nothing dir'
take_workplace_text_twice_example =
    take_workplace_text_twice own_id hello_arrives hello_arrives hello hello small_dir first_reply
      [] refl is_answered refl

abbrev some_events : List Event
some_events = problem chunk_invalid ∷ workplace_broadcast_event (codes "b1") ∷ []

message_events_lem_example :
    (message_events some_events some_events ≡ newest max_events (some_events ++ some_events))
    × (length (message_events some_events some_events) ≤ max_events)
message_events_lem_example = message_events_lem some_events some_events (omega arith)

abbrev visitor : Text
visitor = replicate 64 b'c'

abbrev nearby : List Sighting
nearby = record { device_id = visitor; name = codes "Else"; address = codes "10.0.0.3:45892" } ∷ []

abbrev user_accepts : List Step
user_accepts = accepting surroundings true (some visitor) none ∷ []

abbrev shared : Shared
shared = record { disk = small_dir.disk; loaded = none }

is_seen : (observe_all nearby (pos 2) trusting).dirty ≡ true
unfolding observe_all lookup text_eq
is_seen = refl

decisions_are_lost_example :
    (run (loading ∷ user_accepts ++ saving nearby (pos 2) true ∷ []) shared).disk.trust
    ≡ some (record (observe_all nearby (pos 2) trusting) { dirty = false })
decisions_are_lost_example =
    decisions_are_lost user_accepts nearby (pos 2) trusting shared refl refl is_seen
