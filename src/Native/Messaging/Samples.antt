-- ===== src/Native/Messaging/Samples.antt =====
-- The theorem on text messages at one message.
use capsi.Storage.Store.{load}
use capsi.Base.{
  ◌≡◌, refl, true, false, none, some, [], ◌∷◌, Text, codes, text_eq, trim, trim_end,
  is_ascii_hexdigit, pos, ok,
}
use capsi.Identity.Trust.{trusted, KnownDevice, TrustStore, get, newcomer}
use capsi.Native.Disk.{Environment}
use capsi.Native.Outbox.{if_trusted}
use capsi.Native.Inbox.{DataDir, Arrival}
use capsi.Native.Inbox.Receive.{receive}
use capsi.Native.Messaging.{send_envelope, send_text, capsi_message_send}
use capsi.Native.Messaging.Arriving.{IsTaken, message_round_trip}
use capsi.Base.Maps.{lookup, insert}
use capsi.Protocol.Message.{text, Envelope, new_envelope}
use capsi.Identity.Device.{DeviceId, from_hex}
use capsi.Identity.Toy.{toy}

abbrev left_id : DeviceId
left_id = codes "aaaaaaaaaaaaaaaaaaaaaaaaaaaaaaaaaaaaaaaaaaaaaaaaaaaaaaaaaaaaaaaa"

abbrev right_id : DeviceId
right_id = codes "bbbbbbbbbbbbbbbbbbbbbbbbbbbbbbbbbbbbbbbbbbbbbbbbbbbbbbbbbbbbbbbb"

abbrev online : Environment
online = record {
  now = 1000;
  now' = 1000;
  now_millis = pos 1000000;
  new_id = λ n. codes "e";
  has_runtime = true;
  connect_and_send = λ socket peer envelope. true;
}

abbrev friend : (id : DeviceId) → KnownDevice
friend id = record (newcomer id (codes "Friend") (codes "10.0.0.2:45892") (pos 1)) {
  state = trusted;
}

abbrev list_of : (id : DeviceId) → TrustStore
list_of id = record { devices = (id, friend id) ∷ []; dirty = false }

abbrev dir_of : (own_id friend_id : DeviceId) → DataDir
dir_of own_id friend_id = record {
  disk = record {
    own_id = some own_id;
    trust = some (list_of friend_id);
    workspace = none;
    readable = true;
    whole = true;
    writable = true;
    cuts_short = true;
    removable = true;
  };
  conversations = [];
  listable = true;
  storable = true;
  cuts_short = false;
  files = [];
}

abbrev greeting : Envelope
greeting = new_envelope (codes "e") (pos 1000000) (text (record { body = codes "Hello" }))

abbrev greeting_arrives : Arrival
greeting_arrives = record {
  env = online;
  fs = record {
    root = codes "/data";
    can_make_dir = λ path. true;
    can_create = λ path. true;
    can_open = λ path. true;
    can_read = λ path. true;
    room = λ path. 1000000;
    can_rename = λ from to. true;
    can_remove = λ path. true;
  };
  ip = codes "10.0.0.1";
  peer_id = left_id;
  envelope = greeting;
}

greeting_sent :
    (capsi_message_send online
      (codes "m")
      (some right_id)
      (some (codes "Hello "))
      (dir_of left_id right_id)).1
    ≡ ok greeting
unfolding capsi_message_send from_hex send_text send_envelope text_eq is_ascii_hexdigit trim
    trim_end insert load
greeting_sent = refl

friend_found : if_trusted (get left_id (list_of left_id)) ≡ some (friend left_id)
unfolding get lookup text_eq
friend_found = refl

message_round_trip_example :
    (given : Text) × (some (codes "Hello ") ≡ some given)
    × IsTaken greeting_arrives
        (record { body = trim_end given })
        (friend left_id)
        (dir_of right_id left_id)
        (receive toy right_id greeting_arrives (dir_of right_id left_id))
message_round_trip_example =
    message_round_trip online (codes "m") (some right_id) (some (codes "Hello "))
      (dir_of left_id right_id) greeting toy right_id greeting_arrives (list_of left_id)
      (friend left_id) (dir_of right_id left_id) greeting_sent refl refl friend_found refl refl
