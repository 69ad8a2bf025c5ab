-- ===== src/Native/Transfer/Samples.antt =====
-- The theorems on the transfer of files at one small file.
use capsi.Base.{
  ℕ, ◌*◌, ◌<◌, ◌≡◌, refl, ◌⊎◌, true, false, none, some, List, [], ◌∷◌, arith, Text, codes, text_eq,
  pos, Result, ok, err,
}
use capsi.Base.Maps.{lookup, insert, values}
use capsi.Protocol.Message.{goodbye, new_envelope}
use capsi.Identity.Keys.{Primitives}
use capsi.Identity.Trust.{KnownDevice, newcomer}
use capsi.Identity.Toy.{toy}
use capsi.Storage.Conversation.{
  DeliveryState, offered, transferring, complete, file_kind, StoredFile, StoredMessage,
  Conversation, find_transfer,
}
use capsi.Storage.Store.{MessageStore, default_history_limit, collect_conversations, load}
use capsi.Native.Disk.{Disk, Environment}
use capsi.Native.Inbox.{DataDir, FileSystem, Arrival, load_messages, digest_hex}
use capsi.Native.Inbox.Files.{transfer_chunk_size, final_path}
use capsi.Native.Transfer.{
  FileError, Upload, div_ceil, enough_rounds, wait_for_receipt, Sent, send_chunks,
}
use capsi.Native.Transfer.Waiting.{IsFirst, wait_for_receipt_lem}
use capsi.Native.Transfer.Arriving.{accepted_file, IsReceiving}
use capsi.Native.Transfer.RoundTrip.{IsSending, deliver, file_round_trip}
use capsi.Native.Transfer.Decisions.{file_transfer_action}
use capsi.Native.Transfer.Decisions.Decided.{decided_state, HasState, file_transfer_action_lem}

abbrev clear : Primitives
clear = record toy { base64_decode = λ s. some s }

abbrev anna_id : Text
anna_id = codes "anna"

abbrev ben_id : Text
ben_id = codes "ben"

abbrev quiet : Environment
quiet = record {
  now = 1000;
  now' = 1000;
  now_millis = pos 1000000;
  new_id = λ n. codes "e";
  has_runtime = true;
  connect_and_send = λ socket peer envelope. true;
}

abbrev free_disk : FileSystem
free_disk = record {
  root = codes "/data";
  can_make_dir = λ path. true;
  can_create = λ path. true;
  can_open = λ path. true;
  can_read = λ path. true;
  room = λ path. 1000000;
  can_rename = λ from to. true;
  can_remove = λ path. true;
}

abbrev three_bytes : List ℕ
three_bytes = 1 ∷ 2 ∷ 3 ∷ []

abbrev part_path : Text
part_path = codes "/data/files/incoming/t1.part"

abbrev note_name : Text
note_name = codes "note.txt"

abbrev upload : Upload
upload = record {
  env = quiet;
  transfer_id = codes "t1";
  message_id = codes "m1";
  path = codes "/home/note.txt";
  file_name = some note_name;
  is_file = true;
  contents = some three_bytes;
  can_read = true;
  can_open = true;
  waiting = λ round. some (some offered);
  elapsed = λ round. round * 100;
  sending = λ index. some (some transferring);
  read = λ index. 300000;
}

abbrev arrival : Arrival
arrival = record {
  env = quiet;
  fs = free_disk;
  ip = codes "10.0.0.2";
  peer_id = anna_id;
  envelope = new_envelope (codes "e") (pos 1) goodbye;
}

abbrev file_message : StoredFile → StoredMessage
file_message f = record {
  id = codes "m1";
  outgoing = false;
  sent_at = pos 10;
  kind = file_kind;
  body = [];
  file = some f;
  state = DeliveryState.delivered;
}

abbrev with_anna : StoredFile → Conversation
with_anna f = record {
  device_id = anna_id;
  name = codes "Anna";
  messages = file_message f ∷ [];
  unread = 1;
  updated_at = pos 10;
  pending_deliveries = [];
}

abbrev empty_disk : Disk
empty_disk = record {
  own_id = some ben_id;
  trust = none;
  workspace = none;
  readable = true;
  whole = true;
  writable = true;
  cuts_short = true;
  removable = true;
}

abbrev holding : StoredFile → DataDir
holding f = record {
  disk = empty_disk;
  conversations = (anna_id, with_anna f) ∷ [];
  listable = true;
  storable = true;
  cuts_short = false;
  files = (part_path, []) ∷ [];
}

abbrev store_of : StoredFile → MessageStore
store_of f = record {
  conversations = (anna_id, with_anna f) ∷ [];
  limit = default_history_limit;
  files = (anna_id, with_anna f) ∷ [];
  writable = true;
  cuts_short = false;
}

abbrev running : StoredFile
running = accepted_file clear (codes "t1") note_name part_path three_bytes

abbrev awaiting : StoredFile
awaiting = record running { state = offered }

loads : (f : StoredFile) → load_messages (holding f) ≡ some (store_of f)
unfolding load_messages load collect_conversations values insert
loads f = refl

known_conversation :
    (f : StoredFile) → lookup anna_id (store_of f).conversations ≡ some (with_anna f)
unfolding lookup text_eq
known_conversation f = refl

known_transfer :
    (f : StoredFile)
    → text_eq f.transfer_id (codes "t1") ≡ true
    → find_transfer (codes "t1") (with_anna f) ≡ some f
unfolding find_transfer
known_transfer f h = rw (h, find_transfer) refl

here : lookup part_path (holding running).files ≡ some []
unfolding lookup text_eq
here = refl

same_id : text_eq (codes "t1") (codes "t1") ≡ true
unfolding text_eq
same_id = refl

free_disk-IsReceiving :
    IsReceiving free_disk part_path
      (final_path (codes "/data") note_name)
      (store_of running)
      (holding running)
free_disk-IsReceiving = record {
  loaded = loads running;
  opens = refl;
  reads = refl;
  fits = omega arith;
  moves = refl;
}

always-IsSending : IsSending upload (codes "10.0.0.2:45892") ben_id
always-IsSending = record {
  active = λ index. refl;
  connects = λ e. refl;
  fills = λ index. omega arith;
}

abbrev anna_known : KnownDevice
anna_known = newcomer anna_id (codes "Anna") (codes "10.0.0.2:45892") (pos 1)

-- The chunks that go out, and the directory of the receiver after them.
abbrev chunks_sent : Sent
chunks_sent =
    send_chunks clear (λ b. b) upload (codes "10.0.0.2:45892") ben_id 3
      (div_ceil 3 transfer_chunk_size) 0 three_bytes

abbrev dir_after : DataDir
dir_after = deliver clear ben_id arrival anna_known chunks_sent.envelopes (holding running)

file_round_trip_example :
    (chunks_sent.result ≡ ok tt)
    × (lookup (final_path (codes "/data") note_name) dir_after.files ≡ some three_bytes)
    × ((c' : Conversation) × (lookup anna_id dir_after.conversations ≡ some c')
        × (find_transfer (codes "t1") c'
            ≡ some (record {
              transfer_id = codes "t1";
              file_name = note_name;
              size = 3;
              digest = digest_hex clear three_bytes;
              local_path = some (final_path (codes "/data") note_name);
              state = complete;
            })))
file_round_trip_example =
    file_round_trip clear (λ b. b) (λ b. refl) upload (codes "10.0.0.2:45892") ben_id
      always-IsSending ben_id arrival anna_known note_name part_path three_bytes (store_of running)
      (with_anna running) (holding running) (omega arith) free_disk-IsReceiving here refl
      (known_conversation running) (known_transfer running same_id)

wait_for_receipt_lem_example :
    (n : ℕ) × (r : Result FileError (Unit {0})) × (wait_for_receipt upload enough_rounds 0 ≡ some r)
    × (n < enough_rounds)
    × IsFirst upload 0 n r
wait_for_receipt_lem_example = wait_for_receipt_lem upload (λ i. omega arith)

file_transfer_action_lem_example :
    let (dir', result) =
      file_transfer_action quiet free_disk anna_id (codes "t1") true (holding awaiting) in
    ((e : FileError) × (result ≡ err e) × (dir' ≡ holding awaiting))
    ⊎ ((awaiting.state ≡ offered) × HasState anna_id (codes "t1") (decided_state true 3) dir')
file_transfer_action_lem_example =
    file_transfer_action_lem quiet free_disk anna_id (codes "t1") true (holding awaiting)
      (store_of awaiting) (with_anna awaiting) awaiting (loads awaiting) refl
      (known_conversation awaiting) (known_transfer awaiting same_id)
