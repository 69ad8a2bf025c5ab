-- ===== src/Native/Sending.antt =====
-- `capsi_workplace_send_message` of flutter/native/src/lib.rs.
use capsi.Base.{
  ℕ, ◌+◌, ◌≡◌, ◌∙◌, not, Option, none, some, List, [], ◌∷◌, arith, length, find, retain, Text,
  text_eq, ℤ, Result, ok, err, guard, ok_or, ◌>>=◌, ◌>>◌,
}
use capsi.Protocol.Message.{
  MessageError, WorkplaceTextMessage, workplace_text, Envelope, new_workplace_text, new_envelope,
}
use capsi.Identity.Device.{DeviceId}
use capsi.Identity.Trust.{TrustStore, nonblank}
use capsi.Workplace.State.{send_messages, Group}
use capsi.Workplace.Workspace.{Workspace, is_group, has_member, touch}
use capsi.Workplace.Permissions.{permits}
use capsi.Workplace.Messages.{append_message}
use capsi.Workplace.Deliveries.{queue_delivery}
use capsi.Native.Disk.{
  Disk, CallError, no_identity, not_allowed, body_invalid, group_id_invalid, no_trust_list,
  no_runtime, not_in_this_group, message_refused, Environment, load_existing, save,
}
use capsi.Native.Outbox.{Attempt, untrusted, unaddressed, unreachable, reached, attempt}

-- The members of the group that are members of the workplace, but for the sender.
abbrev pub group_recipients : (local_id : DeviceId) → Workspace → Option Group → List Text
group_recipients local_id ws none = []
group_recipients local_id ws (some g) =
    retain (λ id. has_member id ws.members) (retain (λ id. not (text_eq id local_id)) g.member_ids)

pub record Sending : Type 0 where
  pub workspace : Workspace
  pub delivered_count : ℕ
  pub queued_count : ℕ

-- A recipient in the loop.
abbrev pub sent_to : Attempt → Envelope → (recipient : Text) (now_millis : ℤ) → Sending → Sending
sent_to untrusted envelope recipient now_millis s = record s { queued_count = s.queued_count + 1 }
sent_to unaddressed envelope recipient now_millis s = record s {
  workspace = queue_delivery envelope recipient now_millis s.workspace;
  queued_count = s.queued_count + 1;
}
sent_to unreachable envelope recipient now_millis s = record s {
  workspace = queue_delivery envelope recipient now_millis s.workspace;
  queued_count = s.queued_count + 1;
}
sent_to reached envelope recipient now_millis s = record s {
  delivered_count = s.delivered_count + 1;
}

unfoldable pub send_each :
    Environment → TrustStore → Envelope → (recipients : List Text) → Sending → Sending
unfolding attempt queue_delivery
send_each env trust envelope [] s = s
send_each env trust envelope (recipient ∷ recipients) s =
    send_each env trust envelope recipients
      (sent_to (attempt env (some trust) envelope recipient) envelope recipient env.now_millis s)

-- What a call answers, beside the group.
pub record SendReport : Type 0 where
  pub message_id : Text
  pub delivered_count : ℕ
  pub queued_count : ℕ

abbrev pub appended : Workspace × Option Text → Result CallError (Workspace × Text)
appended (ws, none) = err not_in_this_group
appended (ws, some id) = ok (ws, id)

abbrev pub worded : Result MessageError WorkplaceTextMessage → Result CallError WorkplaceTextMessage
worded (ok m) = ok m
worded (err e) = err (message_refused e)

-- Everything in front of `save`: the id of the message, and the loop's result.
unfoldable pub prepare_message :
    Environment → (group_id body : Option Text) → Disk → Result CallError (Text × Sending)
unfolding load_existing permits append_message touch new_workplace_text new_envelope send_each
prepare_message env group_id body disk = do
  group_id ← ok_or (nonblank group_id) group_id_invalid
  body ← ok_or (nonblank body) body_invalid
  own ← ok_or disk.own_id no_identity
  ws ← load_existing disk
  guard (permits ws own send_messages) not_allowed
  made ← appended (append_message group_id own body env.now env.now' ws)
  let ws' : Workspace = touch env.now_millis made.0
  message ← worded (new_workplace_text group_id body)
  let envelope : Envelope = new_envelope (env.new_id 0) env.now_millis (workplace_text message)
  trust ← ok_or disk.trust no_trust_list
  guard env.has_runtime no_runtime
  ok (
    made.1,
    send_each env trust envelope (group_recipients own ws' (find (is_group group_id) ws'.groups))
        (record { workspace = ws'; delivered_count = 0; queued_count = 0 }),
  )

abbrev reported :
    Text × Sending → Disk × Result CallError (Unit {0}) → Disk × Result CallError SendReport
reported (id, s) (disk, err e) = (disk, err e)
reported (id, s) (disk, ok _) = (
  disk,
  ok (record {
    message_id = id;
    delivered_count = s.delivered_count;
    queued_count = s.queued_count;
  }),
)

unfoldable pub capsi_workplace_send_message :
    Environment → (group_id body : Option Text) → Disk → Disk × Result CallError SendReport
unfolding prepare_message save
capsi_workplace_send_message env group_id body disk =
    elim (prepare_message env group_id body disk) [
      | err e ↦ (disk, err e)
      | ok r ↦ reported r (save r.1.workspace disk)
    ]

sent_to_lem :
    (a : Attempt) (envelope : Envelope) (recipient : Text) (now : ℤ) (s : Sending)
    → let s' = sent_to a envelope recipient now s in
      s'.delivered_count + s'.queued_count ≡ s.delivered_count + s.queued_count + 1
sent_to_lem untrusted envelope recipient now s = omega arith
sent_to_lem unaddressed envelope recipient now s = omega arith
sent_to_lem unreachable envelope recipient now s = omega arith
sent_to_lem reached envelope recipient now s = omega arith

-- Each recipient of a message is counted once, as delivered or as queued.
pub send_each_lem :
    (env : Environment) (trust : TrustStore) (envelope : Envelope) (recipients : List Text)
    (s : Sending)
    → let s' = send_each env trust envelope recipients s in
      s'.delivered_count + s'.queued_count ≡ s.delivered_count + s.queued_count + length recipients
unfolding send_each
send_each_lem env trust envelope [] s = omega arith
send_each_lem env trust envelope (r ∷ recipients) s =
    let a = attempt env (some trust) envelope r in
    send_each_lem env trust envelope recipients (sent_to a envelope r env.now_millis s)
    ∙ omega (arith, sent_to_lem a envelope r env.now_millis s)
