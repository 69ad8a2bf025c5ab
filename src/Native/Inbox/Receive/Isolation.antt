-- ===== src/Native/Inbox/Receive/Isolation.antt =====
-- Who can change what through the listener.
use capsi.Native.Disk.{Disk, CallError, Environment, load}
use capsi.Base.{
  ◌≡◌, refl, ap, ◌∙◌, inl, inr, Option, none, some, List, [], ◌∷◌, map, arith, Bool-cases, retain,
  Text, text_eq_iff, text_cases, Result, ok, err,
}
use capsi.Base.Maps.{lookup}
use capsi.Protocol.Message.{
  Message, text, file_offer, workplace_text, workplace_sync, workplace_broadcast, delivery_receipt,
  file_receipt, file_chunk, typing, goodbye,
}
use capsi.Identity.Device.{DeviceId}
use capsi.Identity.Keys.{Primitives}
use capsi.Identity.Trust.{KnownDevice, TrustStore}
use capsi.Workplace.Workspace.{Workspace}
use capsi.Native.Outbox.{
  trusted_in, settle_all, is_due, key_of, flush_loaded, flush_workplace_deliveries,
}
use capsi.Native.Inbox.{DataDir, Arrival, Event, Reaction}
use capsi.Native.Inbox.Confined.{IsConfined, unchanged-IsConfined}
use capsi.Native.Inbox.Confined.Files.{
  take_offer-IsConfined, take_chunk-IsConfined, take_file_receipt-IsConfined,
}
use capsi.Native.Inbox.Confined.Disks.{
  HasSameKeys, save-HasSameKeys, take_text-IsConfined, take_delivery_receipt-IsConfined,
  take_sync-IsConfined, take_workplace_text-IsConfined, take_broadcast-IsConfined,
}
use capsi.Native.Inbox.Receive.{
  message_events, flush_if_due, Round, timed_out, not_accepted, not_read, arrived, dispatch,
  receive_from, receive_with, receive, react, listen,
}

module _ (p : Primitives) (own : DeviceId) where
  dispatch-IsConfined :
      (a : Arrival) (known : KnownDevice) (m : Message) (dir : DataDir)
      → a.envelope.message ≡ m
      → IsConfined a dir (dispatch p own a known m dir).data_dir
  unfolding dispatch
  dispatch-IsConfined a known (text t) dir has = take_text-IsConfined own a dir t known
  dispatch-IsConfined a known (file_offer offer) dir has =
      take_offer-IsConfined p a dir offer known has
  dispatch-IsConfined a known (workplace_text m) dir has =
      take_workplace_text-IsConfined own a dir m
  dispatch-IsConfined a known (workplace_sync sync) dir has = take_sync-IsConfined own a dir sync
  dispatch-IsConfined a known (workplace_broadcast b) dir has =
      take_broadcast-IsConfined own a dir b
  dispatch-IsConfined a known (delivery_receipt receipt) dir has =
      take_delivery_receipt-IsConfined own a dir receipt
  dispatch-IsConfined a known (file_receipt transfer_id state) dir has =
      take_file_receipt-IsConfined p a dir transfer_id state (inr (state, has))
  dispatch-IsConfined a known (file_chunk transfer_id index digest chunk) dir has =
      take_chunk-IsConfined p a dir transfer_id index digest chunk (inl (index, digest, chunk, has))
  dispatch-IsConfined a known (typing active) dir has = unchanged-IsConfined
  dispatch-IsConfined a known goodbye dir has = unchanged-IsConfined

  -- What an arrival may do to the directory, by what the trust list says of its sender.
  abbrev pub IsAllowed : Arrival → Option KnownDevice → (dir : DataDir) → Reaction → Type 0
  IsAllowed a none dir r = (r.data_dir ≡ dir) × (r.replies ≡ [])
  IsAllowed a (some known) dir r = IsConfined a dir r.data_dir

  receive_from-IsAllowed :
      (a : Arrival) (known : Option KnownDevice) (dir : DataDir)
      → IsAllowed a known dir (receive_from p own a known dir)
  receive_from-IsAllowed a none dir = (refl, refl)
  receive_from-IsAllowed a (some known) dir =
      dispatch-IsConfined a known a.envelope.message dir refl

  receive_with-IsAllowed :
      (a : Arrival) (trust : Option TrustStore) (dir : DataDir)
      → IsAllowed a (trusted_in trust a.peer_id) dir (receive_with p own a trust dir)
  receive_with-IsAllowed a none dir = (refl, refl)
  receive_with-IsAllowed a (some trust) dir =
      receive_from-IsAllowed a (trusted_in (some trust) a.peer_id) dir

  pub receive-IsAllowed :
      (a : Arrival) (dir : DataDir)
      → IsAllowed a (trusted_in dir.disk.trust a.peer_id) dir (receive p own a dir)
  unfolding receive
  receive-IsAllowed a dir = receive_with-IsAllowed a dir.disk.trust dir

  -- The disk after a flush.
  flush-HasSameKeys :
      (env : Environment) (disk : Disk) (r : Result CallError (Option Workspace))
      → HasSameKeys disk (flush_loaded env disk r)
  flush-HasSameKeys env disk (err e) = (refl, refl)
  flush-HasSameKeys env disk (ok none) = (refl, refl)
  flush-HasSameKeys env disk (ok (some ws)) =
      let due = map key_of (retain (is_due env.now_millis) ws.pending_deliveries) in
      let settled = settle_all env disk.trust due ws in
      elim (Bool-cases (settled.1)) [
        | inl e ↦ rw e (save-HasSameKeys (settled.0) disk)
        | inr e ↦ rw e (refl, refl)
      ]

  -- The trust list and a conversation, which is all that the next round asks of a directory.
  abbrev pub IsUntouched : (device_id : Text) → (dir dir' : DataDir) → Type 0
  IsUntouched device_id dir dir' =
      (dir'.disk.trust ≡ dir.disk.trust)
      × (lookup device_id dir'.conversations ≡ lookup device_id dir.conversations)

  flush_if_due-IsUntouched :
      (device_id : Text) (flush : Option Environment) (dir : DataDir)
      → IsUntouched device_id dir (flush_if_due flush dir)
  unfolding flush_workplace_deliveries
  flush_if_due-IsUntouched device_id none dir = (refl, refl)
  flush_if_due-IsUntouched device_id (some env) dir =
      ((flush-HasSameKeys env dir.disk (load dir.disk)).1, refl)

  allowed-IsUntouched :
      (device_id : Text) (a : Arrival) (dir : DataDir) (r : Reaction)
      → trusted_in dir.disk.trust device_id ≡ none
      → (known : Option KnownDevice) → trusted_in dir.disk.trust a.peer_id ≡ known
      → IsAllowed a known dir r
      → IsUntouched device_id dir r.data_dir
  allowed-IsUntouched device_id a dir r stranger none e (same, _) = rw same (refl, refl)
  allowed-IsUntouched device_id a dir r stranger (some known) e confined = (
    confined.same_trust,
    elim (text_cases a.peer_id device_id) [
      | inl same ↦ absurd (let e' = rw same at e in ground arith)
      | inr apart ↦
          confined.other_conversations device_id (ground (arith, text_eq_iff a.peer_id device_id))
    ],
  )

  react-IsUntouched :
      (device_id : Text) (round : Round) (dir : DataDir)
      → trusted_in dir.disk.trust device_id ≡ none
      → IsUntouched device_id dir (react p own round dir).data_dir
  react-IsUntouched device_id timed_out dir stranger = (refl, refl)
  react-IsUntouched device_id not_accepted dir stranger = (refl, refl)
  react-IsUntouched device_id not_read dir stranger = (refl, refl)
  react-IsUntouched device_id (arrived a) dir stranger =
      allowed-IsUntouched device_id a dir (receive p own a dir) stranger
        (trusted_in dir.disk.trust a.peer_id) refl (receive-IsAllowed a dir)

  -- However long the listener runs and whatever arrives: the trust list stays as it was, and so
  -- does the conversation with every device that it does not name as trusted.
  pub listen-IsUntouched :
      (device_id : Text) (rounds : List (Option Environment × Round)) (dir : DataDir)
      (queue : List Event)
      → trusted_in dir.disk.trust device_id ≡ none
      → IsUntouched device_id dir (listen p own rounds dir queue).0
  unfolding listen
  listen-IsUntouched device_id [] dir queue stranger = (refl, refl)
  listen-IsUntouched device_id ((flush, round) ∷ rounds) dir queue stranger =
      let dir' = flush_if_due flush dir in
      let (trust, kept) = flush_if_due-IsUntouched device_id flush dir in
      let r = react p own round dir' in
      let (trust', kept') =
        react-IsUntouched device_id round dir'
          (ap (λ t. trusted_in t device_id) trust ∙ stranger) in
      let same = trust' ∙ trust in
      let (trust'', kept'') =
        listen-IsUntouched device_id rounds r.data_dir (message_events r.events queue)
          (ap (λ t. trusted_in t device_id) same ∙ stranger) in
      (trust'' ∙ same, kept'' ∙ kept' ∙ kept)
