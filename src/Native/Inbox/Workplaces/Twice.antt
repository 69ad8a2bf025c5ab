-- ===== src/Native/Inbox/Workplaces/Twice.antt =====
-- A group message that was taken in is not taken in again.
use capsi.Native.Disk.{Disk, CallError, load, save}
use capsi.Base.{
  ℕ, ◌≡◌, refl, ◌∙◌, inl, inr, Bool, true, false, not, Option, none, some, List, [], ◌∷◌, ◌++◌,
  arith, if◌then◌else◌, Bool-cases, Text, Result, ok, err,
}
use capsi.Protocol.Message.{WorkplaceTextMessage, Envelope}
use capsi.Identity.Device.{DeviceId}
use capsi.Workplace.Workspace.{Workspace, touch}
use capsi.Workplace.Messages.{append_message}
use capsi.Workplace.Deliveries.{has_received_message, bound_journal, mark_received_message}
use capsi.Native.Inbox.{DataDir, Arrival, Event, Reaction, nothing}
use capsi.Native.Inbox.Workplaces.{
  after_save, may_write_in, set_last_id, received, keep_message, take_text_loaded,
  take_workplace_text,
}
use capsi.Workplace.Consistency.{In→contains_id}
use capsi.Workplace.Deliveries.Journal.{bound_journal_keeps_last}

-- A disk that can be read whose workplace has an id in its journal.
abbrev pub IsKnown : (id : Text) → Disk → Type 0
IsKnown id disk =
    (ws : Workspace) × (disk.workspace ≡ some ws)
    × (disk.readable ≡ true)
    × (disk.whole ≡ true)
    × (has_received_message id ws ≡ true)

has_received-mark_fresh :
    (id : Text) (ws : Workspace)
    → has_received_message id ws ≡ false
    → has_received_message id (mark_received_message id ws) ≡ true
unfolding mark_received_message has_received_message
has_received-mark_fresh id ws fresh = rw fresh (
    In→contains_id id (bound_journal (ws.received_message_ids ++ id ∷ []))
      (bound_journal_keeps_last ws.received_message_ids id))

received-append_message :
    (id group_id sender_id body : Text) (now now' : ℕ) (ws : Workspace)
    → has_received_message id (append_message group_id sender_id body now now' ws).0
      ≡ has_received_message id ws
unfolding append_message has_received_message
received-append_message id group_id sender_id body now now' ws = ground arith

save-IsKnown :
    (id : Text) (ws : Workspace) (disk : Disk)
    → disk.readable ≡ true
    → has_received_message id ws ≡ true
    → (save ws disk).1 ≡ ok tt
    → IsKnown id (save ws disk).0
unfolding save
save-IsKnown id ws disk readable known h = elim (Bool-cases disk.writable) [
  | inl w ↦ rw w (ws, refl, readable, refl, known)
  | inr held ↦ absurd (ground arith)
]

after_save-IsKnown :
    (id : Text) (event : Event) (replies : List (Text × Envelope)) (dir : DataDir)
    (r : Disk × Result CallError (Unit {0})) (reply : Text × Envelope)
    (others : List (Text × Envelope))
    → (r.1 ≡ ok tt → IsKnown id r.0)
    → (after_save event replies dir r).replies ≡ reply ∷ others
    → IsKnown id (after_save event replies dir r).data_dir.disk
after_save-IsKnown id event replies dir (disk, err e) reply others saved h = absurd (ground arith)
after_save-IsKnown id event replies dir (disk, ok _) reply others saved h = saved refl

if-IsKnown :
    (id : Text) (test : Bool) (first second : Reaction) (reply : Text × Envelope)
    (others : List (Text × Envelope))
    → first.replies ≡ []
    → (test ≡ false → second.replies ≡ reply ∷ others → IsKnown id second.data_dir.disk)
    → (if test then first else second).replies ≡ reply ∷ others
    → IsKnown id (if test then first else second).data_dir.disk
if-IsKnown id true first second reply others silent later h = absurd (ground arith)
if-IsKnown id false first second reply others silent later h = later refl h

module _ (own : DeviceId) (a : Arrival) (m : WorkplaceTextMessage) (dir : DataDir)
    (readable : dir.disk.readable ≡ true) (reply : Text × Envelope)
    (others : List (Text × Envelope)) where
  keep_message-IsKnown :
      (r : Workspace × Option Text)
      → has_received_message a.envelope.id r.0 ≡ false
      → (keep_message own a m dir r).replies ≡ reply ∷ others
      → IsKnown a.envelope.id (keep_message own a m dir r).data_dir.disk
  unfolding touch
  keep_message-IsKnown (ws, none) fresh h = absurd (ground arith)
  keep_message-IsKnown (ws, some id) fresh h =
      let ws' = record ws { messages = set_last_id own a id ws.messages } in
      let marked =
        has_received-mark_fresh a.envelope.id ws' (unfold has_received_message in fresh) in
      after_save-IsKnown a.envelope.id _ _ dir (save (received own a id ws) dir.disk) reply others
        (save-IsKnown a.envelope.id (received own a id ws) dir.disk readable
          (unfold has_received_message in marked))
        h

  take_text_loaded-IsKnown :
      (r : Result CallError (Option Workspace))
      → (take_text_loaded own a m r dir).replies ≡ reply ∷ others
      → IsKnown a.envelope.id (take_text_loaded own a m r dir).data_dir.disk
  take_text_loaded-IsKnown (err e) h = absurd (ground arith)
  take_text_loaded-IsKnown (ok none) h = absurd (ground arith)
  take_text_loaded-IsKnown (ok (some ws)) h =
      if-IsKnown a.envelope.id (has_received_message a.envelope.id ws) _ _ reply others refl
        (λ fresh h'.
          if-IsKnown a.envelope.id (not (may_write_in own a m.group_id ws)) _ _ reply others refl
            (λ _ h''.
              keep_message-IsKnown
                (append_message m.group_id a.peer_id m.body a.env.now a.env.now' ws)
                (received-append_message a.envelope.id m.group_id a.peer_id m.body a.env.now
                    a.env.now' ws
                  ∙ fresh)
                h'')
            h')
        h

loaded :
    (disk : Disk) (ws : Workspace)
    → disk.workspace ≡ some ws
    → disk.readable ≡ true
    → disk.whole ≡ true
    → load disk ≡ ok (some ws)
unfolding load
loaded disk ws there readable whole = rw (there, load, readable, whole) refl

known_is_dropped :
    (own : DeviceId) (a : Arrival) (m : WorkplaceTextMessage) (dir : DataDir)
    → IsKnown a.envelope.id dir.disk
    → take_workplace_text own a m dir ≡ nothing dir
unfolding take_workplace_text
known_is_dropped own a m dir (ws, there, readable, whole, known) =
    rw (take_workplace_text, loaded dir.disk ws there readable whole, known) refl

-- If the workplace can be read, a group message that the listener confirmed is in its journal: when
-- an envelope with the same id arrives right after it, whatever it says and whoever sends it,
-- nothing changes, nothing is shown and nothing is sent back.
pub take_workplace_text_twice :
    (own : DeviceId) (a a' : Arrival) (m m' : WorkplaceTextMessage) (dir : DataDir)
    (reply : Text × Envelope) (others : List (Text × Envelope))
    → dir.disk.readable ≡ true
    → (take_workplace_text own a m dir).replies ≡ reply ∷ others
    → a'.envelope.id ≡ a.envelope.id
    → let dir' = (take_workplace_text own a m dir).data_dir in
      take_workplace_text own a' m' dir' ≡ nothing dir'
unfolding take_workplace_text
take_workplace_text_twice own a a' m m' dir reply others readable h same =
    let dir' = (take_workplace_text own a m dir).data_dir in
    known_is_dropped own a' m' dir'
      (rw same (take_text_loaded-IsKnown own a m dir readable reply others (load dir.disk) h))
