-- ===== src/Native/Transfer/Decisions/Decided.antt =====
-- What a decision of the user does to the record of a transfer.
use capsi.Base.{
  ℕ, ◌≡◌, refl, sym, ap, ◌∙◌, ◌⊎◌, inl, inr, Bool, true, not, Option, none, some, arith, ◌==◌,
  if◌then◌else◌, Bool-cases, Text, Result, ok, err, Result-cases,
}
use capsi.Base.Maps.{lookup}
use capsi.Protocol.Message.{FileReceipt, accepted, completed, Envelope}
use capsi.Identity.Device.{DeviceId}
use capsi.Storage.Conversation.{
  TransferState, offered, transferring, complete, StoredFile, Conversation, set_file_state,
  set_transfer_state, find_transfer,
}
use capsi.Storage.Conversation.Transfers.{find_transfer-set_transfer_state}
use capsi.Storage.Store.{MessageStore, StoreError, update_transfer}
use capsi.Storage.Store.Updated.{stored_transfer}
use capsi.Native.Inbox.{DataDir, FileSystem, load_messages, with_messages}
use capsi.Native.Inbox.Files.{final_path}
use capsi.Native.Transfer.{FileError, not_awaiting, no_downloads}
use capsi.Native.Transfer.Decisions.{
  is_offered, find_conversation, update_and_tell, find_offered, next_chunk_of, move_empty,
  downloads_dir, accept_empty, without_file, decide, file_transfer_action,
}
use capsi.Native.Disk.{Environment}

-- The state that a decision leads to.
abbrev pub decided_state : (accept : Bool) (size : ℕ) → TransferState
decided_state accept size =
    if not accept then TransferState.declined else if size == 0 then complete else transferring

-- The record of a transfer in the file of a conversation has a state.
abbrev pub HasState : (device_id transfer_id : Text) → TransferState → DataDir → Type 0
HasState device_id transfer_id state dir =
    (c : Conversation) × (lookup device_id dir.conversations ≡ some c)
    × ((f : StoredFile) × (find_transfer transfer_id c ≡ some f) × (f.state ≡ state))

module _ (env : Environment) (fs : FileSystem) (device_id : DeviceId) (transfer_id : Text)
    (accept : Bool) (dir : DataDir) (s : MessageStore) (c : Conversation) (f : StoredFile)
    (loaded : load_messages dir ≡ some s) (w : s.writable ≡ true)
    (there : lookup device_id s.conversations ≡ some c)
    (recorded : find_transfer transfer_id c ≡ some f) where
  state-set_file_state :
      (state : TransferState) (local_path : Option Text)
      → (set_file_state state local_path f).state ≡ state
  state-set_file_state state none = refl
  state-set_file_state state (some path) = refl

  update_and_tell-HasState :
      (receipt : FileReceipt) (state : TransferState) (local_path : Option Text) (dir' : DataDir)
      (r : MessageStore × Result StoreError Bool)
      → update_transfer device_id transfer_id state local_path s ≡ r
      → HasState device_id transfer_id state
          (update_and_tell env fs device_id transfer_id receipt dir' r).0
  unfolding set_transfer_state
  update_and_tell-HasState receipt state local_path dir' (s', result) e =
      let (updated, found) =
        find_transfer-set_transfer_state transfer_id state local_path c f recorded in
      let c' = (set_transfer_state transfer_id state local_path c).0 in
      let stored = stored_transfer device_id transfer_id state local_path s c there updated w in
      let stored' : lookup device_id s'.files ≡ some c' =
        ap (λ r. lookup device_id r.0.files) (sym e) ∙ stored in
      told result (
        c',
        stored',
        (set_file_state state local_path f, found, state-set_file_state state local_path),
      )
    where
      told :
          (result : Result StoreError Bool)
          → HasState device_id transfer_id state (with_messages s' dir')
          → HasState device_id transfer_id state
              (update_and_tell env fs device_id transfer_id receipt dir' (s', result)).0
      told (ok b) h = h
      told (err e') h = h

  -- Either the call fails and nothing has changed, or the record has the state that was decided.
  abbrev pub IsOutcome : TransferState → DataDir × Result FileError Envelope → Type 0
  IsOutcome state (dir', result) =
      ((e : FileError) × (result ≡ err e) × (dir' ≡ dir))
      ⊎ HasState device_id transfer_id state dir'

  accept_empty-IsOutcome : IsOutcome complete (accept_empty env fs device_id transfer_id s f dir)
  unfolding accept_empty
  accept_empty-IsOutcome =
      let place = final_path fs.root f.file_name in
      elim (Bool-cases (fs.can_make_dir (downloads_dir env fs device_id transfer_id))) [
        | inr held ↦ rw held (inl (no_downloads, refl, refl))
        | inl free ↦
            elim (Result-cases (move_empty env fs device_id transfer_id f.local_path place dir)) [
              | inr (e, fixed) ↦ rw (free, fixed, accept_empty) (inl (e, refl, refl))
              | inl (dir', moved) ↦
                  rw (free, moved, accept_empty)
                    (inr (update_and_tell-HasState completed complete (some place) dir' _ refl))
            ]
      ]

  decide-IsOutcome :
      IsOutcome (decided_state accept f.size) (decide env fs device_id transfer_id accept s f dir)
  unfolding decide
  decide-IsOutcome = elim (Bool-cases accept) [
    | inr refused ↦ rw refused (
        inr (
          update_and_tell-HasState FileReceipt.declined TransferState.declined none
            (without_file env fs device_id transfer_id f.local_path dir) _ refl))
    | inl wanted ↦ elim (Bool-cases (f.size == 0)) [
      | inl blank ↦ rw (wanted, blank) accept_empty-IsOutcome
      | inr filled ↦
          rw (wanted, filled)
            (inr (
              update_and_tell-HasState
                (accepted (next_chunk_of env fs device_id transfer_id f.local_path dir))
                transferring none dir _ refl))
    ]
  ]

  find_offered_lem :
      find_offered env fs device_id transfer_id dir
      ≡ (if is_offered f.state then ok (s, f) else err not_awaiting)
  unfolding find_offered find_conversation
  find_offered_lem = elim (Bool-cases (is_offered f.state)) [
    | inl e ↦ rw (loaded, there, recorded, e) refl
    | inr e ↦ rw (loaded, there, recorded, e) refl
  ]

  is_offered_sound : (state : TransferState) → is_offered state ≡ true → state ≡ offered
  is_offered_sound state h = ground arith

  -- If the store can be loaded and written and records the transfer in the conversation with the
  -- device: the call on a transfer that is not offered fails, and a call that fails without having
  -- decided leaves everything as it was; otherwise the transfer was offered, and its record is then
  -- declined, complete if the file is empty, or transferring, also when the receipt that the call
  -- sends afterwards does not go out.
  pub file_transfer_action_lem :
      let (dir', result) = file_transfer_action env fs device_id transfer_id accept dir in
      ((e : FileError) × (result ≡ err e) × (dir' ≡ dir))
      ⊎ ((f.state ≡ offered) × HasState device_id transfer_id (decided_state accept f.size) dir')
  unfolding file_transfer_action
  file_transfer_action_lem = elim (Bool-cases (is_offered f.state)) [
    | inr past ↦ rw (find_offered_lem, file_transfer_action, past) (inl (not_awaiting, refl, refl))
    | inl awaiting ↦
        rw (find_offered_lem, file_transfer_action, awaiting)
          (elim decide-IsOutcome [
            | inl failed_early ↦ inl failed_early
            | inr decided ↦ inr (is_offered_sound f.state awaiting, decided)
          ])
  ]
