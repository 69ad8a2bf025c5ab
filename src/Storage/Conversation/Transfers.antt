-- ===== src/Storage/Conversation/Transfers.antt =====
-- The record of a transfer after `set_transfer_state`.
use capsi.Base.{
  ◌≡◌, refl, ◌∙◌, inl, inr, Bool, true, Option, none, some, List, [], ◌∷◌, arith, Option-cases,
  find, any, Text, find-update_first_self,
}
use capsi.Storage.Conversation.{
  TransferState, StoredFile, StoredMessage, Conversation, is_transfer, set_file_state,
  set_message_state, set_transfer_state, find_transfer,
}

-- What both searches say of a message: its file if that is of the transfer.
same_transfer :
    (transfer_id : Text) (state : TransferState) (local_path : Option Text) (m : StoredMessage)
    → is_transfer transfer_id (set_message_state state local_path m) ≡ is_transfer transfer_id m
same_transfer transfer_id state local_path m = file_cases m.file local_path
  where
    file_cases :
        (file : Option StoredFile) (local_path : Option Text)
        → is_transfer transfer_id (set_message_state state local_path (record m { file = file }))
          ≡ is_transfer transfer_id (record m { file = file })
    file_cases none local_path = refl
    file_cases (some f) none = refl
    file_cases (some f) (some path) = refl

any-find : {A : Type 0} (q : A → Bool) (xs : List A) (x : A) → find q xs ≡ some x → any q xs ≡ true
any-find q [] x h = absurd (ground arith)
any-find q (y ∷ xs) x h = ground (arith, any-find q xs x)

-- The record that is found has the new state, and the new path if one is given.
pub find_transfer-set_transfer_state :
    (transfer_id : Text) (state : TransferState) (local_path : Option Text) (c : Conversation)
    (f : StoredFile)
    → find_transfer transfer_id c ≡ some f
    → let (c', updated) = set_transfer_state transfer_id state local_path c in
      (updated ≡ true) × (find_transfer transfer_id c' ≡ some (set_file_state state local_path f))
unfolding find_transfer set_transfer_state
find_transfer-set_transfer_state transfer_id state local_path c f h =
    elim (Option-cases (find (is_transfer transfer_id) c.messages)) [
      | inl missing ↦ absurd (ground arith)
      | inr (m, e) ↦
          let keep = λ (n : StoredMessage) (t : is_transfer transfer_id n ≡ true).
            same_transfer transfer_id state local_path n ∙ t in
          let found =
            find-update_first_self (is_transfer transfer_id) (set_message_state state local_path)
              keep c.messages m e in
          let file : m.file ≡ some f = ground arith in
          (any-find (is_transfer transfer_id) c.messages m e, rw (found, find_transfer, file) refl)
    ]
