-- ===== src/Storage/Store/Samples.antt =====
-- The theorems on the store at one conversation.
use capsi.Base.{refl, true, false, none, [], ◌∷◌, codes, pos}
use capsi.Storage.Conversation.{queued, text_kind, StoredMessage, Conversation}
use capsi.Storage.Store.{MessageStore}
use capsi.Storage.Store.InStep.{IsInStep, deleting, keep_up, keep_up-IsInStep}

abbrev one_text : StoredMessage
one_text = record {
  id = codes "m1";
  outgoing = true;
  sent_at = pos 10;
  kind = text_kind;
  body = codes "hello";
  file = none;
  state = queued;
}

abbrev with_ben : Conversation
with_ben = record {
  device_id = codes "ben";
  name = codes "Ben";
  messages = one_text ∷ [];
  unread = 0;
  updated_at = pos 10;
  pending_deliveries = [];
}

abbrev one_store : MessageStore
one_store = record {
  conversations = (codes "ben", with_ben) ∷ [];
  limit = 200;
  files = (codes "ben", with_ben) ∷ [];
  writable = true;
  cuts_short = false;
}

keep_up-IsInStep_example : IsInStep (keep_up (deleting (codes "ben")) one_store)
keep_up-IsInStep_example = keep_up-IsInStep (deleting (codes "ben")) one_store (λ id. refl) refl
