-- ===== src/Storage/Conversation/Samples.antt =====
-- The theorems on histories at two messages and a late one.

use capsi.Base.{ℕ, ◌≡◌, refl, ◌↔◌, ◌⊎◌, false, none, [], ◌∷◌, codes, In, pos, ◌≤ℤ◌}
use capsi.Storage.Conversation.{
  delivered, text_kind, StoredMessage, Conversation, insert_message, push,
}
use capsi.Storage.Conversation.Order.{IsOrdered, push-IsOrdered}

abbrev note : ℕ → StoredMessage
note time = record {
  id = codes "m";
  outgoing = false;
  sent_at = pos time;
  kind = text_kind;
  body = codes "hi";
  file = none;
  state = delivered;
}

abbrev chat : Conversation
chat = record {
  device_id = codes "ben";
  name = codes "Ben";
  messages = note 10 ∷ note 20 ∷ [];
  unread = 0;
  updated_at = pos 20;
  pending_deliveries = [];
}

push-IsOrdered_example :
    let after = push (note 15) chat in
    IsOrdered after.messages
    × ((x : StoredMessage) → In x after.messages ↔ ((note 15 ≡ x) ⊎ In x chat.messages))
    × (pos 15 ≤ℤ after.updated_at)
    × (pos 20 ≤ℤ after.updated_at)
push-IsOrdered_example = push-IsOrdered (note 15) chat (refl, tt)

push_test : (push (note 15) chat).messages ≡ note 10 ∷ note 15 ∷ note 20 ∷ []
unfolding push insert_message
push_test = refl
