-- ===== src/Storage/Conversation/Order.antt =====
-- The order of a history by the time of sending.
use Prim.Native.Nat.{min}
use capsi.Base.{
  ℕ, zero, suc, ◌-◌, ◌≡◌, ◌↔◌, ◌⊎◌, inl, inr, false, ◌&&◌, List, [], ◌∷◌, arith, ltb, ◌==◌,
  if◌then◌else◌, Bool-cases, length, drop, length-drop, In, ◌<ℤ◌, ◌≤ℤ◌,
}
use capsi.Storage.Conversation.{StoredMessage, Conversation, insert_message, push, trim_history}

-- No message was sent before the one in front of it.
abbrev pub IsOrdered : List StoredMessage → Type 0
IsOrdered [] = Unit
IsOrdered (first ∷ []) = Unit
IsOrdered (first ∷ second ∷ rest) =
    ((second.sent_at <ℤ first.sent_at) ≡ false) × IsOrdered (second ∷ rest)

-- The message in front decides only one step.
IsOrdered-cons :
    (first : StoredMessage) (m e : StoredMessage) (ms : List StoredMessage)
    → (m.sent_at <ℤ first.sent_at) ≡ false
    → (e.sent_at <ℤ first.sent_at) ≡ false
    → IsOrdered (insert_message m (e ∷ ms))
    → IsOrdered (first ∷ insert_message m (e ∷ ms))
unfolding insert_message
IsOrdered-cons first m e ms late step h = elim (Bool-cases (m.sent_at <ℤ e.sent_at)) [
  | inl before ↦ rw before (late, rw before at h)
  | inr after ↦ rw after (step, rw after at h)
]

insert_message-IsOrdered :
    (m : StoredMessage) (ms : List StoredMessage) → IsOrdered ms → IsOrdered (insert_message m ms)
unfolding insert_message
insert_message-IsOrdered m [] h = tt
insert_message-IsOrdered m (e ∷ []) h = elim (Bool-cases (m.sent_at <ℤ e.sent_at)) [
  | inl before ↦ rw before (ground arith, tt)
  | inr after ↦ rw after (after, tt)
]
insert_message-IsOrdered m (e ∷ f ∷ rest) (step, h) = elim (Bool-cases (m.sent_at <ℤ e.sent_at)) [
  | inl before ↦ rw before (ground arith, (step, h))
  | inr after ↦
      rw after (IsOrdered-cons e m f rest after step (insert_message-IsOrdered m (f ∷ rest) h))
]

In-insert_message :
    (m : StoredMessage) (ms : List StoredMessage) (x : StoredMessage)
    → In x (insert_message m ms) ↔ ((m ≡ x) ⊎ In x ms)
unfolding insert_message
In-insert_message m [] x = ground arith
In-insert_message m (e ∷ ms) x = elim (Bool-cases (m.sent_at <ℤ e.sent_at)) [
  | inl before ↦ rw before (ground arith)
  | inr after ↦ let ih = In-insert_message m ms x in rw after (ground arith)
]

-- A message that comes in, late or not, is added to the history without loss, the history stays in
-- the order of sending, and the time of the last change is at least that of the message.
pub push-IsOrdered :
    (m : StoredMessage) (c : Conversation)
    → IsOrdered c.messages
    → let after = push m c in
      IsOrdered after.messages
      × ((x : StoredMessage) → In x after.messages ↔ ((m ≡ x) ⊎ In x c.messages))
      × (m.sent_at ≤ℤ after.updated_at)
      × (c.updated_at ≤ℤ after.updated_at)
unfolding push
push-IsOrdered m c h = (
  insert_message-IsOrdered m c.messages h,
  In-insert_message m c.messages,
  ground arith,
  ground arith,
)

IsOrdered-drop : (n : ℕ) (ms : List StoredMessage) → IsOrdered ms → IsOrdered (drop n ms)
IsOrdered-drop zero ms h = h
IsOrdered-drop (suc n) [] h = tt
IsOrdered-drop (suc n) (e ∷ []) h = IsOrdered-drop n [] tt
IsOrdered-drop (suc n) (e ∷ f ∷ ms) (step, h) = IsOrdered-drop n (f ∷ ms) h

-- A history that is cut to a positive limit keeps its order and as many of its newest messages as
-- the limit allows; a limit of 0 cuts nothing.
pub trim_history_lem :
    (limit : ℕ) (c : Conversation)
    → IsOrdered c.messages
    → let after = trim_history limit c in
      IsOrdered after.messages
      × (length after.messages
          ≡ (if limit == 0 then length c.messages else min limit (length c.messages)))
      × (after.messages ≡ drop (length c.messages - length after.messages) c.messages)
unfolding trim_history
trim_history_lem limit c h = elim (Bool-cases (ltb 0 limit && ltb limit (length c.messages))) [
  | inl long ↦
      let kept = length-drop (length c.messages - limit) c.messages in
      let same : length c.messages - length (drop (length c.messages - limit) c.messages)
          ≡ length c.messages - limit =
        ground arith in
      rw long (IsOrdered-drop (length c.messages - limit) c.messages h, ground arith, rw same)
  | inr fits ↦
      let nothing : length c.messages - length c.messages ≡ 0 = omega arith in
      rw fits (h, ground arith, rw nothing)
]
