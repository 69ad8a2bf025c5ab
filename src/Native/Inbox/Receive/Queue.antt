-- ===== src/Native/Inbox/Receive/Queue.antt =====
-- The queue of events between the listener and the interface.
use capsi.Base.{
  ℕ, zero, suc, ◌+◌, ◌-◌, ◌≤◌, ◌≡◌, refl, sym, ap, ◌∙◌, inl, inr, List, [], ◌∷◌, ◌++◌, arith, leb,
  Bool-cases, length, drop, length-append, length-drop, append-nil, append_assoc,
}
use capsi.Native.Inbox.{Event}
use capsi.Native.Inbox.Receive.{max_events, without_first, message_event, message_events}

-- The newest events of a history.
abbrev pub newest : (n : ℕ) → List Event → List Event
newest n events = drop (length events - n) events

drop-drop : {A : Type 0} (m n : ℕ) (xs : List A) → drop m (drop n xs) ≡ drop (n + m) xs
drop-drop m zero xs = let e : m ≡ 0 + m = omega arith in ap (λ k. drop k xs) e
drop-drop zero (suc n) [] = let e : suc n + 0 ≡ suc n = omega arith in rw e refl
drop-drop (suc m) (suc n) [] = let e : suc n + suc m ≡ suc (n + suc m) = omega arith in rw e refl
drop-drop m (suc n) (x ∷ xs) =
    let e : suc n + m ≡ suc (n + m) = omega arith in rw e (drop-drop m n xs)

drop-append :
    {A : Type 0} (n : ℕ) (xs ys : List A) → n ≤ length xs → drop n xs ++ ys ≡ drop n (xs ++ ys)
drop-append zero xs ys h = refl
drop-append (suc n) [] ys h = absurd (omega arith)
drop-append (suc n) (x ∷ xs) ys h = drop-append n xs ys (omega arith)

newest-drop :
    (n k : ℕ) (events : List Event)
    → k ≤ length events - n
    → newest n (drop k events) ≡ newest n events
newest-drop n k events h =
    drop-drop (length (drop k events) - n) k events
    ∙ ap (λ m. drop m events) (omega (arith, length-drop k events))

without_first_lem : (queue : List Event) → without_first queue ≡ drop 1 queue
without_first_lem [] = refl
without_first_lem (e ∷ queue) = refl

-- One event.
message_event_lem :
    (event : Event) (queue : List Event)
    → length queue ≤ max_events
    → message_event event queue ≡ newest max_events (queue ++ event ∷ [])
unfolding message_event
message_event_lem event queue h =
    let size = length-append queue (event ∷ []) in
    elim (Bool-cases (leb max_events (length queue))) [
      | inl full ↦
          let one : length (queue ++ event ∷ []) - max_events ≡ 1 = ground (arith, size) in
          rw (full, one, without_first_lem queue) (drop-append 1 queue (event ∷ []) (ground arith))
      | inr free ↦
          let none_over : length (queue ++ event ∷ []) - max_events ≡ 0 = ground (arith, size) in
          rw (free, none_over) refl
    ]

length-newest-le : (n : ℕ) (events : List Event) → length (newest n events) ≤ n
length-newest-le n events = omega (arith, length-drop (length events - n) events)

-- However many events come in, a queue of at most 128 events ends as the last 128, in order, of
-- what it held and what came: nothing is lost or reordered but the oldest events are dropped.
pub message_events_lem :
    (events queue : List Event)
    → length queue ≤ max_events
    → (message_events events queue ≡ newest max_events (queue ++ events))
      × (length (message_events events queue) ≤ max_events)
unfolding message_events
message_events_lem [] queue h =
    let whole : newest max_events (queue ++ []) ≡ queue =
      let none_over : length queue - max_events ≡ 0 = omega arith in
      rw (append-nil queue, none_over) refl in
    (sym whole, h)
message_events_lem (e ∷ events) queue h =
    let all_of = queue ++ e ∷ [] in
    let over = length all_of - max_events in
    let step = message_event_lem e queue h in
    let bounded = length-newest-le max_events all_of in
    let (rest, small) = message_events_lem events (newest max_events all_of) bounded in
    let joined : newest max_events all_of ++ events ≡ drop over (all_of ++ events) =
      drop-append over all_of events (omega arith) in
    let shorter =
      newest-drop max_events over (all_of ++ events) (omega (arith, length-append all_of events)) in
    let same : all_of ++ events ≡ queue ++ e ∷ events = append_assoc queue (e ∷ []) events in
    rw step (rest ∙ ap (newest max_events) joined ∙ shorter ∙ ap (newest max_events) same, small)
