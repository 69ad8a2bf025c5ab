-- ===== src/Native/Outbox/Fate.antt =====
-- What settling due deliveries, one after the other, does to the entries of the queue.
use capsi.Base.{
  ◌≡◌, refl, sym, ap, ◌∙◌, inl, inr, true, false, Option, none, some, List, [], ◌∷◌, map, arith,
  Bool-cases, Option-cases, find, any, update_first, Text, text_eq_iff, find-update_first_ne,
  find-update_first_self, any-update_first, find-retain_self, find-retain_ne, find-eq-none_iff, ℤ,
  pos, ◌+ℤ◌,
}
use capsi.Identity.Trust.{TrustStore}
use capsi.Workplace.Workspace.{PendingWorkplaceDelivery, Workspace}
use capsi.Workplace.Deliveries.{is_delivery, remove_pending_delivery, postpone, reschedule_delivery}
use capsi.Native.Disk.{Environment}
use capsi.Native.Outbox.{
  Attempt, untrusted, unaddressed, unreachable, reached, attempt, settle, settle_all, key_of,
}

-- An entry is alone with its envelope's id and its recipient.
abbrev pub IsKeyed : List PendingWorkplaceDelivery → Type 0
IsKeyed [] = Unit
IsKeyed (p ∷ queue) =
    (any (is_delivery p.envelope.id p.recipient_device_id) queue ≡ false) × IsKeyed queue

-- An entry after its attempt.
abbrev pub outcome :
    Attempt → (now : ℤ) → Option PendingWorkplaceDelivery → Option PendingWorkplaceDelivery
outcome untrusted now p = none
outcome unaddressed now p = p
outcome unreachable now none = none
outcome unreachable now (some p) = some (postpone (now +ℤ pos 30000) p)
outcome reached now p = none

-- The entry of a key.
abbrev pub entry : (e r : Text) → List PendingWorkplaceDelivery → Option PendingWorkplaceDelivery
entry e r queue = find (is_delivery e r) queue

module _ (e r : Text) where
  pub same_key :
      (p : PendingWorkplaceDelivery)
      → is_delivery e r p ≡ true
      → (p.envelope.id ≡ e) × (p.recipient_device_id ≡ r)
  same_key p h = ground (arith, text_eq_iff p.envelope.id e, text_eq_iff p.recipient_device_id r)

  other_key :
      (p q : PendingWorkplaceDelivery)
      → is_delivery e r p ≡ false
      → is_delivery p.envelope.id p.recipient_device_id q ≡ true
      → is_delivery e r q ≡ false
  other_key p q h k = ground (
    arith,
    text_eq_iff p.envelope.id e,
    text_eq_iff p.recipient_device_id r,
    text_eq_iff q.envelope.id e,
    text_eq_iff q.recipient_device_id r,
    text_eq_iff q.envelope.id p.envelope.id,
    text_eq_iff q.recipient_device_id p.recipient_device_id,
  )

  entry-settle :
      (a : Attempt) (now : ℤ) (ws : Workspace)
      → entry e r ((settle a e r now ws).0.pending_deliveries)
        ≡ outcome a now (entry e r ws.pending_deliveries)
  unfolding remove_pending_delivery reschedule_delivery
  entry-settle untrusted now ws = find-retain_self (is_delivery e r) ws.pending_deliveries
  entry-settle unaddressed now ws = refl
  entry-settle unreachable now ws = elim (Option-cases (entry e r ws.pending_deliveries)) [
    | inl missing ↦
        let absent = find-eq-none_iff (is_delivery e r) ws.pending_deliveries in
        let kept =
          any-update_first (is_delivery e r) (postpone (now +ℤ pos 30000)) (is_delivery e r)
            (λ p. refl) ws.pending_deliveries in
        let absent' =
          find-eq-none_iff (is_delivery e r)
            (update_first (is_delivery e r) (postpone (now +ℤ pos 30000)) ws.pending_deliveries) in
        rw missing (ground arith)
    | inr (p, found) ↦ rw found (
        find-update_first_self (is_delivery e r) (postpone (now +ℤ pos 30000)) (λ p h. h)
          ws.pending_deliveries p found)
  ]
  entry-settle reached now ws = find-retain_self (is_delivery e r) ws.pending_deliveries

  entry-settle_other :
      (a : Attempt) (now : ℤ) (p : PendingWorkplaceDelivery) (ws : Workspace)
      → is_delivery e r p ≡ false
      → entry e r ((settle a p.envelope.id p.recipient_device_id now ws).0.pending_deliveries)
        ≡ entry e r ws.pending_deliveries
  unfolding remove_pending_delivery reschedule_delivery
  entry-settle_other untrusted now p ws h =
      find-retain_ne (is_delivery p.envelope.id p.recipient_device_id) (is_delivery e r)
        (λ q. other_key p q h) ws.pending_deliveries
  entry-settle_other unaddressed now p ws h = refl
  entry-settle_other unreachable now p ws h =
      find-update_first_ne (is_delivery p.envelope.id p.recipient_device_id)
        (postpone (now +ℤ pos 30000)) (is_delivery e r) (λ q. other_key p q h)
        (λ q. other_key p q h) ws.pending_deliveries
  entry-settle_other reached now p ws h =
      find-retain_ne (is_delivery p.envelope.id p.recipient_device_id) (is_delivery e r)
        (λ q. other_key p q h) ws.pending_deliveries

module _ (env : Environment) (trust : Option TrustStore) where
  -- An entry after a flush, when this is the due entry of its key.
  abbrev pub settled :
      (due : Option PendingWorkplaceDelivery)
      → Option PendingWorkplaceDelivery
      → Option PendingWorkplaceDelivery
  settled none p = p
  settled (some d) p = outcome (attempt env trust d.envelope d.recipient_device_id) env.now_millis p

  pub entry-settle_all :
      (e r : Text) (due : List PendingWorkplaceDelivery) (ws : Workspace)
      → IsKeyed due
      → entry e r ((settle_all env trust (map key_of due) ws).0.pending_deliveries)
        ≡ settled (entry e r due) (entry e r ws.pending_deliveries)
  unfolding settle_all
  entry-settle_all e r [] ws h = refl
  entry-settle_all e r (d ∷ due) ws (alone, h) =
      let a = attempt env trust d.envelope d.recipient_device_id in
      let ws' = (settle a d.envelope.id d.recipient_device_id env.now_millis ws).0 in
      let ih = entry-settle_all e r due ws' h in
      elim (Bool-cases (is_delivery e r d)) [
        | inl mine ↦
            let (same_e, same_r) = same_key e r d mine in
            let alone' : any (is_delivery e r) due ≡ false = rw (same_e, same_r) at alone in
            let missing : entry e r due ≡ none =
              (find-eq-none_iff (is_delivery e r) due).1 alone' in
            let keyed : (queue : List PendingWorkplaceDelivery)
                → entry d.envelope.id d.recipient_device_id queue ≡ entry e r queue =
              λ queue. rw (same_e, same_r) refl in
            let step = entry-settle d.envelope.id d.recipient_device_id a env.now_millis ws in
            rw mine (
              (ih ∙ ap (λ t. settled t (entry e r ws'.pending_deliveries)) missing)
              ∙ (sym (keyed ws'.pending_deliveries)
                  ∙ (step ∙ ap (outcome a env.now_millis) (keyed ws.pending_deliveries))))
        | inr other ↦
            rw other (
              ih
              ∙ ap (settled (entry e r due)) (entry-settle_other e r a env.now_millis d ws other))
      ]
