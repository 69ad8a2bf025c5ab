-- ===== src/Workplace/Deliveries/Journal.antt =====
-- The journal of received ids: bounded, free of repetitions, and sure of the newest id.
use capsi.Base.{
  ℕ, zero, suc, ◌-◌, ◌≤◌, ◌≡◌, refl, sym, inl, inr, true, false, List, [], ◌∷◌, ◌++◌, arith, ltb,
  Bool-cases, length, drop, length-append, length-drop, Text, In, In-append_right, In-append,
}
use capsi.Workplace.Workspace.{Workspace}
use capsi.Workplace.Consistency.{In→contains_id}
use capsi.Workplace.Deliveries.{
  has_received_message, max_received_ids, bound_journal, mark_received_message,
}

-- No id stands twice in a list.
abbrev pub IsDistinct : List Text → Type 0
IsDistinct [] = Unit
IsDistinct (i ∷ ids) = ¬ In i ids × IsDistinct ids

IsDistinct-snoc :
    (ids : List Text) (i : Text) → IsDistinct ids → ¬ In i ids → IsDistinct (ids ++ i ∷ [])
IsDistinct-snoc [] i h fresh = ((λ e. e), tt)
IsDistinct-snoc (j ∷ ids) i (absent, h) fresh = (
  λ found. elim (In-append j ids (i ∷ []) found) [
    | inl old ↦ absent old
    | inr last ↦ elim last [ inl e ↦ fresh (inl (sym e)) | inr nowhere ↦ nowhere ]
  ],
  IsDistinct-snoc ids i h (λ old. fresh (inr old)),
)

IsDistinct-drop : (n : ℕ) (ids : List Text) → IsDistinct ids → IsDistinct (drop n ids)
IsDistinct-drop zero ids h = h
IsDistinct-drop (suc n) [] h = tt
IsDistinct-drop (suc n) (i ∷ ids) (_, h) = IsDistinct-drop n ids h

drop-snoc_has :
    (n : ℕ) (ids : List Text) (i : Text) → n ≤ length ids → In i (drop n (ids ++ i ∷ []))
drop-snoc_has zero ids i h = In-append_right i ids (i ∷ []) (inl refl)
drop-snoc_has (suc n) [] i h = absurd (omega arith)
drop-snoc_has (suc n) (j ∷ ids) i h = drop-snoc_has n ids i (omega arith)

bound_journal_le : (ids : List Text) → length (bound_journal ids) ≤ max_received_ids
unfolding bound_journal
bound_journal_le ids = ground (arith, length-drop (length ids - max_received_ids) ids)

bound_journal-IsDistinct : (ids : List Text) → IsDistinct ids → IsDistinct (bound_journal ids)
unfolding bound_journal
bound_journal-IsDistinct ids h = elim (Bool-cases (ltb max_received_ids (length ids))) [
  | inl e ↦ rw e (IsDistinct-drop (length ids - max_received_ids) ids h)
  | inr e ↦ rw e h
]

pub bound_journal_keeps_last : (ids : List Text) (i : Text) → In i (bound_journal (ids ++ i ∷ []))
unfolding bound_journal
bound_journal_keeps_last ids i = elim (Bool-cases (ltb max_received_ids (length (ids ++ i ∷ [])))) [
  | inl e ↦ rw e (
      drop-snoc_has (length (ids ++ i ∷ []) - max_received_ids) ids i
        (omega (arith, length-append ids (i ∷ []))))
  | inr e ↦ rw e (In-append_right i ids (i ∷ []) (inl refl))
]

bound_journal_of_le : (ids : List Text) → length ids ≤ max_received_ids → bound_journal ids ≡ ids
unfolding bound_journal
bound_journal_of_le ids h = ground arith

-- The journal of a workspace in use: within its bound, and without repetitions.
pub record IsJournal (ws : Workspace) : Type 0 where
  pub bounded : length ws.received_message_ids ≤ max_received_ids
  pub distinct : IsDistinct ws.received_message_ids

-- Marking an id keeps the journal within 4096 ids and free of repetitions, the marked id is then
-- known as received, and marking an id that was known changes nothing.
pub mark_received_message-IsJournal :
    (envelope_id : Text) (ws : Workspace)
    → IsJournal ws
    → let after = mark_received_message envelope_id ws in
      IsJournal after
      × (has_received_message envelope_id after ≡ true)
      × (has_received_message envelope_id ws ≡ true → after ≡ ws)
unfolding mark_received_message
mark_received_message-IsJournal envelope_id ws j =
    elim (Bool-cases (has_received_message envelope_id ws)) [
      | inl known ↦
          rw (known, bound_journal_of_le ws.received_message_ids j.bounded) (j, known, λ _. refl)
      | inr fresh ↦ rw fresh (
        record {
          bounded = bound_journal_le (ws.received_message_ids ++ envelope_id ∷ []);
          distinct = bound_journal-IsDistinct (ws.received_message_ids ++ envelope_id ∷ []) (
              IsDistinct-snoc ws.received_message_ids envelope_id j.distinct
                (λ old. unknown_absent fresh old));
        },
        In→contains_id envelope_id _ (bound_journal_keeps_last ws.received_message_ids envelope_id),
        λ known. absurd (ground arith),
      )
    ]
  where
    unknown_absent :
        has_received_message envelope_id ws ≡ false → ¬ In envelope_id ws.received_message_ids
    unknown_absent fresh old =
        unfold has_received_message in
        ground (arith, In→contains_id envelope_id ws.received_message_ids old)
