-- ===== src/Discovery/Peers/Seen.antt =====
-- Which peers the table keeps.
use capsi.Base.{
  ◌≡◌, refl, sym, ap, ◌∙◌, ◌↔◌, inl, inr, Bool, true, false, Option, none, some, List, [], ◌∷◌,
  arith, if◌then◌else◌, Bool-cases, any, Text, text_eq, text_eq→eq, In, ℤ,
}
use capsi.Base.Maps.{lookup, erase, values, lookup-erase}
use capsi.Base.Maps.Keys.{text_lt_asym, IsOrdered, lookup_below, erase-IsOrdered}
use capsi.Identity.Device.{DeviceId}
use capsi.Discovery.Peers.{
  Peer, is_stale, PeerTable, stale_ids, erase_all, prune, seen_later, online,
}
use capsi.Base.Sorting.{IsSorted, In-sort_by, sort_by-IsSorted}

erase_all_lem :
    (id : Text) (ids : List DeviceId) (table : PeerTable)
    → IsOrdered table
    → IsOrdered (erase_all ids table)
      × (lookup id (erase_all ids table)
          ≡ (if any (λ k. text_eq k id) ids then none else lookup id table))
unfolding erase_all
erase_all_lem id [] table h = (h, refl)
erase_all_lem id (k ∷ ids) table h =
    let (ordered, found) = erase_all_lem id ids (erase k table) (erase-IsOrdered k table h) in
    (ordered, found ∙ ground (arith, lookup-erase id k table))

-- Whether the peer of an id is in the table and stale.
abbrev pub stale_entry : (now : ℤ) → Option Peer → Bool
stale_entry now none = false
stale_entry now (some peer) = is_stale now peer

any-stale_ids :
    (now : ℤ) (id : Text) (table : PeerTable)
    → IsOrdered table
    → any (λ k. text_eq k id) (stale_ids now table) ≡ stale_entry now (lookup id table)
unfolding stale_ids lookup
any-stale_ids now id [] h = refl
any-stale_ids now id ((k, peer) ∷ table) (hk, h) =
    let ih = any-stale_ids now id table h in
    elim (Bool-cases (text_eq k id)) [
      | inl same ↦
          let equal = text_eq→eq k id same in
          let below : lookup id table ≡ none = lookup_below id table (rw equal at hk) in
          elim (Bool-cases (is_stale now peer)) [
            | inl stale ↦ rw (stale, same) (sym stale)
            | inr fresh ↦ rw (fresh, same) ((ih ∙ ap (stale_entry now) below) ∙ sym fresh)
          ]
      | inr other ↦ elim (Bool-cases (is_stale now peer)) [
        | inl stale ↦ rw (stale, other) ih
        | inr fresh ↦ rw (fresh, other) ih
      ]
    ]

-- A table whose keys ascend keeps, when it is cleaned, exactly the peers that are not stale, as
-- they were; its keys still ascend, and the ids reported are those of the peers that went.
pub prune_lem :
    (now : ℤ) (id : Text) (table : PeerTable)
    → IsOrdered table
    → let (table', gone) = prune now table in
      IsOrdered table'
      × (lookup id table' ≡ (if stale_entry now (lookup id table) then none else lookup id table))
      × (any (λ k. text_eq k id) gone ≡ stale_entry now (lookup id table))
unfolding prune
prune_lem now id table h =
    let (ordered, found) = erase_all_lem id (stale_ids now table) table h in
    let gone = any-stale_ids now id table h in (ordered, found ∙ rw gone refl, gone)

seen_later_asym : (a b : Peer) → seen_later a b ≡ true → seen_later b a ≡ false
seen_later_asym a b h = ground (arith, text_lt_asym a.name b.name)

-- The list of the peers that are online has the peers of the table and no others, the later
-- sighting first and peers of one second by their names.
pub online_lem :
    (table : PeerTable)
    → IsSorted seen_later (online table)
      × ((peer : Peer) → In peer (online table) ↔ In peer (values table))
unfolding online
online_lem table = (
  sort_by-IsSorted seen_later seen_later_asym (values table),
  λ peer. In-sort_by seen_later peer (values table),
)
