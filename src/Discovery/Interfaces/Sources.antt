-- ===== src/Discovery/Interfaces/Sources.antt =====
-- Where the addresses of `local_broadcasts` come from.
use capsi.Base.{
  ℕ, ◌≡◌, refl, ap, ◌∙◌, ◌⊎◌, inl, inr, true, false, Option, none, some, List, [], ◌∷◌, arith, In,
}
use capsi.Discovery.Interfaces.{
  directed_broadcast, Sockaddr, Ifaddrs, broadcast_of, interface_broadcast, found_with, broadcasts,
  local_broadcasts,
}

-- An interface that is up, can broadcast and is no loopback device, with an IPv4 address and a mask
-- that have this directed broadcast address.
pub record HasBroadcast (entry : Ifaddrs) (broadcast : ℕ) : Type 0 where
  pub up : entry.is_up ≡ true
  pub broadcasting : entry.is_broadcast ≡ true
  pub physical : entry.is_loopback_device ≡ false
  pub address : Sockaddr
  pub with_address : entry.address ≡ some address
  pub inet : address.is_inet ≡ true
  pub netmask : Sockaddr
  pub with_netmask : entry.netmask ≡ some netmask
  pub directed : directed_broadcast address.address netmask.address ≡ some broadcast

-- `getifaddrs` has answered such an interface.
abbrev pub IsInterfaceBroadcast : Option (List Ifaddrs) → (broadcast : ℕ) → Type 0
IsInterfaceBroadcast interfaces broadcast =
    (entries : List Ifaddrs) × (entry : Ifaddrs) × (interfaces ≡ some entries)
    × In entry entries
    × HasBroadcast entry broadcast

module _ (broadcast : ℕ) where
  broadcast_with :
      (entry : Ifaddrs) (address netmask : Option Sockaddr)
      → entry.is_up ≡ true
      → entry.is_broadcast ≡ true
      → entry.is_loopback_device ≡ false
      → entry.address ≡ address
      → entry.netmask ≡ netmask
      → broadcast_of address netmask ≡ some broadcast
      → HasBroadcast entry broadcast
  broadcast_with entry none netmask up b l ea en h = absurd (cc)
  broadcast_with entry (some address) none up b l ea en h = absurd (cc)
  broadcast_with entry (some address) (some netmask) up b l ea en h = record {
    up = up;
    broadcasting = b;
    physical = l;
    address = address;
    with_address = ea;
    inet = ground arith;
    netmask = netmask;
    with_netmask = en;
    directed = ground arith;
  }

  interface_broadcast_sound :
      (entry : Ifaddrs) → interface_broadcast entry ≡ some broadcast → HasBroadcast entry broadcast
  unfolding interface_broadcast
  interface_broadcast_sound entry h =
      broadcast_with entry entry.address entry.netmask (ground arith) (ground arith) (ground arith)
        refl refl (ground arith)

  interface_broadcast_complete :
      (entry : Ifaddrs) → HasBroadcast entry broadcast → interface_broadcast entry ≡ some broadcast
  unfolding interface_broadcast
  interface_broadcast_complete entry h =
      rw (h.up, h.broadcasting, h.physical, h.with_address, h.with_netmask, h.inet) h.directed

  In-found_with :
      (entry : Ifaddrs) (found : Option ℕ)
      → interface_broadcast entry ≡ found
      → (others : List ℕ) → In broadcast (found_with found others)
      → HasBroadcast entry broadcast ⊎ In broadcast others
  In-found_with entry none same others h = inr h
  In-found_with entry (some a) same others (inl here) =
      inl (interface_broadcast_sound entry (same ∙ ap some here))
  In-found_with entry (some a) same others (inr later) = inr later

  found_with-In :
      (found : Option ℕ) (others : List ℕ)
      → In broadcast others
      → In broadcast (found_with found others)
  found_with-In none others h = h
  found_with-In (some a) others h = inr h

  In-broadcasts :
      (entries : List Ifaddrs)
      → In broadcast (broadcasts entries)
      → (entry : Ifaddrs) × In entry entries × HasBroadcast entry broadcast
  In-broadcasts [] h = absurd h
  In-broadcasts (entry ∷ entries) h =
      elim (In-found_with entry (interface_broadcast entry) refl (broadcasts entries) h) [
        | inl here ↦ (entry, inl refl, here)
        | inr later ↦ let (e, there, has) = In-broadcasts entries later in (e, inr there, has)
      ]

  broadcasts-In :
      (entries : List Ifaddrs) (entry : Ifaddrs)
      → In entry entries
      → HasBroadcast entry broadcast
      → In broadcast (broadcasts entries)
  broadcasts-In [] entry there has = absurd there
  broadcasts-In (e ∷ entries) entry (inl here) has =
      rw (here, interface_broadcast_complete entry has) (inl refl)
  broadcasts-In (e ∷ entries) entry (inr there) has =
      found_with-In (interface_broadcast e) (broadcasts entries)
        (broadcasts-In entries entry there has)

  pub local_broadcasts_sound :
      (interfaces : Option (List Ifaddrs))
      → In broadcast (local_broadcasts interfaces)
      → IsInterfaceBroadcast interfaces broadcast
  unfolding local_broadcasts
  local_broadcasts_sound none h = absurd h
  local_broadcasts_sound (some entries) h =
      let (entry, there, has) = In-broadcasts entries h in (entries, entry, refl, there, has)

  pub local_broadcasts_complete :
      (interfaces : Option (List Ifaddrs))
      → IsInterfaceBroadcast interfaces broadcast
      → In broadcast (local_broadcasts interfaces)
  unfolding local_broadcasts
  local_broadcasts_complete interfaces (entries, entry, given, there, has) =
      rw given (broadcasts-In entries entry there has)
