-- ===== src/Discovery/Absorb/Decision.antt =====
-- What a datagram does to the table of the peers.
use capsi.Base.{
  ℕ, ◌≡◌, refl, ◌∙◌, ◌≢◌, ◌⊎◌, inl, inr, true, false, not, Option, none, some, List, arith,
  if◌then◌else◌, Bool-cases, Option-cases, Text, text_eq, text_eq_iff, text_eq_refl, text_eq→eq, ℤ,
  pos, ok, Result-cases,
}
use capsi.Base.Maps.{lookup, contains_key, lookup-insert}
use capsi.Base.Maps.Keys.{IsOrdered, insert-IsOrdered}
use capsi.Util.{is_lan_address}
use capsi.Identity.Keys.{Primitives}
use capsi.Identity.Device.{DeviceId}
use capsi.Discovery.Beacon.{Beacon, verify, is_fresh}
use capsi.Discovery.Beacon.Signed.{
  IsLan, IsSigned, IsRecent, is_lan_address-IsLan, is_fresh-IsRecent, verify_sound, verify_complete,
}
use capsi.Discovery.Peers.{SocketAddr, PeerTable, peer_of, observe}
use capsi.Discovery.Absorb.{accepted_beacon, absorb_reporting}

module _ (p : Primitives) (parse : List ℕ → Option Beacon) (own_id : DeviceId) (now : ℤ) where
  -- What the code asks of a datagram, test by test.
  record IsAccepted (datagram : List ℕ) (source : SocketAddr) (b : Beacon) : Type 0 where
    local : is_lan_address source.ip ≡ true
    parsed : parse datagram ≡ some b
    signed : verify p b ≡ ok tt
    other : b.device_id ≢ own_id
    fresh : is_fresh (pos 60) now b ≡ true

  -- A datagram that is another device's signed beacon of these seconds, from the local network.
  pub record IsGenuine (datagram : List ℕ) (source : SocketAddr) (b : Beacon) : Type 0 where
    pub local : IsLan source.ip
    pub parsed : parse datagram ≡ some b
    pub signed : IsSigned p b
    pub other : b.device_id ≢ own_id
    pub recent : IsRecent now b

  accepted-IsGenuine :
      (datagram : List ℕ) (source : SocketAddr) (b : Beacon)
      → IsAccepted datagram source b
      → IsGenuine datagram source b
  accepted-IsGenuine datagram source b h = record {
    local = (is_lan_address-IsLan source.ip).0 h.local;
    parsed = h.parsed;
    signed = verify_sound p b h.signed;
    other = h.other;
    recent = (is_fresh-IsRecent now b).0 h.fresh;
  }

  genuine-IsAccepted :
      (datagram : List ℕ) (source : SocketAddr) (b : Beacon)
      → IsGenuine datagram source b
      → IsAccepted datagram source b
  genuine-IsAccepted datagram source b h = record {
    local = (is_lan_address-IsLan source.ip).1 h.local;
    parsed = h.parsed;
    signed = verify_complete p b h.signed;
    other = h.other;
    fresh = (is_fresh-IsRecent now b).1 h.recent;
  }

  accepted_beacon_lem :
      (datagram : List ℕ) (source : SocketAddr)
      → ((accepted_beacon p parse own_id now datagram source ≡ none)
          × ((b : Beacon) → IsAccepted datagram source b → ⊥))
        ⊎ ((b : Beacon) × IsAccepted datagram source b
            × (accepted_beacon p parse own_id now datagram source ≡ some b))
  unfolding accepted_beacon
  accepted_beacon_lem datagram source = elim (Bool-cases (is_lan_address source.ip)) [
    | inr far ↦ inl (rw far refl, λ b g. absurd (ground (arith, g.local)))
    | inl near ↦ elim (Option-cases (parse datagram)) [
      | inl noise ↦ inl (rw (near, noise) refl, λ b g. absurd (ground (arith, g.parsed)))
      | inr (b, e) ↦ elim (Result-cases (verify p b)) [
        | inr (failure, forged) ↦ inl (
          rw (near, e, forged) refl,
          λ c g.
              let same : c ≡ b = ground (arith, g.parsed) in
              let valid : verify p b ≡ ok tt = rw same at g.signed in absurd (ground arith),
        )
        | inl (done, valid) ↦ elim (Bool-cases (text_eq b.device_id own_id)) [
          | inl mine ↦ inl (
            rw (near, e, valid, mine) refl,
            λ c g.
                let same : c ≡ b = ground (arith, g.parsed) in
                let differs : b.device_id ≢ own_id = rw same at g.other in
                absurd (differs (text_eq→eq b.device_id own_id mine)),
          )
          | inr other ↦ elim (Bool-cases (is_fresh (pos 60) now b)) [
            | inr old ↦ inl (
              rw (near, e, valid, other, old) refl,
              λ c g.
                  let same : c ≡ b = ground (arith, g.parsed) in
                  let fresh : is_fresh (pos 60) now b ≡ true = rw same at g.fresh in
                  absurd (ground arith),
            )
            | inl fresh ↦ inr (
              b,
              record {
                local = near;
                parsed = e;
                signed = valid;
                other = λ equal. absurd (ground (arith, text_eq_iff b.device_id own_id));
                fresh = fresh;
              },
              rw (near, e, valid, other, fresh) refl,
            )
          ]
        ]
      ]
    ]
  ]

  -- What absorbing a datagram answers and leaves behind.
  abbrev pub IsAbsorbed : (datagram : List ℕ) (source : SocketAddr) (table : PeerTable) → Type 0
  IsAbsorbed datagram source table =
      let (table', peer, first) = absorb_reporting p parse own_id now datagram source table in
      (((b : Beacon) → IsGenuine datagram source b → ⊥)
        × (table' ≡ table)
        × (peer ≡ none)
        × (first ≡ false))
      ⊎ ((b : Beacon) × IsGenuine datagram source b
          × ((id : Text)
              → lookup id table'
                ≡ (if text_eq b.device_id id then some (peer_of b source now) else lookup id table))
          × (peer ≡ some (peer_of b source now))
          × (first ≡ not (contains_key b.device_id table)))

  -- On a table whose keys ascend, a datagram gives a device, and no other, its entry in the table,
  -- and is reported as that peer, as a first sight exactly when the device was not in the table,
  -- when it comes from the local network (the link-local addresses of IPv6 do not count), parses as
  -- a beacon of this version with a port and a valid name, is signed with the key that the device's
  -- id spells, names another device than this one, and has an age from -60 to 80 seconds on 64 bits
  -- that wrap around. Any other datagram changes nothing and reports nothing. The keys still ascend
  -- afterwards.
  pub absorb_reporting_lem :
      (datagram : List ℕ) (source : SocketAddr) (table : PeerTable)
      → IsOrdered table
      → IsAbsorbed datagram source table
        × IsOrdered ((absorb_reporting p parse own_id now datagram source table).0)
  unfolding absorb_reporting observe
  absorb_reporting_lem datagram source table h = elim (accepted_beacon_lem datagram source) [
    | inl (nothing, none_accepted) ↦
        rw (nothing, absorb_reporting)
          (
            inl (
              λ b genuine. none_accepted b (genuine-IsAccepted datagram source b genuine),
              refl,
              refl,
              refl,
            ),
            h,
          )
    | inr (b, accepted, e) ↦
        let genuine = accepted-IsGenuine datagram source b accepted in
        let found = lookup-insert b.device_id b.device_id (peer_of b source now) table in
        let self = text_eq_refl b.device_id in
        rw (e, absorb_reporting)
          (
            inr (
              b,
              genuine,
              λ id. lookup-insert id b.device_id (peer_of b source now) table,
              found ∙ rw self refl,
              refl,
            ),
            insert-IsOrdered b.device_id (peer_of b source now) table h,
          )
  ]
