-- ===== src/Discovery/Beacon/Signed.antt =====
-- What `verify` and `is_fresh` ask of a beacon.
use Prim.Native.Nat.{bit_and}
use capsi.Base.{
  sym, ap, ◌∙◌, ◌&&◌, ◌<ℤ◌, false, ℕ, ◌≡◌, ◌≢◌, ◌≤◌, ◌⊎◌, ◌↔◌, refl, true, not, List, [], ◌∷◌,
  arith, ◌==◌, Text, text_eq, text_eq_iff, text_eq→eq, ℤ, pos, negsuc, ◌-ℤ◌, ◌≤ℤ◌, wrap_i64, Result,
  ok, err, guard, >>=-eq-ok, guard-eq-ok,
}
use capsi.Protocol.Message.{protocol_version}
use capsi.Util.{IpAddr, v4, v6, is_lan_address, validate_device_name}
use capsi.Identity.Device.{DeviceId}
use capsi.Identity.Keys.{
  Primitives, decode_fixed, rejected_key, bad_signature, peer_verifying_key, verify_hex,
}
use capsi.Discovery.Beacon.{
  Beacon, wrong_version, port_zero, bad_name, bad_key, map_err, signed_text, verify, is_fresh,
}

map_err-eq-ok :
    {E F A : Type 0} (f : E → F) (r : Result E A) {a : A} → map_err f r ≡ ok a → r ≡ ok a
map_err-eq-ok f (ok a) h = ground arith
map_err-eq-ok f (err e) h = absurd (ground arith)

module _ (p : Primitives) (b : Beacon) where
  key_parts :
      (id : DeviceId) (key : List ℕ)
      → peer_verifying_key p id ≡ ok key
      → (decode_fixed p 32 id ≡ ok key) × (p.is_key key ≡ true)
  unfolding peer_verifying_key
  key_parts id key h =
      let (bytes, decoded, rest) = >>=-eq-ok (decode_fixed p 32 id) _ h in
      let (_, usable, last) =
        >>=-eq-ok (guard (p.is_key bytes) rejected_key) (λ _. ok bytes) rest in
      let same : bytes ≡ key = ap (λ r. elim r [ ok a ↦ a | err e ↦ bytes ]) last in
      (
        decoded ∙ ap ok same,
        ap p.is_key (sym same) ∙ guard-eq-ok (p.is_key bytes) rejected_key usable,
      )

  signature_parts :
      (key message : List ℕ) (signature : Text)
      → verify_hex p key message signature ≡ ok tt
      → (bytes : List ℕ) × (decode_fixed p 64 signature ≡ ok bytes)
        × (p.is_signature key message bytes ≡ true)
  unfolding verify_hex
  signature_parts key message signature h =
      let (bytes, decoded, rest) = >>=-eq-ok (decode_fixed p 64 signature) _ h in
      (bytes, decoded, guard-eq-ok (p.is_signature key message bytes) bad_signature rest)

  -- The beacon has this version of the protocol, a port and a name that is valid, and its signature
  -- is one of its text under the key that its device id spells.
  pub record IsSigned : Type 0 where
    pub of_version : b.version ≡ protocol_version
    pub with_port : b.port ≢ 0
    pub name : Text
    pub valid_name : validate_device_name b.name ≡ ok name
    pub key : List ℕ
    pub spelled : decode_fixed p 32 b.device_id ≡ ok key
    pub usable : p.is_key key ≡ true
    pub signature : List ℕ
    pub decoded : decode_fixed p 64 b.signature ≡ ok signature
    pub signs : p.is_signature key (p.as_bytes (signed_text b)) signature ≡ true

  pub verify_complete : IsSigned → verify p b ≡ ok tt
  unfolding verify peer_verifying_key verify_hex text_eq signed_text
  verify_complete s =
      let port : (b.port == 0) ≡ false = ground (arith, s.with_port) in
      rw (s.of_version, port, s.valid_name, s.spelled, s.usable, s.decoded, s.signs) refl

  pub verify_sound : verify p b ≡ ok tt → IsSigned
  unfolding verify
  verify_sound h =
      let (_, version, h1) =
        >>=-eq-ok (guard (text_eq b.version protocol_version) wrong_version) _ h in
      let (_, port, h2) = >>=-eq-ok (guard (not (b.port == 0)) port_zero) _ h1 in
      let (name, named, h3) = >>=-eq-ok (map_err bad_name (validate_device_name b.name)) _ h2 in
      let (key, keyed, h4) = >>=-eq-ok (map_err bad_key (peer_verifying_key p b.device_id)) _ h3 in
      let (spelled, usable) = key_parts b.device_id key (map_err-eq-ok _ _ keyed) in
      let (signature, decoded, signs) =
        signature_parts key (p.as_bytes (signed_text b)) b.signature (map_err-eq-ok _ _ h4) in
      let has_port = guard-eq-ok (not (b.port == 0)) port_zero port in
      record {
        of_version = text_eq→eq b.version protocol_version (guard-eq-ok _ wrong_version version);
        with_port = λ zero_port. absurd (ground arith);
        name = name;
        valid_name = map_err-eq-ok _ _ named;
        key = key;
        spelled = spelled;
        usable = usable;
        signature = signature;
        decoded = decoded;
        signs = signs;
      }

-- The age of the beacon, as 64 bits give it, is from -60 to 80 seconds.
abbrev pub IsRecent : (now : ℤ) → Beacon → Type 0
IsRecent now b = let age = wrap_i64 (now -ℤ b.sent_at) in (negsuc 59 ≤ℤ age) × (age ≤ℤ pos 80)

between :
    (age : ℤ)
    → ((not (age <ℤ negsuc 59) && not (pos 80 <ℤ age)) ≡ true)
      ↔ ((negsuc 59 ≤ℤ age) × (age ≤ℤ pos 80))
between age = ground arith

pub is_fresh-IsRecent : (now : ℤ) (b : Beacon) → (is_fresh (pos 60) now b ≡ true) ↔ IsRecent now b
unfolding is_fresh
is_fresh-IsRecent now b = between (wrap_i64 (now -ℤ b.sent_at))

-- The loopback, private and link-local addresses of IPv4, and of IPv6 the loopback address and the
-- unique local ones; the link-local ones of IPv6 are not among them.
abbrev pub IsLan : IpAddr → Type 0
IsLan (v4 a b c d) =
    (a ≡ 127)
    ⊎ (a ≡ 10)
    ⊎ ((a ≡ 172) × (16 ≤ b) × (b ≤ 31))
    ⊎ ((a ≡ 192) × (b ≡ 168))
    ⊎ ((a ≡ 169) × (b ≡ 254))
IsLan (v6 first rest) =
    (first ∷ rest ≡ 0 ∷ 0 ∷ 0 ∷ 0 ∷ 0 ∷ 0 ∷ 0 ∷ 1 ∷ []) ⊎ (bit_and first 0xfe00 ≡ 0xfc00)

pub is_lan_address-IsLan : (ip : IpAddr) → (is_lan_address ip ≡ true) ↔ IsLan ip
unfolding is_lan_address
is_lan_address-IsLan (v4 a b c d) = ground arith
is_lan_address-IsLan (v6 first rest) =
    ground (arith, text_eq_iff (first ∷ rest) (0 ∷ 0 ∷ 0 ∷ 0 ∷ 0 ∷ 0 ∷ 0 ∷ 1 ∷ []))
