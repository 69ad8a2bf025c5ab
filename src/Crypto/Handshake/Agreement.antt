-- ===== src/Crypto/Handshake/Agreement.antt =====
-- What the two sides of a handshake agree on, over the documented behaviour of the cryptography.
use capsi.Base.{
  ℕ, zero, suc, ◌*◌, ◌<◌, ◌≡◌, refl, inl, inr, Bool, true, false, some, List, [], ◌∷◌, ◌++◌, arith,
  ◌==◌, if◌then◌else◌, Bool-cases, length, take, all, All, length-take, Text, text_eq, text_eq_comm,
  is_ascii_hexdigit, utf8_len, ok,
}
use capsi.Identity.Device.{DeviceId}
use capsi.Identity.Keys.{
  Primitives, DeviceIdentity, decode_fixed, from_secrets, sign_hex, peer_verifying_key, verify_hex,
  shared_secret,
}
use capsi.Crypto.Handshake.{
  Handshake, Field, handshake_nonce, handshake_exchange_key, salt_failed, panicked, handshake_label,
  unsigned, bar, SessionKeys, decode_to_slice, decode_32, signed_bytes, create, verify, kdf_input,
  kdf, salt_of, directions, schedule, derive,
}

abbrev pub IsBytes : List ℕ → Type 0
IsBytes b = All (λ (x : ℕ). x < 256) b

-- What the documentation of `hex` says.
pub record IsHex (p : Primitives) : Type 0 where
  pub decodes : (b : List ℕ) → IsBytes b → p.hex_decode (p.hex_encode b) ≡ some b
  pub width : (b : List ℕ) → IsBytes b → utf8_len (p.hex_encode b) ≡ length b * 2
  pub digits : (b : List ℕ) → IsBytes b → all is_ascii_hexdigit (p.hex_encode b) ≡ true
  pub prefix : (n : ℕ) (b : List ℕ) → take (n * 2) (p.hex_encode b) ≡ p.hex_encode (take n b)

-- What the documentation of the signatures, of the exchange and of the hash says.
pub record IsDocumented (p : Primitives) : Type 0 where
  pub hex : IsHex p
  pub key_size : (seed : List ℕ) → IsBytes (p.public_key seed) × (length (p.public_key seed) ≡ 32)
  pub is_key : (seed : List ℕ) → p.is_key (p.public_key seed) ≡ true
  pub signature_size :
      (seed message : List ℕ) → IsBytes (p.sign seed message) × (length (p.sign seed message) ≡ 64)
  pub signed :
      (seed message : List ℕ)
      → p.is_signature (p.public_key seed) message (p.sign seed message) ≡ true
  pub exchange_size :
      (secret : List ℕ)
      → IsBytes (p.exchange_public secret) × (length (p.exchange_public secret) ≡ 32)
  pub exchanged :
      (a b : List ℕ)
      → p.diffie_hellman a (p.exchange_public b) ≡ p.diffie_hellman b (p.exchange_public a)
  pub digest_size : (bytes : List ℕ) → IsBytes (p.digest bytes) × (length (p.digest bytes) ≡ 32)

-- The random bytes of a handshake.
pub record IsNonce (nonce : List ℕ) : Type 0 where
  pub bytes : IsBytes nonce
  pub size : length nonce ≡ 32

-- The keys of the other end.
abbrev pub mirrored : SessionKeys → SessionKeys
mirrored keys = record { send = keys.receive; receive = keys.send; salt = keys.salt }

module _ (p : Primitives) (d : IsDocumented p) where
  decode_32-hex_encode :
      (b : List ℕ) (what : Field)
      → IsBytes b
      → length b ≡ 32
      → decode_32 p (p.hex_encode b) what ≡ ok b
  unfolding decode_32
  decode_32-hex_encode b what v size = rw (d.hex.decodes b v) (rw size refl)

  -- The bytes under the signature of a handshake with these fields.
  abbrev covered : DeviceId → (nonce exchange : List ℕ) → List ℕ
  covered id nonce exchange =
      handshake_label
      ++ (bar
          ++ (p.as_bytes id
              ++ (bar
                  ++ (p.as_bytes (p.hex_encode nonce)
                      ++ (bar ++ p.as_bytes (p.hex_encode exchange))))))

  -- The handshake that `create` makes.
  abbrev honest : DeviceIdentity → (nonce : List ℕ) → Handshake
  honest identity nonce =
      let exchange = p.exchange_public identity.exchange in
      record (unsigned identity.id (p.hex_encode nonce) (p.hex_encode exchange)) {
        signature = sign_hex p identity (covered identity.id nonce exchange);
      }

  signed_bytes-hex_encode :
      (id : DeviceId) (nonce : List ℕ) (secret : List ℕ) (signature : Text)
      → IsNonce nonce
      → signed_bytes p
          (record (unsigned id (p.hex_encode nonce) (p.hex_encode (p.exchange_public secret))) {
            signature = signature;
          })
        ≡ ok (covered id nonce (p.exchange_public secret))
  unfolding signed_bytes
  signed_bytes-hex_encode id nonce secret signature n =
      let (bytes, size) = d.exchange_size secret in
      rw
        (
          decode_32-hex_encode nonce handshake_nonce n.bytes n.size,
          decode_32-hex_encode (p.exchange_public secret) handshake_exchange_key bytes size,
        )
        refl

  create-honest :
      (identity : DeviceIdentity) (nonce : List ℕ)
      → IsNonce nonce
      → create p identity (some nonce) ≡ ok (honest identity nonce)
  unfolding create
  create-honest identity nonce n =
      rw (signed_bytes-hex_encode identity.id nonce identity.exchange [] n) refl

  decode_fixed-hex_encode :
      (n : ℕ) (b : List ℕ) → IsBytes b → length b ≡ n → decode_fixed p n (p.hex_encode b) ≡ ok b
  unfolding decode_fixed
  decode_fixed-hex_encode n b v size =
      let even : (length b * 2 == n * 2) ≡ true = ground arith in
      let same : (length b == n) ≡ true = ground arith in
      rw (d.hex.width b v, even, d.hex.digits b v, d.hex.decodes b v, same) refl

  peer_verifying_key-from_secrets :
      (seed exchange : List ℕ)
      → peer_verifying_key p ((from_secrets p seed exchange).id) ≡ ok (p.public_key seed)
  unfolding from_secrets peer_verifying_key
  peer_verifying_key-from_secrets seed exchange =
      let (bytes, size) = d.key_size seed in
      rw (decode_fixed-hex_encode 32 (p.public_key seed) bytes size, d.is_key seed) refl

  verify_hex-sign_hex :
      (seed exchange message : List ℕ)
      → verify_hex p (p.public_key seed) message (sign_hex p (from_secrets p seed exchange) message)
        ≡ ok tt
  unfolding verify_hex sign_hex from_secrets
  verify_hex-sign_hex seed exchange message =
      let (bytes, size) = d.signature_size seed message in
      rw (decode_fixed-hex_encode 64 (p.sign seed message) bytes size, d.signed seed message) refl

  -- The handshake that a device creates passes the check of its peer.
  verify-honest :
      (seed exchange nonce : List ℕ)
      → IsNonce nonce
      → verify p (honest (from_secrets p seed exchange) nonce) ≡ ok tt
  unfolding verify
  verify-honest seed exchange nonce n =
      let me = from_secrets p seed exchange in
      let message = covered me.id nonce (p.exchange_public me.exchange) in
      rw
        (
          peer_verifying_key-from_secrets seed exchange,
          signed_bytes-hex_encode me.id nonce me.exchange (sign_hex p me message) n,
          verify_hex-sign_hex seed exchange message,
        )
        refl

  -- What `schedule` computes.
  abbrev scheduled : (shared : List ℕ) (first second : Handshake) (initiator : Bool) → SessionKeys
  scheduled shared first second initiator =
      let salt = take 16 (p.digest (p.as_bytes first.nonce ++ p.as_bytes second.nonce)) in
      let (out, back) = directions p initiator in
      record {
        send = p.digest (kdf_input p out shared salt first second);
        receive = p.digest (kdf_input p back shared salt first second);
        salt = salt;
      }

  decode_to_slice-hex_encode :
      {E : Type 0} (n : ℕ) (b : List ℕ) (e : E)
      → IsBytes b
      → length b ≡ n
      → decode_to_slice p n (p.hex_encode b) e ≡ ok b
  decode_to_slice-hex_encode n b e v size =
      let same : (length b == n) ≡ true = ground arith in rw (d.hex.decodes b v, same) refl

  IsBytes-take : (n : ℕ) (b : List ℕ) → IsBytes b → IsBytes (take n b)
  IsBytes-take zero b h = tt
  IsBytes-take (suc n) [] h = tt
  IsBytes-take (suc n) (x ∷ b) (hx, hb) = (hx, IsBytes-take n b hb)

  salt_of-eq-ok :
      (first second : Handshake)
      → salt_of p first second
        ≡ ok (take 16 (p.digest (p.as_bytes first.nonce ++ p.as_bytes second.nonce)))
  salt_of-eq-ok first second =
      let hashed = p.digest (p.as_bytes first.nonce ++ p.as_bytes second.nonce) in
      let (bytes, size) = d.digest_size (p.as_bytes first.nonce ++ p.as_bytes second.nonce) in
      let short : length (take 16 hashed) ≡ 16 = omega (arith, length-take 16 hashed) in
      rw (d.hex.prefix 16 hashed) (
        decode_to_slice-hex_encode 16 (take 16 hashed) salt_failed (IsBytes-take 16 hashed bytes)
          short)

  kdf-eq-ok :
      (direction shared salt : List ℕ) (first second : Handshake)
      → kdf p direction shared salt first second
        ≡ ok (p.digest (kdf_input p direction shared salt first second))
  unfolding kdf
  kdf-eq-ok direction shared salt first second =
      let (bytes, size) = d.digest_size (kdf_input p direction shared salt first second) in
      decode_to_slice-hex_encode 32 (p.digest (kdf_input p direction shared salt first second))
        panicked bytes size

  schedule-eq-ok :
      (shared : List ℕ) (first second : Handshake) (initiator : Bool)
      → schedule p shared first second initiator ≡ ok (scheduled shared first second initiator)
  unfolding schedule
  schedule-eq-ok shared first second initiator =
      let salt = take 16 (p.digest (p.as_bytes first.nonce ++ p.as_bytes second.nonce)) in
      let (out, back) = directions p initiator in
      rw
        (
          salt_of-eq-ok first second,
          kdf-eq-ok out shared salt first second,
          kdf-eq-ok back shared salt first second,
        )
        refl

  -- What `derive` computes on the handshake of an honest peer.
  derive-honest :
      (me : DeviceIdentity) (mine : Handshake) (seed exchange nonce : List ℕ) (initiator : Bool)
      → IsNonce nonce
      → text_eq ((from_secrets p seed exchange).id) me.id ≡ false
      → let theirs = honest (from_secrets p seed exchange) nonce in
        let shared = p.diffie_hellman me.exchange (p.exchange_public exchange) in
        derive p me mine theirs initiator
        ≡ ok (
            if initiator
            then scheduled shared mine theirs true
            else scheduled shared theirs mine false)
  unfolding derive shared_secret from_secrets
  derive-honest me mine seed exchange nonce initiator n other =
      let (bytes, size) = d.exchange_size exchange in
      let read =
        decode_32-hex_encode (p.exchange_public exchange) handshake_exchange_key bytes size in
      let theirs = honest (from_secrets p seed exchange) nonce in
      let shared = p.diffie_hellman me.exchange (p.exchange_public exchange) in
      elim (Bool-cases initiator) [
        | inl e ↦
            rw (e, other, verify-honest seed exchange nonce n, read)
              (schedule-eq-ok shared mine theirs true)
        | inr e ↦
            rw (e, other, verify-honest seed exchange nonce n, read)
              (schedule-eq-ok shared theirs mine false)
      ]

  -- When hex, the signatures, the exchange and the hash behave as documented: two devices with
  -- different ids that create their handshakes from nonces of 32 bytes derive matching keys from
  -- them. Both succeed, what the initiator sends with the responder receives with and the other
  -- way round, and the salt is the same.
  pub key_agreement :
      (seed_a exchange_a nonce_a seed_b exchange_b nonce_b : List ℕ)
      → IsNonce nonce_a
      → IsNonce nonce_b
      → text_eq ((from_secrets p seed_a exchange_a).id) ((from_secrets p seed_b exchange_b).id)
        ≡ false
      → let a = from_secrets p seed_a exchange_a in
        let b = from_secrets p seed_b exchange_b in
        (hello_a : Handshake) × (hello_b : Handshake) × (keys : SessionKeys) × (create p a
            (some nonce_a)
          ≡ ok hello_a)
        × (create p b (some nonce_b) ≡ ok hello_b)
        × (derive p a hello_a hello_b true ≡ ok keys)
        × (derive p b hello_b hello_a false ≡ ok (mirrored keys))
  unfolding from_secrets
  key_agreement seed_a exchange_a nonce_a seed_b exchange_b nonce_b na nb other =
      let a = from_secrets p seed_a exchange_a in
      let b = from_secrets p seed_b exchange_b in
      let hello_a = honest a nonce_a in
      let hello_b = honest b nonce_b in
      let shared = p.diffie_hellman exchange_a (p.exchange_public exchange_b) in
      let other' : text_eq b.id a.id ≡ false = rw (text_eq_comm b.id a.id) other in
      (
        hello_a,
        hello_b,
        scheduled shared hello_a hello_b true,
        create-honest a nonce_a na,
        create-honest b nonce_b nb,
        derive-honest a hello_a seed_b exchange_b nonce_b true nb other',
        rw (d.exchanged exchange_a exchange_b)
            (derive-honest b hello_b seed_a exchange_a nonce_a false na other),
      )
