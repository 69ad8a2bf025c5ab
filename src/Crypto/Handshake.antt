-- ===== src/Crypto/Handshake.antt =====
-- The handshake and the key schedule of crates/capsi-core/src/crypto/session.rs.
pub mod Agreement
use capsi.Base.{
  ℕ, Bool, true, false, not, Option, List, [], ◌∷◌, ◌++◌, ◌==◌, if◌then◌else◌, length, take, Text,
  codes, text_eq, Result, ok, err, guard, ok_or, ◌>>=◌, ◌>>◌,
}
use capsi.Identity.Device.{DeviceId}
use capsi.Identity.Keys.{
  Primitives, KeyError, DeviceIdentity, sign_hex, peer_verifying_key, verify_hex, shared_secret,
}

pub record Handshake : Type 0 where
  pub device_id : DeviceId
  pub nonce : Text
  pub exchange_key : Text
  pub signature : Text

-- The fields that `decode_32` reads.
pub data Field : Type 0 where
  handshake_nonce handshake_exchange_key : Field

-- `panicked` stands for a failed `expect`, `no_random` for a failure of the random source.
pub data HandshakeError : Type 0 where
  bad_field : Field → HandshakeError
  bad_key : KeyError → HandshakeError
  no_random to_ourselves salt_failed panicked : HandshakeError

-- The conversion of an error by `?`.
abbrev key_result : {A : Type 0} → Result KeyError A → Result HandshakeError A
key_result (ok a) = ok a
key_result (err e) = err (bad_key e)

-- `KDF_LABEL` and `HANDSHAKE_LABEL`.
abbrev pub kdf_label : List ℕ
kdf_label = codes "capsi/1/session-key"

abbrev pub handshake_label : List ℕ
handshake_label = codes "capsi/1/handshake"

-- The handshake that is to be signed.
abbrev pub unsigned : DeviceId → (nonce exchange_key : Text) → Handshake
unsigned id nonce exchange_key = record {
  device_id = id;
  nonce = nonce;
  exchange_key = exchange_key;
  signature = [];
}

abbrev pub bar : List ℕ
bar = b'|' ∷ []

pub record SessionKeys : Type 0 where
  pub send : List ℕ
  pub receive : List ℕ
  pub salt : List ℕ

module _ (p : Primitives) where
  -- `hex::decode_to_slice` into `n` bytes.
  abbrev pub decode_to_slice : {E : Type 0} → (n : ℕ) → Text → E → Result E (List ℕ)
  decode_to_slice n value failure = do
    bytes ← ok_or (p.hex_decode value) failure
    guard (length bytes == n) failure
    ok bytes

  unfoldable pub decode_32 : Text → Field → Result HandshakeError (List ℕ)
  decode_32 value what = decode_to_slice 32 value (bad_field what)

  unfoldable pub signed_bytes : Handshake → Result HandshakeError (List ℕ)
  unfolding decode_32
  signed_bytes h = do
    nonce ← decode_32 h.nonce handshake_nonce
    exchange ← decode_32 h.exchange_key handshake_exchange_key
    ok (
        handshake_label
        ++ (bar
            ++ (p.as_bytes h.device_id
                ++ (bar
                    ++ (p.as_bytes (p.hex_encode nonce)
                        ++ (bar ++ p.as_bytes (p.hex_encode exchange)))))))

  -- `Handshake::create`, with the bytes of the random source.
  unfoldable pub create :
      DeviceIdentity → (random : Option (List ℕ)) → Result HandshakeError Handshake
  unfolding signed_bytes sign_hex
  create identity random = do
    nonce ← ok_or random no_random
    let h : Handshake =
        unsigned identity.id (p.hex_encode nonce)
          (p.hex_encode (p.exchange_public identity.exchange))
    bytes ← signed_bytes h
    ok (record h { signature = sign_hex p identity bytes })

  unfoldable pub verify : Handshake → Result HandshakeError (Unit {0})
  unfolding signed_bytes peer_verifying_key verify_hex
  verify h = do
    key ← key_result (peer_verifying_key p h.device_id)
    bytes ← signed_bytes h
    key_result (verify_hex p key bytes h.signature)

  -- `util::digest_hex`.
  abbrev pub digest_hex : List ℕ → Text
  digest_hex bytes = p.hex_encode (p.digest bytes)

  -- The bytes that `kdf` hashes.
  unfoldable pub kdf_input : (direction shared salt : List ℕ) (first second : Handshake) → List ℕ
  kdf_input direction shared salt first second =
      kdf_label
      ++ (bar
          ++ (direction
              ++ (bar
                  ++ (shared
                      ++ (salt
                          ++ (p.as_bytes first.device_id
                              ++ (bar
                                  ++ (p.as_bytes first.nonce
                                      ++ (bar
                                          ++ (p.as_bytes first.exchange_key
                                              ++ (bar
                                                  ++ (p.as_bytes second.device_id
                                                      ++ (bar
                                                          ++ (p.as_bytes second.nonce
                                                            ++ (bar
                                                            ++ p.as_bytes
                                                            second.exchange_key)))))))))))))))

  unfoldable pub kdf :
      (direction shared salt : List ℕ) (first second : Handshake) → Result HandshakeError (List ℕ)
  unfolding kdf_input
  kdf direction shared salt first second =
      decode_to_slice 32 (digest_hex (kdf_input direction shared salt first second)) panicked

  -- The salt of a session.
  abbrev pub salt_of : (first second : Handshake) → Result HandshakeError (List ℕ)
  salt_of first second =
      decode_to_slice 16 (take 32 (digest_hex (p.as_bytes first.nonce ++ p.as_bytes second.nonce)))
        salt_failed

  -- The labels of the two directions, the sender's first.
  abbrev pub directions : (initiator : Bool) → List ℕ × List ℕ
  directions true = (codes "initiator->responder", codes "responder->initiator")
  directions false = (codes "responder->initiator", codes "initiator->responder")

  -- The end of `derive`, on the handshakes in their order.
  unfoldable pub schedule :
      (shared : List ℕ) (first second : Handshake) (initiator : Bool)
      → Result HandshakeError SessionKeys
  unfolding kdf
  schedule shared first second initiator = do
    salt ← salt_of first second
    send ← kdf ((directions initiator).0) shared salt first second
    receive ← kdf ((directions initiator).1) shared salt first second
    ok (record { send = send; receive = receive; salt = salt })

  -- `SessionKeys::derive`.
  unfoldable pub derive :
      DeviceIdentity
      → (mine theirs : Handshake) (initiator : Bool) → Result HandshakeError SessionKeys
  unfolding verify decode_32 shared_secret schedule
  derive identity mine theirs initiator = do
    guard (not (text_eq theirs.device_id identity.id)) to_ourselves
    done ← verify theirs
    exchange ← decode_32 theirs.exchange_key handshake_exchange_key
    let shared : List ℕ = shared_secret p identity exchange
    if initiator
        then schedule shared mine theirs initiator
        else schedule shared theirs mine initiator
