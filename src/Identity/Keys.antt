-- ===== src/Identity/Keys.antt =====
-- The keys of crates/capsi-core/src/identity/device.rs, over the cryptography of other packages.
use capsi.Base.{
  ℕ, ◌*◌, Bool, ◌&&◌, Option, List, ◌==◌, if◌then◌else◌, length, all, Text, is_ascii_hexdigit,
  utf8_len, Result, ok, guard, ok_or, ◌>>=◌, ◌>>◌,
}
use capsi.Identity.Device.{DeviceId}

-- What ed25519_dalek, x25519_dalek, blake2, chacha20poly1305, hex and base64 compute, and the UTF-8
-- bytes of a text.
pub record Primitives : Type 0 where
  pub as_bytes : Text → List ℕ
  pub hex_encode : List ℕ → Text
  pub hex_decode : Text → Option (List ℕ)
  pub base64_decode : Text → Option (List ℕ)
  pub digest : List ℕ → List ℕ
  -- The key of a seed, a signature, which bytes are a key, and the test of a signature.
  pub public_key : (seed : List ℕ) → List ℕ
  pub sign : (seed message : List ℕ) → List ℕ
  pub is_key : List ℕ → Bool
  pub is_signature : (key message signature : List ℕ) → Bool
  -- Diffie and Hellman's exchange.
  pub exchange_public : (secret : List ℕ) → List ℕ
  pub diffie_hellman : (secret public : List ℕ) → List ℕ
  -- Authenticated encryption; a failure is `none`.
  pub encrypt : (key nonce aad message : List ℕ) → Option (List ℕ)
  pub decrypt : (key nonce aad sealed : List ℕ) → Option (List ℕ)

pub data KeyError : Type 0 where
  bad_hex bad_encoding wrong_size rejected_key bad_signature : KeyError

-- `DeviceIdentity`: the two secrets and the id.
pub record DeviceIdentity : Type 0 where
  pub seed : List ℕ
  pub exchange : List ℕ
  pub id : DeviceId

module _ (p : Primitives) where
  -- `decode_fixed::<N>`.
  unfoldable pub decode_fixed : (n : ℕ) → Text → Result KeyError (List ℕ)
  decode_fixed n value = do
    bytes ←
        if (utf8_len value == n * 2) && all is_ascii_hexdigit value
        then ok_or (p.hex_decode value) bad_hex
        else ok_or (p.base64_decode value) bad_encoding
    guard (length bytes == n) wrong_size
    ok bytes

  -- `from_secrets`, with `DeviceId::from_verifying_key`.
  unfoldable pub from_secrets : (seed exchange : List ℕ) → DeviceIdentity
  from_secrets seed exchange = record {
    seed = seed;
    exchange = exchange;
    id = p.hex_encode (p.public_key seed);
  }

  unfoldable pub sign_hex : DeviceIdentity → (message : List ℕ) → Text
  sign_hex identity message = p.hex_encode (p.sign identity.seed message)

  unfoldable pub peer_verifying_key : DeviceId → Result KeyError (List ℕ)
  unfolding decode_fixed
  peer_verifying_key device_id = do
    bytes ← decode_fixed 32 device_id
    guard (p.is_key bytes) rejected_key
    ok bytes

  unfoldable pub verify_hex : (key message : List ℕ) (signature : Text) → Result KeyError (Unit {0})
  unfolding decode_fixed
  verify_hex key message signature = do
    bytes ← decode_fixed 64 signature
    guard (p.is_signature key message bytes) bad_signature

  unfoldable pub shared_secret : DeviceIdentity → (peer_public : List ℕ) → List ℕ
  shared_secret identity peer_public = p.diffie_hellman identity.exchange peer_public
