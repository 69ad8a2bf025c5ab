-- ===== src/Discovery/Beacon.antt =====
-- The announcement of crates/capsi-core/src/discovery/beacon.rs.
pub mod Signed
use capsi.Base.{
  ℕ, Bool, not, ◌&&◌, [], ◌∷◌, ◌++◌, ◌==◌, Text, codes, text_eq, ℤ, pos, ◌<ℤ◌, max_ℤ, wrap_i64,
  ◌+ℤ◌, ◌-ℤ◌, Result, ok, err, guard, ◌>>=◌, ◌>>◌,
}
use capsi.Base.Decimal.{to_decimal, to_decimal_ℤ}
use capsi.Protocol.Message.{protocol_version}
use capsi.Util.{NameError, validate_device_name}
use capsi.Identity.Device.{DeviceId}
use capsi.Identity.Keys.{
  Primitives, KeyError, DeviceIdentity, sign_hex, peer_verifying_key, verify_hex,
}

-- `PEER_TIMEOUT_SECS`.
abbrev pub peer_timeout_secs : ℕ
peer_timeout_secs = 20

pub record Beacon : Type 0 where
  pub version : Text
  pub device_id : DeviceId
  pub name : Text
  pub port : ℕ
  pub sent_at : ℤ
  pub signature : Text

pub data BeaconError : Type 0 where
  wrong_version port_zero not_json : BeaconError
  bad_name : NameError → BeaconError
  bad_key : KeyError → BeaconError

-- The conversion of errors by `?`.
abbrev pub map_err : {E F A : Type 0} → (E → F) → Result E A → Result F A
map_err f (ok a) = ok a
map_err f (err e) = err (f e)

-- `Beacon::signed_bytes`: the text whose bytes are signed.
unfoldable pub signed_text : Beacon → Text
unfolding to_decimal to_decimal_ℤ
signed_text b =
    codes "capsi/1/beacon|"
    ++ (b.device_id
        ++ (b'|' ∷ (b.name ++ (b'|' ∷ (to_decimal b.port ++ (b'|' ∷ to_decimal_ℤ b.sent_at))))))

-- The beacon that is to be signed.
abbrev pub unsigned_beacon : DeviceId → (name : Text) (port : ℕ) (now : ℤ) → Beacon
unsigned_beacon id name port now = record {
  version = protocol_version;
  device_id = id;
  name = name;
  port = port;
  sent_at = now;
  signature = [];
}

module _ (p : Primitives) where
  -- `Beacon::create`.
  unfoldable pub create :
      DeviceIdentity → (name : Text) (port : ℕ) (now : ℤ) → Result BeaconError Beacon
  unfolding validate_device_name sign_hex signed_text
  create identity name port now = do
    name ← map_err bad_name (validate_device_name name)
    let b : Beacon = unsigned_beacon identity.id name port now
    ok (record b { signature = sign_hex p identity (p.as_bytes (signed_text b)) })

  -- `Beacon::verify`.
  unfoldable pub verify : Beacon → Result BeaconError (Unit {0})
  unfolding validate_device_name peer_verifying_key verify_hex
  verify b = do
    guard (text_eq b.version protocol_version) wrong_version
    guard (not (b.port == 0)) port_zero
    name ← map_err bad_name (validate_device_name b.name)
    key ← map_err bad_key (peer_verifying_key p b.device_id)
    map_err bad_key (verify_hex p key (p.as_bytes (signed_text b)) b.signature)

-- `Beacon::is_fresh`, on 64 bits that wrap around, as the release build computes (a build with
-- overflow checks panics where they would).
unfoldable pub is_fresh : (tolerance_secs now : ℤ) → Beacon → Bool
unfolding ◌-ℤ◌ ◌+ℤ◌ wrap_i64
is_fresh tolerance_secs now b =
    let age = wrap_i64 (now -ℤ b.sent_at) in
    let horizon = wrap_i64 (pos peer_timeout_secs +ℤ max_ℤ tolerance_secs (pos 0)) in
    not (age <ℤ wrap_i64 (pos 0 -ℤ tolerance_secs)) && not (horizon <ℤ age)
