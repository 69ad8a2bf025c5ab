-- ===== src/Crypto/Session.antt =====
-- The sealed channel of crates/capsi-core/src/crypto/session.rs.
pub mod Channel
use capsi.Base.{
  ℕ, ◌+◌, ◌/◌, ◌%◌, ◌^◌, Bool, true, false, Option, none, some, List, ◌++◌, ltb, if◌then◌else◌,
  length, take, drop, Result, ok, err, ok_or, ◌>>=◌, ◌>>◌,
}
use capsi.Identity.Device.{DeviceId}
use capsi.Identity.Keys.{Primitives, DeviceIdentity}
use capsi.Protocol.Framing.{frame_overhead, to_be_bytes, from_be_bytes}
use capsi.Crypto.ReplayWindow.{ReplayWindow, empty_window, accept}
use capsi.Crypto.Handshake.{Handshake, HandshakeError, SessionKeys, derive}

-- The two ciphers are their keys.
pub record Session : Type 0 where
  pub send_cipher : List ℕ
  pub receive_cipher : List ℕ
  pub salt : List ℕ
  pub send_counter : ℕ
  pub replay : ReplayWindow
  pub peer : DeviceId

pub data SessionError : Type 0 where
  too_short : ℕ → SessionError
  not_sealed not_authentic not_encoded invalid_json : SessionError
  replayed : (counter : ℕ) → SessionError

-- `Session::new`.
unfoldable pub new_session : SessionKeys → (peer : DeviceId) → Session
new_session keys peer = record {
  send_cipher = keys.send;
  receive_cipher = keys.receive;
  salt = keys.salt;
  send_counter = 0;
  replay = empty_window;
  peer = peer;
}

-- `u64::to_be_bytes`.
unfoldable pub counter_bytes : ℕ → List ℕ
counter_bytes c = to_be_bytes (c / 2 ^ 32) ++ to_be_bytes (c % 2 ^ 32)

unfoldable pub nonce_for : (salt : List ℕ) (counter : ℕ) → List ℕ
unfolding counter_bytes
nonce_for salt counter = salt ++ counter_bytes counter

-- The session after a frame has been opened, by the answer of the replay window.
abbrev pub admitted :
    (counter : ℕ) (plaintext : List ℕ) (s : Session)
    → ReplayWindow × Bool
    → Session × Result SessionError (List ℕ)
admitted counter plaintext s (replay, true) = (record s { replay = replay }, ok plaintext)
admitted counter plaintext s (replay, false) =
    (record s { replay = replay }, err (replayed counter))

-- The session after a frame has been sealed, and the frame.
abbrev pub sent :
    (header : List ℕ) (s : Session) → Option (List ℕ) → Session × Result SessionError (List ℕ)
sent header s none = (s, err not_sealed)
sent header s (some sealed) =
    (record s { send_counter = (s.send_counter + 1) % 2 ^ 64 }, ok (header ++ sealed))

module _ (p : Primitives) where
  -- `Session::establish`.
  unfoldable pub establish :
      DeviceIdentity → (mine theirs : Handshake) (initiator : Bool) → Result HandshakeError Session
  unfolding derive new_session
  establish identity mine theirs initiator = do
    keys ← derive p identity mine theirs initiator
    ok (new_session keys theirs.device_id)

  unfoldable pub seal : (plaintext : List ℕ) → Session → Session × Result SessionError (List ℕ)
  unfolding counter_bytes nonce_for
  seal plaintext s =
      let header = counter_bytes s.send_counter in
      sent header s (p.encrypt s.send_cipher (nonce_for s.salt s.send_counter) header plaintext)

  -- `Session::open`.
  unfoldable pub open_frame : (frame : List ℕ) → Session → Session × Result SessionError (List ℕ)
  unfolding nonce_for accept
  open_frame frame s =
      if ltb (length frame) frame_overhead
      then (s, err (too_short (length frame)))
      else let header = take 8 frame in
        let counter = from_be_bytes 0 header in
        elim (p.decrypt s.receive_cipher (nonce_for s.salt counter) header (drop 8 frame)) [
          | none ↦ (s, err not_authentic)
          | some plaintext ↦ admitted counter plaintext s (accept counter s.replay)
        ]

  -- The JSON of a value is made and read by serde_json.
  module _ {A : Type 0} (to_vec : A → Option (List ℕ)) (from_slice : List ℕ → Option A) where
    unfoldable pub seal_json : A → Session → Session × Result SessionError (List ℕ)
    unfolding seal
    seal_json value s = elim (to_vec value) [
      | none ↦ (s, err not_encoded)
      | some json ↦ seal json s
    ]

    unfoldable pub open_json : (frame : List ℕ) → Session → Session × Result SessionError A
    unfolding open_frame
    open_json frame s =
        let (s', result) = open_frame frame s in
        (s', result >>= (λ plaintext. ok_or (from_slice plaintext) invalid_json))
