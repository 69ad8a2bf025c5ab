-- ===== src/Crypto/Samples.antt =====
-- The theorems on the handshake and the channel at concrete keys and messages.
use capsi.Base.{
  ℕ, zero, suc, ◌+◌, ◌*◌, ◌/◌, ◌%◌, ◌<◌, ◌≡◌, refl, ap, true, false, some, List, [], ◌∷◌, ◌++◌, map,
  arith, length, take, replicate, get_or, all, codes, text_eq, is_ascii_hexdigit, utf8_len, ok,
}
use capsi.Identity.Keys.{DeviceIdentity, from_secrets}
use capsi.Identity.Toy.{hex_digit, hex_value, toy_encode, toy_decode, padded, toy}
use capsi.Crypto.ReplayWindow.Refinement.{Remembers, Remembers-empty}
use capsi.Crypto.Handshake.{Handshake, SessionKeys, create, derive}
use capsi.Crypto.Handshake.Agreement.{IsBytes, IsDocumented, mirrored, key_agreement}
use capsi.Crypto.Session.{Session, new_session, open_frame}
use capsi.Crypto.Session.Channel.{
  IsSealing, verdict, kept_record, open_frame-verdict, seal_all, open_all, open_all-seal_all,
}

hex_value-hex_digit : (d : ℕ) → d < 16 → hex_value (hex_digit d) ≡ d
hex_value-hex_digit d h = ground arith

is_ascii_hexdigit-hex_digit : (d : ℕ) → d < 16 → is_ascii_hexdigit (hex_digit d) ≡ true
unfolding is_ascii_hexdigit
is_ascii_hexdigit-hex_digit d h = ground arith

hex_digit-lt : (d : ℕ) → d < 16 → hex_digit d < 0x80
hex_digit-lt d h = ground arith

toy_decode-toy_encode : (b : List ℕ) → IsBytes b → toy_decode (toy_encode b) ≡ some b
toy_decode-toy_encode [] h = refl
toy_decode-toy_encode (x ∷ b) (hx, hb) =
    let whole : x / 16 * 16 + x % 16 ≡ x = omega arith in
    rw
      (
        toy_decode-toy_encode b hb,
        hex_value-hex_digit (x / 16) (omega arith),
        hex_value-hex_digit (x % 16) (omega arith),
        whole,
      )
      refl

utf8_len-toy_encode : (b : List ℕ) → IsBytes b → utf8_len (toy_encode b) ≡ length b * 2
unfolding utf8_len
utf8_len-toy_encode [] h = refl
utf8_len-toy_encode (x ∷ b) (hx, hb) = ground (
  arith,
  hex_digit-lt (x / 16) (omega arith),
  hex_digit-lt (x % 16) (omega arith),
  utf8_len-toy_encode b hb,
)

digits-toy_encode : (b : List ℕ) → IsBytes b → all is_ascii_hexdigit (toy_encode b) ≡ true
digits-toy_encode [] h = refl
digits-toy_encode (x ∷ b) (hx, hb) =
    rw
      (
        is_ascii_hexdigit-hex_digit (x / 16) (omega arith),
        is_ascii_hexdigit-hex_digit (x % 16) (omega arith),
      )
      (digits-toy_encode b hb)

take-toy_encode : (n : ℕ) (b : List ℕ) → take (n * 2) (toy_encode b) ≡ toy_encode (take n b)
take-toy_encode zero b = refl
take-toy_encode (suc n) [] =
    let double : suc n * 2 ≡ suc (suc (n * 2)) = omega arith in rw double refl
take-toy_encode (suc n) (x ∷ b) =
    let double : suc n * 2 ≡ suc (suc (n * 2)) = omega arith in
    rw (double, take-toy_encode n b) refl

zeros-IsBytes : (n : ℕ) → IsBytes (replicate n 0) × (length {A = ℕ} (replicate n 0) ≡ n)
zeros-IsBytes zero = (tt, refl)
zeros-IsBytes (suc n) = let (bytes, size) = zeros-IsBytes n in ((omega arith, bytes), ap suc size)

padded-IsBytes : (n : ℕ) (b : List ℕ) → IsBytes (padded n b) × (length (padded n b) ≡ suc n)
padded-IsBytes n b = let (bytes, size) = zeros-IsBytes n in ((omega arith, bytes), ap suc size)

toy-IsDocumented : IsDocumented toy
toy-IsDocumented = record {
  hex = record {
    decodes = toy_decode-toy_encode;
    width = utf8_len-toy_encode;
    digits = digits-toy_encode;
    prefix = take-toy_encode;
  };
  key_size = λ seed. padded-IsBytes 31 seed;
  is_key = λ seed. refl;
  signature_size = λ seed message. padded-IsBytes 63 seed;
  signed = λ seed message. ground arith;
  exchange_size = λ secret. padded-IsBytes 31 secret;
  exchanged = λ a b.
      let total : get_or a 0 0 % 256 + get_or b 0 0 % 256 % 256
          ≡ get_or b 0 0 % 256 + get_or a 0 0 % 256 % 256 =
        omega arith in
      rw total refl;
  digest_size = λ bytes. padded-IsBytes 31 bytes;
}

toy-IsSealing : IsSealing toy
toy-IsSealing key nonce aad message h = (replicate 16 0 ++ message, refl, omega arith, refl)

abbrev a_keys : DeviceIdentity
a_keys = from_secrets toy (1 ∷ []) (5 ∷ [])

abbrev b_keys : DeviceIdentity
b_keys = from_secrets toy (2 ∷ []) (6 ∷ [])

key_agreement_example :
    (hello_a : Handshake) × (hello_b : Handshake) × (keys : SessionKeys) × (create toy a_keys
        (some (replicate 32 3))
      ≡ ok hello_a)
    × (create toy b_keys (some (replicate 32 4)) ≡ ok hello_b)
    × (derive toy a_keys hello_a hello_b true ≡ ok keys)
    × (derive toy b_keys hello_b hello_a false ≡ ok (mirrored keys))
unfolding from_secrets text_eq
key_agreement_example =
    key_agreement toy toy-IsDocumented (1 ∷ []) (5 ∷ []) (replicate 32 3) (2 ∷ []) (6 ∷ [])
      (replicate 32 4) (record { bytes = omega arith; size = refl })
      (record { bytes = omega arith; size = refl }) refl

abbrev toy_session : Session
toy_session =
    new_session (record { send = 1 ∷ []; receive = 1 ∷ []; salt = replicate 16 9 }) (codes "ab")

abbrev hello_frame : List ℕ
hello_frame = replicate 24 7

open_frame-verdict_example :
    let (after, result) = open_frame toy hello_frame toy_session in
    (result ≡ verdict toy hello_frame [] toy_session)
    × Remembers after.replay (kept_record hello_frame [] result)
    × (after ≡ record toy_session { replay = after.replay })
unfolding new_session
open_frame-verdict_example = open_frame-verdict toy hello_frame toy_session [] Remembers-empty

open_all-seal_all_example :
    let messages = codes "one" ∷ codes "two" ∷ [] in
    (frames : List (List ℕ)) × ((seal_all toy messages toy_session).1 ≡ ok frames)
    × (open_all toy frames toy_session ≡ map (λ (m : List ℕ). ok m) messages)
unfolding new_session
open_all-seal_all_example =
    open_all-seal_all toy toy-IsSealing (codes "one" ∷ codes "two" ∷ []) toy_session toy_session []
      (record { key = refl; salt = refl; remembers = Remembers-empty; past = refl }) (omega arith)
      (omega arith)
