-- ===== src/Identity/Toy.antt =====
-- Functions in the place of the cryptography that make evaluation possible: hex as it is, the rest
-- without secrets.
use capsi.Base.{
  ℕ, ◌+◌, ◌-◌, ◌*◌, ◌/◌, ◌%◌, true, Option, none, some, List, [], ◌∷◌, ◌++◌, ltb, leb, ◌==◌,
  if◌then◌else◌, drop, replicate, get_or, Text,
}
use capsi.Identity.Keys.{Primitives}

abbrev pub hex_digit : ℕ → ℕ
hex_digit d = if ltb d 10 then b'0' + d else 87 + d

abbrev pub hex_value : ℕ → ℕ
hex_value c = if leb c b'9' then c - b'0' else c - 87

abbrev pub toy_encode : List ℕ → Text
toy_encode [] = []
toy_encode (b ∷ bytes) = hex_digit (b / 16) ∷ hex_digit (b % 16) ∷ toy_encode bytes

abbrev pub toy_decode : Text → Option (List ℕ)
toy_decode [] = some []
toy_decode (c ∷ []) = none
toy_decode (c ∷ d ∷ s) = elim (toy_decode s) [
  | none ↦ none
  | some bytes ↦ some ((hex_value c * 16 + hex_value d) ∷ bytes)
]

-- 32 bytes of which the first is the first of these.
abbrev pub padded : (n : ℕ) → List ℕ → List ℕ
padded n bytes = get_or bytes 0 0 % 256 ∷ replicate n 0

abbrev pub toy : Primitives
toy = record {
  as_bytes = λ s. s;
  hex_encode = toy_encode;
  hex_decode = toy_decode;
  base64_decode = λ s. none;
  digest = λ bytes. padded 31 bytes;
  public_key = λ seed. padded 31 seed;
  sign = λ seed message. padded 63 seed;
  is_key = λ bytes. true;
  is_signature = λ key message signature. get_or key 0 0 == get_or signature 0 0;
  exchange_public = λ secret. padded 31 secret;
  diffie_hellman =
      λ secret public. padded 31 ((get_or secret 0 0 % 256 + get_or public 0 0 % 256) ∷ []);
  encrypt = λ key nonce aad message. some (replicate 16 0 ++ message);
  decrypt = λ key nonce aad sealed. some (drop 16 sealed);
}
