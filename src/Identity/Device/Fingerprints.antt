-- ===== src/Identity/Device/Fingerprints.antt =====
-- What device ids and fingerprints are.
use capsi.Base.{
  ℕ, suc, ◌≡◌, refl, ap, ◌≢◌, ◌⊎◌, inl, inr, true, false, [], ◌∷◌, arith, ◌==◌, Bool-cases, length,
  all, All, All→all, Text, ascii_upper, ascii_lower, to_ascii_uppercase, to_ascii_lowercase,
  is_ascii_hexdigit, utf8_width, utf8_len, ok, err,
}
use capsi.Identity.Device.{bad_device_id, from_hex}

-- 64 hexadecimal digits without capital letters.
pub record IsDeviceId (id : Text) : Type 0 where
  pub size : length id ≡ 64
  pub digits : All (λ (c : ℕ). is_ascii_hexdigit c ≡ true) id
  pub canonical : to_ascii_lowercase id ≡ id

-- A text of hexadecimal digits has a byte for each character.
utf8_len_hex : (s : Text) → all is_ascii_hexdigit s ≡ true → utf8_len s ≡ length s
unfolding utf8_len is_ascii_hexdigit
utf8_len_hex [] h = refl
utf8_len_hex (c ∷ s) h = ground (arith, utf8_len_hex s)

length-lower : (s : Text) → length (to_ascii_lowercase s) ≡ length s
unfolding to_ascii_lowercase
length-lower [] = refl
length-lower (c ∷ s) = ap (λ (n : ℕ). suc n) (length-lower s)

lower_char_twice : (c : ℕ) → ascii_lower (ascii_lower c) ≡ ascii_lower c
unfolding ascii_lower
lower_char_twice c = ground arith

lower_twice : (s : Text) → to_ascii_lowercase (to_ascii_lowercase s) ≡ to_ascii_lowercase s
unfolding to_ascii_lowercase
lower_twice [] = refl
lower_twice (c ∷ s) = ground (arith, lower_char_twice c, lower_twice s)

lower-upper_char : (c : ℕ) → ascii_lower (ascii_upper c) ≡ ascii_lower c
unfolding ascii_lower ascii_upper
lower-upper_char c = ground arith

lower-upper : (s : Text) → to_ascii_lowercase (to_ascii_uppercase s) ≡ to_ascii_lowercase s
unfolding to_ascii_lowercase to_ascii_uppercase
lower-upper [] = refl
lower-upper (c ∷ s) = ground (arith, lower-upper_char c, lower-upper s)

hexdigit_lower : (c : ℕ) → is_ascii_hexdigit c ≡ true → is_ascii_hexdigit (ascii_lower c) ≡ true
unfolding is_ascii_hexdigit ascii_lower
hexdigit_lower c h = ground arith

hexdigits_lower :
    (s : Text)
    → all is_ascii_hexdigit s ≡ true
    → All (λ (c : ℕ). is_ascii_hexdigit c ≡ true) (to_ascii_lowercase s)
unfolding to_ascii_lowercase
hexdigits_lower [] h = tt
hexdigits_lower (c ∷ s) h = (hexdigit_lower c (ground arith), hexdigits_lower s (ground arith))

upper_hexdigit : (c : ℕ) → is_ascii_hexdigit (ascii_upper c) ≡ is_ascii_hexdigit c
unfolding is_ascii_hexdigit ascii_upper
upper_hexdigit c = ground arith

upper_hexdigits :
    (s : Text) → all is_ascii_hexdigit (to_ascii_uppercase s) ≡ all is_ascii_hexdigit s
unfolding to_ascii_uppercase
upper_hexdigits [] = refl
upper_hexdigits (c ∷ s) = ground (arith, upper_hexdigit c, upper_hexdigits s)

upper_utf8_width : (c : ℕ) → utf8_width (ascii_upper c) ≡ utf8_width c
unfolding ascii_upper
upper_utf8_width c = ground arith

upper_utf8_len : (s : Text) → utf8_len (to_ascii_uppercase s) ≡ utf8_len s
unfolding to_ascii_uppercase utf8_len
upper_utf8_len [] = refl
upper_utf8_len (c ∷ s) = ground (arith, upper_utf8_width c, upper_utf8_len s)

-- A text is taken as a device id exactly when it has 64 bytes, all of them hexadecimal digits; the
-- id is its spelling in small letters, whatever the spelling of the text was, and taking the id
-- once more gives the same id.
pub from_hex_lem :
    (s : Text)
    → ((from_hex s ≡ err (bad_device_id s))
        × ((utf8_len s ≢ 64) ⊎ (all is_ascii_hexdigit s ≡ false)))
      ⊎ ((from_hex s ≡ ok (to_ascii_lowercase s))
          × IsDeviceId (to_ascii_lowercase s)
          × (from_hex (to_ascii_uppercase s) ≡ ok (to_ascii_lowercase s))
          × (from_hex (to_ascii_lowercase s) ≡ ok (to_ascii_lowercase s)))
unfolding from_hex
from_hex_lem s = elim (Bool-cases (utf8_len s == 64)) [
  | inr wrong ↦ inl (rw wrong, inl (ground arith))
  | inl size ↦ elim (Bool-cases (all is_ascii_hexdigit s)) [
    | inr stranger ↦ inl (rw (size, stranger), inr stranger)
    | inl hex ↦
        let digits = hexdigits_lower s hex in
        let all_low : all is_ascii_hexdigit (to_ascii_lowercase s) ≡ true = All→all _ _ digits in
        let low_size : (utf8_len (to_ascii_lowercase s) == 64) ≡ true =
          ground (arith, utf8_len_hex (to_ascii_lowercase s), length-lower s, utf8_len_hex s) in
        inr (
          rw (size, hex),
          record {
            size = ground (arith, length-lower s, utf8_len_hex s);
            digits = digits;
            canonical = lower_twice s;
          },
          rw (upper_utf8_len s, upper_hexdigits s, size, hex) (ap ok (lower-upper s)),
          rw (low_size, all_low) (ap ok (lower_twice s)),
        )
  ]
]
