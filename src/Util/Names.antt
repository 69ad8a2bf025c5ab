-- ===== src/Util/Names.antt =====
-- What a file name from a peer can be after `safe_file_name`.
use capsi.Base.{
  ℕ, zero, suc, ◌≤◌, ◌<◌, ◌≡◌, ◌≢◌, refl, ◌⊎◌, ◌++◌, All-map, any-append, inl, inr, true, false, [],
  ◌∷◌, arith, ltb, ◌==◌, Bool-cases, length, take, any, retain, All, Text, codes, text_eq,
  trim_matches, trim, is_empty, is_control, to_ascii_uppercase, All-trim, ok, err,
}
use capsi.Util.{
  is_separator, empty_device_name, device_name_too_long, validate_device_name, base_name, may_stay,
  stem, reserved, cleaned_name, safe_file_name,
}

-- Every character of a text may stay in a file name.
abbrev pub IsClean : Text → Type 0
IsClean s = All (λ (c : ℕ). may_stay c ≡ true) s

retain-IsClean : (s : Text) → IsClean (retain may_stay s)
retain-IsClean [] = tt
retain-IsClean (c ∷ s) = elim (Bool-cases (may_stay c)) [
  | inl e ↦ rw e (e, retain-IsClean s)
  | inr e ↦ rw e (retain-IsClean s)
]

cleaned_name-IsClean : (name : Text) → IsClean (cleaned_name name)
unfolding cleaned_name
cleaned_name-IsClean name =
    All-trim (λ (c : ℕ). may_stay c ≡ true) _
      (retain-IsClean (trim_matches (λ c. c == 46) (trim (base_name name))))

take-IsClean : (n : ℕ) (s : Text) → IsClean s → IsClean (take n s)
take-IsClean zero s h = tt
take-IsClean (suc n) [] h = tt
take-IsClean (suc n) (c ∷ s) (first, rest) = (first, take-IsClean n s rest)

take-is_empty : (n : ℕ) (s : Text) → is_empty s ≡ false → is_empty (take (suc n) s) ≡ false
take-is_empty n [] h = h
take-is_empty n (c ∷ s) h = refl

fallback-IsClean : IsClean (codes "capsi-file")
unfolding may_stay is_control
fallback-IsClean =
    (refl, (refl, (refl, (refl, (refl, (refl, (refl, (refl, (refl, (refl, tt))))))))))

safe_file_name-may_stay :
    (name : Text) → IsClean (safe_file_name name) × (is_empty (safe_file_name name) ≡ false)
unfolding safe_file_name
safe_file_name-may_stay name = elim (Bool-cases (is_empty (cleaned_name name))) [
  | inl nothing ↦ rw nothing (fallback-IsClean, refl)
  | inr something ↦
      elim (Bool-cases
        (any (λ r. text_eq r (to_ascii_uppercase (stem (cleaned_name name)))) reserved)) [
          | inl device ↦ rw (something, device) ((underscore, cleaned_name-IsClean name), refl)
          | inr plain ↦
              rw (something, plain)
                (
                  take-IsClean 120 (cleaned_name name) (cleaned_name-IsClean name),
                  take-is_empty 119 (cleaned_name name) something,
                )
        ]
]
  where
    underscore : may_stay 95 ≡ true
    underscore = unfold may_stay is_control in refl

-- A character that is no control character (below the space, or from delete to the end of the second
-- block of them), and none of / \ : * ? " < > and |.
abbrev pub IsSafeCharacter : ℕ → Type 0
IsSafeCharacter c =
    (31 < c)
    × ((c < 127) ⊎ (159 < c))
    × (c ≢ b'/')
    × (c ≢ b'\\')
    × (c ≢ b':')
    × (c ≢ b'*')
    × (c ≢ b'?')
    × (c ≢ b'"')
    × (c ≢ b'<')
    × (c ≢ b'>')
    × (c ≢ b'|')

may_stay-IsSafeCharacter : (c : ℕ) → may_stay c ≡ true → IsSafeCharacter c
unfolding may_stay is_control
may_stay-IsSafeCharacter c h = ground arith

base_name_plain : (s : Text) → any is_separator s ≡ false → base_name s ≡ s
unfolding base_name
base_name_plain [] h = refl
base_name_plain (c ∷ s) h = ground arith

-- What stands in front of a separator does not count.
base_name_last :
    (front : Text) (c : ℕ) (s : Text)
    → is_separator c ≡ true
    → base_name (front ++ c ∷ s) ≡ base_name s
unfolding base_name
base_name_last [] c s h = ground (arith, base_name_plain s)
base_name_last (x ∷ front) c s h =
    ground (arith, base_name_last front c s h, any-append is_separator front (c ∷ s))

safe_file_name_last :
    (front : Text) (c : ℕ) (s : Text)
    → (c ≡ b'/') ⊎ (c ≡ b'\\')
    → safe_file_name (front ++ c ∷ s) ≡ safe_file_name s
unfolding safe_file_name cleaned_name
safe_file_name_last front c s h = rw (base_name_last front c s (ground arith)) refl

-- Whatever name a peer sends, the name on disk is not empty, has no control character, no separator
-- of directories and none of : * ? " < > and |, and does not depend on what stands in front of a
-- separator in the name that was sent.
pub safe_file_name-IsClean :
    (name : Text)
    → All IsSafeCharacter (safe_file_name name)
      × (is_empty (safe_file_name name) ≡ false)
      × ((front : Text) (c : ℕ)
          → (c ≡ b'/') ⊎ (c ≡ b'\\')
          → safe_file_name (front ++ c ∷ name) ≡ safe_file_name name)
safe_file_name-IsClean name =
    let (clean, some_left) = safe_file_name-may_stay name in
    (
      All-map (λ (c : ℕ). may_stay c ≡ true) IsSafeCharacter (safe_file_name name)
          may_stay-IsSafeCharacter clean,
      some_left,
      λ front c h. safe_file_name_last front c name h,
    )

is_empty→nil : (s : Text) → is_empty s ≡ true → s ≡ []
is_empty→nil [] h = refl
is_empty→nil (c ∷ s) h = absurd (ground arith)

positive_length : (s : Text) → is_empty s ≡ false → 1 ≤ length s
positive_length [] h = absurd (ground arith)
positive_length (c ∷ s) h = omega arith

-- A device name that is accepted is what was given without its outer spaces, and has 1 to 32
-- characters; what is refused is empty or longer then.
pub validate_device_name_lem :
    (name : Text)
    → ((validate_device_name name ≡ ok (trim name))
        × (1 ≤ length (trim name))
        × (length (trim name) ≤ 32))
      ⊎ ((validate_device_name name ≡ err empty_device_name) × (trim name ≡ []))
      ⊎ ((validate_device_name name ≡ err device_name_too_long) × (32 < length (trim name)))
unfolding validate_device_name
validate_device_name_lem name = elim (Bool-cases (is_empty (trim name))) [
  | inl nothing ↦ inr (inl (rw nothing, is_empty→nil (trim name) nothing))
  | inr something ↦ elim (Bool-cases (ltb 32 (length (trim name)))) [
    | inl long ↦ inr (inr (rw (something, long), ground arith))
    | inr fits ↦ inl (rw (something, fits), positive_length (trim name) something, ground arith)
  ]
]
