-- ===== src/Base/Strings.antt =====
-- Rust's `&str` and `String` as the list of their Unicode code points, with the methods of `str`
-- and `char` that the program calls.
use Prim.Native.Char.{code}
use Prim.Native.String.{String}
use Prim.Native.Nat.{ℕ, suc, ◌+◌, ◌-◌, ◌≤◌}
use mathlib.Core.Path.{◌≡◌, refl}
use mathlib.Core.Logic.{◌↔◌, ◌⊎◌, ◌≢◌, inl, inr}
use mathlib.Core.Bool.{Bool, true, false, ◌&&◌, ◌||◌}
use mathlib.Core.List.{List, [], ◌∷◌, map}
use native.Mathlib.Omega.{arith}
use capsi.Base.Tests.{ltb, leb, ◌==◌, if◌then◌else◌, Bool-cases}
use capsi.Base.Lists.{length, any, All}

abbrev pub Text : Type 0
Text = List ℕ

-- The code points of a literal.
abbrev pub codes : String → Text
codes String.[] = []
codes (String.◌∷◌ c s) = code c ∷ codes s

unfoldable pub text_eq : Text → Text → Bool
text_eq [] [] = true
text_eq [] (b ∷ t) = false
text_eq (a ∷ s) [] = false
text_eq (a ∷ s) (b ∷ t) = a == b && text_eq s t

pub text_eq_iff : (s t : Text) → (text_eq s t ≡ true) ↔ (s ≡ t)
unfolding text_eq
text_eq_iff [] [] = ground arith
text_eq_iff [] (b ∷ t) = ground arith
text_eq_iff (a ∷ s) [] = ground arith
text_eq_iff (a ∷ s) (b ∷ t) = ground (arith, text_eq_iff s t)

pub text_eq_refl : (s : Text) → text_eq s s ≡ true
text_eq_refl s = (text_eq_iff s s).1 refl

pub text_eq→eq : (s t : Text) → text_eq s t ≡ true → s ≡ t
text_eq→eq s t h = (text_eq_iff s t).0 h

pub text_cases : (s t : Text) → (s ≡ t) ⊎ (s ≢ t)
text_cases s t = elim (Bool-cases (text_eq s t)) [
  | inl e ↦ inl (text_eq→eq s t e)
  | inr e ↦ inr (λ same. absurd (ground (arith, text_eq_iff s t)))
]

pub text_eq_comm : (s t : Text) → text_eq s t ≡ text_eq t s
text_eq_comm s t = ground (arith, text_eq_iff s t, text_eq_iff t s)

-- The order of `String`: the UTF-8 bytes compare as the code points do.
unfoldable pub text_lt : Text → Text → Bool
text_lt s [] = false
text_lt [] (b ∷ t) = true
text_lt (a ∷ s) (b ∷ t) = ltb a b || (a == b && text_lt s t)

-- `char::is_whitespace`: the Unicode property White_Space.
abbrev whitespace_points : List ℕ
whitespace_points = 0x20 ∷ 0x85 ∷ 0xa0 ∷ 0x1680 ∷ 0x2028 ∷ 0x2029 ∷ 0x202f ∷ 0x205f ∷ 0x3000 ∷ []

unfoldable pub is_whitespace : ℕ → Bool
is_whitespace c =
    (leb 9 c && leb c 13) || (leb 0x2000 c && leb c 0x200a) || any (λ w. c == w) whitespace_points

-- `trim_start_matches(p)`, `trim_end_matches(p)` and `trim_matches(p)`.
module _ (p : ℕ → Bool) where
  unfoldable pub trim_start_matches : Text → Text
  trim_start_matches [] = []
  trim_start_matches (c ∷ s) = if p c then trim_start_matches s else c ∷ s

  -- A code point before the text behind it that is left.
  abbrev before_trimmed : ℕ → Text → Text
  before_trimmed c [] = if p c then [] else c ∷ []
  before_trimmed c (d ∷ rest) = c ∷ d ∷ rest

  unfoldable pub trim_end_matches : Text → Text
  trim_end_matches [] = []
  trim_end_matches (c ∷ s) = before_trimmed c (trim_end_matches s)

unfoldable pub trim_matches : (ℕ → Bool) → Text → Text
unfolding trim_start_matches trim_end_matches
trim_matches p s = trim_end_matches p (trim_start_matches p s)

unfoldable pub trim : Text → Text
unfolding trim_matches is_whitespace
trim s = trim_matches is_whitespace s

unfoldable pub trim_end : Text → Text
unfolding trim_end_matches is_whitespace
trim_end s = trim_end_matches is_whitespace s

abbrev pub is_empty : Text → Bool
is_empty [] = true
is_empty (c ∷ s) = false

-- `char::is_control`: the Unicode category Cc.
unfoldable pub is_control : ℕ → Bool
is_control c = ltb c 0x20 || (leb 0x7f c && leb c 0x9f)

unfoldable pub ascii_upper : ℕ → ℕ
ascii_upper c = if leb b'a' c && leb c b'z' then c - 32 else c

unfoldable pub ascii_lower : ℕ → ℕ
ascii_lower c = if leb b'A' c && leb c b'Z' then c + 32 else c

unfoldable pub to_ascii_uppercase : Text → Text
unfolding ascii_upper
to_ascii_uppercase s = map ascii_upper s

unfoldable pub to_ascii_lowercase : Text → Text
unfolding ascii_lower
to_ascii_lowercase s = map ascii_lower s

unfoldable pub is_ascii_hexdigit : ℕ → Bool
is_ascii_hexdigit c =
    (leb b'0' c && leb c b'9') || (leb b'a' c && leb c b'f') || (leb b'A' c && leb c b'F')

-- `str::len`: the bytes of the UTF-8 encoding.
abbrev pub utf8_width : ℕ → ℕ
utf8_width c = if ltb c 0x80 then 1 else if ltb c 0x800 then 2 else if ltb c 0x10000 then 3 else 4

unfoldable pub utf8_len : Text → ℕ
utf8_len [] = 0
utf8_len (c ∷ s) = utf8_width c + utf8_len s

pub length-trim_start_matches-le :
    (p : ℕ → Bool) (s : Text) → length (trim_start_matches p s) ≤ length s
unfolding trim_start_matches
length-trim_start_matches-le p [] = omega arith
length-trim_start_matches-le p (c ∷ s) = ground (arith, length-trim_start_matches-le p s)

length-before_trimmed-le :
    (p : ℕ → Bool) (c : ℕ) (rest : Text) → length (before_trimmed p c rest) ≤ suc (length rest)
length-before_trimmed-le p c [] = ground arith
length-before_trimmed-le p c (d ∷ rest) = omega arith

pub length-trim_end_matches-le :
    (p : ℕ → Bool) (s : Text) → length (trim_end_matches p s) ≤ length s
unfolding trim_end_matches
length-trim_end_matches-le p [] = omega arith
length-trim_end_matches-le p (c ∷ s) =
    grind
      (arith, length-trim_end_matches-le p s, length-before_trimmed-le p c (trim_end_matches p s))

-- Trimming keeps what all code points satisfy.
pub All-trim_start_matches {κ} :
    (P : ℕ → Type κ) (p : ℕ → Bool) (s : Text) → All P s → All P (trim_start_matches p s)
unfolding trim_start_matches
All-trim_start_matches P p [] h = tt
All-trim_start_matches P p (c ∷ s) (hc, hs) = elim (Bool-cases (p c)) [
  | inl e ↦ rw e (All-trim_start_matches P p s hs)
  | inr e ↦ rw e (hc, hs)
]

All-trim_end_step {κ} :
    (P : ℕ → Type κ) (p : ℕ → Bool) (c : ℕ) (rest : Text)
    → P c
    → All P rest
    → All P (before_trimmed p c rest)
All-trim_end_step P p c [] hc hs = elim (Bool-cases (p c)) [
  | inl e ↦ rw e tt
  | inr e ↦ rw e (hc, tt)
]
All-trim_end_step P p c (d ∷ rest) hc hs = (hc, hs)

pub All-trim_end_matches {κ} :
    (P : ℕ → Type κ) (p : ℕ → Bool) (s : Text) → All P s → All P (trim_end_matches p s)
unfolding trim_end_matches
All-trim_end_matches P p [] h = tt
All-trim_end_matches P p (c ∷ s) (hc, hs) =
    All-trim_end_step P p c (trim_end_matches p s) hc (All-trim_end_matches P p s hs)

pub All-trim_matches {κ} :
    (P : ℕ → Type κ) (p : ℕ → Bool) (s : Text) → All P s → All P (trim_matches p s)
unfolding trim_matches
All-trim_matches P p s h =
    All-trim_end_matches P p (trim_start_matches p s) (All-trim_start_matches P p s h)

pub All-trim {κ} : (P : ℕ → Type κ) (s : Text) → All P s → All P (trim s)
unfolding trim
All-trim P s h = All-trim_matches P is_whitespace s h

trim_test : trim (codes "  Office PC ") ≡ codes "Office PC"
unfolding trim
trim_test = refl
