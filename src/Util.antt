-- ===== src/Util.antt =====
-- crates/capsi-core/src/util.rs: the checks of addresses and names that come from outside.
pub mod Names
mod Samples
use Prim.Native.Nat.{bit_and}
use capsi.Base.{
  ℕ, Bool, not, ◌&&◌, ◌||◌, List, [], ◌∷◌, ltb, leb, ◌==◌, if◌then◌else◌, length, take, any, retain,
  Text, codes, text_eq, trim_matches, trim, is_empty, is_control, to_ascii_uppercase, Result, ok,
  guard, ◌>>=◌, ◌>>◌,
}

-- `IpAddr`: four bytes, or eight segments of 16 bits.
pub data IpAddr : Type 0 where
  v4 : (a b c d : ℕ) → IpAddr
  v6 : (first : ℕ) (rest : List ℕ) → IpAddr

-- `is_loopback`, `is_private` and `is_link_local` of `Ipv4Addr`: 127/8, then 10/8, 172.16/12 and
-- 192.168/16, then 169.254/16.
abbrev pub is_loopback_v4 : (a : ℕ) → Bool
is_loopback_v4 a = a == 127

abbrev pub is_private : (a b : ℕ) → Bool
is_private a b = (a == 10) || (a == 172) && leb 16 b && leb b 31 || (a == 192) && (b == 168)

abbrev pub is_link_local : (a b : ℕ) → Bool
is_link_local a b = (a == 169) && (b == 254)

-- `Ipv6Addr::is_loopback`: `::1`.
abbrev pub is_loopback_v6 : (first : ℕ) (rest : List ℕ) → Bool
is_loopback_v6 first rest = text_eq (first ∷ rest) (0 ∷ 0 ∷ 0 ∷ 0 ∷ 0 ∷ 0 ∷ 0 ∷ 1 ∷ [])

unfoldable pub is_lan_address : IpAddr → Bool
is_lan_address (v4 a b c d) = is_loopback_v4 a || is_private a b || is_link_local a b
is_lan_address (v6 first rest) = is_loopback_v6 first rest || (bit_and first 0xfe00 == 0xfc00)

pub data NameError : Type 0 where
  empty_device_name device_name_too_long : NameError

unfoldable pub validate_device_name : Text → Result NameError Text
validate_device_name name = do
  let trimmed = trim name
  guard (not (is_empty trimmed)) empty_device_name
  guard (not (ltb 32 (length trimmed))) device_name_too_long
  ok trimmed

-- `rsplit(['/', '\\']).next()`.
abbrev pub is_separator : ℕ → Bool
is_separator c = (c == 47) || (c == 92)

unfoldable pub base_name : Text → Text
base_name [] = []
base_name (c ∷ s) = if any is_separator s then base_name s else if is_separator c then s else c ∷ s

-- `!c.is_control() && !r#"<>:"/\|?*"#.contains(*c)`.
unfoldable pub may_stay : ℕ → Bool
unfolding is_control
may_stay c =
    not (is_control c)
    && not (any (λ (f : ℕ). f == c) (60 ∷ 62 ∷ 58 ∷ 34 ∷ 47 ∷ 92 ∷ 124 ∷ 63 ∷ 42 ∷ []))

-- `split('.').next()`.
unfoldable pub stem : Text → Text
stem [] = []
stem (c ∷ s) = if c == 46 then [] else c ∷ stem s

-- `RESERVED`.
abbrev pub reserved : List Text
reserved =
    codes "CON"
    ∷ codes "PRN"
    ∷ codes "AUX"
    ∷ codes "NUL"
    ∷ codes "COM1"
    ∷ codes "COM2"
    ∷ codes "COM3"
    ∷ codes "COM4"
    ∷ codes "COM5"
    ∷ codes "COM6"
    ∷ codes "COM7"
    ∷ codes "COM8"
    ∷ codes "COM9"
    ∷ codes "LPT1"
    ∷ codes "LPT2"
    ∷ codes "LPT3"
    ∷ codes "LPT4"
    ∷ codes "LPT5"
    ∷ codes "LPT6"
    ∷ codes "LPT7"
    ∷ codes "LPT8"
    ∷ codes "LPT9"
    ∷ []

-- The name before the last three steps.
unfoldable pub cleaned_name : Text → Text
unfolding base_name may_stay trim trim_matches
cleaned_name name = trim (retain may_stay (trim_matches (λ c. c == 46) (trim (base_name name))))

unfoldable pub safe_file_name : Text → Text
unfolding cleaned_name stem to_ascii_uppercase text_eq
safe_file_name name =
    let cleaned = cleaned_name name in
    if is_empty cleaned
    then codes "capsi-file"
    else if any (λ r. text_eq r (to_ascii_uppercase (stem cleaned))) reserved
    then 95 ∷ cleaned
    else take 120 cleaned
