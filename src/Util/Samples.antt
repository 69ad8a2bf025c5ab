-- ===== src/Util/Samples.antt =====
-- The theorems on names at a name with directories and at one that is too long.
use capsi.Base.{ℕ, Text, All, ◌⊎◌, ◌++◌, ◌∷◌, ◌≡◌, refl, false, codes, is_empty}
use capsi.Util.{safe_file_name}
use capsi.Util.Names.{IsSafeCharacter, safe_file_name-IsClean}

safe_file_name-IsClean_example :
    All IsSafeCharacter (safe_file_name (codes "../a:b.txt"))
    × (is_empty (safe_file_name (codes "../a:b.txt")) ≡ false)
    × ((front : Text) (c : ℕ)
        → (c ≡ b'/') ⊎ (c ≡ b'\\')
        → safe_file_name (front ++ c ∷ codes "../a:b.txt") ≡ safe_file_name (codes "../a:b.txt"))
safe_file_name-IsClean_example = safe_file_name-IsClean (codes "../a:b.txt")

safe_file_name_test : safe_file_name (codes "../con.txt") ≡ codes "_con.txt"
unfolding safe_file_name
safe_file_name_test = refl

-- A name of dots behind a forbidden character comes out as the parent directory.
dots_test : safe_file_name (codes "<..>") ≡ codes ".."
unfolding safe_file_name
dots_test = refl
