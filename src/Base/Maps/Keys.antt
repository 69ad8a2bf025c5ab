-- ===== src/Base/Maps/Keys.antt =====
-- The order of the keys of a map.
use capsi.Base.{
  ◌≡◌, refl, inl, inr, true, false, not, none, [], ◌∷◌, arith, Bool-cases, All, All-map, All-retain,
  Text, text_eq, text_eq_iff, text_eq→eq, text_eq_comm, text_lt,
}
use capsi.Base.Maps.{TextMap, lookup, insert, erase}

text_lt_irrefl : (s : Text) → text_lt s s ≡ false
unfolding text_lt
text_lt_irrefl [] = refl
text_lt_irrefl (a ∷ s) = ground (arith, text_lt_irrefl s)

text_lt_trans : (s t u : Text) → text_lt s t ≡ true → text_lt t u ≡ true → text_lt s u ≡ true
unfolding text_lt
text_lt_trans s t [] h k = ground arith
text_lt_trans s [] (c ∷ u) h k = ground arith
text_lt_trans [] (b ∷ t) (c ∷ u) h k = refl
text_lt_trans (a ∷ s) (b ∷ t) (c ∷ u) h k = ground (arith, text_lt_trans s t u)

text_lt_total : (s t : Text) → text_eq s t ≡ false → text_lt s t ≡ false → text_lt t s ≡ true
unfolding text_lt text_eq
text_lt_total [] [] h k = ground arith
text_lt_total (a ∷ s) [] h k = refl
text_lt_total [] (b ∷ t) h k = ground arith
text_lt_total (a ∷ s) (b ∷ t) h k = ground (arith, text_lt_total s t)

pub text_lt_asym : (s t : Text) → text_lt s t ≡ true → text_lt t s ≡ false
text_lt_asym s t h = ground (arith, text_lt_trans s t s, text_lt_irrefl s)

module _ {V : Type 0} where
  -- The keys ascend, so that none stands twice.
  abbrev pub IsOrdered : TextMap V → Type 0
  IsOrdered [] = Unit
  IsOrdered ((k, v) ∷ m) = All (λ (e : Text × V). text_lt k e.0 ≡ true) m × IsOrdered m

  pub lookup_below :
      (k : Text) (m : TextMap V)
      → All (λ (e : Text × V). text_lt k e.0 ≡ true) m
      → lookup k m ≡ none
  unfolding lookup
  lookup_below k [] h = refl
  lookup_below k ((j, v) ∷ m) (hj, hm) =
      ground (arith, text_eq_iff j k, text_lt_irrefl k, lookup_below k m hm)

  All-insert :
      (P : Text × V → Type 0) (k : Text) (v : V) (m : TextMap V)
      → P (k, v)
      → All P m
      → All P (insert k v m)
  unfolding insert
  All-insert P k v [] hk hm = (hk, tt)
  All-insert P k v ((j, w) ∷ m) hk (hj, hm) = elim (Bool-cases (text_eq j k)) [
    | inl same ↦ rw same (hk, hm)
    | inr other ↦ elim (Bool-cases (text_lt k j)) [
      | inl before ↦ rw (other, before) (hk, (hj, hm))
      | inr behind ↦ rw (other, behind) (hj, All-insert P k v m hk hm)
    ]
  ]

  pub insert-IsOrdered : (k : Text) (v : V) (m : TextMap V) → IsOrdered m → IsOrdered (insert k v m)
  unfolding insert
  insert-IsOrdered k v [] h = (tt, tt)
  insert-IsOrdered k v ((j, w) ∷ m) (hj, hm) = elim (Bool-cases (text_eq j k)) [
    | inl same ↦ let equal : j ≡ k = text_eq→eq j k same in rw same (rw equal at hj, hm)
    | inr other ↦ elim (Bool-cases (text_lt k j)) [
      | inl before ↦
          rw (other, before)
            (
              (
                before,
                All-map (λ (e : Text × V). text_lt j e.0 ≡ true)
                    (λ (e : Text × V). text_lt k e.0 ≡ true) m
                    (λ e l. text_lt_trans k j e.0 before l) hj,
              ),
              (hj, hm),
            )
      | inr behind ↦
          rw (other, behind)
            (
              All-insert (λ (e : Text × V). text_lt j e.0 ≡ true) k v m
                  (text_lt_total k j (ground (arith, text_eq_comm j k)) behind) hj,
              insert-IsOrdered k v m hm,
            )
    ]
  ]

  pub erase-IsOrdered : (k : Text) (m : TextMap V) → IsOrdered m → IsOrdered (erase k m)
  unfolding erase
  erase-IsOrdered k [] h = tt
  erase-IsOrdered k ((j, w) ∷ m) (hj, hm) = elim (Bool-cases (text_eq j k)) [
    | inl same ↦ rw same (erase-IsOrdered k m hm)
    | inr other ↦ rw other (
      All-retain (λ (e : Text × V). text_lt j e.0 ≡ true) (λ e. not (text_eq e.0 k)) m hj,
      erase-IsOrdered k m hm,
    )
  ]
