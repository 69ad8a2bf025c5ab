-- ===== src/Base/Sorting.antt =====
-- `sort_by`: a stable sort, by the test that one element compares as less than another.
use mathlib.Core.Path.{◌≡◌}
use mathlib.Core.Logic.{◌↔◌, ◌⊎◌, inl, inr}
use mathlib.Core.Bool.{Bool, true, false}
use mathlib.Core.List.{List, [], ◌∷◌}
use native.Mathlib.Omega.{arith}
use capsi.Base.Tests.{if◌then◌else◌, Bool-cases}
use capsi.Base.Membership.{In}

module _ {A : Type 0} (less : A → A → Bool) where
  -- An element goes in front of the first one that is not less.
  unfoldable pub insert_sorted : A → List A → List A
  insert_sorted x [] = x ∷ []
  insert_sorted x (y ∷ ys) = if less y x then y ∷ insert_sorted x ys else x ∷ y ∷ ys

  unfoldable pub sort_by : List A → List A
  unfolding insert_sorted
  sort_by [] = []
  sort_by (x ∷ xs) = insert_sorted x (sort_by xs)

  -- No element is less than the one in front of it.
  abbrev pub IsSorted : List A → Type 0
  IsSorted [] = Unit
  IsSorted (x ∷ []) = Unit
  IsSorted (x ∷ y ∷ ys) = (less y x ≡ false) × IsSorted (y ∷ ys)

  In-insert_sorted : (x a : A) (ys : List A) → In a (insert_sorted x ys) ↔ ((x ≡ a) ⊎ In a ys)
  unfolding insert_sorted
  In-insert_sorted x a [] = ground arith
  In-insert_sorted x a (y ∷ ys) = elim (Bool-cases (less y x)) [
    | inl later ↦ let ih = In-insert_sorted x a ys in rw later (ground arith)
    | inr here ↦ rw here (ground arith)
  ]

  -- Sorting neither adds nor loses an element.
  pub In-sort_by : (a : A) (xs : List A) → In a (sort_by xs) ↔ In a xs
  unfolding sort_by
  In-sort_by a [] = ground arith
  In-sort_by a (x ∷ xs) =
      let step = In-insert_sorted x a (sort_by xs) in let ih = In-sort_by a xs in ground arith

  module _ (asym : (x y : A) → less x y ≡ true → less y x ≡ false) where
    IsSorted-cons :
        (first x y : A) (ys : List A)
        → less x first ≡ false
        → less y first ≡ false
        → IsSorted (insert_sorted x (y ∷ ys))
        → IsSorted (first ∷ insert_sorted x (y ∷ ys))
    unfolding insert_sorted
    IsSorted-cons first x y ys hx hy h = elim (Bool-cases (less y x)) [
      | inl later ↦ rw later (hy, rw later at h)
      | inr here ↦ rw here (hx, rw here at h)
    ]

    insert_sorted-IsSorted : (x : A) (ys : List A) → IsSorted ys → IsSorted (insert_sorted x ys)
    unfolding insert_sorted
    insert_sorted-IsSorted x [] h = tt
    insert_sorted-IsSorted x (y ∷ []) h = elim (Bool-cases (less y x)) [
      | inl later ↦ rw later (asym y x later, tt)
      | inr here ↦ rw here (here, tt)
    ]
    insert_sorted-IsSorted x (y ∷ z ∷ ys) (step, h) = elim (Bool-cases (less y x)) [
      | inl later ↦
          rw later
            (IsSorted-cons y x z ys (asym y x later) step (insert_sorted-IsSorted x (z ∷ ys) h))
      | inr here ↦ rw here (here, (step, h))
    ]

    pub sort_by-IsSorted : (xs : List A) → IsSorted (sort_by xs)
    unfolding sort_by
    sort_by-IsSorted [] = tt
    sort_by-IsSorted (x ∷ xs) = insert_sorted-IsSorted x (sort_by xs) (sort_by-IsSorted xs)
