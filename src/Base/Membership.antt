-- ===== src/Base/Membership.antt =====
-- Membership in a list as a type that computes, and what the Boolean searches say of it.
use mathlib.Core.Path.{◌≡◌, refl}
use mathlib.Core.Logic.{◌⊎◌, inl, inr}
use mathlib.Core.Bool.{Bool, true, false}
use mathlib.Core.List.{List, [], ◌∷◌, ◌++◌}
use mathlib.Core.Option.{none, some}
use native.Mathlib.Omega.{arith}
use capsi.Base.Tests.{Bool-cases}
use capsi.Base.Lists.{any, all, find, retain, update_first, All}

module _ {A : Type 0} where
  abbrev pub In : A → List A → Type 0
  In a [] = ⊥
  In a (x ∷ xs) = (x ≡ a) ⊎ In a xs

  pub In-append_left : (x : A) (xs ys : List A) → In x xs → In x (xs ++ ys)
  In-append_left x [] ys h = absurd h
  In-append_left x (y ∷ xs) ys (inl e) = inl e
  In-append_left x (y ∷ xs) ys (inr h) = inr (In-append_left x xs ys h)

  pub In-append_right : (x : A) (xs ys : List A) → In x ys → In x (xs ++ ys)
  In-append_right x [] ys h = h
  In-append_right x (y ∷ xs) ys h = inr (In-append_right x xs ys h)

  pub In-append : (x : A) (xs ys : List A) → In x (xs ++ ys) → In x xs ⊎ In x ys
  In-append x [] ys h = inr h
  In-append x (y ∷ xs) ys (inl e) = inl (inl e)
  In-append x (y ∷ xs) ys (inr h) = elim (In-append x xs ys h) [
    | inl i ↦ inl (inr i)
    | inr i ↦ inr i
  ]

  pub In_All {κ} : (x : A) (P : A → Type κ) (xs : List A) → All P xs → In x xs → P x
  In_All x P [] h i = absurd i
  In_All x P (y ∷ xs) (py, hs) (inl e) = rw e at py
  In_All x P (y ∷ xs) (py, hs) (inr i) = In_All x P xs hs i

  pub All-of_In {κ} : (P : A → Type κ) (xs : List A) → ((x : A) → In x xs → P x) → All P xs
  All-of_In P [] h = tt
  All-of_In P (x ∷ xs) h = (h x (inl refl), All-of_In P xs (λ y i. h y (inr i)))

module _ {A : Type 0} (p : A → Bool) where
  pub any→In : (xs : List A) → any p xs ≡ true → (x : A) × In x xs × (p x ≡ true)
  any→In [] h = absurd (ground arith)
  any→In (x ∷ xs) h = elim (Bool-cases (p x)) [
    | inl e ↦ (x, inl refl, e)
    | inr e ↦ let (y, i, py) = any→In xs (ground arith) in (y, inr i, py)
  ]

  pub In→any : (x : A) (xs : List A) → In x xs → p x ≡ true → any p xs ≡ true
  In→any x [] i h = absurd i
  In→any x (y ∷ xs) (inl e) h = let at_y : p y ≡ true = rw e h in ground arith
  In→any x (y ∷ xs) (inr i) h = ground (arith, In→any x xs i h)

  pub all→In : (x : A) (xs : List A) → all p xs ≡ true → In x xs → p x ≡ true
  all→In x [] h i = absurd i
  all→In x (y ∷ xs) h (inl e) = let at_y : p y ≡ true = ground arith in rw e at at_y
  all→In x (y ∷ xs) h (inr i) = all→In x xs (ground arith) i

  pub In→all : (xs : List A) → ((x : A) → In x xs → p x ≡ true) → all p xs ≡ true
  In→all [] h = refl
  In→all (x ∷ xs) h = ground (arith, h x (inl refl), In→all xs (λ y i. h y (inr i)))

  pub find→In : (x : A) (xs : List A) → find p xs ≡ some x → In x xs
  find→In x [] h = absurd (ground arith)
  find→In x (y ∷ xs) h = elim (Bool-cases (p y)) [
    | inl e ↦ inl (ground arith)
    | inr e ↦ inr (find→In x xs (ground arith))
  ]

  pub find-eq-none : (xs : List A) → find p xs ≡ none → any p xs ≡ false
  find-eq-none [] h = refl
  find-eq-none (x ∷ xs) h = ground (arith, find-eq-none xs)

  pub any→find : (xs : List A) → any p xs ≡ true → (x : A) × (find p xs ≡ some x)
  any→find [] h = absurd (ground arith)
  any→find (x ∷ xs) h = elim (Bool-cases (p x)) [
    | inl e ↦ (x, rw e)
    | inr e ↦ let (y, found) = any→find xs (ground arith) in (y, rw e found)
  ]

  pub In-retain : (x : A) (xs : List A) → In x (retain p xs) → In x xs × (p x ≡ true)
  In-retain x [] i = absurd i
  In-retain x (y ∷ xs) i = elim (Bool-cases (p y)) [
    | inl e ↦ elim (rw e at i) [
      | inl same ↦ (inl same, rw same at e)
      | inr rest ↦ let (j, h) = In-retain x xs rest in (inr j, h)
    ]
    | inr e ↦ let (j, h) = In-retain x xs (rw e at i) in (inr j, h)
  ]

  pub retain-In : (x : A) (xs : List A) → In x xs → p x ≡ true → In x (retain p xs)
  retain-In x [] i h = i
  retain-In x (y ∷ xs) (inl same) h = let e : p y ≡ true = rw same h in rw e (inl same)
  retain-In x (y ∷ xs) (inr i) h = elim (Bool-cases (p y)) [
    | inl e ↦ rw e (inr (retain-In x xs i h))
    | inr e ↦ rw e (retain-In x xs i h)
  ]

  -- An element of an updated list is an old one, or the update of one that passes the test.
  pub In-update_first :
      (f : A → A) (y : A) (xs : List A)
      → In y (update_first p f xs)
      → In y xs ⊎ ((x : A) × In x xs × (p x ≡ true) × (f x ≡ y))
  In-update_first f y [] i = absurd i
  In-update_first f y (x ∷ xs) i = elim (Bool-cases (p x)) [
    | inl e ↦ elim (rw e at i) [ inl same ↦ inr (x, inl refl, e, same) | inr rest ↦ inl (inr rest) ]
    | inr e ↦ elim (rw e at i) [
      | inl same ↦ inl (inl same)
      | inr rest ↦ elim (In-update_first f y xs rest) [
        | inl old ↦ inl (inr old)
        | inr (x', j, h, same) ↦ inr (x', inr j, h, same)
      ]
    ]
  ]
