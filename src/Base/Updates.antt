-- ===== src/Base/Updates.antt =====
-- What a search finds after a write to the first match.
use Prim.Native.Nat.{◌<◌}
use mathlib.Core.Path.{◌≡◌, refl}
use mathlib.Core.Logic.{◌⊎◌, ◌↔◌, inl, inr}
use mathlib.Core.Bool.{Bool, true, false, not}
use mathlib.Core.List.{List, [], ◌∷◌}
use mathlib.Core.Option.{none, some}
use native.Mathlib.Omega.{arith}
use capsi.Base.Tests.{Bool-cases}
use capsi.Base.Lists.{length, find, any, retain, update_first, length-retain-le}

module _ {A : Type 0} (p : A → Bool) (f : A → A) where
  -- A search that no match of `p` passes, before or after the write, finds what it found.
  pub find-update_first_ne :
      (q : A → Bool)
      → ((x : A) → p x ≡ true → q x ≡ false)
      → ((x : A) → p x ≡ true → q (f x) ≡ false)
      → (xs : List A) → find q (update_first p f xs) ≡ find q xs
  find-update_first_ne q before after [] = refl
  find-update_first_ne q before after (x ∷ xs) = elim (Bool-cases (p x)) [
    | inl e ↦ rw (e, before x e, after x e)
    | inr e ↦ rw e (ground (arith, find-update_first_ne q before after xs))
  ]

  -- The search for the written element itself finds it as it was written.
  pub find-update_first_self :
      ((x : A) → p x ≡ true → p (f x) ≡ true)
      → (xs : List A) (x : A) → find p xs ≡ some x
      → find p (update_first p f xs) ≡ some (f x)
  find-update_first_self keep [] x h = absurd (ground arith)
  find-update_first_self keep (y ∷ xs) x h = elim (Bool-cases (p y)) [
    | inl e ↦ let same : y ≡ x = ground arith in rw (e, keep y e, same)
    | inr e ↦ rw (e, e) (find-update_first_self keep xs x (ground arith))
  ]

  pub any-update_first :
      (q : A → Bool)
      → ((x : A) → q (f x) ≡ q x)
      → (xs : List A) → any q (update_first p f xs) ≡ any q xs
  any-update_first q keep [] = refl
  any-update_first q keep (x ∷ xs) = ground (arith, keep x, any-update_first q keep xs)

  -- A search by a key that the write keeps finds the element it found, or its update.
  pub find-update_first :
      (q : A → Bool)
      → ((x : A) → q (f x) ≡ q x)
      → (xs : List A) (x : A) → find q xs ≡ some x
      → (find q (update_first p f xs) ≡ some x) ⊎ (find q (update_first p f xs) ≡ some (f x))
  find-update_first q keep [] x h = absurd (ground arith)
  find-update_first q keep (y ∷ xs) x h = ground (arith, keep y, find-update_first q keep xs x)

  pub length-update_first : (xs : List A) → length (update_first p f xs) ≡ length xs
  length-update_first [] = refl
  length-update_first (x ∷ xs) = ground (arith, length-update_first xs)

module _ {A : Type 0} (p : A → Bool) where
  -- Removing the matches of `p`: none is found afterwards, and other searches find what they did.
  pub find-retain_self : (xs : List A) → find p (retain (λ x. not (p x)) xs) ≡ none
  find-retain_self [] = refl
  find-retain_self (x ∷ xs) = elim (Bool-cases (p x)) [
    | inl e ↦ rw e (find-retain_self xs)
    | inr e ↦ rw (e, e) (find-retain_self xs)
  ]

  pub find-retain_ne :
      (q : A → Bool)
      → ((x : A) → p x ≡ true → q x ≡ false)
      → (xs : List A) → find q (retain (λ x. not (p x)) xs) ≡ find q xs
  find-retain_ne q ne [] = refl
  find-retain_ne q ne (x ∷ xs) = elim (Bool-cases (p x)) [
    | inl e ↦ rw (e, ne x e) (find-retain_ne q ne xs)
    | inr e ↦ rw e (ground (arith, find-retain_ne q ne xs))
  ]

  pub retain_of_not-any : (xs : List A) → any p xs ≡ false → retain (λ x. not (p x)) xs ≡ xs
  retain_of_not-any [] h = refl
  retain_of_not-any (x ∷ xs) h = ground (arith, retain_of_not-any xs)

  -- The list becomes shorter exactly when there is a match.
  pub length-retain-lt :
      (xs : List A) → any p xs ≡ true → length (retain (λ x. not (p x)) xs) < length xs
  length-retain-lt [] h = absurd (ground arith)
  length-retain-lt (x ∷ xs) h =
      ground (arith, length-retain-lt xs, length-retain-le (λ x. not (p x)) xs)

  pub find-eq-none_iff : (xs : List A) → (find p xs ≡ none) ↔ (any p xs ≡ false)
  find-eq-none_iff [] = ground arith
  find-eq-none_iff (x ∷ xs) = ground (arith, find-eq-none_iff xs)
