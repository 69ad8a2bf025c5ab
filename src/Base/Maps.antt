-- ===== src/Base/Maps.antt =====
-- `BTreeMap` with texts as keys: the entries in the order of the keys.
pub mod Keys
use mathlib.Core.Path.{◌≡◌, refl, ap}
use mathlib.Core.Bool.{Bool, true, false, not}
use mathlib.Core.List.{List, [], ◌∷◌, map}
use mathlib.Core.Option.{Option, none, some}
use native.Mathlib.Omega.{arith}
use capsi.Base.Tests.{if◌then◌else◌}
use capsi.Base.Strings.{Text, text_eq, text_eq_iff, text_eq_refl, text_lt}
use capsi.Base.Lists.{retain}

abbrev pub TextMap : Type 0 → Type 0
TextMap V = List (Text × V)

module _ {V : Type 0} where
  -- `get`.
  unfoldable pub lookup : Text → TextMap V → Option V
  lookup k [] = none
  lookup k ((j, v) ∷ m) = if text_eq j k then some v else lookup k m

  -- `insert`.
  unfoldable pub insert : Text → V → TextMap V → TextMap V
  insert k v [] = (k, v) ∷ []
  insert k v ((j, w) ∷ m) =
      if text_eq j k
      then (k, v) ∷ m
      else if text_lt k j
      then (k, v) ∷ (j, w) ∷ m
      else (j, w) ∷ insert k v m

  -- `remove`.
  unfoldable pub erase : Text → TextMap V → TextMap V
  erase k m = retain (λ e. not (text_eq e.0 k)) m

  -- A write through `get_mut`.
  unfoldable pub update : Text → (V → V) → TextMap V → TextMap V
  update k f [] = []
  update k f ((j, v) ∷ m) = if text_eq j k then (j, f v) ∷ m else (j, v) ∷ update k f m

  -- `contains_key`.
  unfoldable pub contains_key : Text → TextMap V → Bool
  unfolding lookup
  contains_key k m = elim (lookup k m) [ none ↦ false | some _ ↦ true ]

  pub contains_key-some :
      (k : Text) (m : TextMap V) (v : V) → lookup k m ≡ some v → contains_key k m ≡ true
  unfolding contains_key
  contains_key-some k m v h = rw (h, contains_key) refl

  -- `values`.
  unfoldable pub values : TextMap V → List V
  values m = map (λ (e : Text × V). e.1) m

  pub lookup-insert :
      (j k : Text) (v : V) (m : TextMap V)
      → lookup j (insert k v m) ≡ (if text_eq k j then some v else lookup j m)
  unfolding lookup insert
  lookup-insert j k v [] = refl
  lookup-insert j k v ((i, w) ∷ m) =
      ground (arith, text_eq_iff k j, text_eq_iff i k, text_eq_iff i j, lookup-insert j k v m)

  pub insert-insert :
      (k : Text) (v w : V) (m : TextMap V) → insert k w (insert k v m) ≡ insert k w m
  unfolding insert
  insert-insert k v w [] = ground (arith, text_eq_refl k)
  insert-insert k v w ((i, u) ∷ m) = ground (arith, text_eq_refl k, insert-insert k v w m)

  pub lookup-erase :
      (j k : Text) (m : TextMap V)
      → lookup j (erase k m) ≡ (if text_eq k j then none else lookup j m)
  unfolding lookup erase
  lookup-erase j k [] = ground arith
  lookup-erase j k ((i, w) ∷ m) =
      ground (arith, text_eq_iff k j, text_eq_iff i k, text_eq_iff i j, lookup-erase j k m)

  pub lookup-update :
      (j k : Text) (f : V → V) (m : TextMap V)
      → lookup j (update k f m) ≡ (
          if text_eq k j
          then elim (lookup j m) [ none ↦ none | some v ↦ some (f v) ]
          else lookup j m)
  unfolding lookup update
  lookup-update j k f [] = ground arith
  lookup-update j k f ((i, w) ∷ m) =
      ground (arith, text_eq_iff k j, text_eq_iff i k, text_eq_iff i j, lookup-update j k f m)
