-- ===== src/Base/Maps.antt =====
-- `HashMap` and `BTreeMap` with text keys, as association lists with one entry for a key. No
-- definition of the library depends on the order of a map's entries.
use mathlib.Core.Path.{◌≡◌, refl}
use mathlib.Core.Bool.{Bool}
use mathlib.Core.Logic.{inl, inr}
use mathlib.Core.Option.{Option, none, some}
use mathlib.Core.List.{List, [], ◌∷◌}
use native.Mathlib.Omega.{arith}
use server_glass.Base.Tests.{◌>>=◌, if◌then◌else◌, is_some, Bool-cases}
use server_glass.Base.Strings.{Text, text_eq, text_eq_iff}

abbrev pub Map {ℓ} : Type ℓ → Type ℓ
Map V = List (Text × V)

module _ {ℓ} {V : Type ℓ} where
  unfoldable pub get : Text → Map V → Option V
  get k [] = none
  get k ((j, v) ∷ m) = if text_eq j k then some v else get k m

  -- Replaces the value of a key that is present, and adds the key at the end otherwise.
  unfoldable pub insert : Text → V → Map V → Map V
  insert k v [] = (k, v) ∷ []
  insert k v ((j, w) ∷ m) =
      let rest = insert k v m in if text_eq j k then (j, v) ∷ m else (j, w) ∷ rest

  -- `retain` with a test of the key and the value.
  unfoldable pub retain : (Text → V → Bool) → Map V → Map V
  retain p [] = []
  retain p ((j, v) ∷ m) = let rest = retain p m in if p j v then (j, v) ∷ rest else rest

  unfoldable pub remove : Text → Map V → Map V
  remove k [] = []
  remove k ((j, v) ∷ m) = let rest = remove k m in if text_eq j k then rest else (j, v) ∷ rest

  abbrev pub contains_key : Text → Map V → Bool
  contains_key k m = is_some (get k m)

  abbrev pub keys : Map V → List Text
  keys [] = []
  keys ((j, v) ∷ m) = j ∷ keys m

  -- No key stands twice.
  abbrev pub IsMap : Map V → Type ℓ
  IsMap [] = Unit
  IsMap ((j, v) ∷ m) = (get j m ≡ none) × IsMap m

module _ {ℓ} {V : Type ℓ} where
  pub get-insert :
      (k j : Text) (v : V) (m : Map V)
      → get j (insert k v m) ≡ (if text_eq k j then some v else get j m)
  unfolding get insert
  get-insert k j v [] = refl
  get-insert k j v ((i, w) ∷ m) =
      ground (arith, text_eq_iff k j, text_eq_iff i k, text_eq_iff i j, get-insert k j v m)

  pub get-remove :
      (k j : Text) (m : Map V) → get j (remove k m) ≡ (if text_eq k j then none else get j m)
  unfolding get remove
  get-remove k j [] = ground arith
  get-remove k j ((i, w) ∷ m) =
      ground (arith, text_eq_iff k j, text_eq_iff i k, text_eq_iff i j, get-remove k j m)

  pub insert-IsMap : (k : Text) (v : V) (m : Map V) → IsMap m → IsMap (insert k v m)
  unfolding insert
  insert-IsMap k v [] h = (unfold get in refl, tt)
  insert-IsMap k v ((j, w) ∷ m) h = elim (Bool-cases (text_eq j k)) [
    | inl e ↦ rw e h
    | inr n ↦ rw n (
      ground (arith, get-insert k j v m, text_eq_iff j k, text_eq_iff k j, h.0),
      insert-IsMap k v m h.1,
    )
  ]

  pub get-retain_key :
      (p : Text → Bool) (k : Text) (m : Map V)
      → get k (retain (λ j _. p j) m) ≡ (if p k then get k m else none)
  unfolding get retain
  get-retain_key p k [] = ground arith
  get-retain_key p k ((j, v) ∷ m) = ground (arith, text_eq_iff j k, get-retain_key p k m)

  pub get-retain :
      (p : Text → V → Bool) (k : Text) (m : Map V)
      → IsMap m
      → get k (retain p m) ≡ (get k m >>= λ v. if p k v then some v else none)
  unfolding get retain
  get-retain p k [] h = refl
  get-retain p k ((j, v) ∷ m) h = ground (arith, text_eq_iff j k, h.0, get-retain p k m h.1)

  pub retain-IsMap : (p : Text → V → Bool) (m : Map V) → IsMap m → IsMap (retain p m)
  unfolding retain
  retain-IsMap p [] h = tt
  retain-IsMap p ((j, v) ∷ m) h = elim (Bool-cases (p j v)) [
    | inl e ↦ rw e (ground (arith, h.0, get-retain p j m h.1), retain-IsMap p m h.1)
    | inr n ↦ rw n (retain-IsMap p m h.1)
  ]
