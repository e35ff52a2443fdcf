-- ===== src/Base/Sort.antt =====
-- `sort_by` on a text key: a stable sort, and what it yields.
use mathlib.Core.Path.{◌≡◌, refl}
use mathlib.Core.Bool.{Bool, true, false, ◌||◌, ◌&&◌}
use mathlib.Core.Logic.{inl, inr}
use mathlib.Core.List.{List, [], ◌∷◌}
use native.Mathlib.Omega.{arith}
use server_glass.Base.Tests.{ltb, ◌==◌, if◌then◌else◌, Bool-cases}
use server_glass.Base.Lists.{any}
use server_glass.Base.Strings.{Text}

-- `str::cmp` is not `Greater`. The order of the bytes of UTF-8 is that of the scalar values.
unfoldable pub text_le : Text → Text → Bool
text_le [] t = true
text_le (a ∷ s) [] = false
text_le (a ∷ s) (b ∷ t) = ltb a b || (a == b && text_le s t)

text_le-total : (s t : Text) → text_le s t ≡ false → text_le t s ≡ true
unfolding text_le
text_le-total [] t h = ground (arith, h)
text_le-total (a ∷ s) [] h = refl
text_le-total (a ∷ s) (b ∷ t) h = ground (arith, h, text_le-total s t)

module _ {ℓ} {A : Type ℓ} (key : A → Text) where
  -- In front of the first element that is not smaller.
  unfoldable pub insert_by : A → List A → List A
  insert_by x [] = x ∷ []
  insert_by x (y ∷ ys) =
      let rest = insert_by x ys in if text_le (key x) (key y) then x ∷ y ∷ ys else y ∷ rest

  unfoldable pub sort_by : List A → List A
  unfolding insert_by text_le
  sort_by [] = []
  sort_by (x ∷ xs) = insert_by x (sort_by xs)

  -- No element is smaller than the one before it.
  abbrev pub IsSorted : List A → Type 0
  IsSorted [] = Unit
  IsSorted (x ∷ []) = Unit
  IsSorted (x ∷ y ∷ r) = (text_le (key x) (key y) ≡ true) × IsSorted (y ∷ r)

  insert_by-IsSorted : (x : A) (ys : List A) → IsSorted ys → IsSorted (insert_by x ys)
  unfolding insert_by
  insert_by-IsSorted x [] s = tt
  insert_by-IsSorted x (y ∷ []) s = elim (Bool-cases (text_le (key x) (key y))) [
    | inl e ↦ rw (e, insert_by) (e, tt)
    | inr n ↦ rw (n, insert_by) (text_le-total (key x) (key y) n, tt)
  ]
  insert_by-IsSorted x (y ∷ z ∷ r) (yz, s) = elim (Bool-cases (text_le (key x) (key y))) [
    | inl e ↦ rw (e, insert_by) (e, (yz, s))
    | inr n ↦ elim (Bool-cases (text_le (key x) (key z))) [
      | inl e ↦ rw (n, e, insert_by) (text_le-total (key x) (key y) n, (e, s))
      | inr m ↦ rw (n, m, insert_by) (yz, rw (m, insert_by) at (insert_by-IsSorted x (z ∷ r) s))
    ]
  ]

  pub sort_by-IsSorted : (xs : List A) → IsSorted (sort_by xs)
  unfolding sort_by
  sort_by-IsSorted [] = tt
  sort_by-IsSorted (x ∷ xs) = insert_by-IsSorted x (sort_by xs) (sort_by-IsSorted xs)

  insert_by-any : (p : A → Bool) (x : A) (ys : List A) → any p (insert_by x ys) ≡ (p x || any p ys)
  unfolding insert_by any
  insert_by-any p x [] = refl
  insert_by-any p x (y ∷ ys) = ground (arith, insert_by-any p x ys)

  pub sort_by-any : (p : A → Bool) (xs : List A) → any p (sort_by xs) ≡ any p xs
  unfolding sort_by any
  sort_by-any p [] = refl
  sort_by-any p (x ∷ xs) = ground (arith, insert_by-any p x (sort_by xs), sort_by-any p xs)

-- `sort_by` with the test that the comparison is not `Greater`: a stable sort.
module _ {ℓ} {A : Type ℓ} (le : A → A → Bool) where
  unfoldable pub insert_with : A → List A → List A
  insert_with x [] = x ∷ []
  insert_with x (y ∷ ys) = let rest = insert_with x ys in if le x y then x ∷ y ∷ ys else y ∷ rest

  unfoldable pub sort_with : List A → List A
  unfolding insert_with
  sort_with [] = []
  sort_with (x ∷ xs) = insert_with x (sort_with xs)

  insert_with-any :
      (p : A → Bool) (x : A) (ys : List A) → any p (insert_with x ys) ≡ (p x || any p ys)
  unfolding insert_with any
  insert_with-any p x [] = refl
  insert_with-any p x (y ∷ ys) = ground (arith, insert_with-any p x ys)

  pub sort_with-any : (p : A → Bool) (xs : List A) → any p (sort_with xs) ≡ any p xs
  unfolding sort_with any
  sort_with-any p [] = refl
  sort_with-any p (x ∷ xs) = ground (arith, insert_with-any p x (sort_with xs), sort_with-any p xs)
