-- ===== src/Ffi/Format/Sparkline.antt =====
-- crates/sg-ffi/src/view.rs: where the points of a sparkline lie.
use server_glass.Base.{
  ◌≡◌, refl, ap, false, List, [], ◌∷◌, All, length, map, suc, Bool-cases, inl, inr,
}
use server_glass.Base.Float.{FloatOps}
use server_glass.Ffi.View.{clamp, hundredths}
use server_glass.Ffi.Format.{sparkline_points, sparkline_point}

module _ {F : Type 0} ⦃fl : FloatOps F⦄ where
  -- Neither below zero nor above one.
  abbrev pub IsFraction : F → Type 0
  IsFraction x = (fl.lt x (fl.of_nat 0) ≡ false) × (fl.lt (fl.of_nat 1) x ≡ false)

  clamp-IsFraction :
      (x : F)
      → IsFraction (fl.of_nat 0)
      → IsFraction (fl.of_nat 1)
      → IsFraction (clamp x (fl.of_nat 0) (fl.of_nat 1))
  clamp-IsFraction x zero one = elim (Bool-cases (fl.lt x (fl.of_nat 0))) [
    | inl e ↦ rw e zero
    | inr e ↦ elim (Bool-cases (fl.lt (fl.of_nat 1) x)) [
      | inl h ↦ rw (e, h) one
      | inr h ↦ rw (e, h) (e, h)
    ]
  ]

  map-IsFraction :
      (lowest span : F) (xs : List F)
      → IsFraction (fl.of_nat 0)
      → IsFraction (fl.of_nat 1)
      → IsFraction (hundredths 50)
      → All IsFraction (map (sparkline_point lowest span) xs)
  unfolding sparkline_point
  map-IsFraction lowest span [] zero one half = tt
  map-IsFraction lowest span (x ∷ xs) zero one half = (
    (elim (Bool-cases (fl.lt (fl.of_nat 0) span)) [
      | inl e ↦ rw e (clamp-IsFraction (fl.div (fl.sub x lowest) span) zero one)
      | inr e ↦ rw e half
    ]),
    map-IsFraction lowest span xs zero one half,
  )

  length-map : (f : F → F) (xs : List F) → length (map f xs) ≡ length xs
  length-map f [] = refl
  length-map f (x ∷ xs) = ap suc (length-map f xs)

  -- A sparkline has a point for each reading, and no point lies below zero or above one, if the
  -- order of the numbers 0, 0.5 and 1 is the usual one. A point that is no number lies in no order.
  pub sparkline_points-IsFraction :
      (history : List F)
      → IsFraction (fl.of_nat 0)
      → IsFraction (fl.of_nat 1)
      → IsFraction (hundredths 50)
      → (length (sparkline_points history) ≡ length history)
        × All IsFraction (sparkline_points history)
  unfolding sparkline_points
  sparkline_points-IsFraction [] zero one half = (refl, tt)
  sparkline_points-IsFraction (x ∷ xs) zero one half =
      (length-map _ (x ∷ xs), map-IsFraction _ _ (x ∷ xs) zero one half)
