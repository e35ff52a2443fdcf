-- ===== src/Ffi/Format.antt =====
-- crates/sg-ffi/src/view.rs: values, durations and sparklines as they are shown.
pub mod Sparkline
use server_glass.Base.{
  ℕ, zero, suc, ◌/◌, ◌%◌, Bool, ◌||◌, List, [], ◌∷◌, ◌++◌, Text, codes, text_eq, map, if◌then◌else◌,
  unwrap_or, strip_prefix, show_nat,
}
use server_glass.Base.{trim_end}
use server_glass.Base.Float.{FloatOps}
use server_glass.Ffi.View.{clamp, hundredths}

-- The match on the days and the hours.
unfoldable pub duration_text : ℕ → ℕ → ℕ → Text
unfolding show_nat
duration_text zero zero minutes = show_nat minutes ++ codes "m"
duration_text zero (suc h) minutes =
    show_nat (suc h) ++ (codes "h " ++ (show_nat minutes ++ codes "m"))
duration_text (suc d) hours minutes =
    show_nat (suc d) ++ (codes "d " ++ (show_nat hours ++ codes "h"))

module _ {F : Type 0} ⦃fl : FloatOps F⦄ where
  -- `format_uptime`
  unfoldable pub format_uptime : F → Text
  unfolding duration_text
  format_uptime seconds =
      let total = fl.to_u64 (fl.greater seconds (fl.of_nat 0)) in
      duration_text (total / 86400) (total % 86400 / 3600) (total % 3600 / 60)

  -- The loop over the prefixes: the scaled value and the prefix it stops at.
  unfoldable pub scale_down : List Text → Text → F → F × Text
  scale_down [] prefix scaled = (scaled, prefix)
  scale_down (p ∷ ps) prefix scaled =
      let more = scale_down ps p (fl.div scaled (fl.of_nat 1024)) in
      if fl.le (fl.of_nat 1024) scaled then more else (scaled, prefix)

  -- `{signed:.digits$} {prefix}B{tail}`
  unfoldable pub format_binary : F → Text → Text
  unfolding scale_down strip_prefix text_eq
  format_binary value unit_suffix =
      let (scaled, prefix) =
        scale_down (codes "Ki" ∷ codes "Mi" ∷ codes "Gi" ∷ codes "Ti" ∷ codes "Pi" ∷ []) []
          (fl.abs value) in
      let signed = if fl.lt value (fl.of_nat 0) then fl.neg scaled else scaled in
      let digits = if text_eq prefix [] then 0 else 1 in
      let tail = unwrap_or [] (strip_prefix (codes "B") unit_suffix) in
      fl.show_fixed digits signed ++ (codes " " ++ (prefix ++ (codes "B" ++ tail)))

  unfoldable pub format_value : F → Text → Bool → Text
  unfolding format_binary trim_end text_eq
  format_value value unit_suffix binary_scaled =
      if binary_scaled
      then format_binary value unit_suffix
      else if text_eq unit_suffix (codes "%")
      then fl.show_fixed 1 value ++ codes "%"
      else if fl.le (fl.of_nat 1000) (fl.abs value) || fl.eq (fl.fract value) (fl.of_nat 0)
      then trim_end (fl.show_fixed 0 value ++ (codes " " ++ unit_suffix))
      else trim_end (fl.show_fixed 2 value ++ (codes " " ++ unit_suffix))

  unfoldable pub fold_left : (F → F → F) → F → List F → F
  fold_left f x [] = x
  fold_left f x (y ∷ ys) = fold_left f (f x y) ys

  -- The larger of the range and a twentieth of the largest magnitude (`NOISE_FLOOR`).
  unfoldable pub span_of : F → F → F
  span_of lowest highest =
      fl.greater (fl.sub highest lowest)
        (fl.mul (fl.greater (fl.abs highest) (fl.abs lowest)) (hundredths 5))

  unfoldable pub sparkline_point : F → F → F → F
  sparkline_point lowest span value =
      if fl.lt (fl.of_nat 0) span
      then clamp (fl.div (fl.sub value lowest) span) (fl.of_nat 0) (fl.of_nat 1)
      else hundredths 50

  -- `sparkline_points`
  unfoldable pub sparkline_points : List F → List F
  unfolding fold_left span_of sparkline_point
  sparkline_points [] = []
  sparkline_points (x ∷ xs) =
      let highest = fold_left fl.greater fl.lowest (x ∷ xs) in
      let lowest = fold_left fl.lesser fl.highest (x ∷ xs) in
      map (sparkline_point lowest (span_of lowest highest)) (x ∷ xs)
