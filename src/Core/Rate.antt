-- ===== src/Core/Rate.antt =====
-- crates/sg-core/src/rate.rs: counters become rates; everything else passes through.
pub mod Tracked
pub mod Series
pub mod Guards
pub mod Baseline
use server_glass.Base.{
  ℕ, ◌-◌, Bool, true, false, Option, none, some, Text, Map, get, insert, retain, List, [], ◌∷◌, ltb,
  length, if◌then◌else◌, ◌||◌, is_some,
}
use server_glass.Base.Int.{ℤ, pos, leb_ℤ, saturating_sub}
use server_glass.Base.Float.{FloatOps}
use server_glass.Model.Series.{SeriesDescriptor, Value, float, as_counter, is_counter}
use server_glass.Model.Sample.{Sample}

-- The last raw reading of one counter.
pub record Previous : Type 0 where
  pub at_ms : ℤ
  pub raw : ℕ

pub record RateEngine : Type 0 where
  pub previous : Map Previous

-- `RateEngine::new`
unfoldable pub new_engine : RateEngine
new_engine = record { previous = [] }

-- `RateEngine::reset`
unfoldable pub reset : RateEngine → RateEngine
reset e = record e { previous = [] }

-- `RateEngine::tracked`
unfoldable pub tracked : RateEngine → ℕ
tracked e = length e.previous

abbrev pub cons? : {A : Type 0} → Option A → List A → List A
cons? none xs = xs
cons? (some a) xs = a ∷ xs

module _ {F : Type 0} where
  -- `descriptors.iter().map(|d| (&d.id, d)).collect()`: the last descriptor of an id stands.
  unfoldable pub index_from :
      List (SeriesDescriptor F) → Map (SeriesDescriptor F) → Map (SeriesDescriptor F)
  index_from [] m = m
  index_from (d ∷ ds) m = index_from ds (insert d.id d m)

  unfoldable pub index : List (SeriesDescriptor F) → Map (SeriesDescriptor F)
  unfolding index_from
  index ds = index_from ds []

  abbrev pub counts : Option (SeriesDescriptor F) → Bool
  counts none = false
  counts (some d) = is_counter d.kind

  -- `self.previous.retain(…)`
  unfoldable pub retain_counters : Map (SeriesDescriptor F) → Map Previous → Map Previous
  retain_counters by_id previous = retain (λ id _. counts (get id by_id)) previous

module _ {F : Type 0} ⦃fl : FloatOps F⦄ where
  -- What a counter reading yields, from the reading before it.
  unfoldable pub derive : SeriesDescriptor F → Sample F → ℕ → Option Previous → Option (Sample F)
  derive d s raw none = none
  derive d s raw (some p) =
      let elapsed_ms = saturating_sub s.at_ms p.at_ms in
      if leb_ℤ elapsed_ms (pos 0) || ltb raw p.raw
      then none
      else let per_second =
          fl.div (fl.of_nat (raw - p.raw)) (fl.div (fl.of_int elapsed_ms) (fl.of_nat 1000)) in
        some
          (record { series = s.series; at_ms = s.at_ms; value = float (fl.mul per_second d.scale) })

  unfoldable pub count_reading :
      SeriesDescriptor F → Sample F → Map Previous → Option ℕ → Map Previous × Option (Sample F)
  unfolding derive
  count_reading d s previous none = (previous, none)
  count_reading d s previous (some raw) = (
    insert s.series (record { at_ms = s.at_ms; raw = raw }) previous,
    derive d s raw (get s.series previous),
  )

  -- The body of the loop over the samples: the new baselines, and what is pushed to the output.
  unfoldable pub process_one :
      Option (SeriesDescriptor F) → Sample F → Map Previous → Map Previous × Option (Sample F)
  unfolding count_reading
  process_one none s previous = (previous, none)
  process_one (some d) s previous =
      if is_counter d.kind
      then count_reading d s previous (as_counter s.value)
      else (previous, some s)

  unfoldable pub process_loop :
      Map (SeriesDescriptor F) → List (Sample F) → Map Previous → Map Previous × List (Sample F)
  unfolding process_one
  process_loop by_id [] previous = (previous, [])
  process_loop by_id (s ∷ ss) previous =
      let (previous', pushed) = process_one (get s.series by_id) s previous in
      let (final, out) = process_loop by_id ss previous' in (final, cons? pushed out)

  -- `RateEngine::process`
  unfoldable pub process :
      RateEngine → List (SeriesDescriptor F) → List (Sample F) → RateEngine × List (Sample F)
  unfolding process_loop index retain_counters
  process e descriptors samples =
      let by_id = index descriptors in
      let (previous, out) = process_loop by_id samples (retain_counters by_id e.previous) in
      (record { previous = previous }, out)
