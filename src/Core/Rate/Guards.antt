-- ===== src/Core/Rate/Guards.antt =====
-- crates/sg-core/src/rate.rs: the guards of a rate, and the reset of a reconnect.
use server_glass.Base.{
  ℕ, ◌≡◌, refl, true, some, Text, get, List, [], ◌∷◌, arith, is_some, filter, ◌∙◌, leb, ◌&&◌, not,
}
use server_glass.Base.Int.{leb_ℤ, saturating_sub-pos}
use server_glass.Base.Float.{FloatOps}
use server_glass.Model.Series.{SeriesDescriptor, as_counter, is_counter}
use server_glass.Model.Sample.{Sample}
use server_glass.Core.Rate.{Previous, RateEngine, index, derive, cons?, process, reset}
use server_glass.Core.Rate.Series.{of_series, series_rates, series_view, process_series}

module _ {F : Type 0} ⦃fl : FloatOps F⦄ where
  -- A rate comes of two readings exactly when time passed between them and the counter did not go
  -- back.
  pub derive_iff :
      (d : SeriesDescriptor F) (s : Sample F) (raw : ℕ) (p : Previous)
      → is_some (derive d s raw (some p)) ≡ (not (leb_ℤ s.at_ms p.at_ms) && leb p.raw raw)
  unfolding derive
  derive_iff d s raw p = ground (arith, saturating_sub-pos s.at_ms p.at_ms)

  -- With the index naming a counter and one reading in the tick, the engine emits for the series
  -- what `derive` gives.
  pub process_one_reading :
      (e : RateEngine) (ds : List (SeriesDescriptor F)) (ss : List (Sample F)) (k : Text)
      (d : SeriesDescriptor F) (s : Sample F) (raw : ℕ)
      → get k (index ds) ≡ some d
      → is_counter d.kind ≡ true
      → filter (of_series k) ss ≡ s ∷ []
      → as_counter s.value ≡ some raw
      → filter (of_series k) (process e ds ss).1 ≡ cons? (derive d s raw (get k e.previous)) []
  unfolding series_view series_rates
  process_one_reading e ds ss k d s raw hd hc hs hr =
      process_series e ds ss k ∙ rw (hd, hs, series_view, hc, series_rates, hr) refl

  -- After a reset the first reading of a counter yields nothing.
  pub reset-process :
      (e : RateEngine) (ds : List (SeriesDescriptor F)) (ss : List (Sample F)) (k : Text)
      (d : SeriesDescriptor F) (s : Sample F) (raw : ℕ)
      → get k (index ds) ≡ some d
      → is_counter d.kind ≡ true
      → filter (of_series k) ss ≡ s ∷ []
      → as_counter s.value ≡ some raw
      → filter (of_series k) (process (reset e) ds ss).1 ≡ []
  unfolding reset get derive
  reset-process e ds ss k d s raw hd hc hs hr =
      process_one_reading (reset e) ds ss k d s raw hd hc hs hr
