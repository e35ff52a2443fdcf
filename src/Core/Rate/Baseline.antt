-- ===== src/Core/Rate/Baseline.antt =====
-- crates/sg-core/src/rate.rs: the baseline that a tick leaves for a counter, and the rate over
-- two ticks.
use server_glass.Base.{
  ℕ, ◌-◌, leb, ◌&&◌, if◌then◌else◌, arith, ◌≡◌, refl, true, Option, none, some, Text, Map, get,
  List, [], ◌∷◌, ◌∙◌, get-insert, get-retain_key, text_eq, text_eq_iff, text_eq_refl, Bool-cases,
  Option-cases, inl, inr, filter,
}
use server_glass.Base.Int.{ltb_ℤ, saturating_sub, saturating_sub-pos}
use server_glass.Base.Float.{FloatOps}
use server_glass.Model.Series.{SeriesDescriptor, float, as_counter, is_counter}
use server_glass.Model.Sample.{Sample}
use server_glass.Core.Rate.{
  Previous, RateEngine, index, counts, retain_counters, derive, count_reading, process_one, cons?,
  process_loop, process,
}
use server_glass.Core.Rate.Series.{of_series, process_one_other}
use server_glass.Core.Rate.Guards.{process_one_reading}

-- The last reading of a counter, or the baseline before where there is none.
unfoldable pub last_reading : {F : Type 0} → List (Sample F) → Option Previous → Option Previous
last_reading [] old = old
last_reading (s ∷ ss) old = elim (as_counter s.value) [
  | none ↦ last_reading ss old
  | some raw ↦ last_reading ss (some (record { at_ms = s.at_ms; raw = raw }))
]

module _ {F : Type 0} ⦃fl : FloatOps F⦄ (by_id : Map (SeriesDescriptor F)) (k : Text)
    (d : SeriesDescriptor F) (hd : get k by_id ≡ some d) (hc : is_counter d.kind ≡ true) where
  last_reading_self :
      (s : Sample F) (ss : List (Sample F)) (m : Map Previous)
      → s.series ≡ k
      → last_reading ss (get k (process_one (get s.series by_id) s m).0)
        ≡ last_reading (s ∷ ss) (get k m)
  unfolding last_reading process_one count_reading
  last_reading_self s ss m e = elim (Option-cases (as_counter s.value)) [
    | inl n ↦ rw (e, hd, process_one, hc, n, count_reading, last_reading) refl
    | inr (raw, r) ↦
        rw (e, hd, process_one, hc, r, count_reading, last_reading, get-insert, text_eq_refl) refl
  ]

  process_loop_baseline :
      (ss : List (Sample F)) (m : Map Previous)
      → get k (process_loop by_id ss m).0 ≡ last_reading (filter (of_series k) ss) (get k m)
  unfolding process_loop filter
  process_loop_baseline [] m = unfold last_reading in refl
  process_loop_baseline (s ∷ ss) m = elim (Bool-cases (text_eq s.series k)) [
    | inl e ↦
        process_loop_baseline ss _
        ∙ (rw e (last_reading_self s (filter (of_series k) ss) m ((text_eq_iff s.series k).0 e)))
    | inr n ↦ process_loop_baseline ss _ ∙ rw (n, process_one_other _ s m k n) refl
  ]

module _ {F : Type 0} ⦃fl : FloatOps F⦄ where
  -- After a tick the baseline of a counter is the last reading that the tick had of it, and the
  -- baseline before where it had none.
  pub process_baseline :
      (e : RateEngine) (ds : List (SeriesDescriptor F)) (ss : List (Sample F)) (k : Text)
      (d : SeriesDescriptor F)
      → get k (index ds) ≡ some d
      → is_counter d.kind ≡ true
      → get k (process e ds ss).0.previous
        ≡ last_reading (filter (of_series k) ss) (get k e.previous)
  unfolding process retain_counters
  process_baseline e ds ss k d hd hc =
      process_loop_baseline (index ds) k d hd hc ss _
      ∙ rw (get-retain_key (λ j. counts (get j (index ds))), hd, hc) refl

  -- The increase in each second, times the scale of the series, at the second reading's time.
  abbrev pub rate_between : SeriesDescriptor F → Sample F → Sample F → ℕ → ℕ → Sample F
  rate_between d s s' raw raw' =
      let seconds = fl.div (fl.of_int (saturating_sub s'.at_ms s.at_ms)) (fl.of_nat 1000) in
      record {
        series = s'.series;
        at_ms = s'.at_ms;
        value = float (fl.mul (fl.div (fl.of_nat (raw' - raw)) seconds) d.scale);
      }

  derive-rate_between :
      (d : SeriesDescriptor F) (s s' : Sample F) (raw raw' : ℕ)
      → cons? (derive d s' raw' (some (record { at_ms = s.at_ms; raw = raw }))) []
        ≡ (if ltb_ℤ s.at_ms s'.at_ms && leb raw raw' then rate_between d s s' raw raw' ∷ [] else [])
  unfolding derive
  derive-rate_between d s s' raw raw' = ground (arith, saturating_sub-pos s'.at_ms s.at_ms)

  -- Two ticks that each describe the series as a counter and have one reading of it: if the second
  -- reading is later and not smaller, the second tick emits the increase in each second between the
  -- two, times the scale, and else nothing, whatever the engine remembered before the first tick.
  pub two_ticks :
      (e : RateEngine) (ds ds' : List (SeriesDescriptor F)) (ss ss' : List (Sample F)) (k : Text)
      (d d' : SeriesDescriptor F) (s s' : Sample F) (raw raw' : ℕ)
      → get k (index ds) ≡ some d
      → is_counter d.kind ≡ true
      → filter (of_series k) ss ≡ s ∷ []
      → as_counter s.value ≡ some raw
      → get k (index ds') ≡ some d'
      → is_counter d'.kind ≡ true
      → filter (of_series k) ss' ≡ s' ∷ []
      → as_counter s'.value ≡ some raw'
      → filter (of_series k) (process (process e ds ss).0 ds' ss').1 ≡ (
          if ltb_ℤ s.at_ms s'.at_ms && leb raw raw' then rate_between d' s s' raw raw' ∷ [] else [])
  unfolding last_reading
  two_ticks e ds ds' ss ss' k d d' s s' raw raw' hd hc hs hr hd' hc' hs' hr' =
      process_one_reading (process e ds ss).0 ds' ss' k d' s' raw' hd' hc' hs' hr'
      ∙ rw (process_baseline e ds ss k d hd hc, hs, last_reading, hr)
          (derive-rate_between d' s s' raw raw')
