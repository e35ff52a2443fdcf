-- ===== src/Core/Rate/Series.antt =====
-- crates/sg-core/src/rate.rs: what the engine emits for one series.
use server_glass.Base.{
  ℕ, ◌≡◌, refl, Bool, true, false, Option, none, some, Text, Map, get, List, [], ◌∷◌, arith, sym,
  ◌∙◌, get-insert, get-retain_key, text_eq, text_eq_iff, text_eq_refl, Bool-cases, Option-cases,
  inl, inr, filter, if◌then◌else◌,
}
use mathlib.Core.Path.{subst}
use server_glass.Base.Float.{FloatOps}
use server_glass.Model.Series.{SeriesDescriptor, as_counter, is_counter}
use server_glass.Model.Sample.{Sample}
use server_glass.Core.Rate.{
  Previous, RateEngine, index, counts, retain_counters, derive, count_reading, process_one, cons?,
  process_loop, process,
}

-- The samples of the series `k`.
abbrev pub of_series : {F : Type 0} → Text → Sample F → Bool
of_series k s = text_eq s.series k

module _ {F : Type 0} ⦃fl : FloatOps F⦄ where
  -- The rates of one counter: each reading against the one before it, values that are no counter
  -- readings left out.
  unfoldable pub series_rates :
      SeriesDescriptor F → List (Sample F) → Option Previous → List (Sample F)
  series_rates d [] old = []
  series_rates d (s ∷ ss) old = elim (as_counter s.value) [
    | none ↦ series_rates d ss old
    | some raw ↦
        cons? (derive d s raw old)
          (series_rates d ss (some (record { at_ms = s.at_ms; raw = raw })))
  ]

  unfoldable pub series_view :
      Option (SeriesDescriptor F) → List (Sample F) → Option Previous → List (Sample F)
  unfolding series_rates
  series_view none ss old = []
  series_view (some d) ss old = if is_counter d.kind then series_rates d ss old else ss

  derive-series :
      (d : SeriesDescriptor F) (s : Sample F) (raw : ℕ) (p : Option Previous) (o : Sample F)
      → derive d s raw p ≡ some o
      → o.series ≡ s.series
  unfolding derive
  derive-series d s raw none o h = cc
  derive-series d s raw (some p) o h = ground arith

  count_reading-series :
      (d : SeriesDescriptor F) (s : Sample F) (m : Map Previous) (raw : Option ℕ) (o : Sample F)
      → (count_reading d s m raw).1 ≡ some o
      → o.series ≡ s.series
  unfolding count_reading
  count_reading-series d s m none o h = cc
  count_reading-series d s m (some raw) o h = derive-series d s raw _ o h

  process_one-series :
      (by : Option (SeriesDescriptor F)) (s : Sample F) (m : Map Previous) (o : Sample F)
      → (process_one by s m).1 ≡ some o
      → o.series ≡ s.series
  unfolding process_one
  process_one-series none s m o h = cc
  process_one-series (some d) s m o h =
      ground (arith, count_reading-series d s m (as_counter s.value) o)

  count_reading_other :
      (d : SeriesDescriptor F) (s : Sample F) (m : Map Previous) (raw : Option ℕ) (k : Text)
      → text_eq s.series k ≡ false
      → get k (count_reading d s m raw).0 ≡ get k m
  unfolding count_reading
  count_reading_other d s m none k h = refl
  count_reading_other d s m (some raw) k h = rw (get-insert, h) refl

  pub process_one_other :
      (by : Option (SeriesDescriptor F)) (s : Sample F) (m : Map Previous) (k : Text)
      → text_eq s.series k ≡ false
      → get k (process_one by s m).0 ≡ get k m
  unfolding process_one
  process_one_other none s m k h = refl
  process_one_other (some d) s m k h =
      ground (arith, count_reading_other d s m (as_counter s.value) k h)

  filter-cons?_other :
      (k : Text) (o : Option (Sample F)) (x : Text) (out : List (Sample F))
      → ((s : Sample F) → o ≡ some s → s.series ≡ x)
      → text_eq x k ≡ false
      → filter (of_series k) (cons? o out) ≡ filter (of_series k) out
  unfolding filter
  filter-cons?_other k none x out f h = refl
  filter-cons?_other k (some s) x out f h = rw (f s refl, h) refl

  filter-cons?_self :
      (k : Text) (o : Option (Sample F)) (x : Text) (out : List (Sample F))
      → ((s : Sample F) → o ≡ some s → s.series ≡ x)
      → text_eq x k ≡ true
      → filter (of_series k) (cons? o out) ≡ cons? o (filter (of_series k) out)
  unfolding filter
  filter-cons?_self k none x out f h = refl
  filter-cons?_self k (some s) x out f h = rw (f s refl, h) refl

  count_reading_self :
      (d : SeriesDescriptor F) (s : Sample F) (ss : List (Sample F)) (m : Map Previous)
      → let (m', pushed) = count_reading d s m (as_counter s.value) in
        cons? pushed (series_rates d ss (get s.series m'))
        ≡ series_rates d (s ∷ ss) (get s.series m)
  unfolding count_reading series_rates
  count_reading_self d s ss m = elim (Option-cases (as_counter s.value)) [
    | inl e ↦ rw (e, count_reading, series_rates) refl
    | inr (raw, e) ↦ rw (e, count_reading, series_rates, get-insert, text_eq_refl) refl
  ]

  -- One reading of the series itself, then the rest of its readings.
  step_self :
      (by : Option (SeriesDescriptor F)) (s : Sample F) (ss : List (Sample F)) (m : Map Previous)
      → let (m', pushed) = process_one by s m in
        cons? pushed (series_view by ss (get s.series m'))
        ≡ series_view by (s ∷ ss) (get s.series m)
  unfolding process_one series_view
  step_self none s ss m = refl
  step_self (some d) s ss m = elim (Bool-cases (is_counter d.kind)) [
    | inl c ↦ rw (c, process_one, series_view) (count_reading_self d s ss m)
    | inr n ↦ rw (n, process_one, series_view) refl
  ]

  step_at :
      (by_id : Map (SeriesDescriptor F)) (k : Text) (s : Sample F) (ss : List (Sample F))
      (m : Map Previous)
      → s.series ≡ k
      → let (m', pushed) = process_one (get s.series by_id) s m in
        cons? pushed (series_view (get k by_id) ss (get k m'))
        ≡ series_view (get k by_id) (s ∷ ss) (get k m)
  step_at by_id k s ss m e =
      subst
        (λ j.
          cons? (process_one (get s.series by_id) s m).1
            (series_view (get j by_id) ss (get j (process_one (get s.series by_id) s m).0))
          ≡ series_view (get j by_id) (s ∷ ss) (get j m))
        e (step_self (get s.series by_id) s ss m)

  series_view-nil :
      (by : Option (SeriesDescriptor F)) (old : Option Previous) → series_view by [] old ≡ []
  unfolding series_view
  series_view-nil none old = refl
  series_view-nil (some d) old = ground arith

  process_loop_series :
      (by_id : Map (SeriesDescriptor F)) (k : Text) (ss : List (Sample F)) (m : Map Previous)
      → filter (of_series k) (process_loop by_id ss m).1
        ≡ series_view (get k by_id) (filter (of_series k) ss) (get k m)
  unfolding process_loop filter
  process_loop_series by_id k [] m = sym (series_view-nil (get k by_id) (get k m))
  process_loop_series by_id k (s ∷ ss) m = elim (Bool-cases (text_eq s.series k)) [
    | inl e ↦
        rw
          (
            filter-cons?_self k _ s.series _ (process_one-series _ s m) e,
            process_loop_series by_id k ss (process_one (get s.series by_id) s m).0,
            e,
          )
          (step_at by_id k s (filter (of_series k) ss) m ((text_eq_iff s.series k).0 e))
    | inr n ↦
        rw
          (
            filter-cons?_other k _ s.series _ (process_one-series _ s m) n,
            process_loop_series by_id k ss (process_one (get s.series by_id) s m).0,
            n,
            process_one_other _ s m k n,
          )
          refl
  ]

  retained :
      (by : Option (SeriesDescriptor F)) (ss : List (Sample F)) (old : Option Previous)
      → series_view by ss (if counts by then old else none) ≡ series_view by ss old
  unfolding series_view
  retained none ss old = refl
  retained (some d) ss old = ground arith

  -- Of one series the engine emits what the readings of that series give, from the baseline that
  -- it kept for it: the rates if the tick describes a counter, the samples unchanged if it
  -- describes anything else, and nothing if it does not describe the series.
  pub process_series :
      (e : RateEngine) (ds : List (SeriesDescriptor F)) (ss : List (Sample F)) (k : Text)
      → filter (of_series k) (process e ds ss).1
        ≡ series_view (get k (index ds)) (filter (of_series k) ss) (get k e.previous)
  unfolding process retain_counters
  process_series e ds ss k =
      process_loop_series (index ds) k ss _
      ∙ rw (get-retain_key (λ j. counts (get j (index ds))))
          (retained (get k (index ds)) _ (get k e.previous))
