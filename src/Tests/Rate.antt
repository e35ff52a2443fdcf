-- ===== src/Tests/Rate.antt =====
-- The rate engine over two ticks of one counter.
use server_glass.Base.{
  ◌&&◌, leb, if◌then◌else◌, ℕ, ◌≡◌, refl, some, get, List, [], ◌∷◌, filter, text_eq, insert,
}
use server_glass.Base.Int.{pos, ltb_ℤ}
use server_glass.Model.Series.{as_counter}
use server_glass.Model.Sample.{Sample}
use server_glass.Core.Rate.{RateEngine, index, process}
use server_glass.Core.Rate.Series.{of_series, series_view, process_series}
use server_glass.Core.Rate.Baseline.{rate_between, two_ticks}
use server_glass.Tests.Data.{whole, rx, rx_series, described_series, rx_at, load_at}

abbrev engine : RateEngine
engine = record { previous = (rx, record { at_ms = pos 0; raw = 50 }) ∷ [] }

abbrev pub first_tick : List (Sample ℕ)
first_tick = rx_at 1000 100 ∷ load_at 1000 7 ∷ []

abbrev pub second_tick : List (Sample ℕ)
second_tick = load_at 3000 8 ∷ rx_at 3000 700 ∷ []

rx_indexed : get rx (index described_series) ≡ some rx_series
unfolding get index insert text_eq
rx_indexed = refl

rx_first : filter (of_series rx) first_tick ≡ rx_at 1000 100 ∷ []
unfolding filter text_eq
rx_first = refl

rx_second : filter (of_series rx) second_tick ≡ rx_at 3000 700 ∷ []
unfolding filter text_eq
rx_second = refl

first_raw : as_counter (rx_at 1000 100).value ≡ some 100
unfolding as_counter
first_raw = refl

second_raw : as_counter (rx_at 3000 700).value ≡ some 700
unfolding as_counter
second_raw = refl

process_series_example :
    filter (of_series rx) (process engine described_series first_tick).1
    ≡ series_view
        (get rx (index described_series))
        (filter (of_series rx) first_tick)
        (get rx engine.previous)
process_series_example = process_series engine described_series first_tick rx

two_ticks_example :
    filter
      (of_series rx)
      (process (process engine described_series first_tick).0 described_series second_tick).1
    ≡ (if ltb_ℤ (pos 1000) (pos 3000) && leb 100 700
        then rate_between rx_series (rx_at 1000 100) (rx_at 3000 700) 100 700 ∷ []
        else [])
two_ticks_example =
    two_ticks engine described_series described_series first_tick second_tick rx rx_series rx_series
      (rx_at 1000 100) (rx_at 3000 700) 100 700 rx_indexed refl rx_first first_raw rx_indexed refl
      rx_second second_raw
