-- ===== src/Ffi/View/Complete.antt =====
-- crates/sg-ffi/src/view.rs: the headline grid and the detail groups together.
use server_glass.Base.{Bool, false, ◌||◌, Option, none, some, List, Text, any, is_some}
use server_glass.Base.Float.{FloatOps}
use server_glass.Model.Series.{SeriesDescriptor}
use server_glass.Core.Store.{LiveStore}
use server_glass.Ffi.View.{MetricGauge, DetailGroup, gauge_from, is_headline, group_title}

module _ {F : Type 0} ⦃fl : FloatOps F⦄ (p : MetricGauge F → Bool) where
  -- Some group has a gauge that passes the test.
  abbrev pub any_grouped : List (DetailGroup F) → Bool
  any_grouped groups = any (λ g. any p g.gauges) groups

  -- The series has a gauge, and it passes the test.
  abbrev pub passes : Option (MetricGauge F) → Bool
  passes none = false
  passes (some g) = p g

  abbrev pub drawn : LiveStore F → SeriesDescriptor F → Bool
  drawn store d = passes (gauge_from store d)

  abbrev passes_titled : Option (Text × MetricGauge F) → Bool
  passes_titled none = false
  passes_titled (some tg) = p (tg.1)

  -- A series of a source whose readings are listed, or one of the headline's.
  abbrev pub is_listed : SeriesDescriptor F → Bool
  is_listed d = is_headline d || is_some (group_title d.source)
