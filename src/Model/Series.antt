-- ===== src/Model/Series.antt =====
-- crates/sg-model/src/series.rs: values, series descriptors and their constructors.
use server_glass.Base.{
  ℕ, Bool, true, false, Option, none, some, Text, Map, insert, if◌then◌else◌, [], ◌&&◌,
}
use server_glass.Base.Int.{ℤ, pos}
use server_glass.Base.Float.{FloatOps}
use server_glass.Model.Ids.{EntityId, SeriesId, SourceId, series_of}
use server_glass.Model.Measure.{MeasureUnit, dimensionless, per_second, natural_max}

pub data SeriesKind : Type 0 where
  gauge_kind counter_kind state_kind info_kind : SeriesKind

abbrev pub is_counter : SeriesKind → Bool
is_counter counter_kind = true
is_counter _ = false

pub data Value (F : Type 0) : Type 0 where
  float : F → Value F
  int : ℤ → Value F
  uint : ℕ → Value F
  bool : Bool → Value F
  text : Text → Value F

pub record SeriesDescriptor (F : Type 0) : Type 0 where
  pub id : SeriesId
  pub source : SourceId
  pub entity : EntityId
  pub metric : Text
  pub display : Text
  pub measure : MeasureUnit
  pub kind : SeriesKind
  pub max : Option F
  pub scale : F
  pub labels : Map Text

-- `Value::as_counter`: a negative integer is not a counter reading.
unfoldable pub as_counter : {F : Type 0} → Value F → Option ℕ
as_counter (uint v) = some v
as_counter (int (pos v)) = some v
as_counter _ = none

module _ {F : Type 0} ⦃fl : FloatOps F⦄ where
  -- `Value::as_f64`
  unfoldable pub as_f64 : Value F → Option F
  as_f64 (float v) = some v
  as_f64 (int v) = some (fl.of_int v)
  as_f64 (uint v) = some (fl.of_nat v)
  as_f64 (bool b) = some (if b then fl.of_nat 1 else fl.of_nat 0)
  as_f64 (text s) = none

  unfoldable pub gauge : SourceId → EntityId → Text → Text → MeasureUnit → SeriesDescriptor F
  gauge source entity metric display measure = record {
    id = series_of entity metric;
    source = source;
    entity = entity;
    metric = metric;
    display = display;
    measure = measure;
    kind = gauge_kind;
    max = none;
    scale = fl.of_nat 1;
    labels = [];
  }

  unfoldable pub counter : SourceId → EntityId → Text → Text → MeasureUnit → SeriesDescriptor F
  unfolding gauge
  counter source entity metric display measure =
      record (gauge source entity metric display measure) { kind = counter_kind }

  unfoldable pub info : SourceId → EntityId → Text → Text → SeriesDescriptor F
  unfolding gauge
  info source entity metric display = record (gauge source entity metric display dimensionless) {
    kind = info_kind;
  }

  -- `SeriesDescriptor::effective_unit`: a counter with no scale of its own reaches the screen as a
  -- rate of its unit.
  unfoldable pub effective_unit : SeriesDescriptor F → MeasureUnit
  effective_unit d =
      if is_counter d.kind && fl.eq d.scale (fl.of_nat 1) then per_second d.measure else d.measure

  unfoldable pub display_max : SeriesDescriptor F → Option F
  display_max d = elim d.max [ some m ↦ some m | none ↦ natural_max d.measure ]

unfoldable pub with_max : {F : Type 0} → F → SeriesDescriptor F → SeriesDescriptor F
with_max m d = record d { max = some m }

unfoldable pub with_scale : {F : Type 0} → F → SeriesDescriptor F → SeriesDescriptor F
with_scale k d = record d { scale = k }

unfoldable pub with_label : {F : Type 0} → Text → Text → SeriesDescriptor F → SeriesDescriptor F
with_label k v d = record d { labels = insert k v d.labels }
