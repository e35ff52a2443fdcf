-- ===== src/Ffi/Tiles.antt =====
-- crates/sg-ffi/src/view.rs: the entities of a host and the tiles of the simple view.
use server_glass.Base.{
  ◌&&◌, Option, none, some, List, [], ◌∷◌, Text, codes, text_eq, find, filter_map, if◌then◌else◌,
  ◌>>=◌,
}
use server_glass.Base.Float.{FloatOps}
use server_glass.Model.Entity.{Entity, slug}
use server_glass.Core.Store.{LiveStore}
use server_glass.Core.Store.Views.{series_for}
use server_glass.Ffi.View.{MetricGauge, gauge_from, positive, clamp}
use server_glass.Ffi.Format.{format_value}
use server_glass.Ffi.Plain.{plain_name, value_of}
use server_glass.Ffi.Assess.{plain_summary}

pub record EntityView (F : Type 0) : Type 0 where
  pub id : Text
  pub kind : Text
  pub display : Text
  pub parent : Option Text
  pub gauges : List (MetricGauge F)

pub record SimpleTile (F : Type 0) : Type 0 where
  pub metric : Text
  pub name : Text
  pub value_text : Text
  pub summary : Text
  pub fraction : Option F
  pub level : Text
  pub history : List F

-- The local `ORDER`.
abbrev pub tile_order : List Text
tile_order = codes "cpu_usage" ∷ codes "mem_usage" ∷ codes "disk_usage" ∷ []

module _ {F : Type 0} ⦃fl : FloatOps F⦄ where
  unfoldable pub entity_view : Entity → LiveStore F → EntityView F
  unfolding series_for filter_map gauge_from slug
  entity_view e store = record {
    id = e.id;
    kind = slug e.kind;
    display = e.display;
    parent = e.parent;
    gauges = filter_map (gauge_from store) (series_for store e.id);
  }

  -- `MetricGauge::fraction_percent` and `MetricGauge::display_fraction`
  unfoldable pub fraction_percent : MetricGauge F → Option F
  fraction_percent g = do m ← positive g.max; some (fl.mul (fl.div g.value m) (fl.of_nat 100))

  unfoldable pub display_fraction : MetricGauge F → Option F
  unfolding fraction_percent
  display_fraction g = do
    p ← fraction_percent g
    some (clamp (fl.div p (fl.of_nat 100)) (fl.of_nat 0) (fl.of_nat 1))

  -- The match on the percentage.
  unfoldable pub tile_level : Option F → Text
  tile_level none = codes "ok"
  tile_level (some p) =
      if fl.le (fl.of_nat 90) p
      then codes "problem"
      else if fl.le (fl.of_nat 80) p
      then codes "busy"
      else codes "ok"

  -- The local `root`: the sizes of the root filesystem's entity.
  unfoldable pub root_sizes : List (EntityView F) → Option F × Option F
  unfolding find value_of
  root_sizes entities =
      elim (find (λ e. text_eq e.kind (codes "fs") && text_eq e.display (codes "/")) entities) [
        | none ↦ (none, none)
        | some fs ↦ (value_of fs.gauges (codes "used"), value_of fs.gauges (codes "total"))
      ]

  -- The sizes that belong to a tile.
  unfoldable pub tile_sizes :
      List (MetricGauge F) → List (EntityView F) → Text → Option F × Option F
  unfolding root_sizes value_of text_eq
  tile_sizes all entities metric =
      if text_eq metric (codes "mem_usage")
      then (value_of all (codes "mem_used"), value_of all (codes "mem_total"))
      else if text_eq metric (codes "disk_usage")
      then root_sizes entities
      else (none, none)

  unfoldable pub tile_for :
      List (MetricGauge F)
      → List (MetricGauge F)
      → List (EntityView F)
      → Text
      → Option (SimpleTile F)
  unfolding find plain_name tile_sizes format_value tile_level plain_summary display_fraction
  tile_for headline all entities metric = do
    gauge ← find (λ g. text_eq g.metric metric) headline
    name ← plain_name metric
    let sizes = tile_sizes all entities metric
    some (record {
      metric = metric;
      name = name;
      value_text = format_value gauge.value gauge.unit_suffix gauge.binary_scaled;
      summary = plain_summary gauge (sizes.0) (sizes.1);
      fraction = display_fraction gauge;
      level = tile_level (fraction_percent gauge);
      history = gauge.history;
    })

  -- `simple_tiles`
  unfoldable pub simple_tiles :
      List (MetricGauge F) → List (MetricGauge F) → List (EntityView F) → List (SimpleTile F)
  unfolding tile_for filter_map
  simple_tiles headline all entities = filter_map (tile_for headline all entities) tile_order
