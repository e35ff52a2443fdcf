-- ===== src/Core/Collector.antt =====
-- crates/sg-core/src/collector.rs: the merged requests of a refresh, and the tick made of the
-- responses.
pub mod Merging
pub mod Isolation
pub mod Entities
use server_glass.Base.{
  ℕ, Bool, true, false, not, Option, none, some, Text, Map, get, insert, List, [], ◌∷◌, ◌++◌,
  text_eq, any, filter, map, remove, if◌then◌else◌,
}
use server_glass.Base.Int.{ℤ}
use server_glass.Base.Float.{FloatOps}
use server_glass.Model.Ids.{SourceId, EntityId}
use server_glass.Model.Entity.{Entity}
use server_glass.Model.Series.{SeriesDescriptor}
use server_glass.Model.Request.{Request, Responses, request_id}
use server_glass.Model.Caps.{Capabilities, contains, satisfied_by}
use server_glass.Model.Sample.{Sample, SampleSink, new_sink, absorb}
use server_glass.Model.Source.{Source, TargetCtx, ParseError}
use server_glass.Core.Rate.{RateEngine, new_engine, reset, process}

pub record Tick (F : Type 0) : Type 0 where
  pub entities : List Entity
  pub descriptors : List (SeriesDescriptor F)
  pub samples : List (Sample F)
  pub errors : List ParseError

-- The set of disabled sources is a list without a fixed order.
pub record Collector (F : Type 0) : Type 0 where
  pub sources : List (Source F)
  pub disabled : List SourceId
  pub rate : RateEngine

-- `Tick::entity_ids`
unfoldable pub entity_ids : {F : Type 0} → Tick F → List EntityId
entity_ids tick = map (λ e. e.id) tick.entities

-- `HashSet::insert`
abbrev pub insert_id : Text → List Text → List Text
insert_id id ids = if contains ids id then ids else id ∷ ids

module _ {F : Type 0} where
  unfoldable pub disabled_ids : List (Source F) → List SourceId
  disabled_ids [] = []
  disabled_ids (s ∷ ss) =
      let rest = disabled_ids ss in
      if s.descriptor.default_enabled then rest else insert_id s.descriptor.id rest

  -- `Collector::new`
  unfoldable pub new_collector : List (Source F) → Collector F
  unfolding disabled_ids new_engine
  new_collector sources = record {
    sources = sources;
    disabled = disabled_ids sources;
    rate = new_engine;
  }

  -- `Collector::set_enabled`
  unfoldable pub set_enabled : Collector F → SourceId → Bool → Collector F
  set_enabled c source true = record c {
    disabled = filter (λ id. not (text_eq id source)) c.disabled;
  }
  set_enabled c source false = record c { disabled = insert_id source c.disabled }

  -- `Collector::is_enabled`
  unfoldable pub is_enabled : Collector F → SourceId → Bool
  is_enabled c source = not (contains c.disabled source)

  -- `Collector::applicable`
  unfoldable pub applicable : Collector F → Capabilities → List (Source F)
  unfolding is_enabled satisfied_by
  applicable c caps =
      filter (λ s. satisfied_by s.descriptor.requires caps)
        (filter (λ s. is_enabled c s.descriptor.id) c.sources)

-- The inner loop of `Collector::requests`: the ids that were seen and the merged requests.
unfoldable pub merge_requests : List Request → List Text × List Request → List Text × List Request
merge_requests [] acc = acc
merge_requests (r ∷ rs) acc =
    if any (text_eq (request_id r)) acc.0
    then merge_requests rs acc
    else merge_requests rs (acc.0 ++ request_id r ∷ [], acc.1 ++ r ∷ [])

module _ {F : Type 0} where
  unfoldable pub merge_sources :
      TargetCtx → List (Source F) → List Text × List Request → List Text × List Request
  unfolding merge_requests
  merge_sources ctx [] acc = acc
  merge_sources ctx (s ∷ ss) acc = merge_sources ctx ss (merge_requests (s.requests ctx) acc)

  -- `Collector::requests`
  unfoldable pub requests : Collector F → TargetCtx → List Request
  unfolding merge_sources applicable
  requests c ctx = (merge_sources ctx (applicable c ctx.caps) ([], [])).1

  -- The arms of the match on a source's result.
  unfoldable pub collected :
      Option ParseError × SampleSink F
      → SampleSink F × List ParseError
      → SampleSink F × List ParseError
  unfolding absorb
  collected (none, per_source) (sink, errors) = (absorb sink per_source, errors)
  collected (some error, per_source) (sink, errors) = (sink, errors ++ error ∷ [])

  -- The loop of `Collector::collect` over the sources that are switched on and supported.
  unfoldable pub collect_loop :
      TargetCtx
      → Responses
      → ℤ
      → List (Source F)
      → SampleSink F × List ParseError
      → SampleSink F × List ParseError
  unfolding collected new_sink
  collect_loop ctx rs at_ms [] acc = acc
  collect_loop ctx rs at_ms (s ∷ ss) acc =
      collect_loop ctx rs at_ms ss (collected (s.parse ctx rs (new_sink at_ms)) acc)

-- `existing.labels.extend(labels)`
unfoldable pub extend_labels : Map Text → Map Text → Map Text
extend_labels [] labels = labels
extend_labels ((k, v) ∷ more) labels = extend_labels more (insert k v labels)

-- The arms of the match on the entity that is held for an id.
unfoldable pub merge_entity :
    Entity → Option Entity → Map Entity × List EntityId → Map Entity × List EntityId
unfolding extend_labels
merge_entity e none (merged, order) = (insert e.id e merged, order ++ e.id ∷ [])
merge_entity e (some existing) (merged, order) = (
  insert e.id (record existing { labels = extend_labels e.labels existing.labels }) merged,
  order,
)

unfoldable pub merge_entities :
    List Entity → Map Entity × List EntityId → Map Entity × List EntityId
unfolding merge_entity
merge_entities [] acc = acc
merge_entities (e ∷ es) acc = merge_entities es (merge_entity e (get e.id acc.0) acc)

-- `order.into_iter().filter_map(|id| merged.remove(&id))`; no id stands twice in `order`.
unfoldable pub take_entities : List EntityId → Map Entity → List Entity
take_entities [] merged = []
take_entities (id ∷ ids) merged = elim (get id merged) [
  | none ↦ take_entities ids (remove id merged)
  | some e ↦ e ∷ take_entities ids (remove id merged)
]

unfoldable pub dedup_entities : List Entity → List Entity
unfolding merge_entities take_entities
dedup_entities es = let (merged, order) = merge_entities es ([], []) in take_entities order merged

module _ {F : Type 0} ⦃fl : FloatOps F⦄ where
  -- `Collector::collect`
  unfoldable pub collect : Collector F → TargetCtx → Responses → ℤ → Collector F × Tick F
  unfolding collect_loop applicable dedup_entities process
  collect c ctx rs at_ms =
      let (sink, errors) = collect_loop ctx rs at_ms (applicable c ctx.caps) (new_sink at_ms, []) in
      let (rate, samples) = process c.rate sink.descriptors sink.samples in
      (
        record c { rate = rate },
        record {
          entities = dedup_entities sink.entities;
          descriptors = sink.descriptors;
          samples = samples;
          errors = errors;
        },
      )

-- `Collector::reset_rates`
unfoldable pub reset_rates : {F : Type 0} → Collector F → Collector F
unfolding reset
reset_rates c = record c { rate = reset c.rate }
