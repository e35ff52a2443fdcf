-- ===== src/Collect/Sound/Ticks.antt =====
-- crates/sg-core/src/collector.rs with crates/sg-collect/src/lib.rs: a refresh of the built-in
-- sources.
use server_glass.Base.{
  ◌≡◌, refl, sym, ◌∙◌, true, Bool, ◌||◌, List, [], ◌∷◌, ◌++◌, All, All-append, map, any, arith,
  text_eq, text_eq_iff, Text, filter, Bool-cases, inl, inr,
}
use server_glass.Base.Int.{ℤ}
use server_glass.Base.Float.{FloatOps}
use server_glass.Model.Ids.{EntityId, series_of}
use server_glass.Model.Caps.{contains, satisfied_by}
use server_glass.Model.Entity.{Entity}
use server_glass.Model.Request.{Responses}
use server_glass.Model.Series.{SeriesDescriptor}
use server_glass.Model.Sample.{SampleSink, new_sink, absorb}
use server_glass.Model.Source.{Source, TargetCtx}
use server_glass.Core.Collector.{
  Collector, collect, collect_loop, applicable, dedup_entities, entity_ids, is_enabled,
}
use server_glass.Core.Collector.Entities.{dedup_entities-IsDistinct, any-map}
use server_glass.Collect.Builtin.{builtin_sources}
use server_glass.Collect.Sound.Sinks.{ParsesSoundly, IsSoundSink, builtin_sources-ParsesSoundly}

-- The id of the series is that of its entity and metric, and its entity is one of `ids`.
abbrev pub IsPlaced : {F : Type 0} → List EntityId → SeriesDescriptor F → Type 0
IsPlaced ids d = (d.id ≡ series_of d.entity d.metric) × (contains ids d.entity ≡ true)

abbrev ids_of : List Entity → List EntityId
ids_of es = map (λ e. e.id) es

contains-any : (k : Text) (xs : List Text) → contains xs k ≡ any (text_eq k) xs
unfolding any
contains-any k [] = refl
contains-any k (x ∷ xs) = ground (arith, text_eq_iff x k, text_eq_iff k x, contains-any k xs)

contains-dedup_entities :
    (k : Text) (es : List Entity) → contains (ids_of (dedup_entities es)) k ≡ contains (ids_of es) k
contains-dedup_entities k es =
    contains-any k (ids_of (dedup_entities es))
    ∙ any-map k (dedup_entities es)
    ∙ (dedup_entities-IsDistinct es).1 k
    ∙ sym (any-map k es)
    ∙ sym (contains-any k (ids_of es))

contains-ids_append :
    (k : Text) (es fs : List Entity)
    → contains (ids_of (es ++ fs)) k ≡ (contains (ids_of es) k || contains (ids_of fs) k)
unfolding any
contains-ids_append k [] fs = refl
contains-ids_append k (e ∷ es) fs = ground (arith, contains-ids_append k es fs)

contains-cons : (k x : Text) (xs : List Text) → contains (x ∷ xs) k ≡ (text_eq x k || contains xs k)
unfolding any
contains-cons k x xs = refl

contains-merged :
    (host : EntityId) (es : List Entity) (k : EntityId)
    → contains (host ∷ ids_of es) k ≡ true
    → contains (host ∷ ids_of (dedup_entities es)) k ≡ true
contains-merged host es k h = ground (
  arith,
  h,
  contains-cons k host (ids_of es),
  contains-cons k host (ids_of (dedup_entities es)),
  contains-dedup_entities k es,
)

module _ {F : Type 0} where
  All-filter :
      (P : Source F → Type 0) (p : Source F → Bool) (ss : List (Source F))
      → All P ss
      → All P (filter p ss)
  unfolding filter
  All-filter P p [] h = tt
  All-filter P p (s ∷ ss) (h, hs) = elim (Bool-cases (p s)) [
    | inl e ↦ rw (e, filter) (h, All-filter P p ss hs)
    | inr n ↦ rw (n, filter) (All-filter P p ss hs)
  ]

  -- More ids.
  IsPlaced-weaken :
      (ids more : List EntityId) (ds : List (SeriesDescriptor F))
      → ((k : EntityId) → contains ids k ≡ true → contains more k ≡ true)
      → All (IsPlaced ids) ds
      → All (IsPlaced more) ds
  IsPlaced-weaken ids more [] k h = tt
  IsPlaced-weaken ids more (d ∷ ds) k ((i, c), h) =
      ((i, k d.entity c), IsPlaced-weaken ids more ds k h)

  -- What a sound sink describes is placed among the host and its own entities.
  fitting-IsPlaced :
      (host : Entity) (source : EntityId) (es : List Entity) (ds : List (SeriesDescriptor F))
      (more : List EntityId)
      → ((k : EntityId) → contains (host.id ∷ ids_of es) k ≡ true → contains more k ≡ true)
      → All
          (λ d.
            (d.id ≡ series_of d.entity d.metric)
            × (d.source ≡ source)
            × (contains (host.id ∷ ids_of es) d.entity ≡ true))
          ds
      → All (IsPlaced more) ds
  fitting-IsPlaced host source es [] more k h = tt
  fitting-IsPlaced host source es (d ∷ ds) more k ((i, s, c), h) =
      ((i, k d.entity c), fitting-IsPlaced host source es ds more k h)

  absorb-IsPlaced :
      (source : EntityId) (host : Entity) (t : ℤ) (sink per_source : SampleSink F)
      → IsSoundSink source host t per_source
      → All (IsPlaced (host.id ∷ ids_of sink.entities)) sink.descriptors
      → All
          (IsPlaced (host.id ∷ ids_of (absorb sink per_source).entities))
          (absorb sink per_source).descriptors
  unfolding absorb
  absorb-IsPlaced source host t sink p sound h =
      let more = host.id ∷ ids_of (sink.entities ++ p.entities) in
      All-append (IsPlaced more) sink.descriptors p.descriptors
        (IsPlaced-weaken (host.id ∷ ids_of sink.entities) more sink.descriptors
          (λ k c. ground (
            arith,
            contains-cons k host.id (ids_of sink.entities),
            contains-cons k host.id (ids_of (sink.entities ++ p.entities)),
            contains-ids_append k sink.entities p.entities,
            c,
          ))
          h)
        (fitting-IsPlaced host source p.entities p.descriptors more
          (λ k c. ground (
            arith,
            contains-cons k host.id (ids_of p.entities),
            contains-cons k host.id (ids_of (sink.entities ++ p.entities)),
            contains-ids_append k sink.entities p.entities,
            c,
          ))
          sound.fitting)

  collect_loop-IsPlaced :
      (ctx : TargetCtx) (rs : Responses) (t : ℤ) (ss : List (Source F)) (sink : SampleSink F)
      → All (ParsesSoundly ctx rs t) ss
      → All (IsPlaced (ctx.host.id ∷ ids_of sink.entities)) sink.descriptors
      → ((collect_loop ctx rs t ss (sink, [])).1 ≡ [])
        × All
            (IsPlaced (ctx.host.id ∷ ids_of (collect_loop ctx rs t ss (sink, [])).0.entities))
            (collect_loop ctx rs t ss (sink, [])).0.descriptors
  unfolding collect_loop
  collect_loop-IsPlaced ctx rs t [] sink a h = (refl, h)
  collect_loop-IsPlaced ctx rs t (s ∷ ss) sink ((e, sound), a) h =
      let per_source = (s.parse ctx rs (new_sink t)).1 in
      rw (e, collect_loop)
        (collect_loop-IsPlaced ctx rs t ss (absorb sink per_source) a
          (absorb-IsPlaced s.descriptor.id ctx.host t sink per_source sound h))

-- A refresh of the built-in sources, whichever of them are switched on, reports no error; the id of
-- each series it shows is made of its entity and metric, and its entity is the host or one of the
-- entities it shows.
pub collect-builtin :
    {F : Type 0} ⦃fl : FloatOps F⦄ (c : Collector F) (ctx : TargetCtx) (rs : Responses) (t : ℤ)
    → c.sources ≡ builtin_sources
    → ((collect c ctx rs t).1.errors ≡ [])
      × All
          (IsPlaced (ctx.host.id ∷ entity_ids (collect c ctx rs t).1))
          (collect c ctx rs t).1.descriptors
unfolding collect applicable entity_ids new_sink
collect-builtin {F = F} c ctx rs t e =
    let all : All (ParsesSoundly ctx rs t) c.sources =
      rw e (builtin_sources-ParsesSoundly F ctx rs t) in
    let parse =
      All-filter (ParsesSoundly ctx rs t) (λ s. satisfied_by s.descriptor.requires ctx.caps)
        (filter (λ s. is_enabled c s.descriptor.id) c.sources)
        (All-filter (ParsesSoundly ctx rs t) (λ s. is_enabled c s.descriptor.id) c.sources all) in
    let (no_errors, placed) =
      collect_loop-IsPlaced ctx rs t (applicable c ctx.caps) (new_sink t) parse tt in
    let es = (collect_loop ctx rs t (applicable c ctx.caps) (new_sink t, [])).0.entities in
    (no_errors, IsPlaced-weaken _ _ _ (contains-merged ctx.host.id es) placed)
