-- ===== src/Collect/Sound/Sinks.antt =====
-- crates/sg-collect/src/lib.rs: what every built-in source leaves in the sink of a refresh.
use server_glass.Base.{
  ◌≡◌, refl, sym, ap, true, none, some, List, [], ◌∷◌, ◌++◌, All, map, append_assoc, append-nil,
  any, text_eq_refl, arith,
}
use server_glass.Base.Int.{ℤ}
use server_glass.Base.Float.{FloatOps}
use server_glass.Model.Ids.{SourceId, EntityId, series_of}
use server_glass.Model.Caps.{contains}
use server_glass.Model.Entity.{Entity}
use server_glass.Model.Request.{Responses}
use server_glass.Model.Series.{SeriesDescriptor}
use server_glass.Model.Sample.{Sample, SampleSink, new_sink, emit, add_entity}
use server_glass.Model.Source.{Source, TargetCtx}
use server_glass.Collect.Writes.{Write, emitted, declared, perform}
use server_glass.Collect.Sound.{IsOwnWrite, Own, declared_ids, Covers}
use server_glass.Collect.Sound.Host.{
  load_writes-Own, pressure_writes-Own, memory_writes-Own, tcp_writes-Own,
}
use server_glass.Collect.Sound.Devices.{
  cpu_writes-Own, network_writes-Own, disk_io_writes-Own, filesystem_writes-Own, process_writes-Own,
  cgroup_writes-Own, sensors_writes-Own,
}
use server_glass.Collect.Builtin.{builtin_sources}

-- A sink that a source filled: each sample in its order has the id of the series described at the
-- same place and the sink's time; each series is the source's, with an id made of its metric and of
-- its entity, which is the host or one that the source wrote; each of those is a child of the host.
pub record IsSoundSink {F : Type 0} (source : SourceId) (host : Entity) (at_ms : ℤ)
    (sink : SampleSink F) : Type 0 where
  pub described : map (λ s. s.series) sink.samples ≡ map (λ d. d.id) sink.descriptors
  pub stamped : All (λ s. s.at_ms ≡ at_ms) sink.samples
  pub fitting :
      All
        (λ d.
          (d.id ≡ series_of d.entity d.metric)
          × (d.source ≡ source)
          × (contains (host.id ∷ map (λ e. e.id) sink.entities) d.entity ≡ true))
        sink.descriptors
  pub children : All (λ e. e.parent ≡ some host.id) sink.entities

module _ {F : Type 0} where
  abbrev entities_of : List (Write F) → List Entity
  entities_of [] = []
  entities_of (emitted d v ∷ ws) = entities_of ws
  entities_of (declared e ∷ ws) = e ∷ entities_of ws

  abbrev descriptors_of : List (Write F) → List (SeriesDescriptor F)
  descriptors_of [] = []
  descriptors_of (emitted d v ∷ ws) = d ∷ descriptors_of ws
  descriptors_of (declared e ∷ ws) = descriptors_of ws

  abbrev samples_of : ℤ → List (Write F) → List (Sample F)
  samples_of t [] = []
  samples_of t (emitted d v ∷ ws) = record { series = d.id; at_ms = t; value = v } ∷ samples_of t ws
  samples_of t (declared e ∷ ws) = samples_of t ws

  perform-append :
      (ws : List (Write F)) (s : SampleSink F)
      → perform ws s ≡ record {
        entities = s.entities ++ entities_of ws;
        descriptors = s.descriptors ++ descriptors_of ws;
        samples = s.samples ++ samples_of s.at_ms ws;
        at_ms = s.at_ms;
      }
  unfolding perform
  perform-append [] s = simp append-nil
  perform-append (emitted d v ∷ ws) s = simp append_assoc at (perform-append ws (emit s d v))
  perform-append (declared e ∷ ws) s = simp append_assoc at (perform-append ws (add_entity s e))

  Covers-cons :
      (j : EntityId) (ids : List EntityId) (ws : List (Write F))
      → Covers ids ws
      → Covers (j ∷ ids) ws
  Covers-cons j ids [] c = tt
  Covers-cons j ids (emitted d v ∷ ws) c = Covers-cons j ids ws c
  Covers-cons j ids (declared e ∷ ws) (h, c) =
      (unfold any in ground (arith, h), Covers-cons j ids ws c)

  Covers-declared : (ws : List (Write F)) → Covers (declared_ids ws) ws
  Covers-declared [] = tt
  Covers-declared (emitted d v ∷ ws) = Covers-declared ws
  Covers-declared (declared e ∷ ws) = (
    unfold any in ground (arith, text_eq_refl e.id),
    Covers-cons e.id (declared_ids ws) ws (Covers-declared ws),
  )

  declared_ids-map : (ws : List (Write F)) → declared_ids ws ≡ map (λ e. e.id) (entities_of ws)
  declared_ids-map [] = refl
  declared_ids-map (emitted d v ∷ ws) = declared_ids-map ws
  declared_ids-map (declared e ∷ ws) = ap (λ x. e.id ∷ x) (declared_ids-map ws)

  samples_of-described :
      (t : ℤ) (ws : List (Write F))
      → map (λ s. s.series) (samples_of t ws) ≡ map (λ d. d.id) (descriptors_of ws)
  samples_of-described t [] = refl
  samples_of-described t (emitted d v ∷ ws) = ap (λ x. d.id ∷ x) (samples_of-described t ws)
  samples_of-described t (declared e ∷ ws) = samples_of-described t ws

  samples_of-stamped : (t : ℤ) (ws : List (Write F)) → All (λ s. s.at_ms ≡ t) (samples_of t ws)
  samples_of-stamped t [] = tt
  samples_of-stamped t (emitted d v ∷ ws) = (refl, samples_of-stamped t ws)
  samples_of-stamped t (declared e ∷ ws) = samples_of-stamped t ws

module _ {F : Type 0} (source : SourceId) (host : Entity) (ids : List EntityId) where
  own-descriptors :
      (ws : List (Write F))
      → All (IsOwnWrite source host ids) ws
      → All
          (λ d.
            (d.id ≡ series_of d.entity d.metric)
            × (d.source ≡ source)
            × (contains ids d.entity ≡ true))
          (descriptors_of ws)
  own-descriptors [] o = tt
  own-descriptors (emitted d v ∷ ws) (o, os) = (o, own-descriptors ws os)
  own-descriptors (declared e ∷ ws) (o, os) = own-descriptors ws os

  own-entities :
      (ws : List (Write F))
      → All (IsOwnWrite source host ids) ws
      → All (λ e. e.parent ≡ some host.id) (entities_of ws)
  own-entities [] o = tt
  own-entities (emitted d v ∷ ws) (o, os) = own-entities ws os
  own-entities (declared e ∷ ws) (o, os) = (o, own-entities ws os)

perform-IsSoundSink :
    {F : Type 0} (source : SourceId) (host : Entity) (t : ℤ) (ws : List (Write F))
    → Own source host ws
    → IsSoundSink source host t (perform ws (new_sink t))
unfolding new_sink
perform-IsSoundSink source host t ws o =
    let ids = host.id ∷ declared_ids ws in
    let own =
      o.within ids (unfold any in ground (arith, text_eq_refl host.id))
        (Covers-cons host.id (declared_ids ws) ws (Covers-declared ws)) in
    rw (perform-append ws (new_sink t)) (record {
      described = samples_of-described t ws;
      stamped = samples_of-stamped t ws;
      fitting = rw (sym (declared_ids-map ws)) (own-descriptors source host ids ws own);
      children = own-entities source host ids ws own;
    })

-- The source reports no error on the responses, and what it leaves in a new sink is sound.
abbrev pub ParsesSoundly : {F : Type 0} → TargetCtx → Responses → ℤ → Source F → Type 0
ParsesSoundly ctx rs t s =
    ((s.parse ctx rs (new_sink t)).0 ≡ none)
    × IsSoundSink s.descriptor.id ctx.host t (s.parse ctx rs (new_sink t)).1

-- On every host and all responses, however incomplete or malformed, each built-in source reports no
-- error, and in a new sink it leaves one sample for each series it describes, in the same order and
-- with the sink's time; the series are its own, of the host or of entities it wrote, and those are
-- children of the host.
pub builtin_sources-ParsesSoundly :
    (F : Type 0) ⦃fl : FloatOps F⦄ (ctx : TargetCtx) (rs : Responses) (t : ℤ)
    → All (ParsesSoundly ctx rs t) (builtin_sources {F = F})
unfolding builtin_sources
builtin_sources-ParsesSoundly F ctx rs t = (
  (refl, perform-IsSoundSink _ ctx.host t _ (cpu_writes-Own ctx rs)),
  (
    (refl, perform-IsSoundSink _ ctx.host t _ (memory_writes-Own ctx rs)),
    (
      (refl, perform-IsSoundSink _ ctx.host t _ (load_writes-Own ctx rs)),
      (
        (refl, perform-IsSoundSink _ ctx.host t _ (filesystem_writes-Own ctx rs)),
        (
          (refl, perform-IsSoundSink _ ctx.host t _ (disk_io_writes-Own ctx rs)),
          (
            (refl, perform-IsSoundSink _ ctx.host t _ (network_writes-Own ctx rs)),
            (
              (refl, perform-IsSoundSink _ ctx.host t _ (tcp_writes-Own ctx rs)),
              (
                (refl, perform-IsSoundSink _ ctx.host t _ (pressure_writes-Own ctx rs)),
                (
                  (refl, perform-IsSoundSink _ ctx.host t _ (sensors_writes-Own ctx rs)),
                  (
                    (refl, perform-IsSoundSink _ ctx.host t _ (cgroup_writes-Own ctx rs)),
                    ((refl, perform-IsSoundSink _ ctx.host t _ (process_writes-Own ctx rs)), tt),
                  ),
                ),
              ),
            ),
          ),
        ),
      ),
    ),
  ),
)
