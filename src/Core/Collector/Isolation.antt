-- ===== src/Core/Collector/Isolation.antt =====
-- crates/sg-core/src/collector.rs: a refresh in which the parsers of some sources fail.
use server_glass.Base.{
  ℕ, ap, ◌∙◌, ◌+◌, ◌≡◌, refl, inl, inr, Bool, not, is_some, List, [], ◌∷◌, ◌++◌, arith, filter,
  length, length-append, Option-cases,
}
use server_glass.Base.Int.{ℤ}
use server_glass.Model.Request.{Responses}
use server_glass.Model.Sample.{SampleSink, new_sink, absorb}
use server_glass.Model.Caps.{satisfied_by}
use server_glass.Base.Float.{FloatOps}
use server_glass.Core.Rate.{process}
use server_glass.Model.Source.{Source, TargetCtx, ParseError}
use server_glass.Core.Collector.{
  collect_loop, collected, Collector, Tick, applicable, is_enabled, collect, dedup_entities,
}

module _ {F : Type 0} where
  -- The source reports an error on these responses.
  abbrev pub fails : TargetCtx → Responses → ℤ → Source F → Bool
  fails ctx rs at_ms s = is_some (s.parse ctx rs (new_sink at_ms)).0

  abbrev pub sound : TargetCtx → Responses → ℤ → Source F → Bool
  sound ctx rs at_ms s = not (fails ctx rs at_ms s)

  filter_comm :
      (p q : Source F → Bool) (ss : List (Source F))
      → filter p (filter q ss) ≡ filter q (filter p ss)
  unfolding filter
  filter_comm p q [] = refl
  filter_comm p q (s ∷ ss) = ground (arith, filter_comm p q ss)

  -- Failing sources leave the sink alone, and each leaves one error.
  collect_loop-sound :
      (ctx : TargetCtx) (rs : Responses) (at_ms : ℤ) (ss : List (Source F)) (sink : SampleSink F)
      (errors errors' : List ParseError)
      → ((collect_loop ctx rs at_ms ss (sink, errors)).0
          ≡ (collect_loop ctx rs at_ms (filter (sound ctx rs at_ms) ss) (sink, errors')).0)
        × ((collect_loop ctx rs at_ms (filter (sound ctx rs at_ms) ss) (sink, errors')).1 ≡ errors')
        × (length (collect_loop ctx rs at_ms ss (sink, errors)).1
            ≡ length errors + length (filter (fails ctx rs at_ms) ss))
  unfolding collect_loop collected filter
  collect_loop-sound ctx rs at_ms [] sink errors errors' = (refl, refl, omega arith)
  collect_loop-sound ctx rs at_ms (s ∷ ss) sink errors errors' =
      let per_source = (s.parse ctx rs (new_sink at_ms)).1 in
      elim (Option-cases (s.parse ctx rs (new_sink at_ms)).0) [
        | inl e ↦
            rw (e, filter, collect_loop, collected, e, collected)
              (collect_loop-sound ctx rs at_ms ss (absorb sink per_source) errors errors')
        | inr (error, e) ↦
            let r = collect_loop-sound ctx rs at_ms ss sink (errors ++ error ∷ []) errors' in
            rw (e, collected, collect_loop, filter)
              (r.0, r.1, omega (arith, r.2, length-append errors (error ∷ [])))
      ]

-- What two refreshes share, and the number of errors of the first.
pub record Isolates {F : Type 0} (all_sources good : Collector F × Tick F) (failures : ℕ)
    : Type 0 where
  pub entities : all_sources.1.entities ≡ good.1.entities
  pub descriptors : all_sources.1.descriptors ≡ good.1.descriptors
  pub samples : all_sources.1.samples ≡ good.1.samples
  pub baselines : all_sources.0.rate ≡ good.0.rate
  pub no_errors : good.1.errors ≡ []
  pub errors : length all_sources.1.errors ≡ failures

-- The collector without the sources that fail on these responses.
abbrev pub without_failing : {F : Type 0} → Collector F → TargetCtx → Responses → ℤ → Collector F
without_failing c ctx rs at_ms = record c { sources = filter (sound ctx rs at_ms) c.sources }

module _ {F : Type 0} ⦃fl : FloatOps F⦄ where
  applicable-without_failing :
      (c : Collector F) (ctx : TargetCtx) (rs : Responses) (at_ms : ℤ)
      → applicable (without_failing c ctx rs at_ms) ctx.caps
        ≡ filter (sound ctx rs at_ms) (applicable c ctx.caps)
  unfolding applicable is_enabled
  applicable-without_failing c ctx rs at_ms =
      let sat = λ (s : Source F). satisfied_by s.descriptor.requires ctx.caps in
      let on = λ (s : Source F). is_enabled c s.descriptor.id in
      ap (filter sat) (filter_comm on (sound ctx rs at_ms) c.sources)
      ∙ filter_comm sat (sound ctx rs at_ms) (filter on c.sources)

  -- What a refresh yields does not change when the failing sources are taken out: the same entities,
  -- descriptors, samples and baselines. Without them there is no error, and with them there is one
  -- for each that is switched on and supported.
  pub collect-Isolates :
      (c : Collector F) (ctx : TargetCtx) (rs : Responses) (at_ms : ℤ)
      → Isolates
          (collect c ctx rs at_ms)
          (collect (without_failing c ctx rs at_ms) ctx rs at_ms)
          (length (filter (fails ctx rs at_ms) (applicable c ctx.caps)))
  unfolding collect
  collect-Isolates c ctx rs at_ms =
      let r = collect_loop-sound ctx rs at_ms (applicable c ctx.caps) (new_sink at_ms) [] [] in
      rw (applicable-without_failing c ctx rs at_ms) (record {
        entities = ap (λ k. dedup_entities k.entities) r.0;
        descriptors = ap (λ k. k.descriptors) r.0;
        samples = ap (λ k. (process c.rate k.descriptors k.samples).1) r.0;
        baselines = ap (λ k. (process c.rate k.descriptors k.samples).0) r.0;
        no_errors = r.1;
        errors = omega (arith, r.2);
      })
