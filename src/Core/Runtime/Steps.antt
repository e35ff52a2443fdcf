-- ===== src/Core/Runtime/Steps.antt =====
-- crates/sg-core/src/runtime.rs: a refresh and a user's command, each on the session that is held.
use server_glass.Base.{
  ℕ, Option, none, some, Text, codes, List, [], ◌∷◌, ◌++◌, length, ◌⊎◌, inl, inr,
}
use server_glass.Base.Int.{ℤ, negsuc}
use server_glass.Base.Float.{FloatOps}
use server_glass.Model.Request.{Request, exec, Response, Responses, get_response}
use server_glass.Model.Source.{Source, TargetCtx}
use server_glass.Transport.Error.{TransportError, closed}
use server_glass.Core.Collector.{applicable, Collector, Tick, requests, collect, entity_ids}
use server_glass.Core.Store.{ingest, retain_series, retain_entities}
use server_glass.Core.Runtime.{Network, TargetRuntime, on_disconnect}

pub record CommandOutput : Type 0 where
  pub output : Text
  pub exit_code : ℤ
  pub elapsed_ms : ℕ

pub record TickSummary : Type 0 where
  pub entities : ℕ
  pub series : ℕ
  pub samples : ℕ
  pub errors : ℕ
  pub requests : ℕ

-- The request that a user's command becomes.
unfoldable pub command_request : Text → Request
command_request command =
    exec (codes "sh" ∷ codes "-c" ∷ (codes "{ " ++ command ++ (b'\n' ∷ codes "} 2>&1")) ∷ [])

unfoldable pub output_of : ℕ → Option Response → CommandOutput
output_of elapsed none = record { output = []; exit_code = negsuc 0; elapsed_ms = elapsed }
output_of elapsed (some found) = record {
  output = found.body;
  exit_code = found.exit_code;
  elapsed_ms = elapsed;
}

-- `TargetRuntime::planned_requests`, of the collector and the context.
unfoldable pub planned_requests : {F : Type 0} → Collector F → Option TargetCtx → List Request
unfolding requests
planned_requests c none = []
planned_requests c (some ctx) = requests c ctx

-- `TargetRuntime::applicable_sources`, of the collector and the context.
unfoldable pub applicable_with : {F : Type 0} → Collector F → Option TargetCtx → List (Source F)
unfolding applicable
applicable_with c none = []
applicable_with c (some ctx) = applicable c ctx.caps

module _ {S F : Type 0} where
  unfoldable pub ran :
      Network S
      → TargetRuntime S F
      → Request
      → ℕ
      → S × (TransportError ⊎ Responses)
      → TargetRuntime S F × (TransportError ⊎ CommandOutput)
  unfolding on_disconnect output_of get_response
  ran net r request elapsed (session, inl error) =
      (on_disconnect net (record r { session = some session }) error, inl error)
  ran net r request elapsed (session, inr rs) =
      (record r { session = some session }, inr (output_of elapsed (get_response rs request)))

  -- The session is taken out of the runtime, or there is none; `elapsed` is what the clock says the
  -- batch took.
  unfoldable pub run_on :
      Network S
      → TargetRuntime S F
      → Text
      → ℕ
      → Option S
      → TargetRuntime S F × (TransportError ⊎ CommandOutput)
  unfolding ran command_request
  run_on net r command elapsed none = (r, inl closed)
  run_on net r command elapsed (some session) =
      ran net r (command_request command) elapsed (net.batch session (command_request command ∷ []))

  -- `TargetRuntime::run_command`
  unfoldable pub run_command :
      Network S
      → TargetRuntime S F
      → Text
      → ℕ
      → TargetRuntime S F × (TransportError ⊎ CommandOutput)
  unfolding run_on
  run_command net r command elapsed = run_on net r command elapsed r.session

  -- `TargetRuntime::summarise`
  unfoldable pub summarise : TargetRuntime S F → Tick F → TickSummary
  unfolding planned_requests
  summarise r tick = record {
    entities = length tick.entities;
    series = length tick.descriptors;
    samples = length tick.samples;
    errors = length tick.errors;
    requests = length (planned_requests r.collector r.ctx);
  }

module _ {S F : Type 0} ⦃fl : FloatOps F⦄ where
  -- A refresh once the responses are there; `now` is the clock.
  unfoldable pub refreshed :
      TargetRuntime S F → TargetCtx → ℤ → Responses → TargetRuntime S F × (TransportError ⊎ Tick F)
  unfolding collect ingest retain_series retain_entities entity_ids
  refreshed r ctx now rs =
      let (collector, tick) = collect r.collector ctx rs now in
      (
        record r {
          collector = collector;
          store =
              retain_entities
                (retain_series (ingest r.store tick.entities tick.descriptors tick.samples)
                  tick.descriptors)
                (entity_ids tick ++ ctx.host.id ∷ []);
        },
        inr tick,
      )

  unfoldable pub answered :
      Network S
      → TargetRuntime S F
      → TargetCtx
      → ℤ
      → S × (TransportError ⊎ Responses)
      → TargetRuntime S F × (TransportError ⊎ Tick F)
  unfolding on_disconnect refreshed
  answered net r ctx now (session, inl error) =
      (on_disconnect net (record r { session = some session }) error, inl error)
  answered net r ctx now (session, inr rs) =
      refreshed (record r { session = some session }) ctx now rs

  -- No requests, no batch.
  unfoldable pub refresh_with :
      Network S
      → TargetRuntime S F
      → S
      → TargetCtx
      → ℤ
      → List Request
      → TargetRuntime S F × (TransportError ⊎ Tick F)
  unfolding answered
  refresh_with net r session ctx now [] = answered net r ctx now (session, inr [])
  refresh_with net r session ctx now (q ∷ qs) = answered net r ctx now (net.batch session (q ∷ qs))

  unfoldable pub tick_with :
      Network S
      → TargetRuntime S F
      → ℤ
      → Option S
      → Option TargetCtx
      → TargetRuntime S F × (TransportError ⊎ Tick F)
  unfolding refresh_with requests
  tick_with net r now (some session) (some ctx) =
      refresh_with net r session ctx now (requests r.collector ctx)
  tick_with net r now (some session) none = (r, inl closed)
  tick_with net r now none ctx = (r, inl closed)

  -- `TargetRuntime::tick`
  unfoldable pub tick :
      Network S → TargetRuntime S F → ℤ → TargetRuntime S F × (TransportError ⊎ Tick F)
  unfolding tick_with
  tick net r now = tick_with net r now r.session r.ctx
