-- ===== src/Core/Runtime.antt =====
-- crates/sg-core/src/runtime.rs and the state of crates/sg-core/src/event.rs: connecting to a
-- target, and what a failure does to it. A refresh and a user's command are in Runtime/Steps.
pub mod Backoff
pub mod Invariant
pub mod Steps
pub mod Refresh
pub mod Connecting
use server_glass.Base.{
  ℕ, zero, suc, ◌+◌, ◌-◌, ◌%◌, ◌^◌, min, Bool, true, false, Option, none, some, Text, codes, List,
  [], ◌∷◌, ◌++◌, length, if◌then◌else◌, ◌⊎◌, inl, inr,
}
use server_glass.Base.Int.{ℤ, pos, negsuc}
use server_glass.Base.Float.{FloatOps}
use server_glass.Model.Ids.{TargetId}
use server_glass.Model.Series.{SeriesDescriptor}
use server_glass.Model.Sample.{Sample}
use server_glass.Model.Entity.{Entity, Entity, host_entity, label_entity}
use server_glass.Model.Caps.{Capabilities}
use server_glass.Model.Request.{Request, exec, Response, Responses, get_response}
use server_glass.Model.Source.{Source, TargetCtx}
use server_glass.Transport.Error.{TransportError, is_transient, closed}
use server_glass.Transport.Probe.{probe_requests, parse_probe}
use server_glass.Core.Collector.{
  Collector, Tick, new_collector, requests, collect, entity_ids, reset_rates,
}
use server_glass.Core.Store.{
  LiveStore, with_window, default_window, ingest, retain_series, retain_entities, clear,
}

-- `TargetState`
pub data TargetState : Type 0 where
  idle connecting online : TargetState
  reconnecting : ℕ → ℕ → TargetState
  failed : Text → Bool → TargetState

-- `TargetState::is_online`
unfoldable pub is_online : TargetState → Bool
is_online online = true
is_online _ = false

-- `Event`, what the core tells a screen.
pub data Event (F : Type 0) : Type 0 where
  state_changed : TargetId → TargetState → Event F
  capabilities_detected : TargetId → Capabilities → Event F
  entities_changed : TargetId → List Entity → Event F
  samples_read : TargetId → List (SeriesDescriptor F) → List (Sample F) → Event F
  source_error : TargetId → Text → Text → Event F

-- `Event::target`
unfoldable pub event_target : {F : Type 0} → Event F → TargetId
event_target (state_changed target state) = target
event_target (capabilities_detected target capabilities) = target
event_target (entities_changed target entities) = target
event_target (samples_read target descriptors samples) = target
event_target (source_error target source message) = target

-- `BACKOFF_MS` at an index up to 5.
unfoldable pub backoff_ms : ℕ → ℕ
backoff_ms zero = 1000
backoff_ms (suc zero) = 2000
backoff_ms (suc (suc zero)) = 5000
backoff_ms (suc (suc (suc zero))) = 10000
backoff_ms (suc (suc (suc (suc zero)))) = 20000
backoff_ms (suc (suc (suc (suc (suc n))))) = 30000

-- `backoff_for`, in milliseconds.
unfoldable pub backoff_for : ℕ → ℕ
unfolding backoff_ms
backoff_for attempt = backoff_ms (min (attempt - 1) 5)

-- A session as the runtime uses it: connecting and a batch talk to the network, so each step is
-- given what came of it. `message` is `to_string` of an error.
pub record Network (S : Type 0) : Type 0 where
  pub connect : TransportError ⊎ S
  pub batch : S → List Request → S × (TransportError ⊎ Responses)
  pub message : TransportError → Text

-- `host` is the part of the connection's settings that the runtime reads itself.
pub record TargetRuntime (S F : Type 0) : Type 0 where
  pub target : TargetId
  pub host : Text
  pub session : Option S
  pub ctx : Option TargetCtx
  pub collector : Collector F
  pub store : LiveStore F
  pub state : TargetState
  pub attempt : ℕ

abbrev pub or_name : Text → Text → Text
or_name [] host = host
or_name (c ∷ s) host = c ∷ s

-- The context that a probe's answers give.
unfoldable pub context_of : TargetId → Text → Capabilities → TargetCtx
unfolding host_entity label_entity
context_of target host caps = record {
  target = target;
  host =
      label_entity
        (label_entity
          (label_entity (host_entity (or_name caps.hostname host)) (codes "kernel") caps.kernel)
          (codes "distro") caps.distro)
        (codes "arch") caps.arch;
  caps = caps;
  interval_ms = 1000;
}

module _ {S F : Type 0} where
  -- `TargetRuntime::new`
  unfoldable pub new_runtime : TargetId → Text → List (Source F) → TargetRuntime S F
  unfolding new_collector with_window
  new_runtime target host sources = record {
    target = target;
    host = host;
    session = none;
    ctx = none;
    collector = new_collector sources;
    store = with_window default_window;
    state = idle;
    attempt = 0;
  }

  -- `TargetRuntime::on_disconnect`. The attempts are counted in a `u32`.
  unfoldable pub on_disconnect : Network S → TargetRuntime S F → TransportError → TargetRuntime S F
  unfolding is_transient reset_rates backoff_for
  on_disconnect net r error =
      if is_transient error
      then record r {
        session = none;
        collector = reset_rates r.collector;
        attempt = (r.attempt + 1) % 2 ^ 32;
        state = reconnecting ((r.attempt + 1) % 2 ^ 32) (backoff_for ((r.attempt + 1) % 2 ^ 32));
      }
      else record r {
        session = none;
        collector = reset_rates r.collector;
        state = failed (net.message error) false;
      }

  -- What follows the probe's batch.
  unfoldable pub probed :
      Network S
      → TargetRuntime S F
      → S × (TransportError ⊎ Responses)
      → TargetRuntime S F × Option TransportError
  unfolding on_disconnect parse_probe context_of reset_rates clear
  probed net r (session, inl error) = (on_disconnect net r error, some error)
  probed net r (session, inr rs) = (
    record r {
      ctx = some (context_of r.target r.host (parse_probe rs));
      collector = reset_rates r.collector;
      store = clear r.store;
      session = some session;
      state = online;
      attempt = 0;
    },
    none,
  )

  unfoldable pub connected :
      Network S → TargetRuntime S F → TransportError ⊎ S → TargetRuntime S F × Option TransportError
  unfolding probed probe_requests is_transient
  connected net r (inl error) =
      (record r { state = failed (net.message error) (is_transient error) }, some error)
  connected net r (inr session) = probed net r (net.batch session probe_requests)

  -- `TargetRuntime::connect`
  unfoldable pub connect : Network S → TargetRuntime S F → TargetRuntime S F × Option TransportError
  unfolding connected
  connect net r = connected net (record r { state = connecting }) net.connect
