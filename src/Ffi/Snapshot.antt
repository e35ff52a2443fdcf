-- ===== src/Ffi/Snapshot.antt =====
-- crates/sg-ffi/src/view.rs and crates/sg-ffi/src/lib.rs: the snapshot of a target, whose verdict
-- goes with its state. The session's count of round trips and the clock are arguments.
use server_glass.Base.{
  ℕ, Bool, true, false, not, some, List, [], ◌∷◌, ◌++◌, Text, codes, text_eq, filter, map,
  unwrap_or, ◌>>=◌,
}
use server_glass.Base.Int.{ℤ, pos}
use server_glass.Base.Float.{FloatOps}
use server_glass.Model.Entity.{slug}
use server_glass.Model.Source.{ParseError}
use server_glass.Core.Collector.{Tick}
use server_glass.Core.Runtime.{TargetRuntime}
use server_glass.Core.Store.Views.{children_of}
use server_glass.Ffi.View.{MetricGauge, DetailGroup, host_gauges, host_details}
use server_glass.Ffi.State.{ConnectionState, from_state}
use server_glass.Ffi.Plain.{HostHealth}
use server_glass.Ffi.Assess.{assess}
use server_glass.Ffi.Tiles.{EntityView, SimpleTile, entity_view, simple_tiles}
use server_glass.Ffi.Processes.{ProcessView, top_processes}

pub record TargetSnapshot (F : Type 0) : Type 0 where
  pub target_id : Text
  pub state : ConnectionState
  pub display_name : Text
  pub distro : Text
  pub kernel : Text
  pub arch : Text
  pub cpu_count : ℕ
  pub gauges : List (MetricGauge F)
  pub detail_groups : List (DetailGroup F)
  pub entities : List (EntityView F)
  pub top : List (ProcessView F)
  pub health : HostHealth
  pub simple_tiles : List (SimpleTile F)
  pub source_errors : List Text
  pub last_update_ms : ℤ
  pub round_trips : ℕ

-- `flat_map` over the groups.
unfoldable pub grouped : {F : Type 0} → List (DetailGroup F) → List (MetricGauge F)
grouped [] = []
grouped (g ∷ gs) = g.gauges ++ grouped gs

-- `!all.is_empty()`
abbrev pub has_any : {A : Type 0} → List A → Bool
has_any [] = false
has_any (x ∷ xs) = true

-- `Display` of `ParseError`
unfoldable pub error_text : ParseError → Text
error_text e = codes "source " ++ (e.source ++ (codes " failed to parse: " ++ e.detail))

module _ {F : Type 0} ⦃fl : FloatOps F⦄ (to_lowercase : Text → Text) where
  -- `TargetSnapshot::set_state`
  unfoldable pub set_state : TargetSnapshot F → ConnectionState → TargetSnapshot F
  unfolding assess grouped
  set_state s state =
      let all = s.gauges ++ grouped s.detail_groups in
      record s { health = assess to_lowercase state all (has_any all); state = state }

  -- `TargetSnapshot::placeholder`
  unfoldable pub placeholder : Text → Text → ConnectionState → TargetSnapshot F
  unfolding assess
  placeholder target_id host state = record {
    target_id = target_id;
    state = state;
    display_name = host;
    distro = [];
    kernel = [];
    arch = [];
    cpu_count = 0;
    gauges = [];
    detail_groups = [];
    entities = [];
    top = [];
    health = assess {F = F} to_lowercase state [] false;
    simple_tiles = [];
    source_errors = [];
    last_update_ms = pos 0;
    round_trips = 0;
  }

  -- `build_snapshot`
  unfoldable pub build_snapshot :
      {S : Type 0} → Text → TargetRuntime S F → Tick F → ℤ → ℕ → TargetSnapshot F
  unfolding host_gauges host_details children_of filter entity_view top_processes from_state assess
      grouped simple_tiles error_text slug text_eq
  build_snapshot target_id runtime tick now round_trips =
      let host = runtime.ctx >>= λ c. some c.host in
      let caps = runtime.ctx >>= λ c. some c.caps in
      let cpu_count = unwrap_or 0 (caps >>= λ c. some c.cpu_count) in
      let gauges = unwrap_or [] (host >>= λ h. some (host_gauges runtime.store h.id)) in
      let groups = unwrap_or [] (host >>= λ h. some (host_details runtime.store h.id)) in
      let entities = unwrap_or [] (
        host >>= λ h. some (
          map (λ e. entity_view e runtime.store)
            (filter (λ e. not (text_eq (slug e.kind) (codes "proc")))
              (children_of runtime.store h.id)))) in
      let top = unwrap_or [] (host >>= λ h. some (top_processes runtime.store h.id 12 cpu_count)) in
      let state = from_state runtime.state in
      let all = gauges ++ grouped groups in
      record {
        target_id = target_id;
        state = state;
        display_name = unwrap_or [] (host >>= λ h. some h.display);
        distro = unwrap_or [] (caps >>= λ c. some c.distro);
        kernel = unwrap_or [] (caps >>= λ c. some c.kernel);
        arch = unwrap_or [] (caps >>= λ c. some c.arch);
        cpu_count = cpu_count;
        gauges = gauges;
        detail_groups = groups;
        entities = entities;
        top = top;
        health = assess to_lowercase state all (has_any all);
        simple_tiles = simple_tiles gauges all entities;
        source_errors = map error_text tick.errors;
        last_update_ms = now;
        round_trips = round_trips;
      }
