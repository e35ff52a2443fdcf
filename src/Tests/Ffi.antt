-- ===== src/Tests/Ffi.antt =====
-- The layer that the applications call.
use server_glass.Base.{
  ℕ, ◌≡◌, ◌≢◌, refl, true, false, not, Bool, ◌||◌, none, some, List, [], ◌∷◌, Text, codes, All, any,
  text_eq, arith, if◌then◌else◌, inl,
}
use server_glass.Ffi.State.{online, connecting}
use server_glass.Ffi.Spec.{TargetConfig, connection_spec}
use server_glass.Ffi.Spec.Defaults.{accepts_any, is_agent, connection_spec-defaults}
use server_glass.Ffi.View.{MetricGauge}
use server_glass.Ffi.Assess.{assess}
use server_glass.Ffi.Assess.Levels.{level_for, assess-level}
use server_glass.Ffi.Registry.{
  ServerGlass, unknown_target, new_target, start_target, stop_target, remove_target, target,
  is_running,
}
use server_glass.Ffi.Registry.Stale.{Publication, publisher, state_by, publish_all}
use server_glass.Ffi.Registry.Reached.{
  World, Reached, IsConsistent, added, stepped, started, is_run, Reached-stop_target,
  Reached-IsConsistent,
}
use server_glass.Ffi.Registry.Lookup.{refusal, remove_target-target}
use server_glass.Transport.Error.{closed, is_transient}
use server_glass.Core.Runtime.{Network, new_runtime}
use server_glass.Ffi.Poll.Ladder.{waits, ladder, refused_for_now, dial_all, dial_all-ladder}
use server_glass.Base.Int.{pos}
use server_glass.Ffi.Poll.{Poll, Effect, dialling, polling, dial_step, poll_step}
use server_glass.Ffi.Poll.Screen.{Shows, screen, Polled, began, dials, polls, Polled-Shows}
use server_glass.Tests.Data.{whole, answering}

abbrev config : TargetConfig
config = record {
  host = codes "web";
  port = 0;
  user = codes "root";
  auth_kind = codes "password";
  key_path = none;
  key_text = none;
  secret = some (codes "s");
  host_key_policy = codes "accept_any";
  known_hosts_path = none;
  refresh_ms = 1000;
}

abbrev same : Text → Text
same t = t

-- A target that was added, one whose run was started, and the same after the run was heard of.
abbrev new_world : World ℕ
new_world = record { target = new_target same (codes "t1") config; runs = [] }

abbrev running : World ℕ
running = record { target = start_target same new_world.target; runs = 1 ∷ [] }

not_running : is_running new_world.target.task ≡ false
unfolding new_target
not_running = refl

running-Reached : Reached ℕ same 1 running
unfolding new_target
running-Reached =
    stepped new_world running (added (codes "t1") config) (started new_world not_running)

abbrev late : List (Publication ℕ)
late = state_by 1 online ∷ state_by 1 connecting ∷ []

late_runs : All (λ p. is_run running (publisher p) ≡ true) late
unfolding any
late_runs = (refl, (refl, tt))

Reached-stop_target_example :
    publish_all same late (stop_target same running.target) ≡ stop_target same running.target
Reached-stop_target_example =
    Reached-stop_target ℕ same running late running-Reached (omega arith) late_runs

Reached-IsConsistent_example : IsConsistent ℕ same running.target.snapshot
Reached-IsConsistent_example = Reached-IsConsistent ℕ same running running-Reached

abbrev registry : ServerGlass ℕ
registry = record {
  targets = (codes "t1", new_world.target) ∷ (codes "t2", new_world.target) ∷ [];
  next_id = 2;
}

remove_target-target_example :
    (target (remove_target same registry (codes "t1")).0 (codes "t2") ≡ (
      if text_eq (codes "t1") (codes "t2")
      then inl (unknown_target (codes "t2"))
      else target registry (codes "t2")))
    × ((remove_target same registry (codes "t1")).1 ≡ refusal (target registry (codes "t1")))
remove_target-target_example = remove_target-target same registry (codes "t1") (codes "t2")

abbrev gauge_of : Text → ℕ → MetricGauge ℕ
gauge_of metric value = record {
  series_id = metric;
  metric = metric;
  label = metric;
  value = value;
  max = none;
  unit_suffix = codes "%";
  binary_scaled = false;
  history = [];
  severity = codes "normal";
}

abbrev gauges : List (MetricGauge ℕ)
gauges = gauge_of (codes "cpu_usage") 99 ∷ gauge_of (codes "disk_usage") 93 ∷ []

assess-level_example : (assess same online gauges true).level ≡ level_for online gauges true
assess-level_example = assess-level same online gauges true

abbrev is_full : MetricGauge ℕ → Bool
is_full g = text_eq g.metric (codes "disk_usage")

connection_spec-defaults_example :
    (accepts_any (connection_spec config).host_key_policy
      ≡ text_eq config.host_key_policy (codes "accept_any"))
    × (is_agent (connection_spec config).auth
        ≡ not (
            text_eq config.auth_kind (codes "key")
            || text_eq config.auth_kind (codes "key_text")
            || text_eq config.auth_kind (codes "password")))
    × ((connection_spec config).port ≢ 0)
connection_spec-defaults_example = connection_spec-defaults config

-- A run that connects, and the same after its first refresh.
abbrev begun : Poll ℕ ℕ
begun = record {
  runtime = new_runtime (codes "t1") (codes "web") [];
  attempt = 0;
  phase = dialling;
}

abbrev dialled_once : Poll ℕ ℕ × List (Effect ℕ)
dialled_once = dial_step same (codes "t1") answering config begun

abbrev polled_once : Poll ℕ ℕ × List (Effect ℕ)
polled_once = poll_step same (codes "t1") answering (dialled_once.0) false (pos 1) (pos 2) 3 0

refreshes : (dialled_once.0).phase ≡ polling false
unfolding dial_step
refreshes = refl

first_refresh :
    Polled same
      (codes "t1")
      (polled_once.0)
      (screen (screen connecting (dialled_once.1)) (polled_once.1))
first_refresh =
    polls (dialled_once.0) (screen connecting (dialled_once.1)) answering false (pos 1) (pos 2) 3 0
      (dials begun connecting answering config (began begun.runtime) refl) refreshes

Polled-Shows_example :
    Shows
      (polled_once.0).phase
      (polled_once.0).runtime
      (screen (screen connecting (dialled_once.1)) (polled_once.1))
Polled-Shows_example =
    Polled-Shows same (codes "t1") (polled_once.0)
      (screen (screen connecting (dialled_once.1)) (polled_once.1)) first_refresh

abbrev unreachable : Network ℕ
unreachable = record { connect = inl closed; batch = answering.batch; message = answering.message }

unreachable_now : All (λ net. refused_for_now net.connect ≡ true) (unreachable ∷ unreachable ∷ [])
unfolding is_transient
unreachable_now = (refl, (refl, tt))

dial_all-ladder_example :
    (waits (dial_all same (codes "t1") config (unreachable ∷ unreachable ∷ []) begun).1
      ≡ ladder 0 2)
    × ((dial_all same (codes "t1") config (unreachable ∷ unreachable ∷ []) begun).0.phase
        ≡ dialling)
dial_all-ladder_example =
    dial_all-ladder same (codes "t1") config (unreachable ∷ unreachable ∷ []) begun refl
      unreachable_now
