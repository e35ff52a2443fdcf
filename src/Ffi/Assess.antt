-- ===== src/Ffi/Assess.antt =====
-- crates/sg-ffi/src/plain.rs: the verdict on a host, from the worst finding on.
pub mod Levels
use server_glass.Base.{
  Bool, true, false, Option, none, some, List, [], ◌∷◌, ◌++◌, Text, codes, if◌then◌else◌, unwrap_or,
  length, text_eq,
}
use server_glass.Base.Float.{FloatOps}
use server_glass.Ffi.View.{MetricGauge}
use server_glass.Ffi.Format.{format_uptime}
use server_glass.Ffi.Plain.{
  HostHealth, health, friendly_failure, first_of, trim_stop, value_of, pair_of, either_of, at_least,
  whole, free_of,
}
use server_glass.Ffi.State.{ConnectionState, idle, connecting, online, reconnecting, failed}

module _ {F : Type 0} ⦃fl : FloatOps F⦄ where
  -- The readings that the verdict looks at, where several stand for one the first that is known.
  abbrev pub io_pressure : List (MetricGauge F) → Option F
  io_pressure gs =
      either_of (value_of gs (codes "pressure_io_60s")) (value_of gs (codes "pressure_io"))

  abbrev pub memory_pressure : List (MetricGauge F) → Option F
  memory_pressure gs =
      either_of (value_of gs (codes "pressure_memory_full")) (value_of gs (codes "pressure_memory"))

  abbrev pub cpu_pressure : List (MetricGauge F) → Option F
  cpu_pressure gs =
      either_of (value_of gs (codes "pressure_cpu_60s")) (value_of gs (codes "pressure_cpu"))

  unfoldable pub memory_text : List (MetricGauge F) → F → Text
  unfolding pair_of trim_stop
  memory_text gs memory =
      let sizes = unwrap_or [] (pair_of gs (codes "mem_used") (codes "mem_total")) in
      let sentence =
        codes "Memory is " ++ (whole memory ++ (codes "% used. " ++ (sizes ++ codes "."))) in
      trim_stop (length sentence) sentence

  -- The checks that say `problem`, in their order.
  unfoldable pub problem_checks : List (MetricGauge F) → List (Option HostHealth)
  unfolding value_of memory_text
  problem_checks gs =
      at_least 90 (value_of gs (codes "disk_usage")) (λ disk.
        health (codes "problem") (codes "Storage is almost full") (
          codes "The main drive is "
          ++ (whole disk
              ++ (codes "% full. Things stop working when it fills up "
                  ++ codes "completely, so it is worth clearing space soon."))))
      ∷ at_least 90 (value_of gs (codes "mem_usage")) (λ memory.
        health (codes "problem") (codes "Running out of memory") (memory_text gs memory))
      ∷ at_least 40 (io_pressure gs) (λ io. health (codes "problem") (codes "Waiting on storage") (
          codes "Tasks spent "
          ++ (whole io
              ++ (codes "% of the last minute waiting for the disk. That is what a "
                  ++ codes
                      "machine feels like when it has run out of I/O, not out of processor."))))
      ∷ at_least 20 (memory_pressure gs) (λ memory.
        health (codes "problem") (codes "Struggling for memory") (
          codes "Everything on the machine stopped and waited for memory "
          ++ (whole memory
              ++ (codes "% of the "
                  ++ codes
                      "time. Freeing some, or adding more, would make it noticeably faster."))))
      ∷ at_least 90 (value_of gs (codes "cpu_temp")) (λ temperature.
        health (codes "problem") (codes "Running very hot") (
          codes "The processor is at "
          ++ (whole temperature
              ++ (codes "°C. At this temperature it slows itself "
                  ++ codes
                      "down to avoid damage — usually dust in the fans or a blocked air intake."))))
      ∷ []

  -- The checks that say `busy`, in their order.
  unfoldable pub busy_checks : List (MetricGauge F) → List (Option HostHealth)
  unfolding value_of
  busy_checks gs =
      at_least 80 (value_of gs (codes "disk_usage")) (λ disk.
        health (codes "busy") (codes "Storage is filling up")
          (codes "The main drive is " ++ (whole disk ++ codes "% full — worth keeping an eye on.")))
      ∷ at_least 85 (value_of gs (codes "mem_usage")) (λ memory.
        health (codes "busy") (codes "Memory is under pressure")
          (codes "Memory is " ++ (whole memory ++ codes "% used.")))
      ∷ at_least 20 (cpu_pressure gs) (λ cpu. health (codes "busy") (codes "Work is queueing up") (
          codes "Something was waiting its turn for the processor "
          ++ (whole cpu
              ++ (codes "% of the last "
                  ++ codes
                      "minute. Busy is fine; queueing means requests are being made to wait."))))
      ∷ at_least 80 (value_of gs (codes "cpu_temp")) (λ temperature.
        health (codes "busy") (codes "Running warm") (
          codes "The processor is at "
          ++ (whole temperature
              ++ (codes "°C. Not dangerous, but worth checking "
                  ++ codes "the fans if it stays there while the machine is idle."))))
      ∷ at_least 85 (value_of gs (codes "cpu_usage")) (λ cpu.
        health (codes "busy") (codes "Working very hard") (
          codes "The processor is "
          ++ (whole cpu ++ codes "% busy. That is fine for a while, but slow if it stays there.")))
      ∷ []

  -- The verdict with no finding: how long the host has been up.
  unfoldable pub good_health : List (MetricGauge F) → HostHealth
  unfolding value_of format_uptime
  good_health gs =
      health (codes "ok") (codes "Everything looks good") (elim (value_of gs (codes "uptime")) [
        | none ↦ []
        | some s ↦ codes "Running for " ++ (format_uptime s ++ codes ".")
      ])

  unfoldable pub assess_online : List (MetricGauge F) → Bool → HostHealth
  unfolding first_of problem_checks busy_checks good_health
  assess_online gs false = health (codes "checking") (codes "Getting readings…") []
  assess_online gs true = first_of (problem_checks gs ++ busy_checks gs) (good_health gs)

  -- `assess`
  unfoldable pub assess : (Text → Text) → ConnectionState → List (MetricGauge F) → Bool → HostHealth
  unfolding assess_online friendly_failure
  assess lower idle gs has_data = health (codes "checking") (codes "Not connected") []
  assess lower connecting gs has_data =
      health (codes "checking") (codes "Connecting…") (codes "Getting the first reading.")
  assess lower (reconnecting n ms) gs has_data =
      health (codes "offline") (codes "Lost connection") (codes "Trying again automatically.")
  assess lower (failed message recoverable) gs has_data =
      health (codes "offline") (codes "Can't reach this server") (friendly_failure lower message)
  assess lower online gs has_data = assess_online gs has_data

  -- The arm for memory and storage.
  unfoldable pub share_text : MetricGauge F → Option F → Option F → Text
  unfolding free_of
  share_text gauge (some used) (some total) =
      if fl.lt (fl.of_nat 0) total then free_of used total else whole gauge.value ++ codes "% used"
  share_text gauge _ _ = whole gauge.value ++ codes "% used"

  -- `plain_summary`
  unfoldable pub plain_summary : MetricGauge F → Option F → Option F → Text
  unfolding share_text text_eq
  plain_summary gauge used total =
      if text_eq gauge.metric (codes "cpu_usage")
      then (if fl.lt gauge.value (fl.of_nat 25)
          then codes "Barely working"
          else if fl.lt gauge.value (fl.of_nat 60)
          then codes "Working normally"
          else if fl.lt gauge.value (fl.of_nat 85)
          then codes "Working hard"
          else codes "Very busy")
      else if text_eq gauge.metric (codes "mem_usage")
      then share_text gauge used total
      else if text_eq gauge.metric (codes "disk_usage")
      then share_text gauge used total
      else if text_eq gauge.metric (codes "uptime")
      then codes "Without a restart"
      else []
