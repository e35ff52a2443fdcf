-- ===== src/Collect/Pressure.antt =====
-- crates/sg-collect/src/pressure.rs: the share of time that tasks were stalled.
use server_glass.Base.{
  true, Option, none, some, List, [], ◌∷◌, ◌++◌, Text, codes, split_whitespace, split_once,
  parse_float, ◌==◌, lines, text_eq, if◌then◌else◌, map,
}
use server_glass.Base.Float.{FloatOps}
use server_glass.Model.Measure.{percent}
use server_glass.Model.Entity.{host_kind}
use server_glass.Model.Caps.{needs_path}
use server_glass.Model.Request.{read_file, Responses, text_of}
use server_glass.Model.Series.{gauge, float}
use server_glass.Model.Source.{Source, SourceDescriptor, TargetCtx}
use server_glass.Collect.Writes.{Write, emitted, when_some, for_each, writing_source}

pub record Stall (F : Type 0) : Type 0 where
  pub avg10 : F
  pub avg60 : F
  pub avg300 : F

pub record Pressure (F : Type 0) : Type 0 where
  pub some_stalled : Stall F
  pub full : Option (Stall F)

-- `RESOURCES`: key, path and display name
abbrev pub resources : List (Text × Text × Text)
resources =
    (codes "cpu", codes "/proc/pressure/cpu", codes "CPU")
    ∷ (codes "memory", codes "/proc/pressure/memory", codes "Memory")
    ∷ (codes "io", codes "/proc/pressure/io", codes "I/O")
    ∷ []

unfoldable pub pressure_descriptor : SourceDescriptor
unfolding needs_path
pressure_descriptor = record {
  id = codes "proc.pressure";
  display = codes "Pressure";
  description = codes "Time spent stalled waiting for CPU, memory or I/O";
  produces = host_kind ∷ [];
  requires = needs_path (codes "/proc/pressure/cpu");
  default_enabled = true;
}

module _ {F : Type 0} ⦃fl : FloatOps F⦄ where
  abbrev pub no_stall : Stall F
  no_stall = record { avg10 = fl.of_nat 0; avg60 = fl.of_nat 0; avg300 = fl.of_nat 0 }

  -- The match on a field's key.
  unfoldable pub set_average : Text → F → Stall F → Stall F
  set_average key value stall =
      if text_eq key (codes "avg10")
      then record stall { avg10 = value }
      else if text_eq key (codes "avg60")
      then record stall { avg60 = value }
      else if text_eq key (codes "avg300")
      then record stall { avg300 = value }
      else stall

  unfoldable pub stall_of : List Text → Stall F → Stall F
  unfolding split_once parse_float set_average
  stall_of [] stall = stall
  stall_of (f ∷ fs) stall = elim (split_once (λ c. c == b'=') f) [
    | none ↦ stall_of fs stall
    | some kv ↦ elim (parse_float (kv.1)) [
      | none ↦ stall_of fs stall
      | some value ↦ stall_of fs (set_average (kv.0) value stall)
    ]
  ]

  -- One line: the match on its kind.
  unfoldable pub pressure_line : List Text → Pressure F → Pressure F
  unfolding stall_of
  pressure_line [] p = p
  pressure_line (kind ∷ fields) p =
      let stall = stall_of fields no_stall in
      if text_eq kind (codes "some")
      then record p { some_stalled = stall }
      else if text_eq kind (codes "full")
      then record p { full = some stall }
      else p

  unfoldable pub pressure_of : List Text → Pressure F → Pressure F
  unfolding pressure_line split_whitespace
  pressure_of [] p = p
  pressure_of (l ∷ ls) p = pressure_of ls (pressure_line (split_whitespace l) p)

  unfoldable pub parse_pressure : Text → Pressure F
  unfolding pressure_of lines
  parse_pressure text = pressure_of (lines text) (record { some_stalled = no_stall; full = none })

  unfoldable pub pressure_writes : TargetCtx → Responses → List (Write F)
  unfolding pressure_descriptor text_of parse_pressure gauge
  pressure_writes ctx rs =
      let id = pressure_descriptor.id in
      let host = ctx.host.id in
      for_each resources (λ (key, path, display). when_some (text_of rs (read_file path)) (λ text.
        let pressure = parse_pressure text in
        let metric = codes "pressure_" ++ key in
        (emitted (gauge id host metric (display ++ codes " pressure") percent)
            (float pressure.some_stalled.avg10)
          ∷ emitted
              (gauge id host (metric ++ codes "_60s") (display ++ codes " pressure, 1 min") percent)
              (float pressure.some_stalled.avg60)
          ∷ [])
        ++ when_some pressure.full (λ full.
          emitted
            (gauge id host (metric ++ codes "_full") (display ++ codes " fully stalled") percent)
            (float full.avg10)
          ∷ [])))

  unfoldable pub pressure_source : Source F
  unfolding writing_source pressure_descriptor pressure_writes
  pressure_source =
      writing_source pressure_descriptor
        (λ ctx. map (λ (key, path, display). read_file path) resources) pressure_writes
