-- ===== src/Collect/Load.antt =====
-- crates/sg-collect/src/load.rs: load averages, the number of processes and the uptime.
use server_glass.Base.{
  ℕ, max, true, Option, none, some, List, [], ◌∷◌, ◌++◌, Text, codes, split_whitespace, split_once,
  parse_float, parse_u64, unwrap_or, get_elem?, ltb, ◌==◌, ◌>>=◌,
}
use server_glass.Base.Float.{FloatOps}
use server_glass.Model.Measure.{count, seconds}
use server_glass.Model.Entity.{host_kind}
use server_glass.Model.Caps.{needs_path}
use server_glass.Model.Request.{Request, read_file, Responses, text_of}
use server_glass.Model.Series.{gauge, with_max, float, uint}
use server_glass.Model.Source.{Source, SourceDescriptor, TargetCtx}
use server_glass.Collect.Writes.{Write, emitted, when_some, when, for_each, writing_source}

pub record LoadAvg (F : Type 0) : Type 0 where
  pub one : F
  pub five : F
  pub fifteen : F
  pub runnable : ℕ
  pub total_procs : ℕ

unfoldable pub load_descriptor : SourceDescriptor
unfolding needs_path
load_descriptor = record {
  id = codes "proc.load";
  display = codes "Load & uptime";
  description = codes "Load averages, process counts and uptime";
  produces = host_kind ∷ [];
  requires = needs_path (codes "/proc/loadavg");
  default_enabled = true;
}

abbrev pub loadavg_request : Request
loadavg_request = read_file (codes "/proc/loadavg")

abbrev pub uptime_request : Request
uptime_request = read_file (codes "/proc/uptime")

module _ {F : Type 0} ⦃fl : FloatOps F⦄ where
  unfoldable pub parse_loadavg : Text → Option (LoadAvg F)
  unfolding split_whitespace parse_float get_elem? split_once
  parse_loadavg text =
      let fields = split_whitespace text in
      do
        one ← get_elem? fields 0 >>= parse_float
        five ← get_elem? fields 1 >>= parse_float
        fifteen ← get_elem? fields 2 >>= parse_float
        let procs = get_elem? fields 3 >>= split_once (λ c. c == b'/')
        some (record {
          one = one;
          five = five;
          fifteen = fifteen;
          runnable = elim procs [ none ↦ 0 | some p ↦ unwrap_or 0 (parse_u64 (p.0)) ];
          total_procs = elim procs [ none ↦ 0 | some p ↦ unwrap_or 0 (parse_u64 (p.1)) ];
        })

  unfoldable pub parse_uptime : Text → Option F
  unfolding split_whitespace parse_float get_elem?
  parse_uptime text = get_elem? (split_whitespace text) 0 >>= parse_float

  unfoldable pub load_writes : TargetCtx → Responses → List (Write F)
  unfolding load_descriptor text_of parse_loadavg parse_uptime gauge with_max
  load_writes ctx rs =
      let id = load_descriptor.id in
      let host = ctx.host.id in
      let cores = fl.of_nat (max ctx.caps.cpu_count 1) in
      when_some (text_of rs loadavg_request >>= parse_loadavg) (λ load.
        for_each
          ((codes "load1", codes "Load 1m", load.one)
            ∷ (codes "load5", codes "Load 5m", load.five)
            ∷ (codes "load15", codes "Load 15m", load.fifteen)
            ∷ [])
          (λ (metric, display, value).
            emitted (with_max cores (gauge id host metric display count)) (float value) ∷ [])
        ++ when (ltb 0 load.total_procs) (
            emitted (gauge id host (codes "procs_total") (codes "Processes") count)
              (uint load.total_procs)
            ∷ []))
      ++ when_some (text_of rs uptime_request >>= parse_uptime) (λ seconds_up.
        emitted (gauge id host (codes "uptime") (codes "Uptime") seconds) (float seconds_up) ∷ [])

  unfoldable pub load_source : Source F
  unfolding writing_source load_descriptor load_writes
  load_source =
      writing_source load_descriptor (λ ctx. loadavg_request ∷ uptime_request ∷ []) load_writes
