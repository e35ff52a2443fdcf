-- ===== src/Collect/Cpu.antt =====
-- crates/sg-collect/src/cpu.rs: the use of the processors from /proc/stat.
pub mod Parts
use server_glass.Base.{
  ℕ, ◌+◌, ◌-◌, ◌%◌, ◌^◌, max, true, Option, none, some, List, [], ◌∷◌, ◌++◌, Text, codes,
  split_whitespace, split_once, parse_u64, parse_unsigned, unwrap_or, get_elem?, ◌>>=◌, lines,
  text_eq, if◌then◌else◌, filter_map, is_whitespace, strip_prefix, length, show_nat, trim,
}
use server_glass.Base.Float.{FloatOps}
use server_glass.Model.Measure.{percent, count}
use server_glass.Model.Ids.{SourceId, EntityId}
use server_glass.Model.Entity.{cpu_core, child_entity, Entity}
use server_glass.Model.Caps.{needs_path}
use server_glass.Model.Request.{Request, read_file, Responses, text_of}
use server_glass.Model.Series.{gauge, counter, with_scale, uint}
use server_glass.Model.Source.{Source, SourceDescriptor, TargetCtx}
use server_glass.Collect.Writes.{Write, emitted, declared, when_some, for_each, writing_source}

pub record CpuTimes : Type 0 where
  pub user : ℕ
  pub nice : ℕ
  pub system : ℕ
  pub idle : ℕ
  pub iowait : ℕ
  pub irq : ℕ
  pub softirq : ℕ
  pub steal : ℕ

-- `CpuTimes::busy` and `CpuTimes::total`, whose sums wrap around.
unfoldable pub busy : CpuTimes → ℕ
busy t = (t.user + t.nice + t.system + t.irq + t.softirq + t.steal) % 2 ^ 64

unfoldable pub total : CpuTimes → ℕ
unfolding busy
total t = (busy t + t.idle + t.iowait) % 2 ^ 64

abbrev pub no_times : CpuTimes
no_times = record {
  user = 0;
  nice = 0;
  system = 0;
  idle = 0;
  iowait = 0;
  irq = 0;
  softirq = 0;
  steal = 0;
}

-- `CpuTimes::parse`: a field that is no number is skipped, one that is missing is zero.
unfoldable pub parse_times : Text → CpuTimes
unfolding split_whitespace filter_map get_elem?
parse_times fields =
    let n = filter_map parse_u64 (split_whitespace fields) in
    record {
      user = unwrap_or 0 (get_elem? n 0);
      nice = unwrap_or 0 (get_elem? n 1);
      system = unwrap_or 0 (get_elem? n 2);
      idle = unwrap_or 0 (get_elem? n 3);
      iowait = unwrap_or 0 (get_elem? n 4);
      irq = unwrap_or 0 (get_elem? n 5);
      softirq = unwrap_or 0 (get_elem? n 6);
      steal = unwrap_or 0 (get_elem? n 7);
    }

pub record ProcStat : Type 0 where
  pub all : CpuTimes
  pub cores : List (ℕ × CpuTimes)
  pub context_switches : Option ℕ
  pub processes : Option ℕ
  pub procs_running : Option ℕ
  pub procs_blocked : Option ℕ

-- `key.strip_prefix("cpu")` and the index behind it.
unfoldable pub core_index : Text → Option ℕ
unfolding strip_prefix
core_index key = strip_prefix (codes "cpu") key >>= parse_unsigned (2 ^ 32 - 1)

-- The match on a line's key.
unfoldable pub stat_line : Text → Text → ProcStat → ProcStat
unfolding parse_times core_index trim
stat_line key rest out =
    if text_eq key (codes "cpu")
    then record out { all = parse_times rest }
    else if text_eq key (codes "ctxt")
    then record out { context_switches = parse_u64 (trim rest) }
    else if text_eq key (codes "processes")
    then record out { processes = parse_u64 (trim rest) }
    else if text_eq key (codes "procs_running")
    then record out { procs_running = parse_u64 (trim rest) }
    else if text_eq key (codes "procs_blocked")
    then record out { procs_blocked = parse_u64 (trim rest) }
    else elim (core_index key) [
      | none ↦ out
      | some index ↦ record out { cores = out.cores ++ (index, parse_times rest) ∷ [] }
    ]

unfoldable pub proc_stat_of : List Text → ProcStat → ProcStat
unfolding stat_line split_once is_whitespace
proc_stat_of [] out = out
proc_stat_of (l ∷ ls) out = elim (split_once is_whitespace l) [
  | none ↦ proc_stat_of ls out
  | some kv ↦ proc_stat_of ls (stat_line (kv.0) (kv.1) out)
]

unfoldable pub parse_proc_stat : Text → ProcStat
unfolding proc_stat_of lines
parse_proc_stat text = proc_stat_of (lines text) (record {
  all = no_times;
  cores = [];
  context_switches = none;
  processes = none;
  procs_running = none;
  procs_blocked = none;
})

unfoldable pub cpu_descriptor : SourceDescriptor
unfolding needs_path
cpu_descriptor = record {
  id = codes "proc.cpu";
  display = codes "CPU";
  description = codes "Per-core and aggregate CPU utilisation from /proc/stat";
  produces = cpu_core ∷ [];
  requires = needs_path (codes "/proc/stat");
  default_enabled = true;
}

abbrev pub proc_stat_request : Request
proc_stat_request = read_file (codes "/proc/stat")

-- The array of the loop over the parts: metric, display name and ticks.
unfoldable pub breakdown : CpuTimes → List (Text × Text × ℕ)
breakdown t =
    (codes "cpu_user", codes "User", (t.user + t.nice) % 2 ^ 64)
    ∷ (codes "cpu_system", codes "System", (t.system + t.irq + t.softirq) % 2 ^ 64)
    ∷ (codes "cpu_iowait", codes "I/O wait", t.iowait)
    ∷ (codes "cpu_steal", codes "Steal", t.steal)
    ∷ []

module _ {F : Type 0} ⦃fl : FloatOps F⦄ where
  -- The body of the loop over the cores.
  unfoldable pub core_writes : SourceId → Entity → F → ℕ × CpuTimes → List (Write F)
  unfolding counter with_scale child_entity show_nat busy
  core_writes id host scale (index, times) =
      let core = child_entity host cpu_core (show_nat index) in
      emitted (with_scale scale (counter id core.id (codes "usage") (codes "Usage") percent))
        (uint (busy times))
      ∷ declared core
      ∷ []

  -- The loop over the parts of the aggregate.
  unfoldable pub breakdown_writes : SourceId → EntityId → F → CpuTimes → List (Write F)
  unfolding counter with_scale breakdown
  breakdown_writes id host scale times = for_each (breakdown times) (λ (metric, display, ticks).
      emitted (with_scale scale (counter id host metric display percent)) (uint ticks) ∷ [])

  -- The counts of processes and of context switches, where they are reported.
  unfoldable pub count_writes : SourceId → EntityId → ProcStat → List (Write F)
  unfolding counter gauge
  count_writes id host stat =
      when_some stat.procs_running
        (λ n. emitted (gauge id host (codes "procs_running") (codes "Running") count) (uint n) ∷ [])
      ++ when_some stat.procs_blocked (λ n.
        emitted (gauge id host (codes "procs_blocked") (codes "Blocked") count) (uint n) ∷ [])
      ++ when_some stat.context_switches (λ n.
        emitted (counter id host (codes "ctx_switches") (codes "Context switches") count) (uint n)
        ∷ [])

  unfoldable pub stat_writes : TargetCtx → ProcStat → List (Write F)
  unfolding cpu_descriptor counter with_scale busy
  stat_writes ctx stat =
      let id = cpu_descriptor.id in
      let host = ctx.host.id in
      let per_core_scale = fl.div (fl.of_nat 100) (fl.of_nat ctx.caps.clock_ticks) in
      let aggregate_scale = fl.div per_core_scale (fl.of_nat (max (length stat.cores) 1)) in
      (emitted
          (with_scale aggregate_scale (counter id host (codes "cpu_usage") (codes "CPU") percent))
          (uint (busy stat.all))
        ∷ [])
      ++ breakdown_writes id host aggregate_scale stat.all
      ++ count_writes id host stat
      ++ for_each stat.cores (core_writes id ctx.host per_core_scale)

  unfoldable pub cpu_writes : TargetCtx → Responses → List (Write F)
  unfolding text_of parse_proc_stat stat_writes
  cpu_writes ctx rs =
      when_some (text_of rs proc_stat_request) (λ text. stat_writes ctx (parse_proc_stat text))

  unfoldable pub cpu_source : Source F
  unfolding writing_source cpu_descriptor cpu_writes
  cpu_source = writing_source cpu_descriptor (λ ctx. proc_stat_request ∷ []) cpu_writes
