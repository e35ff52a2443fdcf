-- ===== src/Collect/Process.antt =====
-- crates/sg-collect/src/process.rs: the process table from /proc/<pid>/stat.
pub mod Table
pub mod Names
use server_glass.Base.{
  ℕ, ◌-◌, ◌^◌, max, true, Option, some, List, [], ◌∷◌, Text, codes, split_whitespace, split_once,
  rsplit_at, parse_u64, parse_unsigned, unwrap_or, get_elem?, ◌==◌, ◌>>=◌, lines, if◌then◌else◌,
  filter_map, filter, ltb, leb, take, trim, show_nat, saturating_add, saturating_mul,
}
use server_glass.Base.Float.{FloatOps}
use server_glass.Model.Measure.{bytes, percent}
use server_glass.Model.Ids.{SourceId}
use server_glass.Model.Entity.{process, child_entity, label_entity, Entity}
use server_glass.Model.Caps.{needs_path}
use server_glass.Model.Request.{Request, exec, Responses, text_of}
use server_glass.Model.Series.{gauge, counter, with_scale, uint}
use server_glass.Model.Source.{Source, SourceDescriptor, TargetCtx}
use server_glass.Collect.Writes.{Write, emitted, declared, when_some, for_each, writing_source}

-- `MAX_PROCESSES`
abbrev pub max_processes : ℕ
max_processes = 256

pub record ProcessStat : Type 0 where
  pub pid : ℕ
  pub comm : Text
  pub state : ℕ
  pub cpu_ticks : ℕ
  pub rss_pages : ℕ

-- The closure `at`: field 3 is the first behind the name.
unfoldable pub stat_field : List Text → ℕ → Text
unfolding get_elem?
stat_field rest field = unwrap_or (codes "0") (get_elem? rest (field - 3))

abbrev first_char : Text → ℕ
first_char [] = b'?'
first_char (c ∷ s) = c

-- The row made of the number, the name and the fields behind it.
unfoldable pub stat_row : ℕ → Text → List Text → ProcessStat
unfolding stat_field
stat_row pid comm rest =
    let utime = unwrap_or 0 (parse_u64 (stat_field rest 14)) in
    let stime = unwrap_or 0 (parse_u64 (stat_field rest 15)) in
    record {
      pid = pid;
      comm = comm;
      state = first_char (stat_field rest 3);
      cpu_ticks = saturating_add utime stime;
      rss_pages = unwrap_or 0 (parse_u64 (stat_field rest 24));
    }

-- One line: the name stands between the first `(` and the last `)`, which must follow it.
unfoldable pub parse_process : Text → Option ProcessStat
unfolding split_once rsplit_at trim split_whitespace stat_row
parse_process line = do
  opened ← split_once (λ c. c == b'(') line
  closed ← rsplit_at b')' (opened.1)
  pid ← parse_unsigned (2 ^ 32 - 1) (trim (opened.0))
  some (stat_row pid (closed.0) (split_whitespace (closed.1)))

unfoldable pub parse_process_stats : Text → List ProcessStat
unfolding filter_map parse_process lines
parse_process_stats text = filter_map parse_process (lines text)

-- `PROCESS_ARGV`
abbrev pub process_argv : List Text
process_argv = codes "sh" ∷ codes "-c" ∷ codes "cat /proc/[0-9]*/stat 2>/dev/null; exit 0" ∷ []

unfoldable pub process_descriptor : SourceDescriptor
unfolding needs_path
process_descriptor = record {
  id = codes "proc.process";
  display = codes "Processes";
  description = codes "Per-process CPU and memory, so a busy host can be explained";
  produces = process ∷ [];
  requires = needs_path (codes "/proc/stat");
  default_enabled = true;
}

abbrev pub process_request : Request
process_request = exec process_argv

-- `sort_by` on the resident memory, the largest first, equal ones in their order.
unfoldable pub insert_by_rss : ProcessStat → List ProcessStat → List ProcessStat
insert_by_rss p [] = p ∷ []
insert_by_rss p (q ∷ qs) =
    let rest = insert_by_rss p qs in if leb q.rss_pages p.rss_pages then p ∷ q ∷ qs else q ∷ rest

unfoldable pub sort_by_rss : List ProcessStat → List ProcessStat
unfolding insert_by_rss
sort_by_rss [] = []
sort_by_rss (p ∷ ps) = insert_by_rss p (sort_by_rss ps)

-- `retain`, `sort_by` and `truncate`
unfoldable pub process_table : List ProcessStat → List ProcessStat
unfolding filter sort_by_rss
process_table ps = take max_processes (sort_by_rss (filter (λ p. ltb 0 p.rss_pages) ps))

module _ {F : Type 0} ⦃fl : FloatOps F⦄ where
  unfoldable pub process_entry : SourceId → Entity → F → ℕ → ProcessStat → List (Write F)
  unfolding child_entity label_entity show_nat counter gauge with_scale
  process_entry id host cpu_scale page_size p =
      let entity =
        label_entity
          (label_entity (child_entity host process (show_nat p.pid)) (codes "command") p.comm)
          (codes "state") (p.state ∷ []) in
      emitted (with_scale cpu_scale (counter id entity.id (codes "cpu") (codes "CPU") percent))
        (uint p.cpu_ticks)
      ∷ emitted (gauge id entity.id (codes "rss") (codes "Memory") bytes)
          (uint (saturating_mul p.rss_pages page_size))
      ∷ declared entity
      ∷ []

  unfoldable pub table_writes : TargetCtx → List ProcessStat → List (Write F)
  unfolding process_descriptor process_entry process_table
  table_writes ctx ps =
      let cpu_scale = fl.div (fl.of_nat 100) (fl.of_nat ctx.caps.clock_ticks) in
      let page_size = max ctx.caps.page_size 1 in
      for_each (process_table ps) (process_entry process_descriptor.id ctx.host cpu_scale page_size)

  unfoldable pub process_writes : TargetCtx → Responses → List (Write F)
  unfolding text_of parse_process_stats table_writes
  process_writes ctx rs =
      when_some (text_of rs process_request) (λ text. table_writes ctx (parse_process_stats text))

  unfoldable pub process_source : Source F
  unfolding writing_source process_descriptor process_writes
  process_source = writing_source process_descriptor (λ ctx. process_request ∷ []) process_writes
