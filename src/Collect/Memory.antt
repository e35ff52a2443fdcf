-- ===== src/Collect/Memory.antt =====
-- crates/sg-collect/src/memory.rs: memory and swap from /proc/meminfo.
pub mod Bounds
use server_glass.Base.{
  ℕ, ◌+◌, ◌-◌, ◌%◌, ◌^◌, min, true, false, not, Bool, Option, none, some, List, [], ◌∷◌, ◌++◌, Text,
  codes, split_whitespace, split_once, parse_u64, unwrap_or, get_elem?, ltb, ◌==◌, ◌>>=◌, ◌||◌,
  lines, Map, get, insert, text_eq, saturating_mul, if◌then◌else◌,
}
use server_glass.Base.Float.{FloatOps}
use server_glass.Model.Ids.{SourceId, EntityId}
use server_glass.Model.Measure.{bytes, percent}
use server_glass.Model.Entity.{host_kind}
use server_glass.Model.Caps.{needs_path}
use server_glass.Model.Request.{Request, read_file, Responses, text_of}
use server_glass.Model.Series.{gauge, with_max, float, uint}
use server_glass.Model.Source.{Source, SourceDescriptor, TargetCtx}
use server_glass.Collect.Writes.{Write, emitted, when_some, when, for_each, writing_source}

-- The factor that a unit behind the value stands for.
abbrev is_kib : Option Text → Bool
is_kib none = false
is_kib (some w) = text_eq w (codes "kB") || text_eq w (codes "KB")

-- One line of /proc/meminfo: its key, and its value in bytes.
unfoldable pub parse_meminfo_line : Text → Option (Text × ℕ)
unfolding split_once split_whitespace get_elem?
parse_meminfo_line line = do
  kv ← split_once (λ c. c == b':') line
  let parts = split_whitespace (kv.1)
  value ← get_elem? parts 0 >>= parse_u64
  some (kv.0, if is_kib (get_elem? parts 1) then saturating_mul value 1024 else value)

unfoldable pub meminfo_of : List Text → Map ℕ → Map ℕ
unfolding parse_meminfo_line insert
meminfo_of [] out = out
meminfo_of (l ∷ ls) out = elim (parse_meminfo_line l) [
  | none ↦ meminfo_of ls out
  | some kv ↦ meminfo_of ls (insert (kv.0) (kv.1) out)
]

unfoldable pub parse_meminfo : Text → Map ℕ
unfolding meminfo_of lines
parse_meminfo text = meminfo_of (lines text) []

unfoldable pub memory_descriptor : SourceDescriptor
unfolding needs_path
memory_descriptor = record {
  id = codes "proc.memory";
  display = codes "Memory";
  description = codes "Memory and swap usage from /proc/meminfo";
  produces = host_kind ∷ [];
  requires = needs_path (codes "/proc/meminfo");
  default_enabled = true;
}

abbrev pub meminfo_request : Request
meminfo_request = read_file (codes "/proc/meminfo")

-- The kernel's estimate, or the sum of an old kernel's parts, capped at the total.
unfoldable pub available_of : Map ℕ → ℕ → ℕ
unfolding get
available_of mem total =
    min
      (elim (get (codes "MemAvailable") mem) [
        | some v ↦ v
        | none ↦
            (unwrap_or 0 (get (codes "MemFree") mem)
              + unwrap_or 0 (get (codes "Buffers") mem)
              + unwrap_or 0 (get (codes "Cached") mem))
            % 2 ^ 64
      ])
      total

module _ {F : Type 0} ⦃fl : FloatOps F⦄ where
  -- `part as f64 / total as f64 * 100.0`
  unfoldable pub share_of : ℕ → ℕ → F
  share_of part total = fl.mul (fl.div (fl.of_nat part) (fl.of_nat total)) (fl.of_nat 100)

  unfoldable pub swap_writes : SourceId → EntityId → ℕ → Map ℕ → List (Write F)
  unfolding share_of gauge with_max get
  swap_writes id host swap_total mem =
      let swap_free = min (unwrap_or 0 (get (codes "SwapFree") mem)) swap_total in
      let swap_used = swap_total - swap_free in
      emitted (gauge id host (codes "swap_usage") (codes "Swap") percent)
        (float (share_of swap_used swap_total))
      ∷ emitted
          (with_max (fl.of_nat swap_total)
            (gauge id host (codes "swap_used") (codes "Swap used") bytes))
          (uint swap_used)
      ∷ emitted (gauge id host (codes "swap_total") (codes "Swap total") bytes) (uint swap_total)
      ∷ []

  -- What is written for the parsed file, from a total that is not zero.
  unfoldable pub meminfo_writes : SourceId → EntityId → ℕ → Map ℕ → List (Write F)
  unfolding available_of share_of swap_writes gauge with_max get
  meminfo_writes id host total mem =
      let available = available_of mem total in
      let used = total - available in
      (emitted (gauge id host (codes "mem_usage") (codes "Memory") percent)
          (float (share_of used total))
        ∷ emitted
            (with_max (fl.of_nat total) (gauge id host (codes "mem_used") (codes "Used") bytes))
            (uint used)
        ∷ emitted (gauge id host (codes "mem_total") (codes "Total") bytes) (uint total)
        ∷ emitted (gauge id host (codes "mem_available") (codes "Available") bytes) (uint available)
        ∷ [])
      ++ for_each
          ((codes "MemFree", codes "mem_free", codes "Free")
            ∷ (codes "Cached", codes "mem_cached", codes "Cached")
            ∷ (codes "Buffers", codes "mem_buffers", codes "Buffers")
            ∷ [])
          (λ (field, metric, display).
            when_some (get field mem)
              (λ value. emitted (gauge id host metric display bytes) (uint value) ∷ []))
      ++ when_some (get (codes "SwapTotal") mem)
          (λ swap_total. when (ltb 0 swap_total) (swap_writes id host swap_total mem))

  unfoldable pub memory_writes : TargetCtx → Responses → List (Write F)
  unfolding memory_descriptor text_of parse_meminfo meminfo_writes get
  memory_writes ctx rs = when_some (text_of rs meminfo_request) (λ text.
      let mem = parse_meminfo text in
      when_some (get (codes "MemTotal") mem) (λ total.
        when (not (total == 0)) (meminfo_writes memory_descriptor.id ctx.host.id total mem)))

  unfoldable pub memory_source : Source F
  unfolding writing_source memory_descriptor memory_writes
  memory_source = writing_source memory_descriptor (λ ctx. meminfo_request ∷ []) memory_writes
