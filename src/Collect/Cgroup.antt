-- ===== src/Collect/Cgroup.antt =====
-- crates/sg-collect/src/cgroup.rs: containers and virtual machines from the cgroup v2 hierarchy.
pub mod Sweep
use server_glass.Base.{
  ℕ, ◌-◌, true, Bool, ◌||◌, Option, none, some, List, [], ◌∷◌, ◌++◌, Text, codes, split_on,
  split_once, parse_u64, unwrap_or, get_elem?, ◌>>=◌, lines, text_eq, if◌then◌else◌, is_whitespace,
  ltb, take, trim, strip_prefix, strip_suffix,
}
use mathlib.Core.List.{reverse}
use server_glass.Base.Float.{FloatOps}
use server_glass.Model.Measure.{bytes, percent, count}
use server_glass.Model.Ids.{SourceId}
use server_glass.Model.Entity.{
  EntityKind, container, virtual_machine, child_entity, label_entity, Entity,
}
use server_glass.Model.Caps.{needs_path}
use server_glass.Model.Request.{Request, exec, Responses, text_of}
use server_glass.Model.Series.{gauge, counter, with_scale, uint, float}
use server_glass.Model.Source.{Source, SourceDescriptor, TargetCtx}
use server_glass.Collect.Writes.{
  Write, emitted, declared, when_some, when, for_each, with_limit, writing_source,
}
use server_glass.Collect.Memory.{share_of}

pub record CgroupStats : Type 0 where
  pub path : Text
  pub usage_usec : ℕ
  pub memory_bytes : ℕ
  pub inactive_file : ℕ
  pub memory_limit : Option ℕ
  pub pids : ℕ

-- The kind and name by the last two parts of the path.
unfoldable pub identify_parts : Text → Text → EntityKind × Text
unfolding strip_prefix strip_suffix
identify_parts leaf parent =
    elim (strip_prefix (codes "docker-") leaf >>= strip_suffix (codes ".scope")) [
      | some id ↦ (container, take 12 id)
      | none ↦ elim (strip_prefix (codes "libpod-") leaf >>= strip_suffix (codes ".scope")) [
        | some id ↦ (container, take 12 id)
        | none ↦
            if text_eq parent (codes "docker")
            then (container, take 12 leaf)
            else if text_eq parent (codes "lxc") || text_eq parent (codes "lxc.payload")
            then (container, leaf)
            else if text_eq parent (codes "qemu.slice")
            then (
              virtual_machine,
              codes "VM " ++ unwrap_or leaf (strip_suffix (codes ".scope") leaf),
            )
            else (container, leaf)
      ]
    ]

-- `CgroupStats::identify`: `rsplit('/')` gives the last part and the one before it.
unfoldable pub identify : CgroupStats → EntityKind × Text
unfolding split_on get_elem? identify_parts
identify c =
    let parts = reverse (split_on b'/' c.path) in
    identify_parts (unwrap_or c.path (get_elem? parts 0)) (unwrap_or [] (get_elem? parts 1))

-- `CgroupStats::working_set`: `saturating_sub`
unfoldable pub working_set : CgroupStats → ℕ
working_set c = c.memory_bytes - c.inactive_file

unfoldable pub is_running : CgroupStats → Bool
is_running c = ltb 0 c.pids || ltb 0 c.memory_bytes

-- `CGROUP_ARGV`
abbrev pub cgroup_argv : List Text
cgroup_argv =
    codes "sh"
    ∷ codes "-c"
    ∷ (codes "for d in /sys/fs/cgroup/system.slice/docker-*.scope /sys/fs/cgroup/docker/* "
        ++ codes "/sys/fs/cgroup/machine.slice/libpod-*.scope /sys/fs/cgroup/lxc/* "
        ++ codes "/sys/fs/cgroup/lxc.payload/* /sys/fs/cgroup/qemu.slice/*.scope; do "
        ++ codes "[ -f \"$d/cpu.stat\" ] || continue; "
        ++ codes "printf '#%s\\n' \"$d\"; "
        ++ codes "cat \"$d/cpu.stat\" 2>/dev/null; "
        ++ codes "printf 'memory.current %s\\n' \"$(cat \"$d/memory.current\" 2>/dev/null)\"; "
        ++ codes "printf 'inactive_file %s\\n' "
        ++ codes "\"$(awk '/^inactive_file /{print $2}' \"$d/memory.stat\" 2>/dev/null)\"; "
        ++ codes "printf 'memory.max %s\\n' \"$(cat \"$d/memory.max\" 2>/dev/null)\"; "
        ++ codes "printf 'pids.current %s\\n' \"$(cat \"$d/pids.current\" 2>/dev/null)\"; "
        ++ codes "done; exit 0")
    ∷ []

-- What a line `key value` sets: the match on the key.
unfoldable pub set_reading : Text → Text → CgroupStats → CgroupStats
set_reading key value c =
    if text_eq key (codes "usage_usec")
    then record c { usage_usec = unwrap_or 0 (parse_u64 value) }
    else if text_eq key (codes "memory.current")
    then record c { memory_bytes = unwrap_or 0 (parse_u64 value) }
    else if text_eq key (codes "inactive_file")
    then record c { inactive_file = unwrap_or 0 (parse_u64 value) }
    else if text_eq key (codes "memory.max")
    then record c { memory_limit = parse_u64 value }
    else if text_eq key (codes "pids.current")
    then record c { pids = unwrap_or 0 (parse_u64 value) }
    else c

-- `out.last_mut()`
unfoldable pub update_last : {A : Type 0} → (A → A) → List A → List A
update_last f [] = []
update_last f (x ∷ []) = f x ∷ []
update_last f (x ∷ y ∷ r) = x ∷ update_last f (y ∷ r)

abbrev pub empty_cgroup : Text → CgroupStats
empty_cgroup path = record {
  path = path;
  usage_usec = 0;
  memory_bytes = 0;
  inactive_file = 0;
  memory_limit = none;
  pids = 0;
}

-- One line of the sweep: the start of a cgroup, or a reading of the last one.
unfoldable pub cgroup_line : Text → List CgroupStats → List CgroupStats
unfolding strip_prefix split_once is_whitespace trim update_last set_reading
cgroup_line line out = elim (strip_prefix (codes "#") line) [
  | some path ↦ out ++ empty_cgroup (trim path) ∷ []
  | none ↦ elim (split_once is_whitespace line) [
    | none ↦ out
    | some kv ↦ update_last (set_reading (kv.0) (trim (kv.1))) out
  ]
]

unfoldable pub cgroups_of : List Text → List CgroupStats → List CgroupStats
unfolding cgroup_line
cgroups_of [] out = out
cgroups_of (l ∷ ls) out = cgroups_of ls (cgroup_line l out)

unfoldable pub parse_cgroups : Text → List CgroupStats
unfolding cgroups_of lines
parse_cgroups text = cgroups_of (lines text) []

unfoldable pub cgroup_descriptor : SourceDescriptor
unfolding needs_path
cgroup_descriptor = record {
  id = codes "cgroup.containers";
  display = codes "Containers & VMs";
  description =
      codes "Per-container and per-VM CPU, memory and process counts, straight from cgroup v2";
  produces = container ∷ virtual_machine ∷ [];
  requires = needs_path (codes "/sys/fs/cgroup/cgroup.controllers");
  default_enabled = true;
}

abbrev pub cgroup_request : Request
cgroup_request = exec cgroup_argv

unfoldable pub cgroup_entity : Entity → CgroupStats → Entity
unfolding identify child_entity label_entity
cgroup_entity host c =
    let (kind, name) = identify c in
    label_entity (child_entity host kind name) (codes "cgroup") c.path

module _ {F : Type 0} ⦃fl : FloatOps F⦄ where
  -- `CgroupStats::memory_fraction`
  unfoldable pub memory_fraction : CgroupStats → Option F
  unfolding share_of working_set
  memory_fraction c = do
    limit ← c.memory_limit >>= λ l. if ltb 0 l then some l else none
    some (share_of (working_set c) limit)

  unfoldable pub limit_of : CgroupStats → Option F
  limit_of c = c.memory_limit >>= λ limit. some (fl.of_nat limit)

  unfoldable pub workload_writes : SourceId → Entity → CgroupStats → List (Write F)
  unfolding cgroup_entity counter gauge with_scale limit_of working_set memory_fraction
  workload_writes id host c =
      let entity = cgroup_entity host c in
      let memory = gauge id entity.id (codes "memory") (codes "Memory") bytes in
      (emitted
          (with_scale (fl.div (fl.of_nat 100) (fl.of_nat 1000000))
            (counter id entity.id (codes "cpu") (codes "CPU") percent))
          (uint c.usage_usec)
        ∷ emitted (with_limit (limit_of c) memory) (uint (working_set c))
        ∷ [])
      ++ when_some (memory_fraction c) (λ fraction.
        emitted (gauge id entity.id (codes "memory_usage") (codes "Memory used") percent)
          (float fraction)
        ∷ [])
      ++ emitted (gauge id entity.id (codes "pids") (codes "Processes") count) (uint c.pids)
        ∷ declared entity
        ∷ []

  unfoldable pub sweep_writes : TargetCtx → List CgroupStats → List (Write F)
  unfolding is_running workload_writes cgroup_descriptor
  sweep_writes ctx cs =
      for_each cs (λ c. when (is_running c) (workload_writes cgroup_descriptor.id ctx.host c))

  unfoldable pub cgroup_writes : TargetCtx → Responses → List (Write F)
  unfolding text_of sweep_writes parse_cgroups
  cgroup_writes ctx rs =
      when_some (text_of rs cgroup_request) (λ text. sweep_writes ctx (parse_cgroups text))

  unfoldable pub cgroup_source : Source F
  unfolding writing_source cgroup_descriptor cgroup_writes
  cgroup_source = writing_source cgroup_descriptor (λ ctx. cgroup_request ∷ []) cgroup_writes
