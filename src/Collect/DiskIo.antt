-- ===== src/Collect/DiskIo.antt =====
-- crates/sg-collect/src/diskio.rs: the throughput of the block devices from /proc/diskstats.
pub mod Partitions
pub mod Parents
use server_glass.Base.{
  ℕ, true, false, Bool, not, ◌&&◌, ◌||◌, Option, none, some, List, [], ◌∷◌, ◌++◌, Text, codes,
  split_whitespace, parse_u64, unwrap_or, get_elem?, ◌==◌, ◌>>=◌, lines, text_eq, if◌then◌else◌,
  filter_map, is_empty, any, all, is_digit, length, ltb, leb, starts_with, strip_prefix, len_utf8,
  add_where, show_bool, saturating_mul, is_some,
}
use server_glass.Base.Float.{FloatOps}
use server_glass.Model.Measure.{bytes, operations, count}
use server_glass.Model.Ids.{SourceId}
use server_glass.Model.Entity.{disk, child_entity, label_entity, Entity}
use server_glass.Model.Caps.{needs_path, contains}
use server_glass.Model.Request.{Request, read_file, exec, Responses, text_of}
use server_glass.Model.Series.{counter, gauge, uint}
use server_glass.Model.Source.{Source, SourceDescriptor, TargetCtx}
use server_glass.Collect.Writes.{
  Write, emitted, declared, when_some, when, for_each, writing_source,
}
use server_glass.Collect.Network.{listed_names}

pub record DiskStats : Type 0 where
  pub name : Text
  pub reads : ℕ
  pub read_sectors : ℕ
  pub read_ms : ℕ
  pub writes : ℕ
  pub write_sectors : ℕ
  pub write_ms : ℕ
  pub io_in_progress : ℕ
  pub io_ms : ℕ

-- `SECTOR_BYTES`, `DiskStats::read_bytes` and `DiskStats::write_bytes`
abbrev pub sector_bytes : ℕ
sector_bytes = 512

unfoldable pub read_bytes : DiskStats → ℕ
read_bytes d = saturating_mul d.read_sectors sector_bytes

unfoldable pub write_bytes : DiskStats → ℕ
write_bytes d = saturating_mul d.write_sectors sector_bytes

unfoldable pub is_virtual : DiskStats → Bool
unfolding any starts_with
is_virtual d =
    any (λ p. starts_with p d.name)
      (codes "loop" ∷ codes "ram" ∷ codes "fd" ∷ codes "sr" ∷ codes "zram" ∷ [])

-- `DiskStats::is_idle`
unfoldable pub is_idle : DiskStats → Bool
is_idle d = d.reads == 0 && d.writes == 0

-- The closure `n`.
unfoldable pub field_at : List Text → ℕ → ℕ
unfolding get_elem?
field_at fields i = unwrap_or 0 (get_elem? fields i >>= parse_u64)

unfoldable pub parse_disk : Text → Option DiskStats
unfolding split_whitespace field_at get_elem?
parse_disk line =
    let fields = split_whitespace line in
    if ltb (length fields) 14
    then none
    else some (record {
      name = unwrap_or [] (get_elem? fields 2);
      reads = field_at fields 3;
      read_sectors = field_at fields 5;
      read_ms = field_at fields 6;
      writes = field_at fields 7;
      write_sectors = field_at fields 9;
      write_ms = field_at fields 10;
      io_in_progress = field_at fields 11;
      io_ms = field_at fields 12;
    })

unfoldable pub parse_diskstats : Text → List DiskStats
unfolding parse_disk filter_map lines
parse_diskstats text = filter_map parse_disk (lines text)

-- What the name of a partition has behind that of its disk.
unfoldable pub is_partition_suffix : Text → Bool
unfolding strip_prefix all is_digit
is_partition_suffix suffix =
    let digits = unwrap_or suffix (strip_prefix (codes "p") suffix) in
    not (is_empty digits) && all is_digit digits

unfoldable pub is_parent_of : Text → Text → Bool
unfolding strip_prefix is_partition_suffix
is_parent_of name candidate = not (text_eq candidate name) && (elim (strip_prefix candidate name) [
  | none ↦ false
  | some suffix ↦ is_partition_suffix suffix
])

-- `max_by_key(len)`: the last of the longest.
unfoldable pub longest : List Text → Option Text
unfolding len_utf8
longest [] = none
longest (x ∷ xs) = elim (longest xs) [
  | none ↦ some x
  | some y ↦ some (if leb (len_utf8 x) (len_utf8 y) then y else x)
]

unfoldable pub parent_device : Text → List DiskStats → Option Text
unfolding longest filter_map is_parent_of
parent_device name disks =
    longest (filter_map (λ d. if is_parent_of name d.name then some d.name else none) disks)

-- `STACKED_ARGV`
abbrev pub stacked_argv : List Text
stacked_argv =
    codes "sh"
    ∷ codes "-c"
    ∷ (codes "for d in /sys/block/*; do [ -d \"$d/slaves\" ] && "
        ++ codes "[ -n \"$(ls -A \"$d/slaves\" 2>/dev/null)\" ] && echo \"${d##*/}\"; done; exit 0")
    ∷ []

unfoldable pub disk_io_descriptor : SourceDescriptor
unfolding needs_path
disk_io_descriptor = record {
  id = codes "proc.diskio";
  display = codes "Disk I/O";
  description = codes "Per-device read/write throughput and operation rates";
  produces = disk ∷ [];
  requires = needs_path (codes "/proc/diskstats");
  default_enabled = true;
}

abbrev pub diskstats_request : Request
diskstats_request = read_file (codes "/proc/diskstats")

abbrev pub stacked_request : Request
stacked_request = exec stacked_argv

-- The local `is_stacked`, and a disk that the loop does not skip.
unfoldable pub is_stacked : List Text → DiskStats → Bool
unfolding any starts_with
is_stacked stacked d = contains stacked d.name || starts_with (codes "zd") d.name

unfoldable pub is_listed : DiskStats → Bool
unfolding is_virtual is_idle
is_listed d = not (is_virtual d || is_idle d)

-- A whole device that does not sit on others: it adds to the host's totals.
unfoldable pub is_whole : List Text → List DiskStats → DiskStats → Bool
unfolding is_listed is_stacked parent_device
is_whole stacked disks d =
    is_listed d && (not (is_some (parent_device d.name disks)) && not (is_stacked stacked d))

unfoldable pub host_read : List Text → List DiskStats → ℕ
unfolding is_whole add_where read_bytes
host_read stacked disks = add_where (is_whole stacked disks) read_bytes disks 0

unfoldable pub host_write : List Text → List DiskStats → ℕ
unfolding is_whole add_where write_bytes
host_write stacked disks = add_where (is_whole stacked disks) write_bytes disks 0

unfoldable pub disk_entity : Entity → List Text → List DiskStats → DiskStats → Entity
unfolding is_stacked parent_device child_entity label_entity
disk_entity host stacked disks d =
    let entity =
      label_entity (child_entity host disk d.name) (codes "stacked")
        (show_bool (is_stacked stacked d)) in
    elim (parent_device d.name disks) [
      | none ↦ entity
      | some parent ↦ label_entity entity (codes "partition_of") parent
    ]

module _ {F : Type 0} ⦃fl : FloatOps F⦄ where
  -- What the loop writes for a disk.
  unfoldable pub disk_writes :
      SourceId → Entity → List Text → List DiskStats → DiskStats → List (Write F)
  unfolding disk_entity counter gauge read_bytes write_bytes
  disk_writes id host stacked disks d =
      let entity = disk_entity host stacked disks d in
      for_each
        ((codes "read_bytes", codes "Read", read_bytes d, bytes)
          ∷ (codes "write_bytes", codes "Written", write_bytes d, bytes)
          ∷ (codes "reads", codes "Read ops", d.reads, operations)
          ∷ (codes "writes", codes "Write ops", d.writes, operations)
          ∷ [])
        (λ (metric, display, value, measure).
          emitted (counter id entity.id metric display measure) (uint value) ∷ [])
      ++ emitted (gauge id entity.id (codes "in_flight") (codes "In flight") count)
          (uint d.io_in_progress)
        ∷ declared entity
        ∷ []

  unfoldable pub diskstats_writes : TargetCtx → List Text → List DiskStats → List (Write F)
  unfolding disk_io_descriptor is_listed disk_writes counter host_read host_write
  diskstats_writes ctx stacked disks =
      let id = disk_io_descriptor.id in
      for_each disks (λ d. when (is_listed d) (disk_writes id ctx.host stacked disks d))
      ++ emitted (counter id ctx.host.id (codes "disk_read") (codes "Disk read") bytes)
          (uint (host_read stacked disks))
        ∷ emitted (counter id ctx.host.id (codes "disk_write") (codes "Disk write") bytes)
            (uint (host_write stacked disks))
        ∷ []

  unfoldable pub disk_io_writes : TargetCtx → Responses → List (Write F)
  unfolding text_of listed_names diskstats_writes parse_diskstats
  disk_io_writes ctx rs = when_some (text_of rs diskstats_request) (λ text.
      diskstats_writes ctx (listed_names (text_of rs stacked_request)) (parse_diskstats text))

  unfoldable pub disk_io_source : Source F
  unfolding writing_source disk_io_descriptor disk_io_writes
  disk_io_source =
      writing_source disk_io_descriptor (λ ctx. diskstats_request ∷ stacked_request ∷ [])
        disk_io_writes
