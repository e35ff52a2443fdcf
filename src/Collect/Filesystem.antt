-- ===== src/Collect/Filesystem.antt =====
-- crates/sg-collect/src/filesystem.rs: the capacity of the mounted filesystems from `df -P -k`.
use server_glass.Base.{
  ℕ, true, Bool, not, ◌&&◌, ◌||◌, Option, none, some, List, [], ◌∷◌, ◌++◌, Text, codes,
  split_whitespace, parse_u64, unwrap_or, get_elem?, ◌==◌, ◌>>=◌, lines, text_eq, if◌then◌else◌,
  filter_map, any, length, ltb, starts_with, saturating_mul, drop, join,
}
use server_glass.Base.Float.{FloatOps}
use server_glass.Model.Measure.{bytes, percent}
use server_glass.Model.Ids.{SourceId}
use server_glass.Model.Entity.{filesystem, child_entity, label_entity, Entity}
use server_glass.Model.Caps.{no_requirements, contains}
use server_glass.Model.Request.{Request, exec, Responses, text_of}
use server_glass.Model.Series.{gauge, with_max, float, uint}
use server_glass.Model.Source.{Source, SourceDescriptor, TargetCtx}
use server_glass.Collect.Memory.{share_of}
use server_glass.Collect.Writes.{
  Write, emitted, declared, when_some, when, for_each, writing_source,
}

pub record Filesystem : Type 0 where
  pub device : Text
  pub mount : Text
  pub total : ℕ
  pub used : ℕ
  pub available : ℕ

abbrev pub pseudo_mounts : List Text
pseudo_mounts = codes "/proc" ∷ codes "/sys" ∷ codes "/dev" ∷ codes "/run" ∷ []

abbrev pub pseudo_devices : List Text
pseudo_devices =
    codes "devtmpfs" ∷ codes "udev" ∷ codes "none" ∷ codes "cgroup" ∷ codes "cgroup2" ∷ []

-- `Filesystem::is_pseudo`
unfoldable pub is_pseudo : Filesystem → Bool
unfolding any starts_with
is_pseudo fs =
    (starts_with (codes "/dev/fuse") fs.device || text_eq fs.device (codes "fusectl"))
    || contains pseudo_devices fs.device
    || any (λ p. text_eq fs.mount p || starts_with (p ++ codes "/") fs.mount) pseudo_mounts

-- The closure `kib`.
unfoldable pub kib : List Text → ℕ → Option ℕ
unfolding get_elem?
kib fields i = do v ← get_elem? fields i >>= parse_u64; some (saturating_mul v 1024)

unfoldable pub parse_df_line : Text → Option Filesystem
unfolding split_whitespace kib get_elem? join
parse_df_line line =
    let fields = split_whitespace line in
    if ltb (length fields) 6 then none else (do
      total ← kib fields 1
      used ← kib fields 2
      available ← kib fields 3
      some (record {
        device = unwrap_or [] (get_elem? fields 0);
        mount = join (codes " ") (drop 5 fields);
        total = total;
        used = used;
        available = available;
      }))

unfoldable pub parse_df : Text → List Filesystem
unfolding filter_map parse_df_line lines
parse_df text = filter_map parse_df_line (drop 1 (lines text))

unfoldable pub filesystem_descriptor : SourceDescriptor
unfolding no_requirements
filesystem_descriptor = record {
  id = codes "proc.filesystem";
  display = codes "Filesystems";
  description = codes "Mounted filesystem capacity and usage";
  produces = filesystem ∷ [];
  requires = no_requirements;
  default_enabled = true;
}

abbrev pub df_request : Request
df_request = exec (codes "df" ∷ codes "-P" ∷ codes "-k" ∷ [])

-- A filesystem that the loop does not skip.
unfoldable pub is_real : Filesystem → Bool
unfolding is_pseudo
is_real fs = not (is_pseudo fs || fs.total == 0)

module _ {F : Type 0} ⦃fl : FloatOps F⦄ where
  -- `Filesystem::usage_percent`
  unfoldable pub usage_percent : Filesystem → F
  unfolding share_of
  usage_percent fs = if fs.total == 0 then fl.of_nat 0 else share_of fs.used fs.total

  -- The assignments to `root_usage` in the loop.
  unfoldable pub root_usage : List Filesystem → Option F → Option F
  unfolding is_real usage_percent
  root_usage [] usage = usage
  root_usage (fs ∷ rest) usage =
      root_usage rest
        (if is_real fs && text_eq fs.mount (codes "/") then some (usage_percent fs) else usage)

  unfoldable pub mount_writes : SourceId → Entity → Filesystem → List (Write F)
  unfolding child_entity label_entity gauge with_max usage_percent
  mount_writes id host fs =
      let entity =
        label_entity (child_entity host filesystem fs.mount) (codes "device") fs.device in
      emitted (gauge id entity.id (codes "usage") (codes "Usage") percent)
        (float (usage_percent fs))
      ∷ emitted
          (with_max (fl.of_nat fs.total) (gauge id entity.id (codes "used") (codes "Used") bytes))
          (uint fs.used)
      ∷ emitted (gauge id entity.id (codes "total") (codes "Total") bytes) (uint fs.total)
      ∷ emitted (gauge id entity.id (codes "available") (codes "Available") bytes)
          (uint fs.available)
      ∷ declared entity
      ∷ []

  unfoldable pub df_writes : TargetCtx → List Filesystem → List (Write F)
  unfolding filesystem_descriptor is_real mount_writes root_usage gauge
  df_writes ctx mounts =
      let id = filesystem_descriptor.id in
      for_each mounts (λ fs. when (is_real fs) (mount_writes id ctx.host fs))
      ++ when_some (root_usage mounts none) (λ usage.
        emitted (gauge id ctx.host.id (codes "disk_usage") (codes "Disk") percent) (float usage)
        ∷ [])

  unfoldable pub filesystem_writes : TargetCtx → Responses → List (Write F)
  unfolding text_of df_writes parse_df
  filesystem_writes ctx rs =
      when_some (text_of rs df_request) (λ text. df_writes ctx (parse_df text))

  unfoldable pub filesystem_source : Source F
  unfolding writing_source filesystem_descriptor filesystem_writes
  filesystem_source =
      writing_source filesystem_descriptor (λ ctx. df_request ∷ []) filesystem_writes
