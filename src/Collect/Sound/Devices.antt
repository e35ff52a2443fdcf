-- ===== src/Collect/Sound/Devices.antt =====
-- crates/sg-collect/src/{cpu,network,diskio,filesystem,process,cgroup,sensors}.rs: the sources that
-- write entities below the host.
use server_glass.Base.{some, ◌≡◌, Option-cases, inl, inr, refl, ℕ, List, Text}
use server_glass.Base.Float.{FloatOps}
use server_glass.Model.Ids.{SourceId}
use server_glass.Model.Entity.{Entity}
use server_glass.Model.Request.{Responses}
use server_glass.Model.Source.{TargetCtx}
use server_glass.Collect.Sound.{
  Own, Own-append, Own-when_some, Own-when, Own-for_each, Own-host, Own-cons, Block-end,
  Block-limit, Block-when_some, Block-cons, Block-for_each, Own-Block,
}
use server_glass.Collect.Cpu.{
  cpu_writes, cpu_descriptor, core_writes, CpuTimes, stat_writes, ProcStat, parse_proc_stat,
  breakdown_writes, count_writes,
}
use server_glass.Collect.DiskIo.{
  disk_io_writes, disk_io_descriptor, disk_writes, disk_entity, parent_device, DiskStats,
}
use server_glass.Collect.Filesystem.{
  filesystem_writes, filesystem_descriptor, mount_writes, Filesystem,
}
use server_glass.Collect.Process.{process_writes, process_descriptor, process_entry, ProcessStat}
use server_glass.Collect.Cgroup.{cgroup_writes, cgroup_descriptor, workload_writes, CgroupStats}
use server_glass.Collect.Sensors.{sensors_writes, sensors_descriptor, reading_writes, Reading}
use server_glass.Collect.Network.{
  network_writes, network_descriptor, interface_writes, InterfaceStats,
}

disk_entity-parent :
    (host : Entity) (stacked : List Text) (disks : List DiskStats) (d : DiskStats)
    → (disk_entity host stacked disks d).parent ≡ some host.id
unfolding disk_entity
disk_entity-parent host stacked disks d = elim (Option-cases (parent_device d.name disks)) [
  | inl e ↦ rw (disk_entity, e) refl
  | inr (parent, e) ↦ rw (disk_entity, e) refl
]

module _ {F : Type 0} ⦃fl : FloatOps F⦄ (source : SourceId) (host : Entity) where
  core_writes-Own :
      (scale : F) (core : ℕ × CpuTimes) → Own source host (core_writes source host scale core)
  unfolding core_writes
  core_writes-Own scale (index, times) = Own-Block (Block-cons refl refl refl (Block-end refl))

  interface_writes-Own :
      (physical : List Text) (i : InterfaceStats)
      → Own {F = F} source host (interface_writes source host physical i)
  unfolding interface_writes
  interface_writes-Own physical i = Own-Block (
      Block-for_each _ _ _ (λ (metric, display, value, measure). (refl, refl, refl))
        (Block-end refl))

  breakdown_writes-Own :
      (scale : F) (times : CpuTimes) → Own source host (breakdown_writes source host.id scale times)
  unfolding breakdown_writes
  breakdown_writes-Own scale times =
      Own-for_each _ (λ (metric, display, ticks). Own-host refl refl refl)

  count_writes-Own : (stat : ProcStat) → Own {F = F} source host (count_writes source host.id stat)
  unfolding count_writes
  count_writes-Own stat =
      Own-append _ _
        (Own-append _ _ (Own-when_some _ (λ n. Own-host refl refl refl))
          (Own-when_some _ (λ n. Own-host refl refl refl)))
        (Own-when_some _ (λ n. Own-host refl refl refl))

  disk_writes-Own :
      (stacked : List Text) (disks : List DiskStats) (d : DiskStats)
      → Own {F = F} source host (disk_writes source host stacked disks d)
  unfolding disk_writes
  disk_writes-Own stacked disks d = Own-Block (
      Block-for_each _ _ _ (λ (metric, display, value, measure). (refl, refl, refl))
        (Block-cons refl refl refl (Block-end (disk_entity-parent host stacked disks d))))

  mount_writes-Own : (fs : Filesystem) → Own {F = F} source host (mount_writes source host fs)
  unfolding mount_writes
  mount_writes-Own fs = Own-Block (
      Block-cons refl refl refl (
        Block-cons refl refl refl
          (Block-cons refl refl refl (Block-cons refl refl refl (Block-end refl)))))

  process_entry-Own :
      (scale : F) (page : ℕ) (p : ProcessStat)
      → Own source host (process_entry source host scale page p)
  unfolding process_entry
  process_entry-Own scale page p =
      Own-Block (Block-cons refl refl refl (Block-cons refl refl refl (Block-end refl)))

  workload_writes-Own : (c : CgroupStats) → Own {F = F} source host (workload_writes source host c)
  unfolding workload_writes
  workload_writes-Own c = Own-Block (
      Block-cons refl refl refl (
        Block-limit _ _ refl refl refl (
          Block-when_some _ _ _ (λ fraction. (refl, refl, refl))
            (Block-cons refl refl refl (Block-end refl)))))

  reading_writes-Own : (r : Reading F) → Own source host (reading_writes source host r)
  unfolding reading_writes
  reading_writes-Own r = Own-Block (Block-limit _ _ refl refl refl (Block-end refl))

module _ {F : Type 0} ⦃fl : FloatOps F⦄ (ctx : TargetCtx) where
  stat_writes-Own :
      (stat : ProcStat) → Own {F = F} cpu_descriptor.id ctx.host (stat_writes ctx stat)
  unfolding stat_writes
  stat_writes-Own stat =
      let id = cpu_descriptor.id in
      Own-cons refl refl refl (
        Own-append _ _
          (Own-append _ _ (breakdown_writes-Own id ctx.host _ stat.all)
            (count_writes-Own id ctx.host stat))
          (Own-for_each stat.cores (core_writes-Own id ctx.host _)))

module _ {F : Type 0} ⦃fl : FloatOps F⦄ (ctx : TargetCtx) (rs : Responses) where
  pub cpu_writes-Own : Own {F = F} cpu_descriptor.id ctx.host (cpu_writes ctx rs)
  unfolding cpu_writes
  cpu_writes-Own = Own-when_some _ (λ text. stat_writes-Own ctx (parse_proc_stat text))

  pub network_writes-Own : Own {F = F} network_descriptor.id ctx.host (network_writes ctx rs)
  unfolding network_writes
  network_writes-Own = Own-when_some _ (λ text.
      Own-append _ _
        (Own-for_each _ (λ i. Own-when _ (interface_writes-Own network_descriptor.id ctx.host _ i)))
        (Own-cons refl refl refl (Own-host refl refl refl)))

  pub disk_io_writes-Own : Own {F = F} disk_io_descriptor.id ctx.host (disk_io_writes ctx rs)
  unfolding disk_io_writes
  disk_io_writes-Own = Own-when_some _ (λ text.
      Own-append _ _
        (Own-for_each _ (λ d. Own-when _ (disk_writes-Own disk_io_descriptor.id ctx.host _ _ d)))
        (Own-cons refl refl refl (Own-host refl refl refl)))

  pub filesystem_writes-Own :
      Own {F = F} filesystem_descriptor.id ctx.host (filesystem_writes ctx rs)
  unfolding filesystem_writes
  filesystem_writes-Own = Own-when_some _ (λ text.
      Own-append _ _
        (Own-for_each _ (λ fs. Own-when _ (mount_writes-Own filesystem_descriptor.id ctx.host fs)))
        (Own-when_some _ (λ usage. Own-host refl refl refl)))

  pub process_writes-Own : Own {F = F} process_descriptor.id ctx.host (process_writes ctx rs)
  unfolding process_writes
  process_writes-Own =
      Own-when_some _
        (λ text. Own-for_each _ (process_entry-Own process_descriptor.id ctx.host _ _))

  pub cgroup_writes-Own : Own {F = F} cgroup_descriptor.id ctx.host (cgroup_writes ctx rs)
  unfolding cgroup_writes
  cgroup_writes-Own = Own-when_some _ (λ text.
      Own-for_each _ (λ c. Own-when _ (workload_writes-Own cgroup_descriptor.id ctx.host c)))

  pub sensors_writes-Own : Own {F = F} sensors_descriptor.id ctx.host (sensors_writes ctx rs)
  unfolding sensors_writes
  sensors_writes-Own = Own-when_some _ (λ text.
      Own-append _ _ (Own-when_some _ (λ hot. Own-host refl refl refl))
        (Own-for_each _ (reading_writes-Own sensors_descriptor.id ctx.host)))
