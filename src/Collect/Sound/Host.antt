-- ===== src/Collect/Sound/Host.antt =====
-- crates/sg-collect/src/{load,memory,pressure,tcp}.rs: the sources that write series of the host.
use server_glass.Base.{refl, ℕ, Map}
use server_glass.Base.Int.{ℤ}
use server_glass.Base.Float.{FloatOps}
use server_glass.Model.Ids.{SourceId}
use server_glass.Model.Entity.{Entity}
use server_glass.Model.Request.{Responses}
use server_glass.Model.Source.{TargetCtx}
use server_glass.Collect.Sound.{
  Own, Own-append, Own-when_some, Own-when, Own-for_each, Own-host, Own-cons,
}
use server_glass.Collect.Load.{load_writes, load_descriptor}
use server_glass.Collect.Pressure.{pressure_writes, pressure_descriptor}
use server_glass.Collect.Memory.{memory_writes, memory_descriptor, meminfo_writes, swap_writes}
use server_glass.Collect.Tcp.{tcp_writes, tcp_descriptor, sockstat_writes, snmp_writes}

module _ {F : Type 0} ⦃fl : FloatOps F⦄ (ctx : TargetCtx) (rs : Responses) where
  pub load_writes-Own : Own {F = F} load_descriptor.id ctx.host (load_writes ctx rs)
  unfolding load_writes
  load_writes-Own =
      Own-append _ _
        (Own-when_some _ (λ load.
          Own-append _ _ (Own-for_each _ (λ (metric, display, value). Own-host refl refl refl))
            (Own-when _ (Own-host refl refl refl))))
        (Own-when_some _ (λ up. Own-host refl refl refl))

  pub pressure_writes-Own : Own {F = F} pressure_descriptor.id ctx.host (pressure_writes ctx rs)
  unfolding pressure_writes
  pressure_writes-Own = Own-for_each _ (λ (key, path, display). Own-when_some _ (λ text.
      Own-cons refl refl refl
        (Own-cons refl refl refl (Own-when_some _ (λ full. Own-host refl refl refl)))))

module _ {F : Type 0} ⦃fl : FloatOps F⦄ (source : SourceId) (host : Entity) where
  swap_writes-Own :
      (total : ℕ) (mem : Map ℕ) → Own {F = F} source host (swap_writes source host.id total mem)
  unfolding swap_writes
  swap_writes-Own total mem =
      Own-cons refl refl refl (Own-cons refl refl refl (Own-host refl refl refl))

  meminfo_writes-Own :
      (total : ℕ) (mem : Map ℕ) → Own {F = F} source host (meminfo_writes source host.id total mem)
  unfolding meminfo_writes
  meminfo_writes-Own total mem = Own-cons refl refl refl (
      Own-cons refl refl refl (
        Own-cons refl refl refl (
          Own-cons refl refl refl (
            Own-append _ _
              (Own-for_each _
                (λ (field, metric, display). Own-when_some _ (λ value. Own-host refl refl refl)))
              (Own-when_some _ (λ swap. Own-when _ (swap_writes-Own swap mem)))))))

  sockstat_writes-Own :
      (m : Map (Map ℕ)) → Own {F = F} source host (sockstat_writes source host.id m)
  unfolding sockstat_writes
  sockstat_writes-Own m = Own-append _ _ (Own-when_some _ (λ used. Own-host refl refl refl)) (
      Own-for_each _
        (λ (proto, field, metric, display). Own-when_some _ (λ value. Own-host refl refl refl)))

  snmp_writes-Own : (m : Map (Map ℤ)) → Own {F = F} source host (snmp_writes source host.id m)
  unfolding snmp_writes
  snmp_writes-Own m = Own-when_some _ (λ tcp.
      Own-append _ _ (Own-when_some _ (λ established. Own-host refl refl refl)) (
        Own-for_each _
          (λ (field, metric, display). Own-when_some _ (λ value. Own-host refl refl refl))))

module _ {F : Type 0} ⦃fl : FloatOps F⦄ (ctx : TargetCtx) (rs : Responses) where
  pub memory_writes-Own : Own {F = F} memory_descriptor.id ctx.host (memory_writes ctx rs)
  unfolding memory_writes
  memory_writes-Own = Own-when_some _ (λ text.
      Own-when_some _
        (λ total. Own-when _ (meminfo_writes-Own memory_descriptor.id ctx.host total _)))

  pub tcp_writes-Own : Own {F = F} tcp_descriptor.id ctx.host (tcp_writes ctx rs)
  unfolding tcp_writes
  tcp_writes-Own =
      Own-append _ _ (Own-when_some _ (λ text. sockstat_writes-Own tcp_descriptor.id ctx.host _))
        (Own-when_some _ (λ text. snmp_writes-Own tcp_descriptor.id ctx.host _))
