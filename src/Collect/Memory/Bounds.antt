-- ===== src/Collect/Memory/Bounds.antt =====
-- crates/sg-collect/src/memory.rs: the relations between the numbers that are shown.
use server_glass.Base.{
  ℕ, ◌+◌, ◌-◌, ◌≤◌, ◌<◌, ◌≡◌, refl, Option, none, some, List, [], ◌∷◌, Text, codes, text_eq,
  if◌then◌else◌, Map, get, arith, ◌==◌, false,
}
use server_glass.Base.Float.{FloatOps}
use server_glass.Model.Ids.{SourceId, EntityId}
use server_glass.Model.Series.{Value, uint, float}
use server_glass.Collect.Writes.{Write, emitted, declared, when_some, when}
use server_glass.Collect.Memory.{
  meminfo_writes, available_of, share_of, memory_writes, meminfo_request, memory_descriptor,
  parse_meminfo,
}
use server_glass.Model.Request.{Responses, text_of}
use server_glass.Model.Source.{TargetCtx}

-- The value that is written for the first series with the metric.
abbrev pub shown : {F : Type 0} → Text → List (Write F) → Option (Value F)
shown metric [] = none
shown metric (emitted d v ∷ ws) = if text_eq d.metric metric then some v else shown metric ws
shown metric (declared e ∷ ws) = shown metric ws

-- A total divided into a part that is used and a part that is free, with the used one's percentage.
pub record Divided {F : Type 0} ⦃fl : FloatOps F⦄ (ws : List (Write F)) (total : ℕ) : Type 0 where
  pub used : ℕ
  pub free : ℕ
  pub whole_shown : used + free ≡ total
  pub used_shown : shown (codes "mem_used") ws ≡ some (uint used)
  pub free_shown : shown (codes "mem_available") ws ≡ some (uint free)
  pub total_shown : shown (codes "mem_total") ws ≡ some (uint total)
  pub usage_shown : shown (codes "mem_usage") ws ≡ some (float (share_of used total))

positive_not_zero : (n : ℕ) → 0 < n → (n == 0) ≡ false
positive_not_zero n h = ground arith

available_of-bound : (mem : Map ℕ) (total : ℕ) → available_of mem total ≤ total
unfolding available_of
available_of-bound mem total = ground arith

module _ {F : Type 0} ⦃fl : FloatOps F⦄ where
  meminfo_writes-Divided :
      (source : SourceId) (host : EntityId) (total : ℕ) (mem : Map ℕ)
      → Divided {F = F} (meminfo_writes source host total mem) total
  unfolding meminfo_writes text_eq
  meminfo_writes-Divided source host total mem = record {
    used = total - available_of mem total;
    free = available_of mem total;
    whole_shown = omega (arith, available_of-bound mem total);
    used_shown = refl;
    free_shown = refl;
    total_shown = refl;
    usage_shown = refl;
  }

  -- Of a host that reports a total amount of memory above zero, the used and the available memory
  -- that are shown add up to the total that is shown, and the percentage is that of the used one,
  -- whatever else /proc/meminfo says.
  pub memory_writes-Divided :
      (ctx : TargetCtx) (rs : Responses) (content : Text) (total : ℕ)
      → text_of rs meminfo_request ≡ some content
      → get (codes "MemTotal") (parse_meminfo content) ≡ some total
      → 0 < total
      → Divided {F = F} (memory_writes ctx rs) total
  unfolding memory_writes when_some when
  memory_writes-Divided ctx rs content total e g h =
      rw (e, when_some, g, when_some, positive_not_zero total h, when)
        (meminfo_writes-Divided memory_descriptor.id ctx.host.id total (parse_meminfo content))
