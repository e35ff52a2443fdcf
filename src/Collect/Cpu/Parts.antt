-- ===== src/Collect/Cpu/Parts.antt =====
-- crates/sg-collect/src/cpu.rs: the parts that are shown beside the use of the processors.
use server_glass.Base.{ℕ, ◌+◌, ◌%◌, ◌^◌, ◌≡◌, List, [], ◌∷◌, Text, arith}
use server_glass.Collect.Cpu.{CpuTimes, busy, total, breakdown}

abbrev pub ticks_sum : List (Text × Text × ℕ) → ℕ
ticks_sum [] = 0
ticks_sum ((metric, display, ticks) ∷ ps) = ticks + ticks_sum ps

-- The four parts add up to the busy ticks and those of waiting for the disk together, on 64 bits,
-- and with the idle ticks to the total: beyond the busy ticks by the waiting.
pub breakdown-ticks_sum :
    (t : CpuTimes)
    → (ticks_sum (breakdown t) % 2 ^ 64 ≡ (busy t + t.iowait) % 2 ^ 64)
      × ((ticks_sum (breakdown t) + t.idle) % 2 ^ 64 ≡ total t)
unfolding breakdown total
breakdown-ticks_sum t = (omega arith, omega arith)
