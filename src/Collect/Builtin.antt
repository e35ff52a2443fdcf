-- ===== src/Collect/Builtin.antt =====
-- crates/sg-collect/src/lib.rs: the list of the built-in collectors.
use server_glass.Base.{List, [], ◌∷◌}
use server_glass.Base.Float.{FloatOps}
use server_glass.Model.Source.{Source}
use server_glass.Collect.Cpu.{cpu_source}
use server_glass.Collect.Memory.{memory_source}
use server_glass.Collect.Load.{load_source}
use server_glass.Collect.Filesystem.{filesystem_source}
use server_glass.Collect.DiskIo.{disk_io_source}
use server_glass.Collect.Network.{network_source}
use server_glass.Collect.Tcp.{tcp_source}
use server_glass.Collect.Pressure.{pressure_source}
use server_glass.Collect.Sensors.{sensors_source}
use server_glass.Collect.Cgroup.{cgroup_source}
use server_glass.Collect.Process.{process_source}

-- `builtin_sources`
unfoldable pub builtin_sources : {F : Type 0} ⦃fl : FloatOps F⦄ → List (Source F)
unfolding cpu_source memory_source load_source filesystem_source disk_io_source network_source
    tcp_source pressure_source sensors_source cgroup_source process_source
builtin_sources =
    cpu_source ∷ memory_source ∷ load_source ∷ filesystem_source ∷ disk_io_source ∷ network_source
    ∷ tcp_source ∷ pressure_source ∷ sensors_source ∷ cgroup_source ∷ process_source ∷ []
